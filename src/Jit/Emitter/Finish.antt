-- ===== src/Jit/Emitter/Finish.antt =====
-- crates/quantum-jit/src/emitter.rs: `finish` puts every offset in place.
use quantum.Prelude.{
  ℕ, ◌≡◌, refl, sym, ap, ◌∙◌, subst, List, [], ◌∷◌, Option, none, some, get_elem?, set,
  get_elem?-set_self, get_elem?-set_ne, get_elem?-lt, inl, inr,
}
use mathlib.Core.Option.{some-injective}
use quantum.Prelude.Checked.{Checked, returns, panics}
use quantum.Jit.Emitter.State.{
  Fixup, Emitter, Finish, ok, err, delta, patch_branch, resolve, resolve_word, rewrite_word,
  then_loop, finish_loop,
}
use quantum.Jit.Emitter.Patch.{Aims, patch_branch-Aims}
use quantum.Jit.Emitter.Items.{Item, plain, jump, StandsBy, Status}

-- What a round that succeeds has found, and the rest of the loop.
record Round (f : Fixup) (fs : List Fixup) (e e' : Emitter) : Type 0 where
  at : ℕ
  word : ℕ
  new_word : ℕ
  bound : get_elem? e.labels f.label ≡ some (some at)
  stood : get_elem? e.code f.word_index ≡ some word
  patch : patch_branch word f.kind (delta at f.word_index) ≡ ok new_word
  later :
      finish_loop fs (record e { code = set e.code f.word_index new_word }) ≡ returns (ok tt, e')

finish_loop-Round :
    (f : Fixup) (fs : List Fixup) (e e' : Emitter)
    → finish_loop (f ∷ fs) e ≡ returns (ok tt, e')
    → Round f fs e e'
unfolding finish_loop
finish_loop-Round f fs e e' h = by_label (get_elem? e.labels f.label) refl h
  where
    by_patch :
        (at word : ℕ) (p : Finish ℕ)
        → get_elem? e.labels f.label ≡ some (some at)
        → get_elem? e.code f.word_index ≡ some word
        → patch_branch word f.kind (delta at f.word_index) ≡ p
        → then_loop (finish_loop fs) (rewrite_word e f p) ≡ returns (ok tt, e')
        → Round f fs e e'
    by_patch at word (ok w) b s q h = record {
      at = at;
      word = word;
      new_word = w;
      bound = b;
      stood = s;
      patch = q;
      later = h;
    }
    by_patch at word (err x) b s q h = absurd (cc)

    by_word :
        (at : ℕ) (o : Option ℕ)
        → get_elem? e.labels f.label ≡ some (some at)
        → get_elem? e.code f.word_index ≡ o
        → then_loop (finish_loop fs) (resolve_word e f at o) ≡ returns (ok tt, e')
        → Round f fs e e'
    by_word at none b s h = absurd (cc)
    by_word at (some word) b s h = by_patch at word _ b s refl h

    by_label :
        (o : Option (Option ℕ))
        → get_elem? e.labels f.label ≡ o
        → then_loop (finish_loop fs) (resolve e f o) ≡ returns (ok tt, e')
        → Round f fs e e'
    by_label none b h = absurd (cc)
    by_label (some none) b h = absurd (cc)
    by_label (some (some at)) b h = by_word at _ b refl h

-- What the round leaves of the status of an item.
Status-Round :
    (f : Fixup) (fs : List Fixup) (e e' : Emitter) (r : Round f fs e e') (item : Item)
    → Status e.labels (f ∷ fs) e.code item
    → Status e.labels fs (set e.code f.word_index r.new_word) item
Status-Round f fs e e' r (plain i w) (free, s) =
    (free.1, get_elem?-set_ne e.code r.new_word free.0 ∙ s)
Status-Round f fs e e' r (jump b) (inl (inr (n, waits), s)) =
    inl (waits, get_elem?-set_ne e.code r.new_word n ∙ s)
Status-Round f fs e e' r (jump b) (inr (free, l)) = inr (
  free.1,
  record {
    at = l.at;
    word = l.word;
    bound = l.bound;
    stands = get_elem?-set_ne e.code r.new_word free.0 ∙ l.stands;
    aims = l.aims;
  },
)
Status-Round f fs e e' r (jump b) (inl (inl (same, free), s)) = inr (
  free,
  record {
    at = r.at;
    word = r.new_word;
    bound = sym (ap (λ (g : Fixup). get_elem? e.labels g.label) same) ∙ r.bound;
    stands =
        ap (get_elem? (set e.code f.word_index r.new_word))
          (sym (ap (λ (g : Fixup). g.word_index) same))
        ∙ get_elem?-set_self e.code f.word_index r.new_word
            (get_elem?-lt e.code f.word_index r.stood);
    aims =
        subst (λ (g : Fixup). Aims b.base g.kind (delta r.at g.word_index) r.new_word) same
          (subst (λ (w : ℕ). Aims w f.kind (delta r.at f.word_index) r.new_word)
            (some-injective _ _
              (sym r.stood ∙ ap (λ (g : Fixup). get_elem? e.code g.word_index) same ∙ s))
            (patch_branch-Aims r.word f.kind (delta r.at f.word_index) r.patch));
  },
)

code_of : Checked (Finish (Unit {0}) × Emitter) → List ℕ
code_of (returns (_, e)) = e.code
code_of panics = []

-- With no fixups left.
settled :
    (ls : List (Option ℕ)) (code : List ℕ) (item : Item)
    → Status ls [] code item
    → StandsBy ls code item
settled ls code (plain i w) (free, s) = s
settled ls code (jump b) (inl (waits, s)) = absurd waits
settled ls code (jump b) (inr (free, l)) = l

-- The loop puts every word in place.
pub finish_loop-StandsBy :
    (fs : List Fixup) (e e' : Emitter) (item : Item)
    → finish_loop fs e ≡ returns (ok tt, e')
    → Status e.labels fs e.code item
    → StandsBy e.labels e'.code item
unfolding finish_loop code_of
finish_loop-StandsBy [] e e' item h s =
    subst (λ c. StandsBy e.labels c item) (ap code_of h) (settled e.labels e.code item s)
finish_loop-StandsBy (f ∷ fs) e e' item h s =
    let r = finish_loop-Round f fs e e' h in
    finish_loop-StandsBy fs (record e { code = set e.code f.word_index r.new_word }) e' item r.later
      (Status-Round f fs e e' r item s)
