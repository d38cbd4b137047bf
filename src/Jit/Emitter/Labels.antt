-- ===== src/Jit/Emitter/Labels.antt =====
-- crates/quantum-jit/src/emitter.rs: the words that are emitted, and where the branches among them go.
use quantum.Prelude.{
  ℕ, suc, ◌<◌, ◌≡◌, ◌≢◌, refl, List, [], ◌∷◌, ◌++◌, Option, none, some, get_elem?, length, All,
  arith, get_elem?-set_self, get_elem?-length, length-set, inl, inr, All-map, All-zip, All-push,
}
use quantum.Prelude.Checked.{returns, After, After-elim}
use quantum.Jit.Emitter.State.{
  FixupKind, Fixup, Emitter, position, push, make_label, bind, emit_branch, branch_to, patched,
  patch_branch, delta, Finish, ok, err, finish,
}
use quantum.Jit.Emitter.Patch.{patch_branch-Aims}
use quantum.Jit.Emitter.Items.{
  Branch, Item, plain, jump, index_of, Places, Built, fresh, pushes, makes, binds, branches,
  StandsBy, Stands,
}
use quantum.Jit.Emitter.Finish.{finish_loop-StandsBy}
use quantum.Jit.Emitter.Marks.{Marked, Built-Marked}
use quantum.Jit.Emitter.Kept.{
  Inv, Free-position, longer, length-push, push-Inv, make_label-Inv, bind_slot-Inv, overwritten,
  more_fixups, Waits-last,
}

module _ (e : Emitter) (items : List Item) (base : ℕ) (kind : FixupKind) (label : ℕ) where
  the_branch : Branch
  the_branch = record { index = position e; base = base; kind = kind; label = label }

  pushed : Emitter
  pushed = record e { code = e.code ++ base ∷ [] }

  not_last : (i : Item) → index_of i < length e.code → length e.code ≢ index_of i
  not_last i l same = omega (arith, l, same)

  length-pushed : length (e.code ++ base ∷ []) ≡ suc (length e.code)
  length-pushed = length-push e.code base

  patched-Inv :
      (at : ℕ) (p : Finish ℕ)
      → get_elem? e.labels label ≡ some (some at)
      → patch_branch base kind (delta at (position e)) ≡ p
      → Inv e items
      → After (λ e'. Inv e' (jump the_branch ∷ items)) (patched pushed (position e) p)
  unfolding the_branch pushed
  patched-Inv at (err x) s q v = tt
  patched-Inv at (ok w) s q v = record {
    status = (
      inr (
        Free-position e.fixups (length e.code) v.fixed,
        record {
          at = at;
          word = w;
          bound = s;
          stands =
              get_elem?-set_self (e.code ++ base ∷ []) (length e.code) w
                (omega (arith, length-pushed));
          aims = patch_branch-Aims base kind (delta at (position e)) q;
        },
      ),
      All-zip items
          (λ i l t.
            overwritten e.labels e.fixups (e.code ++ base ∷ []) (length e.code) w i (not_last i l)
              (longer e.labels e.fixups e.code base i t))
          v.below v.status,
    );
    below = (
      omega (arith, length-pushed, length-set (e.code ++ base ∷ []) (length e.code) w),
      All-map items
          (λ i l.
            omega (arith, l, length-pushed, length-set (e.code ++ base ∷ []) (length e.code) w))
          v.below,
    );
    fixed =
        All-map e.fixups
          (λ f l.
            omega (arith, l, length-pushed, length-set (e.code ++ base ∷ []) (length e.code) w))
          v.fixed;
  }

  branch_to-Inv :
      (slot : Option (Option ℕ))
      → get_elem? e.labels label ≡ slot
      → Inv e items
      → After
          (λ e'. Inv e' (jump the_branch ∷ items))
          (branch_to base kind label (position e) slot pushed)
  unfolding the_branch pushed
  branch_to-Inv none s v = tt
  branch_to-Inv (some (some at)) s v =
      patched-Inv at (patch_branch base kind (delta at (position e))) s refl v
  branch_to-Inv (some none) s v = record {
    status = (
      inl (
        Waits-last e.fixups the_branch (Free-position e.fixups (length e.code) v.fixed),
        get_elem?-length e.code base,
      ),
      All-zip items
          (λ i l t.
            more_fixups e.labels e.fixups (e.code ++ base ∷ []) _ i (not_last i l)
              (longer e.labels e.fixups e.code base i t))
          v.below v.status,
    );
    below = (
      omega (arith, length-pushed),
      All-map items (λ i l. omega (arith, l, length-pushed)) v.below,
    );
    fixed =
        All-push (λ (f : Fixup). f.word_index < length (e.code ++ base ∷ [])) e.fixups _
          (All-map e.fixups (λ f l. omega (arith, l, length-pushed)) v.fixed)
          (omega (arith, length-pushed));
  }

  emit_branch-Inv :
      {e' : Emitter}
      → Inv e items
      → emit_branch base kind label e ≡ returns (tt, e')
      → Inv e' (jump the_branch ∷ items)
  unfolding emit_branch pushed
  emit_branch-Inv v h =
      After-elim (λ e'. Inv e' (jump the_branch ∷ items)) h (branch_to-Inv _ refl v)

Built-Inv : {e : Emitter} {items : List Item} {places : Places} → Built e items places → Inv e items
unfolding push make_label bind the_branch
Built-Inv fresh = record { status = tt; below = tt; fixed = tt }
Built-Inv (pushes {e = e} {items = items} w b h) =
    After-elim (λ e'. Inv e' (plain (position e) w ∷ items)) h (push-Inv e items w (Built-Inv b))
Built-Inv (makes {e = e} {items = items} l b h) =
    After-elim (λ e'. Inv e' items) h (make_label-Inv e items (Built-Inv b))
Built-Inv (binds {e = e} {items = items} l b h) =
    After-elim (λ e'. Inv e' items) h (bind_slot-Inv e items l _ refl (Built-Inv b))
Built-Inv (branches {e = e} {items = items} base kind l b h) =
    emit_branch-Inv e items base kind l (Built-Inv b) h

in_places :
    (ls : List (Option ℕ)) (places : Places) (code : List ℕ) (item : Item)
    → Marked ls places
    → StandsBy ls code item
    → Stands places code item
in_places ls places code (plain i w) m s = s
in_places ls places code (jump b) m l = record {
  at = l.at;
  word = l.word;
  bound = m b.label l.at l.bound;
  stands = l.stands;
  aims = l.aims;
}

-- After any calls of the emitter's methods, a `finish` that succeeds leaves every word in its place:
-- a plain word as it was pushed, and a branch with the bits of its base word around the signed
-- offset, in words, from the branch to the place where the code stood when its label was bound, be
-- that before or behind the branch.
pub finish-Stands :
    {e e' : Emitter} {items : List Item} {places : Places}
    → Built e items places
    → finish e ≡ returns (ok tt, e')
    → All (Stands places e'.code) items
unfolding finish
finish-Stands {e} {e'} {items} {places} b h =
    All-map items
      (λ i s.
        in_places e.labels places e'.code i (Built-Marked b)
          (finish_loop-StandsBy e.fixups (record e { fixups = [] }) e' i h s))
      (Built-Inv b).status
