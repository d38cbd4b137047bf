-- ===== src/Jit/Emitter/Kept.antt =====
-- crates/quantum-jit/src/emitter.rs: what push, make_label and bind keep of the code and its fixups.
use quantum.Prelude.{
  ℕ, suc, ◌<◌, ◌≡◌, ◌≢◌, refl, sym, ap, ◌∙◌, List, [], ◌∷◌, ◌++◌, Option, none, some, get_elem?,
  set, length, All, arith, get_elem?-set_ne, get_elem?-append, get_elem?-length, length-append, inl,
  inr, All-map,
}
use mathlib.Core.Option.{some-injective}
use quantum.Prelude.Checked.{After}
use quantum.Jit.Emitter.State.{Fixup, Emitter, position, bind_slot}
use quantum.Jit.Emitter.Items.{Branch, Item, plain, jump, index_of, Free, Waits, Status}

-- The words that stand, and the fixups that wait, are at indices below the end of the code.
pub record Inv (e : Emitter) (items : List Item) : Type 0 where
  pub status : All (Status e.labels e.fixups e.code) items
  pub below : All (λ i. index_of i < length e.code) items
  pub fixed : All (λ (f : Fixup). f.word_index < length e.code) e.fixups

pub Free-position : (fs : List Fixup) (n : ℕ) → All (λ (f : Fixup). f.word_index < n) fs → Free fs n
Free-position fs n a = All-map fs (λ f l e. omega (arith, l, e)) a

-- A word behind the code.
pub longer :
    (ls : List (Option ℕ)) (fs : List Fixup) (code : List ℕ) (w : ℕ) (item : Item)
    → Status ls fs code item
    → Status ls fs (code ++ w ∷ []) item
longer ls fs code w (plain i v) (free, s) = (free, get_elem?-append code _ i s)
longer ls fs code w (jump b) (inl (waits, s)) = inl (waits, get_elem?-append code _ b.index s)
longer ls fs code w (jump b) (inr (free, l)) = inr (
  free,
  record {
    at = l.at;
    word = l.word;
    bound = l.bound;
    stands = get_elem?-append code _ b.index l.stands;
    aims = l.aims;
  },
)

-- Labels that are bound stay bound.
relabelled :
    (ls ls' : List (Option ℕ)) (fs : List Fixup) (code : List ℕ) (item : Item)
    → ((l at : ℕ) → get_elem? ls l ≡ some (some at) → get_elem? ls' l ≡ some (some at))
    → Status ls fs code item
    → Status ls' fs code item
relabelled ls ls' fs code (plain i v) h s = s
relabelled ls ls' fs code (jump b) h (inl s) = inl s
relabelled ls ls' fs code (jump b) h (inr (free, l)) = inr (
  free,
  record {
    at = l.at;
    word = l.word;
    bound = h b.label l.at l.bound;
    stands = l.stands;
    aims = l.aims;
  },
)

pub length-push : (code : List ℕ) (w : ℕ) → length (code ++ w ∷ []) ≡ suc (length code)
length-push code w = omega (arith, length-append code (w ∷ []))

pub push-Inv :
    (e : Emitter) (items : List Item) (w : ℕ)
    → Inv e items
    → Inv (record e { code = e.code ++ w ∷ [] }) (plain (position e) w ∷ items)
push-Inv e items w v = record {
  status = (
    (Free-position e.fixups (length e.code) v.fixed, get_elem?-length e.code w),
    All-map items (longer e.labels e.fixups e.code w) v.status,
  );
  below = (
    omega (arith, length-push e.code w),
    All-map items (λ i l. omega (arith, l, length-push e.code w)) v.below,
  );
  fixed = All-map e.fixups (λ f l. omega (arith, l, length-push e.code w)) v.fixed;
}

pub make_label-Inv :
    (e : Emitter) (items : List Item)
    → Inv e items
    → Inv (record e { labels = e.labels ++ none ∷ [] }) items
make_label-Inv e items v = record {
  status =
      All-map items
        (λ i. relabelled e.labels _ e.fixups e.code i (λ l at. get_elem?-append e.labels _ l))
        v.status;
  below = v.below;
  fixed = v.fixed;
}

pub bind_slot-Inv :
    (e : Emitter) (items : List Item) (label : ℕ) (slot : Option (Option ℕ))
    → get_elem? e.labels label ≡ slot
    → Inv e items
    → After (λ e'. Inv e' items) (bind_slot label slot e)
bind_slot-Inv e items label none s v = tt
bind_slot-Inv e items label (some (some at)) s v = tt
bind_slot-Inv e items label (some none) s v = record {
  status =
      All-map items
        (λ i.
          relabelled e.labels _ e.fixups e.code i
            (λ l at q. get_elem?-set_ne e.labels _ (other l at q) ∙ q))
        v.status;
  below = v.below;
  fixed = v.fixed;
}
  where
    not_bound : {at : ℕ} → ◌≢◌ {A = Option ℕ} none (some at)
    not_bound e = cc

    other : (l at : ℕ) → get_elem? e.labels l ≡ some (some at) → label ≢ l
    other l at q same = not_bound (some-injective _ _ (sym s ∙ ap (get_elem? e.labels) same ∙ q))

-- A word at the index of no item is put in place of another.
pub overwritten :
    (ls : List (Option ℕ)) (fs : List Fixup) (code : List ℕ) (i w : ℕ) (item : Item)
    → i ≢ index_of item
    → Status ls fs code item
    → Status ls fs (set code i w) item
overwritten ls fs code i w (plain k v) n (free, s) = (free, get_elem?-set_ne code w n ∙ s)
overwritten ls fs code i w (jump b) n (inl (waits, s)) = inl (waits, get_elem?-set_ne code w n ∙ s)
overwritten ls fs code i w (jump b) n (inr (free, l)) = inr (
  free,
  record {
    at = l.at;
    word = l.word;
    bound = l.bound;
    stands = get_elem?-set_ne code w n ∙ l.stands;
    aims = l.aims;
  },
)

Free-append :
    (fs : List Fixup) (f : Fixup) (i : ℕ) → Free fs i → f.word_index ≢ i → Free (fs ++ f ∷ []) i
Free-append [] f i free n = (n, free)
Free-append (g ∷ fs) f i free n = (free.0, Free-append fs f i free.1 n)

Waits-append :
    (fs : List Fixup) (f : Fixup) (b : Branch)
    → Waits fs b
    → f.word_index ≢ b.index
    → Waits (fs ++ f ∷ []) b
Waits-append [] f b w n = absurd w
Waits-append (g ∷ fs) f b (inl (same, free)) n = inl (same, Free-append fs f b.index free n)
Waits-append (g ∷ fs) f b (inr (other, w)) n = inr (other, Waits-append fs f b w n)

-- A fixup for another word is added.
pub more_fixups :
    (ls : List (Option ℕ)) (fs : List Fixup) (code : List ℕ) (f : Fixup) (item : Item)
    → f.word_index ≢ index_of item
    → Status ls fs code item
    → Status ls (fs ++ f ∷ []) code item
more_fixups ls fs code f (plain k v) n (free, s) = (Free-append fs f k free n, s)
more_fixups ls fs code f (jump b) n (inl (waits, s)) = inl (Waits-append fs f b waits n, s)
more_fixups ls fs code f (jump b) n (inr (free, l)) = inr (Free-append fs f b.index free n, l)

pub Waits-last :
    (fs : List Fixup) (b : Branch)
    → Free fs b.index
    → Waits (fs ++ record { word_index = b.index; kind = b.kind; label = b.label } ∷ []) b
Waits-last [] b free = inl (refl, tt)
Waits-last (f ∷ fs) b free = inr (free.0, Waits-last fs b free.1)
