-- ===== src/Jit/Emitter/Marks.antt =====
-- crates/quantum-jit/src/emitter.rs: the table of labels against the history of the calls of `bind`.
use quantum.Prelude.{
  ℕ, zero, suc, ◌≡◌, ◌≢◌, refl, sym, ap, ◌∙◌, subst, List, [], ◌∷◌, ◌++◌, Option, none, some,
  get_elem?, set, false, ◌==◌, arith, get_elem?-set_ne, get_elem?-set_self, get_elem?-lt, ==_iff,
  Bool-cases, inl, inr,
}
use mathlib.Core.Option.{some-injective}
use quantum.Prelude.Checked.{returns, After, After-elim}
use quantum.Jit.Emitter.State.{
  FixupKind, Emitter, Finish, ok, err, position, push, make_label, bind, bind_slot, emit_branch,
  branch_to, patched,
}
use quantum.Jit.Emitter.Items.{Item, Places, place_of, Built, fresh, pushes, makes, binds, branches}

-- A label that the table says is bound was last bound at the place that the table names.
abbrev pub Marked : List (Option ℕ) → Places → Type 0
Marked ls places = (l at : ℕ) → get_elem? ls l ≡ some (some at) → place_of places l ≡ some at

-- A new label is not bound.
not_new :
    (ls : List (Option ℕ)) (l at : ℕ)
    → get_elem? (ls ++ none ∷ []) l ≡ some (some at)
    → get_elem? ls l ≡ some (some at)
not_new [] zero at h = absurd (cc)
not_new [] (suc l) at h = absurd (cc)
not_new (x ∷ ls) zero at h = h
not_new (x ∷ ls) (suc l) at h = not_new ls l at h

other_label : (a b : ℕ) → (a == b) ≡ false → a ≢ b
other_label a b h = ground arith

bound_at :
    (ls : List (Option ℕ)) (places : Places) (label p : ℕ)
    → get_elem? ls label ≡ some none
    → Marked ls places
    → Marked (set ls label (some p)) ((label, p) ∷ places)
bound_at ls places label p free m l at h = elim (Bool-cases (label == l)) [
  | inl t ↦ rw t (
      some-injective _ _ (
        sym (get_elem?-set_self ls label (some p) (get_elem?-lt ls label free))
        ∙ ap (get_elem? (set ls label (some p))) ((==_iff label l).0 t)
        ∙ h))
  | inr f ↦ rw f (m l at (sym (get_elem?-set_ne ls (some p) (other_label label l f)) ∙ h))
]

bind_slot-Marked :
    (e : Emitter) (places : Places) (label : ℕ) (slot : Option (Option ℕ))
    → get_elem? e.labels label ≡ slot
    → Marked e.labels places
    → After (λ e'. Marked e'.labels ((label, position e) ∷ places)) (bind_slot label slot e)
bind_slot-Marked e places label none s m = tt
bind_slot-Marked e places label (some (some at)) s m = tt
bind_slot-Marked e places label (some none) s m = bound_at e.labels places label (position e) s m

patched-labels :
    (e : Emitter) (index : ℕ) (p : Finish ℕ)
    → After (λ e'. e'.labels ≡ e.labels) (patched e index p)
patched-labels e index (ok w) = refl
patched-labels e index (err x) = tt

branch_to-labels :
    (base : ℕ) (kind : FixupKind) (label index : ℕ) (slot : Option (Option ℕ)) (e : Emitter)
    → After (λ e'. e'.labels ≡ e.labels) (branch_to base kind label index slot e)
branch_to-labels base kind label index none e = tt
branch_to-labels base kind label index (some (some at)) e = patched-labels e index _
branch_to-labels base kind label index (some none) e = refl

emit_branch-labels :
    (base : ℕ) (kind : FixupKind) (label : ℕ) (e e' : Emitter)
    → emit_branch base kind label e ≡ returns (tt, e')
    → e'.labels ≡ e.labels
unfolding emit_branch
emit_branch-labels base kind label e e' h =
    After-elim (λ e''. e''.labels ≡ e.labels) h (branch_to-labels base kind label _ _ _)

pub Built-Marked :
    {e : Emitter} {items : List Item} {places : Places}
    → Built e items places
    → Marked e.labels places
unfolding push make_label bind
Built-Marked fresh = λ l at h. absurd (cc)
Built-Marked (pushes {e = e} {places = places} w b h) =
    After-elim (λ e'. Marked e'.labels places) h (Built-Marked b)
Built-Marked (makes {e = e} {places = places} label b h) =
    After-elim (λ e'. Marked e'.labels places) h
      (λ l at q. Built-Marked b l at (not_new e.labels l at q))
Built-Marked (binds {e = e} {places = places} label b h) =
    After-elim (λ e'. Marked e'.labels ((label, position e) ∷ places)) h
      (bind_slot-Marked e places label _ refl (Built-Marked b))
Built-Marked (branches {e = e} {e' = e'} {places = places} base kind label b h) =
    subst (λ ls. Marked ls places) (sym (emit_branch-labels base kind label e e' h))
      (Built-Marked b)
