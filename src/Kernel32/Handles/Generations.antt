-- ===== src/Kernel32/Handles/Generations.antt =====
-- crates/quantum-kernel32/src/handles.rs: the generation that is to tell a stale handle.
use quantum.Prelude.{
  All-push, ℕ, zero, suc, ◌+◌, ◌^◌, ◌<◌, ◌≡◌, refl, sym, ◌∙◌, ap, List, [], ◌∷◌, Option, none, some,
  arith, length, set, Option-cases, inl, inr, subst, All, ◌==◌, ==_iff,
}
use quantum.Kernel32.Handles.{
  KernelObject, Slot, HandleTable, pack, first_free, slot_at, next_generation, insert, insert_at,
  get, Removed, remove, behind,
}
use quantum.Prelude.Checked.{returns}
use quantum.Kernel32.Handles.Slots.{
  first_free-some, slot_at-some, pack-unpack, pack_sum, unpack-bound, slot_at-set_self,
}
use quantum.Kernel32.Handles.Removal.{Removes, absent, freed, remove-Removes}
use quantum.Kernel32.Handles.Map.{get-insert, if_true}

-- The tables that insertions and removals lead to from the empty one.
pub data Reachable : HandleTable → Type 0 where
  empty : Reachable (record { slots = [] })
  inserted : {t : HandleTable} (obj : KernelObject) → Reachable t → Reachable (insert obj t).1
  removed :
      {t : HandleTable} (handle : ℕ) (r : Removed)
      → remove handle t ≡ returns r
      → Reachable t
      → Reachable r.table

abbrev pub IsFirst : Option Slot → Type 0
IsFirst none = Unit {0}
IsFirst (some (g, _)) = g ≡ 1

All-set {κ ℓ} :
    {A : Type ℓ} (P : A → Type κ) (xs : List A) (i : ℕ) (v : A)
    → All P xs
    → P v
    → All P (set xs i v)
All-set P [] i v a p = a
All-set P (x ∷ xs) zero v a p = (p, a.1)
All-set P (x ∷ xs) (suc i) v a p = (a.0, All-set P xs i v a.1 p)

-- Every object of a reachable table has the generation 1: `insert` takes over only slots that are
-- free, and no generation is left in them.
pub generations : {t : HandleTable} → Reachable t → All IsFirst t.slots
unfolding insert
generations empty = tt
generations (inserted {t = t} obj r) = elim (Option-cases (first_free t.slots)) [
  | inl e ↦
      subst First (ap (insert_at obj t) (sym e)) (All-push IsFirst t.slots _ (generations r) refl)
  | inr (i, e) ↦ subst First (ap (insert_at obj t) (sym e)) (
      All-set IsFirst t.slots i _ (generations r)
        (ap next_generation (first_free-some t.slots i e).1))
]
  where
    First : ℕ × HandleTable → Type 0
    First (h, t') = All IsFirst t'.slots
generations (removed {t = t} handle r e p) = by_case (remove-Removes handle t r e) (generations p)
  where
    by_case : {r : Removed} → Removes handle t r → All IsFirst t.slots → All IsFirst r.table.slots
    by_case (absent n) a = a
    by_case (freed {idx = idx} u s) a = All-set IsFirst t.slots idx none a tt

slot_at-All :
    (slots : List (Option Slot)) (i g : ℕ) (obj : KernelObject)
    → All IsFirst slots
    → slot_at slots i ≡ some (g, obj)
    → g ≡ 1
slot_at-All [] i g obj a e = absurd (cc)
slot_at-All (s ∷ slots) zero g obj a e = subst IsFirst e a.0
slot_at-All (s ∷ slots) (suc i) g obj a e = slot_at-All slots i g obj a.1 e

first_free-set :
    (slots : List (Option Slot)) (i : ℕ)
    → first_free slots ≡ none
    → i < length slots
    → first_free (set slots i none) ≡ some i
first_free-set [] i e h = absurd (omega arith)
first_free-set (none ∷ slots) i e h = absurd (cc)
first_free-set (some s ∷ slots) zero e h = refl
first_free-set (some s ∷ slots) (suc i) e h =
    ap behind (first_free-set slots i (behind-none (first_free slots) e) (omega arith))
  where
    behind-none : (o : Option ℕ) → behind o ≡ none → o ≡ none
    behind-none none e = refl
    behind-none (some i) e = absurd (cc)

-- In a table without a free slot, with fewer than 2^32 - 0x1000 slots, an object is
-- removed and another one inserted: the new object has the handle of the old one, so that a
-- handle kept from before the removal finds the new object.
pub insert-remove :
    (t : HandleTable) (handle : ℕ) (old obj : KernelObject) (r : Removed)
    → Reachable t
    → handle < 2 ^ 64
    → length r.table.slots + 0x1000 < 2 ^ 32
    → first_free t.slots ≡ none
    → get handle t ≡ returns (some old)
    → remove handle t ≡ returns r
    → ((insert obj r.table).0 ≡ handle) × (get handle (insert obj r.table).1 ≡ returns (some obj))
unfolding insert
insert-remove t handle old obj r p b small full e q =
    let same = handle_same (remove-Removes handle t r q) in
    (
      same,
      get-insert obj r.table handle small b
          ∙ if_true (handle == (insert obj r.table).0) _ _ ((==_iff handle _).1 (sym same)),
    )
  where
    handle_same : {r : Removed} → Removes handle t r → (insert obj r.table).0 ≡ handle
    handle_same (absent n) = absurd (cc)
    handle_same (freed {idx = idx} {g = g} u s) =
        let inside = slot_at-some t.slots idx (g, _) s in
        ap (λ o. (insert_at obj (record { slots = set t.slots idx none }) o).0)
          (first_free-set t.slots idx full inside)
        ∙ ap (λ o. pack idx (next_generation o)) (slot_at-set_self t.slots idx none inside)
        ∙ omega (
          arith,
          pack_sum idx 1 (unpack-bound handle idx g u),
          pack-unpack handle idx g b u,
          slot_at-All t.slots idx g _ (generations p) s,
        )
