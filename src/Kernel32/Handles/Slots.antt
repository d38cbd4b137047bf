-- ===== src/Kernel32/Handles/Slots.antt =====
-- crates/quantum-kernel32/src/handles.rs: the slots of the table, and the fields of a handle.
use quantum.Prelude.{
  ℕ, zero, suc, ◌+◌, ◌*◌, ◌^◌, ◌≤◌, ◌<◌, ◌≡◌, refl, sym, ◌∙◌, ap, List, [], ◌∷◌, ◌++◌, Option, none,
  some, arith, length, set, get_elem?-set_self, get_elem?-set_ne, Option-cases, inl, inr, ◌≢◌,
}
use quantum.Prelude.Bits.{bit_or_disjoint}
use quantum.Kernel32.Handles.{Slot, pack, unpack, first_free, slot_at, and_then, behind}
use quantum.Prelude.Checked.{returns}
use mathlib.Core.Option.{some-injective, none-ne-some}

pub slot_at-set_self :
    (slots : List (Option Slot)) (i : ℕ) (v : Option Slot)
    → i < length slots
    → slot_at (set slots i v) i ≡ v
slot_at-set_self slots i v h = ap and_then (get_elem?-set_self slots i v h)

pub slot_at-set_ne :
    (slots : List (Option Slot)) (i : ℕ) (v : Option Slot) (j : ℕ)
    → i ≢ j
    → slot_at (set slots i v) j ≡ slot_at slots j
slot_at-set_ne slots i v j h = ap and_then (get_elem?-set_ne slots v h)

pub slot_at-push_self :
    (slots : List (Option Slot)) (v : Option Slot) → slot_at (slots ++ v ∷ []) (length slots) ≡ v
slot_at-push_self [] v = refl
slot_at-push_self (s ∷ slots) v = slot_at-push_self slots v

pub slot_at-push_ne :
    (slots : List (Option Slot)) (v : Option Slot) (j : ℕ)
    → length slots ≢ j
    → slot_at (slots ++ v ∷ []) j ≡ slot_at slots j
slot_at-push_ne [] v zero h = absurd (h refl)
slot_at-push_ne [] v (suc j) h = refl
slot_at-push_ne (s ∷ slots) v zero h = refl
slot_at-push_ne (s ∷ slots) v (suc j) h = slot_at-push_ne slots v j (λ e. h (ap suc e))

pub slot_at-length :
    (slots : List (Option Slot)) (j : ℕ) → length slots ≤ j → slot_at slots j ≡ none
slot_at-length [] j h = refl
slot_at-length (s ∷ slots) zero h = absurd (omega arith)
slot_at-length (s ∷ slots) (suc j) h = slot_at-length slots j (omega arith)

pub slot_at-some :
    (slots : List (Option Slot)) (j : ℕ) (s : Slot) → slot_at slots j ≡ some s → j < length slots
slot_at-some [] j s h = absurd (cc)
slot_at-some (x ∷ slots) zero s h = omega arith
slot_at-some (x ∷ slots) (suc j) s h = omega (arith, slot_at-some slots j s h)

pub first_free-some :
    (slots : List (Option Slot)) (i : ℕ)
    → first_free slots ≡ some i
    → (i < length slots) × (slot_at slots i ≡ none)
first_free-some [] i h = absurd (cc)
first_free-some (none ∷ slots) zero h = (omega arith, refl)
first_free-some (none ∷ slots) (suc i) h = absurd (omega (arith, some-injective _ _ h))
first_free-some (some s ∷ slots) i h = elim (Option-cases (first_free slots)) [
  | inl e ↦ absurd (none-ne-some _ (sym (ap behind e) ∙ h))
  | inr (k, e) ↦
      let same = some-injective _ _ (sym (ap behind e) ∙ h) in
      let (inside, free) = first_free-some slots k e in
      (omega arith, ap (slot_at (some s ∷ slots)) (sym same) ∙ free)
]

pub pack_sum :
    (index generation : ℕ)
    → index + 0x1000 < 2 ^ 32
    → pack index generation ≡ generation * 2 ^ 32 + (index + 0x1000)
unfolding pack
pack_sum index generation h = bit_or_disjoint 32 generation (index + 0x1000) h

pub unpack-pack :
    (index generation : ℕ)
    → index + 0x1000 < 2 ^ 32
    → generation < 2 ^ 32
    → unpack (pack index generation) ≡ returns (some (index, generation))
unfolding unpack
unpack-pack index generation h g = rw (pack_sum index generation h) (ground arith)

-- The fields give back the handle.
pub pack-unpack :
    (handle idx generation : ℕ)
    → handle < 2 ^ 64
    → unpack handle ≡ returns (some (idx, generation))
    → handle ≡ generation * 2 ^ 32 + (idx + 0x1000)
unfolding unpack
pack-unpack handle idx generation h e = ground arith

pub unpack-bound :
    (handle idx generation : ℕ)
    → unpack handle ≡ returns (some (idx, generation))
    → idx + 0x1000 < 2 ^ 32
unfolding unpack
unpack-bound handle idx generation e = ground arith
