-- ===== src/Kernel32/Handles/Map.antt =====
-- crates/quantum-kernel32/src/handles.rs: the table as a map from handles to objects.
use quantum.Prelude.{
  ℕ, ◌+◌, ◌^◌, ◌<◌, ◌≡◌, ◌≢◌, refl, sym, ◌∙◌, ap, Option, none, some, arith, ◌==◌, if◌then◌else◌,
  length, true, false, set, Bool-cases, Option-cases, ==_iff, inl, inr, Bool, subst,
}
use quantum.Kernel32.Handles.{
  KernelObject, Slot, HandleTable, pack, unpack, first_free, slot_at, next_generation, insert,
  insert_at, live, get, get_by,
}
use quantum.Prelude.Checked.{Checked, returns, panics}
use quantum.Kernel32.Handles.Slots.{
  slot_at-set_self, slot_at-set_ne, slot_at-push_self, slot_at-push_ne, slot_at-length,
  first_free-some, unpack-pack, pack-unpack, pack_sum,
}

pub get_at :
    (handle : ℕ) (t : HandleTable) {idx g : ℕ}
    → unpack handle ≡ returns (some (idx, g))
    → get handle t ≡ returns (live g (slot_at t.slots idx))
unfolding get
get_at handle t e = ap (get_by t) e

pub get_same :
    (handle : ℕ) (t t' : HandleTable)
    → ((idx g : ℕ)
        → unpack handle ≡ returns (some (idx, g))
        → live g (slot_at t'.slots idx) ≡ live g (slot_at t.slots idx))
    → get handle t' ≡ get handle t
unfolding get
get_same handle t t' h = by_fields (unpack handle) h
  where
    by_fields :
        (u : Checked (Option (ℕ × ℕ)))
        → ((idx g : ℕ)
            → u ≡ returns (some (idx, g))
            → live g (slot_at t'.slots idx) ≡ live g (slot_at t.slots idx))
        → get_by t' u ≡ get_by t u
    by_fields panics h = refl
    by_fields (returns none) h = refl
    by_fields (returns (some (idx, g))) h = ap returns (h idx g refl)

-- Two handles with the same fields are one.
pub same_handle :
    (h h' : ℕ) {idx g : ℕ}
    → h < 2 ^ 64
    → h' < 2 ^ 64
    → unpack h ≡ returns (some (idx, g))
    → unpack h' ≡ returns (some (idx, g))
    → h ≡ h'
same_handle h h' {idx} {g} b b' e e' =
    omega (arith, pack-unpack h idx g b e, pack-unpack h' idx g b' e')

pub live_self : (g : ℕ) (obj : KernelObject) → live g (some (g, obj)) ≡ some obj
live_self g obj = ground arith

pub live_other : (g g' : ℕ) (obj : KernelObject) → g ≢ g' → live g' (some (g, obj)) ≡ none
live_other g g' obj h = ground arith

pub live-some :
    (g : ℕ) (s : Option Slot) (obj : KernelObject) → live g s ≡ some obj → s ≡ some (g, obj)
live-some g none obj e = absurd (cc)
live-some g (some (g', o)) obj e = ground arith

pub eq_false : (a b : ℕ) → (a == b) ≡ false → a ≢ b
eq_false a b h = ground arith

pub if_true {ℓ} : {A : Type ℓ} (b : Bool) (x y : A) → b ≡ true → (if b then x else y) ≡ x
if_true b x y e = ap (λ (c : Bool). if c then x else y) e

pub if_false {ℓ} : {A : Type ℓ} (b : Bool) (x y : A) → b ≡ false → (if b then x else y) ≡ y
if_false b x y e = ap (λ (c : Bool). if c then x else y) e

-- A table with one slot more in use, at an index that was free.
get_filled :
    (t t' : HandleTable) (i : ℕ) (obj : KernelObject) (handle : ℕ)
    → slot_at t'.slots i ≡ some (1, obj)
    → ((j : ℕ) → i ≢ j → slot_at t'.slots j ≡ slot_at t.slots j)
    → slot_at t.slots i ≡ none
    → i + 0x1000 < 2 ^ 32
    → handle < 2 ^ 64
    → get handle t' ≡ (if handle == pack i 1 then returns (some obj) else get handle t)
get_filled t t' i obj handle here others free small b = elim (Bool-cases (handle == pack i 1)) [
  | inl e ↦
      ap (λ (h : ℕ). get h t') ((==_iff handle (pack i 1)).0 e)
      ∙ get_at (pack i 1) t' (unpack-pack i 1 small (omega arith))
      ∙ ap (λ s. returns (live 1 s)) here
      ∙ sym (if_true (handle == pack i 1) _ _ e)
  | inr e ↦
      get_same handle t t' (slot_same (eq_false handle (pack i 1) e))
      ∙ sym (if_false (handle == pack i 1) _ _ e)
]
  where
    slot_same :
        handle ≢ pack i 1
        → (idx g : ℕ) → unpack handle ≡ returns (some (idx, g))
        → live g (slot_at t'.slots idx) ≡ live g (slot_at t.slots idx)
    slot_same ne idx g u = elim (Bool-cases (i == idx)) [
      | inl e ↦
          let same = (==_iff i idx).0 e in
          subst (λ (k : ℕ). live g (slot_at t'.slots k) ≡ live g (slot_at t.slots k)) same
            (ap (live g) here
              ∙ live_other 1 g obj (λ one.
                ne (omega (arith, same, one, pack_sum i 1 small, pack-unpack handle idx g b u)))
              ∙ sym (ap (live g) free))
      | inr e ↦ ap (live g) (others idx (eq_false i idx e))
    ]

-- Behind an insertion, with fewer than 2^32 - 0x1000 slots, `get` finds the object at the handle
-- that `insert` has returned, and at every other handle what it found before.
pub get-insert :
    (obj : KernelObject) (t : HandleTable) (handle : ℕ)
    → length t.slots + 0x1000 < 2 ^ 32
    → handle < 2 ^ 64
    → get handle (insert obj t).1
      ≡ (if handle == (insert obj t).0 then returns (some obj) else get handle t)
unfolding insert
get-insert obj t handle small b = elim (Option-cases (first_free t.slots)) [
  | inl e ↦ subst Found (ap (insert_at obj t) (sym e)) (
      get_filled t _ (length t.slots) obj handle (slot_at-push_self t.slots _)
        (slot_at-push_ne t.slots _) (slot_at-length t.slots (length t.slots) (omega arith)) small b)
  | inr (i, e) ↦
      let (inside, free) = first_free-some t.slots i e in
      subst Found (ap (insert_at obj t) (sym e)) (
        subst (λ (g : ℕ). Found (pack i g, record { slots = set t.slots i (some (g, obj)) }))
          (ap next_generation (sym free))
          (get_filled t _ i obj handle (slot_at-set_self t.slots i _ inside)
            (slot_at-set_ne t.slots i _) free (omega arith) b))
]
  where
    Found : ℕ × HandleTable → Type 0
    Found (h, t') = get handle t' ≡ (if handle == h then returns (some obj) else get handle t)
