-- ===== src/Kernel32/Handles/Removal.antt =====
-- crates/quantum-kernel32/src/handles.rs: what `remove` does to the map from handles to objects.
use quantum.Prelude.{
  ℕ, ◌^◌, ◌<◌, ◌≡◌, ◌≢◌, refl, sym, ◌∙◌, ap, Option, none, some, ◌==◌, if◌then◌else◌, set, true,
  false, Bool-cases, Option-cases, ==_iff, inl, inr, ◌⊎◌, subst,
}
use quantum.Kernel32.Handles.{
  KernelObject, HandleTable, unpack, slot_at, live, get, get_by, descriptor, Removed, remove_live,
  remove, remove_by,
}
use quantum.Prelude.Checked.{Checked, returns, panics}
use quantum.Kernel32.Handles.Slots.{slot_at-set_self, slot_at-set_ne, slot_at-some}
use quantum.Kernel32.Handles.Map.{
  get_at, get_same, same_handle, live_other, live-some, eq_false, if_true, if_false, live_self,
}

result : {A : Type 0} → A → Checked A → A
result a (returns b) = b
result a panics = a

-- What `remove` has done: nothing at a handle that names no object, and otherwise it has freed the
-- slot of the object, and closed its descriptor.
pub data Removes (handle : ℕ) (t : HandleTable) : Removed → Type 0 where
  absent :
      get handle t ≡ returns none
      → Removes handle t (record { removed = false; closed = none; table = t })
  freed :
      {idx g : ℕ} {obj : KernelObject}
      → unpack handle ≡ returns (some (idx, g))
      → slot_at t.slots idx ≡ some (g, obj)
      → Removes handle t (remove_live t idx (some obj))

pub remove-Removes :
    (handle : ℕ) (t : HandleTable) (r : Removed) → remove handle t ≡ returns r → Removes handle t r
unfolding get remove result
remove-Removes handle t r e = by_fields (unpack handle) refl e
  where
    by_live :
        (idx g : ℕ)
        → unpack handle ≡ returns (some (idx, g))
        → Removes handle t (remove_live t idx (live g (slot_at t.slots idx)))
    by_live idx g u = elim (Option-cases (live g (slot_at t.slots idx))) [
      | inl n ↦
          subst (λ o. Removes handle t (remove_live t idx o)) (sym n)
            (absent (get_at handle t u ∙ ap returns n))
      | inr (obj, n) ↦
          subst (λ o. Removes handle t (remove_live t idx o)) (sym n)
            (freed u (live-some g (slot_at t.slots idx) obj n))
    ]

    by_fields :
        (u : Checked (Option (ℕ × ℕ)))
        → unpack handle ≡ u
        → remove_by t u ≡ returns r
        → Removes handle t r
    by_fields panics eu e = absurd (cc)
    by_fields (returns none) eu e =
        subst (Removes handle t) (ap (result r) e) (absent (ap (get_by t) eu))
    by_fields (returns (some (idx, g))) eu e =
        subst (Removes handle t) (ap (result r) e) (by_live idx g eu)

-- The table with the slot of one handle freed.
get_freed :
    (handle : ℕ) (t : HandleTable) (other idx g : ℕ) (obj : KernelObject)
    → handle < 2 ^ 64
    → other < 2 ^ 64
    → unpack handle ≡ returns (some (idx, g))
    → slot_at t.slots idx ≡ some (g, obj)
    → get other (record { slots = set t.slots idx none })
      ≡ (if other == handle then returns none else get other t)
get_freed handle t other idx g obj b b' u s = elim (Bool-cases (other == handle)) [
  | inl e ↦
      ap (λ (h : ℕ). get h t') ((==_iff other handle).0 e)
      ∙ get_at handle t' u
      ∙ ap (λ s. returns (live g s)) here
      ∙ sym (if_true (other == handle) _ _ e)
  | inr e ↦
      get_same other t t' (slot_same (eq_false other handle e))
      ∙ sym (if_false (other == handle) _ _ e)
]
  where
    t' : HandleTable
    t' = record { slots = set t.slots idx none }

    here : slot_at (set t.slots idx none) idx ≡ none
    here = slot_at-set_self t.slots idx none (slot_at-some t.slots idx (g, obj) s)

    slot_same :
        other ≢ handle
        → (i g' : ℕ) → unpack other ≡ returns (some (i, g'))
        → live g' (slot_at (set t.slots idx none) i) ≡ live g' (slot_at t.slots i)
    slot_same ne i g' v = elim (Bool-cases (idx == i)) [
      | inl e ↦
          let same = (==_iff idx i).0 e in
          subst
            (λ (k : ℕ). live g' (slot_at (set t.slots idx none) k) ≡ live g' (slot_at t.slots k))
            same
            (ap (live g') here
              ∙ sym (
                  ap (live g') s
                  ∙ live_other g g' obj (λ q. ne (
                      same_handle other handle {idx = idx} {g = g} b' b
                        (subst (λ (k : ℕ). unpack other ≡ returns (some (k, g))) (sym same)
                          (subst (λ (k : ℕ). unpack other ≡ returns (some (i, k))) (sym q) v))
                        u))))
      | inr e ↦ ap (live g') (slot_at-set_ne t.slots idx none i (eq_false idx i e))
    ]

-- `remove` says whether the handle named an object; the descriptor of a file, and nothing else, is
-- closed; and in the table left behind no object is found at the handle, while every other handle
-- finds what it found before.
pub get-remove :
    (handle : ℕ) (t : HandleTable) (r : Removed) (other : ℕ)
    → handle < 2 ^ 64
    → other < 2 ^ 64
    → remove handle t ≡ returns r
    → (get other r.table ≡ (if other == handle then returns none else get other t))
      × (((get handle t ≡ returns none) × (r.removed ≡ false) × (r.closed ≡ none))
          ⊎ ((obj : KernelObject) × (get handle t ≡ returns (some obj))
              × (r.removed ≡ true)
              × (r.closed ≡ descriptor obj)))
get-remove handle t r other b b' e = by_case (remove-Removes handle t r e)
  where
    by_case :
        {r : Removed}
        → Removes handle t r
        → (get other r.table ≡ (if other == handle then returns none else get other t))
          × (((get handle t ≡ returns none) × (r.removed ≡ false) × (r.closed ≡ none))
              ⊎ ((obj : KernelObject) × (get handle t ≡ returns (some obj))
                  × (r.removed ≡ true)
                  × (r.closed ≡ descriptor obj)))
    by_case (absent n) = (
      elim (Bool-cases (other == handle)) [
        | inl e ↦
            ap (λ (h : ℕ). get h t) ((==_iff other handle).0 e)
            ∙ n
            ∙ sym (if_true (other == handle) _ _ e)
        | inr e ↦ sym (if_false (other == handle) _ _ e)
      ],
      inl (n, refl, refl),
    )
    by_case (freed {idx = idx} {g = g} {obj = obj} u s) = (
      get_freed handle t other idx g obj b b' u s,
      inr (
        obj,
        get_at handle t u ∙ ap (λ s. returns (live g s)) s ∙ ap returns (live_self g obj),
        refl,
        refl,
      ),
    )
