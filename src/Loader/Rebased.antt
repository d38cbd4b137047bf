-- ===== src/Loader/Rebased.antt =====
-- crates/quantum-loader/src/reloc.rs: relocated slots, as a relation on the bytes of an image.
use quantum.Prelude.{
  ℕ, ◌+◌, ◌*◌, ◌%◌, ◌^◌, ◌≤◌, ◌<◌, ◌≡◌, refl, sym, ◌∙◌, ap, ◌⊎◌, inl, inr, List, length, get_elem?,
  take, drop, arith,
}
use quantum.Prelude.Slices.{
  copy_to, from_le, to_le, length-copy_to, copied, around, length-to_le, from_le-to_le_4,
  from_le-to_le_8,
}

-- The number in a slot of `n` bytes goes up by the delta, and nothing else changes.
pub record Moves (n delta rva : ℕ) (before after : List ℕ) : Type 0 where
  pub inside : rva + n ≤ length before
  pub same_length : length after ≡ length before
  pub moved :
      from_le (take n (drop rva after)) ≡ (from_le (take n (drop rva before)) + delta) % 2 ^ (8 * n)
  pub others : (i : ℕ) → (i < rva) ⊎ (rva + n ≤ i) → get_elem? after i ≡ get_elem? before i

-- From `start`, so many DIR64 slots and so many HIGHLOW slots are moved, one after the other.
pub data Rebased (delta : ℕ) (start : List ℕ) : ℕ → ℕ → List ℕ → Type 0 where
  untouched : Rebased delta start 0 0 start
  dir64 :
      {m n : ℕ} {bytes after : List ℕ} (rva : ℕ)
      → Rebased delta start m n bytes
      → Moves 8 delta rva bytes after
      → Rebased delta start (m + 1) n after
  highlow :
      {m n : ℕ} {bytes after : List ℕ} (rva : ℕ)
      → Rebased delta start m n bytes
      → Moves 4 (delta % 2 ^ 32) rva bytes after
      → Rebased delta start m (n + 1) after

pub Rebased-length :
    {delta : ℕ} {start : List ℕ} {m n : ℕ} {bytes : List ℕ}
    → Rebased delta start m n bytes
    → length bytes ≡ length start
Rebased-length untouched = refl
Rebased-length (dir64 rva r w) = w.same_length ∙ Rebased-length r
Rebased-length (highlow rva r w) = w.same_length ∙ Rebased-length r

pub slot-Moves_8 :
    (delta rva : ℕ) (bytes : List ℕ)
    → rva + 8 ≤ length bytes
    → Moves 8 delta rva bytes
        (copy_to bytes rva (to_le 8 ((from_le (take 8 (drop rva bytes)) + delta) % 2 ^ 64)))
slot-Moves_8 delta rva bytes h = record {
  inside = h;
  same_length = length-copy_to bytes rva new fits;
  moved =
      ap (λ k. from_le (take k (drop rva (copy_to bytes rva new)))) (sym new_length)
      ∙ ap from_le (copied bytes rva new fits)
      ∙ from_le-to_le_8 _;
  others = λ i p.
      around bytes rva new i fits
        (elim p [ inl q ↦ inl q | inr q ↦ inr (omega (arith, q, new_length)) ]);
}
  where
    new : List ℕ
    new = to_le 8 ((from_le (take 8 (drop rva bytes)) + delta) % 2 ^ 64)

    new_length : length new ≡ 8
    new_length = length-to_le 8 _

    fits : rva + length new ≤ length bytes
    fits = omega (arith, h, new_length)

pub slot-Moves_4 :
    (delta rva : ℕ) (bytes : List ℕ)
    → rva + 4 ≤ length bytes
    → Moves 4 delta rva bytes
        (copy_to bytes rva (to_le 4 ((from_le (take 4 (drop rva bytes)) + delta) % 2 ^ 32)))
slot-Moves_4 delta rva bytes h = record {
  inside = h;
  same_length = length-copy_to bytes rva new fits;
  moved =
      ap (λ k. from_le (take k (drop rva (copy_to bytes rva new)))) (sym new_length)
      ∙ ap from_le (copied bytes rva new fits)
      ∙ from_le-to_le_4 _;
  others = λ i p.
      around bytes rva new i fits
        (elim p [ inl q ↦ inl q | inr q ↦ inr (omega (arith, q, new_length)) ]);
}
  where
    new : List ℕ
    new = to_le 4 ((from_le (take 4 (drop rva bytes)) + delta) % 2 ^ 32)

    new_length : length new ≡ 4
    new_length = length-to_le 4 _

    fits : rva + length new ≤ length bytes
    fits = omega (arith, h, new_length)
