-- ===== src/Prelude/Slices.antt =====
-- Writes to a slice of a list of bytes, and little-endian numbers of any width.
use Prim.Native.Nat.{ℕ, zero, suc, ◌+◌, ◌-◌, ◌*◌, ◌/◌, ◌%◌, ◌^◌, ◌≤◌, ◌<◌}
use mathlib.Core.Path.{◌≡◌, refl, ap, sym, ◌∙◌}
use mathlib.Core.Option.{some}
use mathlib.Core.Logic.{◌⊎◌, inl, inr}
use mathlib.Core.List.{List, [], ◌∷◌, ◌++◌}
use native.Mathlib.Omega.{arith}
use quantum.Prelude.Lists.{length, get_elem?, take, drop, replicate}

module _ {ℓ} {A : Type ℓ} where
  -- `copy_from_slice` to the slice that stands at an index.
  abbrev pub copy_to : List A → ℕ → List A → List A
  copy_to xs at new = take at xs ++ new ++ drop (length new) (drop at xs)

-- `from_le_bytes` and `to_le_bytes`.
abbrev pub from_le : List ℕ → ℕ
from_le [] = 0
from_le (b ∷ bs) = b + 256 * from_le bs

unfoldable pub to_le : ℕ → ℕ → List ℕ
to_le zero x = []
to_le (suc n) x = x % 256 ∷ to_le n (x / 256)

over-length :
    (new bytes : List ℕ)
    → length new ≤ length bytes
    → length (new ++ drop (length new) bytes) ≡ length bytes
over-length [] bytes h = refl
over-length (x ∷ new) [] h = absurd (omega (arith, h))
over-length (x ∷ new) (y ∷ bytes) h = ap suc (over-length new bytes (omega (arith, h)))

pub length-copy_to :
    (bytes : List ℕ) (rva : ℕ) (new : List ℕ)
    → rva + length new ≤ length bytes
    → length (copy_to bytes rva new) ≡ length bytes
length-copy_to bytes zero new h = over-length new bytes (omega (arith, h))
length-copy_to [] (suc rva) new h = absurd (omega (arith, h))
length-copy_to (x ∷ bytes) (suc rva) new h =
    ap suc (length-copy_to bytes rva new (omega (arith, h)))

take-over : (new rest : List ℕ) → take (length new) (new ++ rest) ≡ new
take-over [] rest = refl
take-over (x ∷ new) rest = ap (λ (l : List ℕ). x ∷ l) (take-over new rest)

-- The slot holds what was written.
pub copied :
    (bytes : List ℕ) (rva : ℕ) (new : List ℕ)
    → rva + length new ≤ length bytes
    → take (length new) (drop rva (copy_to bytes rva new)) ≡ new
copied bytes zero new h = take-over new (drop (length new) bytes)
copied [] (suc rva) new h = absurd (omega (arith, h))
copied (x ∷ bytes) (suc rva) new h = copied bytes rva new (omega (arith, h))

above :
    (new bytes : List ℕ) (i : ℕ)
    → length new ≤ i
    → length new ≤ length bytes
    → get_elem? (new ++ drop (length new) bytes) i ≡ get_elem? bytes i
above [] bytes i h q = refl
above (x ∷ new) [] i h q = absurd (omega (arith, q))
above (x ∷ new) (y ∷ bytes) zero h q = absurd (omega (arith, h))
above (x ∷ new) (y ∷ bytes) (suc i) h q = above new bytes i (omega (arith, h)) (omega (arith, q))

-- The bytes around it stay.
pub around :
    (bytes : List ℕ) (rva : ℕ) (new : List ℕ) (i : ℕ)
    → rva + length new ≤ length bytes
    → (i < rva) ⊎ (rva + length new ≤ i)
    → get_elem? (copy_to bytes rva new) i ≡ get_elem? bytes i
around bytes zero new i h (inl p) = absurd (omega (arith, p))
around bytes zero new i h (inr p) = above new bytes i (omega (arith, p)) (omega (arith, h))
around [] (suc rva) new i h p = absurd (omega (arith, h))
around (x ∷ bytes) (suc rva) new zero h p = refl
around (x ∷ bytes) (suc rva) new (suc i) h p = around bytes rva new i (omega (arith, h)) (lower p)
  where
    lower : (suc i < suc rva) ⊎ (suc rva + length new ≤ suc i) → (i < rva) ⊎ (rva + length new ≤ i)
    lower (inl q) = inl (omega (arith, q))
    lower (inr q) = inr (omega (arith, q))

pub length-to_le : (n x : ℕ) → length (to_le n x) ≡ n
unfolding to_le
length-to_le zero x = refl
length-to_le (suc n) x = ap suc (length-to_le n (x / 256))

-- A number of at most `n` bytes.
abbrev HasBytes : ℕ → ℕ → Type 0
HasBytes zero x = x ≡ 0
HasBytes (suc n) x = HasBytes n (x / 256)

from_le-to_le : (n x : ℕ) → HasBytes n x → from_le (to_le n x) ≡ x
unfolding to_le
from_le-to_le zero x h = omega (arith, h)
from_le-to_le (suc n) x h = omega (arith, from_le-to_le n (x / 256) h)

pub from_le-to_le_4 : (x : ℕ) → from_le (to_le 4 (x % 2 ^ 32)) ≡ x % 2 ^ 32
from_le-to_le_4 x = from_le-to_le 4 (x % 2 ^ 32) (omega arith)

pub from_le-to_le_8 : (x : ℕ) → from_le (to_le 8 (x % 2 ^ 64)) ≡ x % 2 ^ 64
from_le-to_le_8 x = from_le-to_le 8 (x % 2 ^ 64) (omega arith)

module _ {ℓ} {A : Type ℓ} where
  front :
      (xs : List A) (at len : ℕ) (new : List A)
      → at ≤ length xs
      → len ≤ at
      → take len (copy_to xs at new) ≡ take len xs
  front xs at zero new h q = refl
  front xs zero (suc len) new h q = absurd (omega (arith, q))
  front [] (suc at) (suc len) new h q = absurd (omega (arith, h))
  front (x ∷ xs) (suc at) (suc len) new h q =
      ap (λ (l : List A). x ∷ l) (front xs at len new (omega (arith, h)) (omega (arith, q)))

  -- A slice in front of the write stays.
  pub kept_before :
      (xs : List A) (at off len : ℕ) (new : List A)
      → at ≤ length xs
      → off + len ≤ at
      → take len (drop off (copy_to xs at new)) ≡ take len (drop off xs)
  kept_before xs at zero len new h q = front xs at len new h (omega (arith, q))
  kept_before xs zero (suc off) len new h q = absurd (omega (arith, q))
  kept_before [] (suc at) (suc off) len new h q = absurd (omega (arith, h))
  kept_before (x ∷ xs) (suc at) (suc off) len new h q =
      kept_before xs at off len new (omega (arith, h)) (omega (arith, q))

  pub length-replicate : (n : ℕ) (a : A) → length (replicate n a) ≡ n
  length-replicate zero a = refl
  length-replicate (suc n) a = ap suc (length-replicate n a)

  pub length_slice :
      (xs : List A) (off n : ℕ) → off + n ≤ length xs → length (take n (drop off xs)) ≡ n
  length_slice xs zero zero h = refl
  length_slice [] zero (suc n) h = absurd (omega (arith, h))
  length_slice (x ∷ xs) zero (suc n) h = ap suc (length_slice xs zero n (omega (arith, h)))
  length_slice [] (suc off) n h = absurd (omega (arith, h))
  length_slice (x ∷ xs) (suc off) n h = length_slice xs off n (omega (arith, h))

pub get_elem?-take : (xs : List ℕ) (n j : ℕ) → j < n → get_elem? (take n xs) j ≡ get_elem? xs j
get_elem?-take xs zero j h = absurd (omega arith)
get_elem?-take [] (suc n) j h = refl
get_elem?-take (x ∷ xs) (suc n) zero h = refl
get_elem?-take (x ∷ xs) (suc n) (suc j) h = get_elem?-take xs n j (omega arith)

pub get_elem?-drop :
    (xs : List ℕ) (off j i : ℕ) → i ≡ off + j → get_elem? (drop off xs) j ≡ get_elem? xs i
get_elem?-drop xs zero j i e = ap (get_elem? xs) (omega arith)
get_elem?-drop [] (suc off) j i e = refl
get_elem?-drop (x ∷ xs) (suc off) j zero e = absurd (omega arith)
get_elem?-drop (x ∷ xs) (suc off) j (suc i) e = get_elem?-drop xs off j i (omega arith)

pub get_elem?-replicate : (n j : ℕ) → j < n → get_elem? (replicate {A = ℕ} n 0) j ≡ some 0
get_elem?-replicate zero j h = absurd (omega arith)
get_elem?-replicate (suc n) zero h = refl
get_elem?-replicate (suc n) (suc j) h = get_elem?-replicate n j (omega arith)

-- A byte of a slice whose contents are known.
pub in_slice :
    (xs ys : List ℕ) (off n i : ℕ)
    → take n (drop off xs) ≡ ys
    → off ≤ i
    → i < off + n
    → get_elem? xs i ≡ get_elem? ys (i - off)
in_slice xs ys off n i e low high =
    sym (get_elem?-drop xs off (i - off) i (omega arith))
    ∙ sym (get_elem?-take (drop off xs) n (i - off) (omega arith))
    ∙ ap (λ (l : List ℕ). get_elem? l (i - off)) e

-- A byte of what `copy_to` writes.
pub in_copy :
    (xs : List ℕ) (at : ℕ) (new : List ℕ) (i : ℕ)
    → at + length new ≤ length xs
    → at ≤ i
    → i < at + length new
    → get_elem? (copy_to xs at new) i ≡ get_elem? new (i - at)
in_copy xs at new i room low high =
    in_slice (copy_to xs at new) new at (length new) i (copied xs at new room) low high
