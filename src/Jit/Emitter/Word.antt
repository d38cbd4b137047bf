-- ===== src/Jit/Emitter/Word.antt =====
-- crates/quantum-jit/src/emitter.rs: words that are put together from fields.
use quantum.Prelude.{
  ℕ, zero, suc, ◌+◌, ◌*◌, ◌/◌, ◌%◌, ◌^◌, ◌≤◌, ◌<◌, ◌≡◌, refl, ap, ◌∙◌, List, [], ◌∷◌, arith,
}
use mathlib.Core.Path.{ap₂}
use quantum.Prelude.Bits.{bit_or_disjoint}
use native.Mathlib.Nat.{mul-add-div_right, div-eq_of_lt, mul-add-mod_self_right, mod-eq_of_lt}
use Prim.Native.Nat.{bit_or}

-- `<<` on u32.
infixl 72 ◌<<◌
abbrev pub ◌<<◌ : ℕ → ℕ → ℕ
x << k = x * 2 ^ k % 2 ^ 32

-- A field and the place of its lowest bit, `(field, place)`.
abbrev pub Field : Type 0
Field = ℕ × ℕ

-- `f << k | g << j | …`.
unfoldable pub word : List Field → ℕ
word [] = 0
word ((f, k) ∷ fs) = bit_or (f << k) (word fs)

-- The same as a sum.
abbrev pub sum : List Field → ℕ
sum [] = 0
sum ((f, k) ∷ fs) = f * 2 ^ k + sum fs

-- Fields from the highest to the lowest, each below the one before it.
abbrev pub InOrder : ℕ → List Field → Type 0
InOrder n [] = Unit {0}
InOrder n ((f, k) ∷ fs) = (f * 2 ^ k + 2 ^ k ≤ 2 ^ n) × InOrder k fs

power_pos : (n : ℕ) → 0 < 2 ^ n
power_pos zero = omega arith
power_pos (suc n) = omega (arith, power_pos n, two_pow n)
  where
    two_pow : (n : ℕ) → 2 ^ suc n ≡ 2 * 2 ^ n
    two_pow n = omega arith

sum-lt : (n : ℕ) (fs : List Field) → InOrder n fs → sum fs < 2 ^ n
sum-lt n [] h = power_pos n
sum-lt n ((f, k) ∷ fs) (h, hs) = omega (arith, sum-lt k fs hs, h)

word_in : (n : ℕ) (fs : List Field) → 2 ^ n ≤ 2 ^ 32 → InOrder n fs → word fs ≡ sum fs
unfolding word
word_in n [] m h = refl
word_in n ((f, k) ∷ fs) m (h, hs) = omega (
  arith,
  word_in k fs (omega (arith, h, m)) hs,
  ap (bit_or (f << k)) (word_in k fs (omega (arith, h, m)) hs),
  ap (λ (t : ℕ). bit_or t (sum fs)) {x = f << k} {y = f * 2 ^ k} (omega (arith, h, m, power_pos k)),
  bit_or_disjoint k f (sum fs) (sum-lt k fs hs),
)

-- Fields in order do not disturb one another.
pub word_lem : (fs : List Field) → InOrder 32 fs → word fs ≡ sum fs
word_lem fs h = word_in 32 fs (omega arith) h

-- The fields of a number by their places, from the highest.
unfoldable pub fields : List ℕ → ℕ → List ℕ
fields [] w = []
fields (k ∷ ks) w = w / 2 ^ k ∷ fields ks (w % 2 ^ k)

abbrev pub places : List Field → List ℕ
places [] = []
places ((f, k) ∷ fs) = k ∷ places fs

abbrev pub values : List Field → List ℕ
values [] = []
values ((f, k) ∷ fs) = f ∷ values fs

field_above : (k f x : ℕ) → x < 2 ^ k → (f * 2 ^ k + x) / 2 ^ k ≡ f
field_above k f x h = omega (arith, mul-add-div_right (power_pos k) f x, div-eq_of_lt h)

field_below : (k f x : ℕ) → x < 2 ^ k → (f * 2 ^ k + x) % 2 ^ k ≡ x
field_below k f x h = mul-add-mod_self_right f (2 ^ k) x ∙ mod-eq_of_lt h

fields-sum : (n : ℕ) (fs : List Field) → InOrder n fs → fields (places fs) (sum fs) ≡ values fs
unfolding fields
fields-sum n [] h = refl
fields-sum n ((f, k) ∷ fs) (h, hs) =
    ap₂ (λ (x : ℕ) (xs : List ℕ). x ∷ xs) (field_above k f (sum fs) (sum-lt k fs hs))
      (ap (fields (places fs)) (field_below k f (sum fs) (sum-lt k fs hs)) ∙ fields-sum k fs hs)

-- The fields that a word is put together from are found again.
pub fields-word : (fs : List Field) → InOrder 32 fs → fields (places fs) (word fs) ≡ values fs
fields-word fs h = ap (fields (places fs)) (word_lem fs h) ∙ fields-sum 32 fs h
