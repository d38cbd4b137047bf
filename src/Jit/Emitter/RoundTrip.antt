-- ===== src/Jit/Emitter/RoundTrip.antt =====
-- crates/quantum-jit/src/emitter.rs: the words of the encoders, read back by their fields.
use quantum.Prelude.{
  ℕ, zero, suc, ◌+◌, ◌-◌, ◌*◌, ◌/◌, ◌%◌, ◌^◌, ◌<◌, ◌≡◌, refl, ap, ◌∙◌, [], ◌∷◌, some, ltb, ltb→lt,
  lt→ltb, false, ℤ, pos, negsuc, true, arith, if◌then◌else◌,
}
use quantum.Jit.Emitter.State.{as_u32}
use quantum.Jit.Emitter.Word.{fields}
use quantum.Jit.Emitter.Memory.{ldst_uoff_word, ldstp_word, in_seven_bits}
use quantum.Jit.Emitter.Decode.{
  Insn, encode, IsEncodable, signed7, read_load_store, read_load_store_pair, of_class, decode,
}
use quantum.Jit.Emitter.Arithmetic.{
  decode-mov_wide, decode-add_sub_imm, decode-add_sub_reg, decode-logical_reg, decode-two_source,
  decode-multiply_add, decode-select,
}
use quantum.Jit.Emitter.ByFields.{by_fields}

load_store_at_zero :
    (size opc imm12 rn rt : ℕ)
    → IsEncodable (Insn.load_store size 0 opc imm12 rn rt)
    → decode (ldst_uoff_word size 0 opc imm12 rn rt) ≡ some (Insn.load_store size 0 opc imm12 rn rt)
unfolding ldst_uoff_word of_class
load_store_at_zero size opc imm12 rn rt (h0, h1, h2, h3, h4, h5) =
    by_fields
      ((size, 30)
        ∷ (0b111, 27)
        ∷ (0, 26)
        ∷ (0b01, 24)
        ∷ (opc, 22)
        ∷ (imm12, 10)
        ∷ (rn, 5)
        ∷ (rt, 0)
        ∷ [])
      25 read_load_store
      (
        omega arith,
        (
          omega arith,
          (
            omega arith,
            (omega arith, (omega arith, (omega arith, (omega arith, (omega arith, tt))))),
          ),
        ),
      )
      (omega arith) (λ w h. refl)

load_store_at_one :
    (size opc imm12 rn rt : ℕ)
    → IsEncodable (Insn.load_store size 1 opc imm12 rn rt)
    → decode (ldst_uoff_word size 1 opc imm12 rn rt) ≡ some (Insn.load_store size 1 opc imm12 rn rt)
unfolding ldst_uoff_word of_class
load_store_at_one size opc imm12 rn rt (h0, h1, h2, h3, h4, h5) =
    by_fields
      ((size, 30)
        ∷ (0b111, 27)
        ∷ (1, 26)
        ∷ (0b01, 24)
        ∷ (opc, 22)
        ∷ (imm12, 10)
        ∷ (rn, 5)
        ∷ (rt, 0)
        ∷ [])
      29 read_load_store
      (
        omega arith,
        (
          omega arith,
          (
            omega arith,
            (omega arith, (omega arith, (omega arith, (omega arith, (omega arith, tt))))),
          ),
        ),
      )
      (omega arith) (λ w h. refl)

decode-load_store :
    (size v opc imm12 rn rt : ℕ)
    → IsEncodable (Insn.load_store size v opc imm12 rn rt)
    → decode (ldst_uoff_word size v opc imm12 rn rt) ≡ some (Insn.load_store size v opc imm12 rn rt)
decode-load_store size zero opc imm12 rn rt h = load_store_at_zero size opc imm12 rn rt h
decode-load_store size (suc zero) opc imm12 rn rt h = load_store_at_one size opc imm12 rn rt h
decode-load_store size (suc (suc v)) opc imm12 rn rt h = absurd (omega (arith, h.1))

-- A signed offset of seven bits.
signed7_lem : (z : ℤ) → in_seven_bits z ≡ true → signed7 (as_u32 z % 128) ≡ z
signed7_lem (pos n) h =
    ap signed7 {x = n % 2 ^ 32 % 128} {y = n} (omega (arith, ltb→lt n 64 h)) ∙ low n (ltb→lt n 64 h)
  where
    low : (n : ℕ) → n < 64 → signed7 n ≡ pos n
    low n h = ap (λ b. if b then pos n else negsuc (127 - n)) (lt→ltb n 64 h)
signed7_lem (negsuc n) h =
    ap signed7 {x = (2 ^ 32 - 1 - n % 2 ^ 32) % 128} {y = 127 - n} (omega (arith, ltb→lt n 64 h))
    ∙ high n (ltb→lt n 64 h)
  where
    high : (n : ℕ) → n < 64 → signed7 (127 - n) ≡ negsuc n
    high n h =
        ap (λ b. if b then pos (127 - n) else negsuc (127 - (127 - n))) {x = ltb (127 - n) 64}
          {y = false} (ground arith)
        ∙ ap negsuc (omega arith)

-- The class of a pair has the bit v and the upper bit of the mode.
abbrev class : ℕ → ℕ → ℕ
class v idx_mode = 8 + 4 * v + idx_mode / 2

pair_class :
    (v idx_mode w : ℕ)
    → v < 2
    → idx_mode < 4
    → of_class (class v idx_mode) w
      ≡ read_load_store_pair (fields (30 ∷ 27 ∷ 26 ∷ 23 ∷ 22 ∷ 15 ∷ 10 ∷ 5 ∷ 0 ∷ []) w)
unfolding of_class
pair_class zero zero w p q = refl
pair_class zero (suc zero) w p q = refl
pair_class zero (suc (suc zero)) w p q = refl
pair_class zero (suc (suc (suc zero))) w p q = refl
pair_class zero (suc (suc (suc (suc n)))) w p q = absurd (omega (arith, q))
pair_class (suc zero) zero w p q = refl
pair_class (suc zero) (suc zero) w p q = refl
pair_class (suc zero) (suc (suc zero)) w p q = refl
pair_class (suc zero) (suc (suc (suc zero))) w p q = refl
pair_class (suc zero) (suc (suc (suc (suc n)))) w p q = absurd (omega (arith, q))
pair_class (suc (suc n)) i w p q = absurd (omega (arith, p))

decode-pair :
    (opc v load idx_mode : ℕ) (imm7 : ℤ) (rt2 rn rt : ℕ)
    → IsEncodable (Insn.load_store_pair opc v load idx_mode imm7 rt2 rn rt)
    → decode (ldstp_word opc v load idx_mode imm7 rt2 rn rt)
      ≡ some (Insn.load_store_pair opc v load idx_mode imm7 rt2 rn rt)
unfolding ldstp_word of_class
decode-pair opc v load idx_mode imm7 rt2 rn rt (h0, h1, h2, h3, h4, h5, h6, h7) =
    by_fields
      ((opc, 30)
        ∷ (0b101, 27)
        ∷ (v, 26)
        ∷ (idx_mode, 23)
        ∷ (load, 22)
        ∷ (as_u32 imm7 % 128, 15)
        ∷ (rt2, 10)
        ∷ (rn, 5)
        ∷ (rt, 0)
        ∷ [])
      (class v idx_mode) read_load_store_pair
      (
        omega arith,
        (
          omega arith,
          (
            omega arith,
            (
              omega arith,
              (omega arith, (omega arith, (omega arith, (omega arith, (omega arith, tt))))),
            ),
          ),
        ),
      )
      (omega arith) (λ w h. pair_class v idx_mode w h1 h3)
    ∙ ap (λ z. some (Insn.load_store_pair opc v load idx_mode z rt2 rn rt)) (signed7_lem imm7 h4)

pub decode-encode : (i : Insn) → IsEncodable i → decode (encode i) ≡ some i
unfolding encode
decode-encode (Insn.mov_wide a b c d e) h = decode-mov_wide a b c d e h
decode-encode (Insn.add_sub_imm a b c d e f g) h = decode-add_sub_imm a b c d e f g h
decode-encode (Insn.add_sub_reg a b c d e f g i) h = decode-add_sub_reg a b c d e f g i h
decode-encode (Insn.logical_reg a b c d e f g i) h = decode-logical_reg a b c d e f g i h
decode-encode (Insn.two_source a b c d e) h = decode-two_source a b c d e h
decode-encode (Insn.multiply_add a b c d e) h = decode-multiply_add a b c d e h
decode-encode (Insn.select a b c d e f g) h = decode-select a b c d e f g h
decode-encode (Insn.load_store a b c d e f) h = decode-load_store a b c d e f h
decode-encode (Insn.load_store_pair a b c d e f g i) h = decode-pair a b c d e f g i h
