-- ===== src/Jit/Decoder/Sound/Reads.antt =====
-- The byte reads keep the promise, and what they read is in range.
use quantum.Prelude.{
  ℕ, ◌+◌, ◌<◌, ◌^◌, ◌≡◌, refl, List, ◌++◌, true, false, length, arith, some, none, inl, inr, IsByte,
  get_elem?, get_elem?-lt, get_elem?-append, get_elem?-All, Option-cases, Bool-cases, length-append,
  leb, signed, FitsSigned,
}
use quantum.Jit.Decoder.State.{
  Decoder, peek_u8, read_u8, read_i8, read_u16, read_i16, read_u32, read_i32, read_u64, check_range,
  is_long, ok, err, truncated,
}
use quantum.Jit.Decoder.Sound.{Moves, extend, returns, cut, Sound}
use quantum.Jit.Decoder.Sound.Rules.{Sound-bind, Sound-pure, Moves-refl}

pub peek_u8-some : (d : Decoder) {x : ℕ} → get_elem? d.bytes d.at ≡ some x → peek_u8 d ≡ ok (x, d)
unfolding peek_u8
peek_u8-some d e = rw (e, peek_u8)

pub peek_u8-none : (d : Decoder) → get_elem? d.bytes d.at ≡ none → peek_u8 d ≡ err truncated
unfolding peek_u8
peek_u8-none d e = rw (e, peek_u8)

pub read_u8-some :
    (d : Decoder) {x : ℕ}
    → get_elem? d.bytes d.at ≡ some x
    → read_u8 d ≡ ok (x, record d { at = d.at + 1 })
unfolding read_u8
read_u8-some d e = ground arith

pub read_u8-none : (d : Decoder) → get_elem? d.bytes d.at ≡ none → read_u8 d ≡ err truncated
unfolding read_u8
read_u8-none d e = ground arith

pub Moves-step :
    (d : Decoder) {x : ℕ} → get_elem? d.bytes d.at ≡ some x → Moves 1 d (record d { at = d.at + 1 })
Moves-step d e = record {
  same_bytes = refl;
  same_rip = refl;
  same_mode = refl;
  forward = omega arith;
  short = omega arith;
  inside = omega (arith, get_elem?-lt d.bytes d.at e);
}

pub read_u8-Sound : Sound 1 IsByte read_u8
read_u8-Sound = record {
  run = λ d v more. elim (Option-cases (get_elem? d.bytes d.at)) [
    | inl e ↦ rw (read_u8-none d e) cut
    | inr (x, e) ↦
        rw (read_u8-some d e, read_u8-some (extend more d) (get_elem?-append d.bytes more d.at e))
          (returns (get_elem?-All IsByte d.bytes d.at v.are_bytes e) (Moves-step d e))
  ];
}

pub is_long-Sound : Sound 0 (λ _. Unit {0}) is_long
unfolding is_long
is_long-Sound = record { run = λ d v more. returns tt (Moves-refl d v.inside) }

check_range-ok :
    (n : ℕ) (d : Decoder) → leb (d.at + n) (length d.bytes) ≡ true → check_range n d ≡ ok (tt, d)
unfolding check_range
check_range-ok n d e = rw e

check_range-err :
    (n : ℕ) (d : Decoder)
    → leb (d.at + n) (length d.bytes) ≡ false
    → check_range n d ≡ err truncated
unfolding check_range
check_range-err n d e = rw e

longer :
    (n : ℕ) (d : Decoder) (more : List ℕ)
    → leb (d.at + n) (length d.bytes) ≡ true
    → leb (d.at + n) (length (d.bytes ++ more)) ≡ true
longer n d more e = ground (arith, length-append d.bytes more)

pub check_range-Sound : (n : ℕ) → Sound 0 (λ _. Unit {0}) (check_range n)
check_range-Sound n = record {
  run = λ d v more. elim (Bool-cases (leb (d.at + n) (length d.bytes))) [
    | inl e ↦
        rw (check_range-ok n d e, check_range-ok n (extend more d) (longer n d more e))
          (returns tt (Moves-refl d v.inside))
    | inr e ↦ rw (check_range-err n d e) cut
  ];
}

signed8_fits : (x : ℕ) → IsByte x → FitsSigned 8 (signed 8 x)
signed8_fits x h = ground arith

signed16_fits : (x : ℕ) → x < 2 ^ 16 → FitsSigned 16 (signed 16 x)
signed16_fits x h = ground arith

signed32_fits : (x : ℕ) → x < 2 ^ 32 → FitsSigned 32 (signed 32 x)
signed32_fits x h = ground arith

pub signed64_fits : (x : ℕ) → x < 2 ^ 64 → FitsSigned 64 (signed 64 x)
signed64_fits x h = ground arith

pub read_i8-Sound : Sound 1 (FitsSigned 8) read_i8
read_i8-Sound = Sound-bind read_u8-Sound λ x h. Sound-pure (signed8_fits x h)

pub read_u16-Sound : Sound 2 (λ x. x < 2 ^ 16) read_u16
unfolding read_u16
read_u16-Sound = Sound-bind (check_range-Sound 2) λ _ _.
    Sound-bind read_u8-Sound λ b0 h0. Sound-bind read_u8-Sound λ b1 h1. Sound-pure (omega arith)

pub read_i16-Sound : Sound 2 (FitsSigned 16) read_i16
read_i16-Sound = Sound-bind read_u16-Sound λ x h. Sound-pure (signed16_fits x h)

pub read_u32-Sound : Sound 4 (λ x. x < 2 ^ 32) read_u32
unfolding read_u32
read_u32-Sound = Sound-bind (check_range-Sound 4) λ _ _. Sound-bind read_u8-Sound λ b0 h0.
    Sound-bind read_u8-Sound λ b1 h1.
      Sound-bind read_u8-Sound λ b2 h2. Sound-bind read_u8-Sound λ b3 h3. Sound-pure (omega arith)

pub read_i32-Sound : Sound 4 (FitsSigned 32) read_i32
read_i32-Sound = Sound-bind read_u32-Sound λ x h. Sound-pure (signed32_fits x h)

pub read_u64-Sound : Sound 8 (λ x. x < 2 ^ 64) read_u64
unfolding read_u64
read_u64-Sound = Sound-bind (check_range-Sound 8) λ _ _. Sound-bind read_u8-Sound λ b0 h0.
    Sound-bind read_u8-Sound λ b1 h1. Sound-bind read_u8-Sound λ b2 h2.
      Sound-bind read_u8-Sound λ b3 h3. Sound-bind read_u8-Sound λ b4 h4.
        Sound-bind read_u8-Sound λ b5 h5.
          Sound-bind read_u8-Sound
            λ b6 h6. Sound-bind read_u8-Sound λ b7 h7. Sound-pure (omega arith)
