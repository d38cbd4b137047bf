-- ===== src/Jit/Decoder/RoundTrip.antt =====
-- crates/quantum-jit/src/decoder.rs: what the decoder makes of instructions that an assembler
-- writes.
use quantum.Prelude.{
  ℕ, ◌+◌, ◌*◌, ◌/◌, ◌%◌, ◌^◌, ◌<◌, ◌≡◌, refl, List, [], ◌∷◌, ◌++◌, arith, ℤ, pos, negsuc,
  FitsSigned, as_u64, true, signed, le32, ap, ◌∙◌,
}
use quantum.Jit.Iform.{GpReg, OpSize, Operand, Op, Inst}
use quantum.Jit.Decoder.State.{ok, Decoder, new, rip}
use quantum.Jit.Decoder.ModRm.{two_operands, one_operand}
use quantum.Jit.Decoder.Next.{next}
use quantum.Jit.Decoder.Examples.{run}
use quantum.Jit.Decoder.Sound.{IsValid}
use quantum.Jit.Decoder.Total.{next-extend}

-- The number of a register in an encoding.
abbrev pub index_of : GpReg → ℕ
index_of GpReg.rax = 0
index_of GpReg.rcx = 1
index_of GpReg.rdx = 2
index_of GpReg.rbx = 3
index_of GpReg.rsp = 4
index_of GpReg.rbp = 5
index_of GpReg.rsi = 6
index_of GpReg.rdi = 7
index_of GpReg.r8 = 8
index_of GpReg.r9 = 9
index_of GpReg.r10 = 10
index_of GpReg.r11 = 11
index_of GpReg.r12 = 12
index_of GpReg.r13 = 13
index_of GpReg.r14 = 14
index_of GpReg.r15 = 15

-- REX.W with R and B, an opcode of the form r/m, r, and a register ModRM.
abbrev pub encode_rr : ℕ → GpReg → GpReg → List ℕ
encode_rr opcode dst src =
    (0x48 + index_of src / 8 * 4 + index_of dst / 8)
    ∷ opcode
    ∷ (0xC0 + index_of src % 8 * 8 + index_of dst % 8)
    ∷ []

pub index_of-lt : (r : GpReg) → index_of r < 16
index_of-lt GpReg.rax = omega arith
index_of-lt _ = omega arith

abbrev pub decoded_rr : Op → GpReg → GpReg → List ℕ → ℕ → Inst × Decoder
decoded_rr op dst src bytes start = (
  record {
    op = op;
    operands = two_operands (Operand.reg dst OpSize.b8) (Operand.reg src OpSize.b8);
    len = 3;
    guest_rip = rip (new bytes start);
  },
  record { bytes = bytes; at = 3; guest_rip = start; long_mode = true },
)

mov_rr :
    (start : ℕ) (dst src : GpReg)
    → next (new (encode_rr 0x89 dst src) start)
      ≡ ok (decoded_rr Op.mov dst src (encode_rr 0x89 dst src) start)
unfolding run
mov_rr start GpReg.rax GpReg.rax = refl
mov_rr start GpReg.rax _ = refl
mov_rr start GpReg.rcx GpReg.rax = refl
mov_rr start GpReg.rcx _ = refl
mov_rr start GpReg.rdx GpReg.rax = refl
mov_rr start GpReg.rdx _ = refl
mov_rr start GpReg.rbx GpReg.rax = refl
mov_rr start GpReg.rbx _ = refl
mov_rr start GpReg.rsp GpReg.rax = refl
mov_rr start GpReg.rsp _ = refl
mov_rr start GpReg.rbp GpReg.rax = refl
mov_rr start GpReg.rbp _ = refl
mov_rr start GpReg.rsi GpReg.rax = refl
mov_rr start GpReg.rsi _ = refl
mov_rr start GpReg.rdi GpReg.rax = refl
mov_rr start GpReg.rdi _ = refl
mov_rr start GpReg.r8 GpReg.rax = refl
mov_rr start GpReg.r8 _ = refl
mov_rr start GpReg.r9 GpReg.rax = refl
mov_rr start GpReg.r9 _ = refl
mov_rr start GpReg.r10 GpReg.rax = refl
mov_rr start GpReg.r10 _ = refl
mov_rr start GpReg.r11 GpReg.rax = refl
mov_rr start GpReg.r11 _ = refl
mov_rr start GpReg.r12 GpReg.rax = refl
mov_rr start GpReg.r12 _ = refl
mov_rr start GpReg.r13 GpReg.rax = refl
mov_rr start GpReg.r13 _ = refl
mov_rr start GpReg.r14 GpReg.rax = refl
mov_rr start GpReg.r14 _ = refl
mov_rr start GpReg.r15 GpReg.rax = refl
mov_rr start GpReg.r15 _ = refl

encode_rr-IsValid : (start : ℕ) (dst src : GpReg) → IsValid (new (encode_rr 0x89 dst src) start)
encode_rr-IsValid start dst src = record {
  inside = omega arith;
  are_bytes = (rex_IsByte dst src, (omega arith, (omega arith, tt)));
}
  where
    rex_IsByte : (d s : GpReg) → 0x48 + index_of s / 8 * 4 + index_of d / 8 < 256
    rex_IsByte d s = omega (arith, index_of-lt d, index_of-lt s)

-- MOV r64, r64, written with REX.W, R and B for any two of the sixteen registers, decodes to these
-- two registers in three bytes, whatever bytes follow and wherever the code lies.
pub next-encode_rr :
    (dst src : GpReg) (more : List ℕ) (start : ℕ)
    → next (new (encode_rr 0x89 dst src ++ more) start)
      ≡ ok (decoded_rr Op.mov dst src (encode_rr 0x89 dst src ++ more) start)
next-encode_rr dst src more start =
    next-extend (new (encode_rr 0x89 dst src) start) more _ _ (encode_rr-IsValid start dst src)
      (mov_rr start dst src)

-- The four bytes of an i32, lowest first.
abbrev pub byte_of : ℤ → ℕ → ℕ
byte_of v d = as_u64 v / d % 256

abbrev pub encode_rel32 : ℤ → List ℕ
encode_rel32 v =
    byte_of v (2 ^ 0) ∷ byte_of v (2 ^ 8) ∷ byte_of v (2 ^ 16) ∷ byte_of v (2 ^ 24) ∷ []

abbrev pub decoded_rel32 : Op → ℤ → List ℕ → ℕ → Inst × Decoder
decoded_rel32 op v bytes start = (
  record {
    op = op;
    operands = one_operand (Operand.imm v OpSize.b4);
    len = 5;
    guest_rip = rip (new bytes start);
  },
  record { bytes = bytes; at = 5; guest_rip = start; long_mode = true },
)

signed_bytes :
    (v : ℤ)
    → FitsSigned 32 v
    → signed 32
        (le32 (byte_of v (2 ^ 0)) (byte_of v (2 ^ 8)) (byte_of v (2 ^ 16)) (byte_of v (2 ^ 24)))
      ≡ v
signed_bytes (pos n) h = ground arith
signed_bytes (negsuc n) h = ground arith

jmp_bytes :
    (start b0 b1 b2 b3 : ℕ)
    → next (new (0xE9 ∷ b0 ∷ b1 ∷ b2 ∷ b3 ∷ []) start)
      ≡ ok (
          decoded_rel32 Op.jmp (signed 32 (le32 b0 b1 b2 b3)) (0xE9 ∷ b0 ∷ b1 ∷ b2 ∷ b3 ∷ []) start)
unfolding run
jmp_bytes start b0 b1 b2 b3 = refl

call_bytes :
    (start b0 b1 b2 b3 : ℕ)
    → next (new (0xE8 ∷ b0 ∷ b1 ∷ b2 ∷ b3 ∷ []) start)
      ≡ ok (
          decoded_rel32 Op.call
            (signed 32 (le32 b0 b1 b2 b3))
            (0xE8 ∷ b0 ∷ b1 ∷ b2 ∷ b3 ∷ [])
            start)
unfolding run
call_bytes start b0 b1 b2 b3 = refl

rel32_IsValid :
    (opcode start : ℕ) (v : ℤ) → opcode < 256 → IsValid (new (opcode ∷ encode_rel32 v) start)
rel32_IsValid opcode start v h = record {
  inside = omega arith;
  are_bytes = (h, (omega arith, (omega arith, (omega arith, (omega arith, tt)))));
}

-- A near JMP and a near CALL whose displacement is any 32-bit integer, written in two's complement
-- and little-endian, decode to that integer in five bytes, whatever bytes follow.
pub next-encode_rel32 :
    (v : ℤ) (more : List ℕ) (start : ℕ)
    → FitsSigned 32 v
    → (next (new ((0xE9 ∷ encode_rel32 v) ++ more) start)
        ≡ ok (decoded_rel32 Op.jmp v ((0xE9 ∷ encode_rel32 v) ++ more) start))
      × (next (new ((0xE8 ∷ encode_rel32 v) ++ more) start)
          ≡ ok (decoded_rel32 Op.call v ((0xE8 ∷ encode_rel32 v) ++ more) start))
next-encode_rel32 v more start h = (
  next-extend (new (0xE9 ∷ encode_rel32 v) start) more _ _
      (rel32_IsValid 0xE9 start v (omega arith))
      (jmp_bytes start _ _ _ _
        ∙ ap (λ w. ok (decoded_rel32 Op.jmp w (0xE9 ∷ encode_rel32 v) start)) (signed_bytes v h)),
  next-extend (new (0xE8 ∷ encode_rel32 v) start) more _ _
      (rel32_IsValid 0xE8 start v (omega arith))
      (call_bytes start _ _ _ _
        ∙ ap (λ w. ok (decoded_rel32 Op.call w (0xE8 ∷ encode_rel32 v) start)) (signed_bytes v h)),
)
