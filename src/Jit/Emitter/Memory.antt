-- ===== src/Jit/Emitter/Memory.antt =====
-- crates/quantum-jit/src/emitter.rs: loads, stores, branches and system instructions.
use quantum.Prelude.{ℕ, zero, suc, ◌/◌, ◌%◌, [], ◌∷◌, Bool, ltb, ◌==◌, ℤ, pos, negsuc}
use quantum.Prelude.Checked.{◌>>◌, assert}
use quantum.Jit.Emitter.State.{
  Reg, A64Cond, Emit, push, emit_branch, branch26, branch19, branch14, as_u32,
}
use quantum.Jit.Emitter.Word.{word}
use quantum.Jit.Emitter.Integer.{cond_code}
use Prim.Native.Nat.{bit_or}

-- Load and store with an unsigned offset, 0b111 and 0b01.
unfoldable pub ldst_uoff_word : ℕ → ℕ → ℕ → ℕ → Reg → Reg → ℕ
ldst_uoff_word size v opc imm12 rn rt = word (
    (size, 30)
    ∷ (0b111, 27)
    ∷ (v, 26)
    ∷ (0b01, 24)
    ∷ (opc, 22)
    ∷ (imm12, 10)
    ∷ (rn, 5)
    ∷ (rt, 0)
    ∷ [])

unfoldable pub ldst_uoff : ℕ → ℕ → ℕ → ℕ → Reg → Reg → Emit
ldst_uoff size v opc imm12 rn rt = do
  assert (ltb imm12 4096)
  push (ldst_uoff_word size v opc imm12 rn rt)

-- The offset is scaled by the size of the access.
unfoldable pub ldst_scaled : ℕ → ℕ → ℕ → ℕ → ℕ → Reg → Reg → Emit
ldst_scaled unit size v opc offset rn rt = do
  assert (offset % unit == 0)
  ldst_uoff size v opc (offset / unit) rn rt

unfoldable pub ldr64 : Reg → Reg → ℕ → Emit
ldr64 rt rn offset = ldst_scaled 8 0b11 0 0b01 offset rn rt

unfoldable pub ldr32 : Reg → Reg → ℕ → Emit
ldr32 rt rn offset = ldst_scaled 4 0b10 0 0b01 offset rn rt

unfoldable pub ldrb : Reg → Reg → ℕ → Emit
ldrb rt rn offset = ldst_uoff 0b00 0 0b01 offset rn rt

unfoldable pub ldrh : Reg → Reg → ℕ → Emit
ldrh rt rn offset = ldst_scaled 2 0b01 0 0b01 offset rn rt

unfoldable pub str64 : Reg → Reg → ℕ → Emit
str64 rt rn offset = ldst_scaled 8 0b11 0 0b00 offset rn rt

unfoldable pub str32 : Reg → Reg → ℕ → Emit
str32 rt rn offset = ldst_scaled 4 0b10 0 0b00 offset rn rt

unfoldable pub strb : Reg → Reg → ℕ → Emit
strb rt rn offset = ldst_uoff 0b00 0 0b00 offset rn rt

unfoldable pub strh : Reg → Reg → ℕ → Emit
strh rt rn offset = ldst_scaled 2 0b01 0 0b00 offset rn rt

unfoldable pub ldr_q : Reg → Reg → ℕ → Emit
ldr_q rt rn offset = ldst_scaled 16 0b00 1 0b11 offset rn rt

unfoldable pub str_q : Reg → Reg → ℕ → Emit
str_q rt rn offset = ldst_scaled 16 0b00 1 0b10 offset rn rt

unfoldable pub ldr_d : Reg → Reg → ℕ → Emit
ldr_d rt rn offset = ldst_scaled 8 0b11 1 0b01 offset rn rt

unfoldable pub str_d : Reg → Reg → ℕ → Emit
str_d rt rn offset = ldst_scaled 8 0b11 1 0b00 offset rn rt

unfoldable pub ldr_s : Reg → Reg → ℕ → Emit
ldr_s rt rn offset = ldst_scaled 4 0b10 1 0b01 offset rn rt

unfoldable pub str_s : Reg → Reg → ℕ → Emit
str_s rt rn offset = ldst_scaled 4 0b10 1 0b00 offset rn rt

-- Load and store pair, 0b101, with a signed offset of seven bits.
unfoldable pub ldstp_word : ℕ → ℕ → ℕ → ℕ → ℤ → Reg → Reg → Reg → ℕ
ldstp_word opc v load idx_mode imm7 rt2 rn rt = word (
    (opc, 30)
    ∷ (0b101, 27)
    ∷ (v, 26)
    ∷ (idx_mode, 23)
    ∷ (load, 22)
    ∷ (as_u32 imm7 % 128, 15)
    ∷ (rt2, 10)
    ∷ (rn, 5)
    ∷ (rt, 0)
    ∷ [])

unfoldable pub ldstp : ℕ → ℕ → ℕ → ℕ → ℤ → Reg → Reg → Reg → Emit
ldstp opc v load idx_mode imm7 rt2 rn rt = push (ldstp_word opc v load idx_mode imm7 rt2 rn rt)

abbrev pub minus : ℕ → ℤ
minus zero = pos 0
minus (suc n) = negsuc n

-- `imm & 7 == 0`, `imm / 8`, and `(-64..64).contains(&scaled)`.
abbrev pub is_eighth : ℤ → Bool
is_eighth (pos n) = n % 8 == 0
is_eighth (negsuc n) = suc n % 8 == 0

abbrev pub eighth : ℤ → ℤ
eighth (pos n) = pos (n / 8)
eighth (negsuc n) = minus (suc n / 8)

abbrev pub in_seven_bits : ℤ → Bool
in_seven_bits (pos n) = ltb n 64
in_seven_bits (negsuc n) = ltb n 64

unfoldable pub ldstp_scaled : ℕ → ℕ → ℤ → Reg → Reg → Reg → Emit
ldstp_scaled load idx_mode imm rt2 rn rt = do
  assert (is_eighth imm)
  assert (in_seven_bits (eighth imm))
  ldstp 0b10 0 load idx_mode (eighth imm) rt2 rn rt

unfoldable pub stp64_pre : Reg → Reg → Reg → ℤ → Emit
stp64_pre rt rt2 rn imm = ldstp_scaled 0 0b011 imm rt2 rn rt

unfoldable pub ldp64_post : Reg → Reg → Reg → ℤ → Emit
ldp64_post rt rt2 rn imm = ldstp_scaled 1 0b001 imm rt2 rn rt

unfoldable pub stp64 : Reg → Reg → Reg → ℤ → Emit
stp64 rt rt2 rn imm = ldstp_scaled 0 0b010 imm rt2 rn rt

unfoldable pub ldp64 : Reg → Reg → Reg → ℤ → Emit
ldp64 rt rt2 rn imm = ldstp_scaled 1 0b010 imm rt2 rn rt

-- Branches to a label, on their base words.
unfoldable pub b : ℕ → Emit
b label = emit_branch (word ((0b000101, 26) ∷ [])) branch26 label

unfoldable pub bl : ℕ → Emit
bl label = emit_branch (word ((0b100101, 26) ∷ [])) branch26 label

unfoldable pub b_cond : A64Cond → ℕ → Emit
b_cond cond label =
    emit_branch (word ((0b01010100, 24) ∷ (cond_code cond % 16, 0) ∷ [])) branch19 label

unfoldable pub cbz64 : Reg → ℕ → Emit
cbz64 rt label = emit_branch (word ((1, 31) ∷ (0b011010, 25) ∷ (rt, 0) ∷ [])) branch19 label

unfoldable pub cbnz64 : Reg → ℕ → Emit
cbnz64 rt label =
    emit_branch (word ((1, 31) ∷ (0b011010, 25) ∷ (1, 24) ∷ (rt, 0) ∷ [])) branch19 label

unfoldable pub tbz : Reg → ℕ → ℕ → Emit
tbz rt bit label = do
  assert (ltb bit 64)
  emit_branch (word ((bit / 32 % 2, 31) ∷ (0b011011, 25) ∷ (bit % 32, 19) ∷ (rt, 0) ∷ [])) branch14
      label

unfoldable pub tbnz : Reg → ℕ → ℕ → Emit
tbnz rt bit label = do
  assert (ltb bit 64)
  emit_branch (word ((bit / 32 % 2, 31) ∷ (0b011011, 25) ∷ (1, 24) ∷ (bit % 32, 19) ∷ (rt, 0) ∷ []))
      branch14 label

-- Branches to a register, and system instructions.
unfoldable pub br : Reg → Emit
br rn = push (bit_or 0xD61F0000 (word ((rn, 5) ∷ [])))

unfoldable pub blr : Reg → Emit
blr rn = push (bit_or 0xD63F0000 (word ((rn, 5) ∷ [])))

unfoldable pub ret_to : Reg → Emit
ret_to rn = push (bit_or 0xD65F0000 (word ((rn, 5) ∷ [])))

unfoldable pub ret : Emit
ret = ret_to 30

unfoldable pub nop : Emit
nop = push 0xD503201F

unfoldable pub brk : ℕ → Emit
brk imm16 = push (bit_or 0xD4200000 (word ((imm16, 5) ∷ [])))

unfoldable pub isb : Emit
isb = push 0xD50330DF

unfoldable pub dmb_ish : Emit
dmb_ish = push 0xD5033BBF

unfoldable pub mrs_nzcv : Reg → Emit
mrs_nzcv rt = push (bit_or 0xD53B4200 rt)

unfoldable pub msr_nzcv : Reg → Emit
msr_nzcv rt = push (bit_or 0xD51B4200 rt)

unfoldable pub mrs_tpidr_el0 : Reg → Emit
mrs_tpidr_el0 rt = push (bit_or 0xD53BD040 rt)
