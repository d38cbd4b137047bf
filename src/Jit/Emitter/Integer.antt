-- ===== src/Jit/Emitter/Integer.antt =====
-- crates/quantum-jit/src/emitter.rs: the instructions on general registers.
use quantum.Prelude.{ℕ, ◌/◌, ◌%◌, [], ◌∷◌, Option, none, some, ltb, leb, ◌==◌, ◌&&◌, if◌then◌else◌}
use quantum.Prelude.Checked.{◌>>◌, assert, panics}
use quantum.Jit.Emitter.State.{Reg, zero_register, A64Cond, Emit, push}
use quantum.Jit.Emitter.Word.{word}
use quantum.Jit.Emitter.Forms.{register_form, dp1src}

-- Move wide, 0b100101. The assertion is on the 64-bit or the 32-bit form's lanes.
unfoldable pub movw_word : ℕ → ℕ → ℕ → ℕ → Reg → ℕ
movw_word sf opc hw imm16 rd =
    word ((sf, 31) ∷ (opc, 29) ∷ (0b100101, 23) ∷ (hw, 21) ∷ (imm16, 5) ∷ (rd, 0) ∷ [])

unfoldable pub movw : ℕ → ℕ → ℕ → ℕ → Reg → Emit
movw sf opc hw imm16 rd = do
  assert (ltb hw (if sf == 1 then 4 else 2))
  push (movw_word sf opc hw imm16 rd)

unfoldable pub movz64 : Reg → ℕ → ℕ → Emit
movz64 rd imm16 lsl = movw 1 0b10 (lsl / 16) imm16 rd

unfoldable pub movz32 : Reg → ℕ → ℕ → Emit
movz32 rd imm16 lsl = movw 0 0b10 (lsl / 16) imm16 rd

unfoldable pub movn64 : Reg → ℕ → ℕ → Emit
movn64 rd imm16 lsl = movw 1 0b00 (lsl / 16) imm16 rd

unfoldable pub movk64 : Reg → ℕ → ℕ → Emit
movk64 rd imm16 lsl = movw 1 0b11 (lsl / 16) imm16 rd

unfoldable pub movk32 : Reg → ℕ → ℕ → Emit
movk32 rd imm16 lsl = movw 0 0b11 (lsl / 16) imm16 rd

-- Add and subtract an immediate, 0b100010.
unfoldable pub addsub_imm_word : ℕ → ℕ → ℕ → ℕ → ℕ → Reg → Reg → ℕ
addsub_imm_word sf op s shift imm12 rn rd = word (
    (sf, 31)
    ∷ (op, 30)
    ∷ (s, 29)
    ∷ (0b100010, 23)
    ∷ (shift, 22)
    ∷ (imm12, 10)
    ∷ (rn, 5)
    ∷ (rd, 0)
    ∷ [])

unfoldable pub addsub_imm : ℕ → ℕ → ℕ → ℕ → ℕ → Reg → Reg → Emit
addsub_imm sf op s shift imm12 rn rd = do
  assert (ltb imm12 4096)
  assert (leb shift 1)
  push (addsub_imm_word sf op s shift imm12 rn rd)

-- The shift and the twelve bits.
unfoldable pub encode_addsub_imm : ℕ → Option (ℕ × ℕ)
encode_addsub_imm value =
    if ltb value 4096
    then some (0, value)
    else if value % 4096 == 0 && ltb (value / 4096) 4096
    then some (1, value / 4096)
    else none

-- With `expect`.
abbrev pub addsub_encoded : ℕ → ℕ → Reg → Reg → Option (ℕ × ℕ) → Emit
addsub_encoded op s rd rn none e = panics
addsub_encoded op s rd rn (some (shift, imm12)) e = addsub_imm 1 op s shift imm12 rn rd e

unfoldable pub add64_imm : Reg → Reg → ℕ → Emit
add64_imm rd rn imm = addsub_encoded 0 0 rd rn (encode_addsub_imm imm)

unfoldable pub adds64_imm : Reg → Reg → ℕ → Emit
adds64_imm rd rn imm = addsub_encoded 0 1 rd rn (encode_addsub_imm imm)

unfoldable pub sub64_imm : Reg → Reg → ℕ → Emit
sub64_imm rd rn imm = addsub_encoded 1 0 rd rn (encode_addsub_imm imm)

unfoldable pub subs64_imm : Reg → Reg → ℕ → Emit
subs64_imm rd rn imm = addsub_encoded 1 1 rd rn (encode_addsub_imm imm)

unfoldable pub cmp64_imm : Reg → ℕ → Emit
cmp64_imm rn imm = subs64_imm zero_register rn imm

-- Add and subtract registers, 0b01011. `shift` is the code of a ShiftKind.
unfoldable pub addsub_shifted_word : ℕ → ℕ → ℕ → ℕ → Reg → ℕ → Reg → Reg → ℕ
addsub_shifted_word sf op s shift rm imm6 rn rd = word (
    (sf, 31)
    ∷ (op, 30)
    ∷ (s, 29)
    ∷ (0b01011, 24)
    ∷ (shift, 22)
    ∷ (0, 21)
    ∷ (rm, 16)
    ∷ (imm6, 10)
    ∷ (rn, 5)
    ∷ (rd, 0)
    ∷ [])

unfoldable pub addsub_shifted : ℕ → ℕ → ℕ → ℕ → Reg → ℕ → Reg → Reg → Emit
addsub_shifted sf op s shift rm imm6 rn rd = do
  assert (ltb imm6 64)
  push (addsub_shifted_word sf op s shift rm imm6 rn rd)

unfoldable pub add64 : Reg → Reg → Reg → Emit
add64 rd rn rm = addsub_shifted 1 0 0 0b00 rm 0 rn rd

unfoldable pub adds64 : Reg → Reg → Reg → Emit
adds64 rd rn rm = addsub_shifted 1 0 1 0b00 rm 0 rn rd

unfoldable pub sub64 : Reg → Reg → Reg → Emit
sub64 rd rn rm = addsub_shifted 1 1 0 0b00 rm 0 rn rd

unfoldable pub subs64 : Reg → Reg → Reg → Emit
subs64 rd rn rm = addsub_shifted 1 1 1 0b00 rm 0 rn rd

unfoldable pub cmp64 : Reg → Reg → Emit
cmp64 rn rm = subs64 zero_register rn rm

-- Logical operations on registers, 0b01010.
unfoldable pub logical_shifted_word : ℕ → ℕ → ℕ → ℕ → Reg → ℕ → Reg → Reg → ℕ
logical_shifted_word sf opc shift n rm imm6 rn rd = word (
    (sf, 31)
    ∷ (opc, 29)
    ∷ (0b01010, 24)
    ∷ (shift, 22)
    ∷ (n, 21)
    ∷ (rm, 16)
    ∷ (imm6, 10)
    ∷ (rn, 5)
    ∷ (rd, 0)
    ∷ [])

unfoldable pub logical_shifted : ℕ → ℕ → ℕ → ℕ → Reg → ℕ → Reg → Reg → Emit
logical_shifted sf opc shift n rm imm6 rn rd =
    push (logical_shifted_word sf opc shift n rm imm6 rn rd)

unfoldable pub and64 : Reg → Reg → Reg → Emit
and64 rd rn rm = logical_shifted 1 0b00 0b00 0 rm 0 rn rd

unfoldable pub orr64 : Reg → Reg → Reg → Emit
orr64 rd rn rm = logical_shifted 1 0b01 0b00 0 rm 0 rn rd

unfoldable pub eor64 : Reg → Reg → Reg → Emit
eor64 rd rn rm = logical_shifted 1 0b10 0b00 0 rm 0 rn rd

unfoldable pub ands64 : Reg → Reg → Reg → Emit
ands64 rd rn rm = logical_shifted 1 0b11 0b00 0 rm 0 rn rd

unfoldable pub mov64 : Reg → Reg → Emit
mov64 rd rm = orr64 rd zero_register rm

-- Two sources, 0b11010110.
unfoldable pub dp_2src_word : ℕ → ℕ → Reg → Reg → Reg → ℕ
dp_2src_word sf opcode rm rn rd = word (
    (sf, 31)
    ∷ (0, 30)
    ∷ (0, 29)
    ∷ (0b11010110, 21)
    ∷ (rm, 16)
    ∷ (opcode, 10)
    ∷ (rn, 5)
    ∷ (rd, 0)
    ∷ [])

unfoldable pub dp_2src : ℕ → ℕ → Reg → Reg → Reg → Emit
dp_2src sf opcode rm rn rd = push (dp_2src_word sf opcode rm rn rd)

unfoldable pub udiv64 : Reg → Reg → Reg → Emit
udiv64 rd rn rm = dp_2src 1 0b000010 rm rn rd

unfoldable pub sdiv64 : Reg → Reg → Reg → Emit
sdiv64 rd rn rm = dp_2src 1 0b000011 rm rn rd

unfoldable pub lslv64 : Reg → Reg → Reg → Emit
lslv64 rd rn rm = dp_2src 1 0b001000 rm rn rd

unfoldable pub lsrv64 : Reg → Reg → Reg → Emit
lsrv64 rd rn rm = dp_2src 1 0b001001 rm rn rd

unfoldable pub asrv64 : Reg → Reg → Reg → Emit
asrv64 rd rn rm = dp_2src 1 0b001010 rm rn rd

unfoldable pub rorv64 : Reg → Reg → Reg → Emit
rorv64 rd rn rm = dp_2src 1 0b001011 rm rn rd

-- MADD and MSUB, which differ in bit 15.
unfoldable pub multiply_word : ℕ → Reg → Reg → Reg → Reg → ℕ
multiply_word o0 rd rn rm ra = word (
    (1, 31)
    ∷ (0b00, 29)
    ∷ (0b11011, 24)
    ∷ (0b000, 21)
    ∷ (rm, 16)
    ∷ (o0, 15)
    ∷ (ra, 10)
    ∷ (rn, 5)
    ∷ (rd, 0)
    ∷ [])

unfoldable pub madd64 : Reg → Reg → Reg → Reg → Emit
madd64 rd rn rm ra = push (multiply_word 0 rd rn rm ra)

unfoldable pub mul64 : Reg → Reg → Reg → Emit
mul64 rd rn rm = madd64 rd rn rm zero_register

unfoldable pub msub64 : Reg → Reg → Reg → Reg → Emit
msub64 rd rn rm ra = push (multiply_word 1 rd rn rm ra)

unfoldable pub umulh64 : Reg → Reg → Reg → Emit
umulh64 rd rn rm = register_form 0x9BC07C00 rd rn rm

unfoldable pub smulh64 : Reg → Reg → Reg → Emit
smulh64 rd rn rm = register_form 0x9B407C00 rd rn rm

-- `cond as u32`, and `invert`, which toggles the lowest bit of the code.
abbrev pub cond_code : A64Cond → ℕ
cond_code A64Cond.eq = 0
cond_code A64Cond.ne = 1
cond_code A64Cond.cs = 2
cond_code A64Cond.lo = 3
cond_code A64Cond.mi = 4
cond_code A64Cond.pl = 5
cond_code A64Cond.vs = 6
cond_code A64Cond.vc = 7
cond_code A64Cond.hi = 8
cond_code A64Cond.ls = 9
cond_code A64Cond.ge = 10
cond_code A64Cond.lt = 11
cond_code A64Cond.gt = 12
cond_code A64Cond.le = 13
cond_code A64Cond.al = 14
cond_code A64Cond.nv = 15

unfoldable pub invert : A64Cond → A64Cond
invert A64Cond.eq = A64Cond.ne
invert A64Cond.ne = A64Cond.eq
invert A64Cond.cs = A64Cond.lo
invert A64Cond.lo = A64Cond.cs
invert A64Cond.mi = A64Cond.pl
invert A64Cond.pl = A64Cond.mi
invert A64Cond.vs = A64Cond.vc
invert A64Cond.vc = A64Cond.vs
invert A64Cond.hi = A64Cond.ls
invert A64Cond.ls = A64Cond.hi
invert A64Cond.ge = A64Cond.lt
invert A64Cond.lt = A64Cond.ge
invert A64Cond.gt = A64Cond.le
invert A64Cond.le = A64Cond.gt
invert A64Cond.al = A64Cond.nv
invert A64Cond.nv = A64Cond.al

-- Conditional selection, 0b11010100.
unfoldable pub csel_word : ℕ → ℕ → ℕ → Reg → A64Cond → Reg → Reg → ℕ
csel_word sf op o2 rm cond rn rd = word (
    (sf, 31)
    ∷ (op, 30)
    ∷ (0, 29)
    ∷ (0b11010100, 21)
    ∷ (rm, 16)
    ∷ (cond_code cond, 12)
    ∷ (o2, 10)
    ∷ (rn, 5)
    ∷ (rd, 0)
    ∷ [])

unfoldable pub csel_form : ℕ → ℕ → ℕ → Reg → A64Cond → Reg → Reg → Emit
csel_form sf op o2 rm cond rn rd = push (csel_word sf op o2 rm cond rn rd)

unfoldable pub csel64 : Reg → Reg → Reg → A64Cond → Emit
csel64 rd rn rm cond = csel_form 1 0 0b00 rm cond rn rd

unfoldable pub csinc64 : Reg → Reg → Reg → A64Cond → Emit
csinc64 rd rn rm cond = csel_form 1 0 0b01 rm cond rn rd

unfoldable pub csinv64 : Reg → Reg → Reg → A64Cond → Emit
csinv64 rd rn rm cond = csel_form 1 1 0b00 rm cond rn rd

unfoldable pub csneg64 : Reg → Reg → Reg → A64Cond → Emit
csneg64 rd rn rm cond = csel_form 1 1 0b01 rm cond rn rd

unfoldable pub cset64 : Reg → A64Cond → Emit
cset64 rd cond = csinc64 rd zero_register zero_register (invert cond)

unfoldable pub rev_x : Reg → Reg → Emit
rev_x rd rn = dp1src 0xDAC00C00 rd rn

unfoldable pub rev_w : Reg → Reg → Emit
rev_w rd rn = dp1src 0x5AC00800 rd rn
