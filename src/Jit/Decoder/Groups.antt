-- ===== src/Jit/Decoder/Groups.antt =====
-- crates/quantum-jit/src/decoder.rs: the operand forms that the opcode tables share, the
-- arithmetic forms and the opcode groups 1 to 5.
use quantum.Prelude.{ℕ, zero, suc, Option, none, some, ◌==◌, if◌then◌else◌, pos}
use quantum.Jit.Iform.{GpReg, OpSize, Operand, Op, Cond, Inst}
use quantum.Jit.Decoder.State.{
  Decode, ◌>>=◌, pure, halt, unwrap, is_long, read_u8, read_i8, read_i32,
}
use quantum.Jit.Decoder.Prefixes.{Prefixes, op_size_default32, op_size_default64}
use quantum.Jit.Decoder.ModRm.{
  decode_modrm, decode_modrm_xmm, reg_operand, opcode_reg_operand, read_imm, make, one_operand,
  two_operands, no_operands, unhandled, rewidth, low3,
}

-- `self.op_size_default32(p)` and `self.op_size_default64(p)`.
unfoldable pub size32 : Prefixes → Decode OpSize
size32 p = do long ← is_long; pure (op_size_default32 p long)

unfoldable pub size64 : Prefixes → Decode OpSize
size64 p = do long ← is_long; pure (op_size_default64 p long)

-- `if size == OpSize::B2 { OpSize::B2 } else { OpSize::B4 }`.
unfoldable pub imm_z : OpSize → OpSize
imm_z OpSize.b2 = OpSize.b2
imm_z _ = OpSize.b4

-- r/m, r
unfoldable pub rm_reg : Op → Prefixes → OpSize → ℕ → Decode Inst
rm_reg op p size rip = do
  (rm, reg) ← decode_modrm p size
  r ← reg_operand p reg size
  pure (make op (two_operands rm r) rip)

-- r, r/m; the two widths differ in the extending moves.
unfoldable pub reg_rm : Op → Prefixes → OpSize → OpSize → ℕ → Decode Inst
reg_rm op p reg_size rm_size rip = do
  (rm, reg) ← decode_modrm p rm_size
  r ← reg_operand p reg reg_size
  pure (make op (two_operands r rm) rip)

-- xmm, xmm/m and xmm/m, xmm
unfoldable pub xmm_rm : Op → Prefixes → OpSize → OpSize → ℕ → Decode Inst
xmm_rm op p xmm_size rm_size rip = do
  (rm, reg) ← decode_modrm_xmm p rm_size
  pure (make op (two_operands (Operand.xmm_reg reg xmm_size) rm) rip)

unfoldable pub rm_xmm : Op → Prefixes → OpSize → ℕ → Decode Inst
rm_xmm op p size rip = do
  (rm, reg) ← decode_modrm_xmm p size
  pure (make op (two_operands rm (Operand.xmm_reg reg size)) rip)

-- The register named by the opcode's low three bits.
unfoldable pub opcode_reg : Op → Prefixes → ℕ → OpSize → ℕ → Decode Inst
opcode_reg op p low size rip = do
  r ← opcode_reg_operand p low size
  pure (make op (one_operand r) rip)

-- One sign-extended immediate.
unfoldable pub imm8 : Op → OpSize → ℕ → Decode Inst
imm8 op size rip = do v ← read_i8; pure (make op (one_operand (Operand.imm v size)) rip)

unfoldable pub imm32 : Op → OpSize → ℕ → Decode Inst
imm32 op size rip = do v ← read_i32; pure (make op (one_operand (Operand.imm v size)) rip)

-- AL, imm8 and eAX, immZ
unfoldable pub al_imm8 : Op → ℕ → Decode Inst
al_imm8 op rip = do
  v ← read_i8
  pure (make op (two_operands (Operand.reg GpReg.rax OpSize.b1) (Operand.imm v OpSize.b1)) rip)

unfoldable pub eax_imm_z : Op → Prefixes → ℕ → Decode Inst
eax_imm_z op p rip = do
  size ← size32 p
  v ← read_imm (imm_z size)
  pure (make op (two_operands (Operand.reg GpReg.rax size) (Operand.imm v (imm_z size))) rip)

abbrev pub nullary : Op → ℕ → Decode Inst
nullary op rip = pure (make op no_operands rip)

-- The operation of 0x00-0x3D and of group 1, by three bits.
unfoldable pub arith_op : ℕ → Option Op
arith_op zero = some Op.add
arith_op (suc zero) = some Op.or
arith_op (suc (suc zero)) = some Op.adc
arith_op (suc (suc (suc zero))) = some Op.sbb
arith_op (suc (suc (suc (suc zero)))) = some Op.and
arith_op (suc (suc (suc (suc (suc zero))))) = some Op.sub
arith_op (suc (suc (suc (suc (suc (suc zero)))))) = some Op.xor
arith_op (suc (suc (suc (suc (suc (suc (suc zero))))))) = some Op.cmp
arith_op (suc (suc (suc (suc (suc (suc (suc (suc n)))))))) = none

unfoldable pub decode_arith_form : ℕ → Prefixes → Op → ℕ → Decode Inst
decode_arith_form opcode p op rip =
    if low3 opcode == 0
    then rm_reg op p OpSize.b1 rip
    else if low3 opcode == 1
    then (do size ← size32 p; rm_reg op p size rip)
    else if low3 opcode == 2
    then reg_rm op p OpSize.b1 OpSize.b1 rip
    else if low3 opcode == 3
    then (do size ← size32 p; reg_rm op p size size rip)
    else if low3 opcode == 4
    then al_imm8 op rip
    else if low3 opcode == 5
    then eax_imm_z op p rip
    else pure (unhandled rip)

unfoldable pub decode_group1 : Prefixes → OpSize → OpSize → ℕ → Decode Inst
decode_group1 p size imm_size rip = do
  (rm, sub) ← decode_modrm p size
  op ← unwrap (arith_op sub)
  v ← read_imm imm_size
  pure (make op (two_operands rm (Operand.imm v imm_size)) rip)

pub data ShiftAmount : Type 0 where
  one cl imm8_amount : ShiftAmount

unfoldable pub shift_op : ℕ → Option Op
shift_op zero = some Op.rol
shift_op (suc zero) = some Op.ror
shift_op (suc (suc zero)) = some Op.rcl
shift_op (suc (suc (suc zero))) = some Op.rcr
shift_op (suc (suc (suc (suc zero)))) = some Op.shl
shift_op (suc (suc (suc (suc (suc zero))))) = some Op.shr
shift_op (suc (suc (suc (suc (suc (suc zero)))))) = some Op.shl
shift_op (suc (suc (suc (suc (suc (suc (suc zero))))))) = some Op.sar
shift_op (suc (suc (suc (suc (suc (suc (suc (suc n)))))))) = none

unfoldable pub shift_amount : ShiftAmount → Decode Operand
shift_amount one = pure (Operand.imm (pos 1) OpSize.b1)
shift_amount cl = pure (Operand.reg GpReg.rcx OpSize.b1)
shift_amount imm8_amount = do v ← read_u8; pure (Operand.imm (pos v) OpSize.b1)

unfoldable pub decode_group2 : Prefixes → OpSize → ShiftAmount → ℕ → Decode Inst
decode_group2 p size amount rip = do
  (rm, sub) ← decode_modrm p size
  op ← unwrap (shift_op sub)
  amt ← shift_amount amount
  pure (make op (two_operands rm amt) rip)

-- The width of the immediate of TEST r/m, imm.
unfoldable pub test_imm_size : OpSize → OpSize
test_imm_size OpSize.b1 = OpSize.b1
test_imm_size OpSize.b2 = OpSize.b2
test_imm_size _ = OpSize.b4

unfoldable pub test_imm : Operand → OpSize → ℕ → Decode Inst
test_imm rm size rip = do
  v ← read_imm (test_imm_size size)
  pure (make Op.test (two_operands rm (Operand.imm v (test_imm_size size))) rip)

-- The unary operations of group 3.
unfoldable pub group3_op : ℕ → Operand → OpSize → ℕ → Decode Inst
group3_op sub rm size rip =
    if sub == 0
    then test_imm rm size rip
    else if sub == 1
    then test_imm rm size rip
    else if sub == 2
    then pure (make Op.not (one_operand rm) rip)
    else if sub == 3
    then pure (make Op.neg (one_operand rm) rip)
    else if sub == 4
    then pure (make Op.mul (one_operand rm) rip)
    else if sub == 5
    then pure (make Op.imul (one_operand rm) rip)
    else if sub == 6
    then pure (make Op.div (one_operand rm) rip)
    else if sub == 7
    then pure (make Op.idiv (one_operand rm) rip)
    else halt

unfoldable pub decode_group3 : Prefixes → OpSize → ℕ → Decode Inst
decode_group3 p size rip = do (rm, sub) ← decode_modrm p size; group3_op sub rm size rip

unfoldable pub decode_group4 : Prefixes → ℕ → Decode Inst
decode_group4 p rip = do
  (rm, sub) ← decode_modrm p OpSize.b1
  pure (
      if sub == 0
      then make Op.inc (one_operand rm) rip
      else if sub == 1
      then make Op.dec (one_operand rm) rip
      else unhandled rip)

unfoldable pub group5_inst : ℕ → Operand → OpSize → ℕ → Inst
group5_inst sub rm call_size rip =
    if sub == 0
    then make Op.inc (one_operand rm) rip
    else if sub == 1
    then make Op.dec (one_operand rm) rip
    else if sub == 2
    then make Op.call_indirect (one_operand (rewidth rm call_size)) rip
    else if sub == 4
    then make Op.jmp_indirect (one_operand (rewidth rm call_size)) rip
    else if sub == 6
    then make Op.push (one_operand (rewidth rm call_size)) rip
    else unhandled rip

unfoldable pub decode_group5 : Prefixes → ℕ → Decode Inst
decode_group5 p rip = do
  size ← size32 p
  call_size ← size64 p
  (rm, sub) ← decode_modrm p size
  pure (group5_inst sub rm call_size rip)

-- `cond_from_low4`.
unfoldable pub cond_from_low4 : ℕ → Option Cond
cond_from_low4 n =
    if n == 0x0
    then some Cond.o
    else if n == 0x1
    then some Cond.not_o
    else if n == 0x2
    then some Cond.b
    else if n == 0x3
    then some Cond.nb
    else if n == 0x4
    then some Cond.e
    else if n == 0x5
    then some Cond.ne
    else if n == 0x6
    then some Cond.be
    else if n == 0x7
    then some Cond.a
    else if n == 0x8
    then some Cond.s
    else if n == 0x9
    then some Cond.ns
    else if n == 0xA
    then some Cond.p
    else if n == 0xB
    then some Cond.np
    else if n == 0xC
    then some Cond.l
    else if n == 0xD
    then some Cond.nl
    else if n == 0xE
    then some Cond.le
    else if n == 0xF
    then some Cond.g
    else none
