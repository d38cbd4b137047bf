-- ===== src/Jit/Decoder/TwoByte.antt =====
-- crates/quantum-jit/src/decoder.rs: the forms and the groups of the two-byte opcodes, arms of decode_secondary that are written out as functions.
use quantum.Prelude.{ℕ, ◌%◌, Bool, ◌||◌, ◌==◌, if◌then◌else◌, pos, Option, none, some}
use quantum.Jit.Iform.{OpSize, Operand, Op, Inst}
use quantum.Jit.Decoder.State.{Decode, ◌>>=◌, pure, unwrap, read_u8, read_i8}
use quantum.Jit.Decoder.Prefixes.{Prefixes}
use quantum.Jit.Decoder.ModRm.{
  decode_modrm, decode_modrm_xmm, gp_reg, reg_operand, make, one_operand, two_operands,
  three_operands, unhandled, reg_index, top2, mid3, low3,
}
use quantum.Jit.Decoder.Groups.{size32, reg_rm, xmm_rm, imm32, nullary, cond_from_low4}

-- F2 selects double precision, F3 single; 66 selects double where neither is present.
abbrev pub scalar_size : Prefixes → OpSize
scalar_size p = if p.repne then OpSize.b8 else OpSize.b4

abbrev pub packed_size : Prefixes → OpSize
packed_size p = if p.osize then OpSize.b8 else OpSize.b4

abbrev pub int_size : Prefixes → OpSize
int_size p = if p.rex.w then OpSize.b8 else OpSize.b4

abbrev pub has_rep : Prefixes → Bool
has_rep p = p.repne || p.repe

-- MOVD and MOVQ between a general register and an XMM register: the reg field is taken without
-- REX.R.
unfoldable pub gpr_to_xmm : Op → OpSize → Prefixes → ℕ → Decode Inst
gpr_to_xmm op xmm_size p rip = do
  (rm, reg) ← decode_modrm p (int_size p)
  pure (make op (two_operands (Operand.xmm_reg reg xmm_size) rm) rip)

unfoldable pub xmm_to_gpr : Prefixes → ℕ → Decode Inst
xmm_to_gpr p rip = do
  (rm, reg) ← decode_modrm p (int_size p)
  pure (make Op.movq_xmm (two_operands rm (Operand.xmm_reg reg (int_size p))) rip)

-- The operation of the packed shift group, by sub-opcode and lane.
unfoldable pub shift_group_op : ℕ → OpSize → Option Op
shift_group_op sub OpSize.b8 =
    if sub == 2
    then some (Op.psrl_imm OpSize.b8)
    else if sub == 3
    then some Op.psrldq_imm
    else if sub == 6
    then some (Op.psll_imm OpSize.b8)
    else if sub == 7
    then some Op.pslldq_imm
    else none
shift_group_op sub lane =
    if sub == 2
    then some (Op.psrl_imm lane)
    else if sub == 4
    then some (Op.psra_imm lane)
    else if sub == 6
    then some (Op.psll_imm lane)
    else none

-- `return Ok(unhandled(rip))` where the group has no operation.
unfoldable pub shift_inst : Option Op → Operand → ℕ → ℕ → Inst
shift_inst none xmm v rip = unhandled rip
shift_inst (some op) xmm v rip = make op (two_operands xmm (Operand.imm (pos v) OpSize.b1)) rip

shift_register : Prefixes → OpSize → ℕ → ℕ → Decode Inst
shift_register p lane modrm rip = do
  v ← read_u8
  pure (
      shift_inst (shift_group_op (mid3 modrm) lane)
        (Operand.xmm_reg (reg_index p.rex.b (low3 modrm)) OpSize.b8) v rip)

-- 66 0F 71/72/73.
unfoldable pub shift_group : Prefixes → OpSize → ℕ → Decode Inst
unfolding shift_register
shift_group p lane rip = do
  modrm ← read_u8
  (if top2 modrm == 3 then shift_register p lane modrm rip else pure (unhandled rip))

movmsk_register : Prefixes → ℕ → ℕ → Decode Inst
movmsk_register p modrm rip = do
  r ← gp_reg p.rex.r (mid3 modrm)
  pure (
      make Op.pmovmsk_b
        (two_operands (Operand.reg r OpSize.b4)
          (Operand.xmm_reg (reg_index p.rex.b (low3 modrm)) OpSize.b8))
        rip)

-- 66 0F D7.
unfoldable pub pmovmskb : Prefixes → ℕ → Decode Inst
unfolding movmsk_register
pmovmskb p rip = do
  modrm ← read_u8
  (if top2 modrm == 3 then movmsk_register p modrm rip else pure (unhandled rip))

-- 66 0F 70.
unfoldable pub pshufd : Prefixes → ℕ → Decode Inst
pshufd p rip = do
  (rm, reg) ← decode_modrm_xmm p OpSize.b8
  v ← read_u8
  pure (
      make Op.pshuf_d
        (three_operands (Operand.xmm_reg reg OpSize.b8) rm (Operand.imm (pos v) OpSize.b1)) rip)

-- CVT(T)SS2SI and CVT(T)SD2SI.
unfoldable pub scalar_to_int : Op → Prefixes → ℕ → Decode Inst
scalar_to_int op p rip = do
  (rm, reg) ← decode_modrm_xmm p (scalar_size p)
  int_reg ← reg_operand p reg (int_size p)
  pure (make op (two_operands int_reg rm) rip)

-- 0F 1F, the long NOP.
unfoldable pub long_nop : Prefixes → ℕ → Decode Inst
long_nop p rip = do _ ← decode_modrm p OpSize.b4; nullary Op.nop rip

-- The operation is named by a condition in the opcode.
unfoldable pub cmov_cc : ℕ → Prefixes → ℕ → Decode Inst
cmov_cc opcode p rip = do
  cond ← unwrap (cond_from_low4 (opcode % 16))
  size ← size32 p
  reg_rm (Op.cmov cond) p size size rip

unfoldable pub jcc_rel32 : ℕ → ℕ → Decode Inst
jcc_rel32 opcode rip = do
  cond ← unwrap (cond_from_low4 (opcode % 16))
  imm32 (Op.jcc cond) OpSize.b4 rip

unfoldable pub set_cc : ℕ → Prefixes → ℕ → Decode Inst
set_cc opcode p rip = do
  cond ← unwrap (cond_from_low4 (opcode % 16))
  (rm, _) ← decode_modrm p OpSize.b1
  pure (make (Op.set cond) (one_operand rm) rip)

-- 0F BA: BT, BTS, BTR, BTC with an immediate.
group8_inst : ℕ → Operand → Operand → ℕ → Inst
group8_inst sub rm amount rip =
    if sub == 4
    then make Op.bt (two_operands rm amount) rip
    else if sub == 5
    then make Op.bts (two_operands rm amount) rip
    else if sub == 6
    then make Op.btr (two_operands rm amount) rip
    else if sub == 7
    then make Op.btc (two_operands rm amount) rip
    else unhandled rip

unfoldable pub decode_group8 : Prefixes → ℕ → Decode Inst
unfolding group8_inst
decode_group8 p rip = do
  size ← size32 p
  (rm, sub) ← decode_modrm p size
  v ← read_i8
  pure (group8_inst sub rm (Operand.imm v OpSize.b1) rip)

abbrev pub packed : Op → Prefixes → ℕ → Decode Inst
packed op p rip = xmm_rm op p OpSize.b8 OpSize.b8 rip
