-- ===== src/Jit/Decoder/OneByte.antt =====
-- crates/quantum-jit/src/decoder.rs: the arms of decode_primary that are written out as functions.
use quantum.Prelude.{ℕ, Bool, true, false, ◌==◌, if◌then◌else◌, ℤ, pos}
use quantum.Jit.Iform.{GpReg, OpSize, Operand, Op, Inst}
use quantum.Jit.Decoder.State.{Decode, ◌>>=◌, pure, read_i8, read_i16, read_i32}
use quantum.Jit.Decoder.Prefixes.{Prefixes}
use quantum.Jit.Decoder.ModRm.{
  decode_modrm, reg_operand, opcode_reg_operand, read_imm, make, one_operand, two_operands,
  three_operands, unhandled,
}
use quantum.Jit.Decoder.Groups.{size32, size64, imm_z}

unfoldable pub pop_rm : Prefixes → ℕ → Decode Inst
pop_rm p rip = do
  size ← size64 p
  (rm, sub) ← decode_modrm p size
  pure (if sub == 0 then make Op.pop (one_operand rm) rip else unhandled rip)

mov_imm8 : Operand → ℕ → Decode Inst
mov_imm8 rm rip = do v ← read_i8; pure (make Op.mov (two_operands rm (Operand.imm v OpSize.b1)) rip)

unfoldable pub mov_rm8 : Prefixes → ℕ → Decode Inst
unfolding mov_imm8
mov_rm8 p rip = do
  (rm, sub) ← decode_modrm p OpSize.b1
  (if sub == 0 then mov_imm8 rm rip else pure (unhandled rip))

mov_imm_z : Operand → OpSize → ℕ → Decode Inst
mov_imm_z rm imm_size rip = do
  v ← read_imm imm_size
  pure (make Op.mov (two_operands rm (Operand.imm v imm_size)) rip)

unfoldable pub mov_rm : Prefixes → ℕ → Decode Inst
unfolding mov_imm_z
mov_rm p rip = do
  size ← size32 p
  (rm, sub) ← decode_modrm p size
  (if sub == 0 then mov_imm_z rm (imm_z size) rip else pure (unhandled rip))

-- MOV r8, imm8 and MOV r, imm, the register in the opcode.
unfoldable pub mov_reg8 : Prefixes → ℕ → ℕ → Decode Inst
mov_reg8 p low rip = do
  r ← opcode_reg_operand p low OpSize.b1
  v ← read_i8
  pure (make Op.mov (two_operands r (Operand.imm v OpSize.b1)) rip)

abbrev pub mov_size : Prefixes → OpSize
mov_size p = if p.rex.w then OpSize.b8 else if p.osize then OpSize.b2 else OpSize.b4

unfoldable pub mov_reg : Prefixes → ℕ → ℕ → Decode Inst
mov_reg p low rip = do
  r ← opcode_reg_operand p low (mov_size p)
  v ← read_imm (mov_size p)
  pure (make Op.mov (two_operands r (Operand.imm v (mov_size p))) rip)

-- XCHG eAX, r
unfoldable pub xchg_acc : Prefixes → ℕ → ℕ → Decode Inst
xchg_acc p low rip = do
  size ← size32 p
  other ← opcode_reg_operand p low size
  pure (make Op.xchg (two_operands (Operand.reg GpReg.rax size) other) rip)

-- IMUL r, r/m, imm32 (imm16 with the 0x66 prefix) and IMUL r, r/m, imm8.
is_b2 : OpSize → Bool
is_b2 OpSize.b2 = true
is_b2 _ = false

unfoldable pub imul_imm : Prefixes → Bool → ℕ → Decode Inst
unfolding is_b2
imul_imm p byte rip = do
  size ← size32 p
  (rm, reg) ← decode_modrm p size
  r ← reg_operand p reg size
  v ← (if byte then read_i8 else if is_b2 size then read_i16 else read_i32)
  pure (make Op.imul (three_operands r rm (Operand.imm v size)) rip)

-- MOVS and STOS carry their lane width and the REP flag as immediates.
abbrev pub as_i64 : Bool → ℤ
as_i64 b = if b then pos 1 else pos 0

unfoldable pub string_op : Op → ℤ → Prefixes → ℕ → Inst
string_op op lane p rip =
    make op (two_operands (Operand.imm lane OpSize.b1) (Operand.imm (as_i64 p.repe) OpSize.b1)) rip

abbrev pub lane_of : Prefixes → ℤ
lane_of p = if p.rex.w then pos 8 else pos 4
