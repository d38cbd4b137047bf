-- ===== src/Jit/Decoder/Primary.antt =====
-- crates/quantum-jit/src/decoder.rs: `decode_primary`, the table of one-byte opcodes. The match is
-- cut into consecutive parts; each falls through to the next.
use quantum.Prelude.{
  ℕ, ◌-◌, ◌/◌, ◌%◌, Bool, true, false, not, ◌&&◌, ◌==◌, leb, within, if◌then◌else◌, pos,
}
use quantum.Jit.Iform.{OpSize, Operand, Op, Inst}
use quantum.Jit.Decoder.State.{Decode, ◌>>=◌, pure, unwrap, is_long, read_u8, read_u16}
use quantum.Jit.Decoder.Prefixes.{Prefixes}
use quantum.Jit.Decoder.ModRm.{make, one_operand, unhandled, low3}
use quantum.Jit.Decoder.Groups.{
  size32, size64, imm_z, rm_reg, reg_rm, opcode_reg, imm8, imm32, al_imm8, eax_imm_z, nullary,
  arith_op, decode_arith_form, decode_group1, one, cl, imm8_amount, decode_group2, decode_group3,
  decode_group4, decode_group5, cond_from_low4,
}
use quantum.Jit.Decoder.OneByte.{
  pop_rm, mov_rm8, mov_rm, mov_reg8, mov_reg, xchg_acc, imul_imm, string_op, lane_of,
}

-- POP r/m, MOV r/m, imm8 and MOV r/m, immZ: only /0 is defined.
-- 0xE8 to 0xFF.
unfoldable pub primary_e8 : ℕ → Prefixes → ℕ → Decode Inst
primary_e8 opcode p rip =
    if opcode == 0xE8
    then imm32 Op.call OpSize.b4 rip
    else if opcode == 0xE9
    then imm32 Op.jmp OpSize.b4 rip
    else if opcode == 0xEB
    then imm8 Op.jmp OpSize.b1 rip
    else if opcode == 0xF4
    then nullary Op.hlt rip
    else if opcode == 0xF5
    then nullary Op.cmc rip
    else if opcode == 0xF6
    then decode_group3 p OpSize.b1 rip
    else if opcode == 0xF7
    then (do size ← size32 p; decode_group3 p size rip)
    else if opcode == 0xF8
    then nullary Op.clc rip
    else if opcode == 0xF9
    then nullary Op.stc rip
    else if opcode == 0xFC
    then nullary Op.cld rip
    else if opcode == 0xFD
    then nullary Op.std rip
    else if opcode == 0xFE
    then decode_group4 p rip
    else if opcode == 0xFF
    then decode_group5 p rip
    else pure (unhandled rip)

-- RET imm16 and INT imm8, whose immediates are not sign-extended.
unfoldable pub ret_imm : ℕ → Decode Inst
ret_imm rip = do
  v ← read_u16
  pure (make Op.ret_imm (one_operand (Operand.imm (pos v) OpSize.b2)) rip)

unfoldable pub int_imm : ℕ → Decode Inst
int_imm rip = do v ← read_u8; pure (make Op.int (one_operand (Operand.imm (pos v) OpSize.b1)) rip)

-- 0xC0 to 0xD3, and the string operations, which stand among them in the source.
unfoldable pub primary_c0 : ℕ → Prefixes → ℕ → Decode Inst
primary_c0 opcode p rip =
    if opcode == 0xC0
    then decode_group2 p OpSize.b1 imm8_amount rip
    else if opcode == 0xC1
    then (do size ← size32 p; decode_group2 p size imm8_amount rip)
    else if opcode == 0xC2
    then ret_imm rip
    else if opcode == 0xA4
    then pure (string_op Op.movs (pos 1) p rip)
    else if opcode == 0xA5
    then pure (string_op Op.movs (lane_of p) p rip)
    else if opcode == 0xAA
    then pure (string_op Op.stos (pos 1) p rip)
    else if opcode == 0xAB
    then pure (string_op Op.stos (lane_of p) p rip)
    else if opcode == 0xC3
    then nullary Op.ret rip
    else if opcode == 0xC6
    then mov_rm8 p rip
    else if opcode == 0xC7
    then mov_rm p rip
    else if opcode == 0xC9
    then nullary Op.leave rip
    else if opcode == 0xCC
    then nullary Op.int3 rip
    else if opcode == 0xCD
    then int_imm rip
    else if opcode == 0xD0
    then decode_group2 p OpSize.b1 one rip
    else if opcode == 0xD1
    then (do size ← size32 p; decode_group2 p size one rip)
    else if opcode == 0xD2
    then decode_group2 p OpSize.b1 cl rip
    else if opcode == 0xD3
    then (do size ← size32 p; decode_group2 p size cl rip)
    else primary_e8 opcode p rip

-- 0x8F to 0xBF.
unfoldable pub primary_8f : ℕ → Prefixes → ℕ → Decode Inst
primary_8f opcode p rip =
    if opcode == 0x8F
    then pop_rm p rip
    else if opcode == 0x90
    then nullary Op.nop rip
    else if within 0x91 0x97 opcode
    then xchg_acc p (opcode - 0x90) rip
    else if opcode == 0x98
    then nullary Op.cwde rip
    else if opcode == 0x99
    then nullary (if p.rex.w then Op.cqo else Op.cdq) rip
    else if opcode == 0x9C
    then nullary Op.pushfq rip
    else if opcode == 0x9D
    then nullary Op.popfq rip
    else if opcode == 0xA8
    then al_imm8 Op.test rip
    else if opcode == 0xA9
    then eax_imm_z Op.test p rip
    else if within 0xB0 0xB7 opcode
    then mov_reg8 p (opcode - 0xB0) rip
    else if within 0xB8 0xBF opcode
    then mov_reg p (opcode - 0xB8) rip
    else primary_c0 opcode p rip

-- 0x80 to 0x8D.
unfoldable pub primary_80 : ℕ → Prefixes → ℕ → Decode Inst
primary_80 opcode p rip =
    if opcode == 0x80
    then decode_group1 p OpSize.b1 OpSize.b1 rip
    else if opcode == 0x81
    then (do size ← size32 p; decode_group1 p size (imm_z size) rip)
    else if opcode == 0x83
    then (do size ← size32 p; decode_group1 p size OpSize.b1 rip)
    else if opcode == 0x84
    then rm_reg Op.test p OpSize.b1 rip
    else if opcode == 0x85
    then (do size ← size32 p; rm_reg Op.test p size rip)
    else if opcode == 0x86
    then rm_reg Op.xchg p OpSize.b1 rip
    else if opcode == 0x87
    then (do size ← size32 p; rm_reg Op.xchg p size rip)
    else if opcode == 0x88
    then rm_reg Op.mov p OpSize.b1 rip
    else if opcode == 0x89
    then (do size ← size32 p; rm_reg Op.mov p size rip)
    else if opcode == 0x8A
    then reg_rm Op.mov p OpSize.b1 OpSize.b1 rip
    else if opcode == 0x8B
    then (do size ← size32 p; reg_rm Op.mov p size size rip)
    else if opcode == 0x8D
    then (do size ← size32 p; reg_rm Op.lea p size size rip)
    else primary_8f opcode p rip

-- Jcc, SETcc and CMOVcc take their condition from the opcode's low four bits.
unfoldable pub jcc_rel8 : ℕ → ℕ → Decode Inst
jcc_rel8 opcode rip = do
  cond ← unwrap (cond_from_low4 (opcode % 16))
  imm8 (Op.jcc cond) OpSize.b1 rip

-- 0x40 to 0x7F.
unfoldable pub primary_40 : Bool → ℕ → Prefixes → ℕ → Decode Inst
primary_40 long opcode p rip =
    if within 0x40 0x47 opcode && not long
    then (do size ← size32 p; opcode_reg Op.inc p (opcode - 0x40) size rip)
    else if within 0x48 0x4F opcode && not long
    then (do size ← size32 p; opcode_reg Op.dec p (opcode - 0x48) size rip)
    else if within 0x50 0x57 opcode
    then (do size ← size64 p; opcode_reg Op.push p (opcode - 0x50) size rip)
    else if within 0x58 0x5F opcode
    then (do size ← size64 p; opcode_reg Op.pop p (opcode - 0x58) size rip)
    else if opcode == 0x63
    then reg_rm Op.movsxd p (if p.rex.w then OpSize.b8 else OpSize.b4) OpSize.b4 rip
    else if opcode == 0x68
    then (do size ← size64 p; imm32 Op.push size rip)
    else if opcode == 0x6A
    then (do size ← size64 p; imm8 Op.push size rip)
    else if opcode == 0x69
    then imul_imm p false rip
    else if opcode == 0x6B
    then imul_imm p true rip
    else if within 0x70 0x7F opcode
    then jcc_rel8 opcode rip
    else primary_80 opcode p rip

unfoldable pub primary_arith : ℕ → Prefixes → ℕ → Decode Inst
primary_arith opcode p rip = do
  op ← unwrap (arith_op (opcode / 8))
  decode_arith_form opcode p op rip

unfoldable pub decode_primary : ℕ → Prefixes → ℕ → Decode Inst
decode_primary opcode p rip =
    if leb opcode 0x3D && leb (low3 opcode) 5
    then primary_arith opcode p rip
    else (do long ← is_long; primary_40 long opcode p rip)
