-- ===== src/Jit/Decoder/Examples.antt =====
-- crates/quantum-jit/src/decoder.rs: the decoder on concrete bytes, as in the tests of the source.
use quantum.Prelude.{◌≡◌, refl, [], ◌∷◌, some, none, pos, negsuc}
use quantum.Jit.Iform.{GpReg, from_index, OpSize, Operand, Op, Inst}
use quantum.Jit.Decoder.State.{
  Outcome, ok, err, truncated, Decoder, new, new_legacy32, peek_u8, bump, read_u8, check_range,
  is_long, unwrap, read_u16, read_u32, read_u64,
}
use quantum.Jit.Decoder.Prefixes.{
  prefix_byte, prefixes_loop, read_prefixes, op_size_default32, op_size_default64,
}
use quantum.Jit.Decoder.ModRm.{
  reg_index, gp_reg, optional_reg, decode_sib, plain_base, displacement, no_base_memory,
  based_memory, register_rm, decode_rm_memory, decode_modrm, decode_modrm_xmm, reg_operand,
  opcode_reg_operand, read_imm, make, one_operand, two_operands, rewidth,
}
use quantum.Jit.Decoder.Groups.{
  size32, size64, imm_z, rm_reg, reg_rm, opcode_reg, imm32, imm8, arith_op, decode_arith_form,
  decode_group5, group5_inst, cond_from_low4,
}
use quantum.Jit.Decoder.Primary.{
  primary_e8, primary_c0, primary_8f, primary_80, jcc_rel8, primary_40, primary_arith,
  decode_primary,
}
use quantum.Jit.Decoder.OneByte.{mov_reg}
use quantum.Jit.Decoder.Secondary.{
  decode_secondary, secondary_05, secondary_60, secondary_58, secondary_2a, secondary_a3,
}
use quantum.Jit.Decoder.TwoByte.{gpr_to_xmm}
use quantum.Jit.Decoder.Next.{decode_opcode, decode_body, next}

-- The instruction alone.
abbrev pub inst_of : Outcome (Inst × Decoder) → Outcome Inst
inst_of (ok (i, d)) = ok i
inst_of (Outcome.err e) = Outcome.err e
inst_of Outcome.panic = Outcome.panic

-- `next`, to be computed with.
unfoldable pub run : Decoder → Outcome Inst
unfolding next decode_body decode_opcode read_prefixes prefixes_loop prefix_byte peek_u8 bump
    read_u8 check_range read_u16 read_u32 read_u64 is_long unwrap op_size_default32
    op_size_default64 reg_index gp_reg optional_reg decode_sib plain_base displacement
    no_base_memory based_memory register_rm decode_rm_memory decode_modrm decode_modrm_xmm
    reg_operand opcode_reg_operand read_imm make rewidth from_index size32 size64 imm_z rm_reg
    reg_rm opcode_reg imm32 imm8 arith_op decode_arith_form decode_group5 group5_inst cond_from_low4
    mov_reg primary_e8 primary_c0 primary_8f primary_80 jcc_rel8 primary_40 primary_arith
    decode_primary decode_secondary secondary_05 secondary_60 secondary_58 secondary_2a secondary_a3
    gpr_to_xmm
run d = inst_of (next d)

-- B8 2A 00 00 00, mov eax, 42
mov_eax_42 :
    run (new (0xB8 ∷ 0x2A ∷ 0 ∷ 0 ∷ 0 ∷ []) 0x1000)
    ≡ ok (record {
      op = Op.mov;
      operands = two_operands (Operand.reg GpReg.rax OpSize.b4) (Operand.imm (pos 42) OpSize.b4);
      len = 5;
      guest_rip = 0x1000;
    })
unfolding run
mov_eax_42 = refl

-- 0x4D 0x01 0xC8, add r8, r9
add_r8_r9 :
    run (new (0x4D ∷ 0x01 ∷ 0xC8 ∷ []) 0x1000)
    ≡ ok (record {
      op = Op.add;
      operands = two_operands (Operand.reg GpReg.r8 OpSize.b8) (Operand.reg GpReg.r9 OpSize.b8);
      len = 3;
      guest_rip = 0x1000;
    })
unfolding run
add_r8_r9 = refl

-- 48 8D 45 F8, lea rax, [rbp - 8]
lea_rbp :
    run (new (0x48 ∷ 0x8D ∷ 0x45 ∷ 0xF8 ∷ []) 0x1000)
    ≡ ok (record {
      op = Op.lea;
      operands = two_operands (Operand.reg GpReg.rax OpSize.b8) (
          Operand.mem (record {
            base = some GpReg.rbp;
            index = none;
            scale = 1;
            disp = negsuc 7;
            size = OpSize.b8;
            seg = none;
          }));
      len = 4;
      guest_rip = 0x1000;
    })
unfolding run
lea_rbp = refl

-- FF 15 78 56 34 12, call [rip + 0x12345678]
call_rip :
    run (new (0xFF ∷ 0x15 ∷ 0x78 ∷ 0x56 ∷ 0x34 ∷ 0x12 ∷ []) 0x1000)
    ≡ ok (record {
      op = Op.call_indirect;
      operands = one_operand (Operand.rip_rel (pos 0x12345678) OpSize.b8);
      len = 6;
      guest_rip = 0x1000;
    })
unfolding run
call_rip = refl

-- 4F, dec edi in legacy mode; a REX prefix with no opcode behind it in long mode.
dec_edi :
    run (new_legacy32 (0x4F ∷ []) 0x401000)
    ≡ ok (record {
      op = Op.dec;
      operands = one_operand (Operand.reg GpReg.rdi OpSize.b4);
      len = 1;
      guest_rip = 0x401000;
    })
unfolding run
dec_edi = refl

lone_rex : run (new (0x4F ∷ []) 0x401000) ≡ err truncated
unfolding run
lone_rex = refl
