-- ===== src/Tests/Jit.antt =====
-- crates/quantum-jit/src: the theorems about the decoder and about blocks, on concrete bytes.
use quantum.Prelude.{
  ◌≡◌, refl, List, [], ◌∷◌, ◌++◌, arith, negsuc, some, ◌⊎◌, ◌↔◌, ◌≤◌, ◌+◌, as_u64, wrapping_add64,
  true, false,
}
use quantum.Jit.Iform.{GpReg, OpSize, Operand, Op, Cond, Inst}
use quantum.Jit.Decoder.State.{ok, err, truncated, Decoder, new, rip}
use quantum.Jit.Decoder.ModRm.{one_operand, no_operands}
use quantum.Jit.Decoder.Next.{next}
use quantum.Jit.Decoder.Examples.{run}
use quantum.Jit.Decoder.Sound.{IsValid, extend}
use quantum.Jit.Decoder.Sound.Next.{IsDecoded}
use quantum.Jit.Decoder.Total.{next_total, next-extend}
use quantum.Jit.Decoder.RoundTrip.{
  encode_rr, decoded_rr, next-encode_rr, encode_rel32, decoded_rel32, next-encode_rel32,
}
use quantum.Jit.Decoder.Quirks.{
  movq_bytes, decoded_movq, next-movq_bytes, padded_nop, next-padded_nop,
}
use quantum.Jit.Block.{
  is_terminator, decode_block, chain_targets, cond_x86_to_a64, targets, detect_drm_int3_trap,
}
use quantum.Jit.Block.Flags.{X86Flags, borrow_flags, holds_by, x86_holds, cond_x86_to_a64_holds}
use quantum.Jit.Block.Chain.{Run, decode_block_total, decode_block-iff-Run}
use quantum.Jit.Block.Contiguous.{behind, chain_targets_decoded}

-- lea rax, [rbp - 8]
abbrev lea_code : Decoder
lea_code = new (0x48 ∷ 0x8D ∷ 0x45 ∷ 0xF8 ∷ []) 0x1000

lea_code-IsValid : IsValid lea_code
lea_code-IsValid = record {
  inside = omega arith;
  are_bytes = (omega arith, (omega arith, (omega arith, (omega arith, tt))));
}

next_total_example :
    ((i : Inst) × (d' : Decoder) × (next lea_code ≡ ok (i, d')) × IsDecoded lea_code i d')
    ⊎ (next lea_code ≡ err truncated)
next_total_example = next_total lea_code lea_code-IsValid

-- nop; jmp -3
abbrev loop_code : Decoder
loop_code = new (0x90 ∷ 0xEB ∷ 0xFD ∷ []) 0x1000

loop_code-IsValid : IsValid loop_code
loop_code-IsValid = record {
  inside = omega arith;
  are_bytes = (omega arith, (omega arith, (omega arith, tt)));
}

abbrev nop_inst : Inst
nop_inst = record { op = Op.nop; operands = no_operands; len = 1; guest_rip = 0x1000 }

abbrev jmp_inst : Inst
jmp_inst = record {
  op = Op.jmp;
  operands = one_operand (Operand.imm (negsuc 2) OpSize.b1);
  len = 2;
  guest_rip = 0x1001;
}

abbrev loop_end : Decoder
loop_end = record loop_code { at = 3 }

abbrev behind_nop : Decoder
behind_nop = record loop_code { at = 1 }

behind_nop-IsValid : IsValid behind_nop
behind_nop-IsValid = record {
  inside = omega arith;
  are_bytes = (omega arith, (omega arith, (omega arith, tt)));
}

next_nop : next loop_code ≡ ok (nop_inst, behind_nop)
unfolding run
next_nop = refl

next_jmp : next behind_nop ≡ ok (jmp_inst, loop_end)
unfolding run
next_jmp = refl

next-extend_example :
    next (extend (0xCC ∷ 0x0F ∷ []) loop_code) ≡ ok (nop_inst, extend (0xCC ∷ 0x0F ∷ []) behind_nop)
next-extend_example =
    next-extend loop_code (0xCC ∷ 0x0F ∷ []) nop_inst behind_nop loop_code-IsValid next_nop

decode_block-iff-Run_example :
    (decode_block is_terminator loop_code ≡ ok (nop_inst ∷ jmp_inst ∷ [], loop_end))
    ↔ Run is_terminator loop_code (nop_inst ∷ jmp_inst ∷ []) loop_end
decode_block-iff-Run_example =
    decode_block-iff-Run is_terminator loop_code (nop_inst ∷ jmp_inst ∷ []) loop_end
      loop_code-IsValid

decode_block_total_example :
    ((insts : List Inst) × (d' : Decoder) × (decode_block is_terminator loop_code ≡ ok (insts, d'))
      × Run is_terminator loop_code insts d')
    ⊎ (decode_block is_terminator loop_code ≡ err truncated)
decode_block_total_example = decode_block_total is_terminator loop_code loop_code-IsValid

chain_targets_decoded_example :
    (jmp_inst.op ≡ Op.jmp
      → chain_targets jmp_inst
        ≡ targets (wrapping_add64 (behind behind_nop loop_end) (as_u64 (negsuc 2)) ∷ []))
    × ((cond : Cond)
        → jmp_inst.op ≡ Op.jcc cond
        → chain_targets jmp_inst
          ≡ targets (
              behind behind_nop loop_end
              ∷ wrapping_add64 (behind behind_nop loop_end) (as_u64 (negsuc 2))
              ∷ []))
    × (loop_end.at ≤ behind_nop.at + 255 → behind behind_nop loop_end ≡ rip loop_end)
chain_targets_decoded_example =
    chain_targets_decoded behind_nop jmp_inst loop_end (negsuc 2) behind_nop-IsValid next_jmp refl

jmp_target : chain_targets jmp_inst ≡ targets (0x1000 ∷ [])
unfolding chain_targets
jmp_target = refl

next-encode_rr_example :
    next (new (encode_rr 0x89 GpReg.r9 GpReg.rax ++ 0x90 ∷ []) 0x1000)
    ≡ ok (
        decoded_rr Op.mov GpReg.r9 GpReg.rax
          (encode_rr 0x89 GpReg.r9 GpReg.rax ++ 0x90 ∷ [])
          0x1000)
next-encode_rr_example = next-encode_rr GpReg.r9 GpReg.rax (0x90 ∷ []) 0x1000

next-encode_rel32_example :
    (next (new ((0xE9 ∷ encode_rel32 (negsuc 4)) ++ []) 0x1000)
      ≡ ok (decoded_rel32 Op.jmp (negsuc 4) ((0xE9 ∷ encode_rel32 (negsuc 4)) ++ []) 0x1000))
    × (next (new ((0xE8 ∷ encode_rel32 (negsuc 4)) ++ []) 0x1000)
        ≡ ok (decoded_rel32 Op.call (negsuc 4) ((0xE8 ∷ encode_rel32 (negsuc 4)) ++ []) 0x1000))
next-encode_rel32_example = next-encode_rel32 (negsuc 4) [] 0x1000 (omega arith)

next-movq_bytes_example :
    next (new (movq_bytes 9 GpReg.r10 ++ 0x90 ∷ []) 0x1000)
    ≡ ok (decoded_movq 1 GpReg.r10 (movq_bytes 9 GpReg.r10 ++ 0x90 ∷ []) 0x1000)
next-movq_bytes_example = next-movq_bytes 9 GpReg.r10 (0x90 ∷ []) 0x1000 (omega arith)

next-padded_nop_example :
    next (new (padded_nop 20) 0x1000)
    ≡ ok (
      record { op = Op.nop; operands = no_operands; len = 21; guest_rip = 0x1000 },
      record (new (padded_nop 20) 0x1000) { at = 21 },
    )
next-padded_nop_example = next-padded_nop 19 0x1000

-- int3; jmp -3
abbrev int3_inst : Inst
int3_inst = record { op = Op.int3; operands = no_operands; len = 1; guest_rip = 0x1000 }

trap_example : detect_drm_int3_trap (int3_inst ∷ jmp_inst ∷ []) ≡ some 0x1003
unfolding detect_drm_int3_trap
trap_example = refl

-- The flags behind a comparison of 1 with 2.
abbrev below_flags : X86Flags
below_flags = record { cf = true; zf = false; sf = true; of = false; pf = true }

cond_x86_to_a64_holds_example :
    holds_by (borrow_flags below_flags) (cond_x86_to_a64 Cond.be)
    ≡ some (x86_holds below_flags Cond.be)
cond_x86_to_a64_holds_example = cond_x86_to_a64_holds below_flags Cond.be refl
