-- ===== src/Jit/Decoder/Secondary.antt =====
-- crates/quantum-jit/src/decoder.rs: `decode_secondary`, the table of the opcodes behind 0F. The
-- match is cut into consecutive parts; each falls through to the next.
use quantum.Prelude.{ℕ, ◌-◌, not, ◌&&◌, ◌||◌, ◌==◌, within, if◌then◌else◌}
use quantum.Jit.Iform.{OpSize, Op, Inst}
use quantum.Jit.Decoder.State.{Decode, ◌>>=◌, pure, read_u8}
use quantum.Jit.Decoder.Prefixes.{Prefixes}
use quantum.Jit.Decoder.ModRm.{unhandled}
use quantum.Jit.Decoder.Groups.{size32, rm_reg, reg_rm, xmm_rm, rm_xmm, opcode_reg, nullary}
use quantum.Jit.Decoder.TwoByte.{
  scalar_size, packed_size, int_size, has_rep, gpr_to_xmm, xmm_to_gpr, shift_group, pmovmskb,
  pshufd, scalar_to_int, long_nop, cmov_cc, jcc_rel32, set_cc, decode_group8, packed,
}

-- 0x0F 0xC8 to 0xFF.
unfoldable pub secondary_c8 : ℕ → Prefixes → ℕ → Decode Inst
secondary_c8 opcode p rip =
    if within 0xC8 0xCF opcode
    then opcode_reg Op.bswap p (opcode - 0xC8) (int_size p) rip
    else if opcode == 0xD4 && p.osize
    then packed Op.padd_q p rip
    else if opcode == 0xFB && p.osize
    then packed Op.psub_q p rip
    else if opcode == 0xFE && p.osize
    then packed Op.padd_d p rip
    else if opcode == 0xFA && p.osize
    then packed Op.psub_d p rip
    else if opcode == 0xFD && p.osize
    then packed Op.padd_w p rip
    else if opcode == 0xF9 && p.osize
    then packed Op.psub_w p rip
    else if opcode == 0xFC && p.osize
    then packed Op.padd_b p rip
    else if opcode == 0xF8 && p.osize
    then packed Op.psub_b p rip
    else pure (unhandled rip)

-- 0x0F 0xA3 to 0xC1.
unfoldable pub secondary_a3 : ℕ → Prefixes → ℕ → Decode Inst
secondary_a3 opcode p rip =
    if opcode == 0xA3
    then (do size ← size32 p; rm_reg Op.bt p size rip)
    else if opcode == 0xAF
    then (do size ← size32 p; reg_rm Op.imul p size size rip)
    else if opcode == 0xB0
    then rm_reg Op.cmpxchg p OpSize.b1 rip
    else if opcode == 0xB1
    then (do size ← size32 p; rm_reg Op.cmpxchg p size rip)
    else if opcode == 0xB6
    then (do size ← size32 p; reg_rm Op.movzx p size OpSize.b1 rip)
    else if opcode == 0xB7
    then (do size ← size32 p; reg_rm Op.movzx p size OpSize.b2 rip)
    else if opcode == 0xBA
    then decode_group8 p rip
    else if opcode == 0xBC
    then (do size ← size32 p; reg_rm Op.bsf p size size rip)
    else if opcode == 0xBD
    then (do size ← size32 p; reg_rm Op.bsr p size size rip)
    else if opcode == 0xBE
    then (do size ← size32 p; reg_rm Op.movsx p size OpSize.b1 rip)
    else if opcode == 0xBF
    then (do size ← size32 p; reg_rm Op.movsx p size OpSize.b2 rip)
    else if opcode == 0xC0
    then rm_reg Op.xadd p OpSize.b1 rip
    else if opcode == 0xC1
    then (do size ← size32 p; rm_reg Op.xadd p size rip)
    else secondary_c8 opcode p rip

-- The conversions, comparisons and the conditional families.
unfoldable pub secondary_2a : ℕ → Prefixes → ℕ → Decode Inst
secondary_2a opcode p rip =
    if opcode == 0x2A && has_rep p
    then gpr_to_xmm Op.cvt_int_to_scalar (scalar_size p) p rip
    else if opcode == 0x2C && has_rep p
    then scalar_to_int Op.cvt_scalar_to_int_trunc p rip
    else if opcode == 0x2D && has_rep p
    then scalar_to_int Op.cvt_scalar_to_int p rip
    else if opcode == 0x5A && p.repne
    then xmm_rm Op.cvt_sd_to_ss p OpSize.b4 OpSize.b8 rip
    else if opcode == 0x5A && p.repe
    then xmm_rm Op.cvt_ss_to_sd p OpSize.b8 OpSize.b4 rip
    else if (opcode == 0x2E || opcode == 0x2F) && (not p.repne && not p.repe)
    then xmm_rm Op.ucomis_scalar p (packed_size p) (packed_size p) rip
    else if opcode == 0x51 && has_rep p
    then xmm_rm Op.sqrt_scalar p (scalar_size p) (scalar_size p) rip
    else if opcode == 0x5D && has_rep p
    then xmm_rm Op.min_scalar p (scalar_size p) (scalar_size p) rip
    else if opcode == 0x5F && has_rep p
    then xmm_rm Op.max_scalar p (scalar_size p) (scalar_size p) rip
    else if opcode == 0x1F
    then long_nop p rip
    else if within 0x40 0x4F opcode
    then cmov_cc opcode p rip
    else if within 0x80 0x8F opcode
    then jcc_rel32 opcode rip
    else if within 0x90 0x9F opcode
    then set_cc opcode p rip
    else secondary_a3 opcode p rip

-- 0F 58, 59, 5C, 5E: scalar with F2 or F3, packed without.
abbrev pub scalar_arith : Op → Prefixes → ℕ → Decode Inst
scalar_arith op p rip = xmm_rm op p (scalar_size p) (scalar_size p) rip

abbrev pub packed_arith : Op → Prefixes → ℕ → Decode Inst
packed_arith op p rip = xmm_rm op p (packed_size p) (packed_size p) rip

unfoldable pub fp_arith : Op → Op → Prefixes → ℕ → Decode Inst
fp_arith scalar_op packed_op p rip =
    if has_rep p then scalar_arith scalar_op p rip else packed_arith packed_op p rip

unfoldable pub secondary_58 : ℕ → Prefixes → ℕ → Decode Inst
secondary_58 opcode p rip =
    if opcode == 0x58
    then fp_arith Op.add_scalar Op.add_packed p rip
    else if opcode == 0x59
    then fp_arith Op.mul_scalar Op.mul_packed p rip
    else if opcode == 0x5C
    then fp_arith Op.sub_scalar Op.sub_packed p rip
    else if opcode == 0x5E
    then fp_arith Op.div_scalar Op.div_packed p rip
    else secondary_2a opcode p rip

-- The packed integer operations under the 66 prefix.
unfoldable pub secondary_60 : ℕ → Prefixes → ℕ → Decode Inst
secondary_60 opcode p rip =
    if opcode == 0x60 && p.osize
    then packed (Op.punpck_low OpSize.b1) p rip
    else if opcode == 0x61 && p.osize
    then packed (Op.punpck_low OpSize.b2) p rip
    else if opcode == 0x62 && p.osize
    then packed (Op.punpck_low OpSize.b4) p rip
    else if opcode == 0x68 && p.osize
    then packed (Op.punpck_high OpSize.b1) p rip
    else if opcode == 0x69 && p.osize
    then packed (Op.punpck_high OpSize.b2) p rip
    else if opcode == 0x6A && p.osize
    then packed (Op.punpck_high OpSize.b4) p rip
    else if opcode == 0x6C && p.osize
    then packed (Op.punpck_low OpSize.b8) p rip
    else if opcode == 0x6D && p.osize
    then packed (Op.punpck_high OpSize.b8) p rip
    else if opcode == 0xD7 && p.osize
    then pmovmskb p rip
    else if opcode == 0xD5 && p.osize
    then packed Op.pmull_w p rip
    else if opcode == 0x70 && p.osize
    then pshufd p rip
    else if opcode == 0x74 && p.osize
    then packed (Op.pcmpeq_lane OpSize.b1) p rip
    else if opcode == 0x75 && p.osize
    then packed (Op.pcmpeq_lane OpSize.b2) p rip
    else if opcode == 0x76 && p.osize
    then packed (Op.pcmpeq_lane OpSize.b4) p rip
    else if opcode == 0xEF && p.osize
    then packed Op.pxor_xmm p rip
    else if opcode == 0xDB && p.osize
    then packed Op.pand_xmm p rip
    else if opcode == 0xEB && p.osize
    then packed Op.por_xmm p rip
    else secondary_58 opcode p rip

abbrev pub mov_scalar : Prefixes → Op
mov_scalar p = if p.repne then Op.movsd_xmm else Op.movss_xmm

-- 0F 05 to 7F: system opcodes, XMM moves, the packed shift group.
unfoldable pub secondary_05 : ℕ → Prefixes → ℕ → Decode Inst
secondary_05 opcode p rip =
    if opcode == 0x05
    then nullary Op.syscall rip
    else if opcode == 0x0B
    then nullary Op.ud2 rip
    else if opcode == 0x31
    then nullary Op.rdtsc rip
    else if opcode == 0xA2 && (not p.osize && (not p.repe && not p.repne))
    then nullary Op.cpuid rip
    else if opcode == 0x10 && has_rep p
    then xmm_rm (mov_scalar p) p (scalar_size p) (scalar_size p) rip
    else if opcode == 0x11 && has_rep p
    then rm_xmm (mov_scalar p) p (scalar_size p) rip
    else if opcode == 0x6E && p.osize
    then gpr_to_xmm Op.movq_xmm (int_size p) p rip
    else if opcode == 0x7E && p.osize
    then xmm_to_gpr p rip
    else if opcode == 0x7E && p.repe
    then packed Op.movq_xmm p rip
    else if opcode == 0x6F && (p.osize || p.repe)
    then packed Op.movdq_xmm p rip
    else if opcode == 0x7F && (p.osize || p.repe)
    then rm_xmm Op.movdq_xmm p OpSize.b8 rip
    else if opcode == 0x71 && p.osize
    then shift_group p OpSize.b2 rip
    else if opcode == 0x72 && p.osize
    then shift_group p OpSize.b4 rip
    else if opcode == 0x73 && p.osize
    then shift_group p OpSize.b8 rip
    else secondary_60 opcode p rip

unfoldable pub decode_secondary : Prefixes → ℕ → Decode Inst
decode_secondary p rip = do opcode ← read_u8; secondary_05 opcode p rip
