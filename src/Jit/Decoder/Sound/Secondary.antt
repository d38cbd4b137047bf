-- ===== src/Jit/Decoder/Sound/Secondary.antt =====
-- `decode_secondary` keeps the promise: the opcode and at most ten bytes behind it.
use quantum.Prelude.{ℕ, ◌-◌, arith, within}
use quantum.Jit.Iform.{OpSize, Op}
use quantum.Jit.Decoder.Prefixes.{Prefixes}
use quantum.Jit.Decoder.Secondary.{
  secondary_c8, secondary_a3, secondary_2a, secondary_58, secondary_60, mov_scalar, secondary_05,
  decode_secondary,
}
use quantum.Jit.Decoder.TwoByte.{scalar_size, packed_size, int_size}
use quantum.Jit.Decoder.Sound.{Sound}
use quantum.Jit.Decoder.Sound.Rules.{Sound-bind, Sound-pure, Sound-le}
use quantum.Jit.Decoder.Sound.Reads.{read_u8-Sound}
use quantum.Jit.Decoder.Sound.ModRm.{IsInst}
use quantum.Jit.Decoder.Sound.Groups.{IsInst-unhandled}
use quantum.Jit.Decoder.Sound.Forms.{
  size32-Sound, rm_reg-Sound, reg_rm-Sound, xmm_rm-Sound, rm_xmm-Sound, opcode_reg-Sound,
  nullary-Sound,
}
use quantum.Jit.Decoder.Sound.OneByte.{near_lt, arm, arm_test}
use quantum.Jit.Decoder.Sound.TwoByte.{
  gpr_to_xmm-Sound, xmm_to_gpr-Sound, shift_group-Sound, pmovmskb-Sound, pshufd-Sound,
  scalar_to_int-Sound, long_nop-Sound, cmov_cc-Sound, jcc_rel32-Sound, set_cc-Sound,
  decode_group8-Sound, fp_arith-Sound,
}

module _ (p : Prefixes) (rip : ℕ) where
  -- The parts of the table, last part first.

  secondary_c8-Sound : (opcode : ℕ) → Sound 10 (IsInst rip) (secondary_c8 opcode p rip)
  unfolding secondary_c8
  secondary_c8-Sound opcode =
      arm_test p rip (within 0xC8 0xCF opcode)
        (λ t.
          (opcode_reg-Sound Op.bswap p (int_size p) rip (opcode - 0xC8)
            (near_lt 0xC8 0xCF 0xC8 opcode t (omega arith))))
        (omega arith)
        (arm p rip _ (xmm_rm-Sound Op.padd_q p OpSize.b8 rip OpSize.b8) (omega arith) (
          arm p rip _ (xmm_rm-Sound Op.psub_q p OpSize.b8 rip OpSize.b8) (omega arith) (
            arm p rip _ (xmm_rm-Sound Op.padd_d p OpSize.b8 rip OpSize.b8) (omega arith) (
              arm p rip _ (xmm_rm-Sound Op.psub_d p OpSize.b8 rip OpSize.b8) (omega arith) (
                arm p rip _ (xmm_rm-Sound Op.padd_w p OpSize.b8 rip OpSize.b8) (omega arith) (
                  arm p rip _ (xmm_rm-Sound Op.psub_w p OpSize.b8 rip OpSize.b8) (omega arith) (
                    arm p rip _ (xmm_rm-Sound Op.padd_b p OpSize.b8 rip OpSize.b8) (omega arith) (
                      arm p rip _ (xmm_rm-Sound Op.psub_b p OpSize.b8 rip OpSize.b8) (omega arith) (
                        Sound-le {k = 10} (Sound-pure (IsInst-unhandled p rip))
                          (omega arith))))))))))

  secondary_a3-Sound : (opcode : ℕ) → Sound 10 (IsInst rip) (secondary_a3 opcode p rip)
  unfolding secondary_a3
  secondary_a3-Sound opcode =
      arm p rip _ (Sound-bind (size32-Sound p) λ size _. (rm_reg-Sound Op.bt p size rip))
        (omega arith)
        (arm p rip _ (Sound-bind (size32-Sound p) λ size _. (reg_rm-Sound Op.imul p size rip size))
          (omega arith)
          (arm p rip _ (rm_reg-Sound Op.cmpxchg p OpSize.b1 rip) (omega arith) (
            arm p rip _ (Sound-bind (size32-Sound p) λ size _. (rm_reg-Sound Op.cmpxchg p size rip))
              (omega arith)
              (arm p rip _
                (Sound-bind (size32-Sound p) λ size _. (reg_rm-Sound Op.movzx p size rip OpSize.b1))
                (omega arith)
                (arm p rip _
                  (Sound-bind (size32-Sound p)
                    λ size _. (reg_rm-Sound Op.movzx p size rip OpSize.b2))
                  (omega arith)
                  (arm p rip _ (decode_group8-Sound p rip) (omega arith) (
                    arm p rip _
                      (Sound-bind (size32-Sound p) λ size _. (reg_rm-Sound Op.bsf p size rip size))
                      (omega arith)
                      (arm p rip _
                        (Sound-bind (size32-Sound p)
                          λ size _. (reg_rm-Sound Op.bsr p size rip size))
                        (omega arith)
                        (arm p rip _
                          (Sound-bind (size32-Sound p)
                            λ size _. (reg_rm-Sound Op.movsx p size rip OpSize.b1))
                          (omega arith)
                          (arm p rip _
                            (Sound-bind (size32-Sound p)
                              λ size _. (reg_rm-Sound Op.movsx p size rip OpSize.b2))
                            (omega arith)
                            (arm p rip _ (rm_reg-Sound Op.xadd p OpSize.b1 rip) (omega arith) (
                              arm p rip _
                                (Sound-bind (size32-Sound p)
                                  λ size _. (rm_reg-Sound Op.xadd p size rip))
                                (omega arith) ((secondary_c8-Sound opcode))))))))))))))

  secondary_2a-Sound : (opcode : ℕ) → Sound 10 (IsInst rip) (secondary_2a opcode p rip)
  unfolding secondary_2a
  secondary_2a-Sound opcode =
      arm p rip _ ((gpr_to_xmm-Sound p rip) Op.cvt_int_to_scalar (scalar_size p)) (omega arith) (
        arm p rip _ ((scalar_to_int-Sound p rip) Op.cvt_scalar_to_int_trunc) (omega arith) (
          arm p rip _ ((scalar_to_int-Sound p rip) Op.cvt_scalar_to_int) (omega arith) (
            arm p rip _ (xmm_rm-Sound Op.cvt_sd_to_ss p OpSize.b4 rip OpSize.b8) (omega arith) (
              arm p rip _ (xmm_rm-Sound Op.cvt_ss_to_sd p OpSize.b8 rip OpSize.b4) (omega arith) (
                arm p rip _ (xmm_rm-Sound Op.ucomis_scalar p (packed_size p) rip (packed_size p))
                  (omega arith)
                  (arm p rip _ (xmm_rm-Sound Op.sqrt_scalar p (scalar_size p) rip (scalar_size p))
                    (omega arith)
                    (arm p rip _ (xmm_rm-Sound Op.min_scalar p (scalar_size p) rip (scalar_size p))
                      (omega arith)
                      (arm p rip _
                        (xmm_rm-Sound Op.max_scalar p (scalar_size p) rip (scalar_size p))
                        (omega arith)
                        (arm p rip _ (long_nop-Sound p rip) (omega arith) (
                          arm p rip _ ((cmov_cc-Sound p rip) opcode) (omega arith) (
                            arm p rip _ ((jcc_rel32-Sound p rip) opcode) (omega arith) (
                              arm p rip _ ((set_cc-Sound p rip) opcode) (omega arith)
                                ((secondary_a3-Sound opcode))))))))))))))

  secondary_58-Sound : (opcode : ℕ) → Sound 10 (IsInst rip) (secondary_58 opcode p rip)
  unfolding secondary_58
  secondary_58-Sound opcode =
      arm p rip _ ((fp_arith-Sound p rip) Op.add_scalar Op.add_packed) (omega arith) (
        arm p rip _ ((fp_arith-Sound p rip) Op.mul_scalar Op.mul_packed) (omega arith) (
          arm p rip _ ((fp_arith-Sound p rip) Op.sub_scalar Op.sub_packed) (omega arith) (
            arm p rip _ ((fp_arith-Sound p rip) Op.div_scalar Op.div_packed) (omega arith)
              ((secondary_2a-Sound opcode)))))

  secondary_60-Sound : (opcode : ℕ) → Sound 10 (IsInst rip) (secondary_60 opcode p rip)
  unfolding secondary_60
  secondary_60-Sound opcode =
      arm p rip _ (xmm_rm-Sound (Op.punpck_low OpSize.b1) p OpSize.b8 rip OpSize.b8) (omega arith) (
        arm p rip _ (xmm_rm-Sound (Op.punpck_low OpSize.b2) p OpSize.b8 rip OpSize.b8) (omega arith)
          (arm p rip _ (xmm_rm-Sound (Op.punpck_low OpSize.b4) p OpSize.b8 rip OpSize.b8)
            (omega arith)
            (arm p rip _ (xmm_rm-Sound (Op.punpck_high OpSize.b1) p OpSize.b8 rip OpSize.b8)
              (omega arith)
              (arm p rip _ (xmm_rm-Sound (Op.punpck_high OpSize.b2) p OpSize.b8 rip OpSize.b8)
                (omega arith)
                (arm p rip _ (xmm_rm-Sound (Op.punpck_high OpSize.b4) p OpSize.b8 rip OpSize.b8)
                  (omega arith)
                  (arm p rip _ (xmm_rm-Sound (Op.punpck_low OpSize.b8) p OpSize.b8 rip OpSize.b8)
                    (omega arith)
                    (arm p rip _ (xmm_rm-Sound (Op.punpck_high OpSize.b8) p OpSize.b8 rip OpSize.b8)
                      (omega arith)
                      (arm p rip _ (pmovmskb-Sound p rip) (omega arith) (
                        arm p rip _ (xmm_rm-Sound Op.pmull_w p OpSize.b8 rip OpSize.b8)
                          (omega arith)
                          (arm p rip _ (pshufd-Sound p rip) (omega arith) (
                            arm p rip _
                              (xmm_rm-Sound (Op.pcmpeq_lane OpSize.b1) p OpSize.b8 rip OpSize.b8)
                              (omega arith)
                              (arm p rip _
                                (xmm_rm-Sound (Op.pcmpeq_lane OpSize.b2) p OpSize.b8 rip OpSize.b8)
                                (omega arith)
                                (arm p rip _
                                  (xmm_rm-Sound (Op.pcmpeq_lane OpSize.b4) p OpSize.b8 rip
                                    OpSize.b8)
                                  (omega arith)
                                  (arm p rip _ (xmm_rm-Sound Op.pxor_xmm p OpSize.b8 rip OpSize.b8)
                                    (omega arith)
                                    (arm p rip _
                                      (xmm_rm-Sound Op.pand_xmm p OpSize.b8 rip OpSize.b8)
                                      (omega arith)
                                      (arm p rip _
                                        (xmm_rm-Sound Op.por_xmm p OpSize.b8 rip OpSize.b8)
                                        (omega arith) ((secondary_58-Sound opcode))))))))))))))))))

  secondary_05-Sound : (opcode : ℕ) → Sound 10 (IsInst rip) (secondary_05 opcode p rip)
  unfolding secondary_05
  secondary_05-Sound opcode = arm p rip _ (nullary-Sound Op.syscall rip) (omega arith) (
      arm p rip _ (nullary-Sound Op.ud2 rip) (omega arith) (
        arm p rip _ (nullary-Sound Op.rdtsc rip) (omega arith) (
          arm p rip _ (nullary-Sound Op.cpuid rip) (omega arith) (
            arm p rip _ (xmm_rm-Sound (mov_scalar p) p (scalar_size p) rip (scalar_size p))
              (omega arith)
              (arm p rip _ (rm_xmm-Sound (mov_scalar p) p (scalar_size p) rip) (omega arith) (
                arm p rip _ ((gpr_to_xmm-Sound p rip) Op.movq_xmm (int_size p)) (omega arith) (
                  arm p rip _ (xmm_to_gpr-Sound p rip) (omega arith) (
                    arm p rip _ (xmm_rm-Sound Op.movq_xmm p OpSize.b8 rip OpSize.b8) (omega arith) (
                      arm p rip _ (xmm_rm-Sound Op.movdq_xmm p OpSize.b8 rip OpSize.b8)
                        (omega arith)
                        (arm p rip _ (rm_xmm-Sound Op.movdq_xmm p OpSize.b8 rip) (omega arith) (
                          arm p rip _ ((shift_group-Sound p rip) OpSize.b2) (omega arith) (
                            arm p rip _ ((shift_group-Sound p rip) OpSize.b4) (omega arith) (
                              arm p rip _ ((shift_group-Sound p rip) OpSize.b8) (omega arith)
                                ((secondary_60-Sound opcode)))))))))))))))

  pub decode_secondary-Sound : Sound 11 (IsInst rip) (decode_secondary p rip)
  unfolding decode_secondary
  decode_secondary-Sound = Sound-bind read_u8-Sound λ opcode _. secondary_05-Sound opcode
