-- ===== src/Jit/Decoder/Sound/Primary.antt =====
-- `decode_primary` keeps the promise: at most ten bytes behind the opcode.
use quantum.Prelude.{
  ℕ, ◌-◌, ◌/◌, ◌<◌, ◌≡◌, Bool, true, false, arith, pos, within, leb, ◌&&◌, not, if◌then◌else◌,
}
use quantum.Jit.Iform.{OpSize, Op}
use quantum.Jit.Decoder.Prefixes.{Prefixes}
use quantum.Jit.Decoder.Groups.{imm_z, one, cl, imm8_amount}
use quantum.Jit.Decoder.Primary.{
  primary_e8, primary_c0, primary_8f, primary_80, primary_40, primary_arith, decode_primary,
}
use quantum.Jit.Decoder.OneByte.{lane_of}
use quantum.Jit.Decoder.Sound.{Sound}
use quantum.Jit.Decoder.Sound.Rules.{Sound-bind, Sound-pure, Sound-le}
use quantum.Jit.Decoder.Sound.Reads.{is_long-Sound}
use quantum.Jit.Decoder.Sound.ModRm.{IsInst}
use quantum.Jit.Decoder.Sound.Groups.{
  arith_op-IsPresent, unwrap-Always, decode_group1-Sound, decode_group2-Sound, decode_group3-Sound,
  IsInst-unhandled, decode_group4-Sound, decode_group5-Sound,
}
use quantum.Jit.Decoder.Sound.Forms.{
  size32-Sound, size64-Sound, imm_z_narrow, rm_reg-Sound, reg_rm-Sound, opcode_reg-Sound,
  imm8-Sound, imm32-Sound, nullary-Sound, al_imm8-Sound, eax_imm_z-Sound, decode_arith_form-Sound,
}
use quantum.Jit.Decoder.Sound.OneByte.{
  near_lt, and-left, arm, arm_test, pop_rm-Sound, mov_rm8-Sound, mov_rm-Sound, mov_reg8-Sound,
  mov_reg-Sound, xchg_acc-Sound, imul_imm-Sound, lane_of_fits, string_op-IsInst, ret_imm-Sound,
  int_imm-Sound, jcc_rel8-Sound,
}

module _ (p : Prefixes) (rip : ℕ) where
  primary_e8-Sound : (opcode : ℕ) → Sound 10 (IsInst rip) (primary_e8 opcode p rip)
  unfolding primary_e8
  primary_e8-Sound opcode = (arm p rip) _ (imm32-Sound Op.call p OpSize.b4 rip) (omega arith) (
      (arm p rip) _ (imm32-Sound Op.jmp p OpSize.b4 rip) (omega arith) (
        (arm p rip) _ (imm8-Sound Op.jmp p OpSize.b1 rip) (omega arith) (
          (arm p rip) _ (nullary-Sound Op.hlt rip) (omega arith) (
            (arm p rip) _ (nullary-Sound Op.cmc rip) (omega arith) (
              (arm p rip) _ (decode_group3-Sound p rip OpSize.b1) (omega arith) (
                (arm p rip) _
                  (Sound-bind (size32-Sound p) λ size _. (decode_group3-Sound p rip size))
                  (omega arith)
                  ((arm p rip) _ (nullary-Sound Op.clc rip) (omega arith) (
                    (arm p rip) _ (nullary-Sound Op.stc rip) (omega arith) (
                      (arm p rip) _ (nullary-Sound Op.cld rip) (omega arith) (
                        (arm p rip) _ (nullary-Sound Op.std rip) (omega arith) (
                          (arm p rip) _ (decode_group4-Sound p rip) (omega arith) (
                            (arm p rip) _ (decode_group5-Sound p rip) (omega arith) (
                              Sound-le {k = 10} (Sound-pure (IsInst-unhandled p rip))
                                (omega arith))))))))))))))

  primary_c0-Sound : (opcode : ℕ) → Sound 10 (IsInst rip) (primary_c0 opcode p rip)
  unfolding primary_c0
  primary_c0-Sound opcode =
      (arm p rip) _ (decode_group2-Sound p rip OpSize.b1 imm8_amount) (omega arith) (
        (arm p rip) _
          (Sound-bind (size32-Sound p) λ size _. (decode_group2-Sound p rip size imm8_amount))
          (omega arith)
          ((arm p rip) _ (ret_imm-Sound p rip) (omega arith) (
            (arm p rip) _ (Sound-pure ((string_op-IsInst p rip) Op.movs (pos 1) (omega arith)))
              (omega arith)
              ((arm p rip) _
                (Sound-pure
                  ((string_op-IsInst p rip) Op.movs (lane_of p) ((lane_of_fits p rip) p.rex.w)))
                (omega arith)
                ((arm p rip) _ (Sound-pure ((string_op-IsInst p rip) Op.stos (pos 1) (omega arith)))
                  (omega arith)
                  ((arm p rip) _
                    (Sound-pure
                      ((string_op-IsInst p rip) Op.stos (lane_of p) ((lane_of_fits p rip) p.rex.w)))
                    (omega arith)
                    ((arm p rip) _ (nullary-Sound Op.ret rip) (omega arith) (
                      (arm p rip) _ (mov_rm8-Sound p rip) (omega arith) (
                        (arm p rip) _ (mov_rm-Sound p rip) (omega arith) (
                          (arm p rip) _ (nullary-Sound Op.leave rip) (omega arith) (
                            (arm p rip) _ (nullary-Sound Op.int3 rip) (omega arith) (
                              (arm p rip) _ (int_imm-Sound p rip) (omega arith) (
                                (arm p rip) _ (decode_group2-Sound p rip OpSize.b1 one)
                                  (omega arith)
                                  ((arm p rip) _
                                    (Sound-bind (size32-Sound p)
                                      λ size _. (decode_group2-Sound p rip size one))
                                    (omega arith)
                                    ((arm p rip) _ (decode_group2-Sound p rip OpSize.b1 cl)
                                      (omega arith)
                                      ((arm p rip) _
                                        (Sound-bind (size32-Sound p)
                                          λ size _. (decode_group2-Sound p rip size cl))
                                        (omega arith) ((primary_e8-Sound opcode))))))))))))))))))

  primary_8f-Sound : (opcode : ℕ) → Sound 10 (IsInst rip) (primary_8f opcode p rip)
  unfolding primary_8f
  primary_8f-Sound opcode = (arm p rip) _ (pop_rm-Sound p rip) (omega arith) (
      (arm p rip) _ (nullary-Sound Op.nop rip) (omega arith) (
        (arm_test p rip) (within 0x91 0x97 opcode)
          (λ t.
            ((xchg_acc-Sound p rip) (opcode - 0x90)
              (near_lt 0x91 0x97 0x90 opcode t (omega arith))))
          (omega arith)
          ((arm p rip) _ (nullary-Sound Op.cwde rip) (omega arith) (
            (arm p rip) _ (nullary-Sound (if p.rex.w then Op.cqo else Op.cdq) rip) (omega arith) (
              (arm p rip) _ (nullary-Sound Op.pushfq rip) (omega arith) (
                (arm p rip) _ (nullary-Sound Op.popfq rip) (omega arith) (
                  (arm p rip) _ (al_imm8-Sound Op.test rip) (omega arith) (
                    (arm p rip) _ (eax_imm_z-Sound Op.test rip p) (omega arith) (
                      (arm_test p rip) (within 0xB0 0xB7 opcode)
                        (λ t.
                          ((mov_reg8-Sound p rip) (opcode - 0xB0)
                            (near_lt 0xB0 0xB7 0xB0 opcode t (omega arith))))
                        (omega arith)
                        ((arm_test p rip) (within 0xB8 0xBF opcode)
                          (λ t.
                            ((mov_reg-Sound p rip) (opcode - 0xB8)
                              (near_lt 0xB8 0xBF 0xB8 opcode t (omega arith))))
                          (omega arith) ((primary_c0-Sound opcode))))))))))))

  primary_80-Sound : (opcode : ℕ) → Sound 10 (IsInst rip) (primary_80 opcode p rip)
  unfolding primary_80
  primary_80-Sound opcode =
      (arm p rip) _ (decode_group1-Sound p rip OpSize.b1 OpSize.b1 (λ e. cc)) (omega arith) (
        (arm p rip) _
          (Sound-bind (size32-Sound p)
            λ size _. (decode_group1-Sound p rip size (imm_z size) (imm_z_narrow size)))
          (omega arith)
          ((arm p rip) _
            (Sound-bind (size32-Sound p)
              λ size _. (decode_group1-Sound p rip size OpSize.b1 (λ e. cc)))
            (omega arith)
            ((arm p rip) _ (rm_reg-Sound Op.test p OpSize.b1 rip) (omega arith) (
              (arm p rip) _
                (Sound-bind (size32-Sound p) λ size _. (rm_reg-Sound Op.test p size rip))
                (omega arith)
                ((arm p rip) _ (rm_reg-Sound Op.xchg p OpSize.b1 rip) (omega arith) (
                  (arm p rip) _
                    (Sound-bind (size32-Sound p) λ size _. (rm_reg-Sound Op.xchg p size rip))
                    (omega arith)
                    ((arm p rip) _ (rm_reg-Sound Op.mov p OpSize.b1 rip) (omega arith) (
                      (arm p rip) _
                        (Sound-bind (size32-Sound p) λ size _. (rm_reg-Sound Op.mov p size rip))
                        (omega arith)
                        ((arm p rip) _ (reg_rm-Sound Op.mov p OpSize.b1 rip OpSize.b1) (omega arith)
                          ((arm p rip) _
                            (Sound-bind (size32-Sound p)
                              λ size _. (reg_rm-Sound Op.mov p size rip size))
                            (omega arith)
                            ((arm p rip) _
                              (Sound-bind (size32-Sound p)
                                λ size _. (reg_rm-Sound Op.lea p size rip size))
                              (omega arith) ((primary_8f-Sound opcode)))))))))))))

  primary_40-Sound :
      (long : Bool) (opcode : ℕ) → Sound 10 (IsInst rip) (primary_40 long opcode p rip)
  unfolding primary_40
  primary_40-Sound long opcode =
      (arm_test p rip) (within 0x40 0x47 opcode && not long)
        (λ t.
          (Sound-bind (size32-Sound p) λ size _.
            (opcode_reg-Sound Op.inc p size rip (opcode - 0x40)
              (near_lt 0x40 0x47 0x40 opcode (and-left _ _ t) (omega arith)))))
        (omega arith)
        ((arm_test p rip) (within 0x48 0x4F opcode && not long)
          (λ t.
            (Sound-bind (size32-Sound p) λ size _.
              (opcode_reg-Sound Op.dec p size rip (opcode - 0x48)
                (near_lt 0x48 0x4F 0x48 opcode (and-left _ _ t) (omega arith)))))
          (omega arith)
          ((arm_test p rip) (within 0x50 0x57 opcode)
            (λ t.
              (Sound-bind (size64-Sound p) λ size _.
                (opcode_reg-Sound Op.push p size rip (opcode - 0x50)
                  (near_lt 0x50 0x57 0x50 opcode t (omega arith)))))
            (omega arith)
            ((arm_test p rip) (within 0x58 0x5F opcode)
              (λ t.
                (Sound-bind (size64-Sound p) λ size _.
                  (opcode_reg-Sound Op.pop p size rip (opcode - 0x58)
                    (near_lt 0x58 0x5F 0x58 opcode t (omega arith)))))
              (omega arith)
              ((arm p rip) _
                (reg_rm-Sound Op.movsxd p (if p.rex.w then OpSize.b8 else OpSize.b4) rip OpSize.b4)
                (omega arith)
                ((arm p rip) _
                  (Sound-bind (size64-Sound p) λ size _. (imm32-Sound Op.push p size rip))
                  (omega arith)
                  ((arm p rip) _
                    (Sound-bind (size64-Sound p) λ size _. (imm8-Sound Op.push p size rip))
                    (omega arith)
                    ((arm p rip) _ ((imul_imm-Sound p rip) false) (omega arith) (
                      (arm p rip) _ ((imul_imm-Sound p rip) true) (omega arith) (
                        (arm p rip) _ ((jcc_rel8-Sound p rip) opcode) (omega arith)
                          ((primary_80-Sound opcode)))))))))))

  primary_arith-Sound :
      (opcode : ℕ) → opcode < 64 → Sound 6 (IsInst rip) (primary_arith opcode p rip)
  unfolding primary_arith
  primary_arith-Sound opcode h =
      Sound-bind (unwrap-Always _ (arith_op-IsPresent (opcode / 8) (omega arith)))
        λ op _. decode_arith_form-Sound op rip opcode p

  arith_lt : (opcode : ℕ) (b : Bool) → (leb opcode 0x3D && b) ≡ true → opcode < 64
  arith_lt opcode b h = ground arith

  pub decode_primary-Sound : (opcode : ℕ) → Sound 10 (IsInst rip) (decode_primary opcode p rip)
  unfolding decode_primary
  decode_primary-Sound opcode =
      (arm_test p rip) _ (λ t. primary_arith-Sound opcode (arith_lt opcode _ t)) (omega arith)
        (Sound-bind is_long-Sound λ long _. primary_40-Sound long opcode)
