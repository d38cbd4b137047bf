-- ===== src/Jit/Decoder/Sound/TwoByte.antt =====
-- The two-byte opcodes that are written out as functions keep the promise.
use quantum.Prelude.{ℕ, ◌%◌, arith, pos, IsByte, Option, some, none}
use quantum.Jit.Iform.{OpSize, Operand, Op}
use quantum.Jit.Decoder.Prefixes.{Prefixes}
use quantum.Jit.Decoder.ModRm.{mid3, low3, reg_index}
use quantum.Jit.Decoder.Secondary.{fp_arith}
use quantum.Jit.Decoder.TwoByte.{
  scalar_size, packed_size, int_size, gpr_to_xmm, xmm_to_gpr, shift_group_op, shift_inst,
  shift_group, pmovmskb, pshufd, scalar_to_int, long_nop, cmov_cc, jcc_rel32, set_cc, decode_group8,
}
use quantum.Jit.Decoder.Sound.{Sound}
use quantum.Jit.Decoder.Sound.Rules.{Sound-bind, Sound-pure, Sound-if}
use quantum.Jit.Decoder.Sound.Reads.{read_u8-Sound, read_i8-Sound}
use quantum.Jit.Decoder.Sound.ModRm.{
  IsInst, IsOperand, fits8_64, gp_reg-Sound, decode_modrm-Sound, decode_modrm_xmm-Sound,
  reg_operand-Sound,
}
use quantum.Jit.Decoder.Sound.Registers.{reg_index-lt}
use quantum.Jit.Decoder.Sound.Groups.{cond-IsPresent, unwrap-Always, IsInst-if, IsInst-unhandled}
use quantum.Jit.Decoder.Sound.Forms.{
  IsInst-one, IsInst-two, IsInst-three, size32-Sound, reg_rm-Sound, xmm_rm-Sound, imm32-Sound,
  nullary-Sound,
}

module _ (p : Prefixes) (rip : ℕ) where
  pub gpr_to_xmm-Sound : (op : Op) (size : OpSize) → Sound 6 (IsInst rip) (gpr_to_xmm op size p rip)
  unfolding gpr_to_xmm
  gpr_to_xmm-Sound op size =
      Sound-bind (decode_modrm-Sound p (int_size p))
        λ t ht. Sound-pure (IsInst-two rip op (Operand.xmm_reg t.1 size) t.0 (omega arith) ht.0)

  pub xmm_to_gpr-Sound : Sound 6 (IsInst rip) (xmm_to_gpr p rip)
  unfolding xmm_to_gpr
  xmm_to_gpr-Sound = Sound-bind (decode_modrm-Sound p (int_size p)) λ t ht.
      Sound-pure
        (IsInst-two rip Op.movq_xmm t.0 (Operand.xmm_reg t.1 (int_size p)) ht.0 (omega arith))

  shift_inst-IsInst :
      (op : Option Op) (xmm : Operand) (v : ℕ)
      → IsOperand xmm
      → IsByte v
      → IsInst rip (shift_inst op xmm v rip)
  unfolding shift_inst
  shift_inst-IsInst none xmm v h g = IsInst-unhandled p rip
  shift_inst-IsInst (some op) xmm v h g =
      IsInst-two rip op xmm (Operand.imm (pos v) OpSize.b1) h (omega arith)

  pub shift_group-Sound : (lane : OpSize) → Sound 2 (IsInst rip) (shift_group p lane rip)
  unfolding shift_group
  shift_group-Sound lane = Sound-bind read_u8-Sound λ modrm h.
      Sound-if _
        (Sound-bind read_u8-Sound λ v hv. Sound-pure (
          shift_inst-IsInst (shift_group_op (mid3 modrm) lane)
            (Operand.xmm_reg (reg_index p.rex.b (low3 modrm)) OpSize.b8) v
            (reg_index-lt p.rex.b (low3 modrm) (omega arith)) hv))
        (Sound-pure (IsInst-unhandled p rip))

  pub pmovmskb-Sound : Sound 1 (IsInst rip) (pmovmskb p rip)
  unfolding pmovmskb
  pmovmskb-Sound = Sound-bind read_u8-Sound λ modrm h.
      Sound-if _
        (Sound-bind (gp_reg-Sound p.rex.r (mid3 modrm) (omega arith)) λ r _. Sound-pure (
          IsInst-two rip Op.pmovmsk_b (Operand.reg r OpSize.b4)
            (Operand.xmm_reg (reg_index p.rex.b (low3 modrm)) OpSize.b8) tt
            (reg_index-lt p.rex.b (low3 modrm) (omega arith))))
        (Sound-pure (IsInst-unhandled p rip))

  pub pshufd-Sound : Sound 7 (IsInst rip) (pshufd p rip)
  unfolding pshufd
  pshufd-Sound = Sound-bind (decode_modrm_xmm-Sound p OpSize.b8) λ t ht.
      Sound-bind read_u8-Sound λ v hv. Sound-pure (
        IsInst-three rip Op.pshuf_d (Operand.xmm_reg t.1 OpSize.b8) t.0
          (Operand.imm (pos v) OpSize.b1) ht.1 ht.0 (omega arith))

  pub scalar_to_int-Sound : (op : Op) → Sound 6 (IsInst rip) (scalar_to_int op p rip)
  unfolding scalar_to_int
  scalar_to_int-Sound op = Sound-bind (decode_modrm_xmm-Sound p (scalar_size p)) λ t ht.
      Sound-bind (reg_operand-Sound p t.1 (int_size p) ht.1)
        λ r hr. Sound-pure (IsInst-two rip op r t.0 hr ht.0)

  pub long_nop-Sound : Sound 6 (IsInst rip) (long_nop p rip)
  unfolding long_nop
  long_nop-Sound = Sound-bind (decode_modrm-Sound p OpSize.b4) λ t ht. nullary-Sound Op.nop rip

  pub cmov_cc-Sound : (opcode : ℕ) → Sound 6 (IsInst rip) (cmov_cc opcode p rip)
  unfolding cmov_cc
  cmov_cc-Sound opcode =
      Sound-bind (unwrap-Always _ (cond-IsPresent (opcode % 16) (omega arith)))
        λ cond _. Sound-bind (size32-Sound p) λ size _. reg_rm-Sound (Op.cmov cond) p size rip size

  pub jcc_rel32-Sound : (opcode : ℕ) → Sound 4 (IsInst rip) (jcc_rel32 opcode rip)
  unfolding jcc_rel32
  jcc_rel32-Sound opcode =
      Sound-bind (unwrap-Always _ (cond-IsPresent (opcode % 16) (omega arith)))
        λ cond _. imm32-Sound (Op.jcc cond) p OpSize.b4 rip

  pub set_cc-Sound : (opcode : ℕ) → Sound 6 (IsInst rip) (set_cc opcode p rip)
  unfolding set_cc
  set_cc-Sound opcode =
      Sound-bind (unwrap-Always _ (cond-IsPresent (opcode % 16) (omega arith))) λ cond _.
        Sound-bind (decode_modrm-Sound p OpSize.b1)
          λ t ht. Sound-pure (IsInst-one rip (Op.set cond) t.0 ht.0)

  pub decode_group8-Sound : Sound 7 (IsInst rip) (decode_group8 p rip)
  unfolding decode_group8
  decode_group8-Sound = Sound-bind (size32-Sound p) λ size _.
      Sound-bind (decode_modrm-Sound p size) λ t ht. Sound-bind read_i8-Sound λ v hv.
        let two =
          λ (op : Op). IsInst-two rip op t.0 (Operand.imm v OpSize.b1) ht.0 (fits8_64 v hv) in
        Sound-pure (
          IsInst-if p rip _ (two Op.bt) (
            IsInst-if p rip _ (two Op.bts) (
              IsInst-if p rip _ (two Op.btr)
                (IsInst-if p rip _ (two Op.btc) (IsInst-unhandled p rip)))))

  pub fp_arith-Sound : (scalar packed : Op) → Sound 6 (IsInst rip) (fp_arith scalar packed p rip)
  unfolding fp_arith
  fp_arith-Sound scalar packed =
      Sound-if _ (xmm_rm-Sound scalar p (scalar_size p) rip (scalar_size p))
        (xmm_rm-Sound packed p (packed_size p) rip (packed_size p))
