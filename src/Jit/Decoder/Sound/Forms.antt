-- ===== src/Jit/Decoder/Sound/Forms.antt =====
-- The operand forms that opcodes share keep the promise, and build usable instructions.
use quantum.Prelude.{ℕ, ◌<◌, ◌≡◌, refl, arith}
use quantum.Jit.Iform.{OpSize, Operand, Op}
use quantum.Jit.Decoder.Prefixes.{Prefixes}
use quantum.Jit.Decoder.ModRm.{make, one_operand, two_operands, three_operands, no_operands}
use quantum.Jit.Decoder.Groups.{
  size32, size64, imm_z, rm_reg, reg_rm, xmm_rm, rm_xmm, opcode_reg, imm8, imm32, al_imm8,
  eax_imm_z, nullary, decode_arith_form, test_imm_size,
}
use quantum.Jit.Decoder.Sound.{Sound}
use quantum.Jit.Decoder.Sound.Rules.{Sound-bind, Sound-pure, Sound-if}
use quantum.Jit.Decoder.Sound.Reads.{read_i8-Sound, read_i32-Sound, is_long-Sound}
use quantum.Jit.Decoder.Sound.ModRm.{
  IsOperand, IsInst, Always, fits8_64, fits32_64, decode_modrm-Sound, decode_modrm_xmm-Sound,
  reg_operand-Sound, opcode_reg_operand-Sound, read_imm-Sound_narrow,
}

module _ (rip : ℕ) (op : Op) where
  pub IsInst-nullary : IsInst rip (make op no_operands rip)
  unfolding make
  IsInst-nullary = record { at_rip = refl; no_len = refl; first = tt; second = tt; third = tt }

  pub IsInst-one : (a : Operand) → IsOperand a → IsInst rip (make op (one_operand a) rip)
  unfolding make
  IsInst-one a h = record { at_rip = refl; no_len = refl; first = h; second = tt; third = tt }

  pub IsInst-two :
      (a b : Operand) → IsOperand a → IsOperand b → IsInst rip (make op (two_operands a b) rip)
  unfolding make
  IsInst-two a b h g = record { at_rip = refl; no_len = refl; first = h; second = g; third = tt }

  pub IsInst-three :
      (a b c : Operand)
      → IsOperand a
      → IsOperand b
      → IsOperand c
      → IsInst rip (make op (three_operands a b c) rip)
  unfolding make
  IsInst-three a b c h g f = record {
    at_rip = refl;
    no_len = refl;
    first = h;
    second = g;
    third = f;
  }

pub size32-Sound : (p : Prefixes) → Sound 0 Always (size32 p)
unfolding size32
size32-Sound p = Sound-bind is_long-Sound λ long _. Sound-pure tt

pub size64-Sound : (p : Prefixes) → Sound 0 Always (size64 p)
unfolding size64
size64-Sound p = Sound-bind is_long-Sound λ long _. Sound-pure tt

pub imm_z_narrow : (size : OpSize) → imm_z size ≡ OpSize.b8 → ⊥
unfolding imm_z
imm_z_narrow OpSize.b2 e = cc
imm_z_narrow _ e = cc

pub test_imm_size_narrow : (size : OpSize) → test_imm_size size ≡ OpSize.b8 → ⊥
unfolding test_imm_size
test_imm_size_narrow OpSize.b1 e = cc
test_imm_size_narrow OpSize.b2 e = cc
test_imm_size_narrow _ e = cc

module _ (op : Op) (p : Prefixes) (size : OpSize) (rip : ℕ) where
  pub rm_reg-Sound : Sound 6 (IsInst rip) (rm_reg op p size rip)
  unfolding rm_reg
  rm_reg-Sound = Sound-bind (decode_modrm-Sound p size) λ t ht.
      Sound-bind (reg_operand-Sound p t.1 size (omega arith))
        λ r hr. Sound-pure (IsInst-two rip op t.0 r ht.0 hr)

  pub reg_rm-Sound : (rm_size : OpSize) → Sound 6 (IsInst rip) (reg_rm op p size rm_size rip)
  unfolding reg_rm
  reg_rm-Sound rm_size = Sound-bind (decode_modrm-Sound p rm_size) λ t ht.
      Sound-bind (reg_operand-Sound p t.1 size (omega arith))
        λ r hr. Sound-pure (IsInst-two rip op r t.0 hr ht.0)

  pub xmm_rm-Sound : (rm_size : OpSize) → Sound 6 (IsInst rip) (xmm_rm op p size rm_size rip)
  unfolding xmm_rm
  xmm_rm-Sound rm_size =
      Sound-bind (decode_modrm_xmm-Sound p rm_size)
        λ t ht. Sound-pure (IsInst-two rip op (Operand.xmm_reg t.1 size) t.0 ht.1 ht.0)

  pub rm_xmm-Sound : Sound 6 (IsInst rip) (rm_xmm op p size rip)
  unfolding rm_xmm
  rm_xmm-Sound =
      Sound-bind (decode_modrm_xmm-Sound p size)
        λ t ht. Sound-pure (IsInst-two rip op t.0 (Operand.xmm_reg t.1 size) ht.0 ht.1)

  pub opcode_reg-Sound : (low : ℕ) → low < 8 → Sound 0 (IsInst rip) (opcode_reg op p low size rip)
  unfolding opcode_reg
  opcode_reg-Sound low h =
      Sound-bind (opcode_reg_operand-Sound p low size h) λ r hr. Sound-pure (IsInst-one rip op r hr)

  pub imm8-Sound : Sound 1 (IsInst rip) (imm8 op size rip)
  unfolding imm8
  imm8-Sound =
      Sound-bind read_i8-Sound
        λ v h. Sound-pure (IsInst-one rip op (Operand.imm v size) (fits8_64 v h))

  pub imm32-Sound : Sound 4 (IsInst rip) (imm32 op size rip)
  unfolding imm32
  imm32-Sound =
      Sound-bind read_i32-Sound
        λ v h. Sound-pure (IsInst-one rip op (Operand.imm v size) (fits32_64 v h))

module _ (op : Op) (rip : ℕ) where
  pub nullary-Sound : Sound 0 (IsInst rip) (nullary op rip)
  nullary-Sound = Sound-pure (IsInst-nullary rip op)

  pub al_imm8-Sound : Sound 1 (IsInst rip) (al_imm8 op rip)
  unfolding al_imm8
  al_imm8-Sound =
      Sound-bind read_i8-Sound λ v h. Sound-pure (IsInst-two rip op _ _ tt (fits8_64 v h))

  pub eax_imm_z-Sound : (p : Prefixes) → Sound 4 (IsInst rip) (eax_imm_z op p rip)
  unfolding eax_imm_z
  eax_imm_z-Sound p = Sound-bind (size32-Sound p) λ size _.
      Sound-bind (read_imm-Sound_narrow (imm_z size) (imm_z_narrow size))
        λ v h. Sound-pure (IsInst-two rip op _ (Operand.imm v (imm_z size)) tt h)

  pub decode_arith_form-Sound :
      (opcode : ℕ) (p : Prefixes) → Sound 6 (IsInst rip) (decode_arith_form opcode p op rip)
  unfolding decode_arith_form
  decode_arith_form-Sound opcode p = Sound-if _ (rm_reg-Sound op p OpSize.b1 rip) (
      Sound-if _ (Sound-bind (size32-Sound p) λ size _. rm_reg-Sound op p size rip) (
        Sound-if _ (reg_rm-Sound op p OpSize.b1 rip OpSize.b1) (
          Sound-if _ (Sound-bind (size32-Sound p) λ size _. reg_rm-Sound op p size rip size) (
            Sound-if _ al_imm8-Sound
              (Sound-if _ (eax_imm_z-Sound p) (Sound-pure (IsInst-nullary rip Op.unhandled)))))))
