-- ===== src/Jit/Decoder/Sound/ModRm.antt =====
-- The decoding of ModRM and SIB keeps the promise; the operands that come out are in range.
use quantum.Prelude.{
  ℕ, zero, suc, ◌<◌, ◌^◌, ◌≡◌, refl, ◌⊎◌, inl, inr, Bool, true, false, arith, Option, some, none, ℤ,
  pos, negsuc, FitsSigned, if◌then◌else◌,
}
use quantum.Jit.Iform.{GpReg, from_index, OpSize, Mem, Operand, Inst}
use quantum.Jit.Decoder.Prefixes.{Prefixes}
use quantum.Jit.Decoder.ModRm.{
  reg_index, top2, mid3, low3, gp_reg, optional_reg, decode_sib, plain_base, displacement,
  no_base_memory, based_memory, register_rm, decode_rm_memory, decode_modrm, decode_modrm_xmm,
  reg_operand, opcode_reg_operand, read_imm,
}
use quantum.Jit.Decoder.Sound.{Sound}
use quantum.Jit.Decoder.Sound.Rules.{
  Sound-bind, Sound-pure, Sound-if, Sound-le, Sound-weaken, Sound-unwrap,
}
use quantum.Jit.Decoder.Sound.Reads.{
  read_u8-Sound, read_i8-Sound, read_i16-Sound, read_i32-Sound, read_u64-Sound, is_long-Sound,
  signed64_fits,
}
use quantum.Jit.Decoder.Sound.Registers.{reg_index-lt_wide, reg_index-lt, from_index-IsPresent}

abbrev pub IsScale : ℕ → Type 0
IsScale s = (s ≡ 1) ⊎ (s ≡ 2) ⊎ (s ≡ 4) ⊎ (s ≡ 8)

abbrev pub IsMem : Mem → Type 0
IsMem m = IsScale m.scale × FitsSigned 32 m.disp

-- An operand that the lifter can use: sixteen XMM registers, a scale of 1, 2, 4 or 8, a
-- displacement of 32 bits, an immediate of 64 bits.
abbrev pub IsOperand : Operand → Type 0
IsOperand (Operand.reg r _) = Unit {0}
IsOperand (Operand.xmm_reg r _) = r < 16
IsOperand (Operand.imm v _) = FitsSigned 64 v
IsOperand (Operand.mem m) = IsMem m
IsOperand (Operand.rip_rel d _) = FitsSigned 32 d

abbrev pub IsOptional : Option Operand → Type 0
IsOptional none = Unit {0}
IsOptional (some a) = IsOperand a

-- What `decode_primary` and `decode_secondary` hand to `next`, which sets the length.
pub record IsInst (rip : ℕ) (i : Inst) : Type 0 where
  pub at_rip : i.guest_rip ≡ rip
  pub no_len : i.len ≡ 0
  pub first : IsOptional i.operands.first
  pub second : IsOptional i.operands.second
  pub third : IsOptional i.operands.third

abbrev pub Always : {A : Type 0} → A → Type 0
Always _ = Unit {0}

pub gp_reg-Sound : (high : Bool) (low : ℕ) → low < 16 → Sound 0 Always (gp_reg high low)
unfolding gp_reg
gp_reg-Sound high low h =
    Sound-unwrap Always (from_index (reg_index high low))
      (from_index-IsPresent _ (reg_index-lt_wide high low h)) (λ _ _. tt)

optional_reg-Sound :
    (absent high : Bool) (low : ℕ) → low < 8 → Sound 0 Always (optional_reg absent high low)
unfolding optional_reg
optional_reg-Sound absent high low h =
    Sound-if absent (Sound-pure tt)
      (Sound-bind (gp_reg-Sound high low (omega arith)) λ r _. Sound-pure tt)

two_pow_IsScale : (n : ℕ) → n < 4 → IsScale (2 ^ n)
two_pow_IsScale zero h = inl refl
two_pow_IsScale (suc zero) h = inr (inl refl)
two_pow_IsScale (suc (suc zero)) h = inr (inr (inl refl))
two_pow_IsScale (suc (suc (suc zero))) h = inr (inr (inr refl))
two_pow_IsScale (suc (suc (suc (suc n)))) h = absurd (omega arith)

decode_sib-Sound : (p : Prefixes) (mod_ : ℕ) → Sound 1 (λ t. IsScale t.2) (decode_sib p mod_)
unfolding decode_sib
decode_sib-Sound p mod_ = Sound-bind read_u8-Sound λ sib h.
    Sound-bind (optional_reg-Sound _ p.rex.x (mid3 sib) (omega arith)) λ index _.
      Sound-bind (optional_reg-Sound _ p.rex.b (low3 sib) (omega arith))
        λ base _. Sound-pure (two_pow_IsScale (top2 sib) (omega arith))

fits_mono : (v : ℤ) → FitsSigned 8 v → FitsSigned 32 v
fits_mono (pos n) h = omega arith
fits_mono (negsuc n) h = omega arith

pub fits8_64 : (v : ℤ) → FitsSigned 8 v → FitsSigned 64 v
fits8_64 (pos n) h = omega arith
fits8_64 (negsuc n) h = omega arith

pub fits16_64 : (v : ℤ) → FitsSigned 16 v → FitsSigned 64 v
fits16_64 (pos n) h = omega arith
fits16_64 (negsuc n) h = omega arith

pub fits32_64 : (v : ℤ) → FitsSigned 32 v → FitsSigned 64 v
fits32_64 (pos n) h = omega arith
fits32_64 (negsuc n) h = omega arith

displacement-Sound :
    (mod_ rm : ℕ) (base : Option GpReg) → Sound 4 (FitsSigned 32) (displacement mod_ rm base)
unfolding displacement
displacement-Sound mod_ rm base = Sound-if _ read_i32-Sound (
    Sound-if _ (Sound-weaken read_i8-Sound fits_mono)
      (Sound-if _ read_i32-Sound (Sound-pure (omega arith))))

no_base_memory-Sound : (p : Prefixes) (size : OpSize) → Sound 4 IsOperand (no_base_memory p size)
unfolding no_base_memory
no_base_memory-Sound p size =
    Sound-bind read_i32-Sound
      λ disp h. Sound-bind is_long-Sound λ long _. Sound-pure (either long disp h)
  where
    either :
        (long : Bool) (disp : ℤ)
        → FitsSigned 32 disp
        → IsOperand (
            if long
            then Operand.rip_rel disp size
            else Operand.mem (record {
              base = none;
              index = none;
              scale = 1;
              disp = disp;
              size = size;
              seg = p.seg;
            }))
    either true disp h = h
    either false disp h = (inl refl, h)

based_memory-Sound :
    (p : Prefixes) (mod_ rm : ℕ) (size : OpSize)
    → rm < 8
    → Sound 5 IsOperand (based_memory p mod_ rm size)
unfolding based_memory plain_base
based_memory-Sound p mod_ rm size h =
    Sound-bind {P = λ t. IsScale t.2}
      (Sound-if _ (decode_sib-Sound p mod_)
        (Sound-bind (gp_reg-Sound p.rex.b rm (omega arith)) λ r _. Sound-pure (inl refl)))
      (λ t ht. Sound-bind (displacement-Sound mod_ rm t.0) λ disp hd. Sound-pure (ht, hd))

pub decode_rm_memory-Sound :
    (p : Prefixes) (mod_ rm : ℕ) (size : OpSize)
    → rm < 8
    → Sound 5 IsOperand (decode_rm_memory p mod_ rm size)
unfolding decode_rm_memory
decode_rm_memory-Sound p mod_ rm size h =
    Sound-if _ (no_base_memory-Sound p size) (based_memory-Sound p mod_ rm size h)

abbrev pub IsModRm : Operand × ℕ → Type 0
IsModRm t = IsOperand t.0 × (t.1 < 8)

abbrev pub IsModRmXmm : Operand × ℕ → Type 0
IsModRmXmm t = IsOperand t.0 × (t.1 < 16)

register_rm-Sound :
    (p : Prefixes) (rm : ℕ) (size : OpSize) → rm < 8 → Sound 0 IsOperand (register_rm p rm size)
unfolding register_rm
register_rm-Sound p rm size h =
    Sound-bind (gp_reg-Sound p.rex.b rm (omega arith)) λ r _. Sound-pure tt

pub decode_modrm-Sound : (p : Prefixes) (size : OpSize) → Sound 6 IsModRm (decode_modrm p size)
unfolding decode_modrm
decode_modrm-Sound p size = Sound-bind read_u8-Sound λ modrm h.
    Sound-bind {P = IsOperand}
      (Sound-if _ (register_rm-Sound p (low3 modrm) size (omega arith))
        (decode_rm_memory-Sound p (top2 modrm) (low3 modrm) size (omega arith)))
      λ rm ok_rm. Sound-pure (ok_rm, omega arith)

pub decode_modrm_xmm-Sound :
    (p : Prefixes) (size : OpSize) → Sound 6 IsModRmXmm (decode_modrm_xmm p size)
unfolding decode_modrm_xmm
decode_modrm_xmm-Sound p size = Sound-bind read_u8-Sound λ modrm h.
    Sound-bind {P = IsOperand}
      (Sound-if _ (Sound-pure (reg_index-lt p.rex.b (low3 modrm) (omega arith)))
        (decode_rm_memory-Sound p (top2 modrm) (low3 modrm) size (omega arith)))
      λ rm ok_rm. Sound-pure (ok_rm, reg_index-lt p.rex.r (mid3 modrm) (omega arith))

pub reg_operand-Sound :
    (p : Prefixes) (reg_field : ℕ) (size : OpSize)
    → reg_field < 16
    → Sound 0 IsOperand (reg_operand p reg_field size)
unfolding reg_operand
reg_operand-Sound p reg_field size h =
    Sound-bind (gp_reg-Sound p.rex.r reg_field h) λ r _. Sound-pure tt

pub opcode_reg_operand-Sound :
    (p : Prefixes) (low : ℕ) (size : OpSize)
    → low < 8
    → Sound 0 IsOperand (opcode_reg_operand p low size)
unfolding opcode_reg_operand
opcode_reg_operand-Sound p low size h =
    Sound-bind (gp_reg-Sound p.rex.b low (omega arith)) λ r _. Sound-pure tt

pub read_imm-Sound : (size : OpSize) → Sound 8 (FitsSigned 64) (read_imm size)
unfolding read_imm
read_imm-Sound OpSize.b1 = Sound-le (Sound-weaken read_i8-Sound fits8_64) (omega arith)
read_imm-Sound OpSize.b2 = Sound-le (Sound-weaken read_i16-Sound fits16_64) (omega arith)
read_imm-Sound OpSize.b4 = Sound-le (Sound-weaken read_i32-Sound fits32_64) (omega arith)
read_imm-Sound OpSize.b8 = Sound-bind read_u64-Sound λ x h. Sound-pure (signed64_fits x h)

-- Every immediate but that of `MOV r64, imm64` has at most four bytes.
pub read_imm-Sound_narrow :
    (size : OpSize) → (size ≡ OpSize.b8 → ⊥) → Sound 4 (FitsSigned 64) (read_imm size)
unfolding read_imm
read_imm-Sound_narrow OpSize.b1 n = Sound-le (Sound-weaken read_i8-Sound fits8_64) (omega arith)
read_imm-Sound_narrow OpSize.b2 n = Sound-le (Sound-weaken read_i16-Sound fits16_64) (omega arith)
read_imm-Sound_narrow OpSize.b4 n = Sound-weaken read_i32-Sound fits32_64
read_imm-Sound_narrow OpSize.b8 n = absurd (n refl)
