-- ===== src/Jit/Decoder/Sound/OneByte.antt =====
-- The one-byte opcodes that are written out as functions keep the promise.
use quantum.Prelude.{
  ℕ, ◌+◌, ◌-◌, ◌%◌, ◌≤◌, ◌<◌, ◌≡◌, refl, Bool, true, false, arith, pos, FitsSigned, within, ℤ, ◌&&◌,
  if◌then◌else◌,
}
use quantum.Jit.Iform.{OpSize, Operand, Op, Inst}
use quantum.Jit.Decoder.State.{Decode}
use quantum.Jit.Decoder.Prefixes.{Prefixes}
use quantum.Jit.Decoder.Groups.{imm_z}
use quantum.Jit.Decoder.Primary.{ret_imm, int_imm, jcc_rel8}
use quantum.Jit.Decoder.OneByte.{
  pop_rm, mov_rm8, mov_rm, mov_reg8, mov_size, mov_reg, xchg_acc, imul_imm, as_i64, string_op,
}
use quantum.Jit.Decoder.Sound.{Sound}
use quantum.Jit.Decoder.Sound.Rules.{
  Sound-bind, Sound-pure, Sound-if, Sound-if_test, Sound-le, Sound-weaken,
}
use quantum.Jit.Decoder.Sound.Reads.{
  read_u8-Sound, read_i8-Sound, read_i16-Sound, read_i32-Sound, read_u16-Sound,
}
use quantum.Jit.Decoder.Sound.ModRm.{
  IsInst, fits8_64, fits16_64, fits32_64, decode_modrm-Sound, reg_operand-Sound,
  opcode_reg_operand-Sound, read_imm-Sound, read_imm-Sound_narrow,
}
use quantum.Jit.Decoder.Sound.Groups.{cond-IsPresent, unwrap-Always, IsInst-if, IsInst-unhandled}
use quantum.Jit.Decoder.Sound.Forms.{
  IsInst-one, IsInst-two, IsInst-three, size32-Sound, size64-Sound, imm_z_narrow, imm8-Sound,
}

-- What a range test says of the upper end.
pub within-le : (lo hi x : ℕ) → within lo hi x ≡ true → x ≤ hi
within-le lo hi x h = ground arith

-- The register number in an opcode of a range of eight.
pub near_lt : (lo hi base x : ℕ) → within lo hi x ≡ true → hi ≤ base + 7 → x - base < 8
near_lt lo hi base x h le = omega (arith, within-le lo hi x h)

pub and-left : (b c : Bool) → (b && c) ≡ true → b ≡ true
and-left true c h = refl
and-left false c h = h

module _ (p : Prefixes) (rip : ℕ) where
  -- An arm of a table that takes at most ten bytes, in front of the rest of the table.
  pub arm :
      {j : ℕ} {m n : Decode Inst} (b : Bool)
      → Sound j (IsInst rip) m
      → j ≤ 10
      → Sound 10 (IsInst rip) n
      → Sound 10 (IsInst rip) (if b then m else n)
  arm b s le t = Sound-if b (Sound-le s le) t

  -- The same for an arm that relies on its test.
  pub arm_test :
      {j : ℕ} {m n : Decode Inst} (b : Bool)
      → (b ≡ true → Sound j (IsInst rip) m)
      → j ≤ 10
      → Sound 10 (IsInst rip) n
      → Sound 10 (IsInst rip) (if b then m else n)
  arm_test b s le t = Sound-if_test b (λ e. Sound-le (s e) le) t

  pub pop_rm-Sound : Sound 6 (IsInst rip) (pop_rm p rip)
  unfolding pop_rm
  pop_rm-Sound = Sound-bind (size64-Sound p) λ size _.
      Sound-bind (decode_modrm-Sound p size) λ t ht.
        Sound-pure (IsInst-if p rip _ (IsInst-one rip Op.pop t.0 ht.0) (IsInst-unhandled p rip))

  pub mov_rm8-Sound : Sound 7 (IsInst rip) (mov_rm8 p rip)
  unfolding mov_rm8
  mov_rm8-Sound = Sound-bind (decode_modrm-Sound p OpSize.b1) λ t ht.
      Sound-if _
        (Sound-bind read_i8-Sound λ v hv.
          Sound-pure (IsInst-two rip Op.mov t.0 (Operand.imm v OpSize.b1) ht.0 (fits8_64 v hv)))
        (Sound-pure (IsInst-unhandled p rip))

  pub mov_rm-Sound : Sound 10 (IsInst rip) (mov_rm p rip)
  unfolding mov_rm
  mov_rm-Sound = Sound-bind (size32-Sound p) λ size _.
      Sound-bind (decode_modrm-Sound p size) λ t ht.
        Sound-if _
          (Sound-bind (read_imm-Sound_narrow (imm_z size) (imm_z_narrow size))
            λ v hv. Sound-pure (IsInst-two rip Op.mov t.0 (Operand.imm v (imm_z size)) ht.0 hv))
          (Sound-pure (IsInst-unhandled p rip))

  pub mov_reg8-Sound : (low : ℕ) → low < 8 → Sound 1 (IsInst rip) (mov_reg8 p low rip)
  unfolding mov_reg8
  mov_reg8-Sound low h = Sound-bind (opcode_reg_operand-Sound p low OpSize.b1 h) λ r hr.
      Sound-bind read_i8-Sound
        λ v hv. Sound-pure (IsInst-two rip Op.mov r (Operand.imm v OpSize.b1) hr (fits8_64 v hv))

  pub mov_reg-Sound : (low : ℕ) → low < 8 → Sound 8 (IsInst rip) (mov_reg p low rip)
  unfolding mov_reg
  mov_reg-Sound low h = Sound-bind (opcode_reg_operand-Sound p low (mov_size p) h) λ r hr.
      Sound-bind (read_imm-Sound (mov_size p))
        λ v hv. Sound-pure (IsInst-two rip Op.mov r (Operand.imm v (mov_size p)) hr hv)

  pub xchg_acc-Sound : (low : ℕ) → low < 8 → Sound 0 (IsInst rip) (xchg_acc p low rip)
  unfolding xchg_acc
  xchg_acc-Sound low h = Sound-bind (size32-Sound p) λ size _.
      Sound-bind (opcode_reg_operand-Sound p low size h)
        λ r hr. Sound-pure (IsInst-two rip Op.xchg _ r tt hr)

  pub imul_imm-Sound : (byte : Bool) → Sound 10 (IsInst rip) (imul_imm p byte rip)
  unfolding imul_imm
  imul_imm-Sound byte = Sound-bind (size32-Sound p) λ size _.
      Sound-bind (decode_modrm-Sound p size) λ t ht.
        Sound-bind (reg_operand-Sound p t.1 size (omega arith)) λ r hr.
          Sound-bind {P = FitsSigned 64}
            (Sound-if byte (Sound-weaken read_i8-Sound fits8_64) (
              Sound-if _ (Sound-weaken read_i16-Sound fits16_64)
                (Sound-weaken read_i32-Sound fits32_64)))
            λ v hv. Sound-pure (IsInst-three rip Op.imul r t.0 (Operand.imm v size) hr ht.0 hv)

  as_i64_fits : (b : Bool) → FitsSigned 64 (as_i64 b)
  as_i64_fits true = omega arith
  as_i64_fits false = omega arith

  pub lane_of_fits : (w : Bool) → FitsSigned 64 (if w then pos 8 else pos 4)
  lane_of_fits true = omega arith
  lane_of_fits false = omega arith

  pub string_op-IsInst :
      (op : Op) (lane : ℤ) → FitsSigned 64 lane → IsInst rip (string_op op lane p rip)
  unfolding string_op
  string_op-IsInst op lane h = IsInst-two rip op _ _ h (as_i64_fits p.repe)

  pub ret_imm-Sound : Sound 2 (IsInst rip) (ret_imm rip)
  unfolding ret_imm
  ret_imm-Sound =
      Sound-bind read_u16-Sound λ v h. Sound-pure (IsInst-one rip Op.ret_imm _ (omega arith))

  pub int_imm-Sound : Sound 1 (IsInst rip) (int_imm rip)
  unfolding int_imm
  int_imm-Sound = Sound-bind read_u8-Sound λ v h. Sound-pure (IsInst-one rip Op.int _ (omega arith))

  -- The parts of the table, last part first.
  pub jcc_rel8-Sound : (opcode : ℕ) → Sound 1 (IsInst rip) (jcc_rel8 opcode rip)
  unfolding jcc_rel8
  jcc_rel8-Sound opcode =
      Sound-bind (unwrap-Always _ (cond-IsPresent (opcode % 16) (omega arith)))
        λ cond _. imm8-Sound (Op.jcc cond) p OpSize.b1 rip
