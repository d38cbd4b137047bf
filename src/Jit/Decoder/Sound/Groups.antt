-- ===== src/Jit/Decoder/Sound/Groups.antt =====
-- The operand forms and the opcode groups keep the promise, and build usable instructions.
use quantum.Prelude.{ℕ, zero, suc, ◌<◌, ◌≡◌, Bool, true, false, arith, Option, if◌then◌else◌}
use quantum.Jit.Iform.{OpSize, Operand, Op, Inst}
use quantum.Jit.Decoder.State.{unwrap, pure}
use quantum.Jit.Decoder.Prefixes.{Prefixes}
use quantum.Jit.Decoder.ModRm.{make, one_operand, unhandled, rewidth}
use quantum.Jit.Decoder.Groups.{
  arith_op, decode_group1, ShiftAmount, one, cl, imm8_amount, shift_op, shift_amount, decode_group2,
  test_imm_size, test_imm, group3_op, decode_group3, decode_group4, group5_inst, decode_group5,
  cond_from_low4,
}
use quantum.Jit.Decoder.Sound.{Sound}
use quantum.Jit.Decoder.Sound.Rules.{Sound-bind, Sound-pure, Sound-le, Sound-unwrap, IsPresent}
use quantum.Jit.Decoder.Sound.Reads.{read_u8-Sound}
use quantum.Jit.Decoder.Sound.ModRm.{
  IsOperand, IsInst, Always, decode_modrm-Sound, read_imm-Sound_narrow,
}
use quantum.Jit.Decoder.Sound.Forms.{
  IsInst-nullary, IsInst-one, IsInst-two, size32-Sound, size64-Sound, test_imm_size_narrow,
}

pub arith_op-IsPresent : (n : ℕ) → n < 8 → IsPresent (arith_op n)
unfolding arith_op
arith_op-IsPresent zero h = tt
arith_op-IsPresent (suc zero) h = tt
arith_op-IsPresent (suc (suc zero)) h = tt
arith_op-IsPresent (suc (suc (suc zero))) h = tt
arith_op-IsPresent (suc (suc (suc (suc zero)))) h = tt
arith_op-IsPresent (suc (suc (suc (suc (suc zero))))) h = tt
arith_op-IsPresent (suc (suc (suc (suc (suc (suc zero)))))) h = tt
arith_op-IsPresent (suc (suc (suc (suc (suc (suc (suc zero))))))) h = tt
arith_op-IsPresent (suc (suc (suc (suc (suc (suc (suc (suc n)))))))) h = absurd (omega arith)

shift_op-IsPresent : (n : ℕ) → n < 8 → IsPresent (shift_op n)
unfolding shift_op
shift_op-IsPresent zero h = tt
shift_op-IsPresent (suc zero) h = tt
shift_op-IsPresent (suc (suc zero)) h = tt
shift_op-IsPresent (suc (suc (suc zero))) h = tt
shift_op-IsPresent (suc (suc (suc (suc zero)))) h = tt
shift_op-IsPresent (suc (suc (suc (suc (suc zero))))) h = tt
shift_op-IsPresent (suc (suc (suc (suc (suc (suc zero)))))) h = tt
shift_op-IsPresent (suc (suc (suc (suc (suc (suc (suc zero))))))) h = tt
shift_op-IsPresent (suc (suc (suc (suc (suc (suc (suc (suc n)))))))) h = absurd (omega arith)

pub cond-IsPresent : (n : ℕ) → n < 16 → IsPresent (cond_from_low4 n)
unfolding cond_from_low4
cond-IsPresent zero h = tt
cond-IsPresent (suc zero) h = tt
cond-IsPresent (suc (suc zero)) h = tt
cond-IsPresent (suc (suc (suc zero))) h = tt
cond-IsPresent (suc (suc (suc (suc zero)))) h = tt
cond-IsPresent (suc (suc (suc (suc (suc zero))))) h = tt
cond-IsPresent (suc (suc (suc (suc (suc (suc zero)))))) h = tt
cond-IsPresent (suc (suc (suc (suc (suc (suc (suc zero))))))) h = tt
cond-IsPresent (suc (suc (suc (suc (suc (suc (suc (suc zero)))))))) h = tt
cond-IsPresent (suc (suc (suc (suc (suc (suc (suc (suc (suc zero))))))))) h = tt
cond-IsPresent (suc (suc (suc (suc (suc (suc (suc (suc (suc (suc zero)))))))))) h = tt
cond-IsPresent (suc (suc (suc (suc (suc (suc (suc (suc (suc (suc (suc zero))))))))))) h = tt
cond-IsPresent (suc (suc (suc (suc (suc (suc (suc (suc (suc (suc (suc (suc zero)))))))))))) h = tt
cond-IsPresent (suc (suc (suc (suc (suc (suc (suc (suc (suc (suc (suc (suc (suc zero)))))))))))))
      h =
    tt
cond-IsPresent
      (suc (suc (suc (suc (suc (suc (suc (suc (suc (suc (suc (suc (suc (suc zero)))))))))))))) h =
    tt
cond-IsPresent
      (suc (suc (suc (suc (suc (suc (suc (suc (suc (suc (suc (suc (suc (suc (suc zero)))))))))))))))
      h =
    tt
cond-IsPresent
      (suc
        (suc (suc (suc (suc (suc (suc (suc (suc (suc (suc (suc (suc (suc (suc (suc n))))))))))))))))
      h =
    absurd (omega arith)

pub unwrap-Always : {A : Type 0} (o : Option A) → IsPresent o → Sound 0 Always (unwrap o)
unwrap-Always o h = Sound-unwrap Always o h (λ _ _. tt)

module _ (p : Prefixes) (rip : ℕ) where
  pub decode_group1-Sound :
      (size imm_size : OpSize)
      → (imm_size ≡ OpSize.b8 → ⊥)
      → Sound 10 (IsInst rip) (decode_group1 p size imm_size rip)
  unfolding decode_group1
  decode_group1-Sound size imm_size narrow = Sound-bind (decode_modrm-Sound p size) λ t ht.
      Sound-bind (unwrap-Always (arith_op t.1) (arith_op-IsPresent t.1 ht.1)) λ op _.
        Sound-bind (read_imm-Sound_narrow imm_size narrow)
          λ v hv. Sound-pure (IsInst-two rip op t.0 (Operand.imm v imm_size) ht.0 hv)

  shift_amount-Sound : (amount : ShiftAmount) → Sound 1 IsOperand (shift_amount amount)
  unfolding shift_amount
  shift_amount-Sound one = Sound-le (Sound-pure (omega arith)) (omega arith)
  shift_amount-Sound cl = Sound-le (Sound-pure tt) (omega arith)
  shift_amount-Sound imm8_amount = Sound-bind read_u8-Sound λ v h. Sound-pure (omega arith)

  pub decode_group2-Sound :
      (size : OpSize) (amount : ShiftAmount)
      → Sound 7 (IsInst rip) (decode_group2 p size amount rip)
  unfolding decode_group2
  decode_group2-Sound size amount = Sound-bind (decode_modrm-Sound p size) λ t ht.
      Sound-bind (unwrap-Always (shift_op t.1) (shift_op-IsPresent t.1 ht.1)) λ op _.
        Sound-bind (shift_amount-Sound amount)
          λ amt ha. Sound-pure (IsInst-two rip op t.0 amt ht.0 ha)

  test_imm-Sound :
      (rm : Operand) (size : OpSize) → IsOperand rm → Sound 4 (IsInst rip) (test_imm rm size rip)
  unfolding test_imm
  test_imm-Sound rm size h =
      Sound-bind (read_imm-Sound_narrow (test_imm_size size) (test_imm_size_narrow size))
        λ v hv. Sound-pure (IsInst-two rip Op.test rm (Operand.imm v (test_imm_size size)) h hv)

  group3_unary :
      (op : Op) (rm : Operand)
      → IsOperand rm
      → Sound 4 (IsInst rip) (pure (make op (one_operand rm) rip))
  group3_unary op rm h = Sound-le (Sound-pure (IsInst-one rip op rm h)) (omega arith)

  group3_op-Sound :
      (sub : ℕ) (rm : Operand) (size : OpSize)
      → sub < 8
      → IsOperand rm
      → Sound 4 (IsInst rip) (group3_op sub rm size rip)
  unfolding group3_op
  group3_op-Sound zero rm size h g = test_imm-Sound rm size g
  group3_op-Sound (suc zero) rm size h g = test_imm-Sound rm size g
  group3_op-Sound (suc (suc zero)) rm size h g = group3_unary Op.not rm g
  group3_op-Sound (suc (suc (suc zero))) rm size h g = group3_unary Op.neg rm g
  group3_op-Sound (suc (suc (suc (suc zero)))) rm size h g = group3_unary Op.mul rm g
  group3_op-Sound (suc (suc (suc (suc (suc zero))))) rm size h g = group3_unary Op.imul rm g
  group3_op-Sound (suc (suc (suc (suc (suc (suc zero)))))) rm size h g = group3_unary Op.div rm g
  group3_op-Sound (suc (suc (suc (suc (suc (suc (suc zero))))))) rm size h g =
      group3_unary Op.idiv rm g
  group3_op-Sound (suc (suc (suc (suc (suc (suc (suc (suc n)))))))) rm size h g =
      absurd (omega arith)

  pub decode_group3-Sound : (size : OpSize) → Sound 10 (IsInst rip) (decode_group3 p size rip)
  unfolding decode_group3
  decode_group3-Sound size =
      Sound-bind (decode_modrm-Sound p size) λ t ht. group3_op-Sound t.1 t.0 size ht.1 ht.0

  pub IsInst-if :
      (b : Bool) {i j : Inst} → IsInst rip i → IsInst rip j → IsInst rip (if b then i else j)
  IsInst-if true h g = h
  IsInst-if false h g = g

  pub IsInst-unhandled : IsInst rip (unhandled rip)
  IsInst-unhandled = IsInst-nullary rip Op.unhandled

  pub decode_group4-Sound : Sound 6 (IsInst rip) (decode_group4 p rip)
  unfolding decode_group4
  decode_group4-Sound = Sound-bind (decode_modrm-Sound p OpSize.b1) λ t ht. Sound-pure (
      IsInst-if _ (IsInst-one rip Op.inc t.0 ht.0)
        (IsInst-if _ (IsInst-one rip Op.dec t.0 ht.0) IsInst-unhandled))

  rewidth-IsOperand : (a : Operand) (size : OpSize) → IsOperand a → IsOperand (rewidth a size)
  unfolding rewidth
  rewidth-IsOperand (Operand.reg r _) size h = h
  rewidth-IsOperand (Operand.xmm_reg r _) size h = h
  rewidth-IsOperand (Operand.imm v _) size h = h
  rewidth-IsOperand (Operand.mem m) size h = h
  rewidth-IsOperand (Operand.rip_rel d _) size h = h

  group5_inst-IsInst :
      (sub : ℕ) (rm : Operand) (size : OpSize)
      → IsOperand rm
      → IsInst rip (group5_inst sub rm size rip)
  unfolding group5_inst
  group5_inst-IsInst sub rm size h =
      let wide = rewidth-IsOperand rm size h in
      IsInst-if _ (IsInst-one rip Op.inc rm h) (
        IsInst-if _ (IsInst-one rip Op.dec rm h) (
          IsInst-if _ (IsInst-one rip Op.call_indirect _ wide) (
            IsInst-if _ (IsInst-one rip Op.jmp_indirect _ wide)
              (IsInst-if _ (IsInst-one rip Op.push _ wide) IsInst-unhandled))))

  pub decode_group5-Sound : Sound 6 (IsInst rip) (decode_group5 p rip)
  unfolding decode_group5
  decode_group5-Sound = Sound-bind (size32-Sound p) λ size _.
      Sound-bind (size64-Sound p) λ call_size _.
        Sound-bind (decode_modrm-Sound p size)
          λ t ht. Sound-pure (group5_inst-IsInst t.1 t.0 call_size ht.0)
