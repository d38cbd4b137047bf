-- ===== src/Jit/Emitter/Immediates.antt =====
-- crates/quantum-jit/src/emitter.rs: `encode_addsub_imm`.
use quantum.Prelude.{
  ℕ, ◌*◌, ◌/◌, ◌%◌, ◌<◌, ◌≡◌, Option, none, some, false, ltb, ◌==◌, ◌&&◌, arith, by_test, zero, suc,
}
use quantum.Jit.Emitter.Integer.{encode_addsub_imm}

-- What the processor adds: twelve bits, shifted by twelve where `shift` is 1.
abbrev pub immediate_value : ℕ → ℕ → ℕ
immediate_value zero imm12 = imm12
immediate_value (suc _) imm12 = imm12 * 4096

abbrev pub Encodes : ℕ → Option (ℕ × ℕ) → Type 0
Encodes value (some (shift, imm12)) =
    (shift < 2) × (imm12 < 4096) × (immediate_value shift imm12 ≡ value)
Encodes value none = (shift imm12 : ℕ) → imm12 < 4096 → immediate_value shift imm12 ≡ value → ⊥

no_fit :
    (value : ℕ)
    → ltb value 4096 ≡ false
    → (value % 4096 == 0 && ltb (value / 4096) 4096) ≡ false
    → Encodes value none
no_fit value f g zero imm12 h e = ground (arith, f, h, e)
no_fit value f g (suc _) imm12 h e = ground (arith, g, h, e)

-- `encode_addsub_imm` gives the fields of an immediate that stands for the value, or there are no fields
-- that do.
pub encode_addsub_imm-Encodes : (value : ℕ) → Encodes value (encode_addsub_imm value)
unfolding encode_addsub_imm
encode_addsub_imm-Encodes value =
    by_test (Encodes value) (ltb value 4096) _ _
      (λ t. (omega arith, ground (arith, t), omega arith))
      (λ f.
        by_test (Encodes value) (value % 4096 == 0 && ltb (value / 4096) 4096) _ _
          (λ t. (omega arith, ground (arith, t), ground (arith, t))) (λ g. no_fit value f g))
