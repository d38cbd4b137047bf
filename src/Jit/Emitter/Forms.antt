-- ===== src/Jit/Emitter/Forms.antt =====
-- crates/quantum-jit/src/emitter.rs: the forms of an opcode with register numbers in it.
use quantum.Prelude.{ℕ, [], ◌∷◌}
use quantum.Jit.Emitter.State.{Reg, Emit, push}
use quantum.Jit.Emitter.Word.{word}
use Prim.Native.Nat.{bit_or}

-- `base | rm << 16 | rn << 5 | rd`, also the source's `fp2src` and `zip_form`.
unfoldable pub register_word : ℕ → Reg → Reg → Reg → ℕ
register_word base rd rn rm = bit_or base (word ((rm, 16) ∷ (rn, 5) ∷ (rd, 0) ∷ []))

unfoldable pub register_form : ℕ → Reg → Reg → Reg → Emit
register_form base rd rn rm = push (register_word base rd rn rm)

unfoldable pub fp2src : ℕ → Reg → Reg → Reg → Emit
fp2src base vd vn vm = push (register_word base vd vn vm)

unfoldable pub zip_form : ℕ → Reg → Reg → Reg → Emit
zip_form base vd vn vm = push (register_word base vd vn vm)

-- `base | rn << 5 | rd`.
unfoldable pub pair_word : ℕ → Reg → Reg → ℕ
pair_word base rd rn = bit_or base (word ((rn, 5) ∷ (rd, 0) ∷ []))

unfoldable pub fp_cvt : ℕ → Reg → Reg → Emit
fp_cvt base rd rn = push (pair_word base rd rn)

unfoldable pub dp1src : ℕ → Reg → Reg → Emit
dp1src base rd rn = push (pair_word base rd rn)

-- `base | imm << 16 | rn << 5 | rd`, for shifts by an immediate and for lanes.
unfoldable pub immediate_word : ℕ → ℕ → Reg → Reg → ℕ
immediate_word base imm rd rn = bit_or base (word ((imm, 16) ∷ (rn, 5) ∷ (rd, 0) ∷ []))
