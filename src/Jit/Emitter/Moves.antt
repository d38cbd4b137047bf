-- ===== src/Jit/Emitter/Moves.antt =====
-- crates/quantum-jit/src/emitter.rs: what MOVZ and MOVK do.
use quantum.Prelude.{
  ℕ, zero, suc, ◌+◌, ◌*◌, ◌%◌, ◌^◌, ◌<◌, ◌≡◌, refl, ◌∙◌, ap, List, [], ◌∷◌, ◌++◌, none, some, ◌==◌,
  if◌then◌else◌, true, false, arith,
}
use quantum.Prelude.Checked.{returns}
use quantum.Jit.Emitter.State.{Reg, Emitter, push}
use quantum.Jit.Emitter.Integer.{movw_word, movw, movz64, movk64}
use quantum.Jit.Emitter.Decode.{Insn, decode, encode}
use quantum.Jit.Emitter.RoundTrip.{decode-encode}
use quantum.Jit.Emitter.Machine.{
  Registers, write, with_lane, exec, move, and_then, run, run-append, write-write,
}
use quantum.Jit.Emitter.Constants.{lane_part}

abbrev pub with_words : Emitter → List ℕ → Emitter
with_words e ws = record e { code = e.code ++ ws }

abbrev pub mov_wide : ℕ → ℕ → ℕ → Reg → ℕ
mov_wide opc hw imm16 rd = movw_word 1 opc hw imm16 rd

decode_mov :
    (opc hw imm16 rd : ℕ)
    → opc < 4
    → hw < 4
    → imm16 < 65536
    → rd < 31
    → decode (mov_wide opc hw imm16 rd) ≡ some (Insn.mov_wide 1 opc hw imm16 rd)
unfolding encode
decode_mov opc hw imm16 rd a b c d =
    decode-encode (Insn.mov_wide 1 opc hw imm16 rd) (omega arith, a, b, c, omega (arith, d))

exec_mov :
    (opc hw imm16 rd : ℕ) (regs : Registers)
    → opc < 4
    → hw < 4
    → imm16 < 65536
    → rd < 31
    → exec (decode (mov_wide opc hw imm16 rd)) regs ≡ move opc hw imm16 rd regs
exec_mov opc hw imm16 rd regs a b c d =
    ap (λ o. exec o regs) (decode_mov opc hw imm16 rd a b c d)
    ∙ ap (λ t. if t then none else move opc hw imm16 rd regs) {x = rd == 31} {y = false}
        (ground (arith, d))

pub movz64_lem :
    (rd imm16 hw : ℕ) (e : Emitter)
    → hw < 4
    → movz64 rd imm16 (hw * 16) e ≡ returns (tt, with_words e (mov_wide 2 hw imm16 rd ∷ []))
unfolding movz64 movw push
movz64_lem rd imm16 zero e h = refl
movz64_lem rd imm16 (suc zero) e h = refl
movz64_lem rd imm16 (suc (suc zero)) e h = refl
movz64_lem rd imm16 (suc (suc (suc zero))) e h = refl
movz64_lem rd imm16 (suc (suc (suc (suc n)))) e h = absurd (omega (arith, h))

pub movk64_lem :
    (rd imm16 hw : ℕ) (e : Emitter)
    → hw < 4
    → movk64 rd imm16 (hw * 16) e ≡ returns (tt, with_words e (mov_wide 3 hw imm16 rd ∷ []))
unfolding movk64 movw push
movk64_lem rd imm16 zero e h = refl
movk64_lem rd imm16 (suc zero) e h = refl
movk64_lem rd imm16 (suc (suc zero)) e h = refl
movk64_lem rd imm16 (suc (suc (suc zero))) e h = refl
movk64_lem rd imm16 (suc (suc (suc (suc n)))) e h = absurd (omega (arith, h))

-- The lanes below `n + 1`, by the lane `n` and those below it.
pub lower :
    (value n : ℕ)
    → n < 4
    → value % 2 ^ (suc n * 16) ≡ lane_part value n * 2 ^ (n * 16) + value % 2 ^ (n * 16)
lower value zero h = omega arith
lower value (suc zero) h = omega arith
lower value (suc (suc zero)) h = omega arith
lower value (suc (suc (suc zero))) h = omega arith
lower value (suc (suc (suc (suc n)))) h = absurd (omega (arith, h))

with_lane_lem :
    (value n imm16 : ℕ)
    → n < 4
    → with_lane (value % 2 ^ (n * 16)) n imm16 ≡ imm16 * 2 ^ (n * 16) + value % 2 ^ (n * 16)
with_lane_lem value zero imm16 h = omega arith
with_lane_lem value (suc zero) imm16 h = omega arith
with_lane_lem value (suc (suc zero)) imm16 h = omega arith
with_lane_lem value (suc (suc (suc zero))) imm16 h = omega arith
with_lane_lem value (suc (suc (suc (suc n)))) imm16 h = absurd (omega (arith, h))

abbrev pub Sets : List ℕ → Reg → ℕ → Type 0
Sets ws rd v = (regs : Registers) → run ws regs ≡ some (write regs rd v)

pub Sets-movz :
    (rd imm16 hw : ℕ)
    → hw < 4
    → imm16 < 65536
    → rd < 31
    → Sets (mov_wide 2 hw imm16 rd ∷ []) rd (imm16 * 2 ^ (hw * 16))
unfolding run
Sets-movz rd imm16 hw a b c regs =
    ap (and_then (run [])) (exec_mov 2 hw imm16 rd regs (omega arith) a b c)

pub Sets-movk :
    (ws : List ℕ) (rd value imm16 n : ℕ)
    → n < 4
    → imm16 < 65536
    → rd < 31
    → Sets ws rd (value % 2 ^ (n * 16))
    → Sets (ws ++ mov_wide 3 n imm16 rd ∷ []) rd (imm16 * 2 ^ (n * 16) + value % 2 ^ (n * 16))
unfolding run
Sets-movk ws rd value imm16 n a b c s regs =
    run-append ws (mov_wide 3 n imm16 rd ∷ []) regs
    ∙ ap (and_then (run (mov_wide 3 n imm16 rd ∷ []))) (s regs)
    ∙ ap (and_then (run [])) (exec_mov 3 n imm16 rd (write regs rd low) (omega arith) a b c)
    ∙ ap some (write-write regs rd low (with_lane (write regs rd low rd) n imm16))
    ∙ ap (λ v. some (write regs rd v))
        (ap (λ t. with_lane (if t then low else regs rd) n imm16) {x = rd == rd} {y = true}
            (ground arith)
          ∙ with_lane_lem value n imm16 a)
  where
    low : ℕ
    low = value % 2 ^ (n * 16)
