-- ===== src/Jit/Emitter/Machine.antt =====
-- What the move-wide instructions do to the registers of the machine that runs the code of
-- crates/quantum-jit/src/emitter.rs.
use quantum.Prelude.{
  ℕ, ◌+◌, ◌*◌, ◌/◌, ◌%◌, ◌^◌, ◌≡◌, refl, List, [], ◌∷◌, ◌++◌, Option, none, some, ◌==◌,
  if◌then◌else◌, Bool, true, false,
}
use quantum.Jit.Emitter.State.{Reg}
use quantum.Jit.Emitter.Decode.{Insn, decode}
use mathlib.Core.Path.{fun_ext}

abbrev pub Registers : Type 0
Registers = Reg → ℕ

abbrev pub write : Registers → Reg → ℕ → Registers
write regs rd v = λ r. if r == rd then v else regs r

-- A 64-bit MOVK replaces one lane.
abbrev pub with_lane : ℕ → ℕ → ℕ → ℕ
with_lane v hw imm16 =
    v / 2 ^ (hw * 16) / 2 ^ 16 * 2 ^ 16 * 2 ^ (hw * 16) + imm16 * 2 ^ (hw * 16) + v % 2 ^ (hw * 16)

abbrev pub move : ℕ → ℕ → ℕ → Reg → Registers → Option Registers
move opc hw imm16 rd regs =
    if opc == 2
    then some (write regs rd (imm16 * 2 ^ (hw * 16)))
    else if opc == 3
    then some (write regs rd (with_lane (regs rd) hw imm16))
    else none

-- MOVZ and MOVK on a register that is no zero register; no other instruction is run here.
abbrev pub exec : Option Insn → Registers → Option Registers
exec (some (Insn.mov_wide sf opc hw imm16 rd)) regs =
    if sf == 1 then (if rd == 31 then none else move opc hw imm16 rd regs) else none
exec _ regs = none

abbrev pub and_then : (Registers → Option Registers) → Option Registers → Option Registers
and_then f none = none
and_then f (some regs) = f regs

unfoldable pub run : List ℕ → Registers → Option Registers
run [] regs = some regs
run (w ∷ ws) regs = and_then (run ws) (exec (decode w) regs)

pub run-append :
    (us ws : List ℕ) (regs : Registers) → run (us ++ ws) regs ≡ and_then (run ws) (run us regs)
unfolding run
run-append [] ws regs = refl
run-append (u ∷ us) ws regs = through (run-append us ws) (exec (decode u) regs)
  where
    through :
        ((r : Registers) → run (us ++ ws) r ≡ and_then (run ws) (run us r))
        → (o : Option Registers)
        → and_then (run (us ++ ws)) o ≡ and_then (run ws) (and_then (run us) o)
    through h none = refl
    through h (some r) = h r

pub write-write :
    (regs : Registers) (rd : Reg) (v w : ℕ) → write (write regs rd v) rd w ≡ write regs rd w
write-write regs rd v w = fun_ext (λ r. cover (r == rd) (regs r))
  where
    cover : (b : Bool) (x : ℕ) → (if b then w else (if b then v else x)) ≡ (if b then w else x)
    cover true x = refl
    cover false x = refl
