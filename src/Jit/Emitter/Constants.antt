-- ===== src/Jit/Emitter/Constants.antt =====
-- crates/quantum-jit/src/emitter.rs: `load_const64`.
use quantum.Prelude.{
  ℕ, ◌*◌, ◌/◌, ◌%◌, ◌^◌, List, [], ◌∷◌, Bool, true, false, not, ◌&&◌, ◌==◌, if◌then◌else◌,
}
use quantum.Prelude.Checked.{Method, ◌>>=◌, ◌>>◌, pure}
use quantum.Jit.Emitter.State.{Reg, Emitter, Emit}
use quantum.Jit.Emitter.Integer.{movz64, movk64}

-- `((value >> (lane * 16)) & 0xFFFF) as u16`.
abbrev pub lane_part : ℕ → ℕ → ℕ
lane_part value lane = value / 2 ^ (lane * 16) % 2 ^ 16

-- One round of the loop; the result is the new `emitted`.
abbrev pub load_lane : Reg → ℕ → ℕ → Bool → Method Emitter Bool
load_lane rd part lane emitted =
    if part == 0 && emitted
    then pure emitted
    else if not emitted && part == 0 && not (lane == 3)
    then pure emitted
    else if not emitted
    then movz64 rd part (lane * 16) >> pure true
    else movk64 rd part (lane * 16) >> pure emitted

unfoldable pub load_lanes : Reg → ℕ → List ℕ → Bool → Method Emitter Bool
load_lanes rd value [] emitted = pure emitted
load_lanes rd value (lane ∷ lanes) emitted =
    load_lane rd (lane_part value lane) lane emitted >>= load_lanes rd value lanes

abbrev pub load_rest : Reg → Bool → Emit
load_rest rd emitted = if not emitted then movz64 rd 0 0 else pure tt

unfoldable pub load_const64 : Reg → ℕ → Emit
load_const64 rd value =
    if value / 2 ^ 16 == 0
    then movz64 rd (value % 2 ^ 16) 0
    else load_lanes rd value (0 ∷ 1 ∷ 2 ∷ 3 ∷ []) false >>= load_rest rd
