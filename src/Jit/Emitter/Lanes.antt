-- ===== src/Jit/Emitter/Lanes.antt =====
-- crates/quantum-jit/src/emitter.rs: vector shifts by an immediate, lanes and permutations.
use quantum.Prelude.{ℕ, ◌+◌, ◌-◌, ◌*◌, ◌%◌, ◌^◌, [], ◌∷◌, ltb, leb, ◌&&◌}
use quantum.Prelude.Checked.{◌>>◌, assert}
use quantum.Jit.Emitter.State.{Reg, Emit, push}
use quantum.Jit.Emitter.Word.{word}
use Prim.Native.Nat.{bit_or}
use quantum.Jit.Emitter.Forms.{immediate_word}

unfoldable pub shl_v2d : Reg → Reg → ℕ → Emit
shl_v2d vd vn shift = do assert (ltb shift 64); push (immediate_word 0x4F005400 (64 + shift) vd vn)

unfoldable pub shl_v4s : Reg → Reg → ℕ → Emit
shl_v4s vd vn shift = do assert (ltb shift 32); push (immediate_word 0x4F005400 (32 + shift) vd vn)

unfoldable pub shl_v8h : Reg → Reg → ℕ → Emit
shl_v8h vd vn shift = do assert (ltb shift 16); push (immediate_word 0x4F005400 (16 + shift) vd vn)

unfoldable pub ushr_v2d : Reg → Reg → ℕ → Emit
ushr_v2d vd vn shift = do
  assert (leb 1 shift && leb shift 64)
  push (immediate_word 0x6F000400 (128 - shift) vd vn)

unfoldable pub ushr_v4s : Reg → Reg → ℕ → Emit
ushr_v4s vd vn shift = do
  assert (leb 1 shift && leb shift 32)
  push (immediate_word 0x6F000400 (64 - shift) vd vn)

unfoldable pub ushr_v8h : Reg → Reg → ℕ → Emit
ushr_v8h vd vn shift = do
  assert (leb 1 shift && leb shift 16)
  push (immediate_word 0x6F000400 (32 - shift) vd vn)

unfoldable pub sshr_v4s : Reg → Reg → ℕ → Emit
sshr_v4s vd vn shift = do
  assert (leb 1 shift && leb shift 32)
  push (immediate_word 0x4F000400 (64 - shift) vd vn)

unfoldable pub sshr_v8h : Reg → Reg → ℕ → Emit
sshr_v8h vd vn shift = do
  assert (leb 1 shift && leb shift 16)
  push (immediate_word 0x4F000400 (32 - shift) vd vn)

unfoldable pub sshr_v16b : Reg → Reg → ℕ → Emit
sshr_v16b vd vn shift = do
  assert (leb 1 shift && leb shift 8)
  push (immediate_word 0x4F000400 (16 - shift) vd vn)

-- `(dst_lane << 3) | 4` and the like, for lanes in range, are sums.
unfoldable pub ins_v_s : Reg → ℕ → Reg → ℕ → Emit
ins_v_s vd dst_lane vn src_lane = do
  assert (ltb dst_lane 4 && ltb src_lane 4)
  push (
      bit_or 0x6E000400
        (word ((dst_lane * 2 ^ 3 + 4, 16) ∷ (src_lane * 2 ^ 2, 11) ∷ (vn, 5) ∷ (vd, 0) ∷ [])))

unfoldable pub ext_v16b : Reg → Reg → Reg → ℕ → Emit
ext_v16b vd vn vm imm = do
  assert (ltb imm 16)
  push (bit_or 0x6E000000 (word ((vm, 16) ∷ (imm, 11) ∷ (vn, 5) ∷ (vd, 0) ∷ [])))

unfoldable pub addv_b_v8b : Reg → Reg → Emit
addv_b_v8b vd vn = push (bit_or 0x0E31B800 (word ((vn, 5) ∷ (vd, 0) ∷ [])))

unfoldable pub umov_w_b : Reg → Reg → ℕ → Emit
umov_w_b rd vn lane = do assert (ltb lane 16); push (immediate_word 0x0E003C00 (lane * 2 + 1) rd vn)

unfoldable pub ins_v_d_gpr : Reg → ℕ → Reg → Emit
ins_v_d_gpr vd lane rn = do
  assert (ltb lane 2)
  push (immediate_word 0x4E001C00 (lane * 2 ^ 4 + 8) vd rn)

-- BFI as BFM with the rotation `-lsb` and the last bit of the field.
unfoldable pub bfi_w : Reg → Reg → ℕ → ℕ → Emit
bfi_w rd rn lsb width = do
  assert (ltb 0 width && leb (lsb + width) 32)
  push (bit_or 0x33000000 (word (((32 - lsb) % 32, 16) ∷ (width - 1, 10) ∷ (rn, 5) ∷ (rd, 0) ∷ [])))
