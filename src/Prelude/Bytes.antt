-- ===== src/Prelude/Bytes.antt =====
-- Bytes, and the little-endian numbers that two, four or eight of them stand for.
use Prim.Native.Nat.{ℕ, ◌+◌, ◌*◌, ◌^◌, ◌<◌}

abbrev pub IsByte : ℕ → Type 0
IsByte b = b < 256

-- `u16::from_le_bytes`, `u32::from_le_bytes`, `u64::from_le_bytes`.
abbrev pub le16 : ℕ → ℕ → ℕ
le16 b0 b1 = b0 + b1 * 2 ^ 8

abbrev pub le32 : ℕ → ℕ → ℕ → ℕ → ℕ
le32 b0 b1 b2 b3 = le16 b0 b1 + le16 b2 b3 * 2 ^ 16

abbrev pub le64 : ℕ → ℕ → ℕ → ℕ → ℕ → ℕ → ℕ → ℕ → ℕ
le64 b0 b1 b2 b3 b4 b5 b6 b7 = le32 b0 b1 b2 b3 + le32 b4 b5 b6 b7 * 2 ^ 32
