-- ===== src/Jit/Decoder/State.antt =====
-- crates/quantum-jit/src/decoder.rs: the decoder's state, its results and its byte reads.
use quantum.Prelude.{
  ℕ, ◌+◌, ◌-◌, List, Option, none, some, Bool, true, false, get_elem?, length, leb, if◌then◌else◌,
  ℤ, signed, le16, le32, le64, wrapping_add64,
}

pub data Error : Type 0 where
  truncated reserved : Error

-- `panic` stands for a failed `unwrap`, a slice out of bounds or an `unreachable!`.
pub data Outcome {ℓ} (A : Type ℓ) : Type ℓ where
  ok : A → Outcome A
  err : Error → Outcome A
  panic : Outcome A

-- The slice, the index of the next byte, the guest address of byte 0, and the mode.
pub record Decoder : Type 0 where
  pub bytes : List ℕ
  pub at : ℕ
  pub guest_rip : ℕ
  pub long_mode : Bool

-- A method on `&mut self`.
abbrev pub Decode : Type 0 → Type 0
Decode A = Decoder → Outcome (A × Decoder)

infixl 5 ◌>>=◌
abbrev pub ◌>>=◌ : {A B : Type 0} → Decode A → (A → Decode B) → Decode B
◌>>=◌ m f d = elim (m d) [ ok (x, d') ↦ f x d' | err e ↦ err e | panic ↦ panic ]

abbrev pub pure : {A : Type 0} → A → Decode A
pure x d = ok (x, d)

abbrev pub halt : {A : Type 0} → Decode A
halt d = panic

-- `Decoder::new` and `Decoder::new_legacy32`.
abbrev pub new : List ℕ → ℕ → Decoder
new bytes rip = record { bytes = bytes; at = 0; guest_rip = rip; long_mode = true }

abbrev pub new_legacy32 : List ℕ → ℕ → Decoder
new_legacy32 bytes eip = record { bytes = bytes; at = 0; guest_rip = eip; long_mode = false }

abbrev pub rip : Decoder → ℕ
rip d = wrapping_add64 d.guest_rip d.at

abbrev pub remaining : Decoder → ℕ
remaining d = length d.bytes - d.at

-- `self.long_mode`.
unfoldable pub is_long : Decode Bool
is_long d = ok (d.long_mode, d)

-- `unwrap`, and the `unreachable!` arm of a table that is total where it is called.
unfoldable pub unwrap : {A : Type 0} → Option A → Decode A
unwrap none = halt
unwrap (some x) = pure x

-- `self.bytes.get(i).ok_or(Error::Truncated)`.
unfoldable pub peek_u8 : Decode ℕ
peek_u8 d = elim (get_elem? d.bytes d.at) [ some x ↦ ok (x, d) | none ↦ err truncated ]

-- `self.pos += 1`.
unfoldable pub bump : Decode (Unit {0})
bump d = ok (tt, record d { at = d.at + 1 })

unfoldable pub read_u8 : Decode ℕ
unfolding peek_u8 bump
read_u8 = do x ← peek_u8; _ ← bump; pure x

abbrev pub read_i8 : Decode ℤ
read_i8 = do x ← read_u8; pure (signed 8 x)

-- `self.bytes.get(pos..pos + n)`: the whole range or `Truncated`, and only then the move.
unfoldable pub check_range : ℕ → Decode (Unit {0})
check_range n d = if leb (d.at + n) (length d.bytes) then ok (tt, d) else err truncated

unfoldable pub read_u16 : Decode ℕ
read_u16 = do _ ← check_range 2; b0 ← read_u8; b1 ← read_u8; pure (le16 b0 b1)

abbrev pub read_i16 : Decode ℤ
read_i16 = do x ← read_u16; pure (signed 16 x)

unfoldable pub read_u32 : Decode ℕ
read_u32 = do
  _ ← check_range 4
  b0 ← read_u8
  b1 ← read_u8
  b2 ← read_u8
  b3 ← read_u8
  pure (le32 b0 b1 b2 b3)

abbrev pub read_i32 : Decode ℤ
read_i32 = do x ← read_u32; pure (signed 32 x)

unfoldable pub read_u64 : Decode ℕ
read_u64 = do
  _ ← check_range 8
  b0 ← read_u8
  b1 ← read_u8
  b2 ← read_u8
  b3 ← read_u8
  b4 ← read_u8
  b5 ← read_u8
  b6 ← read_u8
  b7 ← read_u8
  pure (le64 b0 b1 b2 b3 b4 b5 b6 b7)
