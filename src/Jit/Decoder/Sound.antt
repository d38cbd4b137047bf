-- ===== src/Jit/Decoder/Sound.antt =====
-- What the decoder's methods promise, and the rules by which the promise passes through their
-- sequencing and branching.
pub mod Rules
pub mod Reads
pub mod Registers
pub mod ModRm
pub mod Forms
pub mod Groups
pub mod OneByte
pub mod Primary
pub mod TwoByte
pub mod Secondary
pub mod Next
use quantum.Prelude.{
  ℕ, ◌+◌, ◌≤◌, max, ◌≡◌, refl, List, ◌++◌, Bool, true, false, length, All, IsByte, arith,
  if◌then◌else◌, Option, none, some,
}
use quantum.Jit.Decoder.State.{
  Error, Outcome, ok, err, panic, truncated, Decoder, Decode, ◌>>=◌, pure, unwrap,
}

-- The reader is inside its slice, which holds bytes.
pub record IsValid (d : Decoder) : Type 0 where
  pub inside : d.at ≤ length d.bytes
  pub are_bytes : All IsByte d.bytes

-- Between two states the reader moved forward by at most `k` bytes, and nothing else changed.
pub record Moves (k : ℕ) (d d' : Decoder) : Type 0 where
  pub same_bytes : d'.bytes ≡ d.bytes
  pub same_rip : d'.guest_rip ≡ d.guest_rip
  pub same_mode : d'.long_mode ≡ d.long_mode
  pub forward : d.at ≤ d'.at
  pub short : d'.at ≤ d.at + k
  pub inside : d'.at ≤ length d.bytes

abbrev pub extend : List ℕ → Decoder → Decoder
extend more d = record d { bytes = d.bytes ++ more }

-- The outcome of a method, beside its outcome where more bytes follow the slice: a value that
-- satisfies `Q` with at most `k` bytes consumed, the same in both, or `Truncated`. No panic, and
-- no other error.
pub data Ends {A : Type 0} (k : ℕ) (Q : A → Type 0) (d : Decoder) (more : List ℕ)
    : Outcome (A × Decoder) → Outcome (A × Decoder) → Type 0 where
  returns :
      {x : A} {d' : Decoder}
      → Q x
      → Moves k d d'
      → Ends k Q d more (ok (x, d')) (ok (x, extend more d'))
  cut : {r : Outcome (A × Decoder)} → Ends k Q d more (err truncated) r

pub record Sound {A : Type 0} (k : ℕ) (Q : A → Type 0) (m : Decode A) : Type 0 where
  pub run : (d : Decoder) → IsValid d → (more : List ℕ) → Ends k Q d more (m d) (m (extend more d))
