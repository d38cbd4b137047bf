-- ===== src/Jit/Decoder/Prefixes.antt =====
-- crates/quantum-jit/src/decoder.rs: the legacy prefixes and the REX byte.
use quantum.Prelude.{
  ℕ, zero, suc, ◌+◌, ◌/◌, ◌%◌, Option, none, some, Bool, true, false, ◌&&◌, ◌||◌, ◌==◌, within,
  if◌then◌else◌,
}
use quantum.Jit.Iform.{Seg, OpSize}
use quantum.Jit.Decoder.State.{Outcome, Decode, ok, panic, peek_u8, remaining}

pub record Rex : Type 0 where
  pub w : Bool
  pub r : Bool
  pub x : Bool
  pub b : Bool
  pub present : Bool

pub record Prefixes : Type 0 where
  pub lock : Bool
  pub repe : Bool
  pub repne : Bool
  pub osize : Bool
  pub asize : Bool
  pub seg : Option Seg
  pub rex : Rex

abbrev pub no_rex : Rex
no_rex = record { w = false; r = false; x = false; b = false; present = false }

abbrev pub no_prefixes : Prefixes
no_prefixes = record {
  lock = false;
  repe = false;
  repne = false;
  osize = false;
  asize = false;
  seg = none;
  rex = no_rex;
}

-- What one byte does to the loop of `read_prefixes`: it is consumed and the loop goes on, it is
-- consumed and the loop breaks (REX), or it is left for the opcode.
pub data Step : Type 0 where
  again last : Prefixes → Step
  stop : Step

-- Bit `i` of a byte, `(b & (1 << i)) != 0`, at `d = 1 << i`.
abbrev pub bit : ℕ → ℕ → Bool
bit x d = x / d % 2 == 1

-- `read_prefixes` matches the byte from top to bottom.
unfoldable pub prefix_byte : Bool → ℕ → Prefixes → Step
prefix_byte long c p =
    if c == 0xF0
    then again (record p { lock = true })
    else if c == 0xF2
    then again (record p { repne = true })
    else if c == 0xF3
    then again (record p { repe = true })
    else if c == 0x66
    then again (record p { osize = true })
    else if c == 0x67
    then again (record p { asize = true })
    else if c == 0x2E || c == 0x3E || c == 0x26 || c == 0x36
    then again p
    else if c == 0x64
    then again (record p { seg = some Seg.fs })
    else if c == 0x65
    then again (record p { seg = some Seg.gs })
    else if within 0x40 0x4F c && long
    then last (record p {
      rex = record { w = bit c 8; r = bit c 4; x = bit c 2; b = bit c 1; present = true };
    })
    else stop

-- The loop, on fuel. Each round but the last consumes a byte, so one more round than there are
-- bytes left is enough.
unfoldable pub prefixes_loop : ℕ → Prefixes → Decode Prefixes
prefixes_loop zero p d = panic
prefixes_loop (suc fuel) p d = elim (peek_u8 d) [
  | ok (c, d') ↦ elim (prefix_byte d.long_mode c p) [
    | again p' ↦ prefixes_loop fuel p' (record d { at = d.at + 1 })
    | last p' ↦ ok (p', record d { at = d.at + 1 })
    | stop ↦ ok (p, d)
  ]
  | Outcome.err e ↦ Outcome.err e
  | panic ↦ panic
]

unfoldable pub read_prefixes : Decode Prefixes
read_prefixes d = prefixes_loop (suc (remaining d)) no_prefixes d

-- `op_size_default32`.
unfoldable pub op_size_default32 : Prefixes → Bool → OpSize
op_size_default32 p long =
    if long && p.rex.w then OpSize.b8 else if p.osize then OpSize.b2 else OpSize.b4

-- `op_size_default64`.
unfoldable pub op_size_default64 : Prefixes → Bool → OpSize
op_size_default64 p long = if p.osize then OpSize.b2 else if long then OpSize.b8 else OpSize.b4
