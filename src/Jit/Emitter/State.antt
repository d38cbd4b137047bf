-- ===== src/Jit/Emitter/State.antt =====
-- crates/quantum-jit/src/emitter.rs: the emitter's state, its labels and its fixups. Words are
-- numbers below 2^32; a register is its number.
use quantum.Prelude.{
  ℕ, ◌+◌, ◌-◌, ◌*◌, ◌/◌, ◌%◌, ◌^◌, List, [], ◌∷◌, ◌++◌, Option, none, some, Bool, ltb, leb,
  if◌then◌else◌, length, get_elem?, set, ℤ, pos, negsuc,
}
use quantum.Prelude.Checked.{Checked, returns, panics, Method, ◌>>=◌, ◌>>◌}
use quantum.Prelude.Slices.{to_le}
use Prim.Native.Nat.{bit_or}

abbrev pub Reg : Type 0
Reg = ℕ

abbrev pub zero_register : Reg
zero_register = 31

-- The conditions, in the order of their codes; `lo` is the source's `Cc`, by its alias.
pub data A64Cond : Type 0 where
  eq ne cs lo mi pl vs vc hi ls ge lt gt le al nv : A64Cond

pub data FixupKind : Type 0 where
  branch26 branch19 branch14 : FixupKind

pub record Fixup : Type 0 where
  pub word_index : ℕ
  pub kind : FixupKind
  pub label : ℕ

pub record Emitter : Type 0 where
  pub code : List ℕ
  pub labels : List (Option ℕ)
  pub fixups : List Fixup

abbrev pub new : Emitter
new = record { code = []; labels = []; fixups = [] }

abbrev pub Emit : Type 0
Emit = Method Emitter (Unit {0})

abbrev pub position : Emitter → ℕ
position e = length e.code

unfoldable pub push : ℕ → Emit
push word e = returns (tt, record e { code = e.code ++ word ∷ [] })

abbrev pub raw_word : ℕ → Emit
raw_word word = push word

-- `bytes`, little-endian.
unfoldable pub bytes : Emitter → List ℕ
bytes e = out e.code
  where
    out : List ℕ → List ℕ
    out [] = []
    out (w ∷ ws) = to_le 4 w ++ out ws

unfoldable pub make_label : Method Emitter ℕ
make_label e = returns (length e.labels, record e { labels = e.labels ++ none ∷ [] })

-- `bind`, with the slot that the index finds; the assertion is that it is free.
abbrev pub bind_slot : ℕ → Option (Option ℕ) → Emit
bind_slot label none e = panics
bind_slot label (some (some at)) e = panics
bind_slot label (some none) e =
    returns (tt, record e { labels = set e.labels label (some (position e)) })

unfoldable pub bind : ℕ → Emit
bind label e = bind_slot label (get_elem? e.labels label) e

pub data FinishError : Type 0 where
  unbound_label : ℕ → FinishError
  branch_out_of_range : FinishError

pub data Finish (A : Type 0) : Type 0 where
  ok : A → Finish A
  err : FinishError → Finish A

-- `to as i64 - from as i64`.
abbrev pub delta : ℕ → ℕ → ℤ
delta to from = if leb from to then pos (to - from) else negsuc (from - to - 1)

-- `(-(1 << w)..(1 << w)).contains(&imm)`.
abbrev pub fits : ℕ → ℤ → Bool
fits w (pos n) = ltb n (2 ^ w)
fits w (negsuc n) = ltb n (2 ^ w)

-- `imm as u32`.
abbrev pub as_u32 : ℤ → ℕ
as_u32 (pos n) = n % 2 ^ 32
as_u32 (negsuc n) = 2 ^ 32 - 1 - n % 2 ^ 32

-- `base & 0xFC00_0000`, `base & 0xFF00_001F` and `base & 0xFFF8_001F` keep the bits above and below
-- the offset's field.
unfoldable pub patch_branch : ℕ → FixupKind → ℤ → Finish ℕ
patch_branch base branch26 imm =
    if fits 25 imm
    then ok (bit_or (base / 2 ^ 26 * 2 ^ 26) (as_u32 imm % 2 ^ 26))
    else err branch_out_of_range
patch_branch base branch19 imm =
    if fits 18 imm
    then ok (bit_or (base / 2 ^ 24 * 2 ^ 24 + base % 32) (as_u32 imm % 2 ^ 19 * 2 ^ 5))
    else err branch_out_of_range
patch_branch base branch14 imm =
    if fits 13 imm
    then ok (bit_or (base / 2 ^ 19 * 2 ^ 19 + base % 32) (as_u32 imm % 2 ^ 14 * 2 ^ 5))
    else err branch_out_of_range

-- The branch that `emit_branch` has pushed as a base word at `index`: a backward branch is patched at
-- once, with `expect`; a forward one gets a fixup.
abbrev pub patched : Emitter → ℕ → Finish ℕ → Checked (Unit {0} × Emitter)
patched e index (ok w) = returns (tt, record e { code = set e.code index w })
patched e index (err x) = panics

abbrev pub branch_to : ℕ → FixupKind → ℕ → ℕ → Option (Option ℕ) → Emit
branch_to base kind label index none e = panics
branch_to base kind label index (some (some at)) e =
    patched e index (patch_branch base kind (delta at index))
branch_to base kind label index (some none) e = returns (
  tt,
  record e { fixups = e.fixups ++ record { word_index = index; kind = kind; label = label } ∷ [] },
)

unfoldable pub emit_branch : ℕ → FixupKind → ℕ → Emit
unfolding push
emit_branch base kind label = do
  word_index ← λ e. returns (position e, e)
  push base
  λ e. branch_to base kind label word_index (get_elem? e.labels label) e

-- One round of `finish`: the code is patched in place, and stays as it is at an error.
abbrev pub rewrite_word : Emitter → Fixup → Finish ℕ → Checked (Finish (Unit {0}) × Emitter)
rewrite_word e f (ok w) = returns (ok tt, record e { code = set e.code f.word_index w })
rewrite_word e f (err x) = returns (err x, e)

abbrev pub resolve_word : Emitter → Fixup → ℕ → Option ℕ → Checked (Finish (Unit {0}) × Emitter)
resolve_word e f bound none = panics
resolve_word e f bound (some word) =
    rewrite_word e f (patch_branch word f.kind (delta bound f.word_index))

abbrev pub resolve : Emitter → Fixup → Option (Option ℕ) → Checked (Finish (Unit {0}) × Emitter)
resolve e f none = panics
resolve e f (some none) = returns (err (unbound_label f.label), e)
resolve e f (some (some bound)) = resolve_word e f bound (get_elem? e.code f.word_index)

-- `?` in the loop.
abbrev pub then_loop :
    (Emitter → Checked (Finish (Unit {0}) × Emitter))
    → Checked (Finish (Unit {0}) × Emitter)
    → Checked (Finish (Unit {0}) × Emitter)
then_loop loop (returns (ok _, e)) = loop e
then_loop loop (returns (err x, e)) = returns (err x, e)
then_loop loop panics = panics

unfoldable pub finish_loop : List Fixup → Emitter → Checked (Finish (Unit {0}) × Emitter)
finish_loop [] e = returns (ok tt, e)
finish_loop (f ∷ fs) e = then_loop (finish_loop fs) (resolve e f (get_elem? e.labels f.label))

-- `finish` takes the fixups out first.
unfoldable pub finish : Emitter → Checked (Finish (Unit {0}) × Emitter)
finish e = finish_loop e.fixups (record e { fixups = [] })
