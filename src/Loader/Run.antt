-- ===== src/Loader/Run.antt =====
-- crates/quantum-loader: what a routine that writes to an image comes to. The bytes are those at the
-- end, also after an error.
use quantum.Prelude.{ℕ, List}

-- Where an image is refused, by the source's texts.
pub data Reason : Type 0 where
  block_header size_below_8 past_directory oversized entries dir64_oob highlow_oob : Reason
  read_past_end dos_signature pe_signature optional_magic section_table : Reason
  size_of_image size_of_headers section_virtual section_raw_oob : Reason
  directory_size function_oob unwind_header unwind_version unwind_codes chained_oob handler_oob
        chain_too_deep :
      Reason

pub data LoadError : Type 0 where
  malformed : (what : Reason) (at : ℕ) → LoadError
  unsupported : LoadError
  host : LoadError

-- `host` is an error of the host's memory manager. `exhausted` stands for a loop whose fuel has run out.
pub data Outcome (A : Type 0) : Type 0 where
  ok : A → Outcome A
  err : LoadError → Outcome A
  panics : Outcome A
  exhausted : Outcome A

abbrev pub Run : Type 0 → Type 0
Run A = List ℕ → Outcome A × List ℕ

abbrev pub and_then : {A B : Type 0} → (A → Run B) → Outcome A × List ℕ → Outcome B × List ℕ
and_then f (ok a, bytes) = f a bytes
and_then f (err e, bytes) = (err e, bytes)
and_then f (panics, bytes) = (panics, bytes)
and_then f (exhausted, bytes) = (exhausted, bytes)

-- `?`.
infixl 5 ◌>>=◌
abbrev pub ◌>>=◌ : {A B : Type 0} → Run A → (A → Run B) → Run B
(m >>= f) bytes = and_then f (m bytes)

abbrev pub pure : {A : Type 0} → A → Run A
pure a bytes = (ok a, bytes)

abbrev pub fail : {A : Type 0} → Reason → ℕ → Run A
fail what at bytes = (err (malformed what at), bytes)
