-- ===== src/Loader/Exception.antt =====
-- crates/quantum-loader/src/exception.rs: the table of functions and the unwind records. An offset is
-- added to only where a slice up to it was found, so that no sum overflows on an image below 2^32 bytes.
use quantum.Prelude.{
  ℕ, zero, suc, ◌+◌, ◌*◌, ◌/◌, ◌%◌, List, [], ◌∷◌, Option, none, some, Bool, ltb, not, ◌==◌, ◌&&◌,
  if◌then◌else◌, take, drop,
}
use quantum.Prelude.Slices.{from_le}
use quantum.Loader.Run.{Reason, malformed, Outcome, ok, err, exhausted}
use quantum.Loader.Image.{LoadedImage, DataDirectory, rva_to_slice, data_dir}
use quantum.Loader.Pe.{bound}

pub record RuntimeFunction : Type 0 where
  pub begin_rva : ℕ
  pub end_rva : ℕ
  pub unwind_info_rva : ℕ

abbrev pub present : Reason → ℕ → Option (List ℕ) → Outcome (List ℕ)
present what at none = err (malformed what at)
present what at (some slice) = ok slice

abbrev pub image_slice : LoadedImage → Reason → ℕ → ℕ → Outcome (List ℕ)
image_slice image what rva len = present what rva (rva_to_slice image.region rva len)

-- `u32::from_le_bytes` of the bytes from an index on.
abbrev pub u32_at : List ℕ → ℕ → ℕ
u32_at bytes i = from_le (take 4 (drop i bytes))

abbrev pub function_of : List ℕ → RuntimeFunction
function_of b = record {
  begin_rva = u32_at b 0;
  end_rva = u32_at b 4;
  unwind_info_rva = u32_at b 8;
}

-- The entries from one on, `n` of them.
unfoldable pub parse_functions : LoadedImage → ℕ → ℕ → Outcome (List RuntimeFunction)
parse_functions image zero off = ok []
parse_functions image (suc n) off =
    bound (λ b. bound (λ rest. ok (function_of b ∷ rest)) (parse_functions image n (off + 12)))
      (image_slice image Reason.function_oob off 12)

abbrev pub parse_directory : LoadedImage → Option DataDirectory → Outcome (List RuntimeFunction)
parse_directory image none = ok []
parse_directory image (some dir) =
    if dir.size % 12 == 0
    then parse_functions image (dir.size / 12) dir.virtual_address
    else err (malformed Reason.directory_size dir.virtual_address)

unfoldable pub parse_exceptions : LoadedImage → Outcome (List RuntimeFunction)
parse_exceptions image = parse_directory image (data_dir image 3)

pub record UnwindInfo : Type 0 where
  pub version : ℕ
  pub flags : ℕ
  pub size_of_prolog : ℕ
  pub count_of_codes : ℕ
  pub frame_register : ℕ
  pub frame_offset : ℕ
  pub unwind_codes : List ℕ
  pub handler_rva : Option ℕ
  pub chained_function : Option RuntimeFunction

-- UNW_FLAG_EHANDLER or UNW_FLAG_UHANDLER, the bits 0 and 1; UNW_FLAG_CHAININFO, the bit 2.
abbrev pub has_handler : ℕ → Bool
has_handler flags = not (flags % 4 == 0)

abbrev pub has_chain : ℕ → Bool
has_chain flags = flags / 4 % 2 == 1

unfoldable pub has_exception_handler : UnwindInfo → Bool
has_exception_handler ui = has_handler ui.flags

-- What stands behind the codes: a link, a handler or nothing.
abbrev pub Trailer : Type 0
Trailer = Option ℕ × Option RuntimeFunction

abbrev pub parse_trailer : LoadedImage → ℕ → ℕ → Outcome Trailer
parse_trailer image flags off =
    if has_chain flags
    then bound (λ b. ok (none, some (function_of b))) (image_slice image Reason.chained_oob off 12)
    else if has_handler flags
    then bound (λ b. ok (some (u32_at b 0), none)) (image_slice image Reason.handler_oob off 4)
    else ok (none, none)

abbrev pub unwind_info : ℕ → ℕ → ℕ → ℕ → List ℕ → Trailer → UnwindInfo
unwind_info ver_flags size_of_prolog count_of_codes frame_byte unwind_codes
      (handler_rva, chained_function) =
    record {
      version = ver_flags % 8;
      flags = ver_flags / 8 % 32;
      size_of_prolog = size_of_prolog;
      count_of_codes = count_of_codes;
      frame_register = frame_byte % 16;
      frame_offset = frame_byte / 16 % 16;
      unwind_codes = unwind_codes;
      handler_rva = handler_rva;
      chained_function = chained_function;
    }

-- Two bytes a code, and an even number of codes.
abbrev pub codes_size : ℕ → ℕ
codes_size count_of_codes = (count_of_codes + 1) / 2 * 2 * 2

abbrev pub parse_codes : LoadedImage → ℕ → List ℕ → Outcome UnwindInfo
parse_codes image unwind_rva (ver_flags ∷ size_of_prolog ∷ count_of_codes ∷ frame_byte ∷ _) =
    if not (ver_flags % 8 == 1) && not (ver_flags % 8 == 2)
    then err (malformed Reason.unwind_version unwind_rva)
    else bound
        (λ codes.
          bound
            (λ trailer.
              ok (unwind_info ver_flags size_of_prolog count_of_codes frame_byte codes trailer))
            (parse_trailer image (ver_flags / 8 % 32) (unwind_rva + 4 + codes_size count_of_codes)))
        (image_slice image Reason.unwind_codes (unwind_rva + 4) (codes_size count_of_codes))
parse_codes image unwind_rva _ = Outcome.panics

unfoldable pub parse_unwind_info : LoadedImage → ℕ → Outcome UnwindInfo
parse_unwind_info image unwind_rva =
    bound (parse_codes image unwind_rva) (image_slice image Reason.unwind_header unwind_rva 4)

abbrev pub Resolved : Type 0
Resolved = UnwindInfo × RuntimeFunction

-- A round that has parsed a record goes on at its link.
abbrev pub follow :
    (RuntimeFunction → Outcome Resolved)
    → RuntimeFunction
    → UnwindInfo
    → Option RuntimeFunction
    → Outcome Resolved
follow loop current ui (some next) = loop next
follow loop current ui none = ok (ui, current)

-- The loop, on fuel; `seen` is the counter before it goes up.
unfoldable pub resolve_loop : ℕ → LoadedImage → ℕ → RuntimeFunction → Outcome Resolved
resolve_loop zero image seen current = exhausted
resolve_loop (suc fuel) image seen current =
    let loop = λ (f : RuntimeFunction). resolve_loop fuel image (seen + 1) f in
    if ltb 16 (seen + 1)
    then err (malformed Reason.chain_too_deep current.unwind_info_rva)
    else bound (λ ui. follow loop current ui ui.chained_function)
        (parse_unwind_info image current.unwind_info_rva)

unfoldable pub resolve_handler : LoadedImage → RuntimeFunction → Outcome Resolved
resolve_handler image starting = resolve_loop 17 image 0 starting
