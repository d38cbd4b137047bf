-- ===== src/Tests/Exception.antt =====
-- crates/quantum-loader/src/exception.rs: a table of one function, a chain of unwind records and a cycle.
use quantum.Prelude.{ℕ, ◌≡◌, refl, List, [], ◌∷◌, ◌++◌, replicate}
use quantum.Loader.Run.{Reason, malformed, err}
use quantum.Loader.Image.{LoadedImage, Bitness, DataDirectory, rva_to_slice, data_dir}
use quantum.Loader.Exception.{
  RuntimeFunction, parse_exceptions, parse_unwind_info, resolve_loop, resolve_handler,
}
use quantum.Loader.Handlers.{
  Answers, Terminal, Counts, resolve_handler-Answers, parse_exceptions-Answers,
}

abbrev none_dir : DataDirectory
none_dir = record { virtual_address = 0; size = 0 }

abbrev image_of : List ℕ → LoadedImage
image_of region = record {
  region = region;
  preferred_base = 0;
  actual_base = 0;
  size_of_image = 32;
  size_of_headers = 0;
  entry_rva = 0;
  subsystem = 3;
  bitness = Bitness.x86_64;
  sections = [];
  data_directories =
      none_dir ∷ none_dir ∷ none_dir ∷ record { virtual_address = 4; size = 12 } ∷ [];
}

-- A record at 0 with a link to the one at 16.
abbrev chained_image : LoadedImage
chained_image = image_of (33 ∷ replicate 11 0 ++ 16 ∷ 0 ∷ 0 ∷ 0 ∷ 1 ∷ replicate 15 0)

abbrev first_function : RuntimeFunction
first_function = record { begin_rva = 0; end_rva = 0; unwind_info_rva = 0 }

resolve_handler-Answers_example :
    Answers (Terminal chained_image) (resolve_handler chained_image first_function)
resolve_handler-Answers_example = resolve_handler-Answers chained_image first_function

parse_exceptions-Answers_example :
    Answers (Counts (data_dir chained_image 3)) (parse_exceptions chained_image)
parse_exceptions-Answers_example = parse_exceptions-Answers chained_image

-- A record with a link to itself.
cyclic_image_fails :
    resolve_handler (image_of (33 ∷ replicate 31 0)) first_function
    ≡ err (malformed Reason.chain_too_deep 0)
unfolding resolve_handler resolve_loop parse_unwind_info rva_to_slice
cyclic_image_fails = refl
