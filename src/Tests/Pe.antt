-- ===== src/Tests/Pe.antt =====
-- crates/quantum-loader/src: a file with one section, parsed and loaded.
use quantum.Prelude.{
  ℕ, ◌≡◌, refl, List, [], ◌∷◌, ◌++◌, Option, none, some, subst, length, take, replicate,
}
use quantum.Prelude.Slices.{length-replicate}
use quantum.Loader.Run.{ok}
use quantum.Loader.Pe.{
  PeFile, PeKind, SectionHeader, sections, parse, read_le, parse_coff, parse_optional,
  parse_directories, section_list, no_directory,
}
use quantum.Loader.Load.{Allocate, copy_section, copy_sections, load, loaded_image}
use quantum.Loader.Parsed.{parse-sections}
use quantum.Loader.Loaded.{Placed, copy_section-Placed}
use quantum.Loader.Contents.{Contains, load-Contains}
use quantum.Loader.Fits.{IsSized, Fits, load-Fits}

abbrev zeros : ℕ → List ℕ
zeros n = replicate n 0

abbrev coff_bytes : List ℕ
coff_bytes = 0x4C ∷ 1 ∷ 1 ∷ 0 ∷ zeros 12 ++ 96 ∷ 0 ∷ 2 ∷ 0 ∷ []

abbrev optional_bytes : List ℕ
optional_bytes =
    0x0B ∷ 1 ∷ zeros 28 ++ 0x40 ∷ 0 ∷ zeros 24 ++ 0x2C ∷ 1 ∷ 0 ∷ 0 ∷ 0x40 ∷ zeros 7 ++ 3 ∷ zeros 27

abbrev section_bytes : List ℕ
section_bytes =
    0x2E ∷ 0x74 ∷ zeros 6
    ++ 20 ∷ 0 ∷ 0 ∷ 0 ∷ 0xF0 ∷ 0 ∷ 0 ∷ 0 ∷ 4 ∷ zeros 19
    ++ 0x20 ∷ 0 ∷ 0 ∷ 0x60 ∷ []

abbrev small_file : List ℕ
small_file =
    0x4D ∷ 0x5A ∷ zeros 58
    ++ 0x40 ∷ 0 ∷ 0 ∷ 0 ∷ 0x50 ∷ 0x45 ∷ 0 ∷ 0 ∷ coff_bytes
    ++ optional_bytes
    ++ section_bytes

abbrev small_pe : PeFile
small_pe = record {
  bytes = small_file;
  pe_header_offset = 0x40;
  coff = record {
    machine = 0x014C;
    number_of_sections = 1;
    time_date_stamp = 0;
    pointer_to_symbol_table = 0;
    number_of_symbols = 0;
    size_of_optional_header = 96;
    characteristics = 2;
  };
  opt = record {
    kind = PeKind.pe32;
    address_of_entry_point = 0;
    image_base = 0x400000;
    section_alignment = 0;
    file_alignment = 0;
    size_of_image = 300;
    size_of_headers = 0x40;
    subsystem = 3;
    number_of_rva_and_sizes = 0;
    data_directories = replicate 16 no_directory;
  };
  sections_offset = 0xB8;
}

small_file_parsed : parse small_file ≡ ok small_pe
unfolding parse read_le parse_coff parse_optional parse_directories
small_file_parsed = refl

parse-sections_example : length (sections small_pe) ≡ 1
parse-sections_example = parse-sections small_file small_file_parsed

-- Memory of zeros at a fixed address.
abbrev fresh_memory : Allocate
fresh_memory hint size = some (0x10000, replicate size 0)

abbrev HasSize : ℕ → Option (ℕ × List ℕ) → Type 0
HasSize size none = Unit {0}
HasSize size (some r) = length r.1 ≡ size

fresh_memory-IsSized : IsSized fresh_memory
fresh_memory-IsSized hint size base region e =
    subst (HasSize size) e (length-replicate {A = ℕ} size 0)

abbrev small_region : List ℕ
small_region = take 64 small_file ++ zeros 176 ++ take 4 small_file ++ zeros 56

small_pe_loaded : load fresh_memory small_pe ≡ ok (loaded_image small_pe 0x10000 small_region)
unfolding load copy_section copy_sections section_list read_le
small_pe_loaded = refl

load-Fits_example : Fits small_pe (loaded_image small_pe 0x10000 small_region)
load-Fits_example = load-Fits fresh_memory fresh_memory-IsSized small_pe small_pe_loaded

load-Contains_example : Contains fresh_memory small_pe (loaded_image small_pe 0x10000 small_region)
load-Contains_example = load-Contains fresh_memory small_pe small_pe_loaded

abbrev text_section : SectionHeader
text_section = record {
  name = 0x2E ∷ 0x74 ∷ zeros 6;
  virtual_size = 4;
  virtual_address = 2;
  size_of_raw_data = 3;
  pointer_to_raw_data = 1;
  characteristics = 0x60000020;
}

text_section_copied :
    copy_section text_section (5 ∷ 6 ∷ 7 ∷ 8 ∷ []) (replicate 7 9)
    ≡ ok (9 ∷ 9 ∷ 6 ∷ 7 ∷ 8 ∷ 0 ∷ 9 ∷ [])
unfolding copy_section
text_section_copied = refl

copy_section-Placed_example :
    Placed text_section (5 ∷ 6 ∷ 7 ∷ 8 ∷ []) (replicate 7 9) (9 ∷ 9 ∷ 6 ∷ 7 ∷ 8 ∷ 0 ∷ 9 ∷ [])
copy_section-Placed_example =
    copy_section-Placed text_section (5 ∷ 6 ∷ 7 ∷ 8 ∷ []) (replicate 7 9) text_section_copied
