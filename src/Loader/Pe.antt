-- ===== src/Loader/Pe.antt =====
-- crates/quantum-loader/src/pe.rs: the parser of PE headers. Offsets are below 2^33 and their sums do
-- not overflow a usize.
use quantum.Prelude.{
  ℕ, zero, suc, ◌+◌, ◌*◌, List, [], ◌∷◌, ltb, leb, ◌==◌, if◌then◌else◌, length, take, drop, min,
  replicate,
}
use quantum.Prelude.Slices.{from_le}
use quantum.Loader.Run.{Reason, malformed, Outcome, ok, err, panics, exhausted}
use quantum.Loader.Image.{DataDirectory}

-- What is read from the file's bytes.
abbrev pub Parser : Type 0 → Type 0
Parser A = List ℕ → Outcome A

abbrev pub bound : {A B : Type 0} → (A → Outcome B) → Outcome A → Outcome B
bound f (ok a) = f a
bound f (err e) = err e
bound f panics = panics
bound f exhausted = exhausted

infixl 5 ◌>>=◌
abbrev pub ◌>>=◌ : {A B : Type 0} → Parser A → (A → Parser B) → Parser B
(m >>= f) bytes = bound (λ a. f a bytes) (m bytes)

abbrev pub pure : {A : Type 0} → A → Parser A
pure a bytes = ok a

abbrev pub reject : {A : Type 0} → Reason → ℕ → Parser A
reject what at bytes = err (malformed what at)

-- `read_u16`, `read_u32` and `read_u64`, by the number of bytes; their texts are one Reason.
unfoldable pub read_le : ℕ → ℕ → Parser ℕ
read_le n off bytes =
    if leb (off + n) (length bytes)
    then ok (from_le (take n (drop off bytes)))
    else err (malformed Reason.read_past_end off)

abbrev pub read_u16 : ℕ → Parser ℕ
read_u16 = read_le 2

abbrev pub read_u32 : ℕ → Parser ℕ
read_u32 = read_le 4

abbrev pub read_u64 : ℕ → Parser ℕ
read_u64 = read_le 8

pub data PeKind : Type 0 where
  pe32 pe32_plus : PeKind

pub record CoffHeader : Type 0 where
  pub machine : ℕ
  pub number_of_sections : ℕ
  pub time_date_stamp : ℕ
  pub pointer_to_symbol_table : ℕ
  pub number_of_symbols : ℕ
  pub size_of_optional_header : ℕ
  pub characteristics : ℕ

pub record OptionalHeader : Type 0 where
  pub kind : PeKind
  pub address_of_entry_point : ℕ
  pub image_base : ℕ
  pub section_alignment : ℕ
  pub file_alignment : ℕ
  pub size_of_image : ℕ
  pub size_of_headers : ℕ
  pub subsystem : ℕ
  pub number_of_rva_and_sizes : ℕ
  pub data_directories : List DataDirectory

pub record SectionHeader : Type 0 where
  pub name : List ℕ
  pub virtual_size : ℕ
  pub virtual_address : ℕ
  pub size_of_raw_data : ℕ
  pub pointer_to_raw_data : ℕ
  pub characteristics : ℕ

pub record PeFile : Type 0 where
  pub bytes : List ℕ
  pub pe_header_offset : ℕ
  pub coff : CoffHeader
  pub opt : OptionalHeader
  pub sections_offset : ℕ

unfoldable pub parse_coff : ℕ → Parser CoffHeader
parse_coff off = do
  machine ← read_u16 off
  number_of_sections ← read_u16 (off + 2)
  time_date_stamp ← read_u32 (off + 4)
  pointer_to_symbol_table ← read_u32 (off + 8)
  number_of_symbols ← read_u32 (off + 12)
  size_of_optional_header ← read_u16 (off + 16)
  characteristics ← read_u16 (off + 18)
  pure (record {
    machine = machine;
    number_of_sections = number_of_sections;
    time_date_stamp = time_date_stamp;
    pointer_to_symbol_table = pointer_to_symbol_table;
    number_of_symbols = number_of_symbols;
    size_of_optional_header = size_of_optional_header;
    characteristics = characteristics;
  })

abbrev pub no_directory : DataDirectory
no_directory = record { virtual_address = 0; size = 0 }

-- The first `count` of the slots are read; the others keep their default.
unfoldable pub parse_directories : ℕ → ℕ → ℕ → Parser (List DataDirectory)
parse_directories zero count off = pure []
parse_directories (suc slots) zero off = pure (replicate (suc slots) no_directory)
parse_directories (suc slots) (suc count) off = do
  virtual_address ← read_u32 off
  size ← read_u32 (off + 4)
  rest ← parse_directories slots count (off + 8)
  pure (record { virtual_address = virtual_address; size = size } ∷ rest)

abbrev pub read_image_base : PeKind → ℕ → Parser ℕ
read_image_base PeKind.pe32 off = read_u32 (off + 28)
read_image_base PeKind.pe32_plus off = read_u64 (off + 24)

abbrev pub size_count_at : PeKind → ℕ → ℕ
size_count_at PeKind.pe32 fixed_off = fixed_off + 60
size_count_at PeKind.pe32_plus fixed_off = fixed_off + 76

abbrev pub data_dir_at : PeKind → ℕ → ℕ
data_dir_at PeKind.pe32 fixed_off = fixed_off + 64
data_dir_at PeKind.pe32_plus fixed_off = fixed_off + 80

unfoldable pub parse_optional : ℕ → PeKind → Parser OptionalHeader
parse_optional off kind = do
  aoep ← read_u32 (off + 16)
  image_base ← read_image_base kind off
  section_alignment ← read_u32 (off + 32)
  file_alignment ← read_u32 (off + 32 + 4)
  size_of_image ← read_u32 (off + 32 + 24)
  size_of_headers ← read_u32 (off + 32 + 28)
  subsystem ← read_u16 (off + 32 + 36)
  number_of_rva_and_sizes ← read_u32 (size_count_at kind (off + 32))
  data_directories ←
      parse_directories 16 (min number_of_rva_and_sizes 16) (data_dir_at kind (off + 32))
  pure (record {
    kind = kind;
    address_of_entry_point = aoep;
    image_base = image_base;
    section_alignment = section_alignment;
    file_alignment = file_alignment;
    size_of_image = size_of_image;
    size_of_headers = size_of_headers;
    subsystem = subsystem;
    number_of_rva_and_sizes = number_of_rva_and_sizes;
    data_directories = data_directories;
  })

abbrev pub kind_of : ℕ → ℕ → Parser PeKind
kind_of off magic =
    if magic == 0x010B
    then pure PeKind.pe32
    else if magic == 0x020B
    then pure PeKind.pe32_plus
    else reject Reason.optional_magic off

-- The section table has to end within the file.
abbrev pub checked_table : ℕ → CoffHeader → OptionalHeader → ℕ → Parser PeFile
checked_table e_lfanew coff opt sections_offset bytes =
    if ltb (length bytes) (sections_offset + 40 * coff.number_of_sections)
    then err (malformed Reason.section_table sections_offset)
    else ok (record {
      bytes = bytes;
      pe_header_offset = e_lfanew;
      coff = coff;
      opt = opt;
      sections_offset = sections_offset;
    })

abbrev pub expect_number : ℕ → ℕ → Reason → ℕ → Parser (Unit {0})
expect_number found wanted what at = if found == wanted then pure tt else reject what at

unfoldable pub parse : Parser PeFile
parse = do
  dos_sig ← read_u16 0
  _ ← expect_number dos_sig 0x5A4D Reason.dos_signature 0
  e_lfanew ← read_u32 0x3C
  pe_sig ← read_u32 e_lfanew
  _ ← expect_number pe_sig 0x4550 Reason.pe_signature e_lfanew
  coff ← parse_coff (e_lfanew + 4)
  magic ← read_u16 (e_lfanew + 4 + 20)
  kind ← kind_of (e_lfanew + 4 + 20) magic
  opt ← parse_optional (e_lfanew + 4 + 20) kind
  checked_table e_lfanew coff opt (e_lfanew + 4 + 20 + coff.size_of_optional_header)

-- `SectionIter::next`: `none` where a read fails.
abbrev pub section_header : ℕ → Parser SectionHeader
section_header off = do
  _ ← read_le 8 off
  virtual_size ← read_u32 (off + 8)
  virtual_address ← read_u32 (off + 12)
  size_of_raw_data ← read_u32 (off + 16)
  pointer_to_raw_data ← read_u32 (off + 20)
  characteristics ← read_u32 (off + 36)
  λ bytes. ok (record {
    name = take 8 (drop off bytes);
    virtual_size = virtual_size;
    virtual_address = virtual_address;
    size_of_raw_data = size_of_raw_data;
    pointer_to_raw_data = pointer_to_raw_data;
    characteristics = characteristics;
  })

abbrev pub listed : List SectionHeader → Outcome SectionHeader → List SectionHeader
listed rest (ok s) = s ∷ rest
listed rest _ = []

-- The headers that the iterator gives, in order.
unfoldable pub section_list : ℕ → ℕ → List ℕ → List SectionHeader
section_list zero off bytes = []
section_list (suc n) off bytes = listed (section_list n (off + 40) bytes) (section_header off bytes)

abbrev pub sections : PeFile → List SectionHeader
sections pe = section_list pe.coff.number_of_sections pe.sections_offset pe.bytes
