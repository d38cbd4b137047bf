-- ===== src/Loader/Load.antt =====
-- crates/quantum-loader/src/image.rs: `load`. The memory manager is a parameter: what it allocates is an
-- address and the bytes there, or an error.
use quantum.Prelude.{
  ℕ, ◌+◌, ◌-◌, ◌^◌, List, [], ◌∷◌, Option, none, some, ltb, ◌==◌, ◌||◌, if◌then◌else◌, length, take,
  drop, min, max, replicate,
}
use quantum.Prelude.Slices.{copy_to}
use quantum.Loader.Run.{Reason, malformed, host, Outcome, ok, err}
use quantum.Loader.Image.{Bitness, LoadedImage, MappedSection}
use quantum.Loader.Pe.{PeKind, PeFile, SectionHeader, sections, bound}

-- `allocate(hint, size, RW)`.
abbrev pub Allocate : Type 0
Allocate = Option ℕ → ℕ → Option (ℕ × List ℕ)

-- At the preferred address, or anywhere.
abbrev pub or_else : Option (ℕ × List ℕ) → Option (ℕ × List ℕ) → Outcome (ℕ × List ℕ)
or_else (some r) _ = ok r
or_else none (some r) = ok r
or_else none none = err host

abbrev pub allocated : Allocate → ℕ → ℕ → Outcome (ℕ × List ℕ)
allocated allocate image_base size = or_else (allocate (some image_base) size) (allocate none size)

-- The headers of the file, filled up with zeros.
abbrev pub copy_headers : ℕ → List ℕ → List ℕ → List ℕ
copy_headers headers_len raw region =
    let copied = copy_to region 0 (take (min headers_len (length raw)) raw) in
    if ltb (length raw) headers_len
    then copy_to copied (length raw) (replicate (headers_len - length raw) 0)
    else copied

abbrev pub copy_raw : SectionHeader → List ℕ → List ℕ → Outcome (List ℕ)
copy_raw sh raw region =
    if ltb 0 sh.size_of_raw_data
    then (if ltb (length raw) (sh.pointer_to_raw_data + sh.size_of_raw_data)
        then err (malformed Reason.section_raw_oob sh.pointer_to_raw_data)
        else ok (
            copy_to region sh.virtual_address
              (take sh.size_of_raw_data (drop sh.pointer_to_raw_data raw))))
    else ok region

abbrev pub virtual_extent : SectionHeader → ℕ
virtual_extent sh = max sh.virtual_size sh.size_of_raw_data

abbrev pub zero_fill : SectionHeader → List ℕ → List ℕ
zero_fill sh region =
    if ltb sh.size_of_raw_data (virtual_extent sh)
    then copy_to region (sh.virtual_address + sh.size_of_raw_data)
        (replicate (virtual_extent sh - sh.size_of_raw_data) 0)
    else region

-- The sums are of two u32 and do not overflow a usize.
unfoldable pub copy_section : SectionHeader → List ℕ → List ℕ → Outcome (List ℕ)
copy_section sh raw region =
    if ltb (length region) (sh.virtual_address + virtual_extent sh)
    then err (malformed Reason.section_virtual sh.virtual_address)
    else bound (λ copied. ok (zero_fill sh copied)) (copy_raw sh raw region)

unfoldable pub copy_sections : List SectionHeader → List ℕ → List ℕ → Outcome (List ℕ)
copy_sections [] raw region = ok region
copy_sections (sh ∷ shs) raw region = bound (copy_sections shs raw) (copy_section sh raw region)

abbrev pub mapped_section : SectionHeader → MappedSection
mapped_section sh = record {
  name = sh.name;
  rva = sh.virtual_address;
  vsize = sh.virtual_size;
  raw_size = sh.size_of_raw_data;
  characteristics = sh.characteristics;
}

abbrev pub mapped_sections : List SectionHeader → List MappedSection
mapped_sections [] = []
mapped_sections (sh ∷ shs) = mapped_section sh ∷ mapped_sections shs

abbrev pub bitness_of : PeKind → Bitness
bitness_of PeKind.pe32 = Bitness.x86
bitness_of PeKind.pe32_plus = Bitness.x86_64

abbrev pub loaded_image : PeFile → ℕ → List ℕ → LoadedImage
loaded_image pe base region = record {
  region = region;
  preferred_base = pe.opt.image_base;
  actual_base = base;
  size_of_image = pe.opt.size_of_image;
  size_of_headers = pe.opt.size_of_headers;
  entry_rva = pe.opt.address_of_entry_point;
  subsystem = pe.opt.subsystem;
  bitness = bitness_of pe.opt.kind;
  sections = mapped_sections (sections pe);
  data_directories = pe.opt.data_directories;
}

abbrev pub fill : PeFile → ℕ × List ℕ → Outcome LoadedImage
fill pe (base, region) =
    if ltb (length region) pe.opt.size_of_headers
    then err (malformed Reason.size_of_headers 0)
    else bound (λ filled. ok (loaded_image pe base filled))
        (copy_sections (sections pe) pe.bytes (copy_headers pe.opt.size_of_headers pe.bytes region))

unfoldable pub load : Allocate → PeFile → Outcome LoadedImage
load allocate pe =
    if pe.opt.size_of_image == 0 || ltb (2 ^ 31) pe.opt.size_of_image
    then err (malformed Reason.size_of_image 0)
    else bound (fill pe) (allocated allocate pe.opt.image_base pe.opt.size_of_image)
