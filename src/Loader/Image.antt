-- ===== src/Loader/Image.antt =====
-- crates/quantum-loader/src/image.rs: a mapped image, its slices, sections and directories. The
-- region is its list of bytes.
use quantum.Prelude.{
  ℕ, ◌+◌, ◌/◌, ◌%◌, ◌^◌, ◌-◌, List, [], ◌∷◌, Option, none, some, Bool, true, false, not, ◌&&◌, ltb,
  leb, ◌==◌, if◌then◌else◌, length, get_elem?, take, drop, min, max,
}

pub record DataDirectory : Type 0 where
  pub virtual_address : ℕ
  pub size : ℕ

pub record MappedSection : Type 0 where
  pub name : List ℕ
  pub rva : ℕ
  pub vsize : ℕ
  pub raw_size : ℕ
  pub characteristics : ℕ

pub data Bitness : Type 0 where
  x86 x86_64 : Bitness

pub record LoadedImage : Type 0 where
  pub region : List ℕ
  pub preferred_base : ℕ
  pub actual_base : ℕ
  pub size_of_image : ℕ
  pub size_of_headers : ℕ
  pub entry_rva : ℕ
  pub subsystem : ℕ
  pub bitness : Bitness
  pub sections : List MappedSection
  pub data_directories : List DataDirectory

-- `saturating_add` on u32.
abbrev pub saturating_add : ℕ → ℕ → ℕ
saturating_add a b = min (a + b) (2 ^ 32 - 1)

-- `rva_to_slice`; the sum of a u32 and of a small length does not overflow a usize.
unfoldable pub rva_to_slice : List ℕ → ℕ → ℕ → Option (List ℕ)
rva_to_slice region rva len =
    if leb (rva + len) (length region) then some (take len (drop rva region)) else none

unfoldable pub data_dir : LoadedImage → ℕ → Option DataDirectory
data_dir image index = present (get_elem? image.data_directories index)
  where
    present : Option DataDirectory → Option DataDirectory
    present none = none
    present (some d) = if not (d.virtual_address == 0) && not (d.size == 0) then some d else none

unfoldable pub contains_rva : MappedSection → ℕ → Bool
contains_rva s rva = leb s.rva rva && ltb rva (saturating_add s.rva (max s.vsize s.raw_size))

unfoldable pub section_at : List MappedSection → ℕ → Option MappedSection
section_at [] rva = none
section_at (s ∷ ss) rva = if contains_rva s rva then some s else section_at ss rva

pub data Protection : Type 0 where
  no_access r rw rx rwx : Protection

-- MEM_READ, MEM_WRITE and MEM_EXECUTE are the bits 30, 31 and 29.
abbrev pub bit : ℕ → ℕ → Bool
bit n c = c / 2 ^ n % 2 == 1

abbrev pub by_bits : Bool → Bool → Bool → Protection
by_bits _ true true = Protection.rwx
by_bits _ true false = Protection.rw
by_bits _ false true = Protection.rx
by_bits true false false = Protection.r
by_bits false false false = Protection.no_access

unfoldable pub protection : MappedSection → Protection
protection s =
    by_bits (bit 30 s.characteristics) (bit 31 s.characteristics) (bit 29 s.characteristics)
