-- ===== src/Tests/Loader.antt =====
-- crates/quantum-loader/src/reloc.rs: the relocation of a small image.
use quantum.Prelude.{◌≡◌, refl, [], ◌∷◌, arith}
use quantum.Loader.Run.{ok}
use quantum.Loader.Image.{Bitness, LoadedImage, DataDirectory, rva_to_slice, data_dir}
use quantum.Loader.Reloc.{apply, apply_blocks, apply_block, apply_entries, apply_entry}
use quantum.Prelude.Slices.{to_le}
use quantum.Loader.Applied.{Rebases, apply-Rebases}

-- A block for the page 0 with one HIGHLOW entry at the offset 13, and the slot behind it.
abbrev small_image : LoadedImage
small_image = record {
  region = 0 ∷ 0 ∷ 0 ∷ 0 ∷ 0 ∷ 12 ∷ 0 ∷ 0 ∷ 0 ∷ 13 ∷ 48 ∷ 0 ∷ 0 ∷ 0xF0 ∷ 0xFF ∷ 0 ∷ 0 ∷ [];
  preferred_base = 0x10000;
  actual_base = 0x30010;
  size_of_image = 17;
  size_of_headers = 0;
  entry_rva = 0;
  subsystem = 3;
  bitness = Bitness.x86;
  sections = [];
  data_directories =
      none_dir
      ∷ none_dir
      ∷ none_dir
      ∷ none_dir
      ∷ none_dir
      ∷ record { virtual_address = 1; size = 12 }
      ∷ [];
}
  where
    none_dir : DataDirectory
    none_dir = record { virtual_address = 0; size = 0 }

small_image_applied : apply small_image ≡ (
  ok (record { blocks = 1; absolute = 1; dir64 = 0; highlow = 1 }),
  0 ∷ 0 ∷ 0 ∷ 0 ∷ 0 ∷ 12 ∷ 0 ∷ 0 ∷ 0 ∷ 13 ∷ 48 ∷ 0 ∷ 0 ∷ 0 ∷ 0 ∷ 3 ∷ 0 ∷ [],
)
unfolding apply apply_blocks apply_block apply_entries apply_entry rva_to_slice data_dir to_le
small_image_applied = refl

apply-Rebases_example : Rebases small_image
apply-Rebases_example = apply-Rebases small_image (omega arith)
