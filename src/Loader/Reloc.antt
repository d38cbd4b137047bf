-- ===== src/Loader/Reloc.antt =====
-- crates/quantum-loader/src/reloc.rs: `apply`. The checks on overflow are those of a build with
-- debug assertions; a counter stays below the size of the directory and does not overflow.
use quantum.Prelude.{
  ℕ, zero, suc, ◌+◌, ◌-◌, ◌*◌, ◌/◌, ◌%◌, ◌^◌, List, [], ◌∷◌, Option, none, some, ltb, leb, ◌==◌,
  if◌then◌else◌, le16, le32,
}
use quantum.Loader.Run.{
  Reason, Outcome, ok, err, panics, exhausted, unsupported, Run, ◌>>=◌, pure, fail,
}
use quantum.Loader.Image.{LoadedImage, DataDirectory, saturating_add, rva_to_slice, data_dir}
use quantum.Prelude.Slices.{copy_to, from_le, to_le}

pub record RelocStats : Type 0 where
  pub blocks : ℕ
  pub absolute : ℕ
  pub dir64 : ℕ
  pub highlow : ℕ

abbrev pub no_stats : RelocStats
no_stats = record { blocks = 0; absolute = 0; dir64 = 0; highlow = 0 }

-- A slice that has to be there.
abbrev pub found : Reason → ℕ → Option (List ℕ) → Run (List ℕ)
found what at none = fail what at
found what at (some slice) = pure slice

abbrev pub slice_at : Reason → ℕ → ℕ → Run (List ℕ)
slice_at what rva len region = found what rva (rva_to_slice region rva len) region

-- The wrapping addition of the delta to a slot of `n` bytes.
abbrev pub store : ℕ → RelocStats → List ℕ → Run RelocStats
store rva stats new region = (ok stats, copy_to region rva new)

abbrev pub rebase_slot : ℕ → Reason → ℕ → ℕ → RelocStats → Run RelocStats
rebase_slot n what delta rva stats = do
  slot ← slice_at what rva n
  store rva stats (to_le n ((from_le slot + delta) % 2 ^ (8 * n)))

-- One entry: the type is its upper four bits.
unfoldable pub apply_entry : ℕ → ℕ → ℕ → RelocStats → Run RelocStats
apply_entry delta page_rva raw stats =
    let target_rva = saturating_add page_rva (raw % 4096) in
    if raw / 4096 % 16 == 0
    then pure (record stats { absolute = stats.absolute + 1 })
    else if raw / 4096 % 16 == 10
    then rebase_slot 8 Reason.dir64_oob delta target_rva (record stats { dir64 = stats.dir64 + 1 })
    else if raw / 4096 % 16 == 3
    then rebase_slot 4 Reason.highlow_oob (delta % 2 ^ 32) target_rva
        (record stats { highlow = stats.highlow + 1 })
    else (λ region. (err unsupported, region))

unfoldable pub apply_entries : ℕ → ℕ → List ℕ → RelocStats → Run RelocStats
apply_entries delta page_rva [] stats = pure stats
apply_entries delta page_rva (raw ∷ raws) stats =
    apply_entry delta page_rva raw stats >>= apply_entries delta page_rva raws

-- The snapshot of the entries.
abbrev pub snapshot : List ℕ → List ℕ
snapshot (a ∷ b ∷ rest) = le16 a b ∷ snapshot rest
snapshot _ = []

abbrev pub Header : Type 0
Header = ℕ × ℕ

abbrev pub header_of : List ℕ → Header
header_of (a ∷ b ∷ c ∷ d ∷ e ∷ f ∷ g ∷ h ∷ _) = (le32 a b c d, le32 e f g h)
header_of _ = (0, 0)

-- The entries of a block; `cursor + 8` is checked.
abbrev pub block_entries : ℕ → ℕ → Run (List ℕ)
block_entries cursor entry_count =
    if ltb (cursor + 8) (2 ^ 32)
    then (if leb entry_count 2048
        then (do raw ← slice_at Reason.entries (cursor + 8) (entry_count * 2); pure (snapshot raw))
        else fail Reason.oversized cursor)
    else (λ region. (panics, region))

-- One block, from its header; the result is the next cursor and the counts.
abbrev pub block_body : ℕ → ℕ → ℕ → RelocStats → Header → Run (ℕ × RelocStats)
block_body delta cursor end stats (page_rva, block_size) =
    if ltb block_size 8
    then fail Reason.size_below_8 cursor
    else if ltb end (saturating_add cursor block_size)
    then fail Reason.past_directory cursor
    else (do
      raws ← block_entries cursor ((block_size - 8) / 2)
      stats' ← apply_entries delta page_rva raws (record stats { blocks = stats.blocks + 1 })
      pure (saturating_add cursor block_size, stats'))

unfoldable pub apply_block : ℕ → ℕ → ℕ → RelocStats → Run (ℕ × RelocStats)
apply_block delta cursor end stats = do
  header ← slice_at Reason.block_header cursor 8
  block_body delta cursor end stats (header_of header)

-- The loop, on fuel.
unfoldable pub apply_blocks : ℕ → ℕ → ℕ → ℕ → RelocStats → Run RelocStats
apply_blocks zero delta cursor end stats = λ region. (exhausted, region)
apply_blocks (suc fuel) delta cursor end stats =
    let rest = λ (r : ℕ × RelocStats). apply_blocks fuel delta r.0 end r.1 in
    if ltb cursor end then apply_block delta cursor end stats >>= rest else pure stats

-- A round takes at least one byte of the directory, or the cursor reaches the end.
abbrev pub apply_directory : ℕ → Option DataDirectory → Run RelocStats
apply_directory delta none = pure no_stats
apply_directory delta (some dir) =
    apply_blocks (dir.size + 1) delta dir.virtual_address
      (saturating_add dir.virtual_address dir.size) no_stats

-- `actual_base.wrapping_sub(preferred_base)`.
abbrev pub delta_of : LoadedImage → ℕ
delta_of image = (image.actual_base + 2 ^ 64 - image.preferred_base) % 2 ^ 64

unfoldable pub apply : LoadedImage → Outcome RelocStats × List ℕ
apply image =
    if delta_of image == 0
    then (ok no_stats, image.region)
    else apply_directory (delta_of image) (data_dir image 5) image.region
