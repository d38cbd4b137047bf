-- ===== src/Loader/Applied.antt =====
-- crates/quantum-loader/src/reloc.rs: what `apply` does to the bytes of an image.
use quantum.Prelude.{
  ℕ, zero, suc, ◌+◌, ◌-◌, ◌*◌, ◌/◌, ◌%◌, ◌^◌, ◌≤◌, ◌<◌, ◌≡◌, refl, sym, subst, ◌⊎◌, inl, inr, List,
  [], ◌∷◌, Option, none, some, false, ltb, leb, ltb→lt, leb→le, ◌==◌, length, take, drop, arith,
  by_test,
}
use quantum.Loader.Run.{Reason, Outcome, ok, err, panics, exhausted, Run, and_then}
use quantum.Loader.Image.{LoadedImage, DataDirectory, saturating_add, rva_to_slice, data_dir}
use quantum.Loader.Reloc.{
  RelocStats, no_stats, found, slice_at, apply_entry, apply_entries, Header, header_of,
  block_entries, block_body, apply_block, apply_blocks, apply_directory, delta_of, apply,
}
use quantum.Prelude.Slices.{copy_to, from_le, to_le}
use quantum.Loader.Rebased.{
  Rebased, untouched, dir64, highlow, Rebased-length, slot-Moves_8, slot-Moves_4,
}

module _ (delta : ℕ) (start : List ℕ) where
  -- How a run may end, with what holds of its result and the bytes.
  abbrev Ends : {A : Type 0} → (A → List ℕ → Type 0) → Outcome A × List ℕ → Type 0
  Ends Q (ok a, bytes) = Q a bytes
  Ends Q (err e, bytes) = (m : ℕ) × (n : ℕ) × Rebased delta start m n bytes
  Ends Q (panics, bytes) = ⊥
  Ends Q (exhausted, bytes) = ⊥

  abbrev Counted : RelocStats → List ℕ → Type 0
  Counted s bytes = Rebased delta start s.dir64 s.highlow bytes

  and_then-Ends :
      {A B : Type 0} (Q : A → List ℕ → Type 0) (R : B → List ℕ → Type 0) (f : A → Run B)
      (r : Outcome A × List ℕ)
      → Ends Q r
      → ((a : A) (bytes : List ℕ) → Q a bytes → Ends R (f a bytes))
      → Ends R (and_then f r)
  and_then-Ends Q R f (ok a, bytes) p g = g a bytes p
  and_then-Ends Q R f (err e, bytes) p g = p
  and_then-Ends Q R f (panics, bytes) p g = p
  and_then-Ends Q R f (exhausted, bytes) p g = p

  abbrev Slice : ℕ → ℕ → List ℕ → List ℕ → List ℕ → Type 0
  Slice rva n bytes slot bytes' =
      (bytes' ≡ bytes) × (rva + n ≤ length bytes) × (slot ≡ take n (drop rva bytes))

  slice_at-Ends :
      (what : Reason) (rva len : ℕ) (bytes : List ℕ) {m n : ℕ}
      → Rebased delta start m n bytes
      → Ends (Slice rva len bytes) (slice_at what rva len bytes)
  unfolding rva_to_slice
  slice_at-Ends what rva len bytes {m = m} {n = n} r =
      by_test (λ o. Ends (Slice rva len bytes) (found what rva o bytes))
        (leb (rva + len) (length bytes)) _ _
        (λ t. (refl, leb→le (rva + len) (length bytes) t, refl)) (λ f. (m, n, r))

  dir64-slot :
      (rva : ℕ) (slot bytes' bytes : List ℕ) {m n : ℕ}
      → bytes' ≡ bytes
      → slot ≡ take 8 (drop rva bytes)
      → Rebased delta start m n bytes
      → rva + 8 ≤ length bytes
      → Rebased delta start
          (m + 1)
          n
          (copy_to bytes' rva (to_le 8 ((from_le slot + delta) % 2 ^ 64)))
  dir64-slot rva slot bytes' bytes {m = m} {n = n} q s r h =
      subst
        (λ t.
          Rebased delta start (m + 1) n
            (copy_to bytes' rva (to_le 8 ((from_le t + delta) % 2 ^ 64))))
        (sym s)
        (subst
          (λ b.
            Rebased delta start (m + 1) n
              (copy_to b rva (to_le 8 ((from_le (take 8 (drop rva bytes)) + delta) % 2 ^ 64))))
          (sym q) (dir64 rva r (slot-Moves_8 delta rva bytes h)))

  highlow-slot :
      (rva : ℕ) (slot bytes' bytes : List ℕ) {m n : ℕ}
      → bytes' ≡ bytes
      → slot ≡ take 4 (drop rva bytes)
      → Rebased delta start m n bytes
      → rva + 4 ≤ length bytes
      → Rebased delta start m
          (n + 1)
          (copy_to bytes' rva (to_le 4 ((from_le slot + delta % 2 ^ 32) % 2 ^ 32)))
  highlow-slot rva slot bytes' bytes {m = m} {n = n} q s r h =
      subst
        (λ t.
          Rebased delta start m (n + 1)
            (copy_to bytes' rva (to_le 4 ((from_le t + delta % 2 ^ 32) % 2 ^ 32))))
        (sym s)
        (subst
          (λ b. Rebased delta start m (n + 1) (
            copy_to b rva
              (to_le 4 ((from_le (take 4 (drop rva bytes)) + delta % 2 ^ 32) % 2 ^ 32))))
          (sym q) (highlow rva r (slot-Moves_4 (delta % 2 ^ 32) rva bytes h)))

  entry-Ends :
      (page_rva raw : ℕ) (stats : RelocStats) (bytes : List ℕ)
      → Counted stats bytes
      → Ends Counted (apply_entry delta page_rva raw stats bytes)
  unfolding apply_entry
  entry-Ends page_rva raw stats bytes r =
      by_test (λ (k : Run RelocStats). Ends Counted (k bytes)) (raw / 4096 % 16 == 0) _ _ (λ _. r)
        (λ _.
          by_test (λ (k : Run RelocStats). Ends Counted (k bytes)) (raw / 4096 % 16 == 10) _ _
            (λ _.
              and_then-Ends (Slice target 8 bytes) Counted _ _
                (slice_at-Ends Reason.dir64_oob target 8 bytes r)
                (λ slot bytes' (q, h, s). dir64-slot target slot bytes' bytes q s r h))
            (λ _.
              by_test (λ (k : Run RelocStats). Ends Counted (k bytes)) (raw / 4096 % 16 == 3) _ _
                (λ _.
                  and_then-Ends (Slice target 4 bytes) Counted _ _
                    (slice_at-Ends Reason.highlow_oob target 4 bytes r)
                    (λ slot bytes' (q, h, s). highlow-slot target slot bytes' bytes q s r h))
                (λ _. (stats.dir64, stats.highlow, r))))
    where
      target : ℕ
      target = saturating_add page_rva (raw % 4096)

  entries-Ends :
      (page_rva : ℕ) (raws : List ℕ) (stats : RelocStats) (bytes : List ℕ)
      → Counted stats bytes
      → Ends Counted (apply_entries delta page_rva raws stats bytes)
  unfolding apply_entries
  entries-Ends page_rva [] stats bytes r = r
  entries-Ends page_rva (raw ∷ raws) stats bytes r =
      and_then-Ends Counted Counted (apply_entries delta page_rva raws) _
        (entry-Ends page_rva raw stats bytes r) (entries-Ends page_rva raws)

  abbrev Kept : ℕ → ℕ → List ℕ → List ℕ → Type 0
  Kept m n raws bytes = Rebased delta start m n bytes

  entry_list-Ends :
      (cursor count : ℕ) (bytes : List ℕ) {m n : ℕ}
      → cursor + 8 < 2 ^ 32
      → Rebased delta start m n bytes
      → Ends (Kept m n) (block_entries cursor count bytes)
  entry_list-Ends cursor count bytes {m = m} {n = n} small r =
      by_test (λ (k : Run (List ℕ)). Ends (Kept m n) (k bytes)) (ltb (cursor + 8) (2 ^ 32)) _ _
        (λ _.
          by_test (λ (k : Run (List ℕ)). Ends (Kept m n) (k bytes)) (leb count 2048) _ _
            (λ _.
              and_then-Ends (Slice (cursor + 8) (count * 2) bytes) (Kept m n) _ _
                (slice_at-Ends Reason.entries (cursor + 8) (count * 2) bytes r)
                (λ raw bytes' (q, h, s). subst (Rebased delta start m n) (sym q) r))
            (λ _. (m, n, r)))
        (λ f. absurd (ground (arith, f, small)))

  -- The cursor moves on, or has come to the largest u32.
  abbrev Advanced : ℕ → ℕ × RelocStats → List ℕ → Type 0
  Advanced cursor (next, stats) bytes =
      Counted stats bytes × ((cursor + 8 ≤ next) ⊎ (2 ^ 32 ≤ next + 1))

  body-Ends :
      (cursor end : ℕ) (stats : RelocStats) (h : Header) (bytes : List ℕ)
      → cursor + 8 < 2 ^ 32
      → Counted stats bytes
      → Ends (Advanced cursor) (block_body delta cursor end stats h bytes)
  body-Ends cursor end stats (page_rva, block_size) bytes small r =
      by_test (λ (k : Run (ℕ × RelocStats)). Ends (Advanced cursor) (k bytes)) (ltb block_size 8) _
        _ (λ _. (stats.dir64, stats.highlow, r))
        (λ f.
          by_test (λ (k : Run (ℕ × RelocStats)). Ends (Advanced cursor) (k bytes))
            (ltb end (saturating_add cursor block_size)) _ _ (λ _. (stats.dir64, stats.highlow, r))
            (λ _.
              and_then-Ends (Kept stats.dir64 stats.highlow) (Advanced cursor) _ _
                (entry_list-Ends cursor ((block_size - 8) / 2) bytes small r)
                (λ raws bytes' r'.
                  and_then-Ends Counted (Advanced cursor) _ _
                    (entries-Ends page_rva raws (record stats { blocks = stats.blocks + 1 }) bytes'
                      r')
                    (λ stats' bytes'' r''. (r'', moves_on f)))))
    where
      moves_on :
          ltb block_size 8 ≡ false
          → (cursor + 8 ≤ saturating_add cursor block_size)
            ⊎ (2 ^ 32 ≤ saturating_add cursor block_size + 1)
      moves_on f = ground (arith, f)

  module _ (small : length start < 2 ^ 32) where
    block-Ends :
        (cursor end : ℕ) (stats : RelocStats) (bytes : List ℕ)
        → Counted stats bytes
        → Ends (Advanced cursor) (apply_block delta cursor end stats bytes)
    unfolding apply_block
    block-Ends cursor end stats bytes r =
        and_then-Ends (Slice cursor 8 bytes) (Advanced cursor) _ _
          (slice_at-Ends Reason.block_header cursor 8 bytes r)
          (λ header bytes' (q, h, s).
            body-Ends cursor end stats (header_of header) bytes'
              (omega (arith, small, h, Rebased-length r))
              (subst (Rebased delta start stats.dir64 stats.highlow) (sym q) r))

    blocks-Ends :
        (fuel cursor end : ℕ) (stats : RelocStats) (bytes : List ℕ)
        → end ≤ cursor + fuel
        → end < 2 ^ 32
        → Counted stats bytes
        → Ends Counted (apply_blocks (suc fuel) delta cursor end stats bytes)
    unfolding apply_blocks
    blocks-Ends zero cursor end stats bytes p l r =
        by_test (λ (k : Run RelocStats). Ends Counted (k bytes)) (ltb cursor end) _ _
          (λ t. absurd (omega (arith, p, ltb→lt cursor end t))) (λ _. r)
    blocks-Ends (suc fuel) cursor end stats bytes p l r =
        by_test (λ (k : Run RelocStats). Ends Counted (k bytes)) (ltb cursor end) _ _
          (λ t.
            and_then-Ends (Advanced cursor) Counted (λ x. apply_blocks (suc fuel) delta x.0 end x.1)
              _ (block-Ends cursor end stats bytes r)
              (λ x bytes' a.
                blocks-Ends fuel x.0 end x.1 bytes' (enough x.0 (ltb→lt cursor end t) a.1) l a.0))
          (λ _. r)
      where
        enough :
            (next : ℕ)
            → cursor < end
            → (cursor + 8 ≤ next) ⊎ (2 ^ 32 ≤ next + 1)
            → end ≤ next + fuel
        enough next c (inl q) = omega (arith, c, q, p)
        enough next c (inr q) = omega (arith, c, q, p, l)

    directory-Ends : (d : Option DataDirectory) → Ends Counted (apply_directory delta d start)
    directory-Ends none = untouched
    directory-Ends (some d) =
        subst
          (λ k. Ends Counted (
            apply_blocks k delta d.virtual_address (saturating_add d.virtual_address d.size)
              no_stats start))
          (omega arith)
          (blocks-Ends d.size d.virtual_address (saturating_add d.virtual_address d.size) no_stats
            start (omega arith) (omega arith) untouched)

-- The run on the image's bytes.
abbrev pub Rebases : LoadedImage → Type 0
Rebases image =
    Ends (delta_of image) image.region (Counted (delta_of image) image.region) (apply image)

-- On an image shorter than 2^32 bytes, whatever they are, `apply` neither panics nor runs out of its
-- fuel. Up to its end, with counts or with an error, it has only moved slots inside of the image,
-- one after the other, by the delta, and left each byte outside of a slot as it was; the counts are
-- the numbers of the DIR64 and HIGHLOW slots.
pub apply-Rebases : (image : LoadedImage) → length image.region < 2 ^ 32 → Rebases image
unfolding apply
apply-Rebases image small =
    by_test (Ends delta image.region (Counted delta image.region)) (delta == 0) _ _ (λ _. untouched)
      (λ _. directory-Ends delta image.region small (data_dir image 5))
  where
    delta : ℕ
    delta = delta_of image
