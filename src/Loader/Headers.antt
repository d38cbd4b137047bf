-- ===== src/Loader/Headers.antt =====
-- crates/quantum-loader/src/image.rs: the bytes that `load` copies as headers.
use quantum.Prelude.{
  ℕ, ◌+◌, ◌-◌, ◌≤◌, ◌<◌, ◌≡◌, ◌∙◌, ap, inr, inl, List, Option, some, false, ltb, if◌then◌else◌,
  length, get_elem?, take, replicate, arith, by_test, ltb→lt, min,
}
use quantum.Prelude.Slices.{
  copy_to, around, length-copy_to, length-replicate, length_slice, get_elem?-take,
  get_elem?-replicate, in_copy,
}
use quantum.Loader.Load.{copy_headers}

-- The byte at `i` under the headers.
abbrev pub header_byte : ℕ → List ℕ → ℕ → Option ℕ → Option ℕ
header_byte headers_len raw i before =
    if ltb i headers_len then (if ltb i (length raw) then get_elem? raw i else some 0) else before

module _ (headers_len : ℕ) (raw region : List ℕ) (enough : headers_len ≤ length region) where
  of_raw : ℕ
  of_raw = min headers_len (length raw)

  written : List ℕ
  written = copy_to region 0 (take of_raw raw)

  length-part : length (take of_raw raw) ≡ of_raw
  unfolding of_raw
  length-part = length_slice raw 0 of_raw (omega arith)

  length-written : length written ≡ length region
  unfolding of_raw written
  length-written = length-copy_to region 0 (take of_raw raw) (omega (arith, length-part))

  written_low : (i : ℕ) → i < of_raw → get_elem? written i ≡ get_elem? raw i
  unfolding of_raw written
  written_low i h =
      in_copy region 0 (take of_raw raw) i (omega (arith, length-part)) (omega arith)
        (omega (arith, length-part))
      ∙ ap (get_elem? (take of_raw raw)) (omega arith)
      ∙ get_elem?-take raw of_raw i h

  written_high : (i : ℕ) → of_raw ≤ i → get_elem? written i ≡ get_elem? region i
  unfolding of_raw written
  written_high i h =
      around region 0 (take of_raw raw) i (omega (arith, length-part))
        (inr (omega (arith, length-part)))

  -- With the headers longer than the file.
  abbrev filled_up : List ℕ
  filled_up = copy_to written (length raw) (replicate (headers_len - length raw) 0)

  room :
      length raw < headers_len
      → length raw + length (replicate {A = ℕ} (headers_len - length raw) 0) ≤ length written
  room h =
      omega (arith, enough, length-written, length-replicate {A = ℕ} (headers_len - length raw) 0)

  filled_byte :
      (i : ℕ)
      → length raw < headers_len
      → get_elem? filled_up i ≡ header_byte headers_len raw i (get_elem? region i)
  unfolding of_raw
  filled_byte i h =
      by_test Is (ltb i headers_len) _ _
        (λ t.
          by_test Is (ltb i (length raw)) _ _
            (λ u.
              around written (length raw) zeros i (room h) (inl (ground (arith, u)))
              ∙ written_low i (ground (arith, t, u)))
            (λ f.
              in_copy written (length raw) zeros i (room h) (ground (arith, f)) (
                omega (
                  arith,
                  ltb→lt i headers_len t,
                  length-replicate {A = ℕ} (headers_len - length raw) 0,
                ))
              ∙ get_elem?-replicate (headers_len - length raw) (i - length raw)
                  (ground (arith, t, f))))
        (λ f.
          around written (length raw) zeros i (room h)
            (inr (omega (arith, above f, length-replicate {A = ℕ} (headers_len - length raw) 0)))
          ∙ written_high i (ground (arith, f)))
    where
      Is : Option ℕ → Type 0
      Is o = get_elem? filled_up i ≡ o

      zeros : List ℕ
      zeros = replicate (headers_len - length raw) 0

      above : ltb i headers_len ≡ false → headers_len ≤ i
      above f = ground (arith, f)

  written_byte :
      (i : ℕ)
      → headers_len ≤ length raw
      → get_elem? written i ≡ header_byte headers_len raw i (get_elem? region i)
  unfolding of_raw
  written_byte i h =
      by_test Is (ltb i headers_len) _ _
        (λ t.
          by_test Is (ltb i (length raw)) _ _ (λ u. written_low i (ground (arith, t, u)))
            (λ f. absurd (ground (arith, t, f))))
        (λ f. written_high i (ground (arith, f)))
    where
      Is : Option ℕ → Type 0
      Is o = get_elem? written i ≡ o

  pub copy_headers-byte :
      (i : ℕ)
      → get_elem? (copy_headers headers_len raw region) i
        ≡ header_byte headers_len raw i (get_elem? region i)
  unfolding of_raw written
  copy_headers-byte i =
      by_test (λ (r : List ℕ). get_elem? r i ≡ header_byte headers_len raw i (get_elem? region i))
        (ltb (length raw) headers_len) _ _ (λ t. filled_byte i (ground (arith, t)))
        (λ f. written_byte i (ground (arith, f)))
