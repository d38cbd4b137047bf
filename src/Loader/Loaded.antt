-- ===== src/Loader/Loaded.antt =====
-- crates/quantum-loader/src/image.rs: what `load` puts into an image.
use quantum.Prelude.{
  ℕ, ◌+◌, ◌-◌, ◌≤◌, ◌<◌, ◌≡◌, refl, sym, ◌∙◌, ap, subst, ◌⊎◌, inl, inr, List, false, ltb, length,
  get_elem?, take, drop, replicate, arith, by_test,
}
use quantum.Prelude.Slices.{
  copy_to, length-copy_to, copied, around, kept_before, length-replicate, length_slice,
}
use quantum.Loader.Run.{ok}
use quantum.Loader.Pe.{SectionHeader}
use quantum.Loader.Load.{copy_raw, virtual_extent, zero_fill, copy_section}
use quantum.Loader.Parsed.{IfOk, bound-IfOk}

-- Between two addresses of a region only.
abbrev Outside : ℕ → ℕ → List ℕ → List ℕ → Type 0
Outside from to before after =
    (i : ℕ) → (i < from) ⊎ (to ≤ i) → get_elem? after i ≡ get_elem? before i

-- A section's bytes of the file at its address, zeros behind them, and nothing else changed.
pub record Placed (sh : SectionHeader) (raw region region' : List ℕ) : Type 0 where
  pub inside : sh.virtual_address + virtual_extent sh ≤ length region
  pub same_length : length region' ≡ length region
  pub raw_bytes :
      take sh.size_of_raw_data (drop sh.virtual_address region')
      ≡ take sh.size_of_raw_data (drop sh.pointer_to_raw_data raw)
  pub zeros :
      take
        (virtual_extent sh - sh.size_of_raw_data)
        (drop (sh.virtual_address + sh.size_of_raw_data) region')
      ≡ replicate (virtual_extent sh - sh.size_of_raw_data) 0
  pub others : Outside sh.virtual_address (sh.virtual_address + virtual_extent sh) region region'

record Copied (sh : SectionHeader) (raw region region' : List ℕ) : Type 0 where
  same_length : length region' ≡ length region
  raw_bytes :
      take sh.size_of_raw_data (drop sh.virtual_address region')
      ≡ take sh.size_of_raw_data (drop sh.pointer_to_raw_data raw)
  others : Outside sh.virtual_address (sh.virtual_address + sh.size_of_raw_data) region region'

module _ (sh : SectionHeader) (raw region : List ℕ)
    (inside : sh.virtual_address + virtual_extent sh ≤ length region) where
  abbrev slice : List ℕ
  slice = take sh.size_of_raw_data (drop sh.pointer_to_raw_data raw)

  slice-Copied :
      sh.pointer_to_raw_data + sh.size_of_raw_data ≤ length raw
      → Copied sh raw region (
          copy_to region sh.virtual_address
            (take sh.size_of_raw_data (drop sh.pointer_to_raw_data raw)))
  slice-Copied h = record {
    same_length = length-copy_to region sh.virtual_address slice room;
    raw_bytes =
        ap (λ k. take k (drop sh.virtual_address (copy_to region sh.virtual_address slice)))
          (sym long)
        ∙ copied region sh.virtual_address slice room;
    others = λ i p.
        around region sh.virtual_address slice i room
          (elim p [ inl q ↦ inl q | inr q ↦ inr (omega (arith, q, long)) ]);
  }
    where
      long : length slice ≡ sh.size_of_raw_data
      long = length_slice raw sh.pointer_to_raw_data sh.size_of_raw_data h

      room : sh.virtual_address + length slice ≤ length region
      room = omega (arith, long, inside)

  copy_raw-Copied : IfOk (Copied sh raw region) (copy_raw sh raw region)
  copy_raw-Copied =
      by_test (IfOk (Copied sh raw region)) (ltb 0 sh.size_of_raw_data) _ _
        (λ _.
          by_test (IfOk (Copied sh raw region))
            (ltb (length raw) (sh.pointer_to_raw_data + sh.size_of_raw_data)) _ _ (λ _. tt)
            (λ f. slice-Copied (ground (arith, f))))
        (λ f. record {
          same_length = refl;
          raw_bytes =
              ap (λ k. take k (drop sh.virtual_address region)) (none_of f)
              ∙ ap (λ k. take k (drop sh.pointer_to_raw_data raw)) (sym (none_of f));
          others = λ i p. refl;
        })
    where
      none_of : ltb 0 sh.size_of_raw_data ≡ false → sh.size_of_raw_data ≡ 0
      none_of f = ground (arith, f)

  zero_fill-Placed :
      (region1 : List ℕ)
      → Copied sh raw region region1
      → Placed sh raw region (zero_fill sh region1)
  zero_fill-Placed region1 c =
      by_test (Placed sh raw region) (ltb sh.size_of_raw_data (virtual_extent sh)) _ _
        (λ t. record {
          inside = inside;
          same_length = length-copy_to region1 at fill_bytes room ∙ c.same_length;
          raw_bytes =
              kept_before region1 at sh.virtual_address sh.size_of_raw_data fill_bytes
                (omega (arith, inside, c.same_length)) (omega arith)
              ∙ c.raw_bytes;
          zeros =
              ap (λ k. take k (drop at (copy_to region1 at fill_bytes))) (sym long)
              ∙ copied region1 at fill_bytes room;
          others = λ i p.
              around region1 at fill_bytes i room
                (elim p [ inl q ↦ inl (omega (arith, q)) | inr q ↦ inr (omega (arith, q, long)) ])
              ∙ c.others i (elim p [ inl q ↦ inl q | inr q ↦ inr (omega (arith, q)) ]);
        })
        (λ f. record {
          inside = inside;
          same_length = c.same_length;
          raw_bytes = c.raw_bytes;
          zeros =
              ap (λ k. take k (drop at region1)) (full f) ∙ ap (λ k. replicate k 0) (sym (full f));
          others = λ i p. c.others i (elim p [ inl q ↦ inl q | inr q ↦ inr (omega (arith, q)) ]);
        })
    where
      at : ℕ
      at = sh.virtual_address + sh.size_of_raw_data

      fill_bytes : List ℕ
      fill_bytes = replicate (virtual_extent sh - sh.size_of_raw_data) 0

      long : length fill_bytes ≡ virtual_extent sh - sh.size_of_raw_data
      long = length-replicate (virtual_extent sh - sh.size_of_raw_data) 0

      room : at + length fill_bytes ≤ length region1
      room = omega (arith, long, inside, c.same_length)

      full :
          ltb sh.size_of_raw_data (virtual_extent sh) ≡ false
          → virtual_extent sh - sh.size_of_raw_data ≡ 0
      full f = ground (arith, f)

pub section-Placed :
    (sh : SectionHeader) (raw region : List ℕ)
    → IfOk (Placed sh raw region) (copy_section sh raw region)
unfolding copy_section
section-Placed sh raw region =
    by_test (IfOk (Placed sh raw region))
      (ltb (length region) (sh.virtual_address + virtual_extent sh)) _ _ (λ _. tt)
      (λ f.
        bound-IfOk (Copied sh raw region) (Placed sh raw region) _ (copy_raw sh raw region)
          (copy_raw-Copied sh raw region (ground (arith, f)))
          (λ region1 c. zero_fill-Placed sh raw region (ground (arith, f)) region1 c))

-- A section that is copied lies inside of the region; there its bytes of the file stand, with zeros
-- behind them up to the larger of its sizes, and no byte outside of this range has changed.
pub copy_section-Placed :
    (sh : SectionHeader) (raw region : List ℕ) {region' : List ℕ}
    → copy_section sh raw region ≡ ok region'
    → Placed sh raw region region'
copy_section-Placed sh raw region e =
    subst (IfOk (Placed sh raw region)) e (section-Placed sh raw region)
