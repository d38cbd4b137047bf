-- ===== src/Loader/Contents.antt =====
-- crates/quantum-loader/src/image.rs: an image that `load` gives, byte by byte.
use quantum.Prelude.{
  ℕ, ◌+◌, ◌-◌, ◌^◌, ◌≤◌, ◌<◌, ◌≡◌, refl, ◌∙◌, ap, subst, inl, inr, List, [], ◌∷◌, Option, some,
  false, ltb, ◌==◌, ◌||◌, if◌then◌else◌, length, get_elem?, take, drop, arith, by_test, max,
}
use quantum.Prelude.Slices.{get_elem?-take, get_elem?-drop, get_elem?-replicate, in_slice}
use quantum.Loader.Run.{Outcome, ok, err}
use quantum.Loader.Image.{LoadedImage}
use quantum.Loader.Pe.{PeFile, SectionHeader, sections}
use quantum.Loader.Headers.{header_byte, copy_headers-byte}
use quantum.Loader.Load.{Allocate, allocated, copy_headers, copy_section, copy_sections, fill, load}
use quantum.Loader.Parsed.{IfOk, bound-IfOk}
use quantum.Loader.Loaded.{Placed, section-Placed}

-- The byte at `i` under a section: a byte of the file, zero behind these up to the larger of the
-- section's sizes, and what was there before everywhere else.
abbrev pub section_byte : SectionHeader → List ℕ → ℕ → Option ℕ → Option ℕ
section_byte sh raw i before =
    if ltb i sh.virtual_address
    then before
    else (if ltb i (sh.virtual_address + sh.size_of_raw_data)
        then get_elem? raw (sh.pointer_to_raw_data + (i - sh.virtual_address))
        else (if ltb i (sh.virtual_address + max sh.virtual_size sh.size_of_raw_data)
            then some 0
            else before))

-- Of sections that overlap the last one counts.
abbrev pub mapped_byte : List SectionHeader → List ℕ → ℕ → Option ℕ → Option ℕ
mapped_byte [] raw i before = before
mapped_byte (sh ∷ shs) raw i before = mapped_byte shs raw i (section_byte sh raw i before)

Placed-byte :
    (sh : SectionHeader) (raw region region' : List ℕ) (i : ℕ)
    → Placed sh raw region region'
    → get_elem? region' i ≡ section_byte sh raw i (get_elem? region i)
Placed-byte sh raw region region' i p =
    by_test Is (ltb i sh.virtual_address) _ _ (λ t. p.others i (inl (ground (arith, t))))
      (λ f.
        by_test Is (ltb i (sh.virtual_address + sh.size_of_raw_data)) _ _
          (λ t. of_file (ground (arith, f)) (ground (arith, t)))
          (λ g.
            by_test Is (ltb i (sh.virtual_address + max sh.virtual_size sh.size_of_raw_data)) _ _
              (λ t. of_zeros (ground (arith, g)) (ground (arith, t)))
              (λ k. p.others i (inr (ground (arith, k))))))
  where
    Is : Option ℕ → Type 0
    Is o = get_elem? region' i ≡ o

    of_file :
        sh.virtual_address ≤ i
        → i < sh.virtual_address + sh.size_of_raw_data
        → get_elem? region' i ≡ get_elem? raw (sh.pointer_to_raw_data + (i - sh.virtual_address))
    of_file low high =
        in_slice region' (take sh.size_of_raw_data (drop sh.pointer_to_raw_data raw))
          sh.virtual_address sh.size_of_raw_data i p.raw_bytes low high
        ∙ get_elem?-take (drop sh.pointer_to_raw_data raw) sh.size_of_raw_data
            (i - sh.virtual_address) (omega arith)
        ∙ get_elem?-drop raw sh.pointer_to_raw_data (i - sh.virtual_address) _ refl

    of_zeros :
        sh.virtual_address + sh.size_of_raw_data ≤ i
        → i < sh.virtual_address + max sh.virtual_size sh.size_of_raw_data
        → get_elem? region' i ≡ some 0
    of_zeros low high =
        in_slice region' _ (sh.virtual_address + sh.size_of_raw_data)
          (max sh.virtual_size sh.size_of_raw_data - sh.size_of_raw_data) i p.zeros low
          (omega arith)
        ∙ get_elem?-replicate (max sh.virtual_size sh.size_of_raw_data - sh.size_of_raw_data) _
            (omega arith)

abbrev Mapped : List SectionHeader → List ℕ → List ℕ → List ℕ → Type 0
Mapped shs raw region region' =
    (i : ℕ) → get_elem? region' i ≡ mapped_byte shs raw i (get_elem? region i)

copy_sections-Mapped :
    (shs : List SectionHeader) (raw region : List ℕ)
    → IfOk (Mapped shs raw region) (copy_sections shs raw region)
unfolding copy_sections
copy_sections-Mapped [] raw region = λ i. refl
copy_sections-Mapped (sh ∷ shs) raw region =
    bound-IfOk (Placed sh raw region) (Mapped (sh ∷ shs) raw region) (copy_sections shs raw)
      (copy_section sh raw region) (section-Placed sh raw region)
      (λ region1 p.
        later region1 p (copy_sections shs raw region1) (copy_sections-Mapped shs raw region1))
  where
    later :
        (region1 : List ℕ)
        → Placed sh raw region region1
        → (o : Outcome (List ℕ)) → IfOk (Mapped shs raw region1) o
        → IfOk (Mapped (sh ∷ shs) raw region) o
    later region1 p (ok r) m =
        λ i. m i ∙ ap (mapped_byte shs raw i) (Placed-byte sh raw region region1 i p)
    later region1 p (err x) q = tt
    later region1 p Outcome.panics q = tt
    later region1 p Outcome.exhausted q = tt

-- What the bytes of an image are, over an allocation that the memory manager has given.
pub record Contains (allocate : Allocate) (pe : PeFile) (image : LoadedImage) : Type 0 where
  pub region : List ℕ
  pub given :
      allocated allocate pe.opt.image_base pe.opt.size_of_image ≡ ok (image.actual_base, region)
  pub bytes :
      (i : ℕ)
      → get_elem? image.region i
        ≡ mapped_byte
            (sections pe)
            pe.bytes
            i
            (header_byte pe.opt.size_of_headers pe.bytes i (get_elem? region i))

itself : {A : Type 0} (o : Outcome A) → IfOk (λ a. o ≡ ok a) o
itself (ok a) = refl
itself (err x) = tt
itself Outcome.panics = tt
itself Outcome.exhausted = tt

module _ (allocate : Allocate) (pe : PeFile) where
  fill-Contains :
      (r : ℕ × List ℕ)
      → allocated allocate pe.opt.image_base pe.opt.size_of_image ≡ ok r
      → IfOk (Contains allocate pe) (fill pe r)
  fill-Contains (base, region) e =
      by_test (IfOk (Contains allocate pe)) (ltb (length region) pe.opt.size_of_headers) _ _
        (λ _. tt)
        (λ f.
          bound-IfOk (Mapped (sections pe) pe.bytes start) (Contains allocate pe) _
            (copy_sections (sections pe) pe.bytes start)
            (copy_sections-Mapped (sections pe) pe.bytes start)
            (λ filled m. record {
              region = region;
              given = e;
              bytes = λ i.
                  m i
                  ∙ ap (mapped_byte (sections pe) pe.bytes i)
                      (copy_headers-byte pe.opt.size_of_headers pe.bytes region (enough f) i);
            }))
    where
      start : List ℕ
      start = copy_headers pe.opt.size_of_headers pe.bytes region

      enough :
          ltb (length region) pe.opt.size_of_headers ≡ false
          → pe.opt.size_of_headers ≤ length region
      enough f = ground (arith, f)

  load-IfOk : IfOk (Contains allocate pe) (load allocate pe)
  unfolding load
  load-IfOk =
      by_test (IfOk (Contains allocate pe))
        (pe.opt.size_of_image == 0 || ltb (2 ^ 31) pe.opt.size_of_image) _ _ (λ _. tt)
        (λ _.
          bound-IfOk _ (Contains allocate pe) (fill pe)
            (allocated allocate pe.opt.image_base pe.opt.size_of_image)
            (itself (allocated allocate pe.opt.image_base pe.opt.size_of_image)) fill-Contains)

-- Whatever the file and the memory manager, every byte of an image that `load` gives is known. A byte
-- under a section is the file's byte at the same distance from the section's raw data, and zero
-- behind the raw data up to the larger of the section's sizes; of sections that overlap the last one
-- in the table counts. Elsewhere a byte under the headers is the file's byte, or zero behind the end
-- of the file, and any other byte is that of the allocation, whose address the image has.
pub load-Contains :
    (allocate : Allocate) (pe : PeFile) {image : LoadedImage}
    → load allocate pe ≡ ok image
    → Contains allocate pe image
load-Contains allocate pe e = subst (IfOk (Contains allocate pe)) e (load-IfOk allocate pe)
