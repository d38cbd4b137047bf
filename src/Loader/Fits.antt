-- ===== src/Loader/Fits.antt =====
-- crates/quantum-loader/src: images that `load` gives.
use quantum.Prelude.{
  ℕ, ◌+◌, ◌-◌, ◌^◌, ◌≤◌, ◌<◌, ◌≡◌, refl, sym, ◌∙◌, subst, List, [], ◌∷◌, Option, none, some, true,
  false, ltb, ◌==◌, ◌||◌, length, take, replicate, arith, by_test, All, min, max,
}
use quantum.Prelude.Slices.{copy_to, length-copy_to, length-replicate, length_slice}
use quantum.Loader.Run.{Outcome, ok, err}
use quantum.Loader.Image.{LoadedImage, MappedSection}
use quantum.Loader.Pe.{PeFile, SectionHeader, sections}
use quantum.Loader.Load.{
  Allocate, or_else, allocated, copy_headers, copy_section, copy_sections, mapped_sections, fill,
  load,
}
use quantum.Loader.Parsed.{IfOk, bound-IfOk}
use quantum.Loader.Loaded.{Placed, section-Placed}

-- An allocation has the size that was asked for.
abbrev pub IsSized : Allocate → Type 0
IsSized allocate =
    (hint : Option ℕ) (size base : ℕ) (region : List ℕ)
    → allocate hint size ≡ some (base, region)
    → length region ≡ size

abbrev pub Extents : ℕ → List MappedSection → Type 0
Extents size ss = All (λ (s : MappedSection). s.rva + max s.vsize s.raw_size ≤ size) ss

length-copy_headers :
    (headers_len : ℕ) (raw region : List ℕ)
    → headers_len ≤ length region
    → length (copy_headers headers_len raw region) ≡ length region
length-copy_headers headers_len raw region h =
    by_test (λ (r : List ℕ). length r ≡ length region) (ltb (length raw) headers_len) _ _
      (λ t.
        length-copy_to copied (length raw) (replicate (headers_len - length raw) 0)
          (omega (arith, h, first, length-replicate {A = ℕ} (headers_len - length raw) 0, less t))
        ∙ first)
      (λ _. first)
  where
    part : List ℕ
    part = take (min headers_len (length raw)) raw

    copied : List ℕ
    copied = copy_to region 0 part

    first : length copied ≡ length region
    first =
        length-copy_to region 0 part
          (omega (arith, h, length_slice raw 0 (min headers_len (length raw)) (omega arith)))

    less : ltb (length raw) headers_len ≡ true → length raw < headers_len
    less t = ground (arith, t)

abbrev AllInside : List SectionHeader → List ℕ → List ℕ → Type 0
AllInside shs region region' =
    (length region' ≡ length region) × Extents (length region) (mapped_sections shs)

copy_sections-AllInside :
    (shs : List SectionHeader) (raw region : List ℕ)
    → IfOk (AllInside shs region) (copy_sections shs raw region)
unfolding copy_sections
copy_sections-AllInside [] raw region = (refl, tt)
copy_sections-AllInside (sh ∷ shs) raw region =
    bound-IfOk (Placed sh raw region) (AllInside (sh ∷ shs) region) (copy_sections shs raw)
      (copy_section sh raw region) (section-Placed sh raw region)
      (λ region1 p.
        widen region1 p (copy_sections shs raw region1) (copy_sections-AllInside shs raw region1))
  where
    widen :
        (region1 : List ℕ)
        → Placed sh raw region region1
        → (o : Outcome (List ℕ)) → IfOk (AllInside shs region1) o
        → IfOk (AllInside (sh ∷ shs) region) o
    widen region1 p (ok r) (l, e) = (
      l ∙ p.same_length,
      (p.inside, subst (λ n. Extents n (mapped_sections shs)) p.same_length e),
    )
    widen region1 p (err x) q = tt
    widen region1 p Outcome.panics q = tt
    widen region1 p Outcome.exhausted q = tt

-- What `load` gives.
pub record Fits (pe : PeFile) (image : LoadedImage) : Type 0 where
  pub size : length image.region ≡ pe.opt.size_of_image
  pub bounded : length image.region ≤ 2 ^ 31
  pub headers : pe.opt.size_of_headers ≤ length image.region
  pub extents : Extents (length image.region) image.sections

module _ (allocate : Allocate) (sized : IsSized allocate) (pe : PeFile) where
  abbrev Given : ℕ × List ℕ → Type 0
  Given (base, region) = length region ≡ pe.opt.size_of_image

  or_else-Given :
      (a b : Option (ℕ × List ℕ))
      → ((r : ℕ × List ℕ) → a ≡ some r → Given r)
      → ((r : ℕ × List ℕ) → b ≡ some r → Given r)
      → IfOk Given (or_else a b)
  or_else-Given (some r) b f g = f r refl
  or_else-Given none (some r) f g = g r refl
  or_else-Given none none f g = tt

  fill-Fits :
      (r : ℕ × List ℕ) → pe.opt.size_of_image ≤ 2 ^ 31 → Given r → IfOk (Fits pe) (fill pe r)
  fill-Fits (base, region) small given =
      by_test (IfOk (Fits pe)) (ltb (length region) pe.opt.size_of_headers) _ _ (λ _. tt)
        (λ f.
          bound-IfOk (AllInside (sections pe) start) (Fits pe) _
            (copy_sections (sections pe) pe.bytes start)
            (copy_sections-AllInside (sections pe) pe.bytes start)
            (λ filled s. record {
              size = omega (arith, s.0, kept f, given);
              bounded = omega (arith, s.0, kept f, given, small);
              headers = omega (arith, s.0, kept f, enough f);
              extents = subst (λ n. Extents n (mapped_sections (sections pe))) (sym s.0) s.1;
            }))
    where
      start : List ℕ
      start = copy_headers pe.opt.size_of_headers pe.bytes region

      enough :
          ltb (length region) pe.opt.size_of_headers ≡ false
          → pe.opt.size_of_headers ≤ length region
      enough f = ground (arith, f)

      kept : ltb (length region) pe.opt.size_of_headers ≡ false → length start ≡ length region
      kept f = length-copy_headers pe.opt.size_of_headers pe.bytes region (enough f)

  load-IfOk : IfOk (Fits pe) (load allocate pe)
  unfolding load
  load-IfOk =
      by_test (IfOk (Fits pe)) (pe.opt.size_of_image == 0 || ltb (2 ^ 31) pe.opt.size_of_image) _ _
        (λ _. tt)
        (λ f.
          bound-IfOk Given (Fits pe) (fill pe)
            (allocated allocate pe.opt.image_base pe.opt.size_of_image)
            (or_else-Given (allocate (some pe.opt.image_base) pe.opt.size_of_image)
              (allocate none pe.opt.size_of_image)
              (λ r e. sized (some pe.opt.image_base) pe.opt.size_of_image r.0 r.1 e)
              (λ r e. sized none pe.opt.size_of_image r.0 r.1 e))
            (λ r g. fill-Fits r (ground (arith, f)) g))

-- With an allocator whose allocations have the size that was asked for, an image that `load` gives
-- has the size of the header, at most 2^31 bytes, and the headers and every section lie inside of it.
pub load-Fits :
    (allocate : Allocate)
    → IsSized allocate
    → (pe : PeFile) {image : LoadedImage} → load allocate pe ≡ ok image
    → Fits pe image
load-Fits allocate sized pe e = subst (IfOk (Fits pe)) e (load-IfOk allocate sized pe)
