-- ===== src/Loader/Handlers.antt =====
-- crates/quantum-loader/src/exception.rs: what `parse` and `resolve_handler` come to.
use quantum.Prelude.{
  ℕ, zero, suc, ◌+◌, ◌*◌, ◌/◌, ◌%◌, ◌≤◌, ◌≡◌, refl, ap, List, [], ◌∷◌, Option, none, some, Bool,
  ltb, leb, leb→le, not, ◌==◌, ◌&&◌, length, arith, by_test,
}
use quantum.Prelude.Slices.{length_slice}
use quantum.Loader.Run.{Reason, Outcome, ok, err, panics, exhausted}
use quantum.Loader.Image.{LoadedImage, DataDirectory, rva_to_slice, data_dir}
use quantum.Loader.Pe.{bound}
use quantum.Loader.Exception.{
  RuntimeFunction, present, image_slice, parse_functions, parse_directory, parse_exceptions,
  UnwindInfo, has_handler, has_chain, parse_trailer, codes_size, parse_codes, parse_unwind_info,
  Resolved, follow, resolve_loop, resolve_handler,
}

-- A result with a property, or an error; no panic, and no loop that has run out.
abbrev pub Answers : {A : Type 0} → (A → Type 0) → Outcome A → Type 0
Answers P (ok a) = P a
Answers P (err e) = Unit {0}
Answers P panics = ⊥
Answers P exhausted = ⊥

bound-Answers :
    {A B : Type 0} (Q : A → Type 0) (P : B → Type 0) (f : A → Outcome B) (o : Outcome A)
    → Answers Q o
    → ((a : A) → o ≡ ok a → Q a → Answers P (f a))
    → Answers P (bound f o)
bound-Answers Q P f (ok a) q g = g a refl q
bound-Answers Q P f (err e) q g = tt
bound-Answers Q P f panics q g = q
bound-Answers Q P f exhausted q g = q

abbrev Any : {A : Type 0} → A → Type 0
Any a = Unit {0}

slice-Answers :
    (image : LoadedImage) (what : Reason) (rva len : ℕ)
    → Answers (λ (b : List ℕ). length b ≡ len) (image_slice image what rva len)
unfolding rva_to_slice
slice-Answers image what rva len =
    by_test (λ o. Answers (λ (b : List ℕ). length b ≡ len) (present what rva o))
      (leb (rva + len) (length image.region)) _ _
      (λ t. length_slice image.region rva len (leb→le (rva + len) (length image.region) t))
      (λ _. tt)

trailer-Answers :
    (image : LoadedImage) (flags off : ℕ) → Answers Any (parse_trailer image flags off)
trailer-Answers image flags off =
    by_test (Answers Any) (has_chain flags) _ _
      (λ _.
        bound-Answers (λ (b : List ℕ). length b ≡ 12) Any _ _
          (slice-Answers image Reason.chained_oob off 12) (λ _ _ _. tt))
      (λ _.
        by_test (Answers Any) (has_handler flags) _ _
          (λ _.
            bound-Answers (λ (b : List ℕ). length b ≡ 4) Any _ _
              (slice-Answers image Reason.handler_oob off 4) (λ _ _ _. tt))
          (λ _. tt))

codes-Answers :
    (image : LoadedImage) (rva : ℕ) (header : List ℕ)
    → length header ≡ 4
    → Answers Any (parse_codes image rva header)
codes-Answers image rva [] h = absurd (omega (arith, h))
codes-Answers image rva (a ∷ []) h = absurd (omega (arith, h))
codes-Answers image rva (a ∷ b ∷ []) h = absurd (omega (arith, h))
codes-Answers image rva (a ∷ b ∷ c ∷ []) h = absurd (omega (arith, h))
codes-Answers image rva (a ∷ b ∷ c ∷ d ∷ rest) h =
    by_test (Answers Any) (not (a % 8 == 1) && not (a % 8 == 2)) _ _ (λ _. tt)
      (λ _.
        bound-Answers (λ (x : List ℕ). length x ≡ codes_size c) Any _ _
          (slice-Answers image Reason.unwind_codes (rva + 4) (codes_size c))
          (λ codes _ _.
            bound-Answers Any Any _ _ (trailer-Answers image (a / 8 % 32) (rva + 4 + codes_size c))
              (λ _ _ _. tt)))

info-Answers : (image : LoadedImage) (rva : ℕ) → Answers Any (parse_unwind_info image rva)
unfolding parse_unwind_info
info-Answers image rva =
    bound-Answers (λ (b : List ℕ). length b ≡ 4) Any (parse_codes image rva) _
      (slice-Answers image Reason.unwind_header rva 4)
      (λ header _ h. codes-Answers image rva header h)

-- The record of a function without a link to another one.
abbrev pub Terminal : LoadedImage → Resolved → Type 0
Terminal image (ui, f) =
    (parse_unwind_info image f.unwind_info_rva ≡ ok ui) × (ui.chained_function ≡ none)

loop-Answers :
    (fuel : ℕ) (image : LoadedImage) (seen : ℕ) (current : RuntimeFunction)
    → 17 ≤ fuel + seen
    → 1 ≤ fuel
    → Answers (Terminal image) (resolve_loop fuel image seen current)
unfolding resolve_loop
loop-Answers zero image seen current h p = absurd (omega (arith, p))
loop-Answers (suc fuel) image seen current h p =
    by_test (Answers (Terminal image)) (ltb 16 (seen + 1)) _ _ (λ _. tt)
      (λ f.
        bound-Answers Any (Terminal image) _ (parse_unwind_info image current.unwind_info_rva)
          (info-Answers image current.unwind_info_rva)
          (λ ui e _.
            go ui e (loop-Answers fuel image (seen + 1)) ui.chained_function refl
              (ground (arith, f, h))))
  where
    go :
        (ui : UnwindInfo)
        → parse_unwind_info image current.unwind_info_rva ≡ ok ui
        → ((next : RuntimeFunction)
            → 17 ≤ fuel + (seen + 1)
            → 1 ≤ fuel
            → Answers (Terminal image) (resolve_loop fuel image (seen + 1) next))
        → (chained : Option RuntimeFunction) → ui.chained_function ≡ chained
        → 1 ≤ fuel
        → Answers (Terminal image) (
            follow
              (λ (f : RuntimeFunction). resolve_loop fuel image (seen + 1) f)
              current
              ui
              chained)
    go ui e k none c q = (e, c)
    go ui e k (some next) c q = k next (omega (arith, h)) q

-- `resolve_handler` ends on every image, also on one with a cycle of links: with an error, or with
-- the record of a function that has no link, and with that function.
pub resolve_handler-Answers :
    (image : LoadedImage) (starting : RuntimeFunction)
    → Answers (Terminal image) (resolve_handler image starting)
unfolding resolve_handler
resolve_handler-Answers image starting =
    loop-Answers 17 image 0 starting (omega arith) (omega arith)

functions-Answers :
    (image : LoadedImage) (n off : ℕ)
    → Answers (λ (fs : List RuntimeFunction). (length fs ≡ n)) (parse_functions image n off)
unfolding parse_functions
functions-Answers image zero off = refl
functions-Answers image (suc n) off =
    bound-Answers (λ (b : List ℕ). length b ≡ 12) (λ (fs : List RuntimeFunction). length fs ≡ suc n)
      _ _ (slice-Answers image Reason.function_oob off 12)
      (λ b _ _.
        bound-Answers (λ (fs : List RuntimeFunction). length fs ≡ n)
          (λ (fs : List RuntimeFunction). length fs ≡ suc n) _ _
          (functions-Answers image n (off + 12)) (λ rest _ l. ap suc l))

-- As many functions as the directory has room for, twelve bytes each.
abbrev pub Counts : Option DataDirectory → List RuntimeFunction → Type 0
Counts none fs = fs ≡ []
Counts (some dir) fs = 12 * length fs ≡ dir.size

directory-Answers :
    (image : LoadedImage) (d : Option DataDirectory) → Answers (Counts d) (parse_directory image d)
directory-Answers image none = refl
directory-Answers image (some dir) =
    by_test (Answers (Counts (some dir))) (dir.size % 12 == 0) _ _
      (λ t.
        widen (parse_functions image (dir.size / 12) dir.virtual_address)
          (functions-Answers image (dir.size / 12) dir.virtual_address) (exact t))
      (λ _. tt)
  where
    exact : (dir.size % 12 == 0) ≡ Bool.true → dir.size % 12 ≡ 0
    exact t = ground (arith, t)

    widen :
        (o : Outcome (List RuntimeFunction))
        → Answers (λ (fs : List RuntimeFunction). length fs ≡ dir.size / 12) o
        → dir.size % 12 ≡ 0
        → Answers (Counts (some dir)) o
    widen (ok fs) l z = omega (arith, l, z)
    widen (err e) l z = tt
    widen panics l z = l
    widen exhausted l z = l

-- `parse` of the exception directory ends with an error, or with twelve bytes of the directory for each
-- function that it gives, and with none where there is no directory.
pub parse_exceptions-Answers :
    (image : LoadedImage) → Answers (Counts (data_dir image 3)) (parse_exceptions image)
unfolding parse_exceptions
parse_exceptions-Answers image = directory-Answers image (data_dir image 3)
