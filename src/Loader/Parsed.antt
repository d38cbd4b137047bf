-- ===== src/Loader/Parsed.antt =====
-- crates/quantum-loader/src/pe.rs: what a file that is parsed has.
use quantum.Prelude.{
  ℕ, zero, suc, ◌+◌, ◌*◌, ◌≤◌, ◌≡◌, refl, ◌∙◌, ap, subst, List, ltb, leb, length, arith, by_test,
}
use quantum.Loader.Run.{Reason, Outcome, ok, err, panics, exhausted}
use quantum.Loader.Pe.{
  bound, read_le, parse_coff, parse_optional, PeFile, CoffHeader, OptionalHeader, SectionHeader,
  kind_of, checked_table, expect_number, parse, section_header, listed, section_list, sections,
}

-- What holds of a result, where there is one.
abbrev pub IfOk : {A : Type 0} → (A → Type 0) → Outcome A → Type 0
IfOk P (ok a) = P a
IfOk P _ = Unit {0}

pub bound-IfOk :
    {A B : Type 0} (Q : A → Type 0) (P : B → Type 0) (f : A → Outcome B) (o : Outcome A)
    → IfOk Q o
    → ((a : A) → Q a → IfOk P (f a))
    → IfOk P (bound f o)
bound-IfOk Q P f (ok a) q g = g a q
bound-IfOk Q P f (err e) q g = tt
bound-IfOk Q P f panics q g = tt
bound-IfOk Q P f exhausted q g = tt

bound_any :
    {A B : Type 0} (P : B → Type 0) (f : A → Outcome B) (o : Outcome A)
    → ((a : A) → IfOk P (f a))
    → IfOk P (bound f o)
bound_any P f (ok a) g = g a
bound_any P f (err e) g = tt
bound_any P f panics g = tt
bound_any P f exhausted g = tt

abbrev HasTable : List ℕ → PeFile → Type 0
HasTable bytes pe =
    (pe.bytes ≡ bytes) × (pe.sections_offset + 40 * pe.coff.number_of_sections ≤ length pe.bytes)

table-HasTable :
    (e_lfanew : ℕ) (coff : CoffHeader) (opt : OptionalHeader) (off : ℕ) (bytes : List ℕ)
    → IfOk (HasTable bytes) (checked_table e_lfanew coff opt off bytes)
table-HasTable e_lfanew coff opt off bytes =
    by_test (IfOk (HasTable bytes)) (ltb (length bytes) (off + 40 * coff.number_of_sections)) _ _
      (λ _. tt) (λ f. (refl, ground (arith, f)))

parse-HasTable : (bytes : List ℕ) → IfOk (HasTable bytes) (parse bytes)
unfolding parse
parse-HasTable bytes = bound_any (HasTable bytes) _ (read_le 2 0 bytes) (λ dos_sig.
    bound_any (HasTable bytes) _ (expect_number dos_sig 0x5A4D Reason.dos_signature 0 bytes) (λ _.
      bound_any (HasTable bytes) _ (read_le 4 0x3C bytes) (λ e_lfanew.
        bound_any (HasTable bytes) _ (read_le 4 e_lfanew bytes) (λ pe_sig.
          bound_any (HasTable bytes) _
            (expect_number pe_sig 0x4550 Reason.pe_signature e_lfanew bytes)
            (λ _. bound_any (HasTable bytes) _ (parse_coff (e_lfanew + 4) bytes) (λ coff.
              bound_any (HasTable bytes) _ (read_le 2 (e_lfanew + 4 + 20) bytes) (λ magic.
                bound_any (HasTable bytes) _ (kind_of (e_lfanew + 4 + 20) magic bytes) (λ kind.
                  bound_any (HasTable bytes) _ (parse_optional (e_lfanew + 4 + 20) kind bytes)
                    (λ opt.
                      table-HasTable e_lfanew coff opt
                        (e_lfanew + 4 + 20 + coff.size_of_optional_header) bytes)))))))))

abbrev Succeeds : {A : Type 0} → Outcome A → Type 0
Succeeds (ok a) = Unit {0}
Succeeds _ = ⊥

bound-Succeeds :
    {A B : Type 0} (f : A → Outcome B) (o : Outcome A)
    → Succeeds o
    → ((a : A) → Succeeds (f a))
    → Succeeds (bound f o)
bound-Succeeds f (ok a) s g = g a
bound-Succeeds f (err e) s g = s
bound-Succeeds f panics s g = s
bound-Succeeds f exhausted s g = s

-- A read inside of the file succeeds.
read_le-Succeeds :
    (n off : ℕ) (bytes : List ℕ) → off + n ≤ length bytes → Succeeds (read_le n off bytes)
unfolding read_le
read_le-Succeeds n off bytes h =
    by_test Succeeds (leb (off + n) (length bytes)) _ _ (λ _. tt)
      (λ f. absurd (ground (arith, f, h)))

header-Succeeds :
    (off : ℕ) (bytes : List ℕ) → off + 40 ≤ length bytes → Succeeds (section_header off bytes)
header-Succeeds off bytes h =
    bound-Succeeds _ _ (read_le-Succeeds 8 off bytes (omega (arith, h))) (λ _.
      bound-Succeeds _ _ (read_le-Succeeds 4 (off + 8) bytes (omega (arith, h))) (λ _.
        bound-Succeeds _ _ (read_le-Succeeds 4 (off + 12) bytes (omega (arith, h))) (λ _.
          bound-Succeeds _ _ (read_le-Succeeds 4 (off + 16) bytes (omega (arith, h))) (λ _.
            bound-Succeeds _ _ (read_le-Succeeds 4 (off + 20) bytes (omega (arith, h))) (λ _.
              bound-Succeeds _ _ (read_le-Succeeds 4 (off + 36) bytes (omega (arith, h)))
                (λ _. tt))))))

length-listed :
    (rest : List SectionHeader) (o : Outcome SectionHeader)
    → Succeeds o
    → length (listed rest o) ≡ suc (length rest)
length-listed rest (ok s) h = refl
length-listed rest (err e) h = absurd h
length-listed rest panics h = absurd h
length-listed rest exhausted h = absurd h

length-section_list :
    (n off : ℕ) (bytes : List ℕ)
    → off + 40 * n ≤ length bytes
    → length (section_list n off bytes) ≡ n
unfolding section_list
length-section_list zero off bytes h = refl
length-section_list (suc n) off bytes h =
    length-listed (section_list n (off + 40) bytes) (section_header off bytes)
      (header-Succeeds off bytes (omega (arith, h)))
    ∙ ap suc (length-section_list n (off + 40) bytes (omega (arith, h)))

-- Of a file that is parsed, the iterator over the sections gives as many headers as the COFF header
-- says; it never ends early.
pub parse-sections :
    (bytes : List ℕ) {pe : PeFile}
    → parse bytes ≡ ok pe
    → length (sections pe) ≡ pe.coff.number_of_sections
parse-sections bytes {pe = pe} e =
    length-section_list pe.coff.number_of_sections pe.sections_offset pe.bytes
      (subst (IfOk (HasTable bytes)) e (parse-HasTable bytes)).1
