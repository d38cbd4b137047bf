-- ===== src/Jit/Emitter/Patch.antt =====
-- crates/quantum-jit/src/emitter.rs: the offset that `patch_branch` writes is the one that the processor
-- reads.
use quantum.Prelude.{
  ℕ, ◌+◌, ◌*◌, ◌/◌, ◌%◌, ◌^◌, ◌<◌, ◌≡◌, ap, ◌∙◌, subst, arith, ℤ, pos, negsuc, signed, by_test,
  true,
}
use quantum.Prelude.Bits.{bit_or_disjoint, bit_or_between}
use quantum.Jit.Emitter.State.{
  FixupKind, branch26, branch19, branch14, Finish, ok, err, fits, as_u32, patch_branch,
}
use Prim.Native.Nat.{bit_or}

-- The signed offset, in words, in the field of a branch.
abbrev pub offset_of : FixupKind → ℕ → ℤ
offset_of branch26 w = signed 26 (w % 2 ^ 26)
offset_of branch19 w = signed 19 (w / 2 ^ 5 % 2 ^ 19)
offset_of branch14 w = signed 14 (w / 2 ^ 5 % 2 ^ 14)

-- The bits around that field.
abbrev pub rest_of : FixupKind → ℕ → ℕ × ℕ
rest_of branch26 w = (w / 2 ^ 26, 0)
rest_of branch19 w = (w / 2 ^ 24, w % 2 ^ 5)
rest_of branch14 w = (w / 2 ^ 19, w % 2 ^ 5)

field26 : (h m : ℕ) → m < 2 ^ 26 → bit_or (h * 2 ^ 26) m ≡ h * 2 ^ 26 + m
field26 h m p = bit_or_disjoint 26 h m p

field19 :
    (h m l : ℕ)
    → m < 2 ^ 19
    → l < 32
    → bit_or (h * 2 ^ 24 + l) (m * 2 ^ 5) ≡ h * 2 ^ 24 + m * 2 ^ 5 + l
field19 h m l p q = omega (
  arith,
  bit_or_between 19 5 h m l p q,
  ap (λ (t : ℕ). bit_or t (m * 2 ^ 5)) {x = h * 2 ^ 24 + l} {y = h * 2 ^ 19 * 2 ^ 5 + l}
      (omega arith),
  ap (bit_or (h * 2 ^ 19 * 2 ^ 5 + l)) {x = m * 2 ^ 5} {y = m * 2 ^ 5 + 0} (omega arith),
)

field14 :
    (h m l : ℕ)
    → m < 2 ^ 14
    → l < 32
    → bit_or (h * 2 ^ 19 + l) (m * 2 ^ 5) ≡ h * 2 ^ 19 + m * 2 ^ 5 + l
field14 h m l p q = omega (
  arith,
  bit_or_between 14 5 h m l p q,
  ap (λ (t : ℕ). bit_or t (m * 2 ^ 5)) {x = h * 2 ^ 19 + l} {y = h * 2 ^ 14 * 2 ^ 5 + l}
      (omega arith),
  ap (bit_or (h * 2 ^ 14 * 2 ^ 5 + l)) {x = m * 2 ^ 5} {y = m * 2 ^ 5 + 0} (omega arith),
)

signed26 : (imm : ℤ) → fits 25 imm ≡ true → signed 26 (as_u32 imm % 2 ^ 26) ≡ imm
signed26 (pos n) h = ground arith
signed26 (negsuc n) h = ground arith

signed19 : (imm : ℤ) → fits 18 imm ≡ true → signed 19 (as_u32 imm % 2 ^ 19) ≡ imm
signed19 (pos n) h = ground arith
signed19 (negsuc n) h = ground arith

signed14 : (imm : ℤ) → fits 13 imm ≡ true → signed 14 (as_u32 imm % 2 ^ 14) ≡ imm
signed14 (pos n) h = ground arith
signed14 (negsuc n) h = ground arith

pair_eq : {a b c d : ℕ} → a ≡ c → b ≡ d → ◌≡◌ {A = ℕ × ℕ} (a, b) (c, d)
pair_eq p q i = (p i, q i)

-- A patched branch has the offset that was asked for, and around it the bits of the base word.
pub record Aims (base : ℕ) (kind : FixupKind) (imm : ℤ) (w : ℕ) : Type 0 where
  pub offset : offset_of kind w ≡ imm
  pub rest : rest_of kind w ≡ rest_of kind base

abbrev AimsOf : ℕ → FixupKind → ℤ → Finish ℕ → Type 0
AimsOf base kind imm (ok w) = Aims base kind imm w
AimsOf base kind imm (err x) = Unit {0}

patch_branch-AimsOf :
    (base : ℕ) (kind : FixupKind) (imm : ℤ) → AimsOf base kind imm (patch_branch base kind imm)
unfolding patch_branch
patch_branch-AimsOf base branch26 imm =
    by_test (AimsOf base branch26 imm) (fits 25 imm) _ _
      (λ f.
        let e = field26 (base / 2 ^ 26) (as_u32 imm % 2 ^ 26) (omega arith) in
        record {
          offset = ap (signed 26) (omega (arith, e)) ∙ signed26 imm f;
          rest = ap (λ (t : ℕ). (t, 0)) (omega (arith, e));
        })
      (λ _. tt)
patch_branch-AimsOf base branch19 imm =
    by_test (AimsOf base branch19 imm) (fits 18 imm) _ _
      (λ f.
        let e =
          field19 (base / 2 ^ 24) (as_u32 imm % 2 ^ 19) (base % 32) (omega arith) (omega arith) in
        record {
          offset = ap (signed 19) (omega (arith, e)) ∙ signed19 imm f;
          rest = pair_eq (omega (arith, e)) (omega (arith, e));
        })
      (λ _. tt)
patch_branch-AimsOf base branch14 imm =
    by_test (AimsOf base branch14 imm) (fits 13 imm) _ _
      (λ f.
        let e =
          field14 (base / 2 ^ 19) (as_u32 imm % 2 ^ 14) (base % 32) (omega arith) (omega arith) in
        record {
          offset = ap (signed 14) (omega (arith, e)) ∙ signed14 imm f;
          rest = pair_eq (omega (arith, e)) (omega (arith, e));
        })
      (λ _. tt)

-- Whatever the base word, where `patch_branch` succeeds the processor reads the offset that was asked
-- for from the field of the branch, and the bits around it are those of the base word.
pub patch_branch-Aims :
    (base : ℕ) (kind : FixupKind) (imm : ℤ) {w : ℕ}
    → patch_branch base kind imm ≡ ok w
    → Aims base kind imm w
patch_branch-Aims base kind imm e =
    subst (AimsOf base kind imm) e (patch_branch-AimsOf base kind imm)
