-- ===== src/Runtime/Chained.antt =====
-- crates/quantum-runtime/src/dispatcher.rs: what `patch_chain` writes.
use quantum.Prelude.{
  ℕ, ◌+◌, ◌-◌, ◌*◌, ◌/◌, ◌%◌, ◌^◌, ◌≤◌, ◌<◌, ◌≡◌, refl, sym, ◌∙◌, ap, ◌⊎◌, inl, inr, List, Bool,
  true, false, not, if◌then◌else◌, length, get_elem?, take, drop, arith, by_test, ℤ, pos, negsuc,
}
use quantum.Prelude.Slices.{
  copy_to, from_le, to_le, length-copy_to, copied, around, length-to_le, from_le-to_le_4,
}
use quantum.Jit.Emitter.State.{branch26, patch_branch, ok, err, branch_out_of_range, delta, fits}
use quantum.Jit.Emitter.Patch.{offset_of, Aims, patch_branch-Aims}
use quantum.Runtime.Dispatcher.{
  Dispatcher, is_aligned, quarter, branch_word, write_word, patch_chain,
}

abbrev pub quadruple : ℤ → ℤ
quadruple (pos n) = pos (4 * n)
quadruple (negsuc n) = negsuc (4 * n + 3)

quadruple-quarter : (z : ℤ) → is_aligned z ≡ true → quadruple (quarter z) ≡ z
quadruple-quarter (pos n) h = ap pos (ground (arith, h))
quadruple-quarter (negsuc n) h = ap negsuc (ground (arith, h))

quarter-quadruple : (z : ℤ) → quarter (quadruple z) ≡ z
quarter-quadruple (pos n) = ap pos (omega arith)
quarter-quadruple (negsuc n) = ap negsuc (omega arith)

aligned-quadruple : (z : ℤ) → is_aligned (quadruple z) ≡ true
aligned-quadruple (pos n) = ground arith
aligned-quadruple (negsuc n) = ground arith

branch_word-Aims : (imm : ℤ) → fits 25 imm ≡ true → Aims 0x14000000 branch26 imm (branch_word imm)
unfolding patch_branch
branch_word-Aims imm f =
    patch_branch-Aims 0x14000000 branch26 imm
      (ap (λ b. if b then ok (branch_word imm) else err branch_out_of_range) f)

-- The word at the site is an unconditional branch to the target, and no other byte changes.
pub record Jumps (site target : ℕ) (d d' : Dispatcher) : Type 0 where
  pub word : ℕ
  pub stands : from_le (take 4 (drop (site - d.code_cache.base) d'.code_cache.region)) ≡ word
  pub opcode : word / 2 ^ 26 ≡ 0b000101
  pub reaches : quadruple (offset_of branch26 word) ≡ delta target site
  pub same_length : length d'.code_cache.region ≡ length d.code_cache.region
  pub others :
      (i : ℕ)
      → (i < site - d.code_cache.base) ⊎ (site - d.code_cache.base + 4 ≤ i)
      → get_elem? d'.code_cache.region i ≡ get_elem? d.code_cache.region i
  pub same_map : d'.block_map ≡ d.block_map

-- No offset of a branch leads from the site to the target.
abbrev pub OutOfReach : ℕ → ℕ → Type 0
OutOfReach site target = (imm : ℤ) → fits 25 imm ≡ true → delta target site ≡ quadruple imm → ⊥

abbrev pub Chains : ℕ → ℕ → Dispatcher → Bool × Dispatcher → Type 0
Chains site target d (true, d') = Jumps site target d d'
Chains site target d (false, d') = (d' ≡ d) × OutOfReach site target

written-Jumps :
    (site target : ℕ) (d : Dispatcher)
    → d.code_cache.base ≤ site
    → site + 4 ≤ d.code_cache.base + length d.code_cache.region
    → is_aligned (delta target site) ≡ true
    → fits 25 (quarter (delta target site)) ≡ true
    → Jumps site target d (write_word site (branch_word (quarter (delta target site))) d)
written-Jumps site target d low high a f = record {
  word = w;
  stands =
      ap (λ k. from_le (take k (drop at (copy_to bytes at (to_le 4 w))))) (sym (length-to_le 4 w))
      ∙ ap from_le (copied bytes at (to_le 4 w) fit)
      ∙ ap (λ x. from_le (to_le 4 x)) {x = w} {y = w % 2 ^ 32} (omega (arith, top))
      ∙ from_le-to_le_4 w
      ∙ omega (arith, top);
  opcode = top;
  reaches = ap quadruple aims.offset ∙ quadruple-quarter (delta target site) a;
  same_length = length-copy_to bytes at (to_le 4 w) fit;
  others = λ i p.
      around bytes at (to_le 4 w) i fit
        (elim p [ inl q ↦ inl q | inr q ↦ inr (omega (arith, q, length-to_le 4 w)) ]);
  same_map = refl;
}
  where
    w : ℕ
    w = branch_word (quarter (delta target site))

    at : ℕ
    at = site - d.code_cache.base

    bytes : List ℕ
    bytes = d.code_cache.region

    aims : Aims 0x14000000 branch26 (quarter (delta target site)) w
    aims = branch_word-Aims (quarter (delta target site)) f

    top : w / 2 ^ 26 ≡ 0b000101
    top = ap (λ (x : ℕ × ℕ). x.0) aims.rest

    fit : at + length (to_le 4 w) ≤ length bytes
    fit = omega (arith, low, high, length-to_le 4 w)

-- At a site of four bytes inside of the cache, `patch_chain` either returns true and has written an
-- unconditional branch that leads to the target, and nothing else; or it returns false, the
-- dispatcher is as it was, and no branch with a 26-bit offset leads from the site to the target.
pub patch_chain-Chains :
    (site target : ℕ) (d : Dispatcher)
    → d.code_cache.base ≤ site
    → site + 4 ≤ d.code_cache.base + length d.code_cache.region
    → Chains site target d (patch_chain site target d)
unfolding patch_chain
patch_chain-Chains site target d low high =
    by_test (Chains site target d) (not (is_aligned gap)) _ _
      (λ n. (refl, λ imm f e. clash (sym (ap is_aligned e ∙ aligned-quadruple imm)) n))
      (λ a.
        by_test (Chains site target d) (not (fits 25 (quarter gap))) _ _
          (λ n. (
            refl,
            λ imm f e.
                clash
                  (sym (ap (λ z. fits 25 (quarter z)) e ∙ ap (fits 25) (quarter-quadruple imm) ∙ f))
                  n,
          ))
          (λ f.
            written-Jumps site target d low high (positive (is_aligned gap) a)
              (positive (fits 25 (quarter gap)) f)))
  where
    gap : ℤ
    gap = delta target site

    positive : (b : Bool) → not b ≡ false → b ≡ true
    positive true h = refl
    positive false h = cc

    clash : {b : Bool} → true ≡ b → not b ≡ true → ⊥
    clash p h = cc
