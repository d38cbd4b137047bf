-- ===== src/Jit/Block/Chain.antt =====
-- crates/quantum-jit/src/block.rs: the decoding loop against a relation that says what a block is.
use quantum.Prelude.{
  ℕ, zero, suc, ◌≤◌, ◌<◌, ◌≡◌, refl, sym, ◌∙◌, ap, List, [], ◌∷◌, ◌++◌, arith, Bool, true, false,
  ◌||◌, ◌==◌, ◌⊎◌, ◌↔◌, inl, inr, Bool-cases, length, subst, All, IsByte,
}
use quantum.Jit.Iform.{Op, Inst}
use quantum.Jit.Decoder.State.{Outcome, ok, err, truncated, Decoder, remaining}
use quantum.Jit.Decoder.Next.{next}
use quantum.Jit.Decoder.Sound.{IsValid}
use quantum.Jit.Decoder.Sound.Next.{IsDecoded}
use quantum.Jit.Decoder.Total.{next_total, next-IsDecoded}
use quantum.Jit.Block.{decode_loop, decode_block}
use mathlib.Core.List.{append_assoc}

-- `Run stops d insts d'`: from `d` the instructions `insts` follow one another without a gap up to
-- `d'`; the last one, and no other, is a terminator or ends at the end of the bytes.
pub data Run (stops : Op → Bool) : Decoder → List Inst → Decoder → Type 0 where
  final :
      {d : Decoder} {i : Inst} {d' : Decoder}
      → next d ≡ ok (i, d')
      → (stops i.op || remaining d' == 0) ≡ true
      → Run stops d (i ∷ []) d'
  cons :
      {d : Decoder} {i : Inst} {d₁ : Decoder} {insts : List Inst} {d' : Decoder}
      → next d ≡ ok (i, d₁)
      → (stops i.op || remaining d₁ == 0) ≡ false
      → Run stops d₁ insts d'
      → Run stops d (i ∷ insts) d'

pub IsDecoded-IsValid : {d d' : Decoder} {i : Inst} → IsDecoded d i d' → IsValid d → IsValid d'
IsDecoded-IsValid {d} {d'} h v = record {
  inside = subst (λ b. d'.at ≤ length b) (sym h.same_bytes) h.inside;
  are_bytes = subst (All IsByte) (sym h.same_bytes) v.are_bytes;
}

remaining_lt : {d d' : Decoder} {i : Inst} → IsDecoded d i d' → remaining d' < remaining d
remaining_lt h = omega (arith, ap length h.same_bytes)

module _ (stops : Op → Bool) where
  loop-err :
      (fuel : ℕ) (insts : List Inst) (d : Decoder)
      → next d ≡ err truncated
      → decode_loop stops (suc fuel) insts d ≡ err truncated
  unfolding decode_loop
  loop-err fuel insts d e = rw (e, decode_loop)

  loop-final :
      (fuel : ℕ) (insts : List Inst) (d : Decoder) {i : Inst} {d' : Decoder}
      → next d ≡ ok (i, d')
      → (stops i.op || remaining d' == 0) ≡ true
      → decode_loop stops (suc fuel) insts d ≡ ok (insts ++ i ∷ [], d')
  unfolding decode_loop
  loop-final fuel insts d e t = rw (e, decode_loop) (rw t refl)

  loop-cons :
      (fuel : ℕ) (insts : List Inst) (d : Decoder) {i : Inst} {d' : Decoder}
      → next d ≡ ok (i, d')
      → (stops i.op || remaining d' == 0) ≡ false
      → decode_loop stops (suc fuel) insts d ≡ decode_loop stops fuel (insts ++ i ∷ []) d'
  unfolding decode_loop
  loop-cons fuel insts d e t = rw (e, decode_loop) (rw t refl)

  -- With enough fuel the loop gives a run behind the instructions that it has, or `Truncated`.
  loop_runs :
      (fuel : ℕ) (insts : List Inst) (d : Decoder)
      → IsValid d
      → remaining d < fuel
      → ((rest : List Inst) × (d' : Decoder) × Run stops d rest d'
          × (decode_loop stops fuel insts d ≡ ok (insts ++ rest, d')))
        ⊎ (decode_loop stops fuel insts d ≡ err truncated)
  loop_runs zero insts d v h = absurd (omega arith)
  loop_runs (suc fuel) insts d v h = elim (next_total d v) [
    | inr e ↦ inr (loop-err fuel insts d e)
    | inl (i, d', e, g) ↦ elim (Bool-cases (stops i.op || remaining d' == 0)) [
      | inl t ↦ inl (i ∷ [], d', final e t, loop-final fuel insts d e t)
      | inr t ↦
          elim (loop_runs fuel (insts ++ i ∷ []) d' (IsDecoded-IsValid g v)
            (omega (arith, remaining_lt g))) [
              | inl (rest, d'', r, q) ↦ inl (
                i ∷ rest,
                d'',
                cons e t r,
                loop-cons fuel insts d e t
                    ∙ q
                    ∙ ap (λ l. ok (l, d'')) (append_assoc insts (i ∷ []) rest),
              )
              | inr q ↦ inr (loop-cons fuel insts d e t ∙ q)
            ]
    ]
  ]

-- From every valid state the decoding of a block ends: it returns the instructions of a run, or
-- the decoder's `Truncated`. The fuel is enough, and nothing panics.
pub decode_block_total :
    (stops : Op → Bool) (d : Decoder)
    → IsValid d
    → ((insts : List Inst) × (d' : Decoder) × (decode_block stops d ≡ ok (insts, d'))
        × Run stops d insts d')
      ⊎ (decode_block stops d ≡ err truncated)
unfolding decode_block
decode_block_total stops d v = elim (loop_runs stops (suc (remaining d)) [] d v (omega arith)) [
  | inl (insts, d', r, e) ↦ inl (insts, d', e, r)
  | inr e ↦ inr e
]

module _ (stops : Op → Bool) where
  decode_loop-Run :
      (fuel : ℕ) (insts : List Inst) {d d' : Decoder} {rest : List Inst}
      → Run stops d rest d'
      → IsValid d
      → remaining d < fuel
      → decode_loop stops fuel insts d ≡ ok (insts ++ rest, d')
  decode_loop-Run zero insts r v h = absurd (omega arith)
  decode_loop-Run (suc fuel) insts (final {d = d} e t) v h = loop-final stops fuel insts d e t
  decode_loop-Run (suc fuel) insts (cons {d = d} {i = i} {d₁ = d₁} {insts = rest} {d' = d'} e t r) v
        h =
      let g = next-IsDecoded d v e in
      loop-cons stops fuel insts d e t
      ∙ decode_loop-Run fuel (insts ++ i ∷ []) r (IsDecoded-IsValid g v)
          (omega (arith, remaining_lt g))
      ∙ ap (λ l. ok (l, d')) (append_assoc insts (i ∷ []) rest)

RunOf : (Op → Bool) → Decoder → Outcome (List Inst × Decoder) → Type 0
RunOf stops d (ok (insts, d')) = Run stops d insts d'
RunOf stops d r = ⊥

-- From every valid state, the decoding of a block returns the instructions `insts` and the state
-- `d'` exactly when they make up a run.
pub decode_block-iff-Run :
    (stops : Op → Bool) (d : Decoder) (insts : List Inst) (d' : Decoder)
    → IsValid d
    → (decode_block stops d ≡ ok (insts, d')) ↔ Run stops d insts d'
unfolding decode_block RunOf
decode_block-iff-Run stops d insts d' v =
    (forth, λ r. decode_loop-Run stops (suc (remaining d)) [] r v (omega arith))
  where
    forth : decode_loop stops (suc (remaining d)) [] d ≡ ok (insts, d') → Run stops d insts d'
    forth e = elim (loop_runs stops (suc (remaining d)) [] d v (omega arith)) [
      | inl (js, d'', r, q) ↦ subst (RunOf stops d) (sym q ∙ e) r
      | inr q ↦ absurd (cc)
    ]
