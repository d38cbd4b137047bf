-- ===== src/Jit/Decoder/Total.antt =====
-- crates/quantum-jit/src/decoder.rs: what `next` returns on any bytes.
use quantum.Prelude.{ℕ, ◌≡◌, refl, List, [], ap, subst, sym, ◌∙◌, ◌⊎◌, inl, inr}
use quantum.Jit.Iform.{Inst}
use quantum.Jit.Decoder.State.{Outcome, ok, err, truncated, Decoder}
use quantum.Jit.Decoder.Next.{next}
use quantum.Jit.Decoder.Sound.{IsValid, extend}
use quantum.Jit.Decoder.Sound.Next.{IsDecoded, Nexts, decoded, short, next-Nexts}

Nexts-cases :
    {d : Decoder} {more : List ℕ} {r s : Outcome (Inst × Decoder)}
    → Nexts d more r s
    → ((i : Inst) × (d' : Decoder) × (r ≡ ok (i, d')) × IsDecoded d i d') ⊎ (r ≡ err truncated)
Nexts-cases (decoded {i = i} {d' = d'} h) = inl (i, d', refl, h)
Nexts-cases short = inr refl

-- On every valid decoder state `next` either returns an instruction or fails with `Truncated`: no
-- `unwrap` and no `unreachable!` of the decoder can be reached, and the other error is never made.
-- On success at least one byte is consumed and no more than there are, only the position
-- has changed, `len` is the number of bytes consumed modulo 256, `guest_rip` is the address of the
-- first of them, and every operand is usable (XMM registers below 16, scales 1, 2, 4 or 8,
-- displacements of 32 bits, immediates of 64 bits).
pub next_total :
    (d : Decoder)
    → IsValid d
    → ((i : Inst) × (d' : Decoder) × (next d ≡ ok (i, d')) × IsDecoded d i d')
      ⊎ (next d ≡ err truncated)
next_total d v = Nexts-cases (next-Nexts d [] v)

lengthen : List ℕ → Outcome (Inst × Decoder) → Outcome (Inst × Decoder)
lengthen more (ok (i, d')) = ok (i, extend more d')
lengthen more r = r

Nexts-same :
    {d : Decoder} {more : List ℕ} {r s : Outcome (Inst × Decoder)} {i : Inst} {d' : Decoder}
    → Nexts d more r s
    → r ≡ ok (i, d')
    → s ≡ ok (i, extend more d')
unfolding lengthen
Nexts-same {more = more} (decoded h) e = ap (lengthen more) e
Nexts-same short e = cc

-- An instruction that decodes, decodes to the same instruction and the same position when any
-- bytes are appended to the slice: `next` looks at no byte behind the instruction.
pub next-extend :
    (d : Decoder) (more : List ℕ) (i : Inst) (d' : Decoder)
    → IsValid d
    → next d ≡ ok (i, d')
    → next (extend more d) ≡ ok (i, extend more d')
next-extend d more i d' v e = Nexts-same (next-Nexts d more v) e

abbrev DecodedIn : Decoder → Outcome (Inst × Decoder) → Type 0
DecodedIn d (ok (i, d')) = IsDecoded d i d'
DecodedIn d r = ⊥

-- The same facts of any instruction that `next` has returned.
pub next-IsDecoded :
    (d : Decoder) {i : Inst} {d' : Decoder} → IsValid d → next d ≡ ok (i, d') → IsDecoded d i d'
next-IsDecoded d v e = elim (next_total d v) [
  | inl (j, d'', f, g) ↦ subst (DecodedIn d) (sym f ∙ e) g
  | inr f ↦ absurd (cc)
]
