-- ===== src/Jit/Decoder/Sound/Next.antt =====
-- `read_prefixes` and `next`: the loop ends within its fuel, and a whole instruction keeps the
-- promise of `Sound`.
use quantum.Prelude.{
  ℕ, zero, suc, ◌+◌, ◌-◌, ◌%◌, ◌≤◌, ◌<◌, ◌≡◌, refl, List, arith, length, get_elem?, some, none,
  Option-cases, inl, inr, get_elem?-append, get_elem?-lt, length-append, ◌==◌, if◌then◌else◌,
}
use quantum.Jit.Iform.{Inst}
use quantum.Jit.Decoder.State.{Outcome, ok, err, panic, truncated, Decoder, read_u8, remaining, rip}
use quantum.Jit.Decoder.Prefixes.{
  Prefixes, no_prefixes, Step, again, last, stop, prefix_byte, prefixes_loop, read_prefixes,
}
use quantum.Jit.Decoder.Primary.{decode_primary}
use quantum.Jit.Decoder.Secondary.{decode_secondary}
use quantum.Jit.Decoder.Next.{decode_body, decode_opcode, finish, next}
use quantum.Jit.Decoder.Sound.{IsValid, Moves, extend, Ends, returns, cut, Sound}
use quantum.Jit.Decoder.Sound.Rules.{
  Moves-refl, Moves-IsValid, Moves-trans, Moves-le, Ends-after, Ends-le, Sound-if, bind-ok,
  bind-err,
}
use quantum.Jit.Decoder.Sound.Reads.{
  peek_u8-some, peek_u8-none, Moves-step, read_u8-some, read_u8-none,
}
use quantum.Jit.Decoder.Sound.ModRm.{Always, IsInst, IsOptional}
use quantum.Jit.Decoder.Sound.Primary.{decode_primary-Sound}
use quantum.Jit.Decoder.Sound.Secondary.{decode_secondary-Sound}

-- The fuel of a decoder that has `n` bytes in its slice.
abbrev Enough : ℕ → Decoder → Type 0
Enough fuel d = length d.bytes < d.at + fuel

-- After one prefix byte: the rest of the loop, as a promise about the state behind that byte.
prefixes_round :
    (fuel fuel' : ℕ) (d : Decoder) (more : List ℕ) (k : ℕ) (p : Prefixes) (s : Step) {c : ℕ}
    → get_elem? d.bytes d.at ≡ some c
    → IsValid d
    → ((q : Prefixes)
        → Ends k Always
            (record d { at = d.at + 1 })
            more
            (prefixes_loop fuel q (record d { at = d.at + 1 }))
            (prefixes_loop fuel' q (extend more (record d { at = d.at + 1 }))))
    → Ends
        (1 + k)
        Always
        d
        more
        (elim s [
          | again q ↦ prefixes_loop fuel q (record d { at = d.at + 1 })
          | last q ↦ ok (q, record d { at = d.at + 1 })
          | stop ↦ ok (p, d)
        ])
        (elim s [
          | again q ↦ prefixes_loop fuel' q (extend more (record d { at = d.at + 1 }))
          | last q ↦ ok (q, extend more (record d { at = d.at + 1 }))
          | stop ↦ ok (p, extend more d)
        ])
prefixes_round fuel fuel' d more k p (again q) e v rest = Ends-after more (Moves-step d e) (rest q)
prefixes_round fuel fuel' d more k p (last q) e v rest =
    returns tt (Moves-le (omega arith) (Moves-step d e))
prefixes_round fuel fuel' d more k p stop e v rest =
    returns tt (Moves-le (omega arith) (Moves-refl d v.inside))

loop-none :
    (fuel : ℕ) (p : Prefixes) (d : Decoder)
    → get_elem? d.bytes d.at ≡ none
    → prefixes_loop (suc fuel) p d ≡ err truncated
unfolding prefixes_loop
loop-none fuel p d e = rw (peek_u8-none d e, prefixes_loop)

pub loop-some :
    (fuel : ℕ) (p : Prefixes) (d : Decoder) {c : ℕ}
    → get_elem? d.bytes d.at ≡ some c
    → prefixes_loop (suc fuel) p d ≡ elim (prefix_byte d.long_mode c p) [
      | again q ↦ prefixes_loop fuel q (record d { at = d.at + 1 })
      | last q ↦ ok (q, record d { at = d.at + 1 })
      | stop ↦ ok (p, d)
    ]
unfolding prefixes_loop
loop-some fuel p d e = rw (peek_u8-some d e, prefixes_loop)

prefixes_loop-Ends :
    (fuel fuel' : ℕ) (p : Prefixes) (d : Decoder) (more : List ℕ)
    → IsValid d
    → Enough fuel d
    → Enough fuel' (extend more d)
    → Ends fuel Always d more (prefixes_loop fuel p d) (prefixes_loop fuel' p (extend more d))
prefixes_loop-Ends zero fuel' p d more v h g = absurd (omega (arith, v.inside))
prefixes_loop-Ends (suc fuel) zero p d more v h g =
    absurd (omega (arith, v.inside, length-append d.bytes more))
prefixes_loop-Ends (suc fuel) (suc fuel') p d more v h g =
    elim (Option-cases (get_elem? d.bytes d.at)) [
      | inl e ↦ rw (loop-none fuel p d e) cut
      | inr (c, e) ↦
          rw
            (
              loop-some fuel p d e,
              loop-some fuel' p (extend more d) (get_elem?-append d.bytes more d.at e),
            )
            (Ends-le (omega arith) (
              prefixes_round fuel fuel' d more fuel p (prefix_byte d.long_mode c p) e v λ q.
                prefixes_loop-Ends fuel fuel' q (record d { at = d.at + 1 }) more
                  (record {
                    inside = omega (arith, get_elem?-lt d.bytes d.at e);
                    are_bytes = v.are_bytes;
                  })
                  (omega arith) (omega arith)))
    ]

pub read_prefixes-Ends :
    (d : Decoder) (more : List ℕ)
    → IsValid d
    → Ends (suc (remaining d)) Always d more (read_prefixes d) (read_prefixes (extend more d))
unfolding read_prefixes
read_prefixes-Ends d more v =
    prefixes_loop-Ends (suc (remaining d)) (suc (remaining (extend more d))) no_prefixes d more v
      (omega (arith, v.inside)) (omega (arith, v.inside, length-append d.bytes more))

-- Outcomes beside each other as in `Ends`, for code that takes a byte at least.
pub data Takes (k at_rip : ℕ) (d : Decoder) (more : List ℕ)
    : Outcome (Inst × Decoder) → Outcome (Inst × Decoder) → Type 0 where
  taken :
      {i : Inst} {d' : Decoder}
      → IsInst at_rip i
      → Moves k d d'
      → d.at < d'.at
      → Takes k at_rip d more (ok (i, d')) (ok (i, extend more d'))
  ended : {r : Outcome (Inst × Decoder)} → Takes k at_rip d more (err truncated) r

Takes-step :
    {k at_rip c : ℕ} (d : Decoder) {more : List ℕ} {r s : Outcome (Inst × Decoder)}
    → get_elem? d.bytes d.at ≡ some c
    → Ends k (IsInst at_rip) (record d { at = d.at + 1 }) more r s
    → Takes (1 + k) at_rip d more r s
Takes-step d e (returns q g) = taken q (Moves-trans (Moves-step d e) g) (omega arith)
Takes-step d e cut = ended

Takes-after :
    {j k at_rip : ℕ} {d d' : Decoder} {more : List ℕ} {r s : Outcome (Inst × Decoder)}
    → Moves j d d'
    → Takes k at_rip d' more r s
    → Takes (j + k) at_rip d more r s
Takes-after h (taken q g lt) = taken q (Moves-trans h g) (omega arith)
Takes-after h ended = ended

table-Sound :
    (p : Prefixes) (at_rip opcode : ℕ)
    → Sound 11
        (IsInst at_rip)
        (if opcode == 0x0F then decode_secondary p at_rip else decode_primary opcode p at_rip)
table-Sound p at_rip opcode =
    Sound-if _ (decode_secondary-Sound p at_rip) (decode_primary-Sound p at_rip opcode)

pub decode_opcode-Takes :
    (p : Prefixes) (at_rip : ℕ) (d : Decoder) (more : List ℕ)
    → IsValid d
    → Takes 12 at_rip d more (decode_opcode p at_rip d) (decode_opcode p at_rip (extend more d))
unfolding decode_opcode
decode_opcode-Takes p at_rip d more v = elim (Option-cases (get_elem? d.bytes d.at)) [
  | inl e ↦ rw (bind-err read_u8 _ d (read_u8-none d e)) ended
  | inr (c, e) ↦
      rw
        (
          bind-ok read_u8 _ d (read_u8-some d e),
          bind-ok read_u8 _ (extend more d)
              (read_u8-some (extend more d) (get_elem?-append d.bytes more d.at e)),
        )
        (Takes-step d e (
          (table-Sound p at_rip c).run (record d { at = d.at + 1 })
            (Moves-IsValid (Moves-step d e) v) more))
]

body_after :
    {k at_rip : ℕ} {d : Decoder} (more : List ℕ) {r s : Outcome (Prefixes × Decoder)}
    → IsValid d
    → Ends k Always d more r s
    → Takes
        (k + 12)
        at_rip
        d
        more
        (elim r [ ok (p, d') ↦ decode_opcode p at_rip d' | err e ↦ err e | panic ↦ panic ])
        (elim s [ ok (p, d') ↦ decode_opcode p at_rip d' | err e ↦ err e | panic ↦ panic ])
body_after {k} {at_rip} more v (returns {x = p} {d' = d'} q g) =
    Takes-after g (decode_opcode-Takes p at_rip d' more (Moves-IsValid g v))
body_after more v cut = ended

pub decode_body-Takes :
    (at_rip : ℕ) (d : Decoder) (more : List ℕ)
    → IsValid d
    → Takes
        (suc (remaining d) + 12)
        at_rip
        d
        more
        (decode_body at_rip d)
        (decode_body at_rip (extend more d))
unfolding decode_body
decode_body-Takes at_rip d more v = body_after more v (read_prefixes-Ends d more v)

-- What `next` says of the instruction that it returns and of the state that it leaves.
pub record IsDecoded (d : Decoder) (i : Inst) (d' : Decoder) : Type 0 where
  pub same_bytes : d'.bytes ≡ d.bytes
  pub same_rip : d'.guest_rip ≡ d.guest_rip
  pub same_mode : d'.long_mode ≡ d.long_mode
  pub progress : d.at < d'.at
  pub inside : d'.at ≤ length d.bytes
  pub len_is : i.len ≡ (d'.at - d.at) % 256
  pub rip_is : i.guest_rip ≡ rip d
  pub first : IsOptional i.operands.first
  pub second : IsOptional i.operands.second
  pub third : IsOptional i.operands.third

-- The outcome of `next`, beside its outcome with more bytes behind the slice.
pub data Nexts (d : Decoder) (more : List ℕ)
    : Outcome (Inst × Decoder) → Outcome (Inst × Decoder) → Type 0 where
  decoded :
      {i : Inst} {d' : Decoder}
      → IsDecoded d i d'
      → Nexts d more (ok (i, d')) (ok (i, extend more d'))
  short : {r : Outcome (Inst × Decoder)} → Nexts d more (err truncated) r

next_after :
    {k : ℕ} (d : Decoder) (more : List ℕ) {r s : Outcome (Inst × Decoder)}
    → Takes k (rip d) d more r s
    → Nexts d more (finish d.at (rip d) r) (finish d.at (rip d) s)
next_after d more (taken q g lt) = decoded (record {
  same_bytes = g.same_bytes;
  same_rip = g.same_rip;
  same_mode = g.same_mode;
  progress = lt;
  inside = g.inside;
  len_is = refl;
  rip_is = refl;
  first = q.first;
  second = q.second;
  third = q.third;
})
next_after d more ended = short

pub next-Nexts :
    (d : Decoder) (more : List ℕ) → IsValid d → Nexts d more (next d) (next (extend more d))
unfolding next
next-Nexts d more v = next_after d more (decode_body-Takes (rip d) d more v)
