-- ===== src/Jit/Block/Contiguous.antt =====
-- crates/quantum-jit/src/block.rs: the addresses of the instructions of a block, and of what it is
-- chained to.
use quantum.Prelude.{
  ℕ, ◌+◌, ◌-◌, ◌%◌, ◌≤◌, ◌<◌, ◌≡◌, refl, ◌∙◌, ap, List, [], ◌∷◌, arith, wrapping_add64, as_u64, ℤ,
  some,
}
use quantum.Jit.Iform.{Op, Cond, Inst}
use quantum.Jit.Decoder.State.{ok, Decoder, rip}
use quantum.Jit.Decoder.Next.{next}
use quantum.Jit.Decoder.Sound.{IsValid}
use quantum.Jit.Decoder.Sound.Next.{IsDecoded}
use quantum.Jit.Decoder.Total.{next-IsDecoded}
use quantum.Jit.Block.{
  fallthrough_rip, branch_rip, imm_of, chain_targets, targets, targets_by, cond_targets,
}

-- How far a run goes: each instruction has taken n bytes for an n above 0. It starts at the address
-- where the one before it ends, its length is n modulo 256, and `fallthrough_rip` is the address
-- behind it when n is below 256.
abbrev pub Follow : ℕ → List Inst → ℕ → Type 0
Follow start [] end = start ≡ end
Follow start (i ∷ rest) end =
    (n : ℕ) × (0 < n)
    × (i.guest_rip ≡ start)
    × (i.len ≡ n % 256)
    × (n < 256 → fallthrough_rip i ≡ wrapping_add64 start n)
    × Follow (wrapping_add64 start n) rest end

fallthrough_behind :
    {d d' : Decoder} {i : Inst}
    → IsDecoded d i d'
    → fallthrough_rip i ≡ wrapping_add64 (rip d) ((d'.at - d.at) % 256)
fallthrough_behind h = rw (h.rip_is, h.len_is) refl

chain_jmp :
    (i : Inst) (rel : ℤ)
    → i.op ≡ Op.jmp
    → imm_of i.operands.first ≡ some rel
    → chain_targets i ≡ targets (branch_rip i rel ∷ [])
unfolding chain_targets
chain_jmp i rel o imm = rw (o, chain_targets) (rw imm refl)

cond_targets-both :
    (i : Inst) (cond : Cond) (rel : ℤ)
    → cond_targets i cond (some rel) ≡ targets (fallthrough_rip i ∷ branch_rip i rel ∷ [])
unfolding cond_targets
cond_targets-both i Cond.e rel = refl
cond_targets-both i _ rel = refl

chain_jcc :
    (i : Inst) (cond : Cond) (rel : ℤ)
    → i.op ≡ Op.jcc cond
    → imm_of i.operands.first ≡ some rel
    → chain_targets i ≡ targets (fallthrough_rip i ∷ branch_rip i rel ∷ [])
unfolding chain_targets
chain_jcc i cond rel o imm =
    ap (targets_by i) o ∙ ap (cond_targets i cond) imm ∙ cond_targets-both i cond rel

-- The address behind a decoded instruction as the chain targets see it: the instruction's address
-- and the number of its bytes modulo 256.
abbrev pub behind : Decoder → Decoder → ℕ
behind d d' = wrapping_add64 (rip d) ((d'.at - d.at) % 256)

-- A relative JMP that is decoded from a valid state names one chain target: the address behind the
-- instruction plus the displacement, modulo 2^64. A decoded Jcc, of any condition, names two, first
-- the address behind it and then the branch. The address behind is that of the instruction plus the
-- number of its bytes modulo 256, and it is the decoder's new address for every instruction of at
-- most 255 bytes.
pub chain_targets_decoded :
    (d : Decoder) (i : Inst) (d' : Decoder) (rel : ℤ)
    → IsValid d
    → next d ≡ ok (i, d')
    → imm_of i.operands.first ≡ some rel
    → (i.op ≡ Op.jmp → chain_targets i ≡ targets (wrapping_add64 (behind d d') (as_u64 rel) ∷ []))
      × ((cond : Cond)
          → i.op ≡ Op.jcc cond
          → chain_targets i
            ≡ targets (behind d d' ∷ wrapping_add64 (behind d d') (as_u64 rel) ∷ []))
      × (d'.at ≤ d.at + 255 → behind d d' ≡ rip d')
chain_targets_decoded d i d' rel v e imm =
    let g = next-IsDecoded d v e in
    (
      λ o.
          chain_jmp i rel o imm
          ∙ ap (λ a. targets (wrapping_add64 a (as_u64 rel) ∷ [])) (fallthrough_behind g),
      λ cond o.
          chain_jcc i cond rel o imm
          ∙ ap (λ a. targets (a ∷ wrapping_add64 a (as_u64 rel) ∷ [])) (fallthrough_behind g),
      λ small. omega (arith, g.progress, g.same_rip),
    )
