-- ===== src/Jit/Decoder/Quirks.antt =====
-- crates/quantum-jit/src/decoder.rs: two families of inputs on which the decoder's answer is not
-- the processor's.
use quantum.Prelude.{
  ℕ, zero, suc, ◌+◌, ◌*◌, ◌/◌, ◌%◌, ◌<◌, ◌≡◌, refl, ◌∙◌, ap, List, [], ◌∷◌, ◌++◌, arith, replicate,
  get_elem?, some, true, length, subst,
}
use quantum.Jit.Iform.{GpReg, OpSize, Operand, Op, Inst}
use quantum.Jit.Decoder.State.{ok, Decoder, new, rip, read_u8}
use quantum.Jit.Decoder.Prefixes.{Prefixes, no_prefixes, prefix_byte, prefixes_loop, read_prefixes}
use quantum.Jit.Decoder.ModRm.{two_operands, no_operands}
use quantum.Jit.Decoder.Next.{decode_opcode, decode_body, next, finish}
use quantum.Jit.Decoder.Examples.{run}
use quantum.Jit.Decoder.RoundTrip.{index_of, index_of-lt}
use quantum.Jit.Decoder.Sound.{IsValid}
use quantum.Jit.Decoder.Total.{next-extend}
use quantum.Jit.Decoder.Sound.Rules.{bind-ok}
use quantum.Jit.Decoder.Sound.Reads.{read_u8-some}
use quantum.Jit.Decoder.Sound.Next.{loop-some}

-- MOVQ xmm, r64 for registers of any number: 66 REX.W 0F 6E and a register ModRM, with bit 3 of the
-- XMM register's number in REX.R and bit 3 of the source's in REX.B.
abbrev pub movq_bytes : ℕ → GpReg → List ℕ
movq_bytes n src =
    0x66
    ∷ (0x48 + n / 8 * 4 + index_of src / 8)
    ∷ 0x0F
    ∷ 0x6E
    ∷ (0xC0 + n % 8 * 8 + index_of src % 8)
    ∷ []

abbrev pub decoded_movq : ℕ → GpReg → List ℕ → ℕ → Inst × Decoder
decoded_movq xmm src bytes start = (
  record {
    op = Op.movq_xmm;
    operands = two_operands (Operand.xmm_reg xmm OpSize.b8) (Operand.reg src OpSize.b8);
    len = 5;
    guest_rip = rip (new bytes start);
  },
  record { bytes = bytes; at = 5; guest_rip = start; long_mode = true },
)

-- For the XMM register with the number of `dst`.
movq_rr :
    (start : ℕ) (dst src : GpReg)
    → next (new (movq_bytes (index_of dst) src) start)
      ≡ ok (decoded_movq (index_of dst % 8) src (movq_bytes (index_of dst) src) start)
unfolding run
movq_rr start GpReg.rax GpReg.rax = refl
movq_rr start GpReg.rax _ = refl
movq_rr start GpReg.rcx GpReg.rax = refl
movq_rr start GpReg.rcx _ = refl
movq_rr start GpReg.rdx GpReg.rax = refl
movq_rr start GpReg.rdx _ = refl
movq_rr start GpReg.rbx GpReg.rax = refl
movq_rr start GpReg.rbx _ = refl
movq_rr start GpReg.rsp GpReg.rax = refl
movq_rr start GpReg.rsp _ = refl
movq_rr start GpReg.rbp GpReg.rax = refl
movq_rr start GpReg.rbp _ = refl
movq_rr start GpReg.rsi GpReg.rax = refl
movq_rr start GpReg.rsi _ = refl
movq_rr start GpReg.rdi GpReg.rax = refl
movq_rr start GpReg.rdi _ = refl
movq_rr start GpReg.r8 GpReg.rax = refl
movq_rr start GpReg.r8 _ = refl
movq_rr start GpReg.r9 GpReg.rax = refl
movq_rr start GpReg.r9 _ = refl
movq_rr start GpReg.r10 GpReg.rax = refl
movq_rr start GpReg.r10 _ = refl
movq_rr start GpReg.r11 GpReg.rax = refl
movq_rr start GpReg.r11 _ = refl
movq_rr start GpReg.r12 GpReg.rax = refl
movq_rr start GpReg.r12 _ = refl
movq_rr start GpReg.r13 GpReg.rax = refl
movq_rr start GpReg.r13 _ = refl
movq_rr start GpReg.r14 GpReg.rax = refl
movq_rr start GpReg.r14 _ = refl
movq_rr start GpReg.r15 GpReg.rax = refl
movq_rr start GpReg.r15 _ = refl

numbered : (n : ℕ) → n < 16 → (r : GpReg) × (index_of r ≡ n)
numbered zero h = (GpReg.rax, refl)
numbered (suc zero) h = (GpReg.rcx, refl)
numbered (suc (suc zero)) h = (GpReg.rdx, refl)
numbered (suc (suc (suc zero))) h = (GpReg.rbx, refl)
numbered (suc (suc (suc (suc zero)))) h = (GpReg.rsp, refl)
numbered (suc (suc (suc (suc (suc zero))))) h = (GpReg.rbp, refl)
numbered (suc (suc (suc (suc (suc (suc zero)))))) h = (GpReg.rsi, refl)
numbered (suc (suc (suc (suc (suc (suc (suc zero))))))) h = (GpReg.rdi, refl)
numbered (suc (suc (suc (suc (suc (suc (suc (suc zero)))))))) h = (GpReg.r8, refl)
numbered (suc (suc (suc (suc (suc (suc (suc (suc (suc zero))))))))) h = (GpReg.r9, refl)
numbered (suc (suc (suc (suc (suc (suc (suc (suc (suc (suc zero)))))))))) h = (GpReg.r10, refl)
numbered (suc (suc (suc (suc (suc (suc (suc (suc (suc (suc (suc zero))))))))))) h =
    (GpReg.r11, refl)
numbered (suc (suc (suc (suc (suc (suc (suc (suc (suc (suc (suc (suc zero)))))))))))) h =
    (GpReg.r12, refl)
numbered (suc (suc (suc (suc (suc (suc (suc (suc (suc (suc (suc (suc (suc zero))))))))))))) h =
    (GpReg.r13, refl)
numbered (suc (suc (suc (suc (suc (suc (suc (suc (suc (suc (suc (suc (suc (suc zero))))))))))))))
      h =
    (GpReg.r14, refl)
numbered
      (suc (suc (suc (suc (suc (suc (suc (suc (suc (suc (suc (suc (suc (suc (suc zero)))))))))))))))
      h =
    (GpReg.r15, refl)
numbered
      (suc
        (suc (suc (suc (suc (suc (suc (suc (suc (suc (suc (suc (suc (suc (suc (suc n))))))))))))))))
      h =
    absurd (omega arith)

movq_short :
    (n start : ℕ) (src : GpReg)
    → n < 16
    → next (new (movq_bytes n src) start) ≡ ok (decoded_movq (n % 8) src (movq_bytes n src) start)
movq_short n start src h =
    let (dst, e) = numbered n h in
    subst
      (λ k.
        next (new (movq_bytes k src) start)
        ≡ ok (decoded_movq (k % 8) src (movq_bytes k src) start))
      e (movq_rr start dst src)

movq_bytes-IsValid : (n start : ℕ) (src : GpReg) → n < 16 → IsValid (new (movq_bytes n src) start)
movq_bytes-IsValid n start src h = record {
  inside = omega arith;
  are_bytes = (
    omega arith,
    (omega (arith, h, index_of-lt src), (omega arith, (omega arith, (omega arith, tt)))),
  );
}

-- MOVQ xmm, r64 in its register form, written with REX.W, R and B for any of the sixteen XMM
-- registers and any of the sixteen general registers, decodes to the XMM register of number n % 8
-- and the right general register, whatever bytes follow and wherever the code lies: REX.R is
-- dropped, and the XMM registers 8 to 15 are taken for 0 to 7.
pub next-movq_bytes :
    (n : ℕ) (src : GpReg) (more : List ℕ) (start : ℕ)
    → n < 16
    → next (new (movq_bytes n src ++ more) start)
      ≡ ok (decoded_movq (n % 8) src (movq_bytes n src ++ more) start)
next-movq_bytes n src more start h =
    next-extend (new (movq_bytes n src) start) more _ _ (movq_bytes-IsValid n start src h)
      (movq_short n start src h)

-- A NOP behind `n` operand-size prefixes.
abbrev pub padded_nop : ℕ → List ℕ
padded_nop n = replicate n 0x66 ++ 0x90 ∷ []

get_elem?-padded : (n i : ℕ) → i < n → get_elem? (padded_nop n) i ≡ some 0x66
get_elem?-padded zero i h = absurd (omega arith)
get_elem?-padded (suc n) zero h = refl
get_elem?-padded (suc n) (suc i) h = get_elem?-padded n i (omega arith)

get_elem?-padded_end : (n : ℕ) → get_elem? (padded_nop n) n ≡ some 0x90
get_elem?-padded_end zero = refl
get_elem?-padded_end (suc n) = get_elem?-padded_end n

abbrev at_padded : ℕ → ℕ → ℕ → Decoder
at_padded n start i = record (new (padded_nop n) start) { at = i }

abbrev osize_only : Prefixes
osize_only = record no_prefixes { osize = true }

-- With `m` prefixes left, and at least one of them read.
loop_padded :
    (n start m i fuel : ℕ)
    → i + m ≡ n
    → m < fuel
    → prefixes_loop fuel osize_only (at_padded n start i) ≡ ok (osize_only, at_padded n start n)
unfolding prefix_byte
loop_padded n start m i zero e h = absurd (omega arith)
loop_padded n start zero i (suc fuel) e h =
    loop-some fuel osize_only (at_padded n start i) (here)
    ∙ ap (λ j. ok (osize_only, at_padded n start j)) same
  where
    same : i ≡ n
    same = omega arith

    here : get_elem? (padded_nop n) i ≡ some 0x90
    here = rw same (get_elem?-padded_end n)
loop_padded n start (suc m) i (suc fuel) e h =
    loop-some fuel osize_only (at_padded n start i) (get_elem?-padded n i (omega arith))
    ∙ loop_padded n start m (i + 1) fuel (omega arith) (omega arith)

length-padded_nop : (n : ℕ) → length (padded_nop n) ≡ n + 1
length-padded_nop zero = refl
length-padded_nop (suc n) = omega (arith, length-padded_nop n)

read_padded :
    (n start : ℕ)
    → read_prefixes (new (padded_nop (suc n)) start)
      ≡ ok (osize_only, at_padded (suc n) start (suc n))
unfolding read_prefixes prefix_byte
read_padded n start =
    loop-some _ no_prefixes (new (padded_nop (suc n)) start) refl
    ∙ loop_padded (suc n) start n 1 _ (omega arith) (omega (arith, length-padded_nop n))

abbrev nop_at : ℕ → Inst
nop_at r = record { op = Op.nop; operands = no_operands; len = 0; guest_rip = r }

nop_opcode :
    (n start : ℕ)
    → decode_opcode osize_only (rip (new (padded_nop n) start)) (at_padded n start n)
      ≡ ok (nop_at (rip (new (padded_nop n) start)), at_padded n start (n + 1))
unfolding decode_opcode run
nop_opcode n start =
    bind-ok read_u8 _ (at_padded n start n)
      (read_u8-some (at_padded n start n) (get_elem?-padded_end n))

-- A NOP behind n + 1 prefix bytes is accepted for every n, also far beyond the processor's limit of
-- fifteen bytes for an instruction. All n + 2 bytes are consumed, and `len` is n + 2 modulo 256: at
-- 255 prefixes the instruction's length is 0.
pub next-padded_nop :
    (n start : ℕ)
    → next (new (padded_nop (suc n)) start)
      ≡ ok (
        record {
          op = Op.nop;
          operands = no_operands;
          len = (suc n + 1) % 256;
          guest_rip = rip (new (padded_nop (suc n)) start);
        },
        record (new (padded_nop (suc n)) start) { at = suc n + 1 },
      )
unfolding next decode_body
next-padded_nop n start =
    ap (finish 0 (rip (new (padded_nop (suc n)) start))) (
      bind-ok read_prefixes _ (new (padded_nop (suc n)) start) (read_padded n start)
      ∙ nop_opcode (suc n) start)
    ∙ ap
        (λ (k : ℕ). ok (
          record (nop_at (rip (new (padded_nop (suc n)) start))) { len = k % 256 },
          at_padded (suc n) start (suc n + 1),
        ))
        (omega arith)
