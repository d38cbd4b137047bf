-- ===== src/Jit/Emitter/Arithmetic.antt =====
-- crates/quantum-jit/src/emitter.rs: the words of the data-processing instructions, read back.
use quantum.Prelude.{ℕ, ◌≡◌, refl, ap, ◌∙◌, [], ◌∷◌, some, arith}
use mathlib.Core.Option.{map}
use quantum.Jit.Emitter.State.{A64Cond}
use quantum.Jit.Emitter.Integer.{
  movw_word, addsub_imm_word, addsub_shifted_word, logical_shifted_word, dp_2src_word,
  multiply_word, csel_word, cond_code,
}
use quantum.Jit.Emitter.ByFields.{by_fields, read_at_six, read_at_four, code_lt, cond_of-cond_code}
use quantum.Jit.Emitter.Decode.{
  Insn, IsEncodable, read_mov_wide, read_add_sub_imm, read_add_sub_reg, read_logical_reg,
  read_two_source, read_select, read_multiply_add, of_class, decode,
}

pub decode-mov_wide :
    (sf opc hw imm16 rd : ℕ)
    → IsEncodable (Insn.mov_wide sf opc hw imm16 rd)
    → decode (movw_word sf opc hw imm16 rd) ≡ some (Insn.mov_wide sf opc hw imm16 rd)
unfolding movw_word of_class
decode-mov_wide sf opc hw imm16 rd (h0, h1, h2, h3, h4) =
    by_fields ((sf, 31) ∷ (opc, 29) ∷ (0b100101, 23) ∷ (hw, 21) ∷ (imm16, 5) ∷ (rd, 0) ∷ []) 18
      read_mov_wide
      (omega arith, (omega arith, (omega arith, (omega arith, (omega arith, (omega arith, tt))))))
      (omega arith) (λ w h. refl)

pub decode-add_sub_imm :
    (sf op s shift imm12 rn rd : ℕ)
    → IsEncodable (Insn.add_sub_imm sf op s shift imm12 rn rd)
    → decode (addsub_imm_word sf op s shift imm12 rn rd)
      ≡ some (Insn.add_sub_imm sf op s shift imm12 rn rd)
unfolding addsub_imm_word of_class
decode-add_sub_imm sf op s shift imm12 rn rd (h0, h1, h2, h3, h4, h5, h6) =
    by_fields
      ((sf, 31)
        ∷ (op, 30)
        ∷ (s, 29)
        ∷ (0b100010, 23)
        ∷ (shift, 22)
        ∷ (imm12, 10)
        ∷ (rn, 5)
        ∷ (rd, 0)
        ∷ [])
      17 read_add_sub_imm
      (
        omega arith,
        (
          omega arith,
          (
            omega arith,
            (omega arith, (omega arith, (omega arith, (omega arith, (omega arith, tt))))),
          ),
        ),
      )
      (omega arith) (λ w h. refl)

pub decode-add_sub_reg :
    (sf op s shift rm imm6 rn rd : ℕ)
    → IsEncodable (Insn.add_sub_reg sf op s shift rm imm6 rn rd)
    → decode (addsub_shifted_word sf op s shift rm imm6 rn rd)
      ≡ some (Insn.add_sub_reg sf op s shift rm imm6 rn rd)
unfolding addsub_shifted_word of_class
decode-add_sub_reg sf op s shift rm imm6 rn rd (h0, h1, h2, h3, h4, h5, h6, h7) =
    by_fields
      ((sf, 31)
        ∷ (op, 30)
        ∷ (s, 29)
        ∷ (0b01011, 24)
        ∷ (shift, 22)
        ∷ (0, 21)
        ∷ (rm, 16)
        ∷ (imm6, 10)
        ∷ (rn, 5)
        ∷ (rd, 0)
        ∷ [])
      11 read_add_sub_reg
      (
        omega arith,
        (
          omega arith,
          (
            omega arith,
            (
              omega arith,
              (
                omega arith,
                (omega arith, (omega arith, (omega arith, (omega arith, (omega arith, tt))))),
              ),
            ),
          ),
        ),
      )
      (omega arith) (λ w h. refl)

pub decode-logical_reg :
    (sf opc shift n rm imm6 rn rd : ℕ)
    → IsEncodable (Insn.logical_reg sf opc shift n rm imm6 rn rd)
    → decode (logical_shifted_word sf opc shift n rm imm6 rn rd)
      ≡ some (Insn.logical_reg sf opc shift n rm imm6 rn rd)
unfolding logical_shifted_word of_class
decode-logical_reg sf opc shift n rm imm6 rn rd (h0, h1, h2, h3, h4, h5, h6, h7) =
    by_fields
      ((sf, 31)
        ∷ (opc, 29)
        ∷ (0b01010, 24)
        ∷ (shift, 22)
        ∷ (n, 21)
        ∷ (rm, 16)
        ∷ (imm6, 10)
        ∷ (rn, 5)
        ∷ (rd, 0)
        ∷ [])
      10 read_logical_reg
      (
        omega arith,
        (
          omega arith,
          (
            omega arith,
            (
              omega arith,
              (omega arith, (omega arith, (omega arith, (omega arith, (omega arith, tt))))),
            ),
          ),
        ),
      )
      (omega arith) (λ w h. refl)

pub decode-two_source :
    (sf opcode rm rn rd : ℕ)
    → IsEncodable (Insn.two_source sf opcode rm rn rd)
    → decode (dp_2src_word sf opcode rm rn rd) ≡ some (Insn.two_source sf opcode rm rn rd)
unfolding dp_2src_word of_class
decode-two_source sf opcode rm rn rd (h0, h1, h2, h3, h4) =
    by_fields
      ((sf, 31)
        ∷ (0, 30)
        ∷ (0, 29)
        ∷ (0b11010110, 21)
        ∷ (rm, 16)
        ∷ (opcode, 10)
        ∷ (rn, 5)
        ∷ (rd, 0)
        ∷ [])
      26 read_two_source
      (
        omega arith,
        (
          omega arith,
          (
            omega arith,
            (omega arith, (omega arith, (omega arith, (omega arith, (omega arith, tt))))),
          ),
        ),
      )
      (omega arith) (λ w h. read_at_six w (omega arith))

pub decode-multiply_add :
    (o0 rd rn rm ra : ℕ)
    → IsEncodable (Insn.multiply_add o0 rd rn rm ra)
    → decode (multiply_word o0 rd rn rm ra) ≡ some (Insn.multiply_add o0 rd rn rm ra)
unfolding multiply_word of_class
decode-multiply_add o0 rd rn rm ra (h0, h1, h2, h3, h4) =
    by_fields
      ((1, 31)
        ∷ (0b00, 29)
        ∷ (0b11011, 24)
        ∷ (0b000, 21)
        ∷ (rm, 16)
        ∷ (o0, 15)
        ∷ (ra, 10)
        ∷ (rn, 5)
        ∷ (rd, 0)
        ∷ [])
      27 read_multiply_add
      (
        omega arith,
        (
          omega arith,
          (
            omega arith,
            (
              omega arith,
              (omega arith, (omega arith, (omega arith, (omega arith, (omega arith, tt))))),
            ),
          ),
        ),
      )
      (omega arith) (λ w h. refl)

pub decode-select :
    (sf op o2 rm : ℕ) (cond : A64Cond) (rn rd : ℕ)
    → IsEncodable (Insn.select sf op o2 rm cond rn rd)
    → decode (csel_word sf op o2 rm cond rn rd) ≡ some (Insn.select sf op o2 rm cond rn rd)
unfolding csel_word of_class
decode-select sf op o2 rm cond rn rd (h0, h1, h2, h3, h4, h5) =
    by_fields
      ((sf, 31)
        ∷ (op, 30)
        ∷ (0, 29)
        ∷ (0b11010100, 21)
        ∷ (rm, 16)
        ∷ (cond_code cond, 12)
        ∷ (o2, 10)
        ∷ (rn, 5)
        ∷ (rd, 0)
        ∷ [])
      26 read_select
      (
        omega (arith, code_lt cond),
        (
          omega (arith, code_lt cond),
          (
            omega (arith, code_lt cond),
            (
              omega (arith, code_lt cond),
              (
                omega (arith, code_lt cond),
                (
                  omega (arith, code_lt cond),
                  (
                    omega (arith, code_lt cond),
                    (omega (arith, code_lt cond), (omega (arith, code_lt cond), tt)),
                  ),
                ),
              ),
            ),
          ),
        ),
      )
      (omega (arith, code_lt cond)) (λ w h. read_at_four w (omega (arith, h, code_lt cond)))
    ∙ ap (map (λ c. Insn.select sf op o2 rm c rn rd)) (cond_of-cond_code cond)

-- The class of a load or a store has the bit v.
