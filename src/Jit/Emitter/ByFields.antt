-- ===== src/Jit/Emitter/ByFields.antt =====
-- crates/quantum-jit/src/emitter.rs: the word of a class is read back by its fields.
use quantum.Prelude.{ℕ, ◌/◌, ◌%◌, ◌^◌, ◌<◌, ◌≡◌, refl, ap, ◌∙◌, List, [], ◌∷◌, Option, some, arith}
use quantum.Jit.Emitter.State.{A64Cond}
use quantum.Jit.Emitter.Word.{
  Field, word, sum, InOrder, word_lem, fields, places, values, fields-word,
}
use quantum.Jit.Emitter.Integer.{cond_code}
use quantum.Jit.Emitter.Decode.{
  Insn, cond_of, read_two_source, read_select, of_class, decode, by_low,
}

pub by_fields :
    (fs : List Field) (c : ℕ) (read : List ℕ → Option Insn)
    → InOrder 32 fs
    → sum fs / 2 ^ 24 % 32 ≡ c
    → ((w : ℕ) → w / 2 ^ 21 % 8 ≡ sum fs / 2 ^ 21 % 8 → of_class c w ≡ read (fields (places fs) w))
    → decode (word fs) ≡ read (values fs)
unfolding decode
by_fields fs c read o e h =
    ap (λ (t : ℕ). of_class t (word fs)) {x = word fs / 2 ^ 24 % 32} {y = c}
      (ap (λ (t : ℕ). t / 2 ^ 24 % 32) (word_lem fs o) ∙ e)
    ∙ h (word fs) (ap (λ (t : ℕ). t / 2 ^ 21 % 8) (word_lem fs o))
    ∙ ap read (fields-word fs o)

pub read_at_six :
    (w : ℕ)
    → w / 2 ^ 21 % 8 ≡ 6
    → of_class 26 w ≡ read_two_source (fields (31 ∷ 30 ∷ 29 ∷ 21 ∷ 16 ∷ 10 ∷ 5 ∷ 0 ∷ []) w)
unfolding of_class
read_at_six w h = ap (by_low w) {x = w / 2 ^ 21 % 8} {y = 6} h

pub read_at_four :
    (w : ℕ)
    → w / 2 ^ 21 % 8 ≡ 4
    → of_class 26 w ≡ read_select (fields (31 ∷ 30 ∷ 29 ∷ 21 ∷ 16 ∷ 12 ∷ 10 ∷ 5 ∷ 0 ∷ []) w)
unfolding of_class
read_at_four w h = ap (by_low w) {x = w / 2 ^ 21 % 8} {y = 4} h

pub code_lt : (c : A64Cond) → cond_code c < 16
code_lt A64Cond.eq = omega arith
code_lt A64Cond.ne = omega arith
code_lt A64Cond.cs = omega arith
code_lt A64Cond.lo = omega arith
code_lt A64Cond.mi = omega arith
code_lt A64Cond.pl = omega arith
code_lt A64Cond.vs = omega arith
code_lt A64Cond.vc = omega arith
code_lt A64Cond.hi = omega arith
code_lt A64Cond.ls = omega arith
code_lt A64Cond.ge = omega arith
code_lt A64Cond.lt = omega arith
code_lt A64Cond.gt = omega arith
code_lt A64Cond.le = omega arith
code_lt A64Cond.al = omega arith
code_lt A64Cond.nv = omega arith

pub cond_of-cond_code : (c : A64Cond) → cond_of (cond_code c) ≡ some c
cond_of-cond_code A64Cond.eq = refl
cond_of-cond_code A64Cond.ne = refl
cond_of-cond_code A64Cond.cs = refl
cond_of-cond_code A64Cond.lo = refl
cond_of-cond_code A64Cond.mi = refl
cond_of-cond_code A64Cond.pl = refl
cond_of-cond_code A64Cond.vs = refl
cond_of-cond_code A64Cond.vc = refl
cond_of-cond_code A64Cond.hi = refl
cond_of-cond_code A64Cond.ls = refl
cond_of-cond_code A64Cond.ge = refl
cond_of-cond_code A64Cond.lt = refl
cond_of-cond_code A64Cond.gt = refl
cond_of-cond_code A64Cond.le = refl
cond_of-cond_code A64Cond.al = refl
cond_of-cond_code A64Cond.nv = refl
