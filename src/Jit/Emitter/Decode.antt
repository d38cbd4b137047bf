-- ===== src/Jit/Emitter/Decode.antt =====
-- crates/quantum-jit/src/emitter.rs: the A64 instructions that the words stand for, by the fields
-- under which the architecture's manual describes them.
use quantum.Prelude.{
  ℕ, ◌-◌, ◌/◌, ◌%◌, ◌^◌, ◌<◌, ◌≡◌, true, List, [], ◌∷◌, Option, none, some, ◌==◌, ltb,
  if◌then◌else◌, ℤ, pos, negsuc, get_elem?,
}
use mathlib.Core.Option.{map}
use quantum.Jit.Emitter.State.{Reg, A64Cond}
use quantum.Jit.Emitter.Word.{fields}
use quantum.Jit.Emitter.Integer.{
  movw_word, addsub_imm_word, addsub_shifted_word, logical_shifted_word, dp_2src_word,
  multiply_word, csel_word,
}
use quantum.Jit.Emitter.Memory.{ldst_uoff_word, ldstp_word, in_seven_bits}

pub data Insn : Type 0 where
  mov_wide : (sf opc hw imm16 : ℕ) (rd : Reg) → Insn
  add_sub_imm : (sf op s shift imm12 : ℕ) (rn rd : Reg) → Insn
  add_sub_reg : (sf op s shift : ℕ) (rm : Reg) (imm6 : ℕ) (rn rd : Reg) → Insn
  logical_reg : (sf opc shift n : ℕ) (rm : Reg) (imm6 : ℕ) (rn rd : Reg) → Insn
  two_source : (sf opcode : ℕ) (rm rn rd : Reg) → Insn
  multiply_add : (o0 : ℕ) (rd rn rm ra : Reg) → Insn
  select : (sf op o2 : ℕ) (rm : Reg) (cond : A64Cond) (rn rd : Reg) → Insn
  load_store : (size v opc imm12 : ℕ) (rn rt : Reg) → Insn
  load_store_pair : (opc v load idx_mode : ℕ) (imm7 : ℤ) (rt2 rn rt : Reg) → Insn

-- The source's word for an instruction.
unfoldable pub encode : Insn → ℕ
encode (Insn.mov_wide sf opc hw imm16 rd) = movw_word sf opc hw imm16 rd
encode (Insn.add_sub_imm sf op s shift imm12 rn rd) = addsub_imm_word sf op s shift imm12 rn rd
encode (Insn.add_sub_reg sf op s shift rm imm6 rn rd) =
    addsub_shifted_word sf op s shift rm imm6 rn rd
encode (Insn.logical_reg sf opc shift n rm imm6 rn rd) =
    logical_shifted_word sf opc shift n rm imm6 rn rd
encode (Insn.two_source sf opcode rm rn rd) = dp_2src_word sf opcode rm rn rd
encode (Insn.multiply_add o0 rd rn rm ra) = multiply_word o0 rd rn rm ra
encode (Insn.select sf op o2 rm cond rn rd) = csel_word sf op o2 rm cond rn rd
encode (Insn.load_store size v opc imm12 rn rt) = ldst_uoff_word size v opc imm12 rn rt
encode (Insn.load_store_pair opc v load idx_mode imm7 rt2 rn rt) =
    ldstp_word opc v load idx_mode imm7 rt2 rn rt

-- The fields have their widths.
abbrev pub IsEncodable : Insn → Type 0
IsEncodable (Insn.mov_wide sf opc hw imm16 rd) =
    (sf < 2) × (opc < 4) × (hw < 4) × (imm16 < 65536) × (rd < 32)
IsEncodable (Insn.add_sub_imm sf op s shift imm12 rn rd) =
    (sf < 2) × (op < 2) × (s < 2) × (shift < 2) × (imm12 < 4096) × (rn < 32) × (rd < 32)
IsEncodable (Insn.add_sub_reg sf op s shift rm imm6 rn rd) =
    (sf < 2) × (op < 2) × (s < 2) × (shift < 4) × (rm < 32) × (imm6 < 64) × (rn < 32) × (rd < 32)
IsEncodable (Insn.logical_reg sf opc shift n rm imm6 rn rd) =
    (sf < 2) × (opc < 4) × (shift < 4) × (n < 2) × (rm < 32) × (imm6 < 64) × (rn < 32) × (rd < 32)
IsEncodable (Insn.two_source sf opcode rm rn rd) =
    (sf < 2) × (opcode < 64) × (rm < 32) × (rn < 32) × (rd < 32)
IsEncodable (Insn.multiply_add o0 rd rn rm ra) =
    (o0 < 2) × (rd < 32) × (rn < 32) × (rm < 32) × (ra < 32)
IsEncodable (Insn.select sf op o2 rm cond rn rd) =
    (sf < 2) × (op < 2) × (o2 < 4) × (rm < 32) × (rn < 32) × (rd < 32)
IsEncodable (Insn.load_store size v opc imm12 rn rt) =
    (size < 4) × (v < 2) × (opc < 4) × (imm12 < 4096) × (rn < 32) × (rt < 32)
IsEncodable (Insn.load_store_pair opc v load idx_mode imm7 rt2 rn rt) =
    (opc < 4)
    × (v < 2)
    × (load < 2)
    × (idx_mode < 4)
    × (in_seven_bits imm7 ≡ true)
    × (rt2 < 32)
    × (rn < 32)
    × (rt < 32)

-- What the manual says of the fields of each class, from the highest.
abbrev pub signed7 : ℕ → ℤ
signed7 x = if ltb x 64 then pos x else negsuc (127 - x)

abbrev pub cond_of : ℕ → Option A64Cond
cond_of = get_elem? (
    A64Cond.eq ∷ A64Cond.ne ∷ A64Cond.cs ∷ A64Cond.lo ∷ A64Cond.mi ∷ A64Cond.pl ∷ A64Cond.vs
    ∷ A64Cond.vc ∷ A64Cond.hi ∷ A64Cond.ls ∷ A64Cond.ge ∷ A64Cond.lt ∷ A64Cond.gt ∷ A64Cond.le
    ∷ A64Cond.al ∷ A64Cond.nv ∷ [])

abbrev pub read_mov_wide : List ℕ → Option Insn
read_mov_wide (sf ∷ opc ∷ o ∷ hw ∷ imm16 ∷ rd ∷ []) =
    if o == 0b100101 then some (Insn.mov_wide sf opc hw imm16 rd) else none
read_mov_wide _ = none

abbrev pub read_add_sub_imm : List ℕ → Option Insn
read_add_sub_imm (sf ∷ op ∷ s ∷ o ∷ shift ∷ imm12 ∷ rn ∷ rd ∷ []) =
    if o == 0b100010 then some (Insn.add_sub_imm sf op s shift imm12 rn rd) else none
read_add_sub_imm _ = none

abbrev pub read_add_sub_reg : List ℕ → Option Insn
read_add_sub_reg (sf ∷ op ∷ s ∷ o ∷ shift ∷ z ∷ rm ∷ imm6 ∷ rn ∷ rd ∷ []) =
    if z == 0 then some (Insn.add_sub_reg sf op s shift rm imm6 rn rd) else none
read_add_sub_reg _ = none

abbrev pub read_logical_reg : List ℕ → Option Insn
read_logical_reg (sf ∷ opc ∷ o ∷ shift ∷ n ∷ rm ∷ imm6 ∷ rn ∷ rd ∷ []) =
    some (Insn.logical_reg sf opc shift n rm imm6 rn rd)
read_logical_reg _ = none

abbrev pub read_two_source : List ℕ → Option Insn
read_two_source (sf ∷ z ∷ s ∷ o ∷ rm ∷ opcode ∷ rn ∷ rd ∷ []) =
    if s == 0 then some (Insn.two_source sf opcode rm rn rd) else none
read_two_source _ = none

abbrev pub read_select : List ℕ → Option Insn
read_select (sf ∷ op ∷ s ∷ o ∷ rm ∷ c ∷ o2 ∷ rn ∷ rd ∷ []) =
    map (λ cond. Insn.select sf op o2 rm cond rn rd) (cond_of c)
read_select _ = none

abbrev pub read_multiply_add : List ℕ → Option Insn
read_multiply_add (sf ∷ op54 ∷ o ∷ op31 ∷ rm ∷ o0 ∷ ra ∷ rn ∷ rd ∷ []) =
    if op31 == 0 then some (Insn.multiply_add o0 rd rn rm ra) else none
read_multiply_add _ = none

abbrev pub read_load_store : List ℕ → Option Insn
read_load_store (size ∷ o ∷ v ∷ m ∷ opc ∷ imm12 ∷ rn ∷ rt ∷ []) =
    some (Insn.load_store size v opc imm12 rn rt)
read_load_store _ = none

abbrev pub read_load_store_pair : List ℕ → Option Insn
read_load_store_pair (opc ∷ o ∷ v ∷ idx_mode ∷ load ∷ imm7 ∷ rt2 ∷ rn ∷ rt ∷ []) =
    some (Insn.load_store_pair opc v load idx_mode (signed7 imm7) rt2 rn rt)
read_load_store_pair _ = none

-- The class 26, by the bits 23 to 21.
abbrev pub by_low : ℕ → ℕ → Option Insn
by_low w t =
    if t == 6
    then read_two_source (fields (31 ∷ 30 ∷ 29 ∷ 21 ∷ 16 ∷ 10 ∷ 5 ∷ 0 ∷ []) w)
    else if t == 4
    then read_select (fields (31 ∷ 30 ∷ 29 ∷ 21 ∷ 16 ∷ 12 ∷ 10 ∷ 5 ∷ 0 ∷ []) w)
    else none

-- The classes, by the bits 28 to 24.
unfoldable pub of_class : ℕ → ℕ → Option Insn
of_class c w =
    if c == 18
    then read_mov_wide (fields (31 ∷ 29 ∷ 23 ∷ 21 ∷ 5 ∷ 0 ∷ []) w)
    else if c == 17
    then read_add_sub_imm (fields (31 ∷ 30 ∷ 29 ∷ 23 ∷ 22 ∷ 10 ∷ 5 ∷ 0 ∷ []) w)
    else if c == 11
    then read_add_sub_reg (fields (31 ∷ 30 ∷ 29 ∷ 24 ∷ 22 ∷ 21 ∷ 16 ∷ 10 ∷ 5 ∷ 0 ∷ []) w)
    else if c == 10
    then read_logical_reg (fields (31 ∷ 29 ∷ 24 ∷ 22 ∷ 21 ∷ 16 ∷ 10 ∷ 5 ∷ 0 ∷ []) w)
    else if c == 26
    then by_low w (w / 2 ^ 21 % 8)
    else if c == 27
    then read_multiply_add (fields (31 ∷ 29 ∷ 24 ∷ 21 ∷ 16 ∷ 15 ∷ 10 ∷ 5 ∷ 0 ∷ []) w)
    else if c == 25
    then read_load_store (fields (30 ∷ 27 ∷ 26 ∷ 24 ∷ 22 ∷ 10 ∷ 5 ∷ 0 ∷ []) w)
    else if c == 29
    then read_load_store (fields (30 ∷ 27 ∷ 26 ∷ 24 ∷ 22 ∷ 10 ∷ 5 ∷ 0 ∷ []) w)
    else if ltb c 14
    then read_load_store_pair (fields (30 ∷ 27 ∷ 26 ∷ 23 ∷ 22 ∷ 15 ∷ 10 ∷ 5 ∷ 0 ∷ []) w)
    else none

unfoldable pub decode : ℕ → Option Insn
decode w = of_class (w / 2 ^ 24 % 32) w
