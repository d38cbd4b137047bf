-- ===== src/Jit/Decoder/ModRm.antt =====
-- crates/quantum-jit/src/decoder.rs: ModRM, SIB, register operands, immediates, `make`.
use quantum.Prelude.{
  ℕ, ◌/◌, ◌%◌, ◌^◌, Option, none, some, Bool, true, false, not, ◌&&◌, ◌==◌, if◌then◌else◌, ℤ, pos,
  signed,
}
use Prim.Native.Nat.{bit_or}
use quantum.Jit.Iform.{GpReg, from_index, OpSize, Mem, Operand, Op, Operands, Inst}
use quantum.Jit.Decoder.State.{
  Decode, ◌>>=◌, pure, unwrap, is_long, read_u8, read_i8, read_i16, read_i32, read_u64,
}
use quantum.Jit.Decoder.Prefixes.{Prefixes}

-- `((rex_bit as u8) << 3) | low`. The conversions to integers apply it to a field that has the
-- REX bit already, so the `|` matters.
unfoldable pub reg_index : Bool → ℕ → ℕ
reg_index high low = bit_or (if high then 8 else 0) low

-- `modrm >> 6`, `(modrm >> 3) & 0b111` and `modrm & 0b111`; so for SIB.
abbrev pub top2 : ℕ → ℕ
top2 x = x / 64

abbrev pub mid3 : ℕ → ℕ
mid3 x = x / 8 % 8

abbrev pub low3 : ℕ → ℕ
low3 x = x % 8

abbrev pub is_none : {A : Type 0} → Option A → Bool
is_none none = true
is_none (some _) = false

-- `GpReg::from_index(r).unwrap()`.
unfoldable pub gp_reg : Bool → ℕ → Decode GpReg
gp_reg high low = unwrap (from_index (reg_index high low))

unfoldable pub optional_reg : Bool → Bool → ℕ → Decode (Option GpReg)
optional_reg absent high low = if absent then pure none else do r ← gp_reg high low; pure (some r)

-- The SIB byte: base, index and scale.
unfoldable pub decode_sib : Prefixes → ℕ → Decode (Option GpReg × Option GpReg × ℕ)
decode_sib p mod_ = do
  sib ← read_u8
  index ← optional_reg (mid3 sib == 4 && not p.rex.x) p.rex.x (mid3 sib)
  base ← optional_reg (mod_ == 0 && low3 sib == 5) p.rex.b (low3 sib)
  pure (base, index, 2 ^ top2 sib)

unfoldable pub plain_base : Prefixes → ℕ → Decode (Option GpReg × Option GpReg × ℕ)
plain_base p rm = do r ← gp_reg p.rex.b rm; pure (some r, none, 1)

unfoldable pub displacement : ℕ → ℕ → Option GpReg → Decode ℤ
displacement mod_ rm base =
    if mod_ == 0 && (rm == 4 && is_none base)
    then read_i32
    else if mod_ == 1
    then read_i8
    else if mod_ == 2
    then read_i32
    else pure (pos 0)

abbrev pub absolute : Prefixes → ℤ → OpSize → Mem
absolute p disp size = record {
  base = none;
  index = none;
  scale = 1;
  disp = disp;
  size = size;
  seg = p.seg;
}

-- mod = 00, rm = 101: RIP-relative in long mode, absolute otherwise.
unfoldable pub no_base_memory : Prefixes → OpSize → Decode Operand
no_base_memory p size = do
  disp ← read_i32
  long ← is_long
  pure (if long then Operand.rip_rel disp size else Operand.mem (absolute p disp size))

unfoldable pub based_memory : Prefixes → ℕ → ℕ → OpSize → Decode Operand
based_memory p mod_ rm size = do
  (base, index, scale) ← (if rm == 4 then decode_sib p mod_ else plain_base p rm)
  disp ← displacement mod_ rm base
  pure (
      Operand.mem (record {
        base = base;
        index = index;
        scale = scale;
        disp = disp;
        size = size;
        seg = p.seg;
      }))

unfoldable pub decode_rm_memory : Prefixes → ℕ → ℕ → OpSize → Decode Operand
decode_rm_memory p mod_ rm size =
    if mod_ == 0 && rm == 5 then no_base_memory p size else based_memory p mod_ rm size

unfoldable pub register_rm : Prefixes → ℕ → OpSize → Decode Operand
register_rm p rm size = do r ← gp_reg p.rex.b rm; pure (Operand.reg r size)

-- The r/m operand and the reg field.
unfoldable pub decode_modrm : Prefixes → OpSize → Decode (Operand × ℕ)
decode_modrm p size = do
  modrm ← read_u8
  rm_op ←
      (if top2 modrm == 3
        then register_rm p (low3 modrm) size
        else decode_rm_memory p (top2 modrm) (low3 modrm) size)
  pure (rm_op, mid3 modrm)

-- The same with an XMM register, and the reg field extended by REX.R.
unfoldable pub decode_modrm_xmm : Prefixes → OpSize → Decode (Operand × ℕ)
decode_modrm_xmm p size = do
  modrm ← read_u8
  rm_op ←
      (if top2 modrm == 3
        then pure (Operand.xmm_reg (reg_index p.rex.b (low3 modrm)) size)
        else decode_rm_memory p (top2 modrm) (low3 modrm) size)
  pure (rm_op, reg_index p.rex.r (mid3 modrm))

unfoldable pub reg_operand : Prefixes → ℕ → OpSize → Decode Operand
reg_operand p reg_field size = do r ← gp_reg p.rex.r reg_field; pure (Operand.reg r size)

unfoldable pub opcode_reg_operand : Prefixes → ℕ → OpSize → Decode Operand
opcode_reg_operand p opcode_low3 size = do r ← gp_reg p.rex.b opcode_low3; pure (Operand.reg r size)

unfoldable pub read_imm : OpSize → Decode ℤ
read_imm OpSize.b1 = read_i8
read_imm OpSize.b2 = read_i16
read_imm OpSize.b4 = read_i32
read_imm OpSize.b8 = do x ← read_u64; pure (signed 64 x)

-- `make`; the caller sets `len`.
unfoldable pub make : Op → Operands → ℕ → Inst
make op operands rip = record { op = op; operands = operands; len = 0; guest_rip = rip }

abbrev pub no_operands : Operands
no_operands = record { first = none; second = none; third = none }

abbrev pub one_operand : Operand → Operands
one_operand a = record { first = some a; second = none; third = none }

abbrev pub two_operands : Operand → Operand → Operands
two_operands a b = record { first = some a; second = some b; third = none }

abbrev pub three_operands : Operand → Operand → Operand → Operands
three_operands a b c = record { first = some a; second = some b; third = some c }

abbrev pub unhandled : ℕ → Inst
unhandled rip = make Op.unhandled no_operands rip

unfoldable pub rewidth : Operand → OpSize → Operand
rewidth (Operand.reg r _) size = Operand.reg r size
rewidth (Operand.xmm_reg r _) size = Operand.xmm_reg r size
rewidth (Operand.mem m) size = Operand.mem (record m { size = size })
rewidth (Operand.rip_rel d _) size = Operand.rip_rel d size
rewidth (Operand.imm v _) size = Operand.imm v size
