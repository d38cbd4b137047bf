-- ===== src/Jit/Iform.antt =====
-- crates/quantum-jit/src/iform.rs: the instruction representation that the decoder produces.
-- Constructors are written behind their types, `Op.mov`.
use quantum.Prelude.{ℕ, zero, suc, ℤ, Option, none, some}

-- Register numbers stand for the order of the source's discriminants.
pub data GpReg : Type 0 where
  rax rcx rdx rbx rsp rbp rsi rdi r8 r9 r10 r11 r12 r13 r14 r15 : GpReg

from_index_high : ℕ → Option GpReg
from_index_high zero = some r8
from_index_high (suc zero) = some r9
from_index_high (suc (suc zero)) = some r10
from_index_high (suc (suc (suc zero))) = some r11
from_index_high (suc (suc (suc (suc zero)))) = some r12
from_index_high (suc (suc (suc (suc (suc zero))))) = some r13
from_index_high (suc (suc (suc (suc (suc (suc zero)))))) = some r14
from_index_high (suc (suc (suc (suc (suc (suc (suc zero))))))) = some r15
from_index_high (suc (suc (suc (suc (suc (suc (suc (suc i)))))))) = none

-- `GpReg::from_index`, the transmute of a discriminant below 16.
unfoldable pub from_index : ℕ → Option GpReg
unfolding from_index_high
from_index zero = some rax
from_index (suc zero) = some rcx
from_index (suc (suc zero)) = some rdx
from_index (suc (suc (suc zero))) = some rbx
from_index (suc (suc (suc (suc zero)))) = some rsp
from_index (suc (suc (suc (suc (suc zero))))) = some rbp
from_index (suc (suc (suc (suc (suc (suc zero)))))) = some rsi
from_index (suc (suc (suc (suc (suc (suc (suc zero))))))) = some rdi
from_index (suc (suc (suc (suc (suc (suc (suc (suc i)))))))) = from_index_high i

-- The width of an integer operand in bytes.
pub data OpSize : Type 0 where
  b1 b2 b4 b8 : OpSize

pub data Seg : Type 0 where
  fs gs : Seg

-- `[base + index * scale + disp]`; `disp` is an i32.
pub record Mem : Type 0 where
  pub base : Option GpReg
  pub index : Option GpReg
  pub scale : ℕ
  pub disp : ℤ
  pub size : OpSize
  pub seg : Option Seg

pub data Operand : Type 0 where
  reg : GpReg → OpSize → Operand
  xmm_reg : ℕ → OpSize → Operand
  imm : ℤ → OpSize → Operand
  mem : Mem → Operand
  rip_rel : ℤ → OpSize → Operand

-- `not_o` is the source's `NO`; the other negations keep their letters.
pub data Cond : Type 0 where
  o not_o b nb e ne be a s ns p np l nl le g : Cond

pub data Op : Type 0 where
  mov movzx movsx movsxd lea xchg push pop pushfq popfq : Op
  cmov : Cond → Op
  add adc sub sbb inc dec neg mul imul div idiv cdq cqo cwde : Op
  and or xor not test cmp shl shr sar rol ror rcl rcr : Op
  bt bts btr btc bsf bsr xadd cmpxchg : Op
  set : Cond → Op
  call call_indirect ret ret_imm jmp jmp_indirect : Op
  jcc : Cond → Op
  leave enter int3 int ud2 hlt syscall cpuid rdtsc : Op
  cld std clc stc cmc movs stos lods cmps scas nop : Op
  movq_xmm movsd_xmm movss_xmm movdq_xmm pxor_xmm pand_xmm por_xmm : Op
  add_scalar sub_scalar mul_scalar div_scalar : Op
  cvt_int_to_scalar cvt_scalar_to_int cvt_scalar_to_int_trunc cvt_ss_to_sd cvt_sd_to_ss : Op
  ucomis_scalar min_scalar max_scalar sqrt_scalar bswap : Op
  padd_q psub_q padd_d psub_d padd_w psub_w padd_b psub_b : Op
  add_packed sub_packed mul_packed div_packed : Op
  pcmpeq_lane psll_imm psrl_imm psra_imm : OpSize → Op
  pshuf_d pmull_w pslldq_imm psrldq_imm : Op
  punpck_low punpck_high : OpSize → Op
  pmovmsk_b unhandled : Op

-- `[Option<Operand>; 3]`.
pub record Operands : Type 0 where
  pub first : Option Operand
  pub second : Option Operand
  pub third : Option Operand

pub record Inst : Type 0 where
  pub op : Op
  pub operands : Operands
  pub len : ℕ
  pub guest_rip : ℕ
