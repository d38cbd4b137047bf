-- ===== src/Jit/Block.antt =====
-- crates/quantum-jit/src/block.rs: how a basic block is cut out of the instruction stream, and the
-- static targets that a block's terminator names. The emitted code is not modelled.
pub mod Chain
pub mod Contiguous
pub mod Flags
use quantum.Prelude.{
  ℕ, zero, suc, ◌+◌, List, [], ◌∷◌, ◌++◌, Option, none, some, Bool, true, false, ◌||◌, ◌==◌,
  if◌then◌else◌, ℤ, as_u64, wrapping_add64,
}
use quantum.Jit.Iform.{Cond, Op, OpSize, Operand, Inst}
use quantum.Jit.Decoder.State.{Outcome, ok, err, panic, Decoder, remaining}
use quantum.Jit.Decoder.Next.{next}
use quantum.Jit.Emitter.State.{A64Cond}

-- The ops at which `translate_for_dispatcher` stops.
abbrev pub is_terminator : Op → Bool
is_terminator Op.jmp = true
is_terminator (Op.jcc _) = true
is_terminator Op.ret = true
is_terminator Op.ret_imm = true
is_terminator Op.ud2 = true
is_terminator Op.jmp_indirect = true
is_terminator Op.call = true
is_terminator _ = false

-- The decoding loop. It appends each instruction, and stops behind a terminator or at the end of
-- the bytes. On fuel: each round consumes a byte.
unfoldable pub decode_loop : (Op → Bool) → ℕ → List Inst → Decoder → Outcome (List Inst × Decoder)
decode_loop stops zero insts d = panic
decode_loop stops (suc fuel) insts d = elim (next d) [
  | ok (i, d') ↦ elim (stops i.op || remaining d' == 0) [
    | true ↦ ok (insts ++ i ∷ [], d')
    | false ↦ decode_loop stops fuel (insts ++ i ∷ []) d'
  ]
  | err e ↦ err e
  | panic ↦ panic
]

-- The first pass of `translate_for_dispatcher`, and of `translate_with_stack` for its own choice of
-- terminators.
unfoldable pub decode_block : (Op → Bool) → Decoder → Outcome (List Inst × Decoder)
decode_block stops d = decode_loop stops (suc (remaining d)) [] d

pub data BlockError : Type 0 where
  unsupported_condition bad_operand : BlockError

pub data BlockResult : Type 0 where
  targets : List ℕ → BlockResult
  fails : BlockError → BlockResult

-- `cond_x86_to_a64` of lifter.rs.
abbrev pub cond_x86_to_a64 : Cond → Option A64Cond
cond_x86_to_a64 Cond.e = some A64Cond.eq
cond_x86_to_a64 Cond.ne = some A64Cond.ne
cond_x86_to_a64 Cond.b = some A64Cond.lo
cond_x86_to_a64 Cond.nb = some A64Cond.cs
cond_x86_to_a64 Cond.be = some A64Cond.ls
cond_x86_to_a64 Cond.a = some A64Cond.hi
cond_x86_to_a64 Cond.s = some A64Cond.mi
cond_x86_to_a64 Cond.ns = some A64Cond.pl
cond_x86_to_a64 Cond.l = some A64Cond.lt
cond_x86_to_a64 Cond.nl = some A64Cond.ge
cond_x86_to_a64 Cond.le = some A64Cond.le
cond_x86_to_a64 Cond.g = some A64Cond.gt
cond_x86_to_a64 Cond.o = some A64Cond.vs
cond_x86_to_a64 Cond.not_o = some A64Cond.vc
cond_x86_to_a64 Cond.p = some A64Cond.vs
cond_x86_to_a64 Cond.np = some A64Cond.vc

-- `guest_rip.wrapping_add(len as u64)`, and the same with the displacement.
abbrev pub fallthrough_rip : Inst → ℕ
fallthrough_rip i = wrapping_add64 i.guest_rip i.len

abbrev pub branch_rip : Inst → ℤ → ℕ
branch_rip i rel = wrapping_add64 (fallthrough_rip i) (as_u64 rel)

abbrev pub imm_of : Option Operand → Option ℤ
imm_of (some (Operand.imm v _)) = some v
imm_of _ = none

jump_targets : Inst → Option ℤ → BlockResult
jump_targets i none = fails bad_operand
jump_targets i (some rel) = targets (branch_rip i rel ∷ [])

cond_targets : Inst → Cond → Option ℤ → BlockResult
cond_targets i cond none = fails bad_operand
cond_targets i cond (some rel) = elim (cond_x86_to_a64 cond) [
  | none ↦ fails unsupported_condition
  | some _ ↦ targets (fallthrough_rip i ∷ branch_rip i rel ∷ [])
]

-- RET imm16 and CALL take an immediate; an indirect JMP takes a register or memory.
immediate_only : Option ℤ → BlockResult
immediate_only none = fails bad_operand
immediate_only (some _) = targets []

indirect_only : Option Operand → BlockResult
indirect_only (some (Operand.reg _ _)) = targets []
indirect_only (some (Operand.mem _)) = targets []
indirect_only (some (Operand.rip_rel _ _)) = targets []
indirect_only _ = fails bad_operand

targets_by : Inst → Op → BlockResult
unfolding jump_targets cond_targets immediate_only indirect_only
targets_by i Op.jmp = jump_targets i (imm_of i.operands.first)
targets_by i (Op.jcc cond) = cond_targets i cond (imm_of i.operands.first)
targets_by i Op.ret_imm = immediate_only (imm_of i.operands.first)
targets_by i Op.call = immediate_only (imm_of i.operands.first)
targets_by i Op.jmp_indirect = indirect_only i.operands.first
targets_by i _ = targets []

-- The guest addresses of `chain_patches`, in the order in which the terminator pushes them, and the
-- errors of the terminator but those of the lifter.
unfoldable pub chain_targets : Inst → BlockResult
unfolding targets_by
chain_targets i = targets_by i i.op

-- `detect_drm_int3_trap`, on the first two instructions.
is_int3 : Op → Bool
is_int3 Op.int3 = true
is_int3 _ = false

is_jmp : Op → Bool
is_jmp Op.jmp = true
is_jmp _ = false

trap_resume : Inst → Inst → Option ℤ → Option ℕ
trap_resume int3 jmp none = none
trap_resume int3 jmp (some rel) =
    if branch_rip jmp rel == int3.guest_rip then some (fallthrough_rip jmp) else none

unfoldable pub detect_drm_int3_trap : List Inst → Option ℕ
unfolding is_int3 is_jmp trap_resume
detect_drm_int3_trap (int3 ∷ jmp ∷ _) =
    if is_int3 int3.op
    then (if is_jmp jmp.op then trap_resume int3 jmp (imm_of jmp.operands.first) else none)
    else none
detect_drm_int3_trap _ = none
