-- ===== src/Lib.antt =====
-- Verification of quantum, a runtime that translates x86 code of Windows programs to AArch64.
--
-- The program. A loader maps a PE image; the dispatcher of the runtime asks the translator for
-- host code one basic block at a time; the translator (crates/quantum-jit) decodes the guest's
-- bytes into instructions, cuts a block out of them, lifts it and emits the host's words; the
-- dispatcher installs them in its code cache and chains blocks by rewriting branches; calls of the
-- Win32 API land in crates/quantum-kernel32. Modelled are the whole instruction decoder, the cutting
-- of blocks with the targets that blocks are chained to, the whole emitter, the parser of PE files,
-- their loading and relocation, the exception directory, the code cache with its map and chain
-- patching, the table of handles, critical sections, and the process heap.
--
-- Which file models what.
--   Prelude: shared names; lemmas on lists, slices, Boolean tests, integers, bytes and bit_or; and
--     Checked, a call that returns or panics.
--   Jit.Iform: crates/quantum-jit/src/iform.rs, all of its types.
--   Jit.Decoder.State: crates/quantum-jit/src/decoder.rs, the struct Decoder and its reads. A method
--     on `&mut self` is a function from the state to an Outcome with the next state; `?` is the bind
--     of a do block. An Outcome is ok, an error of the source, or panic, which stands for a failed
--     unwrap, an unreachable! or a slice index out of range.
--   Jit.Decoder.Prefixes, ModRm, Groups, OneByte, Primary, TwoByte, Secondary, Next: read_prefixes and
--     the operand sizes; decode_modrm, decode_rm_memory and the operands; the group opcodes and the
--     arithmetic forms; decode_primary and decode_secondary, one function per range of opcodes, in the
--     order of the source's arms, with the longer arms as functions of OneByte and TwoByte; next.
--   Jit.Decoder.Sound and below: for every method, that it consumes a bounded number of bytes, never
--     panics, makes well-formed operands and does not depend on the bytes behind those it reads.
--   Jit.Decoder.Total, RoundTrip, Quirks, Examples: what follows for next.
--   Jit.Block, with Chain and Contiguous: crates/quantum-jit/src/block.rs, the decoding loop of
--     translate_for_dispatcher, the targets in chain_patches, and detect_drm_int3_trap; with them
--     cond_x86_to_a64 of crates/quantum-jit/src/lifter.rs.
--   Jit.Block.Flags: what the conditions of the two processors test.
--   Jit.Emitter.State: crates/quantum-jit/src/emitter.rs, the struct Emitter with its code, labels and
--     fixups; make_label, bind, emit_branch, patch_branch and finish. Each round of the loop of finish
--     is `resolve`; a panic is an index out of range, a label bound twice or a backward branch out of
--     range.
--   Jit.Emitter.Word, Forms, Integer, Memory, Float, Vector, Lanes, Constants: the encoders, as words put
--     together from fields, by the kinds of instructions; load_const64.
--   Jit.Emitter.Items, Marks, Finish, Kept, Labels, Patch, Again: what finish does to the code.
--   Jit.Emitter.Decode, ByFields, Arithmetic, RoundTrip, Immediates: the words as instructions by the
--     architecture's fields. Machine, Moves, Loads: the registers of the host behind MOVZ and MOVK.
--   Loader.Pe, Load: crates/quantum-loader/src/pe.rs, the parser, and load of image.rs, with the memory
--     manager as a parameter. Loader.Parsed, Loaded, Headers, Contents, Fits: what they give.
--   Loader.Exception, Handlers: crates/quantum-loader/src/exception.rs, parse, parse_unwind_info and
--     resolve_handler, and what they come to.
--   Loader.Run, Image, Reloc: the bytes of a mapped image with its slices (image.rs), and apply of
--     reloc.rs; an error leaves the bytes written so far. Loader.Rebased, Applied: what apply does.
--   Runtime.CodeCache, Dispatcher: crates/quantum-runtime/src/codecache.rs and dispatcher.rs, install,
--     lookup, block_count and patch_chain. Runtime.Installed, Chained: what they come to.
--   Kernel32.Handles and below: crates/quantum-kernel32/src/handles.rs, pack, unpack, insert, get and
--     remove, on a table that is passed as a state (the source's is behind one mutex, so that each
--     call is one step).
--   Kernel32.CriticalSection and below: crates/quantum-kernel32/src/sync.rs,
--     InitializeCriticalSection, EnterCriticalSection, TryEnterCriticalSection and
--     LeaveCriticalSection. A thread's Phase says which atomic operation it does next; a Step is one
--     such operation of one thread, or the start of a call, so that any interleaving is a sequence
--     of steps. Memory is sequentially consistent.
--   Kernel32.Heap and below: crates/quantum-kernel32/src/heap.rs, HeapAlloc and HeapReAlloc on the bump
--     allocator; the ranges that are filled with zeros or copied are parts of the results.
--   Tests: concrete runs.
--
-- Numbers. Bytes, words and addresses are natural numbers, with `% 2 ^ w` where the source wraps;
-- i8, i16, i32 and i64 are integers, read from bytes in two's complement. The slice index
-- of the decoder does not wrap, since a slice is shorter than 2^63. The underflow in unpack
-- and the overflow of size + 15 in the heap are panics, as in a build with overflow checks.
--
-- Fuel. The prefix loop and the decoding loop of a block run on the number of bytes left plus one.
-- Each round consumes a byte, so the fuel does not run out; running out would be a panic. The loop
-- over the blocks of relocations runs on the size of the directory plus one; a round moves the
-- cursor on by at least eight bytes or to the largest u32. The loop of resolve_handler counts its
-- rounds and stops at seventeen, which is its fuel.
--
-- Not modelled: the lifter, and with it the host code of a block; the protections, the imports,
-- exports and other directories of an image; the run loop that asks for blocks; waiting on kernel
-- objects; the rest of the Win32 layer, which is mostly calls of the host's system.
-- In detect_drm_int3_trap the early returns are nested conditionals. The descriptor that remove
-- closes is a part of its result.
pub mod Prelude
pub mod Jit
pub mod Kernel32
pub mod Loader
pub mod Runtime
pub mod Tests
