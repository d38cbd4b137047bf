-- ===== src/Tests/Emitter.antt =====
-- crates/quantum-jit/src/emitter.rs: the theorems about the emitter, on concrete code.
use quantum.Prelude.{ℕ, ◌≡◌, refl, List, [], ◌∷◌, some, none, arith, max, length, All, negsuc}
use quantum.Prelude.Checked.{returns}
use quantum.Jit.Emitter.State.{
  Emitter, new, ok, err, unbound_label, push, make_label, bind, emit_branch, branch26, branch19,
  finish, finish_loop, patch_branch,
}
use quantum.Jit.Emitter.Patch.{Aims, patch_branch-Aims}
use quantum.Jit.Emitter.Items.{Built, fresh, pushes, makes, binds, branches, plain, jump, Stands}
use quantum.Jit.Emitter.Integer.{encode_addsub_imm}
use quantum.Jit.Emitter.Immediates.{Encodes, encode_addsub_imm-Encodes}
use quantum.Jit.Emitter.Again.{finish-finish}
use quantum.Jit.Emitter.Labels.{finish-Stands}
use quantum.Jit.Emitter.Decode.{Insn}
use quantum.Jit.Emitter.Machine.{Registers, run, write}
use quantum.Jit.Emitter.Constants.{load_const64}
use quantum.Jit.Emitter.Moves.{with_words}
use quantum.Jit.Emitter.Loads.{nonzero_lanes, load_const64_loads}

-- b end; nop; end: ret
abbrev labelled : Emitter
labelled = record new { labels = none ∷ [] }

abbrev jumped : Emitter
jumped = record {
  code = 0x14000000 ∷ [];
  labels = none ∷ [];
  fixups = record { word_index = 0; kind = branch26; label = 0 } ∷ [];
}

abbrev padded_code : Emitter
padded_code = record jumped { code = 0x14000000 ∷ 0xD503201F ∷ [] }

abbrev bound_code : Emitter
bound_code = record padded_code { labels = some 2 ∷ [] }

abbrev complete : Emitter
complete = record bound_code { code = 0x14000000 ∷ 0xD503201F ∷ 0xD65F03C0 ∷ [] }

abbrev finished : Emitter
finished = record {
  code = 0x14000002 ∷ 0xD503201F ∷ 0xD65F03C0 ∷ [];
  labels = some 2 ∷ [];
  fixups = [];
}

complete-Built :
    Built complete
      (plain 2 0xD65F03C0
        ∷ plain 1 0xD503201F
        ∷ jump (record { index = 0; base = 0x14000000; kind = branch26; label = 0 })
        ∷ [])
      ((0, 2) ∷ [])
unfolding push make_label bind emit_branch
complete-Built =
    pushes {e = bound_code} 0xD65F03C0
      (binds {e = padded_code} 0
        (pushes {e = jumped} 0xD503201F
          (branches {e = labelled} 0x14000000 branch26 0 (makes 0 fresh refl) refl) refl)
        refl)
      refl

complete_finishes : finish complete ≡ returns (ok tt, finished)
unfolding finish finish_loop patch_branch
complete_finishes = refl

finish-Stands_example : All (Stands ((0, 2) ∷ []) finished.code) (
    plain 2 0xD65F03C0
    ∷ plain 1 0xD503201F
    ∷ jump (record { index = 0; base = 0x14000000; kind = branch26; label = 0 })
    ∷ [])
finish-Stands_example = finish-Stands complete-Built complete_finishes

backward_cond : patch_branch 0x54000001 branch19 (negsuc 3) ≡ ok 0x54FFFF81
unfolding patch_branch
backward_cond = refl

patch_branch-Aims_example : Aims 0x54000001 branch19 (negsuc 3) 0x54FFFF81
patch_branch-Aims_example = patch_branch-Aims 0x54000001 branch19 (negsuc 3) backward_cond

-- ldp x29, x30, [sp], #16
abbrev pop_frame : Insn
pop_frame = Insn.load_store_pair 2 0 1 1 (negsuc 1) 30 31 29

load_const64_loads_example :
    (ws : List ℕ) × (load_const64 7 0x123400005678 new ≡ returns (tt, with_words new ws))
    × ((regs : Registers) → run ws regs ≡ some (write regs 7 0x123400005678))
    × (length ws ≡ max 1 (nonzero_lanes 0x123400005678 4))
load_const64_loads_example = load_const64_loads 7 0x123400005678 new (omega arith) (omega arith)

-- A branch to a label that is never bound.
jumped_fails : finish jumped ≡ returns (err (unbound_label 0), record jumped { fixups = [] })
unfolding finish finish_loop
jumped_fails = refl

finish-finish_example :
    finish (record jumped { fixups = [] }) ≡ returns (ok tt, record jumped { fixups = [] })
finish-finish_example = finish-finish jumped jumped_fails

encode_addsub_imm-Encodes_example : Encodes 0x123001 (encode_addsub_imm 0x123001)
encode_addsub_imm-Encodes_example = encode_addsub_imm-Encodes 0x123001
