-- ===== src/Jit/Decoder/Next.antt =====
-- crates/quantum-jit/src/decoder.rs: `next`, one whole instruction.
use quantum.Prelude.{ℕ, ◌-◌, ◌%◌, ◌==◌, if◌then◌else◌}
use quantum.Jit.Iform.{Inst}
use quantum.Jit.Decoder.State.{Outcome, ok, Decoder, Decode, ◌>>=◌, read_u8, rip}
use quantum.Jit.Decoder.Prefixes.{Prefixes, read_prefixes}
use quantum.Jit.Decoder.Primary.{decode_primary}
use quantum.Jit.Decoder.Secondary.{decode_secondary}

-- The opcode, and the table that it selects.
unfoldable pub decode_opcode : Prefixes → ℕ → Decode Inst
decode_opcode p inst_rip = do
  opcode ← read_u8
  (if opcode == 0x0F then decode_secondary p inst_rip else decode_primary opcode p inst_rip)

unfoldable pub decode_body : ℕ → Decode Inst
decode_body inst_rip = do p ← read_prefixes; decode_opcode p inst_rip

-- `inst.len = (self.pos - start) as u8; inst.guest_rip = inst_rip`, where the `?` lets it pass.
abbrev pub finish : ℕ → ℕ → Outcome (Inst × Decoder) → Outcome (Inst × Decoder)
finish start inst_rip (ok (i, d')) =
    ok (record i { len = (d'.at - start) % 256; guest_rip = inst_rip }, d')
finish start inst_rip (Outcome.err e) = Outcome.err e
finish start inst_rip Outcome.panic = Outcome.panic

unfoldable pub next : Decode Inst
next d = finish d.at (rip d) (decode_body (rip d) d)
