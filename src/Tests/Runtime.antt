-- ===== src/Tests/Runtime.antt =====
-- crates/quantum-runtime/src: two blocks in a cache of 32 bytes, and a branch between them.
use quantum.Prelude.{ℕ, refl, List, [], ◌∷◌, arith, replicate}
use quantum.Runtime.CodeCache.{install_code}
use quantum.Runtime.Dispatcher.{Dispatcher, install, patch_chain}
use quantum.Runtime.Installed.{Installs, fresh, adds, Holds, Installs-Holds}
use quantum.Runtime.Chained.{Chains, patch_chain-Chains}

abbrev empty_cache : Dispatcher
empty_cache = record {
  code_cache = record { base = 0x4000; region = replicate 32 0; used = 0 };
  block_map = [];
}

-- b +1
abbrev first_bytes : List ℕ
first_bytes = 1 ∷ 0 ∷ 0 ∷ 0x14 ∷ []

abbrev one_block : Dispatcher
one_block = record {
  code_cache = record { base = 0x4000; region = 1 ∷ 0 ∷ 0 ∷ 0x14 ∷ replicate 28 0; used = 4 };
  block_map = (0x1000, 0x4000) ∷ [];
}

abbrev two_blocks : Dispatcher
two_blocks = record {
  code_cache = record {
    base = 0x4000;
    region = 1 ∷ 0 ∷ 0 ∷ 0x14 ∷ 7 ∷ 8 ∷ 9 ∷ replicate 25 0;
    used = 8;
  };
  block_map = (0x1000, 0x4000) ∷ (0x2000, 0x4004) ∷ [];
}

two_blocks-Installs : Installs two_blocks (
    record { rip = 0x2000; ptr = 0x4004; bytes = 7 ∷ 8 ∷ 9 ∷ [] }
    ∷ record { rip = 0x1000; ptr = 0x4000; bytes = first_bytes }
    ∷ [])
unfolding install install_code
two_blocks-Installs =
    adds {d = one_block} 0x2000 0x4004 (7 ∷ 8 ∷ 9 ∷ [])
      (adds {d = empty_cache} 0x1000 0x4000 first_bytes (fresh 0x4000 (replicate 32 0) refl) refl)
      refl

Installs-Holds_example : Holds two_blocks (
    record { rip = 0x2000; ptr = 0x4004; bytes = 7 ∷ 8 ∷ 9 ∷ [] }
    ∷ record { rip = 0x1000; ptr = 0x4000; bytes = first_bytes }
    ∷ [])
Installs-Holds_example = Installs-Holds two_blocks-Installs

patch_chain-Chains_example : Chains 0x4000 0x4014 two_blocks (patch_chain 0x4000 0x4014 two_blocks)
patch_chain-Chains_example = patch_chain-Chains 0x4000 0x4014 two_blocks (omega arith) (omega arith)
