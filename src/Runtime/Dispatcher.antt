-- ===== src/Runtime/Dispatcher.antt =====
-- crates/quantum-runtime/src/dispatcher.rs: the map from guest addresses to host code, and the
-- rewriting of branches between blocks. The lock makes each method one step.
use quantum.Prelude.{
  ℕ, ◌-◌, ◌/◌, ◌%◌, ◌^◌, List, [], ◌∷◌, Option, none, some, Bool, true, false, not, ◌==◌,
  if◌then◌else◌, length, ℤ, pos, negsuc,
}
use quantum.Prelude.Slices.{copy_to, to_le}
use quantum.Prelude.Checked.{Checked, Method, returns, panics}
use quantum.Jit.Emitter.State.{delta, as_u32, fits}
use quantum.Runtime.CodeCache.{CodeCache, install_code}
use Prim.Native.Nat.{bit_or}

-- `BTreeMap<u64, NonNull<u8>>`.
abbrev pub BlockMap : Type 0
BlockMap = List (ℕ × ℕ)

abbrev pub find : BlockMap → ℕ → Option ℕ
find [] rip = none
find ((k, ptr) ∷ m) rip = if k == rip then some ptr else find m rip

abbrev pub put : BlockMap → ℕ → ℕ → BlockMap
put [] rip ptr = (rip, ptr) ∷ []
put ((k, old) ∷ m) rip ptr =
    let rest = put m rip ptr in if k == rip then (rip, ptr) ∷ m else (k, old) ∷ rest

pub record Dispatcher : Type 0 where
  pub code_cache : CodeCache
  pub block_map : BlockMap

unfoldable pub lookup : ℕ → Dispatcher → Option ℕ
lookup guest_rip d = find d.block_map guest_rip

abbrev pub mapped :
    ℕ → Dispatcher → Checked (Option ℕ × CodeCache) → Checked (Option ℕ × Dispatcher)
mapped guest_rip d (returns (none, c)) = returns (none, record d { code_cache = c })
mapped guest_rip d (returns (some ptr, c)) =
    returns (some ptr, record { code_cache = c; block_map = put d.block_map guest_rip ptr })
mapped guest_rip d panics = panics

unfoldable pub install : ℕ → List ℕ → Method Dispatcher (Option ℕ)
install guest_rip host_bytes d = mapped guest_rip d (install_code host_bytes d.code_cache)

unfoldable pub block_count : Dispatcher → ℕ
block_count d = length d.block_map

-- `delta & 0x3 != 0` and `delta >> 2`, in two's complement.
abbrev pub is_aligned : ℤ → Bool
is_aligned (pos n) = n % 4 == 0
is_aligned (negsuc n) = n % 4 == 3

abbrev pub quarter : ℤ → ℤ
quarter (pos n) = pos (n / 4)
quarter (negsuc n) = negsuc (n / 4)

-- `B` with an offset in words.
abbrev pub branch_word : ℤ → ℕ
branch_word words = bit_or 0x14000000 (as_u32 words % 2 ^ 26)

abbrev pub write_word : ℕ → ℕ → Dispatcher → Dispatcher
write_word site word d = record d {
  code_cache = record d.code_cache {
    region = copy_to d.code_cache.region (site - d.code_cache.base) (to_le 4 word);
  };
}

-- `patch_chain` at a site inside of the cache.
unfoldable pub patch_chain : ℕ → ℕ → Dispatcher → Bool × Dispatcher
patch_chain patch_site target_host_addr d =
    let gap = delta target_host_addr patch_site in
    if not (is_aligned gap)
    then (false, d)
    else if not (fits 25 (quarter gap))
    then (false, d)
    else (true, write_word patch_site (branch_word (quarter gap)) d)
