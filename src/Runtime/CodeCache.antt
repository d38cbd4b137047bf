-- ===== src/Runtime/CodeCache.antt =====
-- crates/quantum-runtime/src/codecache.rs: the cache of the host code. The region is its first
-- address and its bytes; `flip_jit`, which switches the writing on and off, changes no byte.
use quantum.Prelude.{
  ℕ, ◌+◌, ◌-◌, ◌%◌, List, Option, none, some, ltb, ◌==◌, not, if◌then◌else◌, length,
}
use quantum.Prelude.Slices.{copy_to}
use quantum.Prelude.Checked.{Method, returns, ◌>>◌, assert}

pub record CodeCache : Type 0 where
  pub base : ℕ
  pub region : List ℕ
  pub used : ℕ

-- The first multiple of 4 from there on.
abbrev pub padded : ℕ → ℕ
padded used = used + (4 - used % 4) % 4

-- The address of the code, or `none` where the source returns an error; a null address is a panic.
unfoldable pub install_code : List ℕ → Method CodeCache (Option ℕ)
install_code bytes c =
    if ltb (length c.region) (c.used + length bytes)
    then returns (none, c)
    else (do
      assert (not (c.base + c.used == 0))
      λ c'. returns (
        some (c.base + c.used),
        record c { region = copy_to c.region c.used bytes; used = padded (c.used + length bytes) },
      ))
        c
