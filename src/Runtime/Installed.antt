-- ===== src/Runtime/Installed.antt =====
-- crates/quantum-runtime/src: the blocks that a dispatcher has installed.
use quantum.Prelude.{
  ℕ, ◌+◌, ◌-◌, ◌%◌, ◌≤◌, ◌≡◌, refl, sym, ◌∙◌, ap, subst, List, [], ◌∷◌, Option, none, some, Bool,
  true, false, not, ltb, ◌==◌, if◌then◌else◌, length, take, drop, arith, by_test, All, Bool-cases,
  inl, inr,
}
use quantum.Prelude.Slices.{copy_to, length-copy_to, copied, kept_before}
use quantum.Prelude.Checked.{Checked, returns, panics, assert, ◌>>◌}
use quantum.Runtime.CodeCache.{CodeCache, padded, install_code}
use quantum.Runtime.Dispatcher.{BlockMap, find, put, Dispatcher, lookup, mapped, install}

-- A block: its guest address, its host address and its code.
pub record Block : Type 0 where
  pub rip : ℕ
  pub ptr : ℕ
  pub bytes : List ℕ

-- Any calls of `install` on a new dispatcher, and the blocks they have installed, the last one first.
pub data Installs : Dispatcher → List Block → Type 0 where
  fresh :
      (base : ℕ) (region : List ℕ)
      → base % 4 ≡ 0
      → Installs
          (record {
            code_cache = record { base = base; region = region; used = 0 };
            block_map = [];
          })
          []
  adds :
      {d d' : Dispatcher} {blocks : List Block} (rip ptr : ℕ) (bytes : List ℕ)
      → Installs d blocks
      → install rip bytes d ≡ returns (some ptr, d')
      → Installs d' (record { rip = rip; ptr = ptr; bytes = bytes } ∷ blocks)
  refuses :
      {d d' : Dispatcher} {blocks : List Block} (rip : ℕ) (bytes : List ℕ)
      → Installs d blocks
      → install rip bytes d ≡ returns (none, d')
      → Installs d' blocks

-- The code stands where it was installed, at a multiple of 4 inside of the cache.
pub record Sits (c : CodeCache) (b : Block) : Type 0 where
  pub above : c.base ≤ b.ptr
  pub aligned : b.ptr % 4 ≡ 0
  pub inside : b.ptr + length b.bytes ≤ c.base + length c.region
  pub below : b.ptr + length b.bytes ≤ c.base + c.used
  pub stands : take (length b.bytes) (drop (b.ptr - c.base) c.region) ≡ b.bytes

-- Each block lies behind those that were installed before it.
abbrev pub Behind : List Block → Type 0
Behind [] = Unit {0}
Behind (b ∷ bs) = All (λ (b' : Block). b'.ptr + length b'.bytes ≤ b.ptr) bs × Behind bs

-- The latest block for a guest address.
abbrev pub latest : List Block → ℕ → Option ℕ
latest [] rip = none
latest (b ∷ bs) rip = if b.rip == rip then some b.ptr else latest bs rip

pub record Holds (d : Dispatcher) (blocks : List Block) : Type 0 where
  pub all_sit : All (Sits d.code_cache) blocks
  pub behind : Behind blocks
  pub looked_up : (rip : ℕ) → lookup rip d ≡ latest blocks rip
  pub base_aligned : d.code_cache.base % 4 ≡ 0
  pub used_aligned : d.code_cache.used % 4 ≡ 0

same_key :
    (r k : Bool) (a b c : Option ℕ)
    → k ≡ r
    → (if r then a else c) ≡ (if r then a else (if k then b else c))
same_key true k a b c e = refl
same_key false true a b c e = cc
same_key false false a b c e = refl

other_key :
    (r k : Bool) (a b c : Option ℕ)
    → (r ≡ true → k ≡ true → ⊥)
    → (if k then b else (if r then a else c)) ≡ (if r then a else (if k then b else c))
other_key true true a b c e = absurd (e refl refl)
other_key true false a b c e = refl
other_key false k a b c e = refl

find-put :
    (m : BlockMap) (rip ptr key : ℕ)
    → find (put m rip ptr) key ≡ (if rip == key then some ptr else find m key)
find-put [] rip ptr key = refl
find-put ((k, old) ∷ m) rip ptr key = elim (Bool-cases (k == rip)) [
  | inl t ↦
      ap (λ b. find (if b then (rip, ptr) ∷ m else (k, old) ∷ put m rip ptr) key) t
      ∙ same_key (rip == key) (k == key) _ _ _
          (ap (λ n. n == key) {x = k} {y = rip} (ground (arith, t)))
  | inr f ↦
      ap (λ b. find (if b then (rip, ptr) ∷ m else (k, old) ∷ put m rip ptr) key) f
      ∙ ap (λ o. if k == key then some old else o) (find-put m rip ptr key)
      ∙ other_key (rip == key) (k == key) _ _ _ (λ p q. ground (arith, f, p, q))
]

-- What `install` comes to.
abbrev after : ℕ → List ℕ → Dispatcher → Dispatcher
after rip bytes d = record {
  code_cache = record d.code_cache {
    region = copy_to d.code_cache.region d.code_cache.used bytes;
    used = padded (d.code_cache.used + length bytes);
  };
  block_map = put d.block_map rip (d.code_cache.base + d.code_cache.used);
}

abbrev Result : ℕ → List ℕ → Dispatcher → Checked (Option ℕ × Dispatcher) → Type 0
Result rip bytes d (returns (some ptr, d')) =
    (ptr ≡ d.code_cache.base + d.code_cache.used)
    × (d' ≡ after rip bytes d)
    × (d.code_cache.used + length bytes ≤ length d.code_cache.region)
Result rip bytes d (returns (none, d')) = d' ≡ d
Result rip bytes d panics = Unit {0}

install-Result :
    (rip : ℕ) (bytes : List ℕ) (d : Dispatcher) → Result rip bytes d (install rip bytes d)
unfolding install install_code
install-Result rip bytes d =
    by_test (λ x. Result rip bytes d (mapped rip d x))
      (ltb (length d.code_cache.region) (d.code_cache.used + length bytes)) _ _ (λ _. refl)
      (λ f. not_null f (not (d.code_cache.base + d.code_cache.used == 0)))
  where
    not_null :
        ltb (length d.code_cache.region) (d.code_cache.used + length bytes) ≡ false
        → (b : Bool)
        → Result rip bytes d (
            mapped rip d (
              (assert b >> λ c'.
              returns
                (some (d.code_cache.base + d.code_cache.used), (after rip bytes d).code_cache))
                d.code_cache))
    not_null f true = (refl, refl, ground (arith, f))
    not_null f false = tt

Sits-after :
    (rip : ℕ) (bytes : List ℕ) (d : Dispatcher) (b : Block)
    → d.code_cache.used + length bytes ≤ length d.code_cache.region
    → Sits d.code_cache b
    → Sits (after rip bytes d).code_cache b
Sits-after rip bytes d b h s = record {
  above = s.above;
  aligned = s.aligned;
  inside = omega (arith, s.inside, length-copy_to d.code_cache.region d.code_cache.used bytes h);
  below = omega (arith, s.below);
  stands =
      kept_before d.code_cache.region d.code_cache.used (b.ptr - d.code_cache.base) (length b.bytes)
        bytes (omega (arith, h)) (omega (arith, s.below, s.above))
      ∙ s.stands;
}

Sits-All :
    (rip : ℕ) (bytes : List ℕ) (d : Dispatcher) (bs : List Block)
    → d.code_cache.used + length bytes ≤ length d.code_cache.region
    → All (Sits d.code_cache) bs
    → All (Sits (after rip bytes d).code_cache) bs
      × All (λ (b : Block). b.ptr + length b.bytes ≤ d.code_cache.base + d.code_cache.used) bs
Sits-All rip bytes d [] h a = (tt, tt)
Sits-All rip bytes d (b ∷ bs) h (s, a) =
    let (a', l) = Sits-All rip bytes d bs h a in ((Sits-after rip bytes d b h s, a'), (s.below, l))

Holds-adds :
    (rip : ℕ) (bytes : List ℕ) (d : Dispatcher) (bs : List Block)
    → d.code_cache.used + length bytes ≤ length d.code_cache.region
    → Holds d bs
    → Holds
        (after rip bytes d)
        (record { rip = rip; ptr = d.code_cache.base + d.code_cache.used; bytes = bytes } ∷ bs)
unfolding lookup
Holds-adds rip bytes d bs h v = record {
  all_sit = (
    record {
      above = omega arith;
      aligned = omega (arith, v.base_aligned, v.used_aligned);
      inside = omega (arith, h, length-copy_to d.code_cache.region d.code_cache.used bytes h);
      below = omega arith;
      stands =
          ap
            (λ k.
              take (length bytes) (drop k (copy_to d.code_cache.region d.code_cache.used bytes)))
            {x = d.code_cache.base + d.code_cache.used - d.code_cache.base} {y = d.code_cache.used}
            (omega arith)
          ∙ copied d.code_cache.region d.code_cache.used bytes h;
    },
    (Sits-All rip bytes d bs h v.all_sit).0,
  );
  behind = ((Sits-All rip bytes d bs h v.all_sit).1, v.behind);
  looked_up = λ key.
      find-put d.block_map rip (d.code_cache.base + d.code_cache.used) key
      ∙ ap (λ o. if rip == key then some (d.code_cache.base + d.code_cache.used) else o)
          (v.looked_up key);
  base_aligned = v.base_aligned;
  used_aligned = omega arith;
}

installed_block :
    (rip ptr : ℕ) (bytes : List ℕ) (d d' : Dispatcher) (bs : List Block)
    → Holds d bs
    → Result rip bytes d (returns (some ptr, d'))
    → Holds d' (record { rip = rip; ptr = ptr; bytes = bytes } ∷ bs)
installed_block rip ptr bytes d d' bs v (p, q, h) =
    subst (λ x. Holds d' (record { rip = rip; ptr = x; bytes = bytes } ∷ bs)) (sym p)
      (subst
        (λ x.
          Holds x
            (record { rip = rip; ptr = d.code_cache.base + d.code_cache.used; bytes = bytes } ∷ bs))
        (sym q) (Holds-adds rip bytes d bs h v))

-- After any calls of `install`, every block that was installed stands in the cache with its bytes, at
-- a multiple of 4 and behind the blocks before it, and a lookup finds the latest block for its
-- address and no other.
pub Installs-Holds : {d : Dispatcher} {blocks : List Block} → Installs d blocks → Holds d blocks
unfolding lookup
Installs-Holds (fresh base region h) = record {
  all_sit = tt;
  behind = tt;
  looked_up = λ rip. refl;
  base_aligned = h;
  used_aligned = omega arith;
}
Installs-Holds (adds {d = d} {d' = d'} {blocks = bs} rip ptr bytes i e) =
    installed_block rip ptr bytes d d' bs (Installs-Holds i)
      (subst (Result rip bytes d) e (install-Result rip bytes d))
Installs-Holds (refuses {d = d} {blocks = bs} rip bytes i e) =
    subst (λ x. Holds x bs) (sym (subst (Result rip bytes d) e (install-Result rip bytes d)))
      (Installs-Holds i)
