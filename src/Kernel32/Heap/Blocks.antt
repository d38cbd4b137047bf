-- ===== src/Kernel32/Heap/Blocks.antt =====
-- crates/quantum-kernel32/src/heap.rs: the blocks that a heap has given out.
use quantum.Prelude.{
  All-map, ℕ, ◌+◌, ◌%◌, ◌^◌, ◌≤◌, ◌≡◌, refl, List, [], ◌∷◌, Option, none, some, All, arith, false,
  ltb, leb, by_test, ◌==◌, ◌||◌, subst, sym,
}
use quantum.Prelude.Checked.{Checked, returns, panics}
use quantum.Kernel32.Heap.{Heap, Allocation, aligned_size, default_heap_handle, alloc, heap_alloc}

-- An address and the size that was asked for.
abbrev pub Block : Type 0
Block = ℕ × ℕ

-- The heaps that calls of `HeapAlloc` lead to, with the blocks given out, the latest first.
pub data Gives (h₀ : Heap) : Heap → List Block → Type 0 where
  fresh : Gives h₀ h₀ []
  given :
      {h : Heap} {bs : List Block} {a : Allocation} {p : ℕ} (handle flags size : ℕ)
      → Gives h₀ h bs
      → heap_alloc handle flags size h ≡ returns a
      → a.ptr ≡ some p
      → Gives h₀ a.heap ((p, size) ∷ bs)
  refused :
      {h : Heap} {bs : List Block} {a : Allocation} (handle flags size : ℕ)
      → Gives h₀ h bs
      → heap_alloc handle flags size h ≡ returns a
      → a.ptr ≡ none
      → Gives h₀ a.heap bs

-- The host maps whole pages; the cursor is a multiple of 16 inside the region.
pub record IsValid (h : Heap) : Type 0 where
  pub base_aligned : h.base % 16 ≡ 0
  pub next_aligned : h.next % 16 ≡ 0
  pub inside : h.next ≤ h.len

-- What a call that returns has done.
pub record Took (size : ℕ) (h : Heap) (p : ℕ) (h' : Heap) : Type 0 where
  pub at : p ≡ h.base + h.next
  pub same_base : h'.base ≡ h.base
  pub same_len : h'.len ≡ h.len
  pub moved : h'.next ≡ h.next + aligned_size size
  pub fits : h'.next ≤ h.len

abbrev pub TookPtr : ℕ → Heap → Option ℕ → Heap → Type 0
TookPtr size h none h' = h' ≡ h
TookPtr size h (some p) h' = Took size h p h'

abbrev pub TookOf : ℕ → Heap → Checked Allocation → Type 0
TookOf size h panics = Unit {0}
TookOf size h (returns a) = TookPtr size h a.ptr a.heap

room : (n len : ℕ) → (leb (2 ^ 64) n || ltb len n) ≡ false → n ≤ len
room n len e = ground arith

pub heap_alloc-TookOf :
    (handle flags size : ℕ) (h : Heap) → TookOf size h (heap_alloc handle flags size h)
unfolding heap_alloc alloc
heap_alloc-TookOf handle flags size h =
    by_test (TookOf size h) (handle == default_heap_handle) _ _
      (λ _.
        by_test (TookOf size h) (leb (2 ^ 64) (size + 15)) _ _ (λ _. tt)
          (λ _.
            by_test (TookOf size h)
              (leb (2 ^ 64) (h.next + aligned_size size) || ltb h.len (h.next + aligned_size size))
              _ _ (λ _. refl)
              (λ e. record {
                at = refl;
                same_base = refl;
                same_len = refl;
                moved = refl;
                fits = room _ h.len e;
              })))
      (λ _. refl)

pub heap_alloc-TookPtr :
    (handle flags size : ℕ) (h : Heap) (a : Allocation) {o : Option ℕ}
    → heap_alloc handle flags size h ≡ returns a
    → a.ptr ≡ o
    → TookPtr size h o a.heap
heap_alloc-TookPtr handle flags size h a e q =
    subst (λ o. TookPtr size h o a.heap) q
      (subst (TookOf size h) e (heap_alloc-TookOf handle flags size h))

-- Where the blocks of a heap lie that started at `h₀` and is now `h`.
record Inside (h₀ h : Heap) (b : Block) : Type 0 where
  aligned : b.0 % 16 ≡ 0
  above : h₀.base + h₀.next ≤ b.0
  below : b.0 + b.1 ≤ h.base + h.next

record Kept (h₀ h : Heap) (bs : List Block) : Type 0 where
  valid : IsValid h
  same_base : h.base ≡ h₀.base
  same_len : h.len ≡ h₀.len
  forward : h₀.next ≤ h.next
  blocks : All (Inside h₀ h) bs

Kept-given :
    (h₀ h : Heap) (bs : List Block) (size p : ℕ) (h' : Heap)
    → Kept h₀ h bs
    → Took size h p h'
    → Kept h₀ h' ((p, size) ∷ bs)
Kept-given h₀ h bs size p h' k t = record {
  valid = record {
    base_aligned = omega (arith, t.same_base, k.valid.base_aligned);
    next_aligned = omega (arith, t.moved, k.valid.next_aligned);
    inside = omega (arith, t.same_len, t.fits);
  };
  same_base = omega (arith, t.same_base, k.same_base);
  same_len = omega (arith, t.same_len, k.same_len);
  forward = omega (arith, t.moved, k.forward);
  blocks = (
    record {
      aligned = omega (arith, t.at, k.valid.base_aligned, k.valid.next_aligned);
      above = omega (arith, t.at, k.forward, k.same_base);
      below = omega (arith, t.at, t.moved, t.same_base);
    },
    All-map bs
        (λ b i. record {
          aligned = i.aligned;
          above = i.above;
          below = omega (arith, i.below, t.moved, t.same_base);
        })
        k.blocks,
  );
}

Gives-Kept : {h₀ h : Heap} {bs : List Block} → IsValid h₀ → Gives h₀ h bs → Kept h₀ h bs
Gives-Kept v fresh = record {
  valid = v;
  same_base = refl;
  same_len = refl;
  forward = omega arith;
  blocks = tt;
}
Gives-Kept v (given {h = h} {bs = bs} {a = a} handle flags size g e q) =
    Kept-given _ h bs size _ a.heap (Gives-Kept v g) (heap_alloc-TookPtr handle flags size h a e q)
Gives-Kept {h₀ = h₀} v (refused {h = h} {bs = bs} {a = a} handle flags size g e q) =
    subst (λ h'. Kept h₀ h' bs) (sym (heap_alloc-TookPtr handle flags size h a e q))
      (Gives-Kept v g)

-- Each block lies behind all that were given out before it.
abbrev pub Ascending : List Block → Type 0
Ascending [] = Unit {0}
Ascending (b ∷ bs) = All (λ c. c.0 + c.1 ≤ b.0) bs × Ascending bs

Gives-Ascending : {h₀ h : Heap} {bs : List Block} → IsValid h₀ → Gives h₀ h bs → Ascending bs
Gives-Ascending v fresh = tt
Gives-Ascending v (given {h = h} {bs = bs} {a = a} handle flags size g e q) = (
  All-map bs (λ b i. omega (arith, i.below, (heap_alloc-TookPtr handle flags size h a e q).at))
      (Gives-Kept v g).blocks,
  Gives-Ascending v g,
)
Gives-Ascending v (refused handle flags size g e q) = Gives-Ascending v g

-- From a heap whose region begins at a multiple of 16 and whose cursor is a multiple of 16 within
-- it, every block that any calls of `HeapAlloc` give out begins at a multiple of 16 and lies within
-- the region, with all of the size that was asked for, and no two of the blocks overlap: each
-- begins behind the ends of those before it.
pub blocks_apart :
    {h₀ h : Heap} {bs : List Block}
    → IsValid h₀
    → Gives h₀ h bs
    → All (λ b. (b.0 % 16 ≡ 0) × (h₀.base ≤ b.0) × (b.0 + b.1 ≤ h₀.base + h₀.len)) bs × Ascending bs
blocks_apart {bs = bs} v g =
    let k = Gives-Kept v g in
    (
      All-map bs
          (λ b i. (
            i.aligned,
            omega (arith, i.above),
            omega (arith, i.below, k.same_base, k.same_len, k.valid.inside),
          ))
          k.blocks,
      Gives-Ascending v g,
    )
