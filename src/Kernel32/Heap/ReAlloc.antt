-- ===== src/Kernel32/Heap/ReAlloc.antt =====
-- crates/quantum-kernel32/src/heap.rs: the copy that `HeapReAlloc` makes.
use quantum.Prelude.{
  ℕ, ◌+◌, ◌≤◌, ◌<◌, ◌≡◌, refl, Option, none, some, arith, subst, by_test, ◌==◌, ◌&&◌, not,
}
use quantum.Prelude.Checked.{Checked, returns, panics}
use quantum.Kernel32.Heap.{
  Heap, Allocation, ReAllocation, aligned_size, heap_alloc, heap_re_alloc, re_allocated, copy_of,
}
use quantum.Kernel32.Heap.Blocks.{TookPtr, TookOf, heap_alloc-TookOf, heap_alloc-TookPtr}

-- The source and the number of bytes are the arguments, the destination is the cursor.
CopyIs : ℕ → ℕ → Heap → Option (ℕ × ℕ × ℕ) → Type 0
CopyIs ptr size h none = Unit {0}
CopyIs ptr size h (some (src, dst, n)) = (src ≡ ptr) × (n ≡ size) × (dst ≡ h.base + h.next)

CopyOf : ℕ → ℕ → Heap → Checked ReAllocation → Type 0
unfolding CopyIs
CopyOf ptr size h panics = Unit {0}
CopyOf ptr size h (returns r) = CopyIs ptr size h r.copied

copy_of-CopyIs :
    (ptr size : ℕ) (h h' : Heap) (o : Option ℕ)
    → TookPtr size h o h'
    → CopyIs ptr size h (copy_of ptr size o)
unfolding CopyIs
copy_of-CopyIs ptr size h h' none t = tt
copy_of-CopyIs ptr size h h' (some p) t =
    by_test (CopyIs ptr size h) (not (ptr == 0) && not (p == 0)) _ none (λ _. (refl, refl, t.at))
      (λ _. tt)

re_allocated-CopyOf :
    (ptr size : ℕ) (h : Heap) (c : Checked Allocation)
    → TookOf size h c
    → CopyOf ptr size h (re_allocated ptr size c)
unfolding CopyOf
re_allocated-CopyOf ptr size h panics t = tt
re_allocated-CopyOf ptr size h (returns a) t = copy_of-CopyIs ptr size h a.heap a.ptr t

re_alloc-CopyIs :
    (handle flags ptr size : ℕ) (h : Heap) (r : ReAllocation)
    → heap_re_alloc handle flags ptr size h ≡ returns r
    → CopyIs ptr size h r.copied
unfolding heap_re_alloc CopyOf
re_alloc-CopyIs handle flags ptr size h r e = subst (CopyOf ptr size h) e (
    re_allocated-CopyOf ptr size h (heap_alloc handle flags size h)
      (heap_alloc-TookOf handle flags size h))

-- A block that `HeapAlloc` has just given out is handed to `HeapReAlloc` with a size beyond the
-- block's own, rounded up to a multiple of 16: if the copy is made, its source and its
-- destination overlap.
pub copy_overlaps :
    (handle flags size new_size : ℕ) (h : Heap) (a : Allocation) (r : ReAllocation)
    (p src dst n : ℕ)
    → heap_alloc handle flags size h ≡ returns a
    → a.ptr ≡ some p
    → heap_re_alloc handle flags p new_size a.heap ≡ returns r
    → r.copied ≡ some (src, dst, n)
    → aligned_size size < new_size
    → (src ≤ dst) × (dst < src + n)
unfolding CopyIs
copy_overlaps handle flags size new_size h a r p src dst n e q f c big =
    let t = heap_alloc-TookPtr handle flags size h a e q in
    let k =
      subst (CopyIs p new_size a.heap) c (re_alloc-CopyIs handle flags p new_size a.heap r f) in
    (
      omega (arith, t.at, t.same_base, t.moved, k.0, k.2),
      omega (arith, t.at, t.same_base, t.moved, k.0, k.1, k.2),
    )
