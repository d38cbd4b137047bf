-- ===== src/Tests/Heap.antt =====
-- crates/quantum-kernel32/src/heap.rs: a small heap.
use quantum.Prelude.{ℕ, ◌+◌, ◌%◌, ◌≤◌, ◌<◌, ◌≡◌, refl, [], ◌∷◌, none, some, All, arith}
use quantum.Prelude.Checked.{returns}
use quantum.Kernel32.Heap.{
  Heap, Allocation, ReAllocation, alloc, heap_alloc, heap_re_alloc, default_heap_handle,
}
use quantum.Kernel32.Heap.Blocks.{fresh, given, IsValid, Ascending, blocks_apart}
use quantum.Kernel32.Heap.ReAlloc.{copy_overlaps}

abbrev heap_at : ℕ → Heap
heap_at n = record { base = 0x10000; len = 0x100; next = n }

-- Twenty bytes, which are zeroed up to the next multiple of 16.
abbrev first_call : Allocation
first_call = record { ptr = some 0x10000; zeroed = some (0x10000, 32); heap = heap_at 32 }

first_call_runs : heap_alloc default_heap_handle 8 20 (heap_at 0) ≡ returns first_call
unfolding heap_alloc alloc
first_call_runs = refl

abbrev second_call : Allocation
second_call = record { ptr = some 0x10020; zeroed = none; heap = heap_at 0x60 }

second_call_runs : heap_alloc default_heap_handle 0 64 (heap_at 32) ≡ returns second_call
unfolding heap_alloc alloc
second_call_runs = refl

too_large :
    heap_alloc default_heap_handle 0 0x100 (heap_at 32)
    ≡ returns (record { ptr = none; zeroed = none; heap = heap_at 32 })
unfolding heap_alloc alloc
too_large = refl

heap_at-IsValid : IsValid (heap_at 0)
heap_at-IsValid = record { base_aligned = refl; next_aligned = refl; inside = omega arith }

blocks_apart_example :
    All
      (λ (b : ℕ × ℕ). (b.0 % 16 ≡ 0) × (0x10000 ≤ b.0) × (b.0 + b.1 ≤ 0x10100))
      ((0x10020, 64) ∷ (0x10000, 20) ∷ [])
    × Ascending ((0x10020, 64) ∷ (0x10000, 20) ∷ [])
blocks_apart_example = blocks_apart heap_at-IsValid (
    given default_heap_handle 0 64 (given default_heap_handle 8 20 fresh first_call_runs refl)
      second_call_runs refl)

abbrev moved_call : ReAllocation
moved_call = record { allocation = second_call; copied = some (0x10000, 0x10020, 64) }

moved_call_runs : heap_re_alloc default_heap_handle 0 0x10000 64 (heap_at 32) ≡ returns moved_call
unfolding heap_re_alloc heap_alloc alloc
moved_call_runs = refl

plain_call_runs :
    heap_alloc default_heap_handle 0 20 (heap_at 0) ≡ returns (record first_call { zeroed = none })
unfolding heap_alloc alloc
plain_call_runs = refl

copy_overlaps_example : (0x10000 ≤ 0x10020) × (0x10020 < 0x10000 + 64)
copy_overlaps_example =
    copy_overlaps default_heap_handle 0 20 64 (heap_at 0) (record first_call { zeroed = none })
      moved_call 0x10000 0x10000 0x10020 64 plain_call_runs refl moved_call_runs refl (omega arith)
