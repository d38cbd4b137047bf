-- ===== src/Kernel32/Heap.antt =====
-- crates/quantum-kernel32/src/heap.rs: the bump allocator of the process heap. The region that it
-- carves up comes from the host; its address and its length are fields of the state.
pub mod Blocks
pub mod ReAlloc
use quantum.Prelude.{
  ℕ, ◌+◌, ◌*◌, ◌/◌, ◌%◌, ◌^◌, Option, none, some, Bool, true, false, ◌==◌, ltb, leb, ◌||◌, ◌&&◌,
  not, if◌then◌else◌,
}
use quantum.Prelude.Checked.{Checked, returns, panics}

pub record Heap : Type 0 where
  pub base : ℕ
  pub len : ℕ
  pub next : ℕ

-- What `alloc` returns, null as `none`, the range that it has filled with zeros, as an address and a
-- length, and the heap behind the call.
pub record Allocation : Type 0 where
  pub ptr : Option ℕ
  pub zeroed : Option (ℕ × ℕ)
  pub heap : Heap

-- `(size + 15) & !15`.
abbrev pub aligned_size : ℕ → ℕ
aligned_size size = (size + 15) / 16 * 16

unfoldable pub alloc : ℕ → Bool → Heap → Checked Allocation
alloc size zero h =
    if leb (2 ^ 64) (size + 15)
    then panics
    else (if leb (2 ^ 64) (h.next + aligned_size size) || ltb h.len (h.next + aligned_size size)
        then returns (record { ptr = none; zeroed = none; heap = h })
        else returns (record {
          ptr = some (h.base + h.next);
          zeroed = if zero then some (h.base + h.next, aligned_size size) else none;
          heap = record h { next = h.next + aligned_size size };
        }))

-- `DEFAULT_HEAP_HANDLE`, and the bit `HEAP_ZERO_MEMORY` of the flags.
abbrev pub default_heap_handle : ℕ
default_heap_handle = 0xDEADBEEF

abbrev pub zero_memory : ℕ → Bool
zero_memory flags = flags / 8 % 2 == 1

unfoldable pub heap_alloc : ℕ → ℕ → ℕ → Heap → Checked Allocation
heap_alloc handle flags size h =
    if handle == default_heap_handle
    then alloc size (zero_memory flags) h
    else returns (record { ptr = none; zeroed = none; heap = h })

-- What `HeapReAlloc` does: the allocation, and the bytes that it copies, as the source, the
-- destination and the number.
pub record ReAllocation : Type 0 where
  pub allocation : Allocation
  pub copied : Option (ℕ × ℕ × ℕ)

-- The null pointer as 0.
abbrev pub copy_of : ℕ → ℕ → Option ℕ → Option (ℕ × ℕ × ℕ)
copy_of ptr size none = none
copy_of ptr size (some new_ptr) =
    if not (ptr == 0) && not (new_ptr == 0) then some (ptr, new_ptr, size) else none

abbrev pub re_allocated : ℕ → ℕ → Checked Allocation → Checked ReAllocation
re_allocated ptr size panics = panics
re_allocated ptr size (returns a) =
    returns (record { allocation = a; copied = copy_of ptr size a.ptr })

unfoldable pub heap_re_alloc : ℕ → ℕ → ℕ → ℕ → Heap → Checked ReAllocation
heap_re_alloc handle flags ptr size h = re_allocated ptr size (heap_alloc handle flags size h)
