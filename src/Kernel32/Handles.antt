-- ===== src/Kernel32/Handles.antt =====
-- crates/quantum-kernel32/src/handles.rs: the table of kernel objects behind Win32 handles. The
-- global table is passed as a state; an object stands for the `Arc` to it.
pub mod Slots
pub mod Map
pub mod Removal
pub mod Generations
use quantum.Prelude.{
  ℕ, ◌+◌, ◌-◌, ◌*◌, ◌/◌, ◌%◌, ◌^◌, List, [], ◌∷◌, ◌++◌, Option, none, some, Bool, true, false, ◌==◌,
  ltb, if◌then◌else◌, length, get_elem?, set, suc, ℤ,
}
use quantum.Prelude.Checked.{Checked, returns, panics}
use Prim.Native.Nat.{bit_or}

-- The numbers of a semaphore and the descriptor of a file are signed.
pub data KernelObject : Type 0 where
  event : (manual_reset : Bool) (signaled : Bool) → KernelObject
  mutex : (owner_thread : Option ℕ) (recursion : ℕ) → KernelObject
  semaphore : (count : ℤ) (max : ℤ) → KernelObject
  file : (fd : ℤ) → KernelObject
  thread : (finished : Bool) → KernelObject
  current_process current_thread : KernelObject
  std_stream : ℕ → KernelObject

-- A slot in use: a 32-bit generation and the object.
abbrev pub Slot : Type 0
Slot = ℕ × KernelObject

pub record HandleTable : Type 0 where
  pub slots : List (Option Slot)

unfoldable pub pack : ℕ → ℕ → ℕ
pack index generation = bit_or (generation * 2 ^ 32) (index + 0x1000)

unfoldable pub unpack : ℕ → Checked (Option (ℕ × ℕ))
unpack handle =
    if ltb handle 0x1000
    then returns none
    else (if ltb (handle % 2 ^ 32) 0x1000
        then panics
        else returns (some (handle % 2 ^ 32 - 0x1000, handle / 2 ^ 32 % 2 ^ 32)))

-- `position(Option::is_none)`.
abbrev pub behind : Option ℕ → Option ℕ
behind none = none
behind (some i) = some (suc i)

abbrev pub first_free : List (Option Slot) → Option ℕ
first_free [] = none
first_free (none ∷ slots) = some 0
first_free (some s ∷ slots) = behind (first_free slots)

-- `slots.get(idx).and_then(|s| s.as_ref())`.
abbrev pub and_then : Option (Option Slot) → Option Slot
and_then none = none
and_then (some s) = s

abbrev pub slot_at : List (Option Slot) → ℕ → Option Slot
slot_at slots i = and_then (get_elem? slots i)

-- `map_or(1, |(g, _)| g.wrapping_add(1))`.
abbrev pub next_generation : Option Slot → ℕ
next_generation none = 1
next_generation (some (g, _)) = (g + 1) % 2 ^ 32

abbrev pub insert_at : KernelObject → HandleTable → Option ℕ → ℕ × HandleTable
insert_at obj t (some idx) =
    let new_gen = next_generation (slot_at t.slots idx) in
    (pack idx new_gen, record { slots = set t.slots idx (some (new_gen, obj)) })
insert_at obj t none = (pack (length t.slots) 1, record { slots = t.slots ++ some (1, obj) ∷ [] })

unfoldable pub insert : KernelObject → HandleTable → ℕ × HandleTable
insert obj t = insert_at obj t (first_free t.slots)

-- The filter on the generation, and the clone of the `Arc`.
abbrev pub live : ℕ → Option Slot → Option KernelObject
live generation none = none
live generation (some (g, obj)) = if g == generation then some obj else none

abbrev pub get_by : HandleTable → Checked (Option (ℕ × ℕ)) → Checked (Option KernelObject)
get_by t panics = panics
get_by t (returns none) = returns none
get_by t (returns (some (idx, generation))) = returns (live generation (slot_at t.slots idx))

unfoldable pub get : ℕ → HandleTable → Checked (Option KernelObject)
get handle t = get_by t (unpack handle)

-- The POSIX descriptor that `close` is called with.
abbrev pub descriptor : KernelObject → Option ℤ
descriptor (file fd) = some fd
descriptor _ = none

-- The result, the descriptor closed, and the table behind the call.
pub record Removed : Type 0 where
  pub removed : Bool
  pub closed : Option ℤ
  pub table : HandleTable

abbrev pub remove_live : HandleTable → ℕ → Option KernelObject → Removed
remove_live t idx none = record { removed = false; closed = none; table = t }
remove_live t idx (some obj) = record {
  removed = true;
  closed = descriptor obj;
  table = record { slots = set t.slots idx none };
}

abbrev pub remove_by : HandleTable → Checked (Option (ℕ × ℕ)) → Checked Removed
remove_by t panics = panics
remove_by t (returns none) = returns (record { removed = false; closed = none; table = t })
remove_by t (returns (some (idx, generation))) =
    returns (remove_live t idx (live generation (slot_at t.slots idx)))

unfoldable pub remove : ℕ → HandleTable → Checked Removed
remove handle t = remove_by t (unpack handle)
