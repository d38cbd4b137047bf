-- ===== src/Tests/Kernel32.antt =====
-- crates/quantum-kernel32/src: the theorems about the handle table, on concrete tables.
use quantum.Prelude.{
  ℕ, ◌≡◌, refl, [], ◌∷◌, arith, none, some, true, false, ◌⊎◌, if◌then◌else◌, ◌==◌, All, pos,
}
use quantum.Kernel32.Handles.{
  KernelObject, HandleTable, Removed, insert, get, remove, descriptor, unpack, pack,
}
use quantum.Prelude.Checked.{returns}
use quantum.Kernel32.Handles.Map.{get-insert}
use quantum.Kernel32.Handles.Removal.{get-remove}
use quantum.Kernel32.Handles.Generations.{
  Reachable, empty, inserted, IsFirst, generations, insert-remove,
}

abbrev console : KernelObject
console = KernelObject.file (pos 7)

abbrev one_file : HandleTable
one_file = record { slots = some (1, console) ∷ [] }

abbrev one_freed : HandleTable
one_freed = record { slots = none ∷ [] }

abbrev first_handle : ℕ
first_handle = 0x100001000

abbrev freed_file : Removed
freed_file = record { removed = true; closed = some (pos 7); table = one_freed }

insert_file : insert console (record { slots = [] }) ≡ (first_handle, one_file)
unfolding insert pack
insert_file = refl

remove_file : remove first_handle one_file ≡ returns freed_file
unfolding remove unpack
remove_file = refl

get_file : get first_handle one_file ≡ returns (some console)
unfolding get unpack
get_file = refl

get-insert_example : get first_handle (insert console one_freed).1 ≡ (
    if first_handle == (insert console one_freed).0
    then returns (some console)
    else get first_handle one_freed)
get-insert_example = get-insert console one_freed first_handle (omega arith) (omega arith)

get-remove_example :
    (get 0x200001000 one_freed
      ≡ (if 0x200001000 == first_handle then returns none else get 0x200001000 one_file))
    × (((get first_handle one_file ≡ returns none)
          × (freed_file.removed ≡ false)
          × (freed_file.closed ≡ none))
        ⊎ ((obj : KernelObject) × (get first_handle one_file ≡ returns (some obj))
            × (freed_file.removed ≡ true)
            × (freed_file.closed ≡ descriptor obj)))
get-remove_example =
    get-remove first_handle one_file freed_file 0x200001000 (omega arith) (omega arith) remove_file

one_file-Reachable : Reachable (insert console (record { slots = [] })).1
one_file-Reachable = inserted console empty

generations_example : All IsFirst (insert console (record { slots = [] })).1.slots
generations_example = generations one_file-Reachable

reachable : Reachable one_file
unfolding insert pack
reachable = inserted console empty

insert-remove_example :
    ((insert KernelObject.current_process one_freed).0 ≡ first_handle)
    × (get first_handle (insert KernelObject.current_process one_freed).1
        ≡ returns (some KernelObject.current_process))
insert-remove_example =
    insert-remove one_file first_handle console KernelObject.current_process freed_file reachable
      (omega arith) (omega arith) refl get_file remove_file
