-- ===== src/Process/Tests.antt =====
-- The theorems on processes at concrete tables.
use brane_os.Prelude.{
  ◌+◌, ◌-◌, ◌^◌, ◌≤◌, ◌<◌, ◌≡◌, ◌↔◌, refl, ◌⊎◌, true, false, none, some, [], ◌∷◌, ok, err,
  replicate, arith,
}
use brane_os.Prelude.Slots.{fill_free, find}
use brane_os.Process.Memory
use brane_os.Process.Memory.{ProcessMemory, contains_user_range}
use brane_os.Process.Memory.Ranges.{Within, contains_user_range_iff}
use brane_os.Process.AddressSpace
use brane_os.Process.AddressSpace.{AddressSpacePin, busy}
use brane_os.Process.Table.{
  Process, ProcessTable, new, fresh, create, get, get_pid_by_task_id, pin_address_space,
  release_address_space_pin, bump_address_space_generation,
}
use brane_os.Process.Table.Lookup.{new-IsValid}
use brane_os.Process.Table.Owner.{Ownership, get_pid_by_task_id-Ownership}
use brane_os.Process.Table.Pins.World.{World, created, pinned, Reach, here, next}
use brane_os.Process.Table.Pins.Protocol.{boot, held_pin_protects}

abbrev memory : ProcessMemory
memory = record {
  code_start = 0x0040_0000;
  code_size = 0x2000;
  stack_top = 0x0080_0000;
  stack_size = 0x4000;
  heap_start = 0x0100_0000;
  heap_end = 0x0100_3000;
}

-- The ranges that the source's own tests accept and refuse.
source_ranges :
    (contains_user_range memory 0x0040_0100 0x100 ≡ true)
    × (contains_user_range memory 0x007f_f000 0x100 ≡ true)
    × (contains_user_range memory 0x0100_1000 0x100 ≡ true)
    × (contains_user_range memory 0x0040_1ff0 0x20 ≡ false)
    × (contains_user_range memory (2 ^ 64 - 2) 4 ≡ false)
    × (contains_user_range memory 0 0 ≡ true)
unfolding contains_user_range Memory.in_some_region Memory.fits
source_ranges = (refl, refl, refl, refl, refl, refl)

contains_user_range_iff_example : (contains_user_range memory 0x0040_0100 0x100 ≡ true) ↔ (
    (0x0040_0100 + 0x100 < 2 ^ 64)
    × (memory.stack_size ≤ memory.stack_top)
    × (Within 0x0040_0100 (0x0040_0100 + 0x100) memory.code_start memory.code_size
        ⊎ Within 0x0040_0100
            (0x0040_0100 + 0x100)
            (memory.stack_top - memory.stack_size)
            memory.stack_size
        ⊎ Within 0x0040_0100
            (0x0040_0100 + 0x100)
            memory.heap_start
            (memory.heap_end - memory.heap_start)))
contains_user_range_iff_example = contains_user_range_iff memory 0x0040_0100 0x100 (omega arith)

-- One process, `sh`, as task 17.
abbrev table : ProcessTable
table = (create new (115 ∷ 104 ∷ []) none 17).1

get_pid_by_task_id-Ownership_example : Ownership new 17 (get_pid_by_task_id new 17)
get_pid_by_task_id-Ownership_example = get_pid_by_task_id-Ownership new 17 new-IsValid

abbrev reader : AddressSpacePin
reader = record { pid = 1; generation = 1 }

pin-table : (pin_address_space table 1).0 ≡ ok reader
unfolding pin_address_space get create new fresh fill_free replicate find AddressSpace.pin
    AddressSpace.new
pin-table = refl

abbrev pinned_world : World
pinned_world = record { table = (pin_address_space table 1).1; held = reader ∷ [] }

new_has_room : boot.table.next_pid + 1 < 2 ^ 64
unfolding new
new_has_room = omega arith

pinned_world_reached : Reach boot pinned_world
pinned_world_reached =
    next (next here (created (115 ∷ 104 ∷ []) none 17 new_has_room)) (pinned 1 reader pin-table)

held_pin_protects_example :
    (q : Process) × (get pinned_world.table 1 ≡ some q)
    × (q.address_space.generation ≡ 1)
    × (bump_address_space_generation pinned_world.table 1 ≡ (err busy, pinned_world.table))
    × ((release_address_space_pin pinned_world.table reader).0 ≡ ok tt)
held_pin_protects_example = held_pin_protects pinned_world [] [] reader pinned_world_reached refl
