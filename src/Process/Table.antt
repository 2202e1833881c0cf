-- ===== src/Process/Table.antt =====
-- `Process` and `ProcessTable` of kernel/src/process.rs: 128 slots, with process ids from a counter.
-- Names are byte strings; log lines are left out.
pub mod Lookup
pub mod Pins
pub mod Owner
use brane_os.Prelude.{
  ℕ, ◌+◌, ◌-◌, min, Bool, ◌&&◌, ◌||◌, Option, none, some, List, [], ◌∷◌, ◌++◌, map, zero, suc,
  length, take, drop, replicate, Result, ok, err, ℤ, pos, ◌==◌, if◌then◌else◌, add_u64, true, false,
}
use brane_os.Prelude.Slots.{fill_free, find, modify, entries, keep}
use brane_os.Process.Memory.{ProcessMemory}
use brane_os.Process.AddressSpace
use brane_os.Process.AddressSpace.{AddressSpaceState, AddressSpacePin, AddressSpaceError, not_found}

pub data ProcessState : Type 0 where
  creating ready running blocked sleeping zombie terminated : ProcessState

-- `UserContext` of kernel/src/usermode.rs, the registers saved at a signal.
pub record UserContext : Type 0 where
  pub r15 : ℕ
  pub r14 : ℕ
  pub r13 : ℕ
  pub r12 : ℕ
  pub rbx : ℕ
  pub rbp : ℕ
  pub r11 : ℕ
  pub r10 : ℕ
  pub r9 : ℕ
  pub r8 : ℕ
  pub rdi : ℕ
  pub rsi : ℕ
  pub rdx : ℕ
  pub rcx : ℕ
  pub rax : ℕ

pub record Process : Type 0 where
  pub pid : ℕ
  pub parent_pid : Option ℕ
  pub name : List ℕ
  pub name_len : ℕ
  pub state : ProcessState
  pub scheduler_task : ℕ
  pub capabilities : List (Option ℕ)
  pub memory : ProcessMemory
  pub address_space : AddressSpaceState
  pub exit_code : ℤ
  pub cpu_ticks : ℕ
  pub syscall_count : ℕ
  pub signal_pending : ℕ
  pub signal_blocked : ℕ
  pub saved_context : Option UserContext

abbrev pub max_processes : ℕ
max_processes = 128

pub record ProcessTable : Type 0 where
  pub processes : List (Option Process)
  pub next_pid : ℕ

unfoldable pub new : ProcessTable
new = record { processes = replicate max_processes none; next_pid = 1 }

-- The process that `create` stores: the name is cut to 32 bytes.
unfoldable pub fresh : ℕ → List ℕ → Option ℕ → ℕ → Process
fresh pid name parent scheduler_task = record {
  pid = pid;
  parent_pid = parent;
  name = take 32 name ++ drop (min (length name) 32) (replicate 32 0);
  name_len = min (length name) 32;
  state = creating;
  scheduler_task = scheduler_task;
  capabilities = replicate 8 none;
  memory = record {
    code_start = 0x0040_0000;
    code_size = 0;
    stack_top = 0x0080_0000;
    stack_size = 65536;
    heap_start = 0x0100_0000;
    heap_end = 0x0100_0000;
  };
  address_space = AddressSpace.new;
  exit_code = pos 0;
  cpu_ticks = 0;
  syscall_count = 0;
  signal_pending = 0;
  signal_blocked = 0;
  saved_context = none;
}

-- `ProcessTable::create`.
unfoldable pub create : ProcessTable → List ℕ → Option ℕ → ℕ → Option ℕ × ProcessTable
create t name parent scheduler_task =
    elim (fill_free (fresh t.next_pid name parent scheduler_task) t.processes) [
      | some slots ↦
          (some t.next_pid, record t { processes = slots; next_pid = add_u64 t.next_pid 1 })
      | none ↦ (none, t)
    ]

abbrev pub has_pid : ℕ → Process → Bool
has_pid pid p = p.pid == pid

-- `ProcessTable::get`.
unfoldable pub get : ProcessTable → ℕ → Option Process
get t pid = find (has_pid pid) t.processes

-- A write through `ProcessTable::get_mut`.
unfoldable pub update : ProcessTable → ℕ → (Process → Process) → ProcessTable
update t pid f = record t { processes = modify (has_pid pid) f t.processes }

-- `ProcessTable::start`.
unfoldable pub start : ProcessTable → ℕ → Bool × ProcessTable
start t pid = elim (get t pid) [
  | some p ↦ (true, update t pid (λ p. record p { state = ready }))
  | none ↦ (false, t)
]

-- `ProcessTable::terminate`.
unfoldable pub terminate : ProcessTable → ℕ → ℤ → Bool × ProcessTable
terminate t pid exit_code = elim (get t pid) [
  | some p ↦ (true, update t pid (λ p. record p { state = terminated; exit_code = exit_code }))
  | none ↦ (false, t)
]

-- `ProcessTable::get_task_id_by_pid`.
unfoldable pub get_task_id_by_pid : ProcessTable → ℕ → Option ℕ
get_task_id_by_pid t pid = elim (get t pid) [ some p ↦ some p.scheduler_task | none ↦ none ]

-- The comparison with `Some(caller_pid)`.
abbrev pub is_some_of : ℕ → Option ℕ → Bool
is_some_of n (some m) = m == n
is_some_of n none = false

-- `ProcessTable::is_self_or_child`.
unfoldable pub is_self_or_child : ProcessTable → ℕ → ℕ → Bool
is_self_or_child t caller_pid target_pid =
    target_pid == caller_pid
    || elim (get t target_pid) [ some p ↦ is_some_of caller_pid p.parent_pid | none ↦ false ]

-- A call of an address-space operation on the process under a pid.
unfoldable pub on_address_space :
    {A : Type 0}
    → ProcessTable
    → ℕ
    → (AddressSpaceState → Result A AddressSpaceError × AddressSpaceState)
    → Result A AddressSpaceError × ProcessTable
on_address_space t pid f = elim (get t pid) [
  | some p ↦ (
    (f p.address_space).0,
    update t pid (λ q. record q { address_space = (f p.address_space).1 }),
  )
  | none ↦ (err not_found, t)
]

-- `ProcessTable::pin_address_space`.
unfoldable pub pin_address_space :
    ProcessTable → ℕ → Result AddressSpacePin AddressSpaceError × ProcessTable
unfolding on_address_space
pin_address_space t pid = on_address_space t pid (λ s. AddressSpace.pin s pid)

-- `ProcessTable::release_address_space_pin`.
unfoldable pub release_address_space_pin :
    ProcessTable → AddressSpacePin → Result (Unit {0}) AddressSpaceError × ProcessTable
unfolding on_address_space
release_address_space_pin t pin = on_address_space t pin.pid (λ s. AddressSpace.release s pin)

-- `ProcessTable::bump_address_space_generation`.
unfoldable pub bump_address_space_generation :
    ProcessTable → ℕ → Result ℕ AddressSpaceError × ProcessTable
unfolding on_address_space
bump_address_space_generation t pid = on_address_space t pid AddressSpace.bump_generation

slot_from : ℕ → ℕ → List (Option Process) → Option ℕ
slot_from pid i [] = none
slot_from pid i (none ∷ s) = slot_from pid (i + 1) s
slot_from pid i (some p ∷ s) = if p.pid == pid then some i else slot_from pid (i + 1) s

-- `ProcessTable::slot_of`.
unfoldable pub slot_of : ProcessTable → ℕ → Option ℕ
unfolding slot_from
slot_of t pid = slot_from pid 0 t.processes

-- `p.state != Terminated && p.state != Zombie`.
abbrev pub is_active : Process → Bool
is_active p = elim p.state [ zombie ↦ false | terminated ↦ false | _ ↦ true ]

-- The second `next()` must find nothing.
abbrev pub only : List Process → Option ℕ
only [] = none
only (p ∷ []) = some p.pid
only (p ∷ q ∷ rest) = none

-- `ProcessTable::get_pid_by_task_id`.
unfoldable pub get_pid_by_task_id : ProcessTable → ℕ → Option ℕ
get_pid_by_task_id t task_id =
    only (keep (λ p. p.scheduler_task == task_id && is_active p) (entries t.processes))

-- `ProcessTable::active_processes`.
unfoldable pub active_processes : ProcessTable → List Process
active_processes t = keep is_active (entries t.processes)

unfoldable pub active_count : ProcessTable → ℕ
active_count t = length (active_processes t)

-- `next_pid` starts at 1.
unfoldable pub total_created : ProcessTable → ℕ
total_created t = t.next_pid - 1
