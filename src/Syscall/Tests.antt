-- ===== src/Syscall/Tests.antt =====
-- The theorems on system calls at concrete inputs: task 17 runs as process 1 on CPU 0, and holds a token
-- for signalling the process of task 17.
use brane_os.Prelude.{
  checked_add_u64, ℕ, ◌+◌, ◌*◌, ◌/◌, ◌≤◌, ◌<◌, ◌≡◌, ◌↔◌, refl, ◌⊎◌, true, none, some, [], ◌∷◌, ok,
  replicate, arith, ◌==◌, if◌then◌else◌,
}
use brane_os.Prelude.Bits.{bit_at}
use brane_os.Prelude.Slots.{fill_free, find}
use brane_os.Audit
use brane_os.Process.Table
use brane_os.Process.Table.{Process, ProcessTable, UserContext, create, fresh, get}
use brane_os.Security
use brane_os.Security.{CapabilityManager}
use brane_os.Security.Table.{IsValid, new-IsValid}
use brane_os.Security.Lifetime.{grants, after, after-IsValid}
use brane_os.Signal
use brane_os.Syscall.Status
use brane_os.Syscall.Abi.{SyscallContext, CallerContext}
use brane_os.Syscall.UserRange
use brane_os.Syscall.UserRange.{
  UserRange, UserPagePermissions, new_with_user_limit, is_canonical_user_address, check_end,
  validate_pages, user_address_max, user_page_size,
}
use brane_os.Syscall.UserRange.Pages.{Usable, validate_pages_iff}
use brane_os.Syscall.Authorize.{authorize}
use brane_os.Syscall.Authorize.Decides.{Decides}
use brane_os.Syscall.Authorize.Rights.{Right, authorize_decides}
use brane_os.Syscall.Kernel.{Scheduler, Kernel, capture_caller_context}
use brane_os.Syscall.Handlers.{handle_sigprocmask}
use brane_os.Syscall.Handlers.Mask.{wanted_bit, handle_sigprocmask_lem}
use brane_os.Syscall.Dispatch.{account, dispatch}
use brane_os.Syscall.Dispatch.Isolation.{Kept, MayChange, kill_rule, dispatch_isolates}

-- Two pages, the second one for reading only.
abbrev pages : ℕ → UserPagePermissions
pages page = record { present = true; user_accessible = true; writable = page == 0x0040_0000 }

abbrev crossing : UserRange
crossing = record { start = 0x0040_0ff0; len = 32; access = UserRange.write }

crossing-accepted :
    new_with_user_limit 0x0040_0ff0 32 UserRange.write 4096 user_address_max ≡ ok crossing
unfolding new_with_user_limit is_canonical_user_address check_end checked_add_u64
crossing-accepted = refl

validate_pages_iff_example : (validate_pages crossing pages ≡ ok tt) ↔ (
    (a : ℕ)
    → 0x0040_0ff0 ≤ a
    → a < 0x0040_0ff0 + 32
    → Usable UserRange.write (pages (a / user_page_size * user_page_size)))
validate_pages_iff_example =
    validate_pages_iff 0x0040_0ff0 32 UserRange.write 4096 user_address_max pages crossing-accepted

abbrev processes : ProcessTable
processes = (create Table.new (115 ∷ 104 ∷ []) none 17).1

abbrev caps : CapabilityManager
caps = after Security.new (grants 17 (Security.process 17) 1024 Security.low true ∷ [])

caps-IsValid : IsValid caps
unfolding Security.new
caps-IsValid =
    after-IsValid (grants 17 (Security.process 17) 1024 Security.low true ∷ []) Security.new
      new-IsValid (omega arith)

abbrev caller : CallerContext
caller = record { task_id = 17; pid = 1; cpu_id = 0 }

abbrev call : ℕ → ℕ → ℕ → SyscallContext
call number arg1 arg2 = record {
  number = number;
  arg1 = arg1;
  arg2 = arg2;
  arg3 = 0;
  arg4 = 0;
  arg5 = 0;
}

authorize_decides_example :
    Decides
      (authorize caps processes caller (call 70 1 15) kill_rule)
      (Right caps processes caller (call 70 1 15) kill_rule)
authorize_decides_example =
    authorize_decides caps processes caller (call 70 1 15) kill_rule caps-IsValid

-- A scheduler that counts ticks and runs task 17.
abbrev clock : Scheduler ℕ
clock = record {
  tick = λ s. s + 1;
  total_ticks = λ s. s;
  active_count = λ s. 1;
  current_task_id = λ s. some 17;
  cpu_scheduler_snapshot = λ s cpu. some (record { initialized = true; current_task = some 17 });
}

abbrev registers : UserContext
registers = record {
  r15 = 0;
  r14 = 0;
  r13 = 0;
  r12 = 0;
  rbx = 0;
  rbp = 0;
  r11 = 0;
  r10 = 0;
  r9 = 0;
  r8 = 0;
  rdi = 0;
  rsi = 0;
  rdx = 0;
  rcx = 0x0040_0000;
  rax = 70;
}

abbrev kernel : Kernel ℕ
kernel = record {
  caps = caps;
  audit = Audit.new;
  processes = processes;
  signals = Signal.new;
  sched = 0;
  frame = registers;
}

dispatch_isolates_example :
    let caught = capture_caller_context clock kernel 0 in
    Kept clock kernel
      (dispatch clock kernel 0 (call 70 1 15)).1
      (MayChange clock (account clock kernel caught) caught (call 70 1 15))
dispatch_isolates_example = dispatch_isolates clock kernel 0 (call 70 1 15) caps-IsValid

shell : get processes 1 ≡ some (fresh 1 (115 ∷ 104 ∷ []) none 17)
unfolding get create Table.new fresh fill_free replicate find
shell = refl

handle_sigprocmask_lem_example :
    let p = fresh 1 (115 ∷ 104 ∷ []) none 17 in
    let (answer, k2) = handle_sigprocmask clock kernel (call 73 1 1536) caller in
    ((1 ≤ 1)
      × (1 ≤ 3)
      × (answer ≡ Status.ok p.signal_blocked)
      × ((m : ℕ) × ((j : ℕ)
            → get k2.processes j
              ≡ (if 1 == j then some (record p { signal_blocked = m }) else get processes j))
          × ((i : ℕ)
              → i < 64
              → bit_at i m ≡ wanted_bit 1 i (bit_at i 1536) (bit_at i p.signal_blocked))))
    ⊎ ((¬ ((1 ≤ 1) × (1 ≤ 3))) × (answer ≡ Status.err Status.invalid_argument) × (k2 ≡ kernel))
handle_sigprocmask_lem_example =
    handle_sigprocmask_lem clock kernel (call 73 1 1536) caller (fresh 1 (115 ∷ 104 ∷ []) none 17)
      shell (omega arith)
