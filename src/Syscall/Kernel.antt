-- ===== src/Syscall/Kernel.antt =====
-- The kernel state that kernel/src/syscall.rs reads and writes: the locked statics of the other
-- modules, and the user registers on the stack above the `SyscallContext`. The scheduler of
-- kernel/src/sched.rs is an interface here.
use brane_os.Prelude.{ℕ, ◌%◌, ◌^◌, Bool, Option, none, some, ltb, not, ◌==◌, if◌then◌else◌}
use brane_os.Security.{CapabilityManager}
use brane_os.Audit.{AuditLog, Stamp}
use brane_os.Process.Table.{ProcessTable, UserContext, get_pid_by_task_id}
use brane_os.Signal.{SignalManager}
use brane_os.Syscall.Abi.{CallerContext}

-- The fields of a `CpuSchedulerSnapshot` that a system call reads.
pub record CpuSnapshot : Type 0 where
  pub initialized : Bool
  pub current_task : Option ℕ

-- What a system call uses of the scheduler.
pub record Scheduler (S : Type 0) : Type 0 where
  pub tick : S → S
  pub total_ticks : S → ℕ
  pub active_count : S → ℕ
  pub current_task_id : S → Option ℕ
  pub cpu_scheduler_snapshot : S → ℕ → Option CpuSnapshot

pub record Kernel (S : Type 0) : Type 0 where
  pub caps : CapabilityManager
  pub audit : AuditLog
  pub processes : ProcessTable
  pub signals : SignalManager
  pub sched : S
  pub frame : UserContext

-- `smp::MAX_CPUS`.
abbrev pub max_cpus : ℕ
max_cpus = 32

module _ {S : Type 0} (scheduler : Scheduler S) where
  -- `snapshot_tick_cpu` of kernel/src/audit.rs.
  unfoldable pub snapshot_tick_cpu : Kernel S → ℕ → Stamp
  snapshot_tick_cpu k cpu = record { tick = scheduler.total_ticks k.sched; cpu_id = cpu % 2 ^ 16 }

  -- The task that runs on a CPU.
  unfoldable pub running_task : Kernel S → ℕ → CpuSnapshot → Option ℕ
  running_task k cpu state =
      if state.initialized
      then state.current_task
      else if cpu == 0
      then scheduler.current_task_id k.sched
      else none

  -- `capture_caller_context_for_cpu`.
  unfoldable pub capture_caller_context : Kernel S → ℕ → Option CallerContext
  unfolding running_task
  capture_caller_context k cpu =
      if not (ltb cpu max_cpus) then none else elim (scheduler.cpu_scheduler_snapshot k.sched cpu) [
        | none ↦ none
        | some state ↦ elim (running_task k cpu state) [
          | none ↦ none
          | some task_id ↦ elim (get_pid_by_task_id k.processes task_id) [
            | none ↦ none
            | some pid ↦ some (record { task_id = task_id; pid = pid; cpu_id = cpu % 2 ^ 16 })
          ]
        ]
      ]
