-- ===== src/Syscall/Dispatch.antt =====
-- `dispatch` of kernel/src/syscall.rs: the gates that a call passes, its handler, the audit event, and
-- the delivery of a pending signal. Log lines are left out.
pub mod Audited
pub mod Isolation
use brane_os.Prelude.{
  ℕ, ◌+◌, ◌-◌, ◌^◌, min, Bool, true, false, ◌||◌, Option, none, some, Result, ok, err,
  if◌then◌else◌,
}
use brane_os.Audit.{AuditResult, success, denied, error, log_syscall}
use brane_os.Process.Table.{Process, ProcessTable, UserContext, get, update}
use brane_os.Signal
use brane_os.Signal.{deliver_pending}
use brane_os.Syscall.Status
use brane_os.Syscall.Status.{SyscallResult, SyscallError, error_code, to_raw, as_u64}
use brane_os.Syscall.Abi.{SyscallContext, CallerContext, AuditClass}
use brane_os.Syscall.Number
use brane_os.Syscall.Number.{SyscallNumber, from_raw}
use brane_os.Syscall.Policy.{
  HandlerState, implemented, partial, unimplemented, SyscallSpec, syscall_spec,
}
use brane_os.Syscall.Authorize.{authorize}
use brane_os.Syscall.Kernel.{Scheduler, Kernel, snapshot_tick_cpu, capture_caller_context}
use brane_os.Syscall.Handlers.{handle}

-- `audit_result`.
unfoldable pub audit_result : SyscallResult → AuditResult
unfolding error_code
audit_result (Status.ok _) = success
audit_result (Status.err Status.permission_denied) = denied
audit_result (Status.err e) = error (error_code e)

unfoldable pub is_unimplemented : HandlerState → Bool
is_unimplemented unimplemented = true
is_unimplemented _ = false

-- `syscall != Exit && syscall != SigReturn`.
unfoldable pub delivers : SyscallNumber → Bool
delivers Number.exit = false
delivers Number.sig_return = false
delivers _ = true

-- `saturating_add(1)` on the caller's counter.
unfoldable pub counted : Process → Process
counted p = record p { syscall_count = min (p.syscall_count + 1) (2 ^ 64 - 1) }

module _ {S : Type 0} (scheduler : Scheduler S) where
  unfoldable pub account : Kernel S → Option CallerContext → Kernel S
  unfolding counted
  account k none = k
  account k (some caller) = record k { processes = update k.processes caller.pid counted }

  -- A call of `log_syscall`.
  unfoldable pub logged :
      Kernel S
      → ℕ
      → Option CallerContext
      → ℕ
      → Option AuditClass
      → Option ℕ
      → SyscallResult
      → Kernel S
  unfolding log_syscall audit_result
  logged k cpu caller number class used result = record k {
    audit =
        log_syscall (snapshot_tick_cpu scheduler k cpu) k.audit caller number class used
          (audit_result result);
  }

  -- An early return: the result is logged and answered.
  unfoldable pub refuse :
      Kernel S
      → ℕ
      → Option CallerContext
      → ℕ
      → Option AuditClass
      → SyscallResult
      → SyscallResult × Kernel S
  unfolding logged
  refuse k cpu caller number class result = (result, logged k cpu caller number class none result)

  -- The redirection of the user registers to a handler.
  unfoldable pub redirect :
      Kernel S → ℕ → SyscallResult → Signal.Signal → ℕ → SyscallResult × Kernel S
  unfolding to_raw as_u64
  redirect k pid result sig handler_addr = (
    Status.ok 0,
    record k {
      processes = update k.processes pid (λ p. record p {
        saved_context = some (record k.frame { rax = as_u64 (to_raw result) });
      });
      frame = record k.frame { rcx = handler_addr; rdi = Signal.to_raw sig };
    },
  )

  -- The delivery after the handler.
  unfoldable pub deliver : Kernel S → ℕ → SyscallNumber → SyscallResult → SyscallResult × Kernel S
  unfolding redirect
  deliver k pid n result =
      if delivers n
      then (let (answer, t) = deliver_pending k.signals k.processes pid in
          elim answer [
            | some (sig, addr) ↦ redirect (record k { processes = t }) pid result sig addr
            | none ↦ (result, record k { processes = t })
          ])
      else (result, k)

  -- The handler of an authorized call and what follows it.
  unfoldable pub run :
      Kernel S
      → ℕ
      → CallerContext
      → SyscallNumber
      → AuditClass
      → Option ℕ
      → SyscallContext
      → SyscallResult × Kernel S
  unfolding logged deliver
  run k cpu caller n class used ctx =
      let (result, done) = handle scheduler k n ctx caller in
      deliver (logged done cpu (some caller) (Number.to_raw n) (some class) used result) caller.pid
        n result

  -- The gates of a known number.
  unfoldable pub mediate :
      Kernel S
      → ℕ
      → Option CallerContext
      → SyscallNumber
      → SyscallSpec
      → SyscallContext
      → SyscallResult × Kernel S
  unfolding refuse run
  mediate k cpu caller n spec ctx =
      if is_unimplemented spec.state
      then refuse k cpu caller (Number.to_raw n) (some spec.audit_class)
          (Status.err Status.invalid_syscall)
      else elim caller [
        | none ↦
            refuse k cpu none (Number.to_raw n) (some spec.audit_class) (Status.err Status.internal)
        | some c ↦ elim (authorize k.caps k.processes c ctx spec.authorization) [
          | ok used ↦ run k cpu c n spec.audit_class used ctx
          | err e ↦ refuse k cpu (some c) (Number.to_raw n) (some spec.audit_class) (Status.err e)
        ]
      ]

  -- The gates on the raw number.
  unfoldable pub enter :
      Kernel S → ℕ → Option CallerContext → SyscallContext → SyscallResult × Kernel S
  unfolding refuse mediate
  enter k cpu caller ctx = elim (from_raw ctx.number) [
    | none ↦ refuse k cpu caller ctx.number none (Status.err Status.invalid_syscall)
    | some n ↦ elim (syscall_spec n) [
      | none ↦ refuse k cpu caller (Number.to_raw n) none (Status.err Status.invalid_syscall)
      | some spec ↦ mediate k cpu caller n spec ctx
    ]
  ]

  -- `dispatch`, on the CPU that runs the call.
  unfoldable pub dispatch : Kernel S → ℕ → SyscallContext → SyscallResult × Kernel S
  unfolding account enter
  dispatch k cpu ctx =
      let caller = capture_caller_context scheduler k cpu in enter (account k caller) cpu caller ctx
