-- ===== src/Syscall/Dispatch/Audited.antt =====
-- Each system call leaves one audit event.
use brane_os.Prelude.{ℕ, ◌≡◌, ◌⊎◌, Option}
use brane_os.Audit.{AuditLog, record_at, syscall_completed, caller_origin}
use brane_os.Syscall.Status
use brane_os.Syscall.Status.{SyscallResult}
use brane_os.Syscall.Abi.{AuditClass, CallerContext}
use brane_os.Syscall.Number
use brane_os.Syscall.Kernel.{Kernel}
use brane_os.Syscall.Dispatch.{audit_result}

-- The log gained one event, for this number and this caller; the call answers the logged result, or
-- `Ok(0)` after a success or a failure of its handler that a signal handler follows.
pub record LoggedOnce (before after : AuditLog) (caller : Option CallerContext) (cpu number : ℕ)
    (answer : SyscallResult) : Type 0 where
  pub tick : ℕ
  pub class : Option AuditClass
  pub used : Option ℕ
  pub result : SyscallResult
  pub entry :
      after
      ≡ record_at before tick
          (caller_origin caller cpu)
          (syscall_completed number class)
          used
          (audit_result result)
  pub answered : (answer ≡ result) ⊎ (answer ≡ Status.ok 0)
