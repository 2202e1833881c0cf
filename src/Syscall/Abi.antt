-- ===== src/Syscall/Abi.antt =====
-- The vocabulary of kernel/src/syscall.rs that its own tables and the audit log share.
use brane_os.Prelude.{ℕ}

pub data AuditClass : Type 0 where
  process memory io ipc capability system brane signal : AuditClass

-- `SyscallContext`, the registers at the entry of a call.
pub record SyscallContext : Type 0 where
  pub number : ℕ
  pub arg1 : ℕ
  pub arg2 : ℕ
  pub arg3 : ℕ
  pub arg4 : ℕ
  pub arg5 : ℕ

-- `CallerContext`, the identity that the kernel captured.
pub record CallerContext : Type 0 where
  pub task_id : ℕ
  pub pid : ℕ
  pub cpu_id : ℕ
