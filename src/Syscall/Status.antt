-- ===== src/Syscall/Status.antt =====
-- `SyscallError` and `SyscallResult` of kernel/src/syscall.rs, which the IPC core answers with too.
use brane_os.Prelude.{ℕ, ◌-◌, ◌^◌, ℤ, pos, negsuc, ltb, if◌then◌else◌}

pub data SyscallError : Type 0 where
  invalid_syscall invalid_argument permission_denied not_found out_of_memory would_block :
      SyscallError
  no_message invalid_destination brane_not_connected internal : SyscallError

pub data SyscallResult : Type 0 where
  ok : ℕ → SyscallResult
  err : SyscallError → SyscallResult

-- `error as i64`.
unfoldable pub error_code : SyscallError → ℤ
error_code invalid_syscall = negsuc 0
error_code invalid_argument = negsuc 1
error_code permission_denied = negsuc 2
error_code not_found = negsuc 3
error_code out_of_memory = negsuc 4
error_code would_block = negsuc 5
error_code no_message = negsuc 6
error_code invalid_destination = negsuc 7
error_code brane_not_connected = negsuc 8
error_code internal = negsuc 99

-- `SyscallResult::to_raw`; a value is read as two's complement.
unfoldable pub to_raw : SyscallResult → ℤ
unfolding error_code
to_raw (ok val) = if ltb val (2 ^ 63) then pos val else negsuc (2 ^ 64 - 1 - val)
to_raw (err e) = error_code e

-- `as u64` on an `i64`.
unfoldable pub as_u64 : ℤ → ℕ
as_u64 (pos n) = n
as_u64 (negsuc n) = 2 ^ 64 - 1 - n
