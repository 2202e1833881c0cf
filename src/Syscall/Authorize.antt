-- ===== src/Syscall/Authorize.antt =====
-- `authorize` of kernel/src/syscall.rs: the rule of a call against the capability table and the process
-- table, for the captured caller.
pub mod Decides
pub mod Rights
use brane_os.Prelude.{
  ℕ, Bool, true, false, Option, none, some, Result, ok, err, ◌>>=◌, ok_or, ◌==◌, if◌then◌else◌,
}
use brane_os.Security
use brane_os.Security.{CapPermissions, CapScope, CapError, CapabilityManager, mask, check}
use brane_os.Process.Table.{ProcessTable, get_task_id_by_pid, is_self_or_child}
use brane_os.Syscall.Status.{SyscallError, permission_denied}
use brane_os.Syscall.Abi.{SyscallContext, CallerContext}
use brane_os.Syscall.Rules.{
  CapabilityPermission, read, write, execute, grant, revoke, ipc_send, ipc_recv, brane_connect,
  brane_discover, brane_send, brane_recv, process_create, process_signal, memory_map,
  CapabilityScope, system, self_process, target_process, destination_process, vfs_service,
  brane_target, CapabilityRequirement, AuthorizationRule, deny, public, self_only, self_or_child,
  handle_owner, capability, self_or_capability, self_or_child_or_capability, dual_capability,
}

-- `VFS_SERVICE_ID`.
abbrev pub vfs_service_id : ℕ
vfs_service_id = 1

unfoldable pub capability_bits : CapabilityPermission → CapPermissions
unfolding mask
capability_bits read = mask Security.read
capability_bits write = mask Security.write
capability_bits execute = mask Security.execute
capability_bits grant = mask Security.grant
capability_bits revoke = mask Security.revoke
capability_bits ipc_send = mask Security.ipc_send
capability_bits ipc_recv = mask Security.ipc_recv
capability_bits brane_connect = mask Security.brane_connect
capability_bits brane_discover = mask Security.brane_discover
capability_bits process_create = mask Security.process_create
capability_bits process_signal = mask Security.process_signal
capability_bits memory_map = mask Security.memory_map
capability_bits brane_send = mask Security.brane_send
capability_bits brane_recv = mask Security.brane_recv

-- The scope of the process under a pid.
unfoldable pub process_scope : ProcessTable → ℕ → Result CapScope SyscallError
unfolding get_task_id_by_pid
process_scope t pid =
    ok_or permission_denied (get_task_id_by_pid t pid) >>= λ task_id. ok (Security.process task_id)

unfoldable pub resolve_scope :
    ProcessTable → CapabilityScope → CallerContext → SyscallContext → Result CapScope SyscallError
unfolding process_scope
resolve_scope t system caller ctx = ok Security.system
resolve_scope t self_process caller ctx = ok (Security.process caller.task_id)
resolve_scope t vfs_service caller ctx = ok (Security.service vfs_service_id)
resolve_scope t target_process caller ctx = process_scope t ctx.arg1
resolve_scope t destination_process caller ctx = process_scope t ctx.arg1
resolve_scope t brane_target caller ctx = ok (Security.brane ctx.arg1)

-- `map_err(|_| PermissionDenied)`.
abbrev pub denied_on_error : Result ℕ CapError → Result ℕ SyscallError
denied_on_error (ok id) = ok id
denied_on_error (err _) = err permission_denied

unfoldable pub check_capability :
    CapabilityManager
    → ProcessTable
    → CallerContext
    → SyscallContext
    → CapabilityRequirement
    → Result ℕ SyscallError
unfolding resolve_scope capability_bits
check_capability caps t caller ctx requirement =
    resolve_scope t requirement.scope caller ctx >>= λ scope.
    denied_on_error (check caps caller.task_id (capability_bits requirement.permission) scope)

-- `map(Some)`.
abbrev pub map_some : Result ℕ SyscallError → Result (Option ℕ) SyscallError
map_some (ok id) = ok (some id)
map_some (err e) = err e

-- `target_is_self_or_child`.
unfoldable pub target_is_self_or_child : ProcessTable → CallerContext → SyscallContext → Bool
target_is_self_or_child t caller ctx = is_self_or_child t caller.pid ctx.arg1

unfoldable pub authorize :
    CapabilityManager
    → ProcessTable
    → CallerContext
    → SyscallContext
    → AuthorizationRule
    → Result (Option ℕ) SyscallError
unfolding check_capability target_is_self_or_child
authorize caps t caller ctx public = ok none
authorize caps t caller ctx self_only = ok none
authorize caps t caller ctx self_or_child =
    if target_is_self_or_child t caller ctx then ok none else err permission_denied
authorize caps t caller ctx (capability requirement) =
    map_some (check_capability caps t caller ctx requirement)
authorize caps t caller ctx (self_or_capability requirement) =
    if ctx.arg1 == caller.pid
    then ok none
    else map_some (check_capability caps t caller ctx requirement)
authorize caps t caller ctx (self_or_child_or_capability requirement) =
    if target_is_self_or_child t caller ctx
    then ok none
    else map_some (check_capability caps t caller ctx requirement)
authorize caps t caller ctx (dual_capability a b) =
    check_capability caps t caller ctx a >>= λ first_id.
    check_capability caps t caller ctx b >>= λ _. ok (some first_id)
authorize caps t caller ctx handle_owner = err permission_denied
authorize caps t caller ctx deny = err permission_denied
