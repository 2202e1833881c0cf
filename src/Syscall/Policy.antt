-- ===== src/Syscall/Policy.antt =====
-- The mediation table of kernel/src/syscall.rs.
pub mod Exhaustive
use brane_os.Prelude.{ℕ, Option, List, [], ◌∷◌, none, some, Bool, if◌then◌else◌}
use brane_os.Syscall.Abi
use brane_os.Syscall.Abi.{AuditClass}
use brane_os.Syscall.Number
use brane_os.Syscall.Number.{SyscallNumber, number_eq}
use brane_os.Syscall.Rules
use brane_os.Syscall.Rules.{
  CapabilityPermission, CapabilityScope, CapabilityRequirement, AuthorizationRule, capability,
}

pub data HandlerState : Type 0 where
  implemented partial unimplemented : HandlerState

pub record SyscallSpec : Type 0 where
  pub number : SyscallNumber
  pub state : HandlerState
  pub authorization : AuthorizationRule
  pub audit_class : AuditClass
  pub max_copy_bytes : ℕ

abbrev pub max_copy_none : ℕ
max_copy_none = 0

abbrev pub max_copy_path : ℕ
max_copy_path = 4096

abbrev pub max_copy_ipc : ℕ
max_copy_ipc = 4096

abbrev pub max_copy_buffer : ℕ
max_copy_buffer = 65536

abbrev pub required : CapabilityPermission → CapabilityScope → CapabilityRequirement
required permission scope = record { permission = permission; scope = scope }

-- `cap`.
abbrev pub cap : CapabilityPermission → CapabilityScope → AuthorizationRule
cap permission scope = capability (required permission scope)

abbrev pub spec_of : SyscallNumber → HandlerState → AuthorizationRule → AuditClass → ℕ → SyscallSpec
spec_of number state authorization audit_class max_copy_bytes = record {
  number = number;
  state = state;
  authorization = authorization;
  audit_class = audit_class;
  max_copy_bytes = max_copy_bytes;
}

-- `SYSCALL_SPECS`.
unfoldable pub syscall_specs : List SyscallSpec
syscall_specs =
    spec_of Number.exit partial (Rules.self_only) Abi.process max_copy_none
    ∷ spec_of Number.yield implemented (Rules.self_only) Abi.process max_copy_none
    ∷ spec_of Number.get_pid implemented (Rules.self_only) Abi.process max_copy_none
    ∷ spec_of Number.fork unimplemented (cap Rules.process_create Rules.system) Abi.process
        max_copy_none
    ∷ spec_of Number.exec unimplemented (cap Rules.execute Rules.vfs_service) Abi.process
        max_copy_path
    ∷ spec_of Number.wait_pid unimplemented (Rules.self_or_child) Abi.process max_copy_none
    ∷ spec_of Number.mmap unimplemented (cap Rules.memory_map Rules.self_process) Abi.memory
        max_copy_none
    ∷ spec_of Number.munmap unimplemented (cap Rules.memory_map Rules.self_process) Abi.memory
        max_copy_none
    ∷ spec_of Number.write partial (cap Rules.write Rules.vfs_service) Abi.io max_copy_buffer
    ∷ spec_of Number.read unimplemented (cap Rules.read Rules.vfs_service) Abi.io max_copy_buffer
    ∷ spec_of Number.open_file unimplemented (cap Rules.read Rules.vfs_service) Abi.io max_copy_path
    ∷ spec_of Number.close unimplemented (Rules.handle_owner) Abi.io max_copy_none
    ∷ spec_of Number.send partial (cap Rules.ipc_send Rules.destination_process) Abi.ipc
        max_copy_ipc
    ∷ spec_of Number.recv partial (cap Rules.ipc_recv Rules.self_process) Abi.ipc max_copy_ipc
    ∷ spec_of Number.send_recv unimplemented
        (Rules.dual_capability (required Rules.ipc_send Rules.destination_process)
          (required Rules.ipc_recv Rules.self_process))
        Abi.ipc max_copy_ipc
    ∷ spec_of Number.request_cap unimplemented (Rules.self_only) Abi.capability max_copy_ipc
    ∷ spec_of Number.release_cap unimplemented (Rules.handle_owner) Abi.capability max_copy_none
    ∷ spec_of Number.check_cap unimplemented (Rules.self_only) Abi.capability max_copy_none
    ∷ spec_of Number.get_time implemented (Rules.public) Abi.system max_copy_none
    ∷ spec_of Number.get_system_info implemented (Rules.public) Abi.system max_copy_none
    ∷ spec_of Number.brane_discover unimplemented (cap Rules.brane_discover Rules.system) Abi.brane
        max_copy_buffer
    ∷ spec_of Number.brane_connect unimplemented (cap Rules.brane_connect Rules.brane_target)
        Abi.brane max_copy_path
    ∷ spec_of Number.brane_send unimplemented (cap Rules.brane_send Rules.brane_target) Abi.brane
        max_copy_buffer
    ∷ spec_of Number.brane_recv unimplemented (cap Rules.brane_recv Rules.brane_target) Abi.brane
        max_copy_buffer
    ∷ spec_of Number.kill partial
        (Rules.self_or_child_or_capability (required Rules.process_signal Rules.target_process))
        Abi.signal max_copy_none
    ∷ spec_of Number.sig_action partial (Rules.self_only) Abi.signal max_copy_none
    ∷ spec_of Number.sig_return partial (Rules.self_only) Abi.signal max_copy_none
    ∷ spec_of Number.sig_proc_mask implemented (Rules.self_only) Abi.signal max_copy_none
    ∷ []

-- `Iterator::find` on the table.
abbrev pub find_spec : (SyscallSpec → Bool) → List SyscallSpec → Option SyscallSpec
find_spec p [] = none
find_spec p (spec ∷ specs) = if p spec then some spec else find_spec p specs

-- `syscall_spec`.
unfoldable pub syscall_spec : SyscallNumber → Option SyscallSpec
unfolding number_eq syscall_specs
syscall_spec number = find_spec (λ spec. number_eq spec.number number) syscall_specs
