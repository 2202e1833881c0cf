-- ===== src/Syscall/Rules.antt =====
-- The authorization rules of kernel/src/syscall.rs.

pub data CapabilityPermission : Type 0 where
  read write execute grant revoke ipc_send ipc_recv brane_connect brane_discover :
      CapabilityPermission
  brane_send brane_recv process_create process_signal memory_map : CapabilityPermission

pub data CapabilityScope : Type 0 where
  system self_process target_process destination_process vfs_service brane_target : CapabilityScope

pub record CapabilityRequirement : Type 0 where
  pub permission : CapabilityPermission
  pub scope : CapabilityScope

pub data AuthorizationRule : Type 0 where
  deny public self_only self_or_child handle_owner : AuthorizationRule
  capability self_or_capability self_or_child_or_capability :
      CapabilityRequirement → AuthorizationRule
  dual_capability : CapabilityRequirement → CapabilityRequirement → AuthorizationRule
