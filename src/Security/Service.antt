-- ===== src/Security/Service.antt =====
-- The service boundary of kernel/src/security.rs: `grant_capability` and `revoke_capability` change
-- the capability table and then append to the audit log. The two locked statics are one state here;
-- the time and CPU of the log entry are an argument.
pub mod Audited
use brane_os.Prelude.{ℕ, ℤ, negsuc, Bool, Option, none, some, Option-cases, Result, ok, err}
use brane_os.Prelude.Slots.{find}
use brane_os.Audit.{
  AuditLog, AuditResult, success, denied, error, Stamp, capability_granted, capability_revoked,
  record_event, record_anonymous,
}
use brane_os.Security.{
  CapabilityManager, CapScope, CapPermissions, RiskLevel, CapError, not_found, permission_denied,
  already_revoked, table_full, invalid_scope, grant_cap, revoke_cap, has_id,
}

pub record Services : Type 0 where
  pub caps : CapabilityManager
  pub audit : AuditLog

unfoldable pub cap_error_code : CapError → ℤ
cap_error_code not_found = negsuc 3
cap_error_code permission_denied = negsuc 2
cap_error_code already_revoked = negsuc 9
cap_error_code table_full = negsuc 4
cap_error_code invalid_scope = negsuc 1

-- The `if let Ok(cap_id)` of `grant_capability`.
abbrev pub audit_grant : Stamp → ℕ → Result ℕ CapError → AuditLog → AuditLog
audit_grant now owner (ok cap_id) log =
    record_event now log owner (capability_granted cap_id) none success
audit_grant now owner (err _) log = log

unfoldable pub grant_capability :
    Stamp
    → Services
    → ℕ
    → CapScope
    → CapPermissions
    → RiskLevel
    → Bool
    → Result ℕ CapError × Services
grant_capability now s owner scope permissions risk_level revocable =
    let (result, caps) = grant_cap s.caps owner scope permissions risk_level revocable in
    (result, record { caps = caps; audit = audit_grant now owner result s.audit })

unfoldable pub audit_result : Result (Unit {0}) CapError → AuditResult
unfolding cap_error_code
audit_result (ok _) = success
audit_result (err permission_denied) = denied
audit_result (err not_found) = error (cap_error_code not_found)
audit_result (err already_revoked) = error (cap_error_code already_revoked)
audit_result (err table_full) = error (cap_error_code table_full)
audit_result (err invalid_scope) = error (cap_error_code invalid_scope)

unfoldable pub revoke_capability : Stamp → Services → ℕ → Result (Unit {0}) CapError × Services
unfolding audit_result
revoke_capability now s cap_id =
    let owner = find (has_id cap_id) s.caps.capabilities in
    let (result, caps) = revoke_cap s.caps cap_id in
    (
      result,
      record {
        caps = caps;
        audit = elim owner [
          | some cap ↦
              record_event now s.audit cap.owner (capability_revoked cap_id) none
                (audit_result result)
          | none ↦ record_anonymous now s.audit (capability_revoked cap_id) (audit_result result)
        ];
      },
    )
