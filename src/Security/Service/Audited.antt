-- ===== src/Security/Service/Audited.antt =====
-- Every change of the capability table leaves its mark in the audit log.
use brane_os.Prelude.{
  ℕ, ◌≡◌, refl, subst, Bool, Option, none, some, List, ◌∷◌, ok, err, inl, inr, Option-cases,
  Bool-cases, negsuc, if◌then◌else◌,
}
use brane_os.Prelude.Slots.{find}
use brane_os.Audit.{
  AuditLog, AuditEvent, AuditAction, AuditResult, success, denied, error, Stamp, capability_granted,
  capability_revoked, record_event, record_anonymous, current_origin, anonymous, event_of,
}
use brane_os.Audit.Retention.{Retains, record_at-Retains}
use brane_os.Security.{
  CapabilityManager, CapScope, CapPermissions, RiskLevel, CapError, has_id, revoke_cap,
}
use brane_os.Security.Table.{lookup}
use brane_os.Security.Service.{
  Services, grant_capability, revoke_capability, audit_result, cap_error_code,
}

-- The log gained this one event.
pub record Logged (now : Stamp) (history : List AuditEvent) (log : AuditLog) (source : Option ℕ)
    (action : AuditAction) (result : AuditResult) : Type 0 where
  pub event : AuditEvent
  pub retained : Retains log (event ∷ history)
  pub at : event.tick ≡ now.tick
  pub on : event.cpu_id ≡ now.cpu_id
  pub by : event.source ≡ source
  pub what : event.action ≡ action
  pub outcome : event.result ≡ result

record_event-Logged :
    (now : Stamp) (log : AuditLog) (history : List AuditEvent) (source : ℕ) (action : AuditAction)
    (result : AuditResult)
    → Retains log history
    → Logged now history
        (record_event now log source action none result)
        (some source)
        action
        result
unfolding record_event event_of
record_event-Logged now log history source action result v = record {
  event =
      event_of log.next_seq now.tick (current_origin (some source) now.cpu_id) action none result;
  retained = record_at-Retains log history now.tick _ action none result v;
  at = refl;
  on = refl;
  by = refl;
  what = refl;
  outcome = refl;
}

record_anonymous-Logged :
    (now : Stamp) (log : AuditLog) (history : List AuditEvent) (action : AuditAction)
    (result : AuditResult)
    → Retains log history
    → Logged now history (record_anonymous now log action result) none action result
unfolding record_anonymous event_of
record_anonymous-Logged now log history action result v = record {
  event = event_of log.next_seq now.tick (anonymous now.cpu_id) action none result;
  retained = record_at-Retains log history now.tick _ action none result v;
  at = refl;
  on = refl;
  by = refl;
  what = refl;
  outcome = refl;
}

-- A successful grant is logged as one event for the new id by the new owner; a refused grant leaves
-- the log alone.
pub grant_capability_audited :
    (now : Stamp) (s : Services) (history : List AuditEvent) (owner : ℕ) (scope : CapScope)
    (perms : CapPermissions) (risk : RiskLevel) (revocable : Bool)
    → Retains s.audit history
    → let (r, t) = grant_capability now s owner scope perms risk revocable in
      ((i : ℕ) → r ≡ ok i → Logged now history t.audit (some owner) (capability_granted i) success)
      × ((e : CapError) → r ≡ err e → t.audit ≡ s.audit)
unfolding grant_capability
grant_capability_audited now s history owner scope perms risk revocable v = (
  λ i h. rw h (record_event-Logged now s.audit history owner (capability_granted i) success v),
  λ e h. rw h,
)

-- The owner of the token under an id, as the table has it.
unfoldable pub owner_of : CapabilityManager → ℕ → Option ℕ
owner_of m k = elim (lookup m k) [ some c ↦ some c.owner | none ↦ none ]

-- The result that an attempt to revoke the token under an id has to be logged with: -4 stands for a
-- missing token.
unfoldable pub revocation_result : CapabilityManager → ℕ → AuditResult
revocation_result m k = elim (lookup m k) [
  | some c ↦ if c.revocable then success else denied
  | none ↦ error (negsuc 3)
]

audit_result-revoke_cap :
    (m : CapabilityManager) (k : ℕ) → audit_result (revoke_cap m k).0 ≡ revocation_result m k
unfolding revoke_cap audit_result cap_error_code revocation_result lookup
audit_result-revoke_cap m k = elim (Option-cases (find (has_id k) m.capabilities)) [
  | inl e ↦ rw (e, revoke_cap, revocation_result) refl
  | inr (c, e) ↦ elim (Bool-cases c.revocable) [
    | inl may ↦ rw (e, revoke_cap, revocation_result, may) refl
    | inr may_not ↦ rw (e, revoke_cap, revocation_result, may_not) refl
  ]
]

revoke_capability-Logged :
    (now : Stamp) (s : Services) (history : List AuditEvent) (k : ℕ)
    → Retains s.audit history
    → let (r, t) = revoke_capability now s k in
      Logged now history t.audit (owner_of s.caps k) (capability_revoked k) (audit_result r)
unfolding revoke_capability owner_of lookup
revoke_capability-Logged now s history k v =
    elim (Option-cases (find (has_id k) s.caps.capabilities)) [
      | inl e ↦
          rw (e, revoke_capability, owner_of)
            (record_anonymous-Logged now s.audit history (capability_revoked k) _ v)
      | inr (c, e) ↦
          rw (e, revoke_capability, owner_of)
            (record_event-Logged now s.audit history c.owner (capability_revoked k) _ v)
    ]

-- Every revocation attempt is logged as one event, whatever its outcome: under the owner of the token
-- if there is one and anonymously otherwise; as a success where the token is revocable, as denied
-- where it is not, and with the error -4 where there is none.
pub revoke_capability_audited :
    (now : Stamp) (s : Services) (history : List AuditEvent) (k : ℕ)
    → Retains s.audit history
    → let (r, t) = revoke_capability now s k in
      Logged now history t.audit
        (owner_of s.caps k)
        (capability_revoked k)
        (revocation_result s.caps k)
unfolding revoke_capability
revoke_capability_audited now s history k v =
    subst
      (Logged now history (revoke_capability now s k).1.audit (owner_of s.caps k)
        (capability_revoked k))
      (audit_result-revoke_cap s.caps k) (revoke_capability-Logged now s history k v)
