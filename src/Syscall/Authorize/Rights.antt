-- ===== src/Syscall/Authorize/Rights.antt =====
-- What an authorization rule asks of a caller, and that `authorize` decides it.
use brane_os.Prelude.{
  ℕ, ◌≡◌, ◌≢◌, refl, sym, ◌∙◌, ◌⊎◌, inl, inr, ◌↔◌, true, Option, none, some, ok, err, Result-cases,
  Option-cases, Bool-cases, ◌==◌, ==→eq, arith, subst, ℕ_discrete,
}
use brane_os.Security
use brane_os.Security.{CapScope, CapabilityManager, check}
use brane_os.Security.Table.{IsValid, lookup}
use brane_os.Security.Checks.{Covers, check_decides}
use brane_os.Process.Table.{Process, ProcessTable, get, get_task_id_by_pid, is_self_or_child}
use brane_os.Syscall.Status.{permission_denied}
use brane_os.Syscall.Abi.{SyscallContext, CallerContext}
use brane_os.Syscall.Rules.{
  CapabilityScope, system, self_process, target_process, destination_process, vfs_service,
  brane_target, CapabilityRequirement, AuthorizationRule, deny, public, self_only, self_or_child,
  handle_owner, capability, self_or_capability, self_or_child_or_capability, dual_capability,
}
use brane_os.Syscall.Authorize.Decides.{Decides, decides_ok, decides_err, decides_some, decides_or}
use brane_os.Syscall.Authorize.{
  vfs_service_id, capability_bits, process_scope, resolve_scope, check_capability,
  target_is_self_or_child, authorize, map_some,
}

module _ (caps : CapabilityManager) (t : ProcessTable) (caller : CallerContext)
    (ctx : SyscallContext) where
  -- The scope that a rule names, for this caller and these arguments.
  abbrev pub ScopeOf : CapabilityScope → CapScope → Type 0
  ScopeOf system s = s ≡ Security.system
  ScopeOf self_process s = s ≡ Security.process caller.task_id
  ScopeOf vfs_service s = s ≡ Security.service vfs_service_id
  ScopeOf brane_target s = s ≡ Security.brane ctx.arg1
  ScopeOf target_process s =
      (p : Process) × (get t ctx.arg1 ≡ some p) × (s ≡ Security.process p.scheduler_task)
  ScopeOf destination_process s =
      (p : Process) × (get t ctx.arg1 ≡ some p) × (s ≡ Security.process p.scheduler_task)

  -- The caller's task holds the token `id`, which covers the requirement.
  pub record Holds (requirement : CapabilityRequirement) (id : ℕ) : Type 0 where
    pub scope : CapScope
    pub named : ScopeOf requirement.scope scope
    pub token : Security.Capability
    pub stored : lookup caps id ≡ some token
    pub covers : Covers token caller.task_id (capability_bits requirement.permission) scope

  -- The target is the caller or a child of it.
  abbrev pub Family : Type 0
  Family =
      (ctx.arg1 ≡ caller.pid)
      ⊎ ((p : Process) × (get t ctx.arg1 ≡ some p) × (p.parent_pid ≡ some caller.pid))

  abbrev pub Token : CapabilityRequirement → Option ℕ → Type 0
  Token requirement used = (id : ℕ) × (used ≡ some id) × Holds requirement id

  -- What a rule asks, with the token that the call is booked on.
  abbrev pub Right : AuthorizationRule → Option ℕ → Type 0
  Right public used = used ≡ none
  Right self_only used = used ≡ none
  Right self_or_child used = (used ≡ none) × Family
  Right (capability requirement) used = Token requirement used
  Right (self_or_capability requirement) used =
      ((used ≡ none) × (ctx.arg1 ≡ caller.pid)) ⊎ ((ctx.arg1 ≢ caller.pid) × Token requirement used)
  Right (self_or_child_or_capability requirement) used =
      ((used ≡ none) × Family) ⊎ ((¬ Family) × Token requirement used)
  Right (dual_capability a b) used = Token a used × ((other : Option ℕ) × Token b other)
  Right handle_owner used = ⊥
  Right deny used = ⊥

  process_scope_decides : Decides (process_scope t ctx.arg1) (ScopeOf target_process)
  unfolding process_scope get_task_id_by_pid
  process_scope_decides = elim (Option-cases (get t ctx.arg1)) [
    | inl e ↦
        let refused : process_scope t ctx.arg1 ≡ err permission_denied =
          rw (e, get_task_id_by_pid, process_scope) refl in
        subst (λ r. Decides r (ScopeOf target_process)) (sym refused)
          (decides_err (ScopeOf target_process) (λ s v. cc (e, v.1)))
    | inr (p, e) ↦
        let found : process_scope t ctx.arg1 ≡ ok (Security.process p.scheduler_task) =
          rw (e, get_task_id_by_pid, process_scope) refl in
        subst (λ r. Decides r (ScopeOf target_process)) (sym found)
          (decides_ok (ScopeOf target_process) (Security.process p.scheduler_task) (p, e, refl))
  ]

  resolve_scope_decides : (s : CapabilityScope) → Decides (resolve_scope t s caller ctx) (ScopeOf s)
  unfolding resolve_scope
  resolve_scope_decides system = decides_ok (ScopeOf system) _ refl
  resolve_scope_decides self_process = decides_ok (ScopeOf self_process) _ refl
  resolve_scope_decides vfs_service = decides_ok (ScopeOf vfs_service) _ refl
  resolve_scope_decides brane_target = decides_ok (ScopeOf brane_target) _ refl
  resolve_scope_decides target_process = process_scope_decides
  resolve_scope_decides destination_process = process_scope_decides

  scope_unique : (s : CapabilityScope) (a b : CapScope) → ScopeOf s a → ScopeOf s b → a ≡ b
  scope_unique system a b x y = x ∙ sym y
  scope_unique self_process a b x y = x ∙ sym y
  scope_unique vfs_service a b x y = x ∙ sym y
  scope_unique brane_target a b x y = x ∙ sym y
  scope_unique target_process a b (p, e, x) (q, f, y) = cc (e, f, x, y)
  scope_unique destination_process a b (p, e, x) (q, f, y) = cc (e, f, x, y)

  target_is_self_or_child_iff : (target_is_self_or_child t caller ctx ≡ true) ↔ Family
  unfolding target_is_self_or_child is_self_or_child
  target_is_self_or_child_iff = (
    λ h. elim (ℕ_discrete ctx.arg1 caller.pid) [
      | yes same ↦ inl same
      | no other ↦ elim (Option-cases (get t ctx.arg1)) [
        | inl e ↦ absurd (ground (arith, h, e))
        | inr (p, e) ↦ elim (Option-cases p.parent_pid) [
          | inl f ↦ absurd (ground (arith, h, e, f))
          | inr (q, f) ↦ inr (p, e, ground (arith, h, e, f))
        ]
      ]
    ],
    λ v. ground (arith, v),
  )

  Holds-decides :
      (requirement : CapabilityRequirement)
      → IsValid caps
      → Decides (check_capability caps t caller ctx requirement) (Holds requirement)
  unfolding check_capability
  Holds-decides requirement valid =
      let scoping = resolve_scope_decides requirement.scope in
      let bits = capability_bits requirement.permission in
      elim (Result-cases (resolve_scope t requirement.scope caller ctx)) [
        | inl (s, e) ↦
            let named = scoping.0 s e in
            let checking = check_decides caps caller.task_id bits s valid in
            rw e (elim (Result-cases (check caps caller.task_id bits s)) [
              | inl (id, f) ↦
                  let (token, stored, covers) = checking.0 id f in
                  rw f (
                    decides_ok (Holds requirement) id (record {
                      scope = s;
                      named = named;
                      token = token;
                      stored = stored;
                      covers = covers;
                    }))
              | inr (x, f) ↦ rw f (
                  decides_err (Holds requirement) (λ id h. (checking.1 x f).1 id h.token h.stored (
                    subst (Covers h.token caller.task_id bits)
                      (scope_unique requirement.scope h.scope s h.named named) h.covers)))
            ])
        | inr (x, e) ↦
            rw (e, (scoping.1 x e).0)
              (decides_err (Holds requirement) (λ id h. (scoping.1 x e).1 h.scope h.named))
      ]

module _ (caps : CapabilityManager) (t : ProcessTable) (caller : CallerContext)
    (ctx : SyscallContext) where
  Token-decides :
      (requirement : CapabilityRequirement)
      → IsValid caps
      → Decides
          (map_some (check_capability caps t caller ctx requirement))
          (Token caps t caller ctx requirement)
  Token-decides requirement valid =
      decides_some (check_capability caps t caller ctx requirement)
        (Holds-decides caps t caller ctx requirement valid)

  both_decides :
      (a b : CapabilityRequirement)
      → IsValid caps
      → Decides
          (authorize caps t caller ctx (dual_capability a b))
          (Right caps t caller ctx (dual_capability a b))
  unfolding authorize
  both_decides a b valid =
      let first = Holds-decides caps t caller ctx a valid in
      let second = Holds-decides caps t caller ctx b valid in
      elim (Result-cases (check_capability caps t caller ctx a)) [
        | inl (i, e) ↦ elim (Result-cases (check_capability caps t caller ctx b)) [
          | inl (j, f) ↦
              rw (e, f)
                (decides_ok _ (some i) ((i, refl, first.0 i e), (some j, (j, refl, second.0 j f))))
          | inr (x, f) ↦
              rw (e, f, (second.1 x f).0)
                (decides_err _ (λ used v. (second.1 x f).1 v.1.1.0 v.1.1.2))
        ]
        | inr (x, e) ↦
            rw (e, (first.1 x e).0) (decides_err _ (λ used v. (first.1 x e).1 v.0.0 v.0.2))
      ]

  -- For each authorization rule, with a valid capability table: `authorize` lets a call pass, booked on
  -- a token or on none, only where the caller has the right that the rule asks: nothing for a public or
  -- own call, the target being the caller or its child, or a token of the caller's task that covers the
  -- permission in the scope that the rule names. It refuses, always with `PermissionDenied`, only where
  -- the caller has no such right.
  pub authorize_decides :
      (rule : AuthorizationRule)
      → IsValid caps
      → Decides (authorize caps t caller ctx rule) (Right caps t caller ctx rule)
  unfolding authorize
  authorize_decides public valid = decides_ok _ none refl
  authorize_decides self_only valid = decides_ok _ none refl
  authorize_decides handle_owner valid = decides_err _ (λ used v. v)
  authorize_decides deny valid = decides_err _ (λ used v. v)
  authorize_decides (capability requirement) valid = Token-decides requirement valid
  authorize_decides (dual_capability a b) valid = both_decides a b valid
  authorize_decides self_or_child valid = elim (Bool-cases (target_is_self_or_child t caller ctx)) [
    | inl e ↦ rw e (decides_ok _ none (refl, (target_is_self_or_child_iff caps t caller ctx).0 e))
    | inr e ↦
        rw e
          (decides_err _ (λ used v. cc (e, (target_is_self_or_child_iff caps t caller ctx).1 v.1)))
  ]
  authorize_decides (self_or_capability requirement) valid =
      decides_or (ctx.arg1 == caller.pid) _ (λ h. ==→eq _ _ h, λ h. ground arith)
        (Token-decides requirement valid)
  authorize_decides (self_or_child_or_capability requirement) valid =
      decides_or (target_is_self_or_child t caller ctx) _
        (target_is_self_or_child_iff caps t caller ctx) (Token-decides requirement valid)
