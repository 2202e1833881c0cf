-- ===== src/Syscall/Dispatch/Isolation.antt =====
-- Which processes a system call can change.
use brane_os.Prelude.{
  ℕ, ◌≡◌, ◌∙◌, refl, sym, ap, ◌⊎◌, inl, inr, Option, none, some, Result-cases, Option-cases,
  Bool-cases, ℕ_discrete, subst,
}
use brane_os.Security.{CapabilityManager}
use brane_os.Security.Table.{IsValid}
use brane_os.Process.Table.{ProcessTable, get}
use brane_os.Signal.{deliver_pending}
use brane_os.Signal.Delivery.{deliver_pending-other}
use brane_os.Syscall.Status
use brane_os.Syscall.Status.{SyscallResult}
use brane_os.Syscall.Abi.{AuditClass, SyscallContext, CallerContext}
use brane_os.Syscall.Number
use brane_os.Syscall.Number.{SyscallNumber, from_raw, number_eq}
use brane_os.Syscall.Rules
use brane_os.Syscall.Rules.{AuthorizationRule, self_or_child_or_capability}
use brane_os.Syscall.Policy.{SyscallSpec, syscall_spec, syscall_specs, required}
use brane_os.Syscall.Policy.Exhaustive.{from_raw_iff}
use brane_os.Syscall.Authorize.{authorize}
use brane_os.Syscall.Authorize.Rights.{Right, authorize_decides}
use brane_os.Syscall.Kernel.{Scheduler, Kernel, capture_caller_context}
use brane_os.Syscall.Handlers.{handle}
use brane_os.Syscall.Handlers.Frames.{Touched, update-other, handle-Frame}
use brane_os.Syscall.Dispatch.{
  is_unimplemented, delivers, counted, account, logged, refuse, redirect, deliver, run, mediate,
  enter, dispatch,
}

-- The rule of `kill`.
abbrev pub kill_rule : AuthorizationRule
kill_rule = self_or_child_or_capability (required Rules.process_signal Rules.target_process)

-- The caller may signal the process that its first argument names.
abbrev pub MaySignal : CapabilityManager → ProcessTable → CallerContext → SyscallContext → Type 0
MaySignal caps t caller ctx = (used : Option ℕ) × Right caps t caller ctx kill_rule used

kill_spec :
    (spec : SyscallSpec) → syscall_spec Number.kill ≡ some spec → spec.authorization ≡ kill_rule
unfolding syscall_spec syscall_specs number_eq Number.to_raw
kill_spec spec e = cc

module _ {S : Type 0} (scheduler : Scheduler S) where
  -- The capability table is kept, and each process but the touched ones.
  pub record Kept (k k2 : Kernel S) (touched : ℕ → Type 0) : Type 0 where
    pub caps : k2.caps ≡ k.caps
    pub processes : (j : ℕ) → (get k2.processes j ≡ get k.processes j) ⊎ touched j

  delivered-other :
      (k : Kernel S) (pid j : ℕ)
      → (get (deliver_pending k.signals k.processes pid).1 j ≡ get k.processes j) ⊎ (pid ≡ j)
  delivered-other k pid j = elim (ℕ_discrete pid j) [
    | yes same ↦ inr same
    | no other ↦ inl (deliver_pending-other k.signals k.processes pid j other)
  ]

  deliver-Kept :
      (k : Kernel S) (pid : ℕ) (n : SyscallNumber) (result : SyscallResult)
      → Kept k (deliver scheduler k pid n result).1 (λ j. pid ≡ j)
  unfolding deliver redirect
  deliver-Kept k pid n result = elim (Bool-cases (delivers n)) [
    | inr e ↦ rw (e, deliver) (record { caps = refl; processes = λ j. inl refl })
    | inl e ↦ elim (Option-cases (deliver_pending k.signals k.processes pid).0) [
      | inl f ↦
          rw (e, f, deliver) (record { caps = refl; processes = λ j. delivered-other k pid j })
      | inr ((sig, addr), f) ↦
          rw (e, f, deliver)
            (record {
              caps = refl;
              processes = λ j.
                  elim (update-other (deliver_pending k.signals k.processes pid).1 pid j _
                    (λ _. refl)) [
                      | inr here ↦ inr here
                      | inl same ↦ elim (delivered-other k pid j) [
                        | inl before ↦ inl (same ∙ before)
                        | inr here ↦ inr here
                      ]
                    ];
            })
    ]
  ]

  run-Kept :
      (k : Kernel S) (cpu : ℕ) (caller : CallerContext) (n : SyscallNumber) (class : AuditClass)
      (used : Option ℕ) (ctx : SyscallContext)
      → Kept k (run scheduler k cpu caller n class used ctx).1 (Touched scheduler n ctx caller)
  unfolding run logged
  run-Kept k cpu caller n class used ctx =
      let (result, done) = handle scheduler k n ctx caller in
      let frame = handle-Frame scheduler k n ctx caller in
      let after =
        deliver-Kept
          (logged scheduler done cpu (some caller) (Number.to_raw n) (some class) used result)
          caller.pid n result in
      record {
        caps = after.caps ∙ frame.caps;
        processes = λ j. elim (frame.processes j) [
          | inr touched ↦ inr touched
          | inl same ↦ elim (after.processes j) [ inl b ↦ inl (b ∙ same) | inr own ↦ inr (inl own) ]
        ];
      }

  -- The call has a caller, and changes the caller's process or one that the caller may signal.
  abbrev pub MayChange : Kernel S → Option CallerContext → SyscallContext → ℕ → Type 0
  MayChange k caller ctx j =
      (c : CallerContext) × (caller ≡ some c)
      × ((c.pid ≡ j) ⊎ ((ctx.number ≡ 70) × (ctx.arg1 ≡ j) × MaySignal k.caps k.processes c ctx))

  refuse-Kept :
      (k : Kernel S) (cpu : ℕ) (caller : Option CallerContext) (number : ℕ)
      (class : Option AuditClass) (result : SyscallResult) (touched : ℕ → Type 0)
      → Kept k (refuse scheduler k cpu caller number class result).1 touched
  unfolding refuse logged
  refuse-Kept k cpu caller number class result touched = record {
    caps = refl;
    processes = λ j. inl refl;
  }

  mediate-Kept :
      (k : Kernel S) (cpu : ℕ) (caller : Option CallerContext) (n : SyscallNumber)
      (spec : SyscallSpec) (ctx : SyscallContext)
      → IsValid k.caps
      → from_raw ctx.number ≡ some n
      → syscall_spec n ≡ some spec
      → Kept k (mediate scheduler k cpu caller n spec ctx).1 (MayChange k caller ctx)
  unfolding mediate Number.to_raw
  mediate-Kept k cpu caller n spec ctx valid raw row =
      elim (Bool-cases (is_unimplemented spec.state)) [
        | inl u ↦
            rw (u, mediate)
              (refuse-Kept k cpu caller (Number.to_raw n) (some spec.audit_class)
                (Status.err Status.invalid_syscall) _)
        | inr u ↦ elim (Option-cases caller) [
          | inl e ↦
              rw (u, mediate, e)
                (refuse-Kept k cpu none (Number.to_raw n) (some spec.audit_class)
                  (Status.err Status.internal) _)
          | inr (c, e) ↦
              elim (Result-cases (authorize k.caps k.processes c ctx spec.authorization)) [
                | inr (x, a) ↦
                    rw (u, mediate, e, a)
                      (refuse-Kept k cpu (some c) (Number.to_raw n) (some spec.audit_class)
                        (Status.err x) _)
                | inl (used, a) ↦
                    let done = run-Kept k cpu c n spec.audit_class used ctx in
                    rw (u, mediate, e, a)
                      (record {
                        caps = done.caps;
                        processes = λ j. elim (done.processes j) [
                          | inl same ↦ inl same
                          | inr (inl own) ↦ inr (c, refl, inl own)
                          | inr (inr (is_kill, target)) ↦ inr (
                            c,
                            refl,
                            inr (
                              sym ((from_raw_iff ctx.number n).0 raw) ∙ ap Number.to_raw is_kill,
                              target,
                              (
                                used,
                                subst (λ rule. Right k.caps k.processes c ctx rule used)
                                    (kill_spec spec (ap syscall_spec (sym is_kill) ∙ row))
                                    ((authorize_decides k.caps k.processes c ctx spec.authorization
                                        valid).0
                                      used a),
                              ),
                            ),
                          )
                        ];
                      })
              ]
        ]
      ]

  enter-Kept :
      (k : Kernel S) (cpu : ℕ) (caller : Option CallerContext) (ctx : SyscallContext)
      → IsValid k.caps
      → Kept k (enter scheduler k cpu caller ctx).1 (MayChange k caller ctx)
  unfolding enter
  enter-Kept k cpu caller ctx valid = elim (Option-cases (from_raw ctx.number)) [
    | inl e ↦
        rw (e, enter)
          (refuse-Kept k cpu caller ctx.number none (Status.err Status.invalid_syscall) _)
    | inr (n, e) ↦ elim (Option-cases (syscall_spec n)) [
      | inl f ↦
          rw (e, enter, f)
            (refuse-Kept k cpu caller (Number.to_raw n) none (Status.err Status.invalid_syscall) _)
      | inr (spec, f) ↦ rw (e, enter, f) (mediate-Kept k cpu caller n spec ctx valid e f)
    ]
  ]

  account-Kept :
      (k : Kernel S) (caller : Option CallerContext) (ctx : SyscallContext)
      → Kept k
          (account scheduler k caller)
          (λ j. (c : CallerContext) × (caller ≡ some c) × (c.pid ≡ j))
  unfolding account counted
  account-Kept k none ctx = record { caps = refl; processes = λ j. inl refl }
  account-Kept k (some c) ctx = record {
    caps = refl;
    processes = λ j. elim (update-other k.processes c.pid j counted (λ _. refl)) [
      | inl same ↦ inl same
      | inr own ↦ inr (c, refl, own)
    ];
  }

  -- Whatever the call, its number and its arguments: no system call changes the capability table, where
  -- that table is valid; and a process that a call changes is the process of the captured caller, or the
  -- call is number 70, `kill`, the process is the one that its first argument names, and the caller has
  -- the right to signal it (it is the caller's child, or the caller's task holds a token for it), in the
  -- state in which the call was counted.
  pub dispatch_isolates :
      (k : Kernel S) (cpu : ℕ) (ctx : SyscallContext)
      → IsValid k.caps
      → let caller = capture_caller_context scheduler k cpu in
        Kept k (dispatch scheduler k cpu ctx).1 (MayChange (account scheduler k caller) caller ctx)
  unfolding dispatch
  dispatch_isolates k cpu ctx valid =
      let caller = capture_caller_context scheduler k cpu in
      let first = account-Kept k caller ctx in
      let rest =
        enter-Kept (account scheduler k caller) cpu caller ctx
          (subst IsValid (sym first.caps) valid) in
      record {
        caps = rest.caps ∙ first.caps;
        processes = λ j. elim (rest.processes j) [
          | inr may ↦ inr may
          | inl same ↦ elim (first.processes j) [
            | inl before ↦ inl (same ∙ before)
            | inr (c, e, own) ↦ inr (c, e, inl own)
          ]
        ];
      }
