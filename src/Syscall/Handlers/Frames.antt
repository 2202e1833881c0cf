-- ===== src/Syscall/Handlers/Frames.antt =====
-- What a handler leaves alone.
use brane_os.Prelude.{
  ℕ, ◌≡◌, refl, ◌⊎◌, inl, inr, Result-cases, Option-cases, Bool-cases, ◌%◌, ◌^◌, ℕ_discrete, arith,
}
use brane_os.Process.Table.{Process, ProcessTable, get, update}
use brane_os.Process.Table.Lookup.{get-update}
use brane_os.Signal.{Signal, send, try_from, is_terminated}
use brane_os.Syscall.Abi.{SyscallContext, CallerContext}
use brane_os.Syscall.Number
use brane_os.Syscall.Number.{SyscallNumber}
use brane_os.Syscall.Kernel.{Scheduler, Kernel}
use brane_os.Syscall.Handlers.{
  new_mask, handle_yield, handle_kill, handle_sigaction, handle_sigreturn, handle_sigprocmask,
  handle,
}

pub update-other :
    (t : ProcessTable) (pid j : ℕ) (f : Process → Process)
    → ((p : Process) → (f p).pid ≡ p.pid)
    → (get (update t pid f) j ≡ get t j) ⊎ (pid ≡ j)
update-other t pid j f keeps = elim (ℕ_discrete pid j) [
  | yes same ↦ inr same
  | no other ↦ inl (ground (arith, get-update t j pid f keeps))
]

send-other :
    (t : ProcessTable) (pid j : ℕ) (sig : Signal) → (get (send t pid sig).1 j ≡ get t j) ⊎ (pid ≡ j)
unfolding send
send-other t pid j sig = elim (Option-cases (get t pid)) [
  | inl e ↦ rw (e, send) (inl refl)
  | inr (p, e) ↦ elim (Bool-cases (is_terminated p.state)) [
    | inl dead ↦ rw (e, send, dead) (inl refl)
    | inr live ↦ rw (e, send, live) (update-other t pid j _ (λ _. refl))
  ]
]

module _ {S : Type 0} (scheduler : Scheduler S) where
  -- The capability table and the log are kept, and so is each process but the touched ones.
  pub record Frame (k k2 : Kernel S) (touched : ℕ → Type 0) : Type 0 where
    pub caps : k2.caps ≡ k.caps
    pub audit : k2.audit ≡ k.audit
    pub processes : (j : ℕ) → (get k2.processes j ≡ get k.processes j) ⊎ touched j

  abbrev pub Touched : SyscallNumber → SyscallContext → CallerContext → ℕ → Type 0
  Touched n ctx caller j = (caller.pid ≡ j) ⊎ ((n ≡ Number.kill) × (ctx.arg1 ≡ j))

  same-Frame : (k : Kernel S) (touched : ℕ → Type 0) → Frame k k touched
  same-Frame k touched = record { caps = refl; audit = refl; processes = λ j. inl refl }

  kill-Frame :
      (k : Kernel S) (ctx : SyscallContext) (caller : CallerContext)
      → Frame k (handle_kill scheduler k ctx).1 (Touched Number.kill ctx caller)
  unfolding handle_kill
  kill-Frame k ctx caller = elim (Result-cases (try_from (ctx.arg2 % 2 ^ 8))) [
    | inl (sig, e) ↦
        rw (e, handle_kill)
          (record {
            caps = refl;
            audit = refl;
            processes = λ j. elim (send-other k.processes ctx.arg1 j sig) [
              | inl same ↦ inl same
              | inr here ↦ inr (inr (refl, here))
            ];
          })
    | inr (x, e) ↦ rw (e, handle_kill) (same-Frame k _)
  ]

  sigaction-Frame :
      (k : Kernel S) (ctx : SyscallContext) (caller : CallerContext) (touched : ℕ → Type 0)
      → Frame k (handle_sigaction scheduler k ctx caller).1 touched
  unfolding handle_sigaction
  sigaction-Frame k ctx caller touched = elim (Result-cases (try_from (ctx.arg1 % 2 ^ 8))) [
    | inl (sig, e) ↦
        rw (e, handle_sigaction) (record { caps = refl; audit = refl; processes = λ j. inl refl })
    | inr (x, e) ↦ rw (e, handle_sigaction) (same-Frame k _)
  ]

  own-Frame :
      (n : SyscallNumber) (ctx : SyscallContext) (caller : CallerContext) (k k2 : Kernel S)
      (f : Process → Process)
      → ((p : Process) → (f p).pid ≡ p.pid)
      → k2.caps ≡ k.caps
      → k2.audit ≡ k.audit
      → k2.processes ≡ update k.processes caller.pid f
      → Frame k k2 (Touched n ctx caller)
  own-Frame n ctx caller k k2 f keeps a b c = record {
    caps = a;
    audit = b;
    processes = λ j. rw c (elim (update-other k.processes caller.pid j f keeps) [
      | inl same ↦ inl same
      | inr here ↦ inr (inl here)
    ]);
  }

  sigreturn-Frame :
      (k : Kernel S) (n : SyscallNumber) (ctx : SyscallContext) (caller : CallerContext)
      → Frame k (handle_sigreturn scheduler k caller).1 (Touched n ctx caller)
  unfolding handle_sigreturn
  sigreturn-Frame k n ctx caller = elim (Option-cases (get k.processes caller.pid)) [
    | inl e ↦ rw (e, handle_sigreturn) (same-Frame k _)
    | inr (p, e) ↦ elim (Option-cases p.saved_context) [
      | inl f ↦ rw (e, handle_sigreturn, f) (same-Frame k _)
      | inr (saved, f) ↦
          rw (e, handle_sigreturn, f) (own-Frame n ctx caller k _ _ (λ _. refl) refl refl refl)
    ]
  ]

  sigprocmask-Frame :
      (k : Kernel S) (n : SyscallNumber) (ctx : SyscallContext) (caller : CallerContext)
      → Frame k (handle_sigprocmask scheduler k ctx caller).1 (Touched n ctx caller)
  unfolding handle_sigprocmask
  sigprocmask-Frame k n ctx caller = elim (Option-cases (get k.processes caller.pid)) [
    | inl e ↦ rw (e, handle_sigprocmask) (same-Frame k _)
    | inr (p, e) ↦ elim (Option-cases (new_mask ctx.arg1 ctx.arg2 p.signal_blocked)) [
      | inl f ↦ rw (e, handle_sigprocmask, f) (same-Frame k _)
      | inr (m, f) ↦
          rw (e, handle_sigprocmask, f) (own-Frame n ctx caller k _ _ (λ _. refl) refl refl refl)
    ]
  ]

  pub handle-Frame :
      (k : Kernel S) (n : SyscallNumber) (ctx : SyscallContext) (caller : CallerContext)
      → Frame k (handle scheduler k n ctx caller).1 (Touched n ctx caller)
  unfolding handle handle_yield
  handle-Frame k Number.kill ctx caller = kill-Frame k ctx caller
  handle-Frame k Number.sig_action ctx caller = sigaction-Frame k ctx caller _
  handle-Frame k Number.sig_return ctx caller = sigreturn-Frame k Number.sig_return ctx caller
  handle-Frame k Number.sig_proc_mask ctx caller =
      sigprocmask-Frame k Number.sig_proc_mask ctx caller
  handle-Frame k Number.yield ctx caller = record {
    caps = refl;
    audit = refl;
    processes = λ j. inl refl;
  }
  handle-Frame k n ctx caller = same-Frame k _
