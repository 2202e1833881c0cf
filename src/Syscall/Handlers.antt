-- ===== src/Syscall/Handlers.antt =====
-- The handlers of kernel/src/syscall.rs. Log lines are left out.
pub mod Frames
pub mod Mask
use brane_os.Prelude.{
  ℕ, ◌%◌, ◌^◌, Bool, Option, none, some, Result, ok, err, not, ◌==◌, if◌then◌else◌, bit_and, bit_or,
}
use brane_os.Prelude.Bits.{complement}
use brane_os.Process.Table.{Process, ProcessTable, UserContext, get, update}
use brane_os.Signal.{
  Signal, SignalAction, SignalError, SignalManager, default, ignore, handler, try_from, send,
  set_action, sig_bit,
}
use brane_os.Syscall.Status
use brane_os.Syscall.Status.{
  SyscallResult, invalid_syscall, invalid_argument, not_found, no_message,
}
use brane_os.Syscall.Abi.{SyscallContext, CallerContext}
use brane_os.Syscall.Number
use brane_os.Syscall.Number.{SyscallNumber}
use brane_os.Syscall.Kernel.{Scheduler, Kernel}

-- The blocked mask that `sigprocmask` gives, before the two signals are taken out of it.
unfoldable pub new_mask : ℕ → ℕ → ℕ → Option ℕ
new_mask how set old =
    if how == 1
    then some (bit_or old set)
    else if how == 2
    then some (bit_and old (complement 64 set))
    else if how == 3
    then some set
    else none

-- `cannot_block`.
abbrev pub cannot_block : ℕ
cannot_block = bit_or (2 ^ 9) (2 ^ 19)

unfoldable pub action_of : ℕ → SignalAction
action_of handler_addr =
    if handler_addr == 0
    then default
    else if handler_addr == 1
    then ignore
    else handler handler_addr

unfoldable pub handle_write : SyscallContext → SyscallResult
handle_write ctx = if not (ctx.arg1 == 1) then Status.err invalid_argument else Status.ok ctx.arg3

abbrev pub or_error : {A : Type 0} → Status.SyscallError → Result A SignalError → SyscallResult
or_error e (ok _) = Status.ok 0
or_error e (err _) = Status.err e

module _ {S : Type 0} (scheduler : Scheduler S) where
  unfoldable pub handle_yield : Kernel S → SyscallResult × Kernel S
  handle_yield k = (Status.ok 0, record k { sched = scheduler.tick k.sched })

  unfoldable pub handle_kill : Kernel S → SyscallContext → SyscallResult × Kernel S
  handle_kill k ctx = elim (try_from (ctx.arg2 % 2 ^ 8)) [
    | ok sig ↦
        let (r, t) = send k.processes ctx.arg1 sig in
        (or_error not_found r, record k { processes = t })
    | err _ ↦ (Status.err invalid_argument, k)
  ]

  unfoldable pub handle_sigaction :
      Kernel S → SyscallContext → CallerContext → SyscallResult × Kernel S
  unfolding action_of
  handle_sigaction k ctx caller = elim (try_from (ctx.arg1 % 2 ^ 8)) [
    | ok sig ↦
        let (r, m) = set_action k.signals k.processes caller.pid sig (action_of ctx.arg2) in
        (or_error invalid_argument r, record k { signals = m })
    | err _ ↦ (Status.err invalid_argument, k)
  ]

  unfoldable pub handle_sigreturn : Kernel S → CallerContext → SyscallResult × Kernel S
  handle_sigreturn k caller = elim (get k.processes caller.pid) [
    | none ↦ (Status.err not_found, k)
    | some p ↦ elim p.saved_context [
      | none ↦ (Status.err invalid_argument, k)
      | some saved ↦ (
        Status.ok saved.rax,
        record k {
          frame = saved;
          processes = update k.processes caller.pid (λ q. record q { saved_context = none });
        },
      )
    ]
  ]

  unfoldable pub handle_sigprocmask :
      Kernel S → SyscallContext → CallerContext → SyscallResult × Kernel S
  unfolding new_mask
  handle_sigprocmask k ctx caller = elim (get k.processes caller.pid) [
    | none ↦ (Status.err not_found, k)
    | some p ↦ elim (new_mask ctx.arg1 ctx.arg2 p.signal_blocked) [
      | none ↦ (Status.err invalid_argument, k)
      | some m ↦ (
        Status.ok p.signal_blocked,
        record k {
          processes =
              update k.processes caller.pid
                (λ q. record q { signal_blocked = bit_and m (complement 64 cannot_block) });
        },
      )
    ]
  ]

  -- The `match` of `dispatch` on the number.
  unfoldable pub handle :
      Kernel S → SyscallNumber → SyscallContext → CallerContext → SyscallResult × Kernel S
  unfolding handle_yield handle_kill handle_sigaction handle_sigreturn handle_sigprocmask
      handle_write
  handle k Number.exit ctx caller = (Status.ok 0, k)
  handle k Number.yield ctx caller = handle_yield k
  handle k Number.get_pid ctx caller = (Status.ok caller.pid, k)
  handle k Number.write ctx caller = (handle_write ctx, k)
  handle k Number.send ctx caller = (Status.ok 0, k)
  handle k Number.recv ctx caller = (Status.err no_message, k)
  handle k Number.get_time ctx caller = (Status.ok (scheduler.total_ticks k.sched), k)
  handle k Number.get_system_info ctx caller = (Status.ok (scheduler.active_count k.sched), k)
  handle k Number.kill ctx caller = handle_kill k ctx
  handle k Number.sig_action ctx caller = handle_sigaction k ctx caller
  handle k Number.sig_return ctx caller = handle_sigreturn k caller
  handle k Number.sig_proc_mask ctx caller = handle_sigprocmask k ctx caller
  handle k _ ctx caller = (Status.err invalid_syscall, k)
