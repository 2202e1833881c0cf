-- ===== src/Signal/Kill.antt =====
-- `SIGKILL` ends a process whatever actions were set before.
use brane_os.Prelude.{
  ℕ, ◌≡◌, refl, ◌∙◌, sym, ap, inl, inr, false, none, some, List, [], ◌∷◌, pos, ◌==◌, ◌^◌, ◌<◌,
  bit_and, arith, Bool-cases, ==→eq,
}
use brane_os.Prelude.Bits.{
  bit_at, bit_at-zero, bit_at-bit_and, bit_at-complement, complement, mask_test_iff,
}
use brane_os.Process.Table.{Process, ProcessTable, terminated, get, terminate}
use brane_os.Signal.{
  Signal, kill, to_raw, SignalAction, SignalManager, new, sig_bit, set_action, get_action,
  deliverable, pending_for, cleared, clear_pending, respond, fatal, deliver_from, deliver_pending,
}
use brane_os.Signal.Uncatchable.{Uncaught, new-Uncaught, set_action-Uncaught, get_action-Uncaught}
use brane_os.Signal.Changes.{Replaced-self, terminate-Replaced, clear_pending-Replaced}

-- One call of `sigaction`, on the process table of that time.
pub record Change : Type 0 where
  pub table : ProcessTable
  pub pid : ℕ
  pub sig : Signal
  pub action : SignalAction

unfoldable pub change_all : SignalManager → List Change → SignalManager
change_all m [] = m
change_all m (c ∷ cs) = change_all (set_action m c.table c.pid c.sig c.action).1 cs

change_all-Uncaught :
    (m : SignalManager) (cs : List Change) → Uncaught m → Uncaught (change_all m cs)
unfolding change_all
change_all-Uncaught m [] v = v
change_all-Uncaught m (c ∷ cs) v =
    change_all-Uncaught (set_action m c.table c.pid c.sig c.action).1 cs
      (set_action-Uncaught m c.table c.pid c.sig c.action v)

kill_deliverable :
    (p : Process)
    → bit_at 9 p.signal_pending ≡ 1
    → bit_at 9 p.signal_blocked ≡ 0
    → p.signal_blocked < 2 ^ 64
    → bit_at 9 (deliverable p) ≡ 1
unfolding deliverable
kill_deliverable p sent free small = ground (
  arith,
  bit_at-bit_and 9 p.signal_pending (complement 64 p.signal_blocked),
  bit_at-complement 64 9 p.signal_blocked (omega arith) small,
)

kill_test-on : (mask : ℕ) → bit_at 9 mask ≡ 1 → bit_and mask (sig_bit kill) == 0 ≡ false
unfolding sig_bit to_raw
kill_test-on mask on = elim (Bool-cases (bit_and mask (2 ^ 9) == 0)) [
  | inl off ↦ absurd (ground (arith, (mask_test_iff 9 mask).0 off, on))
  | inr h ↦ h
]

kill_nonzero : (mask : ℕ) → bit_at 9 mask ≡ 1 → mask == 0 ≡ false
kill_nonzero mask on = elim (Bool-cases (mask == 0)) [
  | inl z ↦ absurd (ground (arith, sym on ∙ ap (bit_at 9) (==→eq mask 0 z) ∙ bit_at-zero 9))
  | inr h ↦ h
]

kill_fatal :
    (m : SignalManager) (t : ProcessTable) (pid : ℕ)
    → Uncaught m
    → respond (get_action m t pid kill) kill ≡ fatal
unfolding respond
kill_fatal m t pid v = rw ((get_action-Uncaught m t pid v).0) refl

kill_first :
    (m : SignalManager) (t : ProcessTable) (pid mask : ℕ) (rest : List Signal)
    → bit_at 9 mask ≡ 1
    → Uncaught m
    → deliver_from m pid mask (kill ∷ rest) t
      ≡ (none, (terminate (clear_pending t pid kill) pid (pos 137)).1)
unfolding deliver_from to_raw
kill_first m t pid mask rest on v =
    rw (kill_test-on mask on, kill_fatal m (clear_pending t pid kill) pid v, deliver_from) refl

kill_delivered :
    (m : SignalManager) (t : ProcessTable) (pid : ℕ) (p : Process)
    → get t pid ≡ some p
    → bit_at 9 (deliverable p) ≡ 1
    → Uncaught m
    → deliver_pending m t pid ≡ (none, (terminate (clear_pending t pid kill) pid (pos 137)).1)
unfolding deliver_pending pending_for
kill_delivered m t pid p e on v =
    rw (e, deliver_pending, pending_for, kill_nonzero (deliverable p) on)
      (kill_first m t pid (deliverable p) _ on v)

-- Whatever actions were set since boot, for whatever process and signal: a process with `SIGKILL`
-- pending and not blocked is terminated with code 137 by a delivery, and no handler is answered.
pub sigkill_terminates :
    (changes : List Change) (t : ProcessTable) (pid : ℕ) (p : Process)
    → get t pid ≡ some p
    → bit_at 9 p.signal_pending ≡ 1
    → bit_at 9 p.signal_blocked ≡ 0
    → p.signal_blocked < 2 ^ 64
    → let (answer, u) = deliver_pending (change_all new changes) t pid in
      (answer ≡ none)
      × (get u pid ≡ some (record (cleared kill p) { state = terminated; exit_code = pos 137 }))
sigkill_terminates changes t pid p e sent free small =
    let v = clear_pending-Replaced t pid kill p e in
    let own = Replaced-self t (clear_pending t pid kill) pid (cleared kill p) v in
    let on = kill_deliverable p sent free small in
    let run =
      kill_delivered (change_all new changes) t pid p e on
        (change_all-Uncaught new changes new-Uncaught) in
    (
      ap (λ d. d.0) run,
      ap (λ d. get d.1 pid) run
          ∙ Replaced-self _ _ pid _ (terminate-Replaced _ pid (pos 137) (cleared kill p) own),
    )
