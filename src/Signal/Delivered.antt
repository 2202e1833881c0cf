-- ===== src/Signal/Delivered.antt =====
-- The rule of a signal delivery in kernel/src/signal.rs: which signals are passed over, which end the
-- process and which are handled.
use brane_os.Prelude.{
  ℕ, ◌+◌, ◌^◌, ◌≤◌, ◌<◌, ◌≡◌, ◌≢◌, refl, inl, inr, Option, none, some, pos, ◌==◌, if◌then◌else◌,
  arith,
}
use brane_os.Prelude.Slots.Scans.{In}
use brane_os.Prelude.Bits.{bit_at, bit_at-le-one, bit_at-bit_and, bit_at-complement, complement}
use brane_os.Process.Table.{Process, ProcessTable, terminated, get}
use brane_os.Signal.{
  Signal, kill, term, int, quit, hup, usr1, usr2, chld, cont, stop, to_raw, SignalAction, default,
  ignore, handler, SignalManager, get_action, deliverable, pass, fatal, respond, signals_to_check,
  deliver_pending,
}
use brane_os.Signal.Delivery.{Outcome, deliver_pending-Outcome}
use brane_os.Signal.Changes.{Replaced, Quieter, to_raw_lt}
use brane_os.Signal.Delivery

-- The signal is pending and the process does not block it.
pub record Waiting (p : Process) (s : Signal) : Type 0 where
  pub pending : bit_at (to_raw s) p.signal_pending ≡ 1
  pub open_to : bit_at (to_raw s) p.signal_blocked ≡ 0

-- An action that lets the process run on: it ignores the signal, or it is the default action of one of
-- the three signals whose default does nothing.
pub data Harmless : SignalAction → Signal → Type 0 where
  ignored : (s : Signal) → Harmless ignore s
  default_chld : Harmless default chld
  default_cont : Harmless default cont
  default_stop : Harmless default stop

-- The default action of every other signal ends the process.
pub record Deadly (action : SignalAction) (s : Signal) : Type 0 where
  pub by_default : action ≡ default
  pub no_chld : s ≢ chld
  pub no_cont : s ≢ cont
  pub no_stop : s ≢ stop

-- `q` is `p` with no other change than that pending bits of signals it does not block are cleared.
pub record Drained (p q : Process) : Type 0 where
  pub fewer : (i : ℕ) → bit_at i q.signal_pending ≤ bit_at i p.signal_pending
  pub blocked_stay :
      (s : Signal)
      → bit_at (to_raw s) q.signal_pending ≡ (
          if bit_at (to_raw s) p.signal_blocked == 0
          then bit_at (to_raw s) q.signal_pending
          else bit_at (to_raw s) p.signal_pending)
  pub rest : q ≡ record p { signal_pending = q.signal_pending }

-- The three ways in which a delivery ends.
pub data Delivered (m : SignalManager) (t : ProcessTable) (pid : ℕ) (p : Process)
    : Option (Signal × ℕ) → ProcessTable → Type 0 where
  ran_on :
      (q : Process) (u : ProcessTable)
      → ((s : Signal) → Waiting p s → Harmless (get_action m t pid s) s)
      → ((s : Signal) → Waiting p s → bit_at (to_raw s) q.signal_pending ≡ 0)
      → Drained p q
      → Replaced t pid q u
      → Delivered m t pid p none u
  ended :
      (s : Signal) (q : Process) (u : ProcessTable)
      → Waiting p s
      → Deadly (get_action m t pid s) s
      → bit_at (to_raw s) q.signal_pending ≡ 0
      → Drained p q
      → Replaced t pid (record q { state = terminated; exit_code = pos (128 + to_raw s) }) u
      → Delivered m t pid p none u
  called :
      (s : Signal) (addr : ℕ) (q : Process) (u : ProcessTable)
      → Waiting p s
      → get_action m t pid s ≡ handler addr
      → bit_at (to_raw s) q.signal_pending ≡ 0
      → Drained p q
      → Replaced t pid q u
      → Delivered m t pid p (some (s, addr)) u

respond-Harmless : (a : SignalAction) (s : Signal) → respond a s ≡ pass → Harmless a s
unfolding respond
respond-Harmless ignore s e = ignored s
respond-Harmless (handler addr) s e = absurd (cc)
respond-Harmless default chld e = default_chld
respond-Harmless default cont e = default_cont
respond-Harmless default stop e = default_stop
respond-Harmless default s e = absurd (cc)

respond-Deadly : (a : SignalAction) (s : Signal) → respond a s ≡ fatal → Deadly a s
unfolding respond
respond-Deadly ignore s e = absurd (cc)
respond-Deadly (handler addr) s e = absurd (cc)
respond-Deadly default chld e = absurd (cc)
respond-Deadly default cont e = absurd (cc)
respond-Deadly default stop e = absurd (cc)
respond-Deadly default s e = record {
  by_default = refl;
  no_chld = λ x. cc;
  no_cont = λ x. cc;
  no_stop = λ x. cc;
}

-- The loop looks at every signal.
signals_to_check-In : (s : Signal) → In s signals_to_check
signals_to_check-In kill = inl refl
signals_to_check-In term = inr (inl refl)
signals_to_check-In int = inr (inr (inl refl))
signals_to_check-In quit = inr (inr (inr (inl refl)))
signals_to_check-In hup = inr (inr (inr (inr (inl refl))))
signals_to_check-In usr1 = inr (inr (inr (inr (inr (inl refl)))))
signals_to_check-In usr2 = inr (inr (inr (inr (inr (inr (inl refl))))))
signals_to_check-In chld = inr (inr (inr (inr (inr (inr (inr (inl refl)))))))
signals_to_check-In cont = inr (inr (inr (inr (inr (inr (inr (inr (inl refl))))))))
signals_to_check-In stop = inr (inr (inr (inr (inr (inr (inr (inr (inr (inl refl)))))))))

bit-deliverable :
    (p : Process) (s : Signal)
    → p.signal_blocked < 2 ^ 64
    → bit_at (to_raw s) (deliverable p)
      ≡ (if bit_at (to_raw s) p.signal_blocked == 0 then bit_at (to_raw s) p.signal_pending else 0)
unfolding deliverable
bit-deliverable p s small = ground (
  arith,
  bit_at-bit_and (to_raw s) p.signal_pending (complement 64 p.signal_blocked),
  bit_at-complement 64 (to_raw s) p.signal_blocked (to_raw_lt s) small,
  bit_at-le-one (to_raw s) p.signal_pending,
  bit_at-le-one (to_raw s) p.signal_blocked,
)

deliverable-Waiting :
    (p : Process) (s : Signal)
    → p.signal_blocked < 2 ^ 64
    → bit_at (to_raw s) (deliverable p) ≡ 1
    → Waiting p s
deliverable-Waiting p s small on = record {
  pending = ground (arith, on, bit-deliverable p s small);
  open_to = ground (arith, on, bit-deliverable p s small);
}

Waiting-deliverable :
    (p : Process) (s : Signal)
    → p.signal_blocked < 2 ^ 64
    → Waiting p s
    → bit_at (to_raw s) (deliverable p) ≡ 1
Waiting-deliverable p s small w = ground (arith, w.pending, w.open_to, bit-deliverable p s small)

Quieter-Drained :
    (p q : Process) → p.signal_blocked < 2 ^ 64 → Quieter (deliverable p) p q → Drained p q
Quieter-Drained p q small h = record {
  fewer = h.fewer;
  blocked_stay = λ s. ground (arith, h.kept s, bit-deliverable p s small);
  rest = h.rest;
}

Outcome-Delivered :
    (m : SignalManager) (t u : ProcessTable) (pid : ℕ) (p : Process) {r : Option (Signal × ℕ)}
    → p.signal_blocked < 2 ^ 64
    → Outcome m t pid (deliverable p) p signals_to_check r u
    → Delivered m t pid p r u
Outcome-Delivered m t u pid p small (Delivery.quiet q w all off b z) =
    ran_on q w
      (λ s wait.
        respond-Harmless _ s (all s (signals_to_check-In s) (Waiting-deliverable p s small wait)))
      (λ s wait. off s (signals_to_check-In s) (Waiting-deliverable p s small wait))
      (Quieter-Drained p q small b) z
Outcome-Delivered m t u pid p small (Delivery.killed s q w i bit f c b z) =
    ended s q w (deliverable-Waiting p s small bit) (respond-Deadly _ s f) c
      (Quieter-Drained p q small b) z
Outcome-Delivered m t u pid p small (Delivery.handled s addr q w i bit h c b z) =
    called s addr q w (deliverable-Waiting p s small bit) h c (Quieter-Drained p q small b) z

-- A delivery to a process that the table has, with a mask of 64 bits, ends in one of three ways, for
-- the pending signals that the process does not block. Each of them is ignored or is one of CHLD,
-- CONT and STOP under the default action: then all their bits are cleared, and nothing is answered.
-- Or one of them is another signal under the default action: then its bit is cleared and the process
-- is terminated with code 128 + its number. Or one of them has a handler, which is answered with the
-- signal, and its bit is cleared. No bit is set, the bits of blocked signals stay, nothing else of
-- the process changes, and no other process does.
pub deliver_pending-Delivered :
    (m : SignalManager) (t : ProcessTable) (pid : ℕ) (p : Process)
    → get t pid ≡ some p
    → p.signal_blocked < 2 ^ 64
    → let (r, u) = deliver_pending m t pid in Delivered m t pid p r u
deliver_pending-Delivered m t pid p e small =
    Outcome-Delivered m t (deliver_pending m t pid).1 pid p small
      (deliver_pending-Outcome m t pid p e)
