-- ===== src/Signal/Delivery.antt =====
-- What a delivery does to the process table, and what it answers.
use brane_os.Prelude.{
  ℕ, ◌+◌, ◌≡◌, ◌≢◌, refl, ◌∙◌, sym, ap, inl, inr, ◌⊎◌, true, false, Option, none, some, List, [],
  ◌∷◌, pos, ◌==◌, bit_and, arith, Bool-cases, Option-cases, ==→eq, ℕ_discrete,
}
use brane_os.Prelude.Slots.Scans.{In}
use brane_os.Prelude.Bits.{bit_at, bit_at-zero, bit_at-le-one, mask_test_iff}
use brane_os.Process.Table.{Process, ProcessTable, terminated, get}
use brane_os.Signal.{
  Signal, chld, cont, stop, to_raw, SignalAction, default, ignore, handler, SignalManager, sig_bit,
  get_action, deliverable, pending_for, cleared, clear_pending, Response, pass, fatal, run_handler,
  respond, signals_to_check, deliver_from, deliver_pending,
}
use brane_os.Signal.Changes.{
  Quieter-trans, Quieter, terminate-Replaced, Replaced, clear_pending-Replaced, Replaced-trans,
  unchanged-Replaced, get_action_stable, Replaced-self, cleared-Quieter, Quieter-refl, cleared-bit,
}

-- The three ways in which a delivery over these signals ends.
pub data Outcome (m : SignalManager) (t : ProcessTable) (pid mask : ℕ) (p : Process)
    (sigs : List Signal) : Option (Signal × ℕ) → ProcessTable → Type 0 where
  quiet :
      (q : Process) (u : ProcessTable)
      → ((s : Signal)
          → In s sigs
          → bit_at (to_raw s) mask ≡ 1
          → respond (get_action m t pid s) s ≡ pass)
      → ((s : Signal)
          → In s sigs
          → bit_at (to_raw s) mask ≡ 1
          → bit_at (to_raw s) q.signal_pending ≡ 0)
      → Quieter mask p q
      → Replaced t pid q u
      → Outcome m t pid mask p sigs none u
  killed :
      (sig : Signal) (q : Process) (u : ProcessTable)
      → In sig sigs
      → bit_at (to_raw sig) mask ≡ 1
      → respond (get_action m t pid sig) sig ≡ fatal
      → bit_at (to_raw sig) q.signal_pending ≡ 0
      → Quieter mask p q
      → Replaced t pid (record q { state = terminated; exit_code = pos (128 + to_raw sig) }) u
      → Outcome m t pid mask p sigs none u
  handled :
      (sig : Signal) (addr : ℕ) (q : Process) (u : ProcessTable)
      → In sig sigs
      → bit_at (to_raw sig) mask ≡ 1
      → get_action m t pid sig ≡ handler addr
      → bit_at (to_raw sig) q.signal_pending ≡ 0
      → Quieter mask p q
      → Replaced t pid q u
      → Outcome m t pid mask p sigs (some (sig, addr)) u

later_pass :
    (m : SignalManager) (t u : ProcessTable) (pid mask : ℕ) (q : Process) (sig : Signal)
    (rest : List Signal)
    → (bit_at (to_raw sig) mask ≡ 1 → respond (get_action m t pid sig) sig ≡ pass)
    → Replaced t pid q u
    → ((s : Signal)
        → In s rest
        → bit_at (to_raw s) mask ≡ 1
        → respond (get_action m u pid s) s ≡ pass)
    → (s : Signal) → In s (sig ∷ rest)
    → bit_at (to_raw s) mask ≡ 1
    → respond (get_action m t pid s) s ≡ pass
later_pass m t u pid mask q sig rest here v all s (inl same) bit =
    ap (λ x. respond (get_action m t pid x) x) same
    ∙ here (ap (λ x. bit_at (to_raw x) mask) (sym same) ∙ bit)
later_pass m t u pid mask q sig rest here v all s (inr i) bit =
    rw (← get_action_stable m t u pid q s v) (all s i bit)

later_off :
    (mask : ℕ) (q x : Process) (sig : Signal) (rest : List Signal)
    → (bit_at (to_raw sig) mask ≡ 1 → bit_at (to_raw sig) q.signal_pending ≡ 0)
    → ((s : Signal)
        → In s rest
        → bit_at (to_raw s) mask ≡ 1
        → bit_at (to_raw s) x.signal_pending ≡ 0)
    → Quieter mask q x
    → (s : Signal) → In s (sig ∷ rest)
    → bit_at (to_raw s) mask ≡ 1
    → bit_at (to_raw s) x.signal_pending ≡ 0
later_off mask q x sig rest gone off b s (inl same) bit =
    let here = gone (ap (λ y. bit_at (to_raw y) mask) (sym same) ∙ bit) in
    ap (λ y. bit_at (to_raw y) x.signal_pending) same ∙ omega (arith, here, b.fewer (to_raw sig))
later_off mask q x sig rest gone off b s (inr i) bit = off s i bit

Outcome-later :
    (m : SignalManager) (t u : ProcessTable) (pid mask : ℕ) (p q : Process) (sig : Signal)
    (rest : List Signal) {r : Option (Signal × ℕ)} {w : ProcessTable}
    → (bit_at (to_raw sig) mask ≡ 1 → respond (get_action m t pid sig) sig ≡ pass)
    → (bit_at (to_raw sig) mask ≡ 1 → bit_at (to_raw sig) q.signal_pending ≡ 0)
    → Quieter mask p q
    → Replaced t pid q u
    → Outcome m u pid mask q rest r w
    → Outcome m t pid mask p (sig ∷ rest) r w
Outcome-later m t u pid mask p q sig rest here gone a v (quiet x w all off b z) =
    quiet x w (later_pass m t u pid mask q sig rest here v all)
      (later_off mask q x sig rest gone off b) (Quieter-trans mask p q x a b)
      (Replaced-trans t u w pid q x v z)
Outcome-later m t u pid mask p q sig rest here gone a v (killed s x w i bit f c b z) =
    killed s x w (inr i) bit (rw (← get_action_stable m t u pid q s v) f) c
      (Quieter-trans mask p q x a b) (Replaced-trans t u w pid q _ v z)
Outcome-later m t u pid mask p q sig rest here gone a v (handled s addr x w i bit h c b z) =
    handled s addr x w (inr i) bit (rw (← get_action_stable m t u pid q s v) h) c
      (Quieter-trans mask p q x a b) (Replaced-trans t u w pid q x v z)

pub Response-cases :
    (r : Response) → (r ≡ pass) ⊎ ((r ≡ fatal) ⊎ ((addr : ℕ) × (r ≡ run_handler addr)))
Response-cases pass = inl refl
Response-cases fatal = inr (inl refl)
Response-cases (run_handler addr) = inr (inr (addr, refl))

-- Only a handler is run.
respond-handler :
    (action : SignalAction) (sig : Signal) (addr : ℕ)
    → respond action sig ≡ run_handler addr
    → action ≡ handler addr
unfolding respond
respond-handler (handler a) sig addr e = cc
respond-handler ignore sig addr e = absurd (cc)
respond-handler default chld addr e = absurd (cc)
respond-handler default cont addr e = absurd (cc)
respond-handler default stop addr e = absurd (cc)
respond-handler default sig addr e = absurd (cc)

pub mask_test-bit :
    (mask : ℕ) (sig : Signal)
    → bit_and mask (sig_bit sig) == 0 ≡ false
    → bit_at (to_raw sig) mask ≡ 1
unfolding sig_bit
mask_test-bit mask sig on = elim (ℕ_discrete (bit_at (to_raw sig) mask) 0) [
  | yes z ↦ absurd (ground (arith, (mask_test_iff (to_raw sig) mask).1 z))
  | no n ↦ omega (arith, bit_at-le-one (to_raw sig) mask)
]

deliver_from-Outcome :
    (m : SignalManager) (pid mask : ℕ) (sigs : List Signal) (t : ProcessTable) (p : Process)
    → get t pid ≡ some p
    → let (r, u) = deliver_from m pid mask sigs t in Outcome m t pid mask p sigs r u
unfolding deliver_from sig_bit
deliver_from-Outcome m pid mask [] t p e =
    quiet p t (λ s i. absurd i) (λ s i. absurd i) (Quieter-refl mask p)
      (unchanged-Replaced t pid p e)
deliver_from-Outcome m pid mask (sig ∷ rest) t p e =
    let t2 = clear_pending t pid sig in
    let p2 = cleared sig p in
    let v = clear_pending-Replaced t pid sig p e in
    let own = Replaced-self t t2 pid p2 v in
    elim (Bool-cases (bit_and mask (sig_bit sig) == 0)) [
      | inl off ↦
          rw (off, deliver_from)
            (Outcome-later m t t pid mask p p sig rest
              (λ bit. absurd (ground (arith, (mask_test_iff (to_raw sig) mask).0 off)))
              (λ bit. absurd (ground (arith, (mask_test_iff (to_raw sig) mask).0 off)))
              (Quieter-refl mask p) (unchanged-Replaced t pid p e)
              (deliver_from-Outcome m pid mask rest t p e))
      | inr on ↦ elim (Response-cases (respond (get_action m t2 pid sig) sig)) [
        | inl r ↦
            rw (on, r, deliver_from)
              (Outcome-later m t t2 pid mask p p2 sig rest
                (λ _. ap (λ a. respond a sig) (sym (get_action_stable m t t2 pid p2 sig v)) ∙ r)
                (λ _. cleared-bit sig p) (less on) v
                (deliver_from-Outcome m pid mask rest t2 p2 own))
        | inr (inl r) ↦
            rw (on, r, deliver_from)
              (killed sig p2 _ (inl refl) (mask_test-bit mask sig on)
                (ap (λ a. respond a sig) (sym (get_action_stable m t t2 pid p2 sig v)) ∙ r)
                (cleared-bit sig p) (less on)
                (Replaced-trans t t2 _ pid p2 _ v (terminate-Replaced t2 pid _ p2 own)))
        | inr (inr (addr, r)) ↦
            rw (on, r, deliver_from)
              (handled sig addr p2 t2 (inl refl) (mask_test-bit mask sig on)
                (sym (get_action_stable m t t2 pid p2 sig v) ∙ respond-handler _ sig addr r)
                (cleared-bit sig p) (less on) v)
      ]
    ]
  where
    less : bit_and mask (sig_bit sig) == 0 ≡ false → Quieter mask p (cleared sig p)
    less on = cleared-Quieter mask sig p (mask_test-bit mask sig on)

pub deliver_pending-Outcome :
    (m : SignalManager) (t : ProcessTable) (pid : ℕ) (p : Process)
    → get t pid ≡ some p
    → let (r, u) = deliver_pending m t pid in Outcome m t pid (deliverable p) p signals_to_check r u
unfolding deliver_pending pending_for
deliver_pending-Outcome m t pid p e =
    rw (e, deliver_pending, pending_for)
      (elim (Bool-cases (deliverable p == 0)) [
        | inl nothing ↦ rw nothing (
            quiet p t (λ s i bit. absurd (no_bit s bit nothing))
              (λ s i bit. absurd (no_bit s bit nothing)) (Quieter-refl (deliverable p) p)
              (unchanged-Replaced t pid p e))
        | inr some_bit ↦
            rw some_bit (deliver_from-Outcome m pid (deliverable p) signals_to_check t p e)
      ])
  where
    no_bit : (s : Signal) → bit_at (to_raw s) (deliverable p) ≡ 1 → (deliverable p == 0) ≡ true → ⊥
    no_bit s bit nothing = ground (
      arith,
      sym bit ∙ ap (bit_at (to_raw s)) (==→eq (deliverable p) 0 nothing) ∙ bit_at-zero (to_raw s),
    )

Outcome-other :
    (m : SignalManager) (t u : ProcessTable) (pid mask : ℕ) (p : Process) (sigs : List Signal)
    (r : Option (Signal × ℕ)) (j : ℕ)
    → pid ≢ j
    → Outcome m t pid mask p sigs r u
    → get u j ≡ get t j
Outcome-other m t u pid mask p sigs r j ne (quiet q w all off b z) = ground (arith, z.found j)
Outcome-other m t u pid mask p sigs r j ne (killed s q w i bit f c b z) = ground (arith, z.found j)
Outcome-other m t u pid mask p sigs r j ne (handled s addr q w i bit h c b z) =
    ground (arith, z.found j)

pub deliver_pending-other :
    (m : SignalManager) (t : ProcessTable) (pid j : ℕ)
    → pid ≢ j
    → get (deliver_pending m t pid).1 j ≡ get t j
unfolding deliver_pending pending_for
deliver_pending-other m t pid j ne = elim (Option-cases (get t pid)) [
  | inl e ↦ rw (e, deliver_pending, pending_for) refl
  | inr (p, e) ↦
      Outcome-other m t _ pid (deliverable p) p signals_to_check _ j ne
        (deliver_pending-Outcome m t pid p e)
]
