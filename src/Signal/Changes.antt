-- ===== src/Signal/Changes.antt =====
-- What changes of one process do to the process table, and what clearing pending bits does to a
-- process.
use brane_os.Prelude.{
  ℕ, ◌≤◌, ◌<◌, ◌≡◌, refl, ◌∙◌, ap, inl, inr, some, ℤ, ◌==◌, if◌then◌else◌, arith, Bool-cases, ==→eq,
}
use brane_os.Prelude.Bits.{bit_at, bit_at-bit_and, complement, clear_bit}
use brane_os.Process.Table.{Process, ProcessTable, terminated, get, update, terminate, slot_of}
use brane_os.Process.Table.Lookup.{get-update_found, slot_of-update}
use brane_os.Signal.{
  Signal, kill, to_raw, SignalManager, sig_bit, get_action, cleared, clear_pending,
}

-- The table is `t` with the process under `pid` replaced.
pub record Replaced (t : ProcessTable) (pid : ℕ) (q : Process) (u : ProcessTable) : Type 0 where
  pub found : (j : ℕ) → get u j ≡ (if pid == j then some q else get t j)
  pub same_slots : (j : ℕ) → slot_of u j ≡ slot_of t j

-- `p` with fewer pending signals, all those of the mask.
pub record Quieter (mask : ℕ) (p q : Process) : Type 0 where
  pub fewer : (i : ℕ) → bit_at i q.signal_pending ≤ bit_at i p.signal_pending
  pub kept :
      (s : Signal)
      → bit_at (to_raw s) q.signal_pending ≡ (
          if bit_at (to_raw s) mask == 0
          then bit_at (to_raw s) p.signal_pending
          else bit_at (to_raw s) q.signal_pending)
  pub rest : q ≡ record p { signal_pending = q.signal_pending }

pub to_raw_lt : (sig : Signal) → to_raw sig < 64
unfolding to_raw
to_raw_lt kill = omega arith
to_raw_lt sig = omega arith

pub Quieter-refl : (mask : ℕ) (p : Process) → Quieter mask p p
Quieter-refl mask p = record { fewer = λ i. omega arith; kept = λ s. ground arith; rest = refl }

pub Quieter-trans :
    (mask : ℕ) (p q r : Process) → Quieter mask p q → Quieter mask q r → Quieter mask p r
Quieter-trans mask p q r a b = record {
  fewer = λ i. omega (arith, a.fewer i, b.fewer i);
  kept = λ s. ground (arith, a.kept s, b.kept s);
  rest = b.rest ∙ ap (λ (x : Process). record x { signal_pending = r.signal_pending }) a.rest;
}

pub cleared-Quieter :
    (mask : ℕ) (sig : Signal) (p : Process)
    → bit_at (to_raw sig) mask ≡ 1
    → Quieter mask p (cleared sig p)
unfolding cleared sig_bit
cleared-Quieter mask sig p on = record {
  kept = λ s. ground (
    arith,
    on,
    same_bit s,
    clear_bit 64 (to_raw sig) (to_raw s) p.signal_pending (to_raw_lt s) (to_raw_lt sig),
  );
  fewer = λ i. omega (arith, bit_at-bit_and i p.signal_pending (complement 64 (sig_bit sig)));
  rest = refl;
}
  where
    same_bit :
        (s : Signal) → to_raw sig ≡ to_raw s → bit_at (to_raw sig) mask ≡ bit_at (to_raw s) mask
    same_bit s e = ap (λ k. bit_at k mask) e

update-Replaced :
    (t : ProcessTable) (pid : ℕ) (f : Process → Process) (p : Process)
    → ((q : Process) → (f q).pid ≡ q.pid)
    → get t pid ≡ some p
    → Replaced t pid (f p) (update t pid f)
update-Replaced t pid f p keeps e = record {
  found = λ j. get-update_found t j pid f p keeps e;
  same_slots = λ j. slot_of-update t j pid f keeps;
}

pub clear_pending-Replaced :
    (t : ProcessTable) (pid : ℕ) (sig : Signal) (p : Process)
    → get t pid ≡ some p
    → Replaced t pid (cleared sig p) (clear_pending t pid sig)
unfolding clear_pending cleared
clear_pending-Replaced t pid sig p e =
    rw (e, clear_pending) (update-Replaced t pid (cleared sig) p (λ _. refl) e)

pub terminate-Replaced :
    (t : ProcessTable) (pid : ℕ) (code : ℤ) (p : Process)
    → get t pid ≡ some p
    → Replaced t pid (record p { state = terminated; exit_code = code }) (terminate t pid code).1
unfolding terminate
terminate-Replaced t pid code p e =
    rw (e, terminate)
      (update-Replaced t pid (λ q. record q { state = terminated; exit_code = code }) p (λ _. refl)
        e)

pub Replaced-self :
    (t u : ProcessTable) (pid : ℕ) (q : Process) → Replaced t pid q u → get u pid ≡ some q
Replaced-self t u pid q v = ground (arith, v.found pid)

pub Replaced-trans :
    (t u w : ProcessTable) (pid : ℕ) (q r : Process)
    → Replaced t pid q u
    → Replaced u pid r w
    → Replaced t pid r w
Replaced-trans t u w pid q r a b = record {
  found = λ j. ground (arith, a.found j, b.found j);
  same_slots = λ j. b.same_slots j ∙ a.same_slots j;
}

-- Actions depend on the slots alone.
pub get_action_stable :
    (m : SignalManager) (t u : ProcessTable) (pid : ℕ) (q : Process) (sig : Signal)
    → Replaced t pid q u
    → get_action m u pid sig ≡ get_action m t pid sig
unfolding get_action
get_action_stable m t u pid q sig v = rw (v.same_slots pid, get_action) refl

pub unchanged-Replaced :
    (t : ProcessTable) (pid : ℕ) (p : Process) → get t pid ≡ some p → Replaced t pid p t
unchanged-Replaced t pid p e = record {
  found = λ j. elim (Bool-cases (pid == j)) [
    | inl here ↦ rw (here, ← ==→eq pid j here) e
    | inr there ↦ rw there refl
  ];
  same_slots = λ j. refl;
}

if_same : (n x : ℕ) → (if n == n then 0 else x) ≡ 0
if_same n x = ground arith

pub cleared-bit :
    (sig : Signal) (p : Process) → bit_at (to_raw sig) (cleared sig p).signal_pending ≡ 0
unfolding cleared sig_bit
cleared-bit sig p =
    clear_bit 64 (to_raw sig) (to_raw sig) p.signal_pending (to_raw_lt sig) (to_raw_lt sig)
    ∙ if_same (to_raw sig) _
