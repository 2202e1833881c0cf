-- ===== src/Brane/Manager/Sessions.antt =====
-- The sessions of `BraneManager` in kernel/src/brane.rs: what connecting, sending and disconnecting do
-- to the table, and that a brane never has two active sessions.
use brane_os.Prelude.{
  ℕ, ◌+◌, ◌^◌, ◌<◌, ◌≡◌, refl, ◌∙◌, subst, inl, inr, true, Option, none, some, List, some, length,
  length-replicate, ==_refl, ==→eq, ◌≤◌, Result, ok, err, ◌==◌, if◌then◌else◌, arith, Option-cases,
  Bool-cases, add_u64,
}
use brane_os.Prelude.Slots.{fill_free, find, fill_free-none, fill_free-some, used}
use brane_os.Prelude.Slots.Keyed.{Keyed, Keyed-replicate, find-fill_free, fill_free-Keyed}
use brane_os.Prelude.Slots.Counts.{matching, matching-replicate, matching-none, matching-fill_free}
use brane_os.Audit.{Stamp, success, log_brane_connect}
use brane_os.Brane.Manager.{
  BraneManager, BraneSession, BraneInfo, BraneError, World, max_sessions, active_to, has_id,
  has_session_id, session, open_session, connect, new, not_found, already_connected, session_full,
}

abbrev key : BraneSession → ℕ
key s = s.session_id

-- Session ids are distinct and were all handed out before `next_session_id`, and a brane has at most
-- one active session.
pub record IsValid (m : BraneManager) : Type 0 where
  pub sized : length m.sessions ≡ max_sessions
  pub keyed : Keyed key m.next_session_id m.sessions
  pub single : (brane : ℕ) → matching (active_to brane) m.sessions ≤ 1

pub new-IsValid : IsValid new
unfolding new
new-IsValid = record {
  sized = length-replicate max_sessions none;
  keyed = Keyed-replicate key 1 max_sessions;
  single = λ brane. omega (arith, matching-replicate (active_to brane) max_sessions);
}

unfoldable pub lookup : BraneManager → ℕ → Option BraneSession
lookup m k = find (has_session_id k) m.sessions

-- The table after `a` was stored under a fresh id.
pub record Opened (m : BraneManager) (a : BraneSession) (n : BraneManager) : Type 0 where
  pub active_now : active_to a.remote_brane a ≡ true
  pub had_room : used m.sessions < max_sessions
  pub found : (k : ℕ) → lookup n k ≡ (if m.next_session_id == k then some a else lookup m k)
  pub connections : n.total_connections ≡ add_u64 m.total_connections 1
  pub valid : IsValid n

-- The outcomes of `connect`.
pub data Connection (now : Stamp) (w : World) (brane owner tick : ℕ)
    : Result ℕ BraneError → World → Type 0 where
  unknown_brane :
      find (has_id brane) w.manager.discovered ≡ none
      → Connection now w brane owner tick (err not_found) w
  connected_already :
      (s : BraneSession)
      → find (active_to brane) w.manager.sessions ≡ some s
      → Connection now w brane owner tick (err already_connected) w
  table_full :
      used w.manager.sessions ≡ max_sessions
      → Connection now w brane owner tick (err session_full) w
  opened :
      (b : BraneInfo) (n : World)
      → find (has_id brane) w.manager.discovered ≡ some b
      → Opened w.manager (session w.manager.next_session_id b brane owner tick) n.manager
      → n.audit ≡ log_brane_connect now w.audit owner brane success
      → Connection now w brane owner tick (ok w.manager.next_session_id) n

-- A session to a brane without an active one leaves every brane with at most one.
single_after :
    (a : BraneSession) (s : List (Option BraneSession)) {t : List (Option BraneSession)}
    → find (active_to a.remote_brane) s ≡ none
    → fill_free a s ≡ some t
    → ((brane : ℕ) → matching (active_to brane) s ≤ 1)
    → (brane : ℕ) → matching (active_to brane) t ≤ 1
single_after a s {t} free e before brane = elim (Bool-cases (a.remote_brane == brane)) [
  | inl same ↦ rw (← ==→eq a.remote_brane brane same) (
      ground (
        arith,
        matching-fill_free (active_to a.remote_brane) a s e,
        matching-none (active_to a.remote_brane) s free,
      ))
  | inr other ↦ ground (arith, matching-fill_free (active_to brane) a s e, before brane)
]

opened_lem :
    (m : BraneManager) (b : BraneInfo) (brane owner tick : ℕ) {slots : List (Option BraneSession)}
    → IsValid m
    → m.next_session_id + 1 < 2 ^ 64
    → find (active_to brane) m.sessions ≡ none
    → fill_free (session m.next_session_id b brane owner tick) m.sessions ≡ some slots
    → Opened m (session m.next_session_id b brane owner tick) (record m {
      sessions = slots;
      next_session_id = add_u64 m.next_session_id 1;
      total_connections = add_u64 m.total_connections 1;
    })
unfolding session lookup
opened_lem m b brane owner tick {slots} v room free e =
    let counts = fill_free-some a m.sessions e in
    record {
      active_now = ground (arith, ==_refl brane);
      had_room = omega (arith, v.sized, counts.1);
      found = λ k. find-fill_free key m.next_session_id k a m.sessions v.keyed refl e;
      connections = refl;
      valid = record {
        sized = counts.2 ∙ v.sized;
        keyed =
            subst (λ n. Keyed key n slots) (omega arith)
              (fill_free-Keyed key m.next_session_id a m.sessions v.keyed refl e);
        single = single_after a m.sessions free e v.single;
      };
    }
  where
    a : BraneSession
    a = session m.next_session_id b brane owner tick

-- What `connect` does, on every branch, while session ids are left: an unknown brane, a brane with an
-- active session and a full table are refused and nothing changes; otherwise the table gains exactly
-- the new active session, under the next id, and the log gains its entry. A brane never gets a second
-- active session.
pub connect_lem :
    (now : Stamp) (w : World) (brane owner tick : ℕ)
    → IsValid w.manager
    → w.manager.next_session_id + 1 < 2 ^ 64
    → Connection now w brane owner tick
        (connect now w brane owner tick).0
        (connect now w brane owner tick).1
unfolding connect open_session
connect_lem now w brane owner tick v room =
    elim (Option-cases (find (has_id brane) w.manager.discovered)) [
      | inl e ↦ rw (e, connect) (unknown_brane e)
      | inr (b, e) ↦ elim (Option-cases (find (active_to brane) w.manager.sessions)) [
        | inr (s, taken) ↦ rw (e, connect, taken, connect) (connected_already s taken)
        | inl free ↦ elim (Option-cases (fill_free (new_session b) w.manager.sessions)) [
          | inl full ↦
              rw (e, connect, free, connect, full, open_session)
                (table_full (fill_free-none (new_session b) w.manager.sessions full ∙ v.sized))
          | inr (slots, put) ↦
              rw (e, connect, free, connect, put, open_session)
                (opened b _ e (opened_lem w.manager b brane owner tick v room free put) refl)
        ]
      ]
    ]
  where
    new_session : BraneInfo → BraneSession
    new_session b = session w.manager.next_session_id b brane owner tick
