-- ===== src/Brane/Manager/Runs.antt =====
-- `BraneManager` of kernel/src/brane.rs over sequences of calls, and a connection after a
-- disconnection.
use brane_os.Prelude.{
  ℕ, ◌+◌, ◌^◌, ◌<◌, ◌≤◌, ◌≡◌, refl, ◌∙◌, inl, inr, true, Option, none, some, List, [], ◌∷◌, length,
  Result, ok, ◌==◌, if◌then◌else◌, arith, Option-cases, Bool-cases, add_u64, ==_refl,
}
use brane_os.Prelude.Slots.{
  find, clear, modify, length-clear, length-modify, used, used-clear, used-le-length, fill_free,
  fill_free-none,
}
use brane_os.Prelude.Slots.Keyed.{find-clear, clear-Keyed, modify-Keyed}
use brane_os.Prelude.Slots.Counts.{matching, matching-clear, matching-modify, find_unmatched}
use brane_os.Audit.{AuditLog, Stamp}
use brane_os.Brane.Manager.{
  BraneManager, BraneSession, BraneInfo, BraneType, Transport, BraneMessage, BraneError, World,
  is_active, is_authenticated, active_to, has_id, has_session_id, session, connect, send,
  disconnect, new, open_session, info, register_discovered,
}
use brane_os.Brane.Manager.Sessions.{
  IsValid, new-IsValid, lookup, Connection, unknown_brane, connected_already, table_full, opened,
  connect_lem,
}

disconnect-IsValid :
    (now : Stamp) (w : World) (k : ℕ) → IsValid w.manager → IsValid (disconnect now w k).1.manager
unfolding disconnect
disconnect-IsValid now w k v = elim (Option-cases (find (has_session_id k) w.manager.sessions)) [
  | inl e ↦ rw (e, disconnect) v
  | inr (s, e) ↦
      rw (e, disconnect)
        (record {
          sized = length-clear (has_session_id k) w.manager.sessions ∙ v.sized;
          keyed =
              clear-Keyed (λ s. s.session_id) w.manager.next_session_id k w.manager.sessions
                v.keyed;
          single = λ brane. ground (
            arith,
            v.single brane,
            matching-clear (active_to brane) (has_session_id k) w.manager.sessions e,
          );
        })
]

send-IsValid :
    (m : BraneManager) (k : ℕ) (msg : BraneMessage) → IsValid m → IsValid (send m k msg).1
unfolding send
send-IsValid m k msg v = elim (Option-cases (find (has_session_id k) m.sessions)) [
  | inl e ↦ rw (e, send) v
  | inr (s, e) ↦ elim (Bool-cases (is_active s.state)) [
    | inr idle ↦ rw (e, send, idle) v
    | inl up ↦ elim (Bool-cases (is_authenticated s.auth_status)) [
      | inr no' ↦ rw (e, send, up, no') v
      | inl yes' ↦ rw (e, send, up, yes') counted
    ]
  ]
]
  where
    counted : IsValid (record m {
      sessions =
          modify
            (has_session_id k)
            (λ s. record s { msgs_sent = add_u64 s.msgs_sent 1 })
            m.sessions;
    })
    counted = record {
      sized = length-modify (has_session_id k) _ m.sessions ∙ v.sized;
      keyed = modify-Keyed (λ s. s.session_id) m.next_session_id k _ m.sessions (λ a. refl) v.keyed;
      single = λ brane. omega (
        arith,
        v.single brane,
        matching-modify (active_to brane) (has_session_id k)
            (λ s. record s { msgs_sent = add_u64 s.msgs_sent 1 }) m.sessions (λ a. refl),
      );
    }

connect-IsValid :
    (now : Stamp) (w : World) (brane owner tick : ℕ)
    → IsValid w.manager
    → w.manager.next_session_id + 1 < 2 ^ 64
    → IsValid (connect now w brane owner tick).1.manager
connect-IsValid now w brane owner tick v room = outcome (connect_lem now w brane owner tick v room)
  where
    outcome :
        {r : Result ℕ BraneError} {n : World}
        → Connection now w brane owner tick r n
        → IsValid n.manager
    outcome (unknown_brane _) = v
    outcome (connected_already _ _) = v
    outcome (table_full _) = v
    outcome (opened b n _ o _) = o.valid

-- A call on the manager, with the time and CPU of its log entry.
pub data Call : Type 0 where
  discovery : List ℕ → BraneType → Transport → ℕ → ℕ → Call
  connection : Stamp → ℕ → ℕ → ℕ → Call
  message_to : ℕ → BraneMessage → Call
  disconnection : Stamp → ℕ → Call

unfoldable pub perform : Call → World → World
perform (discovery name t transport caps signal) w = record w {
  manager = (register_discovered w.manager name t transport caps signal).1;
}
perform (connection now brane owner tick) w = (connect now w brane owner tick).1
perform (message_to k msg) w = record w { manager = (send w.manager k msg).1 }
perform (disconnection now k) w = (disconnect now w k).1

unfoldable pub run : List Call → World → World
run [] w = w
run (c ∷ cs) w = run cs (perform c w)

perform-IsValid :
    (c : Call) (w : World)
    → IsValid w.manager
    → w.manager.next_session_id + 1 < 2 ^ 64
    → IsValid (perform c w).manager
unfolding perform register_discovered
perform-IsValid (discovery name t transport caps signal) w v room =
    elim (Option-cases (
      fill_free (info (add_u64 w.manager.total_discovered 1) name t transport caps signal)
        w.manager.discovered)) [
          | inl e ↦ rw (e, register_discovered) v
          | inr (slots, e) ↦
              rw (e, register_discovered)
                (record { sized = v.sized; keyed = v.keyed; single = v.single })
        ]
perform-IsValid (connection now brane owner tick) w v room =
    connect-IsValid now w brane owner tick v room
perform-IsValid (message_to k msg) w v room = send-IsValid w.manager k msg v
perform-IsValid (disconnection now k) w v room = disconnect-IsValid now w k v

next-perform :
    (c : Call) (w : World) → (perform c w).manager.next_session_id ≤ w.manager.next_session_id + 1
unfolding perform register_discovered connect open_session send disconnect
next-perform (discovery name t transport caps signal) w = ground arith
next-perform (connection now brane owner tick) w = ground arith
next-perform (message_to k msg) w = ground arith
next-perform (disconnection now k) w = ground arith

pub run-IsValid :
    (cs : List Call) (w : World)
    → IsValid w.manager
    → w.manager.next_session_id + length cs < 2 ^ 64
    → IsValid (run cs w).manager
unfolding run
run-IsValid [] w v room = v
run-IsValid (c ∷ cs) w v room =
    run-IsValid cs (perform c w) (perform-IsValid c w v (omega arith))
      (omega (arith, next-perform c w))

-- From a new manager, whatever is discovered, connected, sent and disconnected, in any order and in
-- fewer than 2 ^ 64 - 1 calls, no brane has two active sessions.
pub single_active_session :
    (cs : List Call) (log : AuditLog) (brane : ℕ)
    → length cs + 1 < 2 ^ 64
    → matching (active_to brane) (run cs (record { manager = new; audit = log })).manager.sessions
      ≤ 1
unfolding new
single_active_session cs log brane few = (run-IsValid cs _ new-IsValid (omega arith)).single brane

-- With a free slot, the end of `connect` opens a session under the next id.
opens_with_room :
    (now : Stamp) (w : World) (b : BraneInfo) (brane owner tick : ℕ)
    → used w.manager.sessions < length w.manager.sessions
    → (open_session now w b brane owner tick).0 ≡ ok w.manager.next_session_id
unfolding open_session
opens_with_room now w b brane owner tick room =
    elim (Option-cases
      (fill_free (session w.manager.next_session_id b brane owner tick) w.manager.sessions)) [
        | inl full ↦ absurd (
            omega (
              arith,
              fill_free-none (session w.manager.next_session_id b brane owner tick)
                  w.manager.sessions full,
            ))
        | inr (slots, put) ↦ rw (put, open_session) refl
      ]

-- A session that is disconnected is gone, every other session is untouched, and its brane can be
-- connected again at once: the slot it had is free, so the connection gets the next id.
pub reconnects :
    (now : Stamp) (w : World) (k owner tick : ℕ) (s : BraneSession) (b : BraneInfo)
    → IsValid w.manager
    → w.manager.next_session_id + 1 < 2 ^ 64
    → lookup w.manager k ≡ some s
    → is_active s.state ≡ true
    → find (has_id s.remote_brane) w.manager.discovered ≡ some b
    → let (r, gone) = disconnect now w k in
      (r ≡ ok tt)
      × ((j : ℕ) → lookup gone.manager j ≡ (if k == j then none else lookup w.manager j))
      × ((connect now gone s.remote_brane owner tick).0 ≡ ok w.manager.next_session_id)
unfolding lookup disconnect connect
reconnects now w k owner tick s b v room found up known =
    rw (found, disconnect)
      (
        refl,
        λ j.
            find-clear (λ s. s.session_id) w.manager.next_session_id j k w.manager.sessions v.keyed,
        rw (known, connect, unconnected, connect)
            (opens_with_room now _ b s.remote_brane owner tick room_left),
      )
  where
    left : List (Option BraneSession)
    left = clear (has_session_id k) w.manager.sessions

    unconnected : find (active_to s.remote_brane) left ≡ none
    unconnected = find_unmatched (active_to s.remote_brane) left (
        ground (
          arith,
          up,
          ==_refl s.remote_brane,
          v.single s.remote_brane,
          matching-clear (active_to s.remote_brane) (has_session_id k) w.manager.sessions found,
        ))

    room_left : used left < length left
    room_left = omega (
      arith,
      used-clear (has_session_id k) w.manager.sessions found,
      length-clear (has_session_id k) w.manager.sessions,
      used-le-length w.manager.sessions,
    )
