-- ===== src/Brane/Manager.antt =====
-- `BraneManager` of kernel/src/brane.rs: the discovered branes, 16 slots, and the sessions with them,
-- 8 slots. The manager appends to the audit log, so the log is part of the state here; the time and
-- CPU of the entry are the argument `now`, and the scheduler's tick is `tick`.
pub mod Sessions
pub mod Runs
use brane_os.Prelude.{
  ℕ, ◌+◌, ◌-◌, min, Bool, true, false, ◌&&◌, Option, none, some, List, [], ◌∷◌, ◌++◌, length, take,
  drop, replicate, Result, ok, err, ltb, ◌==◌, if◌then◌else◌, add_u64,
}
use brane_os.Prelude.Slots.{fill_free, find, modify, clear, entries, keep, used}
use brane_os.Audit.{AuditLog, Stamp, success, log_brane_connect}

pub data BraneType : Type 0 where
  companion peer iot unknown : BraneType

pub data Transport : Type 0 where
  tcp_ip bluetooth ble usb_direct local : Transport

pub data AuthStatus : Type 0 where
  pending challenge_sent authenticated failed : AuthStatus

pub data SessionState : Type 0 where
  discovering pairing active suspended disconnecting disconnected : SessionState

pub record BraneInfo : Type 0 where
  pub id : ℕ
  pub brane_type : BraneType
  pub name : List ℕ
  pub name_len : ℕ
  pub transport : Transport
  pub advertised_caps : ℕ
  pub signal_quality : ℕ

pub record BraneSession : Type 0 where
  pub session_id : ℕ
  pub remote_brane : ℕ
  pub brane_type : BraneType
  pub transport : Transport
  pub auth_status : AuthStatus
  pub state : SessionState
  pub owner_task : ℕ
  pub capability_granted : Option ℕ
  pub msgs_sent : ℕ
  pub msgs_received : ℕ
  pub established_at : ℕ

abbrev pub brane_max_payload : ℕ
brane_max_payload = 2048

pub data BraneMessageType : Type 0 where
  discover announce pair_request pair_accept pair_reject plain telemetry notification command
        command_response disconnect_notice :
      BraneMessageType

pub record BraneMessage : Type 0 where
  pub msg_type : BraneMessageType
  pub source_brane : ℕ
  pub dest_brane : ℕ
  pub session_id : ℕ
  pub payload_len : ℕ
  pub payload : List ℕ

pub data BraneError : Type 0 where
  not_found already_connected authentication_failed not_authenticated session_full payload_too_large
        not_connected permission_denied transport_unavailable timeout :
      BraneError

-- `BraneMessage::new`: the bytes are copied over the front of a zeroed array.
unfoldable pub message : BraneMessageType → ℕ → ℕ → ℕ → List ℕ → Result BraneMessage BraneError
message msg_type source dest session bytes =
    if ltb brane_max_payload (length bytes)
    then err payload_too_large
    else ok (record {
      msg_type = msg_type;
      source_brane = source;
      dest_brane = dest;
      session_id = session;
      payload_len = length bytes;
      payload = bytes ++ drop (length bytes) (replicate brane_max_payload 0);
    })

-- `BraneMessage::data`.
unfoldable pub contents : BraneMessage → List ℕ
contents m = take m.payload_len m.payload

abbrev pub max_discovered : ℕ
max_discovered = 16

abbrev pub max_sessions : ℕ
max_sessions = 8

pub record BraneManager : Type 0 where
  pub local_id : ℕ
  pub discovered : List (Option BraneInfo)
  pub sessions : List (Option BraneSession)
  pub next_session_id : ℕ
  pub total_discovered : ℕ
  pub total_connections : ℕ
  pub total_disconnections : ℕ

unfoldable pub new : BraneManager
new = record {
  local_id = 0;
  discovered = replicate max_discovered none;
  sessions = replicate max_sessions none;
  next_session_id = 1;
  total_discovered = 0;
  total_connections = 0;
  total_disconnections = 0;
}

unfoldable pub set_local_id : BraneManager → ℕ → BraneManager
set_local_id m id = record m { local_id = id }

-- The entry that `register_discovered` stores: the name is cut to 32 bytes.
unfoldable pub info : ℕ → List ℕ → BraneType → Transport → ℕ → ℕ → BraneInfo
info id name brane_type transport caps signal = record {
  id = id;
  brane_type = brane_type;
  name = take 32 name ++ drop (min (length name) 32) (replicate 32 0);
  name_len = min (length name) 32;
  transport = transport;
  advertised_caps = caps;
  signal_quality = signal;
}

unfoldable pub register_discovered :
    BraneManager → List ℕ → BraneType → Transport → ℕ → ℕ → Result ℕ BraneError × BraneManager
register_discovered m name brane_type transport caps signal =
    let id = add_u64 m.total_discovered 1 in
    elim (fill_free (info id name brane_type transport caps signal) m.discovered) [
      | some slots ↦ (ok id, record m { discovered = slots; total_discovered = id })
      | none ↦ (err session_full, m)
    ]

abbrev pub has_id : ℕ → BraneInfo → Bool
has_id k b = b.id == k

abbrev pub is_active : SessionState → Bool
is_active active = true
is_active _ = false

abbrev pub is_authenticated : AuthStatus → Bool
is_authenticated authenticated = true
is_authenticated _ = false

-- The session is an active one to the brane.
abbrev pub active_to : ℕ → BraneSession → Bool
active_to brane s = s.remote_brane == brane && is_active s.state

abbrev pub has_session_id : ℕ → BraneSession → Bool
has_session_id k s = s.session_id == k

-- The session that `connect` stores.
unfoldable pub session : ℕ → BraneInfo → ℕ → ℕ → ℕ → BraneSession
session session_id brane brane_id owner_task tick = record {
  session_id = session_id;
  remote_brane = brane_id;
  brane_type = brane.brane_type;
  transport = brane.transport;
  auth_status = authenticated;
  state = active;
  owner_task = owner_task;
  capability_granted = none;
  msgs_sent = 0;
  msgs_received = 0;
  established_at = tick;
}

pub record World : Type 0 where
  pub manager : BraneManager
  pub audit : AuditLog

-- The end of `connect`, once the brane is found and not connected: the loop over the slots.
unfoldable pub open_session : Stamp → World → BraneInfo → ℕ → ℕ → ℕ → Result ℕ BraneError × World
open_session now w brane brane_id owner_task tick =
    let m = w.manager in
    elim (fill_free (session m.next_session_id brane brane_id owner_task tick) m.sessions) [
      | some slots ↦ (
        ok m.next_session_id,
        record {
          manager = record m {
            sessions = slots;
            next_session_id = add_u64 m.next_session_id 1;
            total_connections = add_u64 m.total_connections 1;
          };
          audit = log_brane_connect now w.audit owner_task brane_id success;
        },
      )
      | none ↦ (err session_full, w)
    ]

unfoldable pub connect : Stamp → World → ℕ → ℕ → ℕ → Result ℕ BraneError × World
connect now w brane_id owner_task tick = elim (find (has_id brane_id) w.manager.discovered) [
  | none ↦ (err not_found, w)
  | some brane ↦ elim (find (active_to brane_id) w.manager.sessions) [
    | some _ ↦ (err already_connected, w)
    | none ↦ open_session now w brane brane_id owner_task tick
  ]
]

unfoldable pub send : BraneManager → ℕ → BraneMessage → Result (Unit {0}) BraneError × BraneManager
send m session_id msg = elim (find (has_session_id session_id) m.sessions) [
  | none ↦ (err not_found, m)
  | some s ↦
      if is_active s.state
      then (if is_authenticated s.auth_status
          then (
            ok tt,
            record m {
              sessions =
                  modify (has_session_id session_id)
                    (λ s. record s { msgs_sent = add_u64 s.msgs_sent 1 }) m.sessions;
            },
          )
          else (err not_authenticated, m))
      else (err not_connected, m)
]

-- A disconnection is written to the log by the same entry point as a connection.
unfoldable pub disconnect : Stamp → World → ℕ → Result (Unit {0}) BraneError × World
disconnect now w session_id = elim (find (has_session_id session_id) w.manager.sessions) [
  | none ↦ (err not_found, w)
  | some s ↦ (
    ok tt,
    record {
      manager = record w.manager {
        sessions = clear (has_session_id session_id) w.manager.sessions;
        total_disconnections = add_u64 w.manager.total_disconnections 1;
      };
      audit = log_brane_connect now w.audit s.owner_task s.remote_brane success;
    },
  )
]

unfoldable pub active_sessions : BraneManager → List BraneSession
active_sessions m = keep (λ s. is_active s.state) (entries m.sessions)

unfoldable pub active_session_count : BraneManager → ℕ
unfolding active_sessions
active_session_count m = length (active_sessions m)

unfoldable pub discovered_count : BraneManager → ℕ
discovered_count m = used m.discovered

unfoldable pub stats : BraneManager → ℕ × ℕ × ℕ
stats m = (m.total_discovered, m.total_connections, m.total_disconnections)
