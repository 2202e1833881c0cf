-- ===== src/Audit.antt =====
-- kernel/src/audit.rs: the audit log, a ring of the last 512 events, and the entry points that stamp
-- an event with the time and the CPU. The tick and the CPU id, which the scheduler and the APIC give,
-- are arguments. The `u64` counters wrap.
pub mod Retention
mod Tests
use brane_os.Prelude.{
  ℕ, ◌+◌, ◌-◌, ◌%◌, min, Option, none, some, List, [], ◌∷◌, zero, suc, replicate, get_or, set, ltb,
  if◌then◌else◌, add_u64, ℤ,
}
use brane_os.Syscall.Abi.{AuditClass, CallerContext}

pub record AuditOrigin : Type 0 where
  pub task_id : Option ℕ
  pub pid : Option ℕ
  pub cpu_id : ℕ

-- `AuditOrigin::anonymous`.
unfoldable pub anonymous : ℕ → AuditOrigin
anonymous cpu_id = record { task_id = none; pid = none; cpu_id = cpu_id }

pub data AuditAction : Type 0 where
  syscall_invoked : ℕ → AuditAction
  syscall_completed : ℕ → Option AuditClass → AuditAction
  capability_checked capability_granted capability_revoked : ℕ → AuditAction
  ipc_message_sent ipc_message_received : ℕ → AuditAction
  brane_connected brane_disconnected : ℕ → AuditAction
  ai_action_requested ai_action_authorized ai_action_denied : ℕ → AuditAction
  policy_evaluated task_created task_terminated : ℕ → AuditAction

pub data AuditResult : Type 0 where
  success denied escalated : AuditResult
  error : ℤ → AuditResult

pub record AuditEvent : Type 0 where
  pub seq : ℕ
  pub tick : ℕ
  pub source : Option ℕ
  pub pid : Option ℕ
  pub cpu_id : ℕ
  pub action : AuditAction
  pub capability_used : Option ℕ
  pub result : AuditResult

abbrev pub audit_log_size : ℕ
audit_log_size = 512

pub record AuditLog : Type 0 where
  pub events : List (Option AuditEvent)
  pub head : ℕ
  pub count : ℕ
  pub next_seq : ℕ
  pub total_events : ℕ
  pub overwritten : ℕ

unfoldable pub new : AuditLog
new = record {
  events = replicate audit_log_size none;
  head = 0;
  count = 0;
  next_seq = 1;
  total_events = 0;
  overwritten = 0;
}

-- The event that `record_at` builds under a sequence number.
unfoldable pub event_of : ℕ → ℕ → AuditOrigin → AuditAction → Option ℕ → AuditResult → AuditEvent
event_of seq tick origin action capability_used result = record {
  seq = seq;
  tick = tick;
  source = origin.task_id;
  pid = origin.pid;
  cpu_id = origin.cpu_id;
  action = action;
  capability_used = capability_used;
  result = result;
}

-- The room that `record_at` makes for one more event.
unfoldable pub advance : AuditLog → AuditLog
advance log =
    if ltb log.count audit_log_size then record log { count = log.count + 1 } else record log {
      head = (log.head + 1) % audit_log_size;
      overwritten = add_u64 log.overwritten 1;
    }

-- `AuditLog::record_at`. The slot is chosen before the room is made.
unfoldable pub record_at :
    AuditLog → ℕ → AuditOrigin → AuditAction → Option ℕ → AuditResult → AuditLog
unfolding advance
record_at log tick origin action capability_used result =
    let event = event_of log.next_seq tick origin action capability_used result in
    let idx = (log.head + log.count) % audit_log_size in
    let log' = advance log in
    record log' {
      events = set log'.events idx (some event);
      next_seq = add_u64 log'.next_seq 1;
      total_events = add_u64 log'.total_events 1;
    }

abbrev pub or_skip : Option AuditEvent → List AuditEvent → List AuditEvent
or_skip (some e) es = e ∷ es
or_skip none es = es

-- The rounds of `last_n` from round `i` on, `k` of them left.
unfoldable pub last_from : AuditLog → ℕ → ℕ → List AuditEvent
last_from log i zero = []
last_from log i (suc k) =
    or_skip (get_or log.events ((log.head + log.count - 1 - i) % audit_log_size) none)
      (last_from log (i + 1) k)

-- `AuditLog::last_n`, the newest event first.
unfoldable pub last_n : AuditLog → ℕ → List AuditEvent
unfolding last_from
last_n log n = last_from log 0 (min n log.count)

-- The time and CPU that `snapshot_tick_cpu` reads.
pub record Stamp : Type 0 where
  pub tick : ℕ
  pub cpu_id : ℕ

-- `current_origin`.
unfoldable pub current_origin : Option ℕ → ℕ → AuditOrigin
current_origin source cpu_id = record { task_id = source; pid = none; cpu_id = cpu_id }

-- `audit::record`.
unfoldable pub record_event : Stamp → AuditLog → ℕ → AuditAction → Option ℕ → AuditResult → AuditLog
unfolding record_at current_origin
record_event now log source action capability_used result =
    record_at log now.tick (current_origin (some source) now.cpu_id) action capability_used result

-- `audit::record_anonymous`.
unfoldable pub record_anonymous : Stamp → AuditLog → AuditAction → AuditResult → AuditLog
unfolding record_at anonymous
record_anonymous now log action result =
    record_at log now.tick (anonymous now.cpu_id) action none result

-- The origin that `log_syscall` writes.
abbrev pub caller_origin : Option CallerContext → ℕ → AuditOrigin
caller_origin (some caller) cpu_id = record {
  task_id = some caller.task_id;
  pid = some caller.pid;
  cpu_id = caller.cpu_id;
}
caller_origin none cpu_id = record { task_id = none; pid = none; cpu_id = cpu_id }

-- `audit::log_syscall`.
unfoldable pub log_syscall :
    Stamp
    → AuditLog
    → Option CallerContext
    → ℕ
    → Option AuditClass
    → Option ℕ
    → AuditResult
    → AuditLog
unfolding record_at
log_syscall now log caller number class capability_used result =
    record_at log now.tick (caller_origin caller now.cpu_id) (syscall_completed number class)
      capability_used result

unfoldable pub log_cap_check : Stamp → AuditLog → ℕ → ℕ → AuditResult → AuditLog
log_cap_check now log source cap_id result =
    record_event now log source (capability_checked cap_id) (some cap_id) result

unfoldable pub log_ipc_send : Stamp → AuditLog → ℕ → ℕ → AuditResult → AuditLog
log_ipc_send now log source dest result =
    record_event now log source (ipc_message_sent dest) none result

unfoldable pub log_brane_connect : Stamp → AuditLog → ℕ → ℕ → AuditResult → AuditLog
log_brane_connect now log source brane_id result =
    record_event now log source (brane_connected brane_id) none result
