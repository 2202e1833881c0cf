-- ===== src/Ai.antt =====
-- kernel/src/ai.rs: the engine that records insights in a ring of 64 slots and, in one of its modes,
-- acts on them. The engine appends to the audit log, which is part of the state here; the time and CPU
-- of the entry are the argument `now`, and the scheduler's tick is `tick`.
pub mod Acting
mod Tests
use brane_os.Prelude.{
  ℕ, zero, suc, ◌+◌, ◌-◌, ◌%◌, ◌^◌, min, Bool, true, false, Option, none, some, List, [], ◌∷◌, ◌++◌,
  length, take, drop, replicate, get_or, set, ltb, if◌then◌else◌, add_u64,
}
use brane_os.Audit.{
  AuditLog, Stamp, ai_action_authorized, ai_action_denied, success, denied, record_event,
}

pub data AiMode : Type 0 where
  disabled observe_only suggest act_restricted : AiMode

pub data AiCategory : Type 0 where
  resource security performance brane_health scheduling anomaly : AiCategory

pub data AiSeverity : Type 0 where
  info low medium high critical : AiSeverity

pub data AiAction : Type 0 where
  adjust_priority reclaim_memory : ℕ → ℕ → AiAction
  suspend_task disconnect_brane : ℕ → AiAction
  alert_user no_action : AiAction

pub record AiInsight : Type 0 where
  pub id : ℕ
  pub category : AiCategory
  pub severity : AiSeverity
  pub message : List ℕ
  pub message_len : ℕ
  pub suggested_action : Option AiAction
  pub tick : ℕ

abbrev pub max_insights : ℕ
max_insights = 64

pub record AiEngine : Type 0 where
  pub mode : AiMode
  pub insights : List (Option AiInsight)
  pub next_id : ℕ
  pub total_observations : ℕ
  pub total_suggestions : ℕ
  pub total_actions_executed : ℕ
  pub total_actions_denied : ℕ
  pub actuation_cap : Option ℕ

unfoldable pub new : AiEngine
new = record {
  mode = observe_only;
  insights = replicate max_insights none;
  next_id = 1;
  total_observations = 0;
  total_suggestions = 0;
  total_actions_executed = 0;
  total_actions_denied = 0;
  actuation_cap = none;
}

unfoldable pub set_mode : AiEngine → AiMode → AiEngine
set_mode e mode = record e { mode = mode }

unfoldable pub set_actuation_cap : AiEngine → ℕ → AiEngine
set_actuation_cap e cap = record e { actuation_cap = some cap }

-- The engine and the audit log.
pub record World : Type 0 where
  pub engine : AiEngine
  pub audit : AuditLog

unfoldable pub try_execute : Stamp → World → AiAction → World
try_execute now w alert_user = record {
  engine = record w.engine { total_actions_executed = add_u64 w.engine.total_actions_executed 1 };
  audit = record_event now w.audit 0 (ai_action_authorized 0) w.engine.actuation_cap success;
}
try_execute now w no_action = w
try_execute now w _ = record {
  engine = record w.engine { total_actions_denied = add_u64 w.engine.total_actions_denied 1 };
  audit = record_event now w.audit 0 (ai_action_denied 0) w.engine.actuation_cap denied;
}

-- The insight that `observe` stores: the message is cut to 128 bytes.
unfoldable pub insight : ℕ → AiCategory → AiSeverity → List ℕ → Option AiAction → ℕ → AiInsight
insight id category severity message action tick = record {
  id = id;
  category = category;
  severity = severity;
  message = take 128 message ++ drop (min (length message) 128) (replicate 128 0);
  message_len = min (length message) 128;
  suggested_action = action;
  tick = tick;
}

abbrev pub one_if_some : Option AiAction → ℕ
one_if_some none = 0
one_if_some (some _) = 1

-- The engine with the insight in its slot; `id - 1` wraps as the release profile does.
unfoldable pub noted : AiEngine → AiInsight → AiEngine
noted e i = record e {
  insights = set e.insights ((e.next_id + (2 ^ 64 - 1)) % 2 ^ 64 % max_insights) (some i);
  next_id = add_u64 e.next_id 1;
  total_observations = add_u64 e.total_observations 1;
  total_suggestions = add_u64 e.total_suggestions (one_if_some i.suggested_action);
}

-- The end of `observe`.
unfoldable pub react : AiMode → Stamp → World → Option AiAction → World
react act_restricted now w (some action) = try_execute now w action
react _ now w action = w

abbrev pub is_disabled : AiMode → Bool
is_disabled disabled = true
is_disabled _ = false

unfoldable pub observe :
    Stamp → World → AiCategory → AiSeverity → List ℕ → Option AiAction → ℕ → ℕ × World
observe now w category severity message action tick =
    let e = w.engine in
    if is_disabled e.mode then (0, w) else (
      e.next_id,
      react e.mode now
          (record w { engine = noted e (insight e.next_id category severity message action tick) })
          action,
    )

-- The `filter_map` of `last_insights`: an empty slot is skipped.
abbrev pub or_skip : {A : Type 0} → Option A → List A → List A
or_skip none rest = rest
or_skip (some a) rest = a ∷ rest

unfoldable pub insights_from : List (Option AiInsight) → ℕ → ℕ → List AiInsight
insights_from slots idx zero = []
insights_from slots idx (suc rounds) =
    or_skip (get_or slots (idx % max_insights) none) (insights_from slots (suc idx) rounds)

unfoldable pub last_insights : AiEngine → ℕ → List AiInsight
last_insights e n =
    let start = if ltb n e.next_id then (e.next_id - 1 - n) % max_insights else 0 in
    insights_from e.insights start (min n e.total_observations)

pub record AiStats : Type 0 where
  pub mode : AiMode
  pub total_observations : ℕ
  pub total_suggestions : ℕ
  pub total_actions_executed : ℕ
  pub total_actions_denied : ℕ

unfoldable pub stats : AiEngine → AiStats
stats e = record {
  mode = e.mode;
  total_observations = e.total_observations;
  total_suggestions = e.total_suggestions;
  total_actions_executed = e.total_actions_executed;
  total_actions_denied = e.total_actions_denied;
}
