-- ===== src/Ai/Acting.antt =====
-- When the engine of kernel/src/ai.rs acts, and what it leaves in the audit log.
use brane_os.Prelude.{◌≡◌, ◌≢◌, ◌⊎◌, Option, none, some, add_u64}
use brane_os.Audit.{Stamp, ai_action_authorized, ai_action_denied, success, denied, record_event}
use brane_os.Ai.{AiAction, World, act_restricted, alert_user, no_action}

-- What an observation does to the counters of actions and to the audit log.
pub data Reaction (now : Stamp) (w : World) (action : Option AiAction) (n : World) : Type 0 where
  idle :
      (w.engine.mode ≡ act_restricted → (action ≡ none) ⊎ (action ≡ some no_action))
      → n.engine.total_actions_executed ≡ w.engine.total_actions_executed
      → n.engine.total_actions_denied ≡ w.engine.total_actions_denied
      → n.audit ≡ w.audit
      → Reaction now w action n
  alerted :
      w.engine.mode ≡ act_restricted
      → action ≡ some alert_user
      → n.engine.total_actions_executed ≡ add_u64 w.engine.total_actions_executed 1
      → n.engine.total_actions_denied ≡ w.engine.total_actions_denied
      → n.audit ≡ record_event now w.audit 0 (ai_action_authorized 0) w.engine.actuation_cap success
      → Reaction now w action n
  restrained :
      (a : AiAction)
      → a ≢ alert_user
      → a ≢ no_action
      → w.engine.mode ≡ act_restricted
      → action ≡ some a
      → n.engine.total_actions_executed ≡ w.engine.total_actions_executed
      → n.engine.total_actions_denied ≡ add_u64 w.engine.total_actions_denied 1
      → n.audit ≡ record_event now w.audit 0 (ai_action_denied 0) w.engine.actuation_cap denied
      → Reaction now w action n
