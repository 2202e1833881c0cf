-- ===== src/Audit/Tests.antt =====
-- The theorems on the audit log at concrete histories.
use brane_os.Prelude.{◌≡◌, refl, none, some, List, [], ◌∷◌, take, min, replicate, map}
use brane_os.Audit.{
  new, record_at, last_n, policy_evaluated, task_created, success, denied, audit_log_size, event_of,
}
use brane_os.Audit.Retention.{Report, record_all, history_of, last_n-record_all}

abbrev reports : List Report
reports =
    record {
      tick = 4;
      origin = record { task_id = some 2; pid = some 3; cpu_id = 0 };
      action = policy_evaluated 9;
      capability_used = none;
      result = denied;
    }
    ∷ record {
      tick = 5;
      origin = record { task_id = none; pid = none; cpu_id = 1 };
      action = task_created 7;
      capability_used = some 1;
      result = success;
    }
    ∷ []

newest_first : map (λ e. e.seq) (last_n (record_all new reports) 5) ≡ 2 ∷ 1 ∷ []
unfolding last_n record_all record_at new replicate event_of
newest_first = refl

last_n-record_all_example :
    last_n (record_all new reports) 1 ≡ take (min 1 audit_log_size) (history_of [] reports)
last_n-record_all_example = last_n-record_all reports 1
