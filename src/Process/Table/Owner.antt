-- ===== src/Process/Table/Owner.antt =====
-- `ProcessTable::get_pid_by_task_id`: the identity of the process that a scheduler task belongs to.
use brane_os.Prelude.{
  ℕ, ◌≡◌, ◌≢◌, refl, sym, Bool, true, ◌&&◌, Option, none, some, List, [], ◌∷◌, inl, inr, ◌==◌,
  arith,
}
use brane_os.Prelude.Slots.{entries, keep}
use brane_os.Prelude.Slots.Scans.{In, find-In, In-find, keep_distinct}
use brane_os.Process.Table.{Process, ProcessTable, get, is_active, get_pid_by_task_id, only}
use brane_os.Process.Table.Lookup.{IsValid}

-- A live process of the table that runs as this task.
pub record Runs (t : ProcessTable) (task : ℕ) (p : Process) : Type 0 where
  pub known : get t p.pid ≡ some p
  pub as_task : p.scheduler_task ≡ task
  pub live : is_active p ≡ true

-- What each answer says of the live processes of the task.
pub data Ownership (t : ProcessTable) (task : ℕ) : Option ℕ → Type 0 where
  nobody : ((p : Process) → ¬ Runs t task p) → Ownership t task none
  single :
      (p : Process)
      → Runs t task p
      → ((q : Process) → Runs t task q → q ≡ p)
      → Ownership t task (some p.pid)
  shared : (p q : Process) → Runs t task p → Runs t task q → p.pid ≢ q.pid → Ownership t task none

abbrev runs_as : ℕ → Process → Bool
runs_as task p = p.scheduler_task == task && is_active p

module _ (t : ProcessTable) (task : ℕ) (v : IsValid t) where
  matches_of : List Process
  matches_of = keep (runs_as task) (entries t.processes)

  In-Runs : (p : Process) → In p matches_of → Runs t task p
  unfolding matches_of get
  In-Runs p h =
      let (found, fits) = In-find (λ q. q.pid) (runs_as task) t.next_pid t.processes p v.keyed h in
      record { known = found; as_task = ground arith; live = ground arith }

  Runs-In : (p : Process) → Runs t task p → In p matches_of
  unfolding matches_of get
  Runs-In p r =
      find-In (λ q. q.pid) (runs_as task) p.pid t.processes p r.known
        (ground (arith, r.as_task, r.live))

  only-Ownership : (ms : List Process) → ms ≡ matches_of → Ownership t task (only ms)
  unfolding matches_of
  only-Ownership [] e = nobody λ p r. rw (← e) at (Runs-In p r)
  only-Ownership (p ∷ []) e =
      single p (In-Runs p (rw (← e) (inl refl)))
        λ q r. elim (rw (← e) at (Runs-In q r)) [ inl same ↦ same | inr no' ↦ absurd no' ]
  only-Ownership (p ∷ q ∷ rest) e =
      shared p q (In-Runs p (rw (← e) (inl refl))) (In-Runs q (rw (← e) (inr (inl refl))))
        (keep_distinct (λ r. r.pid) (runs_as task) t.next_pid t.processes p q rest v.keyed (sym e))

-- A task resolves to a process id exactly when one live process of the table runs as that task, and
-- then to that process; a task of no live process, or of two, resolves to none.
pub get_pid_by_task_id-Ownership :
    (t : ProcessTable) (task : ℕ) → IsValid t → Ownership t task (get_pid_by_task_id t task)
unfolding get_pid_by_task_id matches_of
get_pid_by_task_id-Ownership t task v = only-Ownership t task v _ refl
