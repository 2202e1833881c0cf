-- ===== src/Sched/MultiCore.antt =====
-- `MultiCoreScheduler` of kernel/src/sched.rs: a run queue and a running task for each CPU.
-- Stealing and dispatch are in Dispatch.
pub mod Census
pub mod Ownership
pub mod Yielding
pub mod Dispatch
pub mod Lifetime
use brane_os.Prelude.{
  ℕ, zero, suc, ◌+◌, ◌-◌, ◌%◌, min, max, Bool, true, false, ◌||◌, not, Option, none, some, List, [],
  ◌∷◌, take, replicate, get_or, set, Result, ok, err, ltb, ◌==◌, if◌then◌else◌,
}
use brane_os.Sched.RunQueue
use brane_os.Sched.RunQueue.{
  CpuRunQueue, RunQueueError, invalid_cpu, invalid_task, duplicate, contains, is_excluded, remove,
}

-- `CpuRuntimeSnapshot`.
pub record CpuRuntimeSnapshot : Type 0 where
  pub current : Option ℕ
  pub dispatches : ℕ
  pub steals : ℕ
  pub idle_dispatches : ℕ

unfoldable pub idle : CpuRuntimeSnapshot
idle = record { current = none; dispatches = 0; steals = 0; idle_dispatches = 0 }

abbrev pub max_cpus : ℕ
max_cpus = 32

pub record MultiCoreScheduler : Type 0 where
  pub queues : List CpuRunQueue
  pub runtime : List CpuRuntimeSnapshot
  pub cpu_count : ℕ
  pub next_assignment : ℕ

unfoldable pub new : MultiCoreScheduler
new = record {
  queues = replicate max_cpus RunQueue.new;
  runtime = replicate max_cpus idle;
  cpu_count = 1;
  next_assignment = 0;
}

-- `MultiCoreScheduler::configure`.
unfoldable pub configure : MultiCoreScheduler → ℕ → ℕ × MultiCoreScheduler
configure s cpu_count =
    let count = min (max cpu_count 1) max_cpus in
    (
      count,
      record {
        queues = replicate max_cpus RunQueue.new;
        runtime = replicate max_cpus idle;
        cpu_count = count;
        next_assignment = 0;
      },
    )

-- The queue of a CPU.
abbrev pub queue_of : MultiCoreScheduler → ℕ → CpuRunQueue
queue_of s cpu = get_or s.queues cpu RunQueue.new

-- The runtime of a CPU.
abbrev pub runtime_of : MultiCoreScheduler → ℕ → CpuRuntimeSnapshot
runtime_of s cpu = get_or s.runtime cpu idle

abbrev pub any_contains : ℕ → List CpuRunQueue → Bool
any_contains task_id [] = false
any_contains task_id (q ∷ qs) = contains q task_id || any_contains task_id qs

-- `runtime.current == Some(task_id)` on some CPU.
abbrev pub any_runs : ℕ → List CpuRuntimeSnapshot → Bool
any_runs task_id [] = false
any_runs task_id (r ∷ rs) = is_excluded task_id r.current || any_runs task_id rs

-- The duplicate test of `enqueue` and `enqueue_on_cpu`.
unfoldable pub is_owned : MultiCoreScheduler → ℕ → Bool
is_owned s task_id =
    any_contains task_id (take s.cpu_count s.queues)
    || any_runs task_id (take s.cpu_count s.runtime)

-- The call of `CpuRunQueue::enqueue` on a CPU's queue.
unfoldable pub enqueue_at :
    MultiCoreScheduler → ℕ → ℕ → Result (Unit {0}) RunQueueError × MultiCoreScheduler
enqueue_at s cpu task_id =
    let (r, q) = RunQueue.enqueue (queue_of s cpu) task_id in
    (r, record s { queues = set s.queues cpu q })

-- The loop of `enqueue` that selects the CPU with the least load, `k` offsets left.
unfoldable pub least_loaded : MultiCoreScheduler → ℕ → ℕ → ℕ → ℕ → ℕ
least_loaded s offset zero selected selected_load = selected
least_loaded s offset (suc k) selected selected_load =
    let candidate = (s.next_assignment + offset) % s.cpu_count in
    let load = (queue_of s candidate).len in
    let better = ltb load selected_load in
    least_loaded s (offset + 1) k (if better then candidate else selected)
      (if better then load else selected_load)

unfoldable pub select_cpu : MultiCoreScheduler → ℕ
unfolding least_loaded
select_cpu s =
    let first = s.next_assignment % s.cpu_count in
    least_loaded s 1 (s.cpu_count - 1) first (queue_of s first).len

-- `MultiCoreScheduler::enqueue`.
unfoldable pub enqueue : MultiCoreScheduler → ℕ → Result ℕ RunQueueError × MultiCoreScheduler
unfolding is_owned select_cpu enqueue_at
enqueue s task_id =
    if task_id == 0
    then (err invalid_task, s)
    else if is_owned s task_id
    then (err duplicate, s)
    else (let selected = select_cpu s in
        let (r, u) = enqueue_at s selected task_id in
        elim r [
          | ok _ ↦ (ok selected, record u { next_assignment = (selected + 1) % s.cpu_count })
          | err e ↦ (err e, u)
        ])

-- `MultiCoreScheduler::enqueue_on_cpu`.
unfoldable pub enqueue_on_cpu :
    MultiCoreScheduler → ℕ → ℕ → Result (Unit {0}) RunQueueError × MultiCoreScheduler
unfolding is_owned enqueue_at
enqueue_on_cpu s cpu task_id =
    if not (ltb cpu s.cpu_count)
    then (err invalid_cpu, s)
    else if task_id == 0
    then (err invalid_task, s)
    else if is_owned s task_id
    then (err duplicate, s)
    else enqueue_at s cpu task_id

-- A CPU without a running task.
abbrev pub stopped : MultiCoreScheduler → ℕ → MultiCoreScheduler
stopped s cpu = record s {
  runtime = set s.runtime cpu (record (runtime_of s cpu) { current = none });
}

-- `MultiCoreScheduler::dequeue`.
unfoldable pub dequeue : MultiCoreScheduler → ℕ → ℕ → Result Bool RunQueueError × MultiCoreScheduler
dequeue s cpu task_id =
    if not (ltb cpu s.cpu_count)
    then (err invalid_cpu, s)
    else if is_excluded task_id (runtime_of s cpu).current
    then (ok true, stopped s cpu)
    else (let (r, q) = remove (queue_of s cpu) task_id in
        (ok r, record s { queues = set s.queues cpu q }))

-- `MultiCoreScheduler::complete`.
unfoldable pub complete :
    MultiCoreScheduler → ℕ → Result (Option ℕ) RunQueueError × MultiCoreScheduler
unfolding enqueue_at
complete s cpu =
    if not (ltb cpu s.cpu_count) then (err invalid_cpu, s) else elim (runtime_of s cpu).current [
      | none ↦ (ok none, s)
      | some task_id ↦
          (let (r, u) = enqueue_at (stopped s cpu) cpu task_id in
            elim r [ ok _ ↦ (ok (some task_id), u) | err e ↦ (err e, u) ])
    ]
