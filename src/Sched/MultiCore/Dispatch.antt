-- ===== src/Sched/MultiCore/Dispatch.antt =====
-- `steal` and `dispatch` of `MultiCoreScheduler`. The `expect` of `steal` is a panic: no result.
pub mod Stealing
pub mod Running
use brane_os.Prelude.{
  ℕ, zero, suc, ◌+◌, ◌-◌, Bool, true, false, ◌&&◌, not, add_u64, Option, none, some, Result, ok,
  err, get_or, set, ltb, ◌==◌, if◌then◌else◌,
}
use brane_os.Sched.RunQueue
use brane_os.Sched.RunQueue.{
  CpuRunQueue, RunQueueError, full, max_run_queue_tasks, remove, pop_next_excluding,
}
use brane_os.Sched.MultiCore.{
  MultiCoreScheduler, CpuRuntimeSnapshot, queue_of, runtime_of, enqueue_at, complete,
}

pub data DispatchResult : Type 0 where
  dispatched stole : ℕ → DispatchResult
  idle invalid_cpu : DispatchResult
  busy : ℕ → DispatchResult

-- `filter`: another CPU's queue with tasks.
abbrev pub is_victim : MultiCoreScheduler → ℕ → ℕ → Bool
is_victim s thief cpu = not (cpu == thief) && not ((queue_of s cpu).len == 0)

-- `max_by_key` with one more candidate: the longer queue, the earlier of two equals.
unfoldable pub better_of : MultiCoreScheduler → ℕ → ℕ → Option ℕ → Option ℕ
better_of s thief cpu best =
    if is_victim s thief cpu
    then elim best [
      | none ↦ some cpu
      | some b ↦ if ltb (queue_of s b).len (queue_of s cpu).len then some cpu else some b
    ]
    else best

-- The CPUs from `cpu` on, `k` of them left.
unfoldable pub busiest_from : MultiCoreScheduler → ℕ → ℕ → ℕ → Option ℕ → Option ℕ
busiest_from s thief cpu zero best = best
busiest_from s thief cpu (suc k) best =
    busiest_from s thief (cpu + 1) k (better_of s thief cpu best)

-- The move of `steal` from a victim.
unfoldable pub steal_from :
    MultiCoreScheduler → ℕ → ℕ → Option (Result (Option ℕ) RunQueueError × MultiCoreScheduler)
unfolding enqueue_at
steal_from s thief victim =
    let task_id = get_or (queue_of s victim).tasks 0 0 in
    let robbed = record s { queues = set s.queues victim (remove (queue_of s victim) task_id).1 } in
    let (r, u) = enqueue_at robbed thief task_id in
    elim r [ ok _ ↦ some (ok (some task_id), u) | err _ ↦ none ]

-- `MultiCoreScheduler::steal`.
unfoldable pub steal :
    MultiCoreScheduler → ℕ → Option (Result (Option ℕ) RunQueueError × MultiCoreScheduler)
unfolding busiest_from steal_from
steal s thief =
    if not (ltb thief s.cpu_count)
    then some (err RunQueue.invalid_cpu, s)
    else if (queue_of s thief).len == max_run_queue_tasks
    then some (err full, s)
    else elim (busiest_from s thief 0 s.cpu_count none) [
      | none ↦ some (ok none, s)
      | some victim ↦ steal_from s thief victim
    ]

-- A CPU that starts a task, with the steals to add.
unfoldable pub start : MultiCoreScheduler → ℕ → ℕ → ℕ → MultiCoreScheduler
start s cpu task_id steals =
    let r = runtime_of s cpu in
    record s {
      runtime = set s.runtime cpu (record r {
        current = some task_id;
        dispatches = add_u64 r.dispatches 1;
        steals = add_u64 r.steals steals;
      });
    }

-- A CPU that found nothing to run.
unfoldable pub go_idle : MultiCoreScheduler → ℕ → MultiCoreScheduler
go_idle s cpu =
    let r = runtime_of s cpu in
    record s {
      runtime = set s.runtime cpu (record r { idle_dispatches = add_u64 r.idle_dispatches 1 });
    }

-- `unwrap_or`.
abbrev pub or_else : Option ℕ → ℕ → ℕ
or_else (some a) b = a
or_else none b = b

-- The queue of a CPU after a selection from it.
abbrev pub popped : MultiCoreScheduler → ℕ → Option ℕ → MultiCoreScheduler
popped s cpu excluded = record s {
  queues = set s.queues cpu (pop_next_excluding (queue_of s cpu) excluded).1;
}

-- A dispatch after a steal.
unfoldable pub dispatch_stolen :
    MultiCoreScheduler
    → ℕ
    → Option ℕ
    → Option (Result (Option ℕ) RunQueueError × MultiCoreScheduler)
    → Option (DispatchResult × MultiCoreScheduler)
unfolding start go_idle
dispatch_stolen s cpu excluded none = none
dispatch_stolen s cpu excluded (some (err _, u)) = some (idle, go_idle u cpu)
dispatch_stolen s cpu excluded (some (ok none, u)) = some (idle, go_idle u cpu)
dispatch_stolen s cpu excluded (some (ok (some task_id), u)) =
    let selected = or_else (pop_next_excluding (queue_of u cpu) excluded).0 task_id in
    some (stole selected, start (popped u cpu excluded) cpu selected 1)

-- `MultiCoreScheduler::dispatch_excluding_mode`.
unfoldable pub dispatch_excluding_mode :
    MultiCoreScheduler → ℕ → Option ℕ → Bool → Option (DispatchResult × MultiCoreScheduler)
unfolding steal dispatch_stolen start go_idle
dispatch_excluding_mode s cpu excluded allow_steal =
    if not (ltb cpu s.cpu_count) then some (invalid_cpu, s) else elim (runtime_of s cpu).current [
      | some task_id ↦ some (busy task_id, s)
      | none ↦ elim (pop_next_excluding (queue_of s cpu) excluded).0 [
        | some task_id ↦ some (dispatched task_id, start (popped s cpu excluded) cpu task_id 0)
        | none ↦
            if allow_steal
            then dispatch_stolen s cpu excluded (steal (popped s cpu excluded) cpu)
            else some (idle, go_idle (popped s cpu excluded) cpu)
      ]
    ]

-- `MultiCoreScheduler::dispatch`.
unfoldable pub dispatch : MultiCoreScheduler → ℕ → Option (DispatchResult × MultiCoreScheduler)
unfolding dispatch_excluding_mode
dispatch s cpu = dispatch_excluding_mode s cpu none true
