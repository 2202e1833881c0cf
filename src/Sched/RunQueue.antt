-- ===== src/Sched/RunQueue.antt =====
-- `CpuRunQueue` of kernel/src/sched.rs: an array of 64 task ids of which the first `len` are queued, and
-- a cursor into them.
pub mod Arrays
pub mod Order
pub mod Handoff
use brane_os.Prelude.{
  ℕ, zero, suc, ◌+◌, ◌-◌, ◌%◌, Bool, true, false, Option, none, some, List, [], ◌∷◌, ◌++◌, take,
  drop, replicate, set, get_or, Result, ok, err, ◌==◌, if◌then◌else◌,
}

pub data RunQueueError : Type 0 where
  invalid_cpu invalid_task full duplicate : RunQueueError

-- `MAX_RUN_QUEUE_TASKS`, which is `MAX_TASKS`.
abbrev pub max_run_queue_tasks : ℕ
max_run_queue_tasks = 64

pub record CpuRunQueue : Type 0 where
  pub tasks : List ℕ
  pub len : ℕ
  pub cursor : ℕ

unfoldable pub new : CpuRunQueue
new = record { tasks = replicate max_run_queue_tasks 0; len = 0; cursor = 0 }

unfoldable pub is_empty : CpuRunQueue → Bool
is_empty q = q.len == 0

-- The queued ids, `tasks[..len]`.
abbrev pub queued : CpuRunQueue → List ℕ
queued q = take q.len q.tasks

-- `slice::contains`.
abbrev pub member : ℕ → List ℕ → Bool
member x [] = false
member x (y ∷ ys) = if y == x then true else member x ys

-- `Iterator::position` of an id.
abbrev pub position : ℕ → List ℕ → Option ℕ
position x [] = none
position x (y ∷ ys) =
    if y == x then some 0 else elim (position x ys) [ some i ↦ some (suc i) | none ↦ none ]

-- `CpuRunQueue::contains`.
unfoldable pub contains : CpuRunQueue → ℕ → Bool
contains q task_id = member task_id (queued q)

-- `CpuRunQueue::enqueue`.
unfoldable pub enqueue : CpuRunQueue → ℕ → Result (Unit {0}) RunQueueError × CpuRunQueue
unfolding contains
enqueue q task_id =
    if task_id == 0
    then (err invalid_task, q)
    else if contains q task_id
    then (err duplicate, q)
    else if q.len == max_run_queue_tasks
    then (err full, q)
    else (ok tt, record q { tasks = set q.tasks q.len task_id; len = q.len + 1 })

-- `copy_within(index + 1..len, index)`.
abbrev pub shift_down : List ℕ → ℕ → ℕ → List ℕ
shift_down xs index len = take index xs ++ drop (index + 1) (take len xs) ++ drop (len - 1) xs

-- The queue of `remove` without the id at an index.
unfoldable pub without : CpuRunQueue → ℕ → CpuRunQueue
without q index =
    let len = q.len - 1 in
    record {
      tasks = set (shift_down q.tasks index q.len) len 0;
      len = len;
      cursor = if len == 0 then 0 else q.cursor % len;
    }

-- `CpuRunQueue::remove`.
unfoldable pub remove : CpuRunQueue → ℕ → Bool × CpuRunQueue
unfolding without
remove q task_id = elim (position task_id (queued q)) [
  | none ↦ (false, q)
  | some index ↦ (true, without q index)
]

-- `CpuRunQueue::next`.
unfoldable pub next : CpuRunQueue → Option ℕ × CpuRunQueue
next q =
    if q.len == 0
    then (none, q)
    else (some (get_or q.tasks (q.cursor % q.len) 0), record q { cursor = (q.cursor + 1) % q.len })

-- `CpuRunQueue::pop_next`.
unfoldable pub pop_next : CpuRunQueue → Option ℕ × CpuRunQueue
unfolding next remove
pop_next q =
    let (answer, moved) = next q in
    elim answer [ some task_id ↦ (some task_id, (remove moved task_id).1) | none ↦ (none, moved) ]

-- `Some(task_id) == excluded`.
abbrev pub is_excluded : ℕ → Option ℕ → Bool
is_excluded task_id (some x) = task_id == x
is_excluded task_id none = false

-- The loop of `pop_next_excluding` with some attempts left.
unfoldable pub pop_from : Option ℕ → ℕ → CpuRunQueue → Option ℕ × CpuRunQueue
unfolding next remove
pop_from excluded zero q = (none, q)
pop_from excluded (suc attempts) q =
    let (answer, moved) = next q in
    let rest = pop_from excluded attempts moved in
    elim answer [
      | some task_id ↦
          if is_excluded task_id excluded then rest else (some task_id, (remove moved task_id).1)
      | none ↦ (none, moved)
    ]

-- `CpuRunQueue::pop_next_excluding`.
unfoldable pub pop_next_excluding : CpuRunQueue → Option ℕ → Option ℕ × CpuRunQueue
unfolding pop_from
pop_next_excluding q excluded = pop_from excluded q.len q
