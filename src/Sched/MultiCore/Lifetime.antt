-- ===== src/Sched/MultiCore/Lifetime.antt =====
-- Sequences of operations on the scheduler, from boot on.
use brane_os.Prelude.{
  ℕ, zero, suc, ◌≤◌, ◌<◌, ◌≡◌, ◌∙◌, refl, sym, ap, subst, Option, none, some, List, [], ◌∷◌, take,
  replicate, min, max, arith, length-replicate, get_or-replicate,
}
use brane_os.Sched.RunQueue
use brane_os.Sched.RunQueue.Order
use brane_os.Sched.MultiCore.{
  MultiCoreScheduler, new, idle, configure, max_cpus, enqueue, enqueue_on_cpu, dequeue, complete,
}
use brane_os.Sched.MultiCore.Census.{total, queue_count, running_count, places}
use brane_os.Sched.MultiCore.Ownership.{Exclusive, enqueue_on_cpu-Exclusive}
use brane_os.Sched.MultiCore.Yielding.{enqueue-Exclusive, dequeue-Exclusive, complete-Exclusive}
use brane_os.Sched.MultiCore.Dispatch.{dispatch}
use brane_os.Sched.MultiCore.Dispatch.Running.{dispatch_lem}

pub data Operation : Type 0 where
  configures assigns completes dispatches : ℕ → Operation
  assigns_to withdraws : ℕ → ℕ → Operation

-- The scheduler after an operation, unless that panics.
unfoldable pub step : MultiCoreScheduler → Operation → Option MultiCoreScheduler
step s (configures n) = some (configure s n).1
step s (assigns x) = some (enqueue s x).1
step s (assigns_to cpu x) = some (enqueue_on_cpu s cpu x).1
step s (withdraws cpu x) = some (dequeue s cpu x).1
step s (completes cpu) = some (complete s cpu).1
step s (dispatches cpu) = elim (dispatch s cpu) [ some (_, u) ↦ some u | none ↦ none ]

-- The operations in a row.
abbrev pub after : List Operation → Option MultiCoreScheduler → Option MultiCoreScheduler
after ops none = none
after [] (some s) = some s
after (op ∷ ops) (some s) = after ops (step s op)

total-replicate :
    {A : Type 0} (weight : A → ℕ) (n m : ℕ) (a : A)
    → weight a ≡ 0
    → total weight (take n (replicate m a)) ≡ 0
unfolding replicate
total-replicate weight zero m a e = refl
total-replicate weight (suc n) zero a e = refl
total-replicate weight (suc n) (suc m) a e = omega (arith, e, total-replicate weight n m a e)

empty-Exclusive :
    (n next : ℕ)
    → 0 < n
    → n ≤ max_cpus
    → Exclusive (record {
      queues = replicate max_cpus RunQueue.new;
      runtime = replicate max_cpus idle;
      cpu_count = n;
      next_assignment = next;
    })
unfolding idle RunQueue.new
empty-Exclusive n next pos fits = record {
  shape = record {
    queues_room = length-replicate max_cpus RunQueue.new;
    runtime_room = length-replicate max_cpus idle;
    active = pos;
    fits = fits;
    each = λ cpu h.
        subst Order.IsValid (sym (get_or-replicate max_cpus cpu RunQueue.new))
          (record { room = length-replicate RunQueue.max_run_queue_tasks 0; fits = omega arith });
  };
  single = λ x. omega (
    arith,
    total-replicate (queue_count x) n max_cpus RunQueue.new refl,
    total-replicate (running_count x) n max_cpus idle refl,
  );
  no_zero = omega (
    arith,
    total-replicate (queue_count 0) n max_cpus RunQueue.new refl,
    total-replicate (running_count 0) n max_cpus idle refl,
  );
}

step-Exclusive :
    (s : MultiCoreScheduler) (op : Operation)
    → Exclusive s
    → (u : MultiCoreScheduler) × (step s op ≡ some u) × Exclusive u
unfolding step configure
step-Exclusive s (configures n) v =
    (_, refl, empty-Exclusive (min (max n 1) max_cpus) 0 (omega arith) (omega arith))
step-Exclusive s (assigns x) v = (_, refl, enqueue-Exclusive s x v)
step-Exclusive s (assigns_to cpu x) v = (_, refl, enqueue_on_cpu-Exclusive s cpu x v)
step-Exclusive s (withdraws cpu x) v = (_, refl, dequeue-Exclusive s cpu x v)
step-Exclusive s (completes cpu) v = (_, refl, complete-Exclusive s cpu v)
step-Exclusive s (dispatches cpu) v =
    let (r, u, e, w) = dispatch_lem s cpu v in (u, rw (e, step) refl, w)

after-Exclusive :
    (s : MultiCoreScheduler) (ops : List Operation)
    → Exclusive s
    → (u : MultiCoreScheduler) × (after ops (some s) ≡ some u) × Exclusive u
after-Exclusive s [] v = (s, refl, v)
after-Exclusive s (op ∷ ops) v =
    let (u, e, w) = step-Exclusive s op v in
    let (z, f, x) = after-Exclusive u ops w in (z, ap (after ops) e ∙ f, x)

-- Whatever operations follow boot, in whatever order and with whatever CPU numbers and task ids (the
-- CPUs configured, tasks assigned, withdrawn, completed, dispatched, with steals on the way): none of
-- them panics, and then each task id stands in at most one place of the active CPUs, one queue or one
-- running slot, and zero in none.
pub never_in_two_places :
    (ops : List Operation)
    → (u : MultiCoreScheduler) × (after ops (some new) ≡ some u)
      × ((x : ℕ) → places u x ≤ 1)
      × (places u 0 ≡ 0)
unfolding new
never_in_two_places ops =
    let (u, e, v) = after-Exclusive new ops (empty-Exclusive 1 0 (omega arith) (omega arith)) in
    (u, e, v.single, v.no_zero)
