-- ===== src/Sched/MultiCore/Ownership.antt =====
-- Each operation keeps every task id in at most one place.
use brane_os.Prelude.{
  ℕ, ◌+◌, ◌≤◌, ◌<◌, ◌≡◌, ◌≢◌, ◌∙◌, sym, ap, subst, inl, inr, none, [], ◌∷◌, ◌++◌, get_or, set,
  length, length-set, get_or-set_self, get_or-set_ne, ltb, ◌==◌, if◌then◌else◌, arith, Bool-cases,
  ℕ_discrete,
}
use brane_os.Sched.RunQueue
use brane_os.Sched.RunQueue.{CpuRunQueue, RunQueueError, queued, member}
use brane_os.Sched.RunQueue.Order
use brane_os.Sched.RunQueue.Order.{enqueue_lem}
use brane_os.Sched.MultiCore.{
  CpuRuntimeSnapshot, MultiCoreScheduler, max_cpus, idle, queue_of, runtime_of, stopped, is_owned,
  enqueue_at, enqueue_on_cpu,
}
use brane_os.Sched.MultiCore.Census.{
  count, count-append, total-set, queue_count, running_count, places, is_owned-places,
}

-- The arrays have their size, some CPU is active, and each active CPU's queue is valid.
pub record Shape (s : MultiCoreScheduler) : Type 0 where
  pub queues_room : length s.queues ≡ max_cpus
  pub runtime_room : length s.runtime ≡ max_cpus
  pub active : 0 < s.cpu_count
  pub fits : s.cpu_count ≤ max_cpus
  pub each : (cpu : ℕ) → cpu < s.cpu_count → Order.IsValid (queue_of s cpu)

-- Each id stands in at most one place, and zero in none.
pub record Exclusive (s : MultiCoreScheduler) : Type 0 where
  pub shape : Shape s
  pub single : (x : ℕ) → places s x ≤ 1
  pub no_zero : places s 0 ≡ 0

abbrev pub with_queue : MultiCoreScheduler → ℕ → CpuRunQueue → MultiCoreScheduler
with_queue s cpu q = record s { queues = set s.queues cpu q }

abbrev pub with_runtime : MultiCoreScheduler → ℕ → CpuRuntimeSnapshot → MultiCoreScheduler
with_runtime s cpu r = record s { runtime = set s.runtime cpu r }

pub queue-places :
    (s : MultiCoreScheduler) (cpu x : ℕ) (q : CpuRunQueue)
    → Shape s
    → cpu < s.cpu_count
    → places (with_queue s cpu q) x + count x (queued (queue_of s cpu))
      ≡ places s x + count x (queued q)
queue-places s cpu x q v h = omega (
  arith,
  total-set (queue_count x) s.queues s.cpu_count cpu q RunQueue.new h
      (omega (arith, h, v.fits, v.queues_room)),
)

pub runtime-places :
    (s : MultiCoreScheduler) (cpu x : ℕ) (r : CpuRuntimeSnapshot)
    → Shape s
    → cpu < s.cpu_count
    → places (with_runtime s cpu r) x + running_count x (runtime_of s cpu)
      ≡ places s x + running_count x r
runtime-places s cpu x r v h = omega (
  arith,
  total-set (running_count x) s.runtime s.cpu_count cpu r idle h
      (omega (arith, h, v.fits, v.runtime_room)),
)

pub queue-Shape :
    (s : MultiCoreScheduler) (cpu : ℕ) (q : CpuRunQueue)
    → Shape s
    → cpu < s.cpu_count
    → Order.IsValid q
    → Shape (with_queue s cpu q)
queue-Shape s cpu q v h valid = record {
  queues_room = length-set s.queues cpu q ∙ v.queues_room;
  runtime_room = v.runtime_room;
  active = v.active;
  fits = v.fits;
  each = λ j l. elim (ℕ_discrete cpu j) [
    | yes here ↦
        subst (λ c. Order.IsValid (get_or (set s.queues cpu q) c RunQueue.new)) here
          (subst Order.IsValid
            (sym (
              get_or-set_self s.queues cpu q RunQueue.new
                (omega (arith, h, v.fits, v.queues_room))))
            valid)
    | no other ↦
        subst Order.IsValid (sym (get_or-set_ne s.queues cpu j q RunQueue.new other)) (v.each j l)
  ];
}

pub runtime-Shape :
    (s : MultiCoreScheduler) (cpu : ℕ) (r : CpuRuntimeSnapshot)
    → Shape s
    → Shape (with_runtime s cpu r)
runtime-Shape s cpu r v = record {
  queues_room = v.queues_room;
  runtime_room = length-set s.runtime cpu r ∙ v.runtime_room;
  active = v.active;
  fits = v.fits;
  each = v.each;
}

-- The same queue again changes no place.
pub same_queue-Exclusive :
    (s : MultiCoreScheduler) (cpu : ℕ) (q : CpuRunQueue)
    → Exclusive s
    → cpu < s.cpu_count
    → q ≡ queue_of s cpu
    → Exclusive (with_queue s cpu q)
same_queue-Exclusive s cpu q v h e =
    let kept : (y : ℕ) → count y (queued q) ≡ count y (queued (queue_of s cpu)) =
      λ y. ap (λ p. count y (queued p)) e in
    record {
      shape = queue-Shape s cpu q v.shape h (subst Order.IsValid (sym e) (v.shape.each cpu h));
      single = λ y. omega (arith, queue-places s cpu y q v.shape h, kept y, v.single y);
      no_zero = omega (arith, queue-places s cpu 0 q v.shape h, kept 0, v.no_zero);
    }

grown-places :
    (s : MultiCoreScheduler) (cpu x y : ℕ) (q : CpuRunQueue)
    → Shape s
    → cpu < s.cpu_count
    → queued q ≡ queued (queue_of s cpu) ++ (x ∷ [])
    → places (with_queue s cpu q) y ≡ places s y + (if x == y then 1 else 0)
grown-places s cpu x y q v h order = omega (
  arith,
  queue-places s cpu y q v h,
  ap (count y) order,
  count-append y (queued (queue_of s cpu)) x,
)

pub one_more :
    (s : MultiCoreScheduler) (x y : ℕ)
    → ((z : ℕ) → places s z ≤ 1)
    → places s x ≡ 0
    → places s y + (if x == y then 1 else 0) ≤ 1
one_more s x y single free = elim (ℕ_discrete x y) [
  | yes same ↦ subst (λ z. places s z + (if x == z then 1 else 0) ≤ 1) same (ground (arith, free))
  | no other ↦ ground (arith, single y)
]

-- An id that is not zero and stands nowhere can be queued on an active CPU.
pub enqueue_at-Exclusive :
    (s : MultiCoreScheduler) (cpu x : ℕ)
    → Exclusive s
    → cpu < s.cpu_count
    → x ≢ 0
    → places s x ≡ 0
    → Exclusive (enqueue_at s cpu x).1
unfolding enqueue_at
enqueue_at-Exclusive s cpu x v h nz free =
    let q = (RunQueue.enqueue (queue_of s cpu) x).1 in
    elim (enqueue_lem (queue_of s cpu) x (v.shape.each cpu h)) [
      | inl (r, z, m, order, valid) ↦ record {
        shape = queue-Shape s cpu q v.shape h valid;
        single = λ y.
            subst (λ n. n ≤ 1) (sym (grown-places s cpu x y q v.shape h order))
              (one_more s x y v.single free);
        no_zero = grown-places s cpu x 0 q v.shape h order ∙ ground (arith, v.no_zero, nz);
      }
      | inr (same, e) ↦ same_queue-Exclusive s cpu q v h same
    ]

pub enqueue_on_cpu-Exclusive :
    (s : MultiCoreScheduler) (cpu x : ℕ) → Exclusive s → Exclusive (enqueue_on_cpu s cpu x).1
unfolding enqueue_on_cpu
enqueue_on_cpu-Exclusive s cpu x v = elim (Bool-cases (ltb cpu s.cpu_count)) [
  | inr out ↦ rw (out, enqueue_on_cpu) v
  | inl active ↦ elim (Bool-cases (x == 0)) [
    | inl z ↦ rw (active, z, enqueue_on_cpu) v
    | inr nz ↦ elim (Bool-cases (is_owned s x)) [
      | inl d ↦ rw (active, nz, d, enqueue_on_cpu) v
      | inr free ↦
          rw (active, nz, free, enqueue_on_cpu)
            (enqueue_at-Exclusive s cpu x v (ground arith) (λ z. ground arith)
              (is_owned-places s x free))
    ]
  ]
]

-- A running task can be stopped.
pub stopped-Exclusive :
    (s : MultiCoreScheduler) (cpu : ℕ) → Exclusive s → cpu < s.cpu_count → Exclusive (stopped s cpu)
stopped-Exclusive s cpu v h =
    let r = record (runtime_of s cpu) { current = none } in
    record {
      shape = runtime-Shape s cpu r v.shape;
      single = λ y. omega (arith, runtime-places s cpu y r v.shape h, v.single y);
      no_zero = omega (arith, runtime-places s cpu 0 r v.shape h, v.no_zero);
    }
