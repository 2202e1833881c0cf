-- ===== src/Sched/MultiCore/Yielding.antt =====
-- Leaving a CPU: `dequeue` and `complete`, and the choice of `enqueue`.
use brane_os.Prelude.{
  ℕ, zero, suc, ◌+◌, ◌-◌, ◌%◌, ◌≤◌, ◌<◌, ◌≡◌, ◌≢◌, refl, ap, inl, inr, none, some, ltb, ◌==◌, arith,
  Bool-cases, Option-cases, Result-cases,
}
use native.Mathlib.Nat.{mod-lt}
use brane_os.Sched.RunQueue.{CpuRunQueue, queued, position, remove, is_excluded}
use brane_os.Sched.RunQueue.Order.{Taken, remove-Taken}
use brane_os.Sched.MultiCore.{
  MultiCoreScheduler, queue_of, runtime_of, stopped, is_owned, enqueue_at, least_loaded, select_cpu,
  enqueue, dequeue, complete,
}
use brane_os.Sched.MultiCore.Census.{count, count-erase, places, running_count, is_owned-places}
use brane_os.Sched.MultiCore.Ownership.{
  Exclusive, with_queue, queue-places, queue-Shape, runtime-places, same_queue-Exclusive,
  enqueue_at-Exclusive, stopped-Exclusive,
}

-- A queue that an id was taken from.
pub Taken-Exclusive :
    (s : MultiCoreScheduler) (cpu x : ℕ) (q : CpuRunQueue)
    → Exclusive s
    → cpu < s.cpu_count
    → Taken (queue_of s cpu) x q
    → Exclusive (with_queue s cpu q)
Taken-Exclusive s cpu x q v h t =
    let fewer : (y : ℕ) → count y (queued q) ≤ count y (queued (queue_of s cpu)) = λ y.
      omega
        (arith, ap (count y) t.rest, count-erase y x (queued (queue_of s cpu)) t.queued_before) in
    record {
      shape = queue-Shape s cpu q v.shape h t.valid;
      single = λ y. omega (arith, queue-places s cpu y q v.shape h, fewer y, v.single y);
      no_zero = omega (arith, queue-places s cpu 0 q v.shape h, fewer 0, v.no_zero);
    }

remove-Exclusive :
    (s : MultiCoreScheduler) (cpu x : ℕ)
    → Exclusive s
    → cpu < s.cpu_count
    → Exclusive (with_queue s cpu (remove (queue_of s cpu) x).1)
unfolding remove
remove-Exclusive s cpu x v h = elim (Option-cases (position x (queued (queue_of s cpu)))) [
  | inl e ↦ same_queue-Exclusive s cpu _ v h (rw (e, remove) refl)
  | inr (i, e) ↦
      Taken-Exclusive s cpu x _ v h (remove-Taken (queue_of s cpu) x i (v.shape.each cpu h) e)
]

pub dequeue-Exclusive :
    (s : MultiCoreScheduler) (cpu x : ℕ) → Exclusive s → Exclusive (dequeue s cpu x).1
unfolding dequeue
dequeue-Exclusive s cpu x v = elim (Bool-cases (ltb cpu s.cpu_count)) [
  | inr out ↦ rw (out, dequeue) v
  | inl active ↦ elim (Bool-cases (is_excluded x (runtime_of s cpu).current)) [
    | inl runs ↦ rw (active, runs, dequeue) (stopped-Exclusive s cpu v (ground arith))
    | inr not_running ↦
        rw (active, not_running, dequeue) (remove-Exclusive s cpu x v (ground arith))
  ]
]

-- The running task stands nowhere once it is stopped.
pub stopped-places :
    (s : MultiCoreScheduler) (cpu x : ℕ)
    → Exclusive s
    → cpu < s.cpu_count
    → (runtime_of s cpu).current ≡ some x
    → (places (stopped s cpu) x ≡ 0) × (x ≢ 0)
stopped-places s cpu x v h e =
    let runs : running_count x (runtime_of s cpu) ≡ 1 = rw e (ground arith) in
    let moved = runtime-places s cpu x (record (runtime_of s cpu) { current = none }) v.shape h in
    (
      omega (arith, moved, runs, v.single x),
      λ z. omega (arith, moved, runs, v.no_zero, ap (places s) z),
    )

pub complete-Exclusive :
    (s : MultiCoreScheduler) (cpu : ℕ) → Exclusive s → Exclusive (complete s cpu).1
unfolding complete
complete-Exclusive s cpu v = elim (Bool-cases (ltb cpu s.cpu_count)) [
  | inr out ↦ rw (out, complete) v
  | inl active ↦ elim (Option-cases (runtime_of s cpu).current) [
    | inl e ↦ rw (active, e, complete) v
    | inr (x, e) ↦
        let h : cpu < s.cpu_count = ground arith in
        let (free, nz) = stopped-places s cpu x v h e in
        let back =
          enqueue_at-Exclusive (stopped s cpu) cpu x (stopped-Exclusive s cpu v h) h nz free in
        elim (Result-cases (enqueue_at (stopped s cpu) cpu x).0) [
          | inl (_, r) ↦ rw (active, e, complete, r) back
          | inr (_, r) ↦ rw (active, e, complete, r) back
        ]
  ]
]

rotated-Exclusive :
    (s : MultiCoreScheduler) (n : ℕ) → Exclusive s → Exclusive (record s { next_assignment = n })
rotated-Exclusive s n v = record {
  shape = record {
    queues_room = v.shape.queues_room;
    runtime_room = v.shape.runtime_room;
    active = v.shape.active;
    fits = v.shape.fits;
    each = v.shape.each;
  };
  single = v.single;
  no_zero = v.no_zero;
}

least_loaded-lt :
    (s : MultiCoreScheduler) (offset k selected load : ℕ)
    → 0 < s.cpu_count
    → selected < s.cpu_count
    → least_loaded s offset k selected load < s.cpu_count
unfolding least_loaded
least_loaded-lt s offset zero selected load pos h = h
least_loaded-lt s offset (suc k) selected load pos h =
    least_loaded-lt s (offset + 1) k _ _ pos
      (ground (arith, mod-lt (s.next_assignment + offset) pos))

pub select_cpu-lt : (s : MultiCoreScheduler) → 0 < s.cpu_count → select_cpu s < s.cpu_count
unfolding select_cpu
select_cpu-lt s pos = least_loaded-lt s 1 (s.cpu_count - 1) _ _ pos (mod-lt s.next_assignment pos)

pub enqueue-Exclusive : (s : MultiCoreScheduler) (x : ℕ) → Exclusive s → Exclusive (enqueue s x).1
unfolding enqueue
enqueue-Exclusive s x v = elim (Bool-cases (x == 0)) [
  | inl z ↦ rw (z, enqueue) v
  | inr nz ↦ elim (Bool-cases (is_owned s x)) [
    | inl d ↦ rw (nz, d, enqueue) v
    | inr free ↦
        let placed =
          enqueue_at-Exclusive s (select_cpu s) x v (select_cpu-lt s v.shape.active)
            (λ z. ground arith) (is_owned-places s x free) in
        elim (Result-cases (enqueue_at s (select_cpu s) x).0) [
          | inl (_, r) ↦
              rw (nz, free, enqueue, r)
                (rotated-Exclusive _ ((select_cpu s + 1) % s.cpu_count) placed)
          | inr (_, r) ↦ rw (nz, free, enqueue, r) placed
        ]
  ]
]
