-- ===== src/Sched/MultiCore/Dispatch/Running.antt =====
-- A dispatch keeps every task in at most one place.
use brane_os.Prelude.{
  ℕ, ◌<◌, ◌≡◌, ◌≢◌, ◌∙◌, refl, sym, ap, subst, inl, inr, Option, none, some, ltb, if◌then◌else◌,
  arith, Bool-cases, Option-cases, ok, ◌==◌, length,
}
use brane_os.Sched.RunQueue.{CpuRunQueue, queued, is_excluded}
use brane_os.Sched.RunQueue.Order
use brane_os.Sched.RunQueue.Order.{Taken}
use brane_os.Sched.RunQueue.Handoff.{pop_next_excluding_lem}
use brane_os.Sched.MultiCore.{MultiCoreScheduler, CpuRuntimeSnapshot, queue_of, runtime_of}
use brane_os.Sched.MultiCore.Census.{count, places, running_count}
use brane_os.Sched.MultiCore.Ownership.{
  Exclusive, with_queue, with_runtime, queue-places, queue-Shape, runtime-places, runtime-Shape,
  one_more,
}
use brane_os.Sched.MultiCore.Yielding.{Taken-Exclusive}
use brane_os.Sched.MultiCore.Dispatch.{
  DispatchResult, busy, stole, idle, invalid_cpu, dispatched, start, go_idle, popped, steal,
  dispatch_stolen, dispatch_excluding_mode, dispatch,
}
use brane_os.Sched.MultiCore.Dispatch.Stealing.{robbed-places, steal_lem}

runtime-Exclusive :
    (s : MultiCoreScheduler) (cpu : ℕ) (r : CpuRuntimeSnapshot)
    → Exclusive s
    → cpu < s.cpu_count
    → r.current ≡ (runtime_of s cpu).current
    → Exclusive (with_runtime s cpu r)
runtime-Exclusive s cpu r v h e =
    let share : (y : ℕ) → running_count y r ≡ running_count y (runtime_of s cpu) =
      λ y. ap (λ c. if is_excluded y c then 1 else 0) e in
    record {
      shape = runtime-Shape s cpu r v.shape;
      single = λ y. omega (arith, runtime-places s cpu y r v.shape h, share y, v.single y);
      no_zero = omega (arith, runtime-places s cpu 0 r v.shape h, share 0, v.no_zero);
    }

share_of :
    (x y : ℕ) (r : CpuRuntimeSnapshot)
    → r.current ≡ some x
    → running_count y r ≡ (if x == y then 1 else 0)
share_of x y r e = ap (λ c. if is_excluded y c then 1 else 0) e ∙ ground arith

run-Exclusive :
    (s : MultiCoreScheduler) (cpu x : ℕ) (r : CpuRuntimeSnapshot)
    → Exclusive s
    → cpu < s.cpu_count
    → x ≢ 0
    → places s x ≡ 0
    → r.current ≡ some x
    → Exclusive (with_runtime s cpu r)
run-Exclusive s cpu x r v h nz free e =
    let other : ◌≡◌ {A = ℕ} (if x == 0 then 1 else 0) 0 = ground (arith, nz) in
    record {
      shape = runtime-Shape s cpu r v.shape;
      single = λ y. omega (
        arith,
        runtime-places s cpu y r v.shape h,
        share_of x y r e,
        one_more s x y v.single free,
      );
      no_zero =
          omega (arith, runtime-places s cpu 0 r v.shape h, share_of x 0 r e, other, v.no_zero);
    }

-- A CPU can start an id that is not zero and stands nowhere.
start-Exclusive :
    (s : MultiCoreScheduler) (cpu x n : ℕ)
    → Exclusive s
    → cpu < s.cpu_count
    → x ≢ 0
    → places s x ≡ 0
    → Exclusive (start s cpu x n)
unfolding start
start-Exclusive s cpu x n v h nz free = run-Exclusive s cpu x _ v h nz free refl

go_idle-Exclusive :
    (s : MultiCoreScheduler) (cpu : ℕ) → Exclusive s → cpu < s.cpu_count → Exclusive (go_idle s cpu)
unfolding go_idle
go_idle-Exclusive s cpu v h = runtime-Exclusive s cpu _ v h refl

-- A selected task starts; a selection that finds none keeps the places.
started-Exclusive :
    (s : MultiCoreScheduler) (cpu x n : ℕ) (q : CpuRunQueue)
    → Exclusive s
    → cpu < s.cpu_count
    → Taken (queue_of s cpu) x q
    → Exclusive (start (with_queue s cpu q) cpu x n)
started-Exclusive s cpu x n q v h t =
    let (free, nz) = robbed-places s cpu x q v h t in
    start-Exclusive (with_queue s cpu q) cpu x n (Taken-Exclusive s cpu x q v h t) h nz free

unselected-Exclusive :
    (s : MultiCoreScheduler) (cpu : ℕ) (q : CpuRunQueue)
    → Exclusive s
    → cpu < s.cpu_count
    → queued q ≡ queued (queue_of s cpu)
    → Order.IsValid q
    → Exclusive (with_queue s cpu q)
unselected-Exclusive s cpu q v h e valid =
    let kept : (y : ℕ) → count y (queued q) ≡ count y (queued (queue_of s cpu)) =
      λ y. ap (count y) e in
    record {
      shape = queue-Shape s cpu q v.shape h valid;
      single = λ y. omega (arith, queue-places s cpu y q v.shape h, kept y, v.single y);
      no_zero = omega (arith, queue-places s cpu 0 q v.shape h, kept 0, v.no_zero);
    }

-- A selection without an excluded task, and what follows it.
abbrev pub Dispatches : Option (DispatchResult × MultiCoreScheduler) → Type 0
Dispatches r =
    (result : DispatchResult) × (u : MultiCoreScheduler) × (r ≡ some (result, u)) × Exclusive u

stolen-Dispatches :
    (s : MultiCoreScheduler) (cpu x : ℕ)
    → Exclusive s
    → cpu < s.cpu_count
    → 0 < length (queued (queue_of s cpu))
    → Dispatches (dispatch_stolen s cpu none (some (ok (some x), s)))
unfolding dispatch_stolen
stolen-Dispatches s cpu x v h pos =
    elim (pop_next_excluding_lem (queue_of s cpu) none (v.shape.each cpu h)) [
      | inl (y, e, hand) ↦ rw e (
        stole y,
        start (popped s cpu none) cpu y 1,
        refl,
        started-Exclusive s cpu y 1 _ v h hand.taken,
      )
      | inr (_, _, _, all) ↦ absurd (ground (arith, all 0 pos))
    ]

dispatch_stolen-Dispatches :
    (s : MultiCoreScheduler) (cpu : ℕ)
    → Exclusive s
    → cpu < s.cpu_count
    → Dispatches (dispatch_stolen s cpu none (steal s cpu))
unfolding dispatch_stolen
dispatch_stolen-Dispatches s cpu v h = elim (steal_lem s cpu v) [
  | inl (out, _) ↦ absurd (omega arith)
  | inr (_, inl (_, e)) ↦ rw e (idle, go_idle s cpu, refl, go_idle-Exclusive s cpu v h)
  | inr (_, inr (inl e)) ↦ rw e (idle, go_idle s cpu, refl, go_idle-Exclusive s cpu v h)
  | inr (_, inr (inr (victim, u, _, _, e, w, same, pos))) ↦
      subst (λ r. Dispatches (dispatch_stolen s cpu none r)) (sym e)
        (stolen-Dispatches u cpu _ w (subst (λ n. cpu < n) (sym same) h) pos)
]

-- With every id in at most one place, queued or running: a dispatch of any CPU ends without a panic, and
-- every id still stands in at most one place.
pub dispatch_lem : (s : MultiCoreScheduler) (cpu : ℕ) → Exclusive s → Dispatches (dispatch s cpu)
unfolding dispatch dispatch_excluding_mode
dispatch_lem s cpu v = elim (Bool-cases (ltb cpu s.cpu_count)) [
  | inr out ↦ rw (out, dispatch_excluding_mode) (invalid_cpu, s, refl, v)
  | inl active ↦
      let h : cpu < s.cpu_count = ground arith in
      elim (Option-cases (runtime_of s cpu).current) [
        | inr (x, e) ↦ rw (active, e, dispatch_excluding_mode) (busy x, s, refl, v)
        | inl e ↦ elim (pop_next_excluding_lem (queue_of s cpu) none (v.shape.each cpu h)) [
          | inl (y, f, hand) ↦
              rw (active, e, f, dispatch_excluding_mode)
                (
                  dispatched y,
                  start (popped s cpu none) cpu y 0,
                  refl,
                  started-Exclusive s cpu y 0 _ v h hand.taken,
                )
          | inr (f, kept, valid, _) ↦
              rw (active, e, f, dispatch_excluding_mode)
                (dispatch_stolen-Dispatches (popped s cpu none) cpu
                  (unselected-Exclusive s cpu _ v h kept valid) h)
        ]
      ]
]
