-- ===== src/Sched/MultiCore/Dispatch/Stealing.antt =====
-- `steal` moves one task, and its `expect` holds.
use brane_os.Prelude.{
  ℕ, zero, suc, ◌+◌, ◌≤◌, ◌<◌, ◌≡◌, ◌≢◌, ◌∙◌, refl, sym, ap, subst, ◌⊎◌, inl, inr, true, false,
  Option, none, some, List, [], ◌∷◌, take, ltb, ◌==◌, if◌then◌else◌, arith, Bool-cases,
  Option-cases, ok, err, ℕ_discrete, get_or, length, get_or-set_ne, get_or-set_self, length-append,
}
use brane_os.Sched.RunQueue
use brane_os.Sched.RunQueue.{
  CpuRunQueue, RunQueueError, queued, member, position, remove, is_excluded, max_run_queue_tasks,
  full, invalid_cpu,
}
use brane_os.Sched.RunQueue.Arrays.{position-get_or, get_or-take}
use brane_os.Sched.RunQueue.Order
use brane_os.Sched.RunQueue.Order.{Taken, remove-Taken, length-queued, enqueue_lem}
use brane_os.Sched.MultiCore.{MultiCoreScheduler, queue_of, enqueue_at}
use brane_os.Sched.MultiCore.Census.{count, count-erase, total, queue_count, places}
use brane_os.Sched.MultiCore.Ownership.{Exclusive, with_queue, queue-places, enqueue_at-Exclusive}
use brane_os.Sched.MultiCore.Yielding.{Taken-Exclusive}
use brane_os.Sched.MultiCore.Dispatch.{is_victim, better_of, busiest_from, steal_from, steal}

count-present : (x : ℕ) (ys : List ℕ) → member x ys ≡ true → 0 < count x ys
count-present x [] h = absurd (cc)
count-present x (y ∷ ys) h = ground (arith, count-present x ys)

total-ge :
    (x : ℕ) (qs : List CpuRunQueue) (n i : ℕ)
    → i < n
    → i < length qs
    → queue_count x (get_or qs i RunQueue.new) ≤ total (queue_count x) (take n qs)
total-ge x [] n i h l = absurd (omega arith)
total-ge x (q ∷ qs) zero i h l = absurd (omega arith)
total-ge x (q ∷ qs) (suc n) zero h l = omega arith
total-ge x (q ∷ qs) (suc n) (suc i) h l =
    omega (arith, total-ge x qs n i (omega arith) (omega arith))

-- The first id of a queue that holds some, which `steal` takes.
abbrev pub first_of : CpuRunQueue → ℕ
first_of q = get_or q.tasks 0 0

first-Taken :
    (q : CpuRunQueue) → Order.IsValid q → 0 < q.len → Taken q (first_of q) (remove q (first_of q)).1
first-Taken q v h =
    let (i, e) = position-get_or (queued q) 0 (omega (arith, length-queued q v)) in
    remove-Taken q (first_of q) i v
      (subst (λ x. position x (queued q) ≡ some i) (get_or-take q.tasks q.len 0 h) e)

-- The scheduler after a task left a queue.
abbrev pub robbed : MultiCoreScheduler → ℕ → MultiCoreScheduler
robbed s victim = with_queue s victim (remove (queue_of s victim) (first_of (queue_of s victim))).1

pub robbed-places :
    (s : MultiCoreScheduler) (victim x : ℕ) (q : CpuRunQueue)
    → Exclusive s
    → victim < s.cpu_count
    → Taken (queue_of s victim) x q
    → (places (with_queue s victim q) x ≡ 0) × (x ≢ 0)
robbed-places s victim x q v h t =
    let moved = queue-places s victim x q v.shape h in
    let less = count-erase x x (queued (queue_of s victim)) t.queued_before in
    let one : ◌≡◌ {A = ℕ} (if x == x then 1 else 0) 1 = ground arith in
    let kept = ap (count x) t.rest in
    (
      omega (arith, moved, less, one, kept, v.single x),
      λ z. omega (arith, moved, less, one, kept, v.no_zero, ap (places s) z),
    )

steal_from_lem :
    (s : MultiCoreScheduler) (thief victim : ℕ)
    → Exclusive s
    → thief < s.cpu_count
    → victim < s.cpu_count
    → victim ≢ thief
    → 0 < (queue_of s victim).len
    → (queue_of s thief).len ≢ max_run_queue_tasks
    → (u : MultiCoreScheduler) × (steal_from s thief victim
        ≡ some (ok (some (first_of (queue_of s victim))), u))
      × Exclusive u
      × (u.cpu_count ≡ s.cpu_count)
      × (0 < length (queued (queue_of u thief)))
unfolding steal_from enqueue_at
steal_from_lem s thief victim v ht hv ne some_task room =
    let x = first_of (queue_of s victim) in
    let t = first-Taken (queue_of s victim) (v.shape.each victim hv) some_task in
    let r = robbed s victim in
    let w = Taken-Exclusive s victim x _ v hv t in
    let (free, nz) = robbed-places s victim x _ v hv t in
    let same : queue_of r thief ≡ queue_of s thief =
      get_or-set_ne s.queues victim thief _ RunQueue.new ne in
    let done = enqueue_at-Exclusive r thief x w ht nz free in
    elim (enqueue_lem (queue_of r thief) x (w.shape.each thief ht)) [
      | inl (e, _, _, order, _) ↦ (
        (enqueue_at r thief x).1,
        rw (e, steal_from) refl,
        done,
        refl,
        subst (λ q. 0 < length (queued q))
            (sym (
              get_or-set_self r.queues thief _ RunQueue.new
                (omega (arith, ht, w.shape.fits, w.shape.queues_room))))
            (omega (arith, ap length order, length-append (queued (queue_of r thief)) (x ∷ []))),
      )
      | inr (_, inl (_, z)) ↦ absurd (nz z)
      | inr (_, inr (inl (_, there))) ↦ absurd (
          omega (
            arith,
            count-present x (queued (queue_of r thief)) there,
            total-ge x r.queues r.cpu_count thief ht
                (omega (arith, ht, w.shape.fits, w.shape.queues_room)),
            free,
          ))
      | inr (_, inr (inr (_, f))) ↦ absurd (
          room (
            ap (λ q. q.len) (sym same)
            ∙ sym (length-queued (queue_of r thief) (w.shape.each thief ht))
            ∙ f))
    ]

-- The loop of `steal` answers a CPU that it may rob.
abbrev pub IsRobbable : MultiCoreScheduler → ℕ → Option ℕ → Type 0
IsRobbable s thief best =
    (victim : ℕ)
    → best ≡ some victim
    → (victim < s.cpu_count) × (victim ≢ thief) × (0 < (queue_of s victim).len)

victim-IsRobbable :
    (s : MultiCoreScheduler) (thief cpu : ℕ)
    → cpu < s.cpu_count
    → is_victim s thief cpu ≡ true
    → IsRobbable s thief (some cpu)
victim-IsRobbable s thief cpu h y victim e =
    let same : cpu ≡ victim = cc in
    subst (λ c. (c < s.cpu_count) × (c ≢ thief) × (0 < (queue_of s c).len)) same
      (h, λ z. ground (arith, y, z), ground (arith, y))

better_of-IsRobbable :
    (s : MultiCoreScheduler) (thief cpu : ℕ) (best : Option ℕ)
    → cpu < s.cpu_count
    → IsRobbable s thief best
    → IsRobbable s thief (better_of s thief cpu best)
unfolding better_of
better_of-IsRobbable s thief cpu none h b = elim (Bool-cases (is_victim s thief cpu)) [
  | inl y ↦ rw y (victim-IsRobbable s thief cpu h y)
  | inr n ↦ rw n b
]
better_of-IsRobbable s thief cpu (some c) h b = elim (Bool-cases (is_victim s thief cpu)) [
  | inl y ↦ elim (Bool-cases (ltb (queue_of s c).len (queue_of s cpu).len)) [
    | inl more ↦ rw (y, more) (victim-IsRobbable s thief cpu h y)
    | inr less ↦ rw (y, less) b
  ]
  | inr n ↦ rw n b
]

busiest_from-IsRobbable :
    (s : MultiCoreScheduler) (thief cpu k : ℕ) (best : Option ℕ)
    → cpu + k ≤ s.cpu_count
    → IsRobbable s thief best
    → IsRobbable s thief (busiest_from s thief cpu k best)
unfolding busiest_from
busiest_from-IsRobbable s thief cpu zero best fits b = b
busiest_from-IsRobbable s thief cpu (suc k) best fits b =
    busiest_from-IsRobbable s thief (cpu + 1) k _ (omega arith)
      (better_of-IsRobbable s thief cpu best (omega arith) b)

-- With every id in at most one place: on an active CPU whose own queue has room, `steal` moves the first
-- task of another CPU's queue to this one, which then holds some, or finds none and changes nothing; on another CPU it answers
-- `InvalidCpu`, with a full queue `Full`, and changes nothing. It never panics at its `expect`, and every
-- id still stands in at most one place.
pub steal_lem :
    (s : MultiCoreScheduler) (thief : ℕ)
    → Exclusive s
    → ((s.cpu_count ≤ thief) × (steal s thief ≡ some (err invalid_cpu, s)))
      ⊎ ((thief < s.cpu_count)
          × ((((queue_of s thief).len ≡ max_run_queue_tasks) × (steal s thief ≡ some (err full, s)))
              ⊎ (steal s thief ≡ some (ok none, s))
              ⊎ ((victim : ℕ) × (u : MultiCoreScheduler) × (victim < s.cpu_count)
                  × (victim ≢ thief)
                  × (steal s thief ≡ some (ok (some (first_of (queue_of s victim))), u))
                  × Exclusive u
                  × (u.cpu_count ≡ s.cpu_count)
                  × (0 < length (queued (queue_of u thief))))))
unfolding steal
steal_lem s thief v = elim (Bool-cases (ltb thief s.cpu_count)) [
  | inr out ↦ rw (out, steal) (inl (ground arith, refl))
  | inl active ↦
      let h : thief < s.cpu_count = ground arith in
      let found = busiest_from s thief 0 s.cpu_count none in
      elim (ℕ_discrete (queue_of s thief).len max_run_queue_tasks) [
        | yes e ↦ rw (active, e, steal) (inr (h, inl (refl, refl)))
        | no room ↦
            let not_full : ((queue_of s thief).len == max_run_queue_tasks) ≡ false = ground arith in
            elim (Option-cases found) [
              | inl e ↦ rw (active, not_full, e, steal) (inr (h, inr (inl refl)))
              | inr (victim, e) ↦
                  let (hv, ne, some_task) =
                    busiest_from-IsRobbable s thief 0 s.cpu_count none (omega arith)
                      (λ c z. absurd (cc)) victim e in
                  let (u, moved, w, same, pos) =
                    steal_from_lem s thief victim v h hv ne some_task room in
                  inr (
                    h,
                    inr (
                        inr
                          (victim, u, hv, ne, rw (active, not_full, e, steal) moved, w, same, pos)),
                  )
            ]
      ]
]
