-- ===== src/Sched/RunQueue/Order.antt =====
-- What the operations of a run queue do to the ids that it holds.
use brane_os.Prelude.{
  ℕ, suc, ◌+◌, ◌-◌, ◌%◌, ◌≤◌, ◌<◌, ◌≡◌, ◌≢◌, ◌∙◌, refl, sym, ap, ◌⊎◌, inl, inr, true, false, none,
  some, [], ◌∷◌, ◌++◌, take, drop, set, get_or, length, length-take, length-set, ◌==◌, ==→eq, arith,
  Bool-cases, ℕ_discrete, ok, err,
}
use native.Mathlib.Nat.{mod-lt}
use brane_os.Sched.RunQueue.{
  CpuRunQueue, invalid_task, full, duplicate, max_run_queue_tasks, queued, position, member,
  contains, enqueue, shift_down, without, remove, next, pop_next,
}
use brane_os.Sched.RunQueue.Arrays.{
  erase, take-set, take-set_next, position-bound, position-erase, member-position, position-get_or,
  get_or-take, take-shift_down, length-shift_down,
}

-- The array has its size, and the queued ids fit.
pub record IsValid (q : CpuRunQueue) : Type 0 where
  pub room : length q.tasks ≡ max_run_queue_tasks
  pub fits : q.len ≤ max_run_queue_tasks

pub length-queued : (q : CpuRunQueue) → IsValid q → length (queued q) ≡ q.len
length-queued q v = omega (arith, length-take q.len q.tasks, v.room, v.fits)

next_len : (n : ℕ) → n + 1 ≡ suc n
next_len n = omega arith

-- With a valid queue: a task id that is not zero, not yet queued and finds room is queued last;
-- otherwise the queue is unchanged, and the error says which of the three it was, in this order.
pub enqueue_lem :
    (q : CpuRunQueue) (x : ℕ)
    → IsValid q
    → let (r, u) = enqueue q x in
      ((r ≡ ok tt)
        × (x ≢ 0)
        × (member x (queued q) ≡ false)
        × (queued u ≡ queued q ++ (x ∷ []))
        × IsValid u)
      ⊎ ((u ≡ q)
          × (((r ≡ err invalid_task) × (x ≡ 0))
              ⊎ ((r ≡ err duplicate) × (member x (queued q) ≡ true))
              ⊎ ((r ≡ err full) × (length (queued q) ≡ max_run_queue_tasks))))
unfolding enqueue contains
enqueue_lem q x v = elim (Bool-cases (x == 0)) [
  | inl z ↦ rw (z, enqueue) (inr (refl, inl (refl, ==→eq x 0 z)))
  | inr nz ↦ elim (Bool-cases (member x (queued q))) [
    | inl d ↦ rw (nz, enqueue, d) (inr (refl, inr (inl (refl, refl))))
    | inr fresh ↦ elim (Bool-cases (q.len == max_run_queue_tasks)) [
      | inl f ↦
          rw (nz, enqueue, fresh, f) (inr (refl, inr (inr (refl, length-queued q v ∙ ==→eq _ _ f))))
      | inr space ↦
          rw (nz, enqueue, fresh, space)
            (inl (
              refl,
              λ z. ground (arith, z, nz),
              refl,
              ap (λ n. take n (set q.tasks q.len x)) (next_len q.len)
                  ∙ take-set_next q.len q.tasks x (ground (arith, v.room, v.fits, space)),
              record {
                room = length-set q.tasks q.len x ∙ v.room;
                fits = ground (arith, v.fits, space);
              },
            ))
    ]
  ]
]

without_lem :
    (q : CpuRunQueue) (x i : ℕ)
    → IsValid q
    → position x (queued q) ≡ some i
    → (queued (without q i) ≡ erase x (queued q)) × IsValid (without q i)
unfolding without
without_lem q x i v e =
    let small : i < q.len = omega (arith, position-bound x (queued q) i e, length-queued q v) in
    let all : q.len ≤ length q.tasks = omega (arith, v.room, v.fits) in
    let last : suc (q.len - 1) ≡ q.len = omega arith in
    (
      take-set (q.len - 1) (shift_down q.tasks i q.len) 0
          ∙ ap (λ n. take (q.len - 1) (shift_down q.tasks i n)) (sym last)
          ∙ take-shift_down q.tasks i (q.len - 1) (omega arith) (omega arith)
          ∙ ap (λ n. take i (take n q.tasks) ++ drop (suc i) (take n q.tasks)) last
          ∙ position-erase x (queued q) i e,
      record {
        room =
            length-set (shift_down q.tasks i q.len) (q.len - 1) 0
            ∙ length-shift_down q.tasks i q.len small all
            ∙ v.room;
        fits = omega (arith, v.fits);
      },
    )

-- The id at the cursor.
abbrev pub chosen : CpuRunQueue → ℕ
chosen q = get_or (queued q) (q.cursor % q.len) 0

-- `x` was taken out of the queue and the rest kept in order.
pub record Taken (q : CpuRunQueue) (x : ℕ) (u : CpuRunQueue) : Type 0 where
  pub queued_before : member x (queued q) ≡ true
  pub rest : queued u ≡ erase x (queued q)
  pub valid : IsValid u

pub remove-Taken :
    (q : CpuRunQueue) (x i : ℕ)
    → IsValid q
    → position x (queued q) ≡ some i
    → Taken q x (remove q x).1
unfolding remove
remove-Taken q x i v e =
    let (order, valid) = without_lem q x i v e in
    rw (e, remove)
      (record { queued_before = member-position x (queued q) i e; rest = order; valid = valid })

abbrev pub moved : CpuRunQueue → CpuRunQueue
moved q = record q { cursor = (q.cursor + 1) % q.len }

pub next-empty : (q : CpuRunQueue) → q.len ≡ 0 → next q ≡ (none, q)
unfolding next
next-empty q z = rw z refl

pub next-chosen : (q : CpuRunQueue) → 0 < q.len → next q ≡ (some (chosen q), moved q)
unfolding next
next-chosen q h =
    let some_ids : (q.len == 0) ≡ false = ground arith in
    rw (some_ids, get_or-take q.tasks q.len (q.cursor % q.len) (mod-lt q.cursor h)) refl

chosen-position :
    (q : CpuRunQueue) → IsValid q → 0 < q.len → (i : ℕ) × (position (chosen q) (queued q) ≡ some i)
chosen-position q v h =
    position-get_or (queued q) (q.cursor % q.len)
      (omega (arith, mod-lt q.cursor h, length-queued q v))

pub moved-IsValid : (q : CpuRunQueue) → IsValid q → IsValid (moved q)
moved-IsValid q v = record { room = v.room; fits = v.fits }

take-none : (q : CpuRunQueue) → q.len ≡ 0 → queued q ≡ []
take-none q z = rw z refl

pub chosen-Taken :
    (q : CpuRunQueue) → IsValid q → 0 < q.len → Taken q (chosen q) (remove (moved q) (chosen q)).1
chosen-Taken q v h =
    let (i, e) = chosen-position q v h in
    let out = remove-Taken (moved q) (chosen q) i (moved-IsValid q v) e in
    record { queued_before = out.queued_before; rest = out.rest; valid = out.valid }

-- A valid queue that holds ids gives the one at its cursor, and the rest keep their order; an empty one
-- gives none and is unchanged.
pub pop_next_lem :
    (q : CpuRunQueue)
    → IsValid q
    → let (answer, u) = pop_next q in
      ((queued q ≡ []) × (answer ≡ none) × (u ≡ q))
      ⊎ ((answer ≡ some (chosen q)) × Taken q (chosen q) u)
unfolding pop_next
pop_next_lem q v = elim (ℕ_discrete q.len 0) [
  | yes z ↦
      rw (ap (λ r. r.0) (next-empty q z), ap (λ r. r.1) (next-empty q z), pop_next)
        (inl (take-none q z, refl, refl))
  | no nz ↦
      rw
        (
          ap (λ r. r.0) (next-chosen q (omega arith)),
          ap (λ r. r.1) (next-chosen q (omega arith)),
          pop_next,
        )
        (inr (refl, chosen-Taken q v (omega arith)))
]
