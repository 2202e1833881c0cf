-- ===== src/Sched/Tests.antt =====
-- The theorems on run queues at a concrete queue.
use brane_os.Prelude.{
  List, ◌≤◌, ℕ, ◌≡◌, ◌<◌, refl, ◌⊎◌, true, none, some, [], ◌∷◌, length, get_or, replicate, arith,
}
use brane_os.Sched.MultiCore
use brane_os.Sched.MultiCore.{MultiCoreScheduler}
use brane_os.Sched.MultiCore.Census.{places}
use brane_os.Sched.MultiCore.Lifetime.{
  Operation, configures, assigns_to, dispatches, completes, assigns, withdraws, after,
  never_in_two_places,
}
use brane_os.Sched.RunQueue.{
  CpuRunQueue, queued, new, enqueue, contains, pop_next, next, remove, without, is_excluded,
  pop_next_excluding,
}
use brane_os.Sched.RunQueue.Order.{IsValid}
use brane_os.Sched.RunQueue.Handoff.{Handoff, pop_next_excluding_lem}

-- Tasks 5 and 7.
abbrev two : CpuRunQueue
two = (enqueue (enqueue new 5).1 7).1

two-IsValid : IsValid two
unfolding enqueue contains new replicate
two-IsValid = record { room = refl; fits = omega arith }

pop_next_excluding_lem_example :
    let (answer, u) = pop_next_excluding two (some 5) in
    ((x : ℕ) × (answer ≡ some x) × Handoff (some 5) two x u)
    ⊎ ((answer ≡ none)
        × (queued u ≡ queued two)
        × IsValid u
        × ((i : ℕ)
            → i < length (queued two)
            → is_excluded (get_or (queued two) i 0) (some 5) ≡ true))
pop_next_excluding_lem_example = pop_next_excluding_lem two (some 5) two-IsValid

-- Three tasks leave an untouched queue in the order 1, 3, 2: the cursor steps past the gap.
three_in_order :
    let q = (enqueue (enqueue (enqueue new 1).1 2).1 3).1 in
    ((pop_next q).0 ≡ some 1)
    × ((pop_next (pop_next q).1).0 ≡ some 3)
    × ((pop_next (pop_next (pop_next q).1).1).0 ≡ some 2)
unfolding pop_next next remove without enqueue contains new replicate
three_in_order = (refl, refl, refl)

-- Two CPUs; the second one has nothing of its own to run and steals.
abbrev busy_day : List Operation
busy_day =
    configures 2
    ∷ assigns_to 0 1
    ∷ assigns_to 0 2
    ∷ dispatches 0
    ∷ dispatches 1
    ∷ completes 0
    ∷ assigns 3
    ∷ withdraws 1 2
    ∷ []

never_in_two_places_example :
    (u : MultiCoreScheduler) × (after busy_day (some MultiCore.new) ≡ some u)
    × ((x : ℕ) → places u x ≤ 1)
    × (places u 0 ≡ 0)
never_in_two_places_example = never_in_two_places busy_day
