-- ===== src/Sched/MultiCore/Census.antt =====
-- How many places of the scheduler hold a task id.
use brane_os.Prelude.{
  ℕ, zero, suc, ◌+◌, ◌<◌, ◌≡◌, refl, true, false, List, [], ◌∷◌, ◌++◌, take, get_or, set, length,
  ◌==◌, if◌then◌else◌, arith,
}
use brane_os.Sched.RunQueue.{CpuRunQueue, queued, member, contains, is_excluded}
use brane_os.Sched.RunQueue.Arrays.{erase}
use brane_os.Sched.MultiCore.{
  CpuRuntimeSnapshot, MultiCoreScheduler, any_contains, any_runs, is_owned,
}

abbrev pub count : ℕ → List ℕ → ℕ
count x [] = 0
count x (y ∷ ys) = (if y == x then 1 else 0) + count x ys

pub count-append :
    (x : ℕ) (ys : List ℕ) (y : ℕ)
    → count x (ys ++ (y ∷ [])) ≡ count x ys + (if y == x then 1 else 0)
count-append x [] y = omega arith
count-append x (z ∷ ys) y = omega (arith, count-append x ys y)

pub count-erase :
    (x y : ℕ) (ys : List ℕ)
    → member y ys ≡ true
    → count x (erase y ys) + (if y == x then 1 else 0) ≡ count x ys
count-erase x y [] h = absurd (cc)
count-erase x y (z ∷ ys) h = ground (arith, count-erase x y ys)

pub count-member : (x : ℕ) (ys : List ℕ) → member x ys ≡ false → count x ys ≡ 0
count-member x [] h = refl
count-member x (y ∷ ys) h = ground (arith, count-member x ys)

module _ {A : Type 0} (weight : A → ℕ) where
  abbrev pub total : List A → ℕ
  total [] = 0
  total (a ∷ rest) = weight a + total rest

  pub total-set :
      (xs : List A) (n i : ℕ) (v d : A)
      → i < n
      → i < length xs
      → total (take n (set xs i v)) + weight (get_or xs i d) ≡ total (take n xs) + weight v
  total-set [] n i v d h l = absurd (omega arith)
  total-set (x ∷ xs) zero i v d h l = absurd (omega arith)
  total-set (x ∷ xs) (suc n) zero v d h l = omega arith
  total-set (x ∷ xs) (suc n) (suc i) v d h l =
      omega (arith, total-set xs n i v d (omega arith) (omega arith))

-- A queue's share and a running task's share.
abbrev pub queue_count : ℕ → CpuRunQueue → ℕ
queue_count x q = count x (queued q)

abbrev pub running_count : ℕ → CpuRuntimeSnapshot → ℕ
running_count x r = if is_excluded x r.current then 1 else 0

-- The places that hold an id, on the active CPUs.
abbrev pub places : MultiCoreScheduler → ℕ → ℕ
places s x =
    total (queue_count x) (take s.cpu_count s.queues)
    + total (running_count x) (take s.cpu_count s.runtime)

any_contains-total :
    (x : ℕ) (qs : List CpuRunQueue) → any_contains x qs ≡ false → total (queue_count x) qs ≡ 0
unfolding contains
any_contains-total x [] h = refl
any_contains-total x (q ∷ qs) h = ground (arith, count-member x (queued q), any_contains-total x qs)

any_runs-total :
    (x : ℕ) (rs : List CpuRuntimeSnapshot) → any_runs x rs ≡ false → total (running_count x) rs ≡ 0
any_runs-total x [] h = refl
any_runs-total x (r ∷ rs) h = ground (arith, any_runs-total x rs)

-- The duplicate test misses no place.
pub is_owned-places : (s : MultiCoreScheduler) (x : ℕ) → is_owned s x ≡ false → places s x ≡ 0
unfolding is_owned
is_owned-places s x h = ground (
  arith,
  any_contains-total x (take s.cpu_count s.queues),
  any_runs-total x (take s.cpu_count s.runtime),
)
