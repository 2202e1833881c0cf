-- ===== src/Sched/RunQueue/Arrays.antt =====
-- The array of `CpuRunQueue` as a list of the queued ids.
use brane_os.Prelude.{
  ℕ, zero, suc, ◌+◌, ◌-◌, ◌≤◌, ◌<◌, ◌≡◌, ◌∙◌, refl, sym, ap, true, some, List, [], ◌∷◌, ◌++◌, take,
  drop, set, get_or, length, length-take, length-drop, take-take, length-append, ◌==◌, arith,
  if◌then◌else◌, Bool-cases, Option-cases, inl, inr,
}
use brane_os.Sched.RunQueue.{position, member, shift_down}

-- The list without the first occurrence of an id.
abbrev pub erase : ℕ → List ℕ → List ℕ
erase x [] = []
erase x (y ∷ ys) = if y == x then ys else y ∷ erase x ys

pub take-set : (n : ℕ) (xs : List ℕ) (v : ℕ) → take n (set xs n v) ≡ take n xs
take-set zero xs v = refl
take-set (suc n) [] v = refl
take-set (suc n) (x ∷ xs) v = ap (λ r. x ∷ r) (take-set n xs v)

pub take-set_next :
    (n : ℕ) (xs : List ℕ) (v : ℕ)
    → n < length xs
    → take (suc n) (set xs n v) ≡ take n xs ++ (v ∷ [])
take-set_next n [] v h = absurd (omega arith)
take-set_next zero (x ∷ xs) v h = refl
take-set_next (suc n) (x ∷ xs) v h = ap (λ r. x ∷ r) (take-set_next n xs v (omega arith))

pub take-append : (xs ys : List ℕ) (n : ℕ) → n ≡ length xs → take n (xs ++ ys) ≡ xs
take-append [] ys n h = rw h refl
take-append (x ∷ xs) ys zero h = absurd (omega arith)
take-append (x ∷ xs) ys (suc n) h = ap (λ r. x ∷ r) (take-append xs ys n (omega arith))

pub position-bound : (x : ℕ) (ys : List ℕ) (i : ℕ) → position x ys ≡ some i → i < length ys
position-bound x [] i e = absurd (cc)
position-bound x (y ∷ ys) i e = elim (Option-cases (position x ys)) [
  | inl n ↦ ground (arith, e, n)
  | inr (j, f) ↦ ground (arith, e, f, position-bound x ys j f)
]

pub position-erase :
    (x : ℕ) (ys : List ℕ) (i : ℕ)
    → position x ys ≡ some i
    → take i ys ++ drop (suc i) ys ≡ erase x ys
position-erase x [] i e = absurd (cc)
position-erase x (y ∷ ys) zero e = elim (Bool-cases (y == x)) [
  | inl here ↦ rw here refl
  | inr there ↦ elim (Option-cases (position x ys)) [
    | inl n ↦ absurd (ground (arith, e, n, there))
    | inr (j, f) ↦ absurd (ground (arith, e, f, there))
  ]
]
position-erase x (y ∷ ys) (suc i) e = elim (Bool-cases (y == x)) [
  | inl here ↦ absurd (ground (arith, e, here))
  | inr there ↦ rw there (elim (Option-cases (position x ys)) [
    | inl n ↦ absurd (ground (arith, e, n, there))
    | inr (j, f) ↦
        let same : j ≡ i = ground (arith, e, f, there) in
        ap (λ r. y ∷ r) (position-erase x ys i (f ∙ ap some same))
  ])
]

pub member-position : (x : ℕ) (ys : List ℕ) (i : ℕ) → position x ys ≡ some i → member x ys ≡ true
member-position x [] i e = absurd (cc)
member-position x (y ∷ ys) i e = elim (Option-cases (position x ys)) [
  | inl n ↦ ground (arith, e, n)
  | inr (j, f) ↦ ground (arith, e, f, member-position x ys j f)
]

-- What stands at an index has a position.
pub position-get_or :
    (ys : List ℕ) (i : ℕ) → i < length ys → (j : ℕ) × (position (get_or ys i 0) ys ≡ some j)
position-get_or [] i h = absurd (omega arith)
position-get_or (y ∷ ys) zero h = (0, ground arith)
position-get_or (y ∷ ys) (suc i) h =
    let (j, e) = position-get_or ys i (omega arith) in
    elim (Bool-cases (y == get_or ys i 0)) [
      | inl here ↦ (0, ground (arith, here))
      | inr there ↦ (suc j, rw (there, e) refl)
    ]

pub get_or-take : (xs : List ℕ) (n i : ℕ) → i < n → get_or (take n xs) i 0 ≡ get_or xs i 0
get_or-take xs zero i h = absurd (omega arith)
get_or-take [] (suc n) i h = refl
get_or-take (x ∷ xs) (suc n) zero h = refl
get_or-take (x ∷ xs) (suc n) (suc i) h = get_or-take xs n i (omega arith)

next_index : (i : ℕ) → i + 1 ≡ suc i
next_index i = omega arith

-- The array after an id at an index was moved out: the rest of the ids, then a zero.
pub take-shift_down :
    (xs : List ℕ) (i n : ℕ)
    → i < suc n
    → suc n ≤ length xs
    → take n (shift_down xs i (suc n)) ≡ take i (take (suc n) xs) ++ drop (suc i) (take (suc n) xs)
take-shift_down xs i n h l =
    let kept = take i xs in
    let moved = drop (suc i) (take (suc n) xs) in
    rw (next_index i) (
      take-append (kept ++ moved) (drop (suc n - 1) xs) n (
        omega (
          arith,
          length-append kept moved,
          length-take i xs,
          length-drop (suc i) (take (suc n) xs),
          length-take (suc n) xs,
        ))
      ∙ ap (λ r. r ++ moved) (sym (take-take i (suc n) xs (omega arith))))

pub length-shift_down :
    (xs : List ℕ) (i n : ℕ) → i < n → n ≤ length xs → length (shift_down xs i n) ≡ length xs
length-shift_down xs i n h l =
    let kept = take i xs in
    let moved = drop (i + 1) (take n xs) in
    omega (
      arith,
      length-append (kept ++ moved) (drop (n - 1) xs),
      length-append kept moved,
      length-take i xs,
      length-drop (i + 1) (take n xs),
      length-take n xs,
      length-drop (n - 1) xs,
    )
