-- ===== src/Sched/RunQueue/Handoff.antt =====
-- `pop_next_excluding`: a successor other than the yielding task.
use brane_os.Prelude.{
  ℕ, zero, suc, ◌+◌, ◌-◌, ◌%◌, ◌<◌, ◌≡◌, ◌∙◌, refl, sym, ap, subst, ◌⊎◌, inl, inr, true, false,
  Option, none, some, get_or, length, arith, Bool-cases, ℕ_discrete,
}
use native.Mathlib.Nat.{mod-lt, mod-add-mod, mod-eq_of_lt, add-mod_right}
use brane_os.Sched.RunQueue.{CpuRunQueue, queued, is_excluded, pop_from, pop_next_excluding}
use brane_os.Sched.RunQueue.Order.{
  IsValid, length-queued, chosen, Taken, moved, next-chosen, moved-IsValid, chosen-Taken,
}

-- Each id that the loop passes over is the excluded one.
abbrev pub PassedOver : Option ℕ → CpuRunQueue → ℕ → Type 0
PassedOver excluded q k =
    (d : ℕ) → d < k → is_excluded (get_or (queued q) ((q.cursor + d) % q.len) 0) excluded ≡ true

PassedOver-suc :
    (excluded : Option ℕ) (q : CpuRunQueue) (k : ℕ)
    → is_excluded (chosen q) excluded ≡ true
    → PassedOver excluded (moved q) k
    → PassedOver excluded q (suc k)
PassedOver-suc excluded q k same rest zero l =
    subst (λ n. is_excluded (get_or (queued q) (n % q.len) 0) excluded ≡ true) (omega arith) same
PassedOver-suc excluded q k same rest (suc d) l =
    subst (λ n. is_excluded (get_or (queued q) n 0) excluded ≡ true)
      (mod-add-mod (q.cursor + 1) q.len d ∙ ap (λ n. n % q.len) (omega arith))
      (rest d (omega arith))

-- An answer that is not the excluded id, taken out of the queue.
pub record Handoff (excluded : Option ℕ) (q : CpuRunQueue) (x : ℕ) (u : CpuRunQueue) : Type 0 where
  pub other : is_excluded x excluded ≡ false
  pub taken : Taken q x u

pop_from_lem :
    (excluded : Option ℕ) (k : ℕ) (q : CpuRunQueue)
    → IsValid q
    → 0 < q.len
    → let (answer, u) = pop_from excluded k q in
      ((x : ℕ) × (answer ≡ some x) × Handoff excluded q x u)
      ⊎ ((answer ≡ none) × (queued u ≡ queued q) × IsValid u × PassedOver excluded q k)
unfolding pop_from
pop_from_lem excluded zero q v h = inr (refl, refl, v, λ d l. absurd (omega arith))
pop_from_lem excluded (suc k) q v h = elim (Bool-cases (is_excluded (chosen q) excluded)) [
  | inr other ↦
      rw (ap (λ r. r.0) (next-chosen q h), ap (λ r. r.1) (next-chosen q h), pop_from, other)
        (inl (chosen q, refl, record { other = other; taken = chosen-Taken q v h }))
  | inl same ↦
      rw (ap (λ r. r.0) (next-chosen q h), ap (λ r. r.1) (next-chosen q h), pop_from, same)
        (elim (pop_from_lem excluded k (moved q) (moved-IsValid q v) h) [
          | inl (x, e, hand) ↦ inl (
            x,
            e,
            record {
              other = hand.other;
              taken = record {
                queued_before = hand.taken.queued_before;
                rest = hand.taken.rest;
                valid = hand.taken.valid;
              };
            },
          )
          | inr (e, kept, valid, passed) ↦
              inr (e, kept, valid, PassedOver-suc excluded q k same passed)
        ])
]

swap : (a b : ℕ) → a + b ≡ b + a
swap a b = omega arith

-- Every index is met on the way round from the cursor.
round_trip : (c i n : ℕ) → i < n → (c + (i + (n - c % n)) % n) % n ≡ i
round_trip c i n h =
    let x = i + (n - c % n) in
    let small : c % n < n = mod-lt c (omega arith) in
    ap (λ a. a % n) (swap c (x % n))
    ∙ mod-add-mod x n c
    ∙ ap (λ a. a % n) (swap x c)
    ∙ sym (mod-add-mod c n x)
    ∙ ap (λ a. a % n) (omega (arith, small))
    ∙ add-mod_right i n
    ∙ mod-eq_of_lt h

empty_lem :
    (q : CpuRunQueue) (excluded : Option ℕ)
    → IsValid q
    → q.len ≡ 0
    → let (answer, u) = pop_next_excluding q excluded in
      ((x : ℕ) × (answer ≡ some x) × Handoff excluded q x u)
      ⊎ ((answer ≡ none)
          × (queued u ≡ queued q)
          × IsValid u
          × ((i : ℕ) → i < length (queued q) → is_excluded (get_or (queued q) i 0) excluded ≡ true))
unfolding pop_next_excluding pop_from
empty_lem q excluded v z =
    rw z
      (inr (refl, refl, record { room = v.room; fits = omega arith }, λ i l. absurd (omega arith)))

-- A valid queue hands over to an id other than the excluded one, the rest keeping its order, as soon as
-- it holds such an id; only where every queued id is the excluded one, or none is queued, it answers
-- none, and keeps its ids.
pub pop_next_excluding_lem :
    (q : CpuRunQueue) (excluded : Option ℕ)
    → IsValid q
    → let (answer, u) = pop_next_excluding q excluded in
      ((x : ℕ) × (answer ≡ some x) × Handoff excluded q x u)
      ⊎ ((answer ≡ none)
          × (queued u ≡ queued q)
          × IsValid u
          × ((i : ℕ) → i < length (queued q) → is_excluded (get_or (queued q) i 0) excluded ≡ true))
unfolding pop_next_excluding
pop_next_excluding_lem q excluded v = elim (ℕ_discrete q.len 0) [
  | yes z ↦ empty_lem q excluded v z
  | no nz ↦ elim (pop_from_lem excluded q.len q v (omega arith)) [
    | inl found ↦ inl found
    | inr (e, kept, valid, passed) ↦ inr (
      e,
      kept,
      valid,
      λ i l.
          let small : i < q.len = omega (arith, l, length-queued q v) in
          subst (λ n. is_excluded (get_or (queued q) n 0) excluded ≡ true)
            (round_trip q.cursor i q.len small)
            (passed ((i + (q.len - q.cursor % q.len)) % q.len) (mod-lt _ (omega arith))),
    )
  ]
]
