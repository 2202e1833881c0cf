-- ===== src/Signal/Uncatchable.antt =====
-- `SIGKILL` and `SIGSTOP` keep their default action.
use brane_os.Prelude.{
  ℕ, zero, suc, ◌≡◌, refl, ◌∙◌, inl, inr, false, [], replicate, get_or, set, get_or-set_self,
  get_or-set_ne, set_out, length, ltb, ◌==◌, arith, Bool-cases, Option-cases, ==→eq, dec_lt,
}
use brane_os.Process.Table.{ProcessTable, slot_of, max_processes}
use brane_os.Signal.{
  Signal, kill, stop, to_raw, SignalAction, default, SignalTable, SignalManager, new_table, new,
  is_uncatchable, set_action, get_action,
}

abbrev pub KeepsDefault : SignalTable → Type 0
KeepsDefault actions = (get_or actions 9 default ≡ default) × (get_or actions 19 default ≡ default)

-- No slot has another action for the two signals.
pub record Uncaught (m : SignalManager) : Type 0 where
  pub each : (slot : ℕ) → KeepsDefault (get_or m.tables slot [])

replicate-KeepsDefault : (n slot : ℕ) → KeepsDefault (get_or (replicate n new_table) slot [])
unfolding replicate new_table
replicate-KeepsDefault zero slot = (refl, refl)
replicate-KeepsDefault (suc n) zero = (refl, refl)
replicate-KeepsDefault (suc n) (suc slot) = replicate-KeepsDefault n slot

pub new-Uncaught : Uncaught new
unfolding new
new-Uncaught = record { each = replicate-KeepsDefault max_processes }

set-KeepsDefault :
    (actions : SignalTable) (sig : Signal) (action : SignalAction)
    → is_uncatchable sig ≡ false
    → KeepsDefault actions
    → KeepsDefault (set actions (to_raw sig) action)
unfolding is_uncatchable to_raw
set-KeepsDefault actions kill action h u = absurd (cc)
set-KeepsDefault actions stop action h u = absurd (cc)
set-KeepsDefault actions sig action h u = (
  get_or-set_ne actions (to_raw sig) 9 action default (omega arith) ∙ u.0,
  get_or-set_ne actions (to_raw sig) 19 action default (omega arith) ∙ u.1,
)

set_slot-Uncaught :
    (m : SignalManager) (slot : ℕ) (actions : SignalTable)
    → KeepsDefault actions
    → Uncaught m
    → Uncaught (record m { tables = set m.tables slot actions })
set_slot-Uncaught m slot actions u v = record {
  each = λ j. elim (dec_lt slot (length m.tables)) [
    | yes h ↦ elim (Bool-cases (slot == j)) [
      | inl here ↦ rw (← ==→eq slot j here, get_or-set_self m.tables slot actions [] h) u
      | inr there ↦ rw (get_or-set_ne m.tables slot j actions [] (λ e. ground arith)) (v.each j)
    ]
    | no h ↦ rw (set_out m.tables slot actions (omega arith)) (v.each j)
  ];
}

pub set_action-Uncaught :
    (m : SignalManager) (t : ProcessTable) (pid : ℕ) (sig : Signal) (action : SignalAction)
    → Uncaught m
    → Uncaught (set_action m t pid sig action).1
unfolding set_action
set_action-Uncaught m t pid sig action v = elim (Bool-cases (is_uncatchable sig)) [
  | inl refused ↦ rw refused v
  | inr allowed ↦ rw allowed (elim (Option-cases (slot_of t pid)) [
    | inl e ↦ rw (e, set_action) v
    | inr (slot, e) ↦ elim (Bool-cases (ltb (to_raw sig) 32)) [
      | inl fits ↦
          rw (e, set_action, fits)
            (set_slot-Uncaught m slot _
              (set-KeepsDefault (get_or m.tables slot []) sig action allowed (v.each slot)) v)
      | inr out ↦ rw (e, set_action, out) v
    ]
  ])
]

pub get_action-Uncaught :
    (m : SignalManager) (t : ProcessTable) (pid : ℕ)
    → Uncaught m
    → (get_action m t pid kill ≡ default) × (get_action m t pid stop ≡ default)
unfolding get_action to_raw
get_action-Uncaught m t pid v = elim (Option-cases (slot_of t pid)) [
  | inl e ↦ rw (e, get_action) (refl, refl)
  | inr (slot, e) ↦ rw (e, get_action) (v.each slot)
]
