-- ===== src/Signal.antt =====
-- kernel/src/signal.rs: signal numbers, the action table of each process slot, and delivery over the
-- process table. Error texts are constructors.
pub mod Uncatchable
pub mod Changes
pub mod Delivery
pub mod Delivered
pub mod Kill
mod Tests
use brane_os.Prelude.{
  ℕ, ◌+◌, ◌^◌, Bool, true, false, ◌||◌, Option, none, some, List, [], ◌∷◌, replicate, get_or, set,
  Result, ok, err, pos, ltb, ◌==◌, if◌then◌else◌, bit_and, bit_or,
}
use brane_os.Prelude.Bits.{complement}
use brane_os.Process.Table.{
  Process, ProcessTable, ProcessState, terminated, get, update, terminate, slot_of, max_processes,
}

pub data Signal : Type 0 where
  hup int quit kill usr1 usr2 term chld cont stop : Signal

-- `sig as u8`.
unfoldable pub to_raw : Signal → ℕ
to_raw hup = 1
to_raw int = 2
to_raw quit = 3
to_raw kill = 9
to_raw usr1 = 10
to_raw usr2 = 12
to_raw term = 15
to_raw chld = 17
to_raw cont = 18
to_raw stop = 19

pub data SignalError : Type 0 where
  invalid_number already_terminated process_not_found cannot_be_caught out_of_range : SignalError

-- `Signal::try_from`.
unfoldable pub try_from : ℕ → Result Signal SignalError
try_from v =
    if v == 1
    then ok hup
    else if v == 2
    then ok int
    else if v == 3
    then ok quit
    else if v == 9
    then ok kill
    else if v == 10
    then ok usr1
    else if v == 12
    then ok usr2
    else if v == 15
    then ok term
    else if v == 17
    then ok chld
    else if v == 18
    then ok cont
    else if v == 19
    then ok stop
    else err invalid_number

pub data SignalAction : Type 0 where
  default ignore : SignalAction
  handler : ℕ → SignalAction

-- `SignalTable`, the actions of one slot.
abbrev pub SignalTable : Type 0
SignalTable = List SignalAction

unfoldable pub new_table : SignalTable
new_table = replicate 32 default

pub record SignalManager : Type 0 where
  pub tables : List SignalTable

unfoldable pub new : SignalManager
new = record { tables = replicate max_processes new_table }

unfoldable pub sig_bit : Signal → ℕ
sig_bit sig = 2 ^ to_raw sig

unfoldable pub is_terminated : ProcessState → Bool
is_terminated terminated = true
is_terminated _ = false

-- `SignalManager::send`, which writes the process table.
unfoldable pub send : ProcessTable → ℕ → Signal → Result (Unit {0}) SignalError × ProcessTable
send t pid sig = elim (get t pid) [
  | some p ↦ if is_terminated p.state then (err already_terminated, t) else (
    ok tt,
    update t pid (λ q. record q { signal_pending = bit_or q.signal_pending (sig_bit sig) }),
  )
  | none ↦ (err process_not_found, t)
]

-- `sig == Signal::Kill || sig == Signal::Stop`.
unfoldable pub is_uncatchable : Signal → Bool
is_uncatchable kill = true
is_uncatchable stop = true
is_uncatchable _ = false

-- `SignalManager::set_action`.
unfoldable pub set_action :
    SignalManager
    → ProcessTable
    → ℕ
    → Signal
    → SignalAction
    → Result (Unit {0}) SignalError × SignalManager
set_action m t pid sig action =
    if is_uncatchable sig then (err cannot_be_caught, m) else elim (slot_of t pid) [
      | some slot ↦
          if ltb (to_raw sig) 32
          then (
            ok tt,
            record m {
              tables = set m.tables slot (set (get_or m.tables slot []) (to_raw sig) action);
            },
          )
          else (err out_of_range, m)
      | none ↦ (err process_not_found, m)
    ]

-- `SignalManager::get_action`.
unfoldable pub get_action : SignalManager → ProcessTable → ℕ → Signal → SignalAction
get_action m t pid sig = elim (slot_of t pid) [
  | some slot ↦
      if ltb (to_raw sig) 32 then get_or (get_or m.tables slot []) (to_raw sig) default else default
  | none ↦ default
]

-- The mask of a process's pending signals that it does not block.
unfoldable pub deliverable : Process → ℕ
deliverable p = bit_and p.signal_pending (complement 64 p.signal_blocked)

-- `SignalManager::pending_for`.
unfoldable pub pending_for : ProcessTable → ℕ → ℕ
pending_for t pid = elim (get t pid) [ some p ↦ deliverable p | none ↦ 0 ]

unfoldable pub cleared : Signal → Process → Process
cleared sig q = record q { signal_pending = bit_and q.signal_pending (complement 64 (sig_bit sig)) }

-- `SignalManager::clear_pending`.
unfoldable pub clear_pending : ProcessTable → ℕ → Signal → ProcessTable
clear_pending t pid sig = elim (get t pid) [ some p ↦ update t pid (cleared sig) | none ↦ t ]

-- What the loop of `deliver_pending` does with a pending signal under its action.
pub data Response : Type 0 where
  pass fatal : Response
  run_handler : ℕ → Response

unfoldable pub respond : SignalAction → Signal → Response
respond ignore sig = pass
respond (handler addr) sig = run_handler addr
respond default chld = pass
respond default cont = pass
respond default stop = pass
respond default _ = fatal

-- `signals_to_check`, in order.
abbrev pub signals_to_check : List Signal
signals_to_check = kill ∷ term ∷ int ∷ quit ∷ hup ∷ usr1 ∷ usr2 ∷ chld ∷ cont ∷ stop ∷ []

-- The loop of `deliver_pending` over the signals still to check.
unfoldable pub deliver_from :
    SignalManager → ℕ → ℕ → List Signal → ProcessTable → Option (Signal × ℕ) × ProcessTable
deliver_from m pid mask [] t = (none, t)
deliver_from m pid mask (sig ∷ rest) t = elim (bit_and mask (sig_bit sig) == 0) [
  | true ↦ deliver_from m pid mask rest t
  | false ↦ elim (respond (get_action m (clear_pending t pid sig) pid sig) sig) [
    | pass ↦ deliver_from m pid mask rest (clear_pending t pid sig)
    | fatal ↦ (none, (terminate (clear_pending t pid sig) pid (pos (128 + to_raw sig))).1)
    | run_handler addr ↦ (some (sig, addr), clear_pending t pid sig)
  ]
]

-- `SignalManager::deliver_pending`.
unfoldable pub deliver_pending :
    SignalManager → ProcessTable → ℕ → Option (Signal × ℕ) × ProcessTable
deliver_pending m t pid =
    let mask = pending_for t pid in
    if mask == 0 then (none, t) else deliver_from m pid mask signals_to_check t
