-- ===== src/Signal/Tests.antt =====
-- The theorems on signals at a concrete table.
use brane_os.Prelude.{◌+◌, ◌≡◌, refl, List, none, some, [], ◌∷◌, pos, replicate, arith, ◌^◌}
use brane_os.Prelude.Bits.{bit_at}
use brane_os.Prelude.Slots.{fill_free, find, modify}
use brane_os.Process.Table
use brane_os.Process.Table.{Process, ProcessTable, terminated, create, fresh, get, update}
use brane_os.Signal
use brane_os.Signal.{
  usr1, kill, handler, ignore, signals_to_check, cleared, deliverable, deliver_pending, send,
  set_action,
}
use brane_os.Signal.Delivered.{Delivered, deliver_pending-Delivered}
use brane_os.Signal.Kill.{Change, change_all, sigkill_terminates}

abbrev one_process : ProcessTable
one_process = (create Table.new (115 ∷ 104 ∷ []) none 17).1

-- Process 1 with `SIGUSR1` and `SIGKILL` pending.
abbrev shell : Process
shell = record (fresh 1 (115 ∷ 104 ∷ []) none 17) { signal_pending = 2 ^ 10 + 2 ^ 9 }

abbrev signalled : ProcessTable
signalled = update one_process 1 (λ p. record p { signal_pending = 2 ^ 10 + 2 ^ 9 })

get-signalled : get signalled 1 ≡ some shell
unfolding get update create Table.new fresh fill_free replicate find modify
get-signalled = refl

deliver_pending-Delivered_example :
    let (r, u) = deliver_pending Signal.new signalled 1 in
    Delivered Signal.new signalled 1 shell r u
unfolding fresh
deliver_pending-Delivered_example =
    deliver_pending-Delivered Signal.new signalled 1 shell get-signalled (omega arith)

abbrev changes : List Change
changes =
    record { table = signalled; pid = 1; sig = kill; action = ignore }
    ∷ record { table = signalled; pid = 1; sig = usr1; action = handler 0x0040_0000 }
    ∷ []

sigkill_terminates_example :
    let (answer, u) = deliver_pending (change_all Signal.new changes) signalled 1 in
    (answer ≡ none)
    × (get u 1 ≡ some (record (cleared kill shell) { state = terminated; exit_code = pos 137 }))
unfolding bit_at fresh
sigkill_terminates_example =
    sigkill_terminates changes signalled 1 shell get-signalled refl refl (omega arith)
