-- ===== src/Ipc/Manager/Refine.antt =====
-- The IPC manager refines 64 independent mailboxes, each a bounded first-in first-out list.
use brane_os.Prelude.{
  ℕ, ◌<◌, ◌≡◌, refl, ◌∙◌, ap, Option, List, [], ◌∷◌, length, length-set, length-replicate, get_or,
  get_or-set_self, get_or-set_ne, get_or-replicate, set, Result, ok, err, leb, ◌==◌, Bool-cases,
  ==→eq, add_u64, inl, inr, if◌then◌else◌, arith,
}
use brane_os.Syscall.Status.{SyscallError, SyscallResult, invalid_argument, invalid_destination}
use brane_os.Ipc.Message.{IpcMessage}
use brane_os.Ipc.Queue
use brane_os.Ipc.Queue.{MessageQueue}
use brane_os.Ipc.Queue.Refine.{
  Represents, fifo_push, fifo_pop, push_refines, pop_refines, new-Represents,
}
use brane_os.Ipc.Manager.{IpcManager, max_queues, queue_of, answer, settle, new, send, recv}

abbrev pub Mailboxes : Type 0
Mailboxes = ℕ → List IpcMessage

abbrev deliver : Mailboxes → ℕ → List IpcMessage → Mailboxes
deliver boxes i xs j = if i == j then xs else boxes j

abbrev as_reply : Result (Unit {0}) SyscallError → SyscallResult
as_reply (ok _) = SyscallResult.ok 0
as_reply (err e) = SyscallResult.err e

-- The abstract send and receive.
unfoldable pub post : Mailboxes → IpcMessage → SyscallResult × Mailboxes
post boxes msg =
    if leb max_queues msg.receiver
    then (SyscallResult.err invalid_destination, boxes)
    else let (r, xs) = fifo_push (boxes msg.receiver) msg in
      (as_reply r, deliver boxes msg.receiver xs)

unfoldable pub collect : Mailboxes → ℕ → Result IpcMessage SyscallError × Mailboxes
collect boxes task =
    if leb max_queues task
    then (err invalid_argument, boxes)
    else let (o, xs) = fifo_pop (boxes task) in (answer o, deliver boxes task xs)

pub record Serves (m : IpcManager) (boxes : Mailboxes) : Type 0 where
  pub sized : length m.queues ≡ max_queues
  pub each : (i : ℕ) → Represents (get_or m.queues i Queue.new) (boxes i)

new-Serves : Serves new (λ _. [])
unfolding new
new-Serves = record {
  sized = length-replicate max_queues Queue.new;
  each = λ i. rw (get_or-replicate max_queues i Queue.new) new-Represents;
}

-- A new queue for one task leaves the others'.
set-Serves :
    (m : IpcManager) (boxes : Mailboxes) (n : IpcManager) (i : ℕ) (q : MessageQueue)
    (xs : List IpcMessage)
    → i < max_queues
    → n.queues ≡ set m.queues i q
    → Serves m boxes
    → Represents q xs
    → Serves n (deliver boxes i xs)
set-Serves m boxes n i q xs h e v r = record {
  sized = rw e (length-set m.queues i q ∙ v.sized);
  each = λ j. rw e (elim (Bool-cases (i == j)) [
    | inl here ↦ rw (here, ← ==→eq i j here, get_or-set_self m.queues i q Queue.new (omega arith)) r
    | inr there ↦ rw (there, get_or-set_ne m.queues i j q Queue.new (λ p. ground arith)) (v.each j)
  ]);
}

settle_refines :
    (m : IpcManager) (boxes : Mailboxes) (n : IpcManager) (i : ℕ)
    (r : Result (Unit {0}) SyscallError) (q : MessageQueue) (xs : List IpcMessage)
    → i < max_queues
    → n.queues ≡ m.queues
    → Serves m boxes
    → Represents q xs
    → ((settle n i (r, q)).0 ≡ as_reply r) × Serves (settle n i (r, q)).1 (deliver boxes i xs)
unfolding settle
settle_refines m boxes n i (ok _) q xs h e v r =
    (refl, set-Serves m boxes _ i q xs h (ap (λ qs. set qs i q) e) v r)
settle_refines m boxes n i (err _) q xs h e v r =
    (refl, set-Serves m boxes _ i q xs h (ap (λ qs. set qs i q) e) v r)

pub send_refines :
    (m : IpcManager) (boxes : Mailboxes) (msg : IpcMessage)
    → Serves m boxes
    → ((send m msg).0 ≡ (post boxes msg).0) × Serves (send m msg).1 (post boxes msg).1
unfolding send post
send_refines m boxes msg v = elim (Bool-cases (leb max_queues msg.receiver)) [
  | inl out ↦ rw out (refl, v)
  | inr within ↦
      let pushed =
        push_refines (queue_of m msg.receiver) (boxes msg.receiver) msg (v.each msg.receiver) in
      let settled =
        settle_refines m boxes (record m { total_sent = add_u64 m.total_sent 1 }) msg.receiver
          (Queue.push (queue_of m msg.receiver) msg).0 _ _ (ground arith) refl v pushed.1 in
      rw within (settled.0 ∙ ap as_reply pushed.0, settled.1)
]

pub recv_refines :
    (m : IpcManager) (boxes : Mailboxes) (task : ℕ)
    → Serves m boxes
    → ((recv m task).0 ≡ (collect boxes task).0) × Serves (recv m task).1 (collect boxes task).1
unfolding recv collect
recv_refines m boxes task v = elim (Bool-cases (leb max_queues task)) [
  | inl out ↦ rw out (refl, v)
  | inr within ↦
      let popped = pop_refines (queue_of m task) (boxes task) (v.each task) in
      rw within (
        ap (λ (o : Option IpcMessage). answer o) popped.0,
        set-Serves m boxes _ task _ _ (ground arith) refl v popped.1,
      )
]

pub data Op : Type 0 where
  sends : IpcMessage → Op
  recvs : ℕ → Op

pub data Reply : Type 0 where
  sent : SyscallResult → Reply
  received : Result IpcMessage SyscallError → Reply

-- The replies to a sequence of calls, by the manager and by the mailboxes.
unfoldable pub run : IpcManager → List Op → List Reply
run m [] = []
run m (sends msg ∷ ops) = let (r, n) = send m msg in sent r ∷ run n ops
run m (recvs task ∷ ops) = let (r, n) = recv m task in received r ∷ run n ops

pub mailbox_run : Mailboxes → List Op → List Reply
mailbox_run boxes [] = []
mailbox_run boxes (sends msg ∷ ops) =
    let (r, after) = post boxes msg in sent r ∷ mailbox_run after ops
mailbox_run boxes (recvs task ∷ ops) =
    let (r, after) = collect boxes task in received r ∷ mailbox_run after ops

run-Serves :
    (ops : List Op) (m : IpcManager) (boxes : Mailboxes)
    → Serves m boxes
    → run m ops ≡ mailbox_run boxes ops
unfolding run mailbox_run
run-Serves [] m boxes v = refl
run-Serves (sends msg ∷ ops) m boxes v =
    let step = send_refines m boxes msg v in cc (step.0, run-Serves ops _ _ step.1)
run-Serves (recvs task ∷ ops) m boxes v =
    let step = recv_refines m boxes task v in cc (step.0, run-Serves ops _ _ step.1)

-- From boot on, every sequence of sends and receives is answered as by 64 separate mailboxes, each a
-- first-in first-out list of at most 16 messages: a message goes to its receiver's mailbox and to no
-- other, a full mailbox answers `WouldBlock`, a receiver or task of 64 or more is refused, and a
-- receive takes the oldest message of the task's own mailbox.
pub run_refines_mailboxes : (ops : List Op) → run new ops ≡ mailbox_run (λ _. []) ops
run_refines_mailboxes ops = run-Serves ops new (λ _. []) new-Serves
