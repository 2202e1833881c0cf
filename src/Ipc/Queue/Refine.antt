-- ===== src/Ipc/Queue/Refine.antt =====
-- The ring of `MessageQueue` refines a bounded first-in first-out list of messages.
use brane_os.Prelude.{
  ◌+◌, ◌%◌, ◌≤◌, ◌<◌, ◌≡◌, refl, Option, none, some, List, [], ◌∷◌, ◌++◌, length, length-set,
  length-append, length-replicate, Result, ok, err, leb, if◌then◌else◌, arith,
}
use brane_os.Prelude.Circular.{Holds, push-Holds, pop-Holds}
use brane_os.Syscall.Status.{SyscallError, would_block}
use brane_os.Ipc.Message.{IpcMessage}
use brane_os.Ipc.Queue.{MessageQueue, queue_capacity, new, push, pop}

-- The queue holds exactly these messages, oldest first, and its indices are in range.
pub record Represents (q : MessageQueue) (xs : List IpcMessage) : Type 0 where
  pub slots : length q.messages ≡ queue_capacity
  pub head_in : q.head < queue_capacity
  pub tail_after : q.tail ≡ (q.head + q.count) % queue_capacity
  pub counted : q.count ≡ length xs
  pub bounded : length xs ≤ queue_capacity
  pub held : Holds queue_capacity q.messages q.head xs

-- The abstract queue.
unfoldable pub fifo_push :
    List IpcMessage → IpcMessage → Result (Unit {0}) SyscallError × List IpcMessage
fifo_push xs m =
    if leb queue_capacity (length xs) then (err would_block, xs) else (ok tt, xs ++ (m ∷ []))

unfoldable pub fifo_pop : List IpcMessage → Option IpcMessage × List IpcMessage
fifo_pop [] = (none, [])
fifo_pop (m ∷ xs) = (some m, xs)

pub new-Represents : Represents new []
unfolding new
new-Represents = record {
  slots = length-replicate queue_capacity none;
  head_in = omega arith;
  tail_after = refl;
  counted = refl;
  bounded = omega arith;
  held = tt;
}

-- `push` answers as the bounded queue does, and leaves the ring holding its contents.
pub push_refines :
    (q : MessageQueue) (xs : List IpcMessage) (m : IpcMessage)
    → Represents q xs
    → ((push q m).0 ≡ (fifo_push xs m).0) × Represents (push q m).1 (fifo_push xs m).1
unfolding push fifo_push
push_refines q xs m v = ground (
  arith,
  length-set q.messages q.tail (some m),
  length-append xs (m ∷ []),
  push-Holds queue_capacity q.messages q.head q.tail m xs,
)

-- `pop` hands out the oldest message, or none, as the bounded queue does.
pub pop_refines :
    (q : MessageQueue) (xs : List IpcMessage)
    → Represents q xs
    → ((pop q).0 ≡ (fifo_pop xs).0) × Represents (pop q).1 (fifo_pop xs).1
unfolding pop fifo_pop
pop_refines q [] v = ground arith
pop_refines q (x ∷ xs) v =
    ground
      (arith, length-set q.messages q.head none, pop-Holds queue_capacity q.messages q.head x xs)

pub data Op : Type 0 where
  pushes : IpcMessage → Op
  pops : Op

pub data Reply : Type 0 where
  pushed : Result (Unit {0}) SyscallError → Reply
  popped : Option IpcMessage → Reply

-- The replies to a sequence of calls, by the ring and by the bounded list.
unfoldable pub run : MessageQueue → List Op → List Reply
run q [] = []
run q (pushes m ∷ ops) = let (r, q') = push q m in pushed r ∷ run q' ops
run q (pops ∷ ops) = let (r, q') = pop q in popped r ∷ run q' ops

pub fifo_run : List IpcMessage → List Op → List Reply
fifo_run xs [] = []
fifo_run xs (pushes m ∷ ops) = let (r, ys) = fifo_push xs m in pushed r ∷ fifo_run ys ops
fifo_run xs (pops ∷ ops) = let (r, ys) = fifo_pop xs in popped r ∷ fifo_run ys ops

run-Represents :
    (ops : List Op) (q : MessageQueue) (xs : List IpcMessage)
    → Represents q xs
    → run q ops ≡ fifo_run xs ops
unfolding run fifo_run
run-Represents [] q xs v = refl
run-Represents (pushes m ∷ ops) q xs v =
    let step = push_refines q xs m v in cc (step.0, run-Represents ops _ _ step.1)
run-Represents (pops ∷ ops) q xs v =
    let step = pop_refines q xs v in cc (step.0, run-Represents ops _ _ step.1)

-- Whatever calls a fresh queue gets, it answers each as a first-in first-out list of at most 16
-- messages: a push onto 16 pending messages is refused with `WouldBlock` and loses nothing else, and
-- a pop hands out the oldest message.
pub run_refines_fifo : (ops : List Op) → run new ops ≡ fifo_run [] ops
run_refines_fifo ops = run-Represents ops new [] new-Represents
