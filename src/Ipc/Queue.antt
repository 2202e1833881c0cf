-- ===== src/Ipc/Queue.antt =====
-- `MessageQueue` of kernel/src/ipc.rs: a ring of 16 optional messages with `head`, `tail` and `count`.
pub mod Refine
use brane_os.Prelude.{
  ℕ, ◌+◌, ◌-◌, ◌%◌, Bool, Option, none, some, List, replicate, get_or, set, Result, ok, err, leb,
  ◌==◌, if◌then◌else◌,
}
use brane_os.Syscall.Status.{SyscallError, would_block}
use brane_os.Ipc.Message.{IpcMessage}

abbrev pub queue_capacity : ℕ
queue_capacity = 16

pub record MessageQueue : Type 0 where
  pub messages : List (Option IpcMessage)
  pub head : ℕ
  pub tail : ℕ
  pub count : ℕ

unfoldable pub new : MessageQueue
new = record { messages = replicate queue_capacity none; head = 0; tail = 0; count = 0 }

-- `MessageQueue::push`, with the queue that it leaves.
unfoldable pub push : MessageQueue → IpcMessage → Result (Unit {0}) SyscallError × MessageQueue
push q msg = if leb queue_capacity q.count then (err would_block, q) else (
  ok tt,
  record q {
    messages = set q.messages q.tail (some msg);
    tail = (q.tail + 1) % queue_capacity;
    count = q.count + 1;
  },
)

-- `MessageQueue::pop`: `take()` empties the slot that it reads.
unfoldable pub pop : MessageQueue → Option IpcMessage × MessageQueue
pop q = if q.count == 0 then (none, q) else (
  get_or q.messages q.head none,
  record q {
    messages = set q.messages q.head none;
    head = (q.head + 1) % queue_capacity;
    count = q.count - 1;
  },
)

unfoldable pub len : MessageQueue → ℕ
len q = q.count

pub is_empty : MessageQueue → Bool
is_empty q = q.count == 0
