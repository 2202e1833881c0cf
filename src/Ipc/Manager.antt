-- ===== src/Ipc/Manager.antt =====
-- `IpcManager` of kernel/src/ipc.rs: 64 task queues and the traffic counters, which are `u64` and
-- wrap. Log lines are left out.
pub mod Refine
pub mod Counters
use brane_os.Prelude.{
  ℕ, Option, none, some, List, replicate, get_or, set, Result, ok, err, leb, if◌then◌else◌, add_u64,
}
use brane_os.Syscall.Status.{
  SyscallError, SyscallResult, invalid_argument, invalid_destination, no_message,
}
use brane_os.Ipc.Message.{IpcMessage}
use brane_os.Ipc.Queue
use brane_os.Ipc.Queue.{MessageQueue}

abbrev pub max_queues : ℕ
max_queues = 64

pub record IpcManager : Type 0 where
  pub queues : List MessageQueue
  pub total_sent : ℕ
  pub total_delivered : ℕ
  pub total_dropped : ℕ

unfoldable pub new : IpcManager
new = record {
  queues = replicate max_queues Queue.new;
  total_sent = 0;
  total_delivered = 0;
  total_dropped = 0;
}

-- The queue of a task, which `send` and `recv` read only below `max_queues`.
unfoldable pub queue_of : IpcManager → ℕ → MessageQueue
queue_of m i = get_or m.queues i Queue.new

-- The end of `IpcManager::send`: what the push answered decides which counter goes up.
unfoldable pub settle :
    IpcManager → ℕ → Result (Unit {0}) SyscallError × MessageQueue → SyscallResult × IpcManager
settle m i (ok _, q) = (
  SyscallResult.ok 0,
  record m { queues = set m.queues i q; total_delivered = add_u64 m.total_delivered 1 },
)
settle m i (err e, q) = (
  SyscallResult.err e,
  record m { queues = set m.queues i q; total_dropped = add_u64 m.total_dropped 1 },
)

-- `IpcManager::send`.
unfoldable pub send : IpcManager → IpcMessage → SyscallResult × IpcManager
unfolding settle queue_of
send m msg =
    if leb max_queues msg.receiver
    then (SyscallResult.err invalid_destination, m)
    else settle (record m { total_sent = add_u64 m.total_sent 1 }) msg.receiver
        (Queue.push (queue_of m msg.receiver) msg)

-- The `match` on the popped message.
abbrev pub answer : Option IpcMessage → Result IpcMessage SyscallError
answer (some msg) = ok msg
answer none = err no_message

-- `IpcManager::recv`.
unfoldable pub recv : IpcManager → ℕ → Result IpcMessage SyscallError × IpcManager
unfolding queue_of
recv m task =
    if leb max_queues task
    then (err invalid_argument, m)
    else let (o, q) = Queue.pop (queue_of m task) in
      (answer o, record m { queues = set m.queues task q })

-- `IpcManager::pending_count`.
unfoldable pub pending_count : IpcManager → ℕ → ℕ
unfolding queue_of
pending_count m task = if leb max_queues task then 0 else Queue.len (queue_of m task)

pub stats : IpcManager → ℕ × ℕ × ℕ
stats m = (m.total_sent, m.total_delivered, m.total_dropped)
