-- ===== src/Ipc/Manager/Counters.antt =====
-- Traffic accounting of the IPC manager: the three wrapping counters stay in step.
use brane_os.Prelude.{
  ℕ, ◌+◌, ◌%◌, ◌^◌, ◌<◌, ◌≡◌, Result, ok, err, List, [], ◌∷◌, arith, Bool-cases, leb, inl, inr,
  add_u64,
}
use brane_os.Syscall.Status.{SyscallError}
use brane_os.Ipc.Message.{IpcMessage}
use brane_os.Ipc.Queue
use brane_os.Ipc.Queue.{MessageQueue}
use brane_os.Ipc.Manager.{IpcManager, max_queues, settle, new, send, recv, stats, queue_of}
use brane_os.Ipc.Manager.Refine.{Op, sends, recvs}

abbrev pub Balanced : ℕ × ℕ × ℕ → Type 0
Balanced (sent, delivered, dropped) =
    (sent ≡ (delivered + dropped) % 2 ^ 64) × (delivered < 2 ^ 64) × (dropped < 2 ^ 64)

-- The manager after a sequence of calls.
unfoldable pub after : IpcManager → List Op → IpcManager
after m [] = m
after m (sends msg ∷ ops) = after (send m msg).1 ops
after m (recvs task ∷ ops) = after (recv m task).1 ops

settle-Balanced :
    (m : IpcManager) (i : ℕ) (r : Result (Unit {0}) SyscallError × MessageQueue)
    → Balanced (stats m)
    → Balanced (stats (settle (record m { total_sent = add_u64 m.total_sent 1 }) i r).1)
unfolding stats settle
settle-Balanced m i (ok _, q) b = omega arith
settle-Balanced m i (err _, q) b = omega arith

send-Balanced :
    (m : IpcManager) (msg : IpcMessage) → Balanced (stats m) → Balanced (stats (send m msg).1)
unfolding send
send-Balanced m msg b = elim (Bool-cases (leb max_queues msg.receiver)) [
  | inl out ↦ rw out b
  | inr within ↦
      rw within (settle-Balanced m msg.receiver (Queue.push (queue_of m msg.receiver) msg) b)
]

recv-Balanced : (m : IpcManager) (task : ℕ) → Balanced (stats m) → Balanced (stats (recv m task).1)
unfolding recv stats
recv-Balanced m task b = elim (Bool-cases (leb max_queues task)) [
  | inl out ↦ rw out b
  | inr within ↦ rw within b
]

after-Balanced :
    (ops : List Op) (m : IpcManager) → Balanced (stats m) → Balanced (stats (after m ops))
unfolding after
after-Balanced [] m b = b
after-Balanced (sends msg ∷ ops) m b = after-Balanced ops _ (send-Balanced m msg b)
after-Balanced (recvs task ∷ ops) m b = after-Balanced ops _ (recv-Balanced m task b)

-- After any sequence of sends and receives from boot, the count of messages sent is the sum of those
-- delivered and those dropped, modulo the wrap-around of the 64-bit counters.
pub stats-after : (ops : List Op) → Balanced (stats (after new ops))
unfolding new stats
stats-after ops = after-Balanced ops new (omega arith)
