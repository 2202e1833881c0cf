-- ===== src/Ipc/Tests.antt =====
-- Runs of the IPC model, and its theorems at concrete messages.
use brane_os.Prelude.{◌≡◌, refl, List, [], ◌∷◌, replicate, ok, err}
use brane_os.Syscall.Status.{SyscallResult, no_message, invalid_destination}
use brane_os.Ipc.Message.{IpcMessage, request, notification}
use brane_os.Ipc.Queue
use brane_os.Ipc.Manager
use brane_os.Ipc.Manager.{stats}
use brane_os.Ipc.Manager.Refine.{
  Op, Reply, sends, recvs, sent, received, mailbox_run, run_refines_mailboxes,
}

abbrev ping : IpcMessage
ping = record { sender = 1; receiver = 2; msg_type = request; payload_len = 1; payload = 7 ∷ [] }

abbrev notice : IpcMessage
notice = record { sender = 3; receiver = 2; msg_type = notification; payload_len = 0; payload = [] }

abbrev lost : IpcMessage
lost = record { sender = 3; receiver = 64; msg_type = notification; payload_len = 0; payload = [] }

abbrev traffic : List Op
traffic = sends ping ∷ sends notice ∷ sends lost ∷ recvs 2 ∷ recvs 2 ∷ recvs 2 ∷ []

replies_to_traffic :
    Manager.Refine.run Manager.new traffic
    ≡ sent (SyscallResult.ok 0)
      ∷ sent (SyscallResult.ok 0)
      ∷ sent (SyscallResult.err invalid_destination)
      ∷ received (ok ping)
      ∷ received (ok notice)
      ∷ received (err no_message)
      ∷ []
unfolding Manager.Refine.run Manager.new Manager.send Manager.recv Queue.new Queue.push Queue.pop
    replicate
replies_to_traffic = refl

run_refines_mailboxes_example :
    Manager.Refine.run Manager.new traffic ≡ mailbox_run (λ _. []) traffic
run_refines_mailboxes_example = run_refines_mailboxes traffic
