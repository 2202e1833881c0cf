-- ===== src/Lib.antt =====
-- Brane OS, the kernel of kernel/src: its state machines as functions on records, and what makes them
-- correct. The locked statics of the kernel are explicit state that each function takes and gives
-- back; `Option` and `Result` are values; log lines are left out everywhere.
--
-- Parts and files
--   Prelude    lists with native indices, machine words, `Result`, bits of a word; `Slots`, the array of
--              optional entries that several tables scan; `Circular`, the array with a head and a count
--              that the IPC queues and the audit log share.
--   Ipc        kernel/src/ipc.rs. Message: `IpcMessage`, `MessageType`. Queue: `MessageQueue` (`push`,
--              `pop`, 32 slots). Manager: `IpcManager` (`send`, `recv`, the counters), which indexes its
--              64 queues by task id.
--   Audit      kernel/src/audit.rs: `AuditLog` (`record_at`, `last_n`, 512 slots) and the entry points
--              (`record`, `record_anonymous`, `log_syscall` and the others).
--   Security   kernel/src/security.rs: `CapPermissions`, `Capability`, `CapabilityManager` (`grant`,
--              `check`, `revoke`); Service holds `grant_capability` and `revoke_capability`, which also
--              write the audit log.
--   Process    kernel/src/process.rs. Memory: `contains_user_range`. AddressSpace: pins and generations.
--              Table: `ProcessTable` (`create`, `get`, `start`, `terminate`, the lookups, the
--              address-space operations); `UserContext` is the record of kernel/src/usermode.rs. A write
--              through `get_mut` is `update` with the written function.
--   Brane      The brane protocol. Wire: the packets, offers and negotiations of
--              kernel/src/brane_session.rs as byte lists. Session: its `BraneSession` (handshake,
--              capability exchange, `encrypt_payload`, `decrypt_payload`), with Lifecycle for sequences
--              of calls, Stream and Handshake for two sessions. Manager: `BraneManager` of
--              kernel/src/brane.rs. Discovery: the announcements of kernel/src/brane_discovery.rs, the
--              sessions it keeps by socket and, in Subsystem, its calls of the socket table.
--   Socket     kernel/src/socket.rs: `SocketTable`, 32 sockets by id.
--   Block      kernel/src/block.rs: `BlockRegistry` and the checked transfers to a driver.
--   Ramfs      kernel/src/ramfs.rs: `RamFs`, with Path for its path strings, Store for the inodes,
--              Boot for `init`; Vfs holds the types of kernel/src/vfs.rs.
--   Ai         kernel/src/ai.rs: `AiEngine` (`observe`, `try_execute`, `last_insights`, 64 slots).
--   Crypto     kernel/src/crypto.rs: `fill_bytes`, `EphemeralKey`, `SessionCrypto`.
--   Memory     kernel/src/memory/frame_allocator.rs: `BitmapFrameAllocator`.
--   Signal     kernel/src/signal.rs: `SignalManager` (`send`, `set_action`, `get_action`,
--              `deliver_pending`) over the process table.
--   Sched      kernel/src/sched.rs: RunQueue is `CpuRunQueue`, the queue of one CPU; MultiCore
--              is `MultiCoreScheduler` (assignment, `dequeue`, `complete`, `steal`, `dispatch`).
--   Syscall    kernel/src/syscall.rs. Number, Rules, Policy: the numbers of the ABI and the table of 28
--              policies. UserRange: the checks of user pointers; the page-table walk is an argument, as
--              it is in the source. Authorize: `authorize` over the capability and process tables.
--              Kernel: the state of the kernel that a call sees. Handlers and Dispatch: `dispatch`, cut
--              at its early returns into `enter`, `mediate`, `run` and `deliver`, with every handler.
--
-- How they interact
--   `dispatch` finds the caller through the scheduler and the process table, counts the call, looks up
--   the policy, asks `authorize` (which reads capabilities and processes), runs the handler (which may
--   write processes, signal actions, the scheduler or the saved registers), writes the audit log, and
--   delivers a pending signal of the caller.
--
--   The discovery subsystem opens a socket for its announcements and one for each handshake.
--   Bytes of a peer go through `process_session_data` to the session of the socket, which reads the
--   packets of Wire and calls Crypto; the manager writes the audit log at each connection.
--
-- Conventions and bounds
--   Numbers are native; a `u64` that may wrap is reduced `% 2 ^ 64` (`add_u64`), a `checked_add` is an
--   `Option`, a saturating one a `min`; a panic, where one is modelled, is `None`. Where a theorem needs
--   a counter not to wrap, as for the next process id or token id, that is a hypothesis. Loops over
--   arrays are structural recursion on the array; the loops over ranges of numbers recurse on the number
--   of rounds left, which is computed before the loop. The loop of `fill_bytes` gets as many rounds as
--   there are bytes, and a round fills one at least. A lock is held for the whole of an operation, so
--   operations do not interleave inside; sequences of operations are lists of steps or a reachability
--   relation.
--   Byte strings are lists of numbers. Error texts are constructors.
--
-- Parameters
--   Syscall.Kernel.Scheduler, the five operations of kernel/src/sched.rs that a system call uses; the
--   CPU number, which the APIC gives; the page resolver of `validate_pages`. Crypto.Primitives, the
--   operations of the crates `salty` and `chacha20poly1305`, with what they promise in
--   `Crypto.IsLawful`; the words that RDRAND draws; `from_utf8_lossy`, `from_utf8` and the parse of two
--   hex digits; Block.BlockDevice, the trait that a storage driver fills.
--
-- Not modelled
--   The rest of kernel/src/sched.rs (`bounded_handoff`, the CPU-local slots, `Scheduler`), the
--   mounts of kernel/src/vfs.rs, FAT32, paging and the heap, the network interface, the module loader, the node identity and the
--   firmware tables are code of their own that this library does not cover yet. Drivers and processor
--   setup (apic.rs, idt.rs, gdt.rs, pic.rs, smp.rs, virtio, xhci, framebuffer, serial) are register
--   access and privileged instructions. runner/src/main.rs starts an emulator.
pub mod Ai
pub mod Audit
pub mod Block
pub mod Brane
pub mod Crypto
pub mod Ipc
pub mod Memory
pub mod Prelude
pub mod Process
pub mod Ramfs
pub mod Sched
pub mod Security
pub mod Signal
pub mod Socket
pub mod Syscall
pub mod Vfs
