-- ===== src/Syscall/Number.antt =====
-- `SyscallNumber` of kernel/src/syscall.rs.
use brane_os.Prelude.{ℕ, Option, none, some, List, [], ◌∷◌, Bool, ◌==◌, if◌then◌else◌}

pub data SyscallNumber : Type 0 where
  exit yield get_pid fork exec wait_pid mmap munmap write read : SyscallNumber
  open_file close send recv send_recv request_cap release_cap check_cap get_time get_system_info :
      SyscallNumber
  brane_discover brane_connect brane_send brane_recv kill sig_action sig_return sig_proc_mask :
      SyscallNumber

-- `number as u64`.
unfoldable pub to_raw : SyscallNumber → ℕ
to_raw exit = 0
to_raw yield = 1
to_raw get_pid = 2
to_raw fork = 3
to_raw exec = 4
to_raw wait_pid = 5
to_raw mmap = 10
to_raw munmap = 11
to_raw write = 20
to_raw read = 21
to_raw open_file = 22
to_raw close = 23
to_raw send = 30
to_raw recv = 31
to_raw send_recv = 32
to_raw request_cap = 40
to_raw release_cap = 41
to_raw check_cap = 42
to_raw get_time = 50
to_raw get_system_info = 51
to_raw brane_discover = 60
to_raw brane_connect = 61
to_raw brane_send = 62
to_raw brane_recv = 63
to_raw kill = 70
to_raw sig_action = 71
to_raw sig_return = 72
to_raw sig_proc_mask = 73

-- The derived equality.
unfoldable pub number_eq : SyscallNumber → SyscallNumber → Bool
unfolding to_raw
number_eq a b = to_raw a == to_raw b

-- `SyscallNumber::ALL`.
unfoldable pub all : List SyscallNumber
all =
    exit ∷ yield ∷ get_pid ∷ fork ∷ exec ∷ wait_pid ∷ mmap ∷ munmap ∷ write ∷ read ∷ open_file
    ∷ close ∷ send ∷ recv ∷ send_recv ∷ request_cap ∷ release_cap ∷ check_cap ∷ get_time
    ∷ get_system_info ∷ brane_discover ∷ brane_connect ∷ brane_send ∷ brane_recv ∷ kill ∷ sig_action
    ∷ sig_return ∷ sig_proc_mask ∷ []

-- `SyscallNumber::from_raw`.
unfoldable pub from_raw : ℕ → Option SyscallNumber
from_raw n =
    if n == 0
    then some exit
    else if n == 1
    then some yield
    else if n == 2
    then some get_pid
    else if n == 3
    then some fork
    else if n == 4
    then some exec
    else if n == 5
    then some wait_pid
    else if n == 10
    then some mmap
    else if n == 11
    then some munmap
    else if n == 20
    then some write
    else if n == 21
    then some read
    else if n == 22
    then some open_file
    else if n == 23
    then some close
    else if n == 30
    then some send
    else if n == 31
    then some recv
    else if n == 32
    then some send_recv
    else if n == 40
    then some request_cap
    else if n == 41
    then some release_cap
    else if n == 42
    then some check_cap
    else if n == 50
    then some get_time
    else if n == 51
    then some get_system_info
    else if n == 60
    then some brane_discover
    else if n == 61
    then some brane_connect
    else if n == 62
    then some brane_send
    else if n == 63
    then some brane_recv
    else if n == 70
    then some kill
    else if n == 71
    then some sig_action
    else if n == 72
    then some sig_return
    else if n == 73
    then some sig_proc_mask
    else none
