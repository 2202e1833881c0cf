-- ===== src/Syscall/Policy/Exhaustive.antt =====
-- The table has one row for each number, and the numbers of the wire are those of the enum.
use brane_os.Prelude.{ℕ, ◌≡◌, ◌↔◌, ◌∙◌, sym, refl, ap, map, some, arith}
use brane_os.Syscall.Number.{
  exit, yield, get_pid, fork, exec, wait_pid, mmap, munmap, write, read, open_file, close, send,
  recv, send_recv, request_cap, release_cap, check_cap, get_time, get_system_info, brane_discover,
  brane_connect, brane_send, brane_recv, kill, sig_action, sig_return, sig_proc_mask, SyscallNumber,
  to_raw, from_raw, all, number_eq,
}
use brane_os.Syscall.Policy.{SyscallSpec, syscall_specs, syscall_spec}

own_row :
    (n : SyscallNumber) → (spec : SyscallSpec) × (syscall_spec n ≡ some spec) × (spec.number ≡ n)
unfolding syscall_specs syscall_spec number_eq to_raw
own_row exit = (_, refl, refl)
own_row yield = (_, refl, refl)
own_row get_pid = (_, refl, refl)
own_row fork = (_, refl, refl)
own_row exec = (_, refl, refl)
own_row wait_pid = (_, refl, refl)
own_row mmap = (_, refl, refl)
own_row munmap = (_, refl, refl)
own_row write = (_, refl, refl)
own_row read = (_, refl, refl)
own_row open_file = (_, refl, refl)
own_row close = (_, refl, refl)
own_row send = (_, refl, refl)
own_row recv = (_, refl, refl)
own_row send_recv = (_, refl, refl)
own_row request_cap = (_, refl, refl)
own_row release_cap = (_, refl, refl)
own_row check_cap = (_, refl, refl)
own_row get_time = (_, refl, refl)
own_row get_system_info = (_, refl, refl)
own_row brane_discover = (_, refl, refl)
own_row brane_connect = (_, refl, refl)
own_row brane_send = (_, refl, refl)
own_row brane_recv = (_, refl, refl)
own_row kill = (_, refl, refl)
own_row sig_action = (_, refl, refl)
own_row sig_return = (_, refl, refl)
own_row sig_proc_mask = (_, refl, refl)

from_raw-to_raw_all : (n : SyscallNumber) → from_raw (to_raw n) ≡ some n
unfolding from_raw to_raw
from_raw-to_raw_all exit = refl
from_raw-to_raw_all yield = refl
from_raw-to_raw_all get_pid = refl
from_raw-to_raw_all fork = refl
from_raw-to_raw_all exec = refl
from_raw-to_raw_all wait_pid = refl
from_raw-to_raw_all mmap = refl
from_raw-to_raw_all munmap = refl
from_raw-to_raw_all write = refl
from_raw-to_raw_all read = refl
from_raw-to_raw_all open_file = refl
from_raw-to_raw_all close = refl
from_raw-to_raw_all send = refl
from_raw-to_raw_all recv = refl
from_raw-to_raw_all send_recv = refl
from_raw-to_raw_all request_cap = refl
from_raw-to_raw_all release_cap = refl
from_raw-to_raw_all check_cap = refl
from_raw-to_raw_all get_time = refl
from_raw-to_raw_all get_system_info = refl
from_raw-to_raw_all brane_discover = refl
from_raw-to_raw_all brane_connect = refl
from_raw-to_raw_all brane_send = refl
from_raw-to_raw_all brane_recv = refl
from_raw-to_raw_all kill = refl
from_raw-to_raw_all sig_action = refl
from_raw-to_raw_all sig_return = refl
from_raw-to_raw_all sig_proc_mask = refl

-- The table lists the numbers of `ALL` in that order, so each has one row and no row is left over;
-- and the lookup of a number answers its own row.
specs_exhaustive :
    (map (λ (s : SyscallSpec). s.number) syscall_specs ≡ all)
    × ((n : SyscallNumber)
        → (spec : SyscallSpec) × (syscall_spec n ≡ some spec) × (spec.number ≡ n))
unfolding syscall_specs syscall_spec all number_eq to_raw
specs_exhaustive = (refl, own_row)

-- Decoding answers a number exactly for the raw value that it has on the wire, and each has one.
pub from_raw_iff : (v : ℕ) (n : SyscallNumber) → (from_raw v ≡ some n) ↔ (to_raw n ≡ v)
unfolding from_raw to_raw
from_raw_iff v n = (λ h. ground arith, λ h. ap from_raw (sym h) ∙ from_raw-to_raw_all n)
