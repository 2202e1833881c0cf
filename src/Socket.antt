-- ===== src/Socket.antt =====
-- kernel/src/socket.rs: the table of 32 sockets. A socket in the state `closed` is a free slot.
pub mod Lookup
use brane_os.Prelude.{
  ℕ, ◌+◌, ◌%◌, ◌^◌, Bool, true, false, ◌&&◌, ◌||◌, not, Option, none, some, List, [], ◌∷◌, length,
  replicate, Result, ok, err, ok_or, ◌==◌, if◌then◌else◌, add_u64,
}
use mathlib.Core.Option

pub data Protocol : Type 0 where
  tcp udp : Protocol

pub data SocketState : Type 0 where
  closed created bound listening connected established : SocketState

pub record Endpoint : Type 0 where
  pub addr : List ℕ
  pub port : ℕ

unfoldable pub zero_endpoint : Endpoint
zero_endpoint = record { addr = replicate 4 0; port = 0 }

pub record Socket : Type 0 where
  pub id : ℕ
  pub protocol : Protocol
  pub state : SocketState
  pub local : Endpoint
  pub remote : Endpoint
  pub owner_pid : ℕ
  pub rx_bytes : ℕ
  pub tx_bytes : ℕ

abbrev pub is_closed : SocketState → Bool
is_closed closed = true
is_closed _ = false

abbrev pub is_created : SocketState → Bool
is_created created = true
is_created _ = false

abbrev pub is_bound : SocketState → Bool
is_bound bound = true
is_bound _ = false

abbrev pub is_connected : SocketState → Bool
is_connected connected = true
is_connected _ = false

abbrev pub is_established : SocketState → Bool
is_established established = true
is_established _ = false

abbrev pub is_tcp : Protocol → Bool
is_tcp tcp = true
is_tcp udp = false

abbrev pub is_active : Socket → Bool
is_active s = not (is_closed s.state)

unfoldable pub empty : Socket
unfolding zero_endpoint
empty = record {
  id = 0;
  protocol = tcp;
  state = closed;
  local = zero_endpoint;
  remote = zero_endpoint;
  owner_pid = 0;
  rx_bytes = 0;
  tx_bytes = 0;
}

abbrev pub max_sockets : ℕ
max_sockets = 32

pub data SocketError : Type 0 where
  not_found table_full invalid_state invalid_protocol connection_refused timeout io_error :
      SocketError

pub record SocketTable : Type 0 where
  pub sockets : List Socket
  pub next_id : ℕ

unfoldable pub new : SocketTable
new = record { sockets = replicate max_sockets empty; next_id = 1 }

-- The socket that `create` stores.
unfoldable pub fresh : ℕ → Protocol → ℕ → Socket
fresh id protocol owner_pid = record empty {
  id = id;
  protocol = protocol;
  state = created;
  owner_pid = owner_pid;
}

-- The first slot that is not active takes the socket.
unfoldable pub store : Socket → List Socket → Option (List Socket)
store a [] = none
store a (s ∷ ss) = if is_active s then Option.map (◌∷◌ s) (store a ss) else some (a ∷ ss)

-- `next_id` is a `u32`.
unfoldable pub create : SocketTable → Protocol → ℕ → Result ℕ SocketError × SocketTable
create t protocol owner_pid = elim (store (fresh t.next_id protocol owner_pid) t.sockets) [
  | some ss ↦ (ok t.next_id, record { sockets = ss; next_id = (t.next_id + 1) % 2 ^ 32 })
  | none ↦ (err table_full, t)
]

abbrev pub is_at : ℕ → Socket → Bool
is_at id s = s.id == id && is_active s

unfoldable pub find_at : ℕ → List Socket → Option Socket
find_at id [] = none
find_at id (s ∷ ss) = if is_at id s then some s else find_at id ss

unfoldable pub change_at : ℕ → (Socket → Socket) → List Socket → List Socket
change_at id f [] = []
change_at id f (s ∷ ss) = if is_at id s then f s ∷ ss else s ∷ change_at id f ss

unfoldable pub get : SocketTable → ℕ → Option Socket
get t id = find_at id t.sockets

-- A method that writes through `get_mut`: the verdict on the socket, and the write if it is `Ok`.
unfoldable pub through :
    SocketTable
    → ℕ
    → (Socket → Result (Unit {0}) SocketError)
    → (Socket → Socket)
    → Result (Unit {0}) SocketError × SocketTable
through t id verdict f = elim (find_at id t.sockets) [
  | none ↦ (err not_found, t)
  | some s ↦ elim (verdict s) [
    | ok _ ↦ (ok tt, record t { sockets = change_at id f t.sockets })
    | err e ↦ (err e, t)
  ]
]

-- `Err(InvalidState)` unless the test holds.
abbrev pub in_state : Bool → Result (Unit {0}) SocketError
in_state true = ok tt
in_state false = err invalid_state

unfoldable pub bind : SocketTable → ℕ → List ℕ → ℕ → Result (Unit {0}) SocketError × SocketTable
bind t id addr port =
    through t id (λ s. in_state (is_created s.state))
      (λ s. record s { local = record { addr = addr; port = port }; state = bound })

unfoldable pub listen : SocketTable → ℕ → Result (Unit {0}) SocketError × SocketTable
listen t id =
    through t id
      (λ s. if is_tcp s.protocol then in_state (is_bound s.state) else err invalid_protocol)
      (λ s. record s { state = listening })

unfoldable pub connect : SocketTable → ℕ → List ℕ → ℕ → Result (Unit {0}) SocketError × SocketTable
connect t id addr port =
    through t id (λ s. ok tt)
      (λ s. record s { remote = record { addr = addr; port = port }; state = connected })

unfoldable pub close : SocketTable → ℕ → Result (Unit {0}) SocketError × SocketTable
close t id = through t id (λ s. ok tt) (λ s. record s { state = closed })

unfoldable pub send : SocketTable → ℕ → List ℕ → Result (Unit {0}) SocketError × SocketTable
send t id buf =
    through t id (λ s. in_state (is_connected s.state || is_established s.state))
      (λ s. record s { tx_bytes = add_u64 s.tx_bytes (length buf) })

unfoldable pub send_to :
    SocketTable → ℕ → List ℕ → List ℕ → ℕ → Result (Unit {0}) SocketError × SocketTable
send_to t id buf addr port =
    through t id (λ s. in_state (is_bound s.state || is_connected s.state))
      (λ s. record s { tx_bytes = add_u64 s.tx_bytes (length buf) })

-- A stub in the source: no datagram ever comes.
unfoldable pub recv_from : SocketTable → ℕ → Result (ℕ × Endpoint) SocketError
recv_from t id = elim (find_at id t.sockets) [
  | none ↦ err not_found
  | some s ↦ if is_bound s.state || is_connected s.state then err timeout else err invalid_state
]

unfoldable pub active_sockets : List Socket → List Socket
active_sockets [] = []
active_sockets (s ∷ ss) = if is_active s then s ∷ active_sockets ss else active_sockets ss

unfoldable pub active_count : SocketTable → ℕ
active_count t = length (active_sockets t.sockets)
