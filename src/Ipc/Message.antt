-- ===== src/Ipc/Message.antt =====
-- `MessageType` and `IpcMessage` of kernel/src/ipc.rs. A payload is the fixed array of 4096 bytes.
use brane_os.Prelude.{
  ℕ, ◌≤◌, ◌<◌, ◌≡◌, refl, Option, none, some, List, ◌++◌, length, take, drop, replicate, Result, ok,
  err, ltb, ◌==◌, if◌then◌else◌, arith, lt→ltb, le→ltb, length-append, length-drop,
  length-replicate, take-append_length,
}
use brane_os.Syscall.Status.{SyscallError, invalid_argument}

pub data MessageType : Type 0 where
  request response notification brane_relay : MessageType

pub from_raw : ℕ → Option MessageType
from_raw v =
    if v == 0
    then some request
    else if v == 1
    then some response
    else if v == 2
    then some notification
    else if v == 3
    then some brane_relay
    else none

-- The discriminant, `msg_type as u8`.
pub to_raw : MessageType → ℕ
to_raw request = 0
to_raw response = 1
to_raw notification = 2
to_raw brane_relay = 3

abbrev pub max_payload : ℕ
max_payload = 4096

pub record IpcMessage : Type 0 where
  pub sender : ℕ
  pub receiver : ℕ
  pub msg_type : MessageType
  pub payload_len : ℕ
  pub payload : List ℕ

-- `IpcMessage::new`: the bytes are copied over the front of a zeroed array.
unfoldable pub new : ℕ → ℕ → MessageType → List ℕ → Result IpcMessage SyscallError
new sender receiver msg_type bytes =
    if ltb max_payload (length bytes)
    then err invalid_argument
    else ok (record {
      sender = sender;
      receiver = receiver;
      msg_type = msg_type;
      payload_len = length bytes;
      payload = bytes ++ drop (length bytes) (replicate max_payload 0);
    })

-- `IpcMessage::data`, the slice of the payload in use.
unfoldable pub contents : IpcMessage → List ℕ
contents m = take m.payload_len m.payload

-- The wire tag of every message type is read back as that type, and every other tag is refused.
pub from_raw-to_raw :
    ((t : MessageType) → from_raw (to_raw t) ≡ some t)
    × ((v : ℕ) (t : MessageType) → from_raw v ≡ some t → v ≡ to_raw t)
unfolding from_raw to_raw
from_raw-to_raw = (decode, λ v t h. ground arith)
  where
    decode : (t : MessageType) → from_raw (to_raw t) ≡ some t
    decode request = refl
    decode response = refl
    decode notification = refl
    decode brane_relay = refl

-- Bytes that fit the payload array come back whole from the new message, which is addressed as asked
-- and whose payload array has its fixed size.
pub contents-new :
    (sender receiver : ℕ) (t : MessageType) (bytes : List ℕ)
    → length bytes ≤ max_payload
    → (m : IpcMessage) × (new sender receiver t bytes ≡ ok m)
      × (contents m ≡ bytes)
      × (length m.payload ≡ max_payload)
      × (m.sender ≡ sender)
      × (m.receiver ≡ receiver)
      × (m.msg_type ≡ t)
unfolding new contents
contents-new sender receiver t bytes h = (
  record {
    sender = sender;
    receiver = receiver;
    msg_type = t;
    payload_len = length bytes;
    payload = bytes ++ drop (length bytes) (replicate max_payload 0);
  },
  rw (le→ltb _ _ h),
  take-append_length bytes _,
  omega (
    arith,
    length-append bytes (drop (length bytes) (replicate max_payload 0)),
    length-drop (length bytes) (replicate {A = ℕ} max_payload 0),
    length-replicate {A = ℕ} max_payload 0,
  ),
  refl,
  refl,
  refl,
)

-- Longer data is refused.
pub new_too_long :
    (sender receiver : ℕ) (t : MessageType) (bytes : List ℕ)
    → max_payload < length bytes
    → new sender receiver t bytes ≡ err invalid_argument
unfolding new
new_too_long sender receiver t bytes h = rw (lt→ltb _ _ h)
