-- ===== src/Brane/Session.antt =====
-- `BraneSession` of kernel/src/brane_session.rs: the handshake, the exchange of capabilities, and the
-- encrypted stream. The clock is the argument `now`; the key and the cipher are those of
-- kernel/src/crypto.rs.
pub mod Lifecycle
pub mod Stream
pub mod Handshake
use brane_os.Prelude.{
  ℕ, ◌+◌, ◌*◌, ◌^◌, Bool, true, false, ◌&&◌, Option, none, some, List, [], ◌∷◌, ◌++◌, length, take,
  replicate, Result, ok, err, ltb, if◌then◌else◌, add_u64,
}
use brane_os.Prelude.Bytes.{to_le}
use brane_os.Crypto.{Primitives, EphemeralKey, SessionCrypto, generate, diffie_hellman}
use brane_os.Crypto
use brane_os.Brane.Wire.{CapabilityOffer, CapabilityNegotiation}
use brane_os.Brane.Wire.Negotiation
use brane_os.Brane.Wire.Packet.{
  SessionPacket, handshake_init, capability_exchange, encrypted_data, disconnect,
}

pub data SessionError : Type 0 where
  invalid_state invalid_payload_size decryption_failed serialization_error crypto_engine_not_ready
        unexpected_packet :
      SessionError

pub data SessionState : Type 0 where
  init wait_response wait_capability established closed : SessionState

abbrev pub is_wait_response : SessionState → Bool
is_wait_response wait_response = true
is_wait_response _ = false

abbrev pub is_wait_capability : SessionState → Bool
is_wait_capability wait_capability = true
is_wait_capability _ = false

abbrev pub is_established_state : SessionState → Bool
is_established_state established = true
is_established_state _ = false

abbrev pub is_some : {A : Type 0} → Option A → Bool
is_some none = false
is_some (some _) = true

-- "BRANE_CONNECT", "IPC_SEND" and "IPC_RECV".
abbrev pub brane_connect_name : List ℕ
brane_connect_name = 66 ∷ 82 ∷ 65 ∷ 78 ∷ 69 ∷ 95 ∷ 67 ∷ 79 ∷ 78 ∷ 78 ∷ 69 ∷ 67 ∷ 84 ∷ []

abbrev pub ipc_send_name : List ℕ
ipc_send_name = 73 ∷ 80 ∷ 67 ∷ 95 ∷ 83 ∷ 69 ∷ 78 ∷ 68 ∷ []

abbrev pub ipc_recv_name : List ℕ
ipc_recv_name = 73 ∷ 80 ∷ 67 ∷ 95 ∷ 82 ∷ 69 ∷ 67 ∷ 86 ∷ []

unfoldable pub default_offers : List CapabilityOffer
default_offers =
    record { name = brane_connect_name; permissions_bits = 2 ^ 7; risk_level = 1 }
    ∷ record { name = ipc_send_name; permissions_bits = 2 ^ 5; risk_level = 0 }
    ∷ record { name = ipc_recv_name; permissions_bits = 2 ^ 6; risk_level = 0 }
    ∷ []

-- The twelve bytes of the nonce for the counter `n`.
unfoldable pub nonce_bytes : ℕ → List ℕ
nonce_bytes n = to_le 8 n ++ replicate 4 0

module _ (P : Primitives) where
  pub record BraneSession : Type 0 where
    pub socket_id : ℕ
    pub state : SessionState
    pub remote_node_id : Option (List ℕ)
    pub ephemeral_key : EphemeralKey P
    pub crypto_engine : Option (SessionCrypto P)
    pub local_capabilities : Option CapabilityNegotiation
    pub remote_capabilities : Option CapabilityNegotiation
    pub tx_nonce : ℕ
    pub rx_nonce : ℕ
    pub established_at : ℕ

  unfoldable pub new : (ℕ → ℕ) → ℕ → ℕ → BraneSession
  new word draw socket_id = record {
    socket_id = socket_id;
    state = init;
    remote_node_id = none;
    ephemeral_key = generate P word draw;
    crypto_engine = none;
    local_capabilities = none;
    remote_capabilities = none;
    tx_nonce = 0;
    rx_nonce = 0;
    established_at = 0;
  }

  unfoldable pub build_handshake_init : BraneSession → SessionPacket × BraneSession
  build_handshake_init s = (
    record { ptype = handshake_init; payload = P.public_bytes s.ephemeral_key.public },
    record s { state = wait_response },
  )

  unfoldable pub process_handshake_response :
      BraneSession → List ℕ → Result (Unit {0}) SessionError × BraneSession
  process_handshake_response s payload =
      if is_wait_response s.state
      then (if ltb (length payload) 32
          then (err invalid_payload_size, s)
          else let shared = diffie_hellman P s.ephemeral_key (P.public_from (take 32 payload)) in
            (
              ok tt,
              record s {
                crypto_engine = some (Crypto.new P shared);
                tx_nonce = 0;
                rx_nonce = 0;
                state = wait_capability;
              },
            ))
      else (err invalid_state, s)

  unfoldable pub build_capability_exchange :
      BraneSession → List ℕ → ℕ → Result SessionPacket SessionError × BraneSession
  build_capability_exchange s our_node_id now =
      let neg = record (Negotiation.new our_node_id now) { offered = default_offers } in
      if is_wait_capability s.state
      then (
        ok (record { ptype = capability_exchange; payload = Negotiation.to_bytes neg }),
        record s { local_capabilities = some neg },
      )
      else (err invalid_state, s)

  unfoldable pub process_capability_exchange :
      (List ℕ → List ℕ) → BraneSession → List ℕ → ℕ → Result (Unit {0}) SessionError × BraneSession
  process_capability_exchange lossy s payload now =
      if is_wait_capability s.state
      then (elim (Negotiation.from_bytes lossy payload) [
        | some neg ↦ (
          ok tt,
          record s {
            remote_node_id = some neg.node_id;
            remote_capabilities = some neg;
            state = established;
            established_at = now;
          },
        )
        | none ↦ (err serialization_error, s)
      ])
      else (err invalid_state, s)

  unfoldable pub get_tx_nonce : BraneSession → List ℕ × BraneSession
  get_tx_nonce s = (nonce_bytes s.tx_nonce, record s { tx_nonce = add_u64 s.tx_nonce 1 })

  unfoldable pub get_rx_nonce : BraneSession → List ℕ × BraneSession
  get_rx_nonce s = (nonce_bytes s.rx_nonce, record s { rx_nonce = add_u64 s.rx_nonce 1 })

  abbrev pub encrypted : Option (List ℕ) → Result SessionPacket SessionError
  encrypted none = err decryption_failed
  encrypted (some sealed) = ok (record { ptype = encrypted_data; payload = sealed })

  -- The nonce is used up before the engine is looked at.
  unfoldable pub encrypt_payload :
      BraneSession → List ℕ → Result SessionPacket SessionError × BraneSession
  unfolding get_tx_nonce
  encrypt_payload s plain =
      if is_established_state s.state
      then (let (nonce, after) = get_tx_nonce s in
          (
            elim s.crypto_engine [
              | none ↦ err crypto_engine_not_ready
              | some engine ↦ encrypted (Crypto.encrypt P engine nonce plain)
            ],
            after,
          ))
      else (err invalid_state, s)

  abbrev pub decrypted : Option (List ℕ) → Result (List ℕ) SessionError
  decrypted none = err decryption_failed
  decrypted (some plain) = ok plain

  unfoldable pub decrypt_payload :
      BraneSession → List ℕ → Result (List ℕ) SessionError × BraneSession
  unfolding get_rx_nonce
  decrypt_payload s sealed =
      if is_established_state s.state
      then (let (nonce, after) = get_rx_nonce s in
          (
            elim s.crypto_engine [
              | none ↦ err crypto_engine_not_ready
              | some engine ↦ decrypted (Crypto.decrypt P engine nonce sealed)
            ],
            after,
          ))
      else (err invalid_state, s)

  unfoldable pub close : BraneSession → SessionPacket × BraneSession
  close s = (record { ptype = disconnect; payload = [] }, record s { state = closed })

  unfoldable pub is_established : BraneSession → Bool
  is_established s = is_established_state s.state && is_some s.crypto_engine

  unfoldable pub summary : BraneSession → ℕ × SessionState × Bool
  summary s = (s.socket_id, s.state, is_established s)
