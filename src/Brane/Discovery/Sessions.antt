-- ===== src/Brane/Discovery/Sessions.antt =====
-- The sessions that `DiscoverySubsystem` of kernel/src/brane_discovery.rs holds, by socket: what the
-- bytes of a peer do to them. The `BTreeMap` is a function from socket ids; error texts are
-- constructors.
use brane_os.Prelude.{
  ℕ, ◌≡◌, refl, Bool, Option, none, some, List, Result, ok, err, ◌==◌, if◌then◌else◌, Option-cases,
  inl, inr, Bool-cases, ==→eq, ==_refl,
}
use brane_os.Crypto.{Primitives}
use brane_os.Brane.Wire.Packet.{
  SessionPacket, SessionPacketType, handshake_init, handshake_response, capability_exchange,
  encrypted_data, alert, disconnect, parse,
}
use brane_os.Brane.Wire.Packet
use brane_os.Brane.Session.{
  BraneSession, SessionError, SessionState, process_handshake_response, process_capability_exchange,
  build_capability_exchange, decrypt_payload, summary,
}
use brane_os.Brane.Session.Lifecycle.{
  response, exchange, receive, IsSound, perform, perform-IsSound,
}

pub data DataError : Type 0 where
  session_error : SessionError → DataError
  decryption_failed unexpected_packet_type failed_to_parse session_not_found failed_to_build :
      DataError

module _ (P : Primitives) (lossy : List ℕ → List ℕ) where
  abbrev pub Sessions : Type 0
  Sessions = ℕ → Option (BraneSession P)

  -- What is left in the map after the session under `k` was changed in place.
  unfoldable pub put : Sessions → ℕ → BraneSession P → Sessions
  put sessions k s j = if k == j then some s else sessions j

  -- The `?` on a method's result.
  abbrev pub forward : Result (Unit {0}) SessionError → Result (Unit {0}) DataError
  forward (ok _) = ok tt
  forward (err e) = err (session_error e)

  abbrev pub opened : Result (List ℕ) SessionError → Result (Unit {0}) DataError
  opened (ok _) = ok tt
  opened (err _) = err decryption_failed

  -- The `match pkt.ptype`.
  unfoldable pub process_packet :
      SessionPacketType → BraneSession P → List ℕ → ℕ → Result (Unit {0}) DataError × BraneSession P
  process_packet handshake_response s payload now =
      let (r, s') = process_handshake_response P s payload in (forward r, s')
  process_packet capability_exchange s payload now =
      let (r, s') = process_capability_exchange P lossy s payload now in (forward r, s')
  process_packet encrypted_data s payload now =
      let (r, s') = decrypt_payload P s payload in (opened r, s')
  process_packet _ s payload now = (err unexpected_packet_type, s)

  -- `process_session_data`: the packet at the front of the bytes goes to the session of the socket.
  unfoldable pub process_session_data :
      Sessions → ℕ → List ℕ → ℕ → Result (Unit {0}) DataError × Sessions
  process_session_data sessions socket_id bytes now = elim (sessions socket_id) [
    | none ↦ (err session_not_found, sessions)
    | some s ↦ elim (parse bytes) [
      | none ↦ (err failed_to_parse, sessions)
      | some (pkt, len) ↦
          let (r, s') = process_packet pkt.ptype s pkt.payload now in (r, put sessions socket_id s')
    ]
  ]

  -- `send_capabilities`: the bytes for the socket, and the sessions.
  unfoldable pub send_capabilities :
      Sessions → List ℕ → ℕ → ℕ → Result (List ℕ) DataError × Sessions
  send_capabilities sessions node_id socket_id now = elim (sessions socket_id) [
    | none ↦ (err session_not_found, sessions)
    | some s ↦
        let (r, s') = build_capability_exchange P s node_id now in
        (
          elim r [ ok pkt ↦ ok (Packet.to_bytes pkt) | err _ ↦ err failed_to_build ],
          put sessions socket_id s',
        )
  ]

  unfoldable pub session_status : Sessions → ℕ → Option (ℕ × SessionState × Bool)
  session_status sessions socket_id = elim (sessions socket_id) [
    | none ↦ none
    | some s ↦ some (summary P s)
  ]

  process_packet-IsSound :
      (t : SessionPacketType) (s : BraneSession P) (payload : List ℕ) (now : ℕ)
      → IsSound P lossy s
      → IsSound P lossy (process_packet t s payload now).1
  unfolding process_packet perform
  process_packet-IsSound handshake_response s payload now h =
      perform-IsSound P lossy (response payload) s h
  process_packet-IsSound capability_exchange s payload now h =
      perform-IsSound P lossy (exchange payload now) s h
  process_packet-IsSound encrypted_data s payload now h =
      perform-IsSound P lossy (receive payload) s h
  process_packet-IsSound handshake_init s payload now h = h
  process_packet-IsSound alert s payload now h = h
  process_packet-IsSound disconnect s payload now h = h

  abbrev pub SoundAt : Option (BraneSession P) → Type 0
  SoundAt none = Unit
  SoundAt (some s) = IsSound P lossy s

  at_same :
      (sessions : Sessions) (k j : ℕ) → sessions j ≡ (if k == j then sessions k else sessions j)
  at_same sessions k j = elim (Bool-cases (k == j)) [
    | inl same ↦ rw (same, ==→eq k j same) refl
    | inr other ↦ rw other refl
  ]

  put_lem :
      (sessions : Sessions) (k j : ℕ) (s : BraneSession P)
      → SoundAt (sessions j)
      → (SoundAt (sessions k) → IsSound P lossy s)
      → SoundAt (put sessions k s j)
        × (put sessions k s j ≡ (if k == j then put sessions k s k else sessions j))
  unfolding put
  put_lem sessions k j s h sound = elim (Bool-cases (k == j)) [
    | inl same ↦ rw (same, ==_refl k) (sound (rw (==→eq k j same) h), refl)
    | inr other ↦ rw other (h, refl)
  ]

  -- Whatever bytes a peer sends on a socket: every session that was sound is sound, and the session
  -- of another socket is the one that was there.
  pub session_data_lem :
      (sessions : Sessions) (socket_id : ℕ) (bytes : List ℕ) (now j : ℕ)
      → SoundAt (sessions j)
      → let after = (process_session_data sessions socket_id bytes now).1 in
        SoundAt (after j) × (after j ≡ (if socket_id == j then after socket_id else sessions j))
  unfolding process_session_data
  session_data_lem sessions socket_id bytes now j h = elim (Option-cases (sessions socket_id)) [
    | inl e ↦ rw (e, process_session_data) (h, at_same sessions socket_id j)
    | inr (s, e) ↦ elim (Option-cases (parse bytes)) [
      | inl q ↦
          rw (e, process_session_data, q, process_session_data) (h, at_same sessions socket_id j)
      | inr ((pkt, len), q) ↦
          rw (e, process_session_data, q, process_session_data)
            (put_lem sessions socket_id j (process_packet pkt.ptype s pkt.payload now).1 h
              (λ at_socket. process_packet-IsSound pkt.ptype s pkt.payload now (rw e at at_socket)))
    ]
  ]
