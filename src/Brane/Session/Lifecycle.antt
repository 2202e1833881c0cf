-- ===== src/Brane/Session/Lifecycle.antt =====
-- What holds of a session after any calls, in any order, with any bytes from the peer: `BraneSession`
-- of kernel/src/brane_session.rs.
use brane_os.Prelude.{
  ℕ, ◌≡◌, Bool, true, false, ◌||◌, if◌then◌else◌, ◌==◌, ◌≤◌, ◌&&◌, length, leb, add_u64, ◌⊎◌, ◌≢◌,
  Option, none, some, List, [], ◌∷◌, Result, ok, err, arith,
}
use brane_os.Crypto.{Primitives}
use brane_os.Brane.Wire.{CapabilityNegotiation}
use brane_os.Brane.Wire.Negotiation
use brane_os.Brane.Session.{
  BraneSession, crypto_engine_not_ready, init, wait_response, wait_capability, established, closed,
  SessionState, is_wait_capability, is_established_state, is_some, new, build_handshake_init,
  process_handshake_response, build_capability_exchange, process_capability_exchange,
  encrypt_payload, decrypt_payload, close, is_established, get_tx_nonce, get_rx_nonce,
}

-- A call of a session's method.
pub data Call : Type 0 where
  start shut : Call
  response : List ℕ → Call
  offer : List ℕ → ℕ → Call
  exchange : List ℕ → ℕ → Call
  send receive : List ℕ → Call

abbrev pub is_ok : {A E : Type 0} → Result A E → Bool
is_ok (ok _) = true
is_ok (err _) = false

-- The node that a negotiation names.
abbrev pub node_of : Option CapabilityNegotiation → Option (List ℕ)
node_of none = none
node_of (some neg) = some neg.node_id

module _ (P : Primitives) (lossy : List ℕ → List ℕ) where
  unfoldable pub perform : Call → BraneSession P → BraneSession P
  perform start s = (build_handshake_init P s).1
  perform shut s = (close P s).1
  perform (response payload) s = (process_handshake_response P s payload).1
  perform (offer node now) s = (build_capability_exchange P s node now).1
  perform (exchange payload now) s = (process_capability_exchange P lossy s payload now).1
  perform (send plain) s = (encrypt_payload P s plain).1
  perform (receive sealed) s = (decrypt_payload P s sealed).1

  unfoldable pub run : List Call → BraneSession P → BraneSession P
  run [] s = s
  run (c ∷ cs) s = run cs (perform c s)

  -- A session that waits for capabilities has its engine, and an established one also knows its peer.
  pub record IsSound (s : BraneSession P) : Type 0 where
    pub keyed :
        (is_wait_capability s.state || is_established_state s.state) ≡ true
        → is_some s.crypto_engine ≡ true
    pub agreed :
        is_established_state s.state ≡ true
        → (is_some s.remote_capabilities ≡ true)
          × (s.remote_node_id ≡ node_of s.remote_capabilities)

  pub perform-IsSound : (c : Call) (s : BraneSession P) → IsSound s → IsSound (perform c s)
  unfolding perform build_handshake_init close process_handshake_response build_capability_exchange
      process_capability_exchange encrypt_payload decrypt_payload get_tx_nonce get_rx_nonce
  perform-IsSound start s h = ground arith
  perform-IsSound shut s h = ground arith
  perform-IsSound (response payload) s h = ground arith
  perform-IsSound (offer node now) s h = ground arith
  perform-IsSound (exchange payload now) s h = ground arith
  perform-IsSound (send plain) s h = ground arith
  perform-IsSound (receive sealed) s h = ground arith

  pub run-IsSound : (cs : List Call) (s : BraneSession P) → IsSound s → IsSound (run cs s)
  unfolding run
  run-IsSound [] s h = h
  run-IsSound (c ∷ cs) s h = run-IsSound cs (perform c s) (perform-IsSound c s h)

  pub new-IsSound : (word : ℕ → ℕ) (draw socket_id : ℕ) → IsSound (new P word draw socket_id)
  unfolding new
  new-IsSound word draw socket_id = ground arith

  -- A session that came from `new` by any calls with any bytes, and is in the state `established`, is
  -- one that `is_established` reports: it has its engine, so that neither direction of the stream
  -- fails for want of it; and it has the peer's negotiation, whose node id is the remote node id.
  pub established_keyed :
      (word : ℕ → ℕ) (draw socket_id : ℕ) (cs : List Call) (bytes : List ℕ) (s : BraneSession P)
      → s ≡ run cs (new P word draw socket_id)
      → is_established_state s.state ≡ true
      → (is_established P s ≡ true)
        × ((encrypt_payload P s bytes).0 ≢ err crypto_engine_not_ready)
        × ((decrypt_payload P s bytes).0 ≢ err crypto_engine_not_ready)
        × (is_some s.remote_capabilities ≡ true)
        × (s.remote_node_id ≡ node_of s.remote_capabilities)
  unfolding is_established encrypt_payload decrypt_payload
  established_keyed word draw socket_id cs bytes s from e = ground (arith, sound)
    where
      sound : IsSound s
      sound = rw from (run-IsSound cs _ (new-IsSound word draw socket_id))

  -- How far a session can have come: a handshake begun, a public key of 32 bytes received, and a
  -- readable negotiation received, in this order.
  unfoldable pub advance : Call → ℕ → ℕ
  advance start stage = if stage == 0 then 1 else stage
  advance (response payload) stage = if stage == 1 && leb 32 (length payload) then 2 else stage
  advance (exchange payload now) stage =
      if stage == 2 && is_some (Negotiation.from_bytes lossy payload) then 3 else stage
  advance _ stage = stage

  unfoldable pub stage_after : List Call → ℕ → ℕ
  stage_after [] stage = stage
  stage_after (c ∷ cs) stage = stage_after cs (advance c stage)

  abbrev pub rank : SessionState → ℕ
  rank init = 0
  rank wait_response = 1
  rank wait_capability = 2
  rank established = 3
  rank closed = 0

  rank-perform :
      (c : Call) (s : BraneSession P) (stage : ℕ)
      → rank s.state ≤ stage
      → stage ≤ 3
      → (rank (perform c s).state ≤ advance c stage) × (advance c stage ≤ 3)
  unfolding perform build_handshake_init close process_handshake_response build_capability_exchange
      process_capability_exchange encrypt_payload decrypt_payload get_tx_nonce get_rx_nonce advance
  rank-perform start s stage h l = ground arith
  rank-perform shut s stage h l = ground arith
  rank-perform (response payload) s stage h l = ground arith
  rank-perform (offer node now) s stage h l = ground arith
  rank-perform (exchange payload now) s stage h l = ground arith
  rank-perform (send plain) s stage h l = ground arith
  rank-perform (receive sealed) s stage h l = ground arith

  rank-run :
      (cs : List Call) (s : BraneSession P) (stage : ℕ)
      → rank s.state ≤ stage
      → stage ≤ 3
      → (rank (run cs s).state ≤ stage_after cs stage) × (stage_after cs stage ≤ 3)
  unfolding run stage_after
  rank-run [] s stage h l = (h, l)
  rank-run (c ∷ cs) s stage h l =
      let step = rank-perform c s stage h l in
      rank-run cs (perform c s) (advance c stage) step.0 step.1

  -- A session that came from `new` by any calls is established only if the calls hold the three steps
  -- of the handshake in their order: the start, a response with a whole public key, and a negotiation
  -- that reads.
  pub established_after_handshake :
      (word : ℕ → ℕ) (draw socket_id : ℕ) (cs : List Call)
      → (run cs (new P word draw socket_id)).state ≡ established
      → stage_after cs 0 ≡ 3
  unfolding new
  established_after_handshake word draw socket_id cs e =
      ground (arith, rank-run cs (new P word draw socket_id) 0)

  -- Whether a call is answered with `Ok`; the start and the end cannot fail.
  unfoldable pub accepted : Call → BraneSession P → Bool
  accepted start s = true
  accepted shut s = true
  accepted (response payload) s = is_ok (process_handshake_response P s payload).0
  accepted (offer node now) s = is_ok (build_capability_exchange P s node now).0
  accepted (exchange payload now) s = is_ok (process_capability_exchange P lossy s payload now).0
  accepted (send plain) s = is_ok (encrypt_payload P s plain).0
  accepted (receive sealed) s = is_ok (decrypt_payload P s sealed).0

  -- The counter that a message uses up.
  abbrev pub spend : Call → BraneSession P → BraneSession P
  spend (send _) s = record s { tx_nonce = add_u64 s.tx_nonce 1 }
  spend (receive _) s = record s { rx_nonce = add_u64 s.rx_nonce 1 }
  spend _ s = s

  -- A call that is refused leaves the session as it was, whatever the reason; only a message that an
  -- established session fails on uses up the nonce of its direction.
  pub refused_unchanged :
      (c : Call) (s : BraneSession P)
      → accepted c s ≡ false
      → (perform c s ≡ s) ⊎ ((is_established_state s.state ≡ true) × (perform c s ≡ spend c s))
  unfolding accepted perform process_handshake_response build_capability_exchange
      process_capability_exchange encrypt_payload decrypt_payload get_tx_nonce get_rx_nonce
  refused_unchanged start s e = ground arith
  refused_unchanged shut s e = ground arith
  refused_unchanged (response payload) s e = ground arith
  refused_unchanged (offer node now) s e = ground arith
  refused_unchanged (exchange payload now) s e = ground arith
  refused_unchanged (send plain) s e = ground arith
  refused_unchanged (receive sealed) s e = ground arith
