-- ===== src/Brane/Session/Handshake.antt =====
-- Two sessions of kernel/src/brane_session.rs from `BraneSession::new` to an established pair: each
-- takes the other's public key as its response, then each reads the other's negotiation.
pub mod Agreement
use brane_os.Prelude.{
  false, ℕ, ◌^◌, ◌<◌, ◌≡◌, refl, sym, ap, ap₂, ◌∙◌, some, List, length, map, Result, ok, err, arith,
  All, ltb, le→ltb, take_all,
}
use brane_os.Crypto.{Primitives, IsLawful, SessionCrypto, EphemeralKey, generate, diffie_hellman}
use brane_os.Crypto
use brane_os.Brane.Wire.Negotiation
use brane_os.Brane.Wire.Reading.{IsName, IsOffer}
use brane_os.Brane.Wire.RoundTrip.{IsNegotiation, from_bytes-to_bytes}
use brane_os.Brane.Wire.Packet.{SessionPacket, capability_exchange}
use brane_os.Brane.Session.{
  BraneSession, SessionError, wait_capability, established, default_offers, brane_connect_name,
  ipc_send_name, ipc_recv_name, new, build_handshake_init, process_handshake_response,
  build_capability_exchange, process_capability_exchange,
}
use brane_os.Brane.Session.Stream.{Linked, Message, plain_of, Sealable, converse, converse_lem}

module _ (P : Primitives) (lossy : List ℕ → List ℕ) where
  -- Each side builds its handshake, and takes the other's public key as the response.
  unfoldable pub exchange_keys : BraneSession P → BraneSession P → BraneSession P × BraneSession P
  exchange_keys left right =
      let (left_packet, left') = build_handshake_init P left in
      let (right_packet, right') = build_handshake_init P right in
      (
        (process_handshake_response P left' right_packet.payload).1,
        (process_handshake_response P right' left_packet.payload).1,
      )

  -- What a side sends, read by the other; a side that refuses sends nothing.
  unfoldable pub take_offer :
      BraneSession P → Result SessionPacket SessionError → ℕ → BraneSession P
  take_offer s (ok packet) now = (process_capability_exchange P lossy s packet.payload now).1
  take_offer s (err _) now = s

  unfoldable pub exchange_capabilities :
      BraneSession P → BraneSession P → List ℕ → List ℕ → ℕ → BraneSession P × BraneSession P
  exchange_capabilities left right left_node right_node now =
      let (left_offer, left') = build_capability_exchange P left left_node now in
      let (right_offer, right') = build_capability_exchange P right right_node now in
      (take_offer left' right_offer now, take_offer right' left_offer now)

  unfoldable pub handshake :
      BraneSession P → BraneSession P → List ℕ → List ℕ → ℕ → BraneSession P × BraneSession P
  handshake left right left_node right_node now =
      let (left', right') = exchange_keys left right in
      exchange_capabilities left' right' left_node right_node now
