-- ===== src/Brane/Tests.antt =====
-- Examples for the brane protocol: a cipher whose tag is the sum of its key and its nonce, sessions
-- that talk over it, packets, and a manager with two branes.
use native.Mathlib.Nat.{add_comm}
use mathlib.Core.Option.{some-injective}
use brane_os.Prelude.{
  ℕ, suc, subst, ◌+◌, ◌/◌, ◌≤◌, ◌<◌, ◌≡◌, ◌≢◌, refl, ap, true, ◌⊎◌, Option, none, some, List, [],
  ◌∷◌, ◌++◌, length, get_or, replicate, length-replicate, ok, err, ◌==◌, if◌then◌else◌, arith,
  ==_refl,
}
use brane_os.Prelude.Bytes
use brane_os.Prelude.Bytes.{from_le, slice}
use brane_os.Prelude.Slots.{find, fill_free}
use brane_os.Prelude.Slots.Counts.{matching}
use brane_os.Audit
use brane_os.Audit.{Stamp}
use brane_os.Crypto
use brane_os.Crypto.{Primitives, IsLawful, fill_bytes, fill_bytes_lem}
use brane_os.Brane.Wire.{CapabilityNegotiation}
use brane_os.Brane.Wire.Negotiation
use brane_os.Brane.Wire.RoundTrip.{from_bytes-to_bytes}
use brane_os.Brane.Wire.Packet.{
  SessionPacket, alert, encrypted_data, to_raw, parse, parse-to_bytes, parse_bounds,
}
use brane_os.Brane.Wire.Packet
use brane_os.Brane.Session.{
  BraneSession, established, is_established, is_established_state, is_some, crypto_engine_not_ready,
  encrypt_payload, decrypt_payload, invalid_state,
}
use brane_os.Brane.Session
use brane_os.Brane.Session.Lifecycle.{
  Call, start, response, exchange, send, run, node_of, stage_after, accepted, perform, spend,
  established_keyed, IsSound, run-IsSound, new-IsSound, established_after_handshake,
  refused_unchanged,
}
use brane_os.Brane.Session.Stream.{to_right, to_left, converse}
use brane_os.Brane.Session.Handshake.{handshake}
use brane_os.Brane.Session.Handshake.Agreement.{session_end_to_end}
use brane_os.Brane.Manager.{
  BraneManager, World, BraneMessage, peer, tcp_ip, active_to, connect, disconnect,
  register_discovered,
}
use brane_os.Brane.Manager
use brane_os.Brane.Manager.Sessions.{IsValid, new-IsValid, Connection, connect_lem, lookup}
use brane_os.Brane.Manager.Runs
use brane_os.Brane.Manager.Runs.{
  discovery, connection, disconnection, run-IsValid, single_active_session, reconnects,
}
use brane_os.Brane.Discovery.{DiscoveryPacket, announce}
use brane_os.Brane.Discovery.Subsystem.{initiate_handshake, initiate_handshake_refused}
use brane_os.Brane.Discovery.Subsystem
use brane_os.Socket
use brane_os.Socket.{tcp, table_full, max_sockets}
use brane_os.Socket.Lookup
use brane_os.Brane.Discovery.Sessions
use brane_os.Brane.Discovery.Sessions.{process_session_data, session_data_lem, SoundAt}

open_tagged : ℕ → List ℕ → List ℕ → Option (List ℕ)
open_tagged key nonce [] = none
open_tagged key nonce (tag ∷ plain) = if tag == key + from_le nonce then some plain else none

abbrev toy : Primitives
toy = record {
  Secret = ℕ;
  Public = ℕ;
  Cipher = ℕ;
  secret_from_seed = λ seed. get_or seed 0 0;
  public_of = λ secret. secret;
  public_from = λ bytes. get_or bytes 0 0;
  public_bytes = λ key. key ∷ replicate 31 0;
  agree = λ a b. (a + b) ∷ [];
  cipher_new = λ key. get_or key 0 0;
  cipher_encrypt = λ key nonce plain. some ((key + from_le nonce) ∷ plain);
  cipher_decrypt = open_tagged;
}

toy-IsLawful : IsLawful toy
unfolding open_tagged
toy-IsLawful = record {
  public_length = λ k. ap suc (length-replicate 31 0);
  public_again = λ k. refl;
  agree_both = λ a b. ap (λ n. n ∷ []) (add_comm a b);
  decrypt_encrypt = λ c nonce plain sealed e.
      subst (λ s. open_tagged c nonce s ≡ some plain) (some-injective _ _ e)
        (rw (==_refl (c + from_le nonce)) refl);
}

abbrev node : List ℕ
node = replicate 16 7

abbrev as_is : List ℕ → List ℕ
as_is name = name

session_end_to_end_example :
    (converse toy
      (handshake toy as_is
        (Session.new toy (λ k. k) 0 3)
        (Session.new toy (λ k. k) 4 5)
        node
        node
        1000).0
      (handshake toy as_is
        (Session.new toy (λ k. k) 0 3)
        (Session.new toy (λ k. k) 4 5)
        node
        node
        1000).1
      (to_right (1 ∷ 2 ∷ []) ∷ to_left (9 ∷ []) ∷ to_right [] ∷ [])).0
    ≡ ok (1 ∷ 2 ∷ []) ∷ ok (9 ∷ []) ∷ ok [] ∷ []
session_end_to_end_example =
    session_end_to_end toy as_is toy-IsLawful (λ name ascii. refl) (λ k. k) 0 4 3 5 node node 1000
      (to_right (1 ∷ 2 ∷ []) ∷ to_left (9 ∷ []) ∷ to_right [] ∷ []) (length-replicate 16 7)
      (length-replicate 16 7) (omega arith)
      (λ nonce. (_, refl), (λ nonce. (_, refl), (λ nonce. (_, refl), tt)))

-- A handshake with a peer of public key 6 that offers nothing.
abbrev neg : CapabilityNegotiation
neg = record { offered = []; required = (65 ∷ []) ∷ []; node_id = node; timestamp = 77 }

abbrev calls : List Call
calls = start ∷ response (6 ∷ replicate 31 0) ∷ exchange (Negotiation.to_bytes neg) 5 ∷ []

from_bytes-to_bytes_example : Negotiation.from_bytes as_is (Negotiation.to_bytes neg) ≡ some neg
from_bytes-to_bytes_example = from_bytes-to_bytes as_is neg (record {
  node = length-replicate 16 7;
  time = omega arith;
  few_offered = omega arith;
  offers = tt;
  few_required = omega arith;
  names = (record { short = omega arith; utf8 = refl }, tt);
})

-- The session after the calls.
abbrev up : BraneSession toy
up = run toy as_is calls (Session.new toy (λ k. k) 0 3)

up-established : up.state ≡ established
unfolding run perform Session.new Session.process_capability_exchange
    Session.process_handshake_response Session.build_handshake_init replicate Negotiation.from_bytes
    Negotiation.to_bytes Bytes.to_le Negotiation.offers_bytes Negotiation.names_bytes
    Negotiation.read_body Negotiation.read_offers Negotiation.read_required Negotiation.read_names
    Negotiation.read_name
up-established = refl

established_keyed_example :
    (is_established toy up ≡ true)
    × ((encrypt_payload toy up (1 ∷ [])).0 ≢ err crypto_engine_not_ready)
    × ((decrypt_payload toy up (1 ∷ [])).0 ≢ err crypto_engine_not_ready)
    × (is_some up.remote_capabilities ≡ true)
    × (up.remote_node_id ≡ node_of up.remote_capabilities)
established_keyed_example =
    established_keyed toy as_is (λ k. k) 0 3 calls (1 ∷ []) up refl
      (ap is_established_state up-established)

established_after_handshake_example : stage_after toy as_is calls 0 ≡ 3
established_after_handshake_example =
    established_after_handshake toy as_is (λ k. k) 0 3 calls up-established

-- A message before the handshake.
refused_unchanged_example :
    (perform toy as_is (send (1 ∷ [])) (Session.new toy (λ k. k) 0 3)
      ≡ Session.new toy (λ k. k) 0 3)
    ⊎ ((is_established_state (Session.new toy (λ k. k) 0 3).state ≡ true)
        × (perform toy as_is (send (1 ∷ [])) (Session.new toy (λ k. k) 0 3)
            ≡ spend toy as_is (send (1 ∷ [])) (Session.new toy (λ k. k) 0 3)))
unfolding accepted encrypt_payload Session.new
refused_unchanged_example =
    refused_unchanged toy as_is (send (1 ∷ [])) (Session.new toy (λ k. k) 0 3) refl

abbrev packet : SessionPacket
packet = record { ptype = alert; payload = 7 ∷ 8 ∷ 9 ∷ [] }

parse-to_bytes_example :
    parse (Packet.to_bytes packet ++ (1 ∷ 0 ∷ [])) ≡ some (packet, length (Packet.to_bytes packet))
parse-to_bytes_example = parse-to_bytes packet (1 ∷ 0 ∷ []) (omega arith)

parse_bounds_example :
    (7 ≤ 9)
    × (◌≡◌ {A = ℕ} 7 (4 + length packet.payload))
    × (packet.payload ≡ slice (5 ∷ 0 ∷ 3 ∷ 0 ∷ 7 ∷ 8 ∷ 9 ∷ 1 ∷ 0 ∷ []) 4 7)
    × (◌≡◌ {A = ℕ} 5 (to_raw packet.ptype))
unfolding Packet.parse Packet.body Packet.try_from Packet.to_raw from_le
parse_bounds_example = parse_bounds (5 ∷ 0 ∷ 3 ∷ 0 ∷ 7 ∷ 8 ∷ 9 ∷ 1 ∷ 0 ∷ []) packet 7 refl

fill_bytes_lem_example :
    (length (fill_bytes (λ k. k) 2 13).0 ≡ 13)
    × ((fill_bytes (λ k. k) 2 13).1 ≡ 2 + (13 + 7) / 8)
    × (get_or (fill_bytes (λ k. k) 2 13).0 8 0 ≡ get_or (Bytes.to_le 8 3) 0 0)
fill_bytes_lem_example = fill_bytes_lem (λ k. k) 2 13 8

-- "ANNOUNCE 7 pc Core,Net".
abbrev announcement : DiscoveryPacket
announcement = record {
  ptype = announce;
  node_id = 55 ∷ [];
  name = 112 ∷ 99 ∷ [];
  capabilities = 67 ∷ 111 ∷ 114 ∷ 101 ∷ 44 ∷ 78 ∷ 101 ∷ 116 ∷ [];
}

-- Socket 3 has a session that the handshake established, and gets a message under its key 6 and the
-- nonce 0.
abbrev on_three : ℕ → Option (BraneSession toy)
on_three k = if k == 3 then some up else none

abbrev message : List ℕ
message = Packet.to_bytes (record { ptype = encrypted_data; payload = 6 ∷ 1 ∷ 2 ∷ [] })

up-IsSound : IsSound toy as_is up
up-IsSound = run-IsSound toy as_is calls _ (new-IsSound toy as_is (λ k. k) 0 3)

-- The handler runs and opens the message.
message_accepted : (process_session_data toy as_is on_three 3 message 9).0 ≡ ok tt
unfolding process_session_data Sessions.process_packet Packet.parse Packet.body Packet.try_from
    Packet.to_raw Packet.to_bytes Bytes.to_le from_le decrypt_payload Session.get_rx_nonce
    Session.nonce_bytes run perform Session.new Session.process_capability_exchange
    Session.process_handshake_response Session.build_handshake_init replicate Negotiation.from_bytes
    Negotiation.to_bytes Negotiation.offers_bytes Negotiation.names_bytes Negotiation.read_body
    Negotiation.read_offers Negotiation.read_required Negotiation.read_names Negotiation.read_name
    open_tagged Crypto.new Crypto.generate fill_bytes Crypto.fill_rounds
message_accepted = refl

session_data_lem_example :
    let after = (process_session_data toy as_is on_three 3 message 9).1 in
    SoundAt toy as_is (after 3) × (after 3 ≡ (if 3 == 3 then after 3 else on_three 3))
session_data_lem_example = session_data_lem toy as_is on_three 3 message 9 3 up-IsSound

-- Two branes discovered, and task 9 connected to the first.
abbrev stamp : Stamp
stamp = record { tick = 4; cpu_id = 0 }

abbrev found : World
found =
    Runs.run (discovery (97 ∷ []) peer tcp_ip 0 100 ∷ discovery (98 ∷ []) peer tcp_ip 0 100 ∷ [])
      (record { manager = Manager.new; audit = Audit.new })

found-IsValid : IsValid found.manager
unfolding Manager.new
found-IsValid =
    run-IsValid _ (record { manager = Manager.new; audit = Audit.new }) new-IsValid (omega arith)

connect_lem_example :
    Connection stamp found 1 9 4 (connect stamp found 1 9 4).0 (connect stamp found 1 9 4).1
unfolding Manager.new Runs.run Runs.perform register_discovered fill_free replicate
connect_lem_example = connect_lem stamp found 1 9 4 found-IsValid (omega arith)

abbrev linked : World
linked =
    Runs.run (discovery (97 ∷ []) peer tcp_ip 0 100 ∷ connection stamp 1 9 4 ∷ [])
      (record { manager = Manager.new; audit = Audit.new })

linked-IsValid : IsValid linked.manager
unfolding Manager.new
linked-IsValid =
    run-IsValid _ (record { manager = Manager.new; audit = Audit.new }) new-IsValid (omega arith)

abbrev known : Manager.BraneInfo
known = Manager.info 1 (97 ∷ []) peer tcp_ip 0 100

reconnects_example :
    ((disconnect stamp linked 1).0 ≡ ok tt)
    × ((j : ℕ)
        → lookup (disconnect stamp linked 1).1.manager j
          ≡ (if 1 == j then none else lookup linked.manager j))
    × ((connect stamp (disconnect stamp linked 1).1 1 8 6).0 ≡ ok linked.manager.next_session_id)
unfolding Manager.new Runs.run Runs.perform register_discovered fill_free replicate Manager.session
    lookup find connect Manager.open_session Manager.info
reconnects_example =
    reconnects stamp linked 1 8 6 (Manager.session 1 known 1 9 4) known linked-IsValid (omega arith)
      refl refl refl

single_active_session_example :
    matching
      (active_to 1)
      (Runs.run
        (discovery (97 ∷ []) peer tcp_ip 0 100
          ∷ connection stamp 1 9 4
          ∷ connection stamp 1 9 4
          ∷ [])
        (record { manager = Manager.new; audit = Audit.new })).manager.sessions
    ≤ 1
single_active_session_example =
    single_active_session
      (discovery (97 ∷ []) peer tcp_ip 0 100 ∷ connection stamp 1 9 4 ∷ connection stamp 1 9 4 ∷ [])
      Audit.new 1 (omega arith)

-- On an empty table the call takes a socket and refuses to send on it.
initiate_handshake_refused_example :
    ((initiate_handshake toy as_is
          (λ k. k)
          3
          Socket.new
          (Subsystem.new toy as_is)
          (10 ∷ 0 ∷ 0 ∷ 2 ∷ [])
          9000
        ≡ (err table_full, Socket.new, Subsystem.new toy as_is))
      × (Socket.active_count Socket.new ≡ max_sockets))
    ⊎ ((initiate_handshake toy as_is
            (λ k. k)
            3
            Socket.new
            (Subsystem.new toy as_is)
            (10 ∷ 0 ∷ 0 ∷ 2 ∷ [])
            9000
          ≡ (err Socket.invalid_state, (Socket.create Socket.new tcp 1).1, Subsystem.new toy as_is))
        × (Socket.active_count Socket.new < max_sockets)
        × (Socket.get (Socket.create Socket.new tcp 1).1 Socket.new.next_id
            ≡ some (Socket.fresh Socket.new.next_id tcp 1)))
unfolding Socket.new
initiate_handshake_refused_example =
    initiate_handshake_refused toy as_is (λ k. k) 3 Socket.new (Subsystem.new toy as_is)
      (10 ∷ 0 ∷ 0 ∷ 2 ∷ []) 9000 Socket.Lookup.new-IsValid (omega arith)
