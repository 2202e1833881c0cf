-- ===== src/Brane/Session/Handshake/Agreement.antt =====
-- Two fresh sessions of kernel/src/brane_session.rs that shake hands end with one engine, and can talk.
use brane_os.Prelude.{
  false, ℕ, ◌^◌, ◌<◌, ◌≡◌, refl, sym, ap, ap₂, ◌∙◌, some, List, length, map, ok, arith, All, ltb,
  le→ltb, take_all,
}
use brane_os.Crypto.{Primitives, IsLawful, SessionCrypto, EphemeralKey, generate, diffie_hellman}
use brane_os.Crypto
use brane_os.Brane.Wire.Negotiation
use brane_os.Brane.Wire.Reading.{IsName, IsOffer}
use brane_os.Brane.Wire.RoundTrip.{IsNegotiation, from_bytes-to_bytes}
use brane_os.Brane.Wire.Packet.{capability_exchange}
use brane_os.Brane.Session.{
  BraneSession, wait_capability, established, default_offers, brane_connect_name, ipc_send_name,
  ipc_recv_name, new, build_handshake_init, process_handshake_response, build_capability_exchange,
  process_capability_exchange,
}
use brane_os.Brane.Session.Stream.{Linked, Message, plain_of, Sealable, converse, converse_lem}
use brane_os.Brane.Session.Handshake.{exchange_keys, exchange_capabilities, take_offer, handshake}

module _ (P : Primitives) (lossy : List ℕ → List ℕ) where
  -- `from_utf8_lossy` leaves ASCII as it is.
  abbrev pub KeepsAscii : Type 0
  KeepsAscii = (name : List ℕ) → All (λ b. b < 128) name → lossy name ≡ name

  default-IsName :
      KeepsAscii → (name : List ℕ) → All (λ b. b < 128) name → length name < 256 → IsName lossy name
  default-IsName keeps name ascii short = record { short = short; utf8 = keeps name ascii }

  default_offers-IsOffer : KeepsAscii → All (IsOffer lossy) default_offers
  unfolding default_offers
  default_offers-IsOffer keeps = (
    record {
      named = default-IsName keeps brane_connect_name (omega arith) (omega arith);
      bits = omega arith;
    },
    (
      record {
        named = default-IsName keeps ipc_send_name (omega arith) (omega arith);
        bits = omega arith;
      },
      (
        record {
          named = default-IsName keeps ipc_recv_name (omega arith) (omega arith);
          bits = omega arith;
        },
        tt,
      ),
    ),
  )

  -- The negotiation that a session offers is one that the format can carry.
  offered-IsNegotiation :
      (node : List ℕ) (now : ℕ)
      → KeepsAscii
      → length node ≡ 16
      → now < 2 ^ 64
      → IsNegotiation lossy (record (Negotiation.new node now) { offered = default_offers })
  unfolding Negotiation.new default_offers
  offered-IsNegotiation node now keeps n t = record {
    node = n;
    time = t;
    few_offered = omega arith;
    offers = default_offers-IsOffer keeps;
    few_required = omega arith;
    names = tt;
  }

  -- The engine that a session makes from its own secret and the other's public key.
  abbrev pub engine_of : BraneSession P → BraneSession P → SessionCrypto P
  engine_of own peer = Crypto.new P (diffie_hellman P own.ephemeral_key peer.ephemeral_key.public)

  -- A key made by `generate`: the public half belongs to the secret half.
  abbrev pub IsKey : EphemeralKey P → Type 0
  IsKey key = key.public ≡ P.public_of key.secret

  -- A session that has taken the peer's key, and one that has also taken the peer's offer.
  abbrev pub keyed : BraneSession P → BraneSession P → BraneSession P
  keyed s peer = record s {
    crypto_engine = some (engine_of s peer);
    tx_nonce = 0;
    rx_nonce = 0;
    state = wait_capability;
  }

  abbrev pub offering : BraneSession P → List ℕ → ℕ → BraneSession P
  offering s node now = record s {
    local_capabilities = some (record (Negotiation.new node now) { offered = default_offers });
  }

  abbrev pub agreed : BraneSession P → List ℕ → ℕ → BraneSession P
  agreed s node now = record s {
    remote_node_id = some node;
    remote_capabilities = some (record (Negotiation.new node now) { offered = default_offers });
    state = established;
    established_at = now;
  }

  -- Reading the other's offer establishes a session that waits for it, and changes neither the engine
  -- nor the counters.
  take_offer_lem :
      (s : BraneSession P) (node : List ℕ) (now : ℕ)
      → KeepsAscii
      → length node ≡ 16
      → now < 2 ^ 64
      → s.state ≡ wait_capability
      → let neg = record (Negotiation.new node now) { offered = default_offers } in
        process_capability_exchange P lossy s (Negotiation.to_bytes neg) now
        ≡ (ok tt, agreed s node now)
  unfolding process_capability_exchange Negotiation.new
  take_offer_lem s node now keeps n t waits =
      rw
        (
          waits,
          from_bytes-to_bytes lossy (record (Negotiation.new node now) { offered = default_offers })
              (offered-IsNegotiation node now keeps n t),
          process_capability_exchange,
        )
        refl

  response_lem :
      (lawful : IsLawful P) (s peer : BraneSession P)
      → process_handshake_response P
          (build_handshake_init P s).1
          (build_handshake_init P peer).0.payload
        ≡ (ok tt, keyed s peer)
  unfolding process_handshake_response build_handshake_init
  response_lem lawful s peer =
      rw
        (
          whole,
          take_all 32 bytes (omega (arith, len)),
          lawful.public_again peer.ephemeral_key.public,
        )
        refl
    where
      bytes : List ℕ
      bytes = P.public_bytes peer.ephemeral_key.public

      len : length bytes ≡ 32
      len = lawful.public_length peer.ephemeral_key.public

      whole : ltb (length bytes) 32 ≡ false
      whole = le→ltb (length bytes) 32 (omega (arith, len))

  -- Both sides derive the same engine.
  engine_of_both :
      (lawful : IsLawful P) (left right : BraneSession P)
      → IsKey left.ephemeral_key
      → IsKey right.ephemeral_key
      → engine_of right left ≡ engine_of left right
  engine_of_both lawful left right l r =
      ap (λ bytes. Crypto.new P bytes)
        (ap (P.agree right.ephemeral_key.secret) l
          ∙ lawful.agree_both right.ephemeral_key.secret left.ephemeral_key.secret
          ∙ ap (P.agree left.ephemeral_key.secret) (sym r))

  exchange_keys_lem :
      (lawful : IsLawful P) (left right : BraneSession P)
      → exchange_keys P lossy left right ≡ (keyed left right, keyed right left)
  unfolding exchange_keys
  exchange_keys_lem lawful left right =
      rw (response_lem lawful left right, response_lem lawful right left) refl

  offer_lem :
      (s : BraneSession P) (node : List ℕ) (now : ℕ)
      → s.state ≡ wait_capability
      → let neg = record (Negotiation.new node now) { offered = default_offers } in
        build_capability_exchange P s node now ≡ (
          ok (record { ptype = capability_exchange; payload = Negotiation.to_bytes neg }),
          offering s node now,
        )
  unfolding build_capability_exchange
  offer_lem s node now w = rw w refl

  exchange_capabilities_lem :
      (left right : BraneSession P) (left_node right_node : List ℕ) (now : ℕ)
      → KeepsAscii
      → length left_node ≡ 16
      → length right_node ≡ 16
      → now < 2 ^ 64
      → left.state ≡ wait_capability
      → right.state ≡ wait_capability
      → exchange_capabilities P lossy left right left_node right_node now ≡ (
        agreed (offering left left_node now) right_node now,
        agreed (offering right right_node now) left_node now,
      )
  unfolding exchange_capabilities take_offer
  exchange_capabilities_lem left right left_node right_node now keeps ln rn t lw waits =
      ap₂ (λ l r. (take_offer P lossy l.1 r.0 now, take_offer P lossy r.1 l.0 now))
        (offer_lem left left_node now lw) (offer_lem right right_node now waits)
      ∙ ap₂ (λ l r. (l, r))
          (ap (λ r. r.1)
            (take_offer_lem (offering left left_node now) right_node now keeps rn t lw))
          (ap (λ r. r.1)
            (take_offer_lem (offering right right_node now) left_node now keeps ln t waits))

  handshake-Linked :
      (lawful : IsLawful P) (keeps : KeepsAscii) (left right : BraneSession P)
      (left_node right_node : List ℕ) (now : ℕ)
      → IsKey left.ephemeral_key
      → IsKey right.ephemeral_key
      → length left_node ≡ 16
      → length right_node ≡ 16
      → now < 2 ^ 64
      → let (left', right') = handshake P lossy left right left_node right_node now in
        Linked P (engine_of left right) left' right'
  unfolding handshake
  handshake-Linked lawful keeps left right left_node right_node now l r ln rn t =
      rw
        (
          exchange_keys_lem lawful left right,
          exchange_capabilities_lem (keyed left right) (keyed right left) left_node right_node now
              keeps ln rn t refl refl,
        )
        (record {
          left_up = refl;
          right_up = refl;
          left_engine = refl;
          right_engine = ap (λ e. some e) (engine_of_both lawful left right l r);
          rightward = refl;
          leftward = refl;
        })

  -- Two fresh sessions that exchange their keys and their offers can talk: whatever messages then go
  -- either way, in any order, each arrives as it was sent. The clock is below 2 ^ 64, node ids have 16
  -- bytes, and the cipher takes the messages.
  pub session_end_to_end :
      (lawful : IsLawful P) (keeps : KeepsAscii) (word : ℕ → ℕ)
      (left_draw right_draw left_socket right_socket : ℕ) (left_node right_node : List ℕ) (now : ℕ)
      (ms : List Message)
      → length left_node ≡ 16
      → length right_node ≡ 16
      → now < 2 ^ 64
      → All
          (λ m.
            Sealable P
              (engine_of (new P word left_draw left_socket) (new P word right_draw right_socket))
              (plain_of m))
          ms
      → let left = new P word left_draw left_socket in
        let right = new P word right_draw right_socket in
        let (left', right') = handshake P lossy left right left_node right_node now in
        (converse P left' right' ms).0 ≡ map (λ m. ok (plain_of m)) ms
  unfolding new generate
  session_end_to_end lawful keeps word left_draw right_draw left_socket right_socket left_node
        right_node now ms ln rn t sealable =
      (converse_lem P lawful _ ms _ _
        (handshake-Linked lawful keeps (new P word left_draw left_socket)
          (new P word right_draw right_socket) left_node right_node now refl refl ln rn t)
        sealable).0
