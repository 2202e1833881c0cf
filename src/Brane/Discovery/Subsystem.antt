-- ===== src/Brane/Discovery/Subsystem.antt =====
-- `DiscoverySubsystem` of kernel/src/brane_discovery.rs over the socket table of kernel/src/socket.rs:
-- the UDP socket of the announcements and the TCP sockets of the handshakes. `u8::from_str_radix` is
-- the argument `hex_byte`; a hex string is ASCII, a byte for each character.
use brane_os.Prelude.{
  ℕ, ◌+◌, ◌-◌, ◌^◌, ◌<◌, ◌≡◌, refl, ◌∙◌, ◌⊎◌, inl, inr, Bool, Option, none, some, List, [], ◌∷◌,
  ◌++◌, length, take, replicate, Result, ok, err, if◌then◌else◌, arith, ==_refl, length-append,
  length-take, length-replicate,
}
use brane_os.Crypto.{Primitives}
use brane_os.Brane.Wire.Packet
use brane_os.Brane.Session.{BraneSession, build_handshake_init}
use brane_os.Brane.Session
use brane_os.Brane.Manager.{BraneManager, peer, tcp_ip, register_discovered}
use brane_os.Brane.Discovery.{announce, to_bytes, parse, same}
use brane_os.Brane.Discovery.Sessions.{Sessions, put}
use brane_os.Socket.{
  SocketTable, SocketError, table_full, invalid_state, tcp, udp, create, bind, send_to, through,
  get, fresh, active_count, max_sockets, find_at,
}
use brane_os.Socket.Lookup.{IsValid, Created, create_socket_lem}

abbrev pub discovery_port : ℕ
discovery_port = 9000

-- "Core,Session,Network".
abbrev pub own_capabilities : List ℕ
own_capabilities =
    67 ∷ 111 ∷ 114 ∷ 101 ∷ 44 ∷ 83 ∷ 101 ∷ 115 ∷ 115 ∷ 105 ∷ 111 ∷ 110 ∷ 44 ∷ 78 ∷ 101 ∷ 116 ∷ 119
    ∷ 111 ∷ 114 ∷ 107 ∷ []

-- The bytes of the pairs of digits that parse, in order.
unfoldable pub pair_bytes : (ℕ → ℕ → Option ℕ) → List ℕ → List ℕ
pair_bytes hex_byte (hi ∷ lo ∷ rest) = elim (hex_byte hi lo) [
  | some byte ↦ byte ∷ pair_bytes hex_byte rest
  | none ↦ pair_bytes hex_byte rest
]
pair_bytes hex_byte _ = []

-- `parse_node_id_hex`: the bytes of the first 32 digits, 16 at most, padded with zeros.
unfoldable pub parse_node_id_hex : (ℕ → ℕ → Option ℕ) → List ℕ → List ℕ
parse_node_id_hex hex_byte hex =
    let bytes = take 16 (pair_bytes hex_byte (take 32 hex)) in
    bytes ++ replicate (16 - length bytes) 0

pub length-parse_node_id_hex :
    (hex_byte : ℕ → ℕ → Option ℕ) (hex : List ℕ) → length (parse_node_id_hex hex_byte hex) ≡ 16
unfolding parse_node_id_hex
length-parse_node_id_hex hex_byte hex =
    let bytes = take 16 (pair_bytes hex_byte (take 32 hex)) in
    length-append bytes (replicate {A = ℕ} (16 - length bytes) 0)
    ∙ omega (
      arith,
      length-replicate {A = ℕ} (16 - length bytes) 0,
      length-take 16 (pair_bytes hex_byte (take 32 hex)),
    )

module _ (P : Primitives) (lossy : List ℕ → List ℕ) where
  pub record DiscoverySubsystem : Type 0 where
    pub udp_socket_id : Option ℕ
    pub node_id_hex : List ℕ
    pub node_name : List ℕ
    pub sessions : Sessions P lossy
    pub node_id_bytes : List ℕ

  unfoldable pub new : DiscoverySubsystem
  new = record {
    udp_socket_id = none;
    node_id_hex = [];
    node_name = [];
    sessions = λ k. none;
    node_id_bytes = replicate 16 0;
  }

  -- `init`: the names are set first; the `?` of `create` and of `bind` return early.
  unfoldable pub init :
      (ℕ → ℕ → Option ℕ)
      → SocketTable
      → DiscoverySubsystem
      → List ℕ
      → List ℕ
      → Result (Unit {0}) SocketError × SocketTable × DiscoverySubsystem
  init hex_byte t s node_id_hex node_name =
      let named = record s {
        node_id_hex = node_id_hex;
        node_name = node_name;
        node_id_bytes = parse_node_id_hex hex_byte node_id_hex;
      } in
      let (made, t') = create t udp 1 in
      elim made [
        | err e ↦ (err e, t', named)
        | ok id ↦
            let (tied, t'') = bind t' id (replicate 4 0) discovery_port in
            elim tied [
              | err e ↦ (err e, t'', named)
              | ok _ ↦ (ok tt, t'', record named { udp_socket_id = some id })
            ]
      ]

  -- `initiate_handshake`: a socket, a session on it, and its first packet.
  unfoldable pub initiate_handshake :
      (ℕ → ℕ)
      → ℕ
      → SocketTable
      → DiscoverySubsystem
      → List ℕ
      → ℕ
      → Result ℕ SocketError × SocketTable × DiscoverySubsystem
  initiate_handshake word draw t s peer_ip peer_port =
      let (made, t') = create t tcp 1 in
      elim made [
        | err e ↦ (err e, t', s)
        | ok id ↦
            let (packet, session) = build_handshake_init P (Session.new P word draw id) in
            let (sent, t'') = send_to t' id (Packet.to_bytes packet) peer_ip peer_port in
            elim sent [
              | err e ↦ (err e, t'', s)
              | ok _ ↦ (ok id, t'', record s { sessions = put P lossy s.sessions id session })
            ]
      ]

  unfoldable pub broadcast_announce :
      SocketTable → DiscoverySubsystem → Result (Unit {0}) SocketError × SocketTable
  broadcast_announce t s = elim s.udp_socket_id [
    | none ↦ (err invalid_state, t)
    | some id ↦
        send_to t id
          (to_bytes (record {
            ptype = announce;
            node_id = s.node_id_hex;
            name = s.node_name;
            capabilities = own_capabilities;
          }))
          (255 ∷ 255 ∷ 255 ∷ 255 ∷ []) discovery_port
  ]

  -- What `poll` does with a datagram: a packet of another node makes an entry in the manager.
  unfoldable pub heard : (List ℕ → Bool) → DiscoverySubsystem → BraneManager → List ℕ → BraneManager
  heard is_utf8 s m bytes = elim (parse is_utf8 bytes) [
    | none ↦ m
    | some packet ↦
        if same packet.node_id s.node_id_hex
        then m
        else (register_discovered m packet.name peer tcp_ip 0 100).1
  ]

  -- A new socket is neither bound nor connected, so nothing is sent on it.
  fresh_refuses :
      (t n : SocketTable) (owner : ℕ) (buf addr : List ℕ) (port : ℕ)
      → Created t (fresh t.next_id tcp owner) n
      → send_to n t.next_id buf addr port ≡ (err invalid_state, n)
  unfolding send_to through get fresh
  fresh_refuses t n owner buf addr port c =
      let e : find_at t.next_id n.sockets ≡ some (fresh t.next_id tcp owner) =
        c.found t.next_id ∙ rw (==_refl t.next_id) refl in
      rw (through, e) refl

  -- In a valid socket table with ids left, `initiate_handshake` does not succeed: it sends on the
  -- socket that it has just created, and `send_to` refuses a socket that is neither bound nor
  -- connected. With 32 active sockets it answers `TableFull` and changes nothing; with fewer it
  -- answers `InvalidState`, and the socket it made stays in the table. No session is stored.
  pub initiate_handshake_refused :
      (word : ℕ → ℕ) (draw : ℕ) (t : SocketTable) (s : DiscoverySubsystem) (ip : List ℕ) (port : ℕ)
      → IsValid t
      → t.next_id + 1 < 2 ^ 32
      → ((initiate_handshake word draw t s ip port ≡ (err table_full, t, s))
          × (active_count t ≡ max_sockets))
        ⊎ ((initiate_handshake word draw t s ip port ≡ (err invalid_state, (create t tcp 1).1, s))
            × (active_count t < max_sockets)
            × (get (create t tcp 1).1 t.next_id ≡ some (fresh t.next_id tcp 1)))
  unfolding initiate_handshake
  initiate_handshake_refused word draw t s ip port v room =
      elim (create_socket_lem t tcp 1 v room) [
        | inl (full, count) ↦ inl (rw (initiate_handshake, full) (rw (full) refl), count)
        | inr (made, c) ↦
            let refused =
              fresh_refuses t (create t tcp 1).1 1
                (Packet.to_bytes (build_handshake_init P (Session.new P word draw t.next_id)).0) ip
                port c in
            inr (
              rw (initiate_handshake, made, refused) (rw (refused) refl),
              c.had_room,
              c.found t.next_id ∙ rw (==_refl t.next_id) refl,
            )
      ]
