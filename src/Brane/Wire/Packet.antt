-- ===== src/Brane/Wire/Packet.antt =====
-- `SessionPacket` of kernel/src/brane_session.rs and its header of four bytes.
use brane_os.Prelude.{
  ℕ, suc, ◌+◌, ◌/◌, ◌%◌, ◌^◌, ◌≡◌, refl, Option, none, some, List, ◌∷◌, ◌++◌, length, get_or, ltb,
  ◌==◌, if◌then◌else◌,
}
use brane_os.Prelude.{
  arith, Option-cases, inl, inr, le→ltb, length-append, ap, ◌∙◌, take, drop, ◌<◌, ◌-◌,
  take-append_length, length-take, length-drop, ◌≤◌,
}
use brane_os.Prelude.Bytes.{from_le-to_le}
use brane_os.Prelude.Options.{◌>>=◌}
use brane_os.Prelude.Bytes.{slice, to_le, from_le}

pub data SessionPacketType : Type 0 where
  handshake_init handshake_response capability_exchange encrypted_data alert disconnect :
      SessionPacketType

-- The discriminant, `ptype as u8`.
unfoldable pub to_raw : SessionPacketType → ℕ
to_raw handshake_init = 1
to_raw handshake_response = 2
to_raw capability_exchange = 3
to_raw encrypted_data = 4
to_raw alert = 5
to_raw disconnect = 6

unfoldable pub try_from : ℕ → Option SessionPacketType
try_from value =
    if value == 1
    then some handshake_init
    else if value == 2
    then some handshake_response
    else if value == 3
    then some capability_exchange
    else if value == 4
    then some encrypted_data
    else if value == 5
    then some alert
    else if value == 6
    then some disconnect
    else none

pub record SessionPacket : Type 0 where
  pub ptype : SessionPacketType
  pub payload : List ℕ

unfoldable pub to_bytes : SessionPacket → List ℕ
to_bytes p = to_raw p.ptype ∷ 0 ∷ to_le 2 (length p.payload % 2 ^ 16) ++ p.payload

-- `parse` once the type and the length are read.
unfoldable pub body : List ℕ → ℕ → SessionPacketType → Option (SessionPacket × ℕ)
body bytes payload_len ptype =
    if ltb (length bytes) (4 + payload_len)
    then none
    else some (record { ptype = ptype; payload = slice bytes 4 (4 + payload_len) }, 4 + payload_len)

-- The packet at the front of the buffer, and the bytes it takes.
unfoldable pub parse : List ℕ → Option (SessionPacket × ℕ)
unfolding body
parse bytes =
    if ltb (length bytes) 4
    then none
    else try_from (get_or bytes 0 0) >>= body bytes (from_le (slice bytes 2 4))

pub try_from-to_raw : (t : SessionPacketType) → try_from (to_raw t) ≡ some t
unfolding try_from to_raw
try_from-to_raw handshake_init = refl
try_from-to_raw handshake_response = refl
try_from-to_raw capability_exchange = refl
try_from-to_raw encrypted_data = refl
try_from-to_raw alert = refl
try_from-to_raw disconnect = refl

-- A packet whose length is in range is taken off the front.
body-front :
    (t z l h : ℕ) (payload rest : List ℕ) (n : ℕ) (p : SessionPacketType)
    → n ≡ length payload
    → body (t ∷ z ∷ l ∷ h ∷ payload ++ rest) n p
      ≡ some (record { ptype = p; payload = payload }, 4 + length payload)
unfolding body
body-front t z l h payload rest n p e =
    rw
      (
        e,
        le→ltb (suc (suc (suc (suc (length (payload ++ rest)))))) (4 + length payload)
            (omega (arith, length-append payload rest)),
        front,
      )
      refl
  where
    front : take (4 + length payload - 4) (payload ++ rest) ≡ payload
    front = ap (λ k. take k (payload ++ rest)) (omega arith) ∙ take-append_length payload rest

-- A packet with a payload below 2 ^ 16 bytes is read back from the front of the stream, whatever
-- follows it, and the bytes it took are reported.
pub parse-to_bytes :
    (p : SessionPacket) (rest : List ℕ)
    → length p.payload < 2 ^ 16
    → parse (to_bytes p ++ rest) ≡ some (p, length (to_bytes p))
unfolding parse to_bytes to_le
parse-to_bytes p rest h =
    rw
      (
        le→ltb (suc (suc (suc (suc (length (p.payload ++ rest)))))) 4 (omega arith),
        try_from-to_raw p.ptype,
      )
      (body-front (to_raw p.ptype) 0 (length p.payload % 2 ^ 16 % 256)
          (length p.payload % 2 ^ 16 / 256 % 256) p.payload rest _ p.ptype
          (from_le-to_le 2 (length p.payload % 2 ^ 16) (omega arith) ∙ omega arith)
        ∙ ap (λ n. some (p, n)) (omega arith))

length-slice : (bytes : List ℕ) (n : ℕ) → 4 + n ≤ length bytes → length (slice bytes 4 (4 + n)) ≡ n
length-slice bytes n h = omega (arith, length-take (4 + n - 4) (drop 4 bytes), length-drop 4 bytes)

raw-try_from : (b : ℕ) {t : SessionPacketType} → try_from b ≡ some t → b ≡ to_raw t
unfolding try_from to_raw
raw-try_from b e = ground arith

-- What `parse` accepts lies whole in the buffer: the type is the one that the first byte names, the
-- payload is the bytes 4 to the end of the packet, the bytes taken are the header and the payload,
-- and no byte past the end of the buffer is read.
pub parse_bounds :
    (bytes : List ℕ) (p : SessionPacket) (n : ℕ)
    → parse bytes ≡ some (p, n)
    → (n ≤ length bytes)
      × (n ≡ 4 + length p.payload)
      × (p.payload ≡ slice bytes 4 n)
      × (get_or bytes 0 0 ≡ to_raw p.ptype)
unfolding parse body
parse_bounds bytes p n e = elim (Option-cases (try_from (get_or bytes 0 0))) [
  | inl none_named ↦ ground arith
  | inr (t, named) ↦
      ground (
        arith,
        raw-try_from (get_or bytes 0 0) named,
        length-slice bytes (from_le (slice bytes 2 4)),
      )
]
