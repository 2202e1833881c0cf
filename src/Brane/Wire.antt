-- ===== src/Brane/Wire.antt =====
-- The binary formats of kernel/src/brane_session.rs: packets, capability offers and negotiations.
-- A `String` is the list of its UTF-8 bytes. `String::from_utf8_lossy` belongs to Rust's library, so
-- it is the argument `lossy` of the readers; on valid UTF-8 it gives the bytes back.
pub mod Offer
pub mod Negotiation
pub mod Packet
pub mod Reading
pub mod RoundTrip
use brane_os.Prelude.{
  ℕ, zero, suc, ◌+◌, ◌*◌, ◌%◌, ◌^◌, ◌≡◌, refl, Option, none, some, List, [], ◌∷◌, ◌++◌, length,
  get_or, ltb, leb, ◌==◌, if◌then◌else◌, replicate,
}
use brane_os.Prelude.Options.{◌>>=◌}
use brane_os.Prelude.Bytes.{slice, to_le, from_le}

pub record CapabilityOffer : Type 0 where
  pub name : List ℕ
  pub permissions_bits : ℕ
  pub risk_level : ℕ

pub record CapabilityNegotiation : Type 0 where
  pub offered : List CapabilityOffer
  pub required : List (List ℕ)
  pub node_id : List ℕ
  pub timestamp : ℕ

-- A length written in one byte, `len as u8`.
abbrev pub u8 : ℕ → ℕ
u8 n = n % 256

-- A name behind its length byte.
abbrev pub name_bytes : List ℕ → List ℕ
name_bytes name = u8 (length name) ∷ name
