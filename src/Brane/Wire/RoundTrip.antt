-- ===== src/Brane/Wire/RoundTrip.antt =====
-- What the writers of kernel/src/brane_session.rs put on the wire, the readers give back.
use brane_os.Prelude.{
  false, ℕ, ◌+◌, ◌^◌, ◌<◌, ◌≡◌, refl, sym, ap, some, List, [], ◌∷◌, ◌++◌, length, ltb, leb, arith,
  All,
}
use brane_os.Prelude.Bytes.{
  to_le, length-to_le, from_le-to_le, Left, length-Left, get_or-Left, Left-after,
}
use mathlib.Core.List.{append-nil}
use brane_os.Brane.Wire.{CapabilityNegotiation, u8}
use brane_os.Brane.Wire.Negotiation
use brane_os.Brane.Wire.Reading.{IsName, IsOffer, slice-Left, Left-at, offers-Left, names-Left}

module _ (lossy : List ℕ → List ℕ) where
  -- What the format can carry: the node id has 16 bytes, the timestamp is a word, and the counts and
  -- the lengths of the names fit a byte.
  pub record IsNegotiation (neg : CapabilityNegotiation) : Type 0 where
    pub node : length neg.node_id ≡ 16
    pub time : neg.timestamp < 2 ^ 64
    pub few_offered : length neg.offered < 256
    pub offers : All (IsOffer lossy) neg.offered
    pub few_required : length neg.required < 256
    pub names : All (IsName lossy) neg.required

  -- The parts behind the node id, with the counts that are written.
  required_part : CapabilityNegotiation → List ℕ
  required_part neg = length neg.required ∷ Negotiation.names_bytes neg.required

  offered_part : CapabilityNegotiation → List ℕ
  unfolding required_part
  offered_part neg =
      length neg.offered ∷ (Negotiation.offers_bytes neg.offered ++ required_part neg)

  negotiation-Left :
      {bytes : List ℕ} (neg : CapabilityNegotiation)
      → IsNegotiation neg
      → Left bytes 0 (neg.node_id ++ (to_le 8 neg.timestamp ++ offered_part neg))
      → Negotiation.from_bytes lossy bytes ≡ some neg
  unfolding Negotiation.from_bytes Negotiation.read_body Negotiation.read_required offered_part
      required_part
  negotiation-Left {bytes} neg fit at_node =
      rw
        (
          long_enough,
          get_or-Left 0 at_offered,
          offers-Left lossy neg.offered (required_part neg) 25 fit.offers
              (Left-after (length neg.offered ∷ []) at_offered),
          required_inside,
          get_or-Left 0 at_required,
          names-Left lossy neg.required [] (25 + offers_len + 1) fit.names (Left-at refl at_names),
          slice-Left neg.node_id (to_le 8 neg.timestamp ++ offered_part neg) {offset = 0} {to = 16}
              (omega (arith, fit.node)) at_node,
          slice-Left (to_le 8 neg.timestamp) (offered_part neg) {offset = 16} {to = 24}
              (ap (◌+◌ 16) (sym (length-to_le 8 neg.timestamp))) at_time,
          from_le-to_le 8 neg.timestamp fit.time,
        )
        refl
    where
      offers_len : ℕ
      offers_len = length (Negotiation.offers_bytes neg.offered)

      at_time : Left bytes 16 (to_le 8 neg.timestamp ++ offered_part neg)
      at_time = Left-at (omega (arith, fit.node)) (Left-after neg.node_id at_node)

      at_offered : Left bytes 24 (offered_part neg)
      at_offered =
          Left-at (omega (arith, length-to_le 8 neg.timestamp))
            (Left-after (to_le 8 neg.timestamp) at_time)

      at_required : Left bytes (25 + offers_len) (required_part neg)
      at_required =
          Left-after (Negotiation.offers_bytes neg.offered)
            (Left-after (length neg.offered ∷ []) at_offered)

      at_names : Left bytes (25 + offers_len + 1) (Negotiation.names_bytes neg.required ++ [])
      at_names = rw append-nil (Left-after (length neg.required ∷ []) at_required)

      long_enough : ltb (length bytes) 25 ≡ false
      long_enough = ground (arith, length-Left at_required)

      required_inside : leb (length bytes) (25 + offers_len) ≡ false
      required_inside = ground (arith, length-Left at_required)

  -- A negotiation that the format can carry is read back from the bytes it is written as.
  pub from_bytes-to_bytes :
      (neg : CapabilityNegotiation)
      → IsNegotiation neg
      → Negotiation.from_bytes lossy (Negotiation.to_bytes neg) ≡ some neg
  unfolding Negotiation.to_bytes offered_part required_part
  from_bytes-to_bytes neg fit =
      negotiation-Left neg fit (record { inside = omega arith; left = rw (offered, required) refl })
    where
      offered : u8 (length neg.offered) ≡ length neg.offered
      offered = omega (arith, fit.few_offered)

      required : u8 (length neg.required) ≡ length neg.required
      required = omega (arith, fit.few_required)
