-- ===== src/Brane/Wire/Negotiation.antt =====
-- `CapabilityNegotiation::to_bytes` and `from_bytes` of kernel/src/brane_session.rs.
use brane_os.Prelude.{
  ℕ, zero, suc, ◌+◌, Option, none, some, List, [], ◌∷◌, ◌++◌, length, get_or, ltb, leb,
  if◌then◌else◌,
}
use brane_os.Prelude.Options.{◌>>=◌}
use brane_os.Prelude.Bytes.{slice, to_le, from_le}
use brane_os.Brane.Wire.{CapabilityOffer, CapabilityNegotiation, u8, name_bytes}
use brane_os.Brane.Wire.Offer

unfoldable pub new : List ℕ → ℕ → CapabilityNegotiation
new node_id timestamp = record {
  offered = [];
  required = [];
  node_id = node_id;
  timestamp = timestamp;
}

-- The loop over the offers, and the loop over the required names.
unfoldable pub offers_bytes : List CapabilityOffer → List ℕ
offers_bytes [] = []
offers_bytes (offer ∷ offers) = Offer.to_bytes offer ++ offers_bytes offers

unfoldable pub names_bytes : List (List ℕ) → List ℕ
names_bytes [] = []
names_bytes (name ∷ names) = name_bytes name ++ names_bytes names

unfoldable pub to_bytes : CapabilityNegotiation → List ℕ
to_bytes neg =
    neg.node_id
    ++ (to_le 8 neg.timestamp
        ++ (u8 (length neg.offered)
            ∷ (offers_bytes neg.offered ++ (u8 (length neg.required) ∷ names_bytes neg.required))))

-- The `for` loops of `from_bytes`, on the count of rounds left, with the cursor they end at.
unfoldable pub read_offers : (List ℕ → List ℕ) → List ℕ → ℕ → ℕ → Option (List CapabilityOffer × ℕ)
read_offers lossy bytes zero offset = some ([], offset)
read_offers lossy bytes (suc count) offset = do
  (offer, after) ← Offer.from_bytes lossy bytes offset
  (offers, end) ← read_offers lossy bytes count after
  some (offer ∷ offers, end)

-- One round of the loop over the required names.
unfoldable pub read_name : (List ℕ → List ℕ) → List ℕ → ℕ → Option (List ℕ × ℕ)
read_name lossy bytes offset =
    let name_len = get_or bytes offset 0 in
    if leb (length bytes) offset
    then none
    else if ltb (length bytes) (offset + 1 + name_len)
    then none
    else some (lossy (slice bytes (offset + 1) (offset + 1 + name_len)), offset + 1 + name_len)

unfoldable pub read_names : (List ℕ → List ℕ) → List ℕ → ℕ → ℕ → Option (List (List ℕ) × ℕ)
read_names lossy bytes zero offset = some ([], offset)
read_names lossy bytes (suc count) offset = do
  (name, after) ← read_name lossy bytes offset
  (names, end) ← read_names lossy bytes count after
  some (name ∷ names, end)

-- The required part: its count at `offset`, then the names.
unfoldable pub read_required : (List ℕ → List ℕ) → List ℕ → ℕ → Option (List (List ℕ) × ℕ)
read_required lossy bytes offset =
    if leb (length bytes) offset
    then none
    else read_names lossy bytes (get_or bytes offset 0) (offset + 1)

unfoldable pub read_body : (List ℕ → List ℕ) → List ℕ → Option CapabilityNegotiation
read_body lossy bytes = do
  (offered, at_required) ← read_offers lossy bytes (get_or bytes 24 0) 25
  (required, end) ← read_required lossy bytes at_required
  some (record {
    offered = offered;
    required = required;
    node_id = slice bytes 0 16;
    timestamp = from_le (slice bytes 16 24);
  })

unfoldable pub from_bytes : (List ℕ → List ℕ) → List ℕ → Option CapabilityNegotiation
from_bytes lossy bytes = if ltb (length bytes) 25 then none else read_body lossy bytes
