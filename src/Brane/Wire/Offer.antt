-- ===== src/Brane/Wire/Offer.antt =====
-- `CapabilityOffer::to_bytes` and `from_bytes` of kernel/src/brane_session.rs.
use brane_os.Prelude.{
  ℕ, ◌+◌, Option, none, some, List, [], ◌∷◌, ◌++◌, length, get_or, ltb, leb, if◌then◌else◌,
}
use brane_os.Prelude.Bytes.{slice, to_le, from_le}
use brane_os.Brane.Wire.{CapabilityOffer, name_bytes}

unfoldable pub to_bytes : CapabilityOffer → List ℕ
to_bytes offer =
    name_bytes offer.name ++ (to_le 4 offer.permissions_bits ++ (offer.risk_level ∷ []))

-- `CapabilityOffer::from_bytes`: `offset` is the cursor, given back as the caller sees it.
unfoldable pub from_bytes : (List ℕ → List ℕ) → List ℕ → ℕ → Option (CapabilityOffer × ℕ)
from_bytes lossy bytes offset =
    let name_len = get_or bytes offset 0 in
    let at_name = offset + 1 in
    let at_bits = at_name + name_len in
    if leb (length bytes) offset
    then none
    else if ltb (length bytes) (at_name + name_len)
    then none
    else if ltb (length bytes) (at_bits + 4 + 1)
    then none
    else some (
      record {
        name = lossy (slice bytes at_name (at_name + name_len));
        permissions_bits = from_le (slice bytes at_bits (at_bits + 4));
        risk_level = get_or bytes (at_bits + 4) 0;
      },
      at_bits + 4 + 1,
    )
