-- ===== src/Brane/Wire/Reading.antt =====
-- The offers and the names of a negotiation of kernel/src/brane_session.rs, read back at the place in
-- the buffer where they were written.
use brane_os.Prelude.{
  false, ℕ, suc, ◌+◌, ◌%◌, ◌^◌, ◌<◌, ◌≡◌, refl, sym, ap, ◌∙◌, some, List, [], ◌∷◌, ◌++◌, length,
  ltb, leb, arith, take, drop, length-append, All,
}
use brane_os.Prelude.Bytes.{
  slice, to_le, length-to_le, from_le-to_le, Left, length-Left, get_or-Left, take-Left, Left-after,
}
use native.Mathlib.Nat.{add-zero}
use mathlib.Core.List.{append_assoc}
use brane_os.Brane.Wire.{CapabilityOffer, name_bytes}
use brane_os.Brane.Wire.Offer
use brane_os.Brane.Wire.Negotiation

-- A slice of known length, read out of what is left.
pub slice-Left :
    {bytes : List ℕ} (xs rest : List ℕ) {offset to : ℕ}
    → to ≡ offset + length xs
    → Left bytes offset (xs ++ rest)
    → slice bytes offset to ≡ xs
slice-Left {bytes} xs rest {offset} {to} e h =
    ap (λ n. take n (drop offset bytes)) (omega arith) ∙ take-Left xs rest h

pub Left-at : {bytes rest : List ℕ} {a b : ℕ} → a ≡ b → Left bytes a rest → Left bytes b rest
Left-at {bytes} {rest} e h = rw (← e) h

module _ (lossy : List ℕ → List ℕ) where
  -- The name fits its length byte and is valid UTF-8, which lossy decoding leaves as it is.
  pub record IsName (name : List ℕ) : Type 0 where
    pub short : length name < 256
    pub utf8 : lossy name ≡ name

  pub record IsOffer (offer : CapabilityOffer) : Type 0 where
    pub named : IsName offer.name
    pub bits : offer.permissions_bits < 2 ^ 32

  offer-Left :
      {bytes : List ℕ} (o : CapabilityOffer) (rest : List ℕ) (offset : ℕ)
      → IsOffer o
      → Left bytes offset (Offer.to_bytes o ++ rest)
      → Offer.from_bytes lossy bytes offset ≡ some (o, offset + length (Offer.to_bytes o))
  unfolding Offer.from_bytes Offer.to_bytes
  offer-Left {bytes} o rest offset fit h =
      rw
        (
          get_or-Left 0 head,
          in_range,
          lt_range,
          bits_range,
          slice-Left o.name tail refl after_head,
          fit.named.utf8,
          slice-Left (to_le 4 o.permissions_bits) ((o.risk_level ∷ []) ++ rest)
              (ap (◌+◌ (offset + 1 + length o.name)) (sym (length-to_le 4 o.permissions_bits)))
              after_name,
          from_le-to_le 4 o.permissions_bits fit.bits,
          get_or-Left 0 after_bits,
        )
        (ap (λ n. some (o, n))
          (omega (
            arith,
            length-append o.name (to_le 4 o.permissions_bits ++ (o.risk_level ∷ [])),
            length-append (to_le 4 o.permissions_bits) (o.risk_level ∷ []),
            length-to_le 4 o.permissions_bits,
          )))
    where
      small : length o.name % 256 ≡ length o.name
      small = omega arith

      tail : List ℕ
      tail = to_le 4 o.permissions_bits ++ ((o.risk_level ∷ []) ++ rest)

      head : Left bytes offset (length o.name ∷ (o.name ++ tail))
      head = record {
        inside = h.inside;
        left =
            h.left
            ∙ rw
                (
                  append_assoc o.name _ rest,
                  append_assoc (to_le 4 o.permissions_bits) _ rest,
                  small,
                )
                refl;
      }

      after_head : Left bytes (offset + 1) (o.name ++ tail)
      after_head = Left-after (length o.name ∷ []) head

      after_name : Left bytes (offset + 1 + length o.name) tail
      after_name = Left-after o.name after_head

      after_bits : Left bytes (offset + 1 + length o.name + 4) (o.risk_level ∷ rest)
      after_bits =
          Left-at (omega (arith, length-to_le 4 o.permissions_bits))
            (Left-after (to_le 4 o.permissions_bits) after_name)

      whole : length bytes ≡ offset + suc (length o.name) + 4 + suc (length rest)
      whole = omega (arith, length-Left after_bits)

      in_range : leb (length bytes) offset ≡ false
      in_range = ground (arith, whole)

      lt_range : ltb (length bytes) (offset + 1 + length o.name) ≡ false
      lt_range = ground (arith, whole)

      bits_range : ltb (length bytes) (offset + 1 + length o.name + 4 + 1) ≡ false
      bits_range = ground (arith, whole)

  pub offers-Left :
      {bytes : List ℕ} (os : List CapabilityOffer) (rest : List ℕ) (offset : ℕ)
      → All IsOffer os
      → Left bytes offset (Negotiation.offers_bytes os ++ rest)
      → Negotiation.read_offers lossy bytes (length os) offset
        ≡ some (os, offset + length (Negotiation.offers_bytes os))
  unfolding Negotiation.read_offers Negotiation.offers_bytes
  offers-Left [] rest offset fit h = rw add-zero refl
  offers-Left {bytes} (o ∷ os) rest offset fit h =
      rw
        (
          offer-Left o more offset fit.0 here,
          offers-Left os rest (offset + length (Offer.to_bytes o)) fit.1
              (Left-after (Offer.to_bytes o) here),
        )
        (ap (λ n. some (o ∷ os, n))
          (omega (arith, length-append (Offer.to_bytes o) (Negotiation.offers_bytes os))))
    where
      more : List ℕ
      more = Negotiation.offers_bytes os ++ rest

      here : Left bytes offset (Offer.to_bytes o ++ more)
      here = record { inside = h.inside; left = h.left ∙ append_assoc (Offer.to_bytes o) _ rest }

  name-Left :
      {bytes : List ℕ} (name : List ℕ) (rest : List ℕ) (offset : ℕ)
      → IsName name
      → Left bytes offset (name_bytes name ++ rest)
      → Negotiation.read_name lossy bytes offset ≡ some (name, offset + length (name_bytes name))
  unfolding Negotiation.read_name
  name-Left {bytes} name rest offset fit h =
      rw
        (
          get_or-Left 0 head,
          in_range,
          lt_range,
          slice-Left name rest refl (Left-after (length name ∷ []) head),
          fit.utf8,
        )
        (ap (λ n. some (name, n)) (omega arith))
    where
      small : length name % 256 ≡ length name
      small = omega arith

      head : Left bytes offset (length name ∷ (name ++ rest))
      head = record { inside = h.inside; left = h.left ∙ rw small refl }

      whole : length bytes ≡ offset + suc (length name) + length rest
      whole = omega (arith, length-Left (Left-after (length name ∷ name) head))

      in_range : leb (length bytes) offset ≡ false
      in_range = ground (arith, whole)

      lt_range : ltb (length bytes) (offset + 1 + length name) ≡ false
      lt_range = ground (arith, whole)

  pub names-Left :
      {bytes : List ℕ} (names : List (List ℕ)) (rest : List ℕ) (offset : ℕ)
      → All IsName names
      → Left bytes offset (Negotiation.names_bytes names ++ rest)
      → Negotiation.read_names lossy bytes (length names) offset
        ≡ some (names, offset + length (Negotiation.names_bytes names))
  unfolding Negotiation.read_names Negotiation.names_bytes
  names-Left [] rest offset fit h = rw add-zero refl
  names-Left {bytes} (name ∷ names) rest offset fit h =
      rw
        (
          name-Left name more offset fit.0 here,
          names-Left names rest (offset + length (name_bytes name)) fit.1
              (Left-after (name_bytes name) here),
        )
        (ap (λ n. some (name ∷ names, n))
          (omega (arith, length-append name (Negotiation.names_bytes names))))
    where
      more : List ℕ
      more = Negotiation.names_bytes names ++ rest

      here : Left bytes offset (name_bytes name ++ more)
      here = record { inside = h.inside; left = h.left ∙ append_assoc (name_bytes name) _ rest }
