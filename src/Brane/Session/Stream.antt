-- ===== src/Brane/Session/Stream.antt =====
-- Two sessions of kernel/src/brane_session.rs that talk to each other.
use brane_os.Prelude.{
  ℕ, ◌≡◌, refl, sym, ap, ◌∙◌, some, List, [], ◌∷◌, map, Result, ok, err, All, add_u64,
}
use brane_os.Crypto.{Primitives, IsLawful, SessionCrypto}
use brane_os.Brane.Wire.Packet.{encrypted_data}
use brane_os.Brane.Session.{
  BraneSession, SessionError, established, encrypt_payload, decrypt_payload, get_tx_nonce,
  get_rx_nonce, nonce_bytes,
}

-- A message and the side that sends it.
pub data Message : Type 0 where
  to_right to_left : List ℕ → Message

abbrev pub plain_of : Message → List ℕ
plain_of (to_right m) = m
plain_of (to_left m) = m

module _ (P : Primitives) where
  -- One message: encrypted by the sender, and its ciphertext decrypted by the receiver.
  unfoldable pub carry :
      BraneSession P
      → BraneSession P
      → List ℕ
      → Result (List ℕ) SessionError × BraneSession P × BraneSession P
  carry from to plain =
      let (sent, from') = encrypt_payload P from plain in
      elim sent [
        | ok packet ↦
            let (result, to') = decrypt_payload P to packet.payload in (result, from', to')
        | err e ↦ (err e, from', to)
      ]

  -- Messages in both directions, in any order; the results are those of the receivers.
  unfoldable pub converse :
      BraneSession P
      → BraneSession P
      → List Message
      → List (Result (List ℕ) SessionError) × BraneSession P × BraneSession P
  converse left right [] = ([], left, right)
  converse left right (to_right m ∷ ms) =
      let (result, left', right') = carry left right m in
      let (results, left'', right'') = converse left' right' ms in
      (result ∷ results, left'', right'')
  converse left right (to_left m ∷ ms) =
      let (result, right', left') = carry right left m in
      let (results, left'', right'') = converse left' right' ms in
      (result ∷ results, left'', right'')

  -- Both sides are established with one engine, and each expects the nonce the other will use.
  pub record Linked (engine : SessionCrypto P) (left right : BraneSession P) : Type 0 where
    pub left_up : left.state ≡ established
    pub right_up : right.state ≡ established
    pub left_engine : left.crypto_engine ≡ some engine
    pub right_engine : right.crypto_engine ≡ some engine
    pub rightward : left.tx_nonce ≡ right.rx_nonce
    pub leftward : right.tx_nonce ≡ left.rx_nonce

  -- The cipher takes the message under every nonce: the crate refuses over-long ones.
  abbrev pub Sealable : SessionCrypto P → List ℕ → Type 0
  Sealable engine plain =
      (nonce : List ℕ)
      → (sealed : List ℕ) × (P.cipher_encrypt engine.cipher nonce plain ≡ some sealed)

  -- What an established session does with a message that the cipher takes.
  encrypt-established :
      (engine : SessionCrypto P) (s : BraneSession P) (m sealed : List ℕ)
      → s.state ≡ established
      → s.crypto_engine ≡ some engine
      → P.cipher_encrypt engine.cipher (nonce_bytes s.tx_nonce) m ≡ some sealed
      → encrypt_payload P s m ≡ (
        ok (record { ptype = encrypted_data; payload = sealed }),
        record s { tx_nonce = add_u64 s.tx_nonce 1 },
      )
  unfolding encrypt_payload get_tx_nonce
  encrypt-established engine s m sealed up keyed e = rw (up, keyed, e) refl

  decrypt-established :
      (engine : SessionCrypto P) (s : BraneSession P) (m sealed : List ℕ)
      → s.state ≡ established
      → s.crypto_engine ≡ some engine
      → P.cipher_decrypt engine.cipher (nonce_bytes s.rx_nonce) sealed ≡ some m
      → decrypt_payload P s sealed ≡ (ok m, record s { rx_nonce = add_u64 s.rx_nonce 1 })
  unfolding decrypt_payload get_rx_nonce
  decrypt-established engine s m sealed up keyed e = rw (up, keyed, e) refl

  carry_lem :
      (lawful : IsLawful P) (engine : SessionCrypto P) (left right : BraneSession P) (m : List ℕ)
      → Linked engine left right
      → Sealable engine m
      → carry left right m ≡ (
        ok m,
        record left { tx_nonce = add_u64 left.tx_nonce 1 },
        record right { rx_nonce = add_u64 right.rx_nonce 1 },
      )
  unfolding carry
  carry_lem lawful engine left right m h s =
      let (sealed, e) = s (nonce_bytes left.tx_nonce) in
      let opened : P.cipher_decrypt engine.cipher (nonce_bytes right.rx_nonce) sealed ≡ some m =
        ap (λ n. P.cipher_decrypt engine.cipher (nonce_bytes n) sealed) (sym h.rightward)
        ∙ lawful.decrypt_encrypt engine.cipher _ m sealed e in
      rw
        (
          encrypt-established engine left m sealed h.left_up h.left_engine e,
          carry,
          encrypt-established engine left m sealed h.left_up h.left_engine e,
          decrypt-established engine right m sealed h.right_up h.right_engine opened,
        )
        refl

  flip :
      {engine : SessionCrypto P} {left right : BraneSession P}
      → Linked engine left right
      → Linked engine right left
  flip h = record {
    left_up = h.right_up;
    right_up = h.left_up;
    left_engine = h.right_engine;
    right_engine = h.left_engine;
    rightward = h.leftward;
    leftward = h.rightward;
  }

  still-Linked :
      {engine : SessionCrypto P} {left right : BraneSession P}
      → Linked engine left right
      → Linked engine
          (record left { tx_nonce = add_u64 left.tx_nonce 1 })
          (record right { rx_nonce = add_u64 right.rx_nonce 1 })
  still-Linked h = record {
    left_up = h.left_up;
    right_up = h.right_up;
    left_engine = h.left_engine;
    right_engine = h.right_engine;
    rightward = ap (λ n. add_u64 n 1) h.rightward;
    leftward = h.leftward;
  }

  -- In a linked pair every message arrives as it was sent, whatever the directions and their order,
  -- and the pair is linked again.
  pub converse_lem :
      (lawful : IsLawful P) (engine : SessionCrypto P) (ms : List Message)
      → (left right : BraneSession P) → Linked engine left right
      → All (λ m. Sealable engine (plain_of m)) ms
      → ((converse left right ms).0 ≡ map (λ m. ok (plain_of m)) ms)
        × Linked engine (converse left right ms).1 (converse left right ms).2
  unfolding converse
  converse_lem lawful engine [] left right h s = (refl, h)
  converse_lem lawful engine (to_right m ∷ ms) left right h s =
      rw (carry_lem lawful engine left right m h s.0, converse)
        (let later = converse_lem lawful engine ms _ _ (still-Linked h) s.1 in
          (ap (◌∷◌ (ok m)) later.0, later.1))
  converse_lem lawful engine (to_left m ∷ ms) left right h s =
      rw (carry_lem lawful engine right left m (flip h) s.0, converse)
        (let later = converse_lem lawful engine ms _ _ (flip (still-Linked (flip h))) s.1 in
          (ap (◌∷◌ (ok m)) later.0, later.1))
