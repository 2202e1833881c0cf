-- ===== src/Crypto.antt =====
-- kernel/src/crypto.rs: the key exchange and the encryption that a brane session uses.
-- The curve and the cipher belong to the crates `salty` and `chacha20poly1305`: they are the
-- parameter `Primitives`, with what their documentation says of them in `IsLawful`. RDRAND is a
-- function from the number of the draw to the word drawn.
use brane_os.Prelude.{
  ℕ, zero, suc, ◌+◌, ◌-◌, ◌/◌, ◌%◌, ◌≤◌, ◌<◌, ap, ap₂, get_or, dec_lt, get_or-append_inside,
  get_or-append_behind, get_or-take, get_or_out, ltb, if◌then◌else◌, ◌≡◌, ◌∙◌, min, Option, some,
  List, [], ◌++◌, length, take, arith, length-append, length-take,
}
use brane_os.Prelude.Bytes.{to_le, length-to_le}

pub record Primitives : Type 1 where
  pub Secret : Type 0
  pub Public : Type 0
  pub Cipher : Type 0
  pub secret_from_seed : List ℕ → Secret
  pub public_of : Secret → Public
  pub public_from : List ℕ → Public
  pub public_bytes : Public → List ℕ
  pub agree : Secret → Public → List ℕ
  pub cipher_new : List ℕ → Cipher
  pub cipher_encrypt : Cipher → List ℕ → List ℕ → Option (List ℕ)
  pub cipher_decrypt : Cipher → List ℕ → List ℕ → Option (List ℕ)

-- X25519: a public key is 32 bytes and is read back from them, and both sides agree on one secret.
-- ChaCha20-Poly1305: what was encrypted under a nonce is decrypted under it.
pub record IsLawful (P : Primitives) : Type 0 where
  pub public_length : (k : P.Public) → length (P.public_bytes k) ≡ 32
  pub public_again : (k : P.Public) → P.public_from (P.public_bytes k) ≡ k
  pub agree_both : (a b : P.Secret) → P.agree a (P.public_of b) ≡ P.agree b (P.public_of a)
  pub decrypt_encrypt :
      (c : P.Cipher) (nonce plain sealed : List ℕ)
      → P.cipher_encrypt c nonce plain ≡ some sealed
      → P.cipher_decrypt c nonce sealed ≡ some plain

-- `HardwareRng::fill_bytes`: `left` bytes from draw number `draw` on, and the next draw's number. A
-- round fills a byte at least, so as many rounds as bytes are enough.
unfoldable pub fill_rounds : (ℕ → ℕ) → ℕ → ℕ → ℕ → List ℕ × ℕ
fill_rounds word zero draw left = ([], draw)
fill_rounds word (suc rounds) draw zero = ([], draw)
fill_rounds word (suc rounds) draw (suc left) =
    let chunk = min 8 (suc left) in
    let (rest, after) = fill_rounds word rounds (suc draw) (suc left - chunk) in
    (take chunk (to_le 8 (word draw)) ++ rest, after)

unfoldable pub fill_bytes : (ℕ → ℕ) → ℕ → ℕ → List ℕ × ℕ
fill_bytes word draw len = fill_rounds word len draw len

fill_rounds_lem :
    (word : ℕ → ℕ) (rounds draw left : ℕ)
    → left ≤ rounds
    → let (bytes, after) = fill_rounds word rounds draw left in
      (length bytes ≡ left) × (after ≡ draw + (left + 7) / 8)
unfolding fill_rounds
fill_rounds_lem word zero draw left h = omega arith
fill_rounds_lem word (suc rounds) draw zero h = omega arith
fill_rounds_lem word (suc rounds) draw (suc left) h =
    let rest = fill_rounds_lem word rounds (suc draw) (suc left - chunk) (omega arith) in
    (
      length-append (take chunk (to_le 8 (word draw))) _
          ∙ omega
              (arith, rest.0, length-take chunk (to_le 8 (word draw)), length-to_le 8 (word draw)),
      omega (arith, rest.1),
    )
  where
    chunk : ℕ
    chunk = min 8 (suc left)

-- Byte `i` of what a sequence of draws gives, from draw number `draw` on.
drawn_byte : (ℕ → ℕ) → ℕ → ℕ → ℕ
drawn_byte word draw i = get_or (to_le 8 (word (draw + i / 8))) (i % 8) 0

drawn_byte_next :
    (word : ℕ → ℕ) (draw i : ℕ)
    → 8 ≤ i
    → drawn_byte word (suc draw) (i - 8) ≡ drawn_byte word draw i
unfolding drawn_byte
drawn_byte_next word draw i h =
    ap₂ (λ d k. get_or (to_le 8 (word d)) k 0) (omega (arith, h)) (omega (arith, h))

drawn_byte_first :
    (word : ℕ → ℕ) (draw i : ℕ) → i < 8 → get_or (to_le 8 (word draw)) i 0 ≡ drawn_byte word draw i
unfolding drawn_byte
drawn_byte_first word draw i h =
    ap₂ (λ d k. get_or (to_le 8 (word d)) k 0) (omega (arith, h)) (omega (arith, h))

fill_rounds_drawn :
    (word : ℕ → ℕ) (rounds draw left i : ℕ)
    → left ≤ rounds
    → i < left
    → get_or (fill_rounds word rounds draw left).0 i 0 ≡ drawn_byte word draw i
unfolding fill_rounds
fill_rounds_drawn word zero draw left i h l = absurd (omega arith)
fill_rounds_drawn word (suc rounds) draw zero i h l = absurd (omega arith)
fill_rounds_drawn word (suc rounds) draw (suc left) i h l = elim (dec_lt i chunk) [
  | yes inside ↦
      get_or-append_inside first rest i 0 (omega (arith, taken, inside))
      ∙ get_or-take chunk (to_le 8 (word draw)) i 0 inside
      ∙ drawn_byte_first word draw i (omega arith)
  | no behind ↦
      get_or-append_behind first rest i 0 (omega (arith, taken, behind))
      ∙ ap (λ k. get_or rest k 0) {y = i - 8} (omega (arith, taken, behind))
      ∙ fill_rounds_drawn word rounds (suc draw) (suc left - chunk) (i - 8) (omega arith)
          (omega (arith, behind))
      ∙ drawn_byte_next word draw i (omega (arith, behind))
]
  where
    chunk : ℕ
    chunk = min 8 (suc left)

    first : List ℕ
    first = take chunk (to_le 8 (word draw))

    rest : List ℕ
    rest = (fill_rounds word rounds (suc draw) (suc left - chunk)).0

    taken : length first ≡ chunk
    taken = omega (arith, length-take chunk (to_le 8 (word draw)), length-to_le 8 (word draw))

-- The destination is filled whole, however long it is: a draw is used for every eight bytes begun, and
-- byte `i` is byte `i % 8` of draw number `i / 8`, the lowest byte of a word first.
pub fill_bytes_lem :
    (word : ℕ → ℕ) (draw len i : ℕ)
    → let (bytes, after) = fill_bytes word draw len in
      (length bytes ≡ len)
      × (after ≡ draw + (len + 7) / 8)
      × (get_or bytes i 0
          ≡ (if ltb i len then get_or (to_le 8 (word (draw + i / 8))) (i % 8) 0 else 0))
unfolding fill_bytes drawn_byte
fill_bytes_lem word draw len i =
    let (whole, draws) = fill_rounds_lem word len draw len (omega arith) in
    (
      whole,
      draws,
      elim (dec_lt i len) [
        | yes h ↦ fill_rounds_drawn word len draw len i (omega arith) h ∙ ground (arith, h)
        | no h ↦ get_or_out _ i 0 (omega (arith, whole, h)) ∙ ground (arith, h)
      ],
    )

module _ (P : Primitives) where
  pub record EphemeralKey : Type 0 where
    pub secret : P.Secret
    pub public : P.Public

  -- `EphemeralKey::generate`, from the draws; `SECRETKEY_SEED_LENGTH` is 32.
  unfoldable pub generate : (ℕ → ℕ) → ℕ → EphemeralKey
  generate word draw =
      let secret = P.secret_from_seed (fill_bytes word draw 32).0 in
      record { secret = secret; public = P.public_of secret }

  abbrev pub diffie_hellman : EphemeralKey → P.Public → List ℕ
  diffie_hellman key peer = P.agree key.secret peer

  pub record SessionCrypto : Type 0 where
    pub cipher : P.Cipher

  unfoldable pub new : List ℕ → SessionCrypto
  new shared_secret = record { cipher = P.cipher_new shared_secret }

  abbrev pub encrypt : SessionCrypto → List ℕ → List ℕ → Option (List ℕ)
  encrypt engine nonce plain = P.cipher_encrypt engine.cipher nonce plain

  abbrev pub decrypt : SessionCrypto → List ℕ → List ℕ → Option (List ℕ)
  decrypt engine nonce sealed = P.cipher_decrypt engine.cipher nonce sealed
