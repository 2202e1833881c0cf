-- ===== src/Brane/Discovery.antt =====
-- The announcements of kernel/src/brane_discovery.rs: lines of text "ANNOUNCE id name capabilities".
-- A string is the list of its UTF-8 bytes; `core::str::from_utf8` is the test `is_utf8`, an argument.
pub mod Sessions
pub mod Subsystem
use mathlib.Core.Option
use brane_os.Prelude.{
  ℕ, zero, suc, ◌≡◌, refl, ap, ◌∙◌, Bool, true, false, Option, none, some, List, [], ◌∷◌, ◌++◌,
  arith, All, ◌==◌, if◌then◌else◌, ◌≢◌,
}

pub data PacketType : Type 0 where
  announce discover : PacketType

-- "ANNOUNCE" and "DISCOVER".
unfoldable pub as_str : PacketType → List ℕ
as_str announce = 65 ∷ 78 ∷ 78 ∷ 79 ∷ 85 ∷ 78 ∷ 67 ∷ 69 ∷ []
as_str discover = 68 ∷ 73 ∷ 83 ∷ 67 ∷ 79 ∷ 86 ∷ 69 ∷ 82 ∷ []

pub record DiscoveryPacket : Type 0 where
  pub ptype : PacketType
  pub node_id : List ℕ
  pub name : List ℕ
  pub capabilities : List ℕ

abbrev pub space : ℕ
space = 32

unfoldable pub to_bytes : DiscoveryPacket → List ℕ
unfolding as_str
to_bytes p =
    as_str p.ptype ++ (space ∷ (p.node_id ++ (space ∷ (p.name ++ (space ∷ p.capabilities)))))

-- The text up to the first space, and what follows it.
unfoldable pub split_once : List ℕ → List ℕ × Option (List ℕ)
split_once [] = ([], none)
split_once (c ∷ cs) =
    let (word, rest) = split_once cs in if c == space then ([], some cs) else (c ∷ word, rest)

-- `splitn(n, ' ')`: at most `n` parts, the last with what is left.
unfoldable pub splitn : ℕ → List ℕ → List (List ℕ)
splitn zero s = []
splitn (suc zero) s = s ∷ []
splitn (suc (suc n)) s =
    let (word, rest) = split_once s in
    elim rest [ none ↦ word ∷ [] | some more ↦ word ∷ splitn (suc n) more ]

-- Byte-wise equality of strings.
unfoldable pub same : List ℕ → List ℕ → Bool
same [] [] = true
same [] (_ ∷ _) = false
same (_ ∷ _) [] = false
same (a ∷ as') (b ∷ bs) = if a == b then same as' bs else false

unfoldable pub packet_type : List ℕ → Option PacketType
packet_type word =
    if same word (as_str announce)
    then some announce
    else if same word (as_str discover)
    then some discover
    else none

abbrev packet : List ℕ → List ℕ → List ℕ → PacketType → DiscoveryPacket
packet node_id name capabilities ptype = record {
  ptype = ptype;
  node_id = node_id;
  name = name;
  capabilities = capabilities;
}

-- The parts of the line; the capabilities may be missing.
unfoldable pub from_parts : List (List ℕ) → Option DiscoveryPacket
from_parts (word ∷ node_id ∷ name ∷ []) = Option.map (packet node_id name []) (packet_type word)
from_parts (word ∷ node_id ∷ name ∷ capabilities ∷ _) =
    Option.map (packet node_id name capabilities) (packet_type word)
from_parts _ = none

unfoldable pub parse : (List ℕ → Bool) → List ℕ → Option DiscoveryPacket
parse is_utf8 bytes = if is_utf8 bytes then from_parts (splitn 4 bytes) else none

abbrev pub Spaceless : List ℕ → Type 0
Spaceless s = All (λ c. (c == space) ≡ false) s

split_once_word :
    (word rest : List ℕ) → Spaceless word → split_once (word ++ (space ∷ rest)) ≡ (word, some rest)
unfolding split_once
split_once_word [] rest h = refl
split_once_word (c ∷ cs) rest h = rw (h.0, split_once_word cs rest h.1) refl

splitn_word :
    (n : ℕ) (word rest : List ℕ)
    → Spaceless word
    → splitn (suc (suc n)) (word ++ (space ∷ rest)) ≡ word ∷ splitn (suc n) rest
unfolding splitn
splitn_word n word rest h =
    rw (split_once_word word rest h, splitn, split_once_word word rest h) refl

packet_type-as_str : (t : PacketType) → packet_type (as_str t) ≡ some t
unfolding packet_type as_str same
packet_type-as_str announce = refl
packet_type-as_str discover = refl

as_str-Spaceless : (t : PacketType) → Spaceless (as_str t)
unfolding as_str
as_str-Spaceless announce = ground arith
as_str-Spaceless discover = ground arith

-- A packet whose node id and name have no space is read back from the line it is written as; the
-- capabilities may have any.
pub announcement_returns :
    (is_utf8 : List ℕ → Bool) (p : DiscoveryPacket)
    → is_utf8 (to_bytes p) ≡ true
    → Spaceless p.node_id
    → Spaceless p.name
    → parse is_utf8 (to_bytes p) ≡ some p
unfolding parse to_bytes splitn from_parts
announcement_returns is_utf8 p valid node name =
    rw valid (ap from_parts parts ∙ rw (packet_type-as_str p.ptype) refl)
  where
    parts : splitn 4 (to_bytes p) ≡ as_str p.ptype ∷ p.node_id ∷ p.name ∷ p.capabilities ∷ []
    parts =
        splitn_word 2 (as_str p.ptype) _ (as_str-Spaceless p.ptype)
        ∙ ap (◌∷◌ (as_str p.ptype)) (
            splitn_word 1 p.node_id _ node
            ∙ ap (◌∷◌ p.node_id) (splitn_word 0 p.name p.capabilities name))
