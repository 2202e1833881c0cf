-- ===== src/Socket/Lookup.antt =====
-- The sockets of kernel/src/socket.rs by id: what creating a socket adds.
use mathlib.Core.Option.{some-injective}
use brane_os.Prelude.{
  ℕ, zero, suc, ◌+◌, ◌^◌, ◌≤◌, ◌<◌, ◌≡◌, refl, ap, subst, ◌∙◌, ◌⊎◌, inl, inr, true, none, some,
  List, [], ◌∷◌, length, replicate, length-replicate, ok, err, ◌==◌, if◌then◌else◌, arith,
  Bool-cases, Option-cases, All,
}
use brane_os.Socket.{
  Socket, SocketTable, Protocol, table_full, max_sockets, is_active, fresh, store, create, find_at,
  get, active_sockets, active_count, new, empty,
}

-- The ids of the active sockets lie below `n`.
abbrev pub Below : ℕ → List Socket → Type 0
Below n = All (λ s. (if is_active s then s.id else 0) < n)

pub record IsValid (t : SocketTable) : Type 0 where
  pub sized : length t.sockets ≡ max_sockets
  pub below : Below t.next_id t.sockets
  pub positive : 0 < t.next_id

replicate-Below : (n k : ℕ) → 0 < n → Below n (replicate k empty)
unfolding replicate empty
replicate-Below n zero h = tt
replicate-Below n (suc k) h = (h, replicate-Below n k h)

pub new-IsValid : IsValid new
unfolding new
new-IsValid = record {
  sized = length-replicate max_sockets empty;
  below = replicate-Below 1 max_sockets (omega arith);
  positive = omega arith;
}

find_at-Below : (n : ℕ) (ss : List Socket) → Below n ss → 0 < n → find_at n ss ≡ none
unfolding find_at
find_at-Below n [] h p = refl
find_at-Below n (s ∷ ss) h p = ground (arith, find_at-Below n ss h.1 p)

find_at-store :
    (k : ℕ) (a : Socket) (ss : List Socket) {out : List Socket}
    → is_active a ≡ true
    → Below a.id ss
    → 0 < a.id
    → store a ss ≡ some out
    → find_at k out ≡ (if a.id == k then some a else find_at k ss)
unfolding find_at store
find_at-store k a [] up h p e = ground arith
find_at-store k a (s ∷ ss) up h p e = elim (Bool-cases (is_active s)) [
  | inr free ↦ ground (arith, free)
  | inl used ↦ elim (Option-cases (store a ss)) [
    | inl q ↦ ground arith
    | inr (u, q) ↦ ground (arith, find_at-store k a ss {out = u} up h.1 p q)
  ]
]

active_sockets-le-length : (ss : List Socket) → length (active_sockets ss) ≤ length ss
unfolding active_sockets
active_sockets-le-length [] = omega arith
active_sockets-le-length (s ∷ ss) = ground (arith, active_sockets-le-length ss)

-- Every slot is active when there is no room.
store-none :
    (a : Socket) (ss : List Socket) → store a ss ≡ none → length (active_sockets ss) ≡ length ss
unfolding store active_sockets
store-none a [] e = refl
store-none a (s ∷ ss) e = elim (Bool-cases (is_active s)) [
  | inr free ↦ ground arith
  | inl used ↦ elim (Option-cases (store a ss)) [
    | inl q ↦ ground (arith, store-none a ss q)
    | inr (u, q) ↦ ground arith
  ]
]

-- A socket that was stored took a slot that was free.
store-some :
    (a : Socket) (ss : List Socket) {out : List Socket}
    → store a ss ≡ some out
    → length (active_sockets ss) < length ss
unfolding store active_sockets
store-some a [] e = absurd (cc)
store-some a (s ∷ ss) e = elim (Bool-cases (is_active s)) [
  | inr free ↦ ground (arith, free, active_sockets-le-length ss)
  | inl used ↦ elim (Option-cases (store a ss)) [
    | inl q ↦ ground arith
    | inr (u, q) ↦ ground (arith, used, store-some a ss {out = u} q)
  ]
]

store-Below :
    (n : ℕ) (a : Socket) (ss : List Socket) {out : List Socket}
    → a.id < n
    → 0 < n
    → Below n ss
    → store a ss ≡ some out
    → Below n out × (length out ≡ length ss)
unfolding store
store-Below n a [] l p h e = absurd (cc)
store-Below n a (s ∷ ss) {out} l p h e = elim (Bool-cases (is_active s)) [
  | inr free ↦
      subst (λ o. Below n o × (length o ≡ suc (length ss))) (some-injective _ _ (rw free at e))
        ((ground arith, h.1), refl)
  | inl used ↦ elim (Option-cases (store a ss)) [
    | inl q ↦ ground arith
    | inr (u, q) ↦
        let rest = store-Below n a ss l p h.1 q in
        subst (λ o. Below n o × (length o ≡ suc (length ss)))
          (some-injective _ _ (rw (used, q) at e)) ((h.0, rest.0), ap suc rest.1)
  ]
]

Below-mono : (m n : ℕ) (ss : List Socket) → m ≤ n → Below m ss → Below n ss
Below-mono m n [] l h = tt
Below-mono m n (s ∷ ss) l h = (omega (arith, h.0), Below-mono m n ss l h.1)

-- The table after a socket was stored under a fresh id.
pub record Created (t : SocketTable) (a : Socket) (n : SocketTable) : Type 0 where
  pub had_room : active_count t < max_sockets
  pub found : (k : ℕ) → get n k ≡ (if t.next_id == k then some a else get t k)
  pub moved : n.next_id ≡ t.next_id + 1
  pub valid : IsValid n

-- While ids are left, `create` answers `TableFull`, and changes nothing, where all 32 sockets are
-- active; with fewer active it hands out the next id, which finds exactly the new socket, and what every other
-- id finds is unchanged.
pub create_socket_lem :
    (t : SocketTable) (protocol : Protocol) (owner : ℕ)
    → IsValid t
    → t.next_id + 1 < 2 ^ 32
    → ((create t protocol owner ≡ (err table_full, t)) × (active_count t ≡ max_sockets))
      ⊎ (((create t protocol owner).0 ≡ ok t.next_id)
          × Created t (fresh t.next_id protocol owner) (create t protocol owner).1)
unfolding create get fresh active_count
create_socket_lem t protocol owner v room =
    elim (Option-cases (store (fresh t.next_id protocol owner) t.sockets)) [
      | inl full ↦ rw (full, create) (inl (refl, store-none _ t.sockets full ∙ v.sized))
      | inr (ss, e) ↦
          let kept =
            store-Below (suc t.next_id) (fresh t.next_id protocol owner) t.sockets (omega arith)
              (omega arith) (Below-mono t.next_id (suc t.next_id) t.sockets (omega arith) v.below)
              e in
          rw (e, create)
            (inr (
              refl,
              record {
                had_room = omega (arith, store-some _ t.sockets e, v.sized);
                found = λ k.
                    find_at-store k (fresh t.next_id protocol owner) t.sockets refl v.below
                      v.positive e;
                moved = omega arith;
                valid = record {
                  sized = kept.1 ∙ v.sized;
                  below = subst (λ n. Below n ss) (omega arith) kept.0;
                  positive = omega arith;
                };
              },
            ))
    ]
