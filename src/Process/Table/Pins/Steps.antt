-- ===== src/Process/Table/Pins/Steps.antt =====
-- Each call on the process table keeps the pins counted.
use brane_os.Prelude.{
  ℕ, ◌+◌, ◌^◌, ◌<◌, ◌≡◌, ◌≢◌, refl, sym, subst, inl, inr, Option, none, some, List, ◌∷◌, ◌++◌, ok,
  err, ◌==◌, if◌then◌else◌, arith, Bool-cases, Option-cases,
}
use mathlib.Core.Option
use brane_os.Prelude.Slots.Keyed.{find_above}
use brane_os.Process.AddressSpace.{
  AddressSpacePin, AddressSpaceError, pin, release, bump_generation, new,
}
use brane_os.Process.Table.{
  Process, fresh, create, get, update, on_address_space, pin_address_space,
  release_address_space_pin, bump_address_space_generation,
}
use brane_os.Process.Table.Lookup.{update-IsValid, create_lem, get-update}
use brane_os.Process.Table.Pins.{
  Tracks, pins_of, pin-Tracks, pin_other, release-Tracks, release_other, bump-Tracks,
  pins_of-middle, AtGeneration-zero, pin_refused,
}
use brane_os.Process.Table.Pins.World.{
  World, TracksAt, Sound, on_address_space_missing, moved-Sound,
}

pub TracksAt-pinned :
    (j k : ℕ) (p : AddressSpacePin) (o : Option Process) (held : List AddressSpacePin)
    → p.pid ≡ k
    → k ≢ j
    → TracksAt j o held
    → TracksAt j o (p ∷ held)
TracksAt-pinned j k p none held e ne v = ground arith
TracksAt-pinned j k p (some q) held e ne v = pin_other j k q.address_space p held e ne v

pub TracksAt-released :
    (j k : ℕ) (p : AddressSpacePin) (o : Option Process) (before later : List AddressSpacePin)
    → p.pid ≡ k
    → k ≢ j
    → TracksAt j o (before ++ p ∷ later)
    → TracksAt j o (before ++ later)
TracksAt-released j k p none before later e ne v = ground (arith, pins_of-middle j before later p)
TracksAt-released j k p (some q) before later e ne v =
    release_other j k q.address_space before later p e ne v

pub created-Sound :
    (w : World) (name : List ℕ) (parent : Option ℕ) (task : ℕ)
    → w.table.next_pid + 1 < 2 ^ 64
    → Sound w
    → Sound (record { table = (create w.table name parent task).1; held = w.held })
unfolding fresh new get
created-Sound w name parent task room v = elim (create_lem w.table name parent task v.valid room) [
  | inl (_, c) ↦ record {
    valid = c.valid;
    tracked = λ j. elim (Bool-cases (w.table.next_pid == j)) [
      | inl here' ↦
          let unknown : get w.table j ≡ none =
            find_above (λ p. p.pid) w.table.next_pid j w.table.processes v.valid.keyed
              (ground arith) in
          let unpinned : pins_of j w.held ≡ 0 = rw unknown at (v.tracked j) in
          rw (c.found j, here')
            (record { counted = sym unpinned; current = AtGeneration-zero j 1 w.held unpinned })
      | inr there ↦ rw (c.found j, there) (v.tracked j)
    ];
  }
  | inr (_, _, same) ↦ rw same v
]

pub TracksAt-written :
    (j k : ℕ) (f : Process → Process)
    → ((p : Process) → ((f p).pid ≡ p.pid) × ((f p).address_space ≡ p.address_space))
    → (o : Option Process) (held : List AddressSpacePin) → TracksAt j o held
    → TracksAt j (if k == j then Option.map f o else o) held
TracksAt-written j k f keeps none held v = ground arith
TracksAt-written j k f keeps (some q) held v = elim (Bool-cases (k == j)) [
  | inl here' ↦ rw (here', (keeps q).1) v
  | inr there ↦ rw there v
]

pub written-Sound :
    (w : World) (k : ℕ) (f : Process → Process)
    → ((p : Process) → ((f p).pid ≡ p.pid) × ((f p).address_space ≡ p.address_space))
    → Sound w
    → Sound (record { table = update w.table k f; held = w.held })
written-Sound w k f keeps v = record {
  valid = update-IsValid w.table k f (λ p. (keeps p).0) v.valid;
  tracked = λ j.
      rw (get-update w.table j k f (λ p. (keeps p).0))
        (TracksAt-written j k f keeps (get w.table j) w.held (v.tracked j));
}

pub pinned-Sound :
    (w : World) (k : ℕ) (p : AddressSpacePin)
    → (pin_address_space w.table k).0 ≡ ok p
    → Sound w
    → Sound (record { table = (pin_address_space w.table k).1; held = p ∷ w.held })
unfolding pin_address_space
pinned-Sound w k p e v = elim (Option-cases (get w.table k)) [
  | inl none' ↦ absurd (cc (on_address_space_missing w.table k (λ s. pin s k) none'))
  | inr (q, known) ↦
      let answer : (pin q.address_space k).0 ≡ ok p = rw (known, on_address_space) at e in
      let (mine, tracks) =
        pin-Tracks k q.address_space (pin q.address_space k).1 p w.held (ground (arith, answer))
          (rw known at (v.tracked k)) in
      rw (known, on_address_space)
        (moved-Sound w k q (pin q.address_space k).1 (p ∷ w.held) v known tracks
          λ j ne o. TracksAt-pinned j k p o w.held mine ne)
]

pub pin_failed-Sound :
    (w : World) (k : ℕ) (x : AddressSpaceError)
    → (pin_address_space w.table k).0 ≡ err x
    → Sound w
    → Sound (record { table = (pin_address_space w.table k).1; held = w.held })
unfolding pin_address_space
pin_failed-Sound w k x e v = elim (Option-cases (get w.table k)) [
  | inl none' ↦ rw (none', on_address_space) v
  | inr (q, known) ↦
      let answer : (pin q.address_space k).0 ≡ err x = rw (known, on_address_space) at e in
      rw (known, on_address_space)
        (moved-Sound w k q (pin q.address_space k).1 w.held v known
          (rw (pin_refused q.address_space k x answer) (rw known at (v.tracked k))) λ j ne o h. h)
]

-- The process that a held pin belongs to.
pub held_owner :
    (w : World) (before later : List AddressSpacePin) (p : AddressSpacePin)
    → w.held ≡ before ++ p ∷ later
    → Sound w
    → (q : Process) × (get w.table p.pid ≡ some q)
      × Tracks p.pid q.address_space (before ++ p ∷ later)
held_owner w before later p e v = elim (Option-cases (get w.table p.pid)) [
  | inl none' ↦ absurd (ground (arith, pins_of-middle p.pid before later p, unpinned none'))
  | inr (q, known) ↦
      (q, known, subst (Tracks p.pid q.address_space) e (rw known at (v.tracked p.pid)))
]
  where
    unpinned : get w.table p.pid ≡ none → pins_of p.pid (before ++ p ∷ later) ≡ 0
    unpinned none' = rw (← e) (rw none' at (v.tracked p.pid))

pub released-Sound :
    (w : World) (before later : List AddressSpacePin) (p : AddressSpacePin)
    → w.held ≡ before ++ p ∷ later
    → Sound w
    → Sound (record { table = (release_address_space_pin w.table p).1; held = before ++ later })
unfolding release_address_space_pin
released-Sound w before later p e v =
    let (q, known, tracks) = held_owner w before later p e v in
    rw (known, on_address_space)
      (moved-Sound w p.pid q (release q.address_space p).1 (before ++ later) v known
        (release-Tracks p.pid q.address_space before later p refl tracks).1
        λ j ne o h. TracksAt-released j p.pid p o before later refl ne (subst (TracksAt j o) e h))

pub bumped-Sound :
    (w : World) (k : ℕ)
    → Sound w
    → Sound (record { table = (bump_address_space_generation w.table k).1; held = w.held })
unfolding bump_address_space_generation
bumped-Sound w k v = elim (Option-cases (get w.table k)) [
  | inl none' ↦ rw (none', on_address_space) v
  | inr (q, known) ↦
      rw (known, on_address_space)
        (moved-Sound w k q (bump_generation q.address_space).1 w.held v known
          (bump-Tracks k q.address_space w.held (rw known at (v.tracked k))) λ j ne o h. h)
]
