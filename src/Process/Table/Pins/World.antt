-- ===== src/Process/Table/Pins/World.antt =====
-- The process table with the pins that its readers hold, the calls that change them, and the
-- invariant that every process counts its pins.
use brane_os.Prelude.{
  ℕ, ◌+◌, ◌^◌, ◌<◌, ◌≡◌, ◌≢◌, refl, subst, inl, inr, Option, none, some, List, ◌∷◌, ◌++◌, Result,
  ok, err, ◌==◌, arith, Bool-cases, ==→eq,
}
use brane_os.Process.AddressSpace.{AddressSpaceState, AddressSpacePin, AddressSpaceError}
use brane_os.Process.Table.{
  Process, ProcessTable, create, get, update, on_address_space, pin_address_space,
  release_address_space_pin, bump_address_space_generation,
}
use brane_os.Process.Table.Lookup.{IsValid, get-update_found, update-IsValid}
use brane_os.Process.Table.Pins.{Tracks, pins_of}

-- The process table with the pins that readers hold. A pin cannot be copied, so each is held once.
pub record World : Type 0 where
  pub table : ProcessTable
  pub held : List AddressSpacePin

-- One call, made by anyone at any time. A release gives up a held pin, wherever it was taken; a write
-- is any other change of a process, such as of its state, its signals or its counters.
pub data Step (w : World) : World → Type 0 where
  created :
      (name : List ℕ) (parent : Option ℕ) (task : ℕ)
      → w.table.next_pid + 1 < 2 ^ 64
      → Step w (record { table = (create w.table name parent task).1; held = w.held })
  written :
      (k : ℕ) (f : Process → Process)
      → ((p : Process) → ((f p).pid ≡ p.pid) × ((f p).address_space ≡ p.address_space))
      → Step w (record { table = update w.table k f; held = w.held })
  pinned :
      (k : ℕ) (p : AddressSpacePin)
      → (pin_address_space w.table k).0 ≡ ok p
      → Step w (record { table = (pin_address_space w.table k).1; held = p ∷ w.held })
  pin_failed :
      (k : ℕ) (e : AddressSpaceError)
      → (pin_address_space w.table k).0 ≡ err e
      → Step w (record { table = (pin_address_space w.table k).1; held = w.held })
  released :
      (before later : List AddressSpacePin) (p : AddressSpacePin)
      → w.held ≡ before ++ p ∷ later
      → Step w (record { table = (release_address_space_pin w.table p).1; held = before ++ later })
  bumped :
      (k : ℕ)
      → Step w (record { table = (bump_address_space_generation w.table k).1; held = w.held })

pub data Reach (w : World) : World → Type 0 where
  here : Reach w w
  next : {u v : World} → Reach w u → Step u v → Reach w v

-- What the table knows under an id against the pins held for it.
abbrev pub TracksAt : ℕ → Option Process → List AddressSpacePin → Type 0
TracksAt k none held = pins_of k held ≡ 0
TracksAt k (some p) held = Tracks k p.address_space held

pub record Sound (w : World) : Type 0 where
  pub valid : IsValid w.table
  pub tracked : (k : ℕ) → TracksAt k (get w.table k) w.held

-- The call of `f` on the address space of a process that is there.
pub on_address_space_found :
    {A : Type 0} (t : ProcessTable) (k : ℕ)
    (f : AddressSpaceState → Result A AddressSpaceError × AddressSpaceState) (p : Process)
    → get t k ≡ some p
    → on_address_space t k f ≡ (
      (f p.address_space).0,
      update t k (λ q. record q { address_space = (f p.address_space).1 }),
    )
unfolding on_address_space
on_address_space_found t k f p e = rw (e, on_address_space)

pub on_address_space_missing :
    {A : Type 0} (t : ProcessTable) (k : ℕ)
    (f : AddressSpaceState → Result A AddressSpaceError × AddressSpaceState)
    → get t k ≡ none
    → on_address_space t k f ≡ (err AddressSpaceError.not_found, t)
unfolding on_address_space
on_address_space_missing t k f e = rw (e, on_address_space)

-- A world whose process `k` got a new address space that tracks the new pins.
pub moved-Sound :
    (w : World) (k : ℕ) (p : Process) (s : AddressSpaceState) (held : List AddressSpacePin)
    → Sound w
    → get w.table k ≡ some p
    → Tracks k s held
    → ((j : ℕ) → k ≢ j → (o : Option Process) → TracksAt j o w.held → TracksAt j o held)
    → Sound (record { table = update w.table k (λ q. record q { address_space = s }); held = held })
moved-Sound w k p s held v e mine others = record {
  valid = update-IsValid w.table k _ (λ _. refl) v.valid;
  tracked = λ j. elim (Bool-cases (k == j)) [
    | inl here' ↦
        rw
          (
            get-update_found w.table j k (λ q. record q { address_space = s }) p (λ _. refl) e,
            here',
          )
          (subst (λ i. Tracks i s held) (==→eq k j here') mine)
    | inr there ↦
        rw
          (
            get-update_found w.table j k (λ q. record q { address_space = s }) p (λ _. refl) e,
            there,
          )
          (others j (λ same. ground arith) (get w.table j) (v.tracked j))
  ];
}
