-- ===== src/Process/Table/Pins/Protocol.antt =====
-- The pin protocol of the process table under every order of calls.
use brane_os.Prelude.{ℕ, Result, ap₂, ◌≡◌, refl, sym, ap, some, List, [], ◌∷◌, ◌++◌, ok, err}
use brane_os.Prelude.Slots.{find-replicate}
use brane_os.Process.AddressSpace.{AddressSpacePin, AddressSpaceError, busy}
use brane_os.Process.AddressSpace
use brane_os.Process.Table
use brane_os.Process.Table.{
  Process, ProcessTable, has_pid, max_processes, fresh, create, get, update, on_address_space,
  pin_address_space, release_address_space_pin, bump_address_space_generation,
}
use brane_os.Process.Table.Lookup.{new-IsValid, update_same}
use brane_os.Process.Table.Pins.{release-Tracks, bump_busy, AtGeneration-middle}
use brane_os.Process.Table.Pins.World.{
  World, Step, created, written, pinned, pin_failed, released, bumped, Reach, here, next, Sound,
}
use brane_os.Process.Table.Pins.Steps.{
  created-Sound, written-Sound, pinned-Sound, pin_failed-Sound, released-Sound, bumped-Sound,
  held_owner,
}

pub Step-Sound : {w u : World} → Step w u → Sound w → Sound u
Step-Sound {w} (created name parent task room) v = created-Sound w name parent task room v
Step-Sound {w} (written k f keeps) v = written-Sound w k f keeps v
Step-Sound {w} (pinned k p e) v = pinned-Sound w k p e v
Step-Sound {w} (pin_failed k x e) v = pin_failed-Sound w k x e v
Step-Sound {w} (released before later p e) v = released-Sound w before later p e v
Step-Sound {w} (bumped k) v = bumped-Sound w k v

pub Reach-Sound : {w u : World} → Sound w → Reach w u → Sound u
Reach-Sound v here = v
Reach-Sound v (next r s) = Step-Sound s (Reach-Sound v r)

abbrev pub boot : World
boot = record { table = Table.new; held = [] }

pub boot-Sound : Sound boot
unfolding get Table.new
boot-Sound = record {
  valid = new-IsValid;
  tracked = λ k. rw (find-replicate (has_pid k) max_processes) refl;
}

bump_refused :
    (t : ProcessTable) (k : ℕ) (q : Process)
    → get t k ≡ some q
    → AddressSpace.bump_generation q.address_space ≡ (err busy, q.address_space)
    → bump_address_space_generation t k ≡ (err busy, t)
unfolding bump_address_space_generation
bump_refused t k q known refused =
    let same = ap (λ r. r.1) refused in
    let kept =
      update_same t k
        (λ p. record p { address_space = (AddressSpace.bump_generation q.address_space).1 }) q known
        (ap (λ s. record q { address_space = s }) same) in
    rw (known, on_address_space)
      (ap₂ (λ (r : Result ℕ AddressSpaceError) (u : ProcessTable). (r, u)) (ap (λ r. r.0) refused)
        kept)

-- Whatever happened since boot, in whatever order processes were created and written, pins taken and
-- given back and mapping changes attempted: while a reader holds a pin of a process, that process is in
-- the table at the generation that the pin recorded, every attempt to commit a mapping change to it is
-- refused as `Busy` and changes nothing, and giving the pin back succeeds.
pub held_pin_protects :
    (w : World) (before later : List AddressSpacePin) (p : AddressSpacePin)
    → Reach boot w
    → w.held ≡ before ++ p ∷ later
    → (q : Process) × (get w.table p.pid ≡ some q)
      × (q.address_space.generation ≡ p.generation)
      × (bump_address_space_generation w.table p.pid ≡ (err busy, w.table))
      × ((release_address_space_pin w.table p).0 ≡ ok tt)
unfolding bump_address_space_generation release_address_space_pin
held_pin_protects w before later p r e =
    let (q, known, tracks) = held_owner w before later p e (Reach-Sound boot-Sound r) in
    (
      q,
      known,
      sym ((AtGeneration-middle p.pid _ before later p tracks.current).0 refl),
      bump_refused w.table p.pid q known
          (bump_busy p.pid q.address_space before later p refl tracks),
      rw (known, on_address_space)
          (release-Tracks p.pid q.address_space before later p refl tracks).0,
    )
