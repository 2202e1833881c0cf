-- ===== src/Process/Table/Pins.antt =====
-- The pins that readers of an address space hold, against the state that counts them.
pub mod World
pub mod Steps
pub mod Protocol
use brane_os.Prelude.{
  ℕ, suc, ◌≡◌, ◌≢◌, Bool, true, false, inl, inr, Option, none, some, List, [], ◌∷◌, ◌++◌, Result,
  ok, err, ◌==◌, if◌then◌else◌, Bool-cases, subst, arith,
}
use brane_os.Process.AddressSpace.{
  AddressSpaceState, AddressSpacePin, AddressSpaceError, busy, pin, release, bump_generation,
}

-- The pins among these that belong to one process.
abbrev pub pins_of : ℕ → List AddressSpacePin → ℕ
pins_of k [] = 0
pins_of k (p ∷ ps) = if p.pid == k then suc (pins_of k ps) else pins_of k ps

-- Every pin of the process records the generation.
abbrev pub AtGeneration : ℕ → ℕ → List AddressSpacePin → Type 0
AtGeneration k g [] = Unit
AtGeneration k g (p ∷ ps) = (p.pid ≡ k → p.generation ≡ g) × AtGeneration k g ps

-- The state counts the pins held of the process, all taken at its generation.
pub record Tracks (k : ℕ) (s : AddressSpaceState) (held : List AddressSpacePin) : Type 0 where
  pub counted : s.pins ≡ pins_of k held
  pub current : AtGeneration k s.generation held

pub pins_of-middle :
    (k : ℕ) (before later : List AddressSpacePin) (p : AddressSpacePin)
    → pins_of k (before ++ p ∷ later)
      ≡ (if p.pid == k then suc (pins_of k (before ++ later)) else pins_of k (before ++ later))
pins_of-middle k [] later p = ground arith
pins_of-middle k (q ∷ before) later p = ground (arith, pins_of-middle k before later p)

pub AtGeneration-middle :
    (k g : ℕ) (before later : List AddressSpacePin) (p : AddressSpacePin)
    → AtGeneration k g (before ++ p ∷ later)
    → (p.pid ≡ k → p.generation ≡ g) × AtGeneration k g (before ++ later)
AtGeneration-middle k g [] later p a = a
AtGeneration-middle k g (q ∷ before) later p a =
    let rest = AtGeneration-middle k g before later p a.1 in (rest.0, (a.0, rest.1))

pub AtGeneration-zero :
    (k g : ℕ) (held : List AddressSpacePin) → pins_of k held ≡ 0 → AtGeneration k g held
AtGeneration-zero k g [] h = tt
AtGeneration-zero k g (p ∷ held) h = (λ e. ground arith, AtGeneration-zero k g held (ground arith))

generation-pin :
    (s : AddressSpaceState) (k : ℕ) (u : AddressSpaceState) (p : AddressSpacePin)
    → pin s k ≡ (ok p, u)
    → s.generation ≡ u.generation
unfolding pin
generation-pin s k u p e = ground arith

generation-release :
    (s : AddressSpaceState) (p : AddressSpacePin) → s.generation ≡ (release s p).1.generation
unfolding release
generation-release s p = ground arith

pub pin_refused :
    (s : AddressSpaceState) (k : ℕ) (x : AddressSpaceError) → (pin s k).0 ≡ err x → (pin s k).1 ≡ s
unfolding pin
pin_refused s k x h = ground arith

pub pin-Tracks :
    (k : ℕ) (s u : AddressSpaceState) (p : AddressSpacePin) (held : List AddressSpacePin)
    → pin s k ≡ (ok p, u)
    → Tracks k s held
    → (p.pid ≡ k) × Tracks k u (p ∷ held)
unfolding pin
pin-Tracks k s u p held e v = (
  ground (arith, e),
  record {
    counted = ground (arith, v.counted);
    current = (
      λ _. ground arith,
      subst (λ g. AtGeneration k g held) (generation-pin s k u p e) v.current,
    );
  },
)

pub pin_other :
    (j k : ℕ) (s : AddressSpaceState) (p : AddressSpacePin) (held : List AddressSpacePin)
    → p.pid ≡ k
    → k ≢ j
    → Tracks j s held
    → Tracks j s (p ∷ held)
pin_other j k s p held e ne v = record {
  counted = ground arith;
  current = (λ same. ground arith, v.current);
}

-- A held pin is always accepted back.
pub release-Tracks :
    (k : ℕ) (s : AddressSpaceState) (before later : List AddressSpacePin) (p : AddressSpacePin)
    → p.pid ≡ k
    → Tracks k s (before ++ p ∷ later)
    → ((release s p).0 ≡ ok tt) × Tracks k (release s p).1 (before ++ later)
unfolding release
release-Tracks k s before later p e v = (
  ground (
    arith,
    v.counted,
    pins_of-middle k before later p,
    AtGeneration-middle k s.generation before later p v.current,
  ),
  record {
    counted = ground (
      arith,
      v.counted,
      pins_of-middle k before later p,
      AtGeneration-middle k s.generation before later p v.current,
    );
    current =
        subst (λ g. AtGeneration k g (before ++ later)) (generation-release s p)
          (AtGeneration-middle k s.generation before later p v.current).1;
  },
)

pub release_other :
    (j k : ℕ) (s : AddressSpaceState) (before later : List AddressSpacePin) (p : AddressSpacePin)
    → p.pid ≡ k
    → k ≢ j
    → Tracks j s (before ++ p ∷ later)
    → Tracks j s (before ++ later)
release_other j k s before later p e ne v = record {
  counted = ground (arith, v.counted, pins_of-middle j before later p);
  current = (AtGeneration-middle j s.generation before later p v.current).1;
}

pub bump-Tracks :
    (k : ℕ) (s : AddressSpaceState) (held : List AddressSpacePin)
    → Tracks k s held
    → Tracks k (bump_generation s).1 held
unfolding bump_generation
bump-Tracks k s held v = record {
  counted = ground (arith, v.counted);
  current = elim (Bool-cases (s.pins == 0)) [
    | inl free ↦ AtGeneration-zero k _ held (ground (arith, v.counted))
    | inr taken ↦ subst (λ g. AtGeneration k g held) (ground arith) v.current
  ];
}

-- While a pin of the process is held, a mapping change is refused.
pub bump_busy :
    (k : ℕ) (s : AddressSpaceState) (before later : List AddressSpacePin) (p : AddressSpacePin)
    → p.pid ≡ k
    → Tracks k s (before ++ p ∷ later)
    → bump_generation s ≡ (err busy, s)
unfolding bump_generation
bump_busy k s before later p e v = ground (arith, v.counted, pins_of-middle k before later p)
