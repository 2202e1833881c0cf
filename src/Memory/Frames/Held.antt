-- ===== src/Memory/Frames/Held.antt =====
-- Sequences of allocations and deallocations of kernel/src/memory/frame_allocator.rs: the addresses
-- that are handed out and not given back.
use brane_os.Prelude.{
  ℕ, ◌*◌, ◌/◌, ◌<◌, ◌≡◌, ap, ◌∙◌, true, false, Option, none, some, List, [], ◌∷◌, ◌==◌,
  if◌then◌else◌, arith, inl, inr, Bool-cases, All, ==→eq, ==_refl,
}
use brane_os.Memory.Frames.{
  BitmapFrameAllocator, max_frames, frame_size, is_used, allocate_below, deallocate,
}
use brane_os.Memory.Frames.Counted.{IsValid, count_free, release-IsValid}
use brane_os.Memory.Frames.Regions.{release_bits}
use brane_os.Memory.Frames.Allocation.{Allocation, lowest, exhausted, allocate_below_lem}

pub data Op : Type 0 where
  take_below give : ℕ → Op

-- The allocator, and the addresses that are out.
abbrev pub Holding : Type 0
Holding = BitmapFrameAllocator × List ℕ

abbrev pub add_taken : Option ℕ → List ℕ → List ℕ
add_taken none held = held
add_taken (some addr) held = addr ∷ held

-- The addresses whose frame is not the one of `addr`.
unfoldable pub without : ℕ → List ℕ → List ℕ
without addr [] = []
without addr (x ∷ xs) =
    if x / frame_size == addr / frame_size then without addr xs else x ∷ without addr xs

unfoldable pub step : Op → Holding → Holding
step (take_below limit) (a, held) =
    let (got, a') = allocate_below a limit in (a', add_taken got held)
step (give addr) (a, held) = (deallocate a addr, without addr held)

unfoldable pub run : List Op → Holding → Holding
run [] h = h
run (o ∷ os) h = run os (step o h)

-- No two addresses lie in one frame.
abbrev pub Distinct : List ℕ → Type 0
Distinct [] = Unit
Distinct (x ∷ xs) = All (λ y. (x / frame_size == y / frame_size) ≡ false) xs × Distinct xs

-- The frame of an address that is out.
abbrev pub IsOut : List ℕ → ℕ → Type 0
IsOut bitmap addr = (addr / frame_size < max_frames) × (is_used bitmap (addr / frame_size) ≡ true)

pub record IsSound (h : Holding) : Type 0 where
  pub valid : IsValid h.0
  pub out : All (IsOut h.0.bitmap) h.1
  pub distinct : Distinct h.1

All-map : {P Q : ℕ → Type 0} (xs : List ℕ) → ((x : ℕ) → P x → Q x) → All P xs → All Q xs
All-map [] f h = tt
All-map (x ∷ xs) f h = (f x h.0, All-map xs f h.1)

All-without :
    {P Q : ℕ → Type 0} (addr : ℕ) (xs : List ℕ)
    → ((x : ℕ) → (x / frame_size == addr / frame_size) ≡ false → P x → Q x)
    → All P xs
    → All Q (without addr xs)
unfolding without
All-without addr [] f h = tt
All-without addr (x ∷ xs) f h = elim (Bool-cases (x / frame_size == addr / frame_size)) [
  | inl same ↦ rw same (All-without addr xs f h.1)
  | inr other ↦ rw other (f x other h.0, All-without addr xs f h.1)
]

without-Distinct : (addr : ℕ) (xs : List ℕ) → Distinct xs → Distinct (without addr xs)
unfolding without
without-Distinct addr [] h = tt
without-Distinct addr (x ∷ xs) h = elim (Bool-cases (x / frame_size == addr / frame_size)) [
  | inl same ↦ rw same (without-Distinct addr xs h.1)
  | inr other ↦ rw other (All-without addr xs (λ y o p. p) h.0, without-Distinct addr xs h.1)
]

apart :
    (bitmap : List ℕ) (f g : ℕ)
    → is_used bitmap f ≡ false
    → is_used bitmap g ≡ true
    → (f == g) ≡ false
apart bitmap f g free used = elim (Bool-cases (f == g)) [
  | inl same ↦ ground (arith, ap (is_used bitmap) (==→eq f g same))
  | inr other ↦ other
]

take-IsSound :
    (a : BitmapFrameAllocator) (held : List ℕ) (limit : ℕ) {got : Option ℕ}
    {n : BitmapFrameAllocator}
    → Allocation a limit got n
    → IsSound (a, held)
    → IsSound (n, add_taken got held)
take-IsSound a held limit (exhausted _) s = s
take-IsSound a held limit (lowest f n below before taken) s = record {
  valid = taken.valid;
  out = (
    (rw here (omega arith), rw here (taken.used_now f ∙ ground (arith, ==_refl f))),
    All-map held (λ x p. (p.0, taken.used_now (x / frame_size) ∙ ground (arith, p.1))) s.out,
  );
  distinct = (
    rw here (All-map held (λ x p. apart a.bitmap f (x / frame_size) taken.was_free p.1) s.out),
    s.distinct,
  );
}
  where
    here : f * frame_size / frame_size ≡ f
    here = omega arith

give-IsSound :
    (a : BitmapFrameAllocator) (held : List ℕ) (addr : ℕ)
    → IsSound (a, held)
    → IsSound (deallocate a addr, without addr held)
unfolding deallocate
give-IsSound a held addr s = record {
  valid = release-IsValid a (addr / frame_size) s.valid;
  out =
      All-without addr held
        (λ x other p. (
          p.0,
          release_bits a (addr / frame_size) (x / frame_size) s.valid p.0 ∙ ground (arith, p.1),
        ))
        s.out;
  distinct = without-Distinct addr held s.distinct;
}

run-IsSound : (os : List Op) (h : Holding) → IsSound h → IsSound (run os h)
unfolding run step
run-IsSound [] h s = s
run-IsSound (take_below limit ∷ os) (a, held) s =
    run-IsSound os _ (take-IsSound a held limit (allocate_below_lem a limit s.valid) s)
run-IsSound (give addr ∷ os) (a, held) s = run-IsSound os _ (give-IsSound a held addr s)

-- From a valid allocator with nothing handed out, after any allocations below any limits and any
-- deallocations of any addresses: no frame is out twice, every frame that is out is marked used, and
-- the count of free frames is the number of clear bits.
pub never_twice :
    (os : List Op) (a : BitmapFrameAllocator)
    → IsValid a
    → let (n, held) = run os (a, []) in
      Distinct held × All (IsOut n.bitmap) held × (n.free_frames ≡ count_free n.bitmap max_frames)
never_twice os a v =
    let sound = run-IsSound os (a, []) (record { valid = v; out = tt; distinct = tt }) in
    (sound.distinct, sound.out, sound.valid.counted)
