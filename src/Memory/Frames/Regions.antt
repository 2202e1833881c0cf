-- ===== src/Memory/Frames/Regions.antt =====
-- The regions of kernel/src/memory/frame_allocator.rs: marking a range of addresses changes the frames
-- of that range and no other, and keeps the count.
use brane_os.Prelude.{
  ℕ, zero, suc, ◌+◌, ◌-◌, ◌/◌, ◌<◌, ◌≡◌, refl, ap, ◌∙◌, Bool, ◌&&◌, ◌||◌, not, leb, ltb, ◌==◌,
  arith, inl, inr, Bool-cases, ==→eq,
}
use brane_os.Memory.Frames.{
  BitmapFrameAllocator, max_frames, is_used, release, reserve, release_rounds, reserve_rounds,
  mark_region_free, mark_region_used, frame_size, div_ceil,
}
use brane_os.Memory.Frames.Bitmap.{used-set_used, used-set_free}
use brane_os.Memory.Frames.Counted.{IsValid, release-IsValid, reserve-IsValid, index_inside}

-- The frames `lo` to below `lo + n`.
abbrev pub within : ℕ → ℕ → ℕ → Bool
within lo n g = leb lo g && ltb g (lo + n)

pub release_bits :
    (a : BitmapFrameAllocator) (f g : ℕ)
    → IsValid a
    → g < max_frames
    → is_used (release a f).bitmap g ≡ (not (f == g) && is_used a.bitmap g)
unfolding release
release_bits a f g v h = elim (Bool-cases (ltb f max_frames && is_used a.bitmap f)) [
  | inl go ↦ rw go (used-set_free a.bitmap f g (index_inside a f v (ground arith)))
  | inr stay ↦ elim (Bool-cases (f == g)) [
    | inl same ↦ rw stay (ground (arith, ap (is_used a.bitmap) (==→eq f g same)))
    | inr other ↦ rw (stay, other) refl
  ]
]

pub release_rounds_lem :
    (n lo : ℕ) (a : BitmapFrameAllocator) (g : ℕ)
    → IsValid a
    → g < max_frames
    → IsValid (release_rounds n lo a)
      × (is_used (release_rounds n lo a).bitmap g ≡ (not (within lo n g) && is_used a.bitmap g))
unfolding release_rounds
release_rounds_lem zero lo a g v h = (v, ground arith)
release_rounds_lem (suc n) lo a g v h =
    let later = release_rounds_lem n (suc lo) (release a lo) g (release-IsValid a lo v) h in
    (later.0, later.1 ∙ ground (arith, release_bits a lo g v h))

reserve_bits :
    (a : BitmapFrameAllocator) (f g : ℕ)
    → IsValid a
    → g < max_frames
    → is_used (reserve a f).bitmap g ≡ (f == g || is_used a.bitmap g)
unfolding reserve
reserve_bits a f g v h = elim (Bool-cases (ltb f max_frames && not (is_used a.bitmap f))) [
  | inl go ↦ rw go (used-set_used a.bitmap f g (index_inside a f v (ground arith)))
  | inr stay ↦ elim (Bool-cases (f == g)) [
    | inl same ↦ rw stay (ground (arith, ap (is_used a.bitmap) (==→eq f g same)))
    | inr other ↦ rw (stay, other) refl
  ]
]

pub reserve_rounds_lem :
    (n lo : ℕ) (a : BitmapFrameAllocator) (g : ℕ)
    → IsValid a
    → g < max_frames
    → IsValid (reserve_rounds n lo a)
      × (is_used (reserve_rounds n lo a).bitmap g ≡ (within lo n g || is_used a.bitmap g))
unfolding reserve_rounds
reserve_rounds_lem zero lo a g v h = (v, ground arith)
reserve_rounds_lem (suc n) lo a g v h =
    let later = reserve_rounds_lem n (suc lo) (reserve a lo) g (reserve-IsValid a lo v) h in
    (later.0, later.1 ∙ ground (arith, reserve_bits a lo g v h))

-- Marking a region: the frames from the one of `start` to below the one of `end` become free, or, for
-- a reservation, all that the region touches become used; no other frame changes, and the count of
-- free frames stays the number of clear bits.
pub mark_region_lem :
    (a : BitmapFrameAllocator) (start end g : ℕ)
    → IsValid a
    → g < max_frames
    → IsValid (mark_region_free a start end)
      × IsValid (mark_region_used a start end)
      × (is_used (mark_region_free a start end).bitmap g
          ≡ (not (leb (start / frame_size) g && ltb g (end / frame_size)) && is_used a.bitmap g))
      × (is_used (mark_region_used a start end).bitmap g
          ≡ (leb (start / frame_size) g && ltb g (div_ceil end frame_size) || is_used a.bitmap g))
unfolding mark_region_free mark_region_used
mark_region_lem a start end g v h =
    let first = start / frame_size in
    let freed = release_rounds_lem (end / frame_size - first) first a g v h in
    let taken = reserve_rounds_lem (div_ceil end frame_size - first) first a g v h in
    (freed.0, taken.0, freed.1 ∙ ground arith, taken.1 ∙ ground arith)
