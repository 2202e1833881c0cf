-- ===== src/Memory/Tests.antt =====
-- The theorems on the frame allocator at the allocator of a machine with 64 KiB free from 1 MiB on.
use brane_os.Prelude.{◌/◌, ◌≡◌, ◌&&◌, ◌||◌, not, [], ◌∷◌, ltb, leb, All, arith}
use brane_os.Memory.Frames.{
  BitmapFrameAllocator, frame_size, max_frames, div_ceil, new, is_used, mark_region_free,
  mark_region_used,
}
use brane_os.Memory.Frames.Counted.{IsValid, new-IsValid, count_free}
use brane_os.Memory.Frames.Regions.{mark_region_lem}
use brane_os.Memory.Frames.Allocation.{Allocation}
use brane_os.Memory.Frames.Contiguous.{Contiguous}
use brane_os.Memory.Frames.Held.{take_below, give, run, Distinct, IsOut, never_twice}

abbrev booted : BitmapFrameAllocator
booted = mark_region_free new 0x10_0000 0x11_0000

booted-IsValid : IsValid booted
booted-IsValid = (mark_region_lem new 0x10_0000 0x11_0000 0 new-IsValid (omega arith)).0

mark_region_lem_example :
    IsValid (mark_region_free new 0x10_0000 0x11_0000)
    × IsValid (mark_region_used new 0x10_0000 0x11_0000)
    × (is_used (mark_region_free new 0x10_0000 0x11_0000).bitmap 0x108 ≡ (
        not (leb (0x10_0000 / frame_size) 0x108 && ltb 0x108 (0x11_0000 / frame_size))
        && is_used new.bitmap 0x108))
    × (is_used (mark_region_used new 0x10_0000 0x11_0000).bitmap 0x108 ≡ (
        leb (0x10_0000 / frame_size) 0x108 && ltb 0x108 (div_ceil 0x11_0000 frame_size)
        || is_used new.bitmap 0x108))
mark_region_lem_example = mark_region_lem new 0x10_0000 0x11_0000 0x108 new-IsValid (omega arith)

never_twice_example :
    Distinct
      (run
        (take_below 0x20_0000 ∷ take_below 0x20_0000 ∷ give 0x10_0000 ∷ take_below 0x20_0000 ∷ [])
        (booted, [])).1
    × All
        (IsOut
          (run
            (take_below 0x20_0000
              ∷ take_below 0x20_0000
              ∷ give 0x10_0000
              ∷ take_below 0x20_0000
              ∷ [])
            (booted, [])).0.bitmap)
        (run
          (take_below 0x20_0000 ∷ take_below 0x20_0000 ∷ give 0x10_0000 ∷ take_below 0x20_0000 ∷ [])
          (booted, [])).1
    × ((run
          (take_below 0x20_0000 ∷ take_below 0x20_0000 ∷ give 0x10_0000 ∷ take_below 0x20_0000 ∷ [])
          (booted, [])).0.free_frames
        ≡ count_free
            (run
              (take_below 0x20_0000
                ∷ take_below 0x20_0000
                ∷ give 0x10_0000
                ∷ take_below 0x20_0000
                ∷ [])
              (booted, [])).0.bitmap
            max_frames)
never_twice_example =
    never_twice
      (take_below 0x20_0000 ∷ take_below 0x20_0000 ∷ give 0x10_0000 ∷ take_below 0x20_0000 ∷ [])
      booted booted-IsValid
