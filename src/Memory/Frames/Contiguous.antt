-- ===== src/Memory/Frames/Contiguous.antt =====
-- `allocate_contiguous_below` of kernel/src/memory/frame_allocator.rs: the first aligned run of free
-- frames.
use brane_os.Prelude.{
  ℕ, ◌+◌, ◌-◌, ◌*◌, ◌%◌, ◌≤◌, ◌<◌, ◌≡◌, Bool, true, false, ◌&&◌, ◌||◌, not, Option, none, some,
  List, ltb, ◌==◌,
}
use brane_os.Memory.Frames.{
  BitmapFrameAllocator, frame_size, limit_of, is_used, any_used, use_run, is_power_of_two,
}
use brane_os.Memory.Frames.Counted.{IsValid}
use brane_os.Memory.Frames.Regions.{within}

-- A run can start here: it is aligned and all its frames are free.
abbrev pub fits : List ℕ → ℕ → ℕ → ℕ → Bool
fits bitmap count alignment start = start % alignment == 0 && not (any_used bitmap count start)

-- The first start from `lo` to below `hi` where the run fits, if there is one.
pub data First (bitmap : List ℕ) (count alignment lo hi : ℕ) : Option ℕ → Type 0 where
  here :
      (s : ℕ)
      → lo ≤ s
      → s < hi
      → fits bitmap count alignment s ≡ true
      → ((t : ℕ) → lo ≤ t → t < s → fits bitmap count alignment t ≡ false)
      → First bitmap count alignment lo hi (some s)
  nowhere :
      ((t : ℕ) → lo ≤ t → t < hi → fits bitmap count alignment t ≡ false)
      → First bitmap count alignment lo hi none

abbrev after_run : BitmapFrameAllocator → ℕ → ℕ → BitmapFrameAllocator
after_run a count start = record a {
  bitmap = use_run count start a.bitmap;
  free_frames = a.free_frames - count;
}

-- The outcomes of `allocate_contiguous_below`.
pub data Contiguous (a : BitmapFrameAllocator) (count limit alignment : ℕ)
    : Option ℕ → BitmapFrameAllocator → Type 0 where
  refused :
      (count == 0 || not (is_power_of_two alignment) || ltb (limit_of limit) count) ≡ true
      → Contiguous a count limit alignment none a
  no_run :
      ((t : ℕ) → t ≤ limit_of limit - count → fits a.bitmap count alignment t ≡ false)
      → Contiguous a count limit alignment none a
  run :
      (s : ℕ) (n : BitmapFrameAllocator)
      → s + count ≤ limit_of limit
      → s % alignment ≡ 0
      → ((g : ℕ) → within s count g ≡ true → is_used a.bitmap g ≡ false)
      → ((t : ℕ) → t < s → fits a.bitmap count alignment t ≡ false)
      → ((g : ℕ) → is_used n.bitmap g ≡ (within s count g || is_used a.bitmap g))
      → n.free_frames + count ≡ a.free_frames
      → IsValid n
      → Contiguous a count limit alignment (some (s * frame_size)) n
