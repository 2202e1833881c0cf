-- ===== src/Memory/Frames.antt =====
-- `BitmapFrameAllocator` of kernel/src/memory/frame_allocator.rs. The bitmap, a static of the source,
-- is part of the state here: a list of bytes, one bit for each frame of 4 KiB, 1 for allocated. A loop
-- over a range recurses on the rounds left. The frame number of an access is below `max_frames`, which
-- the callers' guards ensure, so the index into the bitmap is in range.
pub mod Bitmap
pub mod Scans
pub mod Counted
pub mod Regions
pub mod Allocation
pub mod Contiguous
pub mod Held
use brane_os.Prelude.{
  ℕ, zero, suc, ◌+◌, ◌-◌, ◌*◌, ◌/◌, ◌%◌, ◌^◌, min, Bool, true, false, ◌&&◌, ◌||◌, not, Option, none,
  some, List, replicate, get_or, set, length, bit_and, bit_or, ltb, ◌==◌, if◌then◌else◌,
}
use brane_os.Prelude.Bits.{complement}

abbrev pub frame_size : ℕ
frame_size = 4096

abbrev pub max_memory : ℕ
max_memory = 0x4000_0000

abbrev pub max_frames : ℕ
max_frames = 0x4_0000

abbrev pub bitmap_size : ℕ
bitmap_size = 0x8000

pub record BitmapFrameAllocator : Type 0 where
  pub bitmap : List ℕ
  pub total_frames : ℕ
  pub free_frames : ℕ

unfoldable pub new : BitmapFrameAllocator
new = record { bitmap = replicate bitmap_size 0xFF; total_frames = max_frames; free_frames = 0 }

unfoldable pub is_used : List ℕ → ℕ → Bool
is_used bitmap frame = not (bit_and (get_or bitmap (frame / 8) 0) (2 ^ (frame % 8)) == 0)

unfoldable pub set_used : List ℕ → ℕ → List ℕ
set_used bitmap frame =
    set bitmap (frame / 8) (bit_or (get_or bitmap (frame / 8) 0) (2 ^ (frame % 8)))

unfoldable pub set_free : List ℕ → ℕ → List ℕ
set_free bitmap frame =
    set bitmap (frame / 8) (bit_and (get_or bitmap (frame / 8) 0) (complement 8 (2 ^ (frame % 8))))

-- A round of `mark_region_free`, which is also the body of `deallocate`.
unfoldable pub release : BitmapFrameAllocator → ℕ → BitmapFrameAllocator
release a frame =
    if ltb frame max_frames && is_used a.bitmap frame
    then record a { bitmap = set_free a.bitmap frame; free_frames = a.free_frames + 1 }
    else a

unfoldable pub release_rounds : ℕ → ℕ → BitmapFrameAllocator → BitmapFrameAllocator
release_rounds zero frame a = a
release_rounds (suc rounds) frame a = release_rounds rounds (suc frame) (release a frame)

unfoldable pub mark_region_free : BitmapFrameAllocator → ℕ → ℕ → BitmapFrameAllocator
mark_region_free a start end =
    release_rounds (end / frame_size - start / frame_size) (start / frame_size) a

-- A round of `mark_region_used`.
unfoldable pub reserve : BitmapFrameAllocator → ℕ → BitmapFrameAllocator
reserve a frame =
    if ltb frame max_frames && not (is_used a.bitmap frame)
    then record a { bitmap = set_used a.bitmap frame; free_frames = a.free_frames - 1 }
    else a

unfoldable pub reserve_rounds : ℕ → ℕ → BitmapFrameAllocator → BitmapFrameAllocator
reserve_rounds zero frame a = a
reserve_rounds (suc rounds) frame a = reserve_rounds rounds (suc frame) (reserve a frame)

-- `div_ceil`.
abbrev pub div_ceil : ℕ → ℕ → ℕ
div_ceil a d = (a + (d - 1)) / d

unfoldable pub mark_region_used : BitmapFrameAllocator → ℕ → ℕ → BitmapFrameAllocator
mark_region_used a start end =
    reserve_rounds (div_ceil end frame_size - start / frame_size) (start / frame_size) a

-- The inner loop of `allocate_below`: the first free frame below the limit among the bits left of a
-- byte.
unfoldable pub scan_bits : List ℕ → ℕ → ℕ → ℕ → Option ℕ
scan_bits bitmap limit_frames zero frame = none
scan_bits bitmap limit_frames (suc bits) frame =
    if ltb frame limit_frames && not (is_used bitmap frame)
    then some frame
    else scan_bits bitmap limit_frames bits (suc frame)

-- The outer loop: a byte that is `0xFF` is skipped.
unfoldable pub scan_bytes : List ℕ → ℕ → ℕ → ℕ → Option ℕ
scan_bytes bitmap limit_frames zero byte_idx = none
scan_bytes bitmap limit_frames (suc rounds) byte_idx =
    let rest = scan_bytes bitmap limit_frames rounds (suc byte_idx) in
    if get_or bitmap byte_idx 0 == 0xFF
    then rest
    else (elim (scan_bits bitmap limit_frames 8 (byte_idx * 8)) [
      | some frame ↦ some frame
      | none ↦ rest
    ])

abbrev pub limit_of : ℕ → ℕ
limit_of limit = min (limit / frame_size) max_frames

unfoldable pub allocate_below : BitmapFrameAllocator → ℕ → Option ℕ × BitmapFrameAllocator
allocate_below a limit =
    elim (scan_bytes a.bitmap (limit_of limit) (div_ceil (limit_of limit) 8) 0) [
      | some frame ↦ (
        some (frame * frame_size),
        record a { bitmap = set_used a.bitmap frame; free_frames = a.free_frames - 1 },
      )
      | none ↦ (none, a)
    ]

unfoldable pub allocate : BitmapFrameAllocator → Option ℕ × BitmapFrameAllocator
unfolding allocate_below
allocate a = allocate_below a max_memory

-- `(start..start + count).any(|frame| self.is_used(frame))`
unfoldable pub any_used : List ℕ → ℕ → ℕ → Bool
any_used bitmap zero frame = false
any_used bitmap (suc count) frame = is_used bitmap frame || any_used bitmap count (suc frame)

unfoldable pub use_run : ℕ → ℕ → List ℕ → List ℕ
use_run zero frame bitmap = bitmap
use_run (suc count) frame bitmap = use_run count (suc frame) (set_used bitmap frame)

-- The loop over the starts.
unfoldable pub scan_starts : List ℕ → ℕ → ℕ → ℕ → ℕ → Option ℕ
scan_starts bitmap count alignment zero start = none
scan_starts bitmap count alignment (suc rounds) start =
    let rest = scan_starts bitmap count alignment rounds (suc start) in
    if not (start % alignment == 0)
    then rest
    else if any_used bitmap count start
    then rest
    else some start

-- `is_power_of_two`, the standard library's test that one bit is set.
unfoldable pub is_power_of_two : ℕ → Bool
is_power_of_two n = not (n == 0) && bit_and n (n - 1) == 0

unfoldable pub allocate_contiguous_below :
    BitmapFrameAllocator → ℕ → ℕ → ℕ → Option ℕ × BitmapFrameAllocator
allocate_contiguous_below a count limit alignment =
    if count == 0 || not (is_power_of_two alignment)
    then (none, a)
    else if ltb (limit_of limit) count
    then (none, a)
    else (elim (scan_starts a.bitmap count alignment (suc (limit_of limit - count)) 0) [
      | some start ↦ (
        some (start * frame_size),
        record a { bitmap = use_run count start a.bitmap; free_frames = a.free_frames - count },
      )
      | none ↦ (none, a)
    ])

unfoldable pub deallocate : BitmapFrameAllocator → ℕ → BitmapFrameAllocator
unfolding release
deallocate a addr = release a (addr / frame_size)
