-- ===== src/Memory/Frames/Allocation.antt =====
-- What the allocations of kernel/src/memory/frame_allocator.rs hand out.
use brane_os.Prelude.{
  ℕ, ◌+◌, ◌-◌, ◌*◌, ◌<◌, ◌≡◌, refl, false, ◌||◌, Option, none, some, ◌==◌, arith,
}
use brane_os.Memory.Frames.{
  BitmapFrameAllocator, max_frames, frame_size, div_ceil, limit_of, is_used, set_used, scan_bytes,
  allocate_below,
}
use brane_os.Memory.Frames.Bitmap.{used-set_used}
use brane_os.Memory.Frames.Scans.{Lowest, hit, miss, AllUsed, scan_bytes-Lowest}
use brane_os.Memory.Frames.Counted.{IsValid, index_inside, taken-IsValid}

-- The allocator after the frame `f`, which was free, was taken: that frame alone is used now, and
-- there is one free frame less.
pub record Taken (a : BitmapFrameAllocator) (f : ℕ) (n : BitmapFrameAllocator) : Type 0 where
  pub was_free : is_used a.bitmap f ≡ false
  pub used_now : (g : ℕ) → is_used n.bitmap g ≡ (f == g || is_used a.bitmap g)
  pub one_less : n.free_frames + 1 ≡ a.free_frames
  pub valid : IsValid n

-- The outcomes of `allocate_below`.
pub data Allocation (a : BitmapFrameAllocator) (limit : ℕ)
    : Option ℕ → BitmapFrameAllocator → Type 0 where
  lowest :
      (f : ℕ) (n : BitmapFrameAllocator)
      → f < limit_of limit
      → AllUsed a.bitmap (limit_of limit) 0 f
      → Taken a f n
      → Allocation a limit (some (f * frame_size)) n
  exhausted : AllUsed a.bitmap (limit_of limit) 0 (limit_of limit) → Allocation a limit none a

taken_lem :
    (a : BitmapFrameAllocator) (f : ℕ)
    → IsValid a
    → f < max_frames
    → is_used a.bitmap f ≡ false
    → Taken a f (record a { bitmap = set_used a.bitmap f; free_frames = a.free_frames - 1 })
taken_lem a f v h free =
    let (some_free, valid) = taken-IsValid a f v h free in
    record {
      was_free = free;
      used_now = λ g. used-set_used a.bitmap f g (index_inside a f v h);
      one_less = omega arith;
      valid = valid;
    }

pub allocate_below_lem :
    (a : BitmapFrameAllocator) (limit : ℕ)
    → IsValid a
    → Allocation a limit (allocate_below a limit).0 (allocate_below a limit).1
unfolding allocate_below
allocate_below_lem a limit v =
    outcome (scan_bytes a.bitmap (limit_of limit) (div_ceil (limit_of limit) 8) 0) refl (
      scan_bytes-Lowest a.bitmap (limit_of limit) (div_ceil (limit_of limit) 8) 0
        (div_ceil (limit_of limit) 8 * 8) (omega arith))
  where
    outcome :
        (o : Option ℕ)
        → scan_bytes a.bitmap (limit_of limit) (div_ceil (limit_of limit) 8) 0 ≡ o
        → Lowest a.bitmap (limit_of limit) 0 (div_ceil (limit_of limit) 8 * 8) o
        → Allocation a limit (allocate_below a limit).0 (allocate_below a limit).1
    outcome _ e (hit f lo hi lim free before) =
        rw (e, allocate_below) (lowest f _ lim before (taken_lem a f v (omega arith) free))
    outcome _ e (miss before) =
        rw (e, allocate_below) (exhausted (λ g a b c. before g a (omega arith) c))
