-- ===== src/Memory/Frames/Counted.antt =====
-- `free_frames` of kernel/src/memory/frame_allocator.rs counts the clear bits of the bitmap.
use brane_os.Prelude.{
  ℕ, zero, suc, ◌+◌, ◌-◌, ◌/◌, ◌<◌, ◌≡◌, refl, ap, ◌∙◌, true, false, ◌&&◌, ◌||◌, not, List,
  replicate, length, length-replicate, get_or-replicate_inside, sym, ltb, ◌==◌, if◌then◌else◌,
  arith, inl, inr, Bool-cases, ==_refl, ==→eq,
}
use brane_os.Memory.Frames.{
  BitmapFrameAllocator, max_frames, bitmap_size, new, is_used, set_used, set_free, release, reserve,
}
use brane_os.Memory.Frames.Bitmap.{
  used-set_used, used-set_free, length-set_used, length-set_free, full_byte,
}

-- The free frames below `n`.
unfoldable pub count_free : List ℕ → ℕ → ℕ
count_free bitmap zero = 0
count_free bitmap (suc n) = (if is_used bitmap n then 0 else 1) + count_free bitmap n

count_free-same :
    (xs ys : List ℕ) (n : ℕ)
    → ((g : ℕ) → g < n → is_used xs g ≡ is_used ys g)
    → count_free xs n ≡ count_free ys n
unfolding count_free
count_free-same xs ys zero h = refl
count_free-same xs ys (suc n) h =
    rw (h n (omega arith), count_free-same xs ys n (λ g l. h g (omega arith))) refl

-- One frame more that is used.
count_free-taken :
    (xs ys : List ℕ) (f n : ℕ)
    → ((g : ℕ) → is_used ys g ≡ (f == g || is_used xs g))
    → is_used xs f ≡ false
    → f < n
    → count_free ys n + 1 ≡ count_free xs n
unfolding count_free
count_free-taken xs ys f zero step free h = absurd (omega arith)
count_free-taken xs ys f (suc n) step free h = elim (Bool-cases (f == n)) [
  | inl last ↦ ground (
    arith,
    step n,
    ap (is_used xs) (==→eq f n last),
    count_free-same ys xs n (λ g l. step g ∙ ground arith),
  )
  | inr other ↦ ground (arith, step n, count_free-taken xs ys f n step free)
]

-- The count is that of the bitmap, which has a bit for every frame.
pub record IsValid (a : BitmapFrameAllocator) : Type 0 where
  pub sized : length a.bitmap ≡ bitmap_size
  pub total : a.total_frames ≡ max_frames
  pub counted : a.free_frames ≡ count_free a.bitmap max_frames

pub index_inside :
    (a : BitmapFrameAllocator) (f : ℕ) → IsValid a → f < max_frames → f / 8 < length a.bitmap
index_inside a f v h = omega (arith, v.sized)

-- One frame more that is free, and any way of changing one frame, seen from the other side.
used_before :
    (xs ys : List ℕ) (f : ℕ)
    → ((g : ℕ) → is_used ys g ≡ (not (f == g) && is_used xs g))
    → is_used xs f ≡ true
    → (g : ℕ) → is_used xs g ≡ (f == g || is_used ys g)
used_before xs ys f step was g = elim (Bool-cases (f == g)) [
  | inl same ↦ ground (arith, step g, ap (is_used xs) (==→eq f g same))
  | inr other ↦ ground (arith, step g)
]

-- Taking a free frame.
pub taken-IsValid :
    (a : BitmapFrameAllocator) (f : ℕ)
    → IsValid a
    → f < max_frames
    → is_used a.bitmap f ≡ false
    → (0 < a.free_frames)
      × IsValid (record a { bitmap = set_used a.bitmap f; free_frames = a.free_frames - 1 })
taken-IsValid a f v h free =
    let fewer =
      count_free-taken a.bitmap (set_used a.bitmap f) f max_frames
        (λ g. used-set_used a.bitmap f g (index_inside a f v h)) free h in
    (
      omega (arith, fewer, v.counted),
      record {
        sized = length-set_used a.bitmap f ∙ v.sized;
        total = v.total;
        counted = omega (arith, fewer, v.counted);
      },
    )

-- Giving a used frame back.
pub freed-IsValid :
    (a : BitmapFrameAllocator) (f : ℕ)
    → IsValid a
    → f < max_frames
    → is_used a.bitmap f ≡ true
    → IsValid (record a { bitmap = set_free a.bitmap f; free_frames = a.free_frames + 1 })
freed-IsValid a f v h was =
    let step = λ (g : ℕ). used-set_free a.bitmap f g (index_inside a f v h) in
    let more =
      count_free-taken (set_free a.bitmap f) a.bitmap f max_frames
        (used_before a.bitmap (set_free a.bitmap f) f step was) (step f ∙ ground (arith, ==_refl f))
        h in
    record {
      sized = length-set_free a.bitmap f ∙ v.sized;
      total = v.total;
      counted = omega (arith, more, v.counted);
    }

count_free-none :
    (xs : List ℕ) (n : ℕ) → ((g : ℕ) → g < n → is_used xs g ≡ true) → count_free xs n ≡ 0
unfolding count_free
count_free-none xs zero h = refl
count_free-none xs (suc n) h =
    rw (h n (omega arith), count_free-none xs n (λ g l. h g (omega arith))) refl

pub new-IsValid : IsValid new
unfolding new
new-IsValid = record {
  sized = length-replicate bitmap_size 0xFF;
  total = refl;
  counted = sym (count_free-none (replicate bitmap_size 0xFF) max_frames all_used);
}
  where
    all_used : (g : ℕ) → g < max_frames → is_used (replicate bitmap_size 0xFF) g ≡ true
    all_used g h =
        full_byte (replicate bitmap_size 0xFF) (g / 8) g
          (get_or-replicate_inside bitmap_size (g / 8) 0xFF 0 (omega arith)) (omega arith)
          (omega arith)

pub release-IsValid : (a : BitmapFrameAllocator) (f : ℕ) → IsValid a → IsValid (release a f)
unfolding release
release-IsValid a f v = elim (Bool-cases (ltb f max_frames && is_used a.bitmap f)) [
  | inl go ↦ rw go (freed-IsValid a f v (ground arith) (ground arith))
  | inr stay ↦ rw stay v
]

pub reserve-IsValid : (a : BitmapFrameAllocator) (f : ℕ) → IsValid a → IsValid (reserve a f)
unfolding reserve
reserve-IsValid a f v = elim (Bool-cases (ltb f max_frames && not (is_used a.bitmap f))) [
  | inl go ↦ rw go (taken-IsValid a f v (ground arith) (ground arith)).1
  | inr stay ↦ rw stay v
]
