-- ===== src/Memory/Frames/Bitmap.antt =====
-- The bitmap of kernel/src/memory/frame_allocator.rs as a set of used frames.
use brane_os.Prelude.{
  ℕ, zero, suc, ◌+◌, ◌*◌, ◌/◌, ◌%◌, ◌^◌, ◌≤◌, ◌<◌, ◌≡◌, refl, ap, true, ◌&&◌, ◌||◌, not, List,
  get_or, length, bit_and, bit_or, ◌==◌, if◌then◌else◌, arith, All, get_or-set_self, get_or-set_ne,
  length-set, ℕ_discrete,
}
use brane_os.Prelude.Bits.{
  complement, bit_at, bit_at-bit_or, bit_at-pow, bit_at-le-one, mask_test_iff, clear_bit,
}
use brane_os.Memory.Frames.{is_used, set_used, set_free}

-- Each entry is a byte.
abbrev pub Bytes : List ℕ → Type 0
Bytes = All (λ b. b < 256)

-- The bit of a frame.
unfoldable pub frame_bit : List ℕ → ℕ → ℕ
frame_bit bitmap frame = bit_at (frame % 8) (get_or bitmap (frame / 8) 0)

pub is_used-bit : (bitmap : List ℕ) (f : ℕ) → is_used bitmap f ≡ (frame_bit bitmap f == 1)
unfolding is_used frame_bit
is_used-bit bitmap f =
    let byte = get_or bitmap (f / 8) 0 in
    ground (arith, mask_test_iff (f % 8) byte, bit_at-le-one (f % 8) byte)

pub bit-set_used :
    (bitmap : List ℕ) (f g : ℕ)
    → f / 8 < length bitmap
    → frame_bit (set_used bitmap f) g ≡ (if f == g then 1 else frame_bit bitmap g)
unfolding frame_bit set_used
bit-set_used bitmap f g h = elim (ℕ_discrete (f / 8) (g / 8)) [
  | yes same ↦
      let byte = get_or bitmap (f / 8) 0 in
      rw
        (
          ← same,
          get_or-set_self bitmap (f / 8) (bit_or byte (2 ^ (f % 8))) 0 h,
          bit_at-bit_or (g % 8) byte (2 ^ (f % 8)),
          bit_at-pow (g % 8) (f % 8),
        )
        (ground (arith, bit_at-le-one (g % 8) byte))
  | no other ↦
      rw
        (get_or-set_ne bitmap (f / 8) (g / 8) (bit_or (get_or bitmap (f / 8) 0) (2 ^ (f % 8))) 0
          other)
        (ground (arith, ap (λ k. k / 8)))
]

pub bit-set_free :
    (bitmap : List ℕ) (f g : ℕ)
    → f / 8 < length bitmap
    → frame_bit (set_free bitmap f) g ≡ (if f == g then 0 else frame_bit bitmap g)
unfolding frame_bit set_free
bit-set_free bitmap f g h = elim (ℕ_discrete (f / 8) (g / 8)) [
  | yes same ↦
      let byte = get_or bitmap (f / 8) 0 in
      rw
        (
          ← same,
          get_or-set_self bitmap (f / 8) (bit_and byte (complement 8 (2 ^ (f % 8)))) 0 h,
          clear_bit 8 (f % 8) (g % 8) byte (omega arith) (omega arith),
        )
        (ground arith)
  | no other ↦
      rw
        (get_or-set_ne bitmap (f / 8) (g / 8)
          (bit_and (get_or bitmap (f / 8) 0) (complement 8 (2 ^ (f % 8)))) 0 other)
        (ground arith)
]

pub used-set_used :
    (bitmap : List ℕ) (f g : ℕ)
    → f / 8 < length bitmap
    → is_used (set_used bitmap f) g ≡ (f == g || is_used bitmap g)
used-set_used bitmap f g h =
    rw (is_used-bit (set_used bitmap f) g, is_used-bit bitmap g, bit-set_used bitmap f g h)
      (ground arith)

pub used-set_free :
    (bitmap : List ℕ) (f g : ℕ)
    → f / 8 < length bitmap
    → is_used (set_free bitmap f) g ≡ (not (f == g) && is_used bitmap g)
used-set_free bitmap f g h =
    rw (is_used-bit (set_free bitmap f) g, is_used-bit bitmap g, bit-set_free bitmap f g h)
      (ground arith)

pub length-set_used : (bitmap : List ℕ) (f : ℕ) → length (set_used bitmap f) ≡ length bitmap
unfolding set_used
length-set_used bitmap f = length-set bitmap (f / 8) _

pub length-set_free : (bitmap : List ℕ) (f : ℕ) → length (set_free bitmap f) ≡ length bitmap
unfolding set_free
length-set_free bitmap f = length-set bitmap (f / 8) _

-- In a byte `0xFF` every frame is used.
full_bit : (i : ℕ) → i < 8 → bit_at i 0xFF ≡ 1
unfolding bit_at
full_bit zero h = refl
full_bit (suc zero) h = refl
full_bit (suc (suc zero)) h = refl
full_bit (suc (suc (suc zero))) h = refl
full_bit (suc (suc (suc (suc zero)))) h = refl
full_bit (suc (suc (suc (suc (suc zero))))) h = refl
full_bit (suc (suc (suc (suc (suc (suc zero)))))) h = refl
full_bit (suc (suc (suc (suc (suc (suc (suc zero))))))) h = refl
full_bit (suc (suc (suc (suc (suc (suc (suc (suc i)))))))) h = absurd (omega arith)

pub full_byte :
    (bitmap : List ℕ) (idx g : ℕ)
    → get_or bitmap idx 0 ≡ 0xFF
    → idx * 8 ≤ g
    → g < idx * 8 + 8
    → is_used bitmap g ≡ true
unfolding frame_bit
full_byte bitmap idx g e lo hi =
    let at_idx : g / 8 ≡ idx = omega arith in
    rw (is_used-bit bitmap g, frame_bit, at_idx, e, full_bit (g % 8) (omega arith)) refl
