-- ===== src/Memory/Frames/Scans.antt =====
-- The scans of kernel/src/memory/frame_allocator.rs for a free frame find the lowest one.
use brane_os.Prelude.{
  ℕ, zero, suc, ◌+◌, ◌*◌, ◌≤◌, ◌<◌, ◌≡◌, true, false, ◌&&◌, not, Option, none, some, List, get_or,
  ltb, ◌==◌, arith, ap, inl, inr, Bool-cases, ==→eq, dec_lt,
}
use brane_os.Memory.Frames.{is_used, scan_bits, scan_bytes}
use brane_os.Memory.Frames.Bitmap.{full_byte}

-- Every frame from `lo` to below `hi`, and below the limit, is used.
abbrev pub AllUsed : List ℕ → ℕ → ℕ → ℕ → Type 0
AllUsed bitmap limit lo hi = (g : ℕ) → lo ≤ g → g < hi → g < limit → is_used bitmap g ≡ true

-- The lowest free frame from `lo` to below `hi` and below the limit, if there is one.
pub data Lowest (bitmap : List ℕ) (limit lo hi : ℕ) : Option ℕ → Type 0 where
  hit :
      (f : ℕ)
      → lo ≤ f
      → f < hi
      → f < limit
      → is_used bitmap f ≡ false
      → AllUsed bitmap limit lo f
      → Lowest bitmap limit lo hi (some f)
  miss : AllUsed bitmap limit lo hi → Lowest bitmap limit lo hi none

-- Behind used frames.
Lowest-behind :
    {bitmap : List ℕ} {limit lo mid hi : ℕ} {o : Option ℕ}
    → lo ≤ mid
    → AllUsed bitmap limit lo mid
    → Lowest bitmap limit mid hi o
    → Lowest bitmap limit lo hi o
Lowest-behind {mid} le before (hit f lo' hi' lim free between) =
    hit f (omega arith) hi' lim free λ g a b c. elim (dec_lt g mid) [
      | yes below ↦ before g a below c
      | no above ↦ between g (omega arith) b c
    ]
Lowest-behind {mid} le before (miss between) = miss λ g a b c. elim (dec_lt g mid) [
  | yes below ↦ before g a below c
  | no above ↦ between g (omega arith) b c
]

pub scan_bits-Lowest :
    (bitmap : List ℕ) (limit bits lo hi : ℕ)
    → lo + bits ≡ hi
    → Lowest bitmap limit lo hi (scan_bits bitmap limit bits lo)
unfolding scan_bits
scan_bits-Lowest bitmap limit zero lo hi e = miss (λ g a b c. absurd (omega arith))
scan_bits-Lowest bitmap limit (suc bits) lo hi e =
    elim (Bool-cases (ltb lo limit && not (is_used bitmap lo))) [
      | inl free ↦ rw free (
          hit lo (omega arith) (omega arith) (ground arith) (ground arith)
            (λ g a b c. absurd (omega arith)))
      | inr taken ↦ rw taken (
          Lowest-behind (omega arith) (taken_at lo taken)
            (scan_bits-Lowest bitmap limit bits (suc lo) hi (omega arith)))
    ]
  where
    taken_at :
        (f : ℕ) → ltb f limit && not (is_used bitmap f) ≡ false → AllUsed bitmap limit f (suc f)
    taken_at f taken g a b c =
        let here : g ≡ f = omega arith in rw here (ground (arith, ap (λ k. ltb k limit) here))

-- A byte that is not full: its own free frame, or what the later bytes give.
from_bits :
    {bitmap : List ℕ} {limit lo mid hi : ℕ} {o rest : Option ℕ}
    → lo ≤ mid
    → mid ≤ hi
    → Lowest bitmap limit mid hi rest
    → Lowest bitmap limit lo mid o
    → Lowest bitmap limit lo hi (elim o [ some frame ↦ some frame | none ↦ rest ])
from_bits le he later (hit f lo' hi' lim free between) = hit f lo' (omega arith) lim free between
from_bits le he later (miss before) = Lowest-behind le before later

-- The scan by bytes, which skips the full ones, finds the lowest free frame all the same.
pub scan_bytes-Lowest :
    (bitmap : List ℕ) (limit rounds idx hi : ℕ)
    → (idx + rounds) * 8 ≡ hi
    → Lowest bitmap limit (idx * 8) hi (scan_bytes bitmap limit rounds idx)
unfolding scan_bytes
scan_bytes-Lowest bitmap limit zero idx hi e = miss (λ g a b c. absurd (omega arith))
scan_bytes-Lowest bitmap limit (suc rounds) idx hi e =
    let later = scan_bytes-Lowest bitmap limit rounds (suc idx) hi (omega arith) in
    elim (Bool-cases (get_or bitmap idx 0 == 0xFF)) [
      | inl full ↦ rw full (
          Lowest-behind {mid = suc idx * 8} (omega arith)
            (λ g a b c. full_byte bitmap idx g (==→eq _ 0xFF full) a (omega arith)) later)
      | inr part ↦ rw part (
          from_bits {mid = suc idx * 8} (omega arith) (omega arith) later
            (scan_bits-Lowest bitmap limit 8 (idx * 8) (suc idx * 8) (omega arith)))
    ]
