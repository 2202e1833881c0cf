-- ===== src/Process/Memory/Ranges.antt =====
-- Which ranges the metadata guard of a process accepts.
use brane_os.Prelude.{ℕ, ◌+◌, ◌-◌, ◌^◌, ◌≤◌, ◌<◌, ◌≡◌, ◌≢◌, ◌↔◌, ◌⊎◌, true, arith}
use brane_os.Process.Memory.{ProcessMemory, fits, in_some_region, contains_user_range}

-- The bytes from `start` to `end` lie in the region of this size, which itself does not wrap.
abbrev pub Within : ℕ → ℕ → ℕ → ℕ → Type 0
Within start end base size = (base ≤ start) × (end ≤ base + size) × (base + size < 2 ^ 64)

fits_iff :
    (start end base size : ℕ) → (fits start end base size ≡ true) ↔ Within start end base size
unfolding fits
fits_iff start end base size = (λ h. ground arith, λ h. ground arith)

in_some_region_iff :
    (m : ProcessMemory) (start end : ℕ)
    → (in_some_region m start end ≡ true) ↔ (
        (m.stack_size ≤ m.stack_top)
        × (Within start end m.code_start m.code_size
            ⊎ Within start end (m.stack_top - m.stack_size) m.stack_size
            ⊎ Within start end m.heap_start (m.heap_end - m.heap_start)))
unfolding in_some_region
in_some_region_iff m start end =
    (λ h. ground (arith, code, stack, heap), λ h. ground (arith, code, stack, heap))
  where
    code :
        (fits start end m.code_start m.code_size ≡ true) ↔ Within start end m.code_start m.code_size
    code = fits_iff start end m.code_start m.code_size

    stack :
        (fits start end (m.stack_top - m.stack_size) m.stack_size ≡ true)
        ↔ Within start end (m.stack_top - m.stack_size) m.stack_size
    stack = fits_iff start end (m.stack_top - m.stack_size) m.stack_size

    heap :
        (fits start end m.heap_start (m.heap_end - m.heap_start) ≡ true)
        ↔ Within start end m.heap_start (m.heap_end - m.heap_start)
    heap = fits_iff start end m.heap_start (m.heap_end - m.heap_start)

-- A non-empty range is accepted exactly when it does not wrap, the stack lies above address zero, and
-- the range lies inside the code, inside the stack or inside the heap, never across two of them.
pub contains_user_range_iff :
    (m : ProcessMemory) (start len : ℕ)
    → len ≢ 0
    → (contains_user_range m start len ≡ true) ↔ (
        (start + len < 2 ^ 64)
        × (m.stack_size ≤ m.stack_top)
        × (Within start (start + len) m.code_start m.code_size
            ⊎ Within start (start + len) (m.stack_top - m.stack_size) m.stack_size
            ⊎ Within start (start + len) m.heap_start (m.heap_end - m.heap_start)))
unfolding contains_user_range
contains_user_range_iff m start len ne = (
  λ h. ground (arith, (in_some_region_iff m start (start + len)).0),
  λ h. ground (arith, (in_some_region_iff m start (start + len)).1),
)
