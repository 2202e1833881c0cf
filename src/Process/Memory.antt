-- ===== src/Process/Memory.antt =====
-- `ProcessMemory` of kernel/src/process.rs and its metadata guard for user ranges.
pub mod Ranges
use brane_os.Prelude.{
  ℕ, ◌-◌, Bool, true, false, ◌&&◌, ◌||◌, Option, none, some, leb, ◌==◌, if◌then◌else◌,
  checked_add_u64, checked_sub_u64,
}

pub record ProcessMemory : Type 0 where
  pub code_start : ℕ
  pub code_size : ℕ
  pub stack_top : ℕ
  pub stack_size : ℕ
  pub heap_start : ℕ
  pub heap_end : ℕ

-- The closure `fits` of `contains_user_range`, over the range it captures.
unfoldable pub fits : ℕ → ℕ → ℕ → ℕ → Bool
unfolding checked_add_u64
fits start end region_start region_size = elim (checked_add_u64 region_start region_size) [
  | some region_end ↦ leb region_start start && leb end region_end
  | none ↦ false
]

-- The regions that a range with a known end may lie in.
unfoldable pub in_some_region : ProcessMemory → ℕ → ℕ → Bool
unfolding checked_sub_u64
in_some_region m start end = elim (checked_sub_u64 m.stack_top m.stack_size) [
  | some stack_start ↦
      fits start end m.code_start m.code_size
      || (fits start end stack_start m.stack_size
          || fits start end m.heap_start (m.heap_end - m.heap_start))
  | none ↦ false
]

-- `ProcessMemory::contains_user_range`.
unfoldable pub contains_user_range : ProcessMemory → ℕ → ℕ → Bool
unfolding checked_add_u64
contains_user_range m start len =
    if len == 0
    then true
    else elim (checked_add_u64 start len) [ some end ↦ in_some_region m start end | none ↦ false ]
