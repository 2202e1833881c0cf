-- ===== src/Syscall/Handlers/Mask.antt =====
-- `sigprocmask`, bit by bit.
use brane_os.Prelude.{
  ℕ, ◌^◌, ◌≤◌, ◌<◌, ◌≡◌, ◌∙◌, refl, ◌⊎◌, inl, inr, ◌||◌, none, some, max, bit_and, ◌==◌,
  if◌then◌else◌, arith, Option-cases,
}
use brane_os.Prelude.Bits.{
  bit_at, bit_at-bit_and, bit_at-bit_or, bit_at-pow, bit_at-complement, bit_at-le-one, complement,
}
use brane_os.Process.Table.{Process, get}
use brane_os.Process.Table.Lookup.{get-update_found}
use brane_os.Syscall.Status
use brane_os.Syscall.Abi.{SyscallContext, CallerContext}
use brane_os.Syscall.Kernel.{Scheduler, Kernel}
use brane_os.Syscall.Handlers.{new_mask, cannot_block, handle_sigprocmask}

-- The bit that each way of setting the mask asks for: 1 blocks the given signals, 2 lets them pass, 3
-- takes the given mask; the two signals that cannot be blocked stay clear.
abbrev pub wanted_bit : ℕ → ℕ → ℕ → ℕ → ℕ
wanted_bit how i set old =
    if i == 9 || i == 19
    then 0
    else if how == 1
    then max old set
    else if how == 2
    then if set == 1 then 0 else old
    else set

bit_at-cannot_block : (i : ℕ) → bit_at i cannot_block ≡ (if i == 9 || i == 19 then 1 else 0)
bit_at-cannot_block i =
    ground (arith, bit_at-bit_or i (2 ^ 9) (2 ^ 19), bit_at-pow i 9, bit_at-pow i 19)

clear_cannot_block :
    (m i : ℕ)
    → i < 64
    → bit_at i (bit_and m (complement 64 cannot_block))
      ≡ (if i == 9 || i == 19 then 0 else bit_at i m)
clear_cannot_block m i hi =
    bit_at-bit_and i m (complement 64 cannot_block)
    ∙ ground (
      arith,
      bit_at-complement 64 i cannot_block hi (omega arith),
      bit_at-cannot_block i,
      bit_at-le-one i m,
    )

new_mask-bit :
    (how set old m i : ℕ)
    → set < 2 ^ 64
    → i < 64
    → new_mask how set old ≡ some m
    → bit_at i m ≡ (
        if how == 1
        then max (bit_at i old) (bit_at i set)
        else if how == 2
        then if bit_at i set == 1 then 0 else bit_at i old
        else bit_at i set)
unfolding new_mask
new_mask-bit how set old m i hs hi e =
    let block = bit_at-bit_or i old set in
    let unblock = bit_at-bit_and i old (complement 64 set) in
    let rest = bit_at-complement 64 i set hi hs in
    ground (arith, e, block, unblock, rest, bit_at-le-one i set, bit_at-le-one i old)

new_mask_bits :
    (how set old m i : ℕ)
    → set < 2 ^ 64
    → i < 64
    → new_mask how set old ≡ some m
    → bit_at i (bit_and m (complement 64 cannot_block))
      ≡ wanted_bit how i (bit_at i set) (bit_at i old)
unfolding new_mask
new_mask_bits how set old m i hs hi e =
    clear_cannot_block m i hi ∙ rw (new_mask-bit how set old m i hs hi e) refl

new_mask-none : (how set old : ℕ) → new_mask how set old ≡ none → ¬ ((1 ≤ how) × (how ≤ 3))
unfolding new_mask
new_mask-none how set old e v = ground (arith, e, v)

new_mask-some : (how set old m : ℕ) → new_mask how set old ≡ some m → (1 ≤ how) × (how ≤ 3)
unfolding new_mask
new_mask-some how set old m e = (ground (arith, e), ground (arith, e))

module _ {S : Type 0} (scheduler : Scheduler S) where
  -- For a caller in the process table and a signal mask of 64 bits: `sigprocmask` with way 1, 2 or 3
  -- answers the old mask and changes only the blocked mask of the caller, bit by bit as the way asks, and
  -- the bits of `SIGKILL` and `SIGSTOP` are clear afterwards; with any other way it answers
  -- `InvalidArgument` and changes nothing.
  pub handle_sigprocmask_lem :
      (k : Kernel S) (ctx : SyscallContext) (caller : CallerContext) (p : Process)
      → get k.processes caller.pid ≡ some p
      → ctx.arg2 < 2 ^ 64
      → let (answer, k2) = handle_sigprocmask scheduler k ctx caller in
        ((1 ≤ ctx.arg1)
          × (ctx.arg1 ≤ 3)
          × (answer ≡ Status.ok p.signal_blocked)
          × ((m : ℕ) × ((j : ℕ)
                → get k2.processes j ≡ (
                    if caller.pid == j
                    then some (record p { signal_blocked = m })
                    else get k.processes j))
              × ((i : ℕ)
                  → i < 64
                  → bit_at i m
                    ≡ wanted_bit ctx.arg1 i (bit_at i ctx.arg2) (bit_at i p.signal_blocked))))
        ⊎ ((¬ ((1 ≤ ctx.arg1) × (ctx.arg1 ≤ 3)))
            × (answer ≡ Status.err Status.invalid_argument)
            × (k2 ≡ k))
  unfolding handle_sigprocmask
  handle_sigprocmask_lem k ctx caller p e small =
      elim (Option-cases (new_mask ctx.arg1 ctx.arg2 p.signal_blocked)) [
        | inl f ↦
            rw (e, handle_sigprocmask, f)
              (inr (new_mask-none ctx.arg1 ctx.arg2 p.signal_blocked f, refl, refl))
        | inr (m, f) ↦
            let way = new_mask-some ctx.arg1 ctx.arg2 p.signal_blocked m f in
            rw (e, handle_sigprocmask, f)
              (inl (
                way.0,
                way.1,
                refl,
                (
                  bit_and m (complement 64 cannot_block),
                  λ j. get-update_found k.processes j caller.pid _ p (λ _. refl) e,
                  λ i hi. new_mask_bits ctx.arg1 ctx.arg2 p.signal_blocked m i small hi f,
                ),
              ))
      ]
