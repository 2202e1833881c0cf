-- ===== src/Process/Table/Lookup.antt =====
-- The process table as a finite map from ids to processes.
use brane_os.Prelude.{
  ℕ, ◌+◌, ◌^◌, ◌<◌, ◌≡◌, refl, ap, ◌∙◌, subst, ◌⊎◌, inl, inr, Option, none, some, List, [], ◌∷◌,
  length, length-replicate, ℤ, ◌==◌, if◌then◌else◌, arith, Option-cases, Bool-cases, ==→eq, true,
  false,
}
use mathlib.Core.Option
use brane_os.Prelude.Slots.{
  fill_free, used, modify_same, fill_free-none, fill_free-some, length-modify, modify,
}
use brane_os.Prelude.Slots.Keyed.{
  Keyed, Keyed-replicate, find-fill_free, fill_free-Keyed, find-modify, modify-Keyed,
}
use brane_os.Process.Table.{
  Process, ProcessTable, ready, terminated, max_processes, new, fresh, create, has_pid, get, update,
  start, terminate, slot_of, slot_from,
}

-- Ids are distinct and were all handed out before `next_pid`.
pub record IsValid (t : ProcessTable) : Type 0 where
  pub sized : length t.processes ≡ max_processes
  pub keyed : Keyed (λ p. p.pid) t.next_pid t.processes
  pub counter : t.next_pid < 2 ^ 64

pub new-IsValid : IsValid new
unfolding new
new-IsValid = record {
  sized = length-replicate max_processes none;
  keyed = Keyed-replicate (λ p. p.pid) 1 max_processes;
  counter = omega arith;
}

-- The table after a process was stored under the next id.
pub record Created (t : ProcessTable) (p : Process) (u : ProcessTable) : Type 0 where
  pub had_room : used t.processes < max_processes
  pub one_more : used u.processes ≡ used t.processes + 1
  pub moved : u.next_pid ≡ t.next_pid + 1
  pub found : (k : ℕ) → get u k ≡ (if t.next_pid == k then some p else get t k)
  pub valid : IsValid u

-- Creation hands out the next id and stores the new process there, in state `Creating`, leaving every
-- other process as it is; with 128 processes it answers `None` and changes nothing. Here ids are left.
pub create_lem :
    (t : ProcessTable) (name : List ℕ) (parent : Option ℕ) (task : ℕ)
    → IsValid t
    → t.next_pid + 1 < 2 ^ 64
    → let (r, u) = create t name parent task in
      ((r ≡ some t.next_pid) × Created t (fresh t.next_pid name parent task) u)
      ⊎ ((used t.processes ≡ max_processes) × (r ≡ none) × (u ≡ t))
unfolding create get fresh
create_lem t name parent task v room = elim (Option-cases (fill_free p t.processes)) [
  | inl full ↦ rw (full, create) (inr (fill_free-none p t.processes full ∙ v.sized, refl, refl))
  | inr (slots, e) ↦
      let counts = fill_free-some p t.processes e in
      rw (e, create)
        (inl (
          refl,
          record {
            had_room = omega (arith, v.sized, counts.1);
            one_more = counts.0;
            moved = omega arith;
            found = λ k. find-fill_free (λ q. q.pid) t.next_pid k p t.processes v.keyed refl e;
            valid = record {
              sized = counts.2 ∙ v.sized;
              keyed =
                  subst (λ n. Keyed (λ q. q.pid) n slots) (omega arith)
                    (fill_free-Keyed (λ q. q.pid) t.next_pid p t.processes v.keyed refl e);
              counter = omega arith;
            };
          },
        ))
]
  where
    p : Process
    p = fresh t.next_pid name parent task

-- A write through `get_mut` that keeps the id shows at that id alone.
pub get-update :
    (t : ProcessTable) (j k : ℕ) (f : Process → Process)
    → ((p : Process) → (f p).pid ≡ p.pid)
    → get (update t k f) j ≡ (if k == j then Option.map f (get t j) else get t j)
unfolding get update
get-update t j k f keeps = find-modify (λ p. p.pid) j k f t.processes keeps

-- A write that leaves the process as it is leaves the table.
pub update_same :
    (t : ProcessTable) (k : ℕ) (f : Process → Process) (p : Process)
    → get t k ≡ some p
    → f p ≡ p
    → update t k f ≡ t
unfolding get update
update_same t k f p e same =
    ap (λ slots. record t { processes = slots }) (modify_same (has_pid k) f t.processes p e same)

-- The same where the process is known.
pub get-update_found :
    (t : ProcessTable) (j k : ℕ) (f : Process → Process) (p : Process)
    → ((q : Process) → (f q).pid ≡ q.pid)
    → get t k ≡ some p
    → get (update t k f) j ≡ (if k == j then some (f p) else get t j)
get-update_found t j k f p keeps e = elim (Bool-cases (k == j)) [
  | inl here ↦ rw here (get-update t j k f keeps ∙ rw (here, ← ==→eq k j here, e))
  | inr there ↦ rw there (get-update t j k f keeps ∙ rw there)
]

pub update-IsValid :
    (t : ProcessTable) (k : ℕ) (f : Process → Process)
    → ((p : Process) → (f p).pid ≡ p.pid)
    → IsValid t
    → IsValid (update t k f)
unfolding update
update-IsValid t k f keeps v = record {
  sized = length-modify (has_pid k) f t.processes ∙ v.sized;
  keyed = modify-Keyed (λ p. p.pid) t.next_pid k f t.processes keeps v.keyed;
  counter = v.counter;
}

-- Starting and terminating a process succeed exactly for an id in the table; a start sets the state to
-- `Ready`, a termination sets it to `Terminated` with the exit code, nothing else of that process
-- changes and no other process does. (A start also takes a terminated process back to `Ready`.)
pub start_terminate_lem :
    (t : ProcessTable) (k : ℕ) (code : ℤ)
    → ((get t k ≡ none) × (start t k ≡ (false, t)) × (terminate t k code ≡ (false, t)))
      ⊎ ((p : Process) × (get t k ≡ some p)
          × ((start t k).0 ≡ true)
          × ((terminate t k code).0 ≡ true)
          × ((j : ℕ)
              → get (start t k).1 j
                ≡ (if k == j then some (record p { state = ready }) else get t j))
          × ((j : ℕ)
              → get (terminate t k code).1 j ≡ (
                  if k == j
                  then some (record p { state = terminated; exit_code = code })
                  else get t j)))
unfolding start terminate
start_terminate_lem t k code = elim (Option-cases (get t k)) [
  | inl e ↦ inl (e, rw (e, start), rw (e, terminate))
  | inr (p, e) ↦ inr (
    p,
    e,
    rw (e, start),
    rw (e, terminate),
    λ j. rw (e, start) (get-update_found t j k (λ q. record q { state = ready }) p (λ _. refl) e),
    λ j.
        rw (e, terminate)
          (get-update_found t j k (λ q. record q { state = terminated; exit_code = code }) p
            (λ _. refl) e),
  )
]

slot_from-modify :
    (j k i : ℕ) (f : Process → Process) (s : List (Option Process))
    → ((p : Process) → (f p).pid ≡ p.pid)
    → slot_from j i (modify (has_pid k) f s) ≡ slot_from j i s
unfolding slot_from modify
slot_from-modify j k i f [] keeps = refl
slot_from-modify j k i f (none ∷ s) keeps = slot_from-modify j k (i + 1) f s keeps
slot_from-modify j k i f (some p ∷ s) keeps =
    ground (arith, keeps p, slot_from-modify j k (i + 1) f s keeps)

-- Nor does such a write move any process.
pub slot_of-update :
    (t : ProcessTable) (j k : ℕ) (f : Process → Process)
    → ((p : Process) → (f p).pid ≡ p.pid)
    → slot_of (update t k f) j ≡ slot_of t j
unfolding slot_of update
slot_of-update t j k f keeps = slot_from-modify j k 0 f t.processes keeps
