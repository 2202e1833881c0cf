-- ===== src/Audit/Retention.antt =====
-- The audit log keeps exactly the newest 512 events of its history, and counts the rest.
use brane_os.Prelude.{
  ℕ, zero, suc, ◌+◌, ◌-◌, ◌%◌, ◌^◌, ◌≤◌, ◌<◌, ◌≡◌, refl, ◌∙◌, ap, min, Option, none, some, List, [],
  ◌∷◌, length, length-set, length-take, length-replicate, take, take_all, take-take,
  take-min-length, get_or, dec_lt, ap₂, arith, lt→ltb, le→ltb, set, subst, sym,
}
use native.Mathlib.Nat.{mod-lt}
use brane_os.Prelude.Circular.{HoldsNewest, push-HoldsNewest, drop-HoldsNewest}
use brane_os.Audit.{
  AuditLog, AuditEvent, AuditOrigin, AuditAction, AuditResult, audit_log_size, new, event_of,
  record_at, last_from, last_n, or_skip,
}

-- The log after a history of events, newest first.
pub record Retains (log : AuditLog) (history : List AuditEvent) : Type 0 where
  pub sized : length log.events ≡ audit_log_size
  pub head_in : log.head < audit_log_size
  pub counted : log.count ≡ min audit_log_size (length history)
  pub held : HoldsNewest audit_log_size log.events log.head (take audit_log_size history)
  pub numbered : log.next_seq ≡ (length history + 1) % 2 ^ 64
  pub totalled : log.total_events ≡ length history % 2 ^ 64
  pub lost : log.overwritten ≡ (length history - audit_log_size) % 2 ^ 64

pub new-Retains : Retains new []
unfolding new
new-Retains = record {
  sized = length-replicate audit_log_size none;
  head_in = omega arith;
  counted = refl;
  held = tt;
  numbered = refl;
  totalled = refl;
  lost = refl;
}

extend-held :
    (slots : List (Option AuditEvent)) (head idx : ℕ) (history : List AuditEvent)
    (event : AuditEvent)
    → length slots ≡ audit_log_size
    → idx ≡ (head + length (take 511 history)) % audit_log_size
    → HoldsNewest audit_log_size slots head (take 511 history)
    → HoldsNewest audit_log_size
        (set slots idx (some event))
        head
        (take audit_log_size (event ∷ history))
extend-held slots head idx history event sized e held =
    subst
      (λ i. HoldsNewest audit_log_size (set slots i (some event)) head (event ∷ take 511 history))
      (sym e)
      (push-HoldsNewest audit_log_size slots head event (take 511 history) (omega arith)
        (omega (arith, length-take 511 history)) held)

pub record_at-Retains :
    (log : AuditLog) (history : List AuditEvent) (tick : ℕ) (origin : AuditOrigin)
    (action : AuditAction) (cap_used : Option ℕ) (result : AuditResult)
    → Retains log history
    → Retains
        (record_at log tick origin action cap_used result)
        (event_of log.next_seq tick origin action cap_used result ∷ history)
unfolding record_at
record_at-Retains log history tick origin action cap_used result v =
    elim (dec_lt (length history) audit_log_size) [
      | yes room ↦ rw (lt→ltb log.count audit_log_size (omega (arith, v.counted))) (record {
        sized = length-set log.events _ _ ∙ v.sized;
        head_in = v.head_in;
        counted = omega (arith, v.counted);
        held =
            extend-held log.events log.head _ history _ v.sized
              (ap (λ k. (log.head + k) % audit_log_size)
                (omega (arith, v.counted, length-take 511 history)))
              (subst (HoldsNewest audit_log_size log.events log.head)
                (take_all 512 history (omega arith) ∙ sym (take_all 511 history (omega arith)))
                v.held);
        numbered = omega (arith, v.numbered);
        totalled = omega (arith, v.totalled);
        lost = omega (arith, v.lost);
      })
      | no full ↦ rw (le→ltb log.count audit_log_size (omega (arith, v.counted))) (record {
        sized = length-set log.events _ _ ∙ v.sized;
        head_in = mod-lt (log.head + 1) (omega arith);
        counted = omega (arith, v.counted);
        held =
            extend-held log.events ((log.head + 1) % audit_log_size) _ history _ v.sized
              (omega (arith, v.counted, length-take 511 history, v.head_in))
              (subst (HoldsNewest audit_log_size log.events ((log.head + 1) % audit_log_size))
                (take-take 511 512 history (omega arith))
                (drop-HoldsNewest audit_log_size log.events log.head 511 _
                  (omega (arith, length-take 512 history)) v.held));
        numbered = omega (arith, v.numbered);
        totalled = omega (arith, v.totalled);
        lost = omega (arith, v.lost);
      })
    ]

-- Reading back `k` events from the one with `length ys` older ones in the log.
last_from-HoldsNewest :
    (log : AuditLog) (ys : List AuditEvent) (i k : ℕ)
    → length ys + i ≡ log.count
    → k ≤ length ys
    → HoldsNewest audit_log_size log.events log.head ys
    → last_from log i k ≡ take k ys
unfolding last_from
last_from-HoldsNewest log ys i zero e h held = refl
last_from-HoldsNewest log [] i (suc k) e h held = absurd (omega arith)
last_from-HoldsNewest log (y ∷ ys) i (suc k) e h held =
    ap₂ or_skip (ap (λ j. get_or log.events (j % audit_log_size) none) (omega arith) ∙ held.0)
      (last_from-HoldsNewest log ys (i + 1) k (omega arith) (omega arith) held.1)

last_n-Retains :
    (log : AuditLog) (history : List AuditEvent) (n : ℕ)
    → Retains log history
    → last_n log n ≡ take (min n audit_log_size) history
unfolding last_n
last_n-Retains log history n v =
    last_from-HoldsNewest log (take audit_log_size history) 0 (min n log.count)
      (omega (arith, v.counted, length-take audit_log_size history))
      (omega (arith, length-take audit_log_size history)) v.held
    ∙ take-take (min n log.count) audit_log_size history (omega arith)
    ∙ ap (λ k. take k history) (omega arith)
    ∙ take-min-length (min n audit_log_size) history

-- What a caller of `record_at` gives for one event.
pub record Report : Type 0 where
  pub tick : ℕ
  pub origin : AuditOrigin
  pub action : AuditAction
  pub capability_used : Option ℕ
  pub result : AuditResult

unfoldable pub record_all : AuditLog → List Report → AuditLog
record_all log [] = log
record_all log (r ∷ rs) =
    record_all (record_at log r.tick r.origin r.action r.capability_used r.result) rs

-- The unbounded history, newest first, numbered from 1 in `u64`.
unfoldable pub history_of : List AuditEvent → List Report → List AuditEvent
history_of history [] = history
history_of history (r ∷ rs) =
    history_of
      (event_of ((length history + 1) % 2 ^ 64) r.tick r.origin r.action r.capability_used r.result
        ∷ history)
      rs

record_all-Retains :
    (rs : List Report) (log : AuditLog) (history : List AuditEvent)
    → Retains log history
    → Retains (record_all log rs) (history_of history rs)
unfolding record_all history_of
record_all-Retains [] log history v = v
record_all-Retains (r ∷ rs) log history v = record_all-Retains rs _ _ (
    subst
      (λ n.
        Retains (record_at log r.tick r.origin r.action r.capability_used r.result)
          (event_of n r.tick r.origin r.action r.capability_used r.result ∷ history))
      v.numbered
      (record_at-Retains log history r.tick r.origin r.action r.capability_used r.result v))

-- After any sequence of events from boot, `last_n` gives the newest `n` events of the whole history,
-- newest first, cut off at 512: no event within that window is missing, out of order or changed.
pub last_n-record_all :
    (rs : List Report) (n : ℕ)
    → last_n (record_all new rs) n ≡ take (min n audit_log_size) (history_of [] rs)
last_n-record_all rs n = last_n-Retains _ _ n (record_all-Retains rs new [] new-Retains)

-- After any sequence of events from boot, the log buffers all of them up to 512, has counted them all
-- and has counted those that were overwritten, the last two modulo 2^64.
pub record_all_counts :
    (rs : List Report)
    → let log = record_all new rs in
      let n = length (history_of [] rs) in
      (log.count ≡ min audit_log_size n)
      × (log.total_events ≡ n % 2 ^ 64)
      × (log.overwritten ≡ (n - audit_log_size) % 2 ^ 64)
record_all_counts rs =
    let v = record_all-Retains rs new [] new-Retains in (v.counted, v.totalled, v.lost)
