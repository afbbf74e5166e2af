-- ===== src/Breaker/Streak.antt =====
-- Failures in a row, and the way back (internal/breaker/breaker.go).
use bidshard_lead_miner.Common.{
  ℕ, suc, ◌+◌, ◌≤◌, ◌≡◌, true, false, List, [], ◌∷◌, Option, none, some, String, string_discrete,
  ltb, leb, if◌then◌else◌, arith,
}
use bidshard_lead_miner.Common.Maps.{lookup, lookup-insert, lookup-erase}
use bidshard_lead_miner.Breaker.{
  SourceBreaker, default_fail_threshold, allow, wait_duration, record_success, failures_of,
  count_failure, record_failure, record_failure_at, is_counted, forget, longer,
}

pub record Failure : Type 0 where
  pub status_code : ℕ
  pub retry_after : ℕ
  pub at : ℕ

-- Failures of one source, the latest first.
unfoldable pub failing : SourceBreaker → String → List Failure → SourceBreaker
failing b source [] = b
failing b source (f ∷ past) =
    record_failure (failing b source past) source f.status_code f.retry_after f.at

-- How many of them count.
unfoldable pub counted : List Failure → ℕ
counted [] = 0
counted (f ∷ past) = let n = counted past in if is_counted f.status_code then suc n else n

-- Until when a source is held back: set by each failure that counts, from the threshold on.
unfoldable pub held_until : ℕ → List Failure → Option ℕ
held_until open_timeout [] = none
held_until open_timeout (f ∷ past) =
    let before = held_until open_timeout past in
    if is_counted f.status_code
    then if leb default_fail_threshold (counted past + 1)
      then some (f.at + longer open_timeout f.retry_after)
      else before
    else before

record Failed (b : SourceBreaker) (source : String) (fs : List Failure) (b' : SourceBreaker)
    : Type 0 where
  count : failures_of b' source ≡ counted fs
  until : lookup string_discrete source b'.open_until ≡ held_until b.open_timeout fs
  same_timeout : b'.open_timeout ≡ b.open_timeout

record_failure-Failed :
    (b b' : SourceBreaker) (source : String) (f : Failure) (past : List Failure)
    → Failed b source past b'
    → Failed b source (f ∷ past) (record_failure b' source f.status_code f.retry_after f.at)
unfolding record_failure record_failure_at count_failure counted held_until
record_failure-Failed b b' source f past h = ground (
  arith,
  lookup-insert string_discrete source source (failures_of b' source + 1) b'.failures,
  lookup-insert string_discrete source source (f.at + longer b'.open_timeout f.retry_after)
      b'.open_until,
)

failing-Failed :
    (b : SourceBreaker) (source : String) (fs : List Failure)
    → Failed b source fs (failing (record_success b source) source fs)
unfolding failing record_success forget counted held_until
failing-Failed b source [] = ground (
  arith,
  lookup-erase string_discrete source source b.failures,
  lookup-erase string_discrete source source b.open_until,
)
failing-Failed b source (f ∷ past) =
    record_failure-Failed b _ source f past (failing-Failed b source past)

-- After a success and then any failures, a source is held back exactly up to the time that the
-- latest counted failure sets once five of them count; other failures change nothing.
pub allow-failing :
    (b : SourceBreaker) (source : String) (fs : List Failure) (now : ℕ)
    → (allow (failing (record_success b source) source fs) source now).1
      ≡ elim (held_until b.open_timeout fs) [ none ↦ true | some until ↦ ltb until now ]
unfolding allow
allow-failing b source fs now = ground (arith, (failing-Failed b source fs).until)

-- A source that is held back is let through after as long as the breaker says, and a nanosecond
-- more, and no earlier; it then starts with no failures again.
pub allow-wait_duration :
    (b : SourceBreaker) (source : String) (now later : ℕ)
    → (allow b source now).1 ≡ false
    → now ≤ later
    → let (b', allowed) = allow b source later in
      (allowed ≡ ltb (now + wait_duration b source now) later)
      × (failures_of b' source ≡ (if allowed then 0 else failures_of b source))
unfolding allow wait_duration forget
allow-wait_duration b source now later held l = ground (
  arith,
  lookup-erase string_discrete source source b.failures,
  lookup-erase string_discrete source source b.open_until,
)
