-- ===== src/Breaker.antt =====
-- The circuit breaker of the sources (internal/breaker/breaker.go). A Go map is an association
-- list; a reading of the clock is an argument `now`; times and durations are unbounded numbers of
-- nanoseconds, save the seconds of a `Retry-After` header, and the mutex makes each call one step.
pub mod Laws
pub mod Streak
mod Tests
use bidshard_lead_miner.Common.{
  ℕ, suc, ◌+◌, ◌-◌, ◌*◌, ◌%◌, ◌^◌, Bool, true, false, ◌&&◌, ◌||◌, not, List, [], Option, none, some,
  String, string_discrete, ltb, leb, ◌==◌, if◌then◌else◌,
}
use bidshard_lead_miner.Common.Maps.{lookup, insert, erase}

abbrev pub default_fail_threshold : ℕ
default_fail_threshold = 5

abbrev pub cloudflare_fail_threshold : ℕ
cloudflare_fail_threshold = 3

abbrev pub second : ℕ
second = 1000000000

pub record SourceBreaker : Type 0 where
  pub failures : List (String × ℕ)
  pub open_until : List (String × ℕ)
  pub fail_threshold : ℕ
  pub open_timeout : ℕ

unfoldable pub new_source_breaker : SourceBreaker
new_source_breaker = record {
  failures = [];
  open_until = [];
  fail_threshold = default_fail_threshold;
  open_timeout = 60 * second;
}

pub forget : SourceBreaker → String → SourceBreaker
forget b source = record b {
  failures = erase string_discrete source b.failures;
  open_until = erase string_discrete source b.open_until;
}

pub allow : SourceBreaker → String → ℕ → SourceBreaker × Bool
allow b source now = elim (lookup string_discrete source b.open_until) [
  | none ↦ (b, true)
  | some until ↦ if ltb until now then (forget b source, true) else (b, false)
]

-- `-` stops at 0, as the code does where the remaining time is negative.
pub wait_duration : SourceBreaker → String → ℕ → ℕ
wait_duration b source now = elim (lookup string_discrete source b.open_until) [
  | none ↦ 0
  | some until ↦ until - now
]

pub record_success : SourceBreaker → String → SourceBreaker
record_success b source = forget b source

-- `b.failures[source]`, which is 0 for a missing key.
abbrev pub failures_of : SourceBreaker → String → ℕ
failures_of b source = elim (lookup string_discrete source b.failures) [ none ↦ 0 | some n ↦ n ]

-- `b.failures[source]++`, and the circuit opens for `open_for` from the threshold on.
pub count_failure : SourceBreaker → String → ℕ → ℕ → ℕ → SourceBreaker
count_failure b source now open_for threshold =
    let n = failures_of b source + 1 in
    let counted = record b { failures = insert string_discrete source n b.failures } in
    if ltb n threshold
    then counted
    else record counted { open_until = insert string_discrete source (now + open_for) b.open_until }

pub record_cloudflare_block : SourceBreaker → String → ℕ → SourceBreaker
record_cloudflare_block b source now =
    count_failure b source now b.open_timeout cloudflare_fail_threshold

-- Only "too many requests" and the server errors count.
abbrev pub is_counted : ℕ → Bool
is_counted status_code = status_code == 429 || leb 500 status_code

abbrev pub longer : ℕ → ℕ → ℕ
longer open_for retry_after = if ltb open_for retry_after then retry_after else open_for

pub record_failure_at : SourceBreaker → String → ℕ → ℕ → ℕ → ℕ → SourceBreaker
record_failure_at b source status_code retry_after threshold now =
    if is_counted status_code
    then count_failure b source now (longer b.open_timeout retry_after) threshold
    else b

pub record_failure : SourceBreaker → String → ℕ → ℕ → ℕ → SourceBreaker
record_failure b source status_code retry_after now =
    record_failure_at b source status_code retry_after default_fail_threshold now

-- A `Retry-After` header as `strconv.Atoi` and `http.ParseTime` read it.
pub data RetryAfter : Type 0 where
  missing unreadable : RetryAfter
  seconds : ℕ → RetryAfter
  negative_seconds : ℕ → RetryAfter
  date : ℕ → RetryAfter

-- A product in nanoseconds that wraps at 64 bits, with its sign: the part that is positive, and that of
-- its opposite.
abbrev pub wrapped : ℕ → ℕ
wrapped n = let w = n % 2 ^ 64 in if ltb w (2 ^ 63) then w else 0

abbrev pub wrapped_opposite : ℕ → ℕ
wrapped_opposite n = let w = n % 2 ^ 64 in if ltb (2 ^ 63) w then 2 ^ 64 - w else 0

-- A negative duration is never longer than the open timeout: it is 0 here.
pub parse_retry_after : RetryAfter → ℕ → ℕ
parse_retry_after missing now = 0
parse_retry_after (seconds n) now = wrapped (n * second)
parse_retry_after (negative_seconds n) now = wrapped_opposite (n * second)
parse_retry_after (date t) now = t - now
parse_retry_after unreadable now = 0

pub record_transport_error : SourceBreaker → String → ℕ → SourceBreaker
record_transport_error b source now = record_failure b source 503 0 now

-- What `RecordResponse` reads of a response; `cf_ray` says that the header is not empty.
pub record Response : Type 0 where
  pub status_code : ℕ
  pub retry_after : RetryAfter
  pub cf_ray : Bool

-- `parsed` is the reading of the clock by `ParseRetryAfter`, `now` that of the record call.
pub record_response : SourceBreaker → String → Option Response → ℕ → ℕ → SourceBreaker
record_response b source none parsed now = b
record_response b source (some resp) parsed now =
    if resp.status_code == 200 || resp.status_code == 204
    then record_success b source
    else if resp.status_code == 403 && resp.cf_ray
    then record_cloudflare_block b source now
    else record_failure b source resp.status_code (parse_retry_after resp.retry_after parsed) now
