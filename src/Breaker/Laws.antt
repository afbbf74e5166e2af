-- ===== src/Breaker/Laws.antt =====
-- What the calls of the breaker keep and change (internal/breaker/breaker.go).
use bidshard_lead_miner.Common.{
  ℕ, ◌+◌, ◌≤◌, ◌≡◌, refl, ◌≢◌, Bool, true, false, Option, none, some, String, ◌⊎◌, string_discrete,
  ltb, if◌then◌else◌, arith, Option-cases, Bool-cases, inl, inr,
}
use bidshard_lead_miner.Common.Maps.{lookup, lookup-insert, lookup-erase}
use bidshard_lead_miner.Breaker.{
  SourceBreaker, cloudflare_fail_threshold, new_source_breaker, allow, record_success, failures_of,
  count_failure, record_cloudflare_block, record_failure, record_failure_at, is_counted, Response,
  record_transport_error, record_response, forget,
}

-- The calls that may change the breaker, each at a time.
pub data Call : Type 0 where
  allows succeeds blocked transport_fails : Call
  fails : ℕ → ℕ → Call
  responds : Option Response → ℕ → Call

unfoldable pub step : SourceBreaker → String → Call → ℕ → SourceBreaker
step b source allows now = (allow b source now).0
step b source succeeds now = record_success b source
step b source blocked now = record_cloudflare_block b source now
step b source transport_fails now = record_transport_error b source now
step b source (fails status_code retry_after) now =
    record_failure b source status_code retry_after now
step b source (responds resp parsed) now = record_response b source resp parsed now

-- What the breaker knows of one source.
abbrev pub view : SourceBreaker → String → Option ℕ × Option ℕ
view b source =
    (lookup string_discrete source b.failures, lookup string_discrete source b.open_until)

forget_isolated :
    (b : SourceBreaker) (source other : String)
    → source ≢ other
    → view (forget b source) other ≡ view b other
unfolding forget
forget_isolated b source other h = ground (
  arith,
  lookup-erase string_discrete source other b.failures,
  lookup-erase string_discrete source other b.open_until,
)

count_failure_isolated :
    (b : SourceBreaker) (source other : String) (now open_for threshold : ℕ)
    → source ≢ other
    → view (count_failure b source now open_for threshold) other ≡ view b other
unfolding count_failure
count_failure_isolated b source other now open_for threshold h = ground (
  arith,
  lookup-insert string_discrete source other (failures_of b source + 1) b.failures,
  lookup-insert string_discrete source other (now + open_for) b.open_until,
)

-- A case rule for a conditional.
if_cases {ℓ} :
    {A : Type 0} (P : A → Type ℓ) (b : Bool) (x y : A) → P x → P y → P (if b then x else y)
if_cases P true x y p q = p
if_cases P false x y p q = q

-- What each call does to the breaker: nothing, forget the source, or count a failure of it.
module _ {ℓ} (P : SourceBreaker → Type ℓ) (b : SourceBreaker) (source : String) (now : ℕ) where
  Counts : Type ℓ
  Counts =
      (open_for threshold : ℕ)
      → cloudflare_fail_threshold ≤ threshold
      → P (count_failure b source now open_for threshold)

  allow_cases : P b → P (forget b source) → P (allow b source now).0
  unfolding allow
  allow_cases keep gone = elim (Option-cases (lookup string_discrete source b.open_until)) [
    | inl e ↦ rw (e, allow) keep
    | inr (until, e) ↦ elim (Bool-cases (ltb until now)) [
      | inl over ↦ rw (e, allow) (rw over gone)
      | inr wait ↦ rw (e, allow) (rw wait keep)
    ]
  ]

  record_failure_cases :
      (status_code retry_after : ℕ)
      → P b
      → Counts
      → P (record_failure b source status_code retry_after now)
  unfolding record_failure record_failure_at Counts
  record_failure_cases status_code retry_after keep more =
      if_cases P (is_counted status_code) _ _ (more _ _ (omega arith)) keep

  record_response_cases :
      (resp : Option Response) (parsed : ℕ)
      → P b
      → P (forget b source)
      → Counts
      → P (record_response b source resp parsed now)
  unfolding record_response record_success record_cloudflare_block Counts
  record_response_cases none parsed keep gone more = keep
  record_response_cases (some resp) parsed keep gone more =
      if_cases P _ _ _ gone
        (if_cases P _ _ _ (more _ _ (omega arith)) (record_failure_cases _ _ keep more))

  pub step_cases :
      (c : Call)
      → P b
      → P (forget b source)
      → ((open_for threshold : ℕ)
          → cloudflare_fail_threshold ≤ threshold
          → P (count_failure b source now open_for threshold))
      → P (step b source c now)
  unfolding step record_success record_cloudflare_block record_transport_error Counts
  step_cases allows keep gone more = allow_cases keep gone
  step_cases succeeds keep gone more = gone
  step_cases blocked keep gone more = more _ _ (omega arith)
  step_cases transport_fails keep gone more = record_failure_cases _ _ keep more
  step_cases (fails status_code retry_after) keep gone more = record_failure_cases _ _ keep more
  step_cases (responds resp parsed) keep gone more =
      record_response_cases resp parsed keep gone more

-- A call about one source leaves every other source as it was.
pub step_isolated :
    (b : SourceBreaker) (source other : String) (c : Call) (now : ℕ)
    → source ≢ other
    → view (step b source c now) other ≡ view b other
step_isolated b source other c now h =
    step_cases (λ b'. view b' other ≡ view b other) b source now c refl
      (forget_isolated b source other h)
      (λ open_for threshold _. count_failure_isolated b source other now open_for threshold h)

-- A source is held back only after enough failures in a row: the count is at least the threshold
-- of the Cloudflare blocks, the lowest one.
pub record Inv (b : SourceBreaker) : Type 0 where
  pub earned :
      (source : String)
      → (lookup string_discrete source b.open_until ≡ none)
        ⊎ (cloudflare_fail_threshold ≤ failures_of b source)

pub new_source_breaker-Inv : Inv new_source_breaker
unfolding new_source_breaker lookup
new_source_breaker-Inv = record { earned = λ s. inl refl }

forget-Inv : (b : SourceBreaker) (source : String) → Inv b → Inv (forget b source)
unfolding forget
forget-Inv b source v = record {
  earned = λ s. ground (
    arith,
    v.earned s,
    lookup-erase string_discrete source s b.failures,
    lookup-erase string_discrete source s b.open_until,
  );
}

count_failure-Inv :
    (b : SourceBreaker) (source : String) (now open_for threshold : ℕ)
    → cloudflare_fail_threshold ≤ threshold
    → Inv b
    → Inv (count_failure b source now open_for threshold)
unfolding count_failure
count_failure-Inv b source now open_for threshold h v = record {
  earned = λ s. ground (
    arith,
    v.earned s,
    lookup-insert string_discrete source s (failures_of b source + 1) b.failures,
    lookup-insert string_discrete source s (now + open_for) b.open_until,
  );
}

-- Every call keeps the invariant that a source which is held back has failed at least as often in a
-- row as the threshold of the Cloudflare blocks, the lowest one.
pub step-Inv :
    (b : SourceBreaker) (source : String) (c : Call) (now : ℕ) → Inv b → Inv (step b source c now)
step-Inv b source c now v =
    step_cases Inv b source now c v (forget-Inv b source v)
      (λ open_for threshold h. count_failure-Inv b source now open_for threshold h v)
