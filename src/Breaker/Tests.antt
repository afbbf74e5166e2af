-- ===== src/Breaker/Tests.antt =====
-- Runs of the breaker (internal/breaker/breaker.go) and uses of its theorems.
use bidshard_lead_miner.Common.{
  ℕ, ◌+◌, ◌*◌, ◌≡◌, refl, true, false, List, [], ◌∷◌, some, string_discrete, ltb, arith,
}
use bidshard_lead_miner.Common.Maps.{lookup, insert}
use bidshard_lead_miner.Breaker.{
  SourceBreaker, new_source_breaker, allow, wait_duration, count_failure, record_success,
  record_failure, record_failure_at, missing, record_cloudflare_block, record_response, second,
}
use bidshard_lead_miner.Breaker.Laws.{
  Call, fails, responds, step, Inv, new_source_breaker-Inv, step-Inv,
}
use bidshard_lead_miner.Breaker.Streak.{
  Failure, failing, held_until, counted, allow-failing, allow-wait_duration,
}

abbrev unavailable : ℕ → Failure
unavailable at = record { status_code = 503; retry_after = 0; at = at }

abbrev five : List Failure
five = unavailable 5 ∷ unavailable 4 ∷ unavailable 3 ∷ unavailable 2 ∷ unavailable 1 ∷ []

-- Five failures open the circuit, and a 404 between them does not count.
five_open : (allow (failing new_source_breaker "serp" five) "serp" 10).1 ≡ false
unfolding allow failing new_source_breaker record_failure record_failure_at count_failure lookup
    insert string_discrete
five_open = refl

abbrev cloudflare : Call
cloudflare = responds (some (record { status_code = 403; retry_after = missing; cf_ray = true })) 1

-- Three Cloudflare blocks are enough.
blocked_thrice :
    let b =
      step (step (step new_source_breaker "a" cloudflare 1) "a" cloudflare 2) "a" cloudflare 3 in
    (allow b "a" 4).1 ≡ false
unfolding step allow new_source_breaker record_response record_cloudflare_block count_failure lookup
    insert string_discrete
blocked_thrice = refl

step-Inv_example : Inv (step new_source_breaker "serp" (fails 503 0) 7)
step-Inv_example = step-Inv new_source_breaker "serp" (fails 503 0) 7 new_source_breaker-Inv

allow-failing_example :
    (allow (failing (record_success new_source_breaker "serp") "serp" five) "serp" 10).1
    ≡ ltb (5 + 60 * second) 10
unfolding held_until counted new_source_breaker
allow-failing_example = allow-failing new_source_breaker "serp" five 10

held : SourceBreaker
held = record {
  failures = ("serp", 5) ∷ [];
  open_until = ("serp", 90) ∷ [];
  fail_threshold = 5;
  open_timeout = 60;
}

held_lem : (allow held "serp" 30).1 ≡ false
unfolding held allow lookup string_discrete
held_lem = refl

allow-wait_duration_example : (allow held "serp" 91).1 ≡ true
unfolding held wait_duration lookup string_discrete
allow-wait_duration_example = (allow-wait_duration held "serp" 30 91 held_lem (omega arith)).0
