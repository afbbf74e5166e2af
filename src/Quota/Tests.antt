-- ===== src/Quota/Tests.antt =====
-- Runs of the quotas (internal/gemini/limiter.go, priority.go) and uses of their theorems.
use bidshard_lead_miner.Common.{◌+◌, ◌*◌, ℕ, ◌≤◌, ◌≡◌, refl, true, List, [], ◌∷◌, length, arith}
use bidshard_lead_miner.Quota.{
  second, Clocks, high, QuotaSplit, rpd_exceeded, new_quota_limiter, wait, recent_times,
  recent_entries, sum_tokens, check_rpd, check_tpm, prune_rpd, prune_tpm, record_use, record_tpm,
  record_rpd, bucket_rpm, rpm, normalize,
}
use bidshard_lead_miner.Quota.Rolling.{Call, replay, requests, rolling_quotas}
use bidshard_lead_miner.Quota.Race.{Shared, Reach, crowd, crowd_exceeds_rpd}

abbrev at_once : ℕ → Clocks
at_once now = record { rpd_check = now; tpm_check = now; tpm_record = now; rpd_record = now }

abbrev call_at : ℕ → Call
call_at now = record { est_tokens = 10; generate = true; granted = true; at = at_once now }

abbrev calls : List Call
calls = call_at 7 ∷ call_at 6 ∷ call_at 5 ∷ []

-- A quota of two requests refuses the third.
third_refused :
    (wait
      (replay (new_quota_limiter 100 2) (call_at 6 ∷ call_at 5 ∷ []))
      10
      true
      true
      (at_once 7)).1
    ≡ rpd_exceeded
unfolding replay wait new_quota_limiter check_rpd check_tpm prune_rpd prune_tpm record_use
    record_tpm record_rpd recent_times recent_entries sum_tokens
third_refused = refl

rolling_quotas_example : length (recent_times 8 (requests (new_quota_limiter 100 2) calls)) ≤ 2
unfolding new_quota_limiter
rolling_quotas_example = (rolling_quotas 100 2 calls 8 (omega arith)).0

-- Three callers, where two requests a day are allowed and the bucket has a token every four seconds.
crowd_exceeds_rpd_example :
    (s : Shared) × Reach (4 * second) 10 (crowd 100 2 (4 * second) 10 7 0) s
    × (s.inside ≡ 0)
    × (length (recent_times (7 + 3 * (4 * second)) s.limiter.rpd_window) ≡ 3)
unfolding new_quota_limiter
crowd_exceeds_rpd_example = crowd_exceeds_rpd 100 2 (4 * second) 10 7 3 (omega arith) (omega arith)

abbrev even_split : QuotaSplit
even_split = record { critical_pct = 25; high_pct = 25; normal_pct = 25; low_pct = 25 }

abbrev no_critical : QuotaSplit
no_critical = record { critical_pct = 0; high_pct = 60; normal_pct = 25; low_pct = 15 }

-- Sixty per cent were configured, and the bucket gets forty.
high_gets_forty : bucket_rpm no_critical 20 high ≡ 8
unfolding bucket_rpm rpm normalize
high_gets_forty = refl
