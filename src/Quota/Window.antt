-- ===== src/Quota/Window.antt =====
-- The windows of a limiter used by one caller after another (internal/gemini/limiter.go).
use bidshard_lead_miner.Common.{
  ℕ, ◌+◌, ◌≤◌, ◌≡◌, Bool, List, [], ◌∷◌, ◌++◌, length, length-append, arith,
}
use bidshard_lead_miner.Quota.{
  QuotaEntry, QuotaLimiter, Clocks, recent_times, recent_entries, sum_tokens, prune_rpd, prune_tpm,
  check_rpd, check_tpm, record_tpm, record_rpd, record_use, wait, new_quota_limiter,
}

pub length-recent_times-le : (now : ℕ) (ts : List ℕ) → length (recent_times now ts) ≤ length ts
unfolding recent_times
length-recent_times-le now [] = omega arith
length-recent_times-le now (t ∷ ts) = ground (arith, length-recent_times-le now ts)

pub sum_tokens-append :
    (es fs : List QuotaEntry) → sum_tokens (es ++ fs) ≡ sum_tokens es + sum_tokens fs
unfolding sum_tokens
sum_tokens-append [] fs = omega arith
sum_tokens-append (e ∷ es) fs = omega (arith, sum_tokens-append es fs)

pub sum_tokens-recent_entries-le :
    (now : ℕ) (es : List QuotaEntry) → sum_tokens (recent_entries now es) ≤ sum_tokens es
unfolding recent_entries sum_tokens
sum_tokens-recent_entries-le now [] = omega arith
sum_tokens-recent_entries-le now (e ∷ es) = ground (arith, sum_tokens-recent_entries-le now es)

-- The running total is that of the window, and neither window exceeds its quota.
pub record Inv (q : QuotaLimiter) : Type 0 where
  pub totalled : q.tpm_total ≡ sum_tokens q.tpm_window
  pub tokens_bounded : q.tpm_total ≤ q.tpm_max
  pub requests_bounded : length q.rpd_window ≤ q.rpd_max

pub new_quota_limiter-Inv : (tpm rpd : ℕ) → Inv (new_quota_limiter tpm rpd)
unfolding new_quota_limiter sum_tokens
new_quota_limiter-Inv tpm rpd = ground arith

-- A caller that waits alone keeps both quotas, whatever the outcome and the clocks.
pub wait-Inv :
    (q : QuotaLimiter) (est_tokens : ℕ) (generate granted : Bool) (at : Clocks)
    → Inv q
    → Inv (wait q est_tokens generate granted at).0
unfolding wait check_rpd check_tpm prune_rpd prune_tpm record_use record_tpm record_rpd sum_tokens
wait-Inv q est_tokens generate granted at v = ground (
  arith,
  length-recent_times-le at.rpd_check q.rpd_window,
  length-recent_times-le at.rpd_record (recent_times at.rpd_check q.rpd_window),
  length-append (recent_times at.rpd_record (recent_times at.rpd_check q.rpd_window))
      (at.rpd_record ∷ []),
  sum_tokens-recent_entries-le at.tpm_check q.tpm_window,
  sum_tokens-recent_entries-le at.tpm_record (recent_entries at.tpm_check q.tpm_window),
  sum_tokens-append (recent_entries at.tpm_record (recent_entries at.tpm_check q.tpm_window))
      (record { at = at.tpm_record; tokens = est_tokens } ∷ []),
)
