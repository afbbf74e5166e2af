-- ===== src/Quota/Split.antt =====
-- The split of the requests per minute (internal/gemini/priority.go).
use bidshard_lead_miner.Common.{
  ℕ, ◌+◌, ◌*◌, ◌/◌, ◌≤◌, ◌<◌, ◌≡◌, ap, arith, ltb, ◌==◌, if◌then◌else◌,
}
use bidshard_lead_miner.Quota.{
  QuotaSplit, Priority, critical, high, normal, low, default_quota_split, total_pct, normalize,
  pct_of, rpm, bucket_rpm,
}

abbrev at_least_one : ℕ → ℕ
at_least_one n = if ltb n 1 then 1 else n

bucket_rpm-share :
    (s : QuotaSplit) (total : ℕ) (p : Priority)
    → total_pct s ≡ 100
    → 0 < s.critical_pct
    → 0 < total
    → bucket_rpm s total p ≡ at_least_one (total * pct_of s p / 100)
unfolding bucket_rpm rpm normalize
bucket_rpm-share s total p h c t = ground arith

shares :
    (t a b c d : ℕ)
    → t * (a + b + c + d) ≡ t * 100
    → 0 < t
    → let sum =
        at_least_one (t * a / 100)
        + at_least_one (t * b / 100)
        + at_least_one (t * c / 100)
        + at_least_one (t * d / 100) in
      (sum ≤ t + 3) × (t ≤ sum + 3)
shares t a b c d h p = ground arith

-- A split of a hundred per cent that leaves something to the critical requests, of a total that is
-- not 0, is used as it is: the four buckets together differ from the total by at most three
-- requests.
pub bucket_rpm_bounds :
    (s : QuotaSplit) (total : ℕ)
    → total_pct s ≡ 100
    → 0 < s.critical_pct
    → 0 < total
    → let sum =
        bucket_rpm s total critical
        + bucket_rpm s total high
        + bucket_rpm s total normal
        + bucket_rpm s total low in
      (sum ≤ total + 3) × (total ≤ sum + 3)
bucket_rpm_bounds s total h c t =
    rw
      (
        bucket_rpm-share s total critical h c t,
        bucket_rpm-share s total high h c t,
        bucket_rpm-share s total normal h c t,
        bucket_rpm-share s total low h c t,
      )
      (shares total _ _ _ _ (ap (λ (n : ℕ). total * n) h) t)

-- The defect: a split of a hundred per cent with nothing for the critical requests is normalised
-- twice, and every bucket gets the share of the default split.
pub bucket_rpm_critical_zero :
    (s : QuotaSplit) (total : ℕ) (p : Priority)
    → total_pct s ≡ 100
    → s.critical_pct ≡ 0
    → bucket_rpm s total p ≡ rpm default_quota_split (if total == 0 then 10 else total) p
unfolding bucket_rpm rpm normalize
bucket_rpm_critical_zero s total p h c = ground arith
