-- ===== src/Quota.antt =====
-- The quotas of the Gemini client (internal/gemini/limiter.go and priority.go): a rolling window
-- of tokens, a rolling window of requests, and the split of the requests per minute. The token
-- buckets are `golang.org/x/time/rate`: whether a bucket lets a caller through before the context
-- ends is an argument. Each reading of the clock is an argument too; times, tokens and counters
-- are unbounded numbers.
pub mod Window
pub mod Rolling
pub mod Split
pub mod Race
mod Tests
use bidshard_lead_miner.Common.{
  ℕ, suc, ◌+◌, ◌*◌, ◌/◌, Bool, true, false, List, [], ◌∷◌, ◌++◌, ltb, leb, ◌==◌, if◌then◌else◌,
  length,
}

abbrev pub second : ℕ
second = 1000000000

abbrev pub minute : ℕ
minute = 60 * second

abbrev pub day : ℕ
day = 24 * 3600 * second

pub record QuotaEntry : Type 0 where
  pub at : ℕ
  pub tokens : ℕ

pub record QuotaStats : Type 0 where
  pub generate_waits : ℕ
  pub embed_waits : ℕ
  pub rpd_throttles : ℕ
  pub tpm_throttles : ℕ
  pub daily_used : ℕ

pub record QuotaLimiter : Type 0 where
  pub tpm_max : ℕ
  pub tpm_window : List QuotaEntry
  pub tpm_total : ℕ
  pub rpd_max : ℕ
  pub rpd_window : List ℕ
  pub stats : QuotaStats

-- `t.After(now.Add(-span))`
abbrev pub is_recent : ℕ → ℕ → ℕ → Bool
is_recent span now t = ltb now (t + span)

pub recent_times : ℕ → List ℕ → List ℕ
recent_times now [] = []
recent_times now (t ∷ ts) =
    let rest = recent_times now ts in if is_recent day now t then t ∷ rest else rest

pub prune_rpd : QuotaLimiter → ℕ → QuotaLimiter
prune_rpd q now = record q { rpd_window = recent_times now q.rpd_window }

pub recent_entries : ℕ → List QuotaEntry → List QuotaEntry
recent_entries now [] = []
recent_entries now (e ∷ es) =
    let rest = recent_entries now es in if is_recent minute now e.at then e ∷ rest else rest

pub sum_tokens : List QuotaEntry → ℕ
sum_tokens [] = 0
sum_tokens (e ∷ es) = e.tokens + sum_tokens es

pub prune_tpm : QuotaLimiter → ℕ → QuotaLimiter
prune_tpm q now =
    let window = recent_entries now q.tpm_window in
    record q { tpm_window = window; tpm_total = sum_tokens window }

-- The limiter after the check, and whether it passes.
pub check_rpd : QuotaLimiter → ℕ → QuotaLimiter × Bool
check_rpd q now = let q' = prune_rpd q now in (q', ltb (length q'.rpd_window) q'.rpd_max)

pub check_tpm : QuotaLimiter → ℕ → ℕ → QuotaLimiter × Bool
check_tpm q est_tokens now =
    let q' = prune_tpm q now in (q', leb (q'.tpm_total + est_tokens) q'.tpm_max)

pub record_tpm : QuotaLimiter → ℕ → ℕ → QuotaLimiter
record_tpm q est_tokens now =
    let q' = prune_tpm q now in
    record q' {
      tpm_window = q'.tpm_window ++ record { at = now; tokens = est_tokens } ∷ [];
      tpm_total = q'.tpm_total + est_tokens;
    }

pub record_rpd : QuotaLimiter → ℕ → QuotaLimiter
record_rpd q now = let q' = prune_rpd q now in record q' { rpd_window = q'.rpd_window ++ now ∷ [] }

pub data WaitResult : Type 0 where
  ok rpd_exceeded tpm_exceeded cancelled : WaitResult

-- The readings of the clock by one `wait`.
pub record Clocks : Type 0 where
  pub rpd_check : ℕ
  pub tpm_check : ℕ
  pub tpm_record : ℕ
  pub rpd_record : ℕ

throttle_rpd : QuotaStats → QuotaStats
throttle_rpd s = record s { rpd_throttles = s.rpd_throttles + 1 }

throttle_tpm : QuotaStats → QuotaStats
throttle_tpm s = record s { tpm_throttles = s.tpm_throttles + 1 }

count_wait : QuotaStats → Bool → QuotaStats
count_wait s true = record s { generate_waits = s.generate_waits + 1 }
count_wait s false = record s { embed_waits = s.embed_waits + 1 }

-- The last part of `wait`, under one lock.
pub record_use : QuotaLimiter → ℕ → Bool → Clocks → QuotaLimiter
record_use q est_tokens generate at =
    record_rpd
      (record_tpm (record q { stats = count_wait q.stats generate }) est_tokens at.tpm_record)
      at.rpd_record

-- `granted`: the bucket's `Wait` returned no error.
pub wait : QuotaLimiter → ℕ → Bool → Bool → Clocks → QuotaLimiter × WaitResult
wait q est_tokens generate granted at =
    let (q₁, rpd_ok) = check_rpd q at.rpd_check in
    let (q₂, tpm_ok) = check_tpm q₁ est_tokens at.tpm_check in
    if rpd_ok
    then if tpm_ok
      then if granted then (record_use q₂ est_tokens generate at, ok) else (q₂, cancelled)
      else (record q₂ { stats = throttle_tpm q₂.stats }, tpm_exceeded)
    else (record q₁ { stats = throttle_rpd q₁.stats }, rpd_exceeded)

pub stats_of : QuotaLimiter → QuotaStats
stats_of q = record q.stats { daily_used = length q.rpd_window }

pub data Priority : Type 0 where
  critical high normal low : Priority

-- A bucket stands for each priority; `bucket p` says whether that one lets the caller through.
pub wait_generate :
    QuotaLimiter → Priority → ℕ → (Priority → Bool) → Clocks → QuotaLimiter × WaitResult
wait_generate q priority est_tokens bucket at = wait q est_tokens true (bucket priority) at

pub wait_embed : QuotaLimiter → ℕ → Bool → Clocks → QuotaLimiter × WaitResult
wait_embed q est_tokens granted at = wait q est_tokens false granted at

-- The percentages of the requests per minute.
pub record QuotaSplit : Type 0 where
  pub critical_pct : ℕ
  pub high_pct : ℕ
  pub normal_pct : ℕ
  pub low_pct : ℕ

abbrev pub default_quota_split : QuotaSplit
default_quota_split = record { critical_pct = 20; high_pct = 40; normal_pct = 25; low_pct = 15 }

abbrev pub total_pct : QuotaSplit → ℕ
total_pct s = s.critical_pct + s.high_pct + s.normal_pct + s.low_pct

pub normalize : QuotaSplit → QuotaSplit
normalize s =
    if total_pct s == 100
    then (if ltb s.critical_pct 1 then record s { critical_pct = 1 } else s)
    else default_quota_split

abbrev pub pct_of : QuotaSplit → Priority → ℕ
pct_of s critical = s.critical_pct
pct_of s high = s.high_pct
pct_of s normal = s.normal_pct
pct_of s low = s.low_pct

pub rpm : QuotaSplit → ℕ → Priority → ℕ
rpm s total p =
    let share = (if total == 0 then 10 else total) * pct_of (normalize s) p / 100 in
    if ltb share 1 then 1 else share

-- What `NewQuotaLimiter` makes of a configuration: the rate of each bucket, and the limiter.
pub bucket_rpm : QuotaSplit → ℕ → Priority → ℕ
bucket_rpm s gen_rpm p = rpm (normalize s) (if gen_rpm == 0 then 10 else gen_rpm) p

pub new_quota_limiter : ℕ → ℕ → QuotaLimiter
new_quota_limiter tpm rpd = record {
  tpm_max = if tpm == 0 then 250000 else tpm;
  tpm_window = [];
  tpm_total = 0;
  rpd_max = if rpd == 0 then 1500 else rpd;
  rpd_window = [];
  stats = record {
    generate_waits = 0;
    embed_waits = 0;
    rpd_throttles = 0;
    tpm_throttles = 0;
    daily_used = 0;
  };
}
