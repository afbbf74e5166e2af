-- ===== src/Quota/Race.antt =====
-- Callers that wait at the same time (internal/gemini/limiter.go): `wait` checks the quotas under
-- one lock, waits for the token bucket, which holds one token, and records the use under another lock;
-- others run between any two of these.
use bidshard_lead_miner.Common.{
  ℕ, zero, suc, ◌+◌, ◌*◌, ◌≤◌, ◌<◌, ◌≡◌, refl, ap, ◌∙◌, Bool, true, ◌&&◌, List, [], ◌∷◌, ◌++◌,
  length, arith, length-append,
}
use bidshard_lead_miner.Quota.{
  QuotaLimiter, Clocks, day, recent_times, recent_entries, sum_tokens, prune_rpd, prune_tpm,
  check_rpd, check_tpm, record_tpm, record_rpd, record_use, new_quota_limiter,
}
use bidshard_lead_miner.Quota.Rolling.{recent_times-append}

-- The limiter, how many callers have passed the checks and not yet recorded their use, the time of
-- the last step, and the time from which the bucket has its token.
pub record Shared : Type 0 where
  pub limiter : QuotaLimiter
  pub inside : ℕ
  pub clock : ℕ
  pub token_at : ℕ

abbrev pub checked : QuotaLimiter → ℕ → Clocks → QuotaLimiter × Bool
checked q est_tokens at =
    let (q₁, rpd_ok) = check_rpd q at.rpd_check in
    let (q₂, tpm_ok) = check_tpm q₁ est_tokens at.tpm_check in (q₂, rpd_ok && tpm_ok)

abbrev pub once : ℕ → Clocks
once now = record { rpd_check = now; tpm_check = now; tpm_record = now; rpd_record = now }

-- A caller passes the checks, or takes the token of the bucket, which has the next one after
-- `interval`, and records its use.
pub data Step (interval est_tokens : ℕ) (s t : Shared) : Type 0 where
  enter :
      (now : ℕ)
      → s.clock ≤ now
      → (checked s.limiter est_tokens (once now)).1 ≡ true
      → t ≡ record {
        limiter = (checked s.limiter est_tokens (once now)).0;
        inside = suc s.inside;
        clock = now;
        token_at = s.token_at;
      }
      → Step interval est_tokens s t
  leave :
      (now k : ℕ)
      → s.clock ≤ now
      → s.token_at ≤ now
      → s.inside ≡ suc k
      → t ≡ record {
        limiter = record_use s.limiter est_tokens true (once now);
        inside = k;
        clock = now;
        token_at = now + interval;
      }
      → Step interval est_tokens s t

pub data Reach (interval est_tokens : ℕ) (s : Shared) : Shared → Type 0 where
  here : Reach interval est_tokens s s
  next :
      {t u : Shared}
      → Reach interval est_tokens s t
      → Step interval est_tokens t u
      → Reach interval est_tokens s u

module _ (tpm rpd interval est_tokens now : ℕ) where
  abbrev pub crowd : ℕ → Shared
  crowd n = record { limiter = new_quota_limiter tpm rpd; inside = n; clock = now; token_at = now }

  -- Checks leave a limiter without uses as it is.
  checked_new :
      est_tokens ≤ (new_quota_limiter tpm rpd).tpm_max
      → checked (new_quota_limiter tpm rpd) est_tokens (once now)
        ≡ (new_quota_limiter tpm rpd, true)
  unfolding check_rpd check_tpm prune_rpd prune_tpm recent_times recent_entries sum_tokens
      new_quota_limiter
  checked_new h = ground arith

  Reach-crowd :
      est_tokens ≤ (new_quota_limiter tpm rpd).tpm_max
      → (n : ℕ) → Reach interval est_tokens (crowd 0) (crowd n)
  Reach-crowd h zero = here
  Reach-crowd h (suc n) =
      next (Reach-crowd h n)
        (enter now (omega arith) (ground (arith, checked_new h)) (ground (arith, checked_new h)))

  -- The time at which the bucket has its token for the caller after `k` others.
  granted : ℕ → ℕ
  granted zero = now
  granted (suc k) = granted k + interval

  granted_eq : (k : ℕ) → granted k ≡ now + k * interval
  unfolding granted
  granted_eq zero = omega arith
  granted_eq (suc k) = grind (arith, granted_eq k)

  -- After `k` of the crowd have recorded their use, where `n` are left.
  recorded : ℕ → QuotaLimiter
  unfolding granted
  recorded zero = new_quota_limiter tpm rpd
  recorded (suc k) = record_use (recorded k) est_tokens true (once (granted k))

  last_grant : ℕ → ℕ
  unfolding granted
  last_grant zero = now
  last_grant (suc k) = granted k

  after : ℕ → ℕ → Shared
  unfolding recorded granted last_grant
  after k n = record {
    limiter = recorded k;
    inside = n;
    clock = last_grant k;
    token_at = granted k;
  }

  last_grant_le : (k : ℕ) → last_grant k ≤ granted k
  unfolding last_grant granted
  last_grant_le zero = omega arith
  last_grant_le (suc k) = omega arith

  Reach-after :
      est_tokens ≤ (new_quota_limiter tpm rpd).tpm_max
      → (k n : ℕ) → Reach interval est_tokens (crowd 0) (after k n)
  unfolding recorded granted last_grant after
  Reach-after h zero n = Reach-crowd h n
  Reach-after h (suc k) n =
      next (Reach-after h k (suc n)) (leave (granted k) n (last_grant_le k) (omega arith) refl refl)

  granted_after : (k : ℕ) → now ≤ granted k
  unfolding granted
  granted_after zero = omega arith
  granted_after (suc k) = omega (arith, granted_after k)

  recent_one : (at t : ℕ) → t < at + day → recent_times t (at ∷ []) ≡ at ∷ []
  unfolding recent_times
  recent_one at t h = ground (arith, h)

  -- While a day has not passed, no use leaves the window.
  recorded_window :
      (k : ℕ)
      → granted k < now + day
      → let w = (recorded k).rpd_window in
        (length w ≡ k) × ((t : ℕ) → t < now + day → recent_times t w ≡ w)
  unfolding recorded granted record_use record_rpd record_tpm prune_rpd prune_tpm new_quota_limiter
      recent_times
  recorded_window zero h = (refl, λ t soon. refl)
  recorded_window (suc k) h =
      let w = (recorded k).rpd_window in
      let soon : granted k < now + day = omega (arith, h) in
      let (size, same) = recorded_window k soon in
      (
        omega (
          arith,
          ap length (same (granted k) soon),
          size,
          length-append (recent_times (granted k) w) (granted k ∷ []),
        ),
        λ t late. rw (same (granted k) soon) (
            recent_times-append t w (granted k ∷ [])
            ∙ rw (same t late) (
                ap (λ (l : List ℕ). w ++ l)
                  (recent_one (granted k) t (omega (arith, late, granted_after k))))),
      )

  -- The defect: whatever the daily quota is, any number of callers that ask for no more tokens than
  -- the quota of a minute can pass the checks together and then all go through, one after another as
  -- the bucket lets them, if it has given them all a token before a day has passed.
  pub crowd_exceeds_rpd :
      (n : ℕ)
      → est_tokens ≤ (new_quota_limiter tpm rpd).tpm_max
      → n * interval < day
      → (s : Shared) × Reach interval est_tokens (crowd 0) s
        × (s.inside ≡ 0)
        × (length (recent_times (now + n * interval) s.limiter.rpd_window) ≡ n)
  unfolding after
  crowd_exceeds_rpd n h soon =
      let in_time : granted n < now + day = omega (arith, granted_eq n, soon) in
      let (size, same) = recorded_window n in_time in
      (
        after n 0,
        Reach-after h n 0,
        refl,
        ap length (same (now + n * interval) (omega (arith, soon))) ∙ size,
      )
