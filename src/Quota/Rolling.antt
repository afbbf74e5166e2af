-- ===== src/Quota/Rolling.antt =====
-- The windows against all the uses ever granted (internal/gemini/limiter.go).
use bidshard_lead_miner.Common.{
  ℕ, ◌≤◌, ◌≡◌, refl, Bool, true, false, List, [], ◌∷◌, ◌++◌, if◌then◌else◌, length, arith, ap,
}
use bidshard_lead_miner.Quota.{
  QuotaEntry, QuotaLimiter, Clocks, WaitResult, ok, recent_times, recent_entries, sum_tokens,
  prune_rpd, prune_tpm, check_rpd, check_tpm, record_tpm, record_rpd, record_use, wait,
  new_quota_limiter,
}
use bidshard_lead_miner.Quota.Window.{
  Inv, new_quota_limiter-Inv, wait-Inv, length-recent_times-le, sum_tokens-recent_entries-le,
}

pub recent_times-append :
    (now : ℕ) (ts us : List ℕ)
    → recent_times now (ts ++ us) ≡ recent_times now ts ++ recent_times now us
unfolding recent_times
recent_times-append now [] us = refl
recent_times-append now (t ∷ ts) us = ground (arith, recent_times-append now ts us)

pub recent_times-recent_times :
    (before now : ℕ) (ts : List ℕ)
    → before ≤ now
    → recent_times now (recent_times before ts) ≡ recent_times now ts
unfolding recent_times
recent_times-recent_times before now [] h = refl
recent_times-recent_times before now (t ∷ ts) h =
    ground (arith, recent_times-recent_times before now ts h)

recent_entries-append :
    (now : ℕ) (es fs : List QuotaEntry)
    → recent_entries now (es ++ fs) ≡ recent_entries now es ++ recent_entries now fs
unfolding recent_entries
recent_entries-append now [] fs = refl
recent_entries-append now (e ∷ es) fs = ground (arith, recent_entries-append now es fs)

recent_entries-recent_entries :
    (before now : ℕ) (es : List QuotaEntry)
    → before ≤ now
    → recent_entries now (recent_entries before es) ≡ recent_entries now es
unfolding recent_entries
recent_entries-recent_entries before now [] h = refl
recent_entries-recent_entries before now (e ∷ es) h =
    ground (arith, recent_entries-recent_entries before now es h)

-- One call of `wait`.
pub record Call : Type 0 where
  pub est_tokens : ℕ
  pub generate : Bool
  pub granted : Bool
  pub at : Clocks

abbrev pub call : QuotaLimiter → Call → QuotaLimiter × WaitResult
call q c = wait q c.est_tokens c.generate c.granted c.at

-- Calls one after another, the latest first.
unfoldable pub replay : QuotaLimiter → List Call → QuotaLimiter
replay q [] = q
replay q (c ∷ past) = (call (replay q past) c).0

abbrev was_ok : WaitResult → Bool
was_ok ok = true
was_ok _ = false

-- The times of the requests that went through, and their tokens, the earliest first.
unfoldable pub requests : QuotaLimiter → List Call → List ℕ
requests q [] = []
requests q (c ∷ past) =
    let before = requests q past in
    if was_ok (call (replay q past) c).1 then before ++ c.at.rpd_record ∷ [] else before

unfoldable pub uses : QuotaLimiter → List Call → List QuotaEntry
uses q [] = []
uses q (c ∷ past) =
    let before = uses q past in
    if was_ok (call (replay q past) c).1
    then before ++ record { at = c.at.tpm_record; tokens = c.est_tokens } ∷ []
    else before

-- The clock does not go back.
abbrev pub InOrder : ℕ → List Call → Type 0
InOrder now [] = Unit {0}
InOrder now (c ∷ past) =
    (c.at.rpd_check ≤ c.at.tpm_check)
    × (c.at.tpm_check ≤ c.at.tpm_record)
    × (c.at.tpm_record ≤ c.at.rpd_record)
    × (c.at.rpd_record ≤ now)
    × InOrder c.at.rpd_check past

record Follows (q : QuotaLimiter) (times : List ℕ) (entries : List QuotaEntry) (now : ℕ)
    : Type 0 where
  times_same : recent_times now q.rpd_window ≡ recent_times now times
  entries_same : recent_entries now q.tpm_window ≡ recent_entries now entries

wait-Follows :
    (q : QuotaLimiter) (c : Call) (now : ℕ) (times : List ℕ) (entries : List QuotaEntry)
    → c.at.rpd_check ≤ now
    → c.at.tpm_check ≤ now
    → c.at.tpm_record ≤ now
    → c.at.rpd_record ≤ now
    → Follows q times entries now
    → let (q', r) = call q c in
      Follows q'
        (if was_ok r then times ++ c.at.rpd_record ∷ [] else times)
        (if was_ok r
          then entries ++ record { at = c.at.tpm_record; tokens = c.est_tokens } ∷ []
          else entries)
        now
unfolding wait check_rpd check_tpm prune_rpd prune_tpm record_use record_tpm record_rpd
wait-Follows q c now times entries h₁ h₂ h₃ h₄ f =
    let kept = recent_times c.at.rpd_check q.rpd_window in
    let used = recent_entries c.at.tpm_check q.tpm_window in
    let entry : QuotaEntry = record { at = c.at.tpm_record; tokens = c.est_tokens } in
    record {
      times_same = ground (
        arith,
        f.times_same,
        recent_times-recent_times c.at.rpd_check now q.rpd_window h₁,
        recent_times-recent_times c.at.rpd_record now kept h₄,
        recent_times-append now (recent_times c.at.rpd_record kept) (c.at.rpd_record ∷ []),
        recent_times-append now times (c.at.rpd_record ∷ []),
      );
      entries_same = ground (
        arith,
        f.entries_same,
        recent_entries-recent_entries c.at.tpm_check now q.tpm_window h₂,
        recent_entries-recent_entries c.at.tpm_record now used h₃,
        recent_entries-append now (recent_entries c.at.tpm_record used) (entry ∷ []),
        recent_entries-append now entries (entry ∷ []),
      );
    }

InOrder-mono : (now later : ℕ) (cs : List Call) → now ≤ later → InOrder now cs → InOrder later cs
InOrder-mono now later [] l o = tt
InOrder-mono now later (c ∷ past) l o = (o.0, o.1, o.2, omega arith, o.4)

module _ (tpm rpd : ℕ) where
  replay-Inv : (cs : List Call) → Inv (replay (new_quota_limiter tpm rpd) cs)
  unfolding replay
  replay-Inv [] = new_quota_limiter-Inv tpm rpd
  replay-Inv (c ∷ past) = wait-Inv _ c.est_tokens c.generate c.granted c.at (replay-Inv past)

  replay-Follows :
      (cs : List Call) (now : ℕ)
      → InOrder now cs
      → let q = new_quota_limiter tpm rpd in Follows (replay q cs) (requests q cs) (uses q cs) now
  unfolding replay requests uses new_quota_limiter
  replay-Follows [] now o = record { times_same = refl; entries_same = refl }
  replay-Follows (c ∷ past) now o =
      wait-Follows _ c now _ _ (omega arith) (omega arith) (omega arith) (omega arith)
        (replay-Follows past now (InOrder-mono c.at.rpd_check now past (omega arith) o.4))

  same_config :
      (cs : List Call)
      → let q = new_quota_limiter tpm rpd in
        ((replay q cs).rpd_max ≡ q.rpd_max) × ((replay q cs).tpm_max ≡ q.tpm_max)
  unfolding replay wait check_rpd check_tpm prune_rpd prune_tpm record_use record_tpm record_rpd
  same_config [] = (refl, refl)
  same_config (c ∷ past) = ground (arith, same_config past)

  -- While callers wait one after another and the clock does not go back, at most the daily quota
  -- of requests went through in the last day, and at most the quota of tokens in the last minute,
  -- counted over every call ever made.
  pub rolling_quotas :
      (cs : List Call) (now : ℕ)
      → InOrder now cs
      → let q = new_quota_limiter tpm rpd in
        (length (recent_times now (requests q cs)) ≤ q.rpd_max)
        × (sum_tokens (recent_entries now (uses q cs)) ≤ q.tpm_max)
  rolling_quotas cs now o =
      let q = replay (new_quota_limiter tpm rpd) cs in
      let f = replay-Follows cs now o in
      let v = replay-Inv cs in
      omega (
        arith,
        ap length f.times_same,
        ap sum_tokens f.entries_same,
        length-recent_times-le now q.rpd_window,
        sum_tokens-recent_entries-le now q.tpm_window,
        v,
        same_config cs,
      )
