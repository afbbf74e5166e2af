-- ===== src/Pipeline/Rounds.antt =====
-- The counters of a round (internal/pipeline/stats.go), the worker that counts an outcome
-- (worker.go), and the queue that counts what it has no room for (enqueue.go).
pub mod Laws
pub mod Top
pub mod Race
mod Tests
use bidshard_lead_miner.Common.{
  ℕ, zero, suc, ◌+◌, Bool, true, false, List, [], ◌∷◌, ◌++◌, Option, none, some, String,
  if◌then◌else◌, ltb, leb, ◌==◌, ◌&&◌, ◌||◌, take, length,
}
use bidshard_lead_miner.Common.Text.{str_lt}
use bidshard_lead_miner.Pipeline.Types.{Reason, Lead, Priority, low, medium, high, ProcessOutcome}

-- `tracked` is the counter of the wait group; the lead `none` is the zero lead.
pub record RoundState : Type 0 where
  pub raw_total : ℕ
  pub accepted : ℕ
  pub rejected_geo : ℕ
  pub hard_rejected : ℕ
  pub dedup : ℕ
  pub dropped : ℕ
  pub high : ℕ
  pub medium : ℕ
  pub low : ℕ
  pub rejected_blacklist : ℕ
  pub rejected_intel_only : ℕ
  pub rejected_lander_no_buyer : ℕ
  pub rejected_github_vendor : ℕ
  pub rejected_telegram_spam : ℕ
  pub rejected_low_priority : ℕ
  pub rejected_icp : ℕ
  pub rejected_intent : ℕ
  pub rejected_lang : ℕ
  pub rejected_context : ℕ
  pub rejected_contact : ℕ
  pub rejected_no_contacts : ℕ
  pub rejected_no_reachable_contact : ℕ
  pub rejected_email_no_context : ℕ
  pub rejected_role_email : ℕ
  pub rejected_empty_hash : ℕ
  pub rejected_mx : ℕ
  pub rejected_store : ℕ
  pub sources_ok : ℕ
  pub sources_fail : ℕ
  pub leads : List (Option Lead)
  pub tracked : ℕ

-- The zero value.
abbrev pub new_round : RoundState
new_round = record {
  raw_total = 0;
  accepted = 0;
  rejected_geo = 0;
  hard_rejected = 0;
  dedup = 0;
  dropped = 0;
  high = 0;
  medium = 0;
  low = 0;
  rejected_blacklist = 0;
  rejected_intel_only = 0;
  rejected_lander_no_buyer = 0;
  rejected_github_vendor = 0;
  rejected_telegram_spam = 0;
  rejected_low_priority = 0;
  rejected_icp = 0;
  rejected_intent = 0;
  rejected_lang = 0;
  rejected_context = 0;
  rejected_contact = 0;
  rejected_no_contacts = 0;
  rejected_no_reachable_contact = 0;
  rejected_email_no_context = 0;
  rejected_role_email = 0;
  rejected_empty_hash = 0;
  rejected_mx = 0;
  rejected_store = 0;
  sources_ok = 0;
  sources_fail = 0;
  leads = [];
  tracked = 0;
}

unfoldable pub track_task : RoundState → RoundState
track_task s = record s { tracked = suc s.tracked }

-- `none` is the panic of a wait group below zero.
unfoldable pub finish_task : RoundState → Option RoundState
finish_task s = elim s.tracked [ zero ↦ none | suc n ↦ some (record s { tracked = n }) ]

unfoldable pub add_lead : RoundState → Option Lead → RoundState
add_lead s lead = record s { leads = s.leads ++ lead ∷ [] }

-- `none` is the reason "dropped"; a reason that has no counter of its own is counted as dropped.
unfoldable pub record_round_reject : RoundState → Option Reason → RoundState
record_round_reject s (some Reason.geo) = record s { rejected_geo = suc s.rejected_geo }
record_round_reject s (some Reason.hard_reject) = record s { hard_rejected = suc s.hard_rejected }
record_round_reject s (some Reason.dedup) = record s { dedup = suc s.dedup }
record_round_reject s (some Reason.mx) = record s { rejected_mx = suc s.rejected_mx }
record_round_reject s (some Reason.blacklist) = record s {
  rejected_blacklist = suc s.rejected_blacklist;
}
record_round_reject s (some Reason.intel_only) = record s {
  rejected_intel_only = suc s.rejected_intel_only;
}
record_round_reject s (some Reason.lander_no_buyer_signal) = record s {
  rejected_lander_no_buyer = suc s.rejected_lander_no_buyer;
}
record_round_reject s (some Reason.github_vendor) = record s {
  rejected_github_vendor = suc s.rejected_github_vendor;
}
record_round_reject s (some Reason.telegram_spam) = record s {
  rejected_telegram_spam = suc s.rejected_telegram_spam;
}
record_round_reject s (some Reason.low_priority) = record s {
  rejected_low_priority = suc s.rejected_low_priority;
}
record_round_reject s (some Reason.icp) = record s { rejected_icp = suc s.rejected_icp }
record_round_reject s (some Reason.intent) = record s { rejected_intent = suc s.rejected_intent }
record_round_reject s (some Reason.lang) = record s { rejected_lang = suc s.rejected_lang }
record_round_reject s (some Reason.context) = record s { rejected_context = suc s.rejected_context }
record_round_reject s (some Reason.author_seller) = record s {
  rejected_context = suc s.rejected_context;
}
record_round_reject s (some Reason.instant_drop) = record s { hard_rejected = suc s.hard_rejected }
record_round_reject s (some Reason.contact) = record s { rejected_contact = suc s.rejected_contact }
record_round_reject s (some Reason.no_contacts) = record s {
  rejected_no_contacts = suc s.rejected_no_contacts;
}
record_round_reject s (some Reason.no_reachable_contact) = record s {
  rejected_no_reachable_contact = suc s.rejected_no_reachable_contact;
}
record_round_reject s (some Reason.email_no_context) = record s {
  rejected_email_no_context = suc s.rejected_email_no_context;
}
record_round_reject s (some Reason.role_email) = record s {
  rejected_role_email = suc s.rejected_role_email;
}
record_round_reject s (some Reason.empty_hash) = record s {
  rejected_empty_hash = suc s.rejected_empty_hash;
}
record_round_reject s (some Reason.store_error) = record s { rejected_store = suc s.rejected_store }
record_round_reject s _ = record s { dropped = suc s.dropped }

-- The switch on the priority of an accepted lead; the zero lead counts as low.
unfoldable pub count_accepted : RoundState → Option Lead → RoundState
count_accepted s none = record s { low = suc s.low }
count_accepted s (some lead) = elim lead.priority [
  | Priority.high ↦ record s { high = suc s.high }
  | Priority.medium ↦ record s { medium = suc s.medium }
  | Priority.low ↦ record s { low = suc s.low }
]

-- What `Pool.process` makes of an outcome.
unfoldable pub count_outcome : RoundState → ProcessOutcome → RoundState
count_outcome s out =
    if out.rejected_geo
    then record_round_reject s (some Reason.geo)
    else if out.hard_rejected
    then record_round_reject s (some Reason.hard_reject)
    else if out.dedup_hit
    then record_round_reject s (some Reason.dedup)
    else if out.dropped_mx
    then record_round_reject s (some Reason.mx)
    else if out.accepted
    then add_lead (count_accepted (record s { accepted = suc s.accepted }) out.lead) out.lead
    else record_round_reject s out.reject_reason

-- `Pool.process`, of a task with statistics; `has_processor` says that the pool has one.
unfoldable pub pool_process : Bool → Bool → RoundState → ProcessOutcome → Option RoundState
pool_process cancelled has_processor s out =
    let s' = record s { raw_total = suc s.raw_total } in
    finish_task (if cancelled then s else if has_processor then count_outcome s' out else s')

-- What `TryEnqueue` returns.
pub data Enqueued : Type 0 where
  queued task_channel_full context_done : Enqueued

-- `TryEnqueue`; `room` says that the channel takes the task.
unfoldable pub try_enqueue : Bool → Bool → RoundState → RoundState × Enqueued
try_enqueue cancelled room s =
    if cancelled
    then (s, context_done)
    else if room
    then (track_task s, queued)
    else (record s { dropped = suc s.dropped }, task_channel_full)

-- The buckets of `TopRejectReasons`.
unfoldable pub buckets : RoundState → List (String × ℕ)
buckets s =
    ("geo", s.rejected_geo)
    ∷ ("hard_reject", s.hard_rejected)
    ∷ ("dedup", s.dedup)
    ∷ ("blacklist", s.rejected_blacklist)
    ∷ ("intel_only", s.rejected_intel_only)
    ∷ ("lander_no_buyer_signal", s.rejected_lander_no_buyer)
    ∷ ("github_vendor", s.rejected_github_vendor)
    ∷ ("telegram_spam", s.rejected_telegram_spam)
    ∷ ("low_priority", s.rejected_low_priority)
    ∷ ("icp", s.rejected_icp)
    ∷ ("intent", s.rejected_intent)
    ∷ ("lang", s.rejected_lang)
    ∷ ("context", s.rejected_context)
    ∷ ("contact", s.rejected_contact)
    ∷ ("no_contacts", s.rejected_no_contacts)
    ∷ ("no_reachable_contact", s.rejected_no_reachable_contact)
    ∷ ("email_no_context", s.rejected_email_no_context)
    ∷ ("role_email", s.rejected_role_email)
    ∷ ("empty_hash", s.rejected_empty_hash)
    ∷ ("mx", s.rejected_mx)
    ∷ ("store_error", s.rejected_store)
    ∷ ("dropped", s.dropped)
    ∷ []

-- `count <= 0` is skipped.
pub positive : List (String × ℕ) → List (String × ℕ)
positive [] = []
positive ((reason, count) ∷ rest) =
    let rest' = positive rest in if count == 0 then rest' else (reason, count) ∷ rest'

-- The comparison of `sort.Slice`: by count, the largest first, then by reason.
abbrev pub before : String × ℕ → String × ℕ → Bool
before (r, m) (q, n) = if m == n then str_lt r q else ltb n m

pub insert_pair : String × ℕ → List (String × ℕ) → List (String × ℕ)
insert_pair a [] = a ∷ []
insert_pair a (b ∷ bs) = let rest = insert_pair a bs in if before b a then b ∷ rest else a ∷ b ∷ bs

pub sort_pairs : List (String × ℕ) → List (String × ℕ)
sort_pairs [] = []
sort_pairs (a ∷ rest) = insert_pair a (sort_pairs rest)

-- `topRejectReasons`, before the pairs are written as texts.
pub top_reject_reasons : List (String × ℕ) → ℕ → List (String × ℕ)
top_reject_reasons reasons n =
    let pairs = sort_pairs (positive reasons) in
    if ltb 0 n && ltb n (length pairs) then take n pairs else pairs
