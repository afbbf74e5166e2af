-- ===== src/Scoring/Laws.antt =====
-- What the scores and ranks depend on (internal/scoring).
use bidshard_lead_miner.Common.{
  ℕ, suc, ◌+◌, ◌*◌, ◌/◌, ◌≤◌, ◌<◌, ◌≡◌, refl, ap, ◌∙◌, true, List, [], ◌∷◌, Option, none, some,
  String, string_discrete, ite, arith,
}
use bidshard_lead_miner.Common.Maps.{lookup, insert, lookup-insert}
use bidshard_lead_miner.Common.Int.{ℤ, pos, ◌+ℤ◌, ltb_ℤ, ◌≤ℤ◌}
use bidshard_lead_miner.Pipeline.Types.{Priority, low, medium, high}
use bidshard_lead_miner.Scoring.{
  hour, apply_time_decay, SourceCounts, SourceReputation, new_source_reputation, counts_of,
  record_accepted, record_junk, negated, dynamic_boost, boost, unset, ContactLine, email_line,
  handle_line, other_line, score_contact_quality, EngagePriorityInput, compute_engage_priority,
}

-- A score that is not negative never grows as its post gets older.
pub apply_time_decay_anti :
    (score : ℕ) (posted_at : Option ℕ) (now later : ℕ)
    → now ≤ later
    → apply_time_decay (pos score) posted_at later ≤ℤ apply_time_decay (pos score) posted_at now
unfolding apply_time_decay
apply_time_decay_anti score none now later h = ground arith
apply_time_decay_anti score (some posted_at) now later h = ground arith

-- The defect: a negative score grows with age. Below -10 it stays negative while the post is
-- younger than two days, and is 0 once the post is older than thirty.
pub apply_time_decay_lifts :
    (score : ℤ) (posted_at now later : ℕ)
    → ltb_ℤ (score +ℤ pos 10) (pos 0) ≡ true
    → now ≤ posted_at + 48 * hour
    → posted_at + 30 * 24 * hour < later
    → (ltb_ℤ (apply_time_decay score (some posted_at) now) (pos 0) ≡ true)
      × (apply_time_decay score (some posted_at) later ≡ pos 0)
unfolding apply_time_decay
apply_time_decay_lifts score posted_at now later h young old = ground arith

-- What was recorded of sources, the latest first.
pub data Verdict : Type 0 where
  accept junk : String → Verdict

unfoldable pub replay : List Verdict → SourceReputation
replay [] = new_source_reputation
replay (accept key ∷ past) = record_accepted (replay past) key
replay (junk key ∷ past) = record_junk (replay past) key

-- How many of them are of one source.
unfoldable pub tally : String → List Verdict → SourceCounts
tally key [] = record { accepted = 0; junk = 0 }
tally key (accept other ∷ past) =
    let c = tally key past in
    ite (string_discrete other key) (record c { accepted = suc c.accepted }) c
tally key (junk other ∷ past) =
    let c = tally key past in ite (string_discrete other key) (record c { junk = suc c.junk }) c

counts_of-insert :
    (r : SourceReputation) (other key : String) (c : SourceCounts)
    → counts_of (record r { counts = insert string_discrete other c r.counts }) key
      ≡ ite (string_discrete other key) c (counts_of r key)
unfolding counts_of
counts_of-insert r other key c = ground (arith, lookup-insert string_discrete other key c r.counts)

-- To write the counts of a key, made from those that it has, or those of another key.
ite-counts :
    (f : SourceCounts → SourceCounts) (count : String → SourceCounts) (other key : String)
    (d : Dec (other ≡ key))
    → ite d (f (count other)) (count key) ≡ ite d (f (count key)) (count key)
ite-counts f count other key (yes e) = ap (λ k. f (count k)) e
ite-counts f count other key (no _) = refl

accepted_more : SourceCounts → SourceCounts
accepted_more c = record c { accepted = suc c.accepted }

junk_more : SourceCounts → SourceCounts
junk_more c = record c { junk = suc c.junk }

counts_of-new :
    (key : String) → counts_of new_source_reputation key ≡ record { accepted = 0; junk = 0 }
unfolding counts_of lookup
counts_of-new key = refl

recorded-accept :
    (r : SourceReputation) (other key : String)
    → counts_of (record_accepted r other) key
      ≡ ite (string_discrete other key) (accepted_more (counts_of r key)) (counts_of r key)
unfolding record_accepted accepted_more
recorded-accept r other key =
    counts_of-insert r other key _
    ∙ ite-counts accepted_more (counts_of r) other key (string_discrete other key)

recorded-junk :
    (r : SourceReputation) (other key : String)
    → counts_of (record_junk r other) key
      ≡ ite (string_discrete other key) (junk_more (counts_of r key)) (counts_of r key)
unfolding record_junk junk_more
recorded-junk r other key =
    counts_of-insert r other key _
    ∙ ite-counts junk_more (counts_of r) other key (string_discrete other key)

max_boost-replay : (past : List Verdict) → (replay past).max_boost ≡ 8
unfolding replay record_accepted record_junk
max_boost-replay [] = refl
max_boost-replay (accept key ∷ past) = max_boost-replay past
max_boost-replay (junk key ∷ past) = max_boost-replay past

counts_of-replay :
    (key : String) (past : List Verdict) → counts_of (replay past) key ≡ tally key past
unfolding replay tally accepted_more junk_more
counts_of-replay key [] = counts_of-new key
counts_of-replay key (accept other ∷ past) =
    recorded-accept (replay past) other key
    ∙ ap (λ c. ite (string_discrete other key) (accepted_more c) c) (counts_of-replay key past)
counts_of-replay key (junk other ∷ past) =
    recorded-junk (replay past) other key
    ∙ ap (λ c. ite (string_discrete other key) (junk_more c) c) (counts_of-replay key past)

-- The dynamic part of a boost is within the limit above and half of it below.
dynamic_boost-bounds :
    (c : SourceCounts) (max : ℕ)
    → (negated (max / 2) ≤ℤ dynamic_boost c max) × (dynamic_boost c max ≤ℤ pos max)
unfolding dynamic_boost
dynamic_boost-bounds c max = ground arith

-- After any verdicts, without a database the boost of a source is its static one and that of its
-- own verdicts alone, which adds at most eight and takes at most four.
pub boost-replay :
    (past : List Verdict) (key : String) (base : ℤ)
    → (boost (replay past) key base none ≡ base +ℤ dynamic_boost (tally key past) 8)
      × (negated 4 ≤ℤ dynamic_boost (tally key past) 8)
      × (dynamic_boost (tally key past) 8 ≤ℤ pos 8)
unfolding boost
boost-replay past key base =
    let (low_end, high_end) = dynamic_boost-bounds (tally key past) 8 in
    (ground (arith, counts_of-replay key past, max_boost-replay past), low_end, high_end)

-- The order of the priorities.
unfoldable pub priority_rank : Priority → ℕ
priority_rank low = 0
priority_rank medium = 1
priority_rank high = 2

-- A higher priority never ranks lower in the queue, all else equal.
pub compute_engage_priority_mono :
    (i : EngagePriorityInput) (better : Priority)
    → priority_rank i.priority ≤ priority_rank better
    → compute_engage_priority i ≤ compute_engage_priority (record i { priority = better })
unfolding compute_engage_priority priority_rank
compute_engage_priority_mono i better h = ground arith

-- The defect: the quality that the code finds for any contacts makes no difference to the rank.
pub score_contact_quality_ignored :
    (i : EngagePriorityInput) (lines : List ContactLine)
    → compute_engage_priority (record i { contact_quality = score_contact_quality lines })
      ≡ compute_engage_priority (record i { contact_quality = unset })
unfolding compute_engage_priority score_contact_quality
score_contact_quality_ignored i [] = ground arith
score_contact_quality_ignored i (email_line e ∷ lines) = ground arith
score_contact_quality_ignored i (handle_line ∷ lines) = ground arith
score_contact_quality_ignored i (other_line ∷ lines) = score_contact_quality_ignored i lines
