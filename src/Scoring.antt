-- ===== src/Scoring.antt =====
-- Scores and ranks (internal/scoring): the decay by the age of a post (decay.go), the reputation of
-- a source (source.go), the quality of the contacts (contact_quality.go), and the rank of a lead in
-- the outreach queue (outreach_queue.go). Texts stand as what the code's tests say of them.
pub mod Laws
mod Tests
use bidshard_lead_miner.Common.{
  ℕ, suc, ◌+◌, ◌-◌, ◌*◌, ◌/◌, Bool, true, false, ◌||◌, List, [], ◌∷◌, Option, none, some, String,
  string_discrete, ltb, leb, if◌then◌else◌,
}
use bidshard_lead_miner.Common.Maps.{lookup, insert}
use bidshard_lead_miner.Common.Int.{ℤ, pos, negsuc, ◌+ℤ◌, ◌-ℤ◌, ltb_ℤ, leb_ℤ}
use bidshard_lead_miner.Pipeline.Types.{Priority, low, medium, high}

-- An hour, in nanoseconds.
abbrev pub hour : ℕ
hour = 3600 * 1000000000

abbrev pub clamp_non_negative : ℤ → ℤ
clamp_non_negative score = if ltb_ℤ score (pos 0) then pos 0 else score

-- `age <= limit`, where a post of the future has a negative age.
abbrev pub is_younger : ℕ → ℕ → ℕ → Bool
is_younger limit posted_at now = leb now (posted_at + limit)

-- `ApplyTimeDecay`; `none` is the zero time.
unfoldable pub apply_time_decay : ℤ → Option ℕ → ℕ → ℤ
apply_time_decay score none now = score
apply_time_decay score (some posted_at) now =
    if is_younger (48 * hour) posted_at now
    then score +ℤ pos 10
    else if is_younger (7 * 24 * hour) posted_at now
    then score +ℤ pos 5
    else if is_younger (30 * 24 * hour) posted_at now
    then score
    else if is_younger (180 * 24 * hour) posted_at now
    then clamp_non_negative (score -ℤ pos 5)
    else clamp_non_negative (score -ℤ pos 10)

pub record SourceCounts : Type 0 where
  pub accepted : ℕ
  pub junk : ℕ

-- The reputations, by the normalised key of a source.
pub record SourceReputation : Type 0 where
  pub counts : List (String × SourceCounts)
  pub max_boost : ℕ

abbrev pub new_source_reputation : SourceReputation
new_source_reputation = record { counts = []; max_boost = 8 }

-- A missing key is the zero value.
unfoldable pub counts_of : SourceReputation → String → SourceCounts
counts_of r key = elim (lookup string_discrete key r.counts) [
  | none ↦ record { accepted = 0; junk = 0 }
  | some c ↦ c
]

unfoldable pub record_accepted : SourceReputation → String → SourceReputation
record_accepted r key =
    let c = counts_of r key in
    record r {
      counts = insert string_discrete key (record c { accepted = suc c.accepted }) r.counts;
    }

unfoldable pub record_junk : SourceReputation → String → SourceReputation
record_junk r key =
    let c = counts_of r key in
    record r { counts = insert string_discrete key (record c { junk = suc c.junk }) r.counts }

abbrev pub negated : ℕ → ℤ
negated n = pos 0 -ℤ pos n

-- The code compares the quotient of two floats with a constant. Division rounds monotonically and
-- to the constant itself where the quotient is it, so that the comparison is that of the integers
-- as long as the total is below 2^48.
unfoldable pub dynamic_boost : SourceCounts → ℕ → ℤ
dynamic_boost c max =
    let total = c.accepted + c.junk in
    if ltb total 20
    then pos 0
    else if leb (35 * total) (100 * c.accepted)
    then pos max
    else if leb (20 * total) (100 * c.accepted)
    then pos (max / 2)
    else if ltb (100 * c.accepted) (8 * total)
    then negated (max / 2)
    else pos 0

-- `Boost` of a source: `base` is its static boost, `stored` that of the database, if there is one.
unfoldable pub boost : SourceReputation → String → ℤ → Option ℤ → ℤ
boost r key base stored =
    let dynamic = dynamic_boost (counts_of r key) r.max_boost in
    base +ℤ elim stored [ none ↦ dynamic | some b ↦ if ltb_ℤ dynamic b then b else dynamic ]

-- The texts that stand for the quality of contacts; the first two are only compared with.
pub data ContactQuality : Type 0 where
  verified role named role_account generic unset : ContactQuality

-- What `scoreEmailLocal` sees of an address: an `@` past the start, a role in the table, and a dot,
-- an underscore or four bytes in the local part.
pub record EmailLocal : Type 0 where
  pub has_local : Bool
  pub is_role : Bool
  pub is_name : Bool

-- A contact line: an address, a Telegram handle, or anything else.
pub data ContactLine : Type 0 where
  email_line : EmailLocal → ContactLine
  handle_line other_line : ContactLine

abbrev pub score_email_local : EmailLocal → ContactQuality
score_email_local e =
    if e.has_local
    then (if e.is_role then role_account else if e.is_name then named else generic)
    else generic

unfoldable pub score_contact_quality : List ContactLine → ContactQuality
score_contact_quality [] = generic
score_contact_quality (email_line e ∷ lines) = score_email_local e
score_contact_quality (handle_line ∷ lines) = named
score_contact_quality (other_line ∷ lines) = score_contact_quality lines

pub data DisplacementTier : Type 0 where
  displacement_hot displacement_warm displacement_none : DisplacementTier

-- The prefix of a source family that counts.
pub data Family : Type 0 where
  reddit_family forum_family other_family : Family

-- `heat_points` is `int(EntityHeat * 20)`, or 0 where the heat is not positive.
pub record EngagePriorityInput : Type 0 where
  pub priority : Priority
  pub score : ℤ
  pub displacement_tier : DisplacementTier
  pub pilot_qualified : Bool
  pub has_stack : Bool
  pub heat_points : ℕ
  pub contact_quality : ContactQuality
  pub has_engage_draft : Bool
  pub source_family : Family

abbrev priority_points : Priority → ℕ
priority_points high = 100
priority_points medium = 50
priority_points low = 10

abbrev score_points : ℤ → ℕ
score_points (pos n) = if ltb 40 n then 40 else n
score_points (negsuc n) = 0

abbrev tier_points : DisplacementTier → ℕ
tier_points displacement_hot = 30
tier_points displacement_warm = 15
tier_points displacement_none = 0

abbrev points : ℕ → Bool → ℕ
points n true = n
points n false = 0

-- Only the quality "role" takes points away, ten at most, and a priority gives ten at least: the
-- sum is never below 0.
abbrev quality_points : ContactQuality → ℕ → ℕ
quality_points verified n = n + 10
quality_points role n = n - 10
quality_points _ n = n

abbrev family_points : Family → ℕ
family_points reddit_family = 8
family_points forum_family = 6
family_points other_family = 0

unfoldable pub compute_engage_priority : EngagePriorityInput → ℕ
compute_engage_priority i =
    quality_points i.contact_quality (
      priority_points i.priority
      + score_points i.score
      + tier_points i.displacement_tier
      + points 10 i.has_stack
      + points 20 i.pilot_qualified
      + points 15 i.has_engage_draft
      + i.heat_points)
    + family_points i.source_family
