-- ===== src/Scoring/Tests.antt =====
-- Runs of the scores (internal/scoring) and uses of their theorems.
use bidshard_lead_miner.Common.{◌≡◌, refl, List, [], ◌∷◌, none}
use bidshard_lead_miner.Common.Int.{pos, ◌+ℤ◌, ◌≤ℤ◌}
use bidshard_lead_miner.Scoring.{negated, dynamic_boost, boost}
use bidshard_lead_miner.Scoring.Laws.{Verdict, accept, junk, replay, tally, boost-replay}

abbrev verdicts : List Verdict
verdicts = accept "forum:stm" ∷ junk "github:x" ∷ junk "forum:stm" ∷ []

boost-replay_example :
    (boost (replay verdicts) "forum:stm" (pos 10) none
      ≡ pos 10 +ℤ dynamic_boost (tally "forum:stm" verdicts) 8)
    × (negated 4 ≤ℤ dynamic_boost (tally "forum:stm" verdicts) 8)
    × (dynamic_boost (tally "forum:stm" verdicts) 8 ≤ℤ pos 8)
boost-replay_example = boost-replay verdicts "forum:stm" (pos 10)

-- Seven of twenty are the top ratio, one of twenty is the low one.
top_ratio : dynamic_boost (record { accepted = 7; junk = 13 }) 8 ≡ pos 8
unfolding dynamic_boost
top_ratio = refl

low_ratio : dynamic_boost (record { accepted = 1; junk = 19 }) 8 ≡ negated 4
unfolding dynamic_boost
low_ratio = refl
