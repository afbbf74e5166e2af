-- ===== src/Pipeline/Rounds/Tests.antt =====
-- Runs of a round (internal/pipeline) and uses of its theorems.
use bidshard_lead_miner.Common.{
  ◌==◌, ℕ, ◌+◌, ◌≡◌, refl, true, false, List, [], ◌∷◌, ◌++◌, some, String, length, arith,
}
use bidshard_lead_miner.Common.Text.{str_lt}
use bidshard_lead_miner.Pipeline.Types.{Reason, no_outcome}
use bidshard_lead_miner.Pipeline.Rounds.{RoundState, new_round, top_reject_reasons, positive}
use bidshard_lead_miner.Pipeline.Rounds.Laws.{
  Event, enqueue, work, replay, refusals, fed, Balanced, replay_new-Balanced,
}
use bidshard_lead_miner.Pipeline.Rounds.Top.{is_descending, top_reject_reasons_lem}
use bidshard_lead_miner.Pipeline.Rounds.Race.{
  Traffic, Reach, start, more, send, track, Panics, tracked_or_untracked, wait_complete,
  finish-Panics,
}
use mathlib.Core.List.{Perm}

-- Two tasks are queued, one finds no room, and the two are worked on.
abbrev events : List Event
events =
    enqueue false true
    ∷ enqueue false true
    ∷ enqueue false false
    ∷ work false (record no_outcome { reject_reason = some Reason.lang })
    ∷ work false no_outcome
    ∷ []

replay_new-Balanced_example : (s : RoundState) × (replay new_round events ≡ some s) × Balanced 1 s
unfolding fed refusals
replay_new-Balanced_example = replay_new-Balanced events refl

abbrev counts : List (String × ℕ)
counts = ("geo", 2) ∷ ("dedup", 0) ∷ ("mx", 5) ∷ ("lang", 2) ∷ []

top_two : top_reject_reasons counts 2 ≡ ("mx", 5) ∷ ("geo", 2) ∷ []
unfolding top_reject_reasons positive bidshard_lead_miner.Pipeline.Rounds.sort_pairs
    bidshard_lead_miner.Pipeline.Rounds.insert_pair str_lt
top_two = refl

top_reject_reasons_lem_example :
    (hidden : List (String × ℕ)) × Perm (top_reject_reasons counts 2 ++ hidden) (positive counts)
    × (is_descending (top_reject_reasons counts 2 ++ hidden) ≡ true)
    × (length (top_reject_reasons counts 2) ≡ 2)
unfolding positive
top_reject_reasons_lem_example = top_reject_reasons_lem counts 2

one_sent : Reach 4 (record { queued = 1; untracked = 1; working = 0; tracked = 0 })
one_sent = more start (send (omega arith) refl)

tracked_or_untracked_example : 0 + 1 ≡ 1 + 0
tracked_or_untracked_example = tracked_or_untracked one_sent

-- The task is tracked.
one_tracked : Reach 4 (record { queued = 1; untracked = 0; working = 0; tracked = 1 })
one_tracked = more one_sent (track 0 refl refl)

wait_complete_example :
    ((1 == 0) ≡ (1 + 0 == 0))
    × ¬ Panics (record { queued = 1; untracked = 0; working = 0; tracked = 1 })
wait_complete_example = wait_complete one_tracked refl

finish-Panics_example : (s : Traffic) × Reach 8 s × (s.queued ≡ 2) × Panics s
finish-Panics_example = finish-Panics 8 2 (omega arith)
