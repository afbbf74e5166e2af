-- ===== src/Entity/Race/Tests.antt =====
-- Two calls that find no document at the same time: one inserts it, and the other, which has one
-- attempt only, gives up.
use bidshard_lead_miner.Common.{◌+◌, ◌*◌, ◌≤◌, ◌<◌, refl, List, [], ◌∷◌, ◌++◌, none, length, arith}
use bidshard_lead_miner.Common.Int.{ℤ}
use bidshard_lead_miner.Entity.Store.{Call, turn_in, find_turn, insert_turn, next_attempt}
use bidshard_lead_miner.Entity.Sample.{sample_env, acme, first_call, second_call}
use bidshard_lead_miner.Entity.Race.{Race, new_writers, advanced, go, Reach, start, next}
use bidshard_lead_miner.Entity.Race.Lists.{finished_calls, all_left}
use bidshard_lead_miner.Common.Text.{trim_space, to_lower}
use bidshard_lead_miner.Entity.Sighting.{source_family}
use bidshard_lead_miner.Entity.Race.Complete.{IsKept, Reach-IsKept}
use bidshard_lead_miner.Entity.Race.Laws.{IsLinear, Reach-IsLinear, Reach-bounded, gave_up-finished}

abbrev left_turn : Race ℤ → Race ℤ
left_turn s = elim s.writers [ [] ↦ s | w ∷ ws ↦ advanced sample_env 1 "id" acme s [] w ws ]

abbrev right_turn : Race ℤ → Race ℤ
right_turn s = elim s.writers [
  | [] ↦ s
  | v ∷ vs ↦ elim vs [ [] ↦ s | w ∷ ws ↦ advanced sample_env 1 "id" acme s (v ∷ []) w ws ]
]

abbrev two_calls : List (Call ℤ)
two_calls = first_call ∷ second_call ∷ []

abbrev both_asked : Race ℤ
both_asked = right_turn (
    right_turn
      (left_turn (left_turn (record { stored = none; writers = new_writers two_calls; log = [] }))))

abbrev at_end : Race ℤ
at_end = right_turn (left_turn both_asked)

race_example : Reach sample_env 1 "id" acme two_calls 6 at_end
unfolding turn_in find_turn insert_turn next_attempt
race_example =
    next
      (next
        (next
          (next (next (next start (go [] _ _ refl refl refl)) (go [] _ _ refl refl refl))
            (go (_ ∷ []) _ _ refl refl refl))
          (go (_ ∷ []) _ _ refl refl refl))
        (go [] _ _ refl refl refl))
      (go (_ ∷ []) _ _ refl refl refl)

one_attempt : 0 < 1
one_attempt = omega arith

Reach-IsLinear_example : IsLinear sample_env "id" acme two_calls at_end
Reach-IsLinear_example = Reach-IsLinear sample_env 1 "id" acme one_attempt race_example

Reach-bounded_example : 6 + all_left 1 at_end.writers ≤ 2 * (4 * 1)
Reach-bounded_example = Reach-bounded sample_env 1 "id" acme one_attempt race_example

gave_up-finished_example : 1 ≤ length (finished_calls ((left_turn both_asked).writers ++ []))
unfolding turn_in find_turn insert_turn next_attempt
gave_up-finished_example =
    gave_up-finished sample_env 1 "id" acme one_attempt race_example (_ ∷ []) _ [] refl refl

Reach-IsKept_example : IsKept sample_env "id" (finished_calls at_end.writers) at_end.stored
unfolding trim_space source_family to_lower
Reach-IsKept_example =
    Reach-IsKept sample_env 1 "id" acme one_attempt race_example
      (((refl, omega arith), refl), (((refl, omega arith), refl), tt))
