-- ===== src/Coordinator/Tests.antt =====
-- Runs of the coordinator (internal/sources/coordinator.go) and uses of its theorems.
use bidshard_lead_miner.Common.{◌≤◌, ◌≡◌, refl, true, false, [], ◌∷◌, none, some}
use bidshard_lead_miner.Coordinator.{
  Coordinator, selecting, waiting, cancel_active_round, cancel_handle, Reach, initial, next, scan,
  start, begin,
}
use bidshard_lead_miner.Coordinator.Laws.{handle_of, one_round, scan_cancels}

abbrev asked : Coordinator
asked = record { phase = waiting; rounds = []; active = none; next_id = 0 }

asked_reached : Reach asked
unfolding cancel_active_round cancel_handle
asked_reached = next initial (scan refl refl)

abbrev running : Coordinator
running = record {
  phase = selecting;
  rounds = record { id = 0; begun = true; cancelled = false } ∷ [];
  active = some 0;
  next_id = 1;
}

running_reached : Reach running
unfolding cancel_handle
running_reached = next (next asked_reached (start refl refl refl)) (begin [] [] 0 false refl refl)

one_round_example : (1 ≤ 1) × (running.active ≡ some 0)
one_round_example = one_round running_reached

scan_cancels_example : handle_of (cancel_active_round running).rounds ≡ none
scan_cancels_example = scan_cancels running_reached
