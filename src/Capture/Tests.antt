-- ===== src/Capture/Tests.antt =====
-- Runs of the capturer (internal/queue/capturer.go) and uses of its theorems.
use bidshard_lead_miner.Common.{ℕ, ◌+◌, ◌≡◌, refl, List, [], ◌∷◌, some}
use bidshard_lead_miner.Capture.{Capturer, new_capturer, try_capture, offered, receive}
use bidshard_lead_miner.Capture.Laws.{Action, capture, read, run, turn, events_of, Inv, run_lem}

abbrev actions : List (Action ℕ)
actions = capture 1 ∷ capture 2 ∷ capture 3 ∷ read ∷ capture 4 ∷ read ∷ read ∷ []

abbrev increment : ℕ → ℕ
increment n = n + 1

-- A buffer of two drops the third event.
got_three :
    (run (record { capturer = some (new_capturer 2 8 (some increment)); got = [] }) actions).got
    ≡ 2 ∷ 3 ∷ 5 ∷ []
unfolding run turn new_capturer try_capture offered receive
got_three = refl

run_lem_example :
    let start = new_capturer 2 8 (some increment) in
    let s = run (record { capturer = some start; got = [] }) actions in
    (c : Capturer ℕ) × (s.capturer ≡ some c)
    × Inv (events_of (some increment) actions) s.got c
    × (c.buffer ≡ start.buffer)
run_lem_example = run_lem 2 8 (some increment) actions
