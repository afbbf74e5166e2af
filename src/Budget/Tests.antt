-- ===== src/Budget/Tests.antt =====
-- Runs of the proxy budget (internal/proxybudget/governor.go) and uses of its theorems.
use bidshard_lead_miner.Common.{
  ℕ, ◌+◌, ◌≡◌, ◌<◌, refl, true, false, List, [], ◌∷◌, none, some, ltb, arith,
}
use bidshard_lead_miner.Budget.{
  Governor, unreadable, configure, load_state, allow, record_bytes, used_bytes,
}
use bidshard_lead_miner.Budget.Laws.{
  Fetch, replay, total_on, replay-budget, record_bytes_overshoot, sum_bytes, read_back, restart,
}

abbrev fetch : ℕ → ℕ → Fetch
fetch bytes at = record { bytes = bytes; at = at; written = true }

abbrev fetches : List Fetch
fetches = fetch 500 90000 ∷ fetch 700 100 ∷ fetch 300 50 ∷ []

abbrev small : Governor
small = record {
  cap_bytes = 1048576;
  state_file = record { day = some 1; bytes = 1048000 };
  on_disk = none;
  exceeded = false;
  daily_bytes = 0;
}

-- The second day starts from nothing.
second_day : (used_bytes (replay (configure 1 none unreadable 0) fetches) 90001).1 ≡ 500
unfolding used_bytes replay configure load_state record_bytes
second_day = refl

replay-budget_example :
    (allow (replay (configure 1 none unreadable 0) fetches) 90001).1 ≡ ltb 500 1048576
unfolding total_on
replay-budget_example = (replay-budget 1 0 none (omega arith) fetches 90001 (omega arith)).1

-- Two fetches that were both allowed before either was recorded.
abbrev at_once : List Fetch
at_once = fetch 1000 86400 ∷ fetch 2000 86400 ∷ []

record_bytes_overshoot_example :
    (replay (allow small 86400).0 at_once).state_file.bytes < 1048576 + sum_bytes at_once
unfolding allow
record_bytes_overshoot_example =
    (record_bytes_overshoot small 86400 at_once (omega arith) refl (refl, (refl, tt))).0

restart_example :
    let g' = record_bytes small 1000 86400 true in
    (used_bytes (configure 1 g'.on_disk (read_back g'.on_disk) 86500) 86500).1
    ≡ (used_bytes g' 86500).1
restart_example = restart small 1 1000 86400 86500 (omega arith) (omega arith) refl
