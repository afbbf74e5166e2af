-- ===== src/Batch/Tests.antt =====
-- Runs of the batches (internal/batch/ticker_flush.go) and uses of their theorems.
use bidshard_lead_miner.Common.{ℕ, ◌≡◌, refl, true, false, not, ◌&&◌, List, [], ◌∷◌, ◌++◌}
use bidshard_lead_miner.Batch.{
  Event, tick, item, closed, effective_size, flush_buf, add, loop, run_ticker_flush,
}
use bidshard_lead_miner.Batch.Laws.{concat, items_of, all_sized, is_nil, run_ticker_flush_lem}

abbrev events : List (Event ℕ)
events = item 1 ∷ tick ∷ tick ∷ item 2 ∷ item 3 ∷ item 4 ∷ closed ∷ item 5 ∷ []

batches : (run_ticker_flush 2 events).0.flushed ≡ (1 ∷ []) ∷ (2 ∷ 3 ∷ []) ∷ (4 ∷ []) ∷ []
unfolding run_ticker_flush loop flush_buf add effective_size
batches = refl

run_ticker_flush_lem_example :
    let (s, returned) = run_ticker_flush 2 events in
    (concat s.flushed ++ s.buf ≡ items_of events)
    × (all_sized (effective_size 2) s.flushed ≡ true)
    × ((returned && not (is_nil s.buf)) ≡ false)
run_ticker_flush_lem_example = run_ticker_flush_lem 2 events
