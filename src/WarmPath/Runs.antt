-- ===== src/WarmPath/Runs.antt =====
-- What becomes of the batches of the warm path while its worker runs
-- (internal/warmpath/batch_worker.go).
use bidshard_lead_miner.Common.{ℕ, ◌+◌, Bool, List, [], ◌∷◌, ◌++◌, if◌then◌else◌}
use bidshard_lead_miner.WarmPath.{
  Batch, Write, refused, torn, unclosed, written, Polled, Worker, Event, spilled, flush_tick,
  poll_tick, is_whole, job_records,
}
use bidshard_lead_miner.WarmPath.Flush.{count, records_in}

module _ {I : Type 0} where
  -- The records that the spill of a batch adds to the file.
  abbrev pub taken : Write → Batch I → List (Batch I)
  taken refused r = []
  taken torn r = []
  taken unclosed r = r ∷ []
  taken written r = r ∷ []

  -- The records that are spilled in events, with those whose file did not close.
  unfoldable pub spilled_records : List (Event I) → List (Batch I)
  spilled_records [] = []
  spilled_records (spilled write r ∷ events) =
      let rest = spilled_records events in if is_whole r then taken write r ++ rest else rest
  spilled_records (flush_tick world ∷ events) = spilled_records events
  spilled_records (poll_tick status ∷ events) = spilled_records events

  -- The records that a worker has and those that left it.
  abbrev pub all_records : Worker I → List (Batch I)
  all_records w =
      records_in w.spill ++ (job_records w.jobs ++ (w.applied ++ (w.unanswered ++ w.dropped)))

  -- The chosen ones among them.
  abbrev total : (Batch I → Bool) → Worker I → ℕ
  total p w =
      count p (records_in w.spill)
      + count p (job_records w.jobs)
      + count p w.applied
      + count p w.unanswered
      + count p w.dropped

  abbrev polled_records : (Batch I → Bool) → Polled I → ℕ
  polled_records p polled =
      count p (job_records polled.remaining)
      + count p polled.done
      + count p polled.unanswered
      + count p polled.lost
