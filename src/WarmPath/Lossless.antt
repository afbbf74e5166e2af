-- ===== src/WarmPath/Lossless.antt =====
-- When the warm path drops no batch (internal/warmpath/batch_worker.go).
use bidshard_lead_miner.Common.{◌≡◌, true, List, [], Option, none, some, String, All}
use bidshard_lead_miner.WarmPath.{
  Batch, Status, unreachable, waiting, failed, succeeded, written, Outside, Polled, Worker, Event,
  spilled, flush_tick, poll_tick, is_whole,
}

-- A job that has not failed, and whose output has a row of each key, if there is one.
abbrev pub IsKind : Status → Type 0
IsKind unreachable = Unit
IsKind waiting = Unit
IsKind failed = ⊥
IsKind (succeeded none) = Unit
IsKind (succeeded (some has_row)) = (key : String) → has_row key ≡ true

module _ {I : Type 0} where
  -- All the records of a scan are whole.
  abbrev AreWhole : Option (List (Batch I)) → Type 0
  AreWhole none = Unit
  AreWhole (some rs) = All (λ r. is_whole r ≡ true) rs

  -- A flush whose requests can all be built and whose writes have no error.
  abbrev pub IsSmooth : Outside I → Type 0
  IsSmooth w = ((r : Batch I) → w.builds r ≡ true) × ((r : Batch I) → w.writes r ≡ written)

  -- A poll that loses nothing of jobs leaves none lost, and none without a row.
  abbrev LosesNone : Polled I → Type 0
  LosesNone polled = (polled.lost ≡ []) × (polled.unanswered ≡ [])

  -- A flush is smooth, and a poll finds no job failed and no output without a row of each record.
  abbrev pub IsHarmless : Event I → Type 0
  IsHarmless (spilled write r) = Unit
  IsHarmless (flush_tick world) = IsSmooth world
  IsHarmless (poll_tick status) = (name : String) → IsKind (status name)

  -- The same was dropped, and the same was without a row.
  abbrev LostSame : Worker I → Worker I → Type 0
  LostSame w w' = (w'.dropped ≡ w.dropped) × (w'.unanswered ≡ w.unanswered)
