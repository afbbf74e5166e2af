-- ===== src/Batch.antt =====
-- The batches that a ticker flushes (internal/batch/ticker_flush.go). The choices of the `select`
-- are a list of events; what `flush` is called with is kept in the order of the calls.
pub mod Laws
mod Tests
use bidshard_lead_miner.Common.{
  ℕ, zero, suc, ◌+◌, Bool, true, false, List, [], ◌∷◌, ◌++◌, if◌then◌else◌, leb, ◌==◌, length,
}

pub data Event {ℓ} (A : Type ℓ) : Type ℓ where
  done : Event A
  tick : Event A
  item : A → Event A
  closed : Event A

-- The buffer, and the batches so far.
pub record Batcher {ℓ} (A : Type ℓ) : Type ℓ where
  pub buf : List A
  pub flushed : List (List A)

-- A size that is not positive is replaced by the default.
unfoldable pub effective_size : ℕ → ℕ
effective_size batch_size = if batch_size == 0 then 50 else batch_size

module _ {ℓ} {A : Type ℓ} where
  abbrev pub new_batcher : Batcher A
  new_batcher = record { buf = []; flushed = [] }

  unfoldable pub flush_buf : Batcher A → Batcher A
  flush_buf s = elim s.buf [
    | [] ↦ s
    | x ∷ xs ↦ record { buf = []; flushed = s.flushed ++ (x ∷ xs) ∷ [] }
  ]

  unfoldable pub add : ℕ → A → Batcher A → Batcher A
  add size x s =
      let s' = record s { buf = s.buf ++ x ∷ [] } in
      if leb size (length s'.buf) then flush_buf s' else s'

  -- The loop, until the context is done or the channel closed, and whether it has returned.
  unfoldable pub loop : ℕ → Batcher A → List (Event A) → Batcher A × Bool
  loop size s [] = (s, false)
  loop size s (done ∷ es) = (flush_buf s, true)
  loop size s (tick ∷ es) = loop size (flush_buf s) es
  loop size s (item x ∷ es) = loop size (add size x s) es
  loop size s (closed ∷ es) = (flush_buf s, true)

  unfoldable pub run_ticker_flush : ℕ → List (Event A) → Batcher A × Bool
  run_ticker_flush batch_size es = loop (effective_size batch_size) new_batcher es
