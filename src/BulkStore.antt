-- ===== src/BulkStore.antt =====
-- The store that gathers leads before it writes them (internal/sink/mongo_bulk.go, BulkStore), as the
-- workers and its flusher use it at the same time. A flush empties the batch under the lock and writes
-- it without: from then on it is a flight, which lands at any time, whole or in part. A lead is its
-- hash here.
pub mod Laws
mod Tests
use bidshard_lead_miner.Common.{
  ℕ, Bool, true, false, not, ◌&&◌, ◌||◌, List, [], ◌∷◌, ◌++◌, Option, none, some, String,
  string_discrete, leb, if◌then◌else◌, length, elem, ◌≡◌,
}

-- A batch that is being written, and the caller of `Upsert` that waits for it, if there is one.
pub record Flight : Type 0 where
  pub leads : List String
  pub caller : Option String

-- The store, with the leads whose `Upsert` returned no error and those that a failed write left out.
pub record BulkStore : Type 0 where
  pub batch : List String
  pub flying : List Flight
  pub inner : List String
  pub acknowledged : List String
  pub lost : List String

abbrev pub new_bulk_store : List String → BulkStore
new_bulk_store inner = record {
  batch = [];
  flying = [];
  inner = inner;
  acknowledged = [];
  lost = [];
}

-- `Exists`
unfoldable pub exists : BulkStore → String → Bool
exists b id = elem string_discrete id b.batch || elem string_discrete id b.inner

abbrev pub take_off : Option String → List String → BulkStore → BulkStore
take_off caller leads b = record b {
  batch = [];
  flying = record { leads = leads; caller = caller } ∷ b.flying;
}

-- `Upsert`, up to the write of the batch; `due` says that the interval has passed.
unfoldable pub upsert : ℕ → Bool → String → BulkStore → BulkStore
upsert batch_size due id b =
    let batch = b.batch ++ id ∷ [] in
    if leb batch_size (length batch) || due
    then take_off (some id) batch b
    else record b { batch = batch; acknowledged = id ∷ b.acknowledged }

abbrev pub flush_leads : List String → BulkStore → BulkStore
flush_leads [] b = b
flush_leads (lead ∷ leads) b = take_off none (lead ∷ leads) b

-- `Flush`, up to the write of the batch.
unfoldable pub flush : BulkStore → BulkStore
flush b = flush_leads b.batch b

-- The leads that a write has written, and the others.
unfoldable pub written_part : (String → Bool) → List String → List String × List String
written_part wrote [] = ([], [])
written_part wrote (lead ∷ leads) =
    let (kept, left_out) = written_part wrote leads in
    if wrote lead then (lead ∷ kept, left_out) else (kept, lead ∷ left_out)

abbrev pub acknowledge : Bool → Option String → List String → List String
acknowledge ok none acknowledged = acknowledged
acknowledge ok (some id) acknowledged = if ok then id ∷ acknowledged else acknowledged

-- The end of `flushBatch`, where the other flights are given. Without an error all leads are written.
unfoldable pub land : Bool → (String → Bool) → Flight → List Flight → BulkStore → BulkStore
land ok wrote f others b =
    let (kept, left_out) = written_part (λ lead. ok || wrote lead) f.leads in
    record b {
      flying = others;
      inner = kept ++ b.inner;
      acknowledged = acknowledge ok f.caller b.acknowledged;
      lost = left_out ++ b.lost;
    }

pub data Step (batch_size : ℕ) (s t : BulkStore) : Type 0 where
  upserts : (due : Bool) (id : String) → t ≡ upsert batch_size due id s → Step batch_size s t
  flushes : t ≡ flush s → Step batch_size s t
  lands :
      (ok : Bool) (wrote : String → Bool) (before : List Flight) (f : Flight) (after : List Flight)
      → s.flying ≡ before ++ f ∷ after
      → t ≡ land ok wrote f (before ++ after) s
      → Step batch_size s t

pub data Reach (batch_size : ℕ) (inner : List String) : BulkStore → Type 0 where
  start : Reach batch_size inner (new_bulk_store inner)
  next :
      {s t : BulkStore} → Reach batch_size inner s → Step batch_size s t → Reach batch_size inner t
