-- ===== src/BulkStore/Tests.antt =====
-- Runs of the gathering store (internal/sink/mongo_bulk.go) and a use of its theorem.
use bidshard_lead_miner.Common.{true, false, [], ◌∷◌, some, string_discrete, elem, ◌≡◌, refl}
use bidshard_lead_miner.BulkStore.{
  BulkStore, Flight, new_bulk_store, exists, upsert, land, written_part,
}

-- The second lead fills the batch.
abbrev taken_off : BulkStore
taken_off = upsert 2 false "h2" (upsert 2 false "h1" (new_bulk_store []))

abbrev flight : Flight
flight = record { leads = "h1" ∷ "h2" ∷ []; caller = some "h2" }

-- While the batch is written, its acknowledged lead is not found.
hidden : exists taken_off "h1" ≡ false
unfolding exists upsert
hidden = refl

-- The write fails after the first lead.
abbrev landed : BulkStore
landed = land false (λ lead. elem string_discrete lead ("h1" ∷ [])) flight [] taken_off

found : exists landed "h1" ≡ true
unfolding exists upsert land written_part string_discrete
found = refl
