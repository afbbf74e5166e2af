-- ===== src/Pipeline/Process/Hash.antt =====
-- From the hash of a lead to its outcome (internal/pipeline/processor.go).
use bidshard_lead_miner.Common.{
  ℕ, Bool, true, not, ◌&&◌, ◌||◌, List, ◌∷◌, Option, none, some, String, string_discrete, ite,
  if◌then◌else◌,
}
use bidshard_lead_miner.Pipeline.Types.{
  Config, Facts, Reason, Junk, Priority, ProcessOutcome, Screen, stop, go, no_outcome, drop,
}
use bidshard_lead_miner.Pipeline.Screen.{Draft, Scored, screen}
use bidshard_lead_miner.Pipeline.Process.{
  World, EntityResult, capture, mark_seen, seen_hit, acquire_hash, release_hash,
  record_entity_sighting, dedup_outcome, sight_known,
}
use bidshard_lead_miner.Pipeline.Process.Review.{
  Answers, review, entity_boost, boosted_priority, is_high,
}

-- A chain of steps that may panic.
infixl 5 ◌>>=◌
abbrev pub ◌>>=◌ {ℓ κ} : {A : Type ℓ} {B : Type κ} → Option A → (A → Option B) → Option B
none >>= f = none
some a >>= f = f a

-- What the store answers to an upsert.
pub data Upsert : Type 0 where
  upserted duplicate_key upsert_failed : Upsert

-- What the services and the clock give to one run of `Process`. The store's answer to `Exists` is any
-- function of what it has acknowledged and of the hash, another one in each run.
pub record Services : Type 0 where
  pub seen_now : ℕ
  pub seen_later : ℕ
  pub exists_fails : Bool
  pub exists_says : List String → String → Bool
  pub exists_at : ℕ
  pub reserve_at : ℕ
  pub cluster_duplicate : Bool
  pub answers : Answers
  pub entity : EntityResult
  pub patchable : Bool
  pub upsert : Upsert
  pub duplicate_entity : EntityResult
  pub duplicate_at : ℕ
  pub final_at : ℕ

abbrev pub clusters : Config → Priority → Bool
clusters p priority = p.llm_scoring && p.lead_cluster_enabled && is_high priority

-- What an accepted lead is handed to, and its outcome.
unfoldable pub hand_over : Config → World → String → Scored → World × ProcessOutcome
hand_over p w id s = (
  record w {
    warm_queue =
        if p.gemini_defer && p.has_warm_path && p.llm_scoring
        then id ∷ w.warm_queue
        else w.warm_queue;
    accepted = id ∷ w.accepted;
  },
  record no_outcome {
    accepted = true;
    lead = some (record { hash_id = id; priority = s.priority; score = s.score });
  },
)

-- The end of an accepted lead.
unfoldable pub finish :
    Config → World → String → Priority → Scored → ℕ → Option (World × ProcessOutcome)
finish p w id priority s at = do
  let w₁ = record w { clustered = if clusters p priority then id ∷ w.clustered else w.clustered }
  w₂ ← mark_seen w₁ id at
  some (hand_over p w₂ id s)

-- The upsert of a reviewed lead.
unfoldable pub store_lead :
    Config
    → World
    → String
    → Priority
    → Scored
    → Services
    → Upsert
    → Option (World × ProcessOutcome)
store_lead p w id priority s v upserted =
    finish p (record w { saved = id ∷ w.saved }) id priority s v.final_at
store_lead p w id priority s v duplicate_key = do
  w' ← mark_seen (sight_known p w id v.duplicate_entity v.patchable) id v.duplicate_at
  some (w', record no_outcome { dedup_hit = true })
store_lead p w id priority s v upsert_failed = some (w, no_outcome)

unfoldable pub accept_lead :
    Config → World → String → Scored → Services → Option (World × ProcessOutcome)
accept_lead p w id s v =
    let (w', r) = record_entity_sighting p w id v.entity in
    let boosted = entity_boost p r s in
    let priority = boosted_priority p r s in
    if p.has_store
    then store_lead p w' id priority boosted v v.upsert
    else finish p w' id priority boosted v.final_at

-- After the review.
unfoldable pub process_reviewed :
    Config → World → String → Services → Screen Scored → Option (World × ProcessOutcome)
process_reviewed p w id v (stop r) = some (capture w r.junk, r.outcome)
process_reviewed p w id v (go s) = accept_lead p w id s v

-- A lead whose hash is reserved.
unfoldable pub process_new :
    Config → Facts → World → Draft → Services → Option (World × ProcessOutcome)
process_new p f w d v =
    if clusters p d.scored.priority && v.cluster_duplicate
    then some (sight_known p w d.hash_id v.entity v.patchable, dedup_outcome)
    else process_reviewed p w d.hash_id v (review p f d.contacts v.answers d.scored)

-- Between the acquisition of a hash and its release.
unfoldable pub process_acquired :
    Config → Facts → World → Draft → Services → Option (World × ProcessOutcome)
process_acquired p f w d v =
    let known = mark_seen (sight_known p w d.hash_id v.entity v.patchable) d.hash_id v.exists_at in
    let fresh = mark_seen w d.hash_id v.reserve_at in
    if p.has_store && v.exists_fails
    then some (w, record no_outcome { reject_reason = some Reason.store_error })
    else if p.has_store && v.exists_says w.saved d.hash_id
    then (known >>= λ w'. some (w', dedup_outcome))
    else (fresh >>= λ w'. process_new p f w' d v)

abbrev pub release : String → World × ProcessOutcome → World × ProcessOutcome
release id (w, out) = (release_hash w id, out)

unfoldable pub process_hash :
    Config → Facts → World → Draft → Services → Option (World × ProcessOutcome)
process_hash p f w d v =
    let (w₁, hit) = seen_hit w d.hash_id v.seen_now v.seen_later in
    let (w₂, acquired) = acquire_hash w₁ d.hash_id in
    let empty = drop Reason.empty_hash Junk.hashless in
    ite (string_discrete d.hash_id "") (some (capture w empty.junk, empty.outcome)) (
      if hit || not acquired
      then some (sight_known p w₁ d.hash_id v.entity v.patchable, dedup_outcome)
      else (process_acquired p f w₂ d v >>= λ r. some (release d.hash_id r)))

-- After the gates.
unfoldable pub process_screened :
    Config → Facts → World → Services → Screen Draft → Option (World × ProcessOutcome)
process_screened p f w v (stop r) = some (capture w r.junk, r.outcome)
process_screened p f w v (go d) = process_hash p f w d v

unfoldable pub process : Config → Facts → World → Services → Option (World × ProcessOutcome)
process p f w v = process_screened p f w v (screen p f)
