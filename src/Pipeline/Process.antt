-- ===== src/Pipeline/Process.antt =====
-- `Processor.Process` from the hash of the lead on (internal/pipeline/processor.go): the state that
-- the workers share, the reservation of the hash, the review by the language model, the store, and
-- the end of an accepted lead. `none` is a panic, of `SeenCache.Mark`.
pub mod Review
pub mod Hash
pub mod Frame
pub mod Refusals
pub mod Settle
pub mod Laws
pub mod Sequence
pub mod Retry
pub mod Crew
use bidshard_lead_miner.Common.{
  ℕ, suc, ◌+◌, Bool, true, false, not, ◌&&◌, ◌||◌, List, [], ◌∷◌, Option, none, some, String,
  string_discrete, ite, if◌then◌else◌, leb, elem, ◌==◌,
}
use bidshard_lead_miner.Seen.{SeenCache, seen, mark}
use bidshard_lead_miner.Pipeline.Types.{Config, Junk, ProcessOutcome, Reason, Rejection, no_outcome}

-- What the workers share: the seen cache, if there is one, the hashes in work, the leads whose upsert
-- the store acknowledged (it returned no error), and what the queues and records were given, the
-- latest first.
pub record World : Type 0 where
  pub seen_cache : Option SeenCache
  pub inflight : List String
  pub saved : List String
  pub junk : List Junk
  pub sightings : List String
  pub classify_queue : List String
  pub patched : List String
  pub clustered : List String
  pub warm_queue : List String
  pub accepted : List String

-- What `RecordSighting` answers: the canonical hash, if it is not blank, the rank of the heat tier,
-- the boost of the tier, and the two flags.
pub record EntityResult : Type 0 where
  pub canonical_hash : Option String
  pub heat_rank : ℕ
  pub heat_boost : ℕ
  pub cross_source_hot : Bool
  pub triggers_classify : Bool

-- The empty `RecordResult`.
abbrev pub no_result : EntityResult
no_result = record {
  canonical_hash = none;
  heat_rank = 0;
  heat_boost = 0;
  cross_source_hot = false;
  triggers_classify = false;
}

-- The rank of the tier "hot".
abbrev pub hot_rank : ℕ
hot_rank = 3

pub capture : World → Option Junk → World
capture w none = w
capture w (some j) = record w { junk = j ∷ w.junk }

pub mark_seen : World → String → ℕ → Option World
mark_seen w id at = elim w.seen_cache [
  | none ↦ some w
  | some c ↦ elim (mark c id at) [
    | none ↦ none
    | some c' ↦ some (record w { seen_cache = some c' })
  ]
]

pub seen_hit : World → String → ℕ → ℕ → World × Bool
seen_hit w id now later = elim w.seen_cache [
  | none ↦ (w, false)
  | some c ↦ let (c', hit) = seen c id now later in (record w { seen_cache = some c' }, hit)
]

-- `LoadOrStore`, and `Delete` by the deferred call.
unfoldable pub acquire_hash : World → String → World × Bool
acquire_hash w id =
    if elem string_discrete id w.inflight
    then (w, false)
    else (record w { inflight = id ∷ w.inflight }, true)

pub remove_all : String → List String → List String
remove_all id [] = []
remove_all id (x ∷ xs) = ite (string_discrete x id) (remove_all id xs) (x ∷ remove_all id xs)

pub release_hash : World → String → World
release_hash w id = record w { inflight = remove_all id w.inflight }

-- `recordEntitySighting`; an error of the recorder is the empty result.
pub record_entity_sighting : Config → World → String → EntityResult → World × EntityResult
record_entity_sighting p w id result =
    if p.entity_sightings
    then (
      record w {
        sightings = id ∷ w.sightings;
        classify_queue =
            if p.entity_classify_enabled && result.triggers_classify
            then id ∷ w.classify_queue
            else w.classify_queue;
      },
      result,
    )
    else (w, no_result)

-- `maybePatchCanonicalLead`; `patchable` says that the store has the patch and that it succeeds.
pub patch_canonical_lead : Config → World → String → EntityResult → Bool → World
patch_canonical_lead p w id result patchable = elim result.canonical_hash [
  | none ↦ w
  | some canonical ↦
      let wanted =
        if p.entity_heat_enabled
        then leb hot_rank result.heat_rank
        else p.cross_source_hot && result.cross_source_hot in
      ite (string_discrete canonical id) w (
        if p.has_store && wanted && patchable
        then record w { patched = canonical ∷ w.patched }
        else w)
]

abbrev pub dedup_outcome : ProcessOutcome
dedup_outcome = record no_outcome { dedup_hit = true; reject_reason = some Reason.dedup }

-- A hash that is known already: the sighting is recorded, and the canonical lead is patched.
pub sight_known : Config → World → String → EntityResult → Bool → World
sight_known p w id result patchable =
    let (w', r) = record_entity_sighting p w id result in patch_canonical_lead p w' id r patchable
