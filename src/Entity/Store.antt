-- ===== src/Entity/Store.antt =====
-- The sightings of one entity by several processes at the same time: RecordSightingCore
-- (internal/entity/sighting_loop.go) over the database (internal/sink/entity_store.go and
-- entity_store_atomic.go). The database answers a search, replaces a document if its generation is
-- still the one that was read, and refuses to insert an id that is there; between two of these
-- calls the others run.
use bidshard_lead_miner.Common.{
  ℕ, suc, Bool, true, false, List, [], ◌∷◌, Option, none, some, String, ltb, ◌==◌, if◌then◌else◌,
}
use bidshard_lead_miner.Common.Text.{trim_space}
use bidshard_lead_miner.Entity.{Env, EntityKey, SightingInput, EntityDoc, Readings}
use bidshard_lead_miner.Entity.Sighting.{entity_hash_known}
use bidshard_lead_miner.Entity.Heat.{HeatConfig, recompute_entity_heat}
use bidshard_lead_miner.Entity.Merge.{
  new_doc_with_heat, refresh_entity_sighting, merge_sighting_with_heat,
}

abbrev pub default_merge_max_attempts : ℕ
default_merge_max_attempts = 4

-- One call: the keys, the sighting, the settings of the heat, and the readings of the clock.
pub record Call (F : Type 0) : Type 0 where
  pub keys : List EntityKey
  pub sighting : SightingInput
  pub heat : HeatConfig F
  pub now : ℕ
  pub readings : Readings

-- A write: the call, and whether `MergeSightingAtomic` made it.
pub record Commit (F : Type 0) : Type 0 where
  pub call : Call F
  pub atomic : Bool

-- Where a call is: before a search, with the document that it found, without one, or at its end.
-- Each attempt has a search of `MergeSightingAtomic`, and one of its own after it.
pub data Phase (F : Type 0) : Type 0 where
  asking : Bool → Phase F
  holding : Bool → EntityDoc F → Phase F
  creating : Phase F
  finished : Phase F
  gave_up : Phase F

pub record Writer (F : Type 0) : Type 0 where
  pub call : Call F
  pub attempt : ℕ
  pub phase : Phase F

-- What a writer leaves: itself, the document in the database, and how it wrote if it did:
-- `some none` for an insertion.
pub record Turn (F : Type 0) : Type 0 where
  pub writer : Writer F
  pub stored : Option (EntityDoc F)
  pub written : Option (Option Bool)

module _ {F : Type 0} (e : Env F) where
  -- The document that `MergeSightingAtomic` writes: a known hash is refreshed, and the heat
  -- computed again.
  unfoldable pub merge_sighting_atomic : EntityDoc F → Call F → EntityDoc F
  merge_sighting_atomic doc c =
      let refreshed = (refresh_entity_sighting e doc c.sighting c.readings).0 in
      if entity_hash_known doc (trim_space c.sighting.hash_id)
      then recompute_entity_heat e refreshed c.heat c.readings.heat c.readings.fallback
      else (merge_sighting_with_heat e doc c.keys c.sighting c.heat c.now c.readings).0

  unfoldable pub merge_plain : EntityDoc F → Call F → EntityDoc F
  merge_plain doc c = (merge_sighting_with_heat e doc c.keys c.sighting c.heat c.now c.readings).0

  abbrev pub merge : Bool → EntityDoc F → Call F → EntityDoc F
  merge atomic doc c = if atomic then merge_sighting_atomic doc c else merge_plain doc c

  unfoldable pub born : String → EntityKey → Call F → EntityDoc F
  born entity_id pk c = new_doc_with_heat e entity_id pk c.keys c.sighting c.heat c.now c.readings

  -- The writes one after another, with no others between.
  unfoldable pub follow : EntityDoc F → List (Commit F) → EntityDoc F
  follow doc [] = doc
  follow doc (k ∷ log) = follow (merge k.atomic doc k.call) log

  unfoldable pub replay : String → EntityKey → List (Commit F) → Option (EntityDoc F)
  replay entity_id pk [] = none
  replay entity_id pk (k ∷ log) = some (follow (born entity_id pk k.call) log)

  -- The end of a round of the loop without a result.
  unfoldable pub next_attempt : ℕ → Writer F → Writer F
  next_attempt max_attempts w = record w {
    attempt = suc w.attempt;
    phase = if ltb (suc w.attempt) max_attempts then asking true else gave_up;
  }

  abbrev pub missed : ℕ → Bool → Writer F → Writer F
  missed max_attempts atomic w =
      if atomic then record w { phase = asking false } else next_attempt max_attempts w

  abbrev quiet : Writer F → Option (EntityDoc F) → Turn F
  quiet w stored = record { writer = w; stored = stored; written = none }

  -- `ReplaceMerged`, with the generation of the document that was found.
  unfoldable pub replace_turn : ℕ → Bool → EntityDoc F → Writer F → Option (EntityDoc F) → Turn F
  replace_turn max_attempts atomic d w none = quiet (missed max_attempts atomic w) none
  replace_turn max_attempts atomic d w (some s) =
      if s.merge_generation == d.merge_generation
      then record {
        writer = record w { phase = finished };
        stored = some (merge atomic d w.call);
        written = some (some atomic);
      }
      else quiet (missed max_attempts atomic w) (some s)

  -- `FindExisting`
  unfoldable pub find_turn : Bool → Writer F → Option (EntityDoc F) → Turn F
  find_turn atomic w none =
      quiet (record w { phase = if atomic then asking false else creating }) none
  find_turn atomic w (some d) = quiet (record w { phase = holding atomic d }) (some d)

  -- `InsertNew`
  unfoldable pub insert_turn : ℕ → String → EntityKey → Writer F → Option (EntityDoc F) → Turn F
  insert_turn max_attempts entity_id pk w none = record {
    writer = record w { phase = finished };
    stored = some (born entity_id pk w.call);
    written = some none;
  }
  insert_turn max_attempts entity_id pk w (some s) = quiet (next_attempt max_attempts w) (some s)

  -- One call of the database by a writer.
  unfoldable pub turn_in :
      ℕ → String → EntityKey → Phase F → Writer F → Option (EntityDoc F) → Turn F
  unfolding find_turn replace_turn insert_turn next_attempt
  turn_in max_attempts entity_id pk (asking atomic) w stored = find_turn atomic w stored
  turn_in max_attempts entity_id pk (holding atomic d) w stored =
      replace_turn max_attempts atomic d w stored
  turn_in max_attempts entity_id pk creating w stored =
      insert_turn max_attempts entity_id pk w stored
  turn_in max_attempts entity_id pk finished w stored = quiet w stored
  turn_in max_attempts entity_id pk gave_up w stored = quiet w stored

  abbrev pub turn : ℕ → String → EntityKey → Writer F → Option (EntityDoc F) → Turn F
  turn max_attempts entity_id pk w stored = turn_in max_attempts entity_id pk w.phase w stored
