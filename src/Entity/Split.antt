-- ===== src/Entity/Split.antt =====
-- One hash of an entity taken out into an entity of its own (internal/entity/split.go).
pub mod Laws
mod Tests
use bidshard_lead_miner.Common.{
  ℕ, suc, Bool, true, false, not, ◌&&◌, ◌||◌, List, [], ◌∷◌, ◌++◌, Option, none, some, String,
  string_discrete, ite, ltb, ◌==◌, if◌then◌else◌, length,
}
use bidshard_lead_miner.Common.Int.{pos}
use bidshard_lead_miner.Common.Text.{is_empty, trim_space}
use bidshard_lead_miner.Entity.{
  Env, EntityKey, SightingInput, EntitySighting, EntityDoc, Readings, contains_string,
  union_strings,
}
use bidshard_lead_miner.Entity.Sighting.{source_family, sighting_event_time_of, entity_hash_known}
use bidshard_lead_miner.Entity.Heat.{HeatConfig, recompute_entity_heat}
use bidshard_lead_miner.Entity.Keys.{primary_key, entity_id_for_split}
use bidshard_lead_miner.Entity.Merge.{sighting_signals, new_doc_with_heat}

pub data SplitError : Type 0 where
  hash_empty : SplitError
  hash_missing : SplitError
  keys_empty : SplitError

pub record SplitHashResult (F : Type 0) : Type 0 where
  pub source_entity_id : String
  pub new_entity_id : String
  pub hash_id : String
  pub source_deleted : Bool
  -- The document that the code changes in place, and the new one.
  pub source : EntityDoc F
  pub detached : EntityDoc F

pub data Outcome (F : Type 0) : Type 0 where
  refused : SplitError → Outcome F
  split : SplitHashResult F → Outcome F

unfoldable pub remove_string : List String → String → List String
remove_string [] target = []
remove_string (v ∷ list) target =
    ite (string_discrete v target) (remove_string list target) (v ∷ remove_string list target)

unfoldable pub remove_rows : List EntitySighting → String → List EntitySighting
remove_rows [] hash = []
remove_rows (s ∷ rows) hash =
    ite (string_discrete s.hash_id hash) (remove_rows rows hash) (s ∷ remove_rows rows hash)

-- The set of the hashes of the rows, in the order of their first rows.
unfoldable pub hash_set : List String → List EntitySighting → List String
hash_set met [] = met
hash_set met (s ∷ rows) =
    let hash = trim_space s.hash_id in
    hash_set (if is_empty hash || contains_string met hash then met else met ++ hash ∷ []) rows

module _ {F : Type 0} where
  unfoldable pub remove_hash_from_entity : EntityDoc F → String → EntityDoc F
  unfolding remove_string remove_rows
  remove_hash_from_entity doc hash = record doc {
    hash_ids = remove_string doc.hash_ids hash;
    sightings = remove_rows doc.sightings hash;
    canonical_hash = ite (string_discrete doc.canonical_hash hash) "" doc.canonical_hash;
  }

abbrev pub first_or : String → List String → String
first_or t [] = t
first_or t (h ∷ hashes) = h

abbrev pub is_none : {A : Type 0} → List A → Bool
is_none [] = true
is_none (x ∷ xs) = false

module _ {F : Type 0} (e : Env F) where
  unfoldable pub clear_entity_classification : EntityDoc F → EntityDoc F
  clear_entity_classification doc = record doc {
    unified_pain = "";
    actor_confidence = e.literal (pos 0) 1;
    buyer_intent = "";
    needs_review = false;
    entity_classified_at = 0;
  }

  -- One round of the loop of `rebuildEntityAggregates`.
  unfoldable pub rebuild_row : EntityDoc F → EntitySighting → EntityDoc F
  rebuild_row doc s =
      let source = trim_space s.source in
      let family = trim_space s.family in
      let of_source = source_family e s.source in
      let (has_pain, buyer_role) = sighting_signals e [] s.snippet s.matched in
      let event = sighting_event_time_of s in
      record doc {
        sources = if is_empty source then doc.sources else union_strings doc.sources (source ∷ []);
        source_families =
            if not (is_empty family)
            then union_strings doc.source_families (family ∷ [])
            else if not (is_empty of_source)
            then union_strings doc.source_families (of_source ∷ [])
            else doc.source_families;
        matched = union_strings doc.matched s.matched;
        pain_hits = if has_pain then suc doc.pain_hits else doc.pain_hits;
        buyer_role_seen = if buyer_role then true else doc.buyer_role_seen;
        first_seen =
            if not (event == 0) && (doc.first_seen == 0 || ltb event doc.first_seen)
            then event
            else doc.first_seen;
        last_seen = if not (event == 0) && ltb doc.last_seen event then event else doc.last_seen;
      }

  unfoldable pub rebuild_rows : EntityDoc F → List EntitySighting → EntityDoc F
  rebuild_rows doc [] = doc
  rebuild_rows doc (s ∷ rows) = rebuild_rows (rebuild_row doc s) rows

  -- `range` is the order in which Go goes through a map.
  unfoldable pub rebuild_entity_aggregates :
      (List String → List String) → EntityDoc F → HeatConfig F → ℕ → ℕ → EntityDoc F
  unfolding hash_set
  rebuild_entity_aggregates range doc heat now clock =
      let emptied = record doc {
        sources = [];
        source_families = [];
        matched = [];
        pain_hits = 0;
        buyer_role_seen = false;
        first_seen = 0;
        last_seen = 0;
      } in
      let rebuilt = rebuild_rows emptied doc.sightings in
      let hashes = range (hash_set [] doc.sightings) in
      recompute_entity_heat e
        (record rebuilt {
          hash_ids = hashes;
          sighting_count = length hashes;
          source_count = length rebuilt.source_families;
          canonical_hash =
              if is_empty doc.canonical_hash
              then first_or doc.canonical_hash hashes
              else doc.canonical_hash;
        })
        heat now clock

  abbrev pub split_off :
      (List String → List String)
      → EntityDoc F
      → String
      → String
      → EntityKey
      → List EntityKey
      → SightingInput
      → HeatConfig F
      → ℕ
      → Readings
      → SplitHashResult F
  split_off range doc hash new_id pk keys i heat now r =
      let removed = remove_hash_from_entity doc hash in
      let counted = record removed { merge_generation = suc doc.merge_generation } in
      let source =
        rebuild_entity_aggregates range (clear_entity_classification counted) heat now r.fallback in
      let made = new_doc_with_heat e new_id pk keys i heat now r in
      record {
        source_entity_id = doc.entity_id;
        new_entity_id = new_id;
        hash_id = hash;
        source_deleted = is_none source.hash_ids;
        source = source;
        detached = record made { needs_review = false };
      }

  -- `keys` are the keys that `ResolveKeys` finds in the sighting.
  unfoldable pub split_hash_from_entity :
      (List String → List String)
      → EntityDoc F
      → String
      → List EntityKey
      → SightingInput
      → HeatConfig F
      → ℕ
      → Readings
      → Outcome F
  unfolding entity_hash_known primary_key entity_id_for_split remove_hash_from_entity
      clear_entity_classification rebuild_entity_aggregates
  split_hash_from_entity range doc hash_id keys i heat now r =
      let hash = trim_space hash_id in
      let new_id = entity_id_for_split e keys hash doc.entity_id in
      if is_empty hash
      then refused hash_empty
      else if not (entity_hash_known doc hash)
      then refused hash_missing
      else if is_none keys
      then refused keys_empty
      else if is_empty new_id
      then refused keys_empty
      else elim (primary_key keys) [
        | none ↦ refused keys_empty
        | some pk ↦ split (split_off range doc hash new_id pk keys i heat now r)
      ]
