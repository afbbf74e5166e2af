-- ===== src/Entity/Merge.antt =====
-- The first sighting of an entity, and each further one (internal/entity/merge.go).
use bidshard_lead_miner.Common.{
  ℕ, suc, Bool, true, false, not, ◌&&◌, ◌||◌, List, [], ◌∷◌, String, ◌==◌, if◌then◌else◌, length,
}
use bidshard_lead_miner.Common.Int.{pos}
use bidshard_lead_miner.Common.Text.{is_empty, trim_space, bytes_of}
use bidshard_lead_miner.Entity.{
  Env, EntityKey, SightingInput, EntityDoc, Readings, contains_string, uniq_strings, union_strings,
}
use bidshard_lead_miner.Entity.Sighting.{source_family, entity_hash_known, patch_sighting_timeline}
use bidshard_lead_miner.Entity.Heat.{HeatConfig, default_heat_config, recompute_entity_heat}
use bidshard_lead_miner.Entity.Keys.{alias_tokens}

-- What a call answers to the pipeline.
pub record RecordResult : Type 0 where
  pub entity_id : String
  pub sighting_count : ℕ
  pub source_count : ℕ
  pub new_source_family : Bool

module _ {F : Type 0} (e : Env F) where
  -- Whether a sighting has pain, and whether a buyer speaks.
  unfoldable pub sighting_signals : List String → List ℕ → List String → Bool × Bool
  sighting_signals stack text matched = (
    not (length matched == 0) || e.has_pain_context text,
    contains_string (e.pilot_tags stack text) "pilot-buyer-role",
  )

  -- The literal that a new document starts from, with its pain.
  unfoldable pub first_doc : String → EntityKey → List EntityKey → SightingInput → EntityDoc F
  unfolding sighting_signals alias_tokens
  first_doc entity_id pk keys i =
      let (has_pain, buyer_role) = sighting_signals i.stack (bytes_of i.text) i.matched in
      record {
        entity_id = entity_id;
        primary_kind = pk.kind;
        primary_value = pk.value;
        alias_keys = alias_tokens keys;
        hash_ids = uniq_strings (trim_space i.hash_id ∷ []);
        sources = uniq_strings (trim_space i.source ∷ []);
        source_families = uniq_strings (source_family e i.source ∷ []);
        matched = uniq_strings i.matched;
        stack = uniq_strings i.stack;
        first_seen = 0;
        last_seen = 0;
        sighting_count = 1;
        source_count = 1;
        pain_hits = if has_pain then 1 else 0;
        buyer_role_seen = buyer_role;
        canonical_hash = trim_space i.hash_id;
        heat_score = e.literal (pos 0) 1;
        heat_score_round = pos 0;
        heat_tier = "";
        last_heat_at = 0;
        fresh_sighting_at = 0;
        unified_pain = "";
        actor_confidence = e.literal (pos 0) 1;
        buyer_intent = "";
        needs_review = false;
        entity_classified_at = 0;
        merge_generation = 0;
        sightings = [];
      }

  unfoldable pub new_doc_with_heat :
      String
      → EntityKey
      → List EntityKey
      → SightingInput
      → HeatConfig F
      → ℕ
      → Readings
      → EntityDoc F
  new_doc_with_heat entity_id pk keys i heat now r =
      recompute_entity_heat e (patch_sighting_timeline e (first_doc entity_id pk keys i) i r) heat
        now r.fallback

  -- A hash that is known already: the counters stay.
  unfoldable pub refresh_entity_sighting_with_heat :
      EntityDoc F → SightingInput → HeatConfig F → ℕ → Readings → EntityDoc F × RecordResult
  refresh_entity_sighting_with_heat doc i heat now r =
      let counted = record doc { merge_generation = suc doc.merge_generation } in
      (
        recompute_entity_heat e (patch_sighting_timeline e counted i r) heat now r.fallback,
        record {
          entity_id = doc.entity_id;
          sighting_count = doc.sighting_count;
          source_count = doc.source_count;
          new_source_family = false;
        },
      )

  -- The code does not pass the heat and the time of its caller on.
  unfoldable pub refresh_entity_sighting :
      EntityDoc F → SightingInput → Readings → EntityDoc F × RecordResult
  refresh_entity_sighting doc i r =
      refresh_entity_sighting_with_heat doc i (default_heat_config e) r.refresh r

  -- The first hash of a buyer's voice becomes the canonical one.
  unfoldable pub canonical_after : Bool → EntityDoc F → String → String
  canonical_after buyer_role doc hash =
      if is_empty doc.canonical_hash
      then hash
      else if buyer_role && not doc.buyer_role_seen
      then hash
      else doc.canonical_hash

  -- The sets and counters of a document with a sighting of a new hash.
  unfoldable pub count_sighting : EntityDoc F → List EntityKey → SightingInput → EntityDoc F
  unfolding sighting_signals alias_tokens
  count_sighting doc keys i =
      let hash = trim_space i.hash_id in
      let (has_pain, buyer_role) = sighting_signals i.stack (bytes_of i.text) i.matched in
      let family = source_family e i.source in
      let new_family = not (is_empty family) && not (contains_string doc.source_families family) in
      let families =
        if new_family
        then union_strings doc.source_families (family ∷ [])
        else doc.source_families in
      record doc {
        sighting_count = suc doc.sighting_count;
        merge_generation = suc doc.merge_generation;
        alias_keys = union_strings doc.alias_keys (alias_tokens keys);
        hash_ids = union_strings doc.hash_ids (hash ∷ []);
        sources = union_strings doc.sources (trim_space i.source ∷ []);
        source_families = families;
        source_count = length families;
        matched = union_strings doc.matched i.matched;
        stack = union_strings doc.stack i.stack;
        pain_hits = if has_pain then suc doc.pain_hits else doc.pain_hits;
        buyer_role_seen = if buyer_role then true else doc.buyer_role_seen;
        canonical_hash = canonical_after buyer_role doc hash;
      }

  unfoldable pub merge_sighting_with_heat :
      EntityDoc F
      → List EntityKey
      → SightingInput
      → HeatConfig F
      → ℕ
      → Readings
      → EntityDoc F × RecordResult
  merge_sighting_with_heat doc keys i heat now r =
      let family = source_family e i.source in
      let counted = count_sighting doc keys i in
      let merged =
        recompute_entity_heat e (patch_sighting_timeline e counted i r) heat now r.fallback in
      if entity_hash_known doc (trim_space i.hash_id) then refresh_entity_sighting doc i r else (
        merged,
        record {
          entity_id = merged.entity_id;
          sighting_count = merged.sighting_count;
          source_count = merged.source_count;
          new_source_family =
              not (is_empty family) && not (contains_string doc.source_families family);
        },
      )
