-- ===== src/Entity/Split/Laws.antt =====
-- What a split leaves of its source (internal/entity/split.go).
use bidshard_lead_miner.Common.{
  ℕ, suc, ◌≡◌, refl, ap, ◌∙◌, Bool, true, false, not, ◌||◌, List, [], ◌∷◌, ◌++◌, Option, none, some,
  String, string_discrete, ite, if◌then◌else◌, Bool-cases, inl, inr, length, elem, elem-append, All,
  All-map, arith,
}
use mathlib.Core.Logic.{if_pos, if_neg}
use bidshard_lead_miner.Common.Text.{is_empty, trim_space}
use bidshard_lead_miner.Entity.{
  Env, EntityKey, SightingInput, EntitySighting, EntityDoc, Readings, contains_string, uniq_strings,
}
use bidshard_lead_miner.Entity.Heat.{HeatConfig}
use bidshard_lead_miner.Entity.Keys.{primary_key, entity_id_for_split}
use bidshard_lead_miner.Entity.Sighting.{
  entity_hash_known, patch_sighting_timeline, update_entity_seen_bounds,
}
use bidshard_lead_miner.Entity.Merge.{first_doc, new_doc_with_heat}
use bidshard_lead_miner.Entity.Sets.{IsTrim, IsUniq-IsTrim}
use bidshard_lead_miner.Entity.Timeline.{row_hashes}
use bidshard_lead_miner.Entity.Links.{HasTimeline, IsKnown}
use bidshard_lead_miner.Entity.After.{recompute_entity_heat-HasSame}
use bidshard_lead_miner.Entity.Split.{
  Outcome, refused, split, SplitError, hash_empty, hash_missing, keys_empty, SplitHashResult,
  remove_rows, hash_set, remove_hash_from_entity, clear_entity_classification, rebuild_row,
  rebuild_rows, rebuild_entity_aggregates, split_off, is_none, split_hash_from_entity,
}

elem-remove_rows :
    (rows : List EntitySighting) (hash t : String)
    → elem string_discrete t (row_hashes (remove_rows rows hash))
      ≡ ite (string_discrete hash t) false (elem string_discrete t (row_hashes rows))
unfolding remove_rows
elem-remove_rows [] hash t = ground arith
elem-remove_rows (s ∷ rows) hash t = ground (arith, elem-remove_rows rows hash t)

remove_rows-All :
    (P : EntitySighting → Type 0) (rows : List EntitySighting) (hash : String)
    → All P rows
    → All P (remove_rows rows hash)
unfolding remove_rows
remove_rows-All P [] hash h = tt
remove_rows-All P (s ∷ rows) hash h = elim (string_discrete s.hash_id hash) [
  | yes p ↦ rw (if_pos _ p) (remove_rows-All P rows hash h.1)
  | no n ↦ rw (if_neg _ n) (h.0, remove_rows-All P rows hash h.1)
]

abbrev HasTrim : EntitySighting → Type 0
HasTrim s = IsTrim s.hash_id

-- The set has the hashes that it had, and those of the rows.
elem-hash_set :
    (met : List String) (rows : List EntitySighting) (t : String)
    → All HasTrim rows
    → contains_string (hash_set met rows) t
      ≡ (contains_string met t || elem string_discrete t (row_hashes rows))
unfolding hash_set
elem-hash_set met [] t h = ground arith
elem-hash_set met (s ∷ rows) t h = elim (Bool-cases (contains_string met s.hash_id)) [
  | inl old ↦ rw (h.0.0, h.0.1, old) (ground (arith, elem-hash_set met rows t h.1, old))
  | inr new ↦
      rw (h.0.0, h.0.1, new)
        (ground (
          arith,
          elem-hash_set (met ++ s.hash_id ∷ []) rows t h.1,
          elem-append string_discrete t met (s.hash_id ∷ []),
        ))
]

module _ {F : Type 0} where
  past_if :
      (b : Bool) (x : SplitError) (y : Outcome F) (r : SplitHashResult F)
      → (if b then refused x else y) ≡ split r
      → y ≡ split r
  past_if true x y r h = cc
  past_if false x y r h = h

  past_key :
      (o : Option EntityKey) (f : EntityKey → SplitHashResult F) (x : SplitError)
      → (r : SplitHashResult F) → (elim o [ none ↦ refused x | some pk ↦ split (f pk) ]) ≡ split r
      → (pk : EntityKey) × (f pk ≡ r)
  past_key none f x r h = cc
  past_key (some pk) f x r h = (pk, cc)

module _ {F : Type 0} (e : Env F) where
  -- The rounds of the rebuild change none of these.
  record IsSteady (doc doc' : EntityDoc F) : Type 0 where
    same_id : doc'.entity_id ≡ doc.entity_id
    generation : doc'.merge_generation ≡ doc.merge_generation
    rows : doc'.sightings ≡ doc.sightings

  rebuild_rows-IsSteady :
      (doc : EntityDoc F) (rows : List EntitySighting) → IsSteady doc (rebuild_rows e doc rows)
  unfolding rebuild_rows rebuild_row
  rebuild_rows-IsSteady doc [] = record { same_id = refl; generation = refl; rows = refl }
  rebuild_rows-IsSteady doc (s ∷ rows) =
      let h = rebuild_rows-IsSteady (rebuild_row e doc s) rows in
      record { same_id = h.same_id; generation = h.generation; rows = h.rows }

  -- What is left of the source when `hash` is taken out.
  pub record IsRemainder (doc : EntityDoc F) (hash : String) (source : EntityDoc F) : Type 0 where
    pub taken :
        (t : String)
        → contains_string source.hash_ids t
          ≡ ite (string_discrete hash t) false (elem string_discrete t (row_hashes doc.sightings))
    pub rows : source.sightings ≡ remove_rows doc.sightings hash
    pub counted : source.sighting_count ≡ length source.hash_ids
    pub families_counted : source.source_count ≡ length source.source_families
    pub same_id : source.entity_id ≡ doc.entity_id
    pub generation : source.merge_generation ≡ suc doc.merge_generation

  -- Go goes through a map once, in some order.
  abbrev pub IsRange : (List String → List String) → Type 0
  IsRange range = (l : List String) (t : String) → contains_string (range l) t ≡ contains_string l t

  trimmed_rows : (doc : EntityDoc F) → HasTimeline doc → All HasTrim doc.sightings
  trimmed_rows doc l =
      All-map (IsKnown doc.hash_ids) HasTrim
        (λ s k. IsUniq-IsTrim doc.hash_ids s.hash_id l.hashes_unique k) doc.sightings l.rows_known

  abbrev removed : EntityDoc F → String → EntityDoc F
  removed doc hash =
      clear_entity_classification e
        (record (remove_hash_from_entity doc hash) { merge_generation = suc doc.merge_generation })

  rebuild-IsRemainder :
      (range : List String → List String)
      → IsRange range
      → (doc : EntityDoc F) (hash : String) (heat : HeatConfig F) (now clock : ℕ) → HasTimeline doc
      → IsRemainder doc hash (rebuild_entity_aggregates e range (removed doc hash) heat now clock)
  unfolding rebuild_entity_aggregates remove_hash_from_entity clear_entity_classification
  rebuild-IsRemainder range fair doc hash heat now clock l =
      let rows = remove_rows doc.sightings hash in
      let same = recompute_entity_heat-HasSame e _ heat now clock in
      let steady = rebuild_rows-IsSteady _ rows in
      record {
        taken = λ t.
            ap (λ (h : List String). contains_string h t) same.hashes
            ∙ fair (hash_set [] rows) t
            ∙ elem-hash_set [] rows t
                (remove_rows-All HasTrim doc.sightings hash (trimmed_rows doc l))
            ∙ elem-remove_rows doc.sightings hash t;
        rows = same.rows ∙ steady.rows;
        counted = rw (same.counted, same.hashes) refl;
        families_counted = rw (same.families_counted, same.families) refl;
        same_id = same.same_id ∙ steady.same_id;
        generation = same.generation ∙ steady.generation;
      }

  -- The new document is of its own id, with the hash of its sighting.
  detached_lem :
      (new_id : String) (pk : EntityKey) (keys : List EntityKey) (i : SightingInput)
      → (heat : HeatConfig F) (now : ℕ) (r : Readings)
      → let d = new_doc_with_heat e new_id pk keys i heat now r in
        (d.entity_id ≡ new_id) × (d.hash_ids ≡ uniq_strings (trim_space i.hash_id ∷ []))
  unfolding new_doc_with_heat
  detached_lem new_id pk keys i heat now r =
      let same =
        recompute_entity_heat-HasSame e
          (patch_sighting_timeline e (first_doc e new_id pk keys i) i r) heat now r.fallback in
      (
        same.same_id ∙ unfold patch_sighting_timeline update_entity_seen_bounds first_doc in refl,
        same.hashes ∙ unfold patch_sighting_timeline update_entity_seen_bounds first_doc in refl,
      )

  pub record IsSplit (doc : EntityDoc F) (hash : String) (keys : List EntityKey) (i : SightingInput)
      (r : SplitHashResult F) : Type 0 where
    pub remainder : IsRemainder doc hash r.source
    pub new_id : r.detached.entity_id ≡ entity_id_for_split e keys hash doc.entity_id
    pub new_hashes : r.detached.hash_ids ≡ uniq_strings (trim_space i.hash_id ∷ [])

  -- Where a split is not refused, the hash is taken out of the source: what the source has then is
  -- exactly the other hashes of the rows that it had, so that a hash whose row was trimmed away is
  -- lost with it; its rows are the others, its counters are those of its hashes and families, and
  -- it is one generation older. The new document has the id that the keys give, or one of its own
  -- where they give the source's, and the hash of its sighting.
  pub split_hash_from_entity-IsSplit :
      (range : List String → List String)
      → IsRange range
      → (doc : EntityDoc F) (hash_id : String) (keys : List EntityKey) (i : SightingInput)
      → (heat : HeatConfig F) (now : ℕ) (r : Readings) → HasTimeline doc
      → (result : SplitHashResult F)
      → split_hash_from_entity e range doc hash_id keys i heat now r ≡ split result
      → IsSplit doc (trim_space hash_id) keys i result
  unfolding split_hash_from_entity
  split_hash_from_entity-IsSplit range fair doc hash_id keys i heat now r l result h =
      let hash = trim_space hash_id in
      let new_id = entity_id_for_split e keys hash doc.entity_id in
      let known = past_if (is_empty hash) hash_empty _ result h in
      let keyed = past_if (not (entity_hash_known doc hash)) hash_missing _ result known in
      let named = past_if (is_none keys) keys_empty _ result keyed in
      let (pk, same) =
        past_key (primary_key keys) (λ pk. split_off e range doc hash new_id pk keys i heat now r)
          keys_empty result (past_if (is_empty new_id) keys_empty _ result named) in
      rw (← same) (record {
        remainder = rebuild-IsRemainder range fair doc hash heat now r.fallback l;
        new_id = (detached_lem new_id pk keys i heat now r).0;
        new_hashes = (detached_lem new_id pk keys i heat now r).1;
      })
