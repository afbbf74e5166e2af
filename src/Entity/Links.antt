-- ===== src/Entity/Links.antt =====
-- What holds of every document of the entity graph (internal/entity/merge.go, sighting.go,
-- heat.go).
use bidshard_lead_miner.Common.{
  ℕ, ◌≤◌, ◌<◌, ◌≡◌, refl, true, false, not, List, [], ◌∷◌, String, string_discrete, ◌⊎◌, inl, inr,
  if◌then◌else◌, if-cases, length, Distinct, All, All-map, arith,
}
use bidshard_lead_miner.Common.Text.{is_empty, trim_space}
use bidshard_lead_miner.Entity.{
  Env, SightingInput, EntitySighting, EntityDoc, Readings, contains_string,
}
use bidshard_lead_miner.Entity.Sighting.{
  sighting_event_time, sighting_event_time_of, sighting_seen_at, refresh_row, build_entity_sighting,
  update_entity_seen_bounds, patch_sighting_timeline,
}
use bidshard_lead_miner.Entity.Heat.{
  HeatConfig, best_loop, promote_canonical_by_heat, recompute_entity_heat, normalize_heat_config,
}
use bidshard_lead_miner.Entity.Sets.{IsUniq}
use bidshard_lead_miner.Entity.Timeline.{row_hashes}
use bidshard_lead_miner.Entity.Rows.{
  append_or_refresh-All, append_or_refresh-Distinct, append_or_refresh-IsTrimmed,
}

-- The event of a row lies between the first and the last time of its document.
abbrev pub Within : ℕ → ℕ → EntitySighting → Type 0
Within first last s =
    (0 < first) × (first ≤ sighting_event_time_of s) × (sighting_event_time_of s ≤ last)

abbrev pub IsKnown : List String → EntitySighting → Type 0
IsKnown hashes s = contains_string hashes s.hash_id ≡ true

-- The hashes are a set and counted; the families are counted; the rows are of known hashes, no
-- hash has two, they are twenty at most, and their times lie within the bounds.
pub record HasTimeline {F : Type 0} (doc : EntityDoc F) : Type 0 where
  pub hashes_unique : IsUniq doc.hash_ids
  pub hashes_counted : doc.sighting_count ≡ length doc.hash_ids
  pub families_counted : doc.source_count ≡ length doc.source_families
  pub canonical_known : contains_string doc.hash_ids doc.canonical_hash ≡ true
  pub rows_known : All (IsKnown doc.hash_ids) doc.sightings
  pub rows_distinct : Distinct string_discrete (row_hashes doc.sightings)
  pub rows_few : length doc.sightings ≤ 20
  pub rows_within : All (Within doc.first_seen doc.last_seen) doc.sightings
  pub ordered : doc.first_seen ≤ doc.last_seen

-- A sighting as the pipeline makes it: with a hash, and with the time at which it was seen.
abbrev pub IsTimely : SightingInput → Type 0
IsTimely i = (is_empty (trim_space i.hash_id) ≡ false) × (0 < i.seen_at)

-- The hash of a sighting that the pipeline makes does not need its clock.
pub timely_event : (i : SightingInput) (now : ℕ) → IsTimely i → 0 < sighting_event_time i now
unfolding sighting_event_time
timely_event i now t = ground (arith, t.1)

module _ {F : Type 0} (e : Env F) where
  module _ (doc : EntityDoc F) (i : SightingInput) (r : Readings) (timely : IsTimely i) where
    abbrev patched : EntityDoc F
    patched = update_entity_seen_bounds doc i r.event

    Within-widen :
        (s : EntitySighting)
        → Within doc.first_seen doc.last_seen s
        → Within patched.first_seen patched.last_seen s
    unfolding update_entity_seen_bounds
    Within-widen s w = ground (arith, w, timely_event i r.event timely)

    Within-refresh_row :
        (s : EntitySighting)
        → Within doc.first_seen doc.last_seen s
        → Within patched.first_seen patched.last_seen (refresh_row i (sighting_seen_at i r.seen) s)
    unfolding update_entity_seen_bounds refresh_row sighting_seen_at sighting_event_time
        sighting_event_time_of
    Within-refresh_row s w = ground (arith, w, timely.1)

    Within-build_entity_sighting :
        Within patched.first_seen patched.last_seen (build_entity_sighting e i r.row)
    unfolding update_entity_seen_bounds build_entity_sighting sighting_seen_at sighting_event_time
        sighting_event_time_of
    Within-build_entity_sighting = ground (arith, timely.1)

    ordered-update_entity_seen_bounds :
        doc.first_seen ≤ doc.last_seen → patched.first_seen ≤ patched.last_seen
    unfolding update_entity_seen_bounds
    ordered-update_entity_seen_bounds h = ground (arith, h)

  -- The best hash has what the first one and those of the rows have.
  best_loop-All :
      (P : String → Type 0) (cfg : HeatConfig F) (now : ℕ) (rows : List EntitySighting)
      → (best : String) (weight : F) → P best
      → All (λ s. P s.hash_id) rows
      → P (best_loop e cfg now best weight rows)
  unfolding best_loop
  best_loop-All P cfg now [] best weight b h = b
  best_loop-All P cfg now (s ∷ rows) best weight b h =
      best_loop-All P cfg now rows _ _ (if-cases P _ (λ _. h.0) (λ _. b)) h.1

  -- The hash of nothing, or one that is known.
  abbrev IsNoneOrKnown : List String → String → Type 0
  IsNoneOrKnown hashes t = (is_empty t ≡ true) ⊎ (contains_string hashes t ≡ true)

  promoted-known :
      (doc : EntityDoc F) (best : String)
      → HasTimeline doc
      → IsNoneOrKnown doc.hash_ids best
      → contains_string doc.hash_ids (if is_empty best then doc.canonical_hash else best) ≡ true
  promoted-known doc best l (inl n) = rw n l.canonical_known
  promoted-known doc best l (inr k) =
      if-cases (λ t. contains_string doc.hash_ids t ≡ true) (is_empty best) (λ _. l.canonical_known)
        (λ _. k)

  pub recompute_entity_heat-HasTimeline :
      (doc : EntityDoc F) (cfg : HeatConfig F) (now clock : ℕ)
      → HasTimeline doc
      → HasTimeline (recompute_entity_heat e doc cfg now clock)
  unfolding recompute_entity_heat promote_canonical_by_heat
  recompute_entity_heat-HasTimeline doc cfg now clock l =
      if-cases HasTimeline (not cfg.enabled) (λ _. l)
        (λ _. record {
          hashes_unique = l.hashes_unique;
          hashes_counted = l.hashes_counted;
          families_counted = l.families_counted;
          canonical_known = promoted-known doc _ l (
              best_loop-All (IsNoneOrKnown doc.hash_ids) (normalize_heat_config e cfg) _
                doc.sightings "" _ (inl refl)
                (All-map (IsKnown doc.hash_ids) (λ s. IsNoneOrKnown doc.hash_ids s.hash_id)
                  (λ s k. inr k) doc.sightings l.rows_known));
          rows_known = l.rows_known;
          rows_distinct = l.rows_distinct;
          rows_few = l.rows_few;
          rows_within = l.rows_within;
          ordered = l.ordered;
        })

  -- The timeline and the bounds with a sighting whose hash the document knows.
  pub patch_sighting_timeline-HasTimeline :
      (doc : EntityDoc F) (i : SightingInput) (r : Readings)
      → IsTimely i
      → contains_string doc.hash_ids (trim_space i.hash_id) ≡ true
      → HasTimeline doc
      → HasTimeline (patch_sighting_timeline e doc i r)
  unfolding patch_sighting_timeline update_entity_seen_bounds
  patch_sighting_timeline-HasTimeline doc i r t k l = record {
    hashes_unique = l.hashes_unique;
    hashes_counted = l.hashes_counted;
    families_counted = l.families_counted;
    canonical_known = l.canonical_known;
    rows_known =
        append_or_refresh-All e i r (IsKnown doc.hash_ids) (IsKnown doc.hash_ids) (λ s h. h)
          (λ s h. unfold refresh_row in h) (unfold build_entity_sighting in k) doc.sightings
          l.rows_known;
    rows_distinct = append_or_refresh-Distinct e i r doc.sightings l.rows_distinct;
    rows_few = (append_or_refresh-IsTrimmed e i r doc.sightings t.0).few;
    rows_within =
        append_or_refresh-All e i r (Within doc.first_seen doc.last_seen) _ (Within-widen doc i r t)
          (Within-refresh_row doc i r t) (Within-build_entity_sighting doc i r t) doc.sightings
          l.rows_within;
    ordered = ordered-update_entity_seen_bounds doc i r t l.ordered;
  }
