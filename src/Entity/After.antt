-- ===== src/Entity/After.antt =====
-- What one more sighting makes of a document (internal/entity/merge.go).
use Prim.Native.Nat.{min, max}
use bidshard_lead_miner.Common.{
  ℕ, suc, ◌<◌, ◌≡◌, refl, sym, ap, ◌∙◌, Bool, true, false, not, ◌&&◌, List, [], ◌∷◌, ◌++◌, String,
  string_discrete, if-cases, Bool-cases, inl, inr, elem-append, elem-snoc_self, length-append,
  All-map, arith,
}
use bidshard_lead_miner.Common.Text.{is_empty, trim_space, trim_space_idem}
use bidshard_lead_miner.Entity.{
  Env, EntityKey, SightingInput, EntityDoc, contains_string, uniq_loop, uniq_strings, union_strings,
}
use bidshard_lead_miner.Entity.Sighting.{
  source_family, sighting_event_time, update_entity_seen_bounds, patch_sighting_timeline,
  entity_hash_known,
}
use bidshard_lead_miner.Entity.Heat.{
  HeatConfig, default_heat_config, promote_canonical_by_heat, recompute_entity_heat,
}
use bidshard_lead_miner.Entity.Merge.{
  first_doc, refresh_entity_sighting, refresh_entity_sighting_with_heat, canonical_after,
  count_sighting, merge_sighting_with_heat,
}
use bidshard_lead_miner.Entity.Store.{Call, merge, merge_plain, merge_sighting_atomic}
use bidshard_lead_miner.Entity.Sets.{
  IsUniq, uniq_strings-IsUniq, uniq_strings-known, uniq_strings-new,
}
use bidshard_lead_miner.Entity.Links.{
  HasTimeline, IsTimely, IsKnown, recompute_entity_heat-HasTimeline,
  patch_sighting_timeline-HasTimeline,
}

module _ {F : Type 0} (e : Env F) where
  -- The hashes of a document with a sighting of a new one.
  hash_ids-new :
      (hashes : List String) (i : SightingInput)
      → IsUniq hashes
      → IsTimely i
      → contains_string hashes (trim_space i.hash_id) ≡ false
      → union_strings hashes (trim_space i.hash_id ∷ []) ≡ hashes ++ trim_space i.hash_id ∷ []
  unfolding union_strings uniq_strings
  hash_ids-new hashes i u t n =
      let idem = trim_space_idem i.hash_id in
      uniq_strings-new hashes (trim_space i.hash_id) u (rw idem t.0) (rw idem n)
      ∙ ap (λ (s : String). hashes ++ s ∷ []) idem

  union-IsUniq : (hashes : List String) (h : String) → IsUniq (union_strings hashes (h ∷ []))
  unfolding union_strings uniq_strings
  union-IsUniq hashes h = uniq_strings-IsUniq (hashes ++ h ∷ [])

  elem-grown :
      (hashes : List String) (h s : String)
      → contains_string hashes s ≡ true
      → contains_string (hashes ++ h ∷ []) s ≡ true
  elem-grown hashes h s k = ground (arith, k, elem-append string_discrete s hashes (h ∷ []))

  pub only :
      (s : String) → is_empty (trim_space s) ≡ false → uniq_strings (s ∷ []) ≡ trim_space s ∷ []
  only s n = uniq_strings-new [] s (unfold uniq_strings uniq_loop in refl) n refl

  canonical_after_cases :
      (P : String → Type 0) (buyer_role : Bool) (doc : EntityDoc F) (hash : String)
      → P hash
      → P doc.canonical_hash
      → P (canonical_after e buyer_role doc hash)
  unfolding canonical_after
  canonical_after_cases P buyer_role doc hash h k =
      if-cases P (is_empty doc.canonical_hash) (λ _. h)
        (λ _. if-cases P (buyer_role && not doc.buyer_role_seen) (λ _. h) (λ _. k))

  count_sighting-HasTimeline :
      (doc : EntityDoc F) (keys : List EntityKey) (i : SightingInput)
      → IsTimely i
      → contains_string doc.hash_ids (trim_space i.hash_id) ≡ false
      → HasTimeline doc
      → HasTimeline (count_sighting e doc keys i)
  unfolding count_sighting
  count_sighting-HasTimeline doc keys i t n l =
      let hash = trim_space i.hash_id in
      let grown = hash_ids-new doc.hash_ids i l.hashes_unique t n in
      record {
        hashes_unique = rw grown (rw (← grown) (union-IsUniq doc.hash_ids hash));
        hashes_counted =
            rw grown (omega (arith, l.hashes_counted, length-append doc.hash_ids (hash ∷ [])));
        families_counted = refl;
        canonical_known = rw grown (
            canonical_after_cases (λ s. contains_string (doc.hash_ids ++ hash ∷ []) s ≡ true) _ doc
              hash (elem-snoc_self string_discrete hash doc.hash_ids)
              (elem-grown doc.hash_ids hash _ l.canonical_known));
        rows_known = rw grown (
            All-map (IsKnown doc.hash_ids) (IsKnown (doc.hash_ids ++ hash ∷ []))
              (λ s k. elem-grown doc.hash_ids hash s.hash_id k) doc.sightings l.rows_known);
        rows_distinct = l.rows_distinct;
        rows_few = l.rows_few;
        rows_within = l.rows_within;
        ordered = l.ordered;
      }

  pub first_doc-HasTimeline :
      (entity_id : String) (pk : EntityKey) (keys : List EntityKey) (i : SightingInput)
      → IsTimely i
      → is_empty (trim_space (source_family e i.source)) ≡ false
      → HasTimeline (first_doc e entity_id pk keys i)
  unfolding first_doc
  first_doc-HasTimeline entity_id pk keys i t n =
      let hashes =
        only (trim_space i.hash_id) (rw (trim_space_idem i.hash_id) t.0)
        ∙ ap (λ (s : String). s ∷ []) (trim_space_idem i.hash_id) in
      record {
        hashes_unique = uniq_strings-IsUniq (trim_space i.hash_id ∷ []);
        hashes_counted = rw hashes refl;
        families_counted = rw (only (source_family e i.source) n) refl;
        canonical_known = rw hashes (elem-snoc_self string_discrete (trim_space i.hash_id) []);
        rows_known = tt;
        rows_distinct = tt;
        rows_few = omega arith;
        rows_within = tt;
        ordered = omega arith;
      }

  -- The heat changes none of these.
  pub record HasSame (doc doc' : EntityDoc F) : Type 0 where
    pub hashes : doc'.hash_ids ≡ doc.hash_ids
    pub same_id : doc'.entity_id ≡ doc.entity_id
    pub generation : doc'.merge_generation ≡ doc.merge_generation
    pub first : doc'.first_seen ≡ doc.first_seen
    pub last : doc'.last_seen ≡ doc.last_seen
    pub counted : doc'.sighting_count ≡ doc.sighting_count
    pub families : doc'.source_families ≡ doc.source_families
    pub families_counted : doc'.source_count ≡ doc.source_count
    pub rows : doc'.sightings ≡ doc.sightings

  pub recompute_entity_heat-HasSame :
      (doc : EntityDoc F) (cfg : HeatConfig F) (now clock : ℕ)
      → HasSame doc (recompute_entity_heat e doc cfg now clock)
  unfolding recompute_entity_heat promote_canonical_by_heat
  recompute_entity_heat-HasSame doc cfg now clock =
      if-cases (HasSame doc) (not cfg.enabled)
        (λ _. record {
          hashes = refl;
          same_id = refl;
          generation = refl;
          first = refl;
          last = refl;
          counted = refl;
          families = refl;
          families_counted = refl;
          rows = refl;
        })
        (λ _. record {
          hashes = refl;
          same_id = refl;
          generation = refl;
          first = refl;
          last = refl;
          counted = refl;
          families = refl;
          families_counted = refl;
          rows = refl;
        })

  -- What one more sighting makes of a document.
  pub record IsAfter (i : SightingInput) (doc doc' : EntityDoc F) : Type 0 where
    pub timeline : HasTimeline doc'
    pub hashes : doc'.hash_ids ≡ uniq_strings (doc.hash_ids ++ i.hash_id ∷ [])
    pub same_id : doc'.entity_id ≡ doc.entity_id
    pub generation : doc'.merge_generation ≡ suc doc.merge_generation
    pub first : 0 < doc.first_seen → doc'.first_seen ≡ min doc.first_seen (sighting_event_time i 0)
    pub positive : 0 < doc'.first_seen
    pub last : doc'.last_seen ≡ max doc.last_seen (sighting_event_time i 0)

  -- A document whose sets and counters are up to date, with its rows, its bounds and its heat.
  module _ (doc : EntityDoc F) (c : Call F) (t : IsTimely c.sighting) where
    abbrev i : SightingInput
    i = c.sighting

    pub patched_bounds :
        (counted : EntityDoc F)
        → let d = patch_sighting_timeline e counted c.sighting c.readings in
          (0 < d.first_seen)
          × (0 < counted.first_seen
              → d.first_seen ≡ min counted.first_seen (sighting_event_time c.sighting 0))
          × (d.last_seen ≡ max counted.last_seen (sighting_event_time c.sighting 0))
    unfolding patch_sighting_timeline update_entity_seen_bounds sighting_event_time
    patched_bounds counted = (ground (arith, t.1), λ q. ground (arith, t.1, q), ground (arith, t.1))

    heated-IsAfter :
        (heat : HeatConfig F) (now : ℕ) (counted : EntityDoc F)
        → HasTimeline counted
        → contains_string counted.hash_ids (trim_space c.sighting.hash_id) ≡ true
        → counted.hash_ids ≡ uniq_strings (doc.hash_ids ++ c.sighting.hash_id ∷ [])
        → counted.entity_id ≡ doc.entity_id
        → counted.merge_generation ≡ suc doc.merge_generation
        → counted.first_seen ≡ doc.first_seen
        → counted.last_seen ≡ doc.last_seen
        → IsAfter c.sighting doc (
            recompute_entity_heat e
              (patch_sighting_timeline e counted c.sighting c.readings)
              heat
              now
              c.readings.fallback)
    heated-IsAfter heat now counted l k h id g f m =
        let p = patch_sighting_timeline-HasTimeline e counted i c.readings t k l in
        let same =
          recompute_entity_heat-HasSame (patch_sighting_timeline e counted i c.readings) heat now
            c.readings.fallback in
        let b = patched_bounds counted in
        record {
          timeline = recompute_entity_heat-HasTimeline e _ heat now _ p;
          hashes = same.hashes ∙ unfold patch_sighting_timeline update_entity_seen_bounds in h;
          same_id = same.same_id ∙ unfold patch_sighting_timeline update_entity_seen_bounds in id;
          generation =
              same.generation ∙ unfold patch_sighting_timeline update_entity_seen_bounds in g;
          first = λ q. omega (arith, same.first, b.1 (omega (arith, q, f)), f);
          positive = omega (arith, same.first, b.0);
          last = omega (arith, same.last, b.2, m);
        }

    abbrev idem : trim_space (trim_space c.sighting.hash_id) ≡ trim_space c.sighting.hash_id
    idem = trim_space_idem c.sighting.hash_id

    known_hash :
        entity_hash_known doc (trim_space c.sighting.hash_id) ≡ true
        → contains_string doc.hash_ids (trim_space c.sighting.hash_id) ≡ true
    unfolding entity_hash_known
    known_hash k = ground (arith, rw idem at k)

    new_hash :
        entity_hash_known doc (trim_space c.sighting.hash_id) ≡ false
        → contains_string doc.hash_ids (trim_space c.sighting.hash_id) ≡ false
    unfolding entity_hash_known
    new_hash k = ground (arith, rw idem at k, t.0)

    refresh-IsAfter :
        HasTimeline doc
        → contains_string doc.hash_ids (trim_space c.sighting.hash_id) ≡ true
        → IsAfter c.sighting doc (refresh_entity_sighting e doc c.sighting c.readings).0
    unfolding refresh_entity_sighting refresh_entity_sighting_with_heat
    refresh-IsAfter l k =
        heated-IsAfter (default_heat_config e) c.readings.refresh
          (record doc { merge_generation = suc doc.merge_generation })
          (record {
            hashes_unique = l.hashes_unique;
            hashes_counted = l.hashes_counted;
            families_counted = l.families_counted;
            canonical_known = l.canonical_known;
            rows_known = l.rows_known;
            rows_distinct = l.rows_distinct;
            rows_few = l.rows_few;
            rows_within = l.rows_within;
            ordered = l.ordered;
          })
          k (sym (uniq_strings-known doc.hash_ids c.sighting.hash_id l.hashes_unique k)) refl refl
          refl refl

    count-IsAfter :
        HasTimeline doc
        → contains_string doc.hash_ids (trim_space c.sighting.hash_id) ≡ false
        → IsAfter c.sighting doc (
            recompute_entity_heat e
              (patch_sighting_timeline e
                (count_sighting e doc c.keys c.sighting)
                c.sighting
                c.readings)
              c.heat
              c.now
              c.readings.fallback)
    count-IsAfter l n =
        let grown = hash_ids-new doc.hash_ids c.sighting l.hashes_unique t n in
        let counted = count_sighting-HasTimeline doc c.keys c.sighting t n l in
        heated-IsAfter c.heat c.now (count_sighting e doc c.keys c.sighting) counted
          (unfold count_sighting in
            rw grown (elem-snoc_self string_discrete (trim_space c.sighting.hash_id) doc.hash_ids))
          (unfold count_sighting in
            grown ∙ sym (uniq_strings-new doc.hash_ids c.sighting.hash_id l.hashes_unique t.0 n))
          (unfold count_sighting in refl) (unfold count_sighting in refl)
          (unfold count_sighting in refl) (unfold count_sighting in refl)

    merge_sighting-IsAfter :
        HasTimeline doc
        → IsAfter c.sighting doc
            (merge_sighting_with_heat e doc c.keys c.sighting c.heat c.now c.readings).0
    unfolding merge_sighting_with_heat
    merge_sighting-IsAfter l =
        elim (Bool-cases (entity_hash_known doc (trim_space c.sighting.hash_id))) [
          | inl k ↦ rw k (refresh-IsAfter l (known_hash k))
          | inr n ↦ rw n (count-IsAfter l (new_hash n))
        ]

    merge_plain-IsAfter : HasTimeline doc → IsAfter c.sighting doc (merge_plain e doc c)
    unfolding merge_plain
    merge_plain-IsAfter l = merge_sighting-IsAfter l

    heat-IsAfter :
        (heat : HeatConfig F) (now clock : ℕ) (doc' : EntityDoc F)
        → IsAfter c.sighting doc doc'
        → IsAfter c.sighting doc (recompute_entity_heat e doc' heat now clock)
    heat-IsAfter heat now clock doc' a =
        let same = recompute_entity_heat-HasSame doc' heat now clock in
        record {
          timeline = recompute_entity_heat-HasTimeline e doc' heat now clock a.timeline;
          hashes = same.hashes ∙ a.hashes;
          same_id = same.same_id ∙ a.same_id;
          generation = same.generation ∙ a.generation;
          first = λ q. same.first ∙ a.first q;
          positive = omega (arith, same.first, a.positive);
          last = same.last ∙ a.last;
        }

    merge_sighting_atomic-IsAfter :
        HasTimeline doc → IsAfter c.sighting doc (merge_sighting_atomic e doc c)
    unfolding merge_sighting_atomic
    merge_sighting_atomic-IsAfter l =
        let plain = merge_sighting-IsAfter l in
        elim (Bool-cases (entity_hash_known doc (trim_space c.sighting.hash_id))) [
          | inl k ↦ rw k (heat-IsAfter _ _ _ _ (refresh-IsAfter l (known_hash k)))
          | inr n ↦ rw n plain
        ]

    pub merge-IsAfter :
        (atomic : Bool) → HasTimeline doc → IsAfter c.sighting doc (merge e atomic doc c)
    merge-IsAfter true l = merge_sighting_atomic-IsAfter l
    merge-IsAfter false l = merge_plain-IsAfter l
