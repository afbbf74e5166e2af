-- ===== src/Entity/History.antt =====
-- All the sightings of one entity, against the document that they leave
-- (internal/entity/merge.go).
use Prim.Native.Nat.{min, max}
use bidshard_lead_miner.Common.{
  ℕ, ◌<◌, ◌≡◌, refl, sym, ap, ◌∙◌, false, List, [], ◌∷◌, ◌++◌, String, string_discrete,
  elem-snoc_self, length, All, arith, append_nil, append_assoc, ◌+◌,
}
use bidshard_lead_miner.Common.Text.{is_empty, trim_space, trim_space_idem}
use bidshard_lead_miner.Entity.{Env, EntityKey, EntityDoc, uniq_strings}
use bidshard_lead_miner.Entity.Sighting.{
  source_family, sighting_event_time, patch_sighting_timeline, update_entity_seen_bounds,
}
use bidshard_lead_miner.Entity.Merge.{first_doc, new_doc_with_heat}
use bidshard_lead_miner.Entity.Sets.{uniq_strings-append}
use bidshard_lead_miner.Entity.Links.{
  HasTimeline, IsTimely, timely_event, recompute_entity_heat-HasTimeline,
  patch_sighting_timeline-HasTimeline,
}
use bidshard_lead_miner.Entity.Store.{Call, Commit, merge, born, follow}
use bidshard_lead_miner.Entity.After.{
  recompute_entity_heat-HasSame, first_doc-HasTimeline, merge-IsAfter, only,
}

module _ {F : Type 0} where
  abbrev pub hashes_of : List (Commit F) → List String
  hashes_of [] = []
  hashes_of (c ∷ calls) = c.call.sighting.hash_id ∷ hashes_of calls

  -- The least and the greatest of a time and those of the sightings.
  abbrev pub earliest : ℕ → List (Commit F) → ℕ
  earliest t [] = t
  earliest t (c ∷ calls) = earliest (min t (sighting_event_time c.call.sighting 0)) calls

  abbrev pub latest : ℕ → List (Commit F) → ℕ
  latest t [] = t
  latest t (c ∷ calls) = latest (max t (sighting_event_time c.call.sighting 0)) calls

  abbrev pub AreTimely : List (Commit F) → Type 0
  AreTimely calls = All (λ (c : Commit F). IsTimely c.call.sighting) calls

module _ {F : Type 0} (e : Env F) where
  -- The document after the calls, from the one before them.
  pub record IsHistory (doc : EntityDoc F) (calls : List (Commit F)) (doc' : EntityDoc F)
      : Type 0 where
    pub timeline : HasTimeline doc'
    pub hashes : doc'.hash_ids ≡ uniq_strings (doc.hash_ids ++ hashes_of calls)
    pub same_id : doc'.entity_id ≡ doc.entity_id
    pub generation : doc'.merge_generation ≡ doc.merge_generation + length calls
    pub first : doc'.first_seen ≡ earliest doc.first_seen calls
    pub last : doc'.last_seen ≡ latest doc.last_seen calls

  pub follow-IsHistory :
      (doc : EntityDoc F) (calls : List (Commit F))
      → AreTimely calls
      → HasTimeline doc
      → 0 < doc.first_seen
      → IsHistory doc calls (follow e doc calls)
  unfolding follow
  follow-IsHistory doc [] t l p = record {
    timeline = l;
    hashes = rw (append_nil doc.hash_ids) (sym l.hashes_unique);
    same_id = refl;
    generation = omega arith;
    first = refl;
    last = refl;
  }
  follow-IsHistory doc (c ∷ calls) t l p =
      let a = merge-IsAfter e doc c.call t.0 c.atomic l in
      let h = follow-IsHistory (merge e c.atomic doc c.call) calls t.1 a.timeline a.positive in
      record {
        timeline = h.timeline;
        hashes =
            h.hashes
            ∙ ap (λ (l : List String). uniq_strings (l ++ hashes_of calls)) a.hashes
            ∙ uniq_strings-append (doc.hash_ids ++ c.call.sighting.hash_id ∷ []) (hashes_of calls)
            ∙ ap uniq_strings
                (append_assoc doc.hash_ids (c.call.sighting.hash_id ∷ []) (hashes_of calls));
        same_id = h.same_id ∙ a.same_id;
        generation = omega (arith, h.generation, a.generation);
        first = h.first ∙ ap (λ (n : ℕ). earliest n calls) (a.first p);
        last = h.last ∙ ap (λ (n : ℕ). latest n calls) a.last;
      }

  -- What the document of an entity holds after its sightings.
  pub record IsLedger (entity_id : String) (c : Call F) (calls : List (Commit F))
      (doc : EntityDoc F) : Type 0 where
    pub timeline : HasTimeline doc
    pub hashes : doc.hash_ids ≡ uniq_strings (c.sighting.hash_id ∷ hashes_of calls)
    pub same_id : doc.entity_id ≡ entity_id
    pub generation : doc.merge_generation ≡ length calls
    pub first : doc.first_seen ≡ earliest (sighting_event_time c.sighting 0) calls
    pub last : doc.last_seen ≡ latest (sighting_event_time c.sighting 0) calls

  module _ (entity_id : String) (pk : EntityKey) (c : Call F) (t : IsTimely c.sighting)
      (named : is_empty (trim_space (source_family e c.sighting.source)) ≡ false) where
    abbrev first_one : EntityDoc F
    first_one = first_doc e entity_id pk c.keys c.sighting

    first_one-known :
        (first_one.hash_ids ≡ trim_space c.sighting.hash_id ∷ [])
        × (first_one.hash_ids ≡ uniq_strings (c.sighting.hash_id ∷ []))
    unfolding first_doc
    first_one-known =
        let idem = trim_space_idem c.sighting.hash_id in
        let h : uniq_strings (trim_space c.sighting.hash_id ∷ [])
            ≡ trim_space c.sighting.hash_id ∷ [] =
          only e (trim_space c.sighting.hash_id) (rw idem t.0) ∙ ap (λ (s : String). s ∷ []) idem in
        (h, h ∙ sym (only e c.sighting.hash_id t.0))

    first_bounds :
        let d = patch_sighting_timeline e first_one c.sighting c.readings in
        (d.first_seen ≡ sighting_event_time c.sighting 0)
        × (d.last_seen ≡ sighting_event_time c.sighting 0)
    unfolding patch_sighting_timeline update_entity_seen_bounds sighting_event_time first_doc
    first_bounds = (ground (arith, t.1), ground (arith, t.1))

    pub born-IsHistory :
        let doc = born e entity_id pk c in
        HasTimeline doc
        × (doc.hash_ids ≡ uniq_strings (c.sighting.hash_id ∷ []))
        × (doc.entity_id ≡ entity_id)
        × (doc.merge_generation ≡ 0)
        × (doc.first_seen ≡ sighting_event_time c.sighting 0)
        × (doc.last_seen ≡ sighting_event_time c.sighting 0)
    unfolding born new_doc_with_heat
    born-IsHistory =
        let l = first_doc-HasTimeline e entity_id pk c.keys c.sighting t named in
        let p =
          patch_sighting_timeline-HasTimeline e first_one c.sighting c.readings t
            (rw first_one-known.0
              (elem-snoc_self string_discrete (trim_space c.sighting.hash_id) []))
            l in
        let same =
          recompute_entity_heat-HasSame e
            (patch_sighting_timeline e first_one c.sighting c.readings) c.heat c.now
            c.readings.fallback in
        (
          recompute_entity_heat-HasTimeline e _ c.heat c.now _ p,
          same.hashes
              ∙ (unfold patch_sighting_timeline update_entity_seen_bounds in first_one-known.1),
          same.same_id
              ∙ (unfold patch_sighting_timeline update_entity_seen_bounds first_doc in refl),
          same.generation
              ∙ (unfold patch_sighting_timeline update_entity_seen_bounds first_doc in refl),
          same.first ∙ first_bounds.0,
          same.last ∙ first_bounds.1,
        )

    -- A document that the first sighting of an entity makes, and the others change, holds the set of
    -- all their hashes and counts it; its rows are at most twenty, of known hashes, no hash has two,
    -- and their times lie between the first and the last time, which are the least and the greatest
    -- of all sightings; its canonical hash is known; and each call after the first is one
    -- generation. Each sighting has a hash and the time at which it was seen, and the first one a
    -- source.
    pub sightings_lem :
        (calls : List (Commit F))
        → AreTimely calls
        → IsLedger entity_id c calls (follow e (born e entity_id pk c) calls)
    sightings_lem calls ts =
        let b = born-IsHistory in
        let h =
          follow-IsHistory (born e entity_id pk c) calls ts b.0
            (rw b.4 (timely_event c.sighting 0 t)) in
        record {
          timeline = h.timeline;
          hashes =
              h.hashes
              ∙ ap (λ (l : List String). uniq_strings (l ++ hashes_of calls)) b.1
              ∙ uniq_strings-append (c.sighting.hash_id ∷ []) (hashes_of calls);
          same_id = h.same_id ∙ b.2;
          generation = omega (arith, h.generation, b.3);
          first = h.first ∙ ap (λ (n : ℕ). earliest n calls) b.4;
          last = h.last ∙ ap (λ (n : ℕ). latest n calls) b.5;
        }
