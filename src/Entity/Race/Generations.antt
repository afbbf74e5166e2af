-- ===== src/Entity/Race/Generations.antt =====
-- The generations of the writes (internal/entity/sighting_loop.go).
use bidshard_lead_miner.Common.{
  ℕ, suc, ◌≡◌, refl, ◌∙◌, Bool, true, false, List, [], ◌∷◌, ◌++◌, none, some, String, inl, inr,
  Bool-cases,
}
use bidshard_lead_miner.Common.Text.{trim_space}
use bidshard_lead_miner.Entity.{Env, EntityKey, SightingInput, EntityDoc, Readings}
use bidshard_lead_miner.Entity.Sighting.{
  entity_hash_known, patch_sighting_timeline, update_entity_seen_bounds,
}
use bidshard_lead_miner.Entity.Heat.{HeatConfig, recompute_entity_heat}
use bidshard_lead_miner.Entity.Merge.{
  first_doc, new_doc_with_heat, refresh_entity_sighting, refresh_entity_sighting_with_heat,
  count_sighting, merge_sighting_with_heat,
}
use bidshard_lead_miner.Entity.After.{recompute_entity_heat-HasSame}
use bidshard_lead_miner.Entity.Store.{
  Call, Commit, merge, merge_plain, merge_sighting_atomic, born, follow, replay,
}

module _ {F : Type 0} (e : Env F) where
  -- Each write is one generation.
  heated-generation :
      (doc : EntityDoc F) (i : SightingInput) (r : Readings) (cfg : HeatConfig F) (now clock : ℕ)
      → (recompute_entity_heat e (patch_sighting_timeline e doc i r) cfg now clock).merge_generation
        ≡ doc.merge_generation
  heated-generation doc i r cfg now clock =
      (recompute_entity_heat-HasSame e (patch_sighting_timeline e doc i r) cfg now clock).generation
      ∙ unfold patch_sighting_timeline update_entity_seen_bounds in refl

  refresh-generation :
      (doc : EntityDoc F) (i : SightingInput) (r : Readings)
      → (refresh_entity_sighting e doc i r).0.merge_generation ≡ suc doc.merge_generation
  unfolding refresh_entity_sighting refresh_entity_sighting_with_heat
  refresh-generation doc i r = heated-generation _ i r _ _ _

  merge_sighting-generation :
      (doc : EntityDoc F) (c : Call F)
      → (merge_sighting_with_heat e doc c.keys c.sighting c.heat c.now
          c.readings).0.merge_generation
        ≡ suc doc.merge_generation
  unfolding merge_sighting_with_heat
  merge_sighting-generation doc c =
      elim (Bool-cases (entity_hash_known doc (trim_space c.sighting.hash_id))) [
        | inl k ↦ rw k (refresh-generation doc c.sighting c.readings)
        | inr n ↦ rw n (
            heated-generation (count_sighting e doc c.keys c.sighting) c.sighting c.readings _ _ _
            ∙ unfold count_sighting in refl)
      ]

  atomic-generation :
      (doc : EntityDoc F) (c : Call F)
      → (merge_sighting_atomic e doc c).merge_generation ≡ suc doc.merge_generation
  unfolding merge_sighting_atomic
  atomic-generation doc c =
      elim (Bool-cases (entity_hash_known doc (trim_space c.sighting.hash_id))) [
        | inl k ↦ rw k (
            (recompute_entity_heat-HasSame e _ _ _ _).generation
            ∙ refresh-generation doc c.sighting c.readings)
        | inr n ↦ rw n (merge_sighting-generation doc c)
      ]

  pub merge-generation :
      (atomic : Bool) (doc : EntityDoc F) (c : Call F)
      → (merge e atomic doc c).merge_generation ≡ suc doc.merge_generation
  merge-generation true doc c = atomic-generation doc c
  merge-generation false doc c = unfold merge_plain in merge_sighting-generation doc c

  pub born-generation :
      (entity_id : String) (pk : EntityKey) (c : Call F)
      → (born e entity_id pk c).merge_generation ≡ 0
  unfolding born new_doc_with_heat
  born-generation entity_id pk c =
      heated-generation (first_doc e entity_id pk c.keys c.sighting) c.sighting c.readings _ _ _
      ∙ unfold first_doc in refl

  follow-snoc :
      (doc : EntityDoc F) (log : List (Commit F)) (k : Commit F)
      → follow e doc (log ++ k ∷ []) ≡ merge e k.atomic (follow e doc log) k.call
  unfolding follow
  follow-snoc doc [] k = refl
  follow-snoc doc (j ∷ log) k = follow-snoc (merge e j.atomic doc j.call) log k

  pub replay-snoc :
      (entity_id : String) (pk : EntityKey) (log : List (Commit F)) (d : EntityDoc F) (k : Commit F)
      → replay e entity_id pk log ≡ some d
      → replay e entity_id pk (log ++ k ∷ []) ≡ some (merge e k.atomic d k.call)
  unfolding replay
  replay-snoc entity_id pk [] d k h = cc
  replay-snoc entity_id pk (j ∷ log) d k h = cc (follow-snoc (born e entity_id pk j.call) log k)

  pub replay-none :
      (entity_id : String) (pk : EntityKey) (log : List (Commit F))
      → replay e entity_id pk log ≡ none
      → log ≡ []
  unfolding replay
  replay-none entity_id pk [] h = refl
  replay-none entity_id pk (j ∷ log) h = cc
