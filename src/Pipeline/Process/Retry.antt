-- ===== src/Pipeline/Process/Retry.antt =====
-- Hashes that the cache has seen, and leads whose upsert failed (internal/pipeline/processor.go).
use bidshard_lead_miner.Common.{
  ℕ, ◌+◌, ◌≤◌, ◌<◌, Bool, true, false, ◌&&◌, ◌∷◌, some, String, string_discrete, elem, ◌≡◌, refl,
  ◌≢◌, ◌∙◌, arith, ite-refuted,
}
use bidshard_lead_miner.Seen.{SeenCache, seen, mark}
use bidshard_lead_miner.Seen.Invariant.{Inv, evict_expired_locked-Inv, evict_expired_locked_config}
use bidshard_lead_miner.Seen.History.{mark-seen}
use bidshard_lead_miner.Pipeline.Types.{Config, Facts, go, no_outcome}
use bidshard_lead_miner.Pipeline.Screen.{Draft, Scored}
use bidshard_lead_miner.Pipeline.Process.{
  World, EntityResult, mark_seen, seen_hit, release_hash, record_entity_sighting, dedup_outcome,
  sight_known,
}
use bidshard_lead_miner.Pipeline.Process.Review.{review}
use bidshard_lead_miner.Pipeline.Process.Hash.{
  clusters, Services, upsert_failed, store_lead, accept_lead, process_reviewed, process_new,
  process_acquired, process_hash,
}
use bidshard_lead_miner.Pipeline.Process.Frame.{CacheInv, sight_known_lem, acquire_hash_free}

seen_hit-some :
    (w : World) (id : String) (now later : ℕ) (c : SeenCache)
    → w.seen_cache ≡ some c
    → seen_hit w id now later
      ≡ (record w { seen_cache = some (seen c id now later).0 }, (seen c id now later).1)
unfolding seen_hit
seen_hit-some w id now later c e = rw e refl

-- A hash that the cache has seen is a duplicate, whatever the store and the services say.
pub process_hash-seen :
    (p : Config) (f : Facts) (w : World) (d : Draft) (v : Services) (c : SeenCache)
    → d.hash_id ≢ ""
    → w.seen_cache ≡ some c
    → (seen c d.hash_id v.seen_now v.seen_later).1 ≡ true
    → process_hash p f w d v
      ≡ some (
        sight_known p
            (record w { seen_cache = some (seen c d.hash_id v.seen_now v.seen_later).0 })
            d.hash_id
            v.entity
            v.patchable,
        dedup_outcome,
      )
unfolding process_hash
process_hash-seen p f w d v c full e hit =
    ite-refuted (string_discrete d.hash_id "") _ _ full
    ∙ rw (seen_hit-some w d.hash_id v.seen_now v.seen_later c e, hit) refl

-- A new hash whose lead the review lets pass and whose upsert fails.
pub record Fails (p : Config) (f : Facts) (w : World) (d : Draft) (v : Services) (s : Scored)
    : Type 0 where
  pub has : p.has_store ≡ true
  pub reads : v.exists_fails ≡ false
  pub new : v.exists_says w.saved d.hash_id ≡ false
  pub unsaved : elem string_discrete d.hash_id w.saved ≡ false
  pub single : (clusters p d.scored.priority && v.cluster_duplicate) ≡ false
  pub passes : review p f d.contacts v.answers d.scored ≡ go s
  pub broken : v.upsert ≡ upsert_failed

and-false : (a : Bool) {b : Bool} → b ≡ false → (a && b) ≡ false
and-false a h = ground arith

process_acquired_failed :
    (p : Config) (f : Facts) (w w' : World) (d : Draft) (v : Services) (s : Scored)
    → Fails p f w d v s
    → mark_seen w d.hash_id v.reserve_at ≡ some w'
    → process_acquired p f w d v
      ≡ some ((record_entity_sighting p w' d.hash_id v.entity).0, no_outcome)
unfolding process_acquired process_new process_reviewed accept_lead store_lead
process_acquired_failed p f w w' d v s h run =
    rw (and-false p.has_store h.reads, and-false p.has_store h.new, run, h.single, h.passes)
      (simp (h.has, h.broken))

-- The cache after the look-up of an id, sound as it was.
seen_config :
    (c : SeenCache) (id : String) (now later : ℕ)
    → Inv c
    → let c' = (seen c id now later).0 in Inv c' × (c'.max_size ≡ c.max_size) × (c'.ttl ≡ c.ttl)
unfolding seen
seen_config c id now later v =
    let e = evict_expired_locked_config now c v in (evict_expired_locked-Inv now c v, e.0, e.1)

mark_seen-some :
    (w : World) (id : String) (at : ℕ) {c c' : SeenCache}
    → w.seen_cache ≡ some c
    → mark c id at ≡ some c'
    → mark_seen w id at ≡ some (record w { seen_cache = some c' })
unfolding mark_seen
mark_seen-some w id at e run = ground (arith, e, run)

-- What the first run leaves.
record Lost (w : World) (id : String) (c' : SeenCache) (w₁ : World) : Type 0 where
  cached : w₁.seen_cache ≡ some c'
  absent : w₁.saved ≡ w.saved
  unlogged : w₁.accepted ≡ w.accepted

left_behind : Config → World → String → EntityResult → SeenCache → World
left_behind p w id r c' =
    release_hash
      (record_entity_sighting p (record w { inflight = id ∷ w.inflight; seen_cache = some c' }) id
        r).0
      id

left_behind-Lost :
    (p : Config) (w : World) (id : String) (r : EntityResult) (c' : SeenCache)
    → Lost w id c' (left_behind p w id r c')
unfolding left_behind release_hash record_entity_sighting
left_behind-Lost p w id r c' = record {
  cached = ground arith;
  absent = ground arith;
  unlogged = ground arith;
}

process_hash_failed :
    (p : Config) (f : Facts) (w : World) (d : Draft) (v : Services) (s : Scored) (c c' : SeenCache)
    → d.hash_id ≢ ""
    → w.seen_cache ≡ some c
    → (seen c d.hash_id v.seen_now v.seen_later).1 ≡ false
    → elem string_discrete d.hash_id w.inflight ≡ false
    → Fails p f w d v s
    → mark (seen c d.hash_id v.seen_now v.seen_later).0 d.hash_id v.reserve_at ≡ some c'
    → process_hash p f w d v ≡ some (left_behind p w d.hash_id v.entity c', no_outcome)
unfolding process_hash left_behind
process_hash_failed p f w d v s c c' full e miss free h run =
    let w₁ = record w { seen_cache = some (seen c d.hash_id v.seen_now v.seen_later).0 } in
    let w₂ = record w₁ { inflight = d.hash_id ∷ w.inflight } in
    let step =
      process_acquired_failed p f w₂ _ d v s
        (record {
          has = h.has;
          reads = h.reads;
          new = h.new;
          unsaved = h.unsaved;
          single = h.single;
          passes = h.passes;
          broken = h.broken;
        })
        (mark_seen-some w₂ d.hash_id v.reserve_at refl run) in
    ite-refuted (string_discrete d.hash_id "") _ _ full
    ∙ rw
        (
          seen_hit-some w d.hash_id v.seen_now v.seen_later c e,
          miss,
          acquire_hash_free w₁ d.hash_id free,
        )
        (rw step refl)

-- The defect: a lead of a new hash that passes the review and whose upsert fails is lost, where
-- there are a store and a sound seen cache. The run refuses it with no reason, and a retry before
-- the lifetime of the cache has passed is refused as a duplicate, while no upsert of it was ever
-- acknowledged and the log of accepted leads does not have it.
pub upsert_failure_loses_lead :
    (p : Config) (f : Facts) (w : World) (d : Draft) (v v' : Services) (s : Scored) (c : SeenCache)
    → d.hash_id ≢ ""
    → w.seen_cache ≡ some c
    → Inv c
    → 0 < c.max_size
    → (seen c d.hash_id v.seen_now v.seen_later).1 ≡ false
    → elem string_discrete d.hash_id w.inflight ≡ false
    → Fails p f w d v s
    → v'.seen_now ≤ v'.seen_later
    → v'.seen_later ≤ v.reserve_at + c.ttl
    → (w₁ : World) × (w₂ : World) × (process_hash p f w d v ≡ some (w₁, no_outcome))
      × (process_hash p f w₁ d v' ≡ some (w₂, dedup_outcome))
      × (elem string_discrete d.hash_id w₂.saved ≡ false)
      × (w₂.accepted ≡ w.accepted)
unfolding CacheInv
upsert_failure_loses_lead p f w d v v' s c full e inv room miss free h order soon =
    let id = d.hash_id in
    let (inv₁, same_max, same_ttl) = seen_config c id v.seen_now v.seen_later inv in
    let (c', run, inv', answer) =
      mark-seen (seen c id v.seen_now v.seen_later).0 id v.reserve_at v'.seen_now v'.seen_later inv₁
        (omega (arith, same_max, room)) order in
    let w₁ = left_behind p w id v.entity c' in
    let left = left_behind-Lost p w id v.entity c' in
    let w₁' = record w₁ { seen_cache = some (seen c' id v'.seen_now v'.seen_later).0 } in
    let known =
      (sight_known_lem p w₁' id v'.entity v'.patchable
        (seen_config c' id v'.seen_now v'.seen_later inv').0).1 in
    (
      w₁,
      sight_known p w₁' id v'.entity v'.patchable,
      process_hash_failed p f w d v s c c' full e miss free h run,
      process_hash-seen p f w₁ d v' c' full left.cached (ground (arith, answer, same_ttl, soon)),
      ground (arith, known.saved, left.absent, h.unsaved),
      known.accepted ∙ left.unlogged,
    )
