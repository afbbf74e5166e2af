-- ===== src/Pipeline/Process/Frame.antt =====
-- What the steps on the shared state leave as it is (internal/pipeline/processor.go).
use bidshard_lead_miner.Common.{
  ℕ, Bool, true, false, List, [], ◌∷◌, Option, none, some, String, string_discrete, elem, ◌≡◌, refl,
  ◌∙◌, arith,
}
use bidshard_lead_miner.Seen.{SeenCache, seen}
use bidshard_lead_miner.Seen.Invariant.{Inv, evict_expired_locked-Inv}
use bidshard_lead_miner.Seen.Marking.{mark_lem}
use bidshard_lead_miner.Pipeline.Types.{Config, Junk}
use bidshard_lead_miner.Pipeline.Process.{
  World, EntityResult, capture, mark_seen, seen_hit, acquire_hash, remove_all,
  record_entity_sighting, patch_canonical_lead, sight_known,
}

abbrev pub OptionInv : Option SeenCache → Type 0
OptionInv none = Unit {0}
OptionInv (some c) = Inv c

-- The seen cache, if there is one, is sound.
unfoldable pub CacheInv : World → Type 0
CacheInv w = OptionInv w.seen_cache

-- What the steps on the cache leave as it is.
pub record Frame (w w' : World) : Type 0 where
  pub inflight : w'.inflight ≡ w.inflight
  pub accepted : w'.accepted ≡ w.accepted
  pub saved : w'.saved ≡ w.saved

pub Frame-refl : {w : World} → Frame w w
Frame-refl = record { inflight = refl; accepted = refl; saved = refl }

pub Frame-trans : {u v w : World} → Frame u v → Frame v w → Frame u w
Frame-trans f g = record {
  inflight = g.inflight ∙ f.inflight;
  accepted = g.accepted ∙ f.accepted;
  saved = g.saved ∙ f.saved;
}

pub mark_seen_cases :
    (w : World) (id : String) (at : ℕ) (o : Option SeenCache)
    → w.seen_cache ≡ o
    → OptionInv o
    → (w' : World) × (mark_seen w id at ≡ some w') × CacheInv w' × Frame w w'
unfolding mark_seen CacheInv
mark_seen_cases w id at none e v =
    (w, rw e refl, rw e v, record { inflight = refl; accepted = refl; saved = refl })
mark_seen_cases w id at (some c) e v =
    let (c', run, m) = mark_lem c id at v in
    (
      record w { seen_cache = some c' },
      ground (arith, e, run),
      m.inv,
      record { inflight = refl; accepted = refl; saved = refl },
    )

pub mark_seen_lem :
    (w : World) (id : String) (at : ℕ)
    → CacheInv w
    → (w' : World) × (mark_seen w id at ≡ some w') × CacheInv w' × Frame w w'
unfolding CacheInv
mark_seen_lem w id at v = mark_seen_cases w id at w.seen_cache refl v

pub sight_known_lem :
    (p : Config) (w : World) (id : String) (r : EntityResult) (patchable : Bool)
    → CacheInv w
    → CacheInv (sight_known p w id r patchable) × Frame w (sight_known p w id r patchable)
unfolding sight_known record_entity_sighting patch_canonical_lead CacheInv
sight_known_lem p w id r patchable v = (
  ground arith,
  record { inflight = ground arith; accepted = ground arith; saved = ground arith },
)

pub record_entity_sighting_lem :
    (p : Config) (w : World) (id : String) (r : EntityResult)
    → CacheInv w
    → CacheInv (record_entity_sighting p w id r).0 × Frame w (record_entity_sighting p w id r).0
unfolding record_entity_sighting CacheInv
record_entity_sighting_lem p w id r v = (
  ground arith,
  record { inflight = ground arith; accepted = ground arith; saved = ground arith },
)

pub capture_lem :
    (w : World) (j : Option Junk) → CacheInv w → CacheInv (capture w j) × Frame w (capture w j)
unfolding capture CacheInv
capture_lem w none v = (v, Frame-refl)
capture_lem w (some j) v = (v, record { inflight = refl; accepted = refl; saved = refl })

pub seen_hit_cases :
    (w : World) (id : String) (now later : ℕ) (o : Option SeenCache)
    → w.seen_cache ≡ o
    → OptionInv o
    → CacheInv (seen_hit w id now later).0 × Frame w (seen_hit w id now later).0
unfolding seen_hit CacheInv seen
seen_hit_cases w id now later none e v = ground arith
seen_hit_cases w id now later (some c) e v = ground (arith, evict_expired_locked-Inv now c v)

-- To release what was acquired gives the hashes in work back.
pub remove_all-fresh :
    (id : String) (xs : List String) → elem string_discrete id xs ≡ false → remove_all id xs ≡ xs
unfolding remove_all
remove_all-fresh id [] h = refl
remove_all-fresh id (x ∷ xs) h = ground (arith, remove_all-fresh id xs)

pub acquire_hash_held :
    (w : World) (id : String)
    → elem string_discrete id w.inflight ≡ true
    → acquire_hash w id ≡ (w, false)
unfolding acquire_hash
acquire_hash_held w id e = rw e refl

pub acquire_hash_free :
    (w : World) (id : String)
    → elem string_discrete id w.inflight ≡ false
    → acquire_hash w id ≡ (record w { inflight = id ∷ w.inflight }, true)
unfolding acquire_hash
acquire_hash_free w id e = rw e refl
