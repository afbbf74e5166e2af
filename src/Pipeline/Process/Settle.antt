-- ===== src/Pipeline/Process/Settle.antt =====
-- From the reservation of a hash to its outcome: what the steps leave behind
-- (internal/pipeline/processor.go).
use bidshard_lead_miner.Common.{
  ℕ, Bool, true, false, ◌&&◌, ◌∷◌, Option, none, some, String, if◌then◌else◌, List, ◌≡◌, refl, sym,
  ap, ◌∙◌, arith, if-cases,
}
use bidshard_lead_miner.Pipeline.Types.{
  Config, Facts, Priority, Lead, ProcessOutcome, Screen, stop, go, no_outcome,
}
use bidshard_lead_miner.Pipeline.Screen.{Draft, Scored}
use bidshard_lead_miner.Pipeline.Screen.Laws.{Stops}
use bidshard_lead_miner.Pipeline.Process.{
  World, EntityResult, capture, record_entity_sighting, dedup_outcome, sight_known,
}
use bidshard_lead_miner.Pipeline.Process.Review.{entity_boost, boosted_priority}
use bidshard_lead_miner.Pipeline.Process.Hash.{
  clusters, hand_over, Services, Upsert, upserted, duplicate_key, upsert_failed, finish, store_lead,
  accept_lead, process_reviewed, process_new,
}
use bidshard_lead_miner.Pipeline.Process.Frame.{
  CacheInv, Frame, Frame-refl, Frame-trans, mark_seen_lem, sight_known_lem,
  record_entity_sighting_lem, capture_lem,
}
use bidshard_lead_miner.Pipeline.Process.Refusals.{Refusal, review-Refusal}

abbrev pub lead_hash : Option Lead → Option String
lead_hash none = none
lead_hash (some l) = some l.hash_id

-- What one run leaves behind for a hash: the cache is sound, the hashes in work are those from
-- before, and the log of accepted leads and the acknowledged upserts grew by the hash exactly if the
-- outcome is an acceptance, which is only made where a store said that it did not hold the hash.
pub record Settled (p : Config) (v : Services) (id : String) (w w' : World) (out : ProcessOutcome)
    : Type 0 where
  pub sound : CacheInv w'
  pub released : w'.inflight ≡ w.inflight
  pub log : w'.accepted ≡ (if out.accepted then id ∷ w.accepted else w.accepted)
  pub store : w'.saved ≡ (if out.accepted && p.has_store then id ∷ w.saved else w.saved)
  pub new : (out.accepted && p.has_store && v.exists_says w.saved id) ≡ false
  pub lead : lead_hash out.lead ≡ (if out.accepted then some id else none)

abbrev pub Settles : Config → Services → String → World → Option (World × ProcessOutcome) → Type 0
Settles p v id w run =
    (w' : World) × (out : ProcessOutcome) × (run ≡ some (w', out)) × Settled p v id w w' out

-- The end of an accepted lead.
pub record Finished (id : String) (w w' : World) (out : ProcessOutcome) : Type 0 where
  pub sound : CacheInv w'
  pub released : w'.inflight ≡ w.inflight
  pub log : w'.accepted ≡ id ∷ w.accepted
  pub store : w'.saved ≡ w.saved
  pub yes : out.accepted ≡ true
  pub lead : lead_hash out.lead ≡ some id

pub finish_lem :
    (p : Config) (w : World) (id : String) (priority : Priority) (s : Scored) (at : ℕ)
    → CacheInv w
    → (w' : World) × (out : ProcessOutcome) × (finish p w id priority s at ≡ some (w', out))
      × Finished id w w' out
unfolding finish hand_over CacheInv
finish_lem p w id priority s at v =
    let w₁ = record w {
      clustered = if clusters p priority then id ∷ w.clustered else w.clustered;
    } in
    let (w', run, inv, same) = mark_seen_lem w₁ id at v in
    (
      (hand_over p w' id s).0,
      (hand_over p w' id s).1,
      rw run refl,
      record {
        sound = inv;
        released = same.inflight;
        log = ground (arith, same.accepted);
        store = same.saved;
        yes = refl;
        lead = refl;
      },
    )

-- An outcome that is no acceptance, in a world whose cache is sound and that is framed.
pub refused :
    (p : Config) (v : Services) (id : String) (w w' : World) (out : ProcessOutcome)
    → CacheInv w' × Frame w w'
    → out.accepted ≡ false
    → out.lead ≡ none
    → Settled p v id w w' out
refused p v id w w' out (sound, same) refuses leadless = record {
  sound = sound;
  released = same.inflight;
  log = ground (arith, same.accepted);
  store = ground (arith, same.saved);
  new = ground arith;
  lead = ground arith;
}

pub store_lead_lem :
    (p : Config) (w : World) (id : String) (priority : Priority) (s : Scored) (v : Services)
    (answer : Upsert)
    → CacheInv w
    → p.has_store ≡ true
    → v.exists_says w.saved id ≡ false
    → Settles p v id w (store_lead p w id priority s v answer)
unfolding store_lead CacheInv
store_lead_lem p w id priority s v upserted inv has new =
    let w₁ = record w { saved = id ∷ w.saved } in
    let (w', out, run, d) = finish_lem p w₁ id priority s v.final_at inv in
    (
      w',
      out,
      run,
      record {
        sound = d.sound;
        released = d.released;
        log = ground (arith, d.log, d.yes);
        store = ground (arith, d.store, d.yes);
        new = ground arith;
        lead = ground (arith, d.lead, d.yes);
      },
    )
store_lead_lem p w id priority s v duplicate_key inv has new =
    let (inv', same) = sight_known_lem p w id v.duplicate_entity v.patchable inv in
    let (w', run, inv'', same') =
      mark_seen_lem (sight_known p w id v.duplicate_entity v.patchable) id v.duplicate_at inv' in
    (
      w',
      record no_outcome { dedup_hit = true },
      rw run refl,
      refused p v id w w' _ (inv'', Frame-trans same same') refl refl,
    )
store_lead_lem p w id priority s v upsert_failed inv has new =
    (w, no_outcome, refl, refused p v id w w no_outcome (inv, Frame-refl) refl refl)

-- Settling is not affected by what is framed before it.
pub Settled-Frame :
    (p : Config) (v : Services) (id : String) (w w₁ w' : World) (out : ProcessOutcome)
    → Frame w w₁
    → Settled p v id w₁ w' out
    → Settled p v id w w' out
Settled-Frame p v id w w₁ w' out f s = record {
  sound = s.sound;
  released = s.released ∙ f.inflight;
  log = ground (arith, s.log, f.accepted);
  store = ground (arith, s.store, f.saved);
  new = rw (sym f.saved) s.new;
  lead = s.lead;
}

pub Settles-Frame :
    (p : Config) (v : Services) (id : String) (w w₁ : World) (run : Option (World × ProcessOutcome))
    → Frame w w₁
    → Settles p v id w₁ run
    → Settles p v id w run
Settles-Frame p v id w w₁ run f (w', out, e, s) = (w', out, e, Settled-Frame p v id w w₁ w' out f s)

-- An acceptance without a store.
pub finish-Settles :
    (p : Config) (v : Services) (w : World) (id : String) (priority : Priority) (s : Scored)
    (at : ℕ)
    → CacheInv w
    → p.has_store ≡ false
    → Settles p v id w (finish p w id priority s at)
finish-Settles p v w id priority s at inv storeless =
    let (w', out, run, d) = finish_lem p w id priority s at inv in
    (
      w',
      out,
      run,
      record {
        sound = d.sound;
        released = d.released;
        log = ground (arith, d.log, d.yes);
        store = ground (arith, d.store, storeless);
        new = ground (arith, storeless);
        lead = ground (arith, d.lead, d.yes);
      },
    )

pub accept_lead_lem :
    (p : Config) (w : World) (id : String) (s : Scored) (v : Services)
    → CacheInv w
    → (p.has_store && v.exists_says w.saved id) ≡ false
    → Settles p v id w (accept_lead p w id s v)
unfolding accept_lead
accept_lead_lem p w id s v inv new =
    let w₁ = (record_entity_sighting p w id v.entity).0 in
    let r = (record_entity_sighting p w id v.entity).1 in
    let (inv₁, same) = record_entity_sighting_lem p w id v.entity inv in
    let priority = boosted_priority p r s in
    let boosted = entity_boost p r s in
    let new₁ = ap ((λ (l : List String). v.exists_says l id)) same.saved in
    if-cases (Settles p v id w) p.has_store
      (λ e.
        Settles-Frame p v id w w₁ _ same
          (store_lead_lem p w₁ id priority boosted v v.upsert inv₁ e (ground (arith, new₁))))
      (λ e.
        Settles-Frame p v id w w₁ _ same
          (finish-Settles p v w₁ id priority boosted v.final_at inv₁ e))

pub process_reviewed_lem :
    (p : Config) (w : World) (id : String) (v : Services) (m : Screen Scored)
    → Stops Refusal m
    → CacheInv w
    → (p.has_store && v.exists_says w.saved id) ≡ false
    → Settles p v id w (process_reviewed p w id v m)
unfolding process_reviewed
process_reviewed_lem p w id v (stop r) (refuses, leadless) inv new = (
  capture w r.junk,
  r.outcome,
  refl,
  refused p v id w _ r.outcome (capture_lem w r.junk inv) refuses leadless,
)
process_reviewed_lem p w id v (go s) _ inv new = accept_lead_lem p w id s v inv new

pub sight_known-Settles :
    (p : Config) (v : Services) (w : World) (id : String) (r : EntityResult) (patchable : Bool)
    → CacheInv w
    → Settles p v id w (some (sight_known p w id r patchable, dedup_outcome))
sight_known-Settles p v w id r patchable inv = (
  sight_known p w id r patchable,
  dedup_outcome,
  refl,
  refused p v id w _ dedup_outcome (sight_known_lem p w id r patchable inv) refl refl,
)

pub process_new_lem :
    (p : Config) (f : Facts) (w : World) (d : Draft) (v : Services)
    → CacheInv w
    → (p.has_store && v.exists_says w.saved d.hash_id) ≡ false
    → Settles p v d.hash_id w (process_new p f w d v)
unfolding process_new
process_new_lem p f w d v inv new =
    if-cases (Settles p v d.hash_id w) (clusters p d.scored.priority && v.cluster_duplicate)
      (λ _. sight_known-Settles p v w d.hash_id v.entity v.patchable inv)
      (λ _.
        process_reviewed_lem p w d.hash_id v _ (review-Refusal p f d.contacts v.answers d.scored)
          inv new)
