-- ===== src/Pipeline/Tests.antt =====
-- Items in the pipeline (internal/pipeline) and uses of its theorems.
use bidshard_lead_miner.Common.{
  Distinct, ◌+◌, ◌≡◌, ◌≢◌, refl, Bool, true, false, [], ◌∷◌, some, String, string_discrete, elem,
  arith,
}
use bidshard_lead_miner.Seen.{new_seen_cache, seen, evict_expired_locked}
use bidshard_lead_miner.Common.Maps.{lookup}
use bidshard_lead_miner.Seen.Invariant.{new_seen_cache-Inv}
use bidshard_lead_miner.Pipeline.Contact.{
  is_blank, has_reachable_contact, has_enrichable_identity, has_email_contact, only_role_emails,
  blacklist_contact, primary_email,
}
use bidshard_lead_miner.Pipeline.Types.{ProcessOutcome, go, no_outcome}
use bidshard_lead_miner.Pipeline.Screen.{
  screen, screen_source, screen_context, screen_spam, screen_prescan, screen_family,
  screen_reachable, screen_score, score_floors, priority_from_score,
}
use bidshard_lead_miner.Pipeline.Screen.Laws.{Stops, IsCoherent, screen-IsCoherent}
use bidshard_lead_miner.Pipeline.Process.{World, dedup_outcome, acquire_hash, seen_hit}
use bidshard_lead_miner.Pipeline.Process.Review.{review, maybe_icp, review_icp, screen_intent_mx}
use bidshard_lead_miner.Pipeline.Process.Hash.{Services, upsert_failed, process, process_hash}
use bidshard_lead_miner.Pipeline.Process.Crew
use bidshard_lead_miner.Pipeline.Process.Crew.Lists.{times}
use bidshard_lead_miner.Pipeline.Process.Crew.Laws.{Reach-exclusive}
use bidshard_lead_miner.Pipeline.Process.Frame.{CacheInv}
use bidshard_lead_miner.Pipeline.Process.Laws.{Admitted, process_screened-Settled}
use bidshard_lead_miner.Pipeline.Process.Sequence.{
  process_all, IsTruthful, Ledger, process_all-Ledger,
}
use bidshard_lead_miner.Pipeline.Process.Retry.{Fails, upsert_failure_loses_lead}
use bidshard_lead_miner.Pipeline.Sample.{config, facts, draft, services, world}

screen_buyer : screen config facts ≡ go draft
unfolding screen screen_source screen_context screen_spam screen_prescan screen_family
    screen_reachable screen_score score_floors priority_from_score has_reachable_contact
    has_enrichable_identity has_email_contact only_role_emails blacklist_contact is_blank
screen_buyer = refl

-- A message with no buyer's voice.
screen-IsCoherent_example : Stops IsCoherent (screen config (record facts { buyer_signal = false }))
screen-IsCoherent_example = screen-IsCoherent config (record facts { buyer_signal = false })

world-CacheInv : CacheInv world
unfolding CacheInv
world-CacheInv = new_seen_cache-Inv 10 100

process_screened-Settled_example :
    (w' : World) × (out : ProcessOutcome) × (process config facts world services ≡ some (w', out))
    × Admitted config services "h1" (seen_hit world "h1" 10 10).1 world w' out
process_screened-Settled_example =
    process_screened-Settled config facts world services draft screen_buyer world-CacheInv

services-IsTruthful : IsTruthful services
services-IsTruthful saved id h = h

process_all-Ledger_example :
    (w' : World) × (process_all config world ((facts, services) ∷ (facts, services) ∷ []) ≡ some w')
    × Ledger w'
    × (w'.inflight ≡ "h2" ∷ [])
process_all-Ledger_example =
    process_all-Ledger config ((facts, services) ∷ (facts, services) ∷ []) world refl
      (services-IsTruthful, (services-IsTruthful, tt))
      (record { sound = world-CacheInv; agree = refl; once = tt })

abbrev failing : Services
failing = record services { upsert = upsert_failed }

abbrev retried : Services
retried = record services { seen_now = 50; seen_later = 51 }

is_refuted : {P : Type 0} → Dec P → Bool
is_refuted (yes _) = false
is_refuted (no _) = true

refuter : {P : Type 0} (d : Dec P) → is_refuted d ≡ true → ¬ P
unfolding is_refuted
refuter (yes p) h = ground arith
refuter (no n) h = n

abbrev h1 : String
h1 = "h1"

h1-full : h1 ≢ ""
unfolding string_discrete is_refuted
h1-full = refuter (string_discrete h1 "") refl

failing-Fails : Fails config facts world draft failing draft.scored
unfolding review maybe_icp review_icp screen_intent_mx primary_email
failing-Fails = record {
  has = refl;
  reads = refl;
  new = refl;
  unsaved = refl;
  single = refl;
  passes = refl;
  broken = refl;
}

upsert_failure_loses_lead_example :
    (w₁ : World) × (w₂ : World) × (process_hash config facts world draft failing
      ≡ some (w₁, no_outcome))
    × (process_hash config facts w₁ draft retried ≡ some (w₂, dedup_outcome))
    × (elem string_discrete "h1" w₂.saved ≡ false)
    × (w₂.accepted ≡ [])
unfolding new_seen_cache seen evict_expired_locked lookup string_discrete
upsert_failure_loses_lead_example =
    upsert_failure_loses_lead config facts world draft failing retried draft.scored
      (new_seen_cache 10 100) h1-full refl (new_seen_cache-Inv 10 100) (omega arith) refl refl
      failing-Fails (omega arith) (omega arith)

-- A store that has what it acknowledged.
abbrev exact : Crew.Answer
exact saved id = elem string_discrete id saved

-- A worker stores its lead while another has just acquired a hash.
two_workers : Crew.Reach exact world (record {
  world = record world { inflight = "h3" ∷ "h1" ∷ "h2" ∷ []; saved = "h1" ∷ [] };
  workers = ("h3", Crew.acquired) ∷ ("h1", Crew.written) ∷ [];
})
unfolding acquire_hash string_discrete
two_workers =
    Crew.next
      (Crew.next
        (Crew.next (Crew.next Crew.start (Crew.acquire "h1" refl refl))
          (Crew.acquire "h3" refl refl))
        (Crew.clear "h1" (("h3", Crew.acquired) ∷ []) [] refl refl refl))
      (Crew.store "h1" (("h3", Crew.acquired) ∷ []) [] refl refl)

Reach-exclusive_example :
    Distinct string_discrete ("h3" ∷ "h1" ∷ [])
    × Distinct string_discrete ("h1" ∷ [])
    × ((x : String) → times x ("h1" ∷ []) ≡ times x [] + times x ("h1" ∷ []))
Reach-exclusive_example = Reach-exclusive exact (λ saved id h. h) world _ refl tt two_workers
