-- ===== src/Pipeline/Process/Sequence.antt =====
-- The items of a worker, one after the other (internal/pipeline/worker.go, processor.go).
use bidshard_lead_miner.Common.{
  true, List, [], ◌∷◌, Option, some, String, string_discrete, ◌≡◌, refl, ◌∙◌, arith, Distinct, All,
  elem,
}
use bidshard_lead_miner.Pipeline.Types.{Config, Facts, ProcessOutcome, Screen, stop, go}
use bidshard_lead_miner.Pipeline.Screen.{Draft, screen}
use bidshard_lead_miner.Pipeline.Process.{World, capture}
use bidshard_lead_miner.Pipeline.Process.Hash.{◌>>=◌, Services, process_screened, process}
use bidshard_lead_miner.Pipeline.Process.Frame.{CacheInv, capture_lem}
use bidshard_lead_miner.Pipeline.Process.Settle.{Settled}
use bidshard_lead_miner.Pipeline.Process.Laws.{process_hash_lem}

-- The items of a worker, one after the other.
unfoldable pub process_all : Config → World → List (Facts × Services) → Option World
process_all p w [] = some w
process_all p w ((f, v) ∷ items) = process p f w v >>= λ (w', _). process_all p w' items

-- A store that says of every lead whose upsert it acknowledged that it has it.
abbrev pub IsTruthful : Services → Type 0
IsTruthful v =
    (saved : List String) (id : String)
    → elem string_discrete id saved ≡ true
    → v.exists_says saved id ≡ true

-- The log of accepted leads and the acknowledged upserts are the same hashes, and none twice.
pub record Ledger (w : World) : Type 0 where
  pub sound : CacheInv w
  pub agree : w.accepted ≡ w.saved
  pub once : Distinct string_discrete w.saved

Settled-Ledger :
    (p : Config) (v : Services) (id : String) (w w' : World) (out : ProcessOutcome)
    → p.has_store ≡ true
    → IsTruthful v
    → Ledger w
    → Settled p v id w w' out
    → Ledger w'
Settled-Ledger p v id w w' out has true_store l s = record {
  sound = s.sound;
  agree = ground (arith, s.log, s.store, l.agree);
  once = ground (arith, s.store, s.new, l.once, has, true_store w.saved id);
}

process_screened-Ledger :
    (p : Config) (f : Facts) (w : World) (v : Services) (m : Screen Draft)
    → p.has_store ≡ true
    → IsTruthful v
    → Ledger w
    → (w' : World) × (out : ProcessOutcome) × (process_screened p f w v m ≡ some (w', out))
      × Ledger w'
      × (w'.inflight ≡ w.inflight)
unfolding process_screened
process_screened-Ledger p f w v (stop r) has true_store l =
    let (inv, same) = capture_lem w r.junk l.sound in
    (
      capture w r.junk,
      r.outcome,
      refl,
      record {
        sound = inv;
        agree = cc (same.accepted, same.saved, l.agree);
        once = rw (same.saved) l.once;
      },
      same.inflight,
    )
process_screened-Ledger p f w v (go d) has true_store l =
    let (w', out, run, a) = process_hash_lem p f w d v l.sound in
    (
      w',
      out,
      run,
      Settled-Ledger p v d.hash_id w w' out has true_store l a.settled,
      a.settled.released,
    )

-- With a store that says of every lead whose upsert it acknowledged that it has it, from a world whose
-- seen cache is sound and whose log of accepted leads are the acknowledged upserts, with no hash twice:
-- whatever items come, and whatever the services answer otherwise, failed and duplicate upserts
-- included, the run never panics, the log of accepted leads stays the acknowledged upserts, with no hash
-- twice, and no hash is left in work.
pub process_all-Ledger :
    (p : Config) (items : List (Facts × Services)) (w : World)
    → p.has_store ≡ true
    → All (λ (item : Facts × Services). IsTruthful item.1) items
    → Ledger w
    → (w' : World) × (process_all p w items ≡ some w') × Ledger w' × (w'.inflight ≡ w.inflight)
unfolding process_all process
process_all-Ledger p [] w has truths l = (w, refl, l, refl)
process_all-Ledger p ((f, v) ∷ items) w has truths l =
    let (w₁, out, run, l₁, same₁) = process_screened-Ledger p f w v (screen p f) has truths.0 l in
    let (w₂, run₂, l₂, same₂) = process_all-Ledger p items w₁ has truths.1 l₁ in
    (w₂, rw run run₂, l₂, same₂ ∙ same₁)
