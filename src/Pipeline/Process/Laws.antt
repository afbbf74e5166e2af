-- ===== src/Pipeline/Process/Laws.antt =====
-- What `Processor.Process` promises of the shared state (internal/pipeline/processor.go).
use bidshard_lead_miner.Common.{
  Bool, true, false, not, ◌&&◌, ◌||◌, ◌∷◌, some, string_discrete, if◌then◌else◌, elem, ◌≡◌, refl,
  sym, Option, String, inl, inr, arith, if-cases, ite-cases, Bool-cases,
}
use bidshard_lead_miner.Pipeline.Types.{Config, Facts, Reason, Junk, ProcessOutcome, go, drop}
use bidshard_lead_miner.Pipeline.Screen.{Draft, screen}
use bidshard_lead_miner.Pipeline.Process.{
  World, capture, seen_hit, acquire_hash, release_hash, remove_all, dedup_outcome, sight_known,
}
use bidshard_lead_miner.Pipeline.Process.Hash.{
  Services, process_screened, release, process_acquired, process_hash, process, ◌>>=◌,
}
use bidshard_lead_miner.Pipeline.Process.Frame.{
  CacheInv, Frame, Frame-refl, Frame-trans, mark_seen_lem, sight_known_lem, capture_lem,
  seen_hit_cases, remove_all-fresh, acquire_hash_held, acquire_hash_free,
}
use bidshard_lead_miner.Pipeline.Process.Settle.{
  Settled, Settles, refused, Settled-Frame, Settles-Frame, sight_known-Settles, process_new_lem,
}

process_acquired_lem :
    (p : Config) (f : Facts) (w : World) (d : Draft) (v : Services)
    → CacheInv w
    → Settles p v d.hash_id w (process_acquired p f w d v)
unfolding process_acquired
process_acquired_lem p f w d v inv =
    let id = d.hash_id in
    let (inv₁, same₁) = sight_known_lem p w id v.entity v.patchable inv in
    let (w₂, run₂, inv₂, same₂) =
      mark_seen_lem (sight_known p w id v.entity v.patchable) id v.exists_at inv₁ in
    let (w₃, run₃, inv₃, same₃) = mark_seen_lem w id v.reserve_at inv in
    if-cases (Settles p v id w) (p.has_store && v.exists_fails)
      (λ _. (w, _, refl, refused p v id w w _ (inv, Frame-refl) refl refl))
      (λ _.
        if-cases (Settles p v id w) (p.has_store && v.exists_says w.saved id)
          (λ _. (
            w₂,
            dedup_outcome,
            rw run₂ refl,
            refused p v id w w₂ _ (inv₂, Frame-trans same₁ same₂) refl refl,
          ))
          (λ e. rw run₃ (
            Settles-Frame p v id w w₃ _ same₃
              (process_new_lem p f w₃ d v inv₃ (rw (same₃.saved) e)))))

release_lem :
    (p : Config) (f : Facts) (w : World) (d : Draft) (v : Services)
    → elem string_discrete d.hash_id w.inflight ≡ false
    → CacheInv w
    → let w₁ = record w { inflight = d.hash_id ∷ w.inflight } in
      Settles p v d.hash_id w (process_acquired p f w₁ d v >>= λ r. some (release d.hash_id r))
unfolding release_hash CacheInv remove_all
release_lem p f w d v free inv =
    let w₁ = record w { inflight = d.hash_id ∷ w.inflight } in
    let (w', out, run, s) = process_acquired_lem p f w₁ d v inv in
    (
      release_hash w' d.hash_id,
      out,
      rw run refl,
      record {
        sound = s.sound;
        released = ground (arith, s.released, remove_all-fresh d.hash_id w.inflight free);
        log = s.log;
        store = s.store;
        new = s.new;
        lead = s.lead;
      },
    )

or-true : (b : Bool) → (b || true) ≡ true
or-true b = ground arith

-- What a run with a hash leaves behind: an acceptance is only of a hash that the seen cache did not
-- know and that no other worker had in work.
pub record Admitted (p : Config) (v : Services) (id : String) (hit : Bool) (w w' : World)
    (out : ProcessOutcome) : Type 0 where
  pub settled : Settled p v id w w' out
  pub fresh : (out.accepted && (hit || elem string_discrete id w.inflight)) ≡ false

abbrev pub Admits :
    Config → Services → String → Bool → World → Option (World × ProcessOutcome) → Type 0
Admits p v id hit w run =
    (w' : World) × (out : ProcessOutcome) × (run ≡ some (w', out)) × Admitted p v id hit w w' out

-- A refusal that settles, and the run of a free hash.
dedup-Admits :
    (p : Config) (v : Services) (id : String) (hit : Bool) (w w' : World)
    → Settles p v id w (some (w', dedup_outcome))
    → Admits p v id hit w (some (w', dedup_outcome))
dedup-Admits p v id hit w w' (w'', out, e, s) =
    let same : dedup_outcome ≡ out = cc e in
    (w'', out, e, record { settled = s; fresh = rw (sym same) refl })

free-Admits :
    (p : Config) (v : Services) (id : String) (w : World) (run : Option (World × ProcessOutcome))
    → elem string_discrete id w.inflight ≡ false
    → Settles p v id w run
    → Admits p v id false w run
free-Admits p v id w run free (w', out, e, s) =
    (w', out, e, record { settled = s; fresh = ground (arith, free) })

free_lem :
    (p : Config) (f : Facts) (w : World) (d : Draft) (v : Services) (hit : Bool)
    → elem string_discrete d.hash_id w.inflight ≡ false
    → CacheInv w
    → Admits p v d.hash_id hit w (
        if hit || false
        then some (sight_known p w d.hash_id v.entity v.patchable, dedup_outcome)
        else (process_acquired p f (record w { inflight = d.hash_id ∷ w.inflight }) d v >>= λ r.
            some (release d.hash_id r)))
free_lem p f w d v true free inv =
    dedup-Admits p v d.hash_id true w _
      (sight_known-Settles p v w d.hash_id v.entity v.patchable inv)
free_lem p f w d v false free inv =
    free-Admits p v d.hash_id w _ free (release_lem p f w d v free inv)

Admits-Frame :
    (p : Config) (v : Services) (id : String) (hit : Bool) (w w₁ : World)
    (run : Option (World × ProcessOutcome))
    → Frame w w₁
    → Admits p v id hit w₁ run
    → Admits p v id hit w run
Admits-Frame p v id hit w w₁ run f (w', out, e, a) = (
  w',
  out,
  e,
  record {
    settled = Settled-Frame p v id w w₁ w' out f a.settled;
    fresh = rw (sym f.inflight) a.fresh;
  },
)

-- Past the test for the empty hash.
hashed_lem :
    (p : Config) (f : Facts) (w : World) (d : Draft) (v : Services) (hit : Bool)
    → CacheInv w
    → let (w₂, acquired) = acquire_hash w d.hash_id in
      Admits p v d.hash_id hit w (
        if hit || not acquired
        then some (sight_known p w d.hash_id v.entity v.patchable, dedup_outcome)
        else (process_acquired p f w₂ d v >>= λ r. some (release d.hash_id r)))
hashed_lem p f w d v hit inv =
    let known = λ (h : Bool).
      dedup-Admits p v d.hash_id h w _
        (sight_known-Settles p v w d.hash_id v.entity v.patchable inv) in
    elim (Bool-cases (elem string_discrete d.hash_id w.inflight)) [
      | inl e ↦ rw (acquire_hash_held w d.hash_id e, or-true hit) (known hit)
      | inr e ↦ rw (acquire_hash_free w d.hash_id e) (free_lem p f w d v hit e inv)
    ]

pub process_hash_lem :
    (p : Config) (f : Facts) (w : World) (d : Draft) (v : Services)
    → CacheInv w
    → Admits p v d.hash_id
        (seen_hit w d.hash_id v.seen_now v.seen_later).1
        w
        (process_hash p f w d v)
unfolding process_hash CacheInv
process_hash_lem p f w d v inv =
    let id = d.hash_id in
    let (w₁, hit) = seen_hit w id v.seen_now v.seen_later in
    let (inv₁, same) = seen_hit_cases w id v.seen_now v.seen_later w.seen_cache refl inv in
    let empty = drop Reason.empty_hash Junk.hashless in
    ite-cases (Admits p v id hit w) (string_discrete id "")
      (
        capture w empty.junk,
        empty.outcome,
        refl,
        record {
          settled = refused p v id w _ empty.outcome (capture_lem w empty.junk inv) refl refl;
          fresh = refl;
        },
      )
      (Admits-Frame p v id hit w w₁ _ same (hashed_lem p f w₁ d v hit inv₁))

-- Where the seen cache is sound, an item that passes the gates never makes the code panic. It leaves
-- the seen cache sound and the hashes in work as they were, and the log of accepted leads and the
-- upserts that a store acknowledged grow by the hash of the item exactly if the outcome is an
-- acceptance, which is only of a hash that the cache did not know, that no worker had in work, and that
-- the store, if there is one, said it did not hold.
pub process_screened-Settled :
    (p : Config) (f : Facts) (w : World) (v : Services) (d : Draft)
    → screen p f ≡ go d
    → CacheInv w
    → (w' : World) × (out : ProcessOutcome) × (process p f w v ≡ some (w', out))
      × Admitted p v d.hash_id (seen_hit w d.hash_id v.seen_now v.seen_later).1 w w' out
unfolding process process_screened
process_screened-Settled p f w v d passes inv = rw passes (process_hash_lem p f w d v inv)
