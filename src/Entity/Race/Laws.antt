-- ===== src/Entity/Race/Laws.antt =====
-- What holds of any processes that record sightings of one entity at the same time
-- (internal/entity/sighting_loop.go, internal/sink/entity_store.go).
use mathlib.Core.List.{Perm}
use mathlib.Core.List.Perm
use bidshard_lead_miner.Common.{
  ℕ, ◌+◌, ◌*◌, ◌≤◌, ◌<◌, ◌≡◌, refl, sym, ap, ◌∙◌, List, [], ◌∷◌, ◌++◌, Option, none, String, length,
  All, All-split, arith,
}
use bidshard_lead_miner.Entity.{Env, EntityKey, EntityDoc}
use bidshard_lead_miner.Entity.Store.{
  Call, Phase, asking, holding, creating, finished, gave_up, Writer, replay,
}
use bidshard_lead_miner.Entity.Race.{Race, new_writers, go, Reach, start, next}
use bidshard_lead_miner.Entity.Race.Turns.{IsPaid}
use bidshard_lead_miner.Entity.Race.Lists.{
  calls_of, written_calls, finished_calls, if_finished, all_left, finished_calls-append,
}
use bidshard_lead_miner.Entity.Race.Invariant.{Inv, IsPaidIn, step-Inv}

module _ {F : Type 0} (e : Env F) (entity_id : String) (pk : EntityKey) where
  -- The writes of a race, against those of one process.
  pub record IsLinear (calls : List (Call F)) (s : Race F) : Type 0 where
    pub callers : calls_of s.writers ≡ calls
    pub once : Perm (written_calls s.log) (finished_calls s.writers)
    pub replayed : s.stored ≡ replay e entity_id pk s.log

module _ {F : Type 0} (e : Env F) (max_attempts : ℕ) (entity_id : String) (pk : EntityKey)
    (some_attempts : 0 < max_attempts) where
  abbrev first_race : List (Call F) → Race F
  first_race calls = record { stored = none; writers = new_writers calls; log = [] }

  all_left-new_writers :
      (calls : List (Call F))
      → all_left max_attempts (new_writers calls) ≡ length calls * (4 * max_attempts)
  all_left-new_writers [] = omega arith
  all_left-new_writers (c ∷ calls) = grind (arith, all_left-new_writers calls)

  finished_calls-new_writers : (calls : List (Call F)) → finished_calls (new_writers calls) ≡ []
  finished_calls-new_writers [] = refl
  finished_calls-new_writers (c ∷ calls) = finished_calls-new_writers calls

  calls_of-new_writers : (calls : List (Call F)) → calls_of (new_writers calls) ≡ calls
  calls_of-new_writers [] = refl
  calls_of-new_writers (c ∷ calls) = ap (◌∷◌ c) (calls_of-new_writers calls)

  IsPaid-new_writers :
      (calls : List (Call F))
      → All (λ (w : Writer F). IsPaid max_attempts none 0 w.attempt w.phase) (new_writers calls)
  IsPaid-new_writers [] = tt
  IsPaid-new_writers (c ∷ calls) = ((omega arith, some_attempts), IsPaid-new_writers calls)

  start-Inv : (calls : List (Call F)) → Inv e max_attempts entity_id pk calls 0 (first_race calls)
  start-Inv calls = record {
    written = refl;
    paid = IsPaid-new_writers calls;
    replayed = unfold replay in refl;
    callers = calls_of-new_writers calls;
    once = rw (finished_calls-new_writers calls) Perm.rfl;
    counted = rw (finished_calls-new_writers calls) refl;
    bounded = omega (arith, all_left-new_writers calls);
  }

  pub Reach-Inv :
      {calls : List (Call F)} {n : ℕ} {s : Race F}
      → Reach e max_attempts entity_id pk calls n s
      → Inv e max_attempts entity_id pk calls n s
  Reach-Inv {calls} start = start-Inv calls
  Reach-Inv {calls} (next {n = n} {s = s} reach (go us w vs parts active same)) =
      rw same
        (step-Inv e max_attempts entity_id pk calls n s us w vs parts active (Reach-Inv reach))

  paid_gave_up :
      (stored : Option (EntityDoc F)) (n attempt : ℕ) (p : Phase F)
      → p ≡ gave_up
      → IsPaid max_attempts stored n attempt p
      → max_attempts ≤ n
  paid_gave_up stored n attempt (asking _) h k = cc
  paid_gave_up stored n attempt (holding _ _) h k = cc
  paid_gave_up stored n attempt creating h k = cc
  paid_gave_up stored n attempt finished h k = cc
  paid_gave_up stored n attempt gave_up h k = k

  module _ {calls : List (Call F)} {n : ℕ} {s : Race F}
      (reach : Reach e max_attempts entity_id pk calls n s) where
    -- However the calls run between one another's calls of the database, the document is the one
    -- that the finished calls leave when they run one after another, in the order of their writes,
    -- each exactly once, and without any other call.
    pub Reach-IsLinear : IsLinear e entity_id pk calls s
    Reach-IsLinear =
        let v = Reach-Inv reach in
        record { callers = v.callers; once = v.once; replayed = sym v.replayed }

    -- The calls of the database come to an end: the steps that are taken, with those that are left,
    -- are at most four for each attempt of each call.
    pub Reach-bounded : n + all_left max_attempts s.writers ≤ length calls * (4 * max_attempts)
    Reach-bounded = (Reach-Inv reach).bounded

    -- A call gives up only if at least as many other calls as it has attempts have finished.
    pub gave_up-finished :
        (us : List (Writer F)) (w : Writer F) (vs : List (Writer F))
        → s.writers ≡ us ++ w ∷ vs
        → w.phase ≡ gave_up
        → max_attempts ≤ length (finished_calls (us ++ vs))
    gave_up-finished us w vs parts gave =
        let v = Reach-Inv reach in
        let mine =
          (All-split (IsPaidIn e max_attempts entity_id pk s) us (w ∷ vs)
            (rw (← parts) v.paid)).1.0 in
        let least = paid_gave_up s.stored (length s.log) w.attempt w.phase gave mine in
        let same =
          ap finished_calls parts
          ∙ finished_calls-append us (w ∷ vs)
          ∙ ap (λ (p : Phase F). finished_calls us ++ (if_finished p w.call ++ finished_calls vs))
              gave
          ∙ sym (finished_calls-append us vs) in
        omega (arith, least, v.counted, ap length same)
