-- ===== src/Pipeline/Process/Crew/Laws.antt =====
-- What holds while workers run between one another's steps (internal/pipeline/processor.go).
use bidshard_lead_miner.Common.{
  ◌+◌, true, false, ◌&&◌, List, [], ◌∷◌, ◌++◌, String, string_discrete, elem, Distinct, ◌≡◌, refl,
  sym, ap, ◌∙◌, arith, elem-append,
}
use bidshard_lead_miner.Pipeline.Process.{World, acquire_hash, release_hash}
use bidshard_lead_miner.Pipeline.Process.Crew.{
  Phase, acquired, cleared, written, finished, Crew, hashes, Answer, may_leave, Step, acquire,
  remember, clear, store, fail, log, release, Reach, start, next,
}
use bidshard_lead_miner.Pipeline.Process.Crew.Lists.{
  hashes-append, Distinct-middle, covered, covered-append, covered-acquired, elem-covered,
  covered-released, unsaved, unsaved-append, unsaved-saved, times, if_written, pending,
  times-pending, times-pending_left,
}

record Inv (s : Crew) : Type 0 where
  apart : Distinct string_discrete (hashes s.workers)
  held : covered s.world.inflight (hashes s.workers) ≡ true
  unstored : unsaved s.world.saved s.workers ≡ true
  once : Distinct string_discrete s.world.saved
  agree :
      (x : String) → times x s.world.saved ≡ times x s.world.accepted + times x (pending s.workers)

hashes-middle :
    (id : String) (p : Phase) (us vs : List (String × Phase))
    → hashes (us ++ (id, p) ∷ vs) ≡ hashes us ++ id ∷ hashes vs
hashes-middle id p us vs = hashes-append us ((id, p) ∷ vs)

unsaved-middle :
    (st : List String) (id : String) (p : Phase) (us vs : List (String × Phase))
    → unsaved st (us ++ (id, p) ∷ vs)
      ≡ (unsaved st us && (unsaved st ((id, p) ∷ []) && unsaved st vs))
unsaved-middle st id p us vs =
    unsaved-append st us ((id, p) ∷ vs)
    ∙ ap (λ b. unsaved st us && b) (unsaved-append st ((id, p) ∷ []) vs)

-- A worker that goes on to another phase.
phase-Inv :
    (id : String) (p q : Phase) (us vs : List (String × Phase)) (s : Crew)
    → s.workers ≡ us ++ (id, p) ∷ vs
    → unsaved s.world.saved ((id, q) ∷ []) ≡ true
    → if_written q id ≡ if_written p id
    → Inv s
    → Inv (record { world = s.world; workers = us ++ (id, q) ∷ vs })
phase-Inv id p q us vs s e u waits v =
    let same = hashes-middle id q us vs ∙ sym (hashes-middle id p us vs) ∙ ap hashes (sym e) in
    let old =
      sym (unsaved-middle s.world.saved id p us vs)
      ∙ ap (unsaved s.world.saved) (sym e)
      ∙ v.unstored in
    record {
      apart = rw same v.apart;
      held = rw same v.held;
      unstored = ground (arith, unsaved-middle s.world.saved id q us vs, old, u);
      once = v.once;
      agree = λ x. omega (
        arith,
        v.agree x,
        ap (λ ws. times x (pending ws)) e,
        times-pending x id p us vs,
        times-pending x id q us vs,
        ap (times x) waits,
      );
    }

acquired-free :
    (w : World) (id : String)
    → (acquire_hash w id).1 ≡ true
    → elem string_discrete id w.inflight ≡ false
unfolding acquire_hash
acquired-free w id ok = ground arith

acquire-Inv :
    (id : String) (s : Crew)
    → (acquire_hash s.world id).1 ≡ true
    → Inv s
    → Inv (record { world = (acquire_hash s.world id).0; workers = (id, acquired) ∷ s.workers })
unfolding acquire_hash unsaved covered
acquire-Inv id s ok v =
    let free = acquired-free s.world id ok in
    let absent = elem-covered id s.world.inflight (hashes s.workers) v.held free in
    rw free (record {
      apart = (absent, v.apart);
      held = ground (arith, covered-acquired id s.world.inflight (hashes s.workers) v.held);
      unstored = v.unstored;
      once = v.once;
      agree = v.agree;
    })

-- The hashes around that of one worker.
parted :
    (id : String) (p : Phase) (us vs : List (String × Phase)) (s : Crew)
    → s.workers ≡ us ++ (id, p) ∷ vs
    → Inv s
    → Distinct string_discrete (hashes us ++ id ∷ hashes vs)
      × (covered s.world.inflight (hashes us ++ id ∷ hashes vs) ≡ true)
parted id p us vs s e v =
    let same = sym (hashes-middle id p us vs) ∙ ap hashes (sym e) in
    (rw same v.apart, rw same v.held)

store-Inv :
    (id : String) (us vs : List (String × Phase)) (s : Crew)
    → s.workers ≡ us ++ (id, cleared) ∷ vs
    → Inv s
    → Inv (record {
      world = record (s.world) { saved = id ∷ s.world.saved };
      workers = us ++ (id, written) ∷ vs;
    })
unfolding unsaved times
store-Inv id us vs s e v =
    let st = s.world.saved in
    let same =
      hashes-middle id written us vs ∙ sym (hashes-middle id cleared us vs) ∙ ap hashes (sym e) in
    let old = sym (unsaved-middle st id cleared us vs) ∙ ap (unsaved st) (sym e) ∙ v.unstored in
    let (_, absent) =
      Distinct-middle id (hashes us) (hashes vs) (parted id cleared us vs s e v).0 in
    record {
      apart = rw same v.apart;
      held = rw same v.held;
      unstored = ground (
        arith,
        unsaved-middle (id ∷ st) id written us vs,
        old,
        unsaved-saved id st us,
        unsaved-saved id st vs,
        elem-append string_discrete id (hashes us) (hashes vs),
        absent,
      );
      once = (ground (arith, old), v.once);
      agree = λ x. omega (
        arith,
        v.agree x,
        ap (λ ws. times x (pending ws)) e,
        times-pending x id cleared us vs,
        times-pending x id written us vs,
      );
    }

log-Inv :
    (id : String) (us vs : List (String × Phase)) (s : Crew)
    → s.workers ≡ us ++ (id, written) ∷ vs
    → Inv s
    → Inv (record {
      world = record (s.world) { accepted = id ∷ s.world.accepted };
      workers = us ++ (id, finished) ∷ vs;
    })
unfolding unsaved times
log-Inv id us vs s e v =
    let st = s.world.saved in
    let same =
      hashes-middle id finished us vs ∙ sym (hashes-middle id written us vs) ∙ ap hashes (sym e) in
    let old = sym (unsaved-middle st id written us vs) ∙ ap (unsaved st) (sym e) ∙ v.unstored in
    record {
      apart = rw same v.apart;
      held = rw same v.held;
      unstored = ground (arith, unsaved-middle st id finished us vs, old);
      once = v.once;
      agree = λ x. omega (
        arith,
        v.agree x,
        ap (λ ws. times x (pending ws)) e,
        times-pending x id written us vs,
        times-pending x id finished us vs,
      );
    }

no_wait : (id : String) (p : Phase) → may_leave p ≡ true → if_written p id ≡ []
no_wait id acquired h = refl
no_wait id cleared h = refl
no_wait id written h = absurd (ground (arith, h))
no_wait id finished h = refl

release-Inv :
    (id : String) (p : Phase) (us vs : List (String × Phase)) (s : Crew)
    → s.workers ≡ us ++ (id, p) ∷ vs
    → may_leave p ≡ true
    → Inv s
    → Inv (record { world = release_hash s.world id; workers = us ++ vs })
unfolding release_hash covered times
release-Inv id p us vs s e leaves v =
    let fl = s.world.inflight in
    let (apart, held) = parted id p us vs s e v in
    let (rest, absent) = Distinct-middle id (hashes us) (hashes vs) apart in
    record {
      apart = rw (hashes-append us vs) rest;
      held = rw (hashes-append us vs) (
          covered-released id fl (hashes us ++ hashes vs)
            (ground (
              arith,
              held,
              covered-append fl (hashes us) (hashes vs),
              covered-append fl (hashes us) (id ∷ hashes vs),
            ))
            absent);
      unstored = ground (
        arith,
        unsaved-append s.world.saved us vs,
        sym (unsaved-middle s.world.saved id p us vs)
            ∙ ap (unsaved s.world.saved) (sym e)
            ∙ v.unstored,
      );
      once = v.once;
      agree = λ x. omega (
        arith,
        v.agree x,
        ap (λ ws. times x (pending ws)) e,
        times-pending x id p us vs,
        ap (times x) (no_wait id p leaves),
        times-pending_left x us vs,
      );
    }

-- A store that says of every lead whose upsert it acknowledged that it has it.
abbrev pub IsTruthfulAnswer : Answer → Type 0
IsTruthfulAnswer exists_says =
    (saved : List String) (id : String)
    → elem string_discrete id saved ≡ true
    → exists_says saved id ≡ true

module _ (exists_says : Answer) (truthful : IsTruthfulAnswer exists_says) where
  step-Inv : (s t : Crew) → Step exists_says s t → Inv s → Inv t
  unfolding unsaved
  step-Inv s t (acquire id ok e) v = rw e (acquire-Inv id s ok v)
  step-Inv s t (remember cache e) v = rw e (record {
    apart = v.apart;
    held = v.held;
    unstored = v.unstored;
    once = v.once;
    agree = v.agree;
  })
  step-Inv s t (clear id us vs h n e) v = rw e (
      phase-Inv id acquired cleared us vs s h (ground (arith, n, truthful s.world.saved id)) refl v)
  step-Inv s t (store id us vs h e) v = rw e (store-Inv id us vs s h v)
  step-Inv s t (fail id us vs h e) v = rw e (phase-Inv id cleared finished us vs s h refl refl v)
  step-Inv s t (log id us vs h e) v = rw e (log-Inv id us vs s h v)
  step-Inv s t (release id p us vs h leaves e) v = rw e (release-Inv id p us vs s h leaves v)

  Reach-Inv :
      (w : World) (s : Crew)
      → w.accepted ≡ w.saved
      → Distinct string_discrete w.saved
      → Reach exists_says w s
      → Inv s
  unfolding covered unsaved times
  Reach-Inv w s agree once start = record {
    apart = tt;
    held = refl;
    unstored = refl;
    once = once;
    agree = λ x. omega (arith, ap (times x) agree);
  }
  Reach-Inv w t agree once (next {s} r step) = step-Inv s t step (Reach-Inv w s agree once r)

  -- With a store that says of every lead whose upsert it acknowledged that it has it, from a world
  -- whose log of accepted leads are the acknowledged upserts, with no hash twice: however the workers
  -- run between one another's steps, failed upserts and any changes of the seen cache included, no two
  -- of them have the same hash, no upsert is acknowledged twice, and each acknowledged hash is either
  -- in the log or that of a worker that has not come to the log.
  pub Reach-exclusive :
      (w : World) (s : Crew)
      → w.accepted ≡ w.saved
      → Distinct string_discrete w.saved
      → Reach exists_says w s
      → Distinct string_discrete (hashes s.workers)
        × Distinct string_discrete s.world.saved
        × ((x : String)
            → times x s.world.saved ≡ times x s.world.accepted + times x (pending s.workers))
  Reach-exclusive w s agree once r =
      let v = Reach-Inv w s agree once r in (v.apart, v.once, v.agree)
