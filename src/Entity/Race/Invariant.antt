-- ===== src/Entity/Race/Invariant.antt =====
-- The invariant of the processes that record sightings of one entity at the same time
-- (internal/entity/sighting_loop.go, internal/sink/entity_store.go).
use mathlib.Core.List.{Perm}
use bidshard_lead_miner.Common.{
  ℕ, suc, ◌+◌, ◌*◌, ◌≤◌, ◌≡◌, sym, ap, ◌∙◌, Bool, true, List, ◌∷◌, ◌++◌, Option, none, some, String,
  length, length-append, All, All-map, All-append, All-split, arith,
}
use bidshard_lead_miner.Entity.{Env, EntityKey}
use bidshard_lead_miner.Entity.Store.{Call, Writer, Turn, turn, replay}
use bidshard_lead_miner.Entity.Race.{Race, is_active, logged, advanced}
use bidshard_lead_miner.Entity.Race.Turns.{
  IsWritten, IsPaid, count_written, count_after, count_finished, IsTurn, turn_in-IsTurn,
}
use bidshard_lead_miner.Entity.Race.Lists.{
  calls_of, written_calls, finished_calls, all_left, calls_of-append, finished_calls-append,
  all_left-append, length-logged, inactive_one, finished_one, active_one, IsPaid-grown, Perm-grown,
}

le-count_after : (n : ℕ) (k : Option (Option Bool)) → n ≤ count_after n k
le-count_after n none = omega arith
le-count_after n (some _) = omega arith

module _ {F : Type 0} (e : Env F) (max_attempts : ℕ) (entity_id : String) (pk : EntityKey) where
  abbrev pub IsPaidIn : Race F → Writer F → Type 0
  IsPaidIn s w = IsPaid max_attempts s.stored (length s.log) w.attempt w.phase

  -- After `n` steps.
  pub record Inv (calls : List (Call F)) (n : ℕ) (s : Race F) : Type 0 where
    pub written : IsWritten s.stored (length s.log)
    pub paid : All (IsPaidIn s) s.writers
    pub replayed : replay e entity_id pk s.log ≡ s.stored
    pub callers : calls_of s.writers ≡ calls
    pub once : Perm (written_calls s.log) (finished_calls s.writers)
    pub counted : length s.log ≡ length (finished_calls s.writers)
    pub bounded : n + all_left max_attempts s.writers ≤ length calls * (4 * max_attempts)

  -- A turn, with the state taken apart.
  module _ (calls : List (Call F)) (n : ℕ) (s : Race F) (us : List (Writer F)) (w : Writer F)
      (vs : List (Writer F)) (parts : s.writers ≡ us ++ w ∷ vs) (active : is_active w.phase ≡ true)
      (v : Inv calls n s) where
    abbrev r : Turn F
    r = turn e max_attempts entity_id pk w s.stored

    abbrev all_paid : All (IsPaidIn s) us × (IsPaidIn s w × All (IsPaidIn s) vs)
    all_paid = All-split (IsPaidIn s) us (w ∷ vs) (rw (← parts) v.paid)

    abbrev one : IsTurn e max_attempts entity_id pk s.stored (length s.log) w.phase w r
    one =
        turn_in-IsTurn e max_attempts entity_id pk w.phase s.stored (length s.log) w active
          v.written all_paid.1.0

    abbrev after_one : Race F
    after_one = advanced e max_attempts entity_id pk s us w vs

    others_paid : (ws : List (Writer F)) → All (IsPaidIn s) ws → All (IsPaidIn after_one) ws
    others_paid ws h =
        All-map (IsPaidIn s) (IsPaidIn after_one)
          (λ x k.
            IsPaid-grown max_attempts s.stored r.stored (length s.log) (length after_one.log)
              x.attempt x.phase
              (rw (length-logged s.log w.call r.written) (le-count_after (length s.log) r.written))
              one.grown k)
          ws h

    step-callers : calls_of after_one.writers ≡ calls
    step-callers =
        calls_of-append us (r.writer ∷ vs)
        ∙ ap (λ (c : Call F). calls_of us ++ c ∷ calls_of vs) one.same_call
        ∙ sym (calls_of-append us (w ∷ vs))
        ∙ ap calls_of (sym parts)
        ∙ v.callers

    old_once : Perm (written_calls s.log) (finished_calls us ++ finished_calls vs)
    old_once =
        let same =
          ap finished_calls parts
          ∙ finished_calls-append us (w ∷ vs)
          ∙ ap (λ (l : List (Call F)). finished_calls us ++ (l ++ finished_calls vs))
              (active_one w.phase w.call active) in
        rw (← same) v.once

    once_of :
        (k : Option (Option Bool))
        → count_finished r.writer.phase ≡ count_written k
        → Perm (written_calls (logged s.log w.call k)) (finished_calls (us ++ r.writer ∷ vs))
    once_of none h =
        rw (finished_calls-append us (r.writer ∷ vs), inactive_one r.writer.phase r.writer.call h)
          old_once
    once_of (some none) h =
        rw
          (
            finished_calls-append us (r.writer ∷ vs),
            finished_one r.writer.phase r.writer.call h,
            one.same_call,
          )
          (Perm-grown s.log (finished_calls us) (finished_calls vs) _ old_once)
    once_of (some (some atomic)) h =
        rw
          (
            finished_calls-append us (r.writer ∷ vs),
            finished_one r.writer.phase r.writer.call h,
            one.same_call,
          )
          (Perm-grown s.log (finished_calls us) (finished_calls vs) _ old_once)

    finished_before :
        length (finished_calls s.writers) ≡ length (finished_calls us ++ finished_calls vs)
    finished_before = ap length (
        ap finished_calls parts
        ∙ finished_calls-append us (w ∷ vs)
        ∙ ap (λ (l : List (Call F)). finished_calls us ++ (l ++ finished_calls vs))
            (active_one w.phase w.call active))

    counted_of :
        (k : Option (Option Bool))
        → count_finished r.writer.phase ≡ count_written k
        → count_after (length s.log) k ≡ length (finished_calls (us ++ r.writer ∷ vs))
    counted_of none h =
        rw (finished_calls-append us (r.writer ∷ vs), inactive_one r.writer.phase r.writer.call h)
          (v.counted ∙ finished_before)
    counted_of (some k) h =
        rw (finished_calls-append us (r.writer ∷ vs), finished_one r.writer.phase r.writer.call h)
          (omega (
            arith,
            v.counted,
            finished_before,
            length-append (finished_calls us) (finished_calls vs),
            length-append (finished_calls us) (r.writer.call ∷ finished_calls vs),
          ))

    step-bounded :
        suc n + all_left max_attempts after_one.writers ≤ length calls * (4 * max_attempts)
    step-bounded = omega (
      arith,
      v.bounded,
      ap (all_left max_attempts) parts,
      all_left-append max_attempts us (w ∷ vs),
      all_left-append max_attempts us (r.writer ∷ vs),
      one.shorter,
    )

    pub step-Inv : Inv calls (suc n) after_one
    step-Inv =
        let grown = length-logged s.log w.call r.written in
        record {
          written = rw grown one.written;
          paid =
              All-append (IsPaidIn after_one) us (r.writer ∷ vs) (others_paid us all_paid.0)
                (rw grown one.paid, others_paid vs all_paid.1.1);
          replayed = one.replayed s.log v.replayed;
          callers = step-callers;
          once = once_of r.written one.ended;
          counted = grown ∙ counted_of r.written one.ended;
          bounded = step-bounded;
        }
