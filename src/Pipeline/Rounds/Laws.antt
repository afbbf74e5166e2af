-- ===== src/Pipeline/Rounds/Laws.antt =====
-- The books of a round (internal/pipeline/stats.go, worker.go, enqueue.go) over a
-- sequence of queueings and of tasks worked on.
use bidshard_lead_miner.Common.{
  ℕ, zero, suc, ◌+◌, ◌≡◌, refl, Bool, true, false, List, [], ◌∷◌, Option, none, some, String, arith,
  length, length-append, if-cases,
}
use bidshard_lead_miner.Pipeline.Types.{Reason, Lead, ProcessOutcome}
use bidshard_lead_miner.Pipeline.Rounds.{
  RoundState, new_round, track_task, finish_task, add_lead, record_round_reject, count_accepted,
  count_outcome, pool_process, try_enqueue, buckets,
}

pub data Event : Type 0 where
  enqueue : (cancelled room : Bool) → Event
  work : (cancelled : Bool) → ProcessOutcome → Event

unfoldable pub replay : RoundState → List Event → Option RoundState
replay s [] = some s
replay s (enqueue cancelled room ∷ es) = replay (try_enqueue cancelled room s).0 es
replay s (work cancelled out ∷ es) = elim (pool_process cancelled true s out) [
  | none ↦ none
  | some s' ↦ replay s' es
]

-- How many tasks were refused for want of room.
unfoldable pub refusals : List Event → ℕ
refusals [] = 0
refusals (enqueue false false ∷ es) = suc (refusals es)
refusals (_ ∷ es) = refusals es

-- Where `n` tasks wait, no task is worked on before it was queued.
unfoldable pub fed : ℕ → List Event → Bool
fed n [] = true
fed n (enqueue false true ∷ es) = fed (suc n) es
fed n (enqueue _ _ ∷ es) = fed n es
fed zero (work _ _ ∷ es) = false
fed (suc n) (work _ _ ∷ es) = fed n es

pub total : List (String × ℕ) → ℕ
total [] = 0
total ((_, n) ∷ rest) = n + total rest

-- The counters without those of the priorities and of the sources.
unfoldable pub handled : RoundState → ℕ
handled s = s.accepted + total (buckets s)

-- A round's books, where `refused` tasks found no room.
pub record Balanced (refused : ℕ) (s : RoundState) : Type 0 where
  pub each : handled s ≡ s.raw_total + refused
  pub ranked : s.accepted ≡ s.high + s.medium + s.low
  pub listed : length s.leads ≡ s.accepted

abbrev taken : RoundState → RoundState
taken s = record s { raw_total = suc s.raw_total }

record_round_reject-Balanced :
    (refused : ℕ) (s : RoundState) (r : Option Reason)
    → Balanced refused s
    → Balanced refused (record_round_reject (taken s) r)
unfolding record_round_reject handled total buckets
record_round_reject-Balanced refused s none b = ground arith
record_round_reject-Balanced refused s (some r) b = ground arith

accepted-Balanced :
    (refused : ℕ) (s : RoundState) (lead : Option Lead)
    → Balanced refused s
    → Balanced refused
        (add_lead (count_accepted (record (taken s) { accepted = suc s.accepted }) lead) lead)
unfolding add_lead count_accepted handled total buckets
accepted-Balanced refused s none b = ground (arith, length-append s.leads (none ∷ []))
accepted-Balanced refused s (some lead) b = ground (arith, length-append s.leads (some lead ∷ []))

count_outcome-Balanced :
    (refused : ℕ) (s : RoundState) (out : ProcessOutcome)
    → Balanced refused s
    → Balanced refused (count_outcome (taken s) out)
unfolding count_outcome
count_outcome-Balanced refused s out b =
    let rejects = record_round_reject-Balanced refused s in
    if-cases (Balanced refused) out.rejected_geo (λ _. rejects _ b)
      λ _.
        if-cases (Balanced refused) out.hard_rejected (λ _. rejects _ b)
          λ _.
            if-cases (Balanced refused) out.dedup_hit (λ _. rejects _ b)
              λ _.
                if-cases (Balanced refused) out.dropped_mx (λ _. rejects _ b)
                  λ _.
                    if-cases (Balanced refused) out.accepted
                      (λ _. accepted-Balanced refused s out.lead b) λ _. rejects _ b

-- What is left of a round after a run.
abbrev Closes : ℕ → Option RoundState → Type 0
Closes refused run = (s : RoundState) × (run ≡ some s) × Balanced refused s

tracked-record_round_reject :
    (s : RoundState) (r : Option Reason) → (record_round_reject s r).tracked ≡ s.tracked
unfolding record_round_reject
tracked-record_round_reject s none = refl
tracked-record_round_reject s (some r) = ground arith

tracked-count_outcome :
    (s : RoundState) (out : ProcessOutcome) → (count_outcome s out).tracked ≡ s.tracked
unfolding count_outcome count_accepted add_lead record_round_reject
tracked-count_outcome s out = ground (arith, tracked-record_round_reject s out.reject_reason)

-- A finished task.
finish_task-Balanced :
    (refused n : ℕ) (s : RoundState)
    → s.tracked ≡ suc n
    → Balanced refused s
    → (s' : RoundState) × (finish_task s ≡ some s') × (s'.tracked ≡ n) × Balanced refused s'
unfolding finish_task handled buckets
finish_task-Balanced refused n s e b = (
  record s { tracked = n },
  rw e refl,
  refl,
  record { each = b.each; ranked = b.ranked; listed = b.listed },
)

pool_process-Balanced :
    (refused n : ℕ) (cancelled : Bool) (s : RoundState) (out : ProcessOutcome)
    → s.tracked ≡ suc n
    → Balanced refused s
    → (s' : RoundState) × (pool_process cancelled true s out ≡ some s')
      × (s'.tracked ≡ n)
      × Balanced refused s'
unfolding pool_process
pool_process-Balanced refused n true s out e b = finish_task-Balanced refused n s e b
pool_process-Balanced refused n false s out e b =
    finish_task-Balanced refused n (count_outcome (taken s) out)
      (ground (arith, e, tracked-count_outcome (taken s) out))
      (count_outcome-Balanced refused s out b)

-- A refusal for want of room.
dropped-Balanced :
    (refused : ℕ) (s : RoundState)
    → Balanced refused s
    → Balanced (suc refused) (record s { dropped = suc s.dropped })
unfolding handled total buckets
dropped-Balanced refused s b = ground arith

-- A task that waits is finished.
work_step :
    (refused n : ℕ) (s : RoundState) (cancelled : Bool) (out : ProcessOutcome) (es : List Event)
    → s.tracked ≡ n
    → fed n (work cancelled out ∷ es) ≡ true
    → Balanced refused s
    → (s' : RoundState) × (pool_process cancelled true s out ≡ some s')
      × (fed s'.tracked es ≡ true)
      × Balanced refused s'
unfolding fed
work_step refused zero s cancelled out es e h b = ground arith
work_step refused (suc n) s cancelled out es e h b =
    let (s', run, left, b') = pool_process-Balanced refused n cancelled s out e b in
    (s', run, rw left h, b')

replay-Balanced :
    (refused : ℕ) (s : RoundState) (es : List Event)
    → Balanced refused s
    → fed s.tracked es ≡ true
    → Closes (refused + refusals es) (replay s es)
unfolding replay refusals fed try_enqueue track_task handled buckets
replay-Balanced refused s [] b h = (s, refl, ground (arith, b))
replay-Balanced refused s (enqueue true room ∷ es) b h = replay-Balanced refused s es b h
replay-Balanced refused s (enqueue false true ∷ es) b h =
    replay-Balanced refused (record s { tracked = suc s.tracked }) es
      (record { each = b.each; ranked = b.ranked; listed = b.listed }) h
replay-Balanced refused s (enqueue false false ∷ es) b h =
    let (s', run, b') =
      replay-Balanced (suc refused) (record s { dropped = suc s.dropped }) es
        (dropped-Balanced refused s b) h in
    (s', run, record { each = omega (arith, b'.each); ranked = b'.ranked; listed = b'.listed })
replay-Balanced refused s (work cancelled out ∷ es) b h =
    let (s₁, step, fed₁, b₁) = work_step refused s.tracked s cancelled out es refl h b in
    let (s₂, run, b₂) = replay-Balanced refused s₁ es b₁ fed₁ in (s₂, rw (step, replay) run, b₂)

-- Where no task is worked on before it was queued and tracked, a round never panics, and its books
-- balance: the accepted and the buckets of the refused together are the tasks that were taken up
-- and those that found no room; the accepted are those of the three priorities, and as many leads
-- are listed.
pub replay_new-Balanced :
    (es : List Event)
    → fed 0 es ≡ true
    → (s : RoundState) × (replay new_round es ≡ some s) × Balanced (refusals es) s
unfolding handled buckets total
replay_new-Balanced es h =
    let (s, run, b) =
      replay-Balanced 0 new_round es (record { each = refl; ranked = refl; listed = refl }) h in
    (s, run, record { each = omega (arith, b.each); ranked = b.ranked; listed = b.listed })
