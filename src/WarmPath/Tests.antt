-- ===== src/WarmPath/Tests.antt =====
-- Runs of the batches of the warm path (internal/warmpath/batch_worker.go) and uses of their theorems.
use bidshard_lead_miner.Common.{
  false, ℕ, ◌≡◌, refl, Bool, true, ◌==◌, List, [], ◌∷◌, ◌++◌, none, some, All, length,
}
use bidshard_lead_miner.Batch.Laws.{concat}
use bidshard_lead_miner.WarmPath.{
  corrupt, entry, Batch, waiting, failed, succeeded, written, Outside, Worker, Event, spilled,
  flush_tick, poll_tick, append, decode, drain, build_lines, requeue_records, flush_spill,
  poll_jobs, answered, job_records, engage_chunks, chunk_items, step, run,
}
use bidshard_lead_miner.WarmPath.Blocked.{IsBlocked, spilled_lines, run-blocked}
use bidshard_lead_miner.WarmPath.Chunks.{IsSized, engage_chunks_lem}

abbrev one : Batch ℕ
one = record { key = "warm-1"; items = 1 ∷ 2 ∷ [] }

abbrev two : Batch ℕ
two = record { key = "warm-2"; items = 3 ∷ [] }

abbrev idle : Worker ℕ
idle = record { spill = []; jobs = []; applied = []; unanswered = []; dropped = [] }

abbrev accepted : Outside ℕ
accepted = record {
  readable = true;
  removed = true;
  builds = λ r. true;
  submitted = some "batches/7";
  writes = λ r. written;
}

abbrev offline : Outside ℕ
offline = record {
  readable = true;
  removed = true;
  builds = λ r. true;
  submitted = none;
  writes = λ r. written;
}

-- The model cannot be reached at first; the job is done at the second poll.
abbrev day : List (Event ℕ)
day =
    spilled written one
    ∷ spilled written two
    ∷ flush_tick offline
    ∷ flush_tick accepted
    ∷ poll_tick (λ name. waiting)
    ∷ poll_tick (λ name. succeeded (some (λ key. true)))
    ∷ []

after_day :
    run day idle
    ≡ record { spill = []; jobs = []; applied = one ∷ two ∷ []; unanswered = []; dropped = [] }
unfolding run step append decode drain build_lines requeue_records flush_spill poll_jobs answered
    job_records
after_day = refl

-- A job that fails at the model takes its records with it.
after_failure :
    (run (spilled written one ∷ flush_tick accepted ∷ poll_tick (λ name. failed) ∷ []) idle).dropped
    ≡ one ∷ []
unfolding run step append decode drain build_lines requeue_records flush_spill poll_jobs answered
    job_records
after_failure = refl

-- A record of which the output of its job has no row is neither applied nor put back.
without_row :
    run
      (spilled written one
        ∷ flush_tick accepted
        ∷ poll_tick (λ name. succeeded (some (λ key. false)))
        ∷ [])
      idle
    ≡ record { spill = []; jobs = []; applied = []; unanswered = one ∷ []; dropped = [] }
unfolding run step append decode drain build_lines requeue_records flush_spill poll_jobs answered
    job_records
without_row = refl

abbrev five : List ℕ
five = 1 ∷ 2 ∷ 3 ∷ 4 ∷ 5 ∷ []

chunks_of_five : engage_chunks 2 five ≡ (1 ∷ 2 ∷ []) ∷ (3 ∷ 4 ∷ []) ∷ (5 ∷ []) ∷ []
unfolding engage_chunks chunk_items
chunks_of_five = refl

abbrev is_first : Batch ℕ → Bool
is_first r = length r.items == 2

abbrev torn : Worker ℕ
torn = record {
  spill = entry one ∷ corrupt ∷ [];
  jobs = [];
  applied = [];
  unanswered = [];
  dropped = [];
}

run-blocked_example : (run day torn).spill ≡ (entry one ∷ corrupt ∷ []) ++ spilled_lines day
unfolding IsBlocked
run-blocked_example = run-blocked day torn tt

engage_chunks_lem_example :
    (concat (engage_chunks 0 five) ≡ five) × All (IsSized 4) (engage_chunks 0 five)
engage_chunks_lem_example = engage_chunks_lem 0 five
