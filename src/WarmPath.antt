-- ===== src/WarmPath.antt =====
-- The batches of the warm path (internal/warmpath/batch_worker.go, batch_spill.go,
-- batch_engage_spill.go): leads wait in a file of lines, are submitted as jobs to the language model,
-- and leave when the results of their job have been applied. What the file system and the model
-- answer is an argument of each operation. A torn write leaves a fragment that does not decode; what
-- is written behind it is a line of its own here, and no drain gets past the fragment in either case.
pub mod Blocked
pub mod Chunks
pub mod Flush
pub mod Lossless
pub mod Runs
mod Tests
use bidshard_lead_miner.Common.{
  ℕ, zero, suc, ◌-◌, Bool, true, false, not, ◌&&◌, List, [], ◌∷◌, ◌++◌, Option, none, some, String,
  ◌==◌, ltb, leb, if◌then◌else◌, length, take, drop,
}
use bidshard_lead_miner.Common.Text.{is_empty}

-- A line of a spill file: empty, one that does not decode, or a record.
pub data Line (R : Type 0) : Type 0 where
  blank : Line R
  corrupt : Line R
  entry : R → Line R

-- A batch that waits, of leads (`SpillRecord`) or of leads with their core results
-- (`EngageSpillRecord`).
pub record Batch (I : Type 0) : Type 0 where
  pub key : String
  pub items : List I

abbrev pub is_nil : {I : Type 0} → List I → Bool
is_nil [] = true
is_nil (x ∷ xs) = false

-- What the model says of a job: `unreachable` is an error, `waiting` is any state that is not an
-- end, and `succeeded` has an error, or tells of which keys the output has a row.
pub data Status : Type 0 where
  unreachable waiting failed : Status
  succeeded : Option (String → Bool) → Status

-- What becomes of a write: nothing is written, or a part of the line, or the whole line but the file
-- does not close, or no error.
pub data Write : Type 0 where
  refused torn unclosed written : Write

-- What the world answers to one flush: whether the file can be opened and removed, for which records
-- a request can be built, the job's name when it is accepted, and each write of a requeue.
pub record Outside (I : Type 0) : Type 0 where
  pub readable : Bool
  pub removed : Bool
  pub builds : Batch I → Bool
  pub submitted : Option String
  pub writes : Batch I → Write

-- A job: its name and its records (`pendingBatchJob`, of one phase).
abbrev pub Job : Type 0 → Type 0
Job I = String × List (Batch I)

-- The file, the job that was submitted, and the records that are given up, with a log line.
pub record Flushed (I : Type 0) : Type 0 where
  pub file : List (Line (Batch I))
  pub job : Option (Job I)
  pub given_up : List (Batch I)

-- What a poll makes of the jobs: those that remain, and of the others the records that were applied,
-- those of which the output of their job had no row, and those of jobs that failed.
pub record Polled (I : Type 0) : Type 0 where
  pub remaining : List (Job I)
  pub done : List (Batch I)
  pub unanswered : List (Batch I)
  pub lost : List (Batch I)

-- The worker of one phase: its spill file and its jobs (`state`), with what left them so far:
-- the records that were applied, those of which a job that succeeded had no row, and those that were
-- given up at a flush or lost with a job that failed.
pub record Worker (I : Type 0) : Type 0 where
  pub spill : List (Line (Batch I))
  pub jobs : List (Job I)
  pub applied : List (Batch I)
  pub unanswered : List (Batch I)
  pub dropped : List (Batch I)

-- What happens to a worker: a batch is spilled, or one of the two tickers fires.
pub data Event (I : Type 0) : Type 0 where
  spilled : Write → Batch I → Event I
  flush_tick : Outside I → Event I
  poll_tick : (String → Status) → Event I

-- The limit of a chunk: four where none is configured.
abbrev pub chunk_size : ℕ → ℕ
chunk_size size = if size == 0 then 4 else size

abbrev pub is_unclosed : Write → Bool
is_unclosed unclosed = true
is_unclosed _ = false

module _ {I : Type 0} where
  abbrev pub is_whole : Batch I → Bool
  is_whole r = not (is_empty r.key) && not (is_nil r.items)

  -- The write of `Append`: the file, and whether there was no error.
  abbrev pub append_line : Write → Batch I → List (Line (Batch I)) → List (Line (Batch I)) × Bool
  append_line refused r file = (file, false)
  append_line torn r file = (file ++ corrupt ∷ [], false)
  append_line unclosed r file = (file ++ entry r ∷ [], false)
  append_line written r file = (file ++ entry r ∷ [], true)

  -- `Append`
  unfoldable pub append : Write → Batch I → List (Line (Batch I)) → List (Line (Batch I)) × Bool
  append write r file = if is_whole r then append_line write r file else (file, false)

  abbrev pub keep_whole : Batch I → List (Batch I) → List (Batch I)
  keep_whole r rest = if is_whole r then r ∷ rest else rest

  abbrev pub keep_record : Batch I → Option (List (Batch I)) → Option (List (Batch I))
  keep_record r none = none
  keep_record r (some rest) = some (keep_whole r rest)

  -- The scan of `Drain`. `none` is its error: a line that does not decode, or is too long.
  unfoldable pub decode : List (Line (Batch I)) → Option (List (Batch I))
  decode [] = some []
  decode (blank ∷ file) = decode file
  decode (corrupt ∷ file) = none
  decode (entry r ∷ file) = keep_record r (decode file)

  abbrev pub clear :
      Bool
      → List (Line (Batch I))
      → Option (List (Batch I))
      → List (Line (Batch I)) × Option (List (Batch I))
  clear removed file none = (file, none)
  clear removed file (some records) = if removed then ([], some records) else (file, none)

  -- `Drain`: the file, and the records or an error.
  unfoldable pub drain :
      Bool → Bool → List (Line (Batch I)) → List (Line (Batch I)) × Option (List (Batch I))
  drain readable removed file =
      if not readable then (file, none) else clear removed file (decode file)

  -- `buildCoreLines` and `buildEngageLines`: the records for which a request can be built, and the
  -- others.
  unfoldable pub build_lines : (Batch I → Bool) → List (Batch I) → List (Batch I) × List (Batch I)
  build_lines builds [] = ([], [])
  build_lines builds (r ∷ records) =
      let (valid, skipped) = build_lines builds records in
      if builds r then (r ∷ valid, skipped) else (valid, r ∷ skipped)

  -- `requeueCoreRecords` and `requeueEngageRecords`, which end at the first error: the file, and the
  -- records that are not in it. The record whose file did not close is.
  unfoldable pub requeue_records :
      (Batch I → Write)
      → List (Batch I)
      → List (Line (Batch I))
      → List (Line (Batch I)) × List (Batch I)
  requeue_records writes [] file = (file, [])
  requeue_records writes (r ∷ records) file =
      let (file', closed) = append (writes r) r file in
      let rest = requeue_records writes records file' in
      let unqueued = if is_whole r && is_unclosed (writes r) then records else r ∷ records in
      if closed then rest else (file', unqueued)

  -- What follows the building of the requests: the submission, or a requeue.
  abbrev pub submit_records :
      Outside I
      → Option String
      → List (Batch I) × List (Batch I)
      → List (Line (Batch I))
      → Flushed I
  submit_records w (some name) (valid, skipped) file = record {
    file = file;
    job = some (name, valid);
    given_up = skipped;
  }
  submit_records w none (valid, skipped) file =
      let (file', unqueued) = requeue_records w.writes valid file in
      record { file = file'; job = none; given_up = skipped ++ unqueued }

  -- What follows the drain.
  abbrev pub flush_drained : Outside I → List (Line (Batch I)) × Option (List (Batch I)) → Flushed I
  flush_drained w (file, none) = record { file = file; job = none; given_up = [] }
  flush_drained w (file, some records) =
      let built = build_lines w.builds records in
      if is_nil built.0
      then record { file = file; job = none; given_up = built.1 }
      else submit_records w w.submitted built file

  -- `flushCoreSpill` and `flushEngageSpill`
  unfoldable pub flush_spill : Outside I → List (Line (Batch I)) → Flushed I
  flush_spill w file = flush_drained w (drain w.readable w.removed file)

  -- The records of which the output has a row, as `applyCoreJobResults` and `applyEngageJobResults`
  -- look them up, and the others. The keys of a job are taken as distinct.
  unfoldable pub answered : (String → Bool) → List (Batch I) → List (Batch I) × List (Batch I)
  answered has_row [] = ([], [])
  answered has_row (r ∷ records) =
      let (found, missing) = answered has_row records in
      if has_row r.key then (r ∷ found, missing) else (found, r ∷ missing)

  abbrev pub poll_job : Job I → Status → Polled I → Polled I
  poll_job job unreachable rest = record rest { remaining = job ∷ rest.remaining }
  poll_job job waiting rest = record rest { remaining = job ∷ rest.remaining }
  poll_job job failed rest = record rest { lost = job.1 ++ rest.lost }
  poll_job job (succeeded none) rest = record rest { remaining = job ∷ rest.remaining }
  poll_job job (succeeded (some has_row)) rest =
      let (found, missing) = answered has_row job.1 in
      record rest { done = found ++ rest.done; unanswered = missing ++ rest.unanswered }

  -- `pollJobs`
  unfoldable pub poll_jobs : (String → Status) → List (Job I) → Polled I
  poll_jobs status [] = record { remaining = []; done = []; unanswered = []; lost = [] }
  poll_jobs status (job ∷ jobs) = poll_job job (status job.0) (poll_jobs status jobs)

  -- The records of jobs.
  unfoldable pub job_records : List (Job I) → List (Batch I)
  job_records [] = []
  job_records (job ∷ jobs) = job.1 ++ job_records jobs

  abbrev pub append_job : Option (Job I) → List (Job I) → List (Job I)
  append_job none jobs = jobs
  append_job (some job) jobs = jobs ++ job ∷ []

  -- `Spill`, and the two branches of `loop`.
  unfoldable pub step : Event I → Worker I → Worker I
  step (spilled write r) w = record w { spill = (append write r w.spill).0 }
  step (flush_tick world) w =
      let flushed = flush_spill world w.spill in
      record w {
        spill = flushed.file;
        jobs = append_job flushed.job w.jobs;
        dropped = w.dropped ++ flushed.given_up;
      }
  step (poll_tick status) w =
      let polled = poll_jobs status w.jobs in
      record w {
        jobs = polled.remaining;
        applied = w.applied ++ polled.done;
        unanswered = w.unanswered ++ polled.unanswered;
        dropped = w.dropped ++ polled.lost;
      }

  unfoldable pub run : List (Event I) → Worker I → Worker I
  run [] w = w
  run (event ∷ events) w = run events (step event w)

  -- `queueEngageItems`: the items in chunks, for at most as many rounds as there are items.
  unfoldable pub chunk_items : ℕ → ℕ → List I → List (List I)
  chunk_items zero chunk items = []
  chunk_items (suc rounds) chunk items =
      let rest = take chunk items ∷ chunk_items rounds chunk (drop chunk items) in
      if is_nil items then [] else rest

  unfoldable pub engage_chunks : ℕ → List I → List (List I)
  unfolding chunk_items
  engage_chunks size items = chunk_items (length items) (chunk_size size) items
