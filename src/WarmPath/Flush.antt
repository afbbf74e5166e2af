-- ===== src/WarmPath/Flush.antt =====
-- What a flush does with the records of a spill file (internal/warmpath/batch_worker.go,
-- internal/warmpath/batch_spill.go, internal/warmpath/batch_engage_spill.go).
use bidshard_lead_miner.Common.{
  ℕ, ◌+◌, ◌≡◌, refl, ap, ◌∙◌, Bool, true, false, ◌&&◌, List, [], ◌∷◌, ◌++◌, Option, none, some,
  String, if◌then◌else◌, append_nil, arith,
}
use bidshard_lead_miner.WarmPath.{
  Line, blank, corrupt, entry, Batch, is_nil, Write, refused, torn, unclosed, written, Outside, Job,
  Flushed, is_unclosed, is_whole, append_line, append, keep_whole, keep_record, decode, clear,
  drain, build_lines, requeue_records, submit_records, flush_drained, flush_spill,
}

module _ {I : Type 0} where
  -- How many of the records are chosen.
  unfoldable pub count : (Batch I → Bool) → List (Batch I) → ℕ
  count p [] = 0
  count p (r ∷ rs) = (if p r then 1 else 0) + count p rs

  pub count-append :
      (p : Batch I → Bool) (rs qs : List (Batch I)) → count p (rs ++ qs) ≡ count p rs + count p qs
  unfolding count
  count-append p [] qs = omega arith
  count-append p (r ∷ rs) qs = omega (arith, count-append p rs qs)

  -- The records that a file keeps, past the lines that do not decode.
  unfoldable pub records_in : List (Line (Batch I)) → List (Batch I)
  records_in [] = []
  records_in (blank ∷ file) = records_in file
  records_in (corrupt ∷ file) = records_in file
  records_in (entry r ∷ file) = keep_whole r (records_in file)

  keep_if-append :
      (b : Bool) (r : Batch I) (rs qs : List (Batch I))
      → (if b then r ∷ (rs ++ qs) else rs ++ qs) ≡ (if b then r ∷ rs else rs) ++ qs
  keep_if-append true r rs qs = refl
  keep_if-append false r rs qs = refl

  keep_whole-append :
      (r : Batch I) (rs qs : List (Batch I)) → keep_whole r (rs ++ qs) ≡ keep_whole r rs ++ qs
  keep_whole-append r rs qs = keep_if-append (is_whole r) r rs qs

  records_in-append :
      (file new : List (Line (Batch I)))
      → records_in (file ++ new) ≡ records_in file ++ records_in new
  unfolding records_in
  records_in-append [] new = refl
  records_in-append (blank ∷ file) new = records_in-append file new
  records_in-append (corrupt ∷ file) new = records_in-append file new
  records_in-append (entry r ∷ file) new =
      ap (keep_whole r) (records_in-append file new)
      ∙ keep_whole-append r (records_in file) (records_in new)

  -- The records that a scan finds are those that the file keeps.
  abbrev IsFound : List (Line (Batch I)) → Option (List (Batch I)) → Type 0
  IsFound file none = Unit
  IsFound file (some rs) = rs ≡ records_in file

  keep_record-IsFound :
      (r : Batch I) (file : List (Line (Batch I))) (found : Option (List (Batch I)))
      → IsFound file found
      → IsFound (entry r ∷ file) (keep_record r found)
  unfolding records_in
  keep_record-IsFound r file none h = tt
  keep_record-IsFound r file (some rs) h = ap (keep_whole r) h

  decode-IsFound : (file : List (Line (Batch I))) → IsFound file (decode file)
  unfolding decode records_in
  decode-IsFound [] = refl
  decode-IsFound (blank ∷ file) = decode-IsFound file
  decode-IsFound (corrupt ∷ file) = tt
  decode-IsFound (entry r ∷ file) = keep_record-IsFound r file (decode file) (decode-IsFound file)

  -- A drain leaves a record in the file, or hands it over.
  abbrev drained_records : Option (List (Batch I)) → List (Batch I)
  drained_records none = []
  drained_records (some rs) = rs

  clear-kept :
      (p : Batch I → Bool) (removed : Bool) (file : List (Line (Batch I)))
      (found : Option (List (Batch I)))
      → IsFound file found
      → let (file', drained) = clear removed file found in
        count p (records_in file') + count p (drained_records drained) ≡ count p (records_in file)
  unfolding records_in count
  clear-kept p removed file none h = omega arith
  clear-kept p true file (some rs) h = omega (arith, ap (count p) h)
  clear-kept p false file (some rs) h = omega arith

  drain-kept :
      (p : Batch I → Bool) (readable removed : Bool) (file : List (Line (Batch I)))
      → let (file', drained) = drain readable removed file in
        count p (records_in file') + count p (drained_records drained) ≡ count p (records_in file)
  unfolding drain records_in count
  drain-kept p true removed file = clear-kept p removed file (decode file) (decode-IsFound file)
  drain-kept p false removed file = omega arith

  build_if-kept :
      (p : Batch I → Bool) (b : Bool) (r : Batch I) (valid skipped : List (Batch I))
      → let built : List (Batch I) × List (Batch I) =
          if b then (r ∷ valid, skipped) else (valid, r ∷ skipped) in
        count p built.0 + count p built.1 ≡ count p (r ∷ valid) + count p skipped
  unfolding count
  build_if-kept p true r valid skipped = refl
  build_if-kept p false r valid skipped = omega arith

  build_lines-kept :
      (p : Batch I → Bool) (builds : Batch I → Bool) (records : List (Batch I))
      → let built = build_lines builds records in
        count p built.0 + count p built.1 ≡ count p records
  unfolding build_lines count
  build_lines-kept p builds [] = omega arith
  build_lines-kept p builds (r ∷ records) =
      let built = build_lines builds records in
      build_if-kept p (builds r) r built.0 built.1
      ∙ omega (arith, build_lines-kept p builds records)

  records_in-entry :
      (r : Batch I) (file : List (Line (Batch I)))
      → is_whole r ≡ true
      → records_in (file ++ entry r ∷ []) ≡ records_in file ++ r ∷ []
  unfolding records_in
  records_in-entry r file h =
      records_in-append file (entry r ∷ [])
      ∙ ap (λ (b : Bool). records_in file ++ (if b then r ∷ [] else [])) h

  pub count-entry :
      (p : Batch I → Bool) (r : Batch I) (file : List (Line (Batch I)))
      → is_whole r ≡ true
      → count p (records_in (file ++ entry r ∷ [])) ≡ count p (records_in file) + count p (r ∷ [])
  count-entry p r file h =
      ap (count p) (records_in-entry r file h) ∙ count-append p (records_in file) (r ∷ [])

  pub count-corrupt :
      (p : Batch I → Bool) (file : List (Line (Batch I)))
      → count p (records_in (file ++ corrupt ∷ [])) ≡ count p (records_in file)
  unfolding records_in
  count-corrupt p file =
      ap (count p) (records_in-append file (corrupt ∷ []) ∙ append_nil (records_in file))

  -- What one write of a requeue does, before the others.
  requeue_one-kept :
      (p : Batch I → Bool) (r : Batch I) (records : List (Batch I)) (file : List (Line (Batch I)))
      (next : List (Line (Batch I)) → List (Line (Batch I)) × List (Batch I)) (whole : Bool)
      (write : Write)
      → is_whole r ≡ whole
      → ((f : List (Line (Batch I)))
          → count p (records_in (next f).0) + count p (next f).1
            ≡ count p (records_in f) + count p records)
      → let one : List (Line (Batch I)) × Bool =
          if whole then append_line write r file else (file, false) in
        let queued : List (Line (Batch I)) × List (Batch I) =
          if one.1
          then next one.0
          else (one.0, if whole && is_unclosed write then records else r ∷ records) in
        count p (records_in queued.0) + count p queued.1
        ≡ count p (records_in file) + count p (r ∷ records)
  unfolding count
  requeue_one-kept p r records file next false write e h = refl
  requeue_one-kept p r records file next true refused e h = refl
  requeue_one-kept p r records file next true torn e h = omega (arith, count-corrupt p file)
  requeue_one-kept p r records file next true unclosed e h = omega (arith, count-entry p r file e)
  requeue_one-kept p r records file next true written e h =
      omega (arith, h (file ++ entry r ∷ []), count-entry p r file e)

  requeue_records-kept :
      (p : Batch I → Bool) (writes : Batch I → Write) (records : List (Batch I))
      (file : List (Line (Batch I)))
      → let queued = requeue_records writes records file in
        count p (records_in queued.0) + count p queued.1
        ≡ count p (records_in file) + count p records
  unfolding requeue_records append
  requeue_records-kept p writes [] file = refl
  requeue_records-kept p writes (r ∷ records) file =
      requeue_one-kept p r records file (requeue_records writes records) (is_whole r) (writes r)
        refl (requeue_records-kept p writes records)

  abbrev pub job_of : Option (Job I) → List (Batch I)
  job_of none = []
  job_of (some job) = job.1

  -- The records that a flush leaves in the file, submits and gives up.
  abbrev pub flushed_records : (Batch I → Bool) → Flushed I → ℕ
  flushed_records p f = count p (records_in f.file) + count p (job_of f.job) + count p f.given_up

  submit_records-kept :
      (p : Batch I → Bool) (w : Outside I) (name : Option String) (valid skipped : List (Batch I))
      (file : List (Line (Batch I)))
      → flushed_records p (submit_records w name (valid, skipped) file)
        ≡ count p (records_in file) + count p valid + count p skipped
  unfolding count
  submit_records-kept p w (some name) valid skipped file = refl
  submit_records-kept p w none valid skipped file =
      let queued = requeue_records w.writes valid file in
      omega (arith, requeue_records-kept p w.writes valid file, count-append p skipped queued.1)

  nil_valid-kept :
      (p : Batch I → Bool) (w : Outside I) (valid skipped : List (Batch I))
      (file : List (Line (Batch I)))
      → flushed_records p (
          if is_nil valid
          then record { file = file; job = none; given_up = skipped }
          else submit_records w w.submitted (valid, skipped) file)
        ≡ count p (records_in file) + count p valid + count p skipped
  unfolding count
  nil_valid-kept p w [] skipped file = omega arith
  nil_valid-kept p w (r ∷ valid) skipped file =
      submit_records-kept p w w.submitted (r ∷ valid) skipped file

  flush_drained-kept :
      (p : Batch I → Bool) (w : Outside I) (file : List (Line (Batch I)))
      (drained : Option (List (Batch I)))
      → flushed_records p (flush_drained w (file, drained))
        ≡ count p (records_in file) + count p (drained_records drained)
  unfolding count
  flush_drained-kept p w file none = omega arith
  flush_drained-kept p w file (some records) =
      let built = build_lines w.builds records in
      nil_valid-kept p w built.0 built.1 file ∙ omega (arith, build_lines-kept p w.builds records)

  pub flush_spill-kept :
      (p : Batch I → Bool) (w : Outside I) (file : List (Line (Batch I)))
      → flushed_records p (flush_spill w file) ≡ count p (records_in file)
  unfolding flush_spill
  flush_spill-kept p w file =
      let drained = drain w.readable w.removed file in
      flush_drained-kept p w drained.0 drained.1 ∙ drain-kept p w.readable w.removed file
