-- ===== src/WarmPath/Blocked.antt =====
-- A spill file with a line that does not decode (internal/warmpath/batch_spill.go,
-- internal/warmpath/batch_engage_spill.go).
use bidshard_lead_miner.Common.{
  ◌≡◌, refl, sym, ap, ◌∙◌, Bool, true, false, List, [], ◌∷◌, ◌++◌, none, if◌then◌else◌, append_nil,
  append_assoc,
}
use bidshard_lead_miner.WarmPath.{
  Line, blank, corrupt, entry, Batch, Write, refused, torn, unclosed, written, Outside, Flushed,
  Worker, Event, spilled, flush_tick, poll_tick, is_whole, append_line, append, keep_record, decode,
  clear, drain, flush_drained, flush_spill, step, run,
}

module _ {I : Type 0} where
  -- A file with a line that does not decode.
  unfoldable pub IsBlocked : List (Line (Batch I)) → Type 0
  IsBlocked [] = ⊥
  IsBlocked (blank ∷ file) = IsBlocked file
  IsBlocked (corrupt ∷ file) = Unit
  IsBlocked (entry r ∷ file) = IsBlocked file

  -- The lines that the spill of a batch adds to the file.
  abbrev pub line_of : Write → Batch I → List (Line (Batch I))
  line_of refused r = []
  line_of torn r = corrupt ∷ []
  line_of unclosed r = entry r ∷ []
  line_of written r = entry r ∷ []

  unfoldable pub spilled_lines : List (Event I) → List (Line (Batch I))
  spilled_lines [] = []
  spilled_lines (spilled write r ∷ events) =
      let rest = spilled_lines events in if is_whole r then line_of write r ++ rest else rest
  spilled_lines (flush_tick world ∷ events) = spilled_lines events
  spilled_lines (poll_tick status ∷ events) = spilled_lines events

  IsBlocked-append : (file new : List (Line (Batch I))) → IsBlocked file → IsBlocked (file ++ new)
  unfolding IsBlocked
  IsBlocked-append [] new h = absurd h
  IsBlocked-append (blank ∷ file) new h = IsBlocked-append file new h
  IsBlocked-append (corrupt ∷ file) new h = tt
  IsBlocked-append (entry r ∷ file) new h = IsBlocked-append file new h

  decode-blocked : (file : List (Line (Batch I))) → IsBlocked file → decode file ≡ none
  unfolding IsBlocked decode
  decode-blocked [] h = absurd h
  decode-blocked (blank ∷ file) h = decode-blocked file h
  decode-blocked (corrupt ∷ file) h = refl
  decode-blocked (entry r ∷ file) h = ap (keep_record r) (decode-blocked file h)

  drain-blocked :
      (readable removed : Bool) (file : List (Line (Batch I)))
      → IsBlocked file
      → drain readable removed file ≡ (file, none)
  unfolding drain
  drain-blocked false removed file h = refl
  drain-blocked true removed file h = ap (clear removed file) (decode-blocked file h)

  flush_spill-blocked :
      (world : Outside I) (file : List (Line (Batch I)))
      → IsBlocked file
      → flush_spill world file ≡ record { file = file; job = none; given_up = [] }
  unfolding flush_spill
  flush_spill-blocked world file h =
      ap (flush_drained world) (drain-blocked world.readable world.removed file h)

  step_file-blocked :
      (world : Outside I) (w : Worker I)
      → IsBlocked w.spill
      → (step (flush_tick world) w).spill ≡ w.spill
  unfolding step
  step_file-blocked world w h = ap Flushed.file (flush_spill-blocked world w.spill h)

  append_line-lines :
      (whole : Bool) (write : Write) (r : Batch I) (file : List (Line (Batch I)))
      (rest : List (Line (Batch I)))
      → let one : List (Line (Batch I)) × Bool =
          if whole then append_line write r file else (file, false) in
        one.0 ++ rest ≡ file ++ (if whole then line_of write r ++ rest else rest)
  append_line-lines false write r file rest = refl
  append_line-lines true refused r file rest = refl
  append_line-lines true torn r file rest = append_assoc file (corrupt ∷ []) rest
  append_line-lines true unclosed r file rest = append_assoc file (entry r ∷ []) rest
  append_line-lines true written r file rest = append_assoc file (entry r ∷ []) rest

  append_line-IsBlocked :
      (whole : Bool) (write : Write) (r : Batch I) (file : List (Line (Batch I)))
      → IsBlocked file
      → IsBlocked (if whole then append_line write r file else (file, false)).0
  append_line-IsBlocked false write r file h = h
  append_line-IsBlocked true refused r file h = h
  append_line-IsBlocked true torn r file h = IsBlocked-append file (corrupt ∷ []) h
  append_line-IsBlocked true unclosed r file h = IsBlocked-append file (entry r ∷ []) h
  append_line-IsBlocked true written r file h = IsBlocked-append file (entry r ∷ []) h

  -- The defect: once a line of the file does not decode, no record ever leaves the file, whatever
  -- happens: the file only grows by what is spilled.
  pub run-blocked :
      (events : List (Event I)) (w : Worker I)
      → IsBlocked w.spill
      → (run events w).spill ≡ w.spill ++ spilled_lines events
  unfolding run spilled_lines step append
  run-blocked [] w h = sym (append_nil w.spill)
  run-blocked (spilled write r ∷ events) w h =
      run-blocked events (step (spilled write r) w)
        (append_line-IsBlocked (is_whole r) write r w.spill h)
      ∙ append_line-lines (is_whole r) write r w.spill (spilled_lines events)
  run-blocked (flush_tick world ∷ events) w h =
      let same = step_file-blocked world w h in
      run-blocked events (step (flush_tick world) w) (rw same h)
      ∙ ap (λ (f : List (Line (Batch I))). f ++ spilled_lines events) same
  run-blocked (poll_tick status ∷ events) w h = run-blocked events (step (poll_tick status) w) h
