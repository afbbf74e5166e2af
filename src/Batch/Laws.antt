-- ===== src/Batch/Laws.antt =====
-- The batches against the items that came (internal/batch/ticker_flush.go).
use bidshard_lead_miner.Common.{
  ℕ, ◌≤◌, ◌<◌, ◌≡◌, refl, sym, ap, ◌∙◌, if-cases, not, Bool, true, false, ◌&&◌, List, [], ◌∷◌, ◌++◌,
  leb, ltb, length, append_nil, append_assoc, length-append, arith,
}
use bidshard_lead_miner.Batch.{
  Event, done, tick, item, closed, Batcher, effective_size, new_batcher, flush_buf, add, loop,
  run_ticker_flush,
}

module _ {ℓ} {A : Type ℓ} where
  unfoldable pub concat : List (List A) → List A
  concat [] = []
  concat (b ∷ bs) = b ++ concat bs

  concat-snoc : (bs : List (List A)) (b : List A) → concat (bs ++ b ∷ []) ≡ concat bs ++ b
  unfolding concat
  concat-snoc [] b = append_nil b
  concat-snoc (c ∷ bs) b = ap (◌++◌ c) (concat-snoc bs b) ∙ sym (append_assoc c (concat bs) b)

  -- The items that come before the loop ends.
  unfoldable pub items_of : List (Event A) → List A
  items_of [] = []
  items_of (done ∷ es) = []
  items_of (tick ∷ es) = items_of es
  items_of (item x ∷ es) = x ∷ items_of es
  items_of (closed ∷ es) = []

  unfoldable pub all_sized : ℕ → List (List A) → Bool
  all_sized size [] = true
  all_sized size (b ∷ bs) = ltb 0 (length b) && leb (length b) size && all_sized size bs

  all_sized-snoc :
      (size : ℕ) (bs : List (List A)) (b : List A)
      → all_sized size bs ≡ true
      → 0 < length b
      → length b ≤ size
      → all_sized size (bs ++ b ∷ []) ≡ true
  unfolding all_sized
  all_sized-snoc size [] b h p q = ground arith
  all_sized-snoc size (c ∷ bs) b h p q = ground (arith, all_sized-snoc size bs b)

  abbrev pub is_nil : List A → Bool
  is_nil [] = true
  is_nil (x ∷ xs) = false

  -- Between two events, where `taken` came so far.
  pub record Inv (size : ℕ) (taken : List A) (s : Batcher A) : Type ℓ where
    pub kept : concat s.flushed ++ s.buf ≡ taken
    pub small : length s.buf < size
    pub sized : all_sized size s.flushed ≡ true

  -- What a flush makes of a buffer that may be full.
  flush_cases :
      (size : ℕ) (flushed : List (List A)) (buf : List A)
      → 0 < size
      → length buf ≤ size
      → all_sized size flushed ≡ true
      → let s = flush_buf (record { buf = buf; flushed = flushed }) in
        Inv size (concat flushed ++ buf) s × (s.buf ≡ [])
  unfolding flush_buf concat
  flush_cases size flushed [] p q h = (record { kept = refl; small = p; sized = h }, refl)
  flush_cases size flushed (x ∷ xs) p q h = (
    record {
      kept = append_nil _ ∙ concat-snoc flushed (x ∷ xs);
      small = p;
      sized = all_sized-snoc size flushed (x ∷ xs) h (omega arith) q;
    },
    refl,
  )

  flush_buf-Inv :
      (size : ℕ) (taken : List A) (s : Batcher A)
      → 0 < size
      → Inv size taken s
      → Inv size taken (flush_buf s) × ((flush_buf s).buf ≡ [])
  flush_buf-Inv size taken s p v =
      let (w, empty) = flush_cases size s.flushed s.buf p (omega (arith, v.small)) v.sized in
      (record { kept = w.kept ∙ v.kept; small = w.small; sized = w.sized }, empty)

  add-Inv :
      (size : ℕ) (taken : List A) (x : A) (s : Batcher A)
      → 0 < size
      → Inv size taken s
      → Inv size (taken ++ x ∷ []) (add size x s)
  unfolding add
  add-Inv size taken x s p v =
      let buf = s.buf ++ x ∷ [] in
      let grown = length-append s.buf (x ∷ []) in
      let same =
        sym (append_assoc (concat s.flushed) s.buf (x ∷ [])) ∙ ap (λ l. l ++ x ∷ []) v.kept in
      let (w, _) = flush_cases size s.flushed buf p (omega (arith, grown, v.small)) v.sized in
      if-cases (Inv size (taken ++ x ∷ [])) (leb size (length buf))
        (λ _. record { kept = w.kept ∙ same; small = w.small; sized = w.sized })
        (λ e. record { kept = same; small = ground (arith, e); sized = v.sized })

  -- What is left of a run that began where `taken` had come.
  record Runs (size : ℕ) (all : List A) (r : Batcher A × Bool) : Type ℓ where
    inv : Inv size all r.0
    drained : (r.1 && not (is_nil r.0.buf)) ≡ false

  loop-Inv :
      (size : ℕ) (taken : List A) (s : Batcher A) (es : List (Event A))
      → 0 < size
      → Inv size taken s
      → Runs size (taken ++ items_of es) (loop size s es)
  unfolding loop items_of
  loop-Inv size taken s [] p v = record { inv = rw (append_nil taken) v; drained = refl }
  loop-Inv size taken s (done ∷ es) p v =
      let (w, empty) = flush_buf-Inv size taken s p v in
      record { inv = rw (append_nil taken) w; drained = ground (arith, empty) }
  loop-Inv size taken s (closed ∷ es) p v =
      let (w, empty) = flush_buf-Inv size taken s p v in
      record { inv = rw (append_nil taken) w; drained = ground (arith, empty) }
  loop-Inv size taken s (tick ∷ es) p v =
      loop-Inv size taken (flush_buf s) es p (flush_buf-Inv size taken s p v).0
  loop-Inv size taken s (item x ∷ es) p v =
      rw⁻¹ (append_assoc taken (x ∷ []) (items_of es))
        (loop-Inv size (taken ++ x ∷ []) (add size x s) es p (add-Inv size taken x s p v))

  -- Whatever the order of the events, the batches and the buffer hold together exactly the items that
  -- came, in their order; each batch has at least one item and at most as many as the size; and
  -- once the loop has returned the buffer is empty.
  pub run_ticker_flush_lem :
      (batch_size : ℕ) (es : List (Event A))
      → let (s, returned) = run_ticker_flush batch_size es in
        (concat s.flushed ++ s.buf ≡ items_of es)
        × (all_sized (effective_size batch_size) s.flushed ≡ true)
        × ((returned && not (is_nil s.buf)) ≡ false)
  unfolding run_ticker_flush effective_size concat all_sized
  run_ticker_flush_lem batch_size es =
      let r =
        loop-Inv (effective_size batch_size) [] new_batcher es (ground arith)
          (record { kept = refl; small = ground arith; sized = refl }) in
      (r.inv.kept, r.inv.sized, r.drained)
