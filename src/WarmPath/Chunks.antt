-- ===== src/WarmPath/Chunks.antt =====
-- The chunks in which leads wait for their second job (internal/warmpath/batch_worker.go).
use bidshard_lead_miner.Common.{
  ℕ, zero, suc, ◌<◌, ◌≤◌, ◌≡◌, refl, ap, ◌∙◌, ◌==◌, List, [], ◌∷◌, ◌++◌, if◌then◌else◌, length,
  take, drop, take-append-drop, length-take, length-drop, All, arith,
}
use bidshard_lead_miner.Batch.Laws.{concat}
use bidshard_lead_miner.WarmPath.{chunk_size, chunk_items, engage_chunks}

chunk_size-pos : (size : ℕ) → 0 < chunk_size size
chunk_size-pos size = ground arith

module _ {I : Type 0} where
  -- A chunk has an item, and no more than the limit.
  abbrev pub IsSized : ℕ → List I → Type 0
  IsSized chunk items = (0 < length items) × (length items ≤ chunk)

  chunk_items-concat :
      (rounds chunk : ℕ) (items : List I)
      → 0 < chunk
      → length items ≤ rounds
      → concat (chunk_items rounds chunk items) ≡ items
  unfolding chunk_items concat
  chunk_items-concat zero chunk [] h k = refl
  chunk_items-concat zero chunk (x ∷ items) h k = absurd (omega (arith, k))
  chunk_items-concat (suc rounds) chunk [] h k = refl
  chunk_items-concat (suc rounds) chunk (x ∷ items) h k =
      ap (◌++◌ (take chunk (x ∷ items))) (
        chunk_items-concat rounds chunk (drop chunk (x ∷ items)) h
          (omega (arith, length-drop chunk (x ∷ items))))
      ∙ take-append-drop chunk (x ∷ items)

  chunk_items-IsSized :
      (rounds chunk : ℕ) (items : List I)
      → 0 < chunk
      → All (IsSized chunk) (chunk_items rounds chunk items)
  unfolding chunk_items
  chunk_items-IsSized zero chunk items h = tt
  chunk_items-IsSized (suc rounds) chunk [] h = tt
  chunk_items-IsSized (suc rounds) chunk (x ∷ items) h = (
    (omega (arith, length-take chunk (x ∷ items)), omega (arith, length-take chunk (x ∷ items))),
    chunk_items-IsSized rounds chunk (drop chunk (x ∷ items)) h,
  )

  -- The chunks of leads for their second job are together the leads, in their order; each has a lead
  -- and no more than the configured size, or than four where that is 0.
  pub engage_chunks_lem :
      (size : ℕ) (items : List I)
      → (concat (engage_chunks size items) ≡ items)
        × All (IsSized (if size == 0 then 4 else size)) (engage_chunks size items)
  unfolding engage_chunks
  engage_chunks_lem size items = (
    chunk_items-concat (length items) (chunk_size size) items (chunk_size-pos size) (omega arith),
    chunk_items-IsSized (length items) (chunk_size size) items (chunk_size-pos size),
  )
