-- ===== src/SourceDisable/Laws.antt =====
-- What the governor of the sources puts into its file, and what of it is read
-- (internal/sourcedisable/governor.go, internal/app/source_disable.go).
use Prim.Native.Char.{Char}
use bidshard_lead_miner.Common.{
  ℕ, ◌≡◌, refl, sym, ap, ◌∙◌, Bool, true, false, not, ◌&&◌, ◌||◌, List, [], ◌∷◌, ◌++◌, none, some,
  String, string_discrete, leb, ◌==◌, if◌then◌else◌, elem, Bool-cases, inl, inr, arith,
}
use bidshard_lead_miner.Common.Text.{is_empty, trim_space, trim_space_idem, to_lower}
use bidshard_lead_miner.SourceDisable.{
  SourceStats, DisabledFile, complete, min_raw_for_family, min_raw_or, is_kept, evaluate_loop,
  evaluate, add_text, load_loop, load, merge_loop, save, names, any, is_disabled, is_nil,
  run_source_disable_governor,
}

-- What a test says of an entry, which is trimmed and left out where nothing is left.
abbrev trimmed : (String → Bool) → String → Bool
trimmed p s = not (is_empty (trim_space s)) && p (trim_space s)

trimmed_idem : (p : String → Bool) (s : String) → trimmed (trimmed p) s ≡ trimmed p s
trimmed_idem p s = rw (trim_space_idem s) (ground arith)

trimmed-trim : (p : String → Bool) (s : String) → trimmed p (trim_space s) ≡ trimmed p s
trimmed-trim p s = rw (trim_space_idem s) refl

any-append : (p : String → Bool) (xs ys : List String) → any p (xs ++ ys) ≡ (any p xs || any p ys)
any-append p [] ys = refl
any-append p (x ∷ xs) ys = ground (arith, any-append p xs ys)

any_of_elem :
    (p : String → Bool) (t : String) (xs : List String)
    → elem string_discrete t xs ≡ true
    → (any p xs || p t) ≡ any p xs
any_of_elem p t [] h = ground arith
any_of_elem p t (x ∷ xs) h = elim (string_discrete t x) [
  | yes e ↦ ground (arith, ap p e)
  | no n ↦ ground (arith, any_of_elem p t xs)
]

any-add_text :
    (p : String → Bool) (t : String) (xs : List String) → any p (add_text t xs) ≡ (any p xs || p t)
any-add_text p t xs = elim (Bool-cases (elem string_discrete t xs)) [
  | inl e ↦ rw e (sym (any_of_elem p t xs e))
  | inr e ↦ rw e (any-append p xs (t ∷ []) ∙ ground arith)
]

any-ext :
    (p q : String → Bool) → ((s : String) → p s ≡ q s) → (xs : List String) → any p xs ≡ any q xs
any-ext p q h [] = refl
any-ext p q h (x ∷ xs) = rw (h x, any-ext p q h xs) refl

any-load_loop :
    (p : String → Bool) (seen ss : List String)
    → any p (load_loop seen ss) ≡ (any p seen || any (trimmed p) ss)
unfolding load_loop
any-load_loop p seen [] = ground arith
any-load_loop p seen (s ∷ ss) = elim (Bool-cases (is_empty (trim_space s))) [
  | inl e ↦ rw e (any-load_loop p seen ss)
  | inr e ↦ rw e (
      any-load_loop p (add_text (trim_space s) seen) ss
      ∙ rw (any-add_text p (trim_space s) seen) (ground arith))
]

any-merge_loop :
    (p : String → Bool) (existing ss : List String)
    → any (trimmed p) (merge_loop existing ss) ≡ (any (trimmed p) existing || any (trimmed p) ss)
unfolding merge_loop
any-merge_loop p existing [] = ground arith
any-merge_loop p existing (s ∷ ss) =
    any-merge_loop p (add_text (trim_space s) existing) ss
    ∙ rw (any-add_text (trimmed p) (trim_space s) existing, trimmed-trim p s) (ground arith)

-- The entries of a file that count.
abbrev entries : DisabledFile → List String
entries none = []
entries (some sources) = sources

any-load :
    (p : String → Bool) (file : DisabledFile) → any p (load file) ≡ any (trimmed p) (entries file)
unfolding load
any-load p none = refl
any-load p (some sources) = any-load_loop p [] sources

any-guard :
    (b : Bool) (p : String → Bool) (xs : List String)
    → (if b then false else any p xs) ≡ any (λ s. not b && p s) xs
any-guard true p [] = refl
any-guard true p (x ∷ xs) = any-guard true p xs
any-guard false p xs = refl

module _ (lower : Char → Char) where
  -- Whether an entry, as it stands in a list, names a source.
  abbrev pub blames : String → String → Bool
  blames source s =
      let source' = to_lower lower (trim_space source) in
      not (is_empty source') && trimmed (names lower source') s

  is_disabled-any :
      (file : DisabledFile) (source : String)
      → is_disabled lower file source ≡ any (blames source) (entries file)
  unfolding is_disabled
  is_disabled-any file source =
      let source' = to_lower lower (trim_space source) in
      rw (any-load (names lower source') file)
        (any-guard (is_empty source') (trimmed (names lower source')) (entries file))

  -- Naming a source does not depend on white space around the entry.
  blames-trim : (source s : String) → blames source (trim_space s) ≡ blames source s
  blames-trim source s = rw (trim_space_idem s) refl

  trimmed-blames : (source s : String) → trimmed (blames source) s ≡ blames source s
  trimmed-blames source s = rw (blames-trim source s) (ground arith)

  any-load-blames :
      (file : DisabledFile) (source : String)
      → any (trimmed (blames source)) (load file) ≡ is_disabled lower file source
  any-load-blames file source =
      any-ext (trimmed (blames source)) (blames source) (trimmed-blames source) (load file)
      ∙ any-load (blames source) file
      ∙ any-ext (trimmed (blames source)) (blames source) (trimmed-blames source) (entries file)
      ∙ sym (is_disabled-any file source)

  -- A save whose write has no error adds what its entries name to what is disabled, and nothing else.
  save-is_disabled :
      (order : List String → List String) (file : DisabledFile) (disabled : List String)
      (source : String)
      → ((p : String → Bool) (xs : List String) → any p (order xs) ≡ any p xs)
      → is_disabled lower (save order complete file disabled).0 source
        ≡ (is_disabled lower file source || any (blames source) disabled)
  unfolding save
  save-is_disabled order file disabled source h =
      let ext = any-ext (trimmed (blames source)) (blames source) (trimmed-blames source) in
      let merged = merge_loop (load file) disabled in
      is_disabled-any (some (order merged)) source
      ∙ h (blames source) merged
      ∙ sym (ext merged)
      ∙ any-merge_loop (blames source) (load file) disabled
      ∙ rw (any-load-blames file source, ext disabled) refl

  -- A source of the statistics of which enough came and nothing was accepted.
  abbrev pub is_barren : ℕ → SourceStats → Bool
  is_barren min_raw doc =
      doc.accepted == 0 && leb (min_raw_for_family lower (trim_space doc.source) min_raw) doc.junk

  abbrev pub has_barren : ℕ → String → List SourceStats → Bool
  has_barren min_raw source [] = false
  has_barren min_raw source (doc ∷ docs) =
      (is_barren min_raw doc && blames source doc.source) || has_barren min_raw source docs

  is_kept-barren :
      (min_raw : ℕ) (doc : SourceStats)
      → is_kept lower min_raw doc (trim_space doc.source) ≡ not (is_barren min_raw doc)
  is_kept-barren min_raw doc = ground arith

  evaluate_loop-barren :
      (min_raw : ℕ) (source : String) (docs : List SourceStats)
      → any (blames source) (evaluate_loop lower min_raw docs) ≡ has_barren min_raw source docs
  unfolding evaluate_loop
  evaluate_loop-barren min_raw source [] = refl
  evaluate_loop-barren min_raw source (doc ∷ docs) =
      let rest = evaluate_loop-barren min_raw source docs in
      elim (Bool-cases (is_empty (trim_space doc.source))) [
        | inl e ↦ rw (e, rest) (ground arith)
        | inr e ↦
            rw (e, is_kept-barren min_raw doc)
              (elim (Bool-cases (is_barren min_raw doc)) [
                | inl b ↦ rw (b, rest, blames-trim source doc.source, e) (ground arith)
                | inr b ↦ rw (b, rest) refl
              ])
      ]

  -- A limit that is set is not set again.
  min_raw_or_idem : (min_raw : ℕ) → min_raw_or (min_raw_or min_raw) ≡ min_raw_or min_raw
  min_raw_or_idem min_raw = ground arith

  evaluate-barren :
      (min_raw : ℕ) (source : String) (docs : List SourceStats)
      → any (blames source) (evaluate lower (min_raw_or min_raw) docs)
        ≡ has_barren (min_raw_or min_raw) source docs
  unfolding evaluate
  evaluate-barren min_raw source docs =
      rw (min_raw_or_idem min_raw) (evaluate_loop-barren (min_raw_or min_raw) source docs)

  any-nil : (p : String → Bool) (xs : List String) → is_nil xs ≡ true → any p xs ≡ false
  any-nil p [] h = refl
  any-nil p (x ∷ xs) h = ground arith

  -- After a run of the governor whose write has no error, a source is disabled exactly if it was
  -- before, or is named by a source of the statistics that is barren: nothing of it was accepted, and
  -- at least the minimum that holds for its family came.
  pub run_source_disable_governor_lem :
      (order : List String → List String) (min_raw : ℕ) (docs : List SourceStats)
      (file : DisabledFile) (source : String)
      → ((p : String → Bool) (xs : List String) → any p (order xs) ≡ any p xs)
      → is_disabled lower
          (run_source_disable_governor lower order min_raw complete (some docs) file).0
          source
        ≡ (is_disabled lower file source || has_barren (min_raw_or min_raw) source docs)
  unfolding run_source_disable_governor
  run_source_disable_governor_lem order min_raw docs file source h =
      let disabled = evaluate lower (min_raw_or min_raw) docs in
      elim (Bool-cases (is_nil disabled)) [
        | inl e ↦
            rw (e, ← evaluate-barren min_raw source docs, any-nil (blames source) disabled e)
              (ground arith)
        | inr e ↦
            rw (e, ← evaluate-barren min_raw source docs)
              (save-is_disabled order file disabled source h)
      ]
