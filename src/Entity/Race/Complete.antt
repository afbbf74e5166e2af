-- ===== src/Entity/Race/Complete.antt =====
-- The document that processes leave, against the calls that have finished
-- (internal/entity/sighting_loop.go, internal/entity/merge.go, internal/sink/entity_store.go).
use mathlib.Core.Bool.{Bool-set}
use mathlib.Core.Path.{subst}
use mathlib.Core.Logic.{∥∥₁_elim}
use mathlib.Core.HLevel.{×_prop, Unit-prop}
use mathlib.Core.List.{Perm, Permᴰ}
use mathlib.Core.List.Permᴰ.{nil, cons, swap, trans}
use mathlib.Core.List.Perm
use bidshard_lead_miner.Common.{
  ℕ, suc, ◌<◌, ◌≡◌, refl, sym, ap, ◌∙◌, Bool, true, false, not, ◌&&◌, List, [], ◌∷◌, ◌++◌, Option,
  none, some, String, string_discrete, ltb, length, elem-append, elem-snoc_self, Bool-cases, inl,
  inr, append_assoc, All, All-map, All-append, arith,
}
use bidshard_lead_miner.Common.Text.{is_empty, trim_space}
use bidshard_lead_miner.Entity.{Env, EntityKey, EntityDoc, contains_string, uniq_loop, uniq_strings}
use bidshard_lead_miner.Entity.Sighting.{source_family}
use bidshard_lead_miner.Entity.Links.{HasTimeline, IsTimely}
use bidshard_lead_miner.Entity.Sets.{is_skipped, uniq_loop-skip, uniq_loop-take}
use bidshard_lead_miner.Entity.Store.{
  Call, Commit, Phase, asking, holding, creating, finished, gave_up, Writer, born, follow, replay,
}
use bidshard_lead_miner.Entity.History.{hashes_of, AreTimely, sightings_lem}
use bidshard_lead_miner.Entity.Race.{Race, Reach}
use bidshard_lead_miner.Entity.Race.Lists.{calls_of, written_calls, finished_calls, if_finished}
use bidshard_lead_miner.Entity.Race.Laws.{Reach-Inv}

-- What a test says of a list, it says of each of its orders.
module _ {A : Type 0} (f : A → Bool) where
  All-prop : (xs : List A) → IsProp (All (λ a. f a ≡ true) xs)
  All-prop [] = Unit-prop
  All-prop (x ∷ xs) = ×_prop (Bool-set _ _) (All-prop xs)

  All-Permᴰ : {xs ys : List A} → Permᴰ xs ys → All (λ a. f a ≡ true) xs → All (λ a. f a ≡ true) ys
  All-Permᴰ nil h = h
  All-Permᴰ (cons e p) h = (ap f (sym e) ∙ h.0, All-Permᴰ p h.1)
  All-Permᴰ (swap e e') h = (ap f (sym e') ∙ h.1.0, (ap f (sym e) ∙ h.0, h.1.1))
  All-Permᴰ (trans p q) h = All-Permᴰ q (All-Permᴰ p h)

  All-Perm : (xs ys : List A) → Perm xs ys → All (λ a. f a ≡ true) xs → All (λ a. f a ≡ true) ys
  All-Perm xs ys p h = ∥∥₁_elim p (All-prop ys) (λ d. All-Permᴰ d h)

-- A text of a list is in its set.
uniq_loop-has :
    (seen xs : List String) (t : String)
    → contains_string seen t ≡ true
    → contains_string (seen ++ uniq_loop seen xs) t ≡ true
uniq_loop-has seen xs t h = ground (arith, elem-append string_discrete t seen (uniq_loop seen xs))

abbrev AreIn : List String → List String → Type 0
AreIn set = All (λ x. contains_string set (trim_space x) ≡ true)

uniq_loop-has_all :
    (seen xs : List String)
    → All (λ x. is_empty (trim_space x) ≡ false) xs
    → AreIn (seen ++ uniq_loop seen xs) xs
uniq_loop-has_all seen [] h = tt
uniq_loop-has_all seen (x ∷ xs) h = elim (Bool-cases (is_skipped seen x xs)) [
  | inl s ↦
      subst (λ (l : List String). AreIn (seen ++ l) (x ∷ xs)) (sym (uniq_loop-skip seen x xs s))
        (
          uniq_loop-has seen xs (trim_space x) (ground (arith, s, h.0)),
          uniq_loop-has_all seen xs h.1,
        )
  | inr n ↦
      let seen' = seen ++ trim_space x ∷ [] in
      let same =
        append_assoc seen (trim_space x ∷ []) (uniq_loop seen' xs)
        ∙ ap (λ (l : List String). seen ++ l) (sym (uniq_loop-take seen x xs n)) in
      subst (λ (l : List String). AreIn l (x ∷ xs)) same
        (
          uniq_loop-has seen' xs (trim_space x)
              (elem-snoc_self string_discrete (trim_space x) seen),
          uniq_loop-has_all seen' xs h.1,
        )
]

uniq_hashes :
    (xs : List String) → All (λ x. is_empty (trim_space x) ≡ false) xs → AreIn (uniq_strings xs) xs
unfolding uniq_strings
uniq_hashes xs h = uniq_loop-has_all [] xs h

module _ {F : Type 0} (e : Env F) where
  -- A call with a hash, the time at which its sighting was seen, and a source.
  abbrev pub IsSound : Call F → Type 0
  IsSound c =
      IsTimely c.sighting × (is_empty (trim_space (source_family e c.sighting.source)) ≡ false)

  abbrev is_sound : Call F → Bool
  is_sound c =
      not (is_empty (trim_space c.sighting.hash_id))
      && ltb 0 c.sighting.seen_at
      && not (is_empty (trim_space (source_family e c.sighting.source)))

  IsSound-is_sound : (c : Call F) → IsSound c → is_sound c ≡ true
  IsSound-is_sound c h = ground (arith, h.0.0, h.0.1, h.1)

  is_sound-IsSound : (c : Call F) → is_sound c ≡ true → IsSound c
  is_sound-IsSound c h = ((ground (arith, h), ground (arith, h)), ground (arith, h))

  abbrev AreSound : List (Call F) → Type 0
  AreSound = All (λ c. is_sound c ≡ true)

  finished_calls_sound :
      (ws : List (Writer F)) → AreSound (calls_of ws) → AreSound (finished_calls ws)
  finished_calls_sound [] h = tt
  finished_calls_sound (w ∷ ws) h =
      All-append _ _ _ (if_finished_sound w.phase w.call h.0) (finished_calls_sound ws h.1)
    where
      if_finished_sound :
          (p : Phase F) (c : Call F) → is_sound c ≡ true → AreSound (if_finished p c)
      if_finished_sound finished c h = (h, tt)
      if_finished_sound (asking _) c h = tt
      if_finished_sound (holding _ _) c h = tt
      if_finished_sound creating c h = tt
      if_finished_sound gave_up c h = tt

  written_calls-AreTimely : (log : List (Commit F)) → AreSound (written_calls log) → AreTimely log
  written_calls-AreTimely [] h = tt
  written_calls-AreTimely (k ∷ log) h =
      ((is_sound-IsSound k.call h.0).0, written_calls-AreTimely log h.1)

  -- Whether a document has the hash of a call.
  abbrev pub has_call : EntityDoc F → Call F → Bool
  has_call doc c = contains_string doc.hash_ids (trim_space c.sighting.hash_id)

  named_hashes :
      (log : List (Commit F))
      → AreSound (written_calls log)
      → All (λ x. is_empty (trim_space x) ≡ false) (hashes_of log)
  named_hashes [] h = tt
  named_hashes (k ∷ log) h = ((is_sound-IsSound k.call h.0).0.0, named_hashes log h.1)

  has_calls :
      (doc : EntityDoc F) (log : List (Commit F))
      → All (λ x. contains_string doc.hash_ids (trim_space x) ≡ true) (hashes_of log)
      → All (λ c. has_call doc c ≡ true) (written_calls log)
  has_calls doc [] h = tt
  has_calls doc (k ∷ log) h = (h.0, has_calls doc log h.1)

  -- A document has the hash of every one of the calls, and as many generations as there are further
  -- ones.
  pub record IsComplete (entity_id : String) (calls : List (Call F)) (doc : EntityDoc F)
      : Type 0 where
    pub same_id : doc.entity_id ≡ entity_id
    pub timeline : HasTimeline doc
    pub has_all : All (λ c. has_call doc c ≡ true) calls
    pub generation : suc doc.merge_generation ≡ length calls

  -- What is stored: nothing, while no call has finished, or such a document.
  abbrev pub IsKept : String → List (Call F) → Option (EntityDoc F) → Type 0
  IsKept entity_id calls none = calls ≡ []
  IsKept entity_id calls (some doc) = IsComplete entity_id calls doc

  replay-IsKept :
      (entity_id : String) (pk : EntityKey) (log : List (Commit F)) (calls : List (Call F))
      → Perm (written_calls log) calls
      → length log ≡ length calls
      → AreSound (written_calls log)
      → IsKept entity_id calls (replay e entity_id pk log)
  unfolding replay
  replay-IsKept entity_id pk [] [] p n h = refl
  replay-IsKept entity_id pk [] (c ∷ calls) p n h = absurd (omega (arith, n))
  replay-IsKept entity_id pk (k ∷ log) calls p n h =
      let sound = is_sound-IsSound k.call h.0 in
      let ledger =
        sightings_lem e entity_id pk k.call sound.0 sound.1 log (written_calls-AreTimely log h.1) in
      record {
        same_id = ledger.same_id;
        timeline = ledger.timeline;
        has_all =
            let doc = follow e (born e entity_id pk k.call) log in
            All-Perm (has_call doc) (written_calls (k ∷ log)) calls p (
              has_calls doc (k ∷ log) (
                subst (λ (l : List String). AreIn l (hashes_of (k ∷ log))) (sym ledger.hashes)
                  (uniq_hashes (hashes_of (k ∷ log)) (named_hashes (k ∷ log) h))));
        generation = omega (arith, ledger.generation, n);
      }

  -- However the calls run between one another's calls of the database, where each has a hash, the time
  -- at which its sighting was seen and a source: nothing is stored while no call has finished, and from
  -- then on the stored document has the hash of every finished call, one generation for each but the
  -- first, the id of the entity and a timeline of at most twenty rows, all of known hashes.
  pub Reach-IsKept :
      (max_attempts : ℕ) (entity_id : String) (pk : EntityKey)
      → 0 < max_attempts
      → {calls : List (Call F)} {n : ℕ} {s : Race F} → Reach e max_attempts entity_id pk calls n s
      → All IsSound calls
      → IsKept entity_id (finished_calls s.writers) s.stored
  Reach-IsKept max_attempts entity_id pk m {s} reach h =
      let v = Reach-Inv e max_attempts entity_id pk m reach in
      let all = All-map IsSound (λ c. is_sound c ≡ true) IsSound-is_sound _ h in
      let done = finished_calls_sound s.writers (subst AreSound (sym v.callers) all) in
      subst (IsKept entity_id (finished_calls s.writers)) v.replayed (
        replay-IsKept entity_id pk s.log (finished_calls s.writers) v.once v.counted (
          All-Perm is_sound (finished_calls s.writers) (written_calls s.log) (Perm.symm v.once)
            done))
