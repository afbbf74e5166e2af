-- ===== src/Entity/Race/Turns.antt =====
-- What one call of the database makes of a writer and of the document
-- (internal/entity/sighting_loop.go).
use bidshard_lead_miner.Common.{
  ℕ, suc, ◌+◌, ◌*◌, ◌-◌, ◌≤◌, ◌<◌, ◌≡◌, refl, sym, ap, ◌∙◌, Bool, true, false, List, Option, none,
  some, String, ltb, ◌==◌, if◌then◌else◌, ◌⊎◌, inl, inr, Bool-cases, arith,
}
use bidshard_lead_miner.Entity.{Env, EntityKey, EntityDoc}
use bidshard_lead_miner.Entity.Store.{
  Call, Commit, Phase, asking, holding, creating, finished, gave_up, Writer, Turn, turn_in, merge,
  replay, next_attempt, missed, follow, find_turn, replace_turn, insert_turn,
}
use bidshard_lead_miner.Entity.Race.{is_active, logged}
use bidshard_lead_miner.Entity.Race.Generations.{
  merge-generation, born-generation, replay-snoc, replay-none,
}

abbrev pub count_written : Option (Option Bool) → ℕ
count_written none = 0
count_written (some _) = 1

abbrev pub count_after : ℕ → Option (Option Bool) → ℕ
count_after n none = n
count_after n (some _) = suc n

module _ {F : Type 0} where
  -- A document that was found is the one that is stored, or an older generation of it.
  abbrev pub Held : EntityDoc F → Option (EntityDoc F) → Type 0
  Held d none = ⊥
  Held d (some s) = (d ≡ s) ⊎ (d.merge_generation < s.merge_generation)

  -- `n` writes were made.
  abbrev pub IsWritten : Option (EntityDoc F) → ℕ → Type 0
  IsWritten none n = n ≡ 0
  IsWritten (some s) n = n ≡ suc s.merge_generation

  -- Each attempt that failed was paid for by a write.
  abbrev pub IsPaid : ℕ → Option (EntityDoc F) → ℕ → ℕ → Phase F → Type 0
  IsPaid max_attempts stored n attempt (asking atomic) = (attempt ≤ n) × (attempt < max_attempts)
  IsPaid max_attempts stored n attempt (holding atomic d) =
      (attempt ≤ suc d.merge_generation) × (attempt < max_attempts) × Held d stored
  IsPaid max_attempts stored n attempt creating = (attempt ≡ 0) × (attempt < max_attempts)
  IsPaid max_attempts stored n attempt finished = Unit {0}
  IsPaid max_attempts stored n attempt gave_up = max_attempts ≤ n

  abbrev pub count_finished : Phase F → ℕ
  count_finished finished = 1
  count_finished (asking _) = 0
  count_finished (holding _ _) = 0
  count_finished creating = 0
  count_finished gave_up = 0

  -- How many calls of the database an attempt has still before it.
  abbrev calls_in_attempt : Phase F → ℕ
  calls_in_attempt (asking true) = 4
  calls_in_attempt (asking false) = 2
  calls_in_attempt (holding true d) = 3
  calls_in_attempt (holding false d) = 1
  calls_in_attempt creating = 1
  calls_in_attempt finished = 0
  calls_in_attempt gave_up = 0

  -- How many calls of the database a writer makes at most.
  abbrev pub calls_left : ℕ → ℕ → Phase F → ℕ
  calls_left max_attempts attempt phase =
      if is_active phase then 4 * (max_attempts - suc attempt) + calls_in_attempt phase else 0

module _ {F : Type 0} (e : Env F) (max_attempts : ℕ) (entity_id : String) (pk : EntityKey) where
  pub record IsTurn (stored : Option (EntityDoc F)) (n : ℕ) (phase : Phase F) (w : Writer F)
      (r : Turn F) : Type 0 where
    pub written : IsWritten r.stored (count_after n r.written)
    pub paid :
        IsPaid max_attempts r.stored (count_after n r.written) r.writer.attempt r.writer.phase
    pub grown : (d : EntityDoc F) → Held d stored → Held d r.stored
    pub replayed :
        (log : List (Commit F))
        → replay e entity_id pk log ≡ stored
        → replay e entity_id pk (logged log w.call r.written) ≡ r.stored
    pub same_call : r.writer.call ≡ w.call
    pub ended : count_finished r.writer.phase ≡ count_written r.written
    pub shorter :
        calls_left max_attempts r.writer.attempt r.writer.phase
        < calls_left max_attempts w.attempt phase

  -- A round without a result.
  next_attempt-IsTurn :
      (stored : Option (EntityDoc F)) (n : ℕ) (phase : Phase F) (w : Writer F)
      → IsWritten stored n
      → suc w.attempt ≤ n
      → w.attempt < max_attempts
      → calls_in_attempt phase ≡ 1
      → is_active phase ≡ true
      → IsTurn stored n phase w
          (record { writer = next_attempt e max_attempts w; stored = stored; written = none })
  unfolding next_attempt
  next_attempt-IsTurn stored n phase w h p q one active =
      elim (Bool-cases (ltb (suc w.attempt) max_attempts)) [
        | inl more ↦ rw more (record {
          written = h;
          paid = (omega arith, ground (arith, more));
          grown = λ d g. g;
          replayed = λ log g. g;
          same_call = refl;
          ended = refl;
          shorter = rw active (ground (arith, more, one));
        })
        | inr last ↦ rw last (record {
          written = h;
          paid = ground (arith, last, p, q);
          grown = λ d g. g;
          replayed = λ log g. g;
          same_call = refl;
          ended = refl;
          shorter = rw active (ground (arith, one));
        })
      ]

  -- A search.
  find_turn-IsTurn :
      (atomic : Bool) (stored : Option (EntityDoc F)) (n : ℕ) (w : Writer F)
      → IsWritten stored n
      → IsPaid max_attempts stored n w.attempt (asking atomic)
      → IsTurn stored n (asking atomic) w (find_turn e atomic w stored)
  unfolding find_turn
  find_turn-IsTurn true none n w h p = record {
    written = h;
    paid = p;
    grown = λ d g. g;
    replayed = λ log g. g;
    same_call = refl;
    ended = refl;
    shorter = omega arith;
  }
  find_turn-IsTurn false none n w h p = record {
    written = h;
    paid = (omega arith, p.1);
    grown = λ d g. g;
    replayed = λ log g. g;
    same_call = refl;
    ended = refl;
    shorter = omega arith;
  }
  find_turn-IsTurn true (some d) n w h p = record {
    written = h;
    paid = (omega arith, p.1, inl refl);
    grown = λ d g. g;
    replayed = λ log g. g;
    same_call = refl;
    ended = refl;
    shorter = omega arith;
  }
  find_turn-IsTurn false (some d) n w h p = record {
    written = h;
    paid = (omega arith, p.1, inl refl);
    grown = λ d g. g;
    replayed = λ log g. g;
    same_call = refl;
    ended = refl;
    shorter = omega arith;
  }

  -- An insertion.
  insert_turn-IsTurn :
      (stored : Option (EntityDoc F)) (n : ℕ) (w : Writer F)
      → IsWritten stored n
      → IsPaid max_attempts stored n w.attempt creating
      → IsTurn stored n creating w (insert_turn e max_attempts entity_id pk w stored)
  unfolding insert_turn
  insert_turn-IsTurn none n w h p = record {
    written = omega (arith, h, born-generation e entity_id pk w.call);
    paid = tt;
    grown = λ d g. absurd g;
    replayed = λ log g. rw (replay-none e entity_id pk log g) (unfold replay follow in refl);
    same_call = refl;
    ended = refl;
    shorter = omega arith;
  }
  insert_turn-IsTurn (some s) n w h p =
      next_attempt-IsTurn (some s) n creating w h (omega (arith, h, p.0)) p.1 refl refl

  -- A document that is found again is the one that is stored.
  same_generation :
      (d s : EntityDoc F)
      → Held d (some s)
      → (s.merge_generation == d.merge_generation) ≡ true
      → d ≡ s
  same_generation d s (inl same) h = same
  same_generation d s (inr older) h = absurd (ground (arith, older, h))

  other_generation :
      (d s : EntityDoc F)
      → Held d (some s)
      → (s.merge_generation == d.merge_generation) ≡ false
      → d.merge_generation < s.merge_generation
  other_generation d s (inl same) h =
      absurd (ground (arith, ap (λ (x : EntityDoc F). x.merge_generation) same, h))
  other_generation d s (inr older) h = older

  Held-merge :
      (atomic : Bool) (s d : EntityDoc F) (c : Call F)
      → Held d (some s)
      → Held d (some (merge e atomic s c))
  Held-merge atomic s d c (inl same) = inr (
      omega
        (arith, merge-generation e atomic s c, ap (λ (x : EntityDoc F). x.merge_generation) same))
  Held-merge atomic s d c (inr older) = inr (omega (arith, older, merge-generation e atomic s c))

  at_least_one :
      (atomic : Bool) (d : EntityDoc F) (attempt : ℕ)
      → 0 < calls_left max_attempts attempt (holding atomic d)
  at_least_one true d attempt = omega arith
  at_least_one false d attempt = omega arith

  -- A document that another call has written since.
  missed-IsTurn :
      (atomic : Bool) (d s : EntityDoc F) (n : ℕ) (w : Writer F)
      → IsWritten (some s) n
      → IsPaid max_attempts (some s) n w.attempt (holding atomic d)
      → d.merge_generation < s.merge_generation
      → IsTurn
          (some s)
          n
          (holding atomic d)
          w
          (record { writer = missed e max_attempts atomic w; stored = some s; written = none })
  missed-IsTurn true d s n w h p older = record {
    written = h;
    paid = (omega (arith, h, p.0, older), p.1);
    grown = λ x g. g;
    replayed = λ log g. g;
    same_call = refl;
    ended = refl;
    shorter = omega arith;
  }
  missed-IsTurn false d s n w h p older =
      next_attempt-IsTurn (some s) n (holding false d) w h (omega (arith, h, p.0, older)) p.1 refl
        refl

  -- A replacement.
  replace_turn-IsTurn :
      (atomic : Bool) (d : EntityDoc F) (stored : Option (EntityDoc F)) (n : ℕ) (w : Writer F)
      → IsWritten stored n
      → IsPaid max_attempts stored n w.attempt (holding atomic d)
      → IsTurn stored n (holding atomic d) w (replace_turn e max_attempts atomic d w stored)
  unfolding replace_turn
  replace_turn-IsTurn atomic d none n w h p = absurd p.2
  replace_turn-IsTurn atomic d (some s) n w h p =
      elim (Bool-cases (s.merge_generation == d.merge_generation)) [
        | inl k ↦
            let same = same_generation d s p.2 k in
            rw k (record {
              written = omega (
                arith,
                h,
                merge-generation e atomic d w.call,
                ap (λ (x : EntityDoc F). x.merge_generation) same,
              );
              paid = tt;
              grown = λ x g. Held-merge atomic d x w.call (rw same g);
              replayed = λ log g.
                  replay-snoc e entity_id pk log d (record { call = w.call; atomic = atomic })
                    (g ∙ ap (λ (y : EntityDoc F). some y) (sym same));
              same_call = refl;
              ended = refl;
              shorter = at_least_one atomic d w.attempt;
            })
        | inr k ↦ rw k (missed-IsTurn atomic d s n w h p (other_generation d s p.2 k))
      ]

  -- A call of the database by a writer that is not at its end.
  pub turn_in-IsTurn :
      (phase : Phase F) (stored : Option (EntityDoc F)) (n : ℕ) (w : Writer F)
      → is_active phase ≡ true
      → IsWritten stored n
      → IsPaid max_attempts stored n w.attempt phase
      → IsTurn stored n phase w (turn_in e max_attempts entity_id pk phase w stored)
  unfolding turn_in
  turn_in-IsTurn (asking atomic) stored n w a h p = find_turn-IsTurn atomic stored n w h p
  turn_in-IsTurn (holding atomic d) stored n w a h p = replace_turn-IsTurn atomic d stored n w h p
  turn_in-IsTurn creating stored n w a h p = insert_turn-IsTurn stored n w h p
  turn_in-IsTurn finished stored n w a h p = cc
  turn_in-IsTurn gave_up stored n w a h p = cc
