-- ===== src/Entity/Race.antt =====
-- Processes that record sightings of one entity, in any order of their calls of the database
-- (internal/entity/sighting_loop.go, internal/sink/entity_store.go).
pub mod Generations
pub mod Turns
pub mod Lists
pub mod Invariant
pub mod Laws
pub mod Complete
mod Tests
use bidshard_lead_miner.Common.{
  ℕ, suc, ◌+◌, ◌≡◌, Bool, true, false, List, [], ◌∷◌, ◌++◌, Option, none, some, String, map,
}
use bidshard_lead_miner.Entity.{Env, EntityKey, EntityDoc}
use bidshard_lead_miner.Entity.Store.{
  Call, Commit, Phase, asking, holding, creating, finished, gave_up, Writer, turn,
}

pub record Race (F : Type 0) : Type 0 where
  pub stored : Option (EntityDoc F)
  pub writers : List (Writer F)
  -- What was written, the earliest first.
  pub log : List (Commit F)

module _ {F : Type 0} where
  abbrev pub is_active : Phase F → Bool
  is_active (asking atomic) = true
  is_active (holding atomic d) = true
  is_active creating = true
  is_active finished = false
  is_active gave_up = false

  abbrev pub new_writer : Call F → Writer F
  new_writer c = record { call = c; attempt = 0; phase = asking true }

  abbrev pub new_writers : List (Call F) → List (Writer F)
  new_writers [] = []
  new_writers (c ∷ calls) = new_writer c ∷ new_writers calls

  abbrev pub logged : List (Commit F) → Call F → Option (Option Bool) → List (Commit F)
  logged log c none = log
  logged log c (some none) = log ++ record { call = c; atomic = false } ∷ []
  logged log c (some (some atomic)) = log ++ record { call = c; atomic = atomic } ∷ []

module _ {F : Type 0} (e : Env F) (max_attempts : ℕ) (entity_id : String) (pk : EntityKey) where
  abbrev pub advanced : Race F → List (Writer F) → Writer F → List (Writer F) → Race F
  advanced s before w after =
      let r = turn e max_attempts entity_id pk w s.stored in
      record {
        stored = r.stored;
        writers = before ++ r.writer ∷ after;
        log = logged s.log w.call r.written;
      }

  -- Any call that is not at its end goes on.
  pub data Step (s t : Race F) : Type 0 where
    go :
        (before : List (Writer F)) (w : Writer F) (after : List (Writer F))
        → s.writers ≡ before ++ w ∷ after
        → is_active w.phase ≡ true
        → t ≡ advanced s before w after
        → Step s t

  -- What is reached from an empty database by so many steps.
  pub data Reach (calls : List (Call F)) : ℕ → Race F → Type 0 where
    start : Reach calls 0 (record { stored = none; writers = new_writers calls; log = [] })
    next : {n : ℕ} {s t : Race F} → Reach calls n s → Step s t → Reach calls (suc n) t
