-- ===== src/Pipeline/Process/Crew.antt =====
-- Workers at the same time (internal/pipeline/processor.go): each acquires a hash (`acquireHash`),
-- asks the store for it (`Store.Exists`), upserts it, logs what is accepted, and releases the hash,
-- while the others run between any two of these steps. The look-ups and marks of the seen cache change
-- it in any way, and any worker may come to its end at any step but between an upsert that the store
-- acknowledged and the log.
pub mod Lists
pub mod Laws
use bidshard_lead_miner.Common.{
  ℕ, Bool, true, false, not, ◌&&◌, ◌||◌, List, [], ◌∷◌, ◌++◌, Option, String, string_discrete, ite,
  elem, Distinct, ◌≡◌, refl, sym, ap, ◌∙◌, arith, elem-append,
}
use bidshard_lead_miner.Seen.{SeenCache}
use bidshard_lead_miner.Pipeline.Process.{World, acquire_hash, release_hash, remove_all}

-- How far a worker has come with its hash. `written` is between the upsert and the log.
pub data Phase : Type 0 where
  acquired cleared written finished : Phase

pub record Crew : Type 0 where
  pub world : World
  pub workers : List (String × Phase)

abbrev pub hashes : List (String × Phase) → List String
hashes [] = []
hashes ((h, _) ∷ ws) = h ∷ hashes ws

-- What the store answers to `Exists`, from what it has acknowledged and the hash.
abbrev pub Answer : Type 0
Answer = List String → String → Bool

abbrev pub may_leave : Phase → Bool
may_leave written = false
may_leave _ = true

pub data Step (exists_says : Answer) (s t : Crew) : Type 0 where
  acquire :
      (id : String)
      → (acquire_hash s.world id).1 ≡ true
      → t ≡ record { world = (acquire_hash s.world id).0; workers = (id, acquired) ∷ s.workers }
      → Step exists_says s t
  remember :
      (cache : Option SeenCache)
      → t ≡ record { world = record (s.world) { seen_cache = cache }; workers = s.workers }
      → Step exists_says s t
  clear :
      (id : String) (before after : List (String × Phase))
      → s.workers ≡ before ++ (id, acquired) ∷ after
      → exists_says s.world.saved id ≡ false
      → t ≡ record { world = s.world; workers = before ++ (id, cleared) ∷ after }
      → Step exists_says s t
  store :
      (id : String) (before after : List (String × Phase))
      → s.workers ≡ before ++ (id, cleared) ∷ after
      → t ≡ record {
        world = record (s.world) { saved = id ∷ s.world.saved };
        workers = before ++ (id, written) ∷ after;
      }
      → Step exists_says s t
  fail :
      (id : String) (before after : List (String × Phase))
      → s.workers ≡ before ++ (id, cleared) ∷ after
      → t ≡ record { world = s.world; workers = before ++ (id, finished) ∷ after }
      → Step exists_says s t
  log :
      (id : String) (before after : List (String × Phase))
      → s.workers ≡ before ++ (id, written) ∷ after
      → t ≡ record {
        world = record (s.world) { accepted = id ∷ s.world.accepted };
        workers = before ++ (id, finished) ∷ after;
      }
      → Step exists_says s t
  release :
      (id : String) (phase : Phase) (before after : List (String × Phase))
      → s.workers ≡ before ++ (id, phase) ∷ after
      → may_leave phase ≡ true
      → t ≡ record { world = release_hash s.world id; workers = before ++ after }
      → Step exists_says s t

pub data Reach (exists_says : Answer) (w : World) : Crew → Type 0 where
  start : Reach exists_says w (record { world = w; workers = [] })
  next : {s t : Crew} → Reach exists_says w s → Step exists_says s t → Reach exists_says w t
