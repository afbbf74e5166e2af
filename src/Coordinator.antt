-- ===== src/Coordinator.antt =====
-- The rounds of the coordinator (internal/sources/coordinator.go): a loop that cancels the active
-- round and waits for it before it starts the next one, while each round runs in a goroutine of its
-- own.
pub mod Laws
mod Tests
use bidshard_lead_miner.Common.{
  ℕ, suc, Bool, true, false, List, [], ◌∷◌, ◌++◌, Option, none, some, ◌≡◌, if◌then◌else◌, ◌==◌,
}

-- A goroutine of `runRound`: whether it is past `beginRound`, and whether the coordinator has
-- cancelled its context.
pub record Round : Type 0 where
  pub id : ℕ
  pub begun : Bool
  pub cancelled : Bool

-- Where the loop stands: in its `select`, before the start of a round, before its return, after it.
pub data Phase : Type 0 where
  selecting waiting draining stopped : Phase

-- `rounds` are those that the wait group counts, `active` is the id of `activeRound`.
pub record Coordinator : Type 0 where
  pub phase : Phase
  pub rounds : List Round
  pub active : Option ℕ
  pub next_id : ℕ

abbrev pub new_coordinator : Coordinator
new_coordinator = record { phase = selecting; rounds = []; active = none; next_id = 0 }

unfoldable pub cancel_id : ℕ → List Round → List Round
cancel_id id [] = []
cancel_id id (r ∷ rs) = (if r.id == id then record r { cancelled = true } else r) ∷ cancel_id id rs

unfoldable pub cancel_handle : Option ℕ → List Round → List Round
cancel_handle none rs = rs
cancel_handle (some id) rs = cancel_id id rs

unfoldable pub cancel_active_round : Coordinator → Coordinator
cancel_active_round c = record c { rounds = cancel_handle c.active c.rounds; active = none }

abbrev pub new_round : ℕ → Round
new_round id = record { id = id; begun = false; cancelled = false }

-- The end of a round clears the handle if it is its own.
unfoldable pub clear_round_handle : Option ℕ → ℕ → Option ℕ
clear_round_handle none id = none
clear_round_handle (some active) id = if active == id then none else some active

pub data Step (c d : Coordinator) : Type 0 where
  scan : c.phase ≡ selecting → d ≡ record (cancel_active_round c) { phase = waiting } → Step c d
  start :
      c.phase ≡ waiting
      → c.rounds ≡ []
      → d ≡ record c {
        phase = selecting;
        rounds = new_round c.next_id ∷ c.rounds;
        next_id = suc c.next_id;
      }
      → Step c d
  begin :
      (before after : List Round) (id : ℕ) (cancelled : Bool)
      → c.rounds ≡ before ++ record { id = id; begun = false; cancelled = cancelled } ∷ after
      → d ≡ record c {
        rounds =
            cancel_handle c.active before
            ++ record { id = id; begun = true; cancelled = false } ∷ cancel_handle c.active after;
        active = some id;
      }
      → Step c d
  finish :
      (before after : List Round) (id : ℕ) (cancelled : Bool)
      → c.rounds ≡ before ++ record { id = id; begun = true; cancelled = cancelled } ∷ after
      → d ≡ record c { rounds = before ++ after; active = clear_round_handle c.active id }
      → Step c d
  done : c.phase ≡ selecting → d ≡ record (cancel_active_round c) { phase = draining } → Step c d
  exit : c.phase ≡ draining → c.rounds ≡ [] → d ≡ record c { phase = stopped } → Step c d

pub data Reach : Coordinator → Type 0 where
  initial : Reach new_coordinator
  next : {c d : Coordinator} → Reach c → Step c d → Reach d
