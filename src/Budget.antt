-- ===== src/Budget.antt =====
-- The daily budget of proxy traffic (internal/proxybudget/governor.go): one process-wide governor,
-- whose state is the day and the bytes recorded on it. A reading of the clock is the number of
-- seconds since the epoch in UTC. The state file is what the last successful write left, or
-- nothing; whether a write succeeds is an argument. Bytes and sizes are unbounded numbers.
pub mod Laws
mod Tests
use bidshard_lead_miner.Common.{
  ℕ, suc, ◌+◌, ◌*◌, ◌/◌, Bool, true, false, ◌&&◌, not, Option, none, some, ltb, leb, ◌==◌,
  if◌then◌else◌,
}

-- A day as `2006-01-02` names it. The days are numbered from the epoch: the format tells two days
-- apart exactly where the numbers differ.
abbrev pub day_key : ℕ → ℕ
day_key now = now / 86400

-- `day = none` is the empty string of a zero `stateFile`.
pub record StateFile : Type 0 where
  pub day : Option ℕ
  pub bytes : ℕ

-- What reading the file gives: no file or bad JSON, or a state whose bytes may be negative.
pub data Loaded : Type 0 where
  unreadable : Loaded
  state : Option ℕ → ℕ → Loaded
  negative : Option ℕ → ℕ → Loaded

pub record Governor : Type 0 where
  pub cap_bytes : ℕ
  pub state_file : StateFile
  pub on_disk : Option StateFile
  pub exceeded : Bool
  pub daily_bytes : ℕ

same_day : Option ℕ → ℕ → Bool
same_day none day = false
same_day (some d) day = d == day

pub load_state : Loaded → ℕ → StateFile
unfolding same_day
load_state unreadable now = record { day = some (day_key now); bytes = 0 }
load_state (state day bytes) now = record {
  day = some (day_key now);
  bytes = if same_day day (day_key now) then bytes else 0;
}
load_state (negative day bytes) now = record { day = some (day_key now); bytes = 0 }

-- `Configure`: without a positive cap the governor is disabled and reads nothing.
pub configure : ℕ → Option StateFile → Loaded → ℕ → Governor
configure daily_cap_mb on_disk loaded now = record {
  cap_bytes = daily_cap_mb * 1024 * 1024;
  state_file =
      if daily_cap_mb == 0 then record { day = none; bytes = 0 } else load_state loaded now;
  on_disk = on_disk;
  exceeded = false;
  daily_bytes = 0;
}

abbrev pub is_enabled : Governor → Bool
is_enabled g = ltb 0 g.cap_bytes

pub reset_if_new_day_locked : Governor → ℕ → Governor
unfolding same_day
reset_if_new_day_locked g now = if same_day g.state_file.day (day_key now) then g else record g {
  state_file = record { day = some (day_key now); bytes = 0 };
  exceeded = false;
  daily_bytes = 0;
}

pub allow : Governor → ℕ → Governor × Bool
unfolding reset_if_new_day_locked
allow g now =
    let g' = reset_if_new_day_locked g now in
    if is_enabled g then (g', ltb g'.state_file.bytes g'.cap_bytes) else (g, true)

-- `written` says whether the state file could be written.
persist_locked : Governor → Bool → Governor
persist_locked g written = if written then record g { on_disk = some g.state_file } else g

pub record_bytes : Governor → ℕ → ℕ → Bool → Governor
unfolding reset_if_new_day_locked persist_locked
record_bytes g n now written =
    let g' = reset_if_new_day_locked g now in
    let bytes = g'.state_file.bytes + n in
    let saved =
      persist_locked (record g' { state_file = record { day = g'.state_file.day; bytes = bytes } })
        written in
    if is_enabled g && ltb 0 n
    then record saved {
      exceeded = if leb g.cap_bytes bytes then true else saved.exceeded;
      daily_bytes = bytes;
    }
    else g

pub used_bytes : Governor → ℕ → Governor × ℕ
unfolding reset_if_new_day_locked
used_bytes g now =
    let g' = reset_if_new_day_locked g now in
    if is_enabled g then (g', g'.state_file.bytes) else (g, 0)
