-- ===== src/Budget/Laws.antt =====
-- The budget of a day against the bytes recorded on it (internal/proxybudget/governor.go).
use bidshard_lead_miner.Common.{
  ℕ, sym, ap, ◌∙◌, not, false, ◌&&◌, ◌+◌, ◌*◌, ◌≤◌, ◌<◌, ◌≡◌, refl, Bool, true, List, [], ◌∷◌,
  Option, none, some, ltb, leb, ◌==◌, if◌then◌else◌, arith, Bool-cases, inl, inr,
}
use bidshard_lead_miner.Budget.{
  StateFile, Governor, Loaded, unreadable, state, day_key, load_state, configure, is_enabled, allow,
  record_bytes, used_bytes,
}

-- One call of `Record`: the bytes, the time, and whether the state file was written.
pub record Fetch : Type 0 where
  pub bytes : ℕ
  pub at : ℕ
  pub written : Bool

-- Calls of `Record`, the latest first.
unfoldable pub replay : Governor → List Fetch → Governor
replay g [] = g
replay g (f ∷ past) = record_bytes (replay g past) f.bytes f.at f.written

-- What was recorded on a day.
unfoldable pub total_on : ℕ → List Fetch → ℕ
total_on day [] = 0
total_on day (f ∷ past) =
    let rest = total_on day past in if day_key f.at == day then f.bytes + rest else rest

-- From its start on, the clock does not go back over midnight.
abbrev pub InOrder : ℕ → ℕ → List Fetch → Type 0
InOrder start now [] = day_key start ≤ day_key now
InOrder start now (f ∷ past) = (day_key f.at ≤ day_key now) × InOrder start f.at past

-- At a time, the state names a day that is not past it, holds the bytes of that day, and nothing
-- was recorded on a later one.
record Replayed (g : Governor) (fs : List Fetch) (now : ℕ) (g' : Governor) : Type 0 where
  same_cap : g'.cap_bytes ≡ g.cap_bytes
  day : ℕ
  named : g'.state_file.day ≡ some day
  total : g'.state_file.bytes ≡ total_on day fs
  later : (other : ℕ) → day < other → total_on other fs ≡ 0
  bound : day ≤ day_key now

record_bytes-Replayed :
    (g g' : Governor) (f : Fetch) (past : List Fetch) (now : ℕ)
    → is_enabled g ≡ true
    → day_key f.at ≤ day_key now
    → Replayed g past f.at g'
    → Replayed g (f ∷ past) now (record_bytes g' f.bytes f.at f.written)
unfolding record_bytes total_on
record_bytes-Replayed g g' f past now on o r = elim (Bool-cases (ltb 0 f.bytes)) [
  | inl some_bytes ↦ record {
    same_cap = ground (arith, r.same_cap);
    day = day_key f.at;
    named = ground (arith, r.named, r.same_cap);
    total = ground (arith, r.named, r.total, r.same_cap, r.bound, r.later (day_key f.at));
    later = λ other h. ground (arith, r.later other, r.bound);
    bound = o;
  }
  | inr no_bytes ↦ record {
    same_cap = ground (arith, r.same_cap);
    day = r.day;
    named = ground (arith, r.named, r.same_cap);
    total = ground (arith, r.total);
    later = λ other h. ground (arith, r.later other h);
    bound = omega (arith, r.bound);
  }
]

module _ (cap_mb start : ℕ) (on_disk : Option StateFile) (on : 0 < cap_mb) where
  -- The governor of a process that finds no state file.
  abbrev started : Governor
  started = configure cap_mb on_disk unreadable start

  started_on : is_enabled started ≡ true
  unfolding configure
  started_on = ground arith

  replay_lem :
      (fs : List Fetch) (now : ℕ)
      → InOrder start now fs
      → Replayed started fs now (replay started fs)
  unfolding replay configure load_state total_on
  replay_lem [] now o = record {
    same_cap = refl;
    day = day_key start;
    named = ground arith;
    total = ground arith;
    later = λ other h. refl;
    bound = o;
  }
  replay_lem (f ∷ past) now o =
      record_bytes-Replayed started _ f past now started_on o.0 (replay_lem past f.at o.1)

  -- In a process with a positive cap that could not read a state file, after any calls of `Record`
  -- in the order of time, the bytes used are those recorded on this day, and another fetch is
  -- allowed exactly while they are below the cap.
  pub replay-budget :
      (fs : List Fetch) (now : ℕ)
      → InOrder start now fs
      → ((used_bytes (replay started fs) now).1 ≡ total_on (day_key now) fs)
        × ((allow (replay started fs) now).1
            ≡ ltb (total_on (day_key now) fs) (cap_mb * 1024 * 1024))
  unfolding used_bytes allow configure
  replay-budget fs now o =
      let r = replay_lem fs now o in
      ground (arith, r.named, r.total, r.later (day_key now), r.bound, r.same_cap)

-- What fetches recorded together.
unfoldable pub sum_bytes : List Fetch → ℕ
sum_bytes [] = 0
sum_bytes (f ∷ past) = f.bytes + sum_bytes past

-- All of them were recorded on the day of a time.
abbrev pub AreOn : ℕ → List Fetch → Type 0
AreOn now [] = Unit
AreOn now (f ∷ past) = (day_key f.at ≡ day_key now) × AreOn now past

-- What the calls of one day leave of a governor that stands on this day.
record OneDay (g : Governor) (now : ℕ) (fs : List Fetch) (g' : Governor) : Type 0 where
  same_cap : g'.cap_bytes ≡ g.cap_bytes
  named : g'.state_file.day ≡ some (day_key now)
  total : g'.state_file.bytes ≡ g.state_file.bytes + sum_bytes fs
  flagged : (leb g'.cap_bytes g'.state_file.bytes && not g'.exceeded) ≡ false

record_bytes-OneDay :
    (g g' : Governor) (f : Fetch) (past : List Fetch) (now : ℕ)
    → 0 < g.cap_bytes
    → day_key f.at ≡ day_key now
    → OneDay g now past g'
    → OneDay g now (f ∷ past) (record_bytes g' f.bytes f.at f.written)
unfolding record_bytes sum_bytes
record_bytes-OneDay g g' f past now on today o = record {
  same_cap = ground (arith, o.same_cap);
  named = ground (arith, o.same_cap, o.named, today);
  total = ground (arith, o.same_cap, o.named, o.total, today, on);
  flagged = ground (arith, o.same_cap, o.named, o.flagged, today, on);
}

replay-OneDay :
    (g : Governor) (now : ℕ) (fs : List Fetch)
    → 0 < g.cap_bytes
    → (allow g now).1 ≡ true
    → AreOn now fs
    → OneDay (allow g now).0 now fs (replay (allow g now).0 fs)
unfolding replay allow sum_bytes
replay-OneDay g now [] on allowed today = record {
  same_cap = refl;
  named = ground (arith, on);
  total = omega arith;
  flagged = ground (arith, on, allowed);
}
replay-OneDay g now (f ∷ past) on allowed today =
    record_bytes-OneDay (allow g now).0 _ f past now (ground (arith, on)) today.0
      (replay-OneDay g now past on allowed today.1)

allowed_below :
    (g : Governor) (now : ℕ)
    → 0 < g.cap_bytes
    → (allow g now).1 ≡ true
    → ((allow g now).0.state_file.bytes < g.cap_bytes) × ((allow g now).0.cap_bytes ≡ g.cap_bytes)
unfolding allow
allowed_below g now on allowed = (ground (arith, on, allowed), ground arith)

-- Where a cap is set and a fetch is allowed: after any calls of `Record` on that day, that of the
-- fetch and of others which were allowed meanwhile, the bytes of the day are past the cap by less than
-- what these calls recorded together, and from the cap on the gauge says that the budget is exceeded.
pub record_bytes_overshoot :
    (g : Governor) (now : ℕ) (fs : List Fetch)
    → 0 < g.cap_bytes
    → (allow g now).1 ≡ true
    → AreOn now fs
    → let g' = replay (allow g now).0 fs in
      (g'.state_file.bytes < g.cap_bytes + sum_bytes fs)
      × ((leb g.cap_bytes g'.state_file.bytes && not g'.exceeded) ≡ false)
record_bytes_overshoot g now fs on allowed today =
    let o = replay-OneDay g now fs on allowed today in
    let (below, cap) = allowed_below g now on allowed in
    let g' = replay (allow g now).0 fs in
    (
      omega (arith, o.total, below),
      sym (ap (λ (c : ℕ). leb c g'.state_file.bytes && not g'.exceeded) (o.same_cap ∙ cap))
          ∙ o.flagged,
    )

-- What a new process reads back from the state file.
abbrev pub read_back : Option StateFile → Loaded
read_back none = unreadable
read_back (some s) = state s.day s.bytes

-- A restart with the same positive cap, after a fetch of some bytes was recorded and its state
-- written, is invisible: at any time the new process has used as many bytes of the day as the old
-- one.
pub restart :
    (g : Governor) (cap_mb n now later : ℕ)
    → 0 < cap_mb
    → 0 < n
    → g.cap_bytes ≡ cap_mb * 1024 * 1024
    → let g' = record_bytes g n now true in
      (used_bytes (configure cap_mb g'.on_disk (read_back g'.on_disk) later) later).1
      ≡ (used_bytes g' later).1
unfolding record_bytes used_bytes configure load_state
restart g cap_mb n now later on some_bytes e = ground arith
