-- ===== src/Seen/History.antt =====
-- The seen cache against the marks that it was given (internal/dedup/seen.go).
use bidshard_lead_miner.Common.{
  ℕ, ◌+◌, ◌≤◌, ◌<◌, ◌≡◌, ◌⊎◌, inl, refl, ◌∙◌, ite, Bool, true, false, List, [], ◌∷◌, Option, none,
  some, String, string_discrete, leb, length, arith,
}
use bidshard_lead_miner.Common.Maps.{lookup}
use bidshard_lead_miner.Seen.{SeenCache, new_seen_cache, seen, mark}
use bidshard_lead_miner.Seen.Invariant.{
  Inv, new_seen_cache-Inv, fresh, evict_expired_locked_config, lookup-evict_expired_locked,
}
use bidshard_lead_miner.Seen.Marking.{Marked, mark_lem}

-- Marks, the latest first.
abbrev pub History : Type 0
History = List (String × ℕ)

unfoldable pub replay : SeenCache → History → Option SeenCache
replay c [] = some c
replay c ((id, at) ∷ past) = elim (replay c past) [ none ↦ none | some c' ↦ mark c' id at ]

-- When an id was last marked.
unfoldable pub last_mark : String → History → Option ℕ
last_mark k [] = none
last_mark k ((id, at) ∷ past) = ite (string_discrete id k) (some at) (last_mark k past)

-- No mark is later than `now`, and each comes no earlier than those before it.
abbrev pub InOrder : ℕ → History → Type 0
InOrder now [] = Unit {0}
InOrder now ((id, at) ∷ past) = (at ≤ now) × InOrder at past

-- Dropping what has expired at `at` and then at a later `now` is dropping what has expired at `now`.
fresh-fresh :
    (ttl at now : ℕ) (o : Option ℕ) → at ≤ now → fresh ttl now (fresh ttl at o) ≡ fresh ttl now o
fresh-fresh ttl at now none h = refl
fresh-fresh ttl at now (some t) h = ground arith

InOrder-mono : (now later : ℕ) (h : History) → now ≤ later → InOrder now h → InOrder later h
InOrder-mono now later [] l o = tt
InOrder-mono now later ((id, at) ∷ past) l o = (omega arith, o.1)

-- What a replay leaves: a sound cache, whose entries are last marks.
record Replayed (c : SeenCache) (h : History) (c' : SeenCache) : Type 0 where
  inv : Inv c'
  same_max : c'.max_size ≡ c.max_size
  same_ttl : c'.ttl ≡ c.ttl
  size : length c'.items ≤ length h
  sound :
      (k : String)
      → (lookup string_discrete k c'.items ≡ none)
        ⊎ (lookup string_discrete k c'.items ≡ last_mark k h)
  complete :
      (k : String) (now : ℕ)
      → InOrder now h
      → length h ≤ c.max_size
      → fresh c.ttl now (lookup string_discrete k c'.items) ≡ fresh c.ttl now (last_mark k h)

mark-Replayed :
    (c c' : SeenCache) (id : String) (at : ℕ) (h : History) {c'' : SeenCache}
    → Replayed c h c'
    → Marked c' id at c''
    → Replayed c ((id, at) ∷ h) c''
unfolding last_mark
mark-Replayed c c' id at h r m = record {
  inv = m.inv;
  same_max = m.same_max ∙ r.same_max;
  same_ttl = m.same_ttl ∙ r.same_ttl;
  size = omega (arith, m.grown, r.size);
  sound = λ k. ground (arith, m.entry k, r.sound k);
  complete = λ k now o fits. ground (
    arith,
    r.complete k now (InOrder-mono at now h o.0 o.1) (omega arith),
    m.roomy (omega (arith, r.size, r.same_max)) k,
    r.same_ttl,
    fresh-fresh c.ttl at now (lookup string_discrete k c'.items) o.0,
  );
}

replay_lem :
    (max_size ttl : ℕ) (h : History)
    → let c = new_seen_cache max_size ttl in
      (c' : SeenCache) × (replay c h ≡ some c') × Replayed c h c'
unfolding replay new_seen_cache lookup last_mark
replay_lem max_size ttl [] = (
  new_seen_cache max_size ttl,
  refl,
  record {
    inv = new_seen_cache-Inv max_size ttl;
    same_max = refl;
    same_ttl = refl;
    size = omega arith;
    sound = λ k. inl refl;
    complete = λ k now o fits. refl;
  },
)
replay_lem max_size ttl ((id, at) ∷ past) =
    let (c', run, r) = replay_lem max_size ttl past in
    let (c'', step, m) = mark_lem c' id at r.inv in
    (c'', rw (run, replay) step, mark-Replayed _ c' id at past r m)

-- Whether a last mark counts at a time.
unfoldable pub recent : ℕ → ℕ → Option ℕ → Bool
recent ttl now none = false
recent ttl now (some at) = leb now (at + ttl)

seen_lem :
    (c : SeenCache) (k : String) (now later : ℕ)
    → Inv c
    → (seen c k now later).1
      ≡ recent c.ttl later (fresh c.ttl now (lookup string_discrete k c.items))
unfolding seen recent
seen_lem c k now later v =
    ground (arith, evict_expired_locked_config now c v, lookup-evict_expired_locked now c k v)

-- A cache that was given any marks at all says that an id is seen only if the id was marked, and
-- its last mark is no older than the lifetime.
pub seen_sound :
    (max_size ttl : ℕ) (h : History) (c : SeenCache) (k : String) (now later : ℕ)
    → replay (new_seen_cache max_size ttl) h ≡ some c
    → (seen c k now later).1 ≡ true
    → recent c.ttl later (last_mark k h) ≡ true
unfolding recent
seen_sound max_size ttl h c k now later run yes_seen =
    let (c', run', r) = replay_lem max_size ttl h in
    ground (arith, seen_lem c' k now later r.inv, r.sound k, run, run')

-- Replaying marks never fails. Where the marks come in the order of their times and are no more
-- than the limit, `Seen` answers exactly whether the last mark of the id is no older than the
-- lifetime.
pub seen-eq-recent :
    (max_size ttl : ℕ) (h : History) (k : String) (now later : ℕ)
    → InOrder now h
    → now ≤ later
    → length h ≤ (new_seen_cache max_size ttl).max_size
    → (c : SeenCache) × (replay (new_seen_cache max_size ttl) h ≡ some c)
      × ((seen c k now later).1 ≡ recent c.ttl later (last_mark k h))
unfolding recent
seen-eq-recent max_size ttl h k now later o l fits =
    let (c', run, r) = replay_lem max_size ttl h in
    (c', run, ground (arith, seen_lem c' k now later r.inv, r.complete k now o fits, r.same_ttl))

-- A mark of a sound cache with room for an id at all never fails, keeps the cache sound, and is seen afterwards exactly while
-- its lifetime lasts.
pub mark-seen :
    (c : SeenCache) (id : String) (at now later : ℕ)
    → Inv c
    → 0 < c.max_size
    → now ≤ later
    → (c' : SeenCache) × (mark c id at ≡ some c')
      × Inv c'
      × ((seen c' id now later).1 ≡ leb later (at + c.ttl))
unfolding recent
mark-seen c id at now later v p l =
    let (c', run, m) = mark_lem c id at v in
    (
      c',
      run,
      m.inv,
      ground (arith, seen_lem c' id now later m.inv, m.entry id, m.kept p, m.same_ttl),
    )
