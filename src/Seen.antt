-- ===== src/Seen.antt =====
-- The seen cache (internal/dedup/seen.go): hash ids with the time of their last mark, in order of
-- first mark. Each call takes its readings of the clock as arguments; times and durations are
-- unbounded numbers of nanoseconds.
pub mod Invariant
pub mod Marking
pub mod History
mod Tests
use bidshard_lead_miner.Common.{
  ℕ, zero, suc, ◌+◌, ◌*◌, Bool, true, false, ◌&&◌, List, [], ◌∷◌, ◌++◌, Option, none, some, String,
  string_discrete, ltb, leb, ◌==◌, if◌then◌else◌, length,
}
use bidshard_lead_miner.Common.Maps.{lookup, insert, erase}

pub record SeenCache : Type 0 where
  pub items : List (String × ℕ)
  pub order : List String
  pub max_size : ℕ
  pub ttl : ℕ

-- A size or a lifetime that is not positive is replaced by a default.
unfoldable pub new_seen_cache : ℕ → ℕ → SeenCache
new_seen_cache max_size ttl = record {
  items = [];
  order = [];
  max_size = if max_size == 0 then 50000 else max_size;
  ttl = if ttl == 0 then 24 * 3600 * 1000000000 else ttl;
}

-- `now.Sub(seenAt) > ttl`
abbrev pub is_expired : ℕ → ℕ → ℕ → Bool
is_expired ttl now seen_at = ltb (seen_at + ttl) now

abbrev keep : String → List (String × ℕ) × List String → List (String × ℕ) × List String
keep id (items, kept) = (items, id ∷ kept)

-- The loop of `evictExpiredLocked`: the entries that stay, and `kept`.
unfoldable pub evict_loop :
    ℕ → ℕ → List (String × ℕ) → List String → List (String × ℕ) × List String
evict_loop ttl now items [] = (items, [])
evict_loop ttl now items (id ∷ rest) =
    let skipped = evict_loop ttl now items rest in
    let dropped = evict_loop ttl now (erase string_discrete id items) rest in
    elim (lookup string_discrete id items) [
      | none ↦ skipped
      | some seen_at ↦ if is_expired ttl now seen_at then dropped else keep id skipped
    ]

unfoldable pub evict_expired_locked : ℕ → SeenCache → SeenCache
evict_expired_locked now c = elim c.items [
  | [] ↦ c
  | _ ∷ _ ↦
      let (items, order) = evict_loop c.ttl now c.items c.order in
      record c { items = items; order = order }
]

-- `later` is the second reading of the clock, by `time.Since`.
unfoldable pub seen : SeenCache → String → ℕ → ℕ → SeenCache × Bool
seen c id now later =
    let c' = evict_expired_locked now c in
    (
      c',
      elim (lookup string_discrete id c'.items) [
        | none ↦ false
        | some seen_at ↦ leb later (seen_at + c'.ttl)
      ],
    )

-- The eviction loop of `Mark`. `none` is the panic of `c.order[0]` on an empty `order`.
pub evict_oldest : ℕ → List (String × ℕ) → List String → Option (List (String × ℕ) × List String)
evict_oldest max_size items [] = if ltb max_size (length items) then none else some (items, [])
evict_oldest max_size items (oldest ∷ rest) =
    let evicted = evict_oldest max_size (erase string_discrete oldest items) rest in
    if ltb max_size (length items) then evicted else some (items, oldest ∷ rest)

abbrev pub enlist : Option ℕ → List String → String → List String
enlist none order id = order ++ id ∷ []
enlist (some _) order id = order

abbrev put_back : SeenCache → Option (List (String × ℕ) × List String) → Option SeenCache
put_back c none = none
put_back c (some (items, order)) = some (record c { items = items; order = order })

pub mark : SeenCache → String → ℕ → Option SeenCache
mark c id now =
    let c' = evict_expired_locked now c in
    put_back c' (
      evict_oldest c'.max_size (insert string_discrete id now c'.items)
        (enlist (lookup string_discrete id c'.items) c'.order id))
