-- ===== src/Seen/Tests.antt =====
-- Runs of the seen cache (internal/dedup/seen.go) and uses of its theorems.
use bidshard_lead_miner.Common.{
  ◌≡◌, refl, ◌+◌, true, [], ◌∷◌, Option, some, string_discrete, leb, arith,
}
use bidshard_lead_miner.Common.Maps.{lookup, insert, erase}
use bidshard_lead_miner.Seen.{
  SeenCache, new_seen_cache, evict_loop, evict_expired_locked, evict_oldest, seen, mark,
}
use bidshard_lead_miner.Seen.Invariant.{Inv, new_seen_cache-Inv}
use bidshard_lead_miner.Seen.History.{
  History, replay, last_mark, recent, seen_sound, seen-eq-recent, mark-seen,
}

abbrev marks : History
marks = ("b", 12) ∷ ("a", 11) ∷ ("b", 10) ∷ []

-- A cache of two that a third id overfills: the id that was first marked first goes.
abbrev full : Option SeenCache
full = replay (new_seen_cache 2 100) (("c", 13) ∷ ("b", 12) ∷ ("a", 11) ∷ ("b", 10) ∷ [])

full_lem :
    full
    ≡ some (record {
      items = ("a", 11) ∷ ("c", 13) ∷ [];
      order = "a" ∷ "c" ∷ [];
      max_size = 2;
      ttl = 100;
    })
unfolding replay new_seen_cache mark evict_expired_locked evict_loop evict_oldest lookup insert
    erase string_discrete
full_lem = refl

full_cache : SeenCache
full_cache = record {
  items = ("a", 11) ∷ ("c", 13) ∷ [];
  order = "a" ∷ "c" ∷ [];
  max_size = 2;
  ttl = 100;
}

seen_sound_example :
    recent 100 60 (last_mark "c" (("c", 13) ∷ ("b", 12) ∷ ("a", 11) ∷ ("b", 10) ∷ [])) ≡ true
unfolding full_cache replay new_seen_cache mark seen evict_expired_locked evict_loop evict_oldest
    lookup insert erase string_discrete
seen_sound_example =
    seen_sound 2 100 (("c", 13) ∷ ("b", 12) ∷ ("a", 11) ∷ ("b", 10) ∷ []) full_cache "c" 50 60 refl
      refl

seen-eq-recent_example :
    (c : SeenCache) × (replay (new_seen_cache 4 100) marks ≡ some c)
    × ((seen c "a" 20 30).1 ≡ recent c.ttl 30 (last_mark "a" marks))
unfolding new_seen_cache
seen-eq-recent_example =
    seen-eq-recent 4 100 marks "a" 20 30 (omega arith) (omega arith) (omega arith)

mark-seen_example :
    (c' : SeenCache) × (mark (new_seen_cache 2 100) "a" 5 ≡ some c')
    × Inv c'
    × ((seen c' "a" 20 30).1 ≡ leb 30 (5 + (new_seen_cache 2 100).ttl))
unfolding new_seen_cache
mark-seen_example =
    mark-seen (new_seen_cache 2 100) "a" 5 20 30 (new_seen_cache-Inv 2 100) (omega arith)
      (omega arith)
