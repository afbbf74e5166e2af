-- ===== src/Seen/Invariant.antt =====
-- What holds of a seen cache between two calls (internal/dedup/seen.go).
use bidshard_lead_miner.Common.{
  ℕ, ◌≤◌, ◌≡◌, refl, ap, Bool, true, false, ◌&&◌, List, [], ◌∷◌, Option, none, some, String,
  string_discrete, if◌then◌else◌, length, elem, Distinct, arith,
}
use bidshard_lead_miner.Common.Maps.{
  lookup, erase, has, Unique, lookup-erase, erase-Unique, length-erase_present,
}
use bidshard_lead_miner.Seen.{
  SeenCache, new_seen_cache, is_expired, evict_loop, evict_expired_locked,
}

-- `order` lists each key of `items` once, and nothing else.
pub record Tracks (items : List (String × ℕ)) (order : List String) : Type 0 where
  pub unique : Unique string_discrete items
  pub distinct : Distinct string_discrete order
  pub same : (k : String) → has string_discrete k items ≡ elem string_discrete k order

pub record Inv (c : SeenCache) : Type 0 where
  pub tracks : Tracks c.items c.order
  pub bounded : length c.items ≤ c.max_size

pub new_seen_cache-Inv : (max_size ttl : ℕ) → Inv (new_seen_cache max_size ttl)
unfolding new_seen_cache lookup
new_seen_cache-Inv max_size ttl = record {
  tracks = record { unique = tt; distinct = tt; same = λ k. refl };
  bounded = ground arith;
}

no_keys : (m : List (String × ℕ)) → ((k : String) → has string_discrete k m ≡ false) → m ≡ []
unfolding lookup
no_keys [] h = refl
no_keys ((k, v) ∷ m) h = ground (arith, h k)

pub Tracks-tail :
    (id : String) (items : List (String × ℕ)) (rest : List String)
    → Tracks items (id ∷ rest)
    → Tracks (erase string_discrete id items) rest
Tracks-tail id items rest t = record {
  unique = erase-Unique string_discrete id items t.unique;
  distinct = t.distinct.1;
  same = λ k. ground (arith, t.same k, t.distinct.0, lookup-erase string_discrete id k items);
}

-- There are as many entries as there are ids in `order`.
pub Tracks-length :
    (items : List (String × ℕ)) (order : List String)
    → Tracks items order
    → length items ≡ length order
Tracks-length items [] t = ap length (no_keys items t.same)
Tracks-length items (id ∷ rest) t = ground (
  arith,
  t.same id,
  length-erase_present string_discrete id items t.unique,
  Tracks-length (erase string_discrete id items) rest (Tracks-tail id items rest t),
)

-- What `evictExpiredLocked` leaves of an entry.
abbrev pub fresh : ℕ → ℕ → Option ℕ → Option ℕ
fresh ttl now none = none
fresh ttl now (some seen_at) = if is_expired ttl now seen_at then none else some seen_at

abbrev is_some : Option ℕ → Bool
is_some none = false
is_some (some _) = true

pub lookup-evict_loop :
    (ttl now : ℕ) (k : String) (order : List String) (items : List (String × ℕ))
    → lookup string_discrete k (evict_loop ttl now items order).0 ≡ (
        if elem string_discrete k order
        then fresh ttl now (lookup string_discrete k items)
        else lookup string_discrete k items)
unfolding evict_loop
lookup-evict_loop ttl now k [] items = refl
lookup-evict_loop ttl now k (id ∷ rest) items = ground (
  arith,
  lookup-erase string_discrete id k items,
  lookup-evict_loop ttl now k rest items,
  lookup-evict_loop ttl now k rest (erase string_discrete id items),
)

elem-evict_loop :
    (ttl now : ℕ) (k : String) (order : List String) (items : List (String × ℕ))
    → elem string_discrete k (evict_loop ttl now items order).1
      ≡ (elem string_discrete k order && is_some (fresh ttl now (lookup string_discrete k items)))
unfolding evict_loop
elem-evict_loop ttl now k [] items = refl
elem-evict_loop ttl now k (id ∷ rest) items = ground (
  arith,
  lookup-erase string_discrete id k items,
  elem-evict_loop ttl now k rest items,
  elem-evict_loop ttl now k rest (erase string_discrete id items),
)

Unique-evict_loop :
    (ttl now : ℕ) (order : List String) (items : List (String × ℕ))
    → Unique string_discrete items
    → Unique string_discrete (evict_loop ttl now items order).0
unfolding evict_loop
Unique-evict_loop ttl now [] items u = u
Unique-evict_loop ttl now (id ∷ rest) items u = ground (
  arith,
  erase-Unique string_discrete id items u,
  Unique-evict_loop ttl now rest items u,
  Unique-evict_loop ttl now rest (erase string_discrete id items),
)

Distinct-evict_loop :
    (ttl now : ℕ) (order : List String) (items : List (String × ℕ))
    → Distinct string_discrete order
    → Distinct string_discrete (evict_loop ttl now items order).1
unfolding evict_loop
Distinct-evict_loop ttl now [] items d = tt
Distinct-evict_loop ttl now (id ∷ rest) items d = ground (
  arith,
  elem-evict_loop ttl now id rest items,
  Distinct-evict_loop ttl now rest items d.1,
  Distinct-evict_loop ttl now rest (erase string_discrete id items) d.1,
)

length-evict_loop :
    (ttl now : ℕ) (order : List String) (items : List (String × ℕ))
    → length (evict_loop ttl now items order).1 ≤ length order
unfolding evict_loop
length-evict_loop ttl now [] items = omega arith
length-evict_loop ttl now (id ∷ rest) items = ground (
  arith,
  length-evict_loop ttl now rest items,
  length-evict_loop ttl now rest (erase string_discrete id items),
)

Tracks-evict_loop :
    (ttl now : ℕ) (items : List (String × ℕ)) (order : List String)
    → Tracks items order
    → let (items', kept) = evict_loop ttl now items order in Tracks items' kept
Tracks-evict_loop ttl now items order t = record {
  unique = Unique-evict_loop ttl now order items t.unique;
  distinct = Distinct-evict_loop ttl now order items t.distinct;
  same = λ k. ground (
    arith,
    t.same k,
    lookup-evict_loop ttl now k order items,
    elem-evict_loop ttl now k order items,
  );
}

pub evict_expired_locked-Inv : (now : ℕ) (c : SeenCache) → Inv c → Inv (evict_expired_locked now c)
unfolding evict_expired_locked
evict_expired_locked-Inv now c v = ground (
  arith,
  Tracks-evict_loop c.ttl now c.items c.order v.tracks,
  Tracks-length c.items c.order v.tracks,
  Tracks-length _ _ (Tracks-evict_loop c.ttl now c.items c.order v.tracks),
  length-evict_loop c.ttl now c.order c.items,
)

pub evict_expired_locked_config :
    (now : ℕ) (c : SeenCache)
    → Inv c
    → let c' = evict_expired_locked now c in
      (c'.max_size ≡ c.max_size) × (c'.ttl ≡ c.ttl) × (length c'.items ≤ length c.items)
unfolding evict_expired_locked
evict_expired_locked_config now c v = ground (
  arith,
  Tracks-length c.items c.order v.tracks,
  Tracks-length _ _ (Tracks-evict_loop c.ttl now c.items c.order v.tracks),
  length-evict_loop c.ttl now c.order c.items,
)

-- An id is seen only through its own entry, and an expired entry does not count.
pub lookup-evict_expired_locked :
    (now : ℕ) (c : SeenCache) (k : String)
    → Inv c
    → lookup string_discrete k (evict_expired_locked now c).items
      ≡ fresh c.ttl now (lookup string_discrete k c.items)
unfolding evict_expired_locked lookup
lookup-evict_expired_locked now c k v =
    ground (arith, v.tracks.same k, lookup-evict_loop c.ttl now k c.order c.items)
