-- ===== src/Seen/Marking.antt =====
-- What a mark does to a sound seen cache (internal/dedup/seen.go).
use bidshard_lead_miner.Common.{
  ℕ, suc, ◌≤◌, ◌<◌, ◌≡◌, refl, sym, ap, ◌∙◌, inl, inr, ite, true, false, List, [], ◌∷◌, Option,
  none, some, String, string_discrete, ltb, tests, drop, ◌-◌, if◌then◌else◌, length, elem,
  elem-append, elem_of_elem-drop, elem-drop-snoc, length-drop, length-append, Distinct-snoc,
  Bool-cases, Option-cases, arith,
}
use bidshard_lead_miner.Common.Maps.{
  lookup, insert, erase, lookup-insert, lookup-erase, insert-Unique, length-insert-le,
}
use bidshard_lead_miner.Seen.{SeenCache, evict_expired_locked, evict_oldest, enlist, mark}
use bidshard_lead_miner.Seen.Invariant.{
  Tracks, Inv, Tracks-tail, Tracks-length, fresh, evict_expired_locked-Inv,
  evict_expired_locked_config, lookup-evict_expired_locked,
}

-- Inserting an id enlists it, once.
Tracks-enlist :
    (id : String) (now : ℕ) (items : List (String × ℕ)) (order : List String)
    → Tracks items order
    → Tracks
        (insert string_discrete id now items)
        (enlist (lookup string_discrete id items) order id)
Tracks-enlist id now items order t = record {
  unique = insert-Unique string_discrete id now items t.unique;
  distinct = ground (arith, t.same id, Distinct-snoc string_discrete id order);
  same = λ k. ground (
    arith,
    t.same k,
    lookup-insert string_discrete id k now items,
    elem-append string_discrete k order (id ∷ []),
  );
}

-- The order that `Mark` leaves: without the oldest ids past the limit.
abbrev pub newest : ℕ → List String → List String
newest max_size order = drop (length order - max_size) order

-- The eviction of `Mark` drops the oldest ids past the limit and never meets an empty `order`.
pub evict_oldest_lem :
    (max_size : ℕ) (items : List (String × ℕ)) (order : List String)
    → Tracks items order
    → (items' : List (String × ℕ)) × (evict_oldest max_size items order
        ≡ some (items', newest max_size order))
      × Tracks items' (newest max_size order)
      × ((k : String)
          → elem string_discrete k (newest max_size order) ≡ true
          → lookup string_discrete k items' ≡ lookup string_discrete k items)
unfolding evict_oldest
evict_oldest_lem max_size items [] t =
    let e : 0 - max_size ≡ 0 = omega arith in
    rw e (items, ground (arith, Tracks-length items [] t), t, λ k _. refl)
evict_oldest_lem max_size items (oldest ∷ rest) t =
    elim (Bool-cases (ltb max_size (length items))) [
      | inl over ↦
          let e : suc (length rest) - max_size ≡ suc (length rest - max_size) =
            omega (tests, over, Tracks-length items (oldest ∷ rest) t) in
          let (items', run, t', same) =
            evict_oldest_lem max_size (erase string_discrete oldest items) rest
              (Tracks-tail oldest items rest t) in
          rw (e, over)
            (
              items',
              run,
              t',
              λ k h. ground (
                arith,
                same k h,
                t.distinct.0,
                elem_of_elem-drop string_discrete k (length rest - max_size) rest h,
                lookup-erase string_discrete oldest k items,
              ),
            )
      | inr fits ↦
          let e : suc (length rest) - max_size ≡ 0 =
            ground (arith, fits, Tracks-length items (oldest ∷ rest) t) in
          rw (e, fits) (items, refl, t, λ k _. refl)
    ]

-- Up to the limit nothing is evicted.
newest_all :
    (max_size : ℕ) (order : List String) → length order ≤ max_size → newest max_size order ≡ order
newest_all max_size order h = let e : length order - max_size ≡ 0 = omega arith in rw e

-- A mark is not evicted by itself.
newest-enlist :
    (max_size : ℕ) (id : String) (items : List (String × ℕ)) (order : List String)
    → Tracks items order
    → length items ≤ max_size
    → 0 < max_size
    → elem string_discrete id (newest max_size (enlist (lookup string_discrete id items) order id))
      ≡ true
newest-enlist max_size id items order t h p =
    elim (Option-cases (lookup string_discrete id items)) [
      | inl e ↦ rw e (
          elem-drop-snoc string_discrete id _ order
            (omega (arith, length-append order (id ∷ []), Tracks-length items order t)))
      | inr (at, e) ↦
          rw (e, newest_all max_size order (omega (arith, Tracks-length items order t)))
            (ground (arith, t.same id))
    ]

-- What a mark does: the cache after it, entry by entry.
pub record Marked (c : SeenCache) (id : String) (now : ℕ) (c' : SeenCache) : Type 0 where
  pub inv : Inv c'
  pub same_max : c'.max_size ≡ c.max_size
  pub same_ttl : c'.ttl ≡ c.ttl
  pub grown : length c'.items ≤ suc (length c.items)
  pub order_lem :
      c'.order
      ≡ newest c.max_size (
          enlist
            (fresh c.ttl now (lookup string_discrete id c.items))
            (evict_expired_locked now c).order
            id)
  pub entry :
      (k : String)
      → lookup string_discrete k c'.items ≡ (
          if elem string_discrete k c'.order
          then ite
              (string_discrete id k)
              (some now)
              (fresh c.ttl now (lookup string_discrete k c.items))
          else none)
  pub roomy :
      length c.items < c.max_size
      → (k : String)
      → lookup string_discrete k c'.items
        ≡ ite (string_discrete id k) (some now) (fresh c.ttl now (lookup string_discrete k c.items))
  pub kept : 0 < c.max_size → elem string_discrete id c'.order ≡ true

none_of_not-elem :
    {items : List (String × ℕ)} {order : List String} (k : String)
    → Tracks items order
    → elem string_discrete k order ≡ false
    → lookup string_discrete k items ≡ none
none_of_not-elem k t h = ground (arith, t.same k)

-- A mark never fails.
pub mark_lem :
    (c : SeenCache) (id : String) (now : ℕ)
    → Inv c
    → (c' : SeenCache) × (mark c id now ≡ some c') × Marked c id now c'
unfolding mark
mark_lem c id now v =
    let e = evict_expired_locked now c in
    let w = evict_expired_locked-Inv now c v in
    let config = evict_expired_locked_config now c v in
    let items = insert string_discrete id now e.items in
    let order = enlist (lookup string_discrete id e.items) e.order id in
    let t = Tracks-enlist id now e.items e.order w.tracks in
    let inserted = λ (k : String).
      lookup-insert string_discrete id k now e.items
      ∙ ap (λ (o : Option ℕ). ite (string_discrete id k) (some now) o)
          (lookup-evict_expired_locked now c k v) in
    let (items', run, t', same) = evict_oldest_lem e.max_size items order t in
    (
      record e { items = items'; order = newest e.max_size order },
      rw run refl,
      record {
        inv = record {
          tracks = t';
          bounded =
              omega (arith, Tracks-length _ _ t', length-drop (length order - e.max_size) order);
        };
        same_max = config.0;
        same_ttl = config.1;
        grown = omega (
          arith,
          config.2,
          Tracks-length _ _ t',
          Tracks-length _ _ t,
          length-drop (length order - e.max_size) order,
          length-insert-le string_discrete id now e.items,
        );
        order_lem = cc (config.0, lookup-evict_expired_locked now c id v);
        entry = λ k. elim (Bool-cases (elem string_discrete k (newest e.max_size order))) [
          | inl h ↦ rw h (same k h ∙ inserted k)
          | inr h ↦ rw h (none_of_not-elem k t' h)
        ];
        roomy = λ room k.
            let all = newest_all e.max_size order (
              omega (
                arith,
                config.0,
                config.2,
                Tracks-length _ _ t,
                length-insert-le string_discrete id now e.items,
              )) in
            elim (Bool-cases (elem string_discrete k (newest e.max_size order))) [
              | inl h ↦ same k h ∙ inserted k
              | inr h ↦
                  none_of_not-elem k t' h ∙ sym (none_of_not-elem k t (rw all at h)) ∙ inserted k
            ];
        kept = λ p. newest-enlist e.max_size id e.items e.order w.tracks w.bounded (rw config.0 p);
      },
    )
