-- ===== src/Entity/Timeline.antt =====
-- What is kept of the rows of a timeline (internal/entity/sighting.go).
use mathlib.Core.List.{Perm}
use mathlib.Core.List.Perm
use bidshard_lead_miner.Common.{
  ℕ, zero, suc, ◌+◌, ◌≤◌, ◌≡◌, refl, ap, ◌∙◌, true, false, List, [], ◌∷◌, ◌++◌, String,
  string_discrete, if-cases, leb, length, take, drop, elem, Distinct, length-append, length-take,
  take-append-drop, append_nil, All, All-take, All-drop, All-map, arith,
}
use bidshard_lead_miner.Entity.{EntitySighting}
use bidshard_lead_miner.Entity.Sighting.{
  sighting_event_time_of, is_newer, insert_sighting, sort_sightings, trim_entity_sightings,
  max_entity_sightings,
}

abbrev pub row_hashes : List EntitySighting → List String
row_hashes [] = []
row_hashes (s ∷ rows) = s.hash_id ∷ row_hashes rows

abbrev pub IsNotOlder : EntitySighting → EntitySighting → Type 0
IsNotOlder a b = sighting_event_time_of b ≤ sighting_event_time_of a

-- Each row is followed by rows that are not newer.
abbrev pub IsNewestFirst : List EntitySighting → Type 0
IsNewestFirst [] = Unit {0}
IsNewestFirst (s ∷ rows) = All (IsNotOlder s) rows × IsNewestFirst rows

insert_sighting-perm :
    (s : EntitySighting) (rows : List EntitySighting) → Perm (insert_sighting s rows) (s ∷ rows)
unfolding insert_sighting
insert_sighting-perm s [] = Perm.rfl
insert_sighting-perm s (r ∷ rows) =
    if-cases (λ l. Perm l (s ∷ r ∷ rows)) (is_newer r s)
      (λ _. Perm.trans (Perm.cons r (insert_sighting-perm s rows)) (Perm.swap s r rows))
      (λ _. Perm.rfl)

sort_sightings-perm : (rows : List EntitySighting) → Perm (sort_sightings rows) rows
unfolding sort_sightings
sort_sightings-perm [] = Perm.rfl
sort_sightings-perm (s ∷ rows) =
    Perm.trans (insert_sighting-perm s (sort_sightings rows))
      (Perm.cons s (sort_sightings-perm rows))

module _ (P : EntitySighting → Type 0) where
  insert_sighting-All :
      (s : EntitySighting) (rows : List EntitySighting)
      → P s
      → All P rows
      → All P (insert_sighting s rows)
  unfolding insert_sighting
  insert_sighting-All s [] h k = (h, tt)
  insert_sighting-All s (r ∷ rows) h k =
      if-cases (All P) (is_newer r s) (λ _. (k.0, insert_sighting-All s rows h k.1)) (λ _. (h, k))

  sort_sightings-All : (rows : List EntitySighting) → All P rows → All P (sort_sightings rows)
  unfolding sort_sightings
  sort_sightings-All [] h = tt
  sort_sightings-All (s ∷ rows) h =
      insert_sighting-All s (sort_sightings rows) h.0 (sort_sightings-All rows h.1)

  pub trim_entity_sightings-All :
      (rows : List EntitySighting) → All P rows → All P (trim_entity_sightings rows)
  unfolding trim_entity_sightings
  trim_entity_sightings-All rows h =
      if-cases (All P) (leb (length rows) max_entity_sightings) (λ _. h)
        (λ _. All-take P max_entity_sightings (sort_sightings rows) (sort_sightings-All rows h))

newer_not_older : (a b : EntitySighting) → is_newer a b ≡ true → IsNotOlder a b
unfolding is_newer
newer_not_older a b h = ground arith

not_newer_not_older : (a b : EntitySighting) → is_newer a b ≡ false → IsNotOlder b a
unfolding is_newer
not_newer_not_older a b h = ground arith

insert_sighting-IsNewestFirst :
    (s : EntitySighting) (rows : List EntitySighting)
    → IsNewestFirst rows
    → IsNewestFirst (insert_sighting s rows)
unfolding insert_sighting
insert_sighting-IsNewestFirst s [] h = (tt, tt)
insert_sighting-IsNewestFirst s (r ∷ rows) h =
    if-cases IsNewestFirst (is_newer r s)
      (λ e. (
        insert_sighting-All (IsNotOlder r) s rows (newer_not_older r s e) h.0,
        insert_sighting-IsNewestFirst s rows h.1,
      ))
      (λ e.
        let at_once : IsNotOlder s r = not_newer_not_older r s e in
        (
          (
            at_once,
            All-map (IsNotOlder r) (IsNotOlder s) (λ x k. omega (arith, k, at_once)) rows h.0,
          ),
          h,
        ))

sort_sightings-IsNewestFirst : (rows : List EntitySighting) → IsNewestFirst (sort_sightings rows)
unfolding sort_sightings
sort_sightings-IsNewestFirst [] = tt
sort_sightings-IsNewestFirst (s ∷ rows) =
    insert_sighting-IsNewestFirst s (sort_sightings rows) (sort_sightings-IsNewestFirst rows)

-- What is left out of an ordered list is not newer than what is taken.
take-drop-newest :
    (n : ℕ) (rows : List EntitySighting)
    → IsNewestFirst rows
    → All (λ k. All (IsNotOlder k) (drop n rows)) (take n rows)
take-drop-newest zero rows h = tt
take-drop-newest (suc n) [] h = tt
take-drop-newest (suc n) (s ∷ rows) h =
    (All-drop (IsNotOlder s) n rows h.0, take-drop-newest n rows h.1)

-- Up to twenty rows stay as they are. Of more, twenty stay, and with the others they are the rows
-- that there were; none of the others is newer than any that stays.
pub record IsTrimmed (rows kept : List EntitySighting) : Type 0 where
  pub others : List EntitySighting
  pub all_there : Perm rows (kept ++ others)
  pub newest : All (λ k. All (IsNotOlder k) others) kept
  pub as_many : length kept + length others ≡ length rows
  pub few : length kept ≤ 20
  pub full : 20 ≤ length rows → length kept ≡ 20
  pub needed : length rows ≤ 20 → kept ≡ rows

length-insert_sighting :
    (s : EntitySighting) (rows : List EntitySighting)
    → length (insert_sighting s rows) ≡ suc (length rows)
unfolding insert_sighting
length-insert_sighting s [] = refl
length-insert_sighting s (r ∷ rows) =
    if-cases (λ (l : List EntitySighting). length l ≡ suc (suc (length rows))) (is_newer r s)
      (λ _. ap suc (length-insert_sighting s rows)) (λ _. refl)

length-sort_sightings : (rows : List EntitySighting) → length (sort_sightings rows) ≡ length rows
unfolding sort_sightings
length-sort_sightings [] = refl
length-sort_sightings (s ∷ rows) =
    length-insert_sighting s (sort_sightings rows) ∙ ap suc (length-sort_sightings rows)

All-nil : (rows : List EntitySighting) → All (λ k. All (IsNotOlder k) []) rows
All-nil [] = tt
All-nil (s ∷ rows) = (tt, All-nil rows)

-- The trim of a timeline drops nothing of up to twenty rows. Of more it keeps twenty, with the
-- dropped ones they are the rows that there were, and none of those is newer than one that is kept.
pub trim_entity_sightings-IsTrimmed :
    (rows : List EntitySighting) → IsTrimmed rows (trim_entity_sightings rows)
unfolding trim_entity_sightings
trim_entity_sightings-IsTrimmed rows =
    if-cases (IsTrimmed rows) (leb (length rows) max_entity_sightings)
      (λ e. record {
        others = [];
        all_there = rw (append_nil rows) Perm.rfl;
        newest = All-nil rows;
        as_many = omega arith;
        few = ground (arith, e);
        full = λ h. ground (arith, e, h);
        needed = λ _. refl;
      })
      (λ e.
        let sorted = sort_sightings rows in
        let many : length sorted ≡ length rows = length-sort_sightings rows in
        record {
          others = drop 20 sorted;
          all_there = rw (take-append-drop 20 sorted) (Perm.symm (sort_sightings-perm rows));
          newest = take-drop-newest 20 sorted (sort_sightings-IsNewestFirst rows);
          as_many = omega (
            arith,
            many,
            length-append (take 20 sorted) (drop 20 sorted),
            ap length (take-append-drop 20 sorted),
          );
          few = omega (arith, length-take 20 sorted);
          full = λ h. omega (arith, length-take 20 sorted, many, h);
          needed = λ h. absurd (ground (arith, e, h));
        })

-- Distinctness of the hashes, under the sort.
insert_sighting-elem :
    (t : String) (s : EntitySighting) (rows : List EntitySighting)
    → elem string_discrete t (row_hashes (insert_sighting s rows))
      ≡ elem string_discrete t (s.hash_id ∷ row_hashes rows)
unfolding insert_sighting
insert_sighting-elem t s [] = refl
insert_sighting-elem t s (r ∷ rows) =
    if-cases
      (λ l.
        elem string_discrete t (row_hashes l) ≡ elem string_discrete t (row_hashes (s ∷ r ∷ rows)))
      (is_newer r s) (λ _. ground (arith, insert_sighting-elem t s rows)) (λ _. refl)

insert_sighting-Distinct :
    (s : EntitySighting) (rows : List EntitySighting)
    → Distinct string_discrete (row_hashes (s ∷ rows))
    → Distinct string_discrete (row_hashes (insert_sighting s rows))
unfolding insert_sighting
insert_sighting-Distinct s [] h = h
insert_sighting-Distinct s (r ∷ rows) h =
    if-cases (λ l. Distinct string_discrete (row_hashes l)) (is_newer r s)
      (λ _. (
        ground (arith, insert_sighting-elem r.hash_id s rows, h),
        insert_sighting-Distinct s rows (ground (arith, h.0), h.1.1),
      ))
      (λ _. h)

sort_sightings-elem :
    (t : String) (rows : List EntitySighting)
    → elem string_discrete t (row_hashes (sort_sightings rows))
      ≡ elem string_discrete t (row_hashes rows)
unfolding sort_sightings
sort_sightings-elem t [] = refl
sort_sightings-elem t (s ∷ rows) =
    ground (arith, insert_sighting-elem t s (sort_sightings rows), sort_sightings-elem t rows)

sort_sightings-Distinct :
    (rows : List EntitySighting)
    → Distinct string_discrete (row_hashes rows)
    → Distinct string_discrete (row_hashes (sort_sightings rows))
unfolding sort_sightings
sort_sightings-Distinct [] h = tt
sort_sightings-Distinct (s ∷ rows) h =
    insert_sighting-Distinct s (sort_sightings rows)
      (sort_sightings-elem s.hash_id rows ∙ h.0, sort_sightings-Distinct rows h.1)

elem-take :
    (t : String) (n : ℕ) (rows : List EntitySighting)
    → elem string_discrete t (row_hashes rows) ≡ false
    → elem string_discrete t (row_hashes (take n rows)) ≡ false
elem-take t zero rows h = refl
elem-take t (suc n) [] h = refl
elem-take t (suc n) (s ∷ rows) h = ground (arith, h, elem-take t n rows)

take-Distinct :
    (n : ℕ) (rows : List EntitySighting)
    → Distinct string_discrete (row_hashes rows)
    → Distinct string_discrete (row_hashes (take n rows))
take-Distinct zero rows h = tt
take-Distinct (suc n) [] h = tt
take-Distinct (suc n) (s ∷ rows) h = (elem-take s.hash_id n rows h.0, take-Distinct n rows h.1)

pub trim_entity_sightings-Distinct :
    (rows : List EntitySighting)
    → Distinct string_discrete (row_hashes rows)
    → Distinct string_discrete (row_hashes (trim_entity_sightings rows))
unfolding trim_entity_sightings
trim_entity_sightings-Distinct rows h =
    if-cases (λ l. Distinct string_discrete (row_hashes l)) (leb (length rows) max_entity_sightings)
      (λ _. h) (λ _. take-Distinct 20 (sort_sightings rows) (sort_sightings-Distinct rows h))
