-- ===== src/Entity/Rows.antt =====
-- The rows of a timeline after a sighting (internal/entity/sighting.go).
use mathlib.Core.Logic.{if_pos, if_neg}
use bidshard_lead_miner.Common.{
  ℕ, suc, ◌≡◌, refl, ap, false, List, [], ◌∷◌, ◌++◌, Option, none, some, String, string_discrete,
  if-cases, length, elem, Distinct, Distinct-snoc, All-snoc, All, All-map, arith,
}
use bidshard_lead_miner.Common.Text.{is_empty, trim_space}
use bidshard_lead_miner.Entity.{Env, SightingInput, EntitySighting, Readings}
use bidshard_lead_miner.Entity.Sighting.{
  refresh_row, refresh_rows, or_append, append_or_refresh, build_entity_sighting, sighting_seen_at,
}
use bidshard_lead_miner.Entity.Timeline.{
  row_hashes, IsTrimmed, trim_entity_sightings-All, trim_entity_sightings-Distinct,
  trim_entity_sightings-IsTrimmed,
}

-- The rows after a refresh of the first one with a hash.
module _ (hash : String) (i : SightingInput) (seen_at : ℕ) where
  pub data Refreshed : List EntitySighting → List EntitySighting → Type 0 where
    here :
        (s : EntitySighting) (rows : List EntitySighting)
        → s.hash_id ≡ hash
        → Refreshed (s ∷ rows) (refresh_row i seen_at s ∷ rows)
    there :
        (s : EntitySighting) {rows rows' : List EntitySighting}
        → Refreshed rows rows'
        → Refreshed (s ∷ rows) (s ∷ rows')

  abbrev pub Outcome : List EntitySighting → Option (List EntitySighting) → Type 0
  Outcome rows none = elem string_discrete hash (row_hashes rows) ≡ false
  Outcome rows (some rows') = Refreshed rows rows'

  later-Outcome :
      (s : EntitySighting) (rows : List EntitySighting) (o : Option (List EntitySighting))
      → ¬ (s.hash_id ≡ hash)
      → Outcome rows o
      → Outcome (s ∷ rows) (elim o [ none ↦ none | some rows' ↦ some (s ∷ rows') ])
  later-Outcome s rows none n h = ground (arith, n, h)
  later-Outcome s rows (some rows') n h = there s h

  pub refresh_rows-Outcome :
      (rows : List EntitySighting) → Outcome rows (refresh_rows hash i seen_at rows)
  unfolding refresh_rows
  refresh_rows-Outcome [] = refl
  refresh_rows-Outcome (s ∷ rows) = elim (string_discrete s.hash_id hash) [
    | yes p ↦ rw (if_pos _ p) (here s rows p)
    | no n ↦
        rw (if_neg _ n)
          (later-Outcome s rows (refresh_rows hash i seen_at rows) n (refresh_rows-Outcome rows))
  ]

  pub Refreshed-row_hashes :
      {rows rows' : List EntitySighting} → Refreshed rows rows' → row_hashes rows' ≡ row_hashes rows
  unfolding refresh_row
  Refreshed-row_hashes (here s rows p) = refl
  Refreshed-row_hashes (there s r) = ap (◌∷◌ s.hash_id) (Refreshed-row_hashes r)

  pub Refreshed-length :
      {rows rows' : List EntitySighting} → Refreshed rows rows' → length rows' ≡ length rows
  Refreshed-length (here s rows p) = refl
  Refreshed-length (there s r) = ap suc (Refreshed-length r)

  pub Refreshed-All :
      (P Q : EntitySighting → Type 0)
      → ((s : EntitySighting) → P s → Q s)
      → ((s : EntitySighting) → P s → Q (refresh_row i seen_at s))
      → {rows rows' : List EntitySighting} → Refreshed rows rows'
      → All P rows
      → All Q rows'
  Refreshed-All P Q f g (here s rows p) h = (g s h.0, All-map P Q f rows h.1)
  Refreshed-All P Q f g (there s r) h = (f s h.0, Refreshed-All P Q f g r h.1)

module _ {F : Type 0} (e : Env F) (i : SightingInput) (r : Readings) where
  abbrev hash : String
  hash = trim_space i.hash_id

  abbrev seen_at : ℕ
  seen_at = sighting_seen_at i r.seen

  -- The rows before the trim.
  abbrev pub updated_rows : List EntitySighting → List EntitySighting
  updated_rows rows =
      or_append (refresh_rows hash i seen_at rows) rows (build_entity_sighting e i r.row)

  -- The hash of a new row.
  hash_id-build_entity_sighting : (build_entity_sighting e i r.row).hash_id ≡ hash
  unfolding build_entity_sighting
  hash_id-build_entity_sighting = refl

  row_hashes-snoc :
      (rows : List EntitySighting) (s : EntitySighting)
      → row_hashes (rows ++ s ∷ []) ≡ row_hashes rows ++ s.hash_id ∷ []
  row_hashes-snoc [] s = refl
  row_hashes-snoc (t ∷ rows) s = ap (◌∷◌ t.hash_id) (row_hashes-snoc rows s)

  or_append-Distinct :
      (rows : List EntitySighting) (o : Option (List EntitySighting))
      → Outcome hash i seen_at rows o
      → Distinct string_discrete (row_hashes rows)
      → Distinct string_discrete (row_hashes (or_append o rows (build_entity_sighting e i r.row)))
  or_append-Distinct rows none h d =
      rw (row_hashes-snoc rows (build_entity_sighting e i r.row), hash_id-build_entity_sighting)
        (Distinct-snoc string_discrete hash (row_hashes rows) h d)
  or_append-Distinct rows (some rows') h d = rw (Refreshed-row_hashes hash i seen_at h) d

  pub append_or_refresh-Distinct :
      (rows : List EntitySighting)
      → Distinct string_discrete (row_hashes rows)
      → Distinct string_discrete (row_hashes (append_or_refresh e i r rows))
  unfolding append_or_refresh
  append_or_refresh-Distinct rows d =
      if-cases (λ l. Distinct string_discrete (row_hashes l)) (is_empty hash) (λ _. d)
        (λ _. trim_entity_sightings-Distinct (updated_rows rows) (
          or_append-Distinct rows (refresh_rows hash i seen_at rows)
            (refresh_rows-Outcome hash i seen_at rows) d))

  module _ (P Q : EntitySighting → Type 0) (f : (s : EntitySighting) → P s → Q s)
      (g : (s : EntitySighting) → P s → Q (refresh_row i seen_at s))
      (k : Q (build_entity_sighting e i r.row)) where
    or_append-All :
        (rows : List EntitySighting) (o : Option (List EntitySighting))
        → Outcome hash i seen_at rows o
        → All P rows
        → All Q (or_append o rows (build_entity_sighting e i r.row))
    or_append-All rows none h a = All-snoc Q rows _ (All-map P Q f rows a) k
    or_append-All rows (some rows') h a = Refreshed-All hash i seen_at P Q f g h a

    pub append_or_refresh-All :
        (rows : List EntitySighting) → All P rows → All Q (append_or_refresh e i r rows)
    unfolding append_or_refresh
    append_or_refresh-All rows a =
        if-cases (All Q) (is_empty hash) (λ _. All-map P Q f rows a)
          (λ _. trim_entity_sightings-All Q (updated_rows rows) (
            or_append-All rows (refresh_rows hash i seen_at rows)
              (refresh_rows-Outcome hash i seen_at rows) a))

  pub append_or_refresh-IsTrimmed :
      (rows : List EntitySighting)
      → is_empty hash ≡ false
      → IsTrimmed (updated_rows rows) (append_or_refresh e i r rows)
  unfolding append_or_refresh
  append_or_refresh-IsTrimmed rows n = rw n (trim_entity_sightings-IsTrimmed (updated_rows rows))
