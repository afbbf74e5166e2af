-- ===== src/Entity/Sighting.antt =====
-- The timeline of a document (internal/entity/sighting.go), and the families of the sources
-- (internal/entity/resolver.go).
use Prim.Native.Char.{code}
use text.Mathlib.Text.{starts_with}
use bidshard_lead_miner.Common.{
  ℕ, Bool, not, ◌&&◌, ◌||◌, List, [], ◌∷◌, ◌++◌, Option, none, some, String, string_discrete, ite,
  ltb, leb, ◌==◌, if◌then◌else◌, length, take,
}
use bidshard_lead_miner.Common.Int.{pos, ltb_ℤ}
use bidshard_lead_miner.Common.Text.{is_empty, trim_space, bytes_of, str_lt, to_lower}
use bidshard_lead_miner.Entity.{
  Env, SightingInput, EntitySighting, EntityDoc, Readings, contains_string, uniq_strings,
}

abbrev pub max_entity_sightings : ℕ
max_entity_sightings = 20

abbrev pub max_sighting_snippet : ℕ
max_sighting_snippet = 500

-- `source[:strings.Index(source, ":")]`, if there is a colon.
unfoldable pub before_colon : String → Option String
before_colon String.[] = none
before_colon (String.◌∷◌ c s) =
    if code c == b':'
    then some String.[]
    else elim (before_colon s) [ none ↦ none | some front ↦ some (String.◌∷◌ c front) ]

abbrev family_prefixes : List (String × String)
family_prefixes =
    ("telegram:", "telegram")
    ∷ ("tgweb:", "tgweb")
    ∷ ("reddit:", "reddit")
    ∷ ("github:", "github")
    ∷ ("discord:", "discord")
    ∷ ("serp:", "serp")
    ∷ ("lander:", "lander")
    ∷ ("warrior:", "warrior")
    ∷ ("reviews:", "reviews")
    ∷ ("ads_txt:", "supply")
    ∷ ("forum:", "forum")
    ∷ []

-- The cases of the `switch`, in their order.
family_of_prefix : String → List (String × String) → Option String
family_of_prefix source [] = none
family_of_prefix source ((prefix, family) ∷ rest) =
    if starts_with source prefix then some family else family_of_prefix source rest

unfoldable pub source_family : {F : Type 0} → Env F → String → String
unfolding family_of_prefix
source_family e source =
    let source' = to_lower e.lower (trim_space source) in
    elim (family_of_prefix source' family_prefixes) [
      | some family ↦ family
      | none ↦ elim (before_colon source') [
        | none ↦ source'
        | some front ↦ if is_empty front then source' else front
      ]
    ]

-- A sighting that has no time takes the clock's.
unfoldable pub sighting_event_time : SightingInput → ℕ → ℕ
sighting_event_time i now =
    if not (i.posted_at == 0) then i.posted_at else if not (i.seen_at == 0) then i.seen_at else now

unfoldable pub sighting_seen_at : SightingInput → ℕ → ℕ
sighting_seen_at i now = if not (i.seen_at == 0) then i.seen_at else now

unfoldable pub truncate_sighting_snippet : String → List ℕ
truncate_sighting_snippet text =
    let bytes = bytes_of (trim_space text) in
    if leb (length bytes) max_sighting_snippet then bytes else take max_sighting_snippet bytes

unfoldable pub build_entity_sighting : {F : Type 0} → Env F → SightingInput → ℕ → EntitySighting
build_entity_sighting e i now = record {
  hash_id = trim_space i.hash_id;
  source = trim_space i.source;
  family = source_family e i.source;
  posted_at = i.posted_at;
  seen_at = sighting_seen_at i now;
  matched = uniq_strings i.matched;
  snippet = truncate_sighting_snippet i.text;
  score = i.score;
}

unfoldable pub update_entity_seen_bounds :
    {F : Type 0} → EntityDoc F → SightingInput → ℕ → EntityDoc F
update_entity_seen_bounds doc i now =
    let event = sighting_event_time i now in
    record doc {
      first_seen =
          if doc.first_seen == 0 || ltb event doc.first_seen then event else doc.first_seen;
      last_seen = if ltb doc.last_seen event then event else doc.last_seen;
    }

unfoldable pub sighting_event_time_of : EntitySighting → ℕ
sighting_event_time_of s =
    if not (s.posted_at == 0) then s.posted_at else if not (s.seen_at == 0) then s.seen_at else 0

-- The comparison of `sort.Slice`: the later first, and of one time the greater hash first.
unfoldable pub is_newer : EntitySighting → EntitySighting → Bool
unfolding sighting_event_time_of
is_newer a b =
    let s = sighting_event_time_of a in
    let t = sighting_event_time_of b in if s == t then str_lt b.hash_id a.hash_id else ltb t s

unfoldable pub insert_sighting : EntitySighting → List EntitySighting → List EntitySighting
insert_sighting s [] = s ∷ []
insert_sighting s (r ∷ rows) = if is_newer r s then r ∷ insert_sighting s rows else s ∷ r ∷ rows

-- `sort.Slice`. Where no hash has two rows the comparison allows one order only, whatever the
-- algorithm.
unfoldable pub sort_sightings : List EntitySighting → List EntitySighting
sort_sightings [] = []
sort_sightings (s ∷ rows) = insert_sighting s (sort_sightings rows)

unfoldable pub trim_entity_sightings : List EntitySighting → List EntitySighting
trim_entity_sightings rows =
    if leb (length rows) max_entity_sightings
    then rows
    else take max_entity_sightings (sort_sightings rows)

unfoldable pub refresh_row : SightingInput → ℕ → EntitySighting → EntitySighting
refresh_row i seen_at s = record s {
  seen_at = seen_at;
  posted_at = if not (i.posted_at == 0) then i.posted_at else s.posted_at;
  score = if ltb_ℤ (pos 0) i.score then i.score else s.score;
  matched = elim i.matched [ [] ↦ s.matched | _ ∷ _ ↦ uniq_strings i.matched ];
  snippet =
      if not (is_empty (trim_space i.text)) then truncate_sighting_snippet i.text else s.snippet;
}

-- The loop over the rows: the first one with the hash is refreshed. `none` if there is none.
unfoldable pub refresh_rows :
    String → SightingInput → ℕ → List EntitySighting → Option (List EntitySighting)
refresh_rows hash i seen_at [] = none
refresh_rows hash i seen_at (s ∷ rows) =
    let rest = refresh_rows hash i seen_at rows in
    ite (string_discrete s.hash_id hash) (some (refresh_row i seen_at s ∷ rows))
      (elim rest [ none ↦ none | some rows' ↦ some (s ∷ rows') ])

abbrev pub or_append :
    Option (List EntitySighting) → List EntitySighting → EntitySighting → List EntitySighting
or_append none rows s = rows ++ s ∷ []
or_append (some rows') rows s = rows'

-- `appendOrRefreshEntitySighting` on the rows of a document.
unfoldable pub append_or_refresh :
    {F : Type 0} → Env F → SightingInput → Readings → List EntitySighting → List EntitySighting
append_or_refresh e i r rows =
    let hash = trim_space i.hash_id in
    if is_empty hash
    then rows
    else trim_entity_sightings (
        or_append (refresh_rows hash i (sighting_seen_at i r.seen) rows) rows
          (build_entity_sighting e i r.row))

unfoldable pub entity_hash_known : {F : Type 0} → EntityDoc F → String → Bool
entity_hash_known doc hash_id =
    let hash = trim_space hash_id in not (is_empty hash) && contains_string doc.hash_ids hash

unfoldable pub patch_sighting_timeline :
    {F : Type 0} → Env F → EntityDoc F → SightingInput → Readings → EntityDoc F
patch_sighting_timeline e doc i r =
    update_entity_seen_bounds (record doc { sightings = append_or_refresh e i r doc.sightings }) i
      r.event
