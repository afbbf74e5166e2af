-- ===== src/Entity.antt =====
-- The entity graph (internal/entity): what is seen of one company or person on many sources is
-- collected in one document. Here are its types, and the sets of texts that the documents keep.
pub mod Sighting
pub mod Heat
pub mod Keys
pub mod Merge
pub mod Split
pub mod Store
pub mod Sets
pub mod Timeline
pub mod Rows
pub mod Links
pub mod After
pub mod History
pub mod Race
pub mod Sample
mod Tests
use Prim.Native.Char.{Char}
use bidshard_lead_miner.Common.{
  ℕ, Bool, List, [], ◌∷◌, ◌++◌, String, ◌||◌, if◌then◌else◌, elem, string_discrete,
}
use bidshard_lead_miner.Common.Int.{ℤ}
use bidshard_lead_miner.Common.Text.{is_empty, trim_space}

-- What the documents need of code that is not modelled: the operations of float64, the tables of
-- the letters outside ASCII, SHA-256 and the classifiers of texts.
pub record Env (F : Type 0) : Type 0 where
  -- The float nearest to a fraction.
  pub literal : ℤ → ℕ → F
  pub add : F → F → F
  pub mul : F → F → F
  pub less : F → F → Bool
  pub less_eq : F → F → Bool
  pub round : F → ℤ
  pub lower : Char → Char
  pub id_of : String → String
  pub has_pain_context : List ℕ → Bool
  pub pilot_tags : List String → List ℕ → List String

pub record EntityKey : Type 0 where
  pub kind : String
  pub value : String

-- Times are nanoseconds since the zero time of Go, which is 0.
pub record SightingInput : Type 0 where
  pub source : String
  pub hash_id : String
  pub matched : List String
  pub stack : List String
  pub text : String
  pub score : ℤ
  pub posted_at : ℕ
  pub seen_at : ℕ

-- The snippet is a text of bytes, which may end inside a letter.
pub record EntitySighting : Type 0 where
  pub hash_id : String
  pub source : String
  pub family : String
  pub posted_at : ℕ
  pub seen_at : ℕ
  pub matched : List String
  pub snippet : List ℕ
  pub score : ℤ

pub record EntityDoc (F : Type 0) : Type 0 where
  pub entity_id : String
  pub primary_kind : String
  pub primary_value : String
  pub alias_keys : List String
  pub hash_ids : List String
  pub sources : List String
  pub source_families : List String
  pub matched : List String
  pub stack : List String
  pub first_seen : ℕ
  pub last_seen : ℕ
  pub sighting_count : ℕ
  pub source_count : ℕ
  pub pain_hits : ℕ
  pub buyer_role_seen : Bool
  pub canonical_hash : String
  pub heat_score : F
  pub heat_score_round : ℤ
  pub heat_tier : String
  pub last_heat_at : ℕ
  pub fresh_sighting_at : ℕ
  pub unified_pain : String
  pub actor_confidence : F
  pub buyer_intent : String
  pub needs_review : Bool
  pub entity_classified_at : ℕ
  pub merge_generation : ℕ
  pub sightings : List EntitySighting

-- The readings of the clock within one call: for the time of a sighting, for a new row, for the
-- bounds, for a refresh, for the heat after a refresh in the store, and for a heat without a time.
pub record Readings : Type 0 where
  pub seen : ℕ
  pub row : ℕ
  pub event : ℕ
  pub refresh : ℕ
  pub heat : ℕ
  pub fallback : ℕ

abbrev pub contains_string : List String → String → Bool
contains_string list v = elem string_discrete v list

-- The loop of `uniqStrings`, with the texts that it has met.
unfoldable pub uniq_loop : List String → List String → List String
uniq_loop seen [] = []
uniq_loop seen (v ∷ vs) =
    let t = trim_space v in
    let skipped = uniq_loop seen vs in
    let taken = t ∷ uniq_loop (seen ++ t ∷ []) vs in
    if is_empty t || contains_string seen t then skipped else taken

unfoldable pub uniq_strings : List String → List String
uniq_strings = uniq_loop []

-- Both loops of the code share the texts that they have met.
unfoldable pub union_strings : List String → List String → List String
union_strings base [] = base
union_strings base (v ∷ vs) = uniq_loop [] (base ++ v ∷ vs)
