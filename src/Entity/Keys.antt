-- ===== src/Entity/Keys.antt =====
-- The keys by which an entity is known, the strongest first, and the id that is made of them
-- (internal/entity/key.go, internal/entity/resolver.go).
pub mod Laws
mod Tests
use Prim.Native.String.{◌++◌ as append}
use bidshard_lead_miner.Common.{
  ℕ, zero, suc, Bool, true, false, ◌||◌, List, [], ◌∷◌, ◌++◌, Option, none, some, String, map,
  string_discrete, ite, ltb, ◌==◌, if◌then◌else◌, length,
}
use bidshard_lead_miner.Common.Text.{is_empty, trim_space, str_lt}
use bidshard_lead_miner.Entity.{Env, EntityKey, contains_string}

-- `Canonical` of a key.
unfoldable pub canonical : EntityKey → String
canonical k = append k.kind (append ":" k.value)

unfoldable pub alias_tokens : List EntityKey → List String
alias_tokens = map canonical

abbrev priorities : List (String × ℕ)
priorities =
    ("company", 0)
    ∷ ("domain", 1)
    ∷ ("forum_uid", 2)
    ∷ ("forum_user", 3)
    ∷ ("telegram_user_id", 3)
    ∷ ("telegram", 4)
    ∷ ("channel", 5)
    ∷ []

-- A kind that the map does not have reads as 0.
abbrev pub priority_in : String → List (String × ℕ) → ℕ
priority_in kind [] = 0
priority_in kind ((k, n) ∷ rest) = ite (string_discrete k kind) n (priority_in kind rest)

unfoldable pub key_priority : String → ℕ
key_priority kind = priority_in kind priorities

unfoldable pub key_less : EntityKey → EntityKey → Bool
key_less a b =
    let pa = key_priority a.kind in
    let pb = key_priority b.kind in if pa == pb then str_lt a.value b.value else ltb pa pb

-- The loop of `dedupeKeys`, with the keys that it has met.
dedupe_loop : List String → List EntityKey → List EntityKey
dedupe_loop seen [] = []
dedupe_loop seen (k ∷ ks) =
    let skipped = dedupe_loop seen ks in
    let taken = k ∷ dedupe_loop (seen ++ canonical k ∷ []) ks in
    if is_empty k.kind || is_empty k.value || contains_string seen (canonical k)
    then skipped
    else taken

unfoldable pub dedupe_keys : List EntityKey → List EntityKey
unfolding dedupe_loop canonical
dedupe_keys = dedupe_loop []

-- The inner loop of `sortKeys`: a later key that is less changes places with the one at `i`.
unfoldable pub sift : EntityKey → List EntityKey → EntityKey × List EntityKey
sift x [] = (x, [])
sift x (y ∷ ys) =
    let (least, rest) = sift (if key_less y x then y else x) ys in
    (least, (if key_less y x then x else y) ∷ rest)

-- The outer loop, for the rounds that are left.
unfoldable pub sort_loop : ℕ → List EntityKey → List EntityKey
sort_loop zero keys = keys
sort_loop (suc n) [] = []
sort_loop (suc n) (x ∷ xs) = let (least, rest) = sift x xs in least ∷ sort_loop n rest

unfoldable pub sort_keys : List EntityKey → List EntityKey
unfolding sort_loop
sort_keys keys = sort_loop (length keys) keys

unfoldable pub primary_key : List EntityKey → Option EntityKey
primary_key [] = none
primary_key (k ∷ keys) = some k

-- `entityIDFromPrimary`, where there is a key.
unfoldable pub id_of_primary : {F : Type 0} → Env F → Option EntityKey → String
unfolding canonical
id_of_primary e none = ""
id_of_primary e (some k) = e.id_of (canonical k)

unfoldable pub entity_id : {F : Type 0} → Env F → List EntityKey → String
unfolding primary_key id_of_primary
entity_id e keys = id_of_primary e (primary_key keys)

-- The id of what is split off: where the keys lead to the source itself, the hash sets it apart.
unfoldable pub entity_id_for_split :
    {F : Type 0} → Env F → List EntityKey → String → String → String
unfolding primary_key canonical entity_id
entity_id_for_split e keys hash_id source_id =
    let base = entity_id e keys in
    let hash = trim_space hash_id in
    if is_empty base
    then ""
    else ite (string_discrete base (trim_space source_id))
        (elim (primary_key keys) [
          | none ↦ base
          | some k ↦
              if is_empty hash then base else e.id_of (append (canonical k) (append ":split:" hash))
        ])
        base
