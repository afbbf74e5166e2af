-- ===== src/SourceDisable.antt =====
-- The governor of the sources (internal/sourcedisable/governor.go,
-- internal/app/source_disable.go): families that bring much and nothing that is accepted are put into
-- a file, and are not crawled any more. What the file system does is an argument, and so are the
-- letters outside ASCII and the order in which a map is gone through.
pub mod Laws
mod Tests
use Prim.Native.Char.{Char}
use Prim.Native.String.{◌++◌ as append}
use text.Mathlib.Text.{starts_with}
use bidshard_lead_miner.Common.{
  ℕ, ◌+◌, Bool, true, false, not, ◌&&◌, ◌||◌, List, [], ◌∷◌, ◌++◌, Option, none, some, String,
  string_discrete, ite, ltb, ◌==◌, if◌then◌else◌, elem,
}
use bidshard_lead_miner.Common.Text.{is_empty, trim_space, to_lower}

-- What the source statistics say of a source (`sink.SourceStatsDoc`).
pub record SourceStats : Type 0 where
  pub source : String
  pub accepted : ℕ
  pub junk : ℕ

-- The file, where it can be read and decodes.
abbrev pub DisabledFile : Type 0
DisabledFile = Option (List String)

-- What becomes of a write of the file: nothing is written, a part of it is, which does not decode, or
-- no error.
pub data Written : Type 0 where
  refused torn complete : Written

-- `MinRawForFamily`
unfoldable pub min_raw_for_family : (Char → Char) → String → ℕ → ℕ
min_raw_for_family lower family default_min =
    let name = to_lower lower (trim_space family) in
    let noisy = elem string_discrete name ("lander" ∷ "github" ∷ "webpain" ∷ []) in
    let invite = starts_with (to_lower lower family) "telegram:invite" in
    if noisy && ltb 40 default_min
    then 40
    else if invite && ltb 40 default_min
    then 40
    else default_min

-- The threshold where none is set.
abbrev pub min_raw_or : ℕ → ℕ
min_raw_or min_raw = if min_raw == 0 then 100 else min_raw

abbrev pub is_kept : (Char → Char) → ℕ → SourceStats → String → Bool
is_kept lower min_raw doc key =
    ltb (doc.accepted + doc.junk) (min_raw_for_family lower key min_raw) || ltb 0 doc.accepted

evaluate_loop : (Char → Char) → ℕ → List SourceStats → List String
evaluate_loop lower min_raw [] = []
evaluate_loop lower min_raw (doc ∷ docs) =
    let key = trim_space doc.source in
    let rest = evaluate_loop lower min_raw docs in
    if is_empty key then rest else if is_kept lower min_raw doc key then rest else key ∷ rest

-- `Evaluate`. A minimum that is negative is the 0 of here.
unfoldable pub evaluate : (Char → Char) → ℕ → List SourceStats → List String
unfolding evaluate_loop
evaluate lower min_raw docs = evaluate_loop lower (min_raw_or min_raw) docs

-- A text goes into a set.
abbrev pub add_text : String → List String → List String
add_text t seen = if elem string_discrete t seen then seen else seen ++ t ∷ []

load_loop : List String → List String → List String
load_loop seen [] = seen
load_loop seen (s ∷ ss) =
    let t = trim_space s in
    let seen' = if is_empty t then seen else add_text t seen in load_loop seen' ss

-- `Load`
unfoldable pub load : DisabledFile → List String
unfolding load_loop
load none = []
load (some sources) = load_loop [] sources

merge_loop : List String → List String → List String
merge_loop existing [] = existing
merge_loop existing (s ∷ ss) = merge_loop (add_text (trim_space s) existing) ss

abbrev pub write : Written → List String → DisabledFile → DisabledFile × Bool
write refused sources file = (file, false)
write torn sources file = (none, false)
write complete sources file = (some sources, true)

-- `Save`: the file, and whether there was no error.
unfoldable pub save :
    (List String → List String) → Written → DisabledFile → List String → DisabledFile × Bool
unfolding merge_loop
save order written file disabled = write written (order (merge_loop (load file) disabled)) file

-- Whether an entry of the file names the source, which is in small letters.
abbrev pub names : (Char → Char) → String → String → Bool
names lower source key =
    let key' = to_lower lower key in
    ite (string_discrete source key') true (starts_with source (append key' ":"))

abbrev pub any : (String → Bool) → List String → Bool
any p [] = false
any p (s ∷ ss) = p s || any p ss

-- `IsDisabled`
unfoldable pub is_disabled : (Char → Char) → DisabledFile → String → Bool
is_disabled lower file source =
    let source' = to_lower lower (trim_space source) in
    if is_empty source' then false else any (names lower source') (load file)

abbrev pub is_nil : List String → Bool
is_nil [] = true
is_nil (s ∷ ss) = false

-- `RunSourceDisableGovernor`, with the statistics that the database answers.
unfoldable pub run_source_disable_governor :
    (Char → Char)
    → (List String → List String)
    → ℕ
    → Written
    → Option (List SourceStats)
    → DisabledFile
    → DisabledFile × Bool
run_source_disable_governor lower order min_raw written none file = (file, false)
run_source_disable_governor lower order min_raw written (some docs) file =
    let disabled = evaluate lower (min_raw_or min_raw) docs in
    if is_nil disabled then (file, true) else save order written file disabled
