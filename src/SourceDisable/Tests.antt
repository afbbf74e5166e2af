-- ===== src/SourceDisable/Tests.antt =====
-- Runs of the governor of the sources (internal/sourcedisable/governor.go) and a use of its theorem.
use Prim.Native.Char.{Char}
use bidshard_lead_miner.Common.{◌≡◌, refl, true, false, ◌||◌, List, [], ◌∷◌, some, string_discrete}
use bidshard_lead_miner.Common.Text.{to_lower, trim_space, is_space}
use bidshard_lead_miner.SourceDisable.{
  SourceStats, DisabledFile, complete, min_raw_for_family, evaluate, load, save, is_disabled,
  run_source_disable_governor,
}
use bidshard_lead_miner.SourceDisable.Laws.{has_barren, run_source_disable_governor_lem}

abbrev same : Char → Char
same c = c

abbrev stats : List SourceStats
stats =
    record { source = "github"; accepted = 0; junk = 41 }
    ∷ record { source = "forum:stm"; accepted = 1; junk = 900 }
    ∷ record { source = " Reddit "; accepted = 0; junk = 100 }
    ∷ record { source = "serp"; accepted = 0; junk = 99 }
    ∷ []

evaluated : evaluate same 0 stats ≡ "github" ∷ "Reddit" ∷ []
unfolding evaluate min_raw_for_family to_lower trim_space is_space string_discrete
evaluated = refl

abbrev old : DisabledFile
old = some ("forum" ∷ [])

abbrev governed : DisabledFile
governed = (run_source_disable_governor same (λ xs. xs) 0 complete (some stats) old).0

prefix_disabled : is_disabled same governed "Forum:STM" ≡ true
unfolding run_source_disable_governor evaluate min_raw_for_family save load is_disabled to_lower
    trim_space is_space string_discrete
prefix_disabled = refl

serp_enabled : is_disabled same governed "serp" ≡ false
unfolding run_source_disable_governor evaluate min_raw_for_family save load is_disabled to_lower
    trim_space is_space string_discrete
serp_enabled = refl

run_source_disable_governor_lem_example :
    is_disabled same governed "reddit"
    ≡ (is_disabled same old "reddit" || has_barren same 100 "reddit" stats)
run_source_disable_governor_lem_example =
    run_source_disable_governor_lem same (λ xs. xs) 0 stats old "reddit" (λ p xs. refl)
