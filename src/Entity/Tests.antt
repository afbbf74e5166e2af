-- ===== src/Entity/Tests.antt =====
-- The entity graph at concrete inputs.
use bidshard_lead_miner.Common.{◌≡◌, refl, [], ◌∷◌, string_discrete, arith, length}
use bidshard_lead_miner.Common.Text.{trim_space, to_lower}
use bidshard_lead_miner.Entity.{union_strings, uniq_loop}
use bidshard_lead_miner.Entity.Sighting.{
  source_family, before_colon, trim_entity_sightings, sort_sightings, insert_sighting, is_newer,
}
use bidshard_lead_miner.Entity.Store.{born, follow}
use bidshard_lead_miner.Entity.Timeline.{IsTrimmed, trim_entity_sightings-IsTrimmed}
use bidshard_lead_miner.Entity.History.{IsLedger, sightings_lem}
use bidshard_lead_miner.Entity.Sample.{sample_env, acme, first_call, later_writes, rows_from}

family_site : source_family sample_env " TgWeb:@ads:acme.com" ≡ "tgweb"
unfolding source_family to_lower trim_space
family_site = refl

family_other : source_family sample_env "Jobboard:acme" ≡ "jobboard"
unfolding source_family to_lower trim_space before_colon
family_other = refl

union_trims : union_strings ("a" ∷ "b" ∷ []) (" b " ∷ "" ∷ "c" ∷ []) ≡ "a" ∷ "b" ∷ "c" ∷ []
unfolding union_strings uniq_loop trim_space string_discrete
union_trims = refl

trim_runs : length (trim_entity_sightings (rows_from 23)) ≡ 20
unfolding trim_entity_sightings sort_sightings insert_sighting is_newer
trim_runs = refl

trim_entity_sightings-IsTrimmed_example :
    IsTrimmed (rows_from 23) (trim_entity_sightings (rows_from 23))
trim_entity_sightings-IsTrimmed_example = trim_entity_sightings-IsTrimmed (rows_from 23)

sightings_lem_example :
    IsLedger sample_env "id" first_call later_writes
      (follow sample_env (born sample_env "id" acme first_call) later_writes)
unfolding trim_space source_family to_lower
sightings_lem_example =
    sightings_lem sample_env "id" acme first_call (refl, omega arith) refl later_writes
      ((refl, omega arith), ((refl, omega arith), tt))
