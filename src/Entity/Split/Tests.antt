-- ===== src/Entity/Split/Tests.antt =====
-- A split at a concrete entity (internal/entity/split.go).
use bidshard_lead_miner.Common.{◌≡◌, refl, true, string_discrete, arith}
use bidshard_lead_miner.Common.Int.{ℤ}
use bidshard_lead_miner.Common.Text.{trim_space, to_lower}
use bidshard_lead_miner.Entity.{EntityDoc, uniq_loop, uniq_strings}
use bidshard_lead_miner.Entity.Sighting.{source_family, entity_hash_known}
use bidshard_lead_miner.Entity.Store.{born, follow}
use bidshard_lead_miner.Entity.Keys.{entity_id_for_split}
use bidshard_lead_miner.Entity.History.{IsLedger, sightings_lem}
use bidshard_lead_miner.Entity.Split.{SplitHashResult, split, split_off, split_hash_from_entity}
use bidshard_lead_miner.Entity.Split.Laws.{IsSplit, split_hash_from_entity-IsSplit}
use bidshard_lead_miner.Entity.Sample.{sample_env, acme, first_call, later_writes}

abbrev whole : EntityDoc ℤ
whole = follow sample_env (born sample_env "company:acme" acme first_call) later_writes

ledger : IsLedger sample_env "company:acme" first_call later_writes whole
unfolding trim_space source_family to_lower
ledger =
    sightings_lem sample_env "company:acme" acme first_call (refl, omega arith) refl later_writes
      ((refl, omega arith), ((refl, omega arith), tt))

known : entity_hash_known whole "h1" ≡ true
unfolding entity_hash_known uniq_strings uniq_loop trim_space string_discrete
known = rw ledger.hashes refl

other_id :
    entity_id_for_split sample_env first_call.keys "h1" whole.entity_id ≡ "company:acme:split:h1"
unfolding entity_id_for_split trim_space string_discrete
other_id = rw ledger.same_id refl

abbrev parts : SplitHashResult ℤ
parts =
    split_off sample_env (λ l. l) whole "h1" "company:acme:split:h1" acme first_call.keys
      first_call.sighting first_call.heat first_call.now first_call.readings

splits :
    split_hash_from_entity sample_env
      (λ l. l)
      whole
      " h1"
      first_call.keys
      first_call.sighting
      first_call.heat
      first_call.now
      first_call.readings
    ≡ split parts
unfolding split_hash_from_entity trim_space
splits = rw (known, other_id) refl

split_hash_from_entity-IsSplit_example :
    IsSplit sample_env whole (trim_space " h1") first_call.keys first_call.sighting parts
split_hash_from_entity-IsSplit_example =
    split_hash_from_entity-IsSplit sample_env (λ l. l) (λ l t. refl) whole " h1" first_call.keys
      first_call.sighting first_call.heat first_call.now first_call.readings ledger.timeline parts
      splits
