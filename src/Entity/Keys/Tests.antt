-- ===== src/Entity/Keys/Tests.antt =====
-- The keys at concrete inputs (internal/entity/key.go).
use bidshard_lead_miner.Common.{◌≡◌, refl, List, [], ◌∷◌, string_discrete, elem, arith}
use bidshard_lead_miner.Entity.{EntityKey}
use bidshard_lead_miner.Entity.Keys.{
  key_priority, key_less, dedupe_keys, sift, sort_keys, entity_id,
}
use bidshard_lead_miner.Entity.Keys.Laws.{
  EntityKey-discrete, HaveOwnRanks, IsOrdered, entity_id-order,
}
use bidshard_lead_miner.Entity.Sample.{sample_env, acme, acme_site}

abbrev found : List EntityKey
found = acme_site ∷ acme ∷ acme_site ∷ []

abbrev found_otherwise : List EntityKey
found_otherwise = acme ∷ acme_site ∷ []

dedupe_runs : dedupe_keys found ≡ acme_site ∷ acme ∷ []
unfolding dedupe_keys string_discrete
dedupe_runs = refl

sort_runs : sort_keys found_otherwise ≡ acme ∷ acme_site ∷ []
unfolding sort_keys sift key_less key_priority string_discrete
sort_runs = refl

id_runs : entity_id sample_env (sort_keys (acme_site ∷ acme ∷ [])) ≡ "company:acme"
unfolding entity_id sort_keys sift key_less key_priority string_discrete
id_runs = refl

found_same :
    (k : EntityKey) → elem EntityKey-discrete k found ≡ elem EntityKey-discrete k found_otherwise
found_same k = ground arith

found_ranks : HaveOwnRanks found
unfolding key_priority string_discrete
found_ranks = (
  ((λ h. refl), ((λ h. absurd (omega arith)), ((λ h. refl), tt))),
  (
    ((λ h. absurd (omega arith)), ((λ h. refl), ((λ h. absurd (omega arith)), tt))),
    (((λ h. refl), ((λ h. absurd (omega arith)), ((λ h. refl), tt))), tt),
  ),
)

entity_id-order_example :
    (entity_id sample_env (sort_keys found) ≡ entity_id sample_env (sort_keys found_otherwise))
    × IsOrdered (sort_keys found)
entity_id-order_example = entity_id-order sample_env found found_otherwise found_same found_ranks
