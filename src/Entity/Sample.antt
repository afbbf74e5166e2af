-- ===== src/Entity/Sample.antt =====
-- Sample sightings, and an environment that runs: floats are thousandths, and an id is its key.
use bidshard_lead_miner.Common.{ℕ, zero, suc, ◌+◌, ◌*◌, ◌/◌, true, false, List, [], ◌∷◌, String}
use bidshard_lead_miner.Common.Int.{ℤ, pos, negsuc, pos_part, ◌+ℤ◌, ltb_ℤ, leb_ℤ}
use bidshard_lead_miner.Entity.{Env, EntityKey, SightingInput, EntitySighting}
use bidshard_lead_miner.Entity.Heat.{default_heat_config, day}
use bidshard_lead_miner.Entity.Store.{Call, Commit}

abbrev pub thousandths : ℤ → ℕ → ℤ
thousandths (pos a) b = pos (a * 1000 / b)
thousandths (negsuc a) b = negsuc ((a + 1) * 1000 / b)

abbrev pub sample_env : Env ℤ
sample_env = record {
  literal = thousandths;
  add = ◌+ℤ◌;
  mul = λ a b. pos (pos_part a * pos_part b / 1000);
  less = ltb_ℤ;
  less_eq = leb_ℤ;
  round = λ a. pos ((pos_part a + 500) / 1000);
  lower = λ c. c;
  id_of = λ s. s;
  has_pain_context = λ text. false;
  pilot_tags = λ stack text. [];
}

abbrev pub acme : EntityKey
acme = record { kind = "company"; value = "acme" }

abbrev pub acme_site : EntityKey
acme_site = record { kind = "domain"; value = "acme.com" }

abbrev pub sighting_of : String → String → ℕ → ℕ → SightingInput
sighting_of source hash posted seen = record {
  source = source;
  hash_id = hash;
  matched = "media buying" ∷ [];
  stack = [];
  text = "We need a buyer";
  score = pos 40;
  posted_at = posted * day;
  seen_at = seen * day;
}

abbrev pub call_of : SightingInput → Call ℤ
call_of i = record {
  keys = acme ∷ acme_site ∷ [];
  sighting = i;
  heat = default_heat_config sample_env;
  now = 1010 * day;
  readings = record {
    seen = 1010 * day;
    row = 1010 * day;
    event = 1010 * day;
    refresh = 1010 * day;
    heat = 1010 * day;
    fallback = 1010 * day;
  };
}

abbrev pub first_call : Call ℤ
first_call = call_of (sighting_of "reddit:ppc" " h1 " 1000 1010)

abbrev pub second_call : Call ℤ
second_call = call_of (sighting_of "forum:blackhatworld.com/x" "h2" 0 990)

-- The second write is of a new hash, the third one of the first again.
abbrev pub later_writes : List (Commit ℤ)
later_writes =
    record { call = second_call; atomic = true } ∷ record { call = first_call; atomic = false } ∷ []

abbrev pub row_at : ℕ → EntitySighting
row_at n = record {
  hash_id = "h";
  source = "reddit:ppc";
  family = "reddit";
  posted_at = n;
  seen_at = n;
  matched = [];
  snippet = [];
  score = pos 0;
}

abbrev pub rows_from : ℕ → List EntitySighting
rows_from zero = []
rows_from (suc n) = row_at (suc n) ∷ rows_from n
