-- ===== src/Pipeline/Sample.antt =====
-- An item of a Telegram chat, with settings, services and a world for it (internal/pipeline).
use bidshard_lead_miner.Common.{true, false, List, [], ◌∷◌, none, some, string_discrete, elem}
use bidshard_lead_miner.Common.Int.{pos}
use bidshard_lead_miner.Seen.{new_seen_cache}
use bidshard_lead_miner.Pipeline.Contact.{Contact, telegram}
use bidshard_lead_miner.Pipeline.Types.{Config, Facts, telegram_source, medium}
use bidshard_lead_miner.Pipeline.Screen.{Draft}
use bidshard_lead_miner.Pipeline.Process.{World, no_result}
use bidshard_lead_miner.Pipeline.Process.Hash.{Services, upserted}

abbrev pub config : Config
config = record {
  high_min = pos 70;
  medium_min = pos 40;
  aggressive_prescan = false;
  hard_reject_shadow = false;
  prescan_enabled = false;
  has_enricher = false;
  accept_min_score = pos 0;
  telegram_accept_min_score = pos 45;
  lead_cluster_enabled = false;
  geo_enabled = false;
  has_icp = false;
  icp_enabled = false;
  icp_tgweb_enabled = false;
  intent_enabled = false;
  has_mx = false;
  has_store = true;
  entity_sightings = true;
  entity_heat_enabled = false;
  cross_source_hot = false;
  cross_source_boost = 0;
  entity_classify_enabled = false;
  gemini_defer = false;
  has_warm_path = false;
  llm_scoring = false;
}

abbrev pub reached : List Contact
reached = record { kind = telegram; value = "@buyer" } ∷ []

-- A buyer who writes in a Telegram chat.
abbrev pub facts : Facts
facts = record {
  source = telegram_source;
  cold_team = false;
  forum_team = false;
  reply_buyer = false;
  cpa_supply = false;
  geo_h1_ok = true;
  payment_vertical = false;
  crypto_payout_only = false;
  blocked_tld = false;
  boilerplate = false;
  blacklisted_source = false;
  intel_only_source = false;
  invoice_noise = false;
  non_buyer_context = false;
  seller_author = false;
  seller_spam = false;
  is_reply = false;
  reply_helper = false;
  channel_broadcast = false;
  hard_reject_hit = false;
  aggressive_contact = false;
  shadow_sampled = false;
  spam_text = false;
  contact_only = false;
  keyword_prescan = true;
  pain_verdict = none;
  spam_verdict = none;
  infra_pain = false;
  extracted = reached;
  contacts_rejected = false;
  synthetic_hint = false;
  cold_team_contacts = λ cs. cs;
  tgweb_contacts = λ cs. cs;
  webpain_contacts = λ cs. cs;
  invite_without_intent = false;
  agency_outreach = false;
  self_broadcast = λ _. false;
  buyer_signal = true;
  placeholder_hint = false;
  known_forum_host = false;
  github_pain_ok = true;
  github_vendor_org = false;
  email_without_pain = false;
  strict_pain = true;
  site_lpr = λ _. false;
  bad_email = λ _. false;
  bad_domain = λ _. false;
  role_address = λ _. false;
  geo_blocked_domain = false;
  scored = pos 55;
  context_signal = false;
  hash_id = λ _. "h1";
}

abbrev pub draft : Draft
draft = record {
  contacts = reached;
  scored = record { score = pos 55; priority = medium };
  hash_id = "h1";
}

abbrev pub services : Services
services = record {
  seen_now = 10;
  seen_later = 10;
  exists_fails = false;
  exists_says = λ saved id. elem string_discrete id saved;
  exists_at = 11;
  reserve_at = 12;
  cluster_duplicate = false;
  answers = record {
    geo_rejects = none;
    icp = none;
    needs_intent = false;
    intent_accepts = none;
    mx_ok = true;
  };
  entity = no_result;
  patchable = false;
  upsert = upserted;
  duplicate_entity = no_result;
  duplicate_at = 13;
  final_at = 14;
}

abbrev pub world : World
world = record {
  seen_cache = some (new_seen_cache 10 100);
  inflight = "h2" ∷ [];
  saved = [];
  junk = [];
  sightings = [];
  classify_queue = [];
  patched = [];
  clustered = [];
  warm_queue = [];
  accepted = [];
}
