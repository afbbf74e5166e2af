-- ===== src/Pipeline/Types.antt =====
-- The data of `Processor.Process` (internal/pipeline/processor.go): outcomes, junk reasons, the
-- processor's settings, and what the classifiers say of an item.
use bidshard_lead_miner.Common.{ℕ, Bool, true, false, List, Option, none, some, String}
use bidshard_lead_miner.Common.Int.{ℤ}
use bidshard_lead_miner.Pipeline.Contact.{Contact}

-- `RejectReason`, by the name that the code writes.
pub data Reason : Type 0 where
  intel_only geo payment lang blacklist context author_seller instant_drop telegram_spam : Reason
  hard_reject low_priority synthetic_contact telegram_no_buyer_voice contact : Reason
  lander_no_buyer_signal serp_no_buyer_signal no_reachable_contact serp_forum_snippet : Reason
  forum_no_user_contact github_vendor no_contacts email_no_context role_email empty_hash : Reason
  dedup store_error icp intent mx : Reason

-- The `coldpath.Reason…` constants that `captureJunk` is called with.
pub data Junk : Type 0 where
  intent_reject geo_reject context_drop lang_reject blacklisted hard_rejected spam : Junk
  hard_reject_shadow embed_spam keyword_prescan contact_reject unreachable contactless : Junk
  email_contextless role_mail low_score hashless geo_gemini_reject icp_reject mx_reject : Junk

pub data Priority : Type 0 where
  low medium high : Priority

-- `model.Lead`, as far as the pipeline decides it.
pub record Lead : Type 0 where
  pub hash_id : String
  pub priority : Priority
  pub score : ℤ

-- `reject_reason = none` is the empty string, `lead = none` the zero lead.
pub record ProcessOutcome : Type 0 where
  pub accepted : Bool
  pub rejected_geo : Bool
  pub hard_rejected : Bool
  pub dedup_hit : Bool
  pub dropped_mx : Bool
  pub reject_reason : Option Reason
  pub lead : Option Lead

abbrev pub no_outcome : ProcessOutcome
no_outcome = record {
  accepted = false;
  rejected_geo = false;
  hard_rejected = false;
  dedup_hit = false;
  dropped_mx = false;
  reject_reason = none;
  lead = none;
}

-- An early return of `Process`: the outcome, and the junk that is captured on the way.
pub record Rejection : Type 0 where
  pub outcome : ProcessOutcome
  pub junk : Option Junk

abbrev pub drop : Reason → Junk → Rejection
drop reason junk = record {
  outcome = record no_outcome { reject_reason = some reason };
  junk = some junk;
}

abbrev pub drop_geo : Junk → Rejection
drop_geo junk = record {
  outcome = record no_outcome { rejected_geo = true; reject_reason = some geo };
  junk = some junk;
}

abbrev pub drop_hard : Reason → Option Junk → Rejection
drop_hard reason junk = record {
  outcome = record no_outcome { hard_rejected = true; reject_reason = some reason };
  junk = junk;
}

abbrev pub drop_mx : Rejection
drop_mx = record {
  outcome = record no_outcome { dropped_mx = true; reject_reason = some mx };
  junk = some mx_reject;
}

-- The code before an early return, or past it.
pub data Screen {ℓ} (A : Type ℓ) : Type ℓ where
  stop : Rejection → Screen A
  go : A → Screen A

infixl 5 ◌>>=◌ ◌>>◌
abbrev pub ◌>>=◌ {ℓ κ} : {A : Type ℓ} {B : Type κ} → Screen A → (A → Screen B) → Screen B
stop r >>= f = stop r
go a >>= f = f a

abbrev pub ◌>>◌ {ℓ} : {B : Type ℓ} → Screen (Unit {0}) → Screen B → Screen B
m >> k = m >>= λ _. k

-- `if test { … return out }`
abbrev pub reject_if : Bool → Rejection → Screen (Unit {0})
reject_if true r = stop r
reject_if false r = go tt

-- The settings of the processor that its decisions read. The registry of keywords is set, as
-- internal/app/deps.go sets it; it gives the two thresholds. A pointer that may be nil is a test:
-- `has_…`.
pub record Config : Type 0 where
  pub high_min : ℤ
  pub medium_min : ℤ
  pub aggressive_prescan : Bool
  pub hard_reject_shadow : Bool
  pub prescan_enabled : Bool
  pub has_enricher : Bool
  pub accept_min_score : ℤ
  pub telegram_accept_min_score : ℤ
  pub lead_cluster_enabled : Bool
  pub geo_enabled : Bool
  pub has_icp : Bool
  pub icp_enabled : Bool
  pub icp_tgweb_enabled : Bool
  pub intent_enabled : Bool
  pub has_mx : Bool
  pub has_store : Bool
  pub entity_sightings : Bool
  pub entity_heat_enabled : Bool
  pub cross_source_hot : Bool
  pub cross_source_boost : ℕ
  pub entity_classify_enabled : Bool
  pub gemini_defer : Bool
  pub has_warm_path : Bool
  pub llm_scoring : Bool

-- The kind of a source, by its prefix. No label has two of these prefixes.
pub data Source : Type 0 where
  fixture telegram_source tgweb lander serp webpain discord forum github_source other_source :
      Source

abbrev pub is_telegram : Source → Bool
is_telegram telegram_source = true
is_telegram _ = false

abbrev pub is_tgweb : Source → Bool
is_tgweb tgweb = true
is_tgweb _ = false

abbrev pub is_lander : Source → Bool
is_lander lander = true
is_lander _ = false

abbrev pub is_serp : Source → Bool
is_serp serp = true
is_serp _ = false

abbrev pub is_webpain : Source → Bool
is_webpain webpain = true
is_webpain _ = false

abbrev pub is_discord : Source → Bool
is_discord discord = true
is_discord _ = false

abbrev pub is_forum : Source → Bool
is_forum forum = true
is_forum _ = false

abbrev pub is_fixture : Source → Bool
is_fixture fixture = true
is_fixture _ = false

-- What the classifiers of internal/filter, geo, scoring, validate, extract and tgweb say of one
-- item: each field holds the result of the call that it is named for. The verdicts of the embedding
-- model are `none` where the call fails.
pub record Facts : Type 0 where
  pub source : Source
  pub cold_team : Bool
  pub forum_team : Bool
  pub reply_buyer : Bool
  pub cpa_supply : Bool
  pub geo_h1_ok : Bool
  pub payment_vertical : Bool
  pub crypto_payout_only : Bool
  pub blocked_tld : Bool
  pub boilerplate : Bool
  pub blacklisted_source : Bool
  pub intel_only_source : Bool
  pub invoice_noise : Bool
  pub non_buyer_context : Bool
  pub seller_author : Bool
  pub seller_spam : Bool
  pub is_reply : Bool
  pub reply_helper : Bool
  pub channel_broadcast : Bool
  pub hard_reject_hit : Bool
  pub aggressive_contact : Bool
  pub shadow_sampled : Bool
  pub spam_text : Bool
  pub contact_only : Bool
  pub keyword_prescan : Bool
  pub pain_verdict : Option Bool
  pub spam_verdict : Option Bool
  pub infra_pain : Bool
  pub extracted : List Contact
  pub contacts_rejected : Bool
  pub synthetic_hint : Bool
  pub cold_team_contacts : List Contact → List Contact
  pub tgweb_contacts : List Contact → List Contact
  pub webpain_contacts : List Contact → List Contact
  pub invite_without_intent : Bool
  pub agency_outreach : Bool
  pub self_broadcast : List Contact → Bool
  pub buyer_signal : Bool
  pub placeholder_hint : Bool
  pub known_forum_host : Bool
  pub github_pain_ok : Bool
  pub github_vendor_org : Bool
  pub email_without_pain : Bool
  pub strict_pain : Bool
  pub site_lpr : List Contact → Bool
  pub bad_email : String → Bool
  pub bad_domain : String → Bool
  pub role_address : String → Bool
  pub geo_blocked_domain : Bool
  pub scored : ℤ
  pub context_signal : Bool
  pub hash_id : List Contact → String
