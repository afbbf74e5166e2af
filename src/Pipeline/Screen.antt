-- ===== src/Pipeline/Screen.antt =====
-- The gates of `Processor.Process` (internal/pipeline/processor.go) up to the hash of the lead, in
-- the order of the code, as functions of the settings and of what the classifiers say.
pub mod Laws
use bidshard_lead_miner.Common.{
  Bool, true, false, not, ◌&&◌, ◌||◌, List, Option, none, some, String, if◌then◌else◌,
}
use bidshard_lead_miner.Common.Int.{ℤ, pos, ltb_ℤ, leb_ℤ}
use bidshard_lead_miner.Pipeline.Contact.{
  Contact, has_reachable_contact, has_enrichable_identity, has_email_or_skype,
  has_forum_user_contact, serp_forum_snippet_only, serp_has_reachable_contact, has_email_contact,
  has_direct_messenger_contact, only_role_emails, blacklist_contact, is_empty,
}
use bidshard_lead_miner.Pipeline.Types.{
  Config, Facts, Source, Reason, Junk, Priority, Rejection, Screen, stop, go, ◌>>=◌, ◌>>◌,
  reject_if, drop, drop_geo, drop_hard, no_outcome, is_telegram, is_tgweb, is_lander, is_serp,
  is_webpain, is_discord, is_forum, is_fixture, low, medium, high,
}

abbrev pub reply_thread_buyer : Facts → Bool
reply_thread_buyer f = is_telegram f.source && f.reply_buyer

-- From the fixtures to the sources that are for intelligence only.
unfoldable pub screen_source : Facts → Screen (Unit {0})
screen_source f = do
  reject_if (is_fixture f.source) (record { outcome = no_outcome; junk = none })
  reject_if (is_telegram f.source && f.cpa_supply) (drop Reason.intel_only Junk.intent_reject)
  reject_if (not f.geo_h1_ok) (drop_geo Junk.geo_reject)
  reject_if f.payment_vertical (drop Reason.payment Junk.context_drop)
  reject_if f.crypto_payout_only (drop Reason.payment Junk.context_drop)
  reject_if (is_tgweb f.source && f.blocked_tld) (drop_geo Junk.geo_reject)
  reject_if (is_tgweb f.source && f.boilerplate) (drop Reason.lang Junk.lang_reject)
  reject_if (is_lander f.source && f.blacklisted_source) (drop Reason.blacklist Junk.blacklisted)
  reject_if (is_serp f.source && f.blacklisted_source) (drop Reason.blacklist Junk.blacklisted)
  reject_if f.intel_only_source (drop Reason.intel_only Junk.intent_reject)

-- From the boilerplate of crawled pages to the broadcasts of channels.
unfoldable pub screen_context : Facts → Screen (Unit {0})
screen_context f = do
  reject_if ((is_lander f.source || is_webpain f.source) && f.boilerplate)
      (drop Reason.lang Junk.lang_reject)
  reject_if (is_discord f.source && f.invoice_noise) (drop Reason.context Junk.context_drop)
  reject_if (not f.cold_team && not f.forum_team && f.non_buyer_context)
      (drop Reason.context Junk.context_drop)
  reject_if f.seller_author (drop Reason.author_seller Junk.context_drop)
  reject_if f.seller_spam (drop_hard Reason.instant_drop (some Junk.hard_rejected))
  reject_if (is_telegram f.source && f.is_reply && f.reply_helper)
      (drop Reason.telegram_spam Junk.spam)
  reject_if (is_telegram f.source && not f.cold_team && f.channel_broadcast)
      (drop Reason.telegram_spam Junk.spam)

-- A phrase of the hard-reject list; a sample of these is captured as junk.
abbrev hard_reject_gate : Config → Facts → Screen (Unit {0})
hard_reject_gate p f =
    reject_if (f.hard_reject_hit && not (is_tgweb f.source && f.aggressive_contact)) (
      drop_hard Reason.hard_reject
        (if p.hard_reject_shadow && f.shadow_sampled then some Junk.hard_reject_shadow else none))

-- The hard rejects and the spam rules.
unfoldable pub screen_spam : Config → Facts → Screen (Unit {0})
screen_spam p f = do
  hard_reject_gate p f
  reject_if (f.spam_text && not (reply_thread_buyer f)) (drop Reason.telegram_spam Junk.spam)
  reject_if (is_telegram f.source && f.contact_only) (drop Reason.telegram_spam Junk.spam)

abbrev is_some_true : Option Bool → Bool
is_some_true none = false
is_some_true (some b) = b

-- The prescan: by keywords, by the source, and by the embedding model where it is on.
unfoldable pub screen_prescan : Config → Facts → Screen (Unit {0})
screen_prescan p f =
    let by_keywords = f.keyword_prescan || (p.aggressive_prescan && f.aggressive_contact) in
    let embeds = p.prescan_enabled && p.llm_scoring in
    let passes = by_keywords || (embeds && is_some_true f.pain_verdict) in
    let bypasses = f.infra_pain || reply_thread_buyer f || f.cold_team || f.forum_team in
    do
      reject_if (embeds && by_keywords && is_telegram f.source && is_some_true f.spam_verdict)
          (drop Reason.telegram_spam Junk.embed_spam)
      reject_if (not (passes || bypasses)) (drop Reason.low_priority Junk.keyword_prescan)

-- `telegramColdTeamContacts`, at a Telegram source.
abbrev pub telegram_contacts : Facts → List Contact
telegram_contacts f =
    if is_telegram f.source && f.cold_team then f.cold_team_contacts f.extracted else f.extracted

-- The gates of one source family on the extracted contacts.
unfoldable pub screen_family : Facts → List Contact → Screen (Unit {0})
screen_family f cs = do
  reject_if f.synthetic_hint (drop Reason.synthetic_contact Junk.contact_reject)
  reject_if (is_telegram f.source && f.invite_without_intent) (drop Reason.telegram_spam Junk.spam)
  reject_if (is_telegram f.source && f.agency_outreach) (drop Reason.telegram_spam Junk.spam)
  reject_if (is_telegram f.source && f.self_broadcast cs) (drop Reason.telegram_spam Junk.spam)
  reject_if (is_telegram f.source && not f.reply_buyer && not f.cold_team && not f.buyer_signal)
      (drop Reason.telegram_no_buyer_voice Junk.keyword_prescan)
  reject_if (is_lander f.source && not (has_email_or_skype cs))
      (drop Reason.contact Junk.contact_reject)
  reject_if (is_lander f.source && not f.buyer_signal)
      (drop Reason.lander_no_buyer_signal Junk.keyword_prescan)
  reject_if (is_serp f.source && not f.buyer_signal)
      (drop Reason.serp_no_buyer_signal Junk.keyword_prescan)
  reject_if (is_serp f.source && not (serp_has_reachable_contact f.placeholder_hint cs))
      (drop Reason.no_reachable_contact Junk.unreachable)
  reject_if (is_serp f.source && serp_forum_snippet_only f.known_forum_host cs)
      (drop Reason.serp_forum_snippet Junk.contact_reject)
  reject_if (is_forum f.source && not f.forum_team && not (has_forum_user_contact cs))
      (drop Reason.forum_no_user_contact Junk.contact_reject)
  reject_if (not f.github_pain_ok) (
      drop (if f.github_vendor_org then Reason.github_vendor else Reason.low_priority)
        Junk.keyword_prescan)

-- The contacts that the site crawls keep.
abbrev pub site_contacts : Facts → List Contact → List Contact
site_contacts f cs =
    if is_tgweb f.source
    then f.tgweb_contacts cs
    else if is_webpain f.source
    then f.webpain_contacts cs
    else cs

unfoldable pub tgweb_email_allowed : Config → Facts → List Contact → Bool
tgweb_email_allowed p f cs =
    if has_direct_messenger_contact cs
    then f.strict_pain
    else p.aggressive_prescan
      && (if f.site_lpr cs then f.strict_pain else f.aggressive_contact && f.strict_pain)

-- The gates on the contacts that are left.
unfoldable pub screen_reachable : Config → Facts → List Contact → Screen (Unit {0})
screen_reachable p f cs = do
  reject_if f.contacts_rejected (drop Reason.contact Junk.contact_reject)
  reject_if (is_empty cs) (drop Reason.no_contacts Junk.contactless)
  reject_if
      (has_email_contact cs
        && f.email_without_pain
        && not (is_tgweb f.source && tgweb_email_allowed p f cs))
      (drop Reason.email_no_context Junk.email_contextless)
  reject_if (blacklist_contact f.bad_email f.bad_domain cs) (drop Reason.blacklist Junk.blacklisted)
  reject_if (only_role_emails f.role_address cs) (drop Reason.role_email Junk.role_mail)
  reject_if (not (has_reachable_contact cs) && not (has_enrichable_identity cs))
      (drop Reason.no_reachable_contact Junk.unreachable)
  reject_if (p.has_enricher && f.geo_blocked_domain) (drop_geo Junk.geo_reject)

unfoldable pub priority_from_score : Config → ℤ → Priority
priority_from_score p score =
    if leb_ℤ p.high_min score then high else if leb_ℤ p.medium_min score then medium else low

-- A score and the priority that goes with it.
pub record Scored : Type 0 where
  pub score : ℤ
  pub priority : Priority

abbrev pub is_low : Priority → Bool
is_low low = true
is_low _ = false

-- A floor lifts a score below the threshold to it; `floored` then gives the priority.
abbrev lift : Bool → Config → (ℤ → Priority) → Scored → Scored
lift test p floored s =
    if is_low s.priority && test && ltb_ℤ s.score p.medium_min
    then record { score = p.medium_min; priority = floored p.medium_min }
    else s

abbrev pub team : Facts → Bool
team f = f.cold_team || f.forum_team

-- The score of a hiring team is the threshold, any other is that of the keywords.
abbrev first_score : Config → Facts → Scored
first_score p f =
    let score = if team f then p.medium_min else f.scored in
    record { score = score; priority = priority_from_score p score }

-- The four floors, in order.
unfoldable pub score_floors : Config → Facts → List Contact → Scored
score_floors p f cs =
    let by_score = priority_from_score p in
    let s₁ =
      lift (p.aggressive_prescan && is_tgweb f.source && f.site_lpr cs && f.strict_pain) p by_score
        (first_score p f) in
    let s₂ = lift f.context_signal p (λ _. medium) s₁ in
    let s₃ = lift (reply_thread_buyer f) p by_score s₂ in lift (team f) p by_score s₃

abbrev pub min_score : Config → Facts → ℤ
min_score p f = if is_telegram f.source then p.telegram_accept_min_score else p.accept_min_score

-- The gates on the score.
unfoldable pub screen_score : Config → Facts → Scored → Screen (Unit {0})
screen_score p f s = do
  reject_if
      (not (is_low s.priority) && ltb_ℤ (pos 0) (min_score p f) && ltb_ℤ s.score (min_score p f))
      (drop Reason.low_priority Junk.low_score)
  reject_if (is_low s.priority) (drop Reason.low_priority Junk.low_score)

-- What the gates leave of an item: its contacts, its score, and its hash.
pub record Draft : Type 0 where
  pub contacts : List Contact
  pub scored : Scored
  pub hash_id : String

unfoldable pub screen : Config → Facts → Screen Draft
screen p f =
    let found = telegram_contacts f in
    let contacts = site_contacts f found in
    let scored = score_floors p f contacts in
    do
      screen_source f
      screen_context f
      screen_spam p f
      screen_prescan p f
      screen_family f found
      screen_reachable p f contacts
      screen_score p f scored
      go (record { contacts = contacts; scored = scored; hash_id = f.hash_id contacts })
