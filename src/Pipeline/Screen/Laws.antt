-- ===== src/Pipeline/Screen/Laws.antt =====
-- What the gates of `Processor.Process` promise (internal/pipeline/processor.go).
use bidshard_lead_miner.Common.{Bool, true, false, List, Option, none, some, ◌≡◌, arith}
use bidshard_lead_miner.Common.Int.{pos, ltb_ℤ}
use bidshard_lead_miner.Pipeline.Contact.{Contact}
use bidshard_lead_miner.Pipeline.Types.{
  Config, Facts, Reason, Junk, Rejection, Screen, stop, go, ◌>>=◌, drop,
}
use bidshard_lead_miner.Pipeline.Screen.{
  Scored, screen_source, screen_context, screen_spam, screen_prescan, screen_family,
  screen_reachable, screen_score, score_floors, screen, min_score, team, telegram_contacts,
  site_contacts,
}

-- Which junk a rejection for a reason may capture.
pub fits : Option Reason → Option Junk → Bool
fits none none = true
fits (some Reason.hard_reject) none = true
fits (some Reason.hard_reject) (some Junk.hard_reject_shadow) = true
fits (some Reason.instant_drop) (some Junk.hard_rejected) = true
fits (some Reason.intel_only) (some Junk.intent_reject) = true
fits (some Reason.geo) (some Junk.geo_reject) = true
fits (some Reason.payment) (some Junk.context_drop) = true
fits (some Reason.context) (some Junk.context_drop) = true
fits (some Reason.author_seller) (some Junk.context_drop) = true
fits (some Reason.lang) (some Junk.lang_reject) = true
fits (some Reason.blacklist) (some Junk.blacklisted) = true
fits (some Reason.telegram_spam) (some Junk.spam) = true
fits (some Reason.telegram_spam) (some Junk.embed_spam) = true
fits (some Reason.low_priority) (some Junk.keyword_prescan) = true
fits (some Reason.low_priority) (some Junk.low_score) = true
fits (some Reason.github_vendor) (some Junk.keyword_prescan) = true
fits (some Reason.telegram_no_buyer_voice) (some Junk.keyword_prescan) = true
fits (some Reason.lander_no_buyer_signal) (some Junk.keyword_prescan) = true
fits (some Reason.serp_no_buyer_signal) (some Junk.keyword_prescan) = true
fits (some Reason.synthetic_contact) (some Junk.contact_reject) = true
fits (some Reason.contact) (some Junk.contact_reject) = true
fits (some Reason.serp_forum_snippet) (some Junk.contact_reject) = true
fits (some Reason.forum_no_user_contact) (some Junk.contact_reject) = true
fits (some Reason.no_reachable_contact) (some Junk.unreachable) = true
fits (some Reason.no_contacts) (some Junk.contactless) = true
fits (some Reason.email_no_context) (some Junk.email_contextless) = true
fits (some Reason.role_email) (some Junk.role_mail) = true
fits _ _ = false

abbrev is_geo : Option Reason → Bool
is_geo (some Reason.geo) = true
is_geo _ = false

abbrev is_hard : Option Reason → Bool
is_hard (some Reason.hard_reject) = true
is_hard (some Reason.instant_drop) = true
is_hard _ = false

-- A rejection by a gate: the flags agree with the reason, the junk fits it, and nothing of an
-- accepted or known lead is set.
pub record IsCoherent (r : Rejection) : Type 0 where
  pub refused : r.outcome.accepted ≡ false
  pub geo_flag : r.outcome.rejected_geo ≡ is_geo r.outcome.reject_reason
  pub hard_flag : r.outcome.hard_rejected ≡ is_hard r.outcome.reject_reason
  pub new : r.outcome.dedup_hit ≡ false
  pub no_mx : r.outcome.dropped_mx ≡ false
  pub no_lead : r.outcome.lead ≡ none
  pub captured : fits r.outcome.reject_reason r.junk ≡ true

-- Every way to stop has a property.
abbrev pub Stops {ℓ} : {A : Type ℓ} → (Rejection → Type 0) → Screen A → Type 0
Stops P (stop r) = P r
Stops P (go a) = Unit {0}

pub Stops->>= {ℓ κ} :
    {A : Type ℓ} {B : Type κ} (P : Rejection → Type 0) (m : Screen A) (f : A → Screen B)
    → Stops P m
    → ((a : A) → Stops P (f a))
    → Stops P (m >>= f)
Stops->>= P (stop r) f h k = h
Stops->>= P (go a) f h k = k a

screen_source-IsCoherent : (f : Facts) → Stops IsCoherent (screen_source f)
unfolding screen_source fits
screen_source-IsCoherent f = ground arith

screen_context-IsCoherent : (f : Facts) → Stops IsCoherent (screen_context f)
unfolding screen_context fits
screen_context-IsCoherent f = ground arith

screen_spam-IsCoherent : (p : Config) (f : Facts) → Stops IsCoherent (screen_spam p f)
unfolding screen_spam fits
screen_spam-IsCoherent p f = ground arith

screen_prescan-IsCoherent : (p : Config) (f : Facts) → Stops IsCoherent (screen_prescan p f)
unfolding screen_prescan fits
screen_prescan-IsCoherent p f = ground arith

screen_family-IsCoherent : (f : Facts) (cs : List Contact) → Stops IsCoherent (screen_family f cs)
unfolding screen_family fits
screen_family-IsCoherent f cs = ground arith

screen_reachable-IsCoherent :
    (p : Config) (f : Facts) (cs : List Contact) → Stops IsCoherent (screen_reachable p f cs)
unfolding screen_reachable fits
screen_reachable-IsCoherent p f cs = ground arith

screen_score-IsCoherent :
    (p : Config) (f : Facts) (s : Scored) → Stops IsCoherent (screen_score p f s)
unfolding screen_score fits
screen_score-IsCoherent p f s = ground arith

-- Whatever gate stops an item, the outcome is a refusal whose flags agree with its reason, and the
-- junk that is captured is the one that goes with the reason.
pub screen-IsCoherent : (p : Config) (f : Facts) → Stops IsCoherent (screen p f)
unfolding screen
screen-IsCoherent p f =
    let found = telegram_contacts f in
    let contacts = site_contacts f found in
    Stops->>= IsCoherent (screen_source f) _ (screen_source-IsCoherent f) λ _.
      Stops->>= IsCoherent (screen_context f) _ (screen_context-IsCoherent f) λ _.
        Stops->>= IsCoherent (screen_spam p f) _ (screen_spam-IsCoherent p f) λ _.
          Stops->>= IsCoherent (screen_prescan p f) _ (screen_prescan-IsCoherent p f) λ _.
            Stops->>= IsCoherent (screen_family f found) _ (screen_family-IsCoherent f found) λ _.
              Stops->>= IsCoherent (screen_reachable p f contacts) _
                (screen_reachable-IsCoherent p f contacts)
                λ _.
                  Stops->>= IsCoherent (screen_score p f _) _ (screen_score-IsCoherent p f _)
                    λ _. tt

-- A score that a floor has lifted is the threshold of the medium priority.
score_floors-team :
    (p : Config) (f : Facts) (cs : List Contact)
    → team f ≡ true
    → (score_floors p f cs).score ≡ p.medium_min
unfolding score_floors
score_floors-team p f cs h = ground arith

-- The defect: where a minimal score for accepting is set and is above the threshold of the medium
-- priority, every hiring team is refused for its score, whatever it writes.
pub team_never_passes :
    (p : Config) (f : Facts) (cs : List Contact)
    → team f ≡ true
    → ltb_ℤ (pos 0) (min_score p f) ≡ true
    → ltb_ℤ p.medium_min (min_score p f) ≡ true
    → screen_score p f (score_floors p f cs) ≡ stop (drop Reason.low_priority Junk.low_score)
unfolding screen_score
team_never_passes p f cs h a b = ground (arith, score_floors-team p f cs h)
