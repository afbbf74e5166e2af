-- ===== src/Pipeline/Process/Review.antt =====
-- The review of a reserved lead (internal/pipeline/processor.go): the language model's country,
-- profile and intent, and the lookup of the mail exchanger; then the boosts of an accepted lead
-- (internal/entity/cross_source.go, internal/gemini/icp.go).
use bidshard_lead_miner.Common.{
  ℕ, Bool, true, false, not, ◌&&◌, ◌||◌, List, Option, none, some, String, if◌then◌else◌, ◌==◌, leb,
}
use bidshard_lead_miner.Common.Int.{ℤ, pos, ◌+ℤ◌, ◌-ℤ◌, ltb_ℤ}
use bidshard_lead_miner.Pipeline.Contact.{Contact, primary_email}
use bidshard_lead_miner.Pipeline.Types.{
  Config, Facts, Reason, Junk, Priority, medium, high, Screen, go, ◌>>=◌, ◌>>◌, reject_if, drop,
  drop_geo, drop_mx, is_tgweb,
}
use bidshard_lead_miner.Pipeline.Screen.{Scored, is_low, priority_from_score}
use bidshard_lead_miner.Pipeline.Process.{EntityResult, hot_rank}

pub record IcpResult : Type 0 where
  pub is_none : Bool
  pub hot : Bool

-- The answers of the services; `none` is an error. `needs_intent` is `SourceRequiresIntentGate`.
pub record Answers : Type 0 where
  pub geo_rejects : Option Bool
  pub icp : Option IcpResult
  pub needs_intent : Bool
  pub intent_accepts : Option Bool
  pub mx_ok : Bool

unfoldable pub apply_icp_to_score : ℤ → IcpResult → ℤ
apply_icp_to_score score icp =
    if icp.hot && not icp.is_none
    then score +ℤ pos 12
    else if icp.is_none && not icp.hot && ltb_ℤ (pos 0) score
    then score -ℤ pos 8
    else score

abbrev is_medium : Priority → Bool
is_medium medium = true
is_medium _ = false

abbrev pub is_high : Priority → Bool
is_high high = true
is_high _ = false

abbrev says : Option Bool → Bool → Bool
says none b = false
says (some true) b = b
says (some false) b = not b

-- `icpClassifierEnabled`
unfoldable pub icp_classifier_enabled : Config → Facts → Bool
icp_classifier_enabled p f =
    p.llm_scoring && p.has_icp && (p.icp_enabled || (p.icp_tgweb_enabled && is_tgweb f.source))

-- The score and priority that the profile gives; a lead with no profile is rejected.
unfoldable pub review_icp : Config → Facts → IcpResult → Scored → Screen Scored
review_icp p f icp s =
    let score = apply_icp_to_score s.score icp in
    let priority = priority_from_score p score in
    let misfit = icp.is_none && not icp.hot in
    do
      reject_if
          (misfit && (if is_tgweb f.source && p.icp_tgweb_enabled then true else is_low priority))
          (drop Reason.icp Junk.icp_reject)
      go (record {
        score = score;
        priority = if icp.hot && is_medium priority then high else priority;
      })

unfoldable pub maybe_icp : Config → Facts → Option IcpResult → Scored → Screen Scored
unfolding review_icp
maybe_icp p f none s = go s
maybe_icp p f (some icp) s =
    if icp_classifier_enabled p f && not (is_low s.priority) then review_icp p f icp s else go s

-- `email != ""`
abbrev is_filled : Option String → Bool
is_filled none = false
is_filled (some String.[]) = false
is_filled (some (String.◌∷◌ _ _)) = true

unfoldable pub screen_intent_mx : Config → List Contact → Answers → Scored → Screen (Unit {0})
screen_intent_mx p cs a s = do
  reject_if
      (p.llm_scoring
        && p.intent_enabled
        && a.needs_intent
        && not (is_low s.priority)
        && says a.intent_accepts false)
      (drop Reason.intent Junk.intent_reject)
  reject_if (not (is_low s.priority) && is_filled (primary_email cs) && p.has_mx && not a.mx_ok)
      drop_mx

unfoldable pub review : Config → Facts → List Contact → Answers → Scored → Screen Scored
review p f cs a s = do
  reject_if (p.llm_scoring && p.geo_enabled && not (is_low s.priority) && says a.geo_rejects true)
      (drop_geo Junk.geo_gemini_reject)
  s' ← maybe_icp p f a.icp s
  screen_intent_mx p cs a s'
  go s'

-- `ApplyCrossSourceHotBoost`, with the registry set.
unfoldable pub cross_source_hot_boost : Config → ℕ → Scored → Scored
cross_source_hot_boost p boost s =
    let score = s.score +ℤ pos (if boost == 0 then 20 else boost) in
    let priority = priority_from_score p score in
    record { score = score; priority = if is_medium priority then high else priority }

-- The boost of an accepted lead by the heat of its entity, or by its sources.
unfoldable pub entity_boost : Config → EntityResult → Scored → Scored
unfolding cross_source_hot_boost
entity_boost p r s =
    if p.entity_heat_enabled
    then (if leb hot_rank r.heat_rank then cross_source_hot_boost p r.heat_boost s else s)
    else if p.cross_source_hot && r.cross_source_hot
    then cross_source_hot_boost p p.cross_source_boost s
    else s

-- The variable `priority` after the boost: where the heat is on it follows the lead only if the
-- result says that the entity is hot across sources.
unfoldable pub boosted_priority : Config → EntityResult → Scored → Priority
boosted_priority p r s =
    let boosted = entity_boost p r s in
    if p.entity_heat_enabled
    then (if r.cross_source_hot then boosted.priority else s.priority)
    else boosted.priority
