-- ===== src/Pipeline/Process/Refusals.antt =====
-- The refusals of the review (internal/pipeline/processor.go).
use bidshard_lead_miner.Common.{Bool, true, false, List, Option, none, some, ◌≡◌, refl, arith}
use bidshard_lead_miner.Pipeline.Types.{Config, Facts, Rejection, reject_if}
use bidshard_lead_miner.Pipeline.Contact.{Contact}
use bidshard_lead_miner.Pipeline.Screen.{Scored}
use bidshard_lead_miner.Pipeline.Screen.Laws.{Stops, Stops->>=}
use bidshard_lead_miner.Pipeline.Process.Review.{
  IcpResult, Answers, review, maybe_icp, review_icp, screen_intent_mx,
}

abbrev pub Refusal : Rejection → Type 0
Refusal r = (r.outcome.accepted ≡ false) × (r.outcome.lead ≡ none)

pub maybe_icp-Refusal :
    (p : Config) (f : Facts) (icp : Option IcpResult) (s : Scored)
    → Stops Refusal (maybe_icp p f icp s)
unfolding maybe_icp review_icp
maybe_icp-Refusal p f none s = tt
maybe_icp-Refusal p f (some icp) s = ground arith

pub screen_intent_mx-Refusal :
    (p : Config) (cs : List Contact) (a : Answers) (s : Scored)
    → Stops Refusal (screen_intent_mx p cs a s)
unfolding screen_intent_mx
screen_intent_mx-Refusal p cs a s = ground arith

pub reject_if-Refusal : (b : Bool) (r : Rejection) → Refusal r → Stops Refusal (reject_if b r)
reject_if-Refusal true r h = h
reject_if-Refusal false r h = tt

pub review-Refusal :
    (p : Config) (f : Facts) (cs : List Contact) (a : Answers) (s : Scored)
    → Stops Refusal (review p f cs a s)
unfolding review
review-Refusal p f cs a s =
    Stops->>= Refusal (reject_if _ _) _ (reject_if-Refusal _ _ (refl, refl)) λ _.
      Stops->>= Refusal (maybe_icp p f a.icp s) _ (maybe_icp-Refusal p f a.icp s) λ s'.
        Stops->>= Refusal (screen_intent_mx p cs a s') _ (screen_intent_mx-Refusal p cs a s')
          λ _. tt
