-- ===== src/Entity/Heat.antt =====
-- The heat of a document (internal/entity/heat.go), and whether it is hot on several sources
-- (internal/entity/cross_source.go). The operations of the floats are a parameter.
use bidshard_lead_miner.Common.{
  ℕ, ◌+◌, ◌-◌, ◌*◌, Bool, true, false, not, ◌&&◌, ◌||◌, List, [], ◌∷◌, ◌++◌, String,
  string_discrete, ite, ltb, leb, ◌==◌, if◌then◌else◌, length,
}
use bidshard_lead_miner.Common.Int.{ℤ, pos, negsuc, leb_ℤ}
use bidshard_lead_miner.Common.Text.{is_empty}
use bidshard_lead_miner.Entity.{Env, EntitySighting, EntityDoc, contains_string}
use bidshard_lead_miner.Entity.Sighting.{source_family, sighting_event_time_of}

abbrev pub day : ℕ
day = 24 * (3600 * 1000000000)

-- A duration that is not positive is 0 here, and replaced by its default.
pub record HeatConfig (F : Type 0) : Type 0 where
  pub enabled : Bool
  pub blazing_threshold : F
  pub hot_threshold : F
  pub warm_threshold : F
  pub decay_7d : F
  pub decay_30d : F
  pub decay_90d : F
  pub decay_beyond : F
  pub unknown_date_decay : F
  pub fresh_window : ℕ
  pub canonical_window : ℕ
  pub hot_boost : ℤ
  pub blazing_boost : ℤ
  pub warm_boost : ℤ

unfoldable pub heat_tier_rank : String → ℕ
heat_tier_rank tier = ite (string_discrete tier "blazing") 4 (
    ite (string_discrete tier "hot") 3
      (ite (string_discrete tier "warm") 2 (ite (string_discrete tier "cold") 1 0)))

unfoldable pub heat_boost_for_tier : {F : Type 0} → String → HeatConfig F → ℤ
heat_boost_for_tier tier cfg = ite (string_discrete tier "blazing") cfg.blazing_boost (
    ite (string_discrete tier "hot") cfg.hot_boost
      (ite (string_discrete tier "warm") cfg.warm_boost (pos 0)))

-- The age of a sighting, and whether it is unknown when it was posted.
unfoldable pub sighting_age : EntitySighting → ℕ → ℕ × Bool
sighting_age s now =
    if not (s.posted_at == 0)
    then (now - s.posted_at, false)
    else if not (s.seen_at == 0)
    then (now - s.seen_at, true)
    else (0, true)

unfoldable pub sighting_has_pain : EntitySighting → Bool
sighting_has_pain s = not (length s.matched == 0) || leb_ℤ (pos 15) s.score

-- A time that is there and not before `now.Add(-window)`.
unfoldable pub is_recent : ℕ → ℕ → ℕ → Bool
is_recent window now event = not (event == 0) && not (ltb (event + window) now)

fresh_loop : ℕ → ℕ → ℕ → List EntitySighting → ℕ
fresh_loop window now fresh [] = fresh
fresh_loop window now fresh (s ∷ rows) =
    let event = sighting_event_time_of s in
    fresh_loop window now (if is_recent window now event && ltb fresh event then event else fresh)
      rows

unfoldable pub compute_fresh_sighting_at : List EntitySighting → ℕ → ℕ → ℕ
unfolding fresh_loop is_recent sighting_event_time_of
compute_fresh_sighting_at rows now window =
    fresh_loop (if window == 0 then 14 * day else window) now 0 rows

abbrev positive_or : ℕ → ℕ → ℕ
positive_or n default = if n == 0 then default else n

abbrev positive_or_ℤ : ℤ → ℤ → ℤ
positive_or_ℤ n default = if leb_ℤ n (pos 0) then default else n

module _ {F : Type 0} (e : Env F) where
  abbrev pub nat : ℕ → F
  nat n = e.literal (pos n) 1

  unfoldable pub default_heat_config : HeatConfig F
  default_heat_config = record {
    enabled = true;
    blazing_threshold = nat 80;
    hot_threshold = nat 50;
    warm_threshold = nat 25;
    decay_7d = nat 1;
    decay_30d = e.literal (pos 6) 10;
    decay_90d = e.literal (pos 25) 100;
    decay_beyond = e.literal (pos 1) 10;
    unknown_date_decay = e.literal (pos 5) 10;
    fresh_window = 14 * day;
    canonical_window = 14 * day;
    hot_boost = pos 20;
    blazing_boost = pos 30;
    warm_boost = pos 5;
  }

  unfoldable pub positive_float_or : F → F → F
  positive_float_or x default = if e.less_eq x (nat 0) then default else x

  unfoldable pub normalize_heat_config : HeatConfig F → HeatConfig F
  unfolding default_heat_config positive_float_or
  normalize_heat_config cfg =
      let def = default_heat_config in
      record {
        enabled = cfg.enabled;
        blazing_threshold = positive_float_or cfg.blazing_threshold def.blazing_threshold;
        hot_threshold = positive_float_or cfg.hot_threshold def.hot_threshold;
        warm_threshold = positive_float_or cfg.warm_threshold def.warm_threshold;
        decay_7d = positive_float_or cfg.decay_7d def.decay_7d;
        decay_30d = positive_float_or cfg.decay_30d def.decay_30d;
        decay_90d = positive_float_or cfg.decay_90d def.decay_90d;
        decay_beyond = positive_float_or cfg.decay_beyond def.decay_beyond;
        unknown_date_decay = positive_float_or cfg.unknown_date_decay def.unknown_date_decay;
        fresh_window = positive_or cfg.fresh_window def.fresh_window;
        canonical_window = positive_or cfg.canonical_window def.canonical_window;
        hot_boost = positive_or_ℤ cfg.hot_boost def.hot_boost;
        blazing_boost = positive_or_ℤ cfg.blazing_boost def.blazing_boost;
        warm_boost = positive_or_ℤ cfg.warm_boost def.warm_boost;
      }

  abbrev cap_at_50 : F → F
  cap_at_50 x = if e.less (nat 50) x then nat 50 else x

  unfoldable pub pain_weight : EntitySighting → F
  pain_weight s =
      let given = e.literal s.score 1 in
      let has_matches = not (length s.matched == 0) in
      let base = if e.less_eq given (nat 0) && has_matches then nat 30 else given in
      if e.less_eq base (nat 0)
      then nat 0
      else let capped = cap_at_50 base in
        if has_matches then cap_at_50 (e.mul capped (e.literal (pos 12) 10)) else capped

  unfoldable pub recency_decay : ℕ → Bool → HeatConfig F → F
  recency_decay age unknown_date cfg =
      let d =
        if leb age (7 * day)
        then cfg.decay_7d
        else if leb age (30 * day)
        then cfg.decay_30d
        else if leb age (90 * day)
        then cfg.decay_90d
        else cfg.decay_beyond in
      if unknown_date && e.less cfg.unknown_date_decay d then cfg.unknown_date_decay else d

  unfoldable pub sighting_weight : EntitySighting → HeatConfig F → ℕ → F
  unfolding pain_weight recency_decay sighting_age
  sighting_weight s cfg now =
      let pw = pain_weight s in
      let (age, unknown) = sighting_age s now in
      if e.less_eq pw (nat 0) then nat 0 else e.mul pw (recency_decay age unknown cfg)

  sum_loop : HeatConfig F → ℕ → F → List EntitySighting → F
  sum_loop cfg now sum [] = sum
  sum_loop cfg now sum (s ∷ rows) = sum_loop cfg now (e.add sum (sighting_weight s cfg now)) rows

  abbrev add_family : List String → String → List String
  add_family families family =
      if is_empty family || contains_string families family
      then families
      else families ++ family ∷ []

  -- The families of the painful sightings of the last thirty days, each once.
  recent_families : ℕ → List String → List EntitySighting → List String
  recent_families now families [] = families
  recent_families now families (s ∷ rows) =
      let family = if is_empty s.family then source_family e s.source else s.family in
      recent_families now
        (if sighting_has_pain s && is_recent (30 * day) now (sighting_event_time_of s)
          then add_family families family
          else families)
        rows

  unfoldable pub diversity_bonus : List EntitySighting → ℕ → F
  unfolding recent_families sighting_has_pain is_recent sighting_event_time_of source_family
  diversity_bonus rows now =
      let count = length (recent_families now [] rows) in
      if leb count 1
      then nat 1
      else if count == 2
      then e.literal (pos 13) 10
      else e.literal (pos 15) 10

  unfoldable pub classify_heat_tier : F → EntityDoc F → HeatConfig F → String
  classify_heat_tier score doc cfg =
      let on_several =
        not (doc.fresh_sighting_at == 0) && leb 2 doc.source_count && leb 1 doc.pain_hits in
      if e.less_eq cfg.blazing_threshold score && on_several
      then "blazing"
      else if e.less_eq cfg.hot_threshold score && on_several
      then "hot"
      else if e.less_eq cfg.warm_threshold score
      then "warm"
      else "cold"

  -- The hash of the heaviest recent sighting, with its weight; the first of equals.
  unfoldable pub best_loop : HeatConfig F → ℕ → String → F → List EntitySighting → String
  best_loop cfg now best weight [] = best
  best_loop cfg now best weight (s ∷ rows) =
      let w = sighting_weight s cfg now in
      let better =
        is_recent cfg.canonical_window now (sighting_event_time_of s) && e.less weight w in
      best_loop cfg now (if better then s.hash_id else best) (if better then w else weight) rows

  unfoldable pub promote_canonical_by_heat : EntityDoc F → HeatConfig F → ℕ → EntityDoc F
  unfolding best_loop sighting_weight is_recent sighting_event_time_of
  promote_canonical_by_heat doc cfg now =
      let best = best_loop cfg now "" (e.literal (negsuc 0) 1) doc.sightings in
      record doc { canonical_hash = if is_empty best then doc.canonical_hash else best }

  -- `clock` is the time that is taken where `now` is zero.
  unfoldable pub recompute_entity_heat : EntityDoc F → HeatConfig F → ℕ → ℕ → EntityDoc F
  unfolding normalize_heat_config compute_fresh_sighting_at sum_loop diversity_bonus
      classify_heat_tier promote_canonical_by_heat sighting_weight
  recompute_entity_heat doc given now clock =
      if not given.enabled
      then doc
      else let now' = if now == 0 then clock else now in
        let cfg = normalize_heat_config given in
        let fresh = compute_fresh_sighting_at doc.sightings now' cfg.fresh_window in
        let sum = sum_loop cfg now' (nat 0) doc.sightings in
        let score = e.mul sum (diversity_bonus doc.sightings now') in
        let doc' = record doc { fresh_sighting_at = fresh; heat_score = score } in
        promote_canonical_by_heat
          (record doc' {
            heat_score_round = e.round score;
            heat_tier = classify_heat_tier score doc' cfg;
            last_heat_at = now';
          })
          cfg now'

-- Whether a document is hot on several sources, by its tier or by its counters.
unfoldable pub cross_source_hot : {F : Type 0} → EntityDoc F → ℕ → Bool
unfolding heat_tier_rank
cross_source_hot doc window =
    if not (is_empty doc.heat_tier)
    then leb (heat_tier_rank "hot") (heat_tier_rank doc.heat_tier)
    else if ltb doc.source_count 2 || ltb doc.pain_hits 1
    then false
    else if doc.first_seen == 0 || doc.last_seen == 0
    then false
    else leb doc.last_seen (doc.first_seen + (if window == 0 then 7 * day else window))
