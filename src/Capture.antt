-- ===== src/Capture.antt =====
-- The queue of captured events (internal/queue/capturer.go): a channel that is sent to without
-- blocking, and a count of what it had no room for.
pub mod Laws
mod Tests
use bidshard_lead_miner.Common.{
  ℕ, suc, Bool, true, false, List, [], ◌∷◌, ◌++◌, Option, none, some, if◌then◌else◌, ltb, ◌==◌,
  length,
}

-- `channel` holds the events that wait, the earliest first; `buffer` is its capacity.
pub record Capturer {ℓ} (A : Type ℓ) : Type ℓ where
  pub channel : List A
  pub buffer : ℕ
  pub dropped_count : ℕ
  pub prep : Option (A → A)

module _ {ℓ} {A : Type ℓ} where
  unfoldable pub new_capturer : ℕ → ℕ → Option (A → A) → Capturer A
  new_capturer buffer default_buffer prep = record {
    channel = [];
    buffer = if buffer == 0 then default_buffer else buffer;
    dropped_count = 0;
    prep = prep;
  }

  abbrev pub prepared : Option (A → A) → A → A
  prepared none ev = ev
  prepared (some f) ev = f ev

  -- The choice of the `select`: there is room, or there is none.
  unfoldable pub offered : Capturer A → A → Capturer A
  offered c ev =
      if ltb (length c.channel) c.buffer
      then record c { channel = c.channel ++ ev ∷ [] }
      else record c { dropped_count = suc c.dropped_count }

  -- `TryCapture`; the nil capturer does nothing.
  unfoldable pub try_capture : Option (Capturer A) → A → Option (Capturer A)
  try_capture none ev = none
  try_capture (some c) ev = some (offered c (prepared c.prep ev))

  unfoldable pub dropped : Option (Capturer A) → ℕ
  dropped none = 0
  dropped (some c) = c.dropped_count

  -- A receive from `Events`; `none` is a receive that blocks.
  unfoldable pub receive : Capturer A → Option (A × Capturer A)
  receive c = elim c.channel [ [] ↦ none | ev ∷ rest ↦ some (ev, record c { channel = rest }) ]
