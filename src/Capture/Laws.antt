-- ===== src/Capture/Laws.antt =====
-- The events that a capturer was given, against those that its reader gets
-- (internal/queue/capturer.go).
use bidshard_lead_miner.Common.{
  ℕ, ◌+◌, ◌≤◌, ◌≡◌, refl, sym, ap, ◌∙◌, List, [], ◌∷◌, ◌++◌, Option, none, some, ltb, length,
  append_nil, append_assoc, length-append, arith, if-cases,
}
use bidshard_lead_miner.Capture.{Capturer, new_capturer, prepared, offered, try_capture, receive}

-- A capture, or a turn of the reader, which takes the next event if there is one.
pub data Action {ℓ} (A : Type ℓ) : Type ℓ where
  capture : A → Action A
  read : Action A

-- The capturer, and what its reader got, the earliest first.
pub record Run {ℓ} (A : Type ℓ) : Type ℓ where
  pub capturer : Option (Capturer A)
  pub got : List A

-- The first list is the second without some of its elements.
pub data Within {ℓ} {A : Type ℓ} : List A → List A → Type ℓ where
  nothing : Within [] []
  skip : {xs ys : List A} (y : A) → Within xs ys → Within xs (y ∷ ys)
  keep : {xs ys : List A} (x : A) → Within xs ys → Within (x ∷ xs) (x ∷ ys)

module _ {ℓ} {A : Type ℓ} where
  abbrev received : Run A → Option (A × Capturer A) → Run A
  received s none = s
  received s (some (ev, c)) = record { capturer = some c; got = s.got ++ ev ∷ [] }

  abbrev readable : Option (Capturer A) → Option (A × Capturer A)
  readable none = none
  readable (some c) = receive c

  unfoldable pub turn : Run A → Action A → Run A
  turn s (capture ev) = record s { capturer = try_capture s.capturer ev }
  turn s read = received s (readable s.capturer)

  unfoldable pub run : Run A → List (Action A) → Run A
  run s [] = s
  run s (a ∷ rest) = run (turn s a) rest

  -- The events of the captures, after the preparation.
  unfoldable pub events_of : Option (A → A) → List (Action A) → List A
  events_of prep [] = []
  events_of prep (capture ev ∷ rest) = prepared prep ev ∷ events_of prep rest
  events_of prep (read ∷ rest) = events_of prep rest

  Within-skip_last : {xs ys : List A} (y : A) → Within xs ys → Within xs (ys ++ y ∷ [])
  Within-skip_last y nothing = skip y nothing
  Within-skip_last y (skip z w) = skip z (Within-skip_last y w)
  Within-skip_last y (keep z w) = keep z (Within-skip_last y w)

  Within-keep_last : {xs ys : List A} (y : A) → Within xs ys → Within (xs ++ y ∷ []) (ys ++ y ∷ [])
  Within-keep_last y nothing = keep y nothing
  Within-keep_last y (skip z w) = skip z (Within-keep_last y w)
  Within-keep_last y (keep z w) = keep z (Within-keep_last y w)

  -- Where `given` was captured, and `got` was read.
  pub record Inv (given got : List A) (c : Capturer A) : Type ℓ where
    pub ordered : Within (got ++ c.channel) given
    pub counted : length got + length c.channel + c.dropped_count ≡ length given
    pub bounded : length c.channel ≤ c.buffer

  -- What a run that has a capturer leaves.
  record Left (given : List A) (prep : Option (A → A)) (buffer : ℕ) (s : Run A) : Type ℓ where
    capturer : Capturer A
    there : s.capturer ≡ some capturer
    same_prep : capturer.prep ≡ prep
    same_buffer : capturer.buffer ≡ buffer
    inv : Inv given s.got capturer

  -- A step that leaves the settings as they are.
  record Next (given got : List A) (c c' : Capturer A) : Type ℓ where
    same_prep : c'.prep ≡ c.prep
    same_buffer : c'.buffer ≡ c.buffer
    inv : Inv given got c'

  offered-Next :
      (given got : List A) (c : Capturer A) (ev : A)
      → Inv given got c
      → Next (given ++ ev ∷ []) got c (offered c ev)
  unfolding offered
  offered-Next given got c ev v =
      let grown = length-append given (ev ∷ []) in
      if-cases (Next (given ++ ev ∷ []) got c) (ltb (length c.channel) c.buffer)
        (λ e. record {
          same_prep = refl;
          same_buffer = refl;
          inv = record {
            ordered =
                rw (sym (append_assoc got c.channel (ev ∷ []))) (Within-keep_last ev v.ordered);
            counted = omega (arith, grown, length-append c.channel (ev ∷ []), v.counted);
            bounded = ground (arith, e, length-append c.channel (ev ∷ []));
          };
        })
        (λ _. record {
          same_prep = refl;
          same_buffer = refl;
          inv = record {
            ordered = Within-skip_last ev v.ordered;
            counted = omega (arith, grown, v.counted);
            bounded = v.bounded;
          };
        })

  turn-capture :
      (given : List A) (prep : Option (A → A)) (buffer : ℕ) (s : Run A) (ev : A)
      → Left given prep buffer s
      → Left (given ++ prepared prep ev ∷ []) prep buffer (turn s (capture ev))
  unfolding turn try_capture
  turn-capture given prep buffer s ev l =
      let c = l.capturer in
      let n = offered-Next given s.got c (prepared prep ev) l.inv in
      record {
        capturer = offered c (prepared prep ev);
        there = rw (l.there, l.same_prep) refl;
        same_prep = n.same_prep ∙ l.same_prep;
        same_buffer = n.same_buffer ∙ l.same_buffer;
        inv = n.inv;
      }

  -- The reader's turn, by what waits in the channel.
  read_cases :
      (given got : List A) (c : Capturer A) (channel : List A)
      → c.channel ≡ channel
      → Inv given got c
      → (c' : Capturer A) × (got' : List A) × (received
            (record { capturer = some c; got = got })
            (receive c)
          ≡ record { capturer = some c'; got = got' })
        × Next given got' c c'
  unfolding receive
  read_cases given got c [] e v =
      (c, got, rw e refl, record { same_prep = refl; same_buffer = refl; inv = v })
  read_cases given got c (ev ∷ rest) e v = (
    record c { channel = rest },
    got ++ ev ∷ [],
    rw e refl,
    record {
      same_prep = refl;
      same_buffer = refl;
      inv = record {
        ordered = rw (append_assoc got (ev ∷ []) rest) (rw (sym e) (v.ordered));
        counted = omega (arith, length-append got (ev ∷ []), ap length e, v.counted);
        bounded = omega (arith, ap length e, v.bounded);
      };
    },
  )

  turn-read :
      (given : List A) (prep : Option (A → A)) (buffer : ℕ) (s : Run A)
      → Left given prep buffer s
      → Left given prep buffer (turn s read)
  unfolding turn
  turn-read given prep buffer s l =
      let (c', got', e, n) = read_cases given s.got l.capturer l.capturer.channel refl l.inv in
      rw (l.there, e)
        (record {
          capturer = c';
          there = refl;
          same_prep = n.same_prep ∙ l.same_prep;
          same_buffer = n.same_buffer ∙ l.same_buffer;
          inv = n.inv;
        })

  run-Left :
      (given : List A) (prep : Option (A → A)) (buffer : ℕ) (s : Run A) (actions : List (Action A))
      → Left given prep buffer s
      → Left (given ++ events_of prep actions) prep buffer (run s actions)
  unfolding run events_of
  run-Left given prep buffer s [] l = rw (append_nil given) l
  run-Left given prep buffer s (capture ev ∷ rest) l =
      rw⁻¹ (append_assoc given (prepared prep ev ∷ []) (events_of prep rest)) (
        run-Left (given ++ prepared prep ev ∷ []) prep buffer (turn s (capture ev)) rest
          (turn-capture given prep buffer s ev l))
  run-Left given prep buffer s (read ∷ rest) l =
      run-Left given prep buffer (turn s read) rest (turn-read given prep buffer s l)

  -- Whatever is captured and read in whatever order, what the reader got and what still waits are
  -- the captured events in their order, without those that were dropped; the dropped count says how
  -- many these are, and the channel never holds more than its buffer.
  pub run_lem :
      (buffer default_buffer : ℕ) (prep : Option (A → A)) (actions : List (Action A))
      → let start = new_capturer buffer default_buffer prep in
        let s = run (record { capturer = some start; got = [] }) actions in
        (c : Capturer A) × (s.capturer ≡ some c)
        × Inv (events_of prep actions) s.got c
        × (c.buffer ≡ start.buffer)
  unfolding new_capturer
  run_lem buffer default_buffer prep actions =
      let start = new_capturer buffer default_buffer prep in
      let l =
        run-Left [] prep start.buffer (record { capturer = some start; got = [] }) actions
          (record {
            capturer = start;
            there = refl;
            same_prep = refl;
            same_buffer = refl;
            inv = record { ordered = nothing; counted = refl; bounded = omega arith };
          }) in
      (l.capturer, l.there, l.inv, l.same_buffer)
