-- ===== src/Coordinator/Laws.antt =====
-- What holds of the rounds in every interleaving (internal/sources/coordinator.go).
use bidshard_lead_miner.Common.{
  ℕ, suc, ◌+◌, ◌≤◌, ◌<◌, Bool, true, false, not, ◌&&◌, List, [], ◌∷◌, ◌++◌, Option, none, some, ◌≡◌,
  refl, sym, ap, ◌∙◌, if◌then◌else◌, length, length-append, arith,
}
use bidshard_lead_miner.Coordinator.{
  Round, Phase, selecting, waiting, draining, Coordinator, cancel_id, cancel_handle,
  cancel_active_round, new_round, clear_round_handle, Step, scan, start, begin, finish, done, exit,
  Reach, initial, next,
}

-- The handle that the rounds want: that of a round that has begun and is not cancelled.
abbrev pub handle_of : List Round → Option ℕ
handle_of [] = none
handle_of (r ∷ rs) = if r.begun && not r.cancelled then some r.id else none

record Inv (c : Coordinator) : Type 0 where
  one : length c.rounds ≤ 1
  handle : c.active ≡ handle_of c.rounds

-- Two rounds are more than one.
crowded {ℓ} :
    {A : Type ℓ} (us vs : List Round) (r : Round) {rs : List Round}
    → rs ≡ us ++ r ∷ vs
    → length rs ≤ 1
    → 0 < length us + length vs
    → A
crowded us vs r e h more = absurd (omega (arith, ap length e, length-append us (r ∷ vs), h, more))

length-cancel_id : (id : ℕ) (rs : List Round) → length (cancel_id id rs) ≡ length rs
unfolding cancel_id
length-cancel_id id [] = refl
length-cancel_id id (r ∷ rs) = omega (arith, length-cancel_id id rs)

length-cancel_handle :
    (active : Option ℕ) (rs : List Round) → length (cancel_handle active rs) ≡ length rs
unfolding cancel_handle
length-cancel_handle none rs = refl
length-cancel_handle (some id) rs = length-cancel_id id rs

-- To cancel the handle that the one round wants leaves no round that wants a handle.
handle_of-cancelled :
    (rs : List Round) → length rs ≤ 1 → handle_of (cancel_handle (handle_of rs) rs) ≡ none
unfolding cancel_handle cancel_id
handle_of-cancelled [] h = refl
handle_of-cancelled (r ∷ []) h = ground arith
handle_of-cancelled (r ∷ q ∷ rs) h = absurd (omega (arith, h))

cancel_active_round-Inv :
    (c : Coordinator) (phase : Phase)
    → Inv c
    → Inv (record (cancel_active_round c) { phase = phase })
unfolding cancel_active_round
cancel_active_round-Inv c phase v = record {
  one = omega (arith, length-cancel_handle c.active c.rounds, v.one);
  handle = rw (v.handle) (sym (handle_of-cancelled c.rounds v.one));
}

cancel_handle-nil : (active : Option ℕ) → cancel_handle active [] ≡ []
unfolding cancel_handle cancel_id
cancel_handle-nil none = refl
cancel_handle-nil (some id) = refl

begin-Inv :
    (c : Coordinator) (us vs : List Round) (id : ℕ) (cancelled : Bool)
    → c.rounds ≡ us ++ record { id = id; begun = false; cancelled = cancelled } ∷ vs
    → Inv c
    → Inv (record c {
      rounds =
          cancel_handle c.active us
          ++ record { id = id; begun = true; cancelled = false } ∷ cancel_handle c.active vs;
      active = some id;
    })
begin-Inv c [] [] id cancelled e v =
    rw (cancel_handle-nil c.active) (record { one = omega arith; handle = refl })
begin-Inv c (u ∷ us) vs id cancelled e v = crowded (u ∷ us) vs _ e v.one (omega arith)
begin-Inv c [] (w ∷ vs) id cancelled e v = crowded [] (w ∷ vs) _ e v.one (omega arith)

finish-Inv :
    (c : Coordinator) (us vs : List Round) (id : ℕ) (cancelled : Bool)
    → c.rounds ≡ us ++ record { id = id; begun = true; cancelled = cancelled } ∷ vs
    → Inv c
    → Inv (record c { rounds = us ++ vs; active = clear_round_handle c.active id })
unfolding clear_round_handle
finish-Inv c [] [] id true e v = record {
  one = omega arith;
  handle = rw (v.handle ∙ ap handle_of e) refl;
}
finish-Inv c [] [] id false e v = record {
  one = omega arith;
  handle = rw (v.handle ∙ ap handle_of e) (ground arith);
}
finish-Inv c (u ∷ us) vs id cancelled e v = crowded (u ∷ us) vs _ e v.one (omega arith)
finish-Inv c [] (w ∷ vs) id cancelled e v = crowded [] (w ∷ vs) _ e v.one (omega arith)

step-Inv : (c d : Coordinator) → Step c d → Inv c → Inv d
step-Inv c d (scan _ e) v = rw e (cancel_active_round-Inv c waiting v)
step-Inv c d (done _ e) v = rw e (cancel_active_round-Inv c draining v)
step-Inv c d (start _ empty e) v =
    rw e (record { one = ground (arith, empty); handle = v.handle ∙ ap handle_of empty })
step-Inv c d (begin us vs id cancelled r e) v = rw e (begin-Inv c us vs id cancelled r v)
step-Inv c d (finish us vs id cancelled r e) v = rw e (finish-Inv c us vs id cancelled r v)
step-Inv c d (exit _ _ e) v = rw e (record { one = v.one; handle = v.handle })

Reach-Inv : {c : Coordinator} → Reach c → Inv c
Reach-Inv initial = record { one = omega arith; handle = refl }
Reach-Inv (next {c} {d} r step) = step-Inv c d step (Reach-Inv r)

-- In every interleaving at most one round runs, and the handle of the coordinator is that of this
-- round from its beginning on, until it is cancelled or ends.
pub one_round :
    {c : Coordinator} → Reach c → (length c.rounds ≤ 1) × (c.active ≡ handle_of c.rounds)
one_round r = let v = Reach-Inv r in (v.one, v.handle)

-- A new scan, or the end of the program, cancels the round that runs, if it has begun: none is left
-- that has begun and is not cancelled.
pub scan_cancels : {c : Coordinator} → Reach c → handle_of (cancel_active_round c).rounds ≡ none
unfolding cancel_active_round
scan_cancels {c} r = let v = Reach-Inv r in rw (v.handle) (handle_of-cancelled c.rounds v.one)

-- The defect: a scan that comes before the round of the last one has begun cancels nothing, so that
-- the coordinator waits for that round to its own end.
pub scan_missed :
    (c : Coordinator)
    → Reach c
    → c.phase ≡ waiting
    → c.rounds ≡ []
    → (d : Coordinator) × Reach d
      × (d.phase ≡ waiting)
      × (d.rounds ≡ record { id = c.next_id; begun = true; cancelled = false } ∷ [])
unfolding cancel_active_round cancel_handle cancel_id
scan_missed c r waits empty =
    let c₁ = record c {
      phase = selecting;
      rounds = new_round c.next_id ∷ c.rounds;
      next_id = suc c.next_id;
    } in
    let c₂ = record (cancel_active_round c₁) { phase = waiting } in
    let idle = (Reach-Inv r).handle ∙ ap handle_of empty in
    let alone = ap (λ rs. new_round c.next_id ∷ rs) empty in
    let kept = ap (λ a. cancel_handle a (new_round c.next_id ∷ c.rounds)) idle ∙ alone in
    (
      _,
      next (next (next r (start waits empty refl)) (scan refl refl))
          (begin [] [] c.next_id false kept refl),
      refl,
      refl,
    )
