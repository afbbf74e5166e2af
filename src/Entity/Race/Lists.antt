-- ===== src/Entity/Race/Lists.antt =====
-- The writers and the log of a race, taken apart and put together
-- (internal/entity/sighting_loop.go, internal/sink/entity_store.go).
use mathlib.Core.List.{Perm, perm_append_singleton, perm_middle}
use mathlib.Core.List.Perm
use bidshard_lead_miner.Common.{
  ℕ, ◌+◌, ◌≤◌, ◌≡◌, refl, sym, ap, ◌∙◌, Bool, true, List, [], ◌∷◌, ◌++◌, Option, none, some, length,
  length-append, append_assoc, arith,
}
use bidshard_lead_miner.Entity.{EntityDoc}
use bidshard_lead_miner.Entity.Store.{
  Call, Commit, Phase, asking, holding, creating, finished, gave_up, Writer,
}
use bidshard_lead_miner.Entity.Race.{is_active, logged}
use bidshard_lead_miner.Entity.Race.Turns.{Held, IsPaid, count_after, count_finished, calls_left}

module _ {F : Type 0} where
  abbrev pub calls_of : List (Writer F) → List (Call F)
  calls_of [] = []
  calls_of (w ∷ ws) = w.call ∷ calls_of ws

  abbrev pub written_calls : List (Commit F) → List (Call F)
  written_calls [] = []
  written_calls (k ∷ log) = k.call ∷ written_calls log

  abbrev pub if_finished : Phase F → Call F → List (Call F)
  if_finished finished c = c ∷ []
  if_finished (asking _) c = []
  if_finished (holding _ _) c = []
  if_finished creating c = []
  if_finished gave_up c = []

  -- The calls that came to their end with a result.
  abbrev pub finished_calls : List (Writer F) → List (Call F)
  finished_calls [] = []
  finished_calls (w ∷ ws) = if_finished w.phase w.call ++ finished_calls ws

  -- How many calls of the database are left at most.
  abbrev pub all_left : ℕ → List (Writer F) → ℕ
  all_left m [] = 0
  all_left m (w ∷ ws) = calls_left m w.attempt w.phase + all_left m ws

  pub calls_of-append : (us vs : List (Writer F)) → calls_of (us ++ vs) ≡ calls_of us ++ calls_of vs
  calls_of-append [] vs = refl
  calls_of-append (u ∷ us) vs = ap (◌∷◌ u.call) (calls_of-append us vs)

  pub finished_calls-append :
      (us vs : List (Writer F)) → finished_calls (us ++ vs) ≡ finished_calls us ++ finished_calls vs
  finished_calls-append [] vs = refl
  finished_calls-append (u ∷ us) vs =
      ap (λ (l : List (Call F)). if_finished u.phase u.call ++ l) (finished_calls-append us vs)
      ∙ sym (append_assoc (if_finished u.phase u.call) (finished_calls us) (finished_calls vs))

  pub all_left-append :
      (m : ℕ) (us vs : List (Writer F)) → all_left m (us ++ vs) ≡ all_left m us + all_left m vs
  all_left-append m [] vs = omega arith
  all_left-append m (u ∷ us) vs = omega (arith, all_left-append m us vs)

  written_calls-snoc :
      (log : List (Commit F)) (k : Commit F)
      → written_calls (log ++ k ∷ []) ≡ written_calls log ++ k.call ∷ []
  written_calls-snoc [] k = refl
  written_calls-snoc (j ∷ log) k = ap (◌∷◌ j.call) (written_calls-snoc log k)

  pub length-logged :
      (log : List (Commit F)) (c : Call F) (w : Option (Option Bool))
      → length (logged log c w) ≡ count_after (length log) w
  length-logged log c none = refl
  length-logged log c (some none) = omega (arith, length-append log _)
  length-logged log c (some (some atomic)) = omega (arith, length-append log _)

  pub inactive_one : (p : Phase F) (c : Call F) → count_finished p ≡ 0 → if_finished p c ≡ []
  inactive_one (asking _) c h = refl
  inactive_one (holding _ _) c h = refl
  inactive_one creating c h = refl
  inactive_one finished c h = absurd (omega arith)
  inactive_one gave_up c h = refl

  pub finished_one : (p : Phase F) (c : Call F) → count_finished p ≡ 1 → if_finished p c ≡ c ∷ []
  finished_one (asking _) c h = absurd (omega arith)
  finished_one (holding _ _) c h = absurd (omega arith)
  finished_one creating c h = absurd (omega arith)
  finished_one finished c h = refl
  finished_one gave_up c h = absurd (omega arith)

  pub active_one : (p : Phase F) (c : Call F) → is_active p ≡ true → if_finished p c ≡ []
  active_one (asking _) c h = refl
  active_one (holding _ _) c h = refl
  active_one creating c h = refl
  active_one finished c h = cc
  active_one gave_up c h = refl

  -- A write goes on for the other writers.
  pub IsPaid-grown :
      (m : ℕ) (s t : Option (EntityDoc F)) (n n' attempt : ℕ) (p : Phase F)
      → n ≤ n'
      → ((d : EntityDoc F) → Held d s → Held d t)
      → IsPaid m s n attempt p
      → IsPaid m t n' attempt p
  IsPaid-grown m s t n n' attempt (asking _) le g h = (omega (arith, h.0), h.1)
  IsPaid-grown m s t n n' attempt (holding _ d) le g h = (h.0, h.1, g d h.2)
  IsPaid-grown m s t n n' attempt creating le g h = h
  IsPaid-grown m s t n n' attempt finished le g h = tt
  IsPaid-grown m s t n n' attempt gave_up le g h = omega (arith, h)

  -- One more call in the log and among the finished ones.
  pub Perm-grown :
      (log : List (Commit F)) (us vs : List (Call F)) (k : Commit F)
      → Perm (written_calls log) (us ++ vs)
      → Perm (written_calls (log ++ k ∷ [])) (us ++ k.call ∷ vs)
  Perm-grown log us vs k p = rw (written_calls-snoc log k) (
      Perm.trans (perm_append_singleton k.call (written_calls log))
        (Perm.trans (Perm.cons k.call p) (Perm.symm (perm_middle us vs))))
