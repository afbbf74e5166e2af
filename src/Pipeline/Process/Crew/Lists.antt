-- ===== src/Pipeline/Process/Crew/Lists.antt =====
-- The hashes of the workers, against those in work and the acknowledged upserts
-- (internal/pipeline/processor.go).
use bidshard_lead_miner.Common.{
  ℕ, ◌+◌, ite, Bool, true, false, not, ◌&&◌, List, [], ◌∷◌, ◌++◌, String, string_discrete, elem,
  Distinct, ◌≡◌, refl, ap, arith, elem-append,
}
use bidshard_lead_miner.Pipeline.Process.{remove_all}
use bidshard_lead_miner.Pipeline.Process.Crew.{Phase, acquired, cleared, written, finished, hashes}

pub hashes-append : (us vs : List (String × Phase)) → hashes (us ++ vs) ≡ hashes us ++ hashes vs
hashes-append [] vs = refl
hashes-append ((h, _) ∷ us) vs = ap (◌∷◌ h) (hashes-append us vs)

pub Distinct-middle :
    (x : String) (xs ys : List String)
    → Distinct string_discrete (xs ++ x ∷ ys)
    → Distinct string_discrete (xs ++ ys) × (elem string_discrete x (xs ++ ys) ≡ false)
Distinct-middle x [] ys (new, d) = (d, new)
Distinct-middle x (y ∷ xs) ys (new, d) =
    let (d', absent) = Distinct-middle x xs ys d in
    (
      (
        ground
            (arith, elem-append string_discrete y xs (x ∷ ys), elem-append string_discrete y xs ys),
        d',
      ),
      ground (arith, absent, elem-append string_discrete y xs (x ∷ ys)),
    )

-- Every hash of the one list is in the other.
unfoldable pub covered : List String → List String → Bool
covered inflight [] = true
covered inflight (h ∷ hs) = elem string_discrete h inflight && covered inflight hs

pub covered-append :
    (fl xs ys : List String) → covered fl (xs ++ ys) ≡ (covered fl xs && covered fl ys)
unfolding covered
covered-append fl [] ys = refl
covered-append fl (x ∷ xs) ys = ground (arith, covered-append fl xs ys)

pub covered-acquired :
    (id : String) (fl hs : List String) → covered fl hs ≡ true → covered (id ∷ fl) hs ≡ true
unfolding covered
covered-acquired id fl [] c = refl
covered-acquired id fl (h ∷ hs) c = ground (arith, covered-acquired id fl hs)

pub elem-covered :
    (id : String) (fl hs : List String)
    → covered fl hs ≡ true
    → elem string_discrete id fl ≡ false
    → elem string_discrete id hs ≡ false
unfolding covered
elem-covered id fl [] c n = refl
elem-covered id fl (h ∷ hs) c n = ground (arith, elem-covered id fl hs)

pub elem-remove_all :
    (id h : String) (fl : List String)
    → elem string_discrete h (id ∷ []) ≡ false
    → elem string_discrete h (remove_all id fl) ≡ elem string_discrete h fl
unfolding remove_all
elem-remove_all id h [] n = refl
elem-remove_all id h (x ∷ fl) n = ground (arith, elem-remove_all id h fl)

pub covered-released :
    (id : String) (fl hs : List String)
    → covered fl hs ≡ true
    → elem string_discrete id hs ≡ false
    → covered (remove_all id fl) hs ≡ true
unfolding covered
covered-released id fl [] c n = refl
covered-released id fl (h ∷ hs) c n =
    ground (arith, covered-released id fl hs, elem-remove_all id h fl)

-- No upsert of a hash that a worker has cleared is acknowledged.
unfoldable pub unsaved : List String → List (String × Phase) → Bool
unsaved saved [] = true
unsaved saved ((h, cleared) ∷ ws) = not (elem string_discrete h saved) && unsaved saved ws
unsaved saved (_ ∷ ws) = unsaved saved ws

pub unsaved-append :
    (st : List String) (us vs : List (String × Phase))
    → unsaved st (us ++ vs) ≡ (unsaved st us && unsaved st vs)
unfolding unsaved
unsaved-append st [] vs = refl
unsaved-append st ((h, cleared) ∷ us) vs = ground (arith, unsaved-append st us vs)
unsaved-append st ((h, acquired) ∷ us) vs = unsaved-append st us vs
unsaved-append st ((h, written) ∷ us) vs = unsaved-append st us vs
unsaved-append st ((h, finished) ∷ us) vs = unsaved-append st us vs

pub unsaved-saved :
    (id : String) (st : List String) (ws : List (String × Phase))
    → unsaved st ws ≡ true
    → elem string_discrete id (hashes ws) ≡ false
    → unsaved (id ∷ st) ws ≡ true
unfolding unsaved
unsaved-saved id st [] u n = refl
unsaved-saved id st ((h, cleared) ∷ ws) u n = ground (arith, unsaved-saved id st ws)
unsaved-saved id st ((h, acquired) ∷ ws) u n = ground (arith, unsaved-saved id st ws)
unsaved-saved id st ((h, written) ∷ ws) u n = ground (arith, unsaved-saved id st ws)
unsaved-saved id st ((h, finished) ∷ ws) u n = ground (arith, unsaved-saved id st ws)

-- How often a hash stands in a list.
unfoldable pub times : String → List String → ℕ
times x [] = 0
times x (y ∷ ys) = ite (string_discrete x y) 1 0 + times x ys

pub times-append : (x : String) (xs ys : List String) → times x (xs ++ ys) ≡ times x xs + times x ys
unfolding times
times-append x [] ys = omega arith
times-append x (y ∷ xs) ys = omega (arith, times-append x xs ys)

abbrev pub if_written : Phase → String → List String
if_written written h = h ∷ []
if_written acquired h = []
if_written cleared h = []
if_written finished h = []

-- The hashes of the workers between an acknowledged upsert and the log.
abbrev pub pending : List (String × Phase) → List String
pending [] = []
pending ((h, p) ∷ ws) = if_written p h ++ pending ws

pub times-pending :
    (x id : String) (p : Phase) (us vs : List (String × Phase))
    → times x (pending (us ++ (id, p) ∷ vs))
      ≡ times x (pending us) + times x (if_written p id) + times x (pending vs)
unfolding times
times-pending x id p [] vs = omega (arith, times-append x (if_written p id) (pending vs))
times-pending x id p ((h, q) ∷ us) vs = omega (
  arith,
  times-append x (if_written q h) (pending (us ++ (id, p) ∷ vs)),
  times-append x (if_written q h) (pending us),
  times-pending x id p us vs,
)

pub times-pending_left :
    (x : String) (us vs : List (String × Phase))
    → times x (pending (us ++ vs)) ≡ times x (pending us) + times x (pending vs)
unfolding times
times-pending_left x [] vs = omega arith
times-pending_left x ((h, q) ∷ us) vs = omega (
  arith,
  times-append x (if_written q h) (pending (us ++ vs)),
  times-append x (if_written q h) (pending us),
  times-pending_left x us vs,
)
