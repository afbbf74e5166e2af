-- ===== src/Entity/Sets.antt =====
-- The sets of texts that `uniqStrings` and `unionStrings` make (internal/entity/merge.go).
use bidshard_lead_miner.Common.{
  ◌≡◌, refl, sym, ap, ◌∙◌, Bool, true, false, ◌||◌, List, [], ◌∷◌, ◌++◌, String, string_discrete,
  Bool-cases, inl, inr, Distinct, elem-append, elem-snoc_self, append_nil, append_assoc, arith,
}
use bidshard_lead_miner.Common.Text.{is_empty, trim_space, trim_space_idem}
use bidshard_lead_miner.Entity.{contains_string, uniq_loop, uniq_strings}

-- The texts that the loop takes up from a list.
module _ (seen : List String) (v : String) (vs : List String) where
  abbrev pub is_skipped : Bool
  is_skipped = is_empty (trim_space v) || contains_string seen (trim_space v)

  pub uniq_loop-skip : is_skipped ≡ true → uniq_loop seen (v ∷ vs) ≡ uniq_loop seen vs
  unfolding uniq_loop
  uniq_loop-skip h = rw h refl

  pub uniq_loop-take :
      is_skipped ≡ false
      → uniq_loop seen (v ∷ vs) ≡ trim_space v ∷ uniq_loop (seen ++ trim_space v ∷ []) vs
  unfolding uniq_loop
  uniq_loop-take h = rw h refl

pub uniq_loop-append :
    (seen xs ys : List String)
    → uniq_loop seen (xs ++ ys) ≡ uniq_loop seen xs ++ uniq_loop (seen ++ uniq_loop seen xs) ys
uniq_loop-append seen [] ys = unfold uniq_loop in rw (append_nil seen) refl
uniq_loop-append seen (x ∷ xs) ys = elim (Bool-cases (is_skipped seen x xs)) [
  | inl s ↦
      rw (uniq_loop-skip seen x (xs ++ ys) s, uniq_loop-skip seen x xs s)
        (uniq_loop-append seen xs ys)
  | inr t ↦
      rw
        (
          uniq_loop-take seen x (xs ++ ys) t,
          uniq_loop-take seen x xs t,
          uniq_loop-append (seen ++ trim_space x ∷ []) xs ys,
          append_assoc seen (trim_space x ∷ []) (uniq_loop (seen ++ trim_space x ∷ []) xs),
        )
        refl
]

pub uniq_loop_idem :
    (seen xs : List String) → uniq_loop seen (uniq_loop seen xs) ≡ uniq_loop seen xs
uniq_loop_idem seen [] = unfold uniq_loop in refl
uniq_loop_idem seen (x ∷ xs) = elim (Bool-cases (is_skipped seen x xs)) [
  | inl s ↦ rw (uniq_loop-skip seen x xs s) (uniq_loop_idem seen xs)
  | inr t ↦
      let rest = uniq_loop (seen ++ trim_space x ∷ []) xs in
      rw
        (
          uniq_loop-take seen x xs t,
          uniq_loop-take seen (trim_space x) rest (rw (trim_space_idem x) t),
          trim_space_idem x,
          uniq_loop_idem (seen ++ trim_space x ∷ []) xs,
        )
        refl
]

-- A list that is its own set.
abbrev pub IsUniq : List String → Type 0
IsUniq xs = uniq_strings xs ≡ xs

pub uniq_strings-IsUniq : (xs : List String) → IsUniq (uniq_strings xs)
unfolding uniq_strings
uniq_strings-IsUniq xs = uniq_loop_idem [] xs

-- A list may be made a set before or after more is added.
pub uniq_strings-append :
    (xs ys : List String) → uniq_strings (uniq_strings xs ++ ys) ≡ uniq_strings (xs ++ ys)
unfolding uniq_strings
uniq_strings-append xs ys =
    rw (uniq_loop-append [] (uniq_loop [] xs) ys, uniq_loop_idem [] xs)
      (sym (uniq_loop-append [] xs ys))

module _ (xs : List String) (v : String) (u : IsUniq xs) where
  -- A text that is there already adds nothing.
  pub uniq_strings-known :
      contains_string xs (trim_space v) ≡ true → uniq_strings (xs ++ v ∷ []) ≡ xs
  unfolding uniq_strings uniq_loop
  uniq_strings-known h =
      rw (uniq_loop-append [] xs (v ∷ []), u)
        (ap (λ (l : List String). xs ++ l) (uniq_loop-skip xs v [] (ground (arith, h)))
          ∙ append_nil xs)

  pub uniq_strings-new :
      is_empty (trim_space v) ≡ false
      → contains_string xs (trim_space v) ≡ false
      → uniq_strings (xs ++ v ∷ []) ≡ xs ++ trim_space v ∷ []
  unfolding uniq_strings uniq_loop
  uniq_strings-new n h =
      rw (uniq_loop-append [] xs (v ∷ []), u)
        (ap (λ (l : List String). xs ++ l) (uniq_loop-take xs v [] (ground (arith, h, n))))

-- A set holds what it was made from.
pub uniq_loop-elem :
    (seen xs : List String) (t : String)
    → contains_string seen t ≡ true
    → contains_string (uniq_loop seen xs) t ≡ false
uniq_loop-elem seen [] t h = unfold uniq_loop in refl
uniq_loop-elem seen (x ∷ xs) t h = elim (Bool-cases (is_skipped seen x xs)) [
  | inl s ↦ rw (uniq_loop-skip seen x xs s) (uniq_loop-elem seen xs t h)
  | inr n ↦ rw (uniq_loop-take seen x xs n) (
      ground (
        arith,
        elem-append string_discrete t seen (trim_space x ∷ []),
        uniq_loop-elem (seen ++ trim_space x ∷ []) xs t,
      ))
]

pub uniq_loop-Distinct : (seen xs : List String) → Distinct string_discrete (uniq_loop seen xs)
uniq_loop-Distinct seen [] = unfold uniq_loop in tt
uniq_loop-Distinct seen (x ∷ xs) = elim (Bool-cases (is_skipped seen x xs)) [
  | inl s ↦ rw (uniq_loop-skip seen x xs s) (uniq_loop-Distinct seen xs)
  | inr n ↦
      let seen' = seen ++ trim_space x ∷ [] in
      rw (uniq_loop-take seen x xs n) (
        uniq_loop-elem seen' xs (trim_space x) (elem-snoc_self string_discrete (trim_space x) seen),
        uniq_loop-Distinct seen' xs,
      )
]

-- A text of a set is trimmed, and not empty.
abbrev pub IsTrim : String → Type 0
IsTrim t = (trim_space t ≡ t) × (is_empty t ≡ false)

uniq_loop-nil : (seen : List String) (t : String) → contains_string (uniq_loop seen []) t ≡ false
unfolding uniq_loop
uniq_loop-nil seen t = refl

pub uniq_loop-IsTrim :
    (seen xs : List String) (t : String) → contains_string (uniq_loop seen xs) t ≡ true → IsTrim t
uniq_loop-IsTrim seen [] t h = cc (h, uniq_loop-nil seen t)
uniq_loop-IsTrim seen (x ∷ xs) t h = elim (Bool-cases (is_skipped seen x xs)) [
  | inl s ↦ uniq_loop-IsTrim seen xs t (rw (← uniq_loop-skip seen x xs s) h)
  | inr n ↦
      let seen' = seen ++ trim_space x ∷ [] in
      let h' = rw (uniq_loop-take seen x xs n) at h in
      elim (string_discrete (trim_space x) t) [
        | yes p ↦ (ap trim_space (sym p) ∙ trim_space_idem x ∙ p, rw (← p) (ground (arith, n)))
        | no q ↦ uniq_loop-IsTrim seen' xs t (ground (arith, h', q))
      ]
]

pub IsUniq-IsTrim :
    (xs : List String) (t : String) → IsUniq xs → contains_string xs t ≡ true → IsTrim t
unfolding uniq_strings
IsUniq-IsTrim xs t u h = uniq_loop-IsTrim [] xs t (rw u h)
