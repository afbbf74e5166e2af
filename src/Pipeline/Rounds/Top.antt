-- ===== src/Pipeline/Rounds/Top.antt =====
-- The reasons that a round reports (internal/pipeline/stats.go, `topRejectReasons`).
use bidshard_lead_miner.Common.{
  ℕ, zero, suc, take, ap, ◌∙◌, false, ◌+◌, ◌≤◌, ◌≡◌, refl, Bool, true, ◌&&◌, List, [], ◌∷◌, ◌++◌,
  String, arith, ltb, leb, length, drop, length-take, append_nil, take-append-drop, if-cases,
}
use bidshard_lead_miner.Pipeline.Rounds.{
  positive, before, insert_pair, sort_pairs, top_reject_reasons,
}
use Prim.Native.Nat.{min}
use mathlib.Core.List.{Perm}
use mathlib.Core.List.Perm

length-insert_pair :
    (a : String × ℕ) (bs : List (String × ℕ)) → length (insert_pair a bs) ≡ suc (length bs)
unfolding insert_pair
length-insert_pair a [] = refl
length-insert_pair a (b ∷ bs) =
    if-cases (λ (l : List (String × ℕ)). length l ≡ suc (suc (length bs))) (before b a)
      (λ _. ap suc (length-insert_pair a bs)) (λ _. refl)

-- Each count is at most the one before it, and the first is at most `bound`.
unfoldable pub descends : ℕ → List (String × ℕ) → Bool
descends bound [] = true
descends bound ((_, n) ∷ rest) = leb n bound && descends n rest

descends-insert_pair :
    (bound : ℕ) (a : String × ℕ) (bs : List (String × ℕ))
    → a.1 ≤ bound
    → descends bound bs ≡ true
    → descends bound (insert_pair a bs) ≡ true
unfolding descends insert_pair
descends-insert_pair bound (r, m) [] h d = ground arith
descends-insert_pair bound (r, m) ((q, n) ∷ bs) h d =
    ground (arith, descends-insert_pair n (r, m) bs)

abbrev add_up : List (String × ℕ) → ℕ
add_up [] = 0
add_up ((_, n) ∷ rest) = n + add_up rest

Perm-insert_pair : (a : String × ℕ) (bs : List (String × ℕ)) → Perm (insert_pair a bs) (a ∷ bs)
unfolding insert_pair
Perm-insert_pair a [] = Perm.refl _
Perm-insert_pair a (b ∷ bs) =
    if-cases (λ l. Perm l (a ∷ b ∷ bs)) (before b a)
      (λ _. Perm.trans (Perm.cons b (Perm-insert_pair a bs)) (Perm.swap _ _ _)) (λ _. Perm.refl _)

Perm-sort_pairs : (pairs : List (String × ℕ)) → Perm (sort_pairs pairs) pairs
unfolding sort_pairs
Perm-sort_pairs [] = Perm.refl _
Perm-sort_pairs (a ∷ rest) =
    Perm.trans (Perm-insert_pair a (sort_pairs rest)) (Perm.cons a (Perm-sort_pairs rest))

abbrev pub is_descending : List (String × ℕ) → Bool
is_descending [] = true
is_descending ((_, n) ∷ rest) = descends n rest

is_descending-insert_pair :
    (a : String × ℕ) (bs : List (String × ℕ))
    → is_descending bs ≡ true
    → is_descending (insert_pair a bs) ≡ true
unfolding descends insert_pair
is_descending-insert_pair (r, m) [] d = refl
is_descending-insert_pair (r, m) ((q, n) ∷ bs) d = ground (arith, descends-insert_pair n (r, m) bs)

is_descending-sort_pairs : (pairs : List (String × ℕ)) → is_descending (sort_pairs pairs) ≡ true
unfolding sort_pairs
is_descending-sort_pairs [] = refl
is_descending-sort_pairs (a ∷ rest) =
    is_descending-insert_pair a (sort_pairs rest) (is_descending-sort_pairs rest)

length-sort_pairs : (pairs : List (String × ℕ)) → length (sort_pairs pairs) ≡ length pairs
unfolding sort_pairs
length-sort_pairs [] = refl
length-sort_pairs (a ∷ rest) =
    length-insert_pair a (sort_pairs rest) ∙ ap suc (length-sort_pairs rest)

-- How many of some reasons are shown: with the limit 0 all of them, and else as many as the limit
-- allows.
abbrev pub shown_count : ℕ → ℕ → ℕ
shown_count zero total = total
shown_count (suc n) total = min (suc n) total

shown_part :
    (n : ℕ) (pairs reasons : List (String × ℕ))
    → length pairs ≡ length reasons
    → (ltb 0 n && ltb n (length pairs)) ≡ true
    → length (take n pairs) ≡ shown_count n (length reasons)
shown_part zero pairs reasons same h = ground (arith, h)
shown_part (suc n) pairs reasons same h = omega (arith, length-take (suc n) pairs, same)

shown_all :
    (n : ℕ) (pairs reasons : List (String × ℕ))
    → length pairs ≡ length reasons
    → (ltb 0 n && ltb n (length pairs)) ≡ false
    → length pairs ≡ shown_count n (length reasons)
shown_all zero pairs reasons same h = same
shown_all (suc n) pairs reasons same h =
    let least : length pairs ≤ suc n = ground (arith, h) in omega (arith, least, same)

-- The reasons that are shown and those that are left out are together the buckets that count
-- something, with the largest counts first. With the limit 0 all of them are shown, and else exactly
-- as many as the limit allows.
pub top_reject_reasons_lem :
    (reasons : List (String × ℕ)) (n : ℕ)
    → (hidden : List (String × ℕ)) × Perm
        (top_reject_reasons reasons n ++ hidden)
        (positive reasons)
      × (is_descending (top_reject_reasons reasons n ++ hidden) ≡ true)
      × (length (top_reject_reasons reasons n) ≡ shown_count n (length (positive reasons)))
unfolding top_reject_reasons
top_reject_reasons_lem reasons n =
    let pairs = sort_pairs (positive reasons) in
    let same = Perm-sort_pairs (positive reasons) in
    let sorted = is_descending-sort_pairs (positive reasons) in
    if-cases
      (λ shown.
        (hidden : _) × Perm (shown ++ hidden) (positive reasons)
        × (is_descending (shown ++ hidden) ≡ true)
        × (length shown ≡ shown_count n (length (positive reasons))))
      (ltb 0 n && ltb n (length pairs))
      (λ e. (
        drop n pairs,
        rw (take-append-drop n pairs) same,
        rw (take-append-drop n pairs) sorted,
        shown_part n pairs (positive reasons) (length-sort_pairs (positive reasons)) e,
      ))
      (λ e. (
        [],
        rw (append_nil pairs) same,
        rw (append_nil pairs) sorted,
        shown_all n pairs (positive reasons) (length-sort_pairs (positive reasons)) e,
      ))
