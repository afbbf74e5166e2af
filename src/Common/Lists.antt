-- ===== src/Common/Lists.antt =====
-- Lists measured by native numbers, and membership as a Boolean test.
use Prim.Native.Nat.{ℕ, zero, suc, ◌+◌, ◌-◌, ◌≤◌, min}
use mathlib.Core.Path.{◌≡◌, refl, ap}
use mathlib.Core.Logic.{ite}
use mathlib.Core.Bool.{Bool, true, false, ◌||◌}
use mathlib.Core.List.{List, [], ◌∷◌, ◌++◌}
use native.Mathlib.Omega.{arith}

module _ {ℓ} {A : Type ℓ} where
  abbrev pub length : List A → ℕ
  length [] = 0
  length (x ∷ xs) = suc (length xs)

  abbrev pub take : ℕ → List A → List A
  take zero xs = []
  take (suc n) [] = []
  take (suc n) (x ∷ xs) = x ∷ take n xs

  abbrev pub drop : ℕ → List A → List A
  drop zero xs = xs
  drop (suc n) [] = []
  drop (suc n) (x ∷ xs) = drop n xs

  pub append_nil : (xs : List A) → xs ++ [] ≡ xs
  append_nil [] = refl
  append_nil (x ∷ xs) = ap (◌∷◌ x) (append_nil xs)

  pub append_assoc : (xs ys zs : List A) → (xs ++ ys) ++ zs ≡ xs ++ (ys ++ zs)
  append_assoc [] ys zs = refl
  append_assoc (x ∷ xs) ys zs = ap (◌∷◌ x) (append_assoc xs ys zs)

  pub take-append-drop : (n : ℕ) (xs : List A) → take n xs ++ drop n xs ≡ xs
  take-append-drop zero xs = refl
  take-append-drop (suc n) [] = refl
  take-append-drop (suc n) (x ∷ xs) = ap (◌∷◌ x) (take-append-drop n xs)

  pub length-append : (xs ys : List A) → length (xs ++ ys) ≡ length xs + length ys
  length-append [] ys = omega arith
  length-append (x ∷ xs) ys = omega (arith, length-append xs ys)

  pub length-take : (n : ℕ) (xs : List A) → length (take n xs) ≡ min n (length xs)
  length-take zero xs = omega arith
  length-take (suc n) [] = omega arith
  length-take (suc n) (x ∷ xs) = omega (arith, length-take n xs)

  pub length-drop : (n : ℕ) (xs : List A) → length (drop n xs) ≡ length xs - n
  length-drop zero xs = omega arith
  length-drop (suc n) [] = omega arith
  length-drop (suc n) (x ∷ xs) = omega (arith, length-drop n xs)

-- Membership decided by a decision on the elements.
module _ {ℓ} {A : Type ℓ} (dec : Discrete A) where
  abbrev pub elem : A → List A → Bool
  elem a [] = false
  elem a (x ∷ xs) = ite (dec x a) true (elem a xs)

  -- No element occurs twice.
  abbrev pub Distinct : List A → Type 0
  Distinct [] = Unit {0}
  Distinct (x ∷ xs) = (elem x xs ≡ false) × Distinct xs

  pub elem-append : (a : A) (xs ys : List A) → elem a (xs ++ ys) ≡ (elem a xs || elem a ys)
  elem-append a [] ys = refl
  elem-append a (x ∷ xs) ys = ground (arith, elem-append a xs ys)

  pub Distinct-snoc :
      (a : A) (xs : List A) → elem a xs ≡ false → Distinct xs → Distinct (xs ++ a ∷ [])
  Distinct-snoc a [] h d = (refl, tt)
  Distinct-snoc a (x ∷ xs) h d =
      (ground (arith, elem-append x xs (a ∷ [])), Distinct-snoc a xs (ground arith) d.1)

  pub elem_of_elem-drop :
      (a : A) (n : ℕ) (xs : List A) → elem a (drop n xs) ≡ true → elem a xs ≡ true
  elem_of_elem-drop a zero xs h = h
  elem_of_elem-drop a (suc n) [] h = h
  elem_of_elem-drop a (suc n) (x ∷ xs) h = ground (arith, elem_of_elem-drop a n xs h)

  pub elem-snoc_self : (a : A) (xs : List A) → elem a (xs ++ a ∷ []) ≡ true
  elem-snoc_self a [] = ground arith
  elem-snoc_self a (x ∷ xs) = ground (arith, elem-snoc_self a xs)

  -- The end of a list survives where anything does.
  pub elem-drop-snoc :
      (a : A) (n : ℕ) (xs : List A) → n ≤ length xs → elem a (drop n (xs ++ a ∷ [])) ≡ true
  elem-drop-snoc a zero xs h = elem-snoc_self a xs
  elem-drop-snoc a (suc n) [] h = elim h [ ]
  elem-drop-snoc a (suc n) (x ∷ xs) h = elem-drop-snoc a n xs (omega arith)

-- Every element has a property.
abbrev pub All {ℓ κ} : {A : Type ℓ} → (A → Type κ) → List A → Type κ
All P [] = Unit
All P (x ∷ xs) = P x × All P xs

module _ {ℓ κ} {A : Type ℓ} (P : A → Type κ) where
  pub All-snoc : (xs : List A) (y : A) → All P xs → P y → All P (xs ++ y ∷ [])
  All-snoc [] y h k = (k, tt)
  All-snoc (x ∷ xs) y h k = (h.0, All-snoc xs y h.1 k)

  pub All-take : (n : ℕ) (xs : List A) → All P xs → All P (take n xs)
  All-take zero xs h = tt
  All-take (suc n) [] h = tt
  All-take (suc n) (x ∷ xs) h = (h.0, All-take n xs h.1)

  pub All-drop : (n : ℕ) (xs : List A) → All P xs → All P (drop n xs)
  All-drop zero xs h = h
  All-drop (suc n) [] h = tt
  All-drop (suc n) (x ∷ xs) h = All-drop n xs h.1

  pub All-map {μ} : (Q : A → Type μ) (f : (a : A) → P a → Q a) (xs : List A) → All P xs → All Q xs
  All-map Q f [] h = tt
  All-map Q f (x ∷ xs) h = (f x h.0, All-map Q f xs h.1)

  pub All-append : (xs ys : List A) → All P xs → All P ys → All P (xs ++ ys)
  All-append [] ys h k = k
  All-append (x ∷ xs) ys h k = (h.0, All-append xs ys h.1 k)

  pub All-split : (xs ys : List A) → All P (xs ++ ys) → All P xs × All P ys
  All-split [] ys h = (tt, h)
  All-split (x ∷ xs) ys h = let (k, l) = All-split xs ys h.1 in ((h.0, k), l)
