-- ===== src/Entity/Keys/Laws.antt =====
-- The order of the keys (internal/entity/key.go).
use Prim.Native.Char.{code}
use text.Mathlib.TextEquality.{Char-path}
use bidshard_lead_miner.Common.{
  ℕ, zero, suc, ◌≡◌, refl, sym, ap, ◌∙◌, true, false, List, [], ◌∷◌, some, String, string_discrete,
  if◌then◌else◌, Bool-cases, inl, inr, length, elem, All, arith,
}
use bidshard_lead_miner.Common.Text.{str_lt}
use bidshard_lead_miner.Entity.{Env, EntityKey}
use bidshard_lead_miner.Entity.Keys.{
  key_priority, key_less, sift, sort_loop, sort_keys, primary_key, id_of_primary, entity_id,
}

str_le_trans : (a b c : String) → str_lt b a ≡ false → str_lt c b ≡ false → str_lt c a ≡ false
unfolding str_lt
str_le_trans String.[] b String.[] h k = refl
str_le_trans String.[] b (String.◌∷◌ z c) h k = refl
str_le_trans (String.◌∷◌ x a) String.[] c h k = cc
str_le_trans (String.◌∷◌ x a) (String.◌∷◌ y b) String.[] h k = cc
str_le_trans (String.◌∷◌ x a) (String.◌∷◌ y b) (String.◌∷◌ z c) h k =
    ground (arith, h, k, str_le_trans a b c)

str_le_refl : (a : String) → str_lt a a ≡ false
unfolding str_lt
str_le_refl String.[] = refl
str_le_refl (String.◌∷◌ x a) = ground (arith, str_le_refl a)

str_le_antisym : (a b : String) → str_lt b a ≡ false → str_lt a b ≡ false → a ≡ b
unfolding str_lt
str_le_antisym String.[] String.[] h k = refl
str_le_antisym String.[] (String.◌∷◌ y b) h k = cc
str_le_antisym (String.◌∷◌ x a) String.[] h k = cc
str_le_antisym (String.◌∷◌ x a) (String.◌∷◌ y b) h k =
    let c : code x ≡ code y = ground (arith, h, k) in
    cc (Char-path x y c, str_le_antisym a b (ground (arith, h, c)) (ground (arith, k, c)))

str_lt_asym : (a b : String) → str_lt a b ≡ true → str_lt b a ≡ false
unfolding str_lt
str_lt_asym String.[] String.[] h = refl
str_lt_asym String.[] (String.◌∷◌ y b) h = refl
str_lt_asym (String.◌∷◌ x a) String.[] h = cc
str_lt_asym (String.◌∷◌ x a) (String.◌∷◌ y b) h = ground (arith, h, str_lt_asym a b)

-- One key is not after another.
abbrev pub IsFirst : EntityKey → EntityKey → Type 0
IsFirst a b = key_less b a ≡ false

IsFirst-refl : (a : EntityKey) → IsFirst a a
unfolding key_less
IsFirst-refl a = ground (arith, str_le_refl a.value)

IsFirst-trans : (a b c : EntityKey) → IsFirst a b → IsFirst b c → IsFirst a c
unfolding key_less
IsFirst-trans a b c h k = ground (arith, h, k, str_le_trans a.value b.value c.value)

less-IsFirst : (a b : EntityKey) → key_less a b ≡ true → IsFirst a b
unfolding key_less
less-IsFirst a b h = ground (arith, h, str_lt_asym a.value b.value)

pub EntityKey-discrete : Discrete EntityKey
EntityKey-discrete = hlevel (string_discrete)

abbrev pub IsOrdered : List EntityKey → Type 0
IsOrdered [] = Unit {0}
IsOrdered (k ∷ keys) = All (IsFirst k) keys × IsOrdered keys

-- The two keys of a comparison, after they may have changed places.
swapped-IsFirst :
    (x y : EntityKey)
    → IsFirst (if key_less y x then y else x) x
      × IsFirst (if key_less y x then y else x) (if key_less y x then x else y)
swapped-IsFirst x y = elim (Bool-cases (key_less y x)) [
  | inl e ↦ rw e (less-IsFirst y x e, less-IsFirst y x e)
  | inr e ↦ rw e (IsFirst-refl x, e)
]

sift-IsFirst :
    (x : EntityKey) (ys : List EntityKey)
    → IsFirst (sift x ys).0 x × All (IsFirst (sift x ys).0) (sift x ys).1
unfolding sift
sift-IsFirst x [] = (IsFirst-refl x, tt)
sift-IsFirst x (y ∷ ys) =
    let x' = if key_less y x then y else x in
    let (before, rest) = sift-IsFirst x' ys in
    let least = (sift x' ys).0 in
    (
      IsFirst-trans least x' x before (swapped-IsFirst x y).0,
      (IsFirst-trans least x' _ before (swapped-IsFirst x y).1, rest),
    )

sift-All :
    (P : EntityKey → Type 0) (x : EntityKey) (ys : List EntityKey)
    → P x
    → All P ys
    → P (sift x ys).0 × All P (sift x ys).1
unfolding sift
sift-All P x [] h k = (h, tt)
sift-All P x (y ∷ ys) h k = elim (Bool-cases (key_less y x)) [
  | inl e ↦ let (a, b) = sift-All P y ys k.0 k.1 in rw e (a, (h, b))
  | inr e ↦ let (a, b) = sift-All P x ys h k.1 in rw e (a, (k.0, b))
]

length-sift : (x : EntityKey) (ys : List EntityKey) → length (sift x ys).1 ≡ length ys
unfolding sift
length-sift x [] = refl
length-sift x (y ∷ ys) = ap suc (length-sift (if key_less y x then y else x) ys)

elem-sift :
    (k x : EntityKey) (ys : List EntityKey)
    → elem EntityKey-discrete k ((sift x ys).0 ∷ (sift x ys).1) ≡ elem EntityKey-discrete k (x ∷ ys)
unfolding sift
elem-sift k x [] = refl
elem-sift k x (y ∷ ys) = elim (Bool-cases (key_less y x)) [
  | inl e ↦ rw e (ground (arith, elem-sift k y ys))
  | inr e ↦ rw e (ground (arith, elem-sift k x ys))
]

sort_loop-All :
    (P : EntityKey → Type 0) (n : ℕ) (keys : List EntityKey) → All P keys → All P (sort_loop n keys)
unfolding sort_loop
sort_loop-All P zero keys h = h
sort_loop-All P (suc n) [] h = tt
sort_loop-All P (suc n) (x ∷ xs) h =
    let (a, b) = sift-All P x xs h.0 h.1 in (a, sort_loop-All P n (sift x xs).1 b)

sort_loop-IsOrdered :
    (n : ℕ) (keys : List EntityKey) → length keys ≡ n → IsOrdered (sort_loop n keys)
unfolding sort_loop
sort_loop-IsOrdered zero [] h = tt
sort_loop-IsOrdered zero (x ∷ xs) h = absurd (omega arith)
sort_loop-IsOrdered (suc n) [] h = tt
sort_loop-IsOrdered (suc n) (x ∷ xs) h =
    let rest = (sift x xs).1 in
    (
      sort_loop-All (IsFirst (sift x xs).0) n rest (sift-IsFirst x xs).1,
      sort_loop-IsOrdered n rest (omega (arith, length-sift x xs)),
    )

elem-sort_loop :
    (k : EntityKey) (n : ℕ) (keys : List EntityKey)
    → elem EntityKey-discrete k (sort_loop n keys) ≡ elem EntityKey-discrete k keys
unfolding sort_loop
elem-sort_loop k zero keys = refl
elem-sort_loop k (suc n) [] = refl
elem-sort_loop k (suc n) (x ∷ xs) =
    ground (arith, elem-sift k x xs, elem-sort_loop k n (sift x xs).1)

All-elem :
    (P : EntityKey → Type 0) (k : EntityKey) (keys : List EntityKey)
    → All P keys
    → elem EntityKey-discrete k keys ≡ true
    → P k
All-elem P k [] h m = cc
All-elem P k (x ∷ xs) h m = elim (EntityKey-discrete x k) [
  | yes e ↦ rw (← e) h.0
  | no n ↦ All-elem P k xs h.1 (ground (arith, m, n))
]

-- No two of the keys have different kinds of one priority.
abbrev pub HaveOwnRanks : List EntityKey → Type 0
HaveOwnRanks keys =
    All (λ a. All (λ b. key_priority a.kind ≡ key_priority b.kind → a.kind ≡ b.kind) keys) keys

tied : (a b : EntityKey) → IsFirst a b → IsFirst b a → key_priority a.kind ≡ key_priority b.kind
unfolding key_less
tied a b h k = ground (arith, h, k)

tied_value :
    (a b : EntityKey)
    → key_priority a.kind ≡ key_priority b.kind
    → IsFirst a b
    → IsFirst b a
    → a.value ≡ b.value
unfolding key_less
tied_value a b p h k = str_le_antisym a.value b.value (ground (arith, p, h)) (ground (arith, p, k))

same_key : (a b : EntityKey) → a.kind ≡ b.kind → a.value ≡ b.value → a ≡ b
same_key a b k v = ground (arith, k, v)

elem-head : (x : EntityKey) (xs : List EntityKey) → elem EntityKey-discrete x (x ∷ xs) ≡ true
elem-head x xs = ground arith

same_primary :
    (s t : List EntityKey)
    → IsOrdered s
    → IsOrdered t
    → ((k : EntityKey) → elem EntityKey-discrete k s ≡ elem EntityKey-discrete k t)
    → ((a b : EntityKey)
        → elem EntityKey-discrete a s ≡ true
        → elem EntityKey-discrete b s ≡ true
        → key_priority a.kind ≡ key_priority b.kind
        → a.kind ≡ b.kind)
    → primary_key s ≡ primary_key t
unfolding primary_key
same_primary [] [] o p same ranks = refl
same_primary [] (y ∷ ys) o p same ranks = cc (same y, elem-head y ys)
same_primary (x ∷ xs) [] o p same ranks = cc (same x, elem-head x xs)
same_primary (x ∷ xs) (y ∷ ys) o p same ranks =
    let y_here : elem EntityKey-discrete y (x ∷ xs) ≡ true = same y ∙ elem-head y ys in
    let x_there : elem EntityKey-discrete x (y ∷ ys) ≡ true = sym (same x) ∙ elem-head x xs in
    let first = All-elem (IsFirst x) y (x ∷ xs) (IsFirst-refl x, o.0) y_here in
    let back = All-elem (IsFirst y) x (y ∷ ys) (IsFirst-refl y, p.0) x_there in
    let rank = tied x y first back in
    ap (λ (k : EntityKey). some k)
      (same_key x y (ranks x y (elem-head x xs) y_here rank) (tied_value x y rank first back))

-- The same keys in any order, however often each, lead to the same id, if no two kinds among them
-- have one priority; and the keys are then sorted.
pub entity_id-order :
    {F : Type 0} (e : Env F) (keys others : List EntityKey)
    → ((k : EntityKey) → elem EntityKey-discrete k keys ≡ elem EntityKey-discrete k others)
    → HaveOwnRanks keys
    → (entity_id e (sort_keys keys) ≡ entity_id e (sort_keys others)) × IsOrdered (sort_keys keys)
unfolding entity_id sort_keys
entity_id-order e keys others same ranks =
    let s = sort_loop (length keys) keys in
    let t = sort_loop (length others) others in
    let ordered = sort_loop-IsOrdered (length keys) keys refl in
    let first =
      same_primary s t ordered (sort_loop-IsOrdered (length others) others refl)
        (λ k.
          elem-sort_loop k (length keys) keys
          ∙ same k
          ∙ sym (elem-sort_loop k (length others) others))
        (λ a b h k.
          All-elem _ b keys
            (All-elem _ a keys ranks (sym (elem-sort_loop a (length keys) keys) ∙ h))
            (sym (elem-sort_loop b (length keys) keys) ∙ k)) in
    (ap (id_of_primary e) first, ordered)
