-- ===== src/Prelude/Lists.antt =====
-- Lists counted by native numbers, predicates on all the items of a list, and the two kinds of
-- loop that the program writes over a list: a filter and a search.
use Prim.Native.Nat.{ℕ, zero, suc, ◌+◌, ◌≤◌, ◌<◌, min}
use mathlib.Core.Path.{◌≡◌, refl}
use mathlib.Core.Logic.{◌⊎◌, inl, inr}
use mathlib.Core.Bool.{Bool, true, false}
use mathlib.Core.List.{List, [], ◌∷◌, ◌++◌}
use native.Mathlib.Omega.{arith}
use application_as_service.Prelude.Tests.{Bool-cases, if◌then◌else◌}

module _ {ℓ} {A : Type ℓ} where
  abbrev pub length : List A → ℕ
  length [] = 0
  length (x ∷ xs) = suc (length xs)

  abbrev pub take : ℕ → List A → List A
  take zero xs = []
  take (suc n) [] = []
  take (suc n) (x ∷ xs) = x ∷ take n xs

  -- `[x for x in xs if test(x)]`
  abbrev pub select : (A → Bool) → List A → List A
  select test [] = []
  select test (x ∷ xs) = let rest = select test xs in if test x then x ∷ rest else rest

  -- `sum(1 for x in xs if test(x))`
  abbrev pub count_if : (A → Bool) → List A → ℕ
  count_if test [] = 0
  count_if test (x ∷ xs) = let rest = count_if test xs in if test x then suc rest else rest

  pub length-append : (xs ys : List A) → length (xs ++ ys) ≡ length xs + length ys
  length-append [] ys = omega arith
  length-append (x ∷ xs) ys = omega (arith, length-append xs ys)

module _ {ℓ} {A : Type ℓ} where
  abbrev pub drop : ℕ → List A → List A
  drop zero xs = xs
  drop (suc n) [] = []
  drop (suc n) (x ∷ xs) = drop n xs

  pub take-append-drop : (n : ℕ) (xs : List A) → take n xs ++ drop n xs ≡ xs
  take-append-drop zero xs = refl
  take-append-drop (suc n) [] = refl
  take-append-drop (suc n) (x ∷ xs) = rw (take-append-drop n xs)

  pub length-take : (n : ℕ) (xs : List A) → length (take n xs) ≡ min n (length xs)
  length-take zero xs = omega arith
  length-take (suc n) [] = omega arith
  length-take (suc n) (x ∷ xs) = omega (arith, length-take n xs)

  pub length-select : (test : A → Bool) (xs : List A) → length (select test xs) ≡ count_if test xs
  length-select test [] = refl
  length-select test (x ∷ xs) = ground (arith, length-select test xs)

  pub count_if-le : (test : A → Bool) (xs : List A) → count_if test xs ≤ length xs
  count_if-le test [] = omega arith
  count_if-le test (x ∷ xs) = ground (arith, count_if-le test xs)

abbrev pub All {ℓ κ} : {A : Type ℓ} → (A → Type κ) → List A → Type κ
All P [] = Unit
All P (x ∷ xs) = P x × All P xs

module _ {ℓ κ} {A : Type ℓ} where
  pub All-take : (P : A → Type κ) (n : ℕ) (xs : List A) → All P xs → All P (take n xs)
  All-take P zero xs h = tt
  All-take P (suc n) [] h = tt
  All-take P (suc n) (x ∷ xs) h = (h.0, All-take P n xs h.1)

  pub All-select :
      (P : A → Type κ) (test : A → Bool) (xs : List A) → All P xs → All P (select test xs)
  All-select P test [] h = tt
  All-select P test (x ∷ xs) h = elim (Bool-cases (test x)) [
    | inl passes ↦ rw passes (h.0, All-select P test xs h.1)
    | inr fails ↦ rw fails (All-select P test xs h.1)
  ]

  pub All-append : (P : A → Type κ) (xs ys : List A) → All P xs → All P ys → All P (xs ++ ys)
  All-append P [] ys h k = k
  All-append P (x ∷ xs) ys h k = (h.0, All-append P xs ys h.1 k)

  pub All-map : (P Q : A → Type κ) → ((x : A) → P x → Q x) → (xs : List A) → All P xs → All Q xs
  All-map P Q f [] h = tt
  All-map P Q f (x ∷ xs) h = (f x h.0, All-map P Q f xs h.1)

module _ {ℓ} {A : Type ℓ} where
  pub All-select_test : (test : A → Bool) (xs : List A) → All (λ x. test x ≡ true) (select test xs)
  All-select_test test [] = tt
  All-select_test test (x ∷ xs) = elim (Bool-cases (test x)) [
    | inl passes ↦ rw passes (passes, All-select_test test xs)
    | inr fails ↦ rw fails (All-select_test test xs)
  ]

-- Some item has the property.
abbrev pub Any {ℓ} : {A : Type ℓ} → (A → Type 0) → List A → Type 0
Any P [] = ⊥
Any P (x ∷ xs) = P x ⊎ Any P xs

module _ {ℓ} {A : Type ℓ} (test : A → Bool) where
  pub count_if-Any : (xs : List A) → Any (λ x. test x ≡ true) xs → 0 < count_if test xs
  count_if-Any [] h = ground arith
  count_if-Any (x ∷ xs) h = ground (arith, count_if-Any xs)

  pub count_if_zero : (xs : List A) → All (λ x. test x ≡ false) xs → count_if test xs ≡ 0
  count_if_zero [] h = refl
  count_if_zero (x ∷ xs) h = ground (arith, count_if_zero xs h.1)

  pub count_if-All : (xs : List A) → All (λ x. test x ≡ true) xs → count_if test xs ≡ length xs
  count_if-All [] h = refl
  count_if-All (x ∷ xs) h = ground (arith, count_if-All xs h.1)

  pub count_if-below : (xs : List A) → Any (λ x. test x ≡ false) xs → count_if test xs < length xs
  count_if-below [] h = ground arith
  count_if-below (x ∷ xs) h = ground (arith, count_if-below xs, count_if-le test xs)

-- `ORDER BY`: the items in an order `le`, items that agree in it as they stand.
module _ {ℓ} {A : Type ℓ} (le : A → A → Bool) where
  unfoldable pub insert_by : A → List A → List A
  insert_by a [] = a ∷ []
  insert_by a (b ∷ bs) = let rest = insert_by a bs in if le a b then a ∷ b ∷ bs else b ∷ rest

  unfoldable pub sort_by : List A → List A
  unfolding insert_by
  sort_by [] = []
  sort_by (a ∷ as') = insert_by a (sort_by as')
