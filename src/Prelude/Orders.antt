-- ===== src/Prelude/Orders.antt =====
-- What all or some items of a list have, through a filter and through a sort.
use mathlib.Core.Path.{◌≡◌}
use mathlib.Core.Logic.{◌⊎◌, inl, inr}
use mathlib.Core.Bool.{Bool, true}
use mathlib.Core.List.{List, [], ◌∷◌}
use native.Mathlib.Omega.{arith}
use application_as_service.Prelude.Tests.{Bool-cases}
use application_as_service.Prelude.Lists.{All, Any, select, insert_by, sort_by}

module _ {ℓ} {A : Type ℓ} where
  pub All-select_elim :
      (P : A → Type 0) (test : A → Bool) (xs : List A)
      → All P (select test xs)
      → All (λ x. test x ≡ true → P x) xs
  All-select_elim P test [] h = tt
  All-select_elim P test (x ∷ xs) h = elim (Bool-cases (test x)) [
    | inl passes ↦
        let h' : P x × All P (select test xs) = rw passes at h in
        (λ e. h'.0, All-select_elim P test xs h'.1)
    | inr fails ↦
        let h' : All P (select test xs) = rw fails at h in
        (λ e. absurd (ground (arith, e, fails)), All-select_elim P test xs h')
  ]

  pub All-select_intro :
      (P : A → Type 0) (test : A → Bool) (xs : List A)
      → All (λ x. test x ≡ true → P x) xs
      → All P (select test xs)
  All-select_intro P test [] h = tt
  All-select_intro P test (x ∷ xs) h = elim (Bool-cases (test x)) [
    | inl passes ↦ rw passes (h.0 passes, All-select_intro P test xs h.1)
    | inr fails ↦ rw fails (All-select_intro P test xs h.1)
  ]

  pub Any-select :
      (P : A → Type 0) (test : A → Bool) (xs : List A)
      → Any P (select test xs)
      → Any (λ x. (test x ≡ true) × P x) xs
  Any-select P test [] h = absurd h
  Any-select P test (x ∷ xs) h = elim (Bool-cases (test x)) [
    | inl passes ↦
        let h' : P x ⊎ Any P (select test xs) = rw passes at h in
        elim h' [ inl here ↦ inl (passes, here) | inr there ↦ inr (Any-select P test xs there) ]
    | inr fails ↦ let h' : Any P (select test xs) = rw fails at h in inr (Any-select P test xs h')
  ]

  pub Any-select_intro :
      (P : A → Type 0) (test : A → Bool) (xs : List A)
      → Any (λ x. (test x ≡ true) × P x) xs
      → Any P (select test xs)
  Any-select_intro P test [] h = absurd h
  Any-select_intro P test (x ∷ xs) (inl here) = rw (here.0) (inl here.1)
  Any-select_intro P test (x ∷ xs) (inr there) = elim (Bool-cases (test x)) [
    | inl passes ↦ rw passes (inr (Any-select_intro P test xs there))
    | inr fails ↦ rw fails (Any-select_intro P test xs there)
  ]

  pub Any-map : (P Q : A → Type 0) → ((x : A) → P x → Q x) → (xs : List A) → Any P xs → Any Q xs
  Any-map P Q f [] h = absurd h
  Any-map P Q f (x ∷ xs) (inl here) = inl (f x here)
  Any-map P Q f (x ∷ xs) (inr there) = inr (Any-map P Q f xs there)

  module _ (P : A → Type 0) (le : A → A → Bool) where
    All-insert_by_elim : (a : A) (xs : List A) → All P (insert_by le a xs) → P a × All P xs
    unfolding insert_by
    All-insert_by_elim a [] h = h
    All-insert_by_elim a (x ∷ xs) h = elim (Bool-cases (le a x)) [
      | inl first ↦ rw first at h
      | inr later ↦
          let h' : P x × All P (insert_by le a xs) = rw later at h in
          let rest = All-insert_by_elim a xs h'.1 in (rest.0, (h'.0, rest.1))
    ]

    pub All-sort_by_elim : (xs : List A) → All P (sort_by le xs) → All P xs
    unfolding sort_by
    All-sort_by_elim [] h = tt
    All-sort_by_elim (x ∷ xs) h =
        let parts = All-insert_by_elim x (sort_by le xs) h in (parts.0, All-sort_by_elim xs parts.1)

    Any-insert_by : (a : A) (xs : List A) → Any P (insert_by le a xs) → P a ⊎ Any P xs
    unfolding insert_by
    Any-insert_by a [] h = h
    Any-insert_by a (x ∷ xs) h = elim (Bool-cases (le a x)) [
      | inl first ↦ let h' : P a ⊎ P x ⊎ Any P xs = rw first at h in h'
      | inr later ↦
          let h' : P x ⊎ Any P (insert_by le a xs) = rw later at h in
          elim h' [
            | inl here ↦ inr (inl here)
            | inr there ↦ elim (Any-insert_by a xs there) [
              | inl new ↦ inl new
              | inr old ↦ inr (inr old)
            ]
          ]
    ]

    pub Any-sort_by : (xs : List A) → Any P (sort_by le xs) → Any P xs
    unfolding sort_by
    Any-sort_by [] h = h
    Any-sort_by (x ∷ xs) h = elim (Any-insert_by x (sort_by le xs) h) [
      | inl here ↦ inl here
      | inr there ↦ inr (Any-sort_by xs there)
    ]
