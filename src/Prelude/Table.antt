-- ===== src/Prelude/Table.antt =====
-- Rows with a key: a Python dict in the order of insertion, or a database table with a primary key.
use Prim.Native.Nat.{ℕ}
use mathlib.Core.Path.{◌≡◌, refl, ◌∙◌, subst}
use mathlib.Core.Logic.{◌≢◌}
use mathlib.Core.Option.{Option, none, some}
use mathlib.Core.List.{List, [], ◌∷◌, ◌++◌}
use native.Mathlib.Decide.{ℕ_discrete}
use native.Mathlib.Omega.{arith}
use mathlib.Core.Logic.{inl, inr}
use application_as_service.Prelude.Tests.{Bool-cases, ◌==◌, if◌then◌else◌}
use application_as_service.Prelude.Lists.{length, All, Any}

module _ {A : Type 0} (key : A → ℕ) where
  -- `rows.get(k)`, or the row whose primary key is `k`
  unfoldable pub find : ℕ → List A → Option A
  find k [] = none
  find k (a ∷ rows) = if key a == k then some a else find k rows

  -- The row with the key of `b` becomes `b`; without such a row nothing changes.
  unfoldable pub replace : A → List A → List A
  replace b [] = []
  replace b (a ∷ rows) = if key a == key b then b ∷ rows else a ∷ replace b rows

  pub key-find : (k : ℕ) (rows : List A) (a : A) → find k rows ≡ some a → key a ≡ k
  unfolding find
  key-find k [] b h = ground arith
  key-find k (a ∷ rows) b h = ground (arith, key-find k rows b)

  pub find-replace_self :
      (b : A) (rows : List A) (a : A)
      → find (key b) rows ≡ some a
      → find (key b) (replace b rows) ≡ some b
  unfolding find replace
  find-replace_self b [] a h = ground arith
  find-replace_self b (c ∷ rows) a h = ground (arith, find-replace_self b rows a)

  -- The same, by the key under which the old row was found.
  pub find-replace_found :
      (k : ℕ) (b : A) (rows : List A) (a : A)
      → key b ≡ key a
      → find k rows ≡ some a
      → find k (replace b rows) ≡ some b
  find-replace_found k b rows a same found =
      let e = same ∙ key-find k rows a found in rw (← e) (find-replace_self b rows a (rw e found))

  pub find-replace_ne :
      (k : ℕ) (b : A) (rows : List A) → key b ≢ k → find k (replace b rows) ≡ find k rows
  unfolding find replace
  find-replace_ne k b [] h = refl
  find-replace_ne k b (a ∷ rows) h = ground (arith, find-replace_ne k b rows h)

  pub find-append_self :
      (b : A) (rows : List A) → find (key b) rows ≡ none → find (key b) (rows ++ b ∷ []) ≡ some b
  unfolding find
  find-append_self b [] h = ground arith
  find-append_self b (a ∷ rows) h = ground (arith, find-append_self b rows)

  pub find-append_ne :
      (k : ℕ) (b : A) (rows : List A) → key b ≢ k → find k (rows ++ b ∷ []) ≡ find k rows
  unfolding find
  find-append_ne k b [] h = ground arith
  find-append_ne k b (a ∷ rows) h = ground (arith, find-append_ne k b rows h)

  pub find-replace_if :
      (b : A) (rows : List A) (a : A)
      → find (key b) rows ≡ some a
      → (j : ℕ) → find j (replace b rows) ≡ (if key b == j then some b else find j rows)
  find-replace_if b rows a found j = elim (ℕ_discrete (key b) j) [
    | yes same ↦ ground (
      arith,
      subst (λ k. find k (replace b rows) ≡ some b) same (find-replace_self b rows a found),
    )
    | no differs ↦ ground (arith, find-replace_ne j b rows differs)
  ]

  pub find-append_if :
      (b : A) (rows : List A)
      → find (key b) rows ≡ none
      → (j : ℕ) → find j (rows ++ b ∷ []) ≡ (if key b == j then some b else find j rows)
  find-append_if b rows missing j = elim (ℕ_discrete (key b) j) [
    | yes same ↦ ground (
      arith,
      subst (λ k. find k (rows ++ b ∷ []) ≡ some b) same (find-append_self b rows missing),
    )
    | no differs ↦ ground (arith, find-append_ne j b rows differs)
  ]

  pub length-replace : (b : A) (rows : List A) → length (replace b rows) ≡ length rows
  unfolding replace
  length-replace b [] = refl
  length-replace b (a ∷ rows) = ground (arith, length-replace b rows)

  pub All-replace :
      (P : A → Type 0) (b : A) (rows : List A) → P b → All P rows → All P (replace b rows)
  unfolding replace
  All-replace P b [] hb h = tt
  All-replace P b (a ∷ rows) hb h = ground (arith, All-replace P b rows hb h.1)

  pub All-find :
      (P : A → Type 0) (k : ℕ) (rows : List A) (a : A) → All P rows → find k rows ≡ some a → P a
  unfolding find
  All-find P k [] b h e = ground arith
  All-find P k (a ∷ rows) b h e = ground (arith, All-find P k rows b h.1)

  pub find-Any :
      (k : ℕ) (rows : List A) → Any (λ a. key a ≡ k) rows → (a : A) × (find k rows ≡ some a)
  unfolding find
  find-Any k [] h = absurd h
  find-Any k (a ∷ rows) h = elim (Bool-cases (key a == k)) [
    | inl same ↦ (a, rw same refl)
    | inr other ↦ elim h [
      | inl here ↦ absurd (ground arith)
      | inr there ↦ rw other (find-Any k rows there)
    ]
  ]
