-- ===== src/Slots/Bags.antt =====
-- Bags of executions, as lists: what the slots of an executor should hold.
use application_as_service.Prelude.{
  ℕ, suc, ◌+◌, ◌≡◌, ◌<◌, Bool, List, [], ◌∷◌, arith, refl, ◌==◌, if◌then◌else◌, length, count_if,
}
use application_as_service.Execution.{Uuid}

-- How often an execution stands in a list.
abbrev pub occurrences : Uuid → List Uuid → ℕ
occurrences j ids = count_if (λ id. id == j) ids

-- The executions with one occurrence of `id` less.
unfoldable pub remove_one : Uuid → List Uuid → List Uuid
remove_one id [] = []
remove_one id (e ∷ ids) = let rest = remove_one id ids in if e == id then ids else e ∷ rest

abbrev pub one_if : Bool → ℕ
one_if b = if b then 1 else 0

pub remove_one-absent :
    (id : Uuid) (ids : List Uuid) → occurrences id ids ≡ 0 → remove_one id ids ≡ ids
unfolding remove_one
remove_one-absent id [] h = refl
remove_one-absent id (e ∷ ids) h = ground (arith, remove_one-absent id ids)

pub remove_one-occurrences :
    (id j : Uuid) (ids : List Uuid)
    → 0 < occurrences id ids
    → one_if (id == j) + occurrences j (remove_one id ids) ≡ occurrences j ids
unfolding remove_one
remove_one-occurrences id j [] h = absurd (ground arith)
remove_one-occurrences id j (e ∷ ids) h = ground (arith, remove_one-occurrences id j ids)

pub length-remove_one :
    (id : Uuid) (ids : List Uuid)
    → 0 < occurrences id ids
    → suc (length (remove_one id ids)) ≡ length ids
unfolding remove_one
length-remove_one id [] h = absurd (ground arith)
length-remove_one id (e ∷ ids) h = ground (arith, length-remove_one id ids)
