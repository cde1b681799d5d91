-- ===== src/Postgres/Queries.antt =====
-- `list_by_state` of the repository of executions: its answer, described apart from its query.
use Prim.Native.Nat.{min}
use mathlib.Core.List.{Perm, perm_middle, map}
use mathlib.Core.List.Perm
use application_as_service.Prelude.{
  ℕ, ◌≡◌, ◌⊎◌, ◌≤◌, refl, inl, inr, Bool, true, false, not, ◌&&◌, Option, none, some, [], ◌∷◌, ◌++◌,
  arith, ◌==◌, length, length-take, take, drop, take-append-drop, select, All, All-map,
  All-select_test, ap, Bool-cases,
}
use application_as_service.Integers.{below, below_connected}
use application_as_service.Execution.{Uuid, ExecutionState, same_state}
use application_as_service.Postgres.{
  ExecutionOrm, Rows, comes_first, order_rows, rows_by_state, list_by_state, orm_to_domain,
}
use application_as_service.Postgres.Listing.{
  IsOrdered, matching, order_rows-IsOrdered, order_rows-perm, All-order_rows,
}

-- The row has a higher priority, or the same and is not younger.
abbrev pub Precedes : ExecutionOrm → ExecutionOrm → Type 0
Precedes a b =
    (below b.priority a.priority ≡ true)
    ⊎ ((a.priority ≡ b.priority) × (a.created_at ≤ b.created_at))

-- Each row precedes all that follow it.
abbrev pub IsSorted : Rows → Type 0
IsSorted [] = Unit
IsSorted (a ∷ rows) = All (Precedes a) rows × IsSorted rows

-- The row is in the state and, where a tenant is given, the tenant's.
abbrev pub IsWanted : ExecutionState → Option Uuid → ExecutionOrm → Type 0
IsWanted state tenant_id row =
    (row.state ≡ state) × ((tenant_id ≡ none) ⊎ (tenant_id ≡ some row.tenant_id))

comes_first-Precedes : (a b : ExecutionOrm) → comes_first a b ≡ true → Precedes a b
comes_first-Precedes a b h = elim (Bool-cases (below b.priority a.priority)) [
  | inl higher ↦ inl higher
  | inr not_higher ↦ elim (Bool-cases (below a.priority b.priority)) [
    | inl lower ↦ absurd (ground arith)
    | inr not_lower ↦ inr (below_connected a.priority b.priority not_lower not_higher, ground arith)
  ]
]

IsOrdered-IsSorted : (rows : Rows) → IsOrdered rows → IsSorted rows
IsOrdered-IsSorted [] h = tt
IsOrdered-IsSorted (a ∷ rows) h =
    (All-map _ _ (comes_first-Precedes a) rows h.0, IsOrdered-IsSorted rows h.1)

same_state_refl : (a : ExecutionState) → same_state a a ≡ true
same_state_refl a = ground arith

same_state-eq : (a b : ExecutionState) → same_state a b ≡ true → a ≡ b
same_state-eq a b h = ground arith

abbrev is_of : Option Uuid → ExecutionOrm → Bool
is_of none row = true
is_of (some tenant) row = row.tenant_id == tenant

abbrev is_wanted : ExecutionState → Option Uuid → ExecutionOrm → Bool
is_wanted state tenant_id row = same_state row.state state && is_of tenant_id row

is_wanted-IsWanted :
    (state : ExecutionState) (tenant_id : Option Uuid) (row : ExecutionOrm)
    → is_wanted state tenant_id row ≡ true
    → IsWanted state tenant_id row
is_wanted-IsWanted state none row h = (same_state-eq row.state state (ground arith), inl refl)
is_wanted-IsWanted state (some t) row h =
    (same_state-eq row.state state (ground arith), inr (ap some (ground arith)))

unwanted :
    (state : ExecutionState) (tenant_id : Option Uuid) (row : ExecutionOrm)
    → is_wanted state tenant_id row ≡ false
    → ¬ IsWanted state tenant_id row
unwanted state tenant_id row h (same, inl any) = ground (arith, same_state_refl state, same, any)
unwanted state tenant_id row h (same, inr own) = ground (arith, same_state_refl state, same, own)

matching-select :
    (state : ExecutionState) (tenant_id : Option Uuid) (rows : Rows)
    → matching state tenant_id rows ≡ select (is_wanted state tenant_id) rows
matching-select state none [] = refl
matching-select state (some t) [] = refl
matching-select state none (row ∷ rows) = ground (arith, matching-select state none rows)
matching-select state (some t) (row ∷ rows) = ground (arith, matching-select state (some t) rows)

matching-IsWanted :
    (state : ExecutionState) (tenant_id : Option Uuid) (rows : Rows)
    → All (IsWanted state tenant_id) (matching state tenant_id rows)
matching-IsWanted state tenant_id rows = rw (matching-select state tenant_id rows) (
    All-map _ _ (is_wanted-IsWanted state tenant_id) _
      (All-select_test (is_wanted state tenant_id) rows))

module _ (test : ExecutionOrm → Bool) where
  parted : (rows : Rows) → Perm (select test rows ++ select (λ row. not (test row)) rows) rows
  parted [] = Perm.refl []
  parted (row ∷ rows) = elim (Bool-cases (test row)) [
    | inl passes ↦ rw passes (Perm.cons row (parted rows))
    | inr fails ↦ rw fails (
        Perm.trans (perm_middle (select test rows) (select (λ row. not (test row)) rows))
          (Perm.cons row (parted rows)))
  ]

-- The executions that list_by_state returns are those of some rows. These and some further rows
-- are together, with all their copies, the rows of the table that are in the state and, where a
-- tenant is given, the tenant's: the rows that remain are not. The rows returned and then the
-- further ones are sorted: each has a higher priority than those after it, or the same and is not
-- younger. And the rows returned are as many as the limit, or all where there are fewer.
pub list_by_state_complete :
    (state : ExecutionState) (limit : ℕ) (tenant_id : Option Uuid) (rows : Rows)
    → (found : Rows) × (rest : Rows) × (others : Rows) × (list_by_state state limit tenant_id rows
        ≡ map orm_to_domain found)
      × Perm ((found ++ rest) ++ others) rows
      × All (IsWanted state tenant_id) (found ++ rest)
      × All (λ row. ¬ IsWanted state tenant_id row) others
      × IsSorted (found ++ rest)
      × (length found ≡ min limit (length (found ++ rest)))
unfolding list_by_state rows_by_state
list_by_state_complete state limit tenant_id rows =
    let test = is_wanted state tenant_id in
    let all = order_rows (matching state tenant_id rows) in
    let same = take-append-drop limit all in
    let others = select (λ row. not (test row)) rows in
    let perm : Perm all (select test rows) =
      rw (← matching-select state tenant_id rows)
        (order_rows-perm (matching state tenant_id rows)) in
    (
      take limit all,
      drop limit all,
      others,
      refl,
      rw same (Perm.trans (Perm.append_right others perm) (parted test rows)),
      rw same
          (All-order_rows (IsWanted state tenant_id) _ (matching-IsWanted state tenant_id rows)),
      All-map _ _ (λ row e. unwanted state tenant_id row (ground (arith, e))) others
          (All-select_test (λ row. not (test row)) rows),
      rw same (IsOrdered-IsSorted all (order_rows-IsOrdered (matching state tenant_id rows))),
      rw same (length-take limit all),
    )
