-- ===== src/Postgres/Listing.antt =====
-- The queries on the table `executions`: what `list_by_state` returns, and in which order.
use Prim.Native.Nat.{min}
use mathlib.Core.List.{Perm}
use mathlib.Core.List.Perm
use application_as_service.Prelude.{
  ℕ, suc, ◌≡◌, refl, true, false, Option, none, some, [], ◌∷◌, ◌++◌, arith, ◌==◌, length, drop,
  take-append-drop, length-take, select, All, All-take, All-select, All-select_test, ap, ◌∙◌,
  Bool-cases, inl, inr,
}
use application_as_service.Execution.{Uuid, ExecutionState, same_state}
use application_as_service.Postgres.{
  ExecutionOrm, Rows, comes_first, insert_row, order_rows, of_tenant, rows_by_state,
}

-- Each row may stand before all that follow it.
abbrev pub IsOrdered : Rows → Type 0
IsOrdered [] = Unit
IsOrdered (a ∷ rows) = All (λ b. comes_first a b ≡ true) rows × IsOrdered rows

comes_first_total : (a b : ExecutionOrm) → comes_first a b ≡ false → comes_first b a ≡ true
comes_first_total a b h = ground arith

comes_first_trans :
    (a b c : ExecutionOrm)
    → comes_first a b ≡ true
    → comes_first b c ≡ true
    → comes_first a c ≡ true
comes_first_trans a b c h k = ground arith

All-comes_first :
    (a b : ExecutionOrm) (rows : Rows)
    → comes_first a b ≡ true
    → All (λ c. comes_first b c ≡ true) rows
    → All (λ c. comes_first a c ≡ true) rows
All-comes_first a b [] h k = tt
All-comes_first a b (c ∷ rows) h k = (comes_first_trans a b c h k.0, All-comes_first a b rows h k.1)

All-insert_row :
    (P : ExecutionOrm → Type 0) (a : ExecutionOrm) (rows : Rows)
    → P a
    → All P rows
    → All P (insert_row a rows)
unfolding insert_row
All-insert_row P a [] h k = (h, tt)
All-insert_row P a (b ∷ rows) h k = elim (Bool-cases (comes_first a b)) [
  | inl first ↦ rw first (h, k)
  | inr later ↦ rw later (k.0, All-insert_row P a rows h k.1)
]

insert_row-IsOrdered :
    (a : ExecutionOrm) (rows : Rows) → IsOrdered rows → IsOrdered (insert_row a rows)
unfolding insert_row
insert_row-IsOrdered a [] h = (tt, tt)
insert_row-IsOrdered a (b ∷ rows) h = elim (Bool-cases (comes_first a b)) [
  | inl first ↦ rw first ((first, All-comes_first a b rows first h.0), h)
  | inr later ↦
      rw later
        (All-insert_row _ a rows (comes_first_total a b later) h.0, insert_row-IsOrdered a rows h.1)
]

pub order_rows-IsOrdered : (rows : Rows) → IsOrdered (order_rows rows)
unfolding order_rows
order_rows-IsOrdered [] = tt
order_rows-IsOrdered (a ∷ rows) =
    insert_row-IsOrdered a (order_rows rows) (order_rows-IsOrdered rows)

insert_row-perm : (a : ExecutionOrm) (rows : Rows) → Perm (insert_row a rows) (a ∷ rows)
unfolding insert_row
insert_row-perm a [] = Perm.refl (a ∷ [])
insert_row-perm a (b ∷ rows) = elim (Bool-cases (comes_first a b)) [
  | inl first ↦ rw first (Perm.refl (a ∷ b ∷ rows))
  | inr later ↦ rw later (Perm.trans (Perm.cons b (insert_row-perm a rows)) (Perm.swap a b rows))
]

pub order_rows-perm : (rows : Rows) → Perm (order_rows rows) rows
unfolding order_rows
order_rows-perm [] = Perm.refl []
order_rows-perm (a ∷ rows) =
    Perm.trans (insert_row-perm a (order_rows rows)) (Perm.cons a (order_rows-perm rows))

length-insert_row :
    (a : ExecutionOrm) (rows : Rows) → length (insert_row a rows) ≡ suc (length rows)
unfolding insert_row
length-insert_row a [] = refl
length-insert_row a (b ∷ rows) = ground (arith, length-insert_row a rows)

length-order_rows : (rows : Rows) → length (order_rows rows) ≡ length rows
unfolding order_rows
length-order_rows [] = refl
length-order_rows (a ∷ rows) =
    length-insert_row a (order_rows rows) ∙ ap suc (length-order_rows rows)

module _ (P : ExecutionOrm → Type 0) where
  pub All-order_rows : (rows : Rows) → All P rows → All P (order_rows rows)
  unfolding order_rows
  All-order_rows [] h = tt
  All-order_rows (a ∷ rows) h = All-insert_row P a (order_rows rows) h.0 (All-order_rows rows h.1)

  All-of_tenant :
      (tenant_id : Option Uuid) (rows : Rows) → All P rows → All P (of_tenant tenant_id rows)
  All-of_tenant none rows h = h
  All-of_tenant (some tenant) rows h = All-select P (λ row. row.tenant_id == tenant) rows h

-- The rows that a query asks for, whatever their order and number.
abbrev pub matching : ExecutionState → Option Uuid → Rows → Rows
matching state tenant_id rows =
    of_tenant tenant_id (select (λ row. same_state row.state state) rows)

-- The rows that the query of list_by_state returns, followed by some rest, are a permutation of
-- all the rows of the state (and of the tenant, where one is given), ordered by priority from
-- high to low and then by age; and the rows returned are the minimum of the limit and the number
-- of those rows.
pub rows_by_state_complete :
    (state : ExecutionState) (limit : ℕ) (tenant_id : Option Uuid) (rows : Rows)
    → (rest : Rows) × Perm
        (rows_by_state state limit tenant_id rows ++ rest)
        (matching state tenant_id rows)
      × IsOrdered (rows_by_state state limit tenant_id rows ++ rest)
      × (length (rows_by_state state limit tenant_id rows)
          ≡ min limit (length (matching state tenant_id rows)))
unfolding rows_by_state
rows_by_state_complete state limit tenant_id rows =
    let found = matching state tenant_id rows in
    (
      drop limit (order_rows found),
      rw (take-append-drop limit (order_rows found)) (order_rows-perm found),
      rw (take-append-drop limit (order_rows found)) (order_rows-IsOrdered found),
      length-take limit (order_rows found) ∙ ap (min limit) (length-order_rows found),
    )

-- What holds of all rows of the table holds of those returned.
pub All-rows_by_state :
    (P : ExecutionOrm → Type 0) (state : ExecutionState) (limit : ℕ) (tenant_id : Option Uuid)
    (rows : Rows)
    → All P rows
    → All P (rows_by_state state limit tenant_id rows)
unfolding rows_by_state
All-rows_by_state P state limit tenant_id rows h =
    let test = λ (row : ExecutionOrm). same_state row.state state in
    All-take P limit (order_rows (matching state tenant_id rows)) (
      All-order_rows P (matching state tenant_id rows)
        (All-of_tenant P tenant_id (select test rows) (All-select P test rows h)))

-- Every row returned is in the state that was asked for.
pub rows_by_state-state :
    (state : ExecutionState) (limit : ℕ) (tenant_id : Option Uuid) (rows : Rows)
    → All (λ row. same_state row.state state ≡ true) (rows_by_state state limit tenant_id rows)
unfolding rows_by_state
rows_by_state-state state limit tenant_id rows =
    let test = λ (row : ExecutionOrm). same_state row.state state in
    All-take _ limit (order_rows (matching state tenant_id rows)) (
      All-order_rows _ (matching state tenant_id rows)
        (All-of_tenant _ tenant_id (select test rows) (All-select_test test rows)))
