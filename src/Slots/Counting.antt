-- ===== src/Slots/Counting.antt =====
-- How many slots of a list are free and active.
use application_as_service.Prelude.{
  ℕ, zero, suc, ◌+◌, ◌<◌, ◌≡◌, ◌≢◌, refl, true, none, some, [], ◌∷◌, ◌++◌, arith, ◌==◌, length, All,
  All-append, All-map, sym, Bool-cases, inl, inr, subst,
}
use application_as_service.Prelude.Table
use application_as_service.Execution.{Uuid}
use application_as_service.Slots.{
  Slot, slot_key, is_free, Slots, range_slots, acquire_free_slot, active_slots,
  find_slot_by_execution, total_slots, free_slots, Counter,
}

-- The slots in the list have different ids.
abbrev pub HasDistinctIds : Slots → Type 0
HasDistinctIds [] = Unit
HasDistinctIds (s ∷ slots) = All (λ t. t.slot_id ≢ s.slot_id) slots × HasDistinctIds slots

-- The counter that a list of slots implements.
abbrev pub counter_of : Slots → Counter
counter_of slots = record { max_slots = total_slots slots; active = length (active_slots slots) }

pub free-active :
    (slots : Slots) → free_slots slots + length (active_slots slots) ≡ total_slots slots
unfolding free_slots active_slots total_slots
free-active [] = omega arith
free-active (s ∷ slots) = ground (arith, free-active slots)

pub acquire_free_slot-free :
    (slots : Slots) (s : Slot)
    → acquire_free_slot slots ≡ some s
    → (is_free s ≡ true) × (Table.find slot_key s.slot_id slots ≢ none)
unfolding acquire_free_slot Table.find
acquire_free_slot-free [] s h = ground arith
acquire_free_slot-free (t ∷ slots) s h = ground (arith, acquire_free_slot-free slots s)

pub acquire_free_slot-none :
    (slots : Slots)
    → acquire_free_slot slots ≡ none
    → length (active_slots slots) ≡ total_slots slots
unfolding acquire_free_slot active_slots total_slots
acquire_free_slot-none [] h = refl
acquire_free_slot-none (t ∷ slots) h = ground (arith, acquire_free_slot-none slots)

pub found-free-key :
    (slots : Slots) (k : ℕ)
    → All (λ t. t.slot_id ≢ k) slots
    → (s : Slot) → acquire_free_slot slots ≡ some s
    → s.slot_id ≢ k
unfolding acquire_free_slot
found-free-key [] k h s e = ground arith
found-free-key (t ∷ slots) k h s e = ground (arith, found-free-key slots k h.1 s)

-- A free slot that was found is taken by `bind`: one slot more is active.
pub bind_active :
    (slots : Slots) (id : Uuid) (s : Slot)
    → HasDistinctIds slots
    → acquire_free_slot slots ≡ some s
    → length (active_slots (Table.replace slot_key (record s { execution_id = some id }) slots))
      ≡ suc (length (active_slots slots))
unfolding acquire_free_slot active_slots Table.replace
bind_active [] id s d h = ground arith
bind_active (t ∷ slots) id s d h =
    ground (arith, bind_active slots id s d.1, found-free-key slots t.slot_id d.0 s)

pub held-key :
    (slots : Slots) (k : ℕ) (id : Uuid)
    → All (λ t. t.slot_id ≢ k) slots
    → (s : Slot) → find_slot_by_execution id slots ≡ some s
    → s.slot_id ≢ k
unfolding find_slot_by_execution
held-key [] k id h s e = ground arith
held-key (t ∷ slots) k id h s e = ground (arith, held-key slots k id h.1 s)

-- A slot that holds an execution is given back by `release`: one slot less is active.
pub release_active :
    (slots : Slots) (id : Uuid) (s : Slot)
    → HasDistinctIds slots
    → find_slot_by_execution id slots ≡ some s
    → suc (length (active_slots (Table.replace slot_key (record s { execution_id = none }) slots)))
      ≡ length (active_slots slots)
unfolding find_slot_by_execution active_slots Table.replace
release_active [] id s d h = ground arith
release_active (t ∷ slots) id s d h =
    ground (arith, release_active slots id s d.1, held-key slots t.slot_id id d.0 s)

-- Whatever is written to a slot, the ids stay as they are.
pub replace-HasDistinctIds :
    (b : Slot) (slots : Slots)
    → HasDistinctIds slots
    → HasDistinctIds (Table.replace slot_key b slots)
unfolding Table.replace
replace-HasDistinctIds b [] d = tt
replace-HasDistinctIds b (t ∷ slots) d = elim (Bool-cases (t.slot_id == b.slot_id)) [
  | inl same ↦
      let key : t.slot_id ≡ b.slot_id = ground arith in
      rw same (subst (λ k. All (λ u. u.slot_id ≢ k) slots) key d.0, d.1)
  | inr differs ↦ rw differs (
    Table.All-replace slot_key (λ u. u.slot_id ≢ t.slot_id) b slots (ground arith) d.0,
    replace-HasDistinctIds b slots d.1,
  )
]

pub range_slots-below :
    (n : ℕ) → All (λ s. (s.slot_id < n) × (s.execution_id ≡ none)) (range_slots n)
unfolding range_slots
range_slots-below zero = tt
range_slots-below (suc n) =
    All-append _ (range_slots n) (record { slot_id = n; execution_id = none } ∷ [])
      (All-map _ _ (λ s h. (omega (arith, h.0), h.1)) (range_slots n) (range_slots-below n))
      ((omega arith, refl), tt)

HasDistinctIds-append :
    (slots : Slots) (s : Slot)
    → All (λ t. t.slot_id ≢ s.slot_id) slots
    → HasDistinctIds slots
    → HasDistinctIds (slots ++ s ∷ [])
HasDistinctIds-append [] s h d = (tt, tt)
HasDistinctIds-append (t ∷ slots) s h d = (
  All-append _ slots (s ∷ []) d.0 ((λ e. h.0 (sym e)), tt),
  HasDistinctIds-append slots s h.1 d.1,
)

pub range_slots-HasDistinctIds : (n : ℕ) → HasDistinctIds (range_slots n)
unfolding range_slots
range_slots-HasDistinctIds zero = tt
range_slots-HasDistinctIds (suc n) =
    HasDistinctIds-append (range_slots n) (record { slot_id = n; execution_id = none })
      (All-map _ _ (λ s h e. omega (arith, h.0, e)) (range_slots n) (range_slots-below n))
      (range_slots-HasDistinctIds n)
