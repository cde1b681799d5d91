-- ===== src/Slots/Refinement.antt =====
-- The list of slots beside the counter, and the slots of an executor over time.
use application_as_service.Prelude.{
  ℕ, zero, suc, ◌<◌, ◌≡◌, refl, Option, none, some, List, [], ◌∷◌, arith, length, length-append,
  Option-cases, inl, inr,
}
use application_as_service.Prelude.Table
use application_as_service.Outcome.{ok}
use application_as_service.Execution.{Uuid}
use application_as_service.Slots.{
  Slot, slot_key, Slots, range_slots, acquire_free_slot, active_slots, find_slot_by_execution,
  total_slots, bind, release, Counter, acquire, release_one, has_free_slot, take_slot, give_back,
}
use application_as_service.Slots.Counting.{
  HasDistinctIds, counter_of, free-active, acquire_free_slot-free, acquire_free_slot-none,
  bind_active, release_active, replace-HasDistinctIds,
}

pub acquire_free_slot-below :
    (slots : Slots) (s : Slot)
    → acquire_free_slot slots ≡ some s
    → length (active_slots slots) < total_slots slots
unfolding acquire_free_slot active_slots total_slots
acquire_free_slot-below [] s h = ground arith
acquire_free_slot-below (t ∷ slots) s h =
    ground (arith, acquire_free_slot-below slots s, free-active slots)

-- For slots with different ids, to acquire a free slot and bind it never raises, succeeds exactly
-- if the counter would, and leads to slots whose counts are those of the counter after acquire.
pub take_slot-refines :
    (id : Uuid) (slots : Slots)
    → HasDistinctIds slots
    → ((take_slot id slots).0 ≡ ok (acquire (counter_of slots)).0)
      × (counter_of (take_slot id slots).1 ≡ (acquire (counter_of slots)).1)
unfolding take_slot bind acquire has_free_slot total_slots
take_slot-refines id slots d = elim (Option-cases (acquire_free_slot slots)) [
  | inl full ↦ ground (arith, acquire_free_slot-none slots full)
  | inr (s, found) ↦ ground (
    arith,
    acquire_free_slot-free slots s found,
    acquire_free_slot-below slots s found,
    bind_active slots id s d found,
    Table.length-replace slot_key (record s { execution_id = some id }) slots,
  )
]

abbrev pub release_if : Option Slot → Counter → Counter
release_if none c = c
release_if (some slot) c = release_one c

-- For slots with different ids, to find the slot of an execution and release it does to the
-- counts what release of the counter does if the slot is found, and nothing if it is not.
pub give_back-refines :
    (id : Uuid) (slots : Slots)
    → HasDistinctIds slots
    → counter_of (give_back id slots)
      ≡ release_if (find_slot_by_execution id slots) (counter_of slots)
unfolding give_back release release_one total_slots
give_back-refines id slots d = elim (Option-cases (find_slot_by_execution id slots)) [
  | inl missing ↦ ground arith
  | inr (s, found) ↦ ground (
    arith,
    release_active slots id s d found,
    Table.length-replace slot_key (record s { execution_id = none }) slots,
  )
]

-- What an executor asks of its slots.
pub data Request : Type 0 where
  take finish : Uuid → Request

unfoldable pub handle : List Request → Slots → Slots
handle [] slots = slots
handle (take id ∷ rs) slots = handle rs (take_slot id slots).1
handle (finish id ∷ rs) slots = handle rs (give_back id slots)

pub take_slot-kept :
    (id : Uuid) (slots : Slots)
    → HasDistinctIds slots
    → HasDistinctIds (take_slot id slots).1
      × (total_slots (take_slot id slots).1 ≡ total_slots slots)
unfolding take_slot bind total_slots
take_slot-kept id slots d = elim (Option-cases (acquire_free_slot slots)) [
  | inl full ↦ rw full (d, refl)
  | inr (s, found) ↦
      let row = record s { execution_id = some id } in
      ground (
        arith,
        acquire_free_slot-free slots s found,
        replace-HasDistinctIds row slots d,
        Table.length-replace slot_key row slots,
      )
]

pub give_back-kept :
    (id : Uuid) (slots : Slots)
    → HasDistinctIds slots
    → HasDistinctIds (give_back id slots) × (total_slots (give_back id slots) ≡ total_slots slots)
unfolding give_back release total_slots
give_back-kept id slots d = elim (Option-cases (find_slot_by_execution id slots)) [
  | inl missing ↦ rw missing (d, refl)
  | inr (s, found) ↦
      let row = record s { execution_id = none } in
      rw found (replace-HasDistinctIds row slots d, Table.length-replace slot_key row slots)
]

pub length-range_slots : (n : ℕ) → length (range_slots n) ≡ n
unfolding range_slots
length-range_slots zero = refl
length-range_slots (suc n) = omega (
  arith,
  length-append (range_slots n) (record { slot_id = n; execution_id = none } ∷ []),
  length-range_slots n,
)
