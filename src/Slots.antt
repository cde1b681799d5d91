-- ===== src/Slots.antt =====
-- execution_engine/executor/slots.py: the slots of an executor, and slot_manager.py: the counter
-- that does the same work. `slot_id` is the place of the slot in the list, as the constructor makes
-- it, and a slot that a method returns is the object in the list: `bind` and `release` of a slot
-- change the list at that id.
pub mod Counting
pub mod Refinement
pub mod Bags
pub mod Held
use application_as_service.Prelude.{
  ℕ, zero, suc, ◌+◌, ◌-◌, ◌≡◌, Bool, true, false, not, Option, none, some, List, [], ◌∷◌, ltb, ◌==◌,
  ◌++◌, length, select, count_if, if◌then◌else◌,
}
use application_as_service.Prelude.Table
use application_as_service.Outcome.{Result, ok, err, Action, proceed, value_error}
use application_as_service.Execution.{Uuid}

pub record Slot : Type 0 where
  pub slot_id : ℕ
  pub execution_id : Option Uuid

abbrev pub slot_key : Slot → ℕ
slot_key slot = slot.slot_id

abbrev pub is_free : Slot → Bool
is_free slot = elim slot.execution_id [ none ↦ true | some id ↦ false ]

abbrev pub Slots : Type 0
Slots = List Slot

-- `[Slot(i) for i in range(n)]`
unfoldable pub range_slots : ℕ → Slots
range_slots zero = []
range_slots (suc n) = range_slots n ++ record { slot_id = n; execution_id = none } ∷ []

-- `SlotManager(max_slots)`
unfoldable pub slot_manager : ℕ → Result Slots
unfolding range_slots
slot_manager max_slots = if ltb max_slots 1 then err value_error else ok (range_slots max_slots)

unfoldable pub acquire_free_slot : Slots → Option Slot
acquire_free_slot [] = none
acquire_free_slot (slot ∷ slots) = if is_free slot then some slot else acquire_free_slot slots

unfoldable pub active_slots : Slots → Slots
active_slots slots = select (λ s. not (is_free s)) slots

abbrev pub holds : Uuid → Slot → Bool
holds id slot = elim slot.execution_id [ none ↦ false | some e ↦ e == id ]

unfoldable pub find_slot_by_execution : Uuid → Slots → Option Slot
find_slot_by_execution id [] = none
find_slot_by_execution id (slot ∷ slots) =
    if holds id slot then some slot else find_slot_by_execution id slots

unfoldable pub total_slots : Slots → ℕ
total_slots slots = length slots

unfoldable pub free_slots : Slots → ℕ
free_slots slots = count_if is_free slots

-- `slot.bind(execution_id)`, where `slot` is an object of the list
unfoldable pub bind : Slot → Uuid → Action Slots (Unit {0})
bind slot id slots =
    if not (is_free slot)
    then (err value_error, slots)
    else (ok tt, Table.replace slot_key (record slot { execution_id = some id }) slots)

-- `slot.release()`
unfoldable pub release : Slot → Slots → Slots
release slot slots = Table.replace slot_key (record slot { execution_id = none }) slots

-- The counter of slot_manager.py.
pub record Counter : Type 0 where
  pub max_slots : ℕ
  pub active : ℕ

unfoldable pub has_free_slot : Counter → Bool
has_free_slot c = ltb c.active c.max_slots

unfoldable pub acquire : Counter → Bool × Counter
unfolding has_free_slot
acquire c = if not (has_free_slot c) then (false, c) else (true, record c { active = c.active + 1 })

unfoldable pub release_one : Counter → Counter
release_one c = if ltb 0 c.active then record c { active = c.active - 1 } else c

-- What the executor does with its slots: it takes a free slot, where there is one, and binds it;
-- and it looks for the slot of an execution and releases it.
abbrev pub bind_found : Uuid → Slots → Option Slot → Result Bool × Slots
bind_found id slots none = (ok false, slots)
bind_found id slots (some slot) = proceed (bind slot id slots) (λ done slots. (ok true, slots))

unfoldable pub take_slot : Uuid → Slots → Result Bool × Slots
unfolding bind acquire_free_slot
take_slot id slots = bind_found id slots (acquire_free_slot slots)

abbrev pub release_found : Slots → Option Slot → Slots
release_found slots none = slots
release_found slots (some slot) = release slot slots

unfoldable pub give_back : Uuid → Slots → Slots
unfolding release find_slot_by_execution
give_back id slots = release_found slots (find_slot_by_execution id slots)
