-- ===== src/Slots/Held.antt =====
-- Which executions the slots hold, after any sequence of requests of the executor.
use application_as_service.Prelude.{
  ℕ, suc, ◌+◌, ◌≡◌, ◌<◌, ◌⊎◌, refl, true, false, none, some, List, [], ◌∷◌, arith, ltb, ◌==◌,
  if◌then◌else◌, length, All, Option-cases, inl, inr, sym, ap, subst, ◌∙◌, All-map,
}
use application_as_service.Prelude.Table
use application_as_service.Outcome.{ok, err, value_error}
use application_as_service.Execution.{Uuid}
use application_as_service.Slots.{
  Slot, slot_key, is_free, Slots, range_slots, slot_manager, acquire_free_slot, active_slots,
  find_slot_by_execution, total_slots, free_slots, bind, release, take_slot, give_back,
}
use application_as_service.Slots.Bags.{
  occurrences, remove_one, one_if, remove_one-absent, remove_one-occurrences, length-remove_one,
}
use application_as_service.Slots.Counting.{
  HasDistinctIds, free-active, acquire_free_slot-free, acquire_free_slot-none, bind_active,
  release_active, found-free-key, held-key, range_slots-below, range_slots-HasDistinctIds,
}
use application_as_service.Slots.Refinement.{
  Request, take, finish, handle, take_slot-kept, give_back-kept, length-range_slots,
  acquire_free_slot-below,
}

-- The executions that the slots hold.
unfoldable pub held : Slots → List Uuid
held [] = []
held (s ∷ slots) =
    let rest = held slots in elim s.execution_id [ none ↦ rest | some id ↦ id ∷ rest ]

-- What the requests should come to, for a bag of at most n executions.
unfoldable pub serve : ℕ → List Request → List Uuid → List Uuid
unfolding remove_one
serve n [] ids = ids
serve n (take id ∷ rs) ids = serve n rs (if ltb (length ids) n then id ∷ ids else ids)
serve n (finish id ∷ rs) ids = serve n rs (remove_one id ids)

bind_held :
    (slots : Slots) (id : Uuid) (s : Slot) (j : Uuid)
    → HasDistinctIds slots
    → acquire_free_slot slots ≡ some s
    → occurrences j (held (Table.replace slot_key (record s { execution_id = some id }) slots))
      ≡ one_if (id == j) + occurrences j (held slots)
unfolding acquire_free_slot held Table.replace
bind_held [] id s j d h = ground arith
bind_held (t ∷ slots) id s j d h =
    ground (arith, bind_held slots id s j d.1, found-free-key slots t.slot_id d.0 s)

release_held :
    (slots : Slots) (id : Uuid) (s : Slot) (j : Uuid)
    → HasDistinctIds slots
    → find_slot_by_execution id slots ≡ some s
    → one_if (id == j)
        + occurrences j (held (Table.replace slot_key (record s { execution_id = none }) slots))
      ≡ occurrences j (held slots)
unfolding find_slot_by_execution held Table.replace
release_held [] id s j d h = ground arith
release_held (t ∷ slots) id s j d h =
    ground (arith, release_held slots id s j d.1, held-key slots t.slot_id id d.0 s)

missing_held :
    (slots : Slots) (id : Uuid)
    → find_slot_by_execution id slots ≡ none
    → occurrences id (held slots) ≡ 0
unfolding find_slot_by_execution held
missing_held [] id h = refl
missing_held (t ∷ slots) id h = ground (arith, missing_held slots id)

found_held :
    (slots : Slots) (id : Uuid) (s : Slot)
    → find_slot_by_execution id slots ≡ some s
    → 0 < occurrences id (held slots)
unfolding find_slot_by_execution held
found_held [] id s h = ground arith
found_held (t ∷ slots) id s h = ground (arith, found_held slots id s)

-- The slots hold the bag, and have n places with different ids.
record Agree (n : ℕ) (slots : Slots) (ids : List Uuid) : Type 0 where
  pub distinct : HasDistinctIds slots
  pub places : total_slots slots ≡ n
  pub active : length (active_slots slots) ≡ length ids
  pub same : (j : Uuid) → occurrences j (held slots) ≡ occurrences j ids

take_slot-Agree :
    (n : ℕ) (id : Uuid) (slots : Slots) (ids : List Uuid)
    → Agree n slots ids
    → Agree n (take_slot id slots).1 (if ltb (length ids) n then id ∷ ids else ids)
unfolding take_slot bind
take_slot-Agree n id slots ids a =
    let kept = take_slot-kept id slots a.distinct in
    elim (Option-cases (acquire_free_slot slots)) [
      | inl full ↦
          let count = acquire_free_slot-none slots full in
          let no_room : ltb (length ids) n ≡ false = ground (arith, a.active, a.places, count) in
          rw (full, no_room) a
      | inr (s, found) ↦
          let below = acquire_free_slot-below slots s found in
          let room : ltb (length ids) n ≡ true = ground (arith, a.active, a.places, below) in
          let free = acquire_free_slot-free slots s found in
          let open_slot : is_free s ≡ true = free.0 in
          rw room (record {
            distinct = kept.0;
            places = kept.1 ∙ a.places;
            active =
                rw (found, open_slot) (bind_active slots id s a.distinct found ∙ ap suc a.active);
            same = λ j.
                rw (found, open_slot)
                  (ground (arith, bind_held slots id s j a.distinct found, a.same j));
          })
    ]

give_back-Agree :
    (n : ℕ) (id : Uuid) (slots : Slots) (ids : List Uuid)
    → Agree n slots ids
    → Agree n (give_back id slots) (remove_one id ids)
unfolding give_back release
give_back-Agree n id slots ids a =
    let kept = give_back-kept id slots a.distinct in
    elim (Option-cases (find_slot_by_execution id slots)) [
      | inl missing ↦
          let absent : occurrences id ids ≡ 0 = sym (a.same id) ∙ missing_held slots id missing in
          rw (missing, remove_one-absent id ids absent) a
      | inr (s, found) ↦
          let there : 0 < occurrences id ids = rw (a.same id) at (found_held slots id s found) in
          record {
            distinct = kept.0;
            places = kept.1 ∙ a.places;
            active = ground (
              arith,
              release_active slots id s a.distinct found,
              length-remove_one id ids there,
              a.active,
            );
            same = λ j. ground (
              arith,
              release_held slots id s j a.distinct found,
              remove_one-occurrences id j ids there,
              a.same j,
            );
          }
    ]

handle-Agree :
    (n : ℕ) (rs : List Request) (slots : Slots) (ids : List Uuid)
    → Agree n slots ids
    → Agree n (handle rs slots) (serve n rs ids)
unfolding handle serve
handle-Agree n [] slots ids a = a
handle-Agree n (take id ∷ rs) slots ids a =
    handle-Agree n rs (take_slot id slots).1 (if ltb (length ids) n then id ∷ ids else ids)
      (take_slot-Agree n id slots ids a)
handle-Agree n (finish id ∷ rs) slots ids a =
    handle-Agree n rs (give_back id slots) (remove_one id ids) (give_back-Agree n id slots ids a)

nothing_held :
    (slots : Slots)
    → All (λ s. s.execution_id ≡ none) slots
    → (held slots ≡ []) × (active_slots slots ≡ [])
unfolding held active_slots
nothing_held [] h = (refl, refl)
nothing_held (s ∷ slots) h = ground (arith, nothing_held slots h.1)

-- The slot is free, or to bind it to the execution raises ValueError and changes no slot.
abbrev pub Refuses : Uuid → Slots → Slot → Type 0
Refuses j slots s = (s.execution_id ≡ none) ⊎ (bind s j slots ≡ (err value_error, slots))

All-Refuses : (j : Uuid) (all slots : Slots) → All (Refuses j all) slots
unfolding bind
All-Refuses j all [] = tt
All-Refuses j all (s ∷ slots) = elim (Option-cases s.execution_id) [
  | inl free ↦ (inl free, All-Refuses j all slots)
  | inr (e, taken) ↦ (inr (rw taken refl), All-Refuses j all slots)
]

-- After any sequence of requests, the slots of a manager made for n hold each execution as often
-- as the bag does into which a request to take puts an execution if fewer than n are there, and
-- from which a request to finish removes one occurrence; the slots that are free are as many as
-- the bag has places left; and to bind a slot that is not free raises ValueError and changes no
-- slot.
pub handle-serve :
    (n : ℕ) (slots : Slots) (rs : List Request)
    → slot_manager n ≡ ok slots
    → ((j : Uuid) → occurrences j (held (handle rs slots)) ≡ occurrences j (serve n rs []))
      × (free_slots (handle rs slots) + length (serve n rs []) ≡ n)
      × ((j : Uuid) → All (Refuses j (handle rs slots)) (handle rs slots))
unfolding slot_manager total_slots
handle-serve n slots rs h =
    let made : range_slots n ≡ slots = ground arith in
    let empty =
      nothing_held (range_slots n)
        (All-map _ _ (λ s p. p.1) (range_slots n) (range_slots-below n)) in
    let start : Agree n (range_slots n) [] = record {
      distinct = range_slots-HasDistinctIds n;
      places = length-range_slots n;
      active = rw (empty.1) refl;
      same = λ j. rw (empty.0) refl;
    } in
    let a = handle-Agree n rs slots [] (subst (λ s. Agree n s []) made start) in
    (
      a.same,
      ground (arith, free-active (handle rs slots), a.active, a.places),
      λ j. All-Refuses j (handle rs slots) (handle rs slots),
    )
