-- ===== src/DomainService/Applying.antt =====
-- What the creation of an application leaves in the tables.
use application_as_service.Prelude.{
  ℕ, ◌≡◌, ◌⊎◌, inl, inr, refl, String, Bool, Option, none, some, List, [], ◌∷◌, ◌++◌, arith, ◌==◌,
  All, if◌then◌else◌, Option-cases,
}
use application_as_service.Prelude.Table
use application_as_service.Outcome.{
  Error, Result, ok, err, concurrency_error, validation_error, Outcome-cases,
}
use application_as_service.Time.{naive}
use application_as_service.Value.{Value, Fields}
use application_as_service.Integers.{ℤ}
use application_as_service.Execution.{Uuid}
use application_as_service.Postgres.{column}
use application_as_service.Postgres.Mapping.{stored_time}
use application_as_service.Domain.{Application}
use application_as_service.Domain.Applications
use application_as_service.Domain.Applications.{
  ApplicationOrm, row_id, to_domain, application_to_orm,
}
use application_as_service.Templates.{ApplicationTemplate}
use application_as_service.Templates.Table.{find_template}
use application_as_service.DomainService.Inputs.{validate_inputs, IsAccepted}
use application_as_service.DomainService.Accepting.{validate_inputs_iff}
use application_as_service.DomainService.Operations.{
  DomainTables, new_application, get_template, get_application, create_from, create_application,
}

-- The call raised, and the tables are as they were.
abbrev pub IsRefused : {A : Type 0} → DomainTables → Result A × DomainTables → Type 0
IsRefused s r = (e : Error) × (r ≡ (err e, s))

module _ (local : ℕ → ℕ) where
  -- An application that has been through the table.
  abbrev pub stored_application : Application → Application
  stored_application app = record app {
    created_at = naive (column local app.created_at);
    updated_at = naive (column local app.updated_at);
    deleted_at = stored_time local app.deleted_at;
  }

  get-append :
      (app : Application) (rows : List ApplicationOrm)
      → Table.find row_id app.application_id rows ≡ none
      → (j : Uuid)
      → Applications.get j (rows ++ application_to_orm local app ∷ []) ≡ (
          if app.application_id == j
          then some (stored_application app)
          else Applications.get j rows)
  unfolding Applications.get
  get-append app rows h j =
      ground (arith, Table.find-append_if row_id (application_to_orm local app) rows h j)

  module _ (parse : String → Option ℤ) (matches : String → Value → Result Bool) (now now' : ℕ)
      (id tenant_id : Uuid) (name : String) (inputs : Fields) (description : Option String) where
    -- The new application is there, as the table keeps it, and the others are as they were.
    abbrev pub IsAdded : ApplicationTemplate → DomainTables → DomainTables → Type 0
    IsAdded template s after =
        let app = new_application now now' id tenant_id template name inputs description in
        (j : Uuid)
        → get_application j after
          ≡ (if id == j then some (stored_application app) else get_application j s)

    abbrev pub IsCreated :
        ApplicationTemplate → DomainTables → Result Application × DomainTables → Type 0
    IsCreated template s r =
        All (IsAccepted parse matches inputs) template.required_inputs
        × (r.0 ≡ ok (new_application now now' id tenant_id template name inputs description))
        × IsAdded template s r.1

    create_from_outcome :
        (template : ApplicationTemplate) (s : DomainTables)
        → IsRefused s (
            create_from local parse matches now now' id tenant_id name inputs description template
              s)
          ⊎ IsCreated template s (
              create_from local parse matches now now' id tenant_id name inputs description template
                s)
    unfolding Applications.create get_application
    create_from_outcome template s =
        let app = new_application now now' id tenant_id template name inputs description in
        elim (Outcome-cases (validate_inputs parse matches template.required_inputs inputs)) [
          | inl (x, refused) ↦ inl (x, rw refused refl)
          | inr (done, accepted) ↦ elim (Option-cases (Table.find row_id id s.applications)) [
            | inr (old, taken) ↦
                inl (concurrency_error, rw (accepted, taken, Applications.create) refl)
            | inl new ↦ elim (Option-cases (find_template template.template_id s.templates)) [
              | inl gone ↦
                  inl (concurrency_error, rw (accepted, new, gone, Applications.create) refl)
              | inr (row, kept) ↦ inr (
                  rw (accepted, new, kept, Applications.create)
                    (
                      (validate_inputs_iff parse matches inputs template.required_inputs).0
                          accepted,
                      refl,
                      get-append app s.applications new,
                    ))
            ]
          ]
        ]

    -- The creation of an application either raises and changes nothing, or the template is there,
    -- the inputs satisfy its fields, and the new application is returned and stored under its id,
    -- with naive times, and the other applications are as they were.
    pub create_application_outcome :
        (template_id : String) (s : DomainTables)
        → IsRefused s (
            create_application local parse matches now now' id tenant_id template_id name inputs
              description s)
          ⊎ ((template : ApplicationTemplate) × (get_template template_id s ≡ ok (some template))
              × IsCreated template s (
                  create_application local parse matches now now' id tenant_id template_id name
                    inputs description s))
    unfolding create_application
    create_application_outcome template_id s = elim (Outcome-cases (get_template template_id s)) [
      | inl (e, raised) ↦ inl (e, rw raised refl)
      | inr (none, e) ↦ inl (validation_error, rw e refl)
      | inr (some template, e) ↦ elim (create_from_outcome template s) [
        | inl refused ↦ inl (rw e refused)
        | inr made ↦ inr (template, e, rw e made)
      ]
    ]
