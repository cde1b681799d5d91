-- ===== src/Templates/Storing.antt =====
-- What the repository of templates gives back of what was stored.
use application_as_service.Prelude.{
  ℕ, ◌≡◌, inl, inr, refl, String, none, some, [], ◌∷◌, ◌++◌, arith, str_eq, if◌then◌else◌,
  Bool-cases,
}
use text.Mathlib.TextEquality.{eq_iff}
use application_as_service.Outcome.{ok}
use application_as_service.Time.{naive}
use application_as_service.Postgres.{column}
use application_as_service.Templates.{ApplicationTemplate}
use application_as_service.Templates.Json.{of_step, of_input}
use application_as_service.Templates.Reading.{read_step, read_input}
use application_as_service.Templates.RoundTrip.{read-array, read-step, read-input, read-limits}
use application_as_service.Templates.Table.{
  ApplicationTemplateOrm, TemplateRows, find_template, to_template, template_to_orm, get, create,
}

module _ (local : ℕ → ℕ) where
  -- A template that has been through the table.
  abbrev pub stored : ApplicationTemplate → ApplicationTemplate
  stored template = record template {
    created_at = naive (column local template.created_at);
    updated_at = naive (column local template.updated_at);
  }

  pub to_template-template_to_orm :
      (template : ApplicationTemplate)
      → to_template (template_to_orm local template) ≡ ok (stored template)
  unfolding to_template
  to_template-template_to_orm template =
      rw
        (
          read-array of_step read_step read-step template.deployment_steps,
          read-array of_input read_input read-input template.required_inputs,
          read-limits template.default_resources,
        )
        refl

  find-append :
      (id : String) (row : ApplicationTemplateOrm) (rows : TemplateRows)
      → find_template row.template_id rows ≡ none
      → find_template id (rows ++ row ∷ [])
        ≡ (if str_eq row.template_id id then some row else find_template id rows)
  unfolding find_template
  find-append id row [] h = ground arith
  find-append id row (old ∷ rows) h = ground (
    arith,
    find-append id row rows,
    eq_iff row.template_id id,
    eq_iff old.template_id id,
    eq_iff old.template_id row.template_id,
  )

  get-append :
      (id : String) (template : ApplicationTemplate) (rows : TemplateRows)
      → find_template template.template_id rows ≡ none
      → get id (rows ++ template_to_orm local template ∷ [])
        ≡ (if str_eq template.template_id id then ok (some (stored template)) else get id rows)
  unfolding get
  get-append id template rows h =
      let row = template_to_orm local template in
      let e = find-append id row rows h in
      elim (Bool-cases (str_eq template.template_id id)) [
        | inl same ↦ rw (e, same, to_template-template_to_orm template) refl
        | inr differs ↦ rw (e, differs) refl
      ]

  -- A template whose id is new is created; get then gives it back from its JSON columns with
  -- naive times, and gives the other templates as before.
  pub get-create_template :
      (template : ApplicationTemplate) (rows : TemplateRows)
      → find_template template.template_id rows ≡ none
      → ((create local template rows).0 ≡ ok tt)
        × ((id : String)
            → get id (create local template rows).1 ≡ (
                if str_eq template.template_id id
                then ok (some (stored template))
                else get id rows))
  unfolding create
  get-create_template template rows h = rw (h, create) (refl, λ id. get-append id template rows h)
