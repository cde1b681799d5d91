-- ===== src/Templates/Table.antt =====
-- The repository of templates: execution_engine/infrastructure/postgres/domain_repository.py, class
-- ApplicationTemplateRepository, and the table `application_templates` of models.py.
use application_as_service.Prelude.{
  ℕ, String, Bool, true, ◌&&◌, Option, none, some, List, [], ◌∷◌, ◌++◌, str_eq, select,
  if◌then◌else◌,
}
use application_as_service.Outcome.{Result, ok, err, ◌>>=◌, Action, concurrency_error}
use application_as_service.Time.{naive}
use application_as_service.Value.{Value, Elements}
use application_as_service.Postgres.{column}
use application_as_service.Templates.{ApplicationTemplate}
use application_as_service.Templates.Json.{array_of, of_step, of_input, of_limits, read_all}
use application_as_service.Templates.Reading.{read_step, read_input, read_limits}

pub record ApplicationTemplateOrm : Type 0 where
  pub template_id : String
  pub name : String
  pub description : String
  pub version : String
  pub category : String
  pub icon_url : Option String
  pub deployment_steps : Elements
  pub database_required : Bool
  pub database_type : Option String
  pub required_inputs : Elements
  pub default_resources : Value
  pub created_at : ℕ
  pub updated_at : ℕ
  pub is_active : Bool

abbrev pub TemplateRows : Type 0
TemplateRows = List ApplicationTemplateOrm

-- `session.get(ApplicationTemplateORM, template_id)`
unfoldable pub find_template : String → TemplateRows → Option ApplicationTemplateOrm
find_template id [] = none
find_template id (row ∷ rows) =
    if str_eq row.template_id id then some row else find_template id rows

-- The template that `get` builds of a row.
unfoldable pub to_template : ApplicationTemplateOrm → Result ApplicationTemplate
unfolding read_all
to_template orm = read_all read_step orm.deployment_steps >>= λ steps.
    read_all read_input orm.required_inputs >>= λ inputs.
    read_limits orm.default_resources >>= λ limits. ok (record {
      template_id = orm.template_id;
      name = orm.name;
      description = orm.description;
      version = orm.version;
      category = orm.category;
      icon_url = orm.icon_url;
      deployment_steps = steps;
      database_required = orm.database_required;
      database_type = orm.database_type;
      required_inputs = inputs;
      default_resources = limits;
      created_at = naive orm.created_at;
      updated_at = naive orm.updated_at;
      is_active = orm.is_active;
    })

abbrev pub found_template : Option ApplicationTemplateOrm → Result (Option ApplicationTemplate)
found_template none = ok none
found_template (some orm) = to_template orm >>= λ template. ok (some template)

unfoldable pub get : String → TemplateRows → Result (Option ApplicationTemplate)
unfolding find_template to_template
get id rows = found_template (find_template id rows)

-- The conditions of the query of `list_active`.
abbrev pub is_listed : Option String → ApplicationTemplateOrm → Bool
is_listed none orm = orm.is_active
is_listed (some category) orm =
    orm.is_active && (if str_eq category "" then true else str_eq orm.category category)

abbrev pub add_found :
    Option ApplicationTemplate → List ApplicationTemplate → List ApplicationTemplate
add_found none templates = templates
add_found (some template) templates = template ∷ templates

-- `get` for each row that the query found
unfoldable pub get_each : TemplateRows → TemplateRows → Result (List ApplicationTemplate)
unfolding get
get_each rows [] = ok []
get_each rows (orm ∷ orms) = get orm.template_id rows >>= λ template.
    get_each rows orms >>= λ templates. ok (add_found template templates)

unfoldable pub list_active : Option String → TemplateRows → Result (List ApplicationTemplate)
unfolding get_each
list_active category rows = get_each rows (select (is_listed category) rows)

module _ (local : ℕ → ℕ) where
  abbrev pub template_to_orm : ApplicationTemplate → ApplicationTemplateOrm
  template_to_orm template = record {
    template_id = template.template_id;
    name = template.name;
    description = template.description;
    version = template.version;
    category = template.category;
    icon_url = template.icon_url;
    deployment_steps = array_of of_step template.deployment_steps;
    database_required = template.database_required;
    database_type = template.database_type;
    required_inputs = array_of of_input template.required_inputs;
    default_resources = of_limits template.default_resources;
    created_at = column local template.created_at;
    updated_at = column local template.updated_at;
    is_active = template.is_active;
  }

  unfoldable pub create : ApplicationTemplate → Action TemplateRows (Unit {0})
  unfolding find_template
  create template rows = elim (find_template template.template_id rows) [
    | some old ↦ (err concurrency_error, rows)
    | none ↦ (ok tt, rows ++ template_to_orm template ∷ [])
  ]
