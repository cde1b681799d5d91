-- ===== src/Domain/Applications.antt =====
-- The repository of applications: execution_engine/infrastructure/postgres/domain_repository.py,
-- class ApplicationRepository, and the table `applications` of models.py. Besides the conversion
-- `local` of aware times, `onupdate` is a parameter: the time that the database layer leaves in
-- `updated_at`, given the row before and after an update.
use application_as_service.Prelude.{
  ℕ, String, Bool, true, false, ◌&&◌, ◌||◌, Option, none, some, List, [], ◌∷◌, ◌++◌, leb, ◌==◌,
  select, sort_by,
}
use application_as_service.Prelude.Table
use application_as_service.Outcome.{ok, err, Action, concurrency_error}
use application_as_service.Time.{naive}
use application_as_service.Value.{Value}
use application_as_service.Execution.{Uuid}
use application_as_service.Postgres.{column, write_time, read_time}
use application_as_service.Templates.Table.{TemplateRows, find_template}
use application_as_service.Domain.{ApplicationStatus, HealthStatus, ResourceLimits, Application}

pub record ApplicationOrm : Type 0 where
  pub application_id : Uuid
  pub tenant_id : Uuid
  pub template_id : String
  pub template_version : String
  pub name : String
  pub description : Option String
  pub user_inputs : Value
  pub current_deployment_id : Option Uuid
  pub status : ApplicationStatus
  pub health_status : HealthStatus
  pub domain : Option String
  pub public_url : Option String
  pub ssl_enabled : Bool
  pub resource_limits : Option ResourceLimits
  pub created_at : ℕ
  pub updated_at : ℕ
  pub deleted_at : Option ℕ

abbrev pub row_id : ApplicationOrm → Uuid
row_id row = row.application_id

abbrev pub to_domain : ApplicationOrm → Application
to_domain orm = record {
  application_id = orm.application_id;
  tenant_id = orm.tenant_id;
  template_id = orm.template_id;
  template_version = orm.template_version;
  name = orm.name;
  description = orm.description;
  user_inputs = orm.user_inputs;
  current_deployment_id = orm.current_deployment_id;
  status = orm.status;
  health_status = orm.health_status;
  domain = orm.domain;
  public_url = orm.public_url;
  ssl_enabled = orm.ssl_enabled;
  resource_limits = orm.resource_limits;
  created_at = naive orm.created_at;
  updated_at = naive orm.updated_at;
  deleted_at = read_time orm.deleted_at;
}

abbrev pub read_row : Option ApplicationOrm → Option Application
read_row none = none
read_row (some row) = some (to_domain row)

unfoldable pub get : Uuid → List ApplicationOrm → Option Application
get id rows = read_row (Table.find row_id id rows)

-- The conditions of the query of `list_by_tenant`, and its order: the newest first.
abbrev pub is_of_tenant : Uuid → Bool → ApplicationOrm → Bool
is_of_tenant tenant_id include_deleted row =
    row.tenant_id == tenant_id
    && (include_deleted || elim row.deleted_at [ none ↦ true | some t ↦ false ])

abbrev pub newer : ApplicationOrm → ApplicationOrm → Bool
newer a b = leb b.created_at a.created_at

-- Each row that the query found is read again by its id.
unfoldable pub get_each : List ApplicationOrm → List ApplicationOrm → List Application
unfolding get
get_each rows [] = []
get_each rows (row ∷ found) =
    let rest = get_each rows found in
    elim (get row.application_id rows) [ none ↦ rest | some app ↦ app ∷ rest ]

unfoldable pub list_by_tenant : Uuid → Bool → List ApplicationOrm → List Application
unfolding get_each
list_by_tenant tenant_id include_deleted rows =
    get_each rows (sort_by newer (select (is_of_tenant tenant_id include_deleted) rows))

module _ (local : ℕ → ℕ) where
  abbrev pub application_to_orm : Application → ApplicationOrm
  application_to_orm app = record {
    application_id = app.application_id;
    tenant_id = app.tenant_id;
    template_id = app.template_id;
    template_version = app.template_version;
    name = app.name;
    description = app.description;
    user_inputs = app.user_inputs;
    current_deployment_id = app.current_deployment_id;
    status = app.status;
    health_status = app.health_status;
    domain = app.domain;
    public_url = app.public_url;
    ssl_enabled = app.ssl_enabled;
    resource_limits = app.resource_limits;
    created_at = column local app.created_at;
    updated_at = column local app.updated_at;
    deleted_at = write_time local app.deleted_at;
  }

  -- A duplicate key is an error, and so is a template that is not in the table
  -- `application_templates`, to which the column is a foreign key.
  unfoldable pub create : TemplateRows → Application → Action (List ApplicationOrm) (Unit {0})
  unfolding find_template
  create templates app rows = elim (Table.find row_id app.application_id rows) [
    | some old ↦ (err concurrency_error, rows)
    | none ↦ elim (find_template app.template_id templates) [
      | none ↦ (err concurrency_error, rows)
      | some template ↦ (ok tt, rows ++ application_to_orm app ∷ [])
    ]
  ]

  module _ (onupdate : ApplicationOrm → ApplicationOrm → ℕ) where
    abbrev pub updated_row : Application → ApplicationOrm → ApplicationOrm
    updated_row app orm =
        let row = record orm {
          status = app.status;
          health_status = app.health_status;
          current_deployment_id = app.current_deployment_id;
          public_url = app.public_url;
          domain = app.domain;
          ssl_enabled = app.ssl_enabled;
          deleted_at = write_time local app.deleted_at;
        } in
        record row { updated_at = onupdate orm row }

    unfoldable pub update : Application → Action (List ApplicationOrm) (Unit {0})
    update app rows = elim (Table.find row_id app.application_id rows) [
      | none ↦ (err concurrency_error, rows)
      | some orm ↦ (ok tt, Table.replace row_id (updated_row app orm) rows)
    ]
