-- ===== src/Tenant/Projects.antt =====
-- ListProjects and CreateProject of backend/internal/tenant/service.go.
use geo_querry.Prelude.{
  String, false, not, ◌&&◌, ◌||◌, Option, none, some, List, [], ◌∷◌, map, str_eq, if◌then◌else◌,
  any, filter, ltb,
}
use geo_querry.Prelude.Int.{ℤ, leb_ℤ}
use geo_querry.Sync.Store.{invalid_text, unique_violation, foreign_key_violation}
use geo_querry.Sync.Database.{Ids}
use geo_querry.Sync.Pull.{order_by, deref}
use geo_querry.Auth.Identity.{Identity}
use geo_querry.Auth.Roles.{role_geologist, role_rank, forbidden}
use geo_querry.Tenant.{
  ProjectRow, TenantDb, database, denied, Attempt, done, failed, Reply, response, invalid_argument,
  permission_denied, internal, Faults, with_identity, with_role, with_tenant_tx, get_caller_role,
  step,
}
use geo_querry.Tenant.Organizations.{limit}

pub record ProjectSummary : Type 0 where
  pub id : String
  pub organization_id : String
  pub name : String
  pub description : String
  pub target_commodity : String
  pub crs_epsg : String
  pub updated_at : ℤ

abbrev pub project_summary : ProjectRow → ProjectSummary
project_summary p = record {
  id = p.id;
  organization_id = p.organization_id;
  name = p.name;
  description = deref "" p.description;
  target_commodity = deref "" p.target_commodity;
  crs_epsg = p.crs_epsg;
  updated_at = p.updated_at;
}

-- SELECT … FROM projects WHERE organization_id = $1 AND is_deleted = false ORDER BY updated_at DESC LIMIT 50
unfoldable pub live_projects : String → TenantDb → List ProjectRow
unfolding order_by
live_projects org_id db = limit 50 (
    order_by (λ a b. leb_ℤ b.updated_at a.updated_at)
      (filter (λ p. str_eq p.organization_id org_id && not p.is_deleted) db.projects))

abbrev pub on_id :
    {A : Type 0}
    → Option String
    → (String → TenantDb → Attempt A × TenantDb)
    → TenantDb
    → Attempt A × TenantDb
on_id none run db = (failed (database invalid_text), db)
on_id (some id) run db = run id db

unfoldable pub query_projects :
    Ids → Faults → String → TenantDb → Attempt (List ProjectSummary) × TenantDb
unfolding live_projects
query_projects ids faults org_id =
    step faults.first
      (on_id (ids.cast org_id) (λ o db. (done (map project_summary (live_projects o db)), db)))

abbrev pub reply_of : {A B : Type 0} → (A → B) → Attempt A × TenantDb → Reply B × Option TenantDb
reply_of f (done a, db) = (response (f a), some db)
reply_of f (failed e, db) = (internal e, some db)

abbrev projects_on :
    Ids → Faults → String → Option TenantDb → Reply (List ProjectSummary) × Option TenantDb
projects_on ids faults org_id none = (response [], none)
projects_on ids faults org_id (some db) =
    reply_of (λ ps. ps) (with_tenant_tx faults org_id (query_projects ids faults org_id) db)

-- ListProjects
unfoldable pub list_projects :
    Ids
    → Faults
    → Option Identity
    → String
    → Option TenantDb
    → Reply (List ProjectSummary) × Option TenantDb
unfolding get_caller_role with_tenant_tx query_projects
list_projects ids faults caller org_id db = with_identity caller db λ ident.
    if str_eq org_id ""
    then (invalid_argument, db)
    else with_role (get_caller_role ids faults.lookup db org_id ident.user_id) db
        λ role. projects_on ids faults org_id db

-- CreateProjectRequest
pub record ProjectRequest : Type 0 where
  pub organization_id : String
  pub name : String
  pub description : String
  pub target_commodity : String
  pub crs_epsg : String

abbrev pub default_crs : String → String
default_crs crs = if str_eq crs "" then "EPSG:4326" else crs

-- INSERT INTO projects … RETURNING id, for an id of the database's making
unfoldable pub insert_project :
    ProjectRequest → String → ℤ → String → TenantDb → Attempt String × TenantDb
insert_project req new_id now org_id db =
    if any (λ p. str_eq p.id new_id) db.projects
    then (failed (database unique_violation), db)
    else if any (λ o. str_eq o.id org_id) db.organizations
    then (
      done new_id,
      record db {
        projects =
            record {
              id = new_id;
              organization_id = org_id;
              name = req.name;
              description = some req.description;
              target_commodity = some req.target_commodity;
              crs_epsg = default_crs req.crs_epsg;
              updated_at = now;
              is_deleted = false;
            }
            ∷ db.projects;
      },
    )
    else (failed (database foreign_key_violation), db)

abbrev pub answer_of : ProjectRequest → ℤ → String → ProjectSummary
answer_of req now id = record {
  id = id;
  organization_id = req.organization_id;
  name = req.name;
  description = req.description;
  target_commodity = req.target_commodity;
  crs_epsg = default_crs req.crs_epsg;
  updated_at = now;
}

unfoldable pub project_rows :
    Ids
    → Faults
    → ℤ
    → String
    → ProjectRequest
    → Option TenantDb
    → Reply ProjectSummary × Option TenantDb
unfolding with_tenant_tx insert_project
project_rows ids faults now new_id req none = (response (answer_of req now "p-mock-12345"), none)
project_rows ids faults now new_id req (some db) = reply_of (answer_of req now) (
    with_tenant_tx faults req.organization_id
      (step faults.first (on_id (ids.cast req.organization_id) (insert_project req new_id now))) db)

-- CreateProject
unfoldable pub create_project :
    Ids
    → Faults
    → ℤ
    → String
    → Option Identity
    → ProjectRequest
    → Option TenantDb
    → Reply ProjectSummary × Option TenantDb
unfolding get_caller_role role_rank project_rows
create_project ids faults now new_id caller req db = with_identity caller db λ ident.
    if str_eq req.organization_id "" || str_eq req.name ""
    then (invalid_argument, db)
    else with_role (get_caller_role ids faults.lookup db req.organization_id ident.user_id) db
        λ role.
          if ltb (role_rank role) (role_rank role_geologist)
          then (permission_denied (denied forbidden), db)
          else project_rows ids faults now new_id req db
