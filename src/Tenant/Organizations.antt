-- ===== src/Tenant/Organizations.antt =====
-- ListOrganizations and CreateOrganization of backend/internal/tenant/service.go.
pub mod Creation
use geo_querry.Prelude.{
  ℕ, zero, suc, String, ◌≡◌, ◌≢◌, refl, Bool, true, false, ◌&&◌, ◌||◌, Option, none, some, List, [],
  ◌∷◌, ◌++◌, map, str_eq, if◌then◌else◌, any, filter, arith, Bool-cases, Option-cases, inl, inr,
  eq_refl,
}
use geo_querry.Prelude.Int.{ℤ, leb_ℤ}
use geo_querry.Sync.Conflict.{DbError}
use geo_querry.Sync.Store.{invalid_text, unique_violation, foreign_key_violation}
use geo_querry.Sync.Database.{Ids}
use geo_querry.Sync.Pull.{order_by}
use geo_querry.Auth.Identity.{Identity}
use geo_querry.Auth.Roles.{TenantRole, owner, role_owner, string_to_proto_role}
use geo_querry.Tenant.{
  OrganizationRow, MemberRow, TenantDb, database, Attempt, done, failed, Reply, response,
  invalid_argument, already_exists, internal, Faults, is_member, with_identity, role_of,
}

pub record OrganizationSummary : Type 0 where
  pub id : String
  pub name : String
  pub slug : String
  pub caller_role : TenantRole
  pub created_at : ℤ

-- LIMIT n
abbrev pub limit : {A : Type 0} → ℕ → List A → List A
limit zero xs = []
limit (suc n) [] = []
limit (suc n) (x ∷ xs) = x ∷ limit n xs

abbrev pub newest_first : OrganizationRow × MemberRow → OrganizationRow × MemberRow → Bool
newest_first (a, m) (b, n) = leb_ℤ b.created_at a.created_at

-- organizations o JOIN organization_members om ON om.organization_id = o.id WHERE om.user_id = $1
abbrev pub memberships :
    String → List OrganizationRow → List MemberRow → List (OrganizationRow × MemberRow)
memberships user_id [] ms = []
memberships user_id (o ∷ os) ms =
    map (λ m. (o, m)) (filter (is_member o.id user_id) ms) ++ memberships user_id os ms

abbrev pub summary : OrganizationRow × MemberRow → OrganizationSummary
summary (o, m) = record {
  id = o.id;
  name = o.name;
  slug = o.slug;
  caller_role = string_to_proto_role m.role;
  created_at = o.created_at;
}

-- the summary that stands for a nil pool
abbrev pub default_organization : ℤ → OrganizationSummary
default_organization now = record {
  id = "org-test-default";
  name = "Default Organization";
  slug = "default-org";
  caller_role = owner;
  created_at = now;
}

unfoldable pub organizations_of :
    Ids → Option DbError → ℤ → String → Option TenantDb → Reply (List OrganizationSummary)
unfolding order_by string_to_proto_role
organizations_of ids fault now user_id none = response (default_organization now ∷ [])
organizations_of ids (some e) now user_id (some db) = internal (database e)
organizations_of ids none now user_id (some db) = elim (ids.cast user_id) [
  | none ↦ internal (database invalid_text)
  | some u ↦
      response
        (map summary (limit 50 (order_by newest_first (memberships u db.organizations db.members))))
]

-- ListOrganizations, with the clock in Unix seconds
unfoldable pub list_organizations :
    Ids
    → Option DbError
    → ℤ
    → Option Identity
    → Option TenantDb
    → Reply (List OrganizationSummary) × Option TenantDb
unfolding organizations_of
list_organizations ids fault now caller db =
    with_identity caller db λ ident. (organizations_of ids fault now ident.user_id db, db)

-- INSERT INTO organizations … RETURNING id, for a new id of the database's making
abbrev pub insert_organization : OrganizationRow → TenantDb → Attempt String × TenantDb
insert_organization o db =
    if any (λ x. str_eq x.id o.id || str_eq x.slug o.slug) db.organizations
    then (failed (database unique_violation), db)
    else (done o.id, record db { organizations = o ∷ db.organizations })

-- INSERT INTO organization_members, under its primary key and its two foreign keys
abbrev pub insert_member : MemberRow → TenantDb → Attempt Unit × TenantDb
insert_member m db =
    if any (is_member m.organization_id m.user_id) db.members
    then (failed (database unique_violation), db)
    else if any (str_eq m.user_id) db.users
        && any (λ o. str_eq o.id m.organization_id) db.organizations
    then (done tt, record db { members = m ∷ db.members })
    else (failed (database foreign_key_violation), db)

abbrev pub created : String → String → String → ℤ → OrganizationSummary
created org_id name slug now = record {
  id = org_id;
  name = name;
  slug = slug;
  caller_role = owner;
  created_at = now;
}

-- COMMIT: refused by the server, carried out with its reply lost, or carried out
abbrev on_commit : {A : Type 0} → Faults → A → TenantDb → TenantDb → Reply A × TenantDb
on_commit faults a before after = elim faults.commit [
  | some e ↦ (internal (database e), before)
  | none ↦ elim faults.commit_reply [
    | some e ↦ (internal (database e), after)
    | none ↦ (response a, after)
  ]
]

abbrev after_member :
    Faults
    → OrganizationSummary
    → TenantDb
    → Attempt Unit × TenantDb
    → Reply OrganizationSummary × TenantDb
after_member faults o before (failed e, after) = (internal e, before)
after_member faults o before (done u, after) = on_commit faults o before after

-- the second statement, as the user that the identity names
abbrev pub assign_owner :
    Faults
    → Option String
    → OrganizationSummary
    → TenantDb
    → TenantDb
    → Reply OrganizationSummary × TenantDb
assign_owner faults none o before db = (internal (database invalid_text), before)
assign_owner faults (some user_id) o before db = elim faults.second [
  | some e ↦ (internal (database e), before)
  | none ↦ after_member faults o before (
      insert_member
        (record {
          organization_id = o.id;
          user_id = user_id;
          role = role_owner;
          joined_at = o.created_at;
        })
        db)
]

abbrev after_organization :
    Ids
    → Faults
    → String
    → OrganizationSummary
    → TenantDb
    → Attempt String × TenantDb
    → Reply OrganizationSummary × TenantDb
after_organization ids faults user_id o before (failed e, db) = (already_exists e, before)
after_organization ids faults user_id o before (done org_id, db) =
    assign_owner faults (ids.cast user_id) o before db

-- the transaction of CreateOrganization
unfoldable pub create_rows :
    Ids → Faults → String → OrganizationSummary → TenantDb → Reply OrganizationSummary × TenantDb
create_rows ids faults user_id o db = elim faults.begin [
  | some e ↦ (internal (database e), db)
  | none ↦ elim faults.first [
    | some e ↦ (already_exists (database e), db)
    | none ↦ after_organization ids faults user_id o db (
        insert_organization
          (record { id = o.id; name = o.name; slug = o.slug; created_at = o.created_at }) db)
  ]
]

abbrev create_on :
    Ids
    → Faults
    → String
    → OrganizationSummary
    → Option TenantDb
    → Reply OrganizationSummary × Option TenantDb
create_on ids faults user_id o none = (response (record o { id = "org-created-mock" }), none)
create_on ids faults user_id o (some db) =
    let (reply, db') = create_rows ids faults user_id o db in (reply, some db')

-- CreateOrganization; `new_id` is the id that the database would make.
unfoldable pub create_organization :
    Ids
    → Faults
    → ℤ
    → String
    → Option Identity
    → String
    → String
    → Option TenantDb
    → Reply OrganizationSummary × Option TenantDb
unfolding create_rows
create_organization ids faults now new_id caller name slug db = with_identity caller db λ ident.
    if str_eq name "" || str_eq slug ""
    then (invalid_argument, db)
    else create_on ids faults ident.user_id (created new_id name slug now) db
