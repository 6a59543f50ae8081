-- ===== src/Tenant/Organizations/Creation.antt =====
-- How CreateOrganization of backend/internal/tenant/service.go ends.
use geo_querry.Prelude.{
  String, ◌≡◌, ◌≢◌, refl, true, false, ◌&&◌, ◌||◌, none, some, List, [], ◌∷◌, str_eq, if◌then◌else◌,
  any, arith, Bool-cases, Option-cases, inl, inr, eq_refl,
}
use geo_querry.Prelude.Int.{ℤ}
use geo_querry.Sync.Conflict.{DbError}
use geo_querry.Sync.Database.{Ids}
use geo_querry.Auth.Roles.{role_owner}
use geo_querry.Tenant.{
  OrganizationRow, TenantDb, database, Reply, response, internal, Faults, is_member, role_of,
}
use geo_querry.Tenant.Organizations.{OrganizationSummary, created, assign_owner, create_rows}

-- The organization is there, under a slug that was free, with the caller as its owner; every other
-- role is what it was.
pub record IsMade (new_id slug u : String) (db db' : TenantDb) : Type 0 where
  pub slug_was_free : any (λ x. str_eq x.slug slug) db.organizations ≡ false
  pub stored : any (λ x. str_eq x.id new_id && str_eq x.slug slug) db'.organizations ≡ true
  pub roles :
      (v : String)
      → role_of new_id v db'.members
        ≡ (if str_eq u v then some role_owner else role_of new_id v db.members)

-- Why a request to create an organization makes none.
pub data NotMade (faults : Faults) (new_id slug u : String) (db : TenantDb) : Type 0 where
  begin_fails : (e : DbError) → faults.begin ≡ some e → NotMade faults new_id slug u db
  first_fails : (e : DbError) → faults.first ≡ some e → NotMade faults new_id slug u db
  taken :
      any (λ x. str_eq x.id new_id || str_eq x.slug slug) db.organizations ≡ true
      → NotMade faults new_id slug u db
  second_fails : (e : DbError) → faults.second ≡ some e → NotMade faults new_id slug u db
  is_there : any (is_member new_id u) db.members ≡ true → NotMade faults new_id slug u db
  no_user : any (str_eq u) db.users ≡ false → NotMade faults new_id slug u db
  commit_fails : (e : DbError) → faults.commit ≡ some e → NotMade faults new_id slug u db

-- The ends of a request to create an organization.
pub data Creation (faults : Faults) (new_id slug u : String) (db : TenantDb)
    : Reply OrganizationSummary × TenantDb → Type 0 where
  made :
      (o : OrganizationSummary) (db' : TenantDb)
      → faults.commit_reply ≡ none
      → o.id ≡ new_id
      → IsMade new_id slug u db db'
      → Creation faults new_id slug u db (response o, db')
  unconfirmed :
      (e : DbError) (db' : TenantDb)
      → faults.commit_reply ≡ some e
      → IsMade new_id slug u db db'
      → Creation faults new_id slug u db (internal (database e), db')
  not_made :
      (reply : Reply OrganizationSummary)
      → ((o : OrganizationSummary) → reply ≢ response o)
      → NotMade faults new_id slug u db
      → Creation faults new_id slug u db (reply, db)

-- a slug that no organization clashes with is free
slug_free :
    (new_id slug : String) (os : List OrganizationRow)
    → any (λ x. str_eq x.id new_id || str_eq x.slug slug) os ≡ false
    → any (λ x. str_eq x.slug slug) os ≡ false
slug_free new_id slug [] h = refl
slug_free new_id slug (o ∷ os) h = ground (arith, slug_free new_id slug os)

assign_owner-Creation :
    (faults : Faults) (new_id name slug u : String) (now : ℤ) (db : TenantDb)
    → any (λ x. str_eq x.id new_id || str_eq x.slug slug) db.organizations ≡ false
    → Creation faults new_id slug u db (
        assign_owner faults (some u) (created new_id name slug now) db (record db {
          organizations =
              record { id = new_id; name = name; slug = slug; created_at = now } ∷ db.organizations;
        }))
assign_owner-Creation faults new_id name slug u now db free = elim (Option-cases faults.second) [
  | inr (x, e) ↦ rw e (not_made _ (λ o h. cc) (second_fails x refl))
  | inl e ↦ elim (Bool-cases (any (is_member new_id u) db.members)) [
    | inl dup ↦ rw (e, dup) (not_made _ (λ o h. cc) (is_there dup))
    | inr new ↦ elim (Bool-cases (any (str_eq u) db.users)) [
      | inr gone ↦ rw (e, new, gone) (not_made _ (λ o h. cc) (no_user gone))
      | inl user ↦ elim (Option-cases faults.commit) [
        | inr (x, c) ↦
            rw (e, new, user, eq_refl new_id, c) (not_made _ (λ o h. cc) (commit_fails x refl))
        | inl c ↦ elim (Option-cases faults.commit_reply) [
          | inr (x, l) ↦ rw (e, new, user, eq_refl new_id, c, l) (unconfirmed x _ refl the_end)
          | inl l ↦ rw (e, new, user, eq_refl new_id, c, l) (made _ _ refl refl the_end)
        ]
      ]
    ]
  ]
]
  where
    the_end : IsMade new_id slug u db (record db {
      organizations =
          record { id = new_id; name = name; slug = slug; created_at = now } ∷ db.organizations;
      members =
          record { organization_id = new_id; user_id = u; role = role_owner; joined_at = now }
          ∷ db.members;
    })
    the_end = record {
      slug_was_free = slug_free new_id slug db.organizations free;
      stored = rw (eq_refl new_id, eq_refl slug) refl;
      roles = λ v. rw (eq_refl new_id) refl;
    }

-- The transaction of CreateOrganization either makes the organization, with a slug that was free and
-- the caller as its owner, or leaves the database as it was, whichever statement fails. It answers
-- with the organization exactly where it makes it and the reply of COMMIT arrives; where that reply
-- is lost, the organization is made under an error. It makes none only where a statement or COMMIT
-- fails, the id or the slug is taken, the caller is a member already, or the caller is no user.
pub create_rows-Creation :
    (ids : Ids) (faults : Faults) (new_id name slug user_id u : String) (now : ℤ) (db : TenantDb)
    → ids.cast user_id ≡ some u
    → Creation faults new_id slug u db
        (create_rows ids faults user_id (created new_id name slug now) db)
unfolding create_rows
create_rows-Creation ids faults new_id name slug user_id u now db cast =
    elim (Option-cases faults.begin) [
      | inr (x, e) ↦ rw e (not_made _ (λ o h. cc) (begin_fails x refl))
      | inl e ↦ elim (Option-cases faults.first) [
        | inr (x, f) ↦ rw (e, f) (not_made _ (λ o h. cc) (first_fails x refl))
        | inl f ↦
            elim (Bool-cases
              (any (λ x. str_eq x.id new_id || str_eq x.slug slug) db.organizations)) [
                | inl used ↦ rw (e, f, used) (not_made _ (λ o h. cc) (taken used))
                | inr free ↦
                    rw (e, f, free, cast)
                      (rw (e, f) at (assign_owner-Creation faults new_id name slug u now db free))
              ]
      ]
    ]
