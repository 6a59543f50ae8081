-- ===== src/Auth/Roles/Escalation.antt =====
-- What the role checks allow.
use geo_querry.Prelude.{
  String, ◌≡◌, ◌≢◌, refl, ◌↔◌, ◌⊎◌, true, false, none, str_eq, arith, eq_iff, ◌≤◌,
}
use geo_querry.Auth.Roles.{
  TenantRole, owner, admin, geologist, viewer, unspecified, role_owner, role_admin, role_geologist,
  role_viewer, proto_role_to_string, string_to_proto_role, role_rank, can_manage_role,
}

-- A role that is written to the database and read back is the same role, and any string that
-- is read as a role other than UNSPECIFIED is the one that role is written as.
pub string_to_proto_role-proto_role_to_string :
    ((r : TenantRole) → string_to_proto_role (proto_role_to_string r) ≡ r)
    × ((s : String)
        → (string_to_proto_role s ≡ unspecified)
          ⊎ (proto_role_to_string (string_to_proto_role s) ≡ s))
unfolding string_to_proto_role proto_role_to_string
string_to_proto_role-proto_role_to_string = (written, read)
  where
    written : (r : TenantRole) → string_to_proto_role (proto_role_to_string r) ≡ r
    written owner = refl
    written admin = refl
    written geologist = refl
    written viewer = refl
    written unspecified = refl

    read :
        (s : String)
        → (string_to_proto_role s ≡ unspecified)
          ⊎ (proto_role_to_string (string_to_proto_role s) ≡ s)
    read s = ground (
      arith,
      eq_iff s role_owner,
      eq_iff s role_admin,
      eq_iff s role_geologist,
      eq_iff s role_viewer,
    )

-- owner is alone at the top of the ranks
role_rank-owner :
    (r : String)
    → ((str_eq r role_owner ≡ true) × (role_rank r ≡ 40))
      ⊎ ((str_eq r role_owner ≡ false) × (role_rank r ≤ 30))
unfolding role_rank
role_rank-owner r = ground arith

-- CanManageRole allows a change exactly when the actor's rank is at least those of the role that is
-- taken and of the role that is given: the checks on the owner role add nothing to the ranks.
pub can_manage_role_iff :
    (actor current new : String)
    → (can_manage_role actor current new ≡ none)
      ↔ ((role_rank current ≤ role_rank actor) × (role_rank new ≤ role_rank actor))
unfolding can_manage_role
can_manage_role_iff actor current new =
    ground (arith, role_rank-owner actor, role_rank-owner current, role_rank-owner new)

-- A chain of allowed changes of one user's role, each by an actor: a list of (actor, new role).
pub data Managed : String → String → Type 0 where
  start : {r : String} → Managed r r
  step :
      {r s : String} (actor new : String)
      → Managed r s
      → can_manage_role actor s new ≡ none
      → actor ≢ role_owner
      → Managed r new

-- what a change allowed to an actor who is not an owner leaves alone
can_manage_role-not_owner :
    (actor current new : String)
    → actor ≢ role_owner
    → can_manage_role actor current new ≡ none
    → (current ≢ role_owner) × (new ≢ role_owner)
unfolding can_manage_role
can_manage_role-not_owner actor current new other allowed = (
  λ e. absurd (ground (arith, eq_iff current role_owner, eq_iff actor role_owner)),
  λ e. absurd (ground (arith, eq_iff new role_owner, eq_iff actor role_owner)),
)

-- By any number of changes that CanManageRole allows to actors who are not owners, no user becomes
-- owner, and no owner loses the role.
pub Managed-owner : {r s : String} → Managed r s → (r ≡ role_owner) ↔ (s ≡ role_owner)
Managed-owner start = ((λ e. e), (λ e. e))
Managed-owner (step actor new m allowed other) =
    let (before, after) = can_manage_role-not_owner actor _ new other allowed in
    ((λ e. absurd (before ((Managed-owner m).0 e))), (λ e. absurd (after e)))
