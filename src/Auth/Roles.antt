-- ===== src/Auth/Roles.antt =====
-- The role hierarchy and the anti-escalation checks of context.go.
pub mod Escalation
use geo_querry.Prelude.{
  ℕ, String, Bool, true, false, not, ◌&&◌, Option, none, some, str_eq, if◌then◌else◌, ltb,
}

pub data TenantRole : Type 0 where
  unspecified : TenantRole
  owner : TenantRole
  admin : TenantRole
  geologist : TenantRole
  viewer : TenantRole

abbrev pub role_owner : String
role_owner = "owner"

abbrev pub role_admin : String
role_admin = "admin"

abbrev pub role_geologist : String
role_geologist = "geologist"

abbrev pub role_viewer : String
role_viewer = "viewer"

unfoldable pub proto_role_to_string : TenantRole → String
proto_role_to_string owner = role_owner
proto_role_to_string admin = role_admin
proto_role_to_string geologist = role_geologist
proto_role_to_string viewer = role_viewer
proto_role_to_string unspecified = ""

unfoldable pub string_to_proto_role : String → TenantRole
string_to_proto_role role =
    if str_eq role role_owner
    then owner
    else if str_eq role role_admin
    then admin
    else if str_eq role role_geologist
    then geologist
    else if str_eq role role_viewer
    then viewer
    else unspecified

unfoldable pub role_rank : String → ℕ
role_rank role =
    if str_eq role role_owner
    then 40
    else if str_eq role role_admin
    then 30
    else if str_eq role role_geologist
    then 20
    else if str_eq role role_viewer
    then 10
    else 0

-- The errors of the two checks.
pub data Denial : Type 0 where
  forbidden : Denial
  sudo_required : Denial
  cannot_demote_owner : Denial
  cannot_escalate_beyond_self : Denial

-- CanManageRole; no error is none.
unfoldable pub can_manage_role : String → String → String → Option Denial
unfolding role_rank
can_manage_role actor_role current_role new_role =
    if str_eq current_role role_owner && not (str_eq actor_role role_owner)
    then some cannot_demote_owner
    else if str_eq new_role role_owner && not (str_eq actor_role role_owner)
    then some forbidden
    else if ltb (role_rank actor_role) (role_rank new_role)
    then some cannot_escalate_beyond_self
    else if ltb (role_rank actor_role) (role_rank current_role)
    then some forbidden
    else none

-- CanTransferOwnership
unfoldable pub can_transfer_ownership : String → Bool → Option Denial
can_transfer_ownership actor_role has_active_sudo =
    if not (str_eq actor_role role_owner)
    then some forbidden
    else if not has_active_sudo
    then some sudo_required
    else none
