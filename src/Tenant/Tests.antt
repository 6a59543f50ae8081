-- ===== src/Tenant/Tests.antt =====
-- An organization of an owner and a geologist.
use geo_querry.Prelude.{
  ◌≡◌, ◌≢◌, refl, true, false, not, none, some, [], ◌∷◌, str_eq, arith, eq_iff,
}
use geo_querry.Prelude.Int.{pos}
use geo_querry.Sync.Database.{Ids}
use geo_querry.Auth.Identity.{Identity, has_active_sudo}
use geo_querry.Auth.Roles.{role_owner, role_geologist, can_transfer_ownership}
use geo_querry.Tenant.{
  get_caller_role, transfer_rows, with_tenant_tx, transfer_body, promote, rows_affected, response,
  TenantDb, Faults, with_members, set_role, transfer_organization_ownership,
}
use geo_querry.Tenant.Transfer.{
  TransferOutcome, SoleOwner, OneOwner, transfer_organization_ownership-OneOwner,
  transfer_organization_ownership-TransferOutcome,
}
use geo_querry.Tenant.Organizations.{created, create_rows}
use geo_querry.Tenant.Organizations.Creation.{Creation, create_rows-Creation}

abbrev ids : Ids
ids = record { parses = λ s. not (str_eq s ""); cast = λ s. some s }

abbrev calm : Faults
calm = record {
  simple_protocol = true;
  lookup = none;
  begin = none;
  scope = none;
  first = none;
  second = none;
  commit = none;
  commit_reply = none;
}

abbrev db : TenantDb
db = record {
  users = "ann" ∷ "ben" ∷ [];
  organizations = record { id = "org"; name = "Org"; slug = "org"; created_at = pos 1 } ∷ [];
  members =
      record { organization_id = "org"; user_id = "ann"; role = role_owner; joined_at = pos 1 }
      ∷ record {
        organization_id = "org";
        user_id = "ben";
        role = role_geologist;
        joined_at = pos 2;
      }
      ∷ [];
  projects = [];
}

abbrev ann : Identity
ann = record {
  user_id = "ann";
  subject = "ann";
  auth_time = pos 0;
  auth_methods = [];
  sudo_expires_at = some (pos 50);
  is_service_auth = false;
}

transfer_organization_ownership-TransferOutcome_example :
    TransferOutcome calm "ann" "org" "ben" "org" "ann" "ben"
      (has_active_sudo (some ann) (pos 40))
      db
      (transfer_organization_ownership ids calm (pos 40) (some ann) "org" "ben" (some db))
transfer_organization_ownership-TransferOutcome_example =
    transfer_organization_ownership-TransferOutcome ids calm (pos 40) ann "org" "ben" "org" "ann"
      "ben" refl refl db

create_rows-Creation_example :
    Creation calm "new" "new" "ann" db
      (create_rows ids calm "ann" (created "new" "New" "new" (pos 9)) db)
create_rows-Creation_example =
    create_rows-Creation ids calm "new" "New" "new" "ann" "ann" (pos 9) db refl

geologist_is_not_owner : role_geologist ≢ role_owner
geologist_is_not_owner e = absurd (let same = (eq_iff role_geologist role_owner).1 e in cc)

ann-SoleOwner : SoleOwner "org" "ann" db
ann-SoleOwner u = ground (arith, eq_iff "ann" u, eq_iff "ben" u, geologist_is_not_owner)

transfer_organization_ownership-OneOwner_example :
    OneOwner "org" "ann" "ben" db
      (transfer_organization_ownership ids calm (pos 40) (some ann) "org" "ben" (some db))
transfer_organization_ownership-OneOwner_example =
    transfer_organization_ownership-OneOwner ids calm (pos 40) ann "org" "ben" "org" "ann" "ben"
      refl refl db ann-SoleOwner

abbrev promoted : TenantDb
promoted =
    with_members db (set_role "org" "ben" role_owner (set_role "org" "ann" "admin" db.members))

-- the transfer that the requests above make
test_transfer :
    transfer_organization_ownership ids calm (pos 40) (some ann) "org" "ben" (some db)
    ≡ (response true, some promoted)
unfolding transfer_organization_ownership get_caller_role transfer_rows can_transfer_ownership
    has_active_sudo with_tenant_tx transfer_body set_role promote rows_affected
test_transfer = refl
