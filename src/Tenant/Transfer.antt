-- ===== src/Tenant/Transfer.antt =====
-- What a transfer of ownership does to the roles.
use geo_querry.Prelude.{
  String, ◌≡◌, ◌≢◌, refl, inl, inr, ◌↔◌, ◌⊎◌, Bool, true, false, ◌&&◌, ◌||◌, Option, none, some,
  List, [], ◌∷◌, str_eq, arith, eq_iff, eq_refl, Bool-cases, if◌then◌else◌, ◌==◌,
}
use geo_querry.Prelude.Int.{ℤ}
use geo_querry.Sync.Conflict.{DbError}
use geo_querry.Sync.Database.{Ids}
use geo_querry.Sync.Store.{cast_both}
use geo_querry.Auth.Identity.{Identity, has_active_sudo}
use geo_querry.Auth.Roles.{role_owner, role_admin, can_transfer_ownership}
use geo_querry.Tenant.Transactions.{
  Undone, TxOutcome, committed, unconfirmed, rolled_back, BodyOutcome, body_done, body_failed,
  with_tenant_tx-TxOutcome,
}
use geo_querry.Tenant.{
  MemberRow, TenantDb, database, target_not_member, invalid_argument, unauthenticated, Faults,
  Attempt, Reply, response, internal, role_of, is_member, get_caller_role, set_role, rows_affected,
  promote, transfer_body, transfer_rows, transfer_organization_ownership, step, on_cast, with_role,
  if_allowed, of_tx, with_members,
}

-- an UPDATE of one member's role, seen through role_of
role_of-set_role :
    (o u org_id user_id role : String) (ms : List MemberRow)
    → role_of o u (set_role org_id user_id role ms) ≡ elim (role_of o u ms) [
      | none ↦ none
      | some r ↦ if str_eq o org_id && str_eq u user_id then some role else some r
    ]
unfolding set_role
role_of-set_role o u org_id user_id role [] = refl
role_of-set_role o u org_id user_id role (m ∷ ms) = ground (
  arith,
  role_of-set_role o u org_id user_id role ms,
  eq_iff m.organization_id org_id,
  eq_iff m.organization_id o,
  eq_iff o org_id,
  eq_iff m.user_id user_id,
  eq_iff m.user_id u,
  eq_iff u user_id,
)

role_of-member :
    (o u : String) (ms : List MemberRow)
    → (rows_affected o u ms == 0) ≡ false
    → role_of o u ms ≢ none
unfolding rows_affected
role_of-member o u [] h e = cc
role_of-member o u (m ∷ ms) h e = elim (Bool-cases (is_member o u m)) [
  | inl b ↦ absurd (let e' = rw b at e in cc)
  | inr b ↦ role_of-member o u ms (rw b at h) (rw b at e)
]

role_of-no_member :
    (o u : String) (ms : List MemberRow)
    → (rows_affected o u ms == 0) ≡ true
    → role_of o u ms ≡ none
unfolding rows_affected
role_of-no_member o u [] h = refl
role_of-no_member o u (m ∷ ms) h = elim (Bool-cases (is_member o u m)) [
  | inl b ↦ absurd (let h' = rw b at h in ground arith)
  | inr b ↦ rw b (role_of-no_member o u ms (rw b at h))
]

-- The roles after a transfer: the target is owner, the caller (if another) is admin, and every
-- other user and every other organization has the roles it had.
pub record Transferred (o c t : String) (before after : TenantDb) : Type 0 where
  pub target_was_member : role_of o t before.members ≢ none
  pub roles :
      (q u : String)
      → role_of q u after.members ≡ elim (role_of q u before.members) [
        | none ↦ none
        | some r ↦
            if str_eq q o && str_eq u t
            then some role_owner
            else if str_eq q o && str_eq u c
            then some role_admin
            else some r
      ]
  pub organizations : after.organizations ≡ before.organizations
  pub projects : after.projects ≡ before.projects

-- Why the statements of a transfer fail.
pub data NotMoved (faults : Faults) (o t : String) (db : TenantDb) : Type 0 where
  first_fails : (e : DbError) → faults.first ≡ some e → NotMoved faults o t db
  second_fails : (e : DbError) → faults.second ≡ some e → NotMoved faults o t db
  not_a_member : role_of o t db.members ≡ none → NotMoved faults o t db

-- Why a request to transfer changes nothing.
pub data Blocked (faults : Faults) (user_id org_id target o c t : String) (sudo : Bool)
    (db : TenantDb) : Type 0 where
  no_user : user_id ≡ "" → Blocked faults user_id org_id target o c t sudo db
  no_target : (org_id ≡ "") ⊎ (target ≡ "") → Blocked faults user_id org_id target o c t sudo db
  lookup_fails :
      (e : DbError) → faults.lookup ≡ some e → Blocked faults user_id org_id target o c t sudo db
  not_owner :
      role_of o c db.members ≢ some role_owner → Blocked faults user_id org_id target o c t sudo db
  no_sudo : sudo ≡ false → Blocked faults user_id org_id target o c t sudo db
  undone :
      Undone faults org_id (NotMoved faults o t db)
      → Blocked faults user_id org_id target o c t sudo db

-- The ends of a request to transfer: done, by the owner in an active sudo session, with or without
-- the reply of COMMIT, or not done, for a reason and with the database as it was.
pub data TransferOutcome (faults : Faults) (user_id org_id target o c t : String) (sudo : Bool)
    (db : TenantDb) : Reply Bool × Option TenantDb → Type 0 where
  transferred :
      (db' : TenantDb)
      → role_of o c db.members ≡ some role_owner
      → sudo ≡ true
      → faults.simple_protocol ≡ true
      → faults.commit_reply ≡ none
      → Transferred o c t db db'
      → TransferOutcome faults user_id org_id target o c t sudo db (response true, some db')
  unconfirmed_transfer :
      (e : DbError) (db' : TenantDb)
      → role_of o c db.members ≡ some role_owner
      → sudo ≡ true
      → faults.simple_protocol ≡ true
      → faults.commit_reply ≡ some e
      → Transferred o c t db db'
      → TransferOutcome faults user_id org_id target o c t sudo db (internal (database e), some db')
  untouched :
      (reply : Reply Bool)
      → reply ≢ response true
      → Blocked faults user_id org_id target o c t sudo db
      → TransferOutcome faults user_id org_id target o c t sudo db (reply, some db)

module _ (ids : Ids) (faults : Faults) (org_id caller target o c t : String)
    (cast_caller : cast_both ids org_id caller ≡ some (o, c))
    (cast_target : cast_both ids org_id target ≡ some (o, t)) where
  promote-BodyOutcome :
      (db : TenantDb)
      → BodyOutcome
          (Transferred o c t db)
          (NotMoved faults o t db)
          (promote o t (with_members db (set_role o c role_admin db.members)))
  unfolding promote
  promote-BodyOutcome db =
      elim (Bool-cases (rows_affected o t (set_role o c role_admin db.members) == 0)) [
        | inl e ↦ rw e (
            body_failed target_not_member _ (
              not_a_member (
                ground (
                  arith,
                  role_of-no_member o t _ e,
                  role_of-set_role o t o c role_admin db.members,
                ))))
        | inr e ↦ rw e (
            body_done tt _ (record {
              target_was_member = λ h.
                  role_of-member o t _ e
                    (ground (arith, role_of-set_role o t o c role_admin db.members));
              roles = λ q u. ground (
                arith,
                role_of-set_role q u o t role_owner (set_role o c role_admin db.members),
                role_of-set_role q u o c role_admin db.members,
              );
              organizations = refl;
              projects = refl;
            }))
      ]

  transfer_body-BodyOutcome :
      (db : TenantDb)
      → BodyOutcome
          (Transferred o c t db)
          (NotMoved faults o t db)
          (transfer_body ids faults org_id caller target db)
  unfolding transfer_body
  transfer_body-BodyOutcome db = stepped faults.first faults.second refl refl
    where
      stepped :
          (f g : Option DbError)
          → faults.first ≡ f
          → faults.second ≡ g
          → BodyOutcome (Transferred o c t db) (NotMoved faults o t db) (
              step f
                (on_cast (cast_both ids org_id caller) (λ o' c' db'.
                  step g
                    (on_cast (cast_both ids org_id target) promote)
                    (with_members db' (set_role o' c' role_admin db'.members))))
                db)
      stepped (some e) g f' g' = body_failed _ _ (first_fails e f')
      stepped none (some e) f' g' = rw cast_caller (body_failed _ _ (second_fails e g'))
      stepped none none f' g' = rw (cast_caller, cast_target) (promote-BodyOutcome db)

  transfer_rows-TransferOutcome :
      (sudo : Bool) (db : TenantDb)
      → role_of o c db.members ≡ some role_owner
      → sudo ≡ true
      → TransferOutcome faults caller org_id target o c t sudo db
          (transfer_rows ids faults org_id caller target (some db))
  unfolding transfer_rows
  transfer_rows-TransferOutcome sudo db is_owner active = ended _ (
      with_tenant_tx-TxOutcome (Transferred o c t db) (NotMoved faults o t db) faults org_id _ db
        (transfer_body-BodyOutcome db))
    where
      ended :
          (r : Attempt Unit × TenantDb)
          → TxOutcome
              (Transferred o c t db)
              (Undone faults org_id (NotMoved faults o t db))
              faults
              db
              r
          → TransferOutcome faults caller org_id target o c t sudo db (of_tx (r.0, some r.1))
      ended _ (committed simple confirmed u db' q) =
          transferred db' is_owner active simple confirmed q
      ended _ (unconfirmed simple e lost db' q) =
          unconfirmed_transfer e db' is_owner active simple lost q
      ended _ (rolled_back e why) = untouched (internal e) (λ h. cc) (undone why)

  allowed-TransferOutcome :
      (role : String) (sudo : Bool) (db : TenantDb)
      → role_of o c db.members ≡ some role
      → TransferOutcome faults caller org_id target o c t sudo db (
          if_allowed
            (can_transfer_ownership role sudo)
            (transfer_rows ids faults org_id caller target (some db))
            (some db))
  unfolding can_transfer_ownership
  allowed-TransferOutcome role sudo db found = elim (Bool-cases (str_eq role role_owner)) [
    | inl e ↦ elim (Bool-cases sudo) [
      | inl a ↦
          rw (e, a)
            (rw (a) at
              (transfer_rows-TransferOutcome sudo db (ground (arith, eq_iff role role_owner)) a))
      | inr a ↦ rw (e, a) (untouched _ (λ h. cc) (no_sudo refl))
    ]
    | inr e ↦ rw e (untouched _ (λ h. cc) (not_owner (λ h. ground (arith, eq_iff role role_owner))))
  ]

  with_role-TransferOutcome :
      (sudo : Bool) (db : TenantDb)
      → TransferOutcome faults caller org_id target o c t sudo db (
          with_role (get_caller_role ids faults.lookup (some db) org_id caller) (some db) λ role.
            if_allowed
              (can_transfer_ownership role sudo)
              (transfer_rows ids faults org_id caller target (some db))
              (some db))
  unfolding get_caller_role
  with_role-TransferOutcome sudo db = looked_up faults.lookup (role_of o c db.members) refl refl
    where
      looked_up :
          (fault : Option DbError) (found : Option String)
          → faults.lookup ≡ fault
          → role_of o c db.members ≡ found
          → TransferOutcome faults caller org_id target o c t sudo db (
              with_role (get_caller_role ids fault (some db) org_id caller) (some db) λ role.
                if_allowed
                  (can_transfer_ownership role sudo)
                  (transfer_rows ids faults org_id caller target (some db))
                  (some db))
      looked_up (some e) found l f = untouched _ (λ h. cc) (lookup_fails e l)
      looked_up none none l f =
          rw (cast_caller, f, get_caller_role) (untouched _ (λ h. cc) (not_owner (λ h. cc)))
      looked_up none (some role) l f =
          rw (cast_caller, f, get_caller_role) (allowed-TransferOutcome role sudo db f)

-- A request to transfer ownership, whose identifiers PostgreSQL accepts, makes the transfer or leaves
-- the database as it was, whichever statement fails. It makes it only for the owner in an active sudo
-- session, for a target that is a member, and in the simple protocol; then the target is owner, the
-- caller (if another) is admin, and every other role, in this and in every other organization, is
-- what it was. The answer is success exactly where the transfer is made and the reply of COMMIT
-- arrives; where that reply is lost, the transfer is made under an error. It is not made only where
-- one of these conditions fails, a statement or COMMIT fails, or an argument or the user is empty.
pub transfer_organization_ownership-TransferOutcome :
    (ids : Ids) (faults : Faults) (now : ℤ) (ident : Identity) (org_id target o c t : String)
    → cast_both ids org_id ident.user_id ≡ some (o, c)
    → cast_both ids org_id target ≡ some (o, t)
    → (db : TenantDb)
    → TransferOutcome faults ident.user_id org_id target o c t
        (has_active_sudo (some ident) now)
        db
        (transfer_organization_ownership ids faults now (some ident) org_id target (some db))
unfolding transfer_organization_ownership
transfer_organization_ownership-TransferOutcome ids faults now ident org_id target o c t cast_caller
      cast_target db =
    elim (Bool-cases (str_eq ident.user_id "")) [
      | inl e ↦ rw e (untouched unauthenticated (λ h. cc) (no_user ((eq_iff ident.user_id "").0 e)))
      | inr e ↦ elim (Bool-cases (str_eq org_id "" || str_eq target "")) [
        | inl b ↦
            rw (e, b)
              (untouched invalid_argument (λ h. cc)
                (no_target (ground (arith, eq_iff org_id "", eq_iff target ""))))
        | inr b ↦
            rw (e, b)
              (with_role-TransferOutcome ids faults org_id ident.user_id target o c t cast_caller
                cast_target (has_active_sudo (some ident) now) db)
      ]
    ]

admin_is_not_owner : role_admin ≢ role_owner
admin_is_not_owner e = absurd (let same = (eq_iff role_admin role_owner).1 e in cc)

-- The caller is the only owner of the organization.
abbrev pub SoleOwner : String → String → TenantDb → Type 0
SoleOwner o c db = (u : String) → (role_of o u db.members ≡ some role_owner) ↔ (u ≡ c)

-- a transfer by the only owner of an organization leaves it with one owner, the target
Transferred-SoleOwner :
    (o c t : String) (db db' : TenantDb)
    → SoleOwner o c db
    → Transferred o c t db db'
    → SoleOwner o t db'
Transferred-SoleOwner o c t db db' sole moved u = (
  λ e.
      ground
        (arith, admin_is_not_owner, moved.roles o u, sole u, eq_refl o, eq_iff u t, eq_iff u c),
  λ e. ground (arith, moved.roles o u, moved.target_was_member, eq_refl o, eq_iff u t),
)

-- What a sole owner's request leaves: one owner, the target where the answer is success, the caller
-- where nothing has changed, and one of the two in every case.
pub data OneOwner (o c t : String) (db : TenantDb) : Reply Bool × Option TenantDb → Type 0 where
  handed_over :
      (reply : Reply Bool) (db' : TenantDb)
      → SoleOwner o t db'
      → OneOwner o c t db (reply, some db')
  kept :
      (reply : Reply Bool)
      → reply ≢ response true
      → SoleOwner o c db
      → OneOwner o c t db (reply, some db)

-- A request to transfer ownership by the only owner of an organization, whose identifiers PostgreSQL
-- accepts, leaves it with one owner, whichever statement fails and also where the reply of COMMIT is
-- lost: the target where the answer is success, and otherwise the target, or the caller with the
-- database as it was.
pub transfer_organization_ownership-OneOwner :
    (ids : Ids) (faults : Faults) (now : ℤ) (ident : Identity) (org_id target o c t : String)
    → cast_both ids org_id ident.user_id ≡ some (o, c)
    → cast_both ids org_id target ≡ some (o, t)
    → (db : TenantDb) → SoleOwner o c db
    → OneOwner o c t db
        (transfer_organization_ownership ids faults now (some ident) org_id target (some db))
transfer_organization_ownership-OneOwner ids faults now ident org_id target o c t cast_caller
      cast_target db sole =
    ended (
      transfer_organization_ownership-TransferOutcome ids faults now ident org_id target o c t
        cast_caller cast_target db)
  where
    ended :
        {sudo : Bool} {r : Reply Bool × Option TenantDb}
        → TransferOutcome faults ident.user_id org_id target o c t sudo db r
        → OneOwner o c t db r
    ended (transferred db' owns active simple confirmed moved) =
        handed_over (response true) db' (Transferred-SoleOwner o c t db db' sole moved)
    ended (unconfirmed_transfer e db' owns active simple lost moved) =
        handed_over (internal (database e)) db' (Transferred-SoleOwner o c t db db' sole moved)
    ended (untouched reply refused why) = kept reply refused sole
