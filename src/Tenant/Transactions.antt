-- ===== src/Tenant/Transactions.antt =====
-- How a tenant transaction of backend/internal/db/tenant_tx.go ends.
use geo_querry.Prelude.{
  String, ◌≡◌, refl, inl, inr, Bool, true, false, Option, none, some, str_eq, if◌then◌else◌, eq_iff,
  Bool-cases,
}
use geo_querry.Sync.Conflict.{DbError}
use geo_querry.Tenant.{
  TenantDb, Failure, database, no_organization, Faults, Attempt, done, failed, with_tenant_tx, step,
  finish_tx, set_local_refused,
}

-- Why a tenant transaction is rolled back; `Body` is why its body fails.
pub data Undone (faults : Faults) (org_id : String) (Body : Type 0) : Type 0 where
  unscoped : org_id ≡ "" → Undone faults org_id Body
  begin_fails : (e : DbError) → faults.begin ≡ some e → Undone faults org_id Body
  default_protocol : faults.simple_protocol ≡ false → Undone faults org_id Body
  scope_fails : (e : DbError) → faults.scope ≡ some e → Undone faults org_id Body
  body_fails : Body → Undone faults org_id Body
  commit_fails : (e : DbError) → faults.commit ≡ some e → Undone faults org_id Body

-- A transaction that keeps a relation between the two states, or leaves the first as it was.
pub data TxOutcome (Q : TenantDb → Type 0) (Why : Type 0) (faults : Faults) (db : TenantDb)
    : Attempt Unit × TenantDb → Type 0 where
  committed :
      faults.simple_protocol ≡ true
      → faults.commit_reply ≡ none
      → (u : Unit) (db' : TenantDb) → Q db'
      → TxOutcome Q Why faults db (done u, db')
  unconfirmed :
      faults.simple_protocol ≡ true
      → (e : DbError) → faults.commit_reply ≡ some e
      → (db' : TenantDb) → Q db'
      → TxOutcome Q Why faults db (failed (database e), db')
  rolled_back : (e : Failure) → Why → TxOutcome Q Why faults db (failed e, db)

pub data BodyOutcome (Q : TenantDb → Type 0) (Body : Type 0)
    : Attempt Unit × TenantDb → Type 0 where
  body_done : (u : Unit) (db' : TenantDb) → Q db' → BodyOutcome Q Body (done u, db')
  body_failed : (e : Failure) (db' : TenantDb) → Body → BodyOutcome Q Body (failed e, db')

module _ (Q : TenantDb → Type 0) (Body : Type 0) (faults : Faults) (org_id : String) where
  finish_tx-TxOutcome :
      (commit lost : Option DbError) (db : TenantDb) (r : Attempt Unit × TenantDb)
      → faults.simple_protocol ≡ true
      → faults.commit ≡ commit
      → faults.commit_reply ≡ lost
      → BodyOutcome Q Body r
      → TxOutcome Q (Undone faults org_id Body) faults db (finish_tx commit lost db r)
  finish_tx-TxOutcome none none db _ s c l (body_done u db' q) = committed s l u db' q
  finish_tx-TxOutcome none (some e) db _ s c l (body_done u db' q) = unconfirmed s e l db' q
  finish_tx-TxOutcome (some e) lost db _ s c l (body_done u db' q) =
      rolled_back (database e) (commit_fails e c)
  finish_tx-TxOutcome commit lost db _ s c l (body_failed e db' w) = rolled_back e (body_fails w)

  pub with_tenant_tx-TxOutcome :
      (fn : TenantDb → Attempt Unit × TenantDb) (db : TenantDb)
      → BodyOutcome Q Body (fn db)
      → TxOutcome Q (Undone faults org_id Body) faults db (with_tenant_tx faults org_id fn db)
  unfolding with_tenant_tx
  with_tenant_tx-TxOutcome fn db b = elim (Bool-cases (str_eq org_id "")) [
    | inl e ↦ rw e (rolled_back no_organization (unscoped ((eq_iff org_id "").0 e)))
    | inr e ↦ rw e (stepped faults.begin faults.simple_protocol faults.scope refl refl refl)
  ]
    where
      stepped :
          (f : Option DbError) (simple : Bool) (g : Option DbError)
          → faults.begin ≡ f
          → faults.simple_protocol ≡ simple
          → faults.scope ≡ g
          → TxOutcome Q (Undone faults org_id Body) faults db (
              step f
                (λ d.
                  if simple
                  then step g (λ db'. finish_tx faults.commit faults.commit_reply db' (fn db')) d
                  else (failed (database set_local_refused), d))
                db)
      stepped (some e) simple g b' s g' = rolled_back (database e) (begin_fails e b')
      stepped none false g b' s g' = rolled_back (database set_local_refused) (default_protocol s)
      stepped none true (some e) b' s g' = rolled_back (database e) (scope_fails e g')
      stepped none true none b' s g' =
          finish_tx-TxOutcome faults.commit faults.commit_reply db (fn db) s refl refl b
