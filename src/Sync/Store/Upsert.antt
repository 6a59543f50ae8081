-- ===== src/Sync/Store/Upsert.antt =====
-- The outcomes of the guarded upsert under the constraints of its table.
use geo_querry.Prelude.{
  ◌≡◌, refl, sym, ◌∙◌, ◌⊎◌, inl, inr, Bool, true, false, Option, none, some, List, arith,
  Bool-cases, Option-cases,
}
use geo_querry.Prelude.Int.{◌≤ℤ◌}
use geo_querry.Sync.Conflict.{DbError}
use geo_querry.Sync.Database.{QueryRow, row, no_rows, query_error}
use geo_querry.Sync.Table.{Clocked, insert_on_conflict, clashes, get}
use geo_querry.Sync.Table.Laws.{verdict, returned-insert_on_conflict, insert_on_conflict-none}
use geo_querry.Sync.Store.{guarded_upsert, unique_violation, foreign_key_violation}

module _ {R : Type 0} (c : Clocked R) (same : R → R → Bool) (parent : Bool) (r : R)
    (rows : List R) where
  -- The guard skipped the row, a constraint refused it, or it was written.
  pub data Outcome (q : QueryRow) (rows' : List R) : Type 0 where
    skipped :
        (x : R)
        → get c (c.key r) rows ≡ some x
        → c.stamp r ≤ℤ c.stamp x
        → q ≡ no_rows
        → rows' ≡ rows
        → Outcome q rows'
    refused :
        (e : DbError)
        → q ≡ query_error e
        → rows' ≡ rows
        → (clashes c same r rows ≡ true) ⊎ (parent ≡ false)
        → (b : Bool) × (verdict c (get c (c.key r) rows) r ≡ some b)
        → Outcome q rows'
    written :
        (b : Bool)
        → q ≡ row b
        → rows' ≡ (insert_on_conflict c r rows).1
        → clashes c same r rows ≡ false
        → parent ≡ true
        → verdict c (get c (c.key r) rows) r ≡ some b
        → Outcome q rows'

  skipped_by :
      (o : Option R) → verdict c o r ≡ none → (x : R) × (o ≡ some x) × (c.stamp r ≤ℤ c.stamp x)
  skipped_by none h = cc
  skipped_by (some x) h = (x, refl, ground arith)

  pub guarded_upsert-Outcome :
      Outcome (guarded_upsert c same parent r rows).0 (guarded_upsert c same parent r rows).1
  unfolding guarded_upsert
  guarded_upsert-Outcome = elim (Option-cases (insert_on_conflict c r rows).0) [
    | inl e ↦
        let (x, stored, le) =
          skipped_by (get c (c.key r) rows) (sym (returned-insert_on_conflict c r rows) ∙ e) in
        rw (e, guarded_upsert) (skipped x stored le refl (insert_on_conflict-none c r rows e))
    | inr (b, e) ↦ elim (Bool-cases (clashes c same r rows)) [
      | inl clash ↦
          rw (e, clash, guarded_upsert)
            (refused unique_violation refl refl (inl clash)
              (b, sym (returned-insert_on_conflict c r rows) ∙ e))
      | inr free ↦ elim (Bool-cases parent) [
        | inl there ↦
            rw (e, free, there, guarded_upsert)
              (written b refl refl free refl (sym (returned-insert_on_conflict c r rows) ∙ e))
        | inr missing ↦
            rw (e, free, missing, guarded_upsert)
              (refused foreign_key_violation refl refl (inr refl)
                (b, sym (returned-insert_on_conflict c r rows) ∙ e))
      ]
    ]
  ]
