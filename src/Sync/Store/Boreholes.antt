-- ===== src/Sync/Store/Boreholes.antt =====
-- The outcomes of UpsertBorehole, a transaction of up to five round trips.
use geo_querry.Prelude.{
  String, ◌≡◌, refl, Option, ap, ◌∙◌, ◌⊎◌, inl, inr, Bool, true, false, none, some, List, ◌++◌,
  arith, Option-cases, All,
}
use geo_querry.Sync.Messages.{Borehole}
use geo_querry.Sync.Conflict.{
  SyncStatus, DbError, Upshot, rejected, conflict_stale, classify_error, finish_upshot,
  resolve_upshot,
}
use geo_querry.Sync.Database.{
  Ids, BoreholeRow, IntervalRow, Db, row, Result, ok, err, borehole_clock,
}
use geo_querry.Sync.Table.{insert_on_conflict, clashes, get}
use geo_querry.Sync.Table.Laws.{verdict}
use geo_querry.Sync.Store.{
  same_borehole_code, has_project, cast_both, borehole_row, borehole_statement, replace_intervals,
  after_query, committed, TxFaults, upsert_borehole, invalid_text,
}
use geo_querry.Sync.Store.Upsert.{skipped, refused, written, guarded_upsert-Outcome}
use geo_querry.Sync.Store.Intervals.{
  AllFresh, other_intervals, IsLog, replaced, replace_intervals-Replaced,
}

pub classify_error-rejected : (e : DbError) → (classify_error e).0 ≡ rejected
unfolding classify_error
classify_error-rejected e = ground arith

pub finish_upshot-rejected :
    (a w : Bool) (e : DbError) → (finish_upshot a w (some e)).status ≡ rejected
unfolding finish_upshot
finish_upshot-rejected a w e = classify_error-rejected e

-- the answer once the server has committed
pub data CommitAnswer (lost : Option DbError) (fresh_row : Bool) (status : SyncStatus)
    : Type 0 where
  told : lost ≡ none → status ≡ resolve_upshot true fresh_row → CommitAnswer lost fresh_row status
  reply_lost :
      (e : DbError) → lost ≡ some e → status ≡ rejected → CommitAnswer lost fresh_row status

-- Nothing is stored, or the row and the whole log are; `lost` is the error of a lost COMMIT reply.
pub data BoreholeOutcome (ids : Ids) (lost : Option DbError) (b : Borehole) (db : Db)
    (out : Upshot × Db) : Type 0 where
  kept :
      out.1 ≡ db
      → (out.0.status ≡ conflict_stale) ⊎ (out.0.status ≡ rejected)
      → BoreholeOutcome ids lost b db out
  accepted :
      (id project_id : String) (new : List IntervalRow) (fresh_row : Bool)
      → ids.cast b.id ≡ some id
      → clashes borehole_clock same_borehole_code (borehole_row (id, project_id) b) db.boreholes
        ≡ false
      → has_project project_id db ≡ true
      → verdict borehole_clock
          (get borehole_clock id db.boreholes)
          (borehole_row (id, project_id) b)
        ≡ some fresh_row
      → IsLog ids b.id id b.intervals new
      → AllFresh (other_intervals id db.intervals) new
      → All (λ iv. iv.borehole_id ≡ id) new
      → CommitAnswer lost fresh_row out.0.status
      → out.1 ≡ record db {
        boreholes =
            (insert_on_conflict borehole_clock (borehole_row (id, project_id) b) db.boreholes).1;
        intervals = other_intervals id db.intervals ++ new;
      }
      → BoreholeOutcome ids lost b db out

module _ (ids : Ids) (faults : TxFaults) (b : Borehole) (db : Db) where
  cast_both-cases :
      (cast_both ids b.id b.project_id ≡ none)
      ⊎ ((id : String) × (p : String) × (cast_both ids b.id b.project_id ≡ some (id, p))
          × (ids.cast b.id ≡ some id))
  cast_both-cases = elim (Option-cases (ids.cast b.id)) [
    | inl e ↦ inl (ground arith)
    | inr (id, e) ↦ elim (Option-cases (ids.cast b.project_id)) [
      | inl e' ↦ inl (ground arith)
      | inr (p, e') ↦ inr (id, p, ground arith, e)
    ]
  ]

  committed-CommitAnswer :
      (was_insert : Bool)
      → CommitAnswer faults.commit_reply was_insert (committed faults was_insert).status
  committed-CommitAnswer was_insert = elim (Option-cases faults.commit_reply) [
    | inl e ↦ rw (e, committed) (told refl refl)
    | inr (d, e) ↦ rw (e, committed) (reply_lost d refl (finish_upshot-rejected false false d))
  ]

  -- after the row was written to the transaction's copy
  module _ (id p : String) (was_insert : Bool) (cast : ids.cast b.id ≡ some id) where
    abbrev written_row : BoreholeRow
    written_row = borehole_row (id, p) b

    after_query-written :
        (db₁ : Db)
        → db₁
          ≡ record db { boreholes = (insert_on_conflict borehole_clock written_row db.boreholes).1 }
        → clashes borehole_clock same_borehole_code written_row db.boreholes ≡ false
        → has_project p db ≡ true
        → verdict borehole_clock (get borehole_clock id db.boreholes) written_row ≡ some was_insert
        → BoreholeOutcome ids faults.commit_reply b db
            (after_query ids faults b db (row was_insert, db₁))
    unfolding after_query
    after_query-written db₁ e free there v = go (replace_intervals ids faults b db₁) refl
      where
        go :
            (r : Result Db)
            → replace_intervals ids faults b db₁ ≡ r
            → BoreholeOutcome ids faults.commit_reply b db
                (after_query ids faults b db (row was_insert, db₁))
        go (err d) q = rw (q, after_query) (kept refl (inr (finish_upshot-rejected false false d)))
        go (ok db₂) q = elim (replace_intervals-Replaced ids b id cast db₁ faults db₂ q) [
          | replaced new log fresh ours eq ↦
              rw (q, after_query)
                (accepted id p new was_insert cast free there v log
                  (rw (ap (λ (d : Db). other_intervals id d.intervals) e) at fresh) ours
                  (committed-CommitAnswer was_insert)
                  (eq
                    ∙ ap
                        (λ (d : Db). record d { intervals = other_intervals id d.intervals ++ new })
                        e))
        ]

  after_statement :
      BoreholeOutcome ids faults.commit_reply b db
        (after_query ids faults b db (borehole_statement ids db b))
  unfolding after_query borehole_statement
  after_statement = elim cast_both-cases [
    | inl c ↦
        rw (c, borehole_statement)
          (kept refl (inr (finish_upshot-rejected false false invalid_text)))
    | inr (id, p, c, cast) ↦
        rw (c, borehole_statement)
          (elim (guarded_upsert-Outcome borehole_clock same_borehole_code (has_project p db)
            (borehole_row (id, p) b) db.boreholes) [
              | skipped x g le q e ↦ rw q (kept refl (inl refl))
              | refused d q e why newer ↦
                  rw q (kept refl (inr (finish_upshot-rejected false false d)))
              | written w q e free there v ↦ rw q (
                  after_query-written id p w cast _
                    (ap (λ (rows : List BoreholeRow). record db { boreholes = rows }) e) free there
                    v)
            ])
  ]

  -- Whichever round trip fails, a borehole and its interval log are written together or not at all:
  -- either the database is as it was, and the answer is CONFLICT_STALE or REJECTED; or the row is
  -- written under the clock guard, with its code free and its project there, the stored log of the
  -- borehole is exactly the pushed one, under interval ids that no other borehole has, and the
  -- answer is SYNCED or CONFLICT_OVERWROTE as the row was new or not, or REJECTED where COMMIT was
  -- carried out and only its reply was lost.
  pub upsert_borehole-Outcome :
      BoreholeOutcome ids faults.commit_reply b db (upsert_borehole ids faults b db)
  unfolding upsert_borehole
  upsert_borehole-Outcome = elim (Option-cases faults.begins) [
    | inr (e, f) ↦ rw (f, upsert_borehole) (kept refl (inr (finish_upshot-rejected false false e)))
    | inl f ↦ elim (Option-cases faults.query) [
      | inr (e, g) ↦
          rw (f, g, upsert_borehole) (kept refl (inr (finish_upshot-rejected false false e)))
      | inl g ↦ rw (f, g, upsert_borehole) after_statement
    ]
  ]
