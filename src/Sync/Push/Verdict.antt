-- ===== src/Sync/Push/Verdict.antt =====
-- The verdict on one pushed station.
use geo_querry.Prelude.{
  String, ◌≡◌, refl, ap, ◌∙◌, ◌⊎◌, true, false, Option, none, some, List, arith, eq_refl,
}
use geo_querry.Prelude.Int.{◌≤ℤ◌, ◌<ℤ◌}
use geo_querry.Sync.Messages.{Station}
use geo_querry.Sync.Conflict.{
  EntityResult, rejected, synced, conflict_overwrote, conflict_stale, entity_result,
}
use geo_querry.Sync.Database.{Ids, Db, StationRow, QueryRow, station_clock}
use geo_querry.Sync.Table.{insert_on_conflict, clashes, get}
use geo_querry.Sync.Table.Laws.{verdict, winner, get-insert_on_conflict}
use geo_querry.Sync.Store.{
  guarded_upsert, same_station_code, has_project, cast_both, finish_lww, station_row,
  station_statement,
}
use geo_querry.Sync.Store.Upsert.{Outcome, skipped, refused, written, guarded_upsert-Outcome}
use geo_querry.Sync.Store.Boreholes.{finish_upshot-rejected}
use geo_querry.Sync.Validate.{validate_station}
use geo_querry.Sync.Push.{push_station}

-- The four answers to a valid station, each with when it is given and what is stored then.
pub data StationVerdict (r : StationRow) (db : Db) (out : EntityResult × Db) : Type 0 where
  stale :
      (x : StationRow)
      → get station_clock r.id db.stations ≡ some x
      → r.updated_at ≤ℤ x.updated_at
      → out.0.status ≡ conflict_stale
      → out.1 ≡ db
      → StationVerdict r db out
  refusal :
      (clashes station_clock same_station_code r db.stations ≡ true)
        ⊎ (has_project r.project_id db ≡ false)
      → ((x : StationRow)
          → get station_clock r.id db.stations ≡ some x
          → x.updated_at <ℤ r.updated_at)
      → out.0.status ≡ rejected
      → out.1 ≡ db
      → StationVerdict r db out
  fresh :
      get station_clock r.id db.stations ≡ none
      → clashes station_clock same_station_code r db.stations ≡ false
      → has_project r.project_id db ≡ true
      → out.0.status ≡ synced
      → get station_clock r.id out.1.stations ≡ some r
      → out.1 ≡ record db { stations = (insert_on_conflict station_clock r db.stations).1 }
      → StationVerdict r db out
  overwrote :
      (x : StationRow)
      → get station_clock r.id db.stations ≡ some x
      → x.updated_at <ℤ r.updated_at
      → clashes station_clock same_station_code r db.stations ≡ false
      → has_project r.project_id db ≡ true
      → out.0.status ≡ conflict_overwrote
      → get station_clock r.id out.1.stations ≡ some r
      → out.1 ≡ record db { stations = (insert_on_conflict station_clock r db.stations).1 }
      → StationVerdict r db out

module _ (ids : Ids) (batch : String) (st : Station) (db : Db) where
  module _ (id p : String) (cast : cast_both ids st.id st.project_id ≡ some (id, p)) where
    abbrev the_row : StationRow
    the_row = station_row (id, p) st

    abbrev reply : QueryRow × List StationRow → EntityResult × Db
    reply (q, rows) =
        let (out, db') = finish_lww (q, record db { stations = rows }) in
        (entity_result st.id out.status out.msg, db')

    reply-statement :
        validate_station ids batch st ≡ none
        → push_station ids batch (st, none) db
          ≡ reply (
              guarded_upsert station_clock same_station_code (has_project p db) the_row db.stations)
    unfolding push_station station_statement
    reply-statement valid = rw (valid, cast, push_station, station_statement) refl

    -- the verdict in terms of the outcome of the statement
    reply-StationVerdict :
        (g : QueryRow × List StationRow)
        → Outcome station_clock same_station_code (has_project p db) the_row db.stations g.0 g.1
        → StationVerdict the_row db (reply g)
    unfolding finish_lww entity_result
    reply-StationVerdict (q, rows) (skipped x g le e e') = stale x g le (rw e refl) (rw e' refl)
    reply-StationVerdict (q, rows) (refused d e e' why newer) =
        refusal why (λ x g. let (b, v) = newer in ground arith)
          (rw e (finish_upshot-rejected false false d)) (rw e' refl)
    reply-StationVerdict (q, rows) (written b e e' free there v) =
        go (get station_clock id db.stations) refl v
      where
        now_stored :
            get station_clock id rows
            ≡ some (winner station_clock (get station_clock id db.stations) the_row)
        now_stored = rw e' (
            ground (arith, get-insert_on_conflict station_clock id the_row db.stations, eq_refl id))

        go :
            (o : Option StationRow)
            → get station_clock id db.stations ≡ o
            → verdict station_clock o the_row ≡ some b
            → StationVerdict the_row db (reply (q, rows))
        go none g v' =
            fresh g free there (ground arith) (now_stored ∙ ground arith)
              (ap (λ (rs : List StationRow). record db { stations = rs }) e')
        go (some x) g v' =
            overwrote x g (ground arith) free there (ground arith) (now_stored ∙ ground arith)
              (ap (λ (rs : List StationRow). record db { stations = rs }) e')

    -- A valid station whose identifiers Postgres accepts, when no fault comes first, gets exactly
    -- one of four answers: CONFLICT_STALE if the stored version is as new, and nothing changes;
    -- REJECTED if another id holds its code or its project is missing, and nothing changes; SYNCED
    -- if nothing was stored under its id, CONFLICT_OVERWROTE if an older version was, and in both
    -- the pushed row is what is stored under the id, and no other table is touched.
    pub push_station-StationVerdict :
        validate_station ids batch st ≡ none
        → StationVerdict the_row db (push_station ids batch (st, none) db)
    push_station-StationVerdict valid = rw (reply-statement valid) (
        reply-StationVerdict _ (
          guarded_upsert-Outcome station_clock same_station_code (has_project p db) the_row
            db.stations))
