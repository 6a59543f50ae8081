-- ===== src/Sync/Push/Converge.antt =====
-- Batches of stations from several devices: retries, and the order of arrival.
use mathlib.Core.List.Permᴰ
use mathlib.Core.List.{Permᴰ}
use geo_querry.Prelude.{
  String, ◌≡◌, ◌≢◌, refl, ap, sym, ◌∙◌, inl, inr, false, Option, none, some, List, [], ◌∷◌, arith,
  Option-cases, All,
}
use geo_querry.Sync.Messages.{Station}
use geo_querry.Sync.Conflict.{DbError, EntityResult, rejected, entity_result}
use geo_querry.Sync.Database.{Ids, Db, StationRow, QueryRow, station_clock}
use geo_querry.Sync.Table.{insert_on_conflict, get}
use geo_querry.Sync.Table.Laws.{returned-insert_on_conflict, insert_on_conflict-none}
use geo_querry.Sync.Table.Merge.{run, IsConsistent, run-perm}
use geo_querry.Sync.Store.{
  same_station_code, has_project, cast_both, finish_lww, station_row, station_statement,
  upsert_station, invalid_text,
}
use geo_querry.Sync.Store.Upsert.{Outcome, skipped, refused, written, guarded_upsert-Outcome}
use geo_querry.Sync.Store.Boreholes.{finish_upshot-rejected}
use geo_querry.Sync.Validate.{validate_station}
use geo_querry.Sync.Push.{push_station, push_each}
use geo_querry.Sync.Push.Results.{Accepted}

module _ (ids : Ids) (batch : String) where
  -- What an accepted station has done to the table.
  pub record Applied (st : Station) (db db' : Db) : Type 0 where
    pub id : String
    pub project_id : String
    pub cast : cast_both ids st.id st.project_id ≡ some (id, project_id)
    pub effect : db' ≡ record db {
      stations = (insert_on_conflict station_clock (station_row (id, project_id) st) db.stations).1;
    }

  statement_effect :
      (id p : String) (st : Station) (db : Db) (g : QueryRow × List StationRow)
      → Outcome station_clock same_station_code
          (has_project p db)
          (station_row (id, p) st)
          db.stations
          g.0
          g.1
      → (finish_lww (g.0, record db { stations = g.1 })).0.status ≢ rejected
      → g.1 ≡ (insert_on_conflict station_clock (station_row (id, p) st) db.stations).1
  unfolding finish_lww
  statement_effect id p st db (q, rows) (skipped x g le e e') ok =
      let r = station_row (id, p) st in
      e'
      ∙ sym (
          insert_on_conflict-none station_clock r db.stations
            (returned-insert_on_conflict station_clock r db.stations ∙ ground arith))
  statement_effect id p st db (q, rows) (refused d e e' why newer) ok =
      absurd (ok (rw e (finish_upshot-rejected false false d)))
  statement_effect id p st db (q, rows) (written b e e' free there v) ok = e'

  upsert_station-Applied :
      (fault : Option DbError) (st : Station) (db : Db)
      → (upsert_station ids fault st db).0.status ≢ rejected
      → Applied st db (upsert_station ids fault st db).1
  unfolding upsert_station station_statement finish_lww
  upsert_station-Applied (some e) st db ok = absurd (ok (finish_upshot-rejected false false e))
  upsert_station-Applied none st db ok = go (cast_both ids st.id st.project_id) refl
    where
      go :
          (o : Option (String × String))
          → cast_both ids st.id st.project_id ≡ o
          → Applied st db (upsert_station ids none st db).1
      go none c =
          absurd (ok (rw (c, station_statement) (finish_upshot-rejected false false invalid_text)))
      go (some (id, p)) c = record {
        id = id;
        project_id = p;
        cast = c;
        effect =
            rw (c, station_statement)
              (ap (λ (rs : List StationRow). record db { stations = rs })
                (statement_effect id p st db _
                  (guarded_upsert-Outcome station_clock same_station_code (has_project p db)
                    (station_row (id, p) st) db.stations)
                  (rw (c, station_statement) at ok)));
      }

  pub push_station-Applied :
      (fault : Option DbError) (st : Station) (db : Db)
      → Accepted (push_station ids batch (st, fault) db).0
      → Applied st db (push_station ids batch (st, fault) db).1
  unfolding push_station entity_result
  push_station-Applied fault st db ok = elim (Option-cases (validate_station ids batch st)) [
    | inr (e, v) ↦ absurd (ok (rw (v, push_station) refl))
    | inl v ↦ rw (v, push_station) (upsert_station-Applied fault st db (rw (v, push_station) at ok))
  ]

  -- The rows for which the stations of a batch stand, where Postgres accepts their identifiers.
  abbrev row_of : Option (String × String) → Station → List StationRow → List StationRow
  row_of none st rows = rows
  row_of (some key) st rows = station_row key st ∷ rows

  unfoldable pub rows_of : List (Station × Option DbError) → List StationRow
  rows_of [] = []
  rows_of ((st, fault) ∷ xs) = row_of (cast_both ids st.id st.project_id) st (rows_of xs)

  abbrev pub push_stations : List (Station × Option DbError) → Db → List EntityResult × Db
  push_stations = push_each (push_station ids batch)

  -- A batch with no rejection is the guarded upserts of its rows, one after another.
  push_stations-run :
      (xs : List (Station × Option DbError)) (db : Db)
      → All Accepted (push_stations xs db).0
      → (push_stations xs db).1.stations ≡ run station_clock (rows_of xs) db.stations
  unfolding push_each rows_of run
  push_stations-run [] db ok = refl
  push_stations-run ((st, fault) ∷ xs) db ok =
      let a = push_station-Applied fault st db ok.0 in
      push_stations-run xs (push_station ids batch (st, fault) db).1 ok.1
      ∙ rw (a.cast) (ap (λ (d : Db). run station_clock (rows_of xs) d.stations) a.effect)

  row_of-perm :
      (o : Option (String × String)) (st : Station) {rs rs' : List StationRow}
      → Permᴰ rs rs'
      → Permᴰ (row_of o st rs) (row_of o st rs')
  row_of-perm none st p = p
  row_of-perm (some key) st p = Permᴰ.cons refl p

  row_of-swap :
      (o o' : Option (String × String)) (st st' : Station) (rs : List StationRow)
      → Permᴰ (row_of o st (row_of o' st' rs)) (row_of o' st' (row_of o st rs))
  row_of-swap none o' st st' rs = Permᴰ.refl (row_of o' st' rs)
  row_of-swap (some k) none st st' rs = Permᴰ.refl (station_row k st ∷ rs)
  row_of-swap (some k) (some k') st st' rs = Permᴰ.swap refl refl

  rows_of-perm :
      {xs ys : List (Station × Option DbError)} → Permᴰ xs ys → Permᴰ (rows_of xs) (rows_of ys)
  unfolding rows_of
  rows_of-perm Permᴰ.nil = Permᴰ.nil
  rows_of-perm (Permᴰ.cons {a = (st, f)} e p) =
      rw (← e) (row_of-perm (cast_both ids st.id st.project_id) st (rows_of-perm p))
  rows_of-perm (Permᴰ.swap {a = (st, f)} {b = (st', f')} {l = l} e e') =
      rw (← e, ← e')
        (row_of-swap (cast_both ids st.id st.project_id) (cast_both ids st'.id st'.project_id) st
          st' (rows_of l))
  rows_of-perm (Permᴰ.trans p q) = Permᴰ.trans (rows_of-perm p) (rows_of-perm q)

  -- Stations that reach the server in two orders, with nothing rejected on either way, leave the
  -- same version of each station stored, if no two different versions of one station in the batch
  -- carry the same clock.
  pub push_stations-perm :
      (xs ys : List (Station × Option DbError)) (db : Db)
      → Permᴰ xs ys
      → IsConsistent station_clock (rows_of xs)
      → All Accepted (push_stations xs db).0
      → All Accepted (push_stations ys db).0
      → (k : String)
      → get station_clock k (push_stations xs db).1.stations
        ≡ get station_clock k (push_stations ys db).1.stations
  push_stations-perm xs ys db p consistent okx oky k =
      ap (get station_clock k) (push_stations-run xs db okx)
      ∙ run-perm station_clock db.stations (rows_of-perm p) consistent k
      ∙ sym (ap (get station_clock k) (push_stations-run ys db oky))
