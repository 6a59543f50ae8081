-- ===== src/Sync/Push/Reach.antt =====
-- A push of a whole batch is a sequence of steps of the store.
use geo_querry.Prelude.{String, refl, inl, inr, Option, none, some, List, [], ◌∷◌, Option-cases}
use geo_querry.Prelude.Int.{ℤ}
use geo_querry.Sync.Messages.{Station, Measurement, Sample, Vegetation, Borehole, ValidationError}
use geo_querry.Sync.Conflict.{DbError, Upshot, EntityResult}
use geo_querry.Sync.Database.{Ids, Db}
use geo_querry.Sync.Store.{TxFaults}
use geo_querry.Sync.Store.Move.{
  Move, nothing, Reach, here, next, Reach-trans, upsert_station-Move, upsert_measurement-Move,
  upsert_sample-Move, upsert_vegetation-Move, upsert_borehole-Move,
}
use geo_querry.Sync.Store.Growth.{Grows, Reach-Grows}
use geo_querry.Sync.Validate.{
  require_uuid, validate_station, validate_measurement, validate_sample, validate_vegetation,
  validate_borehole,
}
use geo_querry.Sync.Push.{
  push_valid, push_station, push_measurement, push_sample, push_vegetation, push_borehole,
  push_each, PushRequest, push_sync_queue,
}

push_valid-Move :
    (id : String) (v : Option ValidationError) (upsert : Db → Upshot × Db) (db : Db)
    → Move db (upsert db).1
    → Move db (push_valid id v upsert db).1
push_valid-Move id (some e) upsert db m = nothing refl
push_valid-Move id none upsert db m = m

pub push_each-Reach :
    {A : Type 0} (push : A → Db → EntityResult × Db)
    → ((x : A) (db : Db) → Move db (push x db).1)
    → (xs : List A) (db : Db) → Reach db (push_each push xs db).1
unfolding push_each
push_each-Reach push step [] db = here
push_each-Reach push step (x ∷ xs) db =
    Reach-trans (next here (step x db)) (push_each-Reach push step xs (push x db).1)

module _ (ids : Ids) where
  pub push_station-Move :
      (p : String) (x : Station × Option DbError) (db : Db) → Move db (push_station ids p x db).1
  unfolding push_station
  push_station-Move p (st, fault) db =
      push_valid-Move st.id (validate_station ids p st) _ db (upsert_station-Move ids db fault st)

  pub push_measurement-Move :
      (x : Measurement × Option DbError) (db : Db) → Move db (push_measurement ids x db).1
  unfolding push_measurement
  push_measurement-Move (m, fault) db =
      push_valid-Move m.id (validate_measurement ids m) _ db
        (upsert_measurement-Move ids db fault m)

  pub push_sample-Move : (x : Sample × Option DbError) (db : Db) → Move db (push_sample ids x db).1
  unfolding push_sample
  push_sample-Move (r, fault) db =
      push_valid-Move r.id (validate_sample ids r) _ db (upsert_sample-Move ids db fault r)

  pub push_vegetation-Move :
      (x : Vegetation × Option DbError) (db : Db) → Move db (push_vegetation ids x db).1
  unfolding push_vegetation
  push_vegetation-Move (veg, fault) db =
      push_valid-Move veg.id (validate_vegetation ids veg) _ db
        (upsert_vegetation-Move ids db fault veg)

  pub push_borehole-Move :
      (p : String) (x : Borehole × TxFaults) (db : Db) → Move db (push_borehole ids p x db).1
  unfolding push_borehole
  push_borehole-Move p (b, faults) db =
      push_valid-Move b.id (validate_borehole ids p b) _ db (upsert_borehole-Move ids db faults b)

  pub push_sync_queue-Reach :
      (now : ℤ) (req : PushRequest) (db : Db) → Reach db (push_sync_queue ids now req db).1
  unfolding push_sync_queue
  push_sync_queue-Reach now req db =
      elim (Option-cases (require_uuid ids req.project_id "project_id")) [
        | inr (e, h) ↦ rw (h, push_sync_queue) here
        | inl h ↦
            rw (h, push_sync_queue)
              (Reach-trans
                (Reach-trans
                  (Reach-trans
                    (Reach-trans
                      (push_each-Reach (push_station ids req.project_id)
                        (push_station-Move req.project_id) req.stations db)
                      (push_each-Reach (push_measurement ids) push_measurement-Move req.measurements
                        _))
                    (push_each-Reach (push_sample ids) push_sample-Move req.samples _))
                  (push_each-Reach (push_vegetation ids) push_vegetation-Move req.vegetation _))
                (push_each-Reach (push_borehole ids req.project_id)
                  (push_borehole-Move req.project_id) req.boreholes _))
      ]

  -- Whatever a batch holds and whatever fails, every stored station, measurement, sample,
  -- vegetation record and borehole is there after it, under a clock that has not gone back.
  pub push_sync_queue-Grows :
      (now : ℤ) (req : PushRequest) (db : Db) → Grows db (push_sync_queue ids now req db).1
  push_sync_queue-Grows now req db = Reach-Grows (push_sync_queue-Reach now req db)
