-- ===== src/Sync/Push/Results.antt =====
-- What PushSyncQueue answers.
use geo_querry.Prelude.{
  String, ◌≡◌, ◌≢◌, ◌↔◌, refl, Bool, true, false, Option, none, some, List, [], ◌∷◌, map, arith,
  if◌then◌else◌, All,
}
use geo_querry.Prelude.Int.{ℤ}
use geo_querry.Sync.Messages.{Station, Measurement, Sample, Vegetation, Borehole, ValidationError}
use geo_querry.Sync.Conflict.{DbError, SyncStatus, rejected, Upshot, EntityResult, entity_result}
use geo_querry.Sync.Database.{Ids, Db}
use geo_querry.Sync.Store.{TxFaults}
use geo_querry.Sync.Validate.{require_uuid}
use geo_querry.Sync.Push.{
  push_valid, push_station, push_measurement, push_sample, push_vegetation, push_borehole,
  push_each, PushRequest, PushResponse, response, push_sync_queue, is_rejected, success_after,
}

push_valid-id :
    (id : String) (v : Option ValidationError) (upsert : Db → Upshot × Db) (db : Db)
    → (push_valid id v upsert db).0.id ≡ id
unfolding entity_result
push_valid-id id (some e) upsert db = refl
push_valid-id id none upsert db = refl

push_each-ids :
    {A : Type 0} (push : A → Db → EntityResult × Db) (id : A → String)
    → ((x : A) (db : Db) → (push x db).0.id ≡ id x)
    → (xs : List A) (db : Db) → map (λ r. r.id) (push_each push xs db).0 ≡ map id xs
unfolding push_each
push_each-ids push id step [] db = refl
push_each-ids push id step (x ∷ xs) db =
    let ih = push_each-ids push id step xs (push x db).1 in λ i. step x db i ∷ ih i

abbrev pub Accepted : EntityResult → Type 0
Accepted r = r.status ≢ rejected

success_after-true : (s : Bool) (rs : List EntityResult) → success_after s rs ≡ true → s ≡ true
unfolding success_after
success_after-true s [] h = h
success_after-true s (r ∷ rs) h =
    ground (arith, success_after-true (if is_rejected r.status then false else s) rs h)

is_rejected-false : (s : SyncStatus) → s ≢ rejected → is_rejected s ≡ false
is_rejected-false s h = ground arith

success_after-All :
    (s : Bool) (rs : List EntityResult) → success_after s rs ≡ true → All Accepted rs
unfolding success_after
success_after-All s [] h = tt
success_after-All s (r ∷ rs) h = (
  λ e. ground (arith, success_after-true (if is_rejected r.status then false else s) rs h),
  success_after-All _ rs h,
)

success_after-Accepted : (rs : List EntityResult) → All Accepted rs → success_after true rs ≡ true
unfolding success_after
success_after-Accepted [] h = refl
success_after-Accepted (r ∷ rs) h =
    rw (is_rejected-false r.status h.0) (success_after-Accepted rs h.1)

-- What a response says of the request that it answers.
pub record Answers (req : PushRequest) (now : ℤ) (r : PushResponse) : Type 0 where
  pub time : r.server_timestamp ≡ now
  pub stations : map (λ x. x.id) r.station_results ≡ map (λ x. x.0.id) req.stations
  pub measurements : map (λ x. x.id) r.measurements_results ≡ map (λ x. x.0.id) req.measurements
  pub samples : map (λ x. x.id) r.samples_results ≡ map (λ x. x.0.id) req.samples
  pub vegetation : map (λ x. x.id) r.vegetation_results ≡ map (λ x. x.0.id) req.vegetation
  pub boreholes : map (λ x. x.id) r.boreholes_results ≡ map (λ x. x.0.id) req.boreholes
  pub success : (r.success ≡ true) ↔ (
      All Accepted r.station_results
      × All Accepted r.measurements_results
      × All Accepted r.samples_results
      × All Accepted r.vegetation_results
      × All Accepted r.boreholes_results)

success_of_groups :
    (a b d e f : List EntityResult)
    → (success_after (success_after (success_after (success_after (success_after true a) b) d) e) f
        ≡ true)
      ↔ (All Accepted a × All Accepted b × All Accepted d × All Accepted e × All Accepted f)
success_of_groups a b d e f = (to, from)
  where
    to :
        success_after (success_after (success_after (success_after (success_after true a) b) d) e) f
          ≡ true
        → All Accepted a × All Accepted b × All Accepted d × All Accepted e × All Accepted f
    to h =
        let h₁ = success_after-true _ f h in
        let h₂ = success_after-true _ e h₁ in
        let h₃ = success_after-true _ d h₂ in
        let h₄ = success_after-true _ b h₃ in
        (
          success_after-All true a h₄,
          success_after-All _ b h₃,
          success_after-All _ d h₂,
          success_after-All _ e h₁,
          success_after-All _ f h,
        )

    from :
        All Accepted a × All Accepted b × All Accepted d × All Accepted e × All Accepted f
        → success_after
            (success_after (success_after (success_after (success_after true a) b) d) e)
            f
          ≡ true
    from (ha, hb, hd, he, hf) =
        rw
          (
            success_after-Accepted a ha,
            success_after-Accepted b hb,
            success_after-Accepted d hd,
            success_after-Accepted e he,
          )
          (success_after-Accepted f hf)

module _ (ids : Ids) where
  push_station-id :
      (p : String) (x : Station × Option DbError) (db : Db)
      → (push_station ids p x db).0.id ≡ x.0.id
  unfolding push_station
  push_station-id p (st, f) db = push_valid-id st.id _ _ db

  push_measurement-id :
      (x : Measurement × Option DbError) (db : Db) → (push_measurement ids x db).0.id ≡ x.0.id
  unfolding push_measurement
  push_measurement-id (m, f) db = push_valid-id m.id _ _ db

  push_sample-id : (x : Sample × Option DbError) (db : Db) → (push_sample ids x db).0.id ≡ x.0.id
  unfolding push_sample
  push_sample-id (r, f) db = push_valid-id r.id _ _ db

  push_vegetation-id :
      (x : Vegetation × Option DbError) (db : Db) → (push_vegetation ids x db).0.id ≡ x.0.id
  unfolding push_vegetation
  push_vegetation-id (veg, f) db = push_valid-id veg.id _ _ db

  push_borehole-id :
      (p : String) (x : Borehole × TxFaults) (db : Db) → (push_borehole ids p x db).0.id ≡ x.0.id
  unfolding push_borehole
  push_borehole-id p (b, f) db = push_valid-id b.id _ _ db

  -- A batch whose project id is accepted gets a response, whatever fails on the way. Each of its
  -- five lists names the entities of the request in order, and `success` holds exactly if no
  -- result of the five lists is rejected.
  pub push_sync_queue-Answers :
      (now : ℤ) (req : PushRequest) (db : Db)
      → require_uuid ids req.project_id "project_id" ≡ none
      → (r : PushResponse) × ((push_sync_queue ids now req db).0 ≡ response r) × Answers req now r
  unfolding push_sync_queue
  push_sync_queue-Answers now req db h =
      let p = req.project_id in
      let s = push_each (push_station ids p) req.stations db in
      let m = push_each (push_measurement ids) req.measurements s.1 in
      let r = push_each (push_sample ids) req.samples m.1 in
      let v = push_each (push_vegetation ids) req.vegetation r.1 in
      let b = push_each (push_borehole ids p) req.boreholes v.1 in
      (
        _,
        rw (h, push_sync_queue) refl,
        record {
          time = refl;
          stations = push_each-ids _ (λ x. x.0.id) (push_station-id p) req.stations db;
          measurements = push_each-ids _ (λ x. x.0.id) push_measurement-id req.measurements s.1;
          samples = push_each-ids _ (λ x. x.0.id) push_sample-id req.samples m.1;
          vegetation = push_each-ids _ (λ x. x.0.id) push_vegetation-id req.vegetation r.1;
          boreholes = push_each-ids _ (λ x. x.0.id) (push_borehole-id p) req.boreholes v.1;
          success = success_of_groups s.0 m.0 r.0 v.0 b.0;
        },
      )
