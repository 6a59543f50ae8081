-- ===== src/Sync/Pull/Delivery.antt =====
-- What a pull delivers of what was pushed.
use mathlib.Core.List.Memᴰ
use mathlib.Core.List.{Permᴰ, Memᴰ}
use geo_querry.Prelude.{
  String, ◌≡◌, ◌≢◌, refl, ap, inl, inr, Bool, true, ◌&&◌, none, some, List, [], ◌∷◌, map, arith,
  eq_refl, str_eq, Bool-cases, filter,
}
use geo_querry.Prelude.Int.{ℤ, leb_ℤ}
use geo_querry.Sync.Messages.{Station}
use geo_querry.Sync.Conflict.{rejected, conflict_stale}
use geo_querry.Sync.Database.{Ids, Db, StationRow, ok, station_clock}
use geo_querry.Sync.Table.{Clocked, get}
use geo_querry.Sync.Store.{cast_both, station_row}
use geo_querry.Sync.Validate.{validate_station}
use geo_querry.Sync.Push.{push_station}
use geo_querry.Sync.Push.Verdict.{
  StationVerdict, stale, refusal, fresh, overwrote, push_station-StationVerdict,
}
use geo_querry.Sync.Pull.{scan_station, station_delta, pull_stations, by_stamp, select}
use geo_querry.Sync.Pull.Order.{
  IsOrdered, order_by-perm, order_by_stamp, Memᴰ-filter, Memᴰ-order_by,
}

pub select-ok :
    {A : Type 0} (ids : Ids) (project_id p : String) (rows : String → List A)
    → ids.cast project_id ≡ some p
    → select ids none project_id rows ≡ ok (rows p)
select-ok ids project_id p rows cast = rw (cast, select) refl

module _ (ids : Ids) (db : Db) (project_id p : String) (cast : ids.cast project_id ≡ some p)
    (since : ℤ) where
  abbrev pub wanted : StationRow → Bool
  wanted r = str_eq r.project_id p && leb_ℤ since r.updated_at

  -- A pull of stations whose query does not fail gives exactly the stored stations of the project
  -- whose clock is at or after `since`, each once, the older clocks first.
  pub pull_stations-exact :
      (rows : List StationRow) × (pull_stations ids none db project_id since
        ≡ ok (map scan_station rows))
      × Permᴰ rows (filter wanted db.stations)
      × IsOrdered (by_stamp (λ r. r.updated_at)) rows
  unfolding pull_stations station_delta
  pull_stations-exact = (
    station_delta db since p,
    select-ok ids project_id p (λ q. map scan_station (station_delta db since q)) cast,
    order_by-perm _ (filter wanted db.stations),
    order_by_stamp (λ r. r.updated_at) (filter wanted db.stations),
  )

get-Memᴰ :
    {R : Type 0} (c : Clocked R) (k : String) (rows : List R) (r : R)
    → get c k rows ≡ some r
    → Memᴰ r rows
get-Memᴰ c k [] r e = absurd (cc)
get-Memᴰ c k (x ∷ rows) r e = elim (Bool-cases (str_eq (c.key x) k)) [
  | inl h ↦ Memᴰ.head (ground arith)
  | inr h ↦ Memᴰ.tail (get-Memᴰ c k rows r (ground arith))
]

Memᴰ-map : {A B : Type 0} (f : A → B) (x : A) (xs : List A) → Memᴰ x xs → Memᴰ (f x) (map f xs)
Memᴰ-map f x [] m = absurd (Memᴰ.not-nil m)
Memᴰ-map f x (y ∷ xs) m = elim (Memᴰ.cases_cons m) [
  | inl e ↦ Memᴰ.head (ap f e)
  | inr m' ↦ Memᴰ.tail (Memᴰ-map f x xs m')
]

-- a stored row of the project is in a pull from a cursor that is not after its clock
pull_stations-stored :
    (ids : Ids) (db : Db) (p : String) (since : ℤ) (r : StationRow)
    → ids.cast p ≡ some p
    → r.project_id ≡ p
    → leb_ℤ since r.updated_at ≡ true
    → get station_clock r.id db.stations ≡ some r
    → (out : List Station) × (pull_stations ids none db p since ≡ ok out)
      × Memᴰ (scan_station r) out
unfolding pull_stations station_delta
pull_stations-stored ids db p since r cast same later stored = (
  map scan_station (station_delta db since p),
  select-ok ids p p (λ q. map scan_station (station_delta db since q)) cast,
  Memᴰ-map scan_station r _ (
      Memᴰ-order_by (by_stamp (λ x. x.updated_at)) (
        Memᴰ-filter _ (get-Memᴰ station_clock r.id db.stations r stored)
          (ground (arith, eq_refl p)))),
)

-- A delivered station that has every field of a pushed one, under its identifiers as PostgreSQL
-- reads them.
pub record IsDelivered (st : Station) (id p : String) (out : Station) : Type 0 where
  pub same_id : out.id ≡ id
  pub same_project : out.project_id ≡ p
  pub same_code : out.code ≡ st.code
  pub same_name : out.name ≡ st.name
  pub same_latitude : out.latitude ≡ st.latitude
  pub same_longitude : out.longitude ≡ st.longitude
  pub same_elevation : out.elevation ≡ st.elevation
  pub same_gps_accuracy : out.gps_accuracy ≡ st.gps_accuracy
  pub same_outcrop_exposure : out.outcrop_exposure ≡ st.outcrop_exposure
  pub same_lithology : out.lithology ≡ st.lithology
  pub same_notes : out.notes ≡ st.notes
  pub same_clock : out.updated_at ≡ st.updated_at
  pub same_tombstone : out.is_deleted ≡ st.is_deleted

scan_station-IsDelivered :
    (st : Station) (id p : String) → IsDelivered st id p (scan_station (station_row (id, p) st))
scan_station-IsDelivered st id p = record {
  same_id = refl;
  same_project = refl;
  same_code = refl;
  same_name = refl;
  same_latitude = refl;
  same_longitude = refl;
  same_elevation = refl;
  same_gps_accuracy = refl;
  same_outcrop_exposure = refl;
  same_lithology = refl;
  same_notes = refl;
  same_clock = refl;
  same_tombstone = refl;
}

-- A valid station whose identifiers PostgreSQL accepts, pushed without a fault, that is answered
-- neither REJECTED nor CONFLICT_STALE and whose clock is not before the cursor, is in what the next
-- pull of its project gives, every field of it as it was pushed.
pub pull_stations-accepted :
    (ids : Ids) (batch : String) (st : Station) (db : Db) (id p : String)
    → (cast : cast_both ids st.id st.project_id ≡ some (id, p)) → ids.cast p ≡ some p
    → validate_station ids batch st ≡ none
    → (push_station ids batch (st, none) db).0.status ≢ rejected
    → (push_station ids batch (st, none) db).0.status ≢ conflict_stale
    → (since : ℤ) → leb_ℤ since st.updated_at ≡ true
    → (out : List Station) × (pull_stations ids none
          (push_station ids batch (st, none) db).1
          p
          since
        ≡ ok out)
      × (found : Station) × Memᴰ found out
      × IsDelivered st id p found
pull_stations-accepted ids batch st db id p cast cast_p valid accepted current since later =
    delivered (push_station-StationVerdict ids batch st db id p cast valid)
  where
    after : Db
    after = (push_station ids batch (st, none) db).1

    stored :
        get station_clock id after.stations ≡ some (station_row (id, p) st)
        → (out : List Station) × (pull_stations ids none after p since ≡ ok out)
          × (found : Station) × Memᴰ found out
          × IsDelivered st id p found
    stored e =
        let (out, pulled, there) =
          pull_stations-stored ids after p since (station_row (id, p) st) cast_p refl later e in
        (
          out,
          pulled,
          scan_station (station_row (id, p) st),
          there,
          scan_station-IsDelivered st id p,
        )

    delivered :
        StationVerdict (station_row (id, p) st) db (push_station ids batch (st, none) db)
        → (out : List Station) × (pull_stations ids none after p since ≡ ok out)
          × (found : Station) × Memᴰ found out
          × IsDelivered st id p found
    delivered (stale x g le e e') = absurd (current e)
    delivered (refusal why newer e e') = absurd (accepted e)
    delivered (fresh g free there e now e') = stored now
    delivered (overwrote x g lt free there e now e') = stored now
