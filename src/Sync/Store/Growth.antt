-- ===== src/Sync/Store/Growth.antt =====
-- No step of the store loses a row or sets its clock back.
use geo_querry.Prelude.{String, ◌≡◌, refl, ◌∙◌, List}
use geo_querry.Sync.Database.{
  Db, station_clock, measurement_clock, sample_clock, vegetation_clock, borehole_clock,
}
use geo_querry.Sync.Table.{Clocked, insert_on_conflict}
use geo_querry.Sync.Table.Merge.{KeptAtLeast, insert_on_conflict-KeptAtLeast}
use geo_querry.Sync.Store.Move.{
  Move, nothing, station, measurement, sample, vegetation, borehole, Reach, here, next,
}

-- Every row of the first table is in the second, in that version or a later one.
abbrev pub Keeps : {R : Type 0} → Clocked R → List R → List R → Type 0
Keeps c rows rows' = (x : _) (k : String) → KeptAtLeast c x k rows → KeptAtLeast c x k rows'

pub record Grows (db db' : Db) : Type 0 where
  pub projects : db'.projects ≡ db.projects
  pub stations : Keeps station_clock db.stations db'.stations
  pub measurements : Keeps measurement_clock db.measurements db'.measurements
  pub samples : Keeps sample_clock db.samples db'.samples
  pub vegetation : Keeps vegetation_clock db.vegetation db'.vegetation
  pub boreholes : Keeps borehole_clock db.boreholes db'.boreholes

Keeps-refl : {R : Type 0} (c : Clocked R) (rows : List R) → Keeps c rows rows
Keeps-refl c rows x k h = h

Keeps-insert :
    {R : Type 0} (c : Clocked R) (r : R) (rows : List R)
    → Keeps c rows (insert_on_conflict c r rows).1
Keeps-insert c r rows x k h = insert_on_conflict-KeptAtLeast c x r k rows h

pub Grows-refl : (db : Db) → Grows db db
Grows-refl db = record {
  projects = refl;
  stations = Keeps-refl station_clock db.stations;
  measurements = Keeps-refl measurement_clock db.measurements;
  samples = Keeps-refl sample_clock db.samples;
  vegetation = Keeps-refl vegetation_clock db.vegetation;
  boreholes = Keeps-refl borehole_clock db.boreholes;
}

pub Grows-trans : {a b d : Db} → Grows a b → Grows b d → Grows a d
Grows-trans g h = record {
  projects = h.projects ∙ g.projects;
  stations = λ x k p. h.stations x k (g.stations x k p);
  measurements = λ x k p. h.measurements x k (g.measurements x k p);
  samples = λ x k p. h.samples x k (g.samples x k p);
  vegetation = λ x k p. h.vegetation x k (g.vegetation x k p);
  boreholes = λ x k p. h.boreholes x k (g.boreholes x k p);
}

Move-Grows : {db db' : Db} → Move db db' → Grows db db'
Move-Grows {db} (nothing e) = rw e (Grows-refl db)
Move-Grows {db} (station r free there e) = rw e (record {
  projects = refl;
  stations = Keeps-insert station_clock r db.stations;
  measurements = Keeps-refl measurement_clock db.measurements;
  samples = Keeps-refl sample_clock db.samples;
  vegetation = Keeps-refl vegetation_clock db.vegetation;
  boreholes = Keeps-refl borehole_clock db.boreholes;
})
Move-Grows {db} (measurement r there e) = rw e (record {
  projects = refl;
  stations = Keeps-refl station_clock db.stations;
  measurements = Keeps-insert measurement_clock r db.measurements;
  samples = Keeps-refl sample_clock db.samples;
  vegetation = Keeps-refl vegetation_clock db.vegetation;
  boreholes = Keeps-refl borehole_clock db.boreholes;
})
Move-Grows {db} (sample r free there e) = rw e (record {
  projects = refl;
  stations = Keeps-refl station_clock db.stations;
  measurements = Keeps-refl measurement_clock db.measurements;
  samples = Keeps-insert sample_clock r db.samples;
  vegetation = Keeps-refl vegetation_clock db.vegetation;
  boreholes = Keeps-refl borehole_clock db.boreholes;
})
Move-Grows {db} (vegetation r there e) = rw e (record {
  projects = refl;
  stations = Keeps-refl station_clock db.stations;
  measurements = Keeps-refl measurement_clock db.measurements;
  samples = Keeps-refl sample_clock db.samples;
  vegetation = Keeps-insert vegetation_clock r db.vegetation;
  boreholes = Keeps-refl borehole_clock db.boreholes;
})
Move-Grows {db} (borehole r ivs free there ours fresh e) = rw e (record {
  projects = refl;
  stations = Keeps-refl station_clock db.stations;
  measurements = Keeps-refl measurement_clock db.measurements;
  samples = Keeps-refl sample_clock db.samples;
  vegetation = Keeps-refl vegetation_clock db.vegetation;
  boreholes = Keeps-insert borehole_clock r db.boreholes;
})

pub Reach-Grows : {db db' : Db} → Reach db db' → Grows db db'
Reach-Grows {db} here = Grows-refl db
Reach-Grows (next r m) = Grows-trans (Reach-Grows r) (Move-Grows m)
