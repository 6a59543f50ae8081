-- ===== src/Sync/Store/Intervals.antt =====
-- The interval log of a borehole: DELETE, the batch of INSERTs, and their transaction.
use mathlib.Core.List.{append_assoc, append-nil}
use geo_querry.Prelude.{
  String, ◌≡◌, refl, ap, sym, ◌∙◌, ◌⊎◌, inl, inr, false, not, Option, none, some, List, [], ◌∷◌,
  ◌++◌, arith, Bool-cases, Option-cases, str_eq, any, filter, All,
}
use geo_querry.Sync.Messages.{Interval, Borehole}
use geo_querry.Sync.Conflict.{DbError}
use geo_querry.Sync.Database.{Ids, IntervalRow, Db, Result, ok, err}
use geo_querry.Sync.Store.{
  cast_both, interval_row, insert_intervals, insert_batch, send_batch, delete_intervals,
  replace_intervals, TxFaults,
}

-- Each new interval has an identifier that no interval before it has.
abbrev pub AllFresh : List IntervalRow → List IntervalRow → Type 0
AllFresh rows [] = Unit {0}
AllFresh rows (iv ∷ ivs) =
    (any (λ x. str_eq x.id iv.id) rows ≡ false) × AllFresh (rows ++ iv ∷ []) ivs

abbrev pub other_intervals : String → List IntervalRow → List IntervalRow
other_intervals borehole_id rows = filter (λ iv. not (str_eq iv.borehole_id borehole_id)) rows

-- The rows that stand for a log whose identifiers Postgres accepts.
pub data IsLog (ids : Ids) (sent bid : String) : List Interval → List IntervalRow → Type 0 where
  done : IsLog ids sent bid [] []
  more :
      {iv : Interval} {ivs : List Interval} {rows : List IntervalRow} (id : String)
      → cast_both ids iv.id sent ≡ some (id, bid)
      → IsLog ids sent bid ivs rows
      → IsLog ids sent bid (iv ∷ ivs) (interval_row (id, bid) iv ∷ rows)

module _ (ids : Ids) (sent bid : String) (cast : ids.cast sent ≡ some bid) where
  cast_both-bid :
      (id : String)
      → (cast_both ids id sent ≡ none) ⊎ ((i : String) × (cast_both ids id sent ≡ some (i, bid)))
  cast_both-bid id = elim (Option-cases (ids.cast id)) [
    | inl e ↦ inl (ground arith)
    | inr (i, e) ↦ inr (i, ground arith)
  ]

  -- A batch that succeeds has appended the whole log, under fresh identifiers.
  pub insert_intervals-ok :
      (ivs : List Interval) (rows rows' : List IntervalRow)
      → insert_intervals ids sent ivs rows ≡ ok rows'
      → (new : List IntervalRow) × (rows' ≡ rows ++ new)
        × IsLog ids sent bid ivs new
        × AllFresh rows new
        × All (λ iv. iv.borehole_id ≡ bid) new
  unfolding insert_intervals
  insert_intervals-ok [] rows rows' h = ([], ground (arith, append-nil rows), done, tt, tt)
  insert_intervals-ok (iv ∷ ivs) rows rows' h = elim (cast_both-bid iv.id) [
    | inl e ↦ absurd (let h' = rw (e, insert_intervals) at h in cc)
    | inr (id, e) ↦ elim (Bool-cases (any (λ x. str_eq x.id id) rows)) [
      | inl dup ↦ absurd (let h' = rw (e, dup, insert_intervals) at h in cc)
      | inr free ↦
          let x = interval_row (id, bid) iv in
          let (new, eq, log, fresh, ours) =
            insert_intervals-ok ivs (rows ++ x ∷ []) rows' (rw (e, free, insert_intervals) at h) in
          (x ∷ new, eq ∙ append_assoc rows (x ∷ []) new, more id e log, (free, fresh), (refl, ours))
    ]
  ]

-- `db'` is `db` with the log of borehole `bid` replaced by the rows of `ivs`.
pub data Replaced (ids : Ids) (sent bid : String) (ivs : List Interval) (db db' : Db) : Type 0 where
  replaced :
      (new : List IntervalRow)
      → IsLog ids sent bid ivs new
      → AllFresh (other_intervals bid db.intervals) new
      → All (λ iv. iv.borehole_id ≡ bid) new
      → db' ≡ record db { intervals = other_intervals bid db.intervals ++ new }
      → Replaced ids sent bid ivs db db'

module _ (ids : Ids) (b : Borehole) (bid : String) (cast : ids.cast b.id ≡ some bid) (db : Db) where
  abbrev cleared : Db
  cleared = record db { intervals = other_intervals bid db.intervals }

  delete_intervals-cleared : delete_intervals ids b.id db ≡ (ok tt, cleared)
  unfolding delete_intervals
  delete_intervals-cleared = rw (cast, delete_intervals)

  insert_batch-Replaced :
      (db₂ : Db)
      → insert_batch ids b cleared ≡ (ok tt, db₂)
      → Replaced ids b.id bid b.intervals db db₂
  unfolding insert_batch
  insert_batch-Replaced db₂ h = go (insert_intervals ids b.id b.intervals cleared.intervals) refl
    where
      go :
          (r : Result (List IntervalRow))
          → insert_intervals ids b.id b.intervals cleared.intervals ≡ r
          → Replaced ids b.id bid b.intervals db db₂
      go (err d) e = absurd (let h' = rw (e, insert_batch) at h in cc)
      go (ok rows) e =
          let (new, eq, log, fresh, ours) =
            insert_intervals-ok ids b.id bid cast b.intervals cleared.intervals rows e in
          let h' : (ok tt, record cleared { intervals = rows }) ≡ (ok tt, db₂) =
            rw (e, insert_batch) at h in
          replaced new log fresh ours (ground (arith, h', eq))

  send_batch-Replaced :
      (fault : Option DbError) (db₂ : Db) (ivs : List Interval)
      → b.intervals ≡ ivs
      → send_batch ids fault b cleared ≡ (ok tt, db₂)
      → Replaced ids b.id bid b.intervals db db₂
  unfolding send_batch
  send_batch-Replaced fault db₂ [] e h =
      let h' : (ok tt, cleared) ≡ (ok tt, db₂) = rw (e, send_batch) at h in
      rw e (replaced [] done tt tt (rw append-nil (sym (ap (λ (p : Result Unit × Db). p.1) h'))))
  send_batch-Replaced (some d) db₂ (iv ∷ ivs) e h = absurd (let h' = rw (e, send_batch) at h in cc)
  send_batch-Replaced none db₂ (iv ∷ ivs) e h = insert_batch-Replaced db₂ (rw (e, send_batch) at h)

  pub replace_intervals-Replaced :
      (faults : TxFaults) (db₂ : Db)
      → replace_intervals ids faults b db ≡ ok db₂
      → Replaced ids b.id bid b.intervals db db₂
  unfolding replace_intervals
  replace_intervals-Replaced faults db₂ h = elim (Option-cases faults.deletes) [
    | inr (d, e) ↦ absurd (let h' = rw (e, replace_intervals) at h in cc)
    | inl e ↦ go e (send_batch ids faults.batch b cleared) refl
  ]
    where
      go :
          faults.deletes ≡ none
          → (r : Result Unit × Db) → send_batch ids faults.batch b cleared ≡ r
          → Replaced ids b.id bid b.intervals db db₂
      go e (err d, db₁) sent = absurd (ground (arith, delete_intervals-cleared))
      go e (ok u, db₁) sent = elim (Option-cases faults.commits) [
        | inr (d, c) ↦ absurd (ground (arith, delete_intervals-cleared))
        | inl c ↦
            send_batch-Replaced faults.batch db₂ b.intervals refl
              (ground (arith, delete_intervals-cleared))
      ]
