-- ===== src/Sync/Table/Laws.antt =====
-- What one guarded upsert does, read through the primary key.
use geo_querry.Prelude.{
  String, ◌≡◌, refl, Bool, true, false, Option, none, some, List, [], ◌∷◌, arith, str_eq, eq_iff,
  if◌then◌else◌,
}
use geo_querry.Prelude.Int.{ltb_ℤ}
use geo_querry.Sync.Table.{Clocked, insert_on_conflict, get}

module _ {R : Type 0} (c : Clocked R) where
  -- Last write wins, and a tie keeps the stored version.
  abbrev pub winner : Option R → R → R
  winner none r = r
  winner (some x) r = if ltb_ℤ (c.stamp x) (c.stamp r) then r else x

  -- What RETURNING shows, as a function of the stored version.
  abbrev pub verdict : Option R → R → Option Bool
  verdict none r = some true
  verdict (some x) r = if ltb_ℤ (c.stamp x) (c.stamp r) then some false else none

  pub get-insert_on_conflict :
      (k : String) (r : R) (rows : List R)
      → get c k (insert_on_conflict c r rows).1
        ≡ (if str_eq (c.key r) k then some (winner (get c (c.key r) rows) r) else get c k rows)
  unfolding insert_on_conflict
  get-insert_on_conflict k r [] = refl
  get-insert_on_conflict k r (x ∷ rows) = ground (
    arith,
    get-insert_on_conflict k r rows,
    eq_iff (c.key x) (c.key r),
    eq_iff (c.key x) k,
    eq_iff (c.key r) k,
  )

  pub returned-insert_on_conflict :
      (r : R) (rows : List R) → (insert_on_conflict c r rows).0 ≡ verdict (get c (c.key r) rows) r
  unfolding insert_on_conflict
  returned-insert_on_conflict r [] = refl
  returned-insert_on_conflict r (x ∷ rows) = ground (arith, returned-insert_on_conflict r rows)

  -- Where RETURNING shows no row, the statement wrote nothing.
  pub insert_on_conflict-none :
      (r : R) (rows : List R)
      → (insert_on_conflict c r rows).0 ≡ none
      → (insert_on_conflict c r rows).1 ≡ rows
  unfolding insert_on_conflict
  insert_on_conflict-none r [] h = ground arith
  insert_on_conflict-none r (x ∷ rows) h = ground (arith, insert_on_conflict-none r rows)
