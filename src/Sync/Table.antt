-- ===== src/Sync/Table.antt =====
-- The upsert pattern that every statement of the push half of store.go repeats, over any table:
-- INSERT … ON CONFLICT (id) DO UPDATE … WHERE t.updated_at < EXCLUDED.updated_at
-- RETURNING (t.xmax = 0) AS was_insert.
pub mod Laws
pub mod Merge
use geo_querry.Prelude.{
  String, Bool, true, false, not, ◌&&◌, Option, none, some, List, [], ◌∷◌, str_eq, if◌then◌else◌,
  any, find,
}
use geo_querry.Prelude.Int.{ℤ, ltb_ℤ}

-- How a table reads its rows: the primary key and the logical clock.
pub record Clocked {ℓ} (R : Type ℓ) : Type ℓ where
  pub key : R → String
  pub stamp : R → ℤ

module _ {ℓ} {R : Type ℓ} (c : Clocked R) where
  -- The row that RETURNING shows, if one was written, and the table after the statement.
  unfoldable pub insert_on_conflict : R → List R → Option Bool × List R
  insert_on_conflict r [] = (some true, r ∷ [])
  insert_on_conflict r (x ∷ rows) =
      let (returned, rest) = insert_on_conflict r rows in
      if str_eq (c.key x) (c.key r)
      then if ltb_ℤ (c.stamp x) (c.stamp r) then (some false, r ∷ rows) else (none, x ∷ rows)
      else (returned, x ∷ rest)

  -- Access by primary key.
  abbrev pub get : String → List R → Option R
  get k rows = find (λ x. str_eq (c.key x) k) rows

  -- Some other row is equal to `r` in the columns of a UNIQUE constraint.
  abbrev pub clashes : (R → R → Bool) → R → List R → Bool
  clashes same r rows = any (λ x. not (str_eq (c.key x) (c.key r)) && same x r) rows
