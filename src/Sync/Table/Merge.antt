-- ===== src/Sync/Table/Merge.antt =====
-- A table under any sequence of guarded upserts, from any devices in any order.
use mathlib.Core.List.Permᴰ
use mathlib.Core.List.Memᴰ
use mathlib.Core.List.{Permᴰ, Memᴰ}
use geo_querry.Prelude.{
  String, ◌≡◌, refl, sym, ◌∙◌, Option, none, some, List, [], ◌∷◌, arith, str_eq, eq_iff, eq_refl,
  All, Bool-cases, inl, inr,
}
use geo_querry.Prelude.Int.{◌≤ℤ◌, eq_of_parts}
use geo_querry.Sync.Table.{Clocked, insert_on_conflict, get}
use geo_querry.Sync.Table.Laws.{winner, get-insert_on_conflict}

module _ {R : Type 0} (c : Clocked R) where
  unfoldable pub run : List R → List R → List R
  run [] rows = rows
  run (r ∷ rs) rows = run rs (insert_on_conflict c r rows).1

  -- Two tables that no access by primary key tells apart.
  abbrev pub SameRows : List R → List R → Type 0
  SameRows rows rows' = (k : String) → get c k rows ≡ get c k rows'

  pub SameRows-insert_on_conflict :
      (r : R) (rows rows' : List R)
      → SameRows rows rows'
      → SameRows (insert_on_conflict c r rows).1 (insert_on_conflict c r rows').1
  SameRows-insert_on_conflict r rows rows' h k =
      get-insert_on_conflict c k r rows
      ∙ ground (arith, h k, h (c.key r))
      ∙ sym (get-insert_on_conflict c k r rows')

  pub SameRows-run :
      (rs rows rows' : List R) → SameRows rows rows' → SameRows (run rs rows) (run rs rows')
  unfolding run
  SameRows-run [] rows rows' h = h
  SameRows-run (r ∷ rs) rows rows' h =
      SameRows-run rs (insert_on_conflict c r rows).1 (insert_on_conflict c r rows').1
        (SameRows-insert_on_conflict r rows rows' h)

  winner_comm :
      (o : Option R) (a b : R)
      → (c.stamp a ≡ c.stamp b → a ≡ b)
      → winner c (some (winner c o a)) b ≡ winner c (some (winner c o b)) a
  winner_comm none a b tie = ground (arith, eq_of_parts (c.stamp a) (c.stamp b))
  winner_comm (some x) a b tie = ground (arith, eq_of_parts (c.stamp a) (c.stamp b))

  -- Two versions are interchangeable if no tie between them is left to their order.
  insert_on_conflict_swap :
      (a b : R) (rows : List R)
      → (c.key a ≡ c.key b → c.stamp a ≡ c.stamp b → a ≡ b)
      → SameRows
          (insert_on_conflict c b (insert_on_conflict c a rows).1).1
          (insert_on_conflict c a (insert_on_conflict c b rows).1).1
  insert_on_conflict_swap a b rows tie k = ground (
    arith,
    get-insert_on_conflict c k b (insert_on_conflict c a rows).1,
    get-insert_on_conflict c k a (insert_on_conflict c b rows).1,
    get-insert_on_conflict c k a rows,
    get-insert_on_conflict c k b rows,
    get-insert_on_conflict c (c.key b) a rows,
    get-insert_on_conflict c (c.key a) b rows,
    eq_iff (c.key a) k,
    eq_iff (c.key b) k,
    eq_iff (c.key a) (c.key b),
    eq_iff (c.key b) (c.key a),
    winner_comm (get c k rows) a b,
  )

  -- Every two versions of one row in `rs` that carry the same clock are the same version.
  abbrev pub IsConsistent : List R → Type 0
  IsConsistent rs =
      (a b : R) → Memᴰ a rs → Memᴰ b rs → c.key a ≡ c.key b → c.stamp a ≡ c.stamp b → a ≡ b

  Memᴰ-perm : {a : R} {rs rs' : List R} → Permᴰ rs rs' → Memᴰ a rs → Memᴰ a rs'
  Memᴰ-perm Permᴰ.nil m = m
  Memᴰ-perm (Permᴰ.cons e p) m = elim (Memᴰ.cases_cons m) [
    | inl e' ↦ Memᴰ.head (e' ∙ e)
    | inr m' ↦ Memᴰ.tail (Memᴰ-perm p m')
  ]
  Memᴰ-perm (Permᴰ.swap e e') m = elim (Memᴰ.cases_cons m) [
    | inl here ↦ Memᴰ.tail (Memᴰ.head (here ∙ e))
    | inr m' ↦ elim (Memᴰ.cases_cons m') [
      | inl next ↦ Memᴰ.head (next ∙ e')
      | inr m'' ↦ Memᴰ.tail (Memᴰ.tail m'')
    ]
  ]
  Memᴰ-perm (Permᴰ.trans p q) m = Memᴰ-perm q (Memᴰ-perm p m)

  IsConsistent-perm : {rs rs' : List R} → Permᴰ rs' rs → IsConsistent rs → IsConsistent rs'
  IsConsistent-perm p h a b ma mb = h a b (Memᴰ-perm p ma) (Memᴰ-perm p mb)

  -- The order in which the versions arrive does not matter.
  pub run-perm :
      {rs rs' : List R} (rows : List R)
      → Permᴰ rs rs'
      → IsConsistent rs
      → SameRows (run rs rows) (run rs' rows)
  unfolding run
  run-perm rows Permᴰ.nil h k = refl
  run-perm rows (Permᴰ.cons {a = a} {b = b} {l₁ = l₁} {l₂ = l₂} e p) h k = rw (← e) (
      run-perm (insert_on_conflict c a rows).1 p (λ x y mx my. h x y (Memᴰ.tail mx) (Memᴰ.tail my))
        k)
  run-perm rows (Permᴰ.swap {a = a} {b = b} {l = l} e e') h k =
      rw (← e, ← e')
        (SameRows-run l (insert_on_conflict c b (insert_on_conflict c a rows).1).1
          (insert_on_conflict c a (insert_on_conflict c b rows).1).1
          (insert_on_conflict_swap a b rows (h a b (Memᴰ.head refl) (Memᴰ.tail (Memᴰ.head refl))))
          k)
  run-perm rows (Permᴰ.trans {l₂ = l₂} p q) h k =
      run-perm rows p h k ∙ run-perm rows q (IsConsistent-perm (Permᴰ.symm p) h) k

  -- A stored version only gives way to a later one.
  abbrev pub KeptAtLeast : R → String → List R → Type 0
  KeptAtLeast x k rows = (y : R) × (get c k rows ≡ some y) × (c.stamp x ≤ℤ c.stamp y)

  pub insert_on_conflict-KeptAtLeast :
      (x r : R) (k : String) (rows : List R)
      → KeptAtLeast x k rows
      → KeptAtLeast x k (insert_on_conflict c r rows).1
  insert_on_conflict-KeptAtLeast x r k rows (y, e, le) = elim (Bool-cases (str_eq (c.key r) k)) [
    | inl hit ↦ (
      winner c (some y) r,
      ground (arith, get-insert_on_conflict c k r rows, eq_iff (c.key r) k),
      ground arith,
    )
    | inr miss ↦ (y, ground (arith, get-insert_on_conflict c k r rows), le)
  ]

  pub run-KeptAtLeast :
      (x : R) (k : String) (rs rows : List R) → KeptAtLeast x k rows → KeptAtLeast x k (run rs rows)
  unfolding run
  run-KeptAtLeast x k [] rows h = h
  run-KeptAtLeast x k (r ∷ rs) rows h =
      run-KeptAtLeast x k rs (insert_on_conflict c r rows).1
        (insert_on_conflict-KeptAtLeast x r k rows h)

  pub pushed-KeptAtLeast :
      (r : R) (rows : List R) → KeptAtLeast r (c.key r) (insert_on_conflict c r rows).1
  pushed-KeptAtLeast r rows = (
    winner c (get c (c.key r) rows) r,
    ground (arith, get-insert_on_conflict c (c.key r) r rows, eq_refl (c.key r)),
    ground arith,
  )

  -- Every version that was pushed is there in the end, or has given way to a later one.
  pub run-pushed : (rs rows : List R) → All (λ r. KeptAtLeast r (c.key r) (run rs rows)) rs
  unfolding run
  run-pushed [] rows = tt
  run-pushed (r ∷ rs) rows = (
    run-KeptAtLeast r (c.key r) rs (insert_on_conflict c r rows).1 (pushed-KeptAtLeast r rows),
    run-pushed rs (insert_on_conflict c r rows).1,
  )
