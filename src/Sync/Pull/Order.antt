-- ===== src/Sync/Pull/Order.antt =====
-- ORDER BY and WHERE: the same rows, in order.
use mathlib.Core.List.Permᴰ
use mathlib.Core.List.Memᴰ
use mathlib.Core.List.{Permᴰ, Memᴰ}
use geo_querry.Prelude.{
  ◌≡◌, ◌⊎◌, refl, Bool, true, false, List, [], ◌∷◌, arith, Bool-cases, inl, inr, filter, All,
}
use geo_querry.Prelude.Int.{ℤ}
use geo_querry.Sync.Pull.{insert_sorted, order_by, by_stamp}

-- No row stands behind one that it should precede.
abbrev pub IsOrdered : {R : Type 0} → (R → R → Bool) → List R → Type 0
IsOrdered before [] = Unit {0}
IsOrdered before (x ∷ xs) = All (λ y. before x y ≡ true) xs × IsOrdered before xs

module _ {R : Type 0} (before : R → R → Bool) where
  insert_sorted-perm : (r : R) (xs : List R) → Permᴰ (insert_sorted before r xs) (r ∷ xs)
  unfolding insert_sorted
  insert_sorted-perm r [] = Permᴰ.refl (r ∷ [])
  insert_sorted-perm r (x ∷ xs) = elim (Bool-cases (before r x)) [
    | inl e ↦ rw e (Permᴰ.refl (r ∷ x ∷ xs))
    | inr e ↦ rw e (Permᴰ.trans (Permᴰ.cons refl (insert_sorted-perm r xs)) (Permᴰ.swap refl refl))
  ]

  pub order_by-perm : (xs : List R) → Permᴰ (order_by before xs) xs
  unfolding order_by
  order_by-perm [] = Permᴰ.nil
  order_by-perm (x ∷ xs) =
      Permᴰ.trans (insert_sorted-perm x (order_by before xs)) (Permᴰ.cons refl (order_by-perm xs))

  insert_sorted-All :
      (P : R → Type 0) (r : R) (xs : List R) → P r → All P xs → All P (insert_sorted before r xs)
  unfolding insert_sorted
  insert_sorted-All P r [] p h = (p, tt)
  insert_sorted-All P r (x ∷ xs) p h = elim (Bool-cases (before r x)) [
    | inl e ↦ rw e (p, h)
    | inr e ↦ rw e (h.0, insert_sorted-All P r xs p h.1)
  ]

  pub order_by-All : (P : R → Type 0) (xs : List R) → All P xs → All P (order_by before xs)
  unfolding order_by
  order_by-All P [] h = tt
  order_by-All P (x ∷ xs) h = insert_sorted-All P x (order_by before xs) h.0 (order_by-All P xs h.1)

  module _ (total : (x y : R) → before x y ≡ false → before y x ≡ true)
      (transitive : (x y z : R) → before x y ≡ true → before y z ≡ true → before x z ≡ true) where
    precedes-All :
        (r x : R) (xs : List R)
        → before r x ≡ true
        → All (λ y. before x y ≡ true) xs
        → All (λ y. before r y ≡ true) xs
    precedes-All r x [] h k = tt
    precedes-All r x (y ∷ xs) h k = (transitive r x y h k.0, precedes-All r x xs h k.1)

    insert_sorted-IsOrdered :
        (r : R) (xs : List R) → IsOrdered before xs → IsOrdered before (insert_sorted before r xs)
    unfolding insert_sorted
    insert_sorted-IsOrdered r [] o = (tt, tt)
    insert_sorted-IsOrdered r (x ∷ xs) o = elim (Bool-cases (before r x)) [
      | inl e ↦ rw e ((e, precedes-All r x xs e o.0), o)
      | inr e ↦ rw e (
        insert_sorted-All (λ y. before x y ≡ true) r xs (total r x e) o.0,
        insert_sorted-IsOrdered r xs o.1,
      )
    ]

    pub order_by-IsOrdered : (xs : List R) → IsOrdered before (order_by before xs)
    unfolding order_by
    order_by-IsOrdered [] = tt
    order_by-IsOrdered (x ∷ xs) =
        insert_sorted-IsOrdered x (order_by before xs) (order_by-IsOrdered xs)

module _ {R : Type 0} (stamp : R → ℤ) where
  by_stamp-total : (x y : R) → by_stamp stamp x y ≡ false → by_stamp stamp y x ≡ true
  by_stamp-total x y h = ground arith

  by_stamp_trans :
      (x y z : R)
      → by_stamp stamp x y ≡ true
      → by_stamp stamp y z ≡ true
      → by_stamp stamp x z ≡ true
  by_stamp_trans x y z h k = ground arith

  pub order_by_stamp : (xs : List R) → IsOrdered (by_stamp stamp) (order_by (by_stamp stamp) xs)
  order_by_stamp = order_by-IsOrdered (by_stamp stamp) by_stamp-total by_stamp_trans

module _ {R : Type 0} where
  pub filter-All : (p : R → Bool) (xs : List R) → All (λ x. p x ≡ true) (filter p xs)
  filter-All p [] = tt
  filter-All p (x ∷ xs) = elim (Bool-cases (p x)) [
    | inl e ↦ rw e (e, filter-All p xs)
    | inr e ↦ rw e (filter-All p xs)
  ]

  pub filter-keeps_All :
      (P : R → Type 0) (p : R → Bool) (xs : List R) → All P xs → All P (filter p xs)
  filter-keeps_All P p [] h = tt
  filter-keeps_All P p (x ∷ xs) h = elim (Bool-cases (p x)) [
    | inl e ↦ rw e (h.0, filter-keeps_All P p xs h.1)
    | inr e ↦ rw e (filter-keeps_All P p xs h.1)
  ]

  pub Memᴰ-filter :
      {r : R} (p : R → Bool) {xs : List R} → Memᴰ r xs → p r ≡ true → Memᴰ r (filter p xs)
  Memᴰ-filter {r} p (Memᴰ.head {x = x} {xs = xs} e) h = rw (← e, h) (Memᴰ.head refl)
  Memᴰ-filter {r} p (Memᴰ.tail {x = x} {xs = xs} m) h = elim (Bool-cases (p x)) [
    | inl e ↦ rw e (Memᴰ.tail (Memᴰ-filter p m h))
    | inr e ↦ rw e (Memᴰ-filter p m h)
  ]

  Memᴰ-insert_sorted :
      {r : R} (before : R → R → Bool) (x : R) (xs : List R)
      → (r ≡ x) ⊎ Memᴰ r xs
      → Memᴰ r (insert_sorted before x xs)
  unfolding insert_sorted
  Memᴰ-insert_sorted before x [] (inl e) = Memᴰ.head e
  Memᴰ-insert_sorted before x [] (inr m) = absurd (Memᴰ.not-nil m)
  Memᴰ-insert_sorted before x (y ∷ xs) (inl e) = elim (Bool-cases (before x y)) [
    | inl b ↦ rw b (Memᴰ.head e)
    | inr b ↦ rw b (Memᴰ.tail (Memᴰ-insert_sorted before x xs (inl e)))
  ]
  Memᴰ-insert_sorted before x (y ∷ xs) (inr m) = elim (Bool-cases (before x y)) [
    | inl b ↦ rw b (Memᴰ.tail m)
    | inr b ↦ elim (Memᴰ.cases_cons m) [
      | inl e ↦ rw b (Memᴰ.head e)
      | inr m' ↦ rw b (Memᴰ.tail (Memᴰ-insert_sorted before x xs (inr m')))
    ]
  ]

  pub Memᴰ-order_by :
      {r : R} (before : R → R → Bool) {xs : List R} → Memᴰ r xs → Memᴰ r (order_by before xs)
  unfolding order_by
  Memᴰ-order_by before (Memᴰ.head {x = x} {xs = xs} e) =
      Memᴰ-insert_sorted before x (order_by before xs) (inl e)
  Memᴰ-order_by before (Memᴰ.tail {x = x} {xs = xs} m) =
      Memᴰ-insert_sorted before x (order_by before xs) (inr (Memᴰ-order_by before m))
