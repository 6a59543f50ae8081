-- ===== src/Sync/Nest.antt =====
-- The maps by which a pull attaches children to their parents: `byIndex` of PullBoreholes, and
-- `byID` of PullProjectData, whose pointers are positions in the list here.
use geo_querry.Prelude.{
  ℕ, zero, suc, String, Option, none, some, List, [], ◌∷◌, str_eq, if◌then◌else◌,
}

-- A Go map from identifiers to positions; a later entry for a key replaces the earlier one.
abbrev pub Index : Type 0
Index = List (String × ℕ)

pub put : String → ℕ → Index → Index
put k i [] = (k, i) ∷ []
put k i ((j, n) ∷ m) = let rest = put k i m in if str_eq j k then (k, i) ∷ m else (j, n) ∷ rest

pub position : String → Index → Option ℕ
position k [] = none
position k ((j, n) ∷ m) = let rest = position k m in if str_eq j k then some n else rest

pub modify_at {ℓ} : {A : Type ℓ} → ℕ → (A → A) → List A → List A
modify_at i f [] = []
modify_at zero f (x ∷ xs) = f x ∷ xs
modify_at (suc i) f (x ∷ xs) = x ∷ modify_at i f xs

module _ {V : Type 0} (key : V → String) where
  pub index_from : ℕ → List V → Index → Index
  index_from i [] m = m
  index_from i (v ∷ vs) m = index_from (suc i) vs (put (key v) i m)

  unfoldable pub index_by : List V → Index
  unfolding index_from put
  index_by vs = index_from 0 vs []

module _ {V C : Type 0} (parent : C → String) (add : C → V → V) (index : Index) where
  -- A child whose parent is not in the index is passed over.
  pub attach_one : C → List V → List V
  unfolding position modify_at
  attach_one c vs = elim (position (parent c) index) [ none ↦ vs | some i ↦ modify_at i (add c) vs ]

  unfoldable pub attach : List C → List V → List V
  unfolding attach_one
  attach [] vs = vs
  attach (c ∷ cs) vs = attach cs (attach_one c vs)
