-- ===== src/Prelude/Double.antt =====
-- The binary64 numbers of Go's `float64`, as far as the program compares them.
-- Every finite one is a whole multiple of 2 ^ -1074, so that multiple stands for it exactly.
use Prim.Native.Nat.{ℕ, ◌-◌, ◌*◌, ◌^◌}
use mathlib.Core.Bool.{Bool, true, false}
use geo_querry.Prelude.Int.{ℤ, pos, negsuc, ltb_ℤ}

pub data Double : Type 0 where
  nan pos_inf neg_inf : Double
  finite : ℤ → Double

-- a < b
abbrev pub ltb_double : Double → Double → Bool
ltb_double (finite a) (finite b) = ltb_ℤ a b
ltb_double (finite a) pos_inf = true
ltb_double neg_inf (finite b) = true
ltb_double neg_inf pos_inf = true
ltb_double _ _ = false

abbrev pub is_nan : Double → Bool
is_nan nan = true
is_nan _ = false

-- math.IsInf(x, 0)
abbrev pub is_inf : Double → Bool
is_inf pos_inf = true
is_inf neg_inf = true
is_inf _ = false

-- The whole number `n`, and `-n` for a positive `n`.
unfoldable pub whole : ℕ → Double
whole n = finite (pos (n * 2 ^ 1074))

unfoldable pub minus_whole : ℕ → Double
minus_whole n = finite (negsuc (n * 2 ^ 1074 - 1))
