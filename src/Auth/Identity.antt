-- ===== src/Auth/Identity.antt =====
-- The verified principal of a request (context.go).
use geo_querry.Prelude.{String, Bool, false, Option, none, some, List}
use geo_querry.Prelude.Int.{ℤ, ltb_ℤ}

-- Times are instants in nanoseconds.
pub record Identity : Type 0 where
  pub user_id : String
  pub subject : String
  pub auth_time : ℤ
  pub auth_methods : List String
  pub sudo_expires_at : Option ℤ
  pub is_service_auth : Bool

-- HasActiveSudo; a nil identity is none.
unfoldable pub has_active_sudo : Option Identity → ℤ → Bool
has_active_sudo none reference_time = false
has_active_sudo (some id) reference_time = elim id.sudo_expires_at [
  | none ↦ false
  | some t ↦ ltb_ℤ reference_time t
]
