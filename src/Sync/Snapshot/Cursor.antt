-- ===== src/Sync/Snapshot/Cursor.antt =====
-- The cursor that PullProjectData makes of the client's since_timestamp.
use geo_querry.Prelude.{◌≡◌, ◌⊎◌, arith, ◌^◌, ◌-◌}
use geo_querry.Prelude.Int.{ℤ, pos, negsuc, ◌+ℤ◌, ◌-ℤ◌, ◌≤ℤ◌, ◌<ℤ◌, IsInt64}
use geo_querry.Sync.Snapshot.{pull_overlap_ms, pull_since}

-- The least since_timestamp from which the overlap can be taken in an int64.
abbrev pub least_safe : ℤ
least_safe = negsuc (2 ^ 63 - 1 - 120000)

-- From a since_timestamp that is not within two minutes of the least int64, the cursor is two
-- minutes before it, or zero if that is negative; from one that is, the cursor is less than two
-- minutes from the greatest int64.
pub pull_since-cases :
    (t : ℤ)
    → IsInt64 t
    → ((least_safe ≤ℤ t)
        × (pos 0 ≤ℤ pull_since t)
        × (t ≤ℤ pull_since t +ℤ pull_overlap_ms)
        × ((pull_since t ≡ pos 0) ⊎ (pull_since t +ℤ pull_overlap_ms ≡ t)))
      ⊎ ((t <ℤ least_safe) × (pos (2 ^ 63 - 120000) ≤ℤ pull_since t))
unfolding pull_since ◌+ℤ◌ ◌-ℤ◌
pull_since-cases t range = ground arith
