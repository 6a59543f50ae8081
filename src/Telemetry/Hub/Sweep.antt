-- ===== src/Telemetry/Hub/Sweep.antt =====
-- What one pass of the reaper over the members of a project does.
use geo_querry.Prelude.{
  ℕ, ◌*◌, ◌-◌, ◌^◌, ◌<◌, not, map, filter, ◌⊎◌, ◌≡◌, refl, ap, inl, inr, Bool, true, false, ◌&&◌,
  List, [], ◌∷◌, arith, Bool-cases,
}
use geo_querry.Prelude.Int.{ℤ, pos, ltb_ℤ, leb_ℤ, clamp64, wrap64, wrap64_self, ◌+ℤ◌, ◌-ℤ◌}
use geo_querry.Telemetry.Hub.{Member, four_times, silence, sweep_people}

-- the three ends of a member in a pass
data Fate (ttl now : ℤ) (m : Member) : Type 0 where
  forgotten : ltb_ℤ (four_times ttl) (silence now m) ≡ true → Fate ttl now m
  greyed :
      ltb_ℤ (four_times ttl) (silence now m) ≡ false
      → (ltb_ℤ ttl (silence now m) && m.active) ≡ true
      → Fate ttl now m
  left_alone :
      ltb_ℤ (four_times ttl) (silence now m) ≡ false
      → (ltb_ℤ ttl (silence now m) && m.active) ≡ false
      → Fate ttl now m

fate : (ttl now : ℤ) (m : Member) → Fate ttl now m
fate ttl now m = elim (Bool-cases (ltb_ℤ (four_times ttl) (silence now m))) [
  | inl e ↦ forgotten e
  | inr e ↦ elim (Bool-cases (ltb_ℤ ttl (silence now m) && m.active)) [
    | inl g ↦ greyed e g
    | inr g ↦ left_alone e g
  ]
]

late_and_grey : (late : Bool) → (late && false) ≡ false
late_and_grey late = ground arith

double : (n : ℕ) → (pos n +ℤ pos n) ≡ pos (2 * n)
unfolding ◌+ℤ◌
double n = ground arith

four_times_pos : (t : ℕ) → 4 * t < 2 ^ 63 - 1 → four_times (pos t) ≡ pos (4 * t)
four_times_pos t bounded =
    let once : wrap64 (pos (2 * t)) ≡ pos (2 * t) = wrap64_self (pos (2 * t)) (ground arith) in
    let twice : wrap64 (pos (2 * (2 * t))) ≡ pos (2 * (2 * t)) =
      wrap64_self (pos (2 * (2 * t))) (ground arith) in
    rw (double t, once, double (2 * t), twice) (ap pos (omega arith))

and_true : (b : Bool) → (b && true) ≡ b
and_true b = ground arith

late_is : (n : ℕ) (x : ℤ) → n < 2 ^ 63 - 1 → ltb_ℤ (pos n) (clamp64 x) ≡ not (leb_ℤ x (pos n))
unfolding clamp64
late_is n x bounded = ground arith

-- A pass keeps exactly the members that have not been silent for longer than four times the TTL,
-- in their order, and what it changes in them is that those silent for longer than the TTL are
-- inactive; where four times the TTL, in nanoseconds, is below the largest int64.
pub sweep_people_exact :
    (t : ℕ) (now : ℤ) (ms : List Member)
    → 4 * t < 2 ^ 63 - 1
    → (sweep_people (pos t) now ms).1
      ≡ map
          (λ (m : Member). record m { active = m.active && leb_ℤ (now -ℤ m.last_seen) (pos t) })
          (filter (λ m. leb_ℤ (now -ℤ m.last_seen) (pos (4 * t))) ms)
unfolding sweep_people
sweep_people_exact t now [] bounded = refl
sweep_people_exact t now (m ∷ ms) bounded =
    let rest = sweep_people_exact t now ms bounded in
    let forget : ltb_ℤ (four_times (pos t)) (silence now m)
        ≡ not (leb_ℤ (now -ℤ m.last_seen) (pos (4 * t))) =
      rw (four_times_pos t bounded) (late_is (4 * t) (now -ℤ m.last_seen) bounded) in
    let grey : ltb_ℤ (pos t) (silence now m) ≡ not (leb_ℤ (now -ℤ m.last_seen) (pos t)) =
      late_is t (now -ℤ m.last_seen) (omega arith) in
    elim (Bool-cases (leb_ℤ (now -ℤ m.last_seen) (pos (4 * t)))) [
      | inr e ↦ rw (forget, e) rest
      | inl e ↦ elim (Bool-cases (leb_ℤ (now -ℤ m.last_seen) (pos t))) [
        | inl l ↦ rw (forget, e, grey, l, and_true m.active, rest) refl
        | inr l ↦ elim (Bool-cases m.active) [
          | inl a ↦ rw (forget, e, grey, l, a, rest) refl
          | inr a ↦ rw (forget, e, grey, l, a, rest) refl
        ]
      ]
    ]

-- what a pass tells of the rest, it tells of the list with a member that it left alone
unchanged :
    {changed : Bool} {rest ms : List Member} (m : Member)
    → (changed ≡ true) ⊎ (rest ≡ ms)
    → (changed ≡ true) ⊎ (m ∷ rest ≡ m ∷ ms)
unchanged m (inl e) = inl e
unchanged m (inr e) = inr (ap (λ (xs : List Member). m ∷ xs) e)

-- A pass that reports no change has changed nothing, and a second pass at the same time reports none:
-- a sweep announces each transition, and announces it once.
pub sweep_people-again :
    (ttl now : ℤ) (ms : List Member)
    → (((sweep_people ttl now ms).0 ≡ true) ⊎ ((sweep_people ttl now ms).1 ≡ ms))
      × ((sweep_people ttl now (sweep_people ttl now ms).1) ≡ (false, (sweep_people ttl now ms).1))
unfolding sweep_people
sweep_people-again ttl now [] = (inr refl, refl)
sweep_people-again ttl now (m ∷ ms) =
    let (told, again) = sweep_people-again ttl now ms in
    elim (fate ttl now m) [
      | forgotten e ↦ rw e (inl refl, again)
      | greyed e g ↦
          rw (e, g) (inl refl, rw (e, late_and_grey (ltb_ℤ ttl (silence now m)), again) refl)
      | left_alone e g ↦ rw (e, g) (unchanged m told, rw (e, g, again) refl)
    ]
