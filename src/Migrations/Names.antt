-- ===== src/Migrations/Names.antt =====
-- The names of the migration files: that they are distinct, and which are applied.
use geo_querry.Prelude.{
  String, ◌≡◌, refl, Bool, true, false, ◌||◌, some, List, [], ◌∷◌, ◌++◌, str_eq, map, eq_refl,
  str_eq_comm,
}
use geo_querry.Migrations.{Entry, is_applied}

pub or_false : (a b : Bool) → (a || b) ≡ false → (a ≡ false) × (b ≡ false)
or_false true b h = absurd (cc)
or_false false b h = (refl, h)

pub or_true : (a : Bool) {b : Bool} → b ≡ true → (a || b) ≡ true
or_true true h = refl
or_true false h = h

abbrev pub names : List Entry → List String
names es = map (λ e. e.name) es

-- No two files have the same name.
abbrev pub Distinct : List Entry → Type 0
Distinct [] = Unit {0}
Distinct (e ∷ es) = (is_applied e.name (names es) ≡ false) × Distinct es

pub is_applied-inside :
    (n : String) (done : List Entry) (e : Entry) (rest : List Entry)
    → is_applied n (names (done ++ e ∷ rest)) ≡ false
    → str_eq e.name n ≡ false
is_applied-inside n [] e rest h = (or_false (str_eq e.name n) (is_applied n (names rest)) h).0
is_applied-inside n (x ∷ done) e rest h =
    is_applied-inside n done e rest
      ((or_false (str_eq x.name n) (is_applied n (names (done ++ e ∷ rest))) h).1)

pub Distinct-append :
    (done : List Entry) (e : Entry) (rest : List Entry)
    → Distinct (done ++ e ∷ rest)
    → is_applied e.name (names done) ≡ false
Distinct-append [] e rest d = refl
Distinct-append (x ∷ done) e rest (fresh, d) =
    rw (str_eq_comm x.name e.name, is_applied-inside x.name done e rest fresh)
      (Distinct-append done e rest d)

-- Each of the files is one of the applied versions.
unfoldable pub Known : List String → List Entry → Type 0
Known vs [] = Unit {0}
Known vs (e ∷ es) = (is_applied e.name vs ≡ true) × Known vs es

pub Known-cons : (v : String) (vs : List String) (es : List Entry) → Known vs es → Known (v ∷ vs) es
unfolding Known
Known-cons v vs [] k = tt
Known-cons v vs (e ∷ es) (k, ks) = (or_true (str_eq v e.name) k, Known-cons v vs es ks)

pub Known-self : (es : List Entry) → Known (names es) es
unfolding Known
Known-self [] = tt
Known-self (e ∷ es) = (rw (eq_refl e.name) refl, Known-cons e.name (names es) es (Known-self es))

pub some_injective : {A : Type 0} {a b : A} → some a ≡ some b → a ≡ b
some_injective e = cc
