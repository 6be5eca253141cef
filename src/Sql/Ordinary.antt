-- ===== src/Sql/Ordinary.antt =====
-- src/teaql/sql/dialect.py: which properties the loop of `compile_update` assigns.
use teaql_python.Base.{
  ℕ, ◌≡◌, refl, inl, inr, ◌⊎◌, false, some, List, [], ◌∷◌, All, All-append, Bool-cases,
  Option-cases, list_eq, nat_eq,
}
use teaql_python.Base.Integers.{ℤ}
use teaql_python.Base.Dict.{Dict, lookup}
use teaql_python.Base.Text.{Text, text}
use teaql_python.Sql.Core.{Value, Property, Piece, raw, ident, place, Binding}
use teaql_python.Sql.Writes.{Built, assign, typed, update_step, update_values}

-- `column = placeholder`
abbrev pub test_of : Property → ℕ → List Piece
test_of p n = ident p.column_name ∷ raw (text " = ") ∷ place n ∷ []

abbrev Among : Property → List Property → Type 0
Among p [] = ⊥
Among p (q ∷ qs) = (p ≡ q) ⊎ Among p qs

-- a property of the list that is neither an identifier nor a version
abbrev IsOrdinary : List Property → Property → Type 0
IsOrdinary properties p = Among p properties × (p.is_id ≡ false) × (p.is_version ≡ false)

abbrev SetsOrdinary : List Property → List Piece → Type 0
SetsOrdinary properties part =
    (p : Property) × (n : ℕ) × IsOrdinary properties p × (part ≡ test_of p n)

module _ {D : Type 0} where
  abbrev BindsOrdinary : List Property → Binding D → Type 0
  BindsOrdinary properties b = (p : Property) × IsOrdinary properties p × (b.fields ≡ p.name ∷ [])

  -- what the loop over the properties has collected is of ordinary properties
  abbrev pub BuildsOrdinary : List Property → Built D → Type 0
  BuildsOrdinary properties b =
      All (SetsOrdinary properties) b.parts × All (BindsOrdinary properties) b.params

  assign-BuildsOrdinary :
      (properties : List Property) (p : Property) (value : Value D) (b : Built D)
      → IsOrdinary properties p
      → BuildsOrdinary properties b
      → BuildsOrdinary properties (assign p value b)
  unfolding assign
  assign-BuildsOrdinary properties p value b o (parts, params) = (
    All-append (SetsOrdinary properties) b.parts _ parts ((p, _, o, refl), tt),
    All-append (BindsOrdinary properties) b.params _ params ((p, o, refl), tt),
  )

  update_step-BuildsOrdinary :
      (properties : List Property) (version : ℤ) (p : Property) (values : Dict Text (Value D))
      (b : Built D)
      → Among p properties
      → BuildsOrdinary properties b
      → BuildsOrdinary properties (update_step (some version) p values b)
  unfolding update_step
  update_step-BuildsOrdinary properties version p values b among h = elim (Bool-cases p.is_id) [
    | inl id ↦ rw (id, update_step) h
    | inr plain ↦ elim (Bool-cases p.is_version) [
      | inl is_version ↦ rw (plain, is_version, update_step) h
      | inr other ↦ elim (Option-cases (lookup p.name values)) [
        | inl missing ↦ rw (plain, other, missing, update_step) h
        | inr (value, given) ↦
            rw (plain, other, given, update_step)
              (assign-BuildsOrdinary properties p (typed p value) b (among, plain, other) h)
      ]
    ]
  ]

  pub update_values-BuildsOrdinary :
      (properties ps : List Property) (version : ℤ) (values : Dict Text (Value D)) (b : Built D)
      → ((p : Property) → Among p ps → Among p properties)
      → BuildsOrdinary properties b
      → BuildsOrdinary properties (update_values (some version) ps values b)
  unfolding update_values
  update_values-BuildsOrdinary properties [] version values b among h = h
  update_values-BuildsOrdinary properties (p ∷ ps) version values b among h =
      update_values-BuildsOrdinary properties ps version values
        (update_step (some version) p values b) (λ q m. among q (inr m))
        (update_step-BuildsOrdinary properties version p values b (among p (inl refl)) h)
