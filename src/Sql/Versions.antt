-- ===== src/Sql/Versions.antt =====
-- src/teaql/sql/dialect.py: the version that a statement tests, and the one it writes.
use teaql_python.Base.{
  ◌+◌, ◌≡◌, refl, sym, ◌∙◌, ap, subst, inl, inr, Option, none, some, List, [], ◌∷◌, ◌++◌, arith,
  length, length-append, Option-cases, list_eq, nat_eq,
}
use teaql_python.Base.Integers.{ℤ, plus_one}
use teaql_python.Base.Text.{text}
use teaql_python.Sql.Core.{
  Value, i64_value, Property, Entity, UpdateCommand, compiled, refused, missing_id_property,
  missing_version_property, Piece, raw, ident, Binding, CompiledQuery, joined,
}
use teaql_python.Sql.Writes.{
  id_property, version_property, Built, assign, nothing_built, updated, tests_after, finish_update,
  update_values, update_versioned, compile_update,
}
use teaql_python.Sql.Ordinary.{test_of, BuildsOrdinary, update_values-BuildsOrdinary}

compiled_inj : {A : Type 0} (a b : A) → compiled a ≡ compiled b → a ≡ b
compiled_inj a b h = ground arith

append_three :
    {A : Type 0} (xs : List A) (x y z : A)
    → ((xs ++ (x ∷ [])) ++ (y ∷ [])) ++ (z ∷ []) ≡ xs ++ (x ∷ y ∷ z ∷ [])
append_three [] x y z = refl
append_three (w ∷ xs) x y z = ap (λ l. w ∷ l) (append_three xs x y z)

module _ {D : Type 0} where
  abbrev pub bound : Property → Value D → Binding D
  bound p value = record { value = value; fields = p.name ∷ [] }

  -- An update of the version property to one version, behind the tests of the identifier and of another
  -- version; the other assignments come first, each of a property of the entity that is neither an
  -- identifier nor a version.
  abbrev pub Guarded : Entity → Property → Property → Value D → ℤ → ℤ → CompiledQuery D → Type 0
  Guarded entity id_p version_p id old new q =
      (parts : List (List Piece)) × (params : List (Binding D)) × BuildsOrdinary entity.properties
        (record { parts = parts; params = params })
      × (q.params
          ≡ params
            ++ (bound version_p (i64_value new)
                ∷ bound id_p id
                ∷ bound version_p (i64_value old)
                ∷ []))
      × (q.sql
          ≡ raw (text "UPDATE ")
            ∷ ident entity.table_name
            ∷ raw (text " SET ")
            ∷ (joined (text ", ") (parts ++ (test_of version_p (length params + 1) ∷ []))
                ++ (raw (text " WHERE ")
                    ∷ joined (text " AND ") (
                        test_of id_p (length params + 2)
                        ∷ test_of version_p (length params + 3)
                        ∷ []))))

  pub updated-Guarded :
      (entity : Entity) (id_p version_p : Property) (id : Value D) (old new : ℤ) (b : Built D)
      (q : CompiledQuery D)
      → BuildsOrdinary entity.properties b
      → let b' = assign version_p (i64_value new) b in
        updated entity b'.parts (assign version_p (i64_value old) (tests_after b'.params id_p id))
          ≡ compiled q
        → Guarded entity id_p version_p id old new q
  unfolding assign
  updated-Guarded entity id_p version_p id old new b q ordinary h =
      let x = bound version_p (i64_value new) in
      let y = bound id_p id in
      let z = bound version_p (i64_value old) in
      let ps = b.params in
      let e1 : length (ps ++ (x ∷ [])) ≡ length ps + 1 = length-append ps (x ∷ []) in
      let e2 : length ((ps ++ (x ∷ [])) ++ (y ∷ [])) ≡ length ps + 2 =
        omega (arith, length-append (ps ++ (x ∷ [])) (y ∷ []), e1) in
      let e3 : length (((ps ++ (x ∷ [])) ++ (y ∷ [])) ++ (z ∷ [])) ≡ length ps + 3 =
        omega (arith, length-append ((ps ++ (x ∷ [])) ++ (y ∷ [])) (z ∷ []), e2) in
      subst (Guarded entity id_p version_p id old new) (compiled_inj _ q h)
        (b.parts, ps, ordinary, append_three ps x y z, rw (e3, e2, e1) refl)

  finish_update-assign :
      (entity : Entity) (id_p : Property) (id : Value D) (parts : List (List Piece))
      (part : List Piece) (params : List (Binding D)) (guard : Built D → Built D)
      → finish_update entity id_p id
          (record { parts = parts ++ (part ∷ []); params = params })
          guard
        ≡ updated entity (parts ++ (part ∷ [])) (guard (tests_after params id_p id))
  unfolding finish_update
  finish_update-assign entity id_p id [] part params guard = refl
  finish_update-assign entity id_p id (x ∷ xs) part params guard = refl

  update_versioned-Guarded :
      (entity : Entity) (command : UpdateCommand D) (id_p version_p : Property) (version : ℤ)
      (b : Built D) (q : CompiledQuery D)
      → BuildsOrdinary entity.properties b
      → update_versioned entity command id_p (some version) (some version_p) b ≡ compiled q
      → Guarded entity id_p version_p command.id version (plus_one version) q
  unfolding update_versioned assign
  update_versioned-Guarded entity command id_p version_p version b q ordinary h =
      updated-Guarded entity id_p version_p command.id version (plus_one version) b q ordinary (
        sym (
          finish_update-assign entity id_p command.id b.parts _ _
            (assign version_p (i64_value version)))
        ∙ h)

  update_versioned-none :
      (entity : Entity) (command : UpdateCommand D) (id_p : Property) (version : ℤ) (b : Built D)
      → update_versioned entity command id_p (some version) none b
        ≡ refused (missing_version_property entity.name)
  unfolding update_versioned
  update_versioned-none entity command id_p version b = refl

  compile_update-none :
      (entity : Entity) (command : UpdateCommand D)
      → id_property entity ≡ none
      → compile_update entity command ≡ refused (missing_id_property entity.name)
  unfolding compile_update
  compile_update-none entity command g = rw (g, compile_update) refl

  compile_update-versioned :
      (entity : Entity) (command : UpdateCommand D) (id_p : Property) (version : ℤ)
      (version_p : Option Property)
      → id_property entity ≡ some id_p
      → command.expected_version ≡ some version
      → version_property entity ≡ version_p
      → (b : Built D) × BuildsOrdinary entity.properties b
        × (compile_update entity command
            ≡ update_versioned entity command id_p (some version) version_p b)
  unfolding compile_update
  compile_update-versioned entity command id_p version version_p g e v = (
    update_values command.expected_version entity.properties command.values nothing_built,
    subst
        (λ o.
          BuildsOrdinary entity.properties
            (update_values o entity.properties command.values nothing_built))
        (sym e)
        (update_values-BuildsOrdinary entity.properties entity.properties version command.values
          nothing_built (λ p m. m) (tt, tt)),
    subst
        (λ o.
          compile_update entity command
          ≡ update_versioned entity command id_p o version_p (
              update_values command.expected_version entity.properties command.values
                nothing_built))
        e
        (subst
          (λ o.
            compile_update entity command
            ≡ update_versioned entity command id_p command.expected_version o (
                update_values command.expected_version entity.properties command.values
                  nothing_built))
          v (rw (g, compile_update) refl)),
  )

  -- An update that expects a version and compiles writes the version plus one, tests the identifier and
  -- the expected version and nothing else, and binds the three values last, in this order; its other
  -- assignments are of properties of the entity that are neither an identifier nor a version.
  pub update-Guarded :
      (entity : Entity) (command : UpdateCommand D) (version : ℤ) (q : CompiledQuery D)
      → command.expected_version ≡ some version
      → compile_update entity command ≡ compiled q
      → (id_p : Property) × (version_p : Property) × (id_property entity ≡ some id_p)
        × (version_property entity ≡ some version_p)
        × Guarded entity id_p version_p command.id version (plus_one version) q
  update-Guarded entity command version q e h = elim (Option-cases (id_property entity)) [
    | inl g ↦ ground (arith, compile_update-none entity command g)
    | inr (id_p, g) ↦ elim (Option-cases (version_property entity)) [
      | inl v ↦
          let (b, _, s) = compile_update-versioned entity command id_p version none g e v in
          ground (arith, update_versioned-none entity command id_p version b)
      | inr (p, v) ↦
          let (b, o, s) = compile_update-versioned entity command id_p version (some p) g e v in
          (id_p, p, g, v, update_versioned-Guarded entity command id_p p version b q o (sym s ∙ h))
    ]
  ]
