-- ===== src/Sql/Order.antt =====
-- src/teaql/sql/dialect.py: in every statement that writes, the placeholders number the bound values in order.
use teaql_python.Base.{
  ℕ, ◌+◌, ◌≡◌, refl, sym, ◌∙◌, ap, not, Option, none, some, List, [], ◌∷◌, ◌++◌, arith, length,
  if-keeps, if◌then◌else◌, list_eq, nat_eq,
}
use teaql_python.Base.Dict.{Dict}
use teaql_python.Base.Integers.{ℤ, plus_one, negate, is_negative}
use teaql_python.Base.Text.{Text, text}
use teaql_python.Sql.Core.{
  Value, i64_value, Property, Entity, InsertCommand, UpdateCommand, DeleteCommand, RecoverCommand,
  compiled, refused, missing_id_property, Piece, raw, ident, Binding, joined,
}
use teaql_python.Sql.Writes.{
  id_property, version_property, Built, assign, insert_columns, nothing_built, finish_insert,
  compile_insert, update_values, guard_version, where_part, updated, tests_after, finish_update,
  update_versioned, compile_update, deleted_version, soft_delete, hard_delete, compile_delete,
  recover_found, compile_recover,
}
use teaql_python.Sql.Numbering.{
  places, places_all, count_from, places-append, places-joined, count_from-append, append_nil,
  Numbered, assign-Numbered, insert_values-Numbered, update_values-Numbered, Ordered,
}

count_zero : (a b : ℕ) → count_from 0 a ++ count_from a b ≡ count_from 0 (a + b)
count_zero a b =
    let e : a ≡ 0 + a = omega arith in
    ap (λ m. count_from 0 a ++ count_from m b) e ∙ sym (count_from-append 0 a b)

module _ {D : Type 0} where
  updated-Ordered :
      (entity : Entity) (parts : List (List Piece)) (tests : Built D)
      → places_all parts ≡ count_from 0 (length parts)
      → Numbered (length parts) tests
      → Ordered (updated entity parts tests)
  updated-Ordered entity parts tests n (t, l) =
      places-append (joined (text ", ") parts) (where_part tests)
      ∙ (rw (places-joined (text ", ") parts, places-joined (text " AND ") tests.parts, n, t, l)
          (count_zero (length parts) (length tests.parts)))

  tests_after-Numbered :
      (k : ℕ) (params : List (Binding D)) (p : Property) (value : Value D)
      → length params ≡ k
      → Numbered k (tests_after params p value)
  tests_after-Numbered k params p value l = assign-Numbered k p value _ (refl, omega (arith, l))

  finish_insert-Ordered :
      (entity : Entity) (columns : List (List Piece)) (b : Built D)
      → places_all columns ≡ []
      → Numbered 0 b
      → Ordered (finish_insert entity columns b)
  unfolding finish_insert
  finish_insert-Ordered entity [] b c n = tt
  finish_insert-Ordered entity (x ∷ xs) b c (n, l) =
      let e : length b.params ≡ length b.parts = omega (arith, l) in
      places-append (joined (text ", ") (x ∷ xs)) _
      ∙ (ap (λ t. t ++ places (joined (text ", ") b.parts ++ (raw (text ")") ∷ [])))
            (places-joined (text ", ") (x ∷ xs) ∙ c)
          ∙ (places-append (joined (text ", ") b.parts) (raw (text ")") ∷ [])
              ∙ (append_nil (places (joined (text ", ") b.parts))
                  ∙ (places-joined (text ", ") b.parts ∙ (n ∙ ap (count_from 0) (sym e))))))

  insert_columns-places :
      (ps : List Property) (values : Dict Text (Value D))
      → places_all (insert_columns ps values) ≡ []
  unfolding insert_columns
  insert_columns-places [] values = refl
  insert_columns-places (p ∷ ps) values = ground (arith, insert_columns-places ps values)

  compile_insert-Ordered :
      (entity : Entity) (command : InsertCommand D) → Ordered (compile_insert entity command)
  unfolding compile_insert
  compile_insert-Ordered entity command =
      finish_insert-Ordered entity _ _ (insert_columns-places entity.properties command.values)
        (insert_values-Numbered entity.properties command.values nothing_built (refl, refl))

  finish_update-Ordered :
      (entity : Entity) (id_p : Property) (id : Value D) (parts : List (List Piece))
      (params : List (Binding D)) (guard : Built D → Built D)
      → Numbered 0 (record { parts = parts; params = params })
      → ((k : ℕ) (tests : Built D) → Numbered k tests → Numbered k (guard tests))
      → Ordered (finish_update entity id_p id (record { parts = parts; params = params }) guard)
  unfolding finish_update
  finish_update-Ordered entity id_p id [] params guard n g = tt
  finish_update-Ordered entity id_p id (x ∷ xs) params guard (n, l) g =
      updated-Ordered entity (x ∷ xs) (guard (tests_after params id_p id)) n (
        g _ (tests_after params id_p id)
          (tests_after-Numbered (length (x ∷ xs)) params id_p id (omega (arith, l))))

  update_versioned-Ordered :
      (entity : Entity) (command : UpdateCommand D) (id_p : Property) (expected : Option ℤ)
      (version_p : Option Property) (b : Built D)
      → Numbered 0 b
      → Ordered (update_versioned entity command id_p expected version_p b)
  unfolding update_versioned
  update_versioned-Ordered entity command id_p none version_p b n =
      finish_update-Ordered entity id_p command.id b.parts b.params (λ tests. tests) n (λ _ _ t. t)
  update_versioned-Ordered entity command id_p (some version) none b n = tt
  update_versioned-Ordered entity command id_p (some version) (some p) b n =
      let b' = assign p (i64_value (plus_one version)) b in
      finish_update-Ordered entity id_p command.id b'.parts b'.params (assign p (i64_value version))
        (assign-Numbered 0 p (i64_value (plus_one version)) b n)
        (λ k. assign-Numbered k p (i64_value version))

  compile_update-Ordered :
      (entity : Entity) (command : UpdateCommand D) → Ordered (compile_update entity command)
  unfolding compile_update
  compile_update-Ordered entity command =
      elim (id_property entity)
        as (λ o. Ordered (elim o [
          | none ↦ refused (missing_id_property entity.name)
          | some id_p ↦
              update_versioned entity command id_p command.expected_version
                (version_property entity)
                (update_values command.expected_version entity.properties command.values
                  nothing_built)
        ])) [
          | none ↦ tt
          | some id_p ↦
              update_versioned-Ordered entity command id_p command.expected_version
                (version_property entity) _
                (update_values-Numbered command.expected_version entity.properties command.values
                  nothing_built (refl, refl))
        ]

  -- a statement whose only assignment is the version's
  single-Ordered :
      (entity : Entity) (p id_p : Property) (version : ℤ) (id : Value D) (guard : Built D → Built D)
      → ((tests : Built D) → Numbered 1 tests → Numbered 1 (guard tests))
      → let b = assign p (i64_value version) nothing_built in
        Ordered (updated entity b.parts (guard (tests_after b.params id_p id)))
  unfolding assign
  single-Ordered entity p id_p version id guard g =
      let b = assign p (i64_value version) nothing_built in
      updated-Ordered entity b.parts (guard (tests_after b.params id_p id)) refl
        (g (tests_after b.params id_p id) (tests_after-Numbered 1 b.params id_p id refl))

  guard_version-Numbered :
      (k : ℕ) (expected : Option ℤ) (p : Property) (b : Built D)
      → Numbered k b
      → Numbered k (guard_version expected p b)
  unfolding guard_version
  guard_version-Numbered k none p b n = n
  guard_version-Numbered k (some version) p b n = assign-Numbered k p (i64_value version) b n

  where-Ordered :
      (entity : Entity) (b : Built D)
      → Numbered 0 b
      → Ordered (
          compiled (record {
            sql = raw (text "DELETE FROM ") ∷ ident entity.table_name ∷ where_part b;
            params = b.params;
          }))
  where-Ordered entity b (n, l) =
      let e : length b.params ≡ length b.parts = omega (arith, l) in
      places-joined (text " AND ") b.parts ∙ (n ∙ ap (count_from 0) (sym e))

  hard_delete-Ordered :
      (entity : Entity) (id_p : Property) (id : Value D) (expected : Option ℤ)
      (version_p : Option Property)
      → Ordered (hard_delete entity id_p id expected version_p)
  unfolding hard_delete
  hard_delete-Ordered entity id_p id none version_p =
      where-Ordered entity (tests_after [] id_p id) (tests_after-Numbered 0 [] id_p id refl)
  hard_delete-Ordered entity id_p id (some version) none = tt
  hard_delete-Ordered entity id_p id (some version) (some p) =
      where-Ordered entity (assign p (i64_value version) (tests_after [] id_p id)) (
        assign-Numbered 0 p (i64_value version) (tests_after [] id_p id)
          (tests_after-Numbered 0 [] id_p id refl))

  soft_delete-Ordered :
      (entity : Entity) (command : DeleteCommand D) (id_p : Property) (version_p : Option Property)
      → Ordered (soft_delete entity command id_p version_p)
  unfolding soft_delete
  soft_delete-Ordered entity command id_p none = tt
  soft_delete-Ordered entity command id_p (some p) =
      single-Ordered entity p id_p (deleted_version command.expected_version) command.id
        (guard_version command.expected_version p)
        (guard_version-Numbered 1 command.expected_version p)

  compile_delete-Ordered :
      (entity : Entity) (command : DeleteCommand D) → Ordered (compile_delete entity command)
  unfolding compile_delete
  compile_delete-Ordered entity command =
      elim (id_property entity)
        as (λ o. Ordered (elim o [
          | none ↦ refused (missing_id_property entity.name)
          | some id_p ↦
              if command.soft_delete
              then soft_delete entity command id_p (version_property entity)
              else hard_delete entity id_p command.id command.expected_version
                  (version_property entity)
        ])) [
          | none ↦ tt
          | some id_p ↦
              if-keeps Ordered command.soft_delete
                (λ _. soft_delete-Ordered entity command id_p (version_property entity))
                (λ _.
                  hard_delete-Ordered entity id_p command.id command.expected_version
                    (version_property entity))
        ]

  recover_found-Ordered :
      (entity : Entity) (command : RecoverCommand D) (id_p version_p : Option Property)
      → Ordered (recover_found entity command id_p version_p)
  unfolding recover_found
  recover_found-Ordered entity command none version_p = tt
  recover_found-Ordered entity command (some id_p) none = tt
  recover_found-Ordered entity command (some id_p) (some p) =
      single-Ordered entity p id_p (plus_one (negate command.expected_version)) command.id
        (assign p (i64_value command.expected_version))
        (assign-Numbered 1 p (i64_value command.expected_version))

  compile_recover-Ordered :
      (entity : Entity) (command : RecoverCommand D) → Ordered (compile_recover entity command)
  unfolding compile_recover
  compile_recover-Ordered entity command =
      if-keeps Ordered (not (is_negative command.expected_version)) (λ _. tt)
        (λ _. recover_found-Ordered entity command (id_property entity) (version_property entity))

  -- Whatever the entity and the command are, an insert, update, delete or recovery that compiles has the
  -- placeholders 1, 2, …, n in its text, from left to right, each once, with n the number of bound values.
  pub compile-Ordered :
      (entity : Entity) (insert : InsertCommand D) (update : UpdateCommand D)
      (delete : DeleteCommand D) (recover : RecoverCommand D)
      → Ordered (compile_insert entity insert)
        × Ordered (compile_update entity update)
        × Ordered (compile_delete entity delete)
        × Ordered (compile_recover entity recover)
  compile-Ordered entity insert update delete recover = (
    compile_insert-Ordered entity insert,
    compile_update-Ordered entity update,
    compile_delete-Ordered entity delete,
    compile_recover-Ordered entity recover,
  )
