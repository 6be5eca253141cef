-- ===== src/Sql/Writes.antt =====
-- src/teaql/sql/dialect.py: `compile_insert`, `compile_update`, `compile_delete` and `compile_recover`.
use teaql_python.Base.{
  Bool, not, ◌&&◌, Option, none, some, List, [], ◌∷◌, ◌++◌, length, if◌then◌else◌, is_some, list_eq,
  nat_eq,
}
use teaql_python.Base.Dict.{Dict, lookup}
use teaql_python.Base.Integers.{ℤ, negsuc, plus_one, negate, is_negative}
use teaql_python.Base.Text.{Text, text}
use teaql_python.Sql.Core.{
  Value, i64_value, typed_null, Property, Entity, InsertCommand, UpdateCommand, DeleteCommand,
  RecoverCommand, missing_id_property, missing_version_property, empty_mutation,
  invalid_recover_version, Compiled, compiled, refused, Piece, raw, ident, place, Binding,
  CompiledQuery, joined,
}

-- `next((p for p in properties if …), None)`
unfoldable pub first : (Property → Bool) → List Property → Option Property
first test [] = none
first test (p ∷ ps) = if test p then some p else first test ps

abbrev pub id_property : Entity → Option Property
id_property entity = first (λ p. p.is_id) entity.properties

abbrev pub version_property : Entity → Option Property
version_property entity = first (λ p. p.is_version) entity.properties

-- the parts that a loop has collected, and the values bound so far
pub record Built (D : Type 0) : Type 0 where
  pub parts : List (List Piece)
  pub params : List (Binding D)

-- `compile_delete`, the version that the soft one writes
unfoldable pub deleted_version : Option ℤ → ℤ
deleted_version none = negsuc 0
deleted_version (some version) = negate (plus_one version)

module _ {D : Type 0} where
  -- `self.bind_field(params, value, entity, p.name)`
  abbrev pub bind_field : Value D → Property → List (Binding D) → List (Binding D)
  bind_field value p params = params ++ (record { value = value; fields = p.name ∷ [] } ∷ [])

  -- a null takes the type of its column
  unfoldable pub typed : Property → Value D → Value D
  typed p value = elim value.datum [ none ↦ typed_null p.property_type | some _ ↦ value ]

  -- the value is bound, and the part `column = placeholder` added
  unfoldable pub assign : Property → Value D → Built D → Built D
  assign p value b =
      let params = bind_field value p b.params in
      record {
        parts =
            b.parts ++ ((ident p.column_name ∷ raw (text " = ") ∷ place (length params) ∷ []) ∷ []);
        params = params;
      }

  -- the value is bound, and its placeholder added
  unfoldable pub hold : Property → Value D → Built D → Built D
  hold p value b =
      let params = bind_field value p b.params in
      record { parts = b.parts ++ ((place (length params) ∷ []) ∷ []); params = params }

  abbrev pub statement : List Piece → List (Binding D) → Compiled (CompiledQuery D)
  statement sql params = compiled (record { sql = sql; params = params })

  -- `compile_insert`, its loop: the columns, and the placeholders with the values
  unfoldable pub insert_columns : List Property → Dict Text (Value D) → List (List Piece)
  insert_columns [] values = []
  insert_columns (p ∷ ps) values =
      let rest = insert_columns ps values in
      elim (lookup p.name values) [ none ↦ rest | some _ ↦ (ident p.column_name ∷ []) ∷ rest ]

  unfoldable pub insert_step : Property → Dict Text (Value D) → Built D → Built D
  insert_step p values b = elim (lookup p.name values) [
    | none ↦ b
    | some value ↦ hold p (typed p value) b
  ]

  unfoldable pub insert_values : List Property → Dict Text (Value D) → Built D → Built D
  insert_values [] values b = b
  insert_values (p ∷ ps) values b = insert_values ps values (insert_step p values b)

  abbrev pub nothing_built : Built D
  nothing_built = record { parts = []; params = [] }

  unfoldable pub finish_insert : Entity → List (List Piece) → Built D → Compiled (CompiledQuery D)
  finish_insert entity [] b = refused (empty_mutation (text "insert"))
  finish_insert entity (c ∷ columns) b =
      statement
        (raw (text "INSERT INTO ")
          ∷ ident entity.table_name
          ∷ raw (text " (")
          ∷ (joined (text ", ") (c ∷ columns)
              ++ (raw (text ") VALUES (") ∷ (joined (text ", ") b.parts ++ (raw (text ")") ∷ [])))))
        b.params

  unfoldable pub compile_insert : Entity → InsertCommand D → Compiled (CompiledQuery D)
  compile_insert entity command =
      finish_insert entity (insert_columns entity.properties command.values)
        (insert_values entity.properties command.values nothing_built)

  -- `compile_update`, its loop over the properties
  unfoldable pub update_step : Option ℤ → Property → Dict Text (Value D) → Built D → Built D
  update_step expected p values b =
      if p.is_id
      then b
      else if p.is_version && is_some expected
      then b
      else elim (lookup p.name values) [ none ↦ b | some value ↦ assign p (typed p value) b ]

  unfoldable pub update_values : Option ℤ → List Property → Dict Text (Value D) → Built D → Built D
  update_values expected [] values b = b
  update_values expected (p ∷ ps) values b =
      update_values expected ps values (update_step expected p values b)

  -- the version's test in the `WHERE` part, on a version property that the caller has looked for
  unfoldable pub guard_version : Option ℤ → Property → Built D → Built D
  guard_version none p b = b
  guard_version (some version) p b = assign p (i64_value version) b

  -- ` WHERE ` with the tests of the identifier and of the version
  abbrev pub where_part : Built D → List Piece
  where_part b = raw (text " WHERE ") ∷ joined (text " AND ") b.parts

  abbrev pub updated : Entity → List (List Piece) → Built D → Compiled (CompiledQuery D)
  updated entity assignments tests =
      statement
        (raw (text "UPDATE ")
          ∷ ident entity.table_name
          ∷ raw (text " SET ")
          ∷ (joined (text ", ") assignments ++ where_part tests))
        tests.params

  -- the tests start with no part, after the bindings that are there
  abbrev pub tests_after : List (Binding D) → Property → Value D → Built D
  tests_after params p value = assign p value (record { parts = []; params = params })

  unfoldable pub finish_update :
      Entity → Property → Value D → Built D → (Built D → Built D) → Compiled (CompiledQuery D)
  finish_update entity id_p id b guard = elim b.parts [
    | [] ↦ refused (empty_mutation (text "update"))
    | _ ∷ _ ↦ updated entity b.parts (guard (tests_after b.params id_p id))
  ]

  unfoldable pub update_versioned :
      Entity
      → UpdateCommand D
      → Property
      → Option ℤ
      → Option Property
      → Built D
      → Compiled (CompiledQuery D)
  update_versioned entity command id_p none version_p b =
      finish_update entity id_p command.id b (λ tests. tests)
  update_versioned entity command id_p (some version) none b =
      refused (missing_version_property entity.name)
  update_versioned entity command id_p (some version) (some p) b =
      finish_update entity id_p command.id (assign p (i64_value (plus_one version)) b)
        (assign p (i64_value version))

  unfoldable pub compile_update : Entity → UpdateCommand D → Compiled (CompiledQuery D)
  compile_update entity command = elim (id_property entity) [
    | none ↦ refused (missing_id_property entity.name)
    | some id_p ↦
        update_versioned entity command id_p command.expected_version (version_property entity)
          (update_values command.expected_version entity.properties command.values nothing_built)
  ]

  -- `compile_delete`, the soft one
  unfoldable pub soft_delete :
      Entity → DeleteCommand D → Property → Option Property → Compiled (CompiledQuery D)
  soft_delete entity command id_p none = refused (missing_version_property entity.name)
  soft_delete entity command id_p (some p) =
      let b = assign p (i64_value (deleted_version command.expected_version)) nothing_built in
      updated entity b.parts
        (guard_version command.expected_version p (tests_after b.params id_p command.id))

  -- `compile_delete`, the hard one
  unfoldable pub hard_delete :
      Entity → Property → Value D → Option ℤ → Option Property → Compiled (CompiledQuery D)
  hard_delete entity id_p id none version_p =
      let b = tests_after [] id_p id in
      statement (raw (text "DELETE FROM ") ∷ ident entity.table_name ∷ where_part b) b.params
  hard_delete entity id_p id (some version) none = refused (missing_version_property entity.name)
  hard_delete entity id_p id (some version) (some p) =
      let b = assign p (i64_value version) (tests_after [] id_p id) in
      statement (raw (text "DELETE FROM ") ∷ ident entity.table_name ∷ where_part b) b.params

  unfoldable pub compile_delete : Entity → DeleteCommand D → Compiled (CompiledQuery D)
  compile_delete entity command = elim (id_property entity) [
    | none ↦ refused (missing_id_property entity.name)
    | some id_p ↦
        if command.soft_delete
        then soft_delete entity command id_p (version_property entity)
        else hard_delete entity id_p command.id command.expected_version (version_property entity)
  ]

  -- `compile_recover`
  unfoldable pub recover_found :
      Entity → RecoverCommand D → Option Property → Option Property → Compiled (CompiledQuery D)
  recover_found entity command none version_p = refused (missing_id_property entity.name)
  recover_found entity command (some id_p) none = refused (missing_version_property entity.name)
  recover_found entity command (some id_p) (some p) =
      let b = assign p (i64_value (plus_one (negate command.expected_version))) nothing_built in
      updated entity b.parts
        (assign p (i64_value command.expected_version) (tests_after b.params id_p command.id))

  unfoldable pub compile_recover : Entity → RecoverCommand D → Compiled (CompiledQuery D)
  compile_recover entity command =
      if not (is_negative command.expected_version)
      then refused (invalid_recover_version command.expected_version)
      else recover_found entity command (id_property entity) (version_property entity)
