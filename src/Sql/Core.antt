-- ===== src/Sql/Core.antt =====
-- src/teaql/sql/dialect.py, sql/types.py and core/mutation.py: entities, commands and compiled statements.
-- A statement is the list of the parts of its f-strings; `render` puts them together as text. A value's
-- payload is a parameter `D`, an integer or a string. Of an entity only what the compiler reads is kept.
use teaql_python.Base.{ℕ, Bool, Option, none, some, List, [], ◌∷◌, ◌++◌}
use teaql_python.Base.Dict.{Dict}
use teaql_python.Base.Integers.{ℤ}
use teaql_python.Base.Text.{Text}

-- `DataType` of src/teaql/core/value.py
pub data DataType : Type 0 where
  bool i64 u64 f64 decimal short_text large_text json date time timestamp : DataType

pub data Datum (D : Type 0) : Type 0 where
  int : ℤ → Datum D
  string : Text → Datum D
  other : D → Datum D

-- `Value`, its `_data` and its `_type_hint`
pub record Value (D : Type 0) : Type 0 where
  pub datum : Option (Datum D)
  pub type_hint : Option DataType

-- `Value.I64`
abbrev pub i64_value : {D : Type 0} → ℤ → Value D
i64_value n = record { datum = some (int n); type_hint = some i64 }

-- `Value.Text`
abbrev pub text_value : {D : Type 0} → Text → Value D
text_value s = record { datum = some (string s); type_hint = none }

-- `Value.TypedNull`
abbrev pub typed_null : {D : Type 0} → DataType → Value D
typed_null t = record { datum = none; type_hint = some t }

pub record Property : Type 0 where
  pub name : Text
  pub column_name : Text
  pub property_type : DataType
  pub is_id : Bool
  pub is_version : Bool

pub record Relation : Type 0 where
  pub name : Text
  pub local_key : Text
  pub is_many : Bool

pub record Entity : Type 0 where
  pub name : Text
  pub table_name : Text
  pub properties : List Property
  pub relations : List Relation

pub record InsertCommand (D : Type 0) : Type 0 where
  pub values : Dict Text (Value D)

pub record UpdateCommand (D : Type 0) : Type 0 where
  pub id : Value D
  pub expected_version : Option ℤ
  pub values : Dict Text (Value D)

pub record DeleteCommand (D : Type 0) : Type 0 where
  pub id : Value D
  pub expected_version : Option ℤ
  pub soft_delete : Bool

pub record RecoverCommand (D : Type 0) : Type 0 where
  pub id : Value D
  pub expected_version : ℤ

pub data CompileError : Type 0 where
  unknown_field invalid_function_arguments : Text → CompileError
  empty_in_list invalid_sub_query_operator : CompileError
  missing_id_property missing_version_property : Text → CompileError
  empty_mutation : Text → CompileError
  invalid_recover_version : ℤ → CompileError

pub data Compiled (A : Type 0) : Type 0 where
  compiled : A → Compiled A
  refused : CompileError → Compiled A

pub data Piece : Type 0 where
  raw : Text → Piece
  ident : Text → Piece
  place : ℕ → Piece

-- A bound value, with the names of the columns whose log policies decide its own: the field of `bind_field`,
-- or the columns of the innermost expression around the value that has any.
pub record Binding (D : Type 0) : Type 0 where
  pub value : Value D
  pub fields : List Text

pub record CompiledQuery (D : Type 0) : Type 0 where
  pub sql : List Piece
  pub params : List (Binding D)

-- the abstract methods of `SqlDialect`
pub record Dialect : Type 0 where
  pub quote_ident : Text → Text
  pub placeholder : ℕ → Text

abbrev pub render_piece : Dialect → Piece → Text
render_piece d (raw s) = s
render_piece d (ident s) = d.quote_ident s
render_piece d (place n) = d.placeholder n

abbrev pub render : Dialect → List Piece → Text
render d [] = []
render d (p ∷ ps) = render_piece d p ++ render d ps

-- `separator.join(parts)`
abbrev pub joined : Text → List (List Piece) → List Piece
joined separator [] = []
joined separator (p ∷ []) = p
joined separator (p ∷ q ∷ rest) = p ++ (raw separator ∷ joined separator (q ∷ rest))
