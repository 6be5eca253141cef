-- ===== src/Sql/Samples.antt =====
-- src/teaql/sql/dialect.py: the statements of one entity.
use teaql_python.Base.{
  Bool, leb, ◌&&◌, ◌⊎◌, ℕ, ◌≡◌, refl, true, false, some, List, [], ◌∷◌, ◌++◌, ◌+◌, list_eq, nat_eq,
}
use teaql_python.Base.Dict.{lookup}
use teaql_python.Base.Integers.{pos, negsuc}
use teaql_python.Base.Text.{Text, text}
use teaql_python.Sql.Core.{
  Value, other, i64_value, i64, short_text, Property, Entity, InsertCommand, UpdateCommand,
  DeleteCommand, RecoverCommand, compiled, Piece, raw, ident, place, Binding, CompiledQuery,
  Dialect, render,
}
use teaql_python.Sql.Writes.{
  first, id_property, version_property, typed, assign, compile_insert, update_step, update_values,
  finish_update, update_versioned, compile_update, soft_delete, compile_delete, compile_recover,
}
use teaql_python.Sql.Identifiers.{
  is_wrapped, quote_identifier, IsBare, IsQuoted, quote_identifier-read,
}
use teaql_python.Sql.Numbering.{Ordered}
use teaql_python.Sql.Order.{compile-Ordered}
use teaql_python.Sql.Versions.{Guarded, update-Guarded}

abbrev order_id : Property
order_id = record {
  name = text "id";
  column_name = text "id";
  property_type = i64;
  is_id = true;
  is_version = false;
}

abbrev order_version : Property
order_version = record {
  name = text "version";
  column_name = text "version";
  property_type = i64;
  is_id = false;
  is_version = true;
}

abbrev order_status : Property
order_status = record {
  name = text "status";
  column_name = text "order_status";
  property_type = short_text;
  is_id = false;
  is_version = false;
}

abbrev order : Entity
order = record {
  name = text "Order";
  table_name = text "orders";
  properties = order_id ∷ order_status ∷ order_version ∷ [];
  relations = [];
}

abbrev paid : Value ℕ
paid = record { datum = some (other 7); type_hint = some short_text }

abbrev order_1 : Value ℕ
order_1 = i64_value (pos 1)

abbrev insertion : InsertCommand ℕ
insertion = record { values = (text "id", order_1) ∷ (text "status", paid) ∷ [] }

abbrev change : UpdateCommand ℕ
change = record {
  id = order_1;
  expected_version = some (pos 3);
  values = (text "status", paid) ∷ [];
}

abbrev deletion : DeleteCommand ℕ
deletion = record { id = order_1; expected_version = some (pos 4); soft_delete = true }

abbrev recovery : RecoverCommand ℕ
recovery = record { id = order_1; expected_version = negsuc 4 }

compile-Ordered_example :
    Ordered (compile_insert order insertion)
    × Ordered (compile_update order change)
    × Ordered (compile_delete order deletion)
    × Ordered (compile_recover order recovery)
compile-Ordered_example = compile-Ordered order insertion change deletion recovery

abbrev binding : Property → Value ℕ → Binding ℕ
binding p value = record { value = value; fields = p.name ∷ [] }

abbrev equals : Property → ℕ → List Piece
equals p n = ident p.column_name ∷ raw (text " = ") ∷ place n ∷ []

abbrev change_query : CompiledQuery ℕ
change_query = record {
  sql =
      raw (text "UPDATE ")
      ∷ ident (text "orders")
      ∷ raw (text " SET ")
      ∷ ident (text "order_status")
      ∷ raw (text " = ")
      ∷ place 1
      ∷ raw (text ", ")
      ∷ ident (text "version")
      ∷ raw (text " = ")
      ∷ place 2
      ∷ raw (text " WHERE ")
      ∷ ident (text "id")
      ∷ raw (text " = ")
      ∷ place 3
      ∷ raw (text " AND ")
      ∷ ident (text "version")
      ∷ raw (text " = ")
      ∷ place 4
      ∷ [];
  params =
      binding order_status paid
      ∷ binding order_version (i64_value (pos 4))
      ∷ binding order_id order_1
      ∷ binding order_version (i64_value (pos 3))
      ∷ [];
}

change_run : compile_update order change ≡ compiled change_query
unfolding compile_update update_versioned finish_update update_values update_step first typed assign
    lookup list_eq
change_run = refl

update-Guarded_example :
    (id_p : Property) × (version_p : Property) × (id_property order ≡ some id_p)
    × (version_property order ≡ some version_p)
    × Guarded order id_p version_p order_1 (pos 3) (pos 4) change_query
update-Guarded_example = update-Guarded order change (pos 3) change_query refl change_run

abbrev deletion_query : CompiledQuery ℕ
deletion_query = record {
  sql =
      raw (text "UPDATE ")
      ∷ ident (text "orders")
      ∷ raw (text " SET ")
      ∷ ident (text "version")
      ∷ raw (text " = ")
      ∷ place 1
      ∷ raw (text " WHERE ")
      ∷ ident (text "id")
      ∷ raw (text " = ")
      ∷ place 2
      ∷ raw (text " AND ")
      ∷ ident (text "version")
      ∷ raw (text " = ")
      ∷ place 3
      ∷ [];
  params =
      binding order_version (i64_value (negsuc 4))
      ∷ binding order_id order_1
      ∷ binding order_version (i64_value (pos 4))
      ∷ [];
}

-- the text for a database that writes a placeholder as a dollar sign and a digit
abbrev dollars : Dialect
dollars = record { quote_ident = λ s. s; placeholder = λ n. text "$" ++ ((48 + n) ∷ []) }

deletion_text :
    render dollars deletion_query.sql
    ≡ text "UPDATE orders SET version = $1 WHERE id = $2 AND version = $3"
deletion_text = refl

abbrev is_letter : ℕ → Bool
is_letter c = leb 0x61 c && leb c 0x7a

-- the identifier a"b
abbrev odd_name : Text
odd_name = 0x61 ∷ 0x22 ∷ 0x62 ∷ []

odd_name_run : is_wrapped odd_name ≡ false
unfolding is_wrapped
odd_name_run = refl

quote_identifier-read_example :
    ((quote_identifier is_letter is_letter (λ s. s) 0x22 odd_name ≡ odd_name)
      × IsBare is_letter is_letter (λ s. s) odd_name)
    ⊎ IsQuoted is_letter is_letter
        (λ s. s)
        0x22
        odd_name
        (quote_identifier is_letter is_letter (λ s. s) 0x22 odd_name)
quote_identifier-read_example =
    quote_identifier-read is_letter is_letter (λ s. s) 0x22 odd_name odd_name_run

-- The text "a" or "b" in quotes of its own counts as wrapped, so it gets into a statement as it is.
abbrev two_names : Text
two_names = (0x22 ∷ 0x61 ∷ 0x22 ∷ text " or ") ++ (0x22 ∷ 0x62 ∷ 0x22 ∷ [])

two_names_pass : quote_identifier is_letter is_letter (λ s. s) 0x22 two_names ≡ two_names
unfolding quote_identifier is_wrapped
two_names_pass = refl
