-- ===== src/Sql/SelectSamples.antt =====
-- src/teaql/sql/dialect.py: queries of one entity.
use teaql_python.Base.{
  ℕ, ◌≡◌, refl, true, false, Option, none, some, List, [], ◌∷◌, length, list_eq, if◌then◌else◌, eqb,
}
use teaql_python.Base.Integers.{pos}
use teaql_python.Base.Text.{Text, text}
use teaql_python.Sql.Core.{
  Value, other, i64_value, i64, json, short_text, Property, Entity, Compiled, compiled, refused,
  CompiledQuery, Dialect, render,
}
use teaql_python.Sql.Exprs.{
  op_eq, op_in, count, descending, Aggregate, Shape, Expr, column, value, binary, sub_query,
  no_clause, clause, no_named, named, no_orders, by_field, no_loads, no_queries, Query, query,
}
use teaql_python.Sql.Numbering.{Ordered, places}
use teaql_python.Sql.Select.{compile_select, compile_select_sql}
use teaql_python.Sql.Clauses.{
  ◌>>=◌, projected, column_sql, columns_sql, search, search_parts, aggregate_sql, aggregates_sql,
}
use teaql_python.Sql.Parts.{
  or_raw, leading, fields_of, binary_sql, sub_query_sql, in_list, in_values, projection_sql,
  windowed, closed, scoped, columns,
}
use teaql_python.Sql.Plain.{IsPlain}
use teaql_python.Sql.SelectOrder.{compile_select-Ordered}

abbrev order_id : Property
order_id = record {
  name = text "id";
  column_name = text "id";
  property_type = i64;
  is_id = true;
  is_version = false;
}

abbrev order_status : Property
order_status = record {
  name = text "status";
  column_name = text "order_status";
  property_type = short_text;
  is_id = false;
  is_version = false;
}

abbrev order : Entity
order = record {
  name = text "Order";
  table_name = text "orders";
  properties = order_id ∷ order_status ∷ [];
  relations = [];
}

-- placeholders without numbers
abbrev positional : Dialect
positional = record { quote_ident = λ s. s; placeholder = λ n. text "?" }

abbrev paid : Value ℕ
paid = record { datum = some (other 7); type_hint = some short_text }

-- the payload 9 is a list of two values
abbrev elements : ℕ → Option (List (Value ℕ))
elements n = if eqb n 9 then some (paid ∷ i64_value (pos 4) ∷ []) else none

abbrev two_values : Value ℕ
two_values = record { datum = some (other 9); type_hint = some json }

abbrev plain_shape : Shape
plain_shape = record {
  projection = text "status" ∷ [];
  search_with_text = some (text "urgent");
  slice = some (record { offset = 20; limit = some 10 });
  partition_by = none;
  aggregates = [];
  group_by_items = [];
  raw_sql = none;
  raw_sql_search_criteria = [];
  dynamic_properties = [];
  raw_projections = [];
}

abbrev counting : Aggregate
counting = record { function = count; field = text "*"; alias = text "n" }

abbrev inner : Query ℕ
inner =
    query
      (record plain_shape { projection = text "id" ∷ []; search_with_text = none; slice = none })
      no_named (clause (binary (column (text "status")) op_in (value two_values))) no_clause
      no_orders no_loads no_loads no_queries

abbrev urgent : Query ℕ
urgent =
    query plain_shape
      (named (text "is_paid") (binary (column (text "status")) op_eq (value paid)) no_named)
      (clause (sub_query (column (text "id")) op_in order inner)) no_clause
      (by_field (text "id") descending no_orders) no_loads no_loads no_queries

abbrev text_of : Dialect → Compiled (CompiledQuery ℕ) → Text
text_of d (compiled q) = render d q.sql
text_of d (refused _) = []

urgent-text :
    text_of positional (compile_select positional elements order urgent)
    ≡ text
        "SELECT order_status AS status, (order_status = ?) AS is_paid FROM orders WHERE (id IN (SELECT id FROM orders WHERE (order_status IN (?, ?)))) AND (order_status LIKE ?) ORDER BY id DESC LIMIT 10 OFFSET 20"
unfolding compile_select compile_select_sql or_raw leading fields_of projected column_sql
    columns_sql list_eq binary_sql sub_query_sql in_list in_values projection_sql windowed closed
    search search_parts aggregate_sql aggregates_sql scoped columns ◌>>=◌
urgent-text = refl

compile_select-Ordered_example : Ordered (compile_select positional elements order urgent)
unfolding IsPlain
compile_select-Ordered_example =
    compile_select-Ordered positional elements order urgent
      (refl, ((tt, tt), tt), (tt, (refl, tt, (tt, tt), tt, tt)), tt, tt)

-- An aggregating query that projects one expression twice, with two different values
abbrev status_is : Value ℕ → Expr ℕ
status_is v = binary (column (text "status")) op_eq (value v)

abbrev doubled : Query ℕ
doubled =
    query
      (record plain_shape {
        projection = [];
        search_with_text = none;
        slice = none;
        aggregates = counting ∷ [];
      })
      (named (text "x") (status_is paid)
        (named (text "x") (status_is (i64_value (pos 4))) no_named))
      no_clause no_clause no_orders no_loads no_loads no_queries

-- the placeholders and the bound values of a compiled query
abbrev sizes : Compiled (CompiledQuery ℕ) → ℕ × ℕ
sizes (compiled q) = (length (places q.sql), length q.params)
sizes (refused _) = (0, 0)

-- one placeholder stands for two values
doubled-sizes : sizes (compile_select positional elements order doubled) ≡ (1, 2)
unfolding compile_select compile_select_sql or_raw leading fields_of projected column_sql
    columns_sql list_eq binary_sql sub_query_sql in_list in_values projection_sql windowed closed
    search search_parts aggregate_sql aggregates_sql scoped columns ◌>>=◌
doubled-sizes = refl
