-- ===== src/Sql/Select.antt =====
-- src/teaql/sql/dialect.py: `compile_expr` and what it calls, and `compile_select_sql`. `current` names the
-- columns whose log policies apply to a bound value; the base class's `compile_gbk_function` is taken. A
-- query with raw SQL gets its text as it is. `elements` are the members of a payload that is a Python list.
use teaql_python.Base.{Option, none, some, List, [], ◌∷◌, ◌++◌, length, if◌then◌else◌}
use teaql_python.Base.Text.{Text, text}
use teaql_python.Sql.Core.{
  Value, int, string, other, Entity, invalid_function_arguments, Compiled, compiled, refused, raw,
  place, Binding, CompiledQuery, Dialect, joined,
}
use teaql_python.Sql.Writes.{Built}
use teaql_python.Sql.Exprs.{
  Expr, column, value, function, binary, sub_query, between, is_null, is_not_null, and_expr,
  or_expr, not_expr, Exprs, no_exprs, and_then_expr, Clause, no_clause, clause, NamedExprs,
  no_named, named, Orders, no_orders, by_field, by_expr, Query, query,
}
use teaql_python.Sql.Clauses.{
  ◌>>=◌, Step, column_sql, columns_sql, parens, aliased, partition_of, select_text, raw_criteria,
  is_json, search,
}
use teaql_python.Sql.Operators.{function_text, is_count, call_text, direction_text}
use teaql_python.Sql.Parts.{
  between_text, scoped, step, append_value, binary_sql, sub_query_sql, or_raw, windowed, closed,
  leading, projection_sql,
}

module _ {D : Type 0} (dialect : Dialect) (elements : D → Option (List (Value D))) where
  -- `isinstance(right, ValueExpr) and …`: the values of a list on the right of IN
  abbrev pub list_values : Expr D → Option (List (Value D))
  list_values (value v) = elim v.datum [
    | none ↦ none
    | some (int _) ↦ none
    | some (string _) ↦ none
    | some (other d) ↦ if is_json v.type_hint then elements d else none
  ]
  list_values _ = none

  unfoldable mutual
    pub compile_expr : Entity → Expr D → List Text → List (Binding D) → Compiled (Step D)
    compile_expr entity (column name) current params = column_sql entity name >>= λ c. step c params
    compile_expr entity (value v) current params =
        let params' = append_value current v params in step (place (length params') ∷ []) params'
    compile_expr entity (function f no_exprs) current params =
        if is_count f
        then step (raw (text "COUNT(*)") ∷ []) params
        else refused (invalid_function_arguments (function_text f))
    compile_expr entity (function f (and_then_expr e no_exprs)) current params =
        compile_expr entity e (scoped (function f (and_then_expr e no_exprs)) current) params
        >>= λ x. step (call_text f x.sql) x.params
    compile_expr entity (function f (and_then_expr e (and_then_expr e' es))) current params =
        refused (invalid_function_arguments (function_text f))
    compile_expr entity (binary l op r) current params =
        let now = scoped (binary l op r) current in
        compile_expr entity l now params >>= λ x.
        binary_sql op now (list_values r) x (compile_expr entity r now x.params)
    compile_expr entity (sub_query l op inner q) current params =
        let now = scoped (sub_query l op inner q) current in
        compile_expr entity l now params >>= λ x.
        sub_query_sql op x (compile_select_sql inner q now x.params)
    compile_expr entity (between e l u) current params =
        let now = scoped (between e l u) current in
        compile_expr entity e now params >>= λ x. compile_expr entity l now x.params >>= λ y.
        compile_expr entity u now y.params >>= λ z. step (between_text x.sql y.sql z.sql) z.params
    compile_expr entity (is_null e) current params = compile_expr entity e current params >>= λ x.
        step (parens (x.sql ++ (raw (text " IS NULL") ∷ []))) x.params
    compile_expr entity (is_not_null e) current params =
        compile_expr entity e current params >>= λ x.
        step (parens (x.sql ++ (raw (text " IS NOT NULL") ∷ []))) x.params
    compile_expr entity (and_expr es) current params =
        compile_exprs entity es current params >>= λ b.
        step (parens (joined (text " AND ") b.parts)) b.params
    compile_expr entity (or_expr es) current params =
        compile_exprs entity es current params >>= λ b.
        step (parens (joined (text " OR ") b.parts)) b.params
    compile_expr entity (not_expr e) current params = compile_expr entity e current params >>= λ x.
        step (parens (raw (text "NOT ") ∷ x.sql)) x.params

    -- the list of `compile_joined`
    pub compile_exprs : Entity → Exprs D → List Text → List (Binding D) → Compiled (Built D)
    compile_exprs entity no_exprs current params = compiled (record { parts = []; params = params })
    compile_exprs entity (and_then_expr e es) current params =
        compile_expr entity e current params >>= λ x.
        compile_exprs entity es current x.params >>= λ b.
        compiled (record { parts = x.sql ∷ b.parts; params = b.params })

    pub compile_clause : Entity → Clause D → List Text → List (Binding D) → Compiled (Built D)
    compile_clause entity no_clause current params =
        compiled (record { parts = []; params = params })
    compile_clause entity (clause e) current params = compile_expr entity e current params >>= λ x.
        compiled (record { parts = x.sql ∷ []; params = x.params })

    -- the loop over `expr_projection`
    pub compile_named : Entity → NamedExprs D → List Text → List (Binding D) → Compiled (Built D)
    compile_named entity no_named current params = compiled (record { parts = []; params = params })
    compile_named entity (named alias e es) current params =
        compile_expr entity e current params >>= λ x.
        compile_named entity es current x.params >>= λ b.
        compiled (record { parts = aliased x.sql alias ∷ b.parts; params = b.params })

    -- `order_by_sql` for each item
    pub compile_orders : Entity → Orders D → List Text → List (Binding D) → Compiled (Built D)
    compile_orders entity no_orders current params =
        compiled (record { parts = []; params = params })
    compile_orders entity (by_field name direction os) current params =
        column_sql entity name >>= λ c. compile_orders entity os current params >>= λ b.
        compiled (record {
          parts = (c ++ (raw (direction_text direction) ∷ [])) ∷ b.parts;
          params = b.params;
        })
    compile_orders entity (by_expr e direction os) current params =
        compile_expr entity e current params >>= λ x.
        compile_orders entity os current x.params >>= λ b. compiled (record {
          parts = (x.sql ++ (raw (direction_text direction) ∷ [])) ∷ b.parts;
          params = b.params;
        })

    pub compile_select_sql : Entity → Query D → List Text → List (Binding D) → Compiled (Step D)
    compile_select_sql entity (query shape exprs filter having items loads sums kids) current
          params =
        let ordered = λ (ps : List (Binding D)). compile_orders entity items current ps in
        let part = partition_of shape in
        or_raw shape.raw_sql params (
          leading entity shape exprs loads sums >>= λ front.
          compile_named entity exprs current params >>= λ n.
          projection_sql dialect entity shape front n >>= λ p.
          windowed entity part ordered p >>= λ w.
          compile_clause entity filter current w.params >>= λ f.
          let s = search shape.search_with_text entity.properties f.params in
          columns_sql entity shape.group_by_items >>= λ groups.
          compile_clause entity having current s.params >>= λ h.
          closed part shape.slice ordered (record {
            sql =
                select_text entity w.sql
                  (f.parts ++ (s.parts ++ raw_criteria shape.raw_sql_search_criteria)) groups
                  h.parts;
            params = h.params;
          }))

  -- `compile_select`
  unfoldable pub compile_select : Entity → Query D → Compiled (CompiledQuery D)
  compile_select entity q = compile_select_sql entity q [] [] >>= λ x.
      compiled (record { sql = x.sql; params = x.params })
