-- ===== src/Sql/SelectOrder.antt =====
-- src/teaql/sql/dialect.py: in a compiled SELECT the placeholders number the bound values in order.
use teaql_python.Base.{◌≡◌, refl, ◌∙◌, false, Option, List, [], ◌∷◌, ◌++◌, length}
use teaql_python.Base.Text.{Text, text}
use teaql_python.Sql.Core.{
  Value, Entity, invalid_function_arguments, refused, raw, Binding, Dialect,
}
use teaql_python.Sql.Exprs.{
  Expr, column, value, function, binary, sub_query, between, is_null, is_not_null, and_expr,
  or_expr, not_expr, Exprs, no_exprs, and_then_expr, Clause, no_clause, clause, NamedExprs,
  no_named, named, Orders, no_orders, by_field, by_expr, Query, query,
}
use teaql_python.Sql.Clauses.{column_sql, is_none, aliased, partition_of, search}
use teaql_python.Sql.Operators.{call_text, function_text, is_count, direction_text}
use teaql_python.Sql.Numbering.{places, Ordered}
use teaql_python.Sql.Texts
use teaql_python.Sql.Select.{
  list_values, compile_expr, compile_exprs, compile_clause, compile_named, compile_orders,
  compile_select_sql, compile_select,
}
use teaql_python.Sql.Parts.{scoped, step}
use teaql_python.Sql.Counted.{
  Holds, bind-Holds, both-Holds, if-Holds, nil-Counted, same-Counted, StepCounted, BuiltCounted,
  bound-Counted, search-Counted,
}
use teaql_python.Sql.Silent.{
  Silent, AllSilent, column_sql-Silent, columns_sql-AllSilent, leading-AllSilent,
  projection_sql-places,
}
use teaql_python.Sql.Plain.{
  IsPlain, ExprIsPlain, ExprsArePlain, ClauseIsPlain, NamedArePlain, OrdersArePlain,
}
use teaql_python.Sql.Assembly.{
  NamedCounted, ProjectedFrom, around-Counted, bare-AllSilent, between-Counted, binary_sql-Counted,
  closed-Counted, cons-Counted, counted-Ordered, joined-Counted, or_raw-Counted, projected-Counted,
  select_text-Counted, sub_query_sql-Counted, windowed-Counted,
}

module _ {D : Type 0} (dialect : Dialect) (elements : D → Option (List (Value D))) where
  mutual
    unfolding compile_expr compile_exprs compile_clause compile_named compile_orders
        compile_select_sql IsPlain ExprIsPlain ExprsArePlain ClauseIsPlain NamedArePlain
        OrdersArePlain

    expr-Counted :
        (entity : Entity) (e : Expr D)
        → ExprIsPlain e
        → (current : List Text) (params : List (Binding D))
        → Holds (StepCounted params) (compile_expr dialect elements entity e current params)
    expr-Counted entity (column name) plain current params =
        bind-Holds Silent (StepCounted params) (column_sql entity name) _
          (column_sql-Silent entity name)
          (λ c h.
            same-Counted (length params) (length params) [] (places c) h
              (nil-Counted (length params)))
    expr-Counted entity (value v) plain current params =
        bound-Counted params (record { value = v; fields = current })
    expr-Counted entity (function f no_exprs) plain current params =
        if-Holds (StepCounted params) (is_count f) (step (raw (text "COUNT(*)") ∷ []) params)
          (refused (invalid_function_arguments (function_text f))) (nil-Counted (length params)) tt
    expr-Counted entity (function f (and_then_expr e no_exprs)) (plain, _) current params =
        bind-Holds (StepCounted params) (StepCounted params) _ _
          (expr-Counted entity e plain (scoped (function f (and_then_expr e no_exprs)) current)
            params)
          (λ x h.
            same-Counted (length params) (length x.params) (places x.sql)
              (places (call_text f x.sql)) (Texts.places-call_text f x.sql) h)
    expr-Counted entity (function f (and_then_expr e (and_then_expr e' es))) plain current params =
        tt
    expr-Counted entity (binary l op r) (pl, pr) current params =
        let now = scoped (binary l op r) current in
        bind-Holds (StepCounted params) (StepCounted params) _ _
          (expr-Counted entity l pl now params)
          (λ x h.
            binary_sql-Counted params op now (list_values dialect elements r) x _ h
              (expr-Counted entity r pr now x.params))
    expr-Counted entity (sub_query l op inner q) (pl, pq) current params =
        let now = scoped (sub_query l op inner q) current in
        bind-Holds (StepCounted params) (StepCounted params) _ _
          (expr-Counted entity l pl now params)
          (λ x h. sub_query_sql-Counted params op x _ h (query-Counted inner q pq now x.params))
    expr-Counted entity (between e l u) (pe, pl, pu) current params =
        let now = scoped (between e l u) current in
        bind-Holds (StepCounted params) (StepCounted params) _ _
          (expr-Counted entity e pe now params)
          (λ x h.
            bind-Holds (StepCounted x.params) (StepCounted params) _ _
              (expr-Counted entity l pl now x.params)
              (λ y g.
                bind-Holds (StepCounted y.params) (StepCounted params) _ _
                  (expr-Counted entity u pu now y.params)
                  (λ z k. between-Counted params x y z h g k)))
    expr-Counted entity (is_null e) plain current params =
        bind-Holds (StepCounted params) (StepCounted params) _ _
          (expr-Counted entity e plain current params)
          (λ x h. around-Counted params x (raw (text " IS NULL") ∷ []) refl h)
    expr-Counted entity (is_not_null e) plain current params =
        bind-Holds (StepCounted params) (StepCounted params) _ _
          (expr-Counted entity e plain current params)
          (λ x h. around-Counted params x (raw (text " IS NOT NULL") ∷ []) refl h)
    expr-Counted entity (and_expr es) plain current params =
        bind-Holds (BuiltCounted params) (StepCounted params) _ _
          (exprs-Counted entity es plain current params)
          (λ b h. joined-Counted params b (text " AND ") h)
    expr-Counted entity (or_expr es) plain current params =
        bind-Holds (BuiltCounted params) (StepCounted params) _ _
          (exprs-Counted entity es plain current params)
          (λ b h. joined-Counted params b (text " OR ") h)
    expr-Counted entity (not_expr e) plain current params =
        bind-Holds (StepCounted params) (StepCounted params) _ _
          (expr-Counted entity e plain current params)
          (λ x h.
            same-Counted (length params) (length x.params) (places x.sql) _
              (Texts.places-parens (raw (text "NOT ") ∷ x.sql)) h)

    exprs-Counted :
        (entity : Entity) (es : Exprs D)
        → ExprsArePlain es
        → (current : List Text) (params : List (Binding D))
        → Holds (BuiltCounted params) (compile_exprs dialect elements entity es current params)
    exprs-Counted entity no_exprs plain current params = nil-Counted (length params)
    exprs-Counted entity (and_then_expr e es) (pe, ps) current params =
        bind-Holds (StepCounted params) (BuiltCounted params) _ _
          (expr-Counted entity e pe current params)
          (λ x h.
            bind-Holds (BuiltCounted x.params) (BuiltCounted params) _ _
              (exprs-Counted entity es ps current x.params)
              (λ b g. cons-Counted params x b x.sql refl h g))

    clause-Counted :
        (entity : Entity) (c : Clause D)
        → ClauseIsPlain c
        → (current : List Text) (params : List (Binding D))
        → Holds (BuiltCounted params) (compile_clause dialect elements entity c current params)
    clause-Counted entity no_clause plain current params = nil-Counted (length params)
    clause-Counted entity (clause e) plain current params =
        bind-Holds (StepCounted params) (BuiltCounted params) _ _
          (expr-Counted entity e plain current params)
          (λ x h.
            cons-Counted params x (record { parts = []; params = x.params }) x.sql refl h
              (nil-Counted (length x.params)))

    named-Counted :
        (entity : Entity) (es : NamedExprs D)
        → NamedArePlain es
        → (current : List Text) (params : List (Binding D))
        → Holds (BuiltCounted params) (compile_named dialect elements entity es current params)
    named-Counted entity no_named plain current params = nil-Counted (length params)
    named-Counted entity (named alias e es) (pe, ps) current params =
        bind-Holds (StepCounted params) (BuiltCounted params) _ _
          (expr-Counted entity e pe current params)
          (λ x h.
            bind-Holds (BuiltCounted x.params) (BuiltCounted params) _ _
              (named-Counted entity es ps current x.params)
              (λ b g.
                cons-Counted params x b (aliased x.sql alias) (Texts.places-aliased x.sql alias) h
                  g))

    orders-Counted :
        (entity : Entity) (os : Orders D)
        → OrdersArePlain os
        → (current : List Text) (params : List (Binding D))
        → Holds (BuiltCounted params) (compile_orders dialect elements entity os current params)
    orders-Counted entity no_orders plain current params = nil-Counted (length params)
    orders-Counted entity (by_field name direction os) plain current params =
        bind-Holds Silent (BuiltCounted params) (column_sql entity name) _
          (column_sql-Silent entity name)
          (λ c s.
            bind-Holds (BuiltCounted params) (BuiltCounted params) _ _
              (orders-Counted entity os plain current params)
              (λ b g.
                cons-Counted params (record { sql = []; params = params }) b
                  (c ++ (raw (direction_text direction) ∷ []))
                  (Texts.places-behind c (direction_text direction) ∙ s)
                  (nil-Counted (length params)) g))
    orders-Counted entity (by_expr e direction os) (pe, ps) current params =
        bind-Holds (StepCounted params) (BuiltCounted params) _ _
          (expr-Counted entity e pe current params)
          (λ x h.
            bind-Holds (BuiltCounted x.params) (BuiltCounted params) _ _
              (orders-Counted entity os ps current x.params)
              (λ b g.
                cons-Counted params x b (x.sql ++ (raw (direction_text direction) ∷ []))
                  (Texts.places-behind x.sql (direction_text direction)) h g))

    query-Counted :
        (entity : Entity) (q : Query D)
        → IsPlain q
        → (current : List Text) (params : List (Binding D))
        → Holds (StepCounted params) (compile_select_sql dialect elements entity q current params)
    query-Counted entity (query shape exprs filter having items loads sums kids)
          (plain, pn, pf, ph, po) current params =
        let part = partition_of shape in
        let S = StepCounted params in
        let g = λ (ps : List (Binding D)). orders-Counted entity items po current ps in
        or_raw-Counted params shape.raw_sql _ (
          bind-Holds AllSilent S _ _ (leading-AllSilent entity shape exprs loads sums) (λ front fs.
            bind-Holds (NamedCounted params shape) S _ _
              (both-Holds (BuiltCounted params)
                (λ b. is_none shape.aggregates ≡ false → AllSilent b.parts) _
                (named-Counted entity exprs pn current params)
                (bare-AllSilent dialect elements entity shape exprs plain current params))
              (λ n (hn, bare).
                bind-Holds (ProjectedFrom n) S _ _
                  (projection_sql-places dialect entity shape front n fs bare)
                  (λ p (e, e').
                    bind-Holds S S _ _
                      (windowed-Counted params entity part _ p
                        (projected-Counted params n p e e' hn) g)
                      (λ w cw.
                        bind-Holds (BuiltCounted w.params) S _ _
                          (clause-Counted entity filter pf current w.params)
                          (λ f cf.
                            let s = search shape.search_with_text entity.properties f.params in
                            bind-Holds AllSilent S _ _
                              (columns_sql-AllSilent entity shape.group_by_items)
                              (λ groups silent.
                                bind-Holds (BuiltCounted s.params) S _ _
                                  (clause-Counted entity having ph current s.params)
                                  (λ h ch.
                                    closed-Counted params part shape.slice _ _
                                      (select_text-Counted params entity w f s h
                                        shape.raw_sql_search_criteria groups cw cf
                                        (search-Counted shape.search_with_text entity.properties
                                          f.params)
                                        silent ch)
                                      g))))))))

  -- A SELECT that compiles has the placeholders 1, 2, …, n in its text, from left to right, each once, with n
  -- the number of its bound values, whatever its projection, its conditions with their nested queries, its
  -- search, order, partition and slice are, if no query in it has both aggregates and projected expressions.
  pub compile_select-Ordered :
      (entity : Entity) (q : Query D)
      → IsPlain q
      → Ordered (compile_select dialect elements entity q)
  unfolding compile_select
  compile_select-Ordered entity q plain =
      counted-Ordered (compile_select_sql dialect elements entity q [] [])
        (query-Counted entity q plain [] [])
