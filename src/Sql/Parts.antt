-- ===== src/Sql/Parts.antt =====
-- src/teaql/sql/dialect.py: what a SELECT is put together from, by what its expressions compile to. `current`
-- names the columns whose log policies apply to a bound value.
use teaql_python.Base.{
  Bool, true, false, ◌&&◌, Option, none, some, List, [], ◌∷◌, ◌++◌, length, if◌then◌else◌, map,
}
use teaql_python.Base.Text.{Text, text}
use teaql_python.Sql.Core.{
  Value, Entity, empty_in_list, invalid_sub_query_operator, Compiled, compiled, refused, Piece, raw,
  place, Binding, Dialect, joined,
}
use teaql_python.Sql.Writes.{Built}
use teaql_python.Sql.Exprs.{
  BinaryOp, Slice, Shape, Expr, column, value, function, binary, sub_query, between, is_null,
  is_not_null, and_expr, or_expr, not_expr, Exprs, no_exprs, and_then_expr, NamedExprs, no_named,
  named, Loads, no_loads, load, load_query,
}
use teaql_python.Sql.Clauses.{
  ◌>>=◌, Step, column_sql, columns_sql, projected, property_projection, with_keys, is_none, parens,
  infix_text, raw_parts, add_parts, aggregates_sql, order_part, window_text, wrapped, slice_part,
}
use teaql_python.Sql.Operators.{is_membership}

abbrev pub between_text : List Piece → List Piece → List Piece → List Piece
between_text x lower upper =
    parens (x ++ (raw (text " BETWEEN ") ∷ (lower ++ (raw (text " AND ") ∷ upper))))

module _ {D : Type 0} where
  -- `columns` of `expression_log_policy`
  unfoldable mutual
    pub columns : Expr D → List Text
    columns (column name) = name ∷ []
    columns (function f args) = columns_all args
    columns (binary l op r) = columns l ++ columns r
    columns (between e l u) = columns e ++ (columns l ++ columns u)
    columns (value v) = []
    columns (sub_query l op entity q) = []
    columns (is_null e) = []
    columns (is_not_null e) = []
    columns (and_expr es) = []
    columns (or_expr es) = []
    columns (not_expr e) = []

    pub columns_all : Exprs D → List Text
    columns_all no_exprs = []
    columns_all (and_then_expr e es) = columns e ++ columns_all es

  -- `params.policy(…)`: no column means that the surrounding policy stays
  unfoldable pub scoped : Expr D → List Text → List Text
  scoped e current = elim (columns e) [ [] ↦ current | c ∷ cs ↦ c ∷ cs ]

  abbrev pub load_names : Loads D → List Text
  load_names no_loads = []
  load_names (load name rest) = name ∷ load_names rest
  load_names (load_query name q rest) = name ∷ load_names rest

  abbrev pub is_no_named : NamedExprs D → Bool
  is_no_named no_named = true
  is_no_named (named _ _ _) = false

  abbrev pub step : List Piece → List (Binding D) → Compiled (Step D)
  step sql params = compiled (record { sql = sql; params = params })

  -- `params.append(v)`
  abbrev pub append_value : List Text → Value D → List (Binding D) → List (Binding D)
  append_value current v params = params ++ (record { value = v; fields = current } ∷ [])

  -- the loop of `compile_in` over the values of a list
  unfoldable pub in_values : List Text → List (Value D) → Built D → Built D
  in_values current [] b = b
  in_values current (v ∷ vs) b =
      let params = append_value current v b.params in
      in_values current vs
        (record { parts = b.parts ++ ((place (length params) ∷ []) ∷ []); params = params })

  -- `compile_in` with a list on its right
  unfoldable pub in_list :
      List Piece → BinaryOp → List Text → List (Value D) → List (Binding D) → Compiled (Step D)
  in_list lhs op current [] params = refused empty_in_list
  in_list lhs op current (v ∷ vs) params =
      let b = in_values current (v ∷ vs) (record { parts = []; params = params }) in
      step (infix_text lhs op (parens (joined (text ", ") b.parts))) b.params

  -- a query without any projection takes all properties
  abbrev pub takes_all : Shape → NamedExprs D → Bool
  takes_all shape exprs =
      is_none shape.projection
      && is_no_named exprs
      && is_none shape.raw_projections
      && is_none shape.dynamic_properties

  abbrev pub taken : Entity → Shape → Loads D → Loads D → List Text
  taken entity shape loads sums =
      if is_none shape.group_by_items
      then with_keys entity (load_names loads ++ load_names sums) shape.projection
      else shape.projection

  -- a comparison, by what is compiled on its left, the values of a list on its right, or its right
  unfoldable pub binary_sql :
      BinaryOp
      → List Text
      → Option (List (Value D))
      → Step D
      → Compiled (Step D)
      → Compiled (Step D)
  binary_sql op current values x rhs =
      let one = rhs >>= λ y. step (infix_text x.sql op y.sql) y.params in
      if is_membership op
      then elim values [
        | some vs ↦ in_list x.sql op current vs x.params
        | none ↦ rhs >>= λ y. step (infix_text x.sql op (parens y.sql)) y.params
      ]
      else one

  unfoldable pub sub_query_sql : BinaryOp → Step D → Compiled (Step D) → Compiled (Step D)
  sub_query_sql op x inner =
      let found = inner >>= λ y. step (infix_text x.sql op (parens y.sql)) y.params in
      if is_membership op then found else refused invalid_sub_query_operator

  -- a query's raw SQL is its text
  unfoldable pub or_raw : Option Text → List (Binding D) → Compiled (Step D) → Compiled (Step D)
  or_raw none params built = built
  or_raw (some sql) params built = step (raw sql ∷ []) params

  -- the window of a partitioned query, behind its projection
  unfoldable pub windowed :
      Entity
      → Option (Text × Slice)
      → (List (Binding D) → Compiled (Built D))
      → Step D
      → Compiled (Step D)
  windowed entity none ordered x = compiled x
  windowed entity (some part) ordered x = column_sql entity part.0 >>= λ c.
      ordered x.params >>= λ o. step (window_text x.sql c o.parts) o.params

  -- what follows the conditions: the query around a partitioned one, or the order and the slice
  unfoldable pub closed :
      Option (Text × Slice)
      → Option Slice
      → (List (Binding D) → Compiled (Built D))
      → Step D
      → Compiled (Step D)
  closed none slice ordered x =
      ordered x.params >>= λ o. step (x.sql ++ (order_part o.parts ++ slice_part slice)) o.params
  closed (some part) slice ordered x = step (wrapped x.sql part.1) x.params

  -- the fields and the foreign keys of a query without aggregates
  unfoldable pub fields_of :
      Entity → Shape → NamedExprs D → Loads D → Loads D → Compiled (List (List Piece))
  fields_of entity shape exprs loads sums =
      if takes_all shape exprs
      then compiled (map property_projection entity.properties)
      else projected entity (taken entity shape loads sums)

  -- the columns of `select_projection` and of `aggregate_projection` before the expressions
  unfoldable pub leading :
      Entity → Shape → NamedExprs D → Loads D → Loads D → Compiled (List (List Piece))
  leading entity shape exprs loads sums =
      if is_none shape.aggregates
      then fields_of entity shape exprs loads sums
      else columns_sql entity (shape.group_by_items ++ shape.projection)

  -- the whole projection, the raw ones behind the expressions and the aggregates last
  unfoldable pub projection_sql :
      Dialect → Entity → Shape → List (List Piece) → Built D → Compiled (Step D)
  projection_sql dialect entity shape front exprs =
      let raws = raw_parts (shape.raw_projections ++ shape.dynamic_properties) in
      if is_none shape.aggregates
      then step (joined (text ", ") (front ++ (exprs.parts ++ raws))) exprs.params
      else (aggregates_sql entity shape.aggregates >>= λ sums.
          step (joined (text ", ") (add_parts dialect (front ++ (exprs.parts ++ raws)) [] ++ sums))
            exprs.params)
