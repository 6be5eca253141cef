-- ===== src/Sql/Plain.antt =====
-- src/teaql/core/query.py: the queries in which every projected expression stands beside no aggregate.
use teaql_python.Base.{◌≡◌, Bool, true, ◌||◌}
use teaql_python.Sql.Core.{}
use teaql_python.Sql.Exprs.{
  Shape, Expr, column, value, function, binary, sub_query, between, is_null, is_not_null, and_expr,
  or_expr, not_expr, Exprs, no_exprs, and_then_expr, Clause, no_clause, clause, NamedExprs,
  no_named, named, Orders, no_orders, by_field, by_expr, Query, query,
}
use teaql_python.Sql.Clauses.{is_none}
use teaql_python.Sql.Numbering.{}
use teaql_python.Sql.Parts.{is_no_named}
use teaql_python.Sql.Counted.{}
use teaql_python.Sql.Silent.{}

module _ {D : Type 0} where
  -- an aggregating query that projects no expressions, or one without aggregates
  abbrev pub keeps_values : Shape → NamedExprs D → Bool
  keeps_values shape exprs = is_none shape.aggregates || is_no_named exprs

  -- `IsPlain` of a query and of all that are compiled inside it
  unfoldable mutual
    pub IsPlain : Query D → Type 0
    IsPlain (query shape exprs filter having orders loads sums kids) =
        (keeps_values shape exprs ≡ true)
        × NamedArePlain exprs
        × ClauseIsPlain filter
        × ClauseIsPlain having
        × OrdersArePlain orders

    pub ExprIsPlain : Expr D → Type 0
    ExprIsPlain (column name) = Unit
    ExprIsPlain (value v) = Unit
    ExprIsPlain (function f es) = ExprsArePlain es
    ExprIsPlain (binary l op r) = ExprIsPlain l × ExprIsPlain r
    ExprIsPlain (sub_query l op entity q) = ExprIsPlain l × IsPlain q
    ExprIsPlain (between e l u) = ExprIsPlain e × ExprIsPlain l × ExprIsPlain u
    ExprIsPlain (is_null e) = ExprIsPlain e
    ExprIsPlain (is_not_null e) = ExprIsPlain e
    ExprIsPlain (and_expr es) = ExprsArePlain es
    ExprIsPlain (or_expr es) = ExprsArePlain es
    ExprIsPlain (not_expr e) = ExprIsPlain e

    pub ExprsArePlain : Exprs D → Type 0
    ExprsArePlain no_exprs = Unit
    ExprsArePlain (and_then_expr e es) = ExprIsPlain e × ExprsArePlain es

    pub ClauseIsPlain : Clause D → Type 0
    ClauseIsPlain no_clause = Unit
    ClauseIsPlain (clause e) = ExprIsPlain e

    pub NamedArePlain : NamedExprs D → Type 0
    NamedArePlain no_named = Unit
    NamedArePlain (named alias e es) = ExprIsPlain e × NamedArePlain es

    pub OrdersArePlain : Orders D → Type 0
    OrdersArePlain no_orders = Unit
    OrdersArePlain (by_field name direction os) = OrdersArePlain os
    OrdersArePlain (by_expr e direction os) = ExprIsPlain e × OrdersArePlain os
