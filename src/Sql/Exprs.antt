-- ===== src/Sql/Exprs.antt =====
-- src/teaql/core/expr.py and core/query.py: expressions and queries. A list or an optional field that holds
-- expressions or queries is a data type of the block. Of a query, what the compiler and the limits read is
-- kept; `shape` is its part without expressions. Payloads are a parameter `D`.
use teaql_python.Base.{ℕ, Option, List}
use teaql_python.Base.Text.{Text}
use teaql_python.Sql.Core.{Value, Entity}

pub data BinaryOp : Type 0 where
  op_eq op_ne op_gt op_gte op_lt op_lte op_like op_not_like : BinaryOp
  op_in op_not_in op_in_large op_not_in_large : BinaryOp

pub data ExprFunction : Type 0 where
  soundex gbk count sum avg min max stddev stddev_pop var_samp var_pop bit_and bit_or bit_xor :
      ExprFunction

pub data SortDirection : Type 0 where
  ascending descending : SortDirection

-- `AggregateFunction` has the members of `ExprFunction` from `Count` on
pub record Aggregate : Type 0 where
  pub function : ExprFunction
  pub field : Text
  pub alias : Text

pub record Slice : Type 0 where
  pub offset : ℕ
  pub limit : Option ℕ

pub record RawSqlProjection : Type 0 where
  pub property_name : Text
  pub raw_sql_segment : Text

pub record Shape : Type 0 where
  pub projection : List Text
  pub search_with_text : Option Text
  pub slice : Option Slice
  pub partition_by : Option Text
  pub aggregates : List Aggregate
  pub group_by_items : List Text
  pub raw_sql : Option Text
  pub raw_sql_search_criteria : List Text
  pub dynamic_properties : List RawSqlProjection
  pub raw_projections : List RawSqlProjection

mutual
  pub data Expr (D : Type 0) : Type 0 where
    column : Text → Expr D
    value : Value D → Expr D
    function : ExprFunction → Exprs D → Expr D
    binary : Expr D → BinaryOp → Expr D → Expr D
    sub_query : Expr D → BinaryOp → Entity → Query D → Expr D
    between : Expr D → Expr D → Expr D → Expr D
    is_null : Expr D → Expr D
    is_not_null : Expr D → Expr D
    and_expr : Exprs D → Expr D
    or_expr : Exprs D → Expr D
    not_expr : Expr D → Expr D

  pub data Exprs (D : Type 0) : Type 0 where
    no_exprs : Exprs D
    and_then_expr : Expr D → Exprs D → Exprs D

  -- `Optional[Expr]`
  pub data Clause (D : Type 0) : Type 0 where
    no_clause : Clause D
    clause : Expr D → Clause D

  -- `List[NamedExpr]`
  pub data NamedExprs (D : Type 0) : Type 0 where
    no_named : NamedExprs D
    named : Text → Expr D → NamedExprs D → NamedExprs D

  -- `List[OrderBy]`, each by a field or by an expression
  pub data Orders (D : Type 0) : Type 0 where
    no_orders : Orders D
    by_field : Text → SortDirection → Orders D → Orders D
    by_expr : Expr D → SortDirection → Orders D → Orders D

  -- `List[RelationLoad]` and `List[RelationAggregate]`, each with its query or without one
  pub data Loads (D : Type 0) : Type 0 where
    no_loads : Loads D
    load : Text → Loads D → Loads D
    load_query : Text → Query D → Loads D → Loads D

  pub data Queries (D : Type 0) : Type 0 where
    no_queries : Queries D
    and_query : Query D → Queries D → Queries D

  -- `SelectQuery`: its shape, `expr_projection`, `filter_expr`, `having_expr`, `order_by_items`, `relations`,
  -- `relation_aggregates` and `child_enhancements`
  pub data Query (D : Type 0) : Type 0 where
    query :
        Shape
        → NamedExprs D
        → Clause D
        → Clause D
        → Orders D
        → Loads D
        → Loads D
        → Queries D
        → Query D
