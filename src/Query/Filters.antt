-- ===== src/Query/Filters.antt =====
-- src/teaql/core/query.py: the filter of a query and the row filter that generated requests begin with.
-- `is_one` tells whether another payload than an integer equals 1 in Python.
use teaql_python.Base.{
  Bool, true, false, ◌&&◌, Option, none, some, if◌then◌else◌, eqb, ◌==◌, list_eq, nat_eq,
}
use teaql_python.Base.Integers.{pos, negsuc}
use teaql_python.Base.Text.{text}
use teaql_python.Sql.Core.{Datum, int, string, other, i64_value}
use teaql_python.Sql.Exprs.{
  BinaryOp, op_gte, op_lte, Expr, column, value, function, binary, sub_query, between, is_null,
  is_not_null, and_expr, or_expr, not_expr, Exprs, no_exprs, and_then_expr, Clause, no_clause,
  clause, Query, query,
}

abbrev pub is_gte : BinaryOp → Bool
is_gte op_gte = true
is_gte _ = false

module _ {D : Type 0} where
  abbrev pub pair : Expr D → Expr D → Exprs D
  pair l r = and_then_expr l (and_then_expr r no_exprs)

  -- `and_filter`, `and_having`
  abbrev pub and_filter : Clause D → Expr D → Clause D
  and_filter no_clause e = clause e
  and_filter (clause f) e = clause (and_expr (pair f e))

  -- `or_filter`, `or_having`
  abbrev pub or_filter : Clause D → Expr D → Clause D
  or_filter no_clause e = clause e
  or_filter (clause f) e = clause (or_expr (pair f e))

  -- the result of the loop over the parts of a conjunction
  abbrev pub conjoin_parts : Exprs D → Clause D
  conjoin_parts no_exprs = no_clause
  conjoin_parts (and_then_expr e no_exprs) = clause e
  conjoin_parts (and_then_expr e (and_then_expr e' es)) =
      clause (and_expr (and_then_expr e (and_then_expr e' es)))

  abbrev pub keep_part : Clause D → Exprs D → Exprs D
  keep_part no_clause es = es
  keep_part (clause e) es = and_then_expr e es

  abbrev pub with_filter : Query D → Clause D → Query D
  with_filter (query shape exprs filter having items loads sums kids) f =
      query shape exprs f having items loads sums kids

  abbrev pub filter_of : Query D → Clause D
  filter_of (query shape exprs filter having items loads sums kids) = filter

  abbrev pub is_deleted : Expr D
  is_deleted = binary (column (text "version")) op_lte (value (i64_value (negsuc 0)))

module _ {D : Type 0} (is_one : D → Bool) where
  abbrev pub is_one_datum : Option (Datum D) → Bool
  is_one_datum none = false
  is_one_datum (some (int (pos n))) = eqb n 1
  is_one_datum (some (int (negsuc n))) = false
  is_one_datum (some (string s)) = false
  is_one_datum (some (other d)) = is_one d

  -- `_is_default_live_filter`
  abbrev pub is_default_live_filter : Expr D → Bool
  is_default_live_filter (binary (column name) op (value v)) =
      name == text "version" && is_gte op && is_one_datum v.datum
  is_default_live_filter _ = false

  -- an expression that is not a conjunction
  abbrev pub remove_single : Expr D → Clause D
  remove_single e = if is_default_live_filter e then no_clause else clause e

  -- `_remove_default_live_filter`
  unfoldable mutual
    pub remove_default_live_filter : Expr D → Clause D
    remove_default_live_filter (and_expr es) = conjoin_parts (remove_from es)
    remove_default_live_filter (column name) = remove_single (column name)
    remove_default_live_filter (value v) = remove_single (value v)
    remove_default_live_filter (function f es) = remove_single (function f es)
    remove_default_live_filter (binary l op r) = remove_single (binary l op r)
    remove_default_live_filter (sub_query l op entity q) = remove_single (sub_query l op entity q)
    remove_default_live_filter (between e l u) = remove_single (between e l u)
    remove_default_live_filter (is_null e) = remove_single (is_null e)
    remove_default_live_filter (is_not_null e) = remove_single (is_not_null e)
    remove_default_live_filter (or_expr es) = remove_single (or_expr es)
    remove_default_live_filter (not_expr e) = remove_single (not_expr e)

    pub remove_from : Exprs D → Exprs D
    remove_from no_exprs = no_exprs
    remove_from (and_then_expr e es) = keep_part (remove_default_live_filter e) (remove_from es)

  abbrev pub without_live : Clause D → Clause D
  without_live no_clause = no_clause
  without_live (clause e) = remove_default_live_filter e

  abbrev pub with_deleted_rows : Query D → Query D
  with_deleted_rows q = with_filter q (without_live (filter_of q))

  abbrev pub deleted_rows_only : Query D → Query D
  deleted_rows_only q =
      let all = with_deleted_rows q in with_filter all (and_filter (filter_of all) is_deleted)
