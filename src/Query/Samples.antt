-- ===== src/Query/Samples.antt =====
-- src/teaql/core/query.py: a query that loads another one, prepared for a list.
use teaql_python.Base.{
  Bool, true, false, not, ◌&&◌, ◌||◌, ap, list_eq, ℕ, ◌≡◌, refl, Option, none, some, [],
}
use teaql_python.Base.Text.{text}
use teaql_python.Sql.Core.{i64_value, text_value}
use teaql_python.Base.Integers.{pos}
use teaql_python.Query.Filters.{
  filter_of, with_deleted_rows, deleted_rows_only, is_deleted, is_default_live_filter,
}
use teaql_python.Query.Deleted.{
  takes, clause_has_live, with_deleted_rows_lem, all_hold, IsConjunction,
}
use teaql_python.Sql.Exprs.{
  Expr, Exprs, op_gte, op_eq, column, value, binary, function, sub_query, between, is_null,
  is_not_null, or_expr, not_expr, and_expr, no_exprs, and_then_expr, clause, Slice, Shape,
  no_clause, no_named, no_orders, no_loads, load_query, no_queries, Query, query,
}
use teaql_python.Query.Limits.{
  hard_limit_exceeded, limited, refused, ◌>>=◌, hard_limit, apply_list_limit, limit_loads,
  limit_queries, with_page,
}
use teaql_python.Query.Limiting.{IsLimited, apply_list_limit-IsLimited}
use teaql_python.Query.Refusing.{Judged, QueryIsAllowed, QueryExceeds, apply_list_limit-Judged}

abbrev shape : Option Slice → Shape
shape slice = record {
  projection = [];
  search_with_text = none;
  slice = slice;
  partition_by = none;
  aggregates = [];
  group_by_items = [];
  raw_sql = none;
  raw_sql_search_criteria = [];
  dynamic_properties = [];
  raw_projections = [];
}

-- the orders of a page of customers
abbrev customers : Option Slice → Option Slice → Query ℕ
customers outer inner =
    query (shape outer) no_named no_clause no_clause no_orders
      (load_query (text "orders")
        (query (shape inner) no_named no_clause no_clause no_orders no_loads no_loads no_queries)
        no_loads)
      no_loads no_queries

abbrev slice_of : ℕ → ℕ → Option Slice
slice_of offset limit = some (record { offset = offset; limit = some limit })

prepared :
    apply_list_limit 100 (customers (slice_of 40 20) none)
    ≡ limited (customers (slice_of 40 20) (slice_of 0 10000))
unfolding apply_list_limit limit_loads limit_queries hard_limit ◌>>=◌
prepared = refl

too_many :
    apply_list_limit 100 (customers (slice_of 0 20) (slice_of 0 20000))
    ≡ refused (hard_limit_exceeded 20000 10000)
unfolding apply_list_limit limit_loads limit_queries hard_limit ◌>>=◌
too_many = refl

apply_list_limit-IsLimited_example :
    IsLimited 100 (customers (slice_of 40 20) (slice_of 0 10000))
    × (apply_list_limit 100 (customers (slice_of 40 20) (slice_of 0 10000))
        ≡ limited (customers (slice_of 40 20) (slice_of 0 10000)))
apply_list_limit-IsLimited_example =
    apply_list_limit-IsLimited 100 (customers (slice_of 40 20) none)
      (customers (slice_of 40 20) (slice_of 0 10000)) prepared

apply_list_limit-Judged_example :
    Judged
      (QueryIsAllowed 100 (customers (slice_of 0 20) (slice_of 0 20000)))
      (QueryExceeds 100 (customers (slice_of 0 20) (slice_of 0 20000)))
      (apply_list_limit 100 (customers (slice_of 0 20) (slice_of 0 20000)))
apply_list_limit-Judged_example =
    apply_list_limit-Judged 100 (customers (slice_of 0 20) (slice_of 0 20000))

third_page : with_page 3 25 ≡ limited (record { offset = 50; limit = some 25 })
third_page = refl

abbrev is_live : Expr ℕ
is_live = binary (column (text "version")) op_gte (value (i64_value (pos 1)))

abbrev is_paid : Expr ℕ
is_paid = binary (column (text "status")) op_eq (value (text_value (text "paid")))

abbrev paid_orders : Query ℕ
paid_orders =
    query (shape none) no_named
      (clause (and_expr (and_then_expr is_live (and_then_expr is_paid no_exprs)))) no_clause
      no_orders no_loads no_loads no_queries

-- a deleted row that is paid: of the expressions, only the status and the test of a deletion hold
unfoldable mutual
  row_holds : Expr ℕ → Bool
  row_holds (and_expr es) = row_holds_all es
  row_holds (binary l op r) = not (is_default_live_filter (λ n. false) (binary l op r))
  row_holds _ = false

  row_holds_all : Exprs ℕ → Bool
  row_holds_all no_exprs = true
  row_holds_all (and_then_expr e es) = row_holds e && row_holds_all es

row_holds-all_hold : (es : Exprs ℕ) → row_holds_all es ≡ all_hold row_holds es
unfolding row_holds_all
row_holds-all_hold no_exprs = refl
row_holds-all_hold (and_then_expr e es) = ap (λ b. row_holds e && b) (row_holds-all_hold es)

row_holds-IsConjunction : IsConjunction row_holds
unfolding row_holds
row_holds-IsConjunction es = row_holds-all_hold es

row_is_deleted : (e : Expr ℕ) → is_default_live_filter (λ n. false) e ≡ true → row_holds e ≡ false
unfolding row_holds
row_is_deleted (binary l op r) h = ap not h
row_is_deleted (column name) h = cc
row_is_deleted (value v) h = cc
row_is_deleted (function f es) h = cc
row_is_deleted (sub_query l op entity q) h = cc
row_is_deleted (between e l u) h = cc
row_is_deleted (is_null e) h = cc
row_is_deleted (is_not_null e) h = cc
row_is_deleted (and_expr es) h = cc
row_is_deleted (or_expr es) h = cc
row_is_deleted (not_expr e) h = cc

with_deleted_rows_lem_example :
    (takes row_holds (filter_of paid_orders) ≡ (
      takes row_holds (filter_of (with_deleted_rows (λ n. false) paid_orders))
      && (false || not (clause_has_live (λ n. false) (filter_of paid_orders)))))
    × (clause_has_live (λ n. false) (filter_of (with_deleted_rows (λ n. false) paid_orders))
        ≡ false)
    × (takes row_holds (filter_of (deleted_rows_only (λ n. false) paid_orders)) ≡ (
        takes row_holds (filter_of (with_deleted_rows (λ n. false) paid_orders))
        && row_holds is_deleted))
with_deleted_rows_lem_example =
    with_deleted_rows_lem (λ n. false) row_holds false row_holds-IsConjunction row_is_deleted
      paid_orders
