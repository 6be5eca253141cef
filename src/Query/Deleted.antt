-- ===== src/Query/Deleted.antt =====
-- src/teaql/core/query.py: what the row filter of generated requests leaves when it is removed.
use teaql_python.Base.{
  ◌≡◌, refl, sym, ◌∙◌, ap, inl, inr, Bool, true, false, not, ◌&&◌, ◌||◌, arith, if-keeps,
  Bool-cases,
}
use teaql_python.Sql.Exprs.{
  Expr, column, value, function, binary, sub_query, between, is_null, is_not_null, and_expr,
  or_expr, not_expr, Exprs, no_exprs, and_then_expr, Clause, no_clause, clause, Query, query,
}
use teaql_python.Query.Filters.{
  conjoin_parts, keep_part, is_default_live_filter, remove_single, remove_default_live_filter,
  remove_from, without_live, filter_of, with_deleted_rows, and_filter, is_deleted,
  deleted_rows_only,
}

module _ {D : Type 0} where
  -- the parts of a conjunction, by what the database says of each for a row
  abbrev pub all_hold : (Expr D → Bool) → Exprs D → Bool
  all_hold holds no_exprs = true
  all_hold holds (and_then_expr e es) = holds e && all_hold holds es

  -- a query without a filter takes the row
  abbrev pub takes : (Expr D → Bool) → Clause D → Bool
  takes holds no_clause = true
  takes holds (clause e) = holds e

  -- SQL: a conjunction is true of a row if each part is
  abbrev pub IsConjunction : (Expr D → Bool) → Type 0
  IsConjunction holds = (es : Exprs D) → holds (and_expr es) ≡ all_hold holds es

split_and :
    (a b l x y : Bool)
    → ((a && (l || not x)) && (b && (l || not y))) ≡ ((a && b) && (l || not (x || y)))
split_and true true l true y = ground arith
split_and true true l false y = ground arith
split_and true false l x y = ground arith
split_and false b l x y = refl

module _ {D : Type 0} (is_one : D → Bool) where
  -- the live filter is one of the parts, through nested conjunctions
  unfoldable mutual
    pub has_live : Expr D → Bool
    has_live (and_expr es) = has_live_part es
    has_live (column name) = false
    has_live (value v) = false
    has_live (function f es) = false
    has_live (binary l op r) = is_default_live_filter is_one (binary l op r)
    has_live (sub_query l op entity q) = false
    has_live (between e l u) = false
    has_live (is_null e) = false
    has_live (is_not_null e) = false
    has_live (or_expr es) = false
    has_live (not_expr e) = false

    pub has_live_part : Exprs D → Bool
    has_live_part no_exprs = false
    has_live_part (and_then_expr e es) = has_live e || has_live_part es

  abbrev pub clause_has_live : Clause D → Bool
  clause_has_live no_clause = false
  clause_has_live (clause e) = has_live e

  conjoin_parts-has_live : (es : Exprs D) → clause_has_live (conjoin_parts es) ≡ has_live_part es
  unfolding has_live has_live_part
  conjoin_parts-has_live no_exprs = refl
  conjoin_parts-has_live (and_then_expr e no_exprs) = ground arith
  conjoin_parts-has_live (and_then_expr e (and_then_expr e' es)) = refl

  keep_part-has_live :
      (c : Clause D) (es : Exprs D)
      → has_live_part (keep_part c es) ≡ (clause_has_live c || has_live_part es)
  unfolding has_live_part
  keep_part-has_live no_clause es = refl
  keep_part-has_live (clause e) es = refl

  single-has_live :
      (e : Expr D)
      → has_live e ≡ is_default_live_filter is_one e
      → clause_has_live (remove_single is_one e) ≡ false
  single-has_live e h =
      if-keeps (λ c. clause_has_live c ≡ false) (is_default_live_filter is_one e) {x = no_clause}
        {y = clause e} (λ _. refl) (λ absent. h ∙ absent)

  mutual
    unfolding remove_default_live_filter remove_from has_live has_live_part

    remove-has_live : (e : Expr D) → clause_has_live (remove_default_live_filter is_one e) ≡ false
    remove-has_live (and_expr es) =
        conjoin_parts-has_live (remove_from is_one es) ∙ parts-has_live es
    remove-has_live (column name) = single-has_live (column name) refl
    remove-has_live (value v) = single-has_live (value v) refl
    remove-has_live (function f es) = single-has_live (function f es) refl
    remove-has_live (binary l op r) = single-has_live (binary l op r) refl
    remove-has_live (sub_query l op entity q) = single-has_live (sub_query l op entity q) refl
    remove-has_live (between e l u) = single-has_live (between e l u) refl
    remove-has_live (is_null e) = single-has_live (is_null e) refl
    remove-has_live (is_not_null e) = single-has_live (is_not_null e) refl
    remove-has_live (or_expr es) = single-has_live (or_expr es) refl
    remove-has_live (not_expr e) = single-has_live (not_expr e) refl

    parts-has_live : (es : Exprs D) → has_live_part (remove_from is_one es) ≡ false
    parts-has_live no_exprs = refl
    parts-has_live (and_then_expr e es) =
        rw
          (
            keep_part-has_live (remove_default_live_filter is_one e) (remove_from is_one es),
            remove-has_live e,
            parts-has_live es,
          )
          refl

  module _ (holds : Expr D → Bool) (live : Bool) (conjunction : IsConjunction holds)
      (is_live : (e : Expr D) → is_default_live_filter is_one e ≡ true → holds e ≡ live) where
    -- `b` holds of a row if what is left, `c`, does, and the live filter too if it was there
    abbrev Splits : Bool → Clause D → Bool → Type 0
    Splits b c was = b ≡ (takes holds c && (live || not was))

    conjoin_parts-takes : (es : Exprs D) → takes holds (conjoin_parts es) ≡ all_hold holds es
    conjoin_parts-takes no_exprs = refl
    conjoin_parts-takes (and_then_expr e no_exprs) = ground arith
    conjoin_parts-takes (and_then_expr e (and_then_expr e' es)) =
        conjunction (and_then_expr e (and_then_expr e' es))

    keep_part-holds :
        (c : Clause D) (es : Exprs D)
        → all_hold holds (keep_part c es) ≡ (takes holds c && all_hold holds es)
    keep_part-holds no_clause es = refl
    keep_part-holds (clause e) es = refl

    single-Splits :
        (e : Expr D) (was : Bool)
        → was ≡ is_default_live_filter is_one e
        → Splits (holds e) (remove_single is_one e) was
    single-Splits e was h = elim (Bool-cases (is_default_live_filter is_one e)) [
      | inl here ↦ rw (h, here, is_live e here) (ground arith)
      | inr absent ↦ rw (h, absent) (ground arith)
    ]

    mutual
      unfolding remove_default_live_filter remove_from has_live has_live_part

      remove-Splits :
          (e : Expr D) → Splits (holds e) (remove_default_live_filter is_one e) (has_live e)
      remove-Splits (and_expr es) =
          conjunction es
          ∙ (parts-Split es
              ∙ ap (λ b. b && (live || not (has_live_part es)))
                  (sym (conjoin_parts-takes (remove_from is_one es))))
      remove-Splits (column name) = single-Splits (column name) false refl
      remove-Splits (value v) = single-Splits (value v) false refl
      remove-Splits (function f es) = single-Splits (function f es) false refl
      remove-Splits (binary l op r) =
          single-Splits (binary l op r) (is_default_live_filter is_one (binary l op r)) refl
      remove-Splits (sub_query l op entity q) = single-Splits (sub_query l op entity q) false refl
      remove-Splits (between e l u) = single-Splits (between e l u) false refl
      remove-Splits (is_null e) = single-Splits (is_null e) false refl
      remove-Splits (is_not_null e) = single-Splits (is_not_null e) false refl
      remove-Splits (or_expr es) = single-Splits (or_expr es) false refl
      remove-Splits (not_expr e) = single-Splits (not_expr e) false refl

      parts-Split :
          (es : Exprs D)
          → all_hold holds es
            ≡ (all_hold holds (remove_from is_one es) && (live || not (has_live_part es)))
      parts-Split no_exprs = ground arith
      parts-Split (and_then_expr e es) =
          rw
            (
              keep_part-holds (remove_default_live_filter is_one e) (remove_from is_one es),
              remove-Splits e,
              parts-Split es,
            )
            (split_and (takes holds (remove_default_live_filter is_one e))
              (all_hold holds (remove_from is_one es)) live (has_live e) (has_live_part es))

    clause-Splits :
        (c : Clause D) → Splits (takes holds c) (without_live is_one c) (clause_has_live c)
    clause-Splits no_clause = ground arith
    clause-Splits (clause e) = remove-Splits e

    clause-cleared : (c : Clause D) → clause_has_live (without_live is_one c) ≡ false
    clause-cleared no_clause = refl
    clause-cleared (clause e) = remove-has_live e

    and_filter-takes :
        (c : Clause D) (e : Expr D) → takes holds (and_filter c e) ≡ (takes holds c && holds e)
    and_filter-takes no_clause e = refl
    and_filter-takes (clause f) e = conjunction _ ∙ ground arith

    -- Take a row, and what the database says of each expression for it: a conjunction holds if its parts do, and
    -- the live filter holds or not. The filter of a query takes the row exactly if the filter after
    -- with_deleted_rows takes it and, where the live filter was a part, the row is live. No live filter is left as
    -- a part. deleted_rows_only takes of these rows those that are deleted.
    pub with_deleted_rows_lem :
        (q : Query D)
        → (takes holds (filter_of q) ≡ (
            takes holds (filter_of (with_deleted_rows is_one q))
            && (live || not (clause_has_live (filter_of q)))))
          × (clause_has_live (filter_of (with_deleted_rows is_one q)) ≡ false)
          × (takes holds (filter_of (deleted_rows_only is_one q))
              ≡ (takes holds (filter_of (with_deleted_rows is_one q)) && holds is_deleted))
    with_deleted_rows_lem (query shape exprs filter having items loads sums kids) = (
      clause-Splits filter,
      clause-cleared filter,
      and_filter-takes (without_live is_one filter) is_deleted,
    )
