-- ===== src/Query/Limits.antt =====
-- src/teaql/core/query.py: `prepare_for_list` and the builders of a slice. An exception ends the method; what it
-- has set before on the query that it refuses is not kept here. Numbers are natural: the checks for negative
-- ones have nothing to refuse.
use teaql_python.Base.{ℕ, zero, suc, ◌*◌, Option, none, some, ltb, if◌then◌else◌}
use teaql_python.Sql.Exprs.{
  Slice, Loads, no_loads, load, load_query, Queries, no_queries, and_query, Query, query,
}

pub data Refusal : Type 0 where
  -- the requested limit and the ceiling
  hard_limit_exceeded : (requested ceiling : ℕ) → Refusal
  invalid_limit invalid_page_number : Refusal

pub data Limited (A : Type 0) : Type 0 where
  limited : A → Limited A
  refused : Refusal → Limited A

unfoldable pub ◌>>=◌ : {A B : Type 0} → Limited A → (A → Limited B) → Limited B

infixl 1 ◌>>=◌
limited a >>= f = f a
refused e >>= f = refused e

-- the hard limit of every nested query, and of a query whose own is not changed
unfoldable pub hard_limit : ℕ
hard_limit = 10000

-- the slice, by its limit
abbrev pub limit_some : ℕ → Slice → Option ℕ → Limited Slice
limit_some ceiling slice none = limited (record slice { limit = some ceiling })
limit_some ceiling slice (some l) =
    if ltb ceiling l
    then refused (hard_limit_exceeded l ceiling)
    else limited (record slice { limit = some l })

abbrev pub limit_slice : ℕ → Option Slice → Limited Slice
limit_slice ceiling none = limited (record { offset = 0; limit = some ceiling })
limit_slice ceiling (some slice) = limit_some ceiling slice slice.limit

-- `_apply_list_limit`
module _ {D : Type 0} where
  unfoldable mutual
    pub apply_list_limit : ℕ → Query D → Limited (Query D)
    apply_list_limit ceiling (query shape exprs filter having items loads sums kids) =
        limit_slice ceiling shape.slice >>= λ slice. limit_loads loads >>= λ loads'.
        limit_queries kids >>= λ kids'.
        limited
          (query (record shape { slice = some slice }) exprs filter having items loads' sums kids')

    pub limit_loads : Loads D → Limited (Loads D)
    limit_loads no_loads = limited no_loads
    limit_loads (load name rest) = limit_loads rest >>= λ rest'. limited (load name rest')
    limit_loads (load_query name q rest) = apply_list_limit hard_limit q >>= λ q'.
        limit_loads rest >>= λ rest'. limited (load_query name q' rest')

    pub limit_queries : Queries D → Limited (Queries D)
    limit_queries no_queries = limited no_queries
    limit_queries (and_query q rest) = apply_list_limit hard_limit q >>= λ q'.
        limit_queries rest >>= λ rest'. limited (and_query q' rest')

-- `limit`, `offset` and `page`, on the slice of a query
abbrev pub with_limit : ℕ → Option Slice → Limited Slice
with_limit zero slice = refused invalid_limit
with_limit (suc l) none = limited (record { offset = 0; limit = some (suc l) })
with_limit (suc l) (some slice) = limited (record slice { limit = some (suc l) })

abbrev pub with_offset : ℕ → Option Slice → Slice
with_offset o none = record { offset = o; limit = none }
with_offset o (some slice) = record slice { offset = o }

abbrev pub with_page : ℕ → ℕ → Limited Slice
with_page zero size = refused invalid_page_number
with_page (suc page) zero = refused invalid_limit
with_page (suc page) (suc size) =
    limited (record { offset = page * suc size; limit = some (suc size) })
