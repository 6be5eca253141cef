-- ===== src/Query/Refusing.antt =====
-- src/teaql/core/query.py: which queries `prepare_for_list` refuses, and for which of their limits.
use teaql_python.Base.{
  ℕ, ◌≤◌, ◌<◌, ◌≡◌, refl, ◌⊎◌, inl, inr, Option, none, some, arith, ltb, Bool-cases,
}
use teaql_python.Sql.Exprs.{
  Slice, Loads, no_loads, load, load_query, Queries, no_queries, and_query, Query, query,
}
use teaql_python.Query.Limits.{
  hard_limit_exceeded, invalid_limit, invalid_page_number, Limited, limited, refused, ◌>>=◌,
  hard_limit, limit_some, limit_slice, apply_list_limit, limit_loads, limit_queries,
}

-- no limit, or one of at most the ceiling
abbrev IsAllowed : ℕ → Option ℕ → Type 0
IsAllowed ceiling none = Unit
IsAllowed ceiling (some l) = l ≤ ceiling

-- the limit `requested` is above the ceiling, which is `most`
abbrev Exceeds : ℕ → Option ℕ → ℕ → ℕ → Type 0
Exceeds ceiling none requested most = ⊥
Exceeds ceiling (some l) requested most = (l ≡ requested) × (ceiling ≡ most) × (ceiling < l)

abbrev limit_of : Option Slice → Option ℕ
limit_of none = none
limit_of (some slice) = slice.limit

-- what a limiting shows of its argument: `Ok` if it returns, `Bad` of the refused limit and its ceiling if not
abbrev pub Judged : {A : Type 0} → Type 0 → (ℕ → ℕ → Type 0) → Limited A → Type 0
Judged Ok Bad (limited a) = Ok
Judged Ok Bad (refused (hard_limit_exceeded requested most)) = Bad requested most
Judged Ok Bad (refused _) = ⊥

bind-Judged :
    {A B : Type 0} (P Q : Type 0) (E F : ℕ → ℕ → Type 0) (r : Limited A) (f : A → Limited B)
    → Judged P E r
    → ((a : A) → Judged Q F (f a))
    → Judged (P × Q) (λ l m. E l m ⊎ F l m) (r >>= f)
unfolding ◌>>=◌
bind-Judged {B = B} P Q E F (limited a) f h g = with_first h (f a) (g a)
  where
    with_first : P → (r : Limited B) → Judged Q F r → Judged (P × Q) (λ l m. E l m ⊎ F l m) r
    with_first p (limited b) q = (p, q)
    with_first p (refused (hard_limit_exceeded l m)) q = inr q
    with_first p (refused invalid_limit) q = absurd q
    with_first p (refused invalid_page_number) q = absurd q
bind-Judged P Q E F (refused (hard_limit_exceeded l m)) f h g = inl h
bind-Judged P Q E F (refused invalid_limit) f h g = absurd h
bind-Judged P Q E F (refused invalid_page_number) f h g = absurd h

last-Judged :
    {A B : Type 0} (P : Type 0) (E : ℕ → ℕ → Type 0) (r : Limited A) (f : A → B)
    → Judged P E r
    → Judged P E (r >>= λ a. limited (f a))
unfolding ◌>>=◌
last-Judged P E (limited a) f h = h
last-Judged P E (refused (hard_limit_exceeded l m)) f h = h
last-Judged P E (refused invalid_limit) f h = absurd h
last-Judged P E (refused invalid_page_number) f h = absurd h

limit_some-Judged :
    (ceiling : ℕ) (slice : Slice) (l : Option ℕ)
    → Judged (IsAllowed ceiling l) (Exceeds ceiling l) (limit_some ceiling slice l)
limit_some-Judged ceiling slice none = tt
limit_some-Judged ceiling slice (some l) = elim (Bool-cases (ltb ceiling l)) [
  | inl above ↦ rw above (refl, refl, ground (arith, above))
  | inr within ↦ rw within (ground (arith, within))
]

limit_slice-Judged :
    (ceiling : ℕ) (slice : Option Slice)
    → Judged
        (IsAllowed ceiling (limit_of slice))
        (Exceeds ceiling (limit_of slice))
        (limit_slice ceiling slice)
limit_slice-Judged ceiling none = tt
limit_slice-Judged ceiling (some slice) = limit_some-Judged ceiling slice slice.limit

module _ {D : Type 0} where
  -- Every limit of the query, of what it loads and of its enhancements, through every depth, is at most its
  -- ceiling: the given one for the query itself, the hard limit for the others.
  unfoldable mutual
    pub QueryIsAllowed : ℕ → Query D → Type 0
    QueryIsAllowed ceiling (query shape exprs filter having items loads sums kids) =
        IsAllowed ceiling (limit_of shape.slice) × (LoadsAreAllowed loads × QueriesAreAllowed kids)

    pub LoadsAreAllowed : Loads D → Type 0
    LoadsAreAllowed no_loads = Unit
    LoadsAreAllowed (load name rest) = LoadsAreAllowed rest
    LoadsAreAllowed (load_query name q rest) = QueryIsAllowed hard_limit q × LoadsAreAllowed rest

    pub QueriesAreAllowed : Queries D → Type 0
    QueriesAreAllowed no_queries = Unit
    QueriesAreAllowed (and_query q rest) = QueryIsAllowed hard_limit q × QueriesAreAllowed rest

  -- One of those limits is `requested`, above its ceiling, which is `most`.
  unfoldable mutual
    pub QueryExceeds : ℕ → Query D → ℕ → ℕ → Type 0
    QueryExceeds ceiling (query shape exprs filter having items loads sums kids) requested most =
        Exceeds ceiling (limit_of shape.slice) requested most
        ⊎ (LoadsExceed loads requested most ⊎ QueriesExceed kids requested most)

    pub LoadsExceed : Loads D → ℕ → ℕ → Type 0
    LoadsExceed no_loads requested most = ⊥
    LoadsExceed (load name rest) requested most = LoadsExceed rest requested most
    LoadsExceed (load_query name q rest) requested most =
        QueryExceeds hard_limit q requested most ⊎ LoadsExceed rest requested most

    pub QueriesExceed : Queries D → ℕ → ℕ → Type 0
    QueriesExceed no_queries requested most = ⊥
    QueriesExceed (and_query q rest) requested most =
        QueryExceeds hard_limit q requested most ⊎ QueriesExceed rest requested most

  mutual
    unfolding apply_list_limit limit_loads limit_queries QueryIsAllowed LoadsAreAllowed
        QueriesAreAllowed QueryExceeds LoadsExceed QueriesExceed

    judge_query :
        (ceiling : ℕ) (q : Query D)
        → Judged (QueryIsAllowed ceiling q) (QueryExceeds ceiling q) (apply_list_limit ceiling q)
    judge_query ceiling (query shape exprs filter having items loads sums kids) =
        bind-Judged (IsAllowed ceiling (limit_of shape.slice))
          (LoadsAreAllowed loads × QueriesAreAllowed kids) (Exceeds ceiling (limit_of shape.slice))
          (λ l m. LoadsExceed loads l m ⊎ QueriesExceed kids l m) (limit_slice ceiling shape.slice)
          _ (limit_slice-Judged ceiling shape.slice)
          (λ slice.
            bind-Judged (LoadsAreAllowed loads) (QueriesAreAllowed kids) (LoadsExceed loads)
              (QueriesExceed kids) (limit_loads loads) _ (judge_loads loads)
              (λ loads'.
                last-Judged (QueriesAreAllowed kids) (QueriesExceed kids) (limit_queries kids) _
                  (judge_queries kids)))

    judge_loads :
        (loads : Loads D) → Judged (LoadsAreAllowed loads) (LoadsExceed loads) (limit_loads loads)
    judge_loads no_loads = tt
    judge_loads (load name rest) =
        last-Judged (LoadsAreAllowed rest) (LoadsExceed rest) (limit_loads rest) _
          (judge_loads rest)
    judge_loads (load_query name q rest) =
        bind-Judged (QueryIsAllowed hard_limit q) (LoadsAreAllowed rest) (QueryExceeds hard_limit q)
          (LoadsExceed rest) (apply_list_limit hard_limit q) _ (judge_query hard_limit q)
          (λ q'.
            last-Judged (LoadsAreAllowed rest) (LoadsExceed rest) (limit_loads rest) _
              (judge_loads rest))

    judge_queries :
        (kids : Queries D)
        → Judged (QueriesAreAllowed kids) (QueriesExceed kids) (limit_queries kids)
    judge_queries no_queries = tt
    judge_queries (and_query q rest) =
        bind-Judged (QueryIsAllowed hard_limit q) (QueriesAreAllowed rest)
          (QueryExceeds hard_limit q) (QueriesExceed rest) (apply_list_limit hard_limit q) _
          (judge_query hard_limit q)
          (λ q'.
            last-Judged (QueriesAreAllowed rest) (QueriesExceed rest) (limit_queries rest) _
              (judge_queries rest))

  -- A preparation that returns had no limit above its ceiling, at any depth. One that is refused names a limit of
  -- the query, of what it loads or of its enhancements that is above its ceiling, and that ceiling: the given
  -- one for the query itself, the hard limit for the others.
  pub apply_list_limit-Judged :
      (ceiling : ℕ) (q : Query D)
      → Judged (QueryIsAllowed ceiling q) (QueryExceeds ceiling q) (apply_list_limit ceiling q)
  apply_list_limit-Judged ceiling q = judge_query ceiling q
