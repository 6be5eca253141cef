-- ===== src/Query/Limiting.antt =====
-- src/teaql/core/query.py: a prepared query is limited at every depth.
use teaql_python.Base.{
  ℕ, ◌≤◌, ◌<◌, ◌≡◌, refl, sym, ap, subst, inl, inr, false, Option, none, some, arith, ltb,
  Bool-cases,
}
use teaql_python.Sql.Exprs.{
  Slice, Loads, no_loads, load, load_query, Queries, no_queries, and_query, Query, query,
}
use teaql_python.Query.Limits.{
  hard_limit_exceeded, invalid_limit, invalid_page_number, Limited, limited, refused, ◌>>=◌,
  hard_limit, limit_some, limit_slice, apply_list_limit, limit_loads, limit_queries,
}

abbrev LimitIsWithin : ℕ → Option ℕ → Type 0
LimitIsWithin ceiling none = ⊥
LimitIsWithin ceiling (some l) = l ≤ ceiling

abbrev SliceIsLimited : ℕ → Option Slice → Type 0
SliceIsLimited ceiling none = ⊥
SliceIsLimited ceiling (some slice) = LimitIsWithin ceiling slice.limit

-- what a limiting gives: a result that holds, or the refusal of a limit above its ceiling
abbrev Gives : {A : Type 0} → (A → Type 0) → Limited A → Type 0
Gives P (limited a) = P a
Gives P (refused (hard_limit_exceeded requested ceiling)) = ceiling < requested
Gives P (refused _) = ⊥

bind-Gives :
    {A B : Type 0} (P : A → Type 0) (Q : B → Type 0) (r : Limited A) (f : A → Limited B)
    → Gives P r
    → ((a : A) → P a → Gives Q (f a))
    → Gives Q (r >>= f)
unfolding ◌>>=◌
bind-Gives P Q (limited a) f h g = g a h
bind-Gives P Q (refused (hard_limit_exceeded l m)) f h g = h
bind-Gives P Q (refused invalid_limit) f h g = absurd h
bind-Gives P Q (refused invalid_page_number) f h g = absurd h

limit_some-Gives :
    (ceiling : ℕ) (slice : Slice) (l : Option ℕ)
    → Gives (λ (s : Slice). SliceIsLimited ceiling (some s)) (limit_some ceiling slice l)
limit_some-Gives ceiling slice none = omega arith
limit_some-Gives ceiling slice (some l) = elim (Bool-cases (ltb ceiling l)) [
  | inl above ↦ rw above (ground (arith, above))
  | inr within ↦ rw within (ground (arith, within))
]

limit_slice-Gives :
    (ceiling : ℕ) (slice : Option Slice)
    → Gives (λ (s : Slice). SliceIsLimited ceiling (some s)) (limit_slice ceiling slice)
limit_slice-Gives ceiling none = omega arith
limit_slice-Gives ceiling (some slice) = limit_some-Gives ceiling slice slice.limit

limit_some-kept :
    (ceiling : ℕ) (slice : Slice) (l : Option ℕ)
    → LimitIsWithin ceiling l
    → limit_some ceiling slice l ≡ limited (record slice { limit = l })
limit_some-kept ceiling slice none h = absurd h
limit_some-kept ceiling slice (some l) h =
    let within : ltb ceiling l ≡ false = ground (arith, h) in rw within refl

slice-kept :
    (ceiling : ℕ) (o : Option Slice)
    → SliceIsLimited ceiling o
    → (slice : Slice) × (o ≡ some slice) × (limit_slice ceiling o ≡ limited slice)
slice-kept ceiling none h = absurd h
slice-kept ceiling (some slice) h = (slice, refl, limit_some-kept ceiling slice slice.limit h)

module _ {D : Type 0} where
  -- A query has a limit of at most `ceiling`, and all that it loads and all its enhancements have one of at most
  -- the hard limit, through every depth.
  unfoldable mutual
    pub IsLimited : ℕ → Query D → Type 0
    IsLimited ceiling (query shape exprs filter having items loads sums kids) =
        SliceIsLimited ceiling shape.slice × LoadsAreLimited loads × QueriesAreLimited kids

    pub LoadsAreLimited : Loads D → Type 0
    LoadsAreLimited no_loads = Unit
    LoadsAreLimited (load name rest) = LoadsAreLimited rest
    LoadsAreLimited (load_query name q rest) = IsLimited hard_limit q × LoadsAreLimited rest

    pub QueriesAreLimited : Queries D → Type 0
    QueriesAreLimited no_queries = Unit
    QueriesAreLimited (and_query q rest) = IsLimited hard_limit q × QueriesAreLimited rest

  mutual
    unfolding apply_list_limit limit_loads limit_queries IsLimited LoadsAreLimited QueriesAreLimited

    apply-Gives :
        (ceiling : ℕ) (q : Query D) → Gives (IsLimited ceiling) (apply_list_limit ceiling q)
    apply-Gives ceiling (query shape exprs filter having items loads sums kids) =
        bind-Gives (λ (s : Slice). SliceIsLimited ceiling (some s)) (IsLimited ceiling)
          (limit_slice ceiling shape.slice) _ (limit_slice-Gives ceiling shape.slice)
          (λ slice hs.
            bind-Gives LoadsAreLimited (IsLimited ceiling) (limit_loads loads) _ (loads-Gives loads)
              (λ loads' hl.
                bind-Gives QueriesAreLimited (IsLimited ceiling) (limit_queries kids) _
                  (queries-Gives kids) (λ kids' hk. (hs, hl, hk))))

    loads-Gives : (loads : Loads D) → Gives LoadsAreLimited (limit_loads loads)
    loads-Gives no_loads = tt
    loads-Gives (load name rest) =
        bind-Gives LoadsAreLimited LoadsAreLimited (limit_loads rest) _ (loads-Gives rest)
          (λ rest' h. h)
    loads-Gives (load_query name q rest) =
        bind-Gives (IsLimited hard_limit) LoadsAreLimited (apply_list_limit hard_limit q) _
          (apply-Gives hard_limit q)
          (λ q' hq.
            bind-Gives LoadsAreLimited LoadsAreLimited (limit_loads rest) _ (loads-Gives rest)
              (λ rest' h. (hq, h)))

    queries-Gives : (kids : Queries D) → Gives QueriesAreLimited (limit_queries kids)
    queries-Gives no_queries = tt
    queries-Gives (and_query q rest) =
        bind-Gives (IsLimited hard_limit) QueriesAreLimited (apply_list_limit hard_limit q) _
          (apply-Gives hard_limit q)
          (λ q' hq.
            bind-Gives QueriesAreLimited QueriesAreLimited (limit_queries rest) _
              (queries-Gives rest) (λ rest' h. (hq, h)))

  mutual
    unfolding apply_list_limit limit_loads limit_queries IsLimited LoadsAreLimited QueriesAreLimited
        ◌>>=◌

    apply-kept :
        (ceiling : ℕ) (q : Query D) → IsLimited ceiling q → apply_list_limit ceiling q ≡ limited q
    apply-kept ceiling (query shape exprs filter having items loads sums kids) (hs, hl, hk) =
        let (slice, e, l) = slice-kept ceiling shape.slice hs in
        rw (l, loads-kept loads hl, queries-kept kids hk)
          (ap
            (λ o.
              limited
                (query (record shape { slice = o }) exprs filter having items loads sums kids))
            (sym e))

    loads-kept : (loads : Loads D) → LoadsAreLimited loads → limit_loads loads ≡ limited loads
    loads-kept no_loads h = refl
    loads-kept (load name rest) h = rw (loads-kept rest h) refl
    loads-kept (load_query name q rest) (hq, h) =
        rw (apply-kept hard_limit q hq, loads-kept rest h) refl

    queries-kept : (kids : Queries D) → QueriesAreLimited kids → limit_queries kids ≡ limited kids
    queries-kept no_queries h = refl
    queries-kept (and_query q rest) (hq, h) =
        rw (apply-kept hard_limit q hq, queries-kept rest h) refl

  -- A query that is prepared for a list has a limit of at most the ceiling, and every query that it loads or that
  -- enhances it, at any depth, one of at most 10 000; preparing it again changes nothing.
  pub apply_list_limit-IsLimited :
      (ceiling : ℕ) (q q' : Query D)
      → apply_list_limit ceiling q ≡ limited q'
      → IsLimited ceiling q' × (apply_list_limit ceiling q' ≡ limited q')
  apply_list_limit-IsLimited ceiling q q' h =
      let within : IsLimited ceiling q' =
        subst (Gives (IsLimited ceiling)) h (apply-Gives ceiling q) in
      (within, apply-kept ceiling q' within)
