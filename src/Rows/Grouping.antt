-- ===== src/Rows/Grouping.antt =====
-- src/teaql/core/list.py: what `group_by` and `identity_map` hold for a key.
use teaql_python.Base.{
  ◌≡◌, refl, sym, ◌∙◌, ap, Option, none, some, List, [], ◌∷◌, ◌++◌, select, arith, if◌then◌else◌,
  Eq, ◌==◌, Bool-cases, inl, inr,
}
use teaql_python.Base.Dict.{Dict, lookup, insert, lookup-nil, lookup-insert, get_or, over}
use teaql_python.Rows.SmartList.{identity_from, identity_map, group_from, group_by}

module _ {A K : Type 0} ⦃e : Eq K⦄ (key : A → K) where
  -- the rows of a key, in the order of the list
  abbrev pub rows_of : K → List A → List A
  rows_of k items = select (λ x. k == key x) items

  -- a group that is there, with more rows at its end
  abbrev pub extended : Option (List A) → List A → Option (List A)
  extended none [] = none
  extended none (x ∷ xs) = some (x ∷ xs)
  extended (some g) xs = some (g ++ xs)

  extended-cons :
      (g : Option (List A)) (x : A) (xs : List A)
      → extended (some ((elim g [ none ↦ [] | some h ↦ h ]) ++ (x ∷ []))) xs ≡ extended g (x ∷ xs)
  extended-cons none x xs = refl
  extended-cons (some h) x xs = ap some (snoc_append h x xs)
    where
      snoc_append : (h : List A) (x : A) (xs : List A) → (h ++ (x ∷ [])) ++ xs ≡ h ++ (x ∷ xs)
      snoc_append [] x xs = refl
      snoc_append (y ∷ h) x xs = ap (λ l. y ∷ l) (snoc_append h x xs)

  extended-nil : (g : Option (List A)) → extended g [] ≡ g
  extended-nil none = refl
  extended-nil (some g) = ap some (append_nil g)
    where
      append_nil : (g : List A) → g ++ [] ≡ g
      append_nil [] = refl
      append_nil (x ∷ g) = ap (λ l. x ∷ l) (append_nil g)

  extended-none :
      (xs : List A) → extended none xs ≡ (elim xs [ [] ↦ none | x ∷ xs ↦ some (x ∷ xs) ])
  extended-none [] = refl
  extended-none (x ∷ xs) = refl

  lookup-group_from :
      (items : List A) (d : Dict K (List A)) (k : K)
      → lookup k (group_from key items d) ≡ extended (lookup k d) (rows_of k items)
  unfolding group_from
  lookup-group_from [] d k = sym (extended-nil (lookup k d))
  lookup-group_from (x ∷ xs) d k =
      let rest = rows_of k xs in
      let group = get_or (key x) [] d ++ (x ∷ []) in
      let d' = insert (key x) group d in
      elim (Bool-cases (k == key x)) [
        | inl h ↦
            let found : lookup k d' ≡ some group =
              ground (arith, lookup-insert k (key x) group d) in
            let same : key x ≡ k = ground (arith, e.equal_iff k (key x)) in
            rw h (
              lookup-group_from xs d' k
              ∙ (ap (λ o. extended o rest) found
                  ∙ (extended-cons (lookup (key x) d) x rest
                      ∙ ap (λ j. extended (lookup j d) (x ∷ rest)) same)))
        | inr h ↦
            let kept : lookup k d' ≡ lookup k d = ground (arith, lookup-insert k (key x) group d) in
            rw h (lookup-group_from xs d' k ∙ ap (λ o. extended o rest) kept)
      ]

  -- `group_by` has for each key the rows with this key, all of them and in their order, and no entry for a
  -- key that no row has.
  pub lookup-group_by :
      (items : List A) (k : K)
      → lookup k (group_by key items)
        ≡ (elim (rows_of k items) [ [] ↦ none | x ∷ xs ↦ some (x ∷ xs) ])
  lookup-group_by items k =
      lookup-group_from items [] k
      ∙ (rw (lookup-nil {V = List A} k) (extended-none (rows_of k items)))

  -- the last row of a key
  abbrev pub last_of : K → List A → Option A
  last_of k [] = none
  last_of k (x ∷ xs) = over (last_of k xs) (if k == key x then some x else none)

  lookup-identity_from :
      (items : List A) (d : Dict K A) (k : K)
      → lookup k (identity_from key items d) ≡ over (last_of k items) (lookup k d)
  unfolding identity_from
  lookup-identity_from [] d k = refl
  lookup-identity_from (x ∷ xs) d k =
      ground (arith, lookup-identity_from xs (insert (key x) x d) k, lookup-insert k (key x) x d)

  pub lookup-identity_map :
      (items : List A) (k : K) → lookup k (identity_map key items) ≡ last_of k items
  lookup-identity_map items k =
      ground (arith, lookup-identity_from items [] k, lookup-nil {V = A} k)
