-- ===== src/Rows/Merging.antt =====
-- src/teaql/core/list.py: `SmartList.merge_by` and its table of positions.
use teaql_python.Base.{
  ℕ, zero, suc, ◌+◌, ◌≡◌, refl, sym, ◌∙◌, ap, subst, inl, inr, Option, none, some, List, [], ◌∷◌,
  ◌++◌, set, length, arith, if◌then◌else◌, Eq, ◌==◌, Option-cases,
}
use teaql_python.Base.Dict.{Dict, lookup, insert, lookup-nil, lookup-insert, over}
use teaql_python.Rows.SmartList.{
  positions_from, Merge, merge_step, merge_all, merge_rows, identity_map,
}
use teaql_python.Rows.Grouping.{last_of, lookup-identity_map}

module _ {A K : Type 0} ⦃e : Eq K⦄ (key : A → K) where
  -- the index of the last row of a key
  abbrev pub last_index : K → List A → Option ℕ
  last_index k [] = none
  last_index k (x ∷ xs) = elim (last_index k xs) [
    | some i ↦ some (suc i)
    | none ↦ if k == key x then some 0 else none
  ]

  -- what `merge_by` does with a row, without a table: it replaces the last row of the same key, or it is
  -- put at the end
  abbrev pub upsert : A → List A → List A
  upsert x items = elim (last_index (key x) items) [
    | none ↦ items ++ (x ∷ [])
    | some i ↦ set items i x
  ]

  abbrev pub upsert_all : List A → List A → List A
  upsert_all [] items = items
  upsert_all (x ∷ xs) items = upsert_all xs (upsert x items)

  -- the table has the last position of every key
  abbrev Indexed : List A → Dict K ℕ → Type 0
  Indexed items d = (k : K) → lookup k d ≡ last_index k items

  lookup-positions_from :
      (n : ℕ) (items : List A) (d : Dict K ℕ) (k : K)
      → lookup k (positions_from key n items d)
        ≡ (elim (last_index k items) [ none ↦ lookup k d | some i ↦ some (n + i) ])
  unfolding positions_from
  lookup-positions_from n [] d k = refl
  lookup-positions_from n (x ∷ xs) d k =
      ground (
        arith,
        lookup-positions_from (suc n) xs (insert (key x) n d) k,
        lookup-insert k (key x) n d,
      )

  last_index-append :
      (k : K) (x : A) (items : List A)
      → last_index k (items ++ (x ∷ []))
        ≡ (if k == key x then some (length items) else last_index k items)
  last_index-append k x [] = refl
  last_index-append k x (y ∷ items) = ground (arith, last_index-append k x items)

  last_index-set :
      (k : K) (x : A) (i : ℕ) (items : List A)
      → last_index (key x) items ≡ some i
      → last_index k (set items i x) ≡ last_index k items
  last_index-set k x i [] h = refl
  last_index-set k x zero (y ∷ items) h = ground (arith, e.equal_iff (key x) (key y))
  last_index-set k x (suc i) (y ∷ items) h = ground (arith, last_index-set k x i items)

  last_of-none : (k : K) (items : List A) → last_index k items ≡ none → last_of key k items ≡ none
  last_of-none k [] h = refl
  last_of-none k (y ∷ items) h = ground (arith, last_of-none k items)

  last_of-append :
      (k : K) (x : A) (items : List A)
      → last_of key k (items ++ (x ∷ [])) ≡ (if k == key x then some x else last_of key k items)
  last_of-append k x [] = ground arith
  last_of-append k x (y ∷ items) = ground (arith, last_of-append k x items)

  last_of-set :
      (k : K) (x : A) (i : ℕ) (items : List A)
      → last_index (key x) items ≡ some i
      → last_of key k (set items i x) ≡ (if k == key x then some x else last_of key k items)
  last_of-set k x i [] h = ground arith
  last_of-set k x zero (y ∷ items) h =
      ground (arith, e.equal_iff (key x) (key y), e.equal_iff k (key x), last_of-none k items)
  last_of-set k x (suc i) (y ∷ items) h = ground (arith, last_of-set k x i items)

  upsert-none :
      (x : A) (items : List A)
      → last_index (key x) items ≡ none
      → upsert x items ≡ items ++ (x ∷ [])
  upsert-none x items g = rw (g, upsert) refl

  upsert-some :
      (x : A) (items : List A) (i : ℕ)
      → last_index (key x) items ≡ some i
      → upsert x items ≡ set items i x
  upsert-some x items i g = rw (g, upsert) refl

  merge_step-none :
      (x : A) (items : List A) (d : Dict K ℕ)
      → lookup (key x) d ≡ none
      → merge_step key x (record { items = items; positions = d })
        ≡ record { items = items ++ (x ∷ []); positions = insert (key x) (length items) d }
  unfolding merge_step
  merge_step-none x items d g = rw (g, merge_step) refl

  merge_step-some :
      (x : A) (items : List A) (d : Dict K ℕ) (i : ℕ)
      → lookup (key x) d ≡ some i
      → merge_step key x (record { items = items; positions = d })
        ≡ record { items = set items i x; positions = d }
  unfolding merge_step
  merge_step-some x items d i g = rw (g, merge_step) refl

  -- one step does what `upsert` does, and keeps the table right
  abbrev Steps : A → List A → Merge A K → Type 0
  Steps x items m = (m.items ≡ upsert x items) × Indexed (upsert x items) m.positions

  merge_step-upsert :
      (x : A) (items : List A) (d : Dict K ℕ)
      → Indexed items d
      → Steps x items (merge_step key x (record { items = items; positions = d }))
  merge_step-upsert x items d v = elim (Option-cases (last_index (key x) items)) [
    | inl g ↦ subst (Steps x items) (sym (merge_step-none x items d (v (key x) ∙ g))) (
      sym (upsert-none x items g),
      λ k.
          lookup-insert k (key x) (length items) d
          ∙ (ap (λ o. if k == key x then some (length items) else o) (v k)
              ∙ (sym (last_index-append k x items)
                  ∙ ap (last_index k) (sym (upsert-none x items g)))),
    )
    | inr (i, g) ↦ subst (Steps x items) (sym (merge_step-some x items d i (v (key x) ∙ g))) (
      sym (upsert-some x items i g),
      λ k.
          v k
          ∙ (sym (last_index-set k x i items g)
              ∙ ap (last_index k) (sym (upsert-some x items i g))),
    )
  ]

  merge_all-upsert :
      (incoming items : List A) (d : Dict K ℕ)
      → Indexed items d
      → (merge_all key incoming (record { items = items; positions = d })).items
        ≡ upsert_all incoming items
  unfolding merge_all
  merge_all-upsert [] items d v = refl
  merge_all-upsert (x ∷ xs) items d v =
      let m = merge_step key x (record { items = items; positions = d }) in
      let (same, v') = merge_step-upsert x items d v in
      merge_all-upsert xs m.items m.positions (subst (λ l. Indexed l m.positions) (sym same) v')
      ∙ ap (upsert_all xs) same

  -- `merge_by`, which keeps a table of positions, does for every incoming row what the description without
  -- a table does: it replaces the last row of the same key, or it puts the row at the end.
  pub merge_rows-upsert :
      (incoming items : List A) → merge_rows key incoming items ≡ upsert_all incoming items
  unfolding merge_rows
  merge_rows-upsert incoming items =
      merge_all-upsert incoming items (positions_from key 0 items [])
        (λ k. ground (arith, lookup-positions_from 0 items [] k, lookup-nil {V = ℕ} k))

  last_of-upsert :
      (x : A) (items : List A) (k : K)
      → last_of key k (upsert x items) ≡ (if k == key x then some x else last_of key k items)
  last_of-upsert x items k = elim (Option-cases (last_index (key x) items)) [
    | inl g ↦ ap (last_of key k) (upsert-none x items g) ∙ last_of-append k x items
    | inr (i, g) ↦ ap (last_of key k) (upsert-some x items i g) ∙ last_of-set k x i items g
  ]

  last_of-upsert_all :
      (incoming items : List A) (k : K)
      → last_of key k (upsert_all incoming items)
        ≡ over (last_of key k incoming) (last_of key k items)
  last_of-upsert_all [] items k = refl
  last_of-upsert_all (x ∷ xs) items k =
      ground (arith, last_of-upsert_all xs (upsert x items) k, last_of-upsert x items k)

  -- After `merge_by` the row that `identity_map` has for a key is the last incoming row of the key, and the
  -- row it had before where no incoming row has the key.
  pub identity_map-merge_rows :
      (incoming items : List A) (k : K)
      → lookup k (identity_map key (merge_rows key incoming items))
        ≡ over (lookup k (identity_map key incoming)) (lookup k (identity_map key items))
  identity_map-merge_rows incoming items k =
      rw
        (
          lookup-identity_map key (merge_rows key incoming items) k,
          lookup-identity_map key incoming k,
          lookup-identity_map key items k,
          merge_rows-upsert incoming items,
        )
        (last_of-upsert_all incoming items k)
