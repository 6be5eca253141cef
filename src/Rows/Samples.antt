-- ===== src/Rows/Samples.antt =====
-- src/teaql/core/list.py: three rows with a key and a content, merged and grouped.
use teaql_python.Base.{ℕ, ◌≡◌, refl, some, List, [], ◌∷◌, nat_eq}
use teaql_python.Base.Dict.{lookup, insert, over}
use teaql_python.Rows.SmartList.{
  positions_from, merge_step, merge_all, merge_rows, identity_map, group_by,
}
use teaql_python.Rows.Grouping.{lookup-group_by}
use teaql_python.Rows.Merging.{upsert_all, merge_rows-upsert, identity_map-merge_rows}

abbrev key_of : ℕ × ℕ → ℕ
key_of row = row.0

abbrev loaded : List (ℕ × ℕ)
loaded = (1, 10) ∷ (2, 20) ∷ (1, 11) ∷ []

abbrev incoming : List (ℕ × ℕ)
incoming = (3, 30) ∷ (1, 12) ∷ (3, 31) ∷ []

merged : merge_rows key_of incoming loaded ≡ (1, 10) ∷ (2, 20) ∷ (1, 12) ∷ (3, 31) ∷ []
unfolding merge_rows merge_all merge_step positions_from lookup insert
merged = refl

merge_rows-upsert_example : merge_rows key_of incoming loaded ≡ upsert_all key_of incoming loaded
merge_rows-upsert_example = merge_rows-upsert key_of incoming loaded

identity_map-merge_rows_example :
    lookup 1 (identity_map key_of (merge_rows key_of incoming loaded))
    ≡ over (lookup 1 (identity_map key_of incoming)) (lookup 1 (identity_map key_of loaded))
identity_map-merge_rows_example = identity_map-merge_rows key_of incoming loaded 1

lookup-group_by_example : lookup 1 (group_by key_of loaded) ≡ some ((1, 10) ∷ (1, 11) ∷ [])
lookup-group_by_example = lookup-group_by key_of loaded 1
