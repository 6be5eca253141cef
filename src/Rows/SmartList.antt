-- ===== src/Rows/SmartList.antt =====
-- src/teaql/core/list.py: `SmartList` and the functions on it. Rows are values, so the deep copies of the
-- metadata are the metadata; facets are of a type `F`, aggregations and summary are dictionaries of values
-- `W`. A count that is no natural number is not a value of the model, so the constructor does not raise.
use teaql_python.Base.{
  ℕ, suc, Bool, true, false, Option, none, some, List, [], ◌∷◌, ◌++◌, map, length, get_elem?, set,
  select, Eq, list_eq, nat_eq,
}
use teaql_python.Base.Dict.{Dict, lookup, insert, erase, get_or}
use teaql_python.Base.Text.{Text}

pub record SmartList (F W A : Type 0) : Type 0 where
  pub items : List A
  pub facets : Dict Text F
  pub total_count : Option ℕ
  pub aggregations : Dict Text W
  pub summary : Dict Text W
  pub is_loaded : Bool

-- `enumerate(self)` as the positions of the keys, from a first index on
unfoldable pub positions_from :
    {A K : Type 0} ⦃e : Eq K⦄ → (A → K) → ℕ → List A → Dict K ℕ → Dict K ℕ
positions_from key n [] d = d
positions_from key n (x ∷ xs) d = positions_from key (suc n) xs (insert (key x) n d)

-- the state of the loop of `merge_by`
pub record Merge (A K : Type 0) : Type 0 where
  pub items : List A
  pub positions : Dict K ℕ

unfoldable pub merge_step : {A K : Type 0} ⦃e : Eq K⦄ → (A → K) → A → Merge A K → Merge A K
merge_step key x m = elim (lookup (key x) m.positions) [
  | some i ↦ record { items = set m.items i x; positions = m.positions }
  | none ↦ record {
    items = m.items ++ (x ∷ []);
    positions = insert (key x) (length m.items) m.positions;
  }
]

unfoldable pub merge_all : {A K : Type 0} ⦃e : Eq K⦄ → (A → K) → List A → Merge A K → Merge A K
merge_all key [] m = m
merge_all key (x ∷ xs) m = merge_all key xs (merge_step key x m)

-- `merge_by`, on the rows
unfoldable pub merge_rows : {A K : Type 0} ⦃e : Eq K⦄ → (A → K) → List A → List A → List A
merge_rows key incoming items =
    (merge_all key incoming
      (record { items = items; positions = positions_from key 0 items [] })).items

-- `identity_map`, a comprehension in which a later row of a key replaces an earlier one
unfoldable pub identity_from : {A K : Type 0} ⦃e : Eq K⦄ → (A → K) → List A → Dict K A → Dict K A
identity_from key [] d = d
identity_from key (x ∷ xs) d = identity_from key xs (insert (key x) x d)

abbrev pub identity_map : {A K : Type 0} ⦃e : Eq K⦄ → (A → K) → List A → Dict K A
identity_map key items = identity_from key items []

-- `group_by`
unfoldable pub group_from :
    {A K : Type 0} ⦃e : Eq K⦄ → (A → K) → List A → Dict K (List A) → Dict K (List A)
group_from key [] d = d
group_from key (x ∷ xs) d = group_from key xs (insert (key x) (get_or (key x) [] d ++ (x ∷ [])) d)

abbrev pub group_by : {A K : Type 0} ⦃e : Eq K⦄ → (A → K) → List A → Dict K (List A)
group_by key items = group_from key items []

abbrev pub flat : {A B : Type 0} → (A → List B) → List A → List B
flat f [] = []
flat f (x ∷ xs) = f x ++ flat f xs

module _ {F W A : Type 0} where
  -- `SmartList(data)`
  abbrev pub new_list : List A → SmartList F W A
  new_list items = record {
    items = items;
    facets = [];
    total_count = none;
    aggregations = [];
    summary = [];
    is_loaded = true;
  }

  -- `empty`
  abbrev pub empty : SmartList F W A
  empty = record (new_list []) { is_loaded = false }

  -- `total_count_or_len`
  unfoldable pub total_count_or_len : SmartList F W A → ℕ
  total_count_or_len l = elim l.total_count [ none ↦ length l.items | some n ↦ n ]

  -- `remove_facet`, and what it returns
  unfoldable pub remove_facet : Text → SmartList F W A → Option F × SmartList F W A
  remove_facet name l = (lookup name l.facets, record l { facets = erase name l.facets })

  -- `take_facets`
  unfoldable pub take_facets : SmartList F W A → Dict Text F × SmartList F W A
  take_facets l = (l.facets, record l { facets = [] })

  -- `map`, which keeps the metadata
  unfoldable pub map_rows : {B : Type 0} → (A → B) → SmartList F W A → SmartList F W B
  map_rows f l = record {
    items = map f l.items;
    facets = l.facets;
    total_count = l.total_count;
    aggregations = l.aggregations;
    summary = l.summary;
    is_loaded = l.is_loaded;
  }

  -- `filter`, which drops it
  unfoldable pub filter_rows : (A → Bool) → SmartList F W A → SmartList F W A
  filter_rows f l = record (new_list (select f l.items)) { is_loaded = l.is_loaded }

  -- `merge_by` and `retain`, in place
  unfoldable pub merge_by :
      {K : Type 0} ⦃e : Eq K⦄ → (A → K) → List A → SmartList F W A → SmartList F W A
  merge_by key incoming l = record l { items = merge_rows key incoming l.items }

  unfoldable pub retain : (A → Bool) → SmartList F W A → SmartList F W A
  retain f l = record l { items = select f l.items }

  -- `get`
  unfoldable pub get_row : ℕ → SmartList F W A → Option A
  get_row index l = get_elem? l.items index

-- `flat_map`
unfoldable pub flat_map_rows : {F W A B : Type 0} → (A → List B) → SmartList F W A → SmartList F W B
flat_map_rows f l = record (new_list (flat f l.items)) { is_loaded = l.is_loaded }
