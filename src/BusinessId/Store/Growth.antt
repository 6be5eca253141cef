-- ===== src/BusinessId/Store/Growth.antt =====
-- src/teaql/sql/business_id.py: no statement of the allocator lowers a counter.
use teaql_python.Base.{
  ℕ, ◌+◌, ◌≤◌, ◌≡◌, ◌≢◌, refl, sym, ◌∙◌, ap, ◌⊎◌, inl, inr, ◌&&◌, true, Option, none, some, arith,
  eqb, eqb_iff, Bool-cases, Option-cases, ◌==◌, list_eq, nat_eq,
}
use teaql_python.Base.Integers.{ℤ, pos, negsuc}
use teaql_python.Base.Text.{Text}
use teaql_python.BusinessId.Core.{canonical_key, Plan}
use teaql_python.BusinessId.Store.Table.{Row, row, Table}
use teaql_python.BusinessId.Store.Allocator.{
  Call, selecting, inserting, observing, updating, returned, raised, transport_error, Outcome,
  works, fails, fails_late, advance,
}

pub text_refl : (k : Text) → (k == k) ≡ true
text_refl k = ((list_eq {A = ℕ}).equal_iff k k).1 refl

integers_row : ℤ → ℤ → Option Row
integers_row a b = some (record { current_value = a; version = b })

integers_row-cases :
    (a b : ℤ) (c v : ℕ) → (integers_row a b ≡ some (row c v)) ⊎ (integers_row a b ≢ some (row c v))
unfolding integers_row
integers_row-cases (negsuc n) b c v = inr (λ (h : integers_row (negsuc n) b ≡ some (row c v)). cc)
integers_row-cases (pos a) (negsuc n) c v =
    inr (λ (h : integers_row (pos a) (negsuc n) ≡ some (row c v)). cc)
integers_row-cases (pos a) (pos b) c v = elim (Bool-cases (eqb a c && eqb b v)) [
  | inl same ↦ inl (ground (arith, same, eqb_iff a c, eqb_iff b v))
  | inr other ↦
      inr (λ (h : some (row a b) ≡ some (row c v)).
        ground (arith, h, other, eqb_iff a c, eqb_iff b v))
]

pub row-cases : (o : Option Row) (c v : ℕ) → (o ≡ some (row c v)) ⊎ (o ≢ some (row c v))
unfolding integers_row
row-cases none c v = inr (λ (h : none ≡ some (row c v)). cc)
row-cases (some r) c v = integers_row-cases r.current_value r.version c v

-- `current_value` of a row, if it is natural
current_of : Option Row → ℕ
current_of none = 0
current_of (some r) = elim r.current_value [ pos n ↦ n | negsuc n ↦ 0 ]

pub row_current :
    (o : Option Row) (c v c' v' : ℕ) → o ≡ some (row c v) → o ≡ some (row c' v') → c ≡ c'
unfolding current_of
row_current o c v c' v' h g = ap current_of (sym h ∙ g)

pub text_same : (j k : Text) → (j == k) ≡ true → j ≡ k
text_same j k h = ((list_eq {A = ℕ}).equal_iff j k).0 h

module _ {S : Type 0} (table : Table S) where
  -- every row stays, with no lower value
  abbrev pub Grows : S → S → Type 0
  Grows s t =
      (j : Text) (c v : ℕ)
      → table.find j s ≡ some (row c v)
      → (c' : ℕ) × (v' : ℕ) × (table.find j t ≡ some (row c' v')) × (c ≤ c')

  pub Grows-refl : (s : S) → Grows s s
  Grows-refl s j c v h = (c, v, h, omega arith)

  insert-Grows : (k : Text) (n : ℕ) (s : S) → Grows s (table.insert k n s).0
  insert-Grows k n s = elim (Option-cases (table.find k s)) [
    | inl absent ↦ λ j c v h. elim (Bool-cases (j == k)) [
      | inl same ↦ ground (arith, h, absent, text_same j k same)
      | inr other ↦ (c, v, (table.insert_new k n s absent).1 j ∙ rw other h, omega arith)
    ]
    | inr (r, present) ↦ rw (table.insert_taken k n s r present) (Grows-refl s)
  ]

  update-Grows : (k : Text) (v c : ℕ) (s : S) → Grows s (table.update k v c (c + 1) s).0
  update-Grows k v c s = elim (row-cases (table.find k s) c v) [
    | inl held ↦ λ j c' v' h. elim (Bool-cases (j == k)) [
      | inl same ↦ (
        c + 1,
        v + 1,
        (table.update_hit k v c (c + 1) s held).1 j ∙ rw same refl,
        let e =
              row_current (table.find k s) c v c' v' held
                (ap (λ i. table.find i s) (sym (text_same j k same)) ∙ h) in
            omega (arith, e),
      )
      | inr other ↦ (c', v', (table.update_hit k v c (c + 1) s held).1 j ∙ rw other h, omega arith)
    ]
    | inr free ↦ rw (table.update_miss k v c (c + 1) s free) (Grows-refl s)
  ]

  pub advance-Grows :
      (o : Outcome) (plan : Plan) (call : Call) (s : S) → Grows s (advance table o plan call s).1
  unfolding advance
  advance-Grows works plan (selecting n) s = Grows-refl s
  advance-Grows fails plan (selecting n) s = Grows-refl s
  advance-Grows fails_late plan (selecting n) s = Grows-refl s
  advance-Grows works plan (inserting n) s =
      insert-Grows (canonical_key plan.scope) plan.initial_sequence s
  advance-Grows fails plan (inserting n) s = Grows-refl s
  advance-Grows fails_late plan (inserting n) s =
      insert-Grows (canonical_key plan.scope) plan.initial_sequence s
  advance-Grows works plan (observing n) s = Grows-refl s
  advance-Grows fails plan (observing n) s = Grows-refl s
  advance-Grows fails_late plan (observing n) s = Grows-refl s
  advance-Grows works plan (updating n c v) s = update-Grows (canonical_key plan.scope) v c s
  advance-Grows fails plan (updating n c v) s = Grows-refl s
  advance-Grows fails_late plan (updating n c v) s = update-Grows (canonical_key plan.scope) v c s
  advance-Grows works plan (returned a) s = Grows-refl s
  advance-Grows fails plan (returned a) s = Grows-refl s
  advance-Grows fails_late plan (returned a) s = Grows-refl s
  advance-Grows works plan (raised e) s = Grows-refl s
  advance-Grows fails plan (raised e) s = Grows-refl s
  advance-Grows fails_late plan (raised e) s = Grows-refl s
  advance-Grows works plan transport_error s = Grows-refl s
  advance-Grows fails plan transport_error s = Grows-refl s
  advance-Grows fails_late plan transport_error s = Grows-refl s
