-- ===== src/BusinessId/Store/Fresh.antt =====
-- src/teaql/sql/business_id.py: a number that a call returns is higher than the counter of its key was, and
-- the counter has reached it then.
use teaql_python.Base.{
  ℕ, ◌+◌, ◌≤◌, ◌<◌, ◌≡◌, refl, sym, ◌∙◌, subst, inl, inr, false, some, List, [], arith, All,
  Option-cases, list_eq, nat_eq,
}
use teaql_python.Base.Text.{Text}
use teaql_python.BusinessId.Core.{canonical_key, Plan, Allocation}
use teaql_python.BusinessId.Store.Table.{row, Table}
use teaql_python.BusinessId.Store.Allocator.{
  Call, selecting, inserting, observing, updating, returned, raised, transport_error, Outcome,
  works, fails, fails_late, after_update, after_insert, advance, returns, is_over,
}
use teaql_python.BusinessId.Store.Returns.{returns-again, returns-selected, returns-observed}
use teaql_python.BusinessId.Store.Growth.{text_refl, row-cases, row_current}

module _ {S : Type 0} (table : Table S) where
  -- the counter of a key is at least a number
  abbrev pub Reached : S → Text → ℕ → Type 0
  Reached s k n = (c : ℕ) × (v : ℕ) × (table.find k s ≡ some (row c v)) × (n ≤ c)

  -- a number that the counter of its key had not reached before, and has now
  abbrev pub Fresh : S → S → Text → ℕ → Type 0
  Fresh s t k n = Reached t k n × ((c v : ℕ) → table.find k s ≡ some (row c v) → c < n)

  abbrev pub AllFresh : S → S → List (Plan × Allocation) → Type 0
  AllFresh s t l =
      All (λ (x : Plan × Allocation). Fresh s t (canonical_key x.1.scope) x.1.sequence) l

  none-AllFresh : (s t : S) (l : List (Plan × Allocation)) → l ≡ [] → AllFresh s t l
  none-AllFresh s t l e = subst (AllFresh s t) (sym e) tt

  inserted-AllFresh :
      (plan : Plan) (n : ℕ) (s : S)
      → let (t, changed) = table.insert (canonical_key plan.scope) plan.initial_sequence s in
        AllFresh s t (returns plan (after_insert plan n changed))
  inserted-AllFresh plan n s =
      let k = canonical_key plan.scope in
      elim (Option-cases (table.find k s)) [
        | inl absent ↦
            let (changed, found) = table.insert_new k plan.initial_sequence s absent in
            subst
              (λ o.
                AllFresh s (table.insert k plan.initial_sequence s).0
                  (returns plan (after_insert plan n o)))
              (sym changed)
              (
                (
                  (plan.initial_sequence, 1, found k ∙ rw (text_refl k) refl, omega arith),
                  λ c v h. ground (arith, h, absent),
                ),
                tt,
              )
        | inr (r, present) ↦ rw (table.insert_taken k plan.initial_sequence s r present) tt
      ]

  updated-AllFresh :
      (plan : Plan) (n c v : ℕ) (s : S)
      → let (t, changed) = table.update (canonical_key plan.scope) v c (c + 1) s in
        AllFresh s t (returns plan (after_update plan n c changed))
  updated-AllFresh plan n c v s =
      let k = canonical_key plan.scope in
      elim (row-cases (table.find k s) c v) [
        | inl held ↦
            let (changed, found) = table.update_hit k v c (c + 1) s held in
            subst
              (λ o.
                AllFresh s (table.update k v c (c + 1) s).0
                  (returns plan (after_update plan n c o)))
              (sym changed)
              (
                (
                  (c + 1, v + 1, found k ∙ rw (text_refl k) refl, omega arith),
                  λ c' v' h.
                      let e = row_current (table.find k s) c v c' v' held h in omega (arith, e),
                ),
                tt,
              )
        | inr free ↦
            rw (table.update_miss k v c (c + 1) s free) (none-AllFresh s s _ (returns-again plan n))
      ]

  pub advance-AllFresh :
      (o : Outcome) (plan : Plan) (call : Call) (s : S)
      → is_over call ≡ false
      → let (call', t) = advance table o plan call s in AllFresh s t (returns plan call')
  unfolding advance
  advance-AllFresh works plan (selecting n) s _ =
      none-AllFresh s s _ (returns-selected plan n (table.find (canonical_key plan.scope) s))
  advance-AllFresh fails plan (selecting n) s _ = tt
  advance-AllFresh fails_late plan (selecting n) s _ = tt
  advance-AllFresh works plan (inserting n) s _ = inserted-AllFresh plan n s
  advance-AllFresh fails plan (inserting n) s _ = tt
  advance-AllFresh fails_late plan (inserting n) s _ = tt
  advance-AllFresh works plan (observing n) s _ =
      none-AllFresh s s _ (returns-observed plan n (table.find (canonical_key plan.scope) s))
  advance-AllFresh fails plan (observing n) s _ = tt
  advance-AllFresh fails_late plan (observing n) s _ = tt
  advance-AllFresh works plan (updating n c v) s _ = updated-AllFresh plan n c v s
  advance-AllFresh fails plan (updating n c v) s _ = tt
  advance-AllFresh fails_late plan (updating n c v) s _ = tt
  advance-AllFresh _ plan (returned a) s h = ground (arith, h)
  advance-AllFresh _ plan (raised e) s h = ground (arith, h)
  advance-AllFresh _ plan transport_error s h = ground (arith, h)
