-- ===== src/BusinessId/Store/Solo.antt =====
-- src/teaql/sql/business_id.py: a call between whose statements no other call writes.
use teaql_python.Base.{
  ℕ, ◌+◌, ◌≡◌, refl, ◌∙◌, ap, inl, inr, Option, none, some, arith, leb, if◌then◌else◌, list_eq,
  nat_eq, Bool-cases, Option-cases,
}
use teaql_python.Base.Integers.{ℤ, pos, negsuc}
use teaql_python.BusinessId.Core.{range_exhausted, business_id, runtime_error, canonical_key, Plan}
use teaql_python.BusinessId.Store.Table.{Row, row, Table}
use teaql_python.BusinessId.Store.Allocator.{
  Call, selecting, raised, works, advance, allocated, examined, numbers,
}
use teaql_python.BusinessId.Store.Growth.{text_refl}

-- What one call makes of the row of its key: its end, and the row that it leaves
abbrev served : Plan → Row → Option (ℕ × ℕ) → Call × Option Row
served plan r none = (raised runtime_error, some r)
served plan r (some (c, v)) =
    if leb plan.maximum_sequence c
    then (raised (business_id range_exhausted), some r)
    else (allocated plan (c + 1), some (row (c + 1) (v + 1)))

abbrev pub serve : Plan → Option Row → Call × Option Row
serve plan none = (allocated plan plan.initial_sequence, some (row plan.initial_sequence 1))
serve plan (some r) = served plan r (numbers r)

-- a row is what its numbers are
integers-row :
    (a b : ℤ) (c v : ℕ)
    → numbers (record { current_value = a; version = b }) ≡ some (c, v)
    → record { current_value = a; version = b } ≡ row c v
integers-row (negsuc n) b c v h = cc
integers-row (pos d) (negsuc n) c v h = cc
integers-row (pos d) (pos w) c v h = ground (arith, h)

module _ {S : Type 0} (table : Table S) where
  -- two statements in a row
  abbrev pub twice : Plan → Call → S → Call × S
  twice plan call s =
      let (call', t) = advance table works plan call s in advance table works plan call' t

  -- a call's end and the row of its key
  abbrev pub seen : Plan → Call × S → Call × Option Row
  seen plan (call, t) = (call, table.find (canonical_key plan.scope) t)

  -- what the statement after the SELECT makes of the row
  examined-serve :
      (plan : Plan) (n : ℕ) (s : S) (r : Row) (o : Option (ℕ × ℕ))
      → numbers r ≡ o
      → table.find (canonical_key plan.scope) s ≡ some r
      → seen plan (advance table works plan (examined plan n o) s) ≡ served plan r o
  unfolding advance
  examined-serve plan n s r none e held = ap (λ x. (raised runtime_error, x)) held
  examined-serve plan n s r (some (c, v)) e held = elim (Bool-cases (leb plan.maximum_sequence c)) [
    | inl full ↦ rw full (ap (λ x. (raised (business_id range_exhausted), x)) held)
    | inr room ↦
        let here : table.find (canonical_key plan.scope) s ≡ some (row c v) =
          held ∙ ap some (integers-row r.current_value r.version c v e) in
        let (changed, found) = table.update_hit (canonical_key plan.scope) v c (c + 1) s here in
        rw (room, changed, found (canonical_key plan.scope), text_refl (canonical_key plan.scope))
          refl
  ]

  -- If no other call writes between them, the two statements of one attempt settle a call. With no row for its
  -- key it returns the plan's first number and leaves it in the table; with a row below the maximum it returns
  -- the next number and leaves that, with the next version; with a row at the maximum or above, or with one that
  -- is not valid, it raises and leaves the row as it was.
  pub twice-serve :
      (plan : Plan) (n : ℕ) (s : S)
      → seen plan (twice plan (selecting n) s)
        ≡ serve plan (table.find (canonical_key plan.scope) s)
  unfolding advance
  twice-serve plan n s = elim (Option-cases (table.find (canonical_key plan.scope) s)) [
    | inl absent ↦
        let (changed, found) =
          table.insert_new (canonical_key plan.scope) plan.initial_sequence s absent in
        rw absent (
          rw (changed, found (canonical_key plan.scope), text_refl (canonical_key plan.scope)) refl)
    | inr (r, held) ↦ rw held (examined-serve plan n s r (numbers r) refl held)
  ]
