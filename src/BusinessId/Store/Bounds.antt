-- ===== src/BusinessId/Store/Bounds.antt =====
-- src/teaql/sql/business_id.py: what is returned is within its plan's range.
use teaql_python.Base.{
  ℕ, zero, suc, ◌+◌, ◌≤◌, ◌<◌, ◌≡◌, refl, false, Option, none, some, List, [], ◌∷◌, arith, leb,
  get_elem?, if-keeps, All, All-append, All-get_elem?, All-set,
}
use teaql_python.BusinessId.Core.{range_exhausted, business_id, canonical_key, Plan, Allocation}
use teaql_python.BusinessId.Store.Table.{Row, Table}
use teaql_python.BusinessId.Store.Allocator.{
  Call, selecting, inserting, observing, updating, returned, raised, transport_error, Outcome,
  works, fails, fails_late, advance, returns, is_over, again, examined, after_select, after_observe,
  after_insert, after_update, numbers, more_attempts, System, Event, begin, proceed, proceeded,
  stepped, happen, run,
}

-- `check_plan`
abbrev pub InRange : Plan → Type 0
InRange plan = plan.initial_sequence ≤ plan.maximum_sequence

-- a call that is about to write has room for the next number
abbrev pub CallIsBounded : Plan → Call → Type 0
CallIsBounded plan (updating n current version) = current < plan.maximum_sequence
CallIsBounded plan _ = Unit

abbrev pub IsBounded : Plan × Allocation → Type 0
IsBounded x = (x.1.scope ≡ x.0.scope) × (x.1.sequence ≤ x.0.maximum_sequence)

abbrev Bounded : Plan → Call → Type 0
Bounded plan call = CallIsBounded plan call × All IsBounded (returns plan call)

again-Bounded : (plan : Plan) (n : ℕ) → Bounded plan (again n)
again-Bounded plan zero = (tt, tt)
again-Bounded plan (suc n) = (tt, tt)

examined-Bounded : (plan : Plan) (n : ℕ) (o : Option (ℕ × ℕ)) → Bounded plan (examined plan n o)
examined-Bounded plan n none = (tt, tt)
examined-Bounded plan n (some (c, v)) =
    if-keeps (Bounded plan) (leb plan.maximum_sequence c) {x = raised (business_id range_exhausted)}
      {y = updating n c v} (λ _. (tt, tt)) (λ room. (ground (arith, room), tt))

selected-Bounded : (plan : Plan) (n : ℕ) (o : Option Row) → Bounded plan (after_select plan n o)
selected-Bounded plan n none = (tt, tt)
selected-Bounded plan n (some r) = examined-Bounded plan n (numbers r)

observed-Bounded : (plan : Plan) (n : ℕ) (o : Option Row) → Bounded plan (after_observe n o)
observed-Bounded plan n none = (tt, tt)
observed-Bounded plan n (some r) = again-Bounded plan n

inserted-Bounded :
    (plan : Plan) (n : ℕ) (changed : Option ℕ)
    → InRange plan
    → Bounded plan (after_insert plan n changed)
inserted-Bounded plan n none h = (tt, tt)
inserted-Bounded plan n (some zero) h = (tt, tt)
inserted-Bounded plan n (some (suc zero)) h = (tt, ((refl, h), tt))
inserted-Bounded plan n (some (suc (suc m))) h = (tt, tt)

updated-Bounded :
    (plan : Plan) (n c changed : ℕ)
    → c < plan.maximum_sequence
    → Bounded plan (after_update plan n c changed)
updated-Bounded plan n c zero h = again-Bounded plan n
updated-Bounded plan n c (suc zero) h = (tt, ((refl, omega (arith, h)), tt))
updated-Bounded plan n c (suc (suc m)) h = (tt, tt)

abbrev pub EventInRange : Event → Type 0
EventInRange (begin plan) = InRange plan
EventInRange (proceed i o) = Unit

abbrev pub EntryIsBounded : Plan × Call → Type 0
EntryIsBounded x = InRange x.0 × CallIsBounded x.0 x.1

module _ {S : Type 0} (table : Table S) where
  advance-Bounded :
      (o : Outcome) (plan : Plan) (call : Call) (s : S)
      → InRange plan
      → CallIsBounded plan call
      → is_over call ≡ false
      → Bounded plan (advance table o plan call s).0
  unfolding advance
  advance-Bounded works plan (selecting n) s h b _ =
      selected-Bounded plan n (table.find (canonical_key plan.scope) s)
  advance-Bounded fails plan (selecting n) s h b _ = (tt, tt)
  advance-Bounded fails_late plan (selecting n) s h b _ = (tt, tt)
  advance-Bounded works plan (inserting n) s h b _ =
      inserted-Bounded plan n (table.insert (canonical_key plan.scope) plan.initial_sequence s).1 h
  advance-Bounded fails plan (inserting n) s h b _ = (tt, tt)
  advance-Bounded fails_late plan (inserting n) s h b _ = (tt, tt)
  advance-Bounded works plan (observing n) s h b _ =
      observed-Bounded plan n (table.find (canonical_key plan.scope) s)
  advance-Bounded fails plan (observing n) s h b _ = (tt, tt)
  advance-Bounded fails_late plan (observing n) s h b _ = (tt, tt)
  advance-Bounded works plan (updating n c v) s h b _ =
      updated-Bounded plan n c (table.update (canonical_key plan.scope) v c (c + 1) s).1 b
  advance-Bounded fails plan (updating n c v) s h b _ = (tt, tt)
  advance-Bounded fails_late plan (updating n c v) s h b _ = (tt, tt)
  advance-Bounded _ plan (returned a) s h b going = ground (arith, going)
  advance-Bounded _ plan (raised e) s h b going = ground (arith, going)
  advance-Bounded _ plan transport_error s h b going = ground (arith, going)

  abbrev pub SystemIsBounded : System S → Type 0
  SystemIsBounded y = All EntryIsBounded y.calls × All IsBounded y.issued

  proceeded-Bounded :
      (i : ℕ) (o : Outcome) (plan : Plan) (call : Call) (y : System S)
      → EntryIsBounded (plan, call)
      → SystemIsBounded y
      → SystemIsBounded (proceeded table i o plan call y)
  proceeded-Bounded i o plan call y (r, b) (h, g) =
      if-keeps SystemIsBounded (is_over call) (λ _. (h, g))
        (λ going.
          let (b', new) = advance-Bounded o plan call y.store r b going in
          (
            All-set EntryIsBounded y.calls i (plan, (advance table o plan call y.store).0) h
                (r, b'),
            All-append IsBounded y.issued (returns plan (advance table o plan call y.store).0) g
                new,
          ))

  stepped-Bounded :
      (i : ℕ) (o : Outcome) (y : System S) (x : Option (Plan × Call))
      → ((e : Plan × Call) → x ≡ some e → EntryIsBounded e)
      → SystemIsBounded y
      → SystemIsBounded (stepped table i o y x)
  stepped-Bounded i o y none f h = h
  stepped-Bounded i o y (some (plan, call)) f h =
      proceeded-Bounded i o plan call y (f (plan, call) refl) h

  pub happen-Bounded :
      (y : System S) (e : Event)
      → EventInRange e
      → SystemIsBounded y
      → SystemIsBounded (happen table y e)
  unfolding happen
  happen-Bounded y (begin plan) r (h, g) =
      (All-append EntryIsBounded y.calls ((plan, selecting more_attempts) ∷ []) h ((r, tt), tt), g)
  happen-Bounded y (proceed i o) r (h, g) =
      stepped-Bounded i o y (get_elem? y.calls i) (λ e. All-get_elem? EntryIsBounded y.calls i e h)
        (h, g)

  run-Bounded :
      (es : List Event) (y : System S)
      → All EventInRange es
      → SystemIsBounded y
      → SystemIsBounded (run table es y)
  unfolding run
  run-Bounded [] y r h = h
  run-Bounded (e ∷ es) y (r, rs) h = run-Bounded es (happen table y e) rs (happen-Bounded y e r h)

  -- If every plan that a call is begun with starts within its range, each number that is returned is for the
  -- scope of its plan and at most the plan's maximum, in any order of the statements and with any failures.
  pub run-IsBounded :
      (es : List Event) (s : S)
      → All EventInRange es
      → All IsBounded (run table es (record { store = s; calls = []; issued = [] })).issued
  run-IsBounded es s r =
      (run-Bounded es (record { store = s; calls = []; issued = [] }) r (tt, tt)).1
