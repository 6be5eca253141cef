-- ===== src/BusinessId/Store/Progress.antt =====
-- src/teaql/sql/business_id.py: a call ends after a bounded number of its own statements.
use teaql_python.Base.{
  ℕ, zero, suc, ◌+◌, ◌-◌, ◌*◌, ◌≤◌, ◌<◌, ◌≡◌, ◌≢◌, refl, ◌∙◌, inl, inr, true, false, Option, none,
  some, List, [], ◌∷◌, arith, leb, eqb, eqb_iff, get_elem?, get_elem?-append, get_elem?-set_self,
  get_elem?-set_ne, if◌then◌else◌, if-keeps, Bool-cases,
}
use teaql_python.BusinessId.Core.{range_exhausted, business_id, canonical_key, Plan}
use teaql_python.BusinessId.Store.Table.{Row, Table}
use teaql_python.BusinessId.Store.Allocator.{
  Call, selecting, inserting, observing, updating, returned, raised, transport_error, Outcome,
  works, fails, fails_late, advance, again, examined, after_select, after_observe, after_insert,
  after_update, numbers, is_over, more_attempts, System, Event, begin, proceed, proceeded, stepped,
  happen, run,
}

-- the statements that a call can still make
abbrev steps_left : Call → ℕ
steps_left (selecting n) = 3 * n + 3
steps_left (inserting n) = 3 * n + 2
steps_left (observing n) = 3 * n + 1
steps_left (updating n _ _) = 3 * n + 1
steps_left (returned _) = 0
steps_left (raised _) = 0
steps_left transport_error = 0

again-steps_left : (n : ℕ) → steps_left (again n) ≤ 3 * n
again-steps_left zero = omega arith
again-steps_left (suc n) = omega arith

examined-steps_left :
    (plan : Plan) (n : ℕ) (o : Option (ℕ × ℕ)) → steps_left (examined plan n o) < 3 * n + 3
examined-steps_left plan n none = omega arith
examined-steps_left plan n (some (c, v)) =
    if-keeps (λ call. steps_left call < 3 * n + 3) (leb plan.maximum_sequence c)
      {x = raised (business_id range_exhausted)} {y = updating n c v} (λ _. omega arith)
      (λ _. omega arith)

selected-steps_left :
    (plan : Plan) (n : ℕ) (o : Option Row) → steps_left (after_select plan n o) < 3 * n + 3
selected-steps_left plan n none = omega arith
selected-steps_left plan n (some r) = examined-steps_left plan n (numbers r)

observed-steps_left : (n : ℕ) (o : Option Row) → steps_left (after_observe n o) < 3 * n + 1
observed-steps_left n none = omega arith
observed-steps_left n (some r) = omega (arith, again-steps_left n)

inserted-steps_left :
    (plan : Plan) (n : ℕ) (changed : Option ℕ)
    → steps_left (after_insert plan n changed) < 3 * n + 2
inserted-steps_left plan n none = omega arith
inserted-steps_left plan n (some zero) = omega arith
inserted-steps_left plan n (some (suc zero)) = omega arith
inserted-steps_left plan n (some (suc (suc m))) = omega arith

updated-steps_left :
    (plan : Plan) (n c changed : ℕ) → steps_left (after_update plan n c changed) < 3 * n + 1
updated-steps_left plan n c zero = omega (arith, again-steps_left n)
updated-steps_left plan n c (suc zero) = omega arith
updated-steps_left plan n c (suc (suc m)) = omega arith

over-steps_left : (call : Call) → steps_left call ≡ 0 → is_over call ≡ true
over-steps_left (selecting n) h = ground (arith, h)
over-steps_left (inserting n) h = ground (arith, h)
over-steps_left (observing n) h = ground (arith, h)
over-steps_left (updating n c v) h = ground (arith, h)
over-steps_left (returned a) h = refl
over-steps_left (raised e) h = refl
over-steps_left transport_error h = refl

steps_left-over : (call : Call) → is_over call ≡ true → steps_left call ≡ 0
steps_left-over (selecting n) h = ground (arith, h)
steps_left-over (inserting n) h = ground (arith, h)
steps_left-over (observing n) h = ground (arith, h)
steps_left-over (updating n c v) h = ground (arith, h)
steps_left-over (returned a) h = refl
steps_left-over (raised e) h = refl
steps_left-over transport_error h = refl

-- the events that are statements of a call
abbrev pub is_own : ℕ → Event → ℕ
is_own i (begin plan) = 0
is_own i (proceed j o) = if eqb j i then 1 else 0

abbrev pub statements : ℕ → List Event → ℕ
statements i [] = 0
statements i (e ∷ es) = is_own i e + statements i es

module _ {S : Type 0} (table : Table S) where
  advance-steps_left :
      (o : Outcome) (plan : Plan) (call : Call) (s : S)
      → is_over call ≡ false
      → steps_left (advance table o plan call s).0 < steps_left call
  unfolding advance
  advance-steps_left works plan (selecting n) s _ =
      selected-steps_left plan n (table.find (canonical_key plan.scope) s)
  advance-steps_left fails plan (selecting n) s _ = omega arith
  advance-steps_left fails_late plan (selecting n) s _ = omega arith
  advance-steps_left works plan (inserting n) s _ =
      inserted-steps_left plan n (table.insert (canonical_key plan.scope) plan.initial_sequence s).1
  advance-steps_left fails plan (inserting n) s _ = omega arith
  advance-steps_left fails_late plan (inserting n) s _ = omega arith
  advance-steps_left works plan (observing n) s _ =
      observed-steps_left n (table.find (canonical_key plan.scope) s)
  advance-steps_left fails plan (observing n) s _ = omega arith
  advance-steps_left fails_late plan (observing n) s _ = omega arith
  advance-steps_left works plan (updating n c v) s _ =
      updated-steps_left plan n c (table.update (canonical_key plan.scope) v c (c + 1) s).1
  advance-steps_left fails plan (updating n c v) s _ = omega arith
  advance-steps_left fails_late plan (updating n c v) s _ = omega arith
  advance-steps_left _ plan (returned a) s going = ground (arith, going)
  advance-steps_left _ plan (raised e) s going = ground (arith, going)
  advance-steps_left _ plan transport_error s going = ground (arith, going)

  -- the call `i` is there, with at most `m` statements left
  abbrev Left : ℕ → Plan → ℕ → System S → Type 0
  Left i plan m y =
      (call : Call) × (get_elem? y.calls i ≡ some (plan, call)) × (steps_left call ≤ m)

  own-Left :
      (i : ℕ) (o : Outcome) (plan : Plan) (call : Call) (y : System S)
      → get_elem? y.calls i ≡ some (plan, call)
      → Left i plan (steps_left call - 1) (proceeded table i o plan call y)
  own-Left i o plan call y h =
      if-keeps (Left i plan (steps_left call - 1)) (is_over call)
        (λ over. (call, h, omega (arith, steps_left-over call over)))
        (λ going. (
          (advance table o plan call y.store).0,
          get_elem?-set_self y.calls i (plan, (advance table o plan call y.store).0) (plan, call) h,
          omega (arith, advance-steps_left o plan call y.store going),
        ))

  other-Left :
      (i j m : ℕ) (o : Outcome) (plan : Plan) (y : System S) (x : Option (Plan × Call))
      → j ≢ i
      → Left i plan m y
      → Left i plan m (stepped table j o y x)
  other-Left i j m o plan y none differ h = h
  other-Left i j m o plan y (some (plan', call')) differ (call, h, le) =
      if-keeps (Left i plan m) (is_over call') (λ _. (call, h, le))
        (λ going. (
          call,
          get_elem?-set_ne y.calls j i (plan', (advance table o plan' call' y.store).0) differ ∙ h,
          le,
        ))

  fewer-Left : (i m n : ℕ) (plan : Plan) (y : System S) → m ≤ n → Left i plan m y → Left i plan n y
  fewer-Left i m n plan y more (call, h, le) = (call, h, omega (arith, le, more))

  happen-Left :
      (e : Event) (i m : ℕ) (plan : Plan) (y : System S)
      → Left i plan m y
      → Left i plan (m - is_own i e) (happen table y e)
  unfolding happen
  happen-Left (begin p) i m plan y (call, h, le) = (
    call,
    get_elem?-append y.calls ((p, selecting more_attempts) ∷ []) i (plan, call) h,
    omega (arith, le),
  )
  happen-Left (proceed j o) i m plan y (call, h, le) = elim (Bool-cases (eqb j i)) [
    | inl same ↦
        let e : j ≡ i = (eqb_iff j i).0 same in
        rw (same, e, h)
          (fewer-Left i (steps_left call - 1) (m - 1) plan (proceeded table i o plan call y)
            (omega (arith, le)) (own-Left i o plan call y h))
    | inr other ↦ rw other (
        fewer-Left i m (m - 0) plan (stepped table j o y (get_elem? y.calls j)) (omega arith) (
          other-Left i j m o plan y (get_elem? y.calls j)
            (λ e. ground (arith, other, eqb_iff j i, e)) (call, h, le)))
  ]

  run-Left :
      (es : List Event) (i : ℕ) (plan : Plan) (m : ℕ) (y : System S)
      → Left i plan m y
      → Left i plan (m - statements i es) (run table es y)
  unfolding run
  run-Left [] i plan m y h = fewer-Left i m (m - 0) plan y (omega arith) h
  run-Left (e ∷ es) i plan m y h =
      fewer-Left i (m - is_own i e - statements i es) (m - statements i (e ∷ es)) plan
        (run table es (happen table y e)) (omega arith)
        (run-Left es i plan (m - is_own i e) (happen table y e) (happen-Left e i m plan y h))

  -- Whatever the other calls do and whichever statements fail, a call of `allocate` has returned or raised
  -- after at most 300 statements of its own: three for each of its hundred attempts.
  pub run-IsOver :
      (es : List Event) (i : ℕ) (plan : Plan) (y : System S)
      → get_elem? y.calls i ≡ some (plan, selecting more_attempts)
      → 300 ≤ statements i es
      → (call : Call) × (get_elem? (run table es y).calls i ≡ some (plan, call))
        × (is_over call ≡ true)
  run-IsOver es i plan y h enough =
      let (call, here, le) = run-Left es i plan 300 y (selecting more_attempts, h, omega arith) in
      (call, here, over-steps_left call (omega (arith, le, enough)))
