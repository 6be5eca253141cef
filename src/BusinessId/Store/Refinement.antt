-- ===== src/BusinessId/Store/Refinement.antt =====
-- src/teaql/sql/business_id.py: the allocator of the database gives the numbers of the one in memory.
use teaql_python.Base.{
  ℕ, ◌+◌, ◌<◌, ◌≡◌, refl, sym, ◌∙◌, ap, subst, inl, inr, Bool, true, false, Option, none, some,
  List, [], ◌∷◌, ◌++◌, arith, get_elem?, if-keeps, map, All, All-get_elem?, Option-cases,
}
use teaql_python.Base.Dict.{get_or, lookup, lookup-nil}
use teaql_python.Base.Text.{Text}
use teaql_python.BusinessId.Core.{canonical_key, Plan, Allocation}
use teaql_python.BusinessId.Profile.{Counters, scope_eq}
use teaql_python.BusinessId.Allocations.{issue}
use teaql_python.BusinessId.Store.Table.{Table}
use teaql_python.BusinessId.Store.Allocator.{
  Call, selecting, inserting, observing, updating, returned, raised, transport_error, Outcome,
  works, fails, fails_late, advance, returns, is_over, after_insert, after_update, System, Event,
  begin, proceed, proceeded, stepped, happen, run,
}
use teaql_python.BusinessId.Store.Growth.{row-cases}
use teaql_python.BusinessId.Store.Returns.{returns-again, returns-selected, returns-observed}
use teaql_python.BusinessId.Store.Bounds.{
  InRange, CallIsBounded, EntryIsBounded, SystemIsBounded, EventInRange, happen-Bounded,
}
use teaql_python.BusinessId.Store.Counted.{
  after, issue-append, after-append, counter_of, Agree, allocate-written,
}

-- the plans of calls that returned, and what they returned
abbrev pub plans_of : List (Plan × Allocation) → List Plan
plans_of l = map (λ (x : Plan × Allocation). x.0) l

abbrev pub allocations_of : List (Plan × Allocation) → List Allocation
allocations_of l = map (λ (x : Plan × Allocation). x.1) l

map-append : {A B : Type 0} (f : A → B) (xs ys : List A) → map f (xs ++ ys) ≡ map f xs ++ map f ys
map-append f [] ys = refl
map-append f (x ∷ xs) ys = ap (λ l. f x ∷ l) (map-append f xs ys)

-- a statement that takes effect reports it
abbrev is_late : Outcome → Bool
is_late fails_late = true
is_late _ = false

abbrev pub IsPunctual : Event → Type 0
IsPunctual (begin plan) = Unit
IsPunctual (proceed i o) = is_late o ≡ false

module _ {S : Type 0} (table : Table S) where
  -- what a step returns is what memory gives next, and the table keeps to memory's counters
  abbrev Follows : S → Counters → List (Plan × Allocation) → Type 0
  Follows t counters l =
      (allocations_of l ≡ issue (plans_of l) counters) × Agree table t (after (plans_of l) counters)

  idle-Follows :
      (s : S) (counters : Counters) (l : List (Plan × Allocation))
      → l ≡ []
      → Agree table s counters
      → Follows s counters l
  unfolding after issue
  idle-Follows s counters l e agree = subst (Follows s counters) (sym e) (refl, agree)

  inserted-Follows :
      (plan : Plan) (n : ℕ) (s : S) (counters : Counters)
      → InRange plan
      → Agree table s counters
      → let (t, changed) = table.insert (canonical_key plan.scope) plan.initial_sequence s in
        Follows t counters (returns plan (after_insert plan n changed))
  inserted-Follows plan n s counters range agree =
      let k = canonical_key plan.scope in
      elim (Option-cases (table.find k s)) [
        | inl absent ↦
            let (changed, found) = table.insert_new k plan.initial_sequence s absent in
            let unknown : lookup plan.scope counters ≡ none =
              sym (agree plan.scope) ∙ ap counter_of absent in
            let (given, agree') =
              allocate-written table plan plan.initial_sequence 1 s
                (table.insert k plan.initial_sequence s).0 counters (rw (unknown, get_or) refl)
                range found agree in
            subst
              (λ o.
                Follows (table.insert k plan.initial_sequence s).0 counters
                  (returns plan (after_insert plan n o)))
              (sym changed) (sym given, agree')
        | inr (r, present) ↦
            rw (table.insert_taken k plan.initial_sequence s r present)
              (idle-Follows s counters [] refl agree)
      ]

  updated-Follows :
      (plan : Plan) (n c v : ℕ) (s : S) (counters : Counters)
      → c < plan.maximum_sequence
      → Agree table s counters
      → let (t, changed) = table.update (canonical_key plan.scope) v c (c + 1) s in
        Follows t counters (returns plan (after_update plan n c changed))
  updated-Follows plan n c v s counters room agree =
      let k = canonical_key plan.scope in
      elim (row-cases (table.find k s) c v) [
        | inl held ↦
            let (changed, found) = table.update_hit k v c (c + 1) s held in
            let known : lookup plan.scope counters ≡ some (c + 1) =
              sym (agree plan.scope) ∙ ap counter_of held in
            let (given, agree') =
              allocate-written table plan (c + 1) (v + 1) s (table.update k v c (c + 1) s).0
                counters (rw (known, get_or) refl) (omega (arith, room)) found agree in
            subst
              (λ o.
                Follows (table.update k v c (c + 1) s).0 counters
                  (returns plan (after_update plan n c o)))
              (sym changed) (sym given, agree')
        | inr free ↦ rw (table.update_miss k v c (c + 1) s free) (
            idle-Follows s counters (returns plan (after_update plan n c 0)) (returns-again plan n)
              agree)
      ]

  advance-Follows :
      (o : Outcome) (plan : Plan) (call : Call) (s : S) (counters : Counters)
      → is_late o ≡ false
      → InRange plan
      → CallIsBounded plan call
      → is_over call ≡ false
      → Agree table s counters
      → let (call', t) = advance table o plan call s in Follows t counters (returns plan call')
  unfolding advance
  advance-Follows works plan (selecting n) s counters _ h b _ agree =
      idle-Follows s counters _ (returns-selected plan n (table.find (canonical_key plan.scope) s))
        agree
  advance-Follows fails plan (selecting n) s counters _ h b _ agree =
      idle-Follows s counters [] refl agree
  advance-Follows works plan (inserting n) s counters _ h b _ agree =
      inserted-Follows plan n s counters h agree
  advance-Follows fails plan (inserting n) s counters _ h b _ agree =
      idle-Follows s counters [] refl agree
  advance-Follows works plan (observing n) s counters _ h b _ agree =
      idle-Follows s counters _ (returns-observed plan n (table.find (canonical_key plan.scope) s))
        agree
  advance-Follows fails plan (observing n) s counters _ h b _ agree =
      idle-Follows s counters [] refl agree
  advance-Follows works plan (updating n c v) s counters _ h b _ agree =
      updated-Follows plan n c v s counters b agree
  advance-Follows fails plan (updating n c v) s counters _ h b _ agree =
      idle-Follows s counters [] refl agree
  advance-Follows fails_late plan call s counters late h b _ agree = ground (arith, late)
  advance-Follows _ plan (returned a) s counters _ h b going agree = ground (arith, going)
  advance-Follows _ plan (raised e) s counters _ h b going agree = ground (arith, going)
  advance-Follows _ plan transport_error s counters _ h b going agree = ground (arith, going)

  -- what was returned so far is what memory gives to the same plans, and the table agrees
  abbrev Refines : System S → Type 0
  Refines y = Follows y.store [] y.issued

  append-Follows :
      (t : S) (l m : List (Plan × Allocation))
      → allocations_of l ≡ issue (plans_of l) []
      → Follows t (after (plans_of l) []) m
      → Follows t [] (l ++ m)
  append-Follows t l m e (e', agree) = (
    map-append (λ (x : Plan × Allocation). x.1) l m
        ∙ (rw
            (
              map-append (λ (x : Plan × Allocation). x.0) l m,
              issue-append (plans_of l) (plans_of m) [],
              e,
              e',
            )
            refl),
    rw (map-append (λ (x : Plan × Allocation). x.0) l m, after-append (plans_of l) (plans_of m) [])
        agree,
  )

  proceeded-Refines :
      (i : ℕ) (o : Outcome) (plan : Plan) (call : Call) (y : System S)
      → is_late o ≡ false
      → EntryIsBounded (plan, call)
      → Refines y
      → Refines (proceeded table i o plan call y)
  proceeded-Refines i o plan call y late (h, b) (e, agree) =
      if-keeps Refines (is_over call) (λ _. (e, agree))
        (λ going.
          append-Follows (advance table o plan call y.store).1 y.issued
            (returns plan (advance table o plan call y.store).0) e
            (advance-Follows o plan call y.store (after (plans_of y.issued) []) late h b going
              agree))

  stepped-Refines :
      (i : ℕ) (o : Outcome) (y : System S) (x : Option (Plan × Call))
      → is_late o ≡ false
      → ((e : Plan × Call) → x ≡ some e → EntryIsBounded e)
      → Refines y
      → Refines (stepped table i o y x)
  stepped-Refines i o y none late f h = h
  stepped-Refines i o y (some (plan, call)) late f h =
      proceeded-Refines i o plan call y late (f (plan, call) refl) h

  happen-Refines :
      (y : System S) (e : Event)
      → IsPunctual e
      → SystemIsBounded table y
      → Refines y
      → Refines (happen table y e)
  unfolding happen
  happen-Refines y (begin plan) late b h = h
  happen-Refines y (proceed i o) late (b, _) h =
      stepped-Refines i o y (get_elem? y.calls i) late
        (λ e. All-get_elem? EntryIsBounded y.calls i e b) h

  run-Refines :
      (es : List Event) (y : System S)
      → All EventInRange es
      → All IsPunctual es
      → SystemIsBounded table y
      → Refines y
      → Refines (run table es y)
  unfolding run
  run-Refines [] y r late b h = h
  run-Refines (e ∷ es) y (r, rs) (late, lates) b h =
      run-Refines es (happen table y e) rs lates (happen-Bounded table y e r b)
        (happen-Refines y e late b h)

  -- On a table that was empty, the calls return, in the order in which the database served them, exactly the
  -- numbers that the allocator in memory returns when their plans come to it one by one in that order: however
  -- the statements interleave, and whichever fail before they take effect. Every plan starts in its range.
  pub run_refines :
      (es : List Event) (s : S)
      → All EventInRange es
      → All IsPunctual es
      → ((k : Text) → table.find k s ≡ none)
      → let issued = (run table es (record { store = s; calls = []; issued = [] })).issued in
        allocations_of issued ≡ issue (plans_of issued) []
  run_refines es s range punctual empty =
      (run-Refines es (record { store = s; calls = []; issued = [] }) range punctual (tt, tt)
        (idle-Follows s [] [] refl
          (λ scope. ap counter_of (empty (canonical_key scope)) ∙ sym (lookup-nil scope)))).0
