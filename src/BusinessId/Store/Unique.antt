-- ===== src/BusinessId/Store/Unique.antt =====
-- src/teaql/sql/business_id.py: no number of a key is returned twice, whatever the calls do to each other.
use teaql_python.Base.{
  ℕ, ◌≡◌, ◌≢◌, sym, ◌∙◌, ap, Option, none, some, List, [], ◌∷◌, ◌++◌, arith, get_elem?, if-keeps,
  All, All-map, All-append,
}
use teaql_python.Base.Text.{Text}
use teaql_python.BusinessId.Core.{canonical_key, Plan, Allocation}
use teaql_python.BusinessId.Store.Table.{Table}
use teaql_python.BusinessId.Store.Allocator.{
  Call, selecting, inserting, observing, updating, returned, raised, transport_error, Outcome,
  advance, returns, is_over, System, Event, begin, proceed, proceeded, stepped, happen, run,
}
use teaql_python.BusinessId.Store.Growth.{Grows, advance-Grows}
use teaql_python.BusinessId.Store.Fresh.{Reached, Fresh, advance-AllFresh}

abbrev key_of : Plan × Allocation → Text
key_of x = canonical_key x.1.scope

-- two allocations of one key have different numbers
abbrev pub Apart : Plan × Allocation → Plan × Allocation → Type 0
Apart x y = canonical_key x.1.scope ≡ canonical_key y.1.scope → x.1.sequence ≢ y.1.sequence

abbrev pub AllApart : List (Plan × Allocation) → Type 0
AllApart [] = Unit
AllApart (x ∷ l) = All (Apart x) l × AllApart l

append-AllApart :
    (l m : List (Plan × Allocation))
    → AllApart l
    → AllApart m
    → All (λ x. All (Apart x) m) l
    → AllApart (l ++ m)
append-AllApart [] m _ h _ = h
append-AllApart (x ∷ l) m (p, ps) h (c, cs) =
    (All-append (Apart x) l m p c, append-AllApart l m ps h cs)

returns-AllApart : (plan : Plan) (call : Call) → AllApart (returns plan call)
returns-AllApart plan (returned a) = (tt, tt)
returns-AllApart plan (selecting n) = tt
returns-AllApart plan (inserting n) = tt
returns-AllApart plan (observing n) = tt
returns-AllApart plan (updating n c v) = tt
returns-AllApart plan (raised e) = tt
returns-AllApart plan transport_error = tt

module _ {S : Type 0} (table : Table S) where
  -- the counters have reached every number that was returned
  abbrev Covered : S → List (Plan × Allocation) → Type 0
  Covered s l =
      All (λ (x : Plan × Allocation). Reached table s (canonical_key x.1.scope) x.1.sequence) l

  grown-Reached :
      (s t : S) (k : Text) (n : ℕ) → Grows table s t → Reached table s k n → Reached table t k n
  grown-Reached s t k n grows (c, v, found, le) =
      let (c', v', found', le') = grows k c v found in (c', v', found', omega (arith, le, le'))

  Fresh-Apart :
      (s t : S) (x y : Plan × Allocation)
      → Reached table s (canonical_key x.1.scope) x.1.sequence
      → Fresh table s t (canonical_key y.1.scope) y.1.sequence
      → Apart x y
  Fresh-Apart s t x y (c, v, found, le) (_, above) same equal =
      let lt = above c v (ap (λ k. table.find k s) (sym same) ∙ found) in
      omega (arith, le, lt, equal)

  IsSound : System S → Type 0
  IsSound y = Covered y.store y.issued × AllApart y.issued

  proceeded-IsSound :
      (i : ℕ) (o : Outcome) (plan : Plan) (call : Call) (y : System S)
      → IsSound y
      → IsSound (proceeded table i o plan call y)
  unfolding IsSound
  proceeded-IsSound i o plan call y (covered, apart) =
      let s = y.store in
      let t = (advance table o plan call s).1 in
      let new = returns plan (advance table o plan call s).0 in
      if-keeps IsSound (is_over call) (λ _. (covered, apart))
        (λ going.
          let fresh = advance-AllFresh table o plan call s going in
          (
            All-append
                (λ (x : Plan × Allocation). Reached table t (canonical_key x.1.scope) x.1.sequence)
                y.issued new
                (All-map y.issued
                  (λ x r.
                    grown-Reached s t (canonical_key x.1.scope) x.1.sequence
                      (advance-Grows table o plan call s) r)
                  covered)
                (All-map new (λ x f. f.0) fresh),
            append-AllApart y.issued new apart
                (returns-AllApart plan (advance table o plan call s).0)
                (All-map y.issued (λ x r. All-map new (λ z f. Fresh-Apart s t x z r f) fresh)
                  covered),
          ))

  stepped-IsSound :
      (i : ℕ) (o : Outcome) (y : System S) (x : Option (Plan × Call))
      → IsSound y
      → IsSound (stepped table i o y x)
  stepped-IsSound i o y none h = h
  stepped-IsSound i o y (some (plan, call)) h = proceeded-IsSound i o plan call y h

  happen-IsSound : (y : System S) (e : Event) → IsSound y → IsSound (happen table y e)
  unfolding happen IsSound
  happen-IsSound y (begin plan) h = h
  happen-IsSound y (proceed i o) h = stepped-IsSound i o y (get_elem? y.calls i) h

  run-IsSound : (es : List Event) (y : System S) → IsSound y → IsSound (run table es y)
  unfolding run
  run-IsSound [] y h = h
  run-IsSound (e ∷ es) y h = run-IsSound es (happen table y e) (happen-IsSound y e h)

  -- Of the numbers that calls of `allocate` returned, no two of one scope key are equal, whatever the table
  -- held before, however many calls there are, in whatever order their statements reach the database, and
  -- whichever statements fail before or after their effect.
  pub run-AllApart :
      (es : List Event) (s : S)
      → AllApart (run table es (record { store = s; calls = []; issued = [] })).issued
  unfolding IsSound
  run-AllApart es s = (run-IsSound es (record { store = s; calls = []; issued = [] }) (tt, tt)).1
