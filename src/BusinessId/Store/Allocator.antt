-- ===== src/BusinessId/Store/Allocator.antt =====
-- src/teaql/sql/business_id.py: `SqlBusinessIdAllocator.allocate`, from one await to the next. The calls of
-- all processes run against one table, in any order; a statement may fail before or after its effect.
use teaql_python.Base.{
  ℕ, zero, suc, ◌+◌, Bool, true, false, Option, none, some, List, [], ◌∷◌, ◌++◌, leb, if◌then◌else◌,
  get_elem?, set,
}
use teaql_python.Base.Integers.{pos, negsuc}
use teaql_python.BusinessId.Core.{
  range_exhausted, allocation_retry_exhausted, Error, business_id, runtime_error, canonical_key,
  Plan, Allocation,
}
use teaql_python.BusinessId.Store.Table.{Row, Table}

-- Where a call stands: before a statement, with the attempts it has left after this one, or at its end
pub data Call : Type 0 where
  selecting inserting observing : ℕ → Call
  updating : ℕ → (current version : ℕ) → Call
  returned : Allocation → Call
  raised : Error → Call
  transport_error : Call

-- What becomes of a statement
pub data Outcome : Type 0 where
  works fails fails_late : Outcome

-- `MAX_ATTEMPTS`, less the first
abbrev pub more_attempts : ℕ
more_attempts = 99

abbrev pub allocated : Plan → ℕ → Call
allocated plan n = returned (record { scope = plan.scope; sequence = n })

-- the next attempt
abbrev pub again : ℕ → Call
again zero = raised (business_id allocation_retry_exhausted)
again (suc n) = selecting n

-- the numbers of a valid row
abbrev pub numbers : Row → Option (ℕ × ℕ)
numbers r = elim r.current_value [
  | negsuc _ ↦ none
  | pos current ↦ elim r.version [
    | negsuc _ ↦ none
    | pos version ↦ if leb version 0 then none else some (current, version)
  ]
]

-- the numbers of the row that a call read
abbrev pub examined : Plan → ℕ → Option (ℕ × ℕ) → Call
examined plan n none = raised runtime_error
examined plan n (some (current, version)) =
    if leb plan.maximum_sequence current
    then raised (business_id range_exhausted)
    else updating n current version

abbrev pub after_select : Plan → ℕ → Option Row → Call
after_select plan n none = inserting n
after_select plan n (some r) = examined plan n (numbers r)

-- the row after an insert that failed
abbrev pub after_observe : ℕ → Option Row → Call
after_observe n none = raised runtime_error
after_observe n (some r) = again n

-- the count of an update
abbrev pub after_update : Plan → ℕ → ℕ → ℕ → Call
after_update plan n current (suc zero) = allocated plan (current + 1)
after_update plan n current zero = again n
after_update plan n current (suc (suc _)) = raised runtime_error

-- the count of an insert, or its exception; a count other than 1 is raised where it is caught
abbrev pub after_insert : Plan → ℕ → Option ℕ → Call
after_insert plan n (some (suc zero)) = allocated plan plan.initial_sequence
after_insert plan n _ = observing n

abbrev pub is_over : Call → Bool
is_over (returned _) = true
is_over (raised _) = true
is_over transport_error = true
is_over _ = false

module _ {S : Type 0} (table : Table S) where
  -- one statement of a call, with what the call does up to its next one
  unfoldable pub advance : Outcome → Plan → Call → S → Call × S
  advance works plan (selecting n) s =
      (after_select plan n (table.find (canonical_key plan.scope) s), s)
  advance _ plan (selecting n) s = (raised runtime_error, s)
  advance works plan (inserting n) s =
      let (t, changed) = table.insert (canonical_key plan.scope) plan.initial_sequence s in
      (after_insert plan n changed, t)
  advance fails plan (inserting n) s = (observing n, s)
  advance fails_late plan (inserting n) s =
      (observing n, (table.insert (canonical_key plan.scope) plan.initial_sequence s).0)
  advance works plan (observing n) s =
      (after_observe n (table.find (canonical_key plan.scope) s), s)
  advance _ plan (observing n) s = (transport_error, s)
  advance works plan (updating n current version) s =
      let (t, changed) = table.update (canonical_key plan.scope) version current (current + 1) s in
      (after_update plan n current changed, t)
  advance fails plan (updating n current version) s = (transport_error, s)
  advance fails_late plan (updating n current version) s =
      (transport_error, (table.update (canonical_key plan.scope) version current (current + 1) s).0)
  advance _ plan (returned a) s = (returned a, s)
  advance _ plan (raised e) s = (raised e, s)
  advance _ plan transport_error s = (transport_error, s)

-- The table, the calls that were begun, and the allocations that they returned, in their order
pub record System (S : Type 0) : Type 0 where
  pub store : S
  pub calls : List (Plan × Call)
  pub issued : List (Plan × Allocation)

pub data Event : Type 0 where
  begin : Plan → Event
  proceed : ℕ → Outcome → Event

abbrev pub returns : Plan → Call → List (Plan × Allocation)
returns plan (returned a) = (plan, a) ∷ []
returns plan _ = []

module _ {S : Type 0} (table : Table S) where
  abbrev pub proceeded : ℕ → Outcome → Plan → Call → System S → System S
  proceeded i outcome plan call y =
      if is_over call
      then y
      else let (call', t) = advance table outcome plan call y.store in
        record {
          store = t;
          calls = set y.calls i (plan, call');
          issued = y.issued ++ returns plan call';
        }

  abbrev pub stepped : ℕ → Outcome → System S → Option (Plan × Call) → System S
  stepped i outcome y none = y
  stepped i outcome y (some (plan, call)) = proceeded i outcome plan call y

  unfoldable pub happen : System S → Event → System S
  happen y (begin plan) = record y { calls = y.calls ++ ((plan, selecting more_attempts) ∷ []) }
  happen y (proceed i outcome) = stepped i outcome y (get_elem? y.calls i)

  unfoldable pub run : List Event → System S → System S
  run [] y = y
  run (e ∷ es) y = run es (happen y e)
