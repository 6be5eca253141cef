-- ===== src/BusinessId/Allocations.antt =====
-- The in-memory allocator never issues a sequence number of a scope twice.
use teaql_python.Base.{
  ℕ, ◌+◌, ◌≤◌, ◌≡◌, ◌≢◌, ap, sym, inl, inr, true, false, some, List, [], ◌∷◌, arith, ltb, All,
  All-map, Bool-cases, ◌==◌,
}
use teaql_python.Base.Dict.{lookup, insert, get_or, lookup-insert}
use teaql_python.BusinessId.Core.{business_id, range_exhausted, ok, err, Scope, Plan, Allocation}
use teaql_python.BusinessId.Profile.{Counters, allocate, scope_eq}

-- Calls one after another, as the lock orders them, and what the successful ones returned.
unfoldable pub issue : List Plan → Counters → List Allocation
issue [] counters = []
issue (p ∷ ps) counters =
    let (result, counters') = allocate p counters in
    let later = issue ps counters' in elim result [ ok a ↦ a ∷ later | err e ↦ later ]

abbrev pub Distinct : List Allocation → Type 0
Distinct [] = Unit
Distinct (a ∷ l) = All (λ b. a ≢ b) l × Distinct l

-- The next number of a plan's scope.
abbrev next : Plan → Counters → ℕ
next p counters = get_or p.scope p.initial_sequence counters

abbrev AtLeast : Scope → ℕ → Allocation → Type 0
AtLeast s n a = a.scope ≡ s → n ≤ a.sequence

module _ (p : Plan) (ps : List Plan) (counters : Counters) where
  abbrev allocated : Allocation
  allocated = record { scope = p.scope; sequence = next p counters }

  abbrev counted : Counters
  counted = insert p.scope (next p counters + 1) counters

  allocate_full :
      ltb p.maximum_sequence (next p counters) ≡ true
      → allocate p counters ≡ (err (business_id range_exhausted), counters)
  unfolding allocate
  allocate_full full = rw full

  allocate_room :
      ltb p.maximum_sequence (next p counters) ≡ false
      → allocate p counters ≡ (ok allocated, counted)
  unfolding allocate
  allocate_room room = rw room

  issue_full :
      ltb p.maximum_sequence (next p counters) ≡ true → issue (p ∷ ps) counters ≡ issue ps counters
  unfolding issue
  issue_full full = rw (allocate_full full, issue) (rw (allocate_full full))

  issue_room :
      ltb p.maximum_sequence (next p counters) ≡ false
      → issue (p ∷ ps) counters ≡ allocated ∷ issue ps counted
  unfolding issue
  issue_room room = rw (allocate_room room, issue) (rw (allocate_room room))

  -- The number after one that a scope had is at least that number, for every scope.
  counted_grows :
      (s : Scope) (n : ℕ)
      → lookup s counters ≡ some n
      → (m : ℕ) × (lookup s counted ≡ some m) × (n ≤ m)
  counted_grows s n h = elim (Bool-cases (s == p.scope)) [
    | inl own ↦ (
      next p counters + 1,
      ground (arith, lookup-insert s p.scope (next p counters + 1) counters),
      ground (arith, scope_eq.equal_iff s p.scope),
    )
    | inr other ↦
        (n, ground (arith, lookup-insert s p.scope (next p counters + 1) counters), omega arith)
  ]

-- From a counter on, a scope gets only numbers that are at least the counter.
issue-AtLeast :
    (ps : List Plan) (counters : Counters) (s : Scope) (n : ℕ)
    → lookup s counters ≡ some n
    → All (AtLeast s n) (issue ps counters)
issue-AtLeast [] counters s n h = unfold issue in tt
issue-AtLeast (p ∷ ps) counters s n h =
    elim (Bool-cases (ltb p.maximum_sequence (next p counters))) [
      | inl full ↦ rw (issue_full p ps counters full) (issue-AtLeast ps counters s n h)
      | inr room ↦
          let (m, held, grown) = counted_grows p ps counters s n h in
          rw (issue_room p ps counters room) (
            own,
            All-map (issue ps (counted p ps counters)) (λ a f e. omega (arith, f e))
                (issue-AtLeast ps (counted p ps counters) s m held),
          )
    ]
  where
    own : AtLeast s n (allocated p ps counters)
    own e = ground arith

-- Whatever the calls, no number of a scope is issued twice.
pub issue-Distinct : (ps : List Plan) (counters : Counters) → Distinct (issue ps counters)
issue-Distinct [] counters = unfold issue in tt
issue-Distinct (p ∷ ps) counters = elim (Bool-cases (ltb p.maximum_sequence (next p counters))) [
  | inl full ↦ rw (issue_full p ps counters full) (issue-Distinct ps counters)
  | inr room ↦ rw (issue_room p ps counters room) (
    All-map (issue ps (counted p ps counters))
        (λ a f e. omega (
          arith,
          f (ap (λ (x : Allocation). x.scope) (sym e)),
          ap (λ (x : Allocation). x.sequence) e,
        ))
        (issue-AtLeast ps (counted p ps counters) p.scope (next p counters + 1) (
          ground (
            arith,
            lookup-insert p.scope p.scope (next p counters + 1) counters,
            scope_eq.equal_iff p.scope p.scope,
          ))),
    issue-Distinct ps (counted p ps counters),
  )
]
