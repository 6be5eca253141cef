-- ===== src/BusinessId/Store/Counted.antt =====
-- src/teaql/sql/business_id.py and runtime/business_id.py: how the table of the one allocator and the counters
-- of the other go together.
use teaql_python.Base.{
  ℕ, ◌+◌, ◌≤◌, ◌≡◌, refl, ◌∙◌, ap, inl, inr, false, Option, none, some, List, [], ◌∷◌, ◌++◌, arith,
  ltb, if◌then◌else◌, Bool-cases, ◌==◌, list_eq, nat_eq,
}
use teaql_python.Base.Dict.{lookup, insert, get_or, lookup-insert}
use teaql_python.Base.Integers.{pos, negsuc}
use teaql_python.Base.Text.{Text}
use teaql_python.BusinessId.Core.{ok, Result, Result-cases, Scope, canonical_key, Plan, Allocation}
use teaql_python.BusinessId.Keys.{canonical_key_injective}
use teaql_python.BusinessId.Profile.{Counters, allocate, scope_eq}
use teaql_python.BusinessId.Allocations.{issue}
use teaql_python.BusinessId.Store.Table.{Row, row, Table}
use teaql_python.BusinessId.Store.Growth.{text_same, text_refl}

-- the counters after calls of the allocator in memory
unfoldable pub after : List Plan → Counters → Counters
after [] counters = counters
after (p ∷ ps) counters = after ps (allocate p counters).1

pub issue-append :
    (ps qs : List Plan) (counters : Counters)
    → issue (ps ++ qs) counters ≡ issue ps counters ++ issue qs (after ps counters)
unfolding issue after
issue-append [] qs counters = refl
issue-append (p ∷ ps) qs counters =
    let later = issue-append ps qs (allocate p counters).1 in
    elim (Result-cases (allocate p counters).0) [
      | inl (a, h) ↦ rw (h, issue) (ap (λ l. a ∷ l) later)
      | inr (e, h) ↦ rw (h, issue) later
    ]

pub after-append :
    (ps qs : List Plan) (counters : Counters)
    → after (ps ++ qs) counters ≡ after qs (after ps counters)
unfolding after
after-append [] qs counters = refl
after-append (p ∷ ps) qs counters = after-append ps qs (allocate p counters).1

-- what the allocator in memory gives with the number `n`
abbrev given : Plan → Counters → ℕ → Result Allocation × Counters
given p counters n =
    (ok (record { scope = p.scope; sequence = n }), insert p.scope (n + 1) counters)

allocate-next :
    (p : Plan) (counters : Counters)
    → ltb p.maximum_sequence (get_or p.scope p.initial_sequence counters) ≡ false
    → allocate p counters ≡ given p counters (get_or p.scope p.initial_sequence counters)
unfolding allocate
allocate-next p counters room = rw room refl

allocate-room :
    (p : Plan) (n : ℕ) (counters : Counters)
    → get_or p.scope p.initial_sequence counters ≡ n
    → n ≤ p.maximum_sequence
    → allocate p counters ≡ given p counters n
allocate-room p n counters next room =
    allocate-next p counters (ground (arith, room, next)) ∙ ap (given p counters) next

-- the next number in memory, by the row of the table
abbrev pub counter_of : Option Row → Option ℕ
counter_of none = none
counter_of (some r) = elim r.current_value [ pos c ↦ some (c + 1) | negsuc _ ↦ none ]

keys_differ : (s t : Scope) → (s == t) ≡ false → (canonical_key s == canonical_key t) ≡ false
keys_differ s t other = elim (Bool-cases (canonical_key s == canonical_key t)) [
  | inl same ↦ ground (
    arith,
    other,
    (scope_eq.equal_iff s t).1
        (canonical_key_injective s t (text_same (canonical_key s) (canonical_key t) same)),
  )
  | inr differ ↦ differ
]

module _ {S : Type 0} (table : Table S) where
  abbrev pub Agree : S → Counters → Type 0
  Agree s counters =
      (scope : Scope) → counter_of (table.find (canonical_key scope) s) ≡ lookup scope counters

  -- a number that is given in memory and written to the table
  pub allocate-written :
      (p : Plan) (n v : ℕ) (s t : S) (counters : Counters)
      → get_or p.scope p.initial_sequence counters ≡ n
      → n ≤ p.maximum_sequence
      → ((j : Text)
          → table.find j t
            ≡ (if j == canonical_key p.scope then some (row n v) else table.find j s))
      → Agree s counters
      → (issue (p ∷ []) counters ≡ record { scope = p.scope; sequence = n } ∷ [])
        × Agree t (after (p ∷ []) counters)
  unfolding issue after
  allocate-written p n v s t counters next room found agree = (
    rw (allocate-room p n counters next room, issue) refl,
    λ scope. elim (Bool-cases (scope == p.scope)) [
      | inl same ↦
          let own = (scope_eq.equal_iff scope p.scope).0 same in
          rw (allocate-room p n counters next room, after)
            (rw
              (
                found (canonical_key scope),
                lookup-insert scope p.scope (n + 1) counters,
                same,
                ap (λ x. canonical_key x == canonical_key p.scope) own
                    ∙ text_refl (canonical_key p.scope),
              )
              refl)
      | inr other ↦
          rw (allocate-room p n counters next room, after)
            (rw
              (
                found (canonical_key scope),
                lookup-insert scope p.scope (n + 1) counters,
                other,
                keys_differ scope p.scope other,
              )
              (agree scope))
    ],
  )
