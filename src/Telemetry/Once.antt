-- ===== src/Telemetry/Once.antt =====
-- No record is accounted for twice: what exports keep of the count of the admitted records.
use teaql_python.Base.{
  ℕ, ◌+◌, ◌≤◌, ◌≡◌, inl, inr, Bool, true, some, List, [], ◌∷◌, arith, count, if-keeps, eqb, eqb_iff,
  is_some, Bool-cases, Option-cases, get_elem?, set,
}
use teaql_python.Telemetry.Queue.{
  Admission, Ticket, export_failure, Loss, Queue, lost, find, settle, settle_all, begin_export,
  complete_export, Export, begin, finish, export, exports,
}
use teaql_python.Telemetry.Entries.{numbered, count-remove, count-mark_exporting}
use teaql_python.Telemetry.Books.{Table}
use teaql_python.Telemetry.Settling.{
  landing, landing-Table, settle_absent, settle_own, settle_all-nil, settle_all-cons,
}
use teaql_python.Telemetry.Exports.{begun, begin_export_cases, begun-Table}
use teaql_python.Telemetry.Keeping.{lost_only}
use teaql_python.Telemetry.Excess.{dropping, dropping-Table, settle_other}

-- The completed, the retired and the numbered records in the table are no more than the admitted.
abbrev pub IsOnce : Queue → Type 0
IsOnce q = q.completed + q.retired_count + count numbered q.pending ≤ q.admitted

module _ (F : Queue → Type 0)
    (F-landing : (r : ℕ) (p : Admission) (q : Queue)
      → find r q.pending ≡ some p
      → Table q
      → F q
      → F (landing r p q))
    (F-dropping : (r : ℕ) (p : Admission) (q : Queue)
      → find r q.pending ≡ some p
      → Table q
      → F q
      → F (dropping r p q))
    (F-begun : (records : List ℕ) (items : List Admission) (q : Queue)
      → F q
      → F (begun records items q))
    (F-losses : (x : List Loss) (q : Queue) → F q → F (record q { losses = x }))
    (F-tickets : (x : List Ticket) (q : Queue) → F q → F (record q { tickets = x })) where
  pub record Once (q : Queue) : Type 0 where
    pub table : Table q
    pub bound : IsOnce q
    pub extra : F q

  settle-Once : (item : Admission) (q : Queue) (k : ℕ) → Once q → Once (settle item (q, k)).0
  settle-Once item q k h = elim (Option-cases (find item.record_id q.pending)) [
    | inl absent ↦ rw (settle_absent item q k absent) h
    | inr (p, found) ↦
        let fewer = count-remove numbered item.record_id q.pending p h.table.distinct found in
        elim (Bool-cases (eqb p.serial item.serial)) [
          | inl own ↦
              rw (settle_own item p q k found ((eqb_iff p.serial item.serial).0 own)) (record {
                table = landing-Table item.record_id p q found h.table;
                bound = ground (arith, fewer, h.bound);
                extra = F-landing item.record_id p q found h.table h.extra;
              })
          | inr other ↦ rw (settle_other item p q k found other) (record {
            table = dropping-Table item.record_id p q found h.table;
            bound = omega (arith, fewer, h.bound);
            extra = F-dropping item.record_id p q found h.table h.extra;
          })
        ]
  ]

  settle_all-Once :
      (items : List Admission) (q : Queue) (k : ℕ) → Once q → Once (settle_all items (q, k)).0
  settle_all-Once [] q k h = rw settle_all-nil h
  settle_all-Once (item ∷ items) q k h =
      rw settle_all-cons (
        settle_all-Once items (settle item (q, k)).0 (settle item (q, k)).1
          (settle-Once item q k h))

  begin-Once : (records : List ℕ) (q : Queue) → Once q → Once (begin_export records q)
  begin-Once records q h = elim (begin_export_cases records q) [
    | inl unchanged ↦ rw unchanged h
    | inr (items, taken, e) ↦ rw e (record {
      table = begun-Table records items q h.table;
      bound = rw (count-mark_exporting records is_some q.pending) h.bound;
      extra = F-begun records items q h.extra;
    })
  ]

  lost-Once : (k : ℕ) (q : Queue) → Once q → Once (lost k export_failure q)
  lost-Once k q h = lost_only k export_failure q Once h (λ x o. record {
    table = record { distinct = o.table.distinct; live = o.table.live; fresh = o.table.fresh };
    bound = o.bound;
    extra = F-losses x q o.extra;
  })

  complete-Once : (i : ℕ) (failed : Bool) (q : Queue) → Once q → Once (complete_export i failed q)
  unfolding complete_export
  complete-Once i failed q h = elim (Option-cases (get_elem? q.tickets i)) [
    | inl nothing ↦ rw (nothing, complete_export) h
    | inr (t, at) ↦ elim (Bool-cases t.completed) [
      | inl done ↦ rw (at, done, complete_export) h
      | inr open_still ↦
          let tickets = set q.tickets i (record t { completed = true }) in
          let s = settle_all t.admissions (record q { tickets = tickets }, 0) in
          let after : Once s.0 =
            settle_all-Once t.admissions (record q { tickets = tickets }) 0
              (record {
                table = record {
                  distinct = h.table.distinct;
                  live = h.table.live;
                  fresh = h.table.fresh;
                };
                bound = h.bound;
                extra = F-tickets tickets q h.extra;
              }) in
          rw (at, open_still, complete_export)
            (if-keeps Once failed {x = lost s.1 export_failure s.0} {y = s.0}
              (λ _. lost-Once s.1 s.0 after) (λ _. after))
    ]
  ]

  pub export-Once : (e : Export) (q : Queue) → Once q → Once (export e q)
  unfolding export
  export-Once (begin records) q h = begin-Once records q h
  export-Once (finish i failed) q h = complete-Once i failed q h

  pub exports-Once : (es : List Export) (q : Queue) → Once q → Once (exports es q)
  unfolding exports
  exports-Once [] q h = h
  exports-Once (e ∷ es) q h = exports-Once es (export e q) (export-Once e q h)
