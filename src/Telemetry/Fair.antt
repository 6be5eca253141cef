-- ===== src/Telemetry/Fair.antt =====
-- What exports keep of the offers, the capacity and the losses, whether their records are in the table or not.
use teaql_python.Base.{
  ℕ, ◌+◌, ◌≤◌, ◌≡◌, Bool, true, List, [], ◌∷◌, arith, length, if◌then◌else◌, if-keeps, inl, inr,
  Option-cases, Bool-cases, get_elem?, set, eqb,
}
use teaql_python.Telemetry.Queue.{
  Admission, Reason, shutdown, queue_overflow, handoff_failure, export_failure, Queue, find, lost,
  settle, settle_all, begin_export, complete_export, Export, begin, finish, export, exports,
}
use teaql_python.Telemetry.Entries.{length-remove, length-mark_exporting}
use teaql_python.Telemetry.Books.{total, same_reason}
use teaql_python.Telemetry.Keeping.{total-lost}
use teaql_python.Telemetry.Exports.{begin_export_cases}
use teaql_python.Telemetry.Runs.{}

-- `n` records are between their offer and the end of their handoff; the losses for `reason` are `k`
-- short of the counters.
pub record Fair (n k : ℕ) (reason : Reason) (q : Queue) : Type 0 where
  pub offers : q.offered ≡ q.admitted + q.overflow + q.post_shutdown + q.handoff_failed + n
  pub fits : length q.pending ≤ q.capacity
  pub overflows :
      total queue_overflow q.losses + (if same_reason queue_overflow reason then k else 0)
      ≡ q.overflow
  pub shutdowns :
      total shutdown q.losses + (if same_reason shutdown reason then k else 0)
      ≡ q.post_shutdown + q.retired_count
  pub failures :
      total handoff_failure q.losses + (if same_reason handoff_failure reason then k else 0)
      ≡ q.handoff_failed

-- no loss is left to report
abbrev pub IsFair : ℕ → Queue → Type 0
IsFair n q = Fair n 0 export_failure q

module _ (n k : ℕ) (reason : Reason) (q : Queue) where
  pub lost-IsFair : Fair n k reason q → IsFair n (lost k reason q)
  unfolding lost
  lost-IsFair h = record {
    offers = ground (arith, h.offers);
    fits = ground (arith, h.fits);
    overflows = ground (arith, total-lost k reason q queue_overflow, h.overflows);
    shutdowns = ground (arith, total-lost k reason q shutdown, h.shutdowns);
    failures = ground (arith, total-lost k reason q handoff_failure, h.failures);
  }

module _ (n : ℕ) where
  shrunk :
      (q : Queue) (pending gone : List Admission) (completed : ℕ)
      → length pending ≤ length q.pending
      → IsFair n q
      → IsFair n (record q { pending = pending; gone = gone; completed = completed })
  shrunk q pending gone completed shorter h = record {
    offers = h.offers;
    fits = omega (arith, shorter, h.fits);
    overflows = h.overflows;
    shutdowns = h.shutdowns;
    failures = h.failures;
  }

  settle-IsFair :
      (item : Admission) (q : Queue) (m : ℕ) → IsFair n q → IsFair n (settle item (q, m)).0
  unfolding settle
  settle-IsFair item q m h = elim (Option-cases (find item.record_id q.pending)) [
    | inl absent ↦ rw (absent, settle) h
    | inr (popped, found) ↦ elim (Bool-cases (eqb popped.serial item.serial)) [
      | inl own ↦
          rw (found, own, settle) (shrunk q _ _ _ (length-remove item.record_id q.pending) h)
      | inr other ↦
          rw (found, other, settle) (shrunk q _ _ _ (length-remove item.record_id q.pending) h)
    ]
  ]

  settle_all-IsFair :
      (items : List Admission) (q : Queue) (m : ℕ)
      → IsFair n q
      → IsFair n (settle_all items (q, m)).0
  unfolding settle_all
  settle_all-IsFair [] q m h = h
  settle_all-IsFair (item ∷ items) q m h =
      settle_all-IsFair items (settle item (q, m)).0 (settle item (q, m)).1
        (settle-IsFair item q m h)

  begin-IsFair : (records : List ℕ) (q : Queue) → IsFair n q → IsFair n (begin_export records q)
  begin-IsFair records q h = elim (begin_export_cases records q) [
    | inl unchanged ↦ rw unchanged h
    | inr (items, taken, e) ↦ rw e (record {
      offers = h.offers;
      fits = rw (length-mark_exporting records q.pending) h.fits;
      overflows = h.overflows;
      shutdowns = h.shutdowns;
      failures = h.failures;
    })
  ]

  complete-IsFair :
      (i : ℕ) (failed : Bool) (q : Queue) → IsFair n q → IsFair n (complete_export i failed q)
  unfolding complete_export
  complete-IsFair i failed q h = elim (Option-cases (get_elem? q.tickets i)) [
    | inl nothing ↦ rw (nothing, complete_export) h
    | inr (t, at) ↦ elim (Bool-cases t.completed) [
      | inl done ↦ rw (at, done, complete_export) h
      | inr open_still ↦
          let finishing = record q { tickets = set q.tickets i (record t { completed = true }) } in
          let s = settle_all t.admissions (finishing, 0) in
          let after : IsFair n s.0 = settle_all-IsFair t.admissions finishing 0 (record {
            offers = h.offers;
            fits = h.fits;
            overflows = h.overflows;
            shutdowns = h.shutdowns;
            failures = h.failures;
          }) in
          rw (at, open_still, complete_export)
            (if-keeps (IsFair n) failed {x = lost s.1 export_failure s.0} {y = s.0}
              (λ _. lost-IsFair n s.1 export_failure s.0 (owing s.1 s.0 after)) (λ _. after))
    ]
  ]
    where
      owing : (k : ℕ) (x : Queue) → IsFair n x → Fair n k export_failure x
      owing k x f = record {
        offers = f.offers;
        fits = f.fits;
        overflows = f.overflows;
        shutdowns = f.shutdowns;
        failures = f.failures;
      }

  pub export-IsFair : (e : Export) (q : Queue) → IsFair n q → IsFair n (export e q)
  unfolding export
  export-IsFair (begin records) q h = begin-IsFair records q h
  export-IsFair (finish i failed) q h = complete-IsFair i failed q h

  pub exports-IsFair : (es : List Export) (q : Queue) → IsFair n q → IsFair n (exports es q)
  unfolding exports
  exports-IsFair [] q h = h
  exports-IsFair (e ∷ es) q h = exports-IsFair es (export e q) (export-IsFair e q h)
