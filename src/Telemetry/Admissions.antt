-- ===== src/Telemetry/Admissions.antt =====
-- No record is accounted for twice, whatever `submit` does before it raises: the methods in any order.
use teaql_python.Base.{
  ℕ, ◌+◌, ◌≤◌, ◌≡◌, ◌⊎◌, inl, inr, Bool, none, some, List, [], ◌∷◌, arith, length, count,
  if◌then◌else◌, if-keeps, is_some, leb,
}
use teaql_python.Telemetry.Queue.{
  Admission, Reason, shutdown, queue_overflow, handoff_failure, Queue, lost, new, find, remove,
  Export, export, exports, handoff, enter, admit, withdraw, close, abort_queued, reject_late,
}
use teaql_python.Telemetry.Entries.{
  numbered, unnumbered, count-remove, count-append, remove-DistinctRecords,
}
use teaql_python.Telemetry.Phases.{
  phase_of-append, phase_of-remove-none, number_of_absent, phase_of-number, remove-IsLive,
}
use teaql_python.Telemetry.Books.{Table, Airborne, Landed}
use teaql_python.Telemetry.Balance.{
  entry, enter-Table, enter-Airborne, admit-Table, admit_all_numbered, admit_completed,
}
use teaql_python.Telemetry.Refusals.{
  retired_queue, retired_queue-Table, retiring, waits, stays, count-select_zero,
  length-select-numbered,
}
use teaql_python.Telemetry.Exports.{begun-count}
use teaql_python.Telemetry.Keeping.{lost_only}
use teaql_python.Telemetry.Excess.{Aloft, Aloft-landing, Aloft-dropping, Aloft-begun, Dropped}
use teaql_python.Telemetry.Once.{IsOnce, Once, export-Once, exports-Once}
use teaql_python.Telemetry.Runs.{
  Call, hand, export_call, close_call, abort_call, late_call, perform, run, new-IsBalanced,
}

-- between two calls
pub record IsSettled (q : Queue) : Type 0 where
  pub table : Table q
  pub bound : IsOnce q
  pub all_numbered : count unnumbered q.pending ≡ 0

-- within the handoff of `r` under the serial `s`
record IsAloft (r s : ℕ) (q : Queue) : Type 0 where
  table : Table q
  bound : IsOnce q
  flight : Aloft r s q

count-remove_le :
    (p : Admission → Bool) (r : ℕ) (l : List Admission) → count p (remove r l) ≤ count p l
unfolding count remove
count-remove_le p r [] = omega arith
count-remove_le p r (a ∷ l) = ground (arith, count-remove_le p r l)

export-IsSettled : (e : Export) (q : Queue) → IsSettled q → IsSettled (export e q)
export-IsSettled e q h = record {
  table = after.table;
  bound = after.bound;
  all_numbered = after.extra;
}
  where
    after :
        Once
          (λ q. count unnumbered q.pending ≡ 0)
          (λ r p q found t f.
            ground (arith, count-remove unnumbered r q.pending p t.distinct found))
          (λ r p q found t f.
            ground (arith, count-remove unnumbered r q.pending p t.distinct found))
          (λ records items q f. rw (begun-count records items q) f)
          (λ x q f. f)
          (λ x q f. f)
          (export e q)
    after =
        export-Once (λ q. count unnumbered q.pending ≡ 0) _ _ _ _ _ e q
          (record { table = h.table; bound = h.bound; extra = h.all_numbered })

exports-IsAloft :
    (r s : ℕ) (es : List Export) (q : Queue) → IsAloft r s q → IsAloft r s (exports es q)
exports-IsAloft r s es q h = record {
  table = after.table;
  bound = after.bound;
  flight = after.extra;
}
  where
    after :
        Once
          (Aloft r s)
          (λ r' p q found t f. Aloft-landing r' p q found t r s f)
          (λ r' p q found t f. Aloft-dropping r' p q found t r s f)
          (λ records items q f. Aloft-begun records items q r s f)
          (λ x q f. f)
          (λ x q f. f)
          (exports es q)
    after =
        exports-Once (Aloft r s) _ _ _ _ _ es q
          (record { table = h.table; bound = h.bound; extra = h.flight })

lost-IsSettled : (k : ℕ) (reason : Reason) (q : Queue) → IsSettled q → IsSettled (lost k reason q)
lost-IsSettled k reason q h = lost_only k reason q IsSettled h (λ x o. record {
  table = record { distinct = o.table.distinct; live = o.table.live; fresh = o.table.fresh };
  bound = o.bound;
  all_numbered = o.all_numbered;
})

module _ (r : ℕ) (q : Queue) (h : IsSettled q) (absent : find r q.pending ≡ none) where
  entering : IsAloft r q.created (enter r q)
  unfolding enter count
  entering = record {
    table = enter-Table r q h.table absent;
    bound = omega (arith, count-append numbered q.pending (entry r q h.table ∷ []), h.bound);
    flight = inl (inl (enter-Airborne r q h.table absent h.all_numbered));
  }

module _ (r s : ℕ) (q : Queue) (h : IsAloft r s q) where
  withdraw_all_numbered : count unnumbered (remove r q.pending) ≡ 0
  withdraw_all_numbered = elim h.flight [
    | inl (inl (p, found, same, bare, one, alone)) ↦
        ground (arith, count-remove unnumbered r q.pending p h.table.distinct found)
    | inl (inr (absent, gone, landed, none_left)) ↦
        omega (arith, count-remove_le unnumbered r q.pending, none_left)
    | inr (gone, open_still, none_left) ↦
        omega (arith, count-remove_le unnumbered r q.pending, none_left)
  ]

  leaving : IsSettled (withdraw r q)
  unfolding withdraw
  leaving = lost-IsSettled 1 handoff_failure _ (record {
    table = record {
      distinct = remove-DistinctRecords r q.pending h.table.distinct;
      live = remove-IsLive r q.pending h.table.live;
      fresh =
          λ u k. (phase_of-remove-none u r q.pending (h.table.fresh u k).0, (h.table.fresh u k).1);
    };
    bound = omega (arith, count-remove_le numbered r q.pending, h.bound);
    all_numbered = withdraw_all_numbered;
  })

module _ (r s : ℕ) (q : Queue) (t : Table q) (bound : IsOnce q) where
  admitting_first : Airborne r s q ⊎ Landed r s q → IsSettled (admit s q)
  admitting_first f = record {
    table = admit-Table r s q t f;
    bound = unfold admit in omega (arith, bound, admit_completed r s q t f);
    all_numbered = unfold admit in admit_all_numbered r s q t f;
  }

  admitting-Dropped : Dropped s q → IsSettled (admit s q)
  unfolding admit
  admitting-Dropped (absent, open_still, none_left) =
      let same = number_of_absent s (q.admitted + 1) q.pending absent in
      record {
        table = record {
          distinct = rw same t.distinct;
          live = rw same t.live;
          fresh = λ u k. (rw same (t.fresh u k).0, rw phase_of-number (t.fresh u k).1);
        };
        bound = ground (arith, same, bound, phase_of-append s q.pending q.gone);
        all_numbered = rw same none_left;
      }

admitting : (r s : ℕ) (q : Queue) → IsAloft r s q → IsSettled (admit s q)
admitting r s q h = elim h.flight [
  | inl f ↦ admitting_first r s q h.table h.bound f
  | inr d ↦ admitting-Dropped r s q h.table h.bound d
]

module _ (q : Queue) (h : IsSettled q) where
  -- `offered` and the counters of the refusals are not read here
  refusing :
      (k overflow post_shutdown handoff_failed : ℕ) (reason : Reason)
      → IsSettled (
          lost k reason (record q {
            offered = q.offered + 1;
            overflow = overflow;
            post_shutdown = post_shutdown;
            handoff_failed = handoff_failed;
          }))
  refusing k overflow post_shutdown handoff_failed reason = lost-IsSettled k reason _ (record {
    table = record { distinct = h.table.distinct; live = h.table.live; fresh = h.table.fresh };
    bound = h.bound;
    all_numbered = h.all_numbered;
  })

  accepting :
      (r : ℕ) (es : List Export) (raises : Bool)
      → find r q.pending ≡ none
      → IsSettled
          (let q' = exports es (enter r q) in if raises then withdraw r q' else admit q.created q')
  accepting r es raises absent =
      let q' = exports es (enter r q) in
      let inside : IsAloft r q.created q' =
        exports-IsAloft r q.created es (enter r q) (entering r q h absent) in
      if-keeps IsSettled raises {x = withdraw r q'} {y = admit q.created q'}
        (λ _. leaving r q.created q' inside) (λ _. admitting r q.created q' inside)

  handoff-IsSettled : (r : ℕ) (es : List Export) (raises : Bool) → IsSettled (handoff r es raises q)
  unfolding handoff
  handoff-IsSettled r es raises =
      if-keeps IsSettled q.closed
        (λ _. refusing 1 q.overflow (q.post_shutdown + 1) q.handoff_failed shutdown)
        λ open_still.
          if-keeps IsSettled (leb q.capacity (length q.pending))
            (λ _. refusing 1 (q.overflow + 1) q.post_shutdown q.handoff_failed queue_overflow)
            λ room.
              if-keeps IsSettled (is_some (find r q.pending))
                (λ _. refusing 1 q.overflow q.post_shutdown (q.handoff_failed + 1) handoff_failure)
                λ absent. accepting r es raises (ground arith)

  aborting : IsSettled (abort_queued q)
  unfolding abort_queued
  aborting =
      if-keeps IsSettled q.aborted (λ _. h)
        (λ _. lost-IsSettled (length (retiring q)) shutdown (retired_queue q) (record {
          table = retired_queue-Table q h.table;
          bound = omega (arith, length-select-numbered waits q.pending h.all_numbered, h.bound);
          all_numbered = count-select_zero stays unnumbered q.pending h.all_numbered;
        }))

  closing : IsSettled (close q)
  unfolding close
  closing = record {
    table = record { distinct = h.table.distinct; live = h.table.live; fresh = h.table.fresh };
    bound = h.bound;
    all_numbered = h.all_numbered;
  }

perform-IsSettled : (c : Call) (q : Queue) → IsSettled q → IsSettled (perform c q)
unfolding perform reject_late
perform-IsSettled (hand r es raises) q h = handoff-IsSettled q h r es raises
perform-IsSettled (export_call e) q h = export-IsSettled e q h
perform-IsSettled close_call q h = closing q h
perform-IsSettled abort_call q h = aborting q h
perform-IsSettled late_call q h =
    refusing q h 1 q.overflow (q.post_shutdown + 1) q.handoff_failed shutdown

pub run-IsSettled : (cs : List Call) (q : Queue) → IsSettled q → IsSettled (run cs q)
unfolding run
run-IsSettled [] q h = h
run-IsSettled (c ∷ cs) q h = run-IsSettled cs (perform c q) (perform-IsSettled c q h)

pub new-IsSettled : (capacity : ℕ) (q : Queue) → new capacity ≡ some q → IsSettled q
unfolding new
new-IsSettled capacity q made =
    let b = new-IsBalanced capacity q made in
    record {
      table = b.table;
      bound = omega (arith, b.counts.admissions);
      all_numbered = b.all_numbered;
    }
