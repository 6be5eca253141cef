-- ===== src/Telemetry/Refusals.antt =====
-- A loss is reported: the books balance once the report is in. Refusals and the abort end so.
use mathlib.Core.Bool.{not}
use teaql_python.Base.{
  ℕ, ◌+◌, ◌≤◌, ◌≡◌, refl, Bool, true, none, some, List, [], ◌∷◌, ◌++◌, arith, length, count,
  if◌then◌else◌, All-map, select, map, inl, inr, if-keeps, Option-cases,
}
use teaql_python.Telemetry.Queue.{
  retired, is_queued, Admission, Reason, shutdown, queue_overflow, handoff_failure, Queue, find,
  lost, abort_queued,
}
use teaql_python.Telemetry.Entries.{numbered, unnumbered, DistinctRecords}
use teaql_python.Telemetry.Phases.{phase_of-select, phase_of-retire, phase_of-append, select-IsLive}
use teaql_python.Telemetry.Books.{same_reason, total, Table, Holding, Held, IsBalanced}
use teaql_python.Telemetry.Keeping.{total-lost, lost_only}

-- The books balance but for `k` records lost for `reason`, which are to be reported.
pub record Owes (k : ℕ) (reason : Reason) (q : Queue) : Type 0 where
  pub table : Table q
  pub holding : Holding q.pending q.tickets
  pub all_numbered : count unnumbered q.pending ≡ 0
  pub offers : q.offered ≡ q.admitted + q.overflow + q.post_shutdown + q.handoff_failed
  pub admissions : q.admitted ≡ q.completed + q.retired_count + count numbered q.pending
  pub fits : length q.pending ≤ q.capacity
  pub overflows :
      total queue_overflow q.losses + (if same_reason queue_overflow reason then k else 0)
      ≡ q.overflow
  pub shutdowns :
      total shutdown q.losses + (if same_reason shutdown reason then k else 0)
      ≡ q.post_shutdown + q.retired_count
  pub failures :
      total handoff_failure q.losses + (if same_reason handoff_failure reason then k else 0)
      ≡ q.handoff_failed

pub lost-Owes :
    (k : ℕ) (reason : Reason) (q : Queue) → Owes k reason q → IsBalanced (lost k reason q)
unfolding lost
lost-Owes k reason q o = record {
  table =
      lost_only k reason q Table o.table
        (λ x t. record { distinct = t.distinct; live = t.live; fresh = t.fresh });
  counts = record {
    offers = ground (arith, o.offers);
    admissions = ground (arith, o.admissions);
    fits = ground (arith, o.fits);
    lost_overflow = ground (arith, total-lost k reason q queue_overflow, o.overflows);
    lost_shutdown = ground (arith, total-lost k reason q shutdown, o.shutdowns);
    lost_handoff = ground (arith, total-lost k reason q handoff_failure, o.failures);
  };
  holding = lost_only k reason q (λ x. Holding x.pending x.tickets) o.holding (λ x h. h);
  all_numbered = ground (arith, o.all_numbered);
}

module _ (p : Admission → Bool) (r : ℕ) where
  find-select-none : (l : List Admission) → find r l ≡ none → find r (select p l) ≡ none
  unfolding find
  find-select-none [] h = refl
  find-select-none (a ∷ l) h = ground (arith, find-select-none l)

  find-select_kept :
      (l : List Admission) (a : Admission)
      → find r l ≡ some a
      → p a ≡ true
      → find r (select p l) ≡ some a
  unfolding find
  find-select_kept [] a h k = cc
  find-select_kept (b ∷ l) a h k = ground (arith, find-select_kept l a)

module _ (p : Admission → Bool) where
  select-DistinctRecords : (l : List Admission) → DistinctRecords l → DistinctRecords (select p l)
  select-DistinctRecords [] d = tt
  select-DistinctRecords (a ∷ l) d =
      ground (arith, select-DistinctRecords l d.1, find-select-none p a.record_id l)

  pub length-select : (l : List Admission) → length (select p l) ≤ length l
  length-select [] = omega arith
  length-select (a ∷ l) = ground (arith, length-select l)

  pub count-select_zero :
      (f : Admission → Bool) (l : List Admission) → count f l ≡ 0 → count f (select p l) ≡ 0
  unfolding count
  count-select_zero f [] h = refl
  count-select_zero f (a ∷ l) h = ground (arith, count-select_zero f l)

  -- Where all have a number, those taken out are as many as the count falls by.
  pub length-select-numbered :
      (l : List Admission)
      → count unnumbered l ≡ 0
      → length (select p l) + count numbered (select (λ a. not (p a)) l) ≡ count numbered l
  unfolding count
  length-select-numbered [] h = refl
  length-select-numbered (a ∷ l) h = ground (arith, length-select-numbered l)

abbrev pub waits : Admission → Bool
waits a = is_queued a.phase

abbrev pub stays : Admission → Bool
stays a = not (is_queued a.phase)

Held-select : (l : List Admission) (a : Admission) → Held l a → Held (select stays l) a
Held-select l a h = elim (Option-cases (find a.record_id l)) [
  | inl absent ↦ absurd (ground arith)
  | inr (p, found) ↦ ground (arith, find-select_kept stays a.record_id l p)
]

abbrev pub retiring : Queue → List Admission
retiring q = select waits q.pending

abbrev pub retired_queue : Queue → Queue
retired_queue q = record q {
  aborted = true;
  pending = select stays q.pending;
  gone = map (λ (a : Admission). record a { phase = retired }) (retiring q) ++ q.gone;
  retired_count = q.retired_count + length (retiring q);
}

pub retired_queue-Table : (q : Queue) → Table q → Table (retired_queue q)
retired_queue-Table q t = record {
  distinct = select-DistinctRecords stays q.pending t.distinct;
  live = select-IsLive stays q.pending t.live;
  fresh = λ s h. (
    phase_of-select s stays q.pending (t.fresh s h).0,
    ground (
      arith,
      phase_of-append s (map (λ (a : Admission). record a { phase = retired }) (retiring q)) q.gone,
      phase_of-retire s (retiring q) (phase_of-select s waits q.pending (t.fresh s h).0),
      (t.fresh s h).1,
    ),
  );
}

retired_queue-Owes :
    (q : Queue) → IsBalanced q → Owes (length (retiring q)) shutdown (retired_queue q)
retired_queue-Owes q b = record {
  table = retired_queue-Table q b.table;
  holding = record {
    held = λ i t at unfinished.
        All-map t.admissions (Held-select q.pending) (b.holding.held i t at unfinished);
    apart = b.holding.apart;
  };
  all_numbered = count-select_zero stays unnumbered q.pending b.all_numbered;
  offers = omega (arith, b.counts.offers);
  admissions =
      omega (arith, length-select-numbered waits q.pending b.all_numbered, b.counts.admissions);
  fits = omega (arith, length-select stays q.pending, b.counts.fits);
  overflows = omega (arith, b.counts.lost_overflow);
  shutdowns = omega (arith, b.counts.lost_shutdown);
  failures = omega (arith, b.counts.lost_handoff);
}

pub abort-IsBalanced : (q : Queue) → IsBalanced q → IsBalanced (abort_queued q)
unfolding abort_queued
abort-IsBalanced q b =
    if-keeps IsBalanced q.aborted (λ _. b)
      (λ _. lost-Owes (length (retiring q)) shutdown (retired_queue q) (retired_queue-Owes q b))

module _ (q : Queue) (b : IsBalanced q) where
  pub refused_shut :
      IsBalanced (
        lost 1 shutdown (record q { offered = q.offered + 1; post_shutdown = q.post_shutdown + 1 }))
  refused_shut = lost-Owes 1 shutdown _ (record {
    table = record { distinct = b.table.distinct; live = b.table.live; fresh = b.table.fresh };
    holding = b.holding;
    all_numbered = b.all_numbered;
    offers = omega (arith, b.counts.offers);
    admissions = b.counts.admissions;
    fits = b.counts.fits;
    overflows = omega (arith, b.counts.lost_overflow);
    shutdowns = omega (arith, b.counts.lost_shutdown);
    failures = omega (arith, b.counts.lost_handoff);
  })

  pub refused_full :
      IsBalanced
        (lost 1 queue_overflow (record q { offered = q.offered + 1; overflow = q.overflow + 1 }))
  refused_full = lost-Owes 1 queue_overflow _ (record {
    table = record { distinct = b.table.distinct; live = b.table.live; fresh = b.table.fresh };
    holding = b.holding;
    all_numbered = b.all_numbered;
    offers = omega (arith, b.counts.offers);
    admissions = b.counts.admissions;
    fits = b.counts.fits;
    overflows = omega (arith, b.counts.lost_overflow);
    shutdowns = omega (arith, b.counts.lost_shutdown);
    failures = omega (arith, b.counts.lost_handoff);
  })

  pub refused_present : IsBalanced (
      lost 1 handoff_failure
        (record q { offered = q.offered + 1; handoff_failed = q.handoff_failed + 1 }))
  refused_present = lost-Owes 1 handoff_failure _ (record {
    table = record { distinct = b.table.distinct; live = b.table.live; fresh = b.table.fresh };
    holding = b.holding;
    all_numbered = b.all_numbered;
    offers = omega (arith, b.counts.offers);
    admissions = b.counts.admissions;
    fits = b.counts.fits;
    overflows = omega (arith, b.counts.lost_overflow);
    shutdowns = omega (arith, b.counts.lost_shutdown);
    failures = omega (arith, b.counts.lost_handoff);
  })
