-- ===== src/Telemetry/Offers.antt =====
-- What the queue says of the offers and of the losses, whatever `submit` does before it raises.
use mathlib.Core.Path.{subst}
use mathlib.Core.Bool.{not}
use teaql_python.Base.{
  ℕ, ◌+◌, ◌≤◌, ◌<◌, ◌≡◌, refl, Bool, none, some, List, [], ◌∷◌, arith, length, if◌then◌else◌,
  is_some, if-keeps, leb, select, length-append,
}
use teaql_python.Telemetry.Queue.{
  queued, is_queued, Admission, shutdown, queue_overflow, handoff_failure, Queue, new, find, lost,
  Export, exports, handoff, enter, admit, withdraw, close, abort_queued, reject_late, snapshot,
}
use teaql_python.Telemetry.Entries.{count-numbered, length-remove, length-number}
use teaql_python.Telemetry.Books.{total}
use teaql_python.Telemetry.Refusals.{length-select}
use teaql_python.Telemetry.Runs.{
  Call, hand, export_call, close_call, abort_call, late_call, perform, run, empty,
}
use teaql_python.Telemetry.Admissions.{IsSettled, run-IsSettled, new-IsSettled}
use teaql_python.Telemetry.Fair.{IsFair, lost-IsFair, export-IsFair, exports-IsFair}

module _ (r : ℕ) (q : Queue) where
  abbrev entry : Admission
  entry = record { serial = q.created; record_id = r; sequence = none; phase = queued }

  entering : length q.pending < q.capacity → IsFair 0 q → IsFair 1 (enter r q)
  unfolding enter
  entering room h = record {
    offers = omega (arith, h.offers);
    fits = omega (arith, length-append q.pending (entry ∷ []));
    overflows = h.overflows;
    shutdowns = h.shutdowns;
    failures = h.failures;
  }

  leaving : IsFair 1 q → IsFair 0 (withdraw r q)
  unfolding withdraw
  leaving h = lost-IsFair 0 1 handoff_failure _ (record {
    offers = omega (arith, h.offers);
    fits = omega (arith, length-remove r q.pending, h.fits);
    overflows = h.overflows;
    shutdowns = h.shutdowns;
    failures = omega (arith, h.failures);
  })

  admitting : (s : ℕ) → IsFair 1 q → IsFair 0 (admit s q)
  unfolding admit
  admitting s h = record {
    offers = omega (arith, h.offers);
    fits = rw (length-number s (q.admitted + 1) q.pending) h.fits;
    overflows = h.overflows;
    shutdowns = h.shutdowns;
    failures = h.failures;
  }

module _ (q : Queue) (h : IsFair 0 q) where
  late :
      IsFair 0 (
        lost 1 shutdown (record q { offered = q.offered + 1; post_shutdown = q.post_shutdown + 1 }))
  late = lost-IsFair 0 1 shutdown _ (record {
    offers = omega (arith, h.offers);
    fits = h.fits;
    overflows = h.overflows;
    shutdowns = omega (arith, h.shutdowns);
    failures = h.failures;
  })

  full :
      IsFair 0
        (lost 1 queue_overflow (record q { offered = q.offered + 1; overflow = q.overflow + 1 }))
  full = lost-IsFair 0 1 queue_overflow _ (record {
    offers = omega (arith, h.offers);
    fits = h.fits;
    overflows = omega (arith, h.overflows);
    shutdowns = h.shutdowns;
    failures = h.failures;
  })

  present : IsFair 0 (
      lost 1 handoff_failure
        (record q { offered = q.offered + 1; handoff_failed = q.handoff_failed + 1 }))
  present = lost-IsFair 0 1 handoff_failure _ (record {
    offers = omega (arith, h.offers);
    fits = h.fits;
    overflows = h.overflows;
    shutdowns = h.shutdowns;
    failures = omega (arith, h.failures);
  })

  retiring : IsFair 0 (abort_queued q)
  unfolding abort_queued
  retiring =
      if-keeps (IsFair 0) q.aborted (λ _. h)
        (λ _.
          lost-IsFair 0 (length (select (λ a. is_queued a.phase) q.pending)) shutdown _ (record {
            offers = h.offers;
            fits = omega (arith, length-select (λ a. not (is_queued a.phase)) q.pending, h.fits);
            overflows = h.overflows;
            shutdowns = omega (arith, h.shutdowns);
            failures = h.failures;
          }))

  accepting :
      (r : ℕ) (es : List Export) (raises : Bool)
      → length q.pending < q.capacity
      → IsFair 0
          (let q' = exports es (enter r q) in if raises then withdraw r q' else admit q.created q')
  accepting r es raises room =
      let q' = exports es (enter r q) in
      let inside : IsFair 1 q' = exports-IsFair 1 es (enter r q) (entering r q room h) in
      if-keeps (IsFair 0) raises {x = withdraw r q'} {y = admit q.created q'}
        (λ _. leaving r q' inside) (λ _. admitting r q' q.created inside)

  handoff-IsFair : (r : ℕ) (es : List Export) (raises : Bool) → IsFair 0 (handoff r es raises q)
  unfolding handoff
  handoff-IsFair r es raises =
      if-keeps (IsFair 0) q.closed (λ _. late)
        λ open_still.
          if-keeps (IsFair 0) (leb q.capacity (length q.pending)) (λ _. full)
            λ room.
              if-keeps (IsFair 0) (is_some (find r q.pending)) (λ _. present)
                λ absent. accepting r es raises (ground arith)

  closing : IsFair 0 (close q)
  unfolding close
  closing = record {
    offers = h.offers;
    fits = h.fits;
    overflows = h.overflows;
    shutdowns = h.shutdowns;
    failures = h.failures;
  }

perform-IsFair : (c : Call) (q : Queue) → IsFair 0 q → IsFair 0 (perform c q)
unfolding perform reject_late
perform-IsFair (hand r es raises) q h = handoff-IsFair q h r es raises
perform-IsFair (export_call e) q h = export-IsFair 0 e q h
perform-IsFair close_call q h = closing q h
perform-IsFair abort_call q h = retiring q h
perform-IsFair late_call q h = late q h

run-IsFair : (cs : List Call) (q : Queue) → IsFair 0 q → IsFair 0 (run cs q)
unfolding run
run-IsFair [] q h = h
run-IsFair (c ∷ cs) q h = run-IsFair cs (perform c q) (perform-IsFair c q h)

new-IsFair : (capacity : ℕ) (q : Queue) → new capacity ≡ some q → IsFair 0 q
unfolding new total
new-IsFair capacity q made =
    let e : empty capacity ≡ q = ground arith in
    subst (IsFair 0) e (record {
      offers = refl;
      fits = omega arith;
      overflows = refl;
      shutdowns = refl;
      failures = refl;
    })

-- What a snapshot says of the offers, and what was reported lost.
pub record OffersAreKept (q : Queue) : Type 0 where
  pub every_offer :
      (snapshot q).offered
      ≡ (snapshot q).admitted
        + (snapshot q).overflow
        + (snapshot q).post_shutdown
        + (snapshot q).handoff_failed
  pub once :
      (snapshot q).completed + (snapshot q).retired_count + (snapshot q).outstanding
      ≤ (snapshot q).admitted
  pub within : (snapshot q).outstanding ≤ q.capacity
  pub overflows : total queue_overflow q.losses ≡ (snapshot q).overflow
  pub shutdowns : total shutdown q.losses ≡ (snapshot q).post_shutdown + (snapshot q).retired_count
  pub failures : total handoff_failure q.losses ≡ (snapshot q).handoff_failed

-- After any calls on a new queue, whatever `submit` exports before it raises: the offers are the
-- admissions, overflows, late offers and failed handoffs together; the completed, the retired and the
-- outstanding records are together no more than the admissions; the outstanding ones are at most the
-- capacity; and the losses reported for overflow, shutdown and failed handoff are those of
-- the counters.
pub run-OffersAreKept :
    (capacity : ℕ) (q : Queue) (cs : List Call) → new capacity ≡ some q → OffersAreKept (run cs q)
unfolding snapshot
run-OffersAreKept capacity q cs made = record {
  every_offer = omega (arith, fair.offers);
  once = omega (arith, settled.bound, settled.all_numbered, count-numbered (run cs q).pending);
  within = fair.fits;
  overflows = omega (arith, fair.overflows);
  shutdowns = omega (arith, fair.shutdowns);
  failures = omega (arith, fair.failures);
}
  where
    fair : IsFair 0 (run cs q)
    fair = run-IsFair cs q (new-IsFair capacity q made)

    settled : IsSettled (run cs q)
    settled = run-IsSettled cs q (new-IsSettled capacity q made)
