-- ===== src/Telemetry/Runs.antt =====
-- The methods one after another, as the lock orders the calls of the threads, and what a client
-- sees after any of them.
use mathlib.Core.Path.{subst}
use teaql_python.Base.{
  ℕ, ◌+◌, ◌≤◌, ◌<◌, ◌≡◌, refl, Bool, true, false, none, some, List, [], ◌∷◌, arith, length, count,
  if◌then◌else◌, is_some, if-keeps, leb, ◌&&◌, ◌||◌, not,
}
use teaql_python.Telemetry.Queue.{
  shutdown, queue_overflow, handoff_failure, Queue, new, find, phase_of, Export, export, exports,
  handoff, enter, admit, withdraw, close, abort_queued, reject_late, snapshot,
}
use teaql_python.Telemetry.Entries.{count-numbered}
use teaql_python.Telemetry.Books.{total, IsBalanced}
use teaql_python.Telemetry.Refusals.{abort-IsBalanced, refused_shut, refused_full, refused_present}
use teaql_python.Telemetry.Withdrawal.{is_in_export, withdraw-IsBalanced}
use teaql_python.Telemetry.Balance.{
  export-IsBalanced, exports-InHandoff, enter-InHandoff, admit-IsBalanced,
}

pub data Call : Type 0 where
  hand : ℕ → List Export → Bool → Call
  export_call : Export → Call
  close_call abort_call late_call : Call

unfoldable pub perform : Call → Queue → Queue
unfolding handoff export close abort_queued reject_late
perform (hand r es raises) q = handoff r es raises q
perform (export_call e) q = export e q
perform close_call q = close q
perform abort_call q = abort_queued q
perform late_call q = reject_late q

unfoldable pub run : List Call → Queue → Queue
unfolding perform
run [] q = q
run (c ∷ cs) q = run cs (perform c q)

-- `handoff` calls `submit`, which raises while an export that has begun holds the record.
unfoldable pub leaves_export : Call → Queue → Bool
unfolding exports enter find
leaves_export (hand r es raises) q =
    raises
    && not q.closed
    && not (leb q.capacity (length q.pending))
    && not (is_some (find r q.pending))
    && is_in_export r (exports es (enter r q))
leaves_export _ q = false

-- One of the calls does.
unfoldable pub leaves_exports : List Call → Queue → Bool
unfolding leaves_export perform
leaves_exports [] q = false
leaves_exports (c ∷ cs) q = let rest = leaves_exports cs (perform c q) in leaves_export c q || rest

-- A record that no guard refuses.
module _ (q : Queue) (b : IsBalanced q) where
  accepted :
      (r : ℕ) (es : List Export) (raises : Bool)
      → (raises && is_in_export r (exports es (enter r q))) ≡ false
      → find r q.pending ≡ none
      → length q.pending < q.capacity
      → IsBalanced
          (let q' = exports es (enter r q) in if raises then withdraw r q' else admit q.created q')
  accepted r es true plain absent room =
      withdraw-IsBalanced r q.created (exports es (enter r q))
        (exports-InHandoff r q.created es (enter r q) (enter-InHandoff r q b absent room)) plain
  accepted r es false plain absent room =
      admit-IsBalanced r q.created (exports es (enter r q))
        (exports-InHandoff r q.created es (enter r q) (enter-InHandoff r q b absent room))

handoff-IsBalanced :
    (r : ℕ) (es : List Export) (raises : Bool) (q : Queue)
    → leaves_export (hand r es raises) q ≡ false
    → IsBalanced q
    → IsBalanced (handoff r es raises q)
unfolding handoff leaves_export
handoff-IsBalanced r es raises q plain b =
    if-keeps IsBalanced q.closed (λ shut. refused_shut q b)
      λ open_still.
        if-keeps IsBalanced (leb q.capacity (length q.pending)) (λ full. refused_full q b)
          λ room.
            if-keeps IsBalanced (is_some (find r q.pending)) (λ present. refused_present q b)
              λ absent. accepted q b r es raises (ground arith) (ground arith) (ground arith)

perform-IsBalanced :
    (c : Call) (q : Queue) → leaves_export c q ≡ false → IsBalanced q → IsBalanced (perform c q)
unfolding perform
perform-IsBalanced (hand r es raises) q plain b = handoff-IsBalanced r es raises q plain b
perform-IsBalanced (export_call e) q plain b = export-IsBalanced e q b
perform-IsBalanced close_call q plain b = record {
  table = record { distinct = b.table.distinct; live = b.table.live; fresh = b.table.fresh };
  counts = record {
    offers = b.counts.offers;
    admissions = b.counts.admissions;
    fits = b.counts.fits;
    lost_overflow = b.counts.lost_overflow;
    lost_shutdown = b.counts.lost_shutdown;
    lost_handoff = b.counts.lost_handoff;
  };
  holding = b.holding;
  all_numbered = b.all_numbered;
}
perform-IsBalanced abort_call q plain b = abort-IsBalanced q b
perform-IsBalanced late_call q plain b = refused_shut q b

pub run-IsBalanced :
    (cs : List Call) (q : Queue)
    → leaves_exports cs q ≡ false
    → IsBalanced q
    → IsBalanced (run cs q)
unfolding run leaves_exports
run-IsBalanced [] q plain b = b
run-IsBalanced (c ∷ cs) q plain b =
    run-IsBalanced cs (perform c q) (ground arith) (perform-IsBalanced c q (ground arith) b)

-- A new queue has nothing to account for.
abbrev pub empty : ℕ → Queue
empty capacity = record {
  capacity = capacity;
  pending = [];
  gone = [];
  created = 0;
  tickets = [];
  offered = 0;
  admitted = 0;
  completed = 0;
  overflow = 0;
  post_shutdown = 0;
  handoff_failed = 0;
  retired_count = 0;
  closed = false;
  aborted = false;
  losses = [];
}

empty-IsBalanced : (capacity : ℕ) → IsBalanced (empty capacity)
unfolding total count phase_of
empty-IsBalanced capacity = record {
  table = record { distinct = tt; live = tt; fresh = λ s h. (refl, refl) };
  counts = record {
    offers = refl;
    admissions = refl;
    fits = omega arith;
    lost_overflow = refl;
    lost_shutdown = refl;
    lost_handoff = refl;
  };
  holding = record { held = λ i t at un. cc; apart = λ i j t u at at' ne un un'. cc };
  all_numbered = refl;
}

pub new-IsBalanced : (capacity : ℕ) (q : Queue) → new capacity ≡ some q → IsBalanced q
unfolding new
new-IsBalanced capacity q h =
    let e : empty capacity ≡ q = ground arith in subst IsBalanced e (empty-IsBalanced capacity)

-- What a snapshot says of the offers, and the report of losses of the snapshot.
pub record Reconciles (q : Queue) : Type 0 where
  pub every_offer :
      (snapshot q).offered
      ≡ (snapshot q).admitted
        + (snapshot q).overflow
        + (snapshot q).post_shutdown
        + (snapshot q).handoff_failed
  pub every_admission :
      (snapshot q).admitted
      ≡ (snapshot q).completed + (snapshot q).retired_count + (snapshot q).outstanding
  pub within : (snapshot q).outstanding ≤ q.capacity
  pub overflows : total queue_overflow q.losses ≡ (snapshot q).overflow
  pub shutdowns : total shutdown q.losses ≡ (snapshot q).post_shutdown + (snapshot q).retired_count
  pub failures : total handoff_failure q.losses ≡ (snapshot q).handoff_failed

-- After any calls on a new queue, none of which is a handoff whose `submit` raises while an export that has
-- begun and not completed holds the record: the offers are the admissions, overflows, late offers and failed
-- handoffs together; the admissions are the completed, the retired and the outstanding ones; the outstanding
-- ones are at most the capacity; and the losses reported for overflow, shutdown and failed handoff are those
-- of the counters.
pub run-Reconciles :
    (capacity : ℕ) (q : Queue) (cs : List Call)
    → new capacity ≡ some q
    → leaves_exports cs q ≡ false
    → Reconciles (run cs q)
unfolding snapshot
run-Reconciles capacity q cs made plain = record {
  every_offer = omega (arith, books.counts.offers);
  every_admission =
      omega (arith, books.counts.admissions, count-numbered (run cs q).pending, books.all_numbered);
  within = books.counts.fits;
  overflows = books.counts.lost_overflow;
  shutdowns = books.counts.lost_shutdown;
  failures = books.counts.lost_handoff;
}
  where
    books : IsBalanced (run cs q)
    books = run-IsBalanced cs q plain (new-IsBalanced capacity q made)
