-- ===== src/Telemetry/Samples.antt =====
-- Runs of the queue on small inputs, and its theorems at concrete data.
use teaql_python.Base.{ℕ, ◌≡◌, refl, true, false, some, List, [], ◌∷◌}
use teaql_python.Telemetry.Queue.{Queue, new, begin, finish, snapshot, awaits, wait}
use teaql_python.Telemetry.Runs.{
  Call, hand, export_call, close_call, abort_call, run, leaves_exports, empty, Reconciles,
  run-Reconciles,
}
use teaql_python.Telemetry.Offers.{OffersAreKept, run-OffersAreKept}
use teaql_python.Telemetry.Waiting.{Stopped, wait-Stopped}

-- Record 7 is exported, 8 exports within `submit`, so does 4 before its `submit` raises, 9 overflows, 5 is retired by the abort.
abbrev calls : List Call
calls =
    hand 7 [] false
    ∷ hand 8 (begin (8 ∷ []) ∷ finish 0 false ∷ []) false
    ∷ hand 4 (begin (4 ∷ []) ∷ finish 1 false ∷ []) true
    ∷ hand 5 [] false
    ∷ hand 9 [] false
    ∷ export_call (begin (7 ∷ []))
    ∷ close_call
    ∷ hand 6 [] false
    ∷ abort_call
    ∷ export_call (finish 2 true)
    ∷ []

calls-plain : leaves_exports calls (empty 2) ≡ false
unfolding leaves_exports
calls-plain = refl

calls-snapshot : snapshot (run calls (empty 2)) ≡ record {
  offered = 6;
  admitted = 3;
  completed = 2;
  outstanding = 0;
  exporting_count = 0;
  overflow = 1;
  post_shutdown = 1;
  handoff_failed = 1;
  retired_count = 1;
}
unfolding snapshot run
calls-snapshot = refl

run-Reconciles_example : Reconciles (run calls (empty 2))
run-Reconciles_example = run-Reconciles 2 (empty 2) calls new_two calls-plain
  where
    new_two : new 2 ≡ some (empty 2)
    new_two = unfold new in refl

run-OffersAreKept_example : OffersAreKept (
    run
      (hand 7 (begin (7 ∷ []) ∷ []) true ∷ hand 7 [] false ∷ export_call (finish 0 false) ∷ [])
      (empty 2))
run-OffersAreKept_example =
    run-OffersAreKept 2 (empty 2)
      (hand 7 (begin (7 ∷ []) ∷ []) true ∷ hand 7 [] false ∷ export_call (finish 0 false) ∷ [])
      (unfold new in refl)

-- A `submit` that began the export of its record and raised leaves a ticket for it. When the record
-- is handed off again, the completion of that ticket takes the new admission out uncounted.
stale_ticket :
    snapshot (
      run
        (hand 7 (begin (7 ∷ []) ∷ []) true ∷ hand 7 [] false ∷ export_call (finish 0 false) ∷ [])
        (empty 2))
    ≡ record {
      offered = 2;
      admitted = 1;
      completed = 0;
      outstanding = 0;
      exporting_count = 0;
      overflow = 0;
      post_shutdown = 0;
      handoff_failed = 1;
      retired_count = 0;
    }
unfolding snapshot run
stale_ticket = refl

abbrev busy : Queue
busy = run (hand 7 [] false ∷ []) (empty 2)

abbrev settled : Queue
settled =
    run (hand 7 [] false ∷ export_call (begin (7 ∷ [])) ∷ export_call (finish 0 false) ∷ [])
      (empty 2)

-- a thread that waits for record 7 until time 10 sees it pending at 3 and exported at 6
abbrev seen : List (Queue × ℕ)
seen = (busy, 3) ∷ (settled, 6) ∷ []

seen-true : wait (awaits 1) 10 seen ≡ some true
unfolding wait awaits run
seen-true = refl

wait-Stopped_example : Stopped (awaits 1) 10 seen true
wait-Stopped_example = wait-Stopped (awaits 1) 10 seen true seen-true
