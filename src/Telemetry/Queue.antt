-- ===== src/Telemetry/Queue.antt =====
-- src/teaql/runtime/telemetry_queue.py: `ExportQueue`. A record is known by its `id()`, a number, and
-- an `_Admission` object by the number of its creation. An admission that left `pending` is kept in
-- `gone`, since the `handoff` that made it reads its state once more. Every method runs under one
-- re-entrant lock, so between threads the methods are atomic; within `submit` the SDK may export on
-- the same thread, and those calls are the `Export` list of a `handoff`.
use teaql_python.Base.{
  ℕ, ◌+◌, Bool, true, false, not, ◌&&◌, Option, none, some, List, [], ◌∷◌, ◌++◌, ltb, leb, eqb,
  if◌then◌else◌, length, any, contains, nat_eq, is_some, get_elem?, set, select, count, map,
}

pub data Phase : Type 0 where
  queued exporting complete retired : Phase

abbrev pub is_queued : Phase → Bool
is_queued queued = true
is_queued _ = false

abbrev pub is_exporting : Phase → Bool
is_exporting exporting = true
is_exporting _ = false

abbrev pub is_complete : Option Phase → Bool
is_complete (some complete) = true
is_complete _ = false

pub record Admission : Type 0 where
  pub serial : ℕ
  pub record_id : ℕ
  pub sequence : Option ℕ
  pub phase : Phase

pub data Reason : Type 0 where
  shutdown queue_overflow handoff_failure export_failure : Reason

-- What `on_loss` was told; an exception of the callback is swallowed.
pub record Loss : Type 0 where
  pub amount : ℕ
  pub reason : Reason

-- The closure that `begin_export` returns.
pub record Ticket : Type 0 where
  pub admissions : List Admission
  pub completed : Bool

pub record Queue : Type 0 where
  pub capacity : ℕ
  pub pending : List Admission
  pub gone : List Admission
  pub created : ℕ
  pub tickets : List Ticket
  pub offered : ℕ
  pub admitted : ℕ
  pub completed : ℕ
  pub overflow : ℕ
  pub post_shutdown : ℕ
  pub handoff_failed : ℕ
  pub retired_count : ℕ
  pub closed : Bool
  pub aborted : Bool
  pub losses : List Loss

-- `ExportQueue(signal, capacity, on_loss)`; `none` is the `ValueError`.
unfoldable pub new : ℕ → Option Queue
new capacity =
    if ltb capacity 1
    then none
    else some (record {
      capacity = capacity;
      pending = [];
      gone = [];
      created = 0;
      tickets = [];
      offered = 0;
      admitted = 0;
      completed = 0;
      overflow = 0;
      post_shutdown = 0;
      handoff_failed = 0;
      retired_count = 0;
      closed = false;
      aborted = false;
      losses = [];
    })

-- `_lost`
unfoldable pub lost : ℕ → Reason → Queue → Queue
lost amount reason q =
    if eqb amount 0
    then q
    else record q { losses = q.losses ++ (record { amount = amount; reason = reason } ∷ []) }

-- `pending.get(id(record))`
unfoldable pub find : ℕ → List Admission → Option Admission
find r [] = none
find r (a ∷ l) = if eqb a.record_id r then some a else find r l

-- `pending.pop(id(record), None)`, the entry that stays behind in `gone` apart
unfoldable pub remove : ℕ → List Admission → List Admission
remove r [] = []
remove r (a ∷ l) = let rest = remove r l in if eqb a.record_id r then rest else a ∷ rest

-- The state of an admission object, in `pending` or out of it.
unfoldable pub phase_of : ℕ → List Admission → Option Phase
phase_of s [] = none
phase_of s (a ∷ l) = if eqb a.serial s then some a.phase else phase_of s l

-- `admission.sequence = n`
unfoldable pub number : ℕ → ℕ → List Admission → List Admission
number s n [] = []
number s n (a ∷ l) =
    let rest = number s n l in
    if eqb a.serial s then record a { sequence = some n } ∷ rest else a ∷ rest

-- `item.state = 'exporting'` for the records of a batch
unfoldable pub mark_exporting : List ℕ → List Admission → List Admission
mark_exporting records [] = []
mark_exporting records (a ∷ l) =
    let rest = mark_exporting records l in
    if contains records a.record_id then record a { phase = exporting } ∷ rest else a ∷ rest

-- The admissions of a batch, or `none` if one of them may not be exported.
unfoldable pub batch : List ℕ → List Admission → Option (List Admission)
unfolding find
batch [] pending = some []
batch (r ∷ records) pending = elim (find r pending) [
  | none ↦ none
  | some item ↦
      if eqb item.record_id r && is_queued item.phase
      then (elim (batch records pending) [ none ↦ none | some rest ↦ some (item ∷ rest) ])
      else none
]

unfoldable pub begin_export : List ℕ → Queue → Queue
unfolding batch mark_exporting
begin_export records q = if q.aborted then q else elim (batch records q.pending) [
  | none ↦ q
  | some admissions ↦ record q {
    pending = mark_exporting records q.pending;
    tickets = q.tickets ++ (record { admissions = admissions; completed = false } ∷ []);
  }
]

-- One round of the loop of `complete`, with the count of settled admissions.
unfoldable pub settle : Admission → Queue × ℕ → Queue × ℕ
unfolding find remove
settle item (q, settled) = elim (find item.record_id q.pending) [
  | none ↦ (q, settled)
  | some popped ↦
      if eqb popped.serial item.serial
      then (
        record q {
          pending = remove item.record_id q.pending;
          gone = record popped { phase = complete } ∷ q.gone;
          completed = if is_some popped.sequence then q.completed + 1 else q.completed;
        },
        settled + 1,
      )
      else (record q { pending = remove item.record_id q.pending; gone = popped ∷ q.gone }, settled)
]

unfoldable pub settle_all : List Admission → Queue × ℕ → Queue × ℕ
unfolding settle
settle_all [] s = s
settle_all (item ∷ items) s = settle_all items (settle item s)

-- A call of the closure that `begin_export` returned as number `i`.
unfoldable pub complete_export : ℕ → Bool → Queue → Queue
unfolding settle_all lost
complete_export i failed q = elim (get_elem? q.tickets i) [
  | none ↦ q
  | some t ↦
      if t.completed
      then q
      else let (q', settled) =
          settle_all t.admissions
            (record q { tickets = set q.tickets i (record t { completed = true }) }, 0) in
        if failed then lost settled export_failure q' else q'
]

-- What the SDK may do on this queue while it handles a record.
pub data Export : Type 0 where
  begin : List ℕ → Export
  finish : ℕ → Bool → Export

unfoldable pub export : Export → Queue → Queue
unfolding begin_export complete_export
export (begin records) q = begin_export records q
export (finish i failed) q = complete_export i failed q

unfoldable pub exports : List Export → Queue → Queue
unfolding export
exports [] q = q
exports (e ∷ es) q = exports es (export e q)

-- `pending[key] = admission`, before `submit`
unfoldable pub enter : ℕ → Queue → Queue
enter r q = record q {
  offered = q.offered + 1;
  pending =
      q.pending
      ++ (record { serial = q.created; record_id = r; sequence = none; phase = queued } ∷ []);
  created = q.created + 1;
}

-- After `submit` returned for the admission `s`.
unfoldable pub admit : ℕ → Queue → Queue
unfolding number phase_of
admit s q = record q {
  admitted = q.admitted + 1;
  pending = number s (q.admitted + 1) q.pending;
  gone = number s (q.admitted + 1) q.gone;
  completed =
      if is_complete (phase_of s (q.pending ++ q.gone)) then q.completed + 1 else q.completed;
}

-- After `submit` raised.
unfoldable pub withdraw : ℕ → Queue → Queue
unfolding remove lost
withdraw r q =
    lost 1 handoff_failure
      (record q { pending = remove r q.pending; handoff_failed = q.handoff_failed + 1 })

-- `handoff(record, submit)`, where `submit` exports `es` and then raises or not.
unfoldable pub handoff : ℕ → List Export → Bool → Queue → Queue
unfolding enter exports admit withdraw find lost
handoff r es raises q =
    if q.closed
    then lost 1 shutdown (record q { offered = q.offered + 1; post_shutdown = q.post_shutdown + 1 })
    else if leb q.capacity (length q.pending)
    then lost 1 queue_overflow (record q { offered = q.offered + 1; overflow = q.overflow + 1 })
    else if is_some (find r q.pending)
    then lost 1 handoff_failure
        (record q { offered = q.offered + 1; handoff_failed = q.handoff_failed + 1 })
    else let q' = exports es (enter r q) in if raises then withdraw r q' else admit q.created q'

-- `prefix`
unfoldable pub prefix : Queue → ℕ
prefix q = q.admitted

-- The test of the loop of `wait_prefix`.
unfoldable pub awaits : ℕ → Queue → Bool
awaits target q = any (λ a. elim a.sequence [ none ↦ false | some n ↦ leb n target ]) q.pending

-- The loop of `wait_prefix` and of `wait_idle`: the queue and the clock at each time that the
-- waiting thread holds the lock. `none` is a thread that still waits after these.
unfoldable pub wait : (Queue → Bool) → ℕ → List (Queue × ℕ) → Option Bool
wait test deadline [] = none
wait test deadline ((q, now) ∷ rest) =
    let later = wait test deadline rest in
    if test q then (if leb deadline now then some false else later) else some true

unfoldable pub wait_prefix : ℕ → ℕ → List (Queue × ℕ) → Option Bool
unfolding wait awaits
wait_prefix target = wait (awaits target)

unfoldable pub wait_idle : ℕ → List (Queue × ℕ) → Option Bool
unfolding wait
wait_idle = wait (λ q. ltb 0 (length q.pending))

unfoldable pub close : Queue → Queue
close q = record q { closed = true }

unfoldable pub abort_queued : Queue → Queue
unfolding lost
abort_queued q =
    if q.aborted
    then q
    else let retiring = select (λ a. is_queued a.phase) q.pending in
      lost (length retiring) shutdown (record q {
        aborted = true;
        pending = select (λ a. not (is_queued a.phase)) q.pending;
        gone = map (λ (a : Admission). record a { phase = retired }) retiring ++ q.gone;
        retired_count = q.retired_count + length retiring;
      })

unfoldable pub reject_late : Queue → Queue
unfolding lost
reject_late q =
    lost 1 shutdown (record q { offered = q.offered + 1; post_shutdown = q.post_shutdown + 1 })

pub record Snapshot : Type 0 where
  pub offered : ℕ
  pub admitted : ℕ
  pub completed : ℕ
  pub outstanding : ℕ
  pub exporting_count : ℕ
  pub overflow : ℕ
  pub post_shutdown : ℕ
  pub handoff_failed : ℕ
  pub retired_count : ℕ

unfoldable pub snapshot : Queue → Snapshot
unfolding count
snapshot q = record {
  offered = q.offered;
  admitted = q.admitted;
  completed = q.completed;
  outstanding = length q.pending;
  exporting_count = count (λ a. is_exporting a.phase) q.pending;
  overflow = q.overflow;
  post_shutdown = q.post_shutdown;
  handoff_failed = q.handoff_failed;
  retired_count = q.retired_count;
}
