-- ===== src/Telemetry/Books.antt =====
-- The books of the queue: what its counters, its table and its open tickets say of one another.
use teaql_python.Base.{
  ℕ, ◌+◌, ◌≤◌, ◌≡◌, ◌≢◌, ◌⊎◌, Bool, true, false, Option, none, some, List, [], ◌∷◌, length, count,
  if◌then◌else◌, get_elem?, All,
}
use teaql_python.Telemetry.Queue.{
  exporting, complete, Admission, Reason, shutdown, queue_overflow, handoff_failure, export_failure,
  Loss, Ticket, Queue, find, remove, phase_of,
}
use teaql_python.Telemetry.Entries.{numbered, unnumbered, DistinctRecords}
use teaql_python.Telemetry.Phases.{IsLive}

abbrev pub same_reason : Reason → Reason → Bool
same_reason shutdown shutdown = true
same_reason queue_overflow queue_overflow = true
same_reason handoff_failure handoff_failure = true
same_reason export_failure export_failure = true
same_reason _ _ = false

-- The records reported lost for one reason.
unfoldable pub total : Reason → List Loss → ℕ
total r [] = 0
total r (x ∷ l) = total r l + (if same_reason r x.reason then x.amount else 0)

abbrev pub HeldAt : Option Admission → Admission → Type 0
HeldAt none a = ⊥
HeldAt (some p) a = (p.serial ≡ a.serial) × (p.phase ≡ exporting)

-- The admission of an open ticket is in the table, in export.
abbrev pub Held : List Admission → Admission → Type 0
Held pending a = HeldAt (find a.record_id pending) a

abbrev pub ApartFrom : List Admission → Admission → Type 0
ApartFrom l a = All (λ b. a.record_id ≢ b.record_id) l

pub record Holding (pending : List Admission) (tickets : List Ticket) : Type 0 where
  pub held :
      (i : ℕ) (t : Ticket)
      → get_elem? tickets i ≡ some t
      → t.completed ≡ false
      → All (Held pending) t.admissions
  pub apart :
      (i j : ℕ) (t u : Ticket)
      → get_elem? tickets i ≡ some t
      → get_elem? tickets j ≡ some u
      → i ≢ j
      → t.completed ≡ false
      → u.completed ≡ false
      → All (ApartFrom u.admissions) t.admissions

-- The table on its own.
pub record Table (q : Queue) : Type 0 where
  pub distinct : DistinctRecords q.pending
  pub live : All IsLive q.pending
  pub fresh : (s : ℕ) → q.created ≤ s → (phase_of s q.pending ≡ none) × (phase_of s q.gone ≡ none)

-- The counters. `n` records are between their offer and the end of their handoff.
pub record Counts (n : ℕ) (q : Queue) : Type 0 where
  pub offers : q.offered ≡ q.admitted + q.overflow + q.post_shutdown + q.handoff_failed + n
  pub admissions : q.admitted ≡ q.completed + q.retired_count + count numbered q.pending
  pub fits : length q.pending ≤ q.capacity
  pub lost_overflow : total queue_overflow q.losses ≡ q.overflow
  pub lost_shutdown : total shutdown q.losses ≡ q.post_shutdown + q.retired_count
  pub lost_handoff : total handoff_failure q.losses ≡ q.handoff_failed

-- Between two calls.
pub record IsBalanced (q : Queue) : Type 0 where
  pub table : Table q
  pub counts : Counts 0 q
  pub holding : Holding q.pending q.tickets
  pub all_numbered : count unnumbered q.pending ≡ 0

-- The record of the running handoff is still in the table, or its export has completed.
abbrev pub Airborne : ℕ → ℕ → Queue → Type 0
Airborne r s q =
    (p : Admission) × (find r q.pending ≡ some p)
    × (p.serial ≡ s)
    × (p.sequence ≡ none)
    × (count unnumbered q.pending ≡ 1)
    × (phase_of s (remove r q.pending) ≡ none)

abbrev pub Landed : ℕ → ℕ → Queue → Type 0
Landed r s q =
    (find r q.pending ≡ none)
    × (phase_of s q.pending ≡ none)
    × (phase_of s q.gone ≡ some complete)
    × (count unnumbered q.pending ≡ 0)

-- Within a handoff of the record `r` under the serial `s`.
pub record InHandoff (r s : ℕ) (q : Queue) : Type 0 where
  pub table : Table q
  pub counts : Counts 1 q
  pub holding : Holding q.pending q.tickets
  pub flight : Airborne r s q ⊎ Landed r s q
