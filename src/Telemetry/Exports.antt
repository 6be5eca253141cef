-- ===== src/Telemetry/Exports.antt =====
-- Exports keep the books: beginning one, and completing it.
use mathlib.Core.Option.{some-injective}
use mathlib.Core.Bool.{not}
use teaql_python.Base.{
  ℕ, ◌≡◌, ◌≢◌, refl, ◌∙◌, sym, ◌⊎◌, inl, inr, true, false, some, List, [], ◌∷◌, ◌++◌, arith, count,
  All, eqb, eqb_iff, is_some, Bool-cases, Option-cases, get_elem?, set, get_elem?-set_self,
  get_elem?-set_ne, get_elem?-snoc, contains, nat_eq, All-map,
}
use teaql_python.Telemetry.Queue.{
  exporting, is_queued, Admission, Ticket, Queue, find, remove, mark_exporting, batch, begin_export,
  settle_all,
}
use teaql_python.Telemetry.Entries.{
  unnumbered, find-mark_exporting, marked, count-mark_exporting, mark_exporting-DistinctRecords,
  length-mark_exporting, find-record_id,
}
use teaql_python.Telemetry.Phases.{mark_exporting-IsLive, phase_of-mark_none, remove-mark_exporting}
use teaql_python.Telemetry.Books.{Table, Counts, Held, ApartFrom, Holding, Airborne, Landed}
use teaql_python.Telemetry.Settling.{OwnOrGone, settle_all_keeps, settle_all-find}

-- The admissions of a batch were found in the table, queued.
abbrev QueuedIn : List Admission → List ℕ → Admission → Type 0
QueuedIn pending records a =
    (find a.record_id pending ≡ some a)
    × (is_queued a.phase ≡ true)
    × (contains records a.record_id ≡ true)

QueuedIn-cons :
    (r : ℕ) (records : List ℕ) (pending items : List Admission)
    → All (QueuedIn pending records) items
    → All (QueuedIn pending (r ∷ records)) items
QueuedIn-cons r records pending [] h = tt
QueuedIn-cons r records pending (a ∷ items) h =
    ground (arith, QueuedIn-cons r records pending items h.1)

batch-QueuedIn :
    (records : List ℕ) (pending items : List Admission)
    → batch records pending ≡ some items
    → All (QueuedIn pending records) items
unfolding batch
batch-QueuedIn [] pending items h = rw (← some-injective _ _ h) tt
batch-QueuedIn (r ∷ records) pending items h = elim (Option-cases (find r pending)) [
  | inl absent ↦ ground arith
  | inr (item, found) ↦ elim (Option-cases (batch records pending)) [
    | inl refused ↦ ground arith
    | inr (rest, taken) ↦
        let tail =
          QueuedIn-cons r records pending rest (batch-QueuedIn records pending rest taken) in
        elim (Bool-cases (is_queued item.phase)) [
          | inl waits ↦
              let e : item ∷ rest ≡ items = ground (arith, find-record_id r pending item found) in
              rw (← e) (ground (arith, find-record_id r pending item found))
          | inr busy ↦ ground arith
        ]
  ]
]

abbrev pub begun : List ℕ → List Admission → Queue → Queue
begun records items q = record q {
  pending = mark_exporting records q.pending;
  tickets = q.tickets ++ (record { admissions = items; completed = false } ∷ []);
}

pub begin_export_cases :
    (records : List ℕ) (q : Queue)
    → (begin_export records q ≡ q)
      ⊎ ((items : List Admission) × (batch records q.pending ≡ some items)
          × (begin_export records q ≡ begun records items q))
unfolding begin_export
begin_export_cases records q = elim (Option-cases (batch records q.pending)) [
  | inl refused ↦ inl (ground arith)
  | inr (items, taken) ↦ elim (Bool-cases q.aborted) [
    | inl stopped ↦ inl (ground arith)
    | inr open_still ↦ inr (items, taken, ground arith)
  ]
]

module _ (records : List ℕ) (items : List Admission) (q : Queue) where
  pub begun-Table : Table q → Table (begun records items q)
  begun-Table t = record {
    distinct = mark_exporting-DistinctRecords records q.pending t.distinct;
    live = mark_exporting-IsLive records q.pending t.live;
    fresh = λ s h. (phase_of-mark_none s records q.pending (t.fresh s h).0, (t.fresh s h).1);
  }

  pub begun-Counts : (n : ℕ) → Counts n q → Counts n (begun records items q)
  begun-Counts n c = record {
    offers = c.offers;
    admissions = rw (count-mark_exporting records is_some q.pending) c.admissions;
    fits = rw (length-mark_exporting records q.pending) c.fits;
    lost_overflow = c.lost_overflow;
    lost_shutdown = c.lost_shutdown;
    lost_handoff = c.lost_handoff;
  }

  pub begun-count : count unnumbered (mark_exporting records q.pending) ≡ count unnumbered q.pending
  begun-count = count-mark_exporting records (λ o. not (is_some o)) q.pending

  pub begun-flight :
      (r s : ℕ)
      → Airborne r s q ⊎ Landed r s q
      → Airborne r s (begun records items q) ⊎ Landed r s (begun records items q)
  unfolding marked
  begun-flight r s (inl (p, found, same, bare, one, alone)) =
      elim (Bool-cases (contains records p.record_id)) [
        | inl taken ↦ inl (
          record p { phase = exporting },
          ground (arith, find-mark_exporting records r q.pending),
          same,
          bare,
          rw (count-mark_exporting records (λ o. not (is_some o)) q.pending) one,
          rw remove-mark_exporting (phase_of-mark_none s records (remove r q.pending) alone),
        )
        | inr left ↦ inl (
          p,
          ground (arith, find-mark_exporting records r q.pending),
          same,
          bare,
          rw (count-mark_exporting records (λ o. not (is_some o)) q.pending) one,
          rw remove-mark_exporting (phase_of-mark_none s records (remove r q.pending) alone),
        )
      ]
  begun-flight r s (inr (absent, gone, landed, none_left)) = inr (
    ground (arith, find-mark_exporting records r q.pending),
    phase_of-mark_none s records q.pending gone,
    landed,
    rw (count-mark_exporting records (λ o. not (is_some o)) q.pending) none_left,
  )

  Held-mark : (a : Admission) → Held q.pending a → Held (mark_exporting records q.pending) a
  unfolding marked
  Held-mark a h = ground (arith, find-mark_exporting records a.record_id q.pending)

  Held-new :
      (a : Admission) → QueuedIn q.pending records a → Held (mark_exporting records q.pending) a
  unfolding marked
  Held-new a h = ground (arith, find-mark_exporting records a.record_id q.pending)

  -- What waits for an export is in none.
  queued_apart :
      (a b : Admission)
      → Held q.pending a
      → QueuedIn q.pending records b
      → a.record_id ≢ b.record_id
  queued_apart a b h k e = ground arith

module _ (records : List ℕ) (items : List Admission) (q : Queue) where
  abbrev pub ticket : Ticket
  ticket = record { admissions = items; completed = false }

  ApartFrom-batch :
      (ls ms : List Admission)
      → All (Held q.pending) ls
      → All (QueuedIn q.pending records) ms
      → All (ApartFrom ms) ls
  ApartFrom-batch ls ms h k =
      All-map ls (λ a ha. All-map ms (λ b kb. queued_apart records items q a b ha kb) k) h

  ApartFrom-Held :
      (ls ms : List Admission)
      → All (QueuedIn q.pending records) ls
      → All (Held q.pending) ms
      → All (ApartFrom ms) ls
  ApartFrom-Held ls ms k h =
      All-map ls (λ a ka. All-map ms (λ b hb e. queued_apart records items q b a hb ka (sym e)) h) k

  pub begun-Holding :
      batch records q.pending ≡ some items
      → Holding q.pending q.tickets
      → Holding (mark_exporting records q.pending) (q.tickets ++ ticket ∷ [])
  begun-Holding taken h = record {
    held = λ i t at unfinished. elim (get_elem?-snoc q.tickets ticket t i at) [
      | inl old ↦
          All-map t.admissions (λ a ha. Held-mark records items q a ha) (h.held i t old unfinished)
      | inr new ↦ rw new.1 (All-map items (λ a ka. Held-new records items q a ka) taken_queued)
    ];
    apart = λ i j t u at at' ne unfinished unfinished'.
        elim (get_elem?-snoc q.tickets ticket t i at) [
          | inl old ↦ elim (get_elem?-snoc q.tickets ticket u j at') [
            | inl old' ↦ h.apart i j t u old old' ne unfinished unfinished'
            | inr new' ↦
                rw new'.1
                  (ApartFrom-batch t.admissions items (h.held i t old unfinished) taken_queued)
          ]
          | inr new ↦ elim (get_elem?-snoc q.tickets ticket u j at') [
            | inl old' ↦
                rw new.1
                  (ApartFrom-Held items u.admissions taken_queued (h.held j u old' unfinished'))
            | inr new' ↦ absurd (ne (new.0 ∙ sym new'.0))
          ]
        ];
  }
    where
      taken_queued : All (QueuedIn q.pending records) items
      taken_queued = batch-QueuedIn records q.pending items taken

Held-OwnOrGone : (pending : List Admission) (a : Admission) → Held pending a → OwnOrGone pending a
Held-OwnOrGone pending a h = elim (Option-cases (find a.record_id pending)) [
  | inl absent ↦ inl absent
  | inr (p, found) ↦ inr (p, found, ground arith)
]

module _ (i : ℕ) (t : Ticket) (q : Queue) where
  abbrev pub finished : Ticket
  finished = record t { completed = true }

  abbrev pub finishing : Queue
  finishing = record q { tickets = set q.tickets i finished }

  abbrev pub settled : Queue × ℕ
  settled = settle_all t.admissions (finishing, 0)

  module _ (at : get_elem? q.tickets i ≡ some t) (unfinished : t.completed ≡ false)
      (h : Holding q.pending q.tickets) where
    pub own_items : All (OwnOrGone q.pending) t.admissions
    own_items =
        All-map t.admissions (λ a ha. Held-OwnOrGone q.pending a ha) (h.held i t at unfinished)

    tickets-settled : settled.0.tickets ≡ set q.tickets i finished
    tickets-settled =
        settle_all_keeps (λ x. x.tickets ≡ set q.tickets i finished) (λ r p x found k. k)
          t.admissions finishing 0 own_items refl

    settled_old :
        (j : ℕ) (u : Ticket)
        → get_elem? settled.0.tickets j ≡ some u
        → u.completed ≡ false
        → (i ≢ j) × (get_elem? q.tickets j ≡ some u)
    settled_old j u at' unfinished' = elim (Bool-cases (eqb i j)) [
      | inl here ↦ absurd (
          ground
            (arith, tickets-settled, get_elem?-set_self q.tickets i finished t at, eqb_iff i j))
      | inr elsewhere ↦
          let ne : i ≢ j = ground arith in
          (ne, sym (get_elem?-set_ne q.tickets i j finished ne) ∙ rw tickets-settled at at')
    ]

    Held-settled :
        (ms : List Admission)
        → All (Held q.pending) ms
        → All (ApartFrom t.admissions) ms
        → All (Held settled.0.pending) ms
    Held-settled [] hs apart = tt
    Held-settled (b ∷ ms) (hb, hs) (ab, apart) =
        (rw (settle_all-find t.admissions finishing 0 b own_items ab) hb, Held-settled ms hs apart)

    pub settled-Holding : Holding settled.0.pending settled.0.tickets
    settled-Holding = record {
      held = λ j u at' unfinished'.
          let old = settled_old j u at' unfinished' in
          Held-settled u.admissions (h.held j u old.1 unfinished')
            (h.apart j i u t old.1 at (λ e. old.0 (sym e)) unfinished' unfinished);
      apart = λ j k u v at' at'' ne un un'.
          h.apart j k u v (settled_old j u at' un).1 (settled_old k v at'' un').1 ne un un';
    }
