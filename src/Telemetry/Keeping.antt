-- ===== src/Telemetry/Keeping.antt =====
-- What exports keep, for any further fact about the queue that a landing keeps.
use teaql_python.Base.{
  ℕ, ◌+◌, ◌≡◌, ◌⊎◌, inl, inr, Bool, true, false, some, List, [], ◌∷◌, ◌++◌, arith, if◌then◌else◌,
  eqb, Bool-cases, Option-cases, get_elem?,
}
use teaql_python.Telemetry.Queue.{
  Admission, Ticket, Reason, shutdown, queue_overflow, handoff_failure, export_failure, Loss, Queue,
  lost, find, begin_export, complete_export, Export, begin, finish, export,
}
use teaql_python.Telemetry.Entries.{}
use teaql_python.Telemetry.Books.{same_reason, total, Table, Counts, Holding}
use teaql_python.Telemetry.Settling.{landing, landing-Table, landing-Counts, settle_all_keeps}
use teaql_python.Telemetry.Exports.{
  begun, begin_export_cases, begun-Table, begun-Counts, begun-Holding, finishing, settled,
  own_items, settled-Holding,
}

pub total-snoc :
    (r : Reason) (l : List Loss) (x : Loss)
    → total r (l ++ x ∷ []) ≡ total r l + (if same_reason r x.reason then x.amount else 0)
unfolding total
total-snoc r [] x = omega arith
total-snoc r (y ∷ l) x = omega (arith, total-snoc r l x)

module _ (amount : ℕ) (reason : Reason) (q : Queue) where
  pub total-lost :
      (r : Reason)
      → total r (lost amount reason q).losses
        ≡ total r q.losses + (if same_reason r reason then amount else 0)
  unfolding lost
  total-lost r = ground (arith, total-snoc r q.losses (record { amount = amount; reason = reason }))

  -- `lost` writes to the record of losses alone.
  pub lost_only :
      (P : Queue → Type 0)
      → P q
      → ((x : List Loss) → P q → P (record q { losses = x }))
      → P (lost amount reason q)
  unfolding lost
  lost_only P h f = elim (Bool-cases (eqb amount 0)) [
    | inl nothing ↦ rw nothing h
    | inr something ↦ rw something (f _ h)
  ]

-- Completing an export: the loop, then the report of what failed.
module _ (i : ℕ) (failed : Bool) (q : Queue) where
  complete_export_cases :
      (complete_export i failed q ≡ q)
      ⊎ ((t : Ticket) × (get_elem? q.tickets i ≡ some t)
          × (t.completed ≡ false)
          × (complete_export i failed q ≡ (
              if failed
              then lost (settled i t q).1 export_failure (settled i t q).0
              else (settled i t q).0)))
  unfolding complete_export
  complete_export_cases = elim (Option-cases (get_elem? q.tickets i)) [
    | inl nothing ↦ inl (ground arith)
    | inr (t, at) ↦ elim (Bool-cases t.completed) [
      | inl done ↦ inl (ground arith)
      | inr open_still ↦ inr (t, at, open_still, rw (at, open_still, complete_export))
    ]
  ]

lost-Counts : (n k : ℕ) (q : Queue) → Counts n q → Counts n (lost k export_failure q)
unfolding lost
lost-Counts n k q c = record {
  offers = ground (arith, c.offers);
  admissions = ground (arith, c.admissions);
  fits = ground (arith, c.fits);
  lost_overflow = ground (arith, total-snoc queue_overflow q.losses (loss k), c.lost_overflow);
  lost_shutdown = ground (arith, total-snoc shutdown q.losses (loss k), c.lost_shutdown);
  lost_handoff = ground (arith, total-snoc handoff_failure q.losses (loss k), c.lost_handoff);
}
  where
    loss : ℕ → Loss
    loss k = record { amount = k; reason = export_failure }

-- What every export keeps, whether a handoff runs or not.
module _ (F : Queue → Type 0)
    (F-landing : (r : ℕ) (p : Admission) (q : Queue)
      → find r q.pending ≡ some p
      → Table q
      → F q
      → F (landing r p q))
    (F-begun : (records : List ℕ) (items : List Admission) (q : Queue)
      → F q
      → F (begun records items q))
    (F-losses : (x : List Loss) (q : Queue) → F q → F (record q { losses = x }))
    (F-tickets : (x : List Ticket) (q : Queue) → F q → F (record q { tickets = x })) where
  pub record Kept (n : ℕ) (q : Queue) : Type 0 where
    pub table : Table q
    pub counts : Counts n q
    pub extra : F q

  pub record Sound (n : ℕ) (q : Queue) : Type 0 where
    pub kept : Kept n q
    pub holding : Holding q.pending q.tickets

  Kept-landing :
      (n r : ℕ) (p : Admission) (q : Queue)
      → find r q.pending ≡ some p
      → Kept n q
      → Kept n (landing r p q)
  Kept-landing n r p q found k = record {
    table = landing-Table r p q found k.table;
    counts = landing-Counts r p q found n k.table k.counts;
    extra = F-landing r p q found k.table k.extra;
  }

  Sound-lost : (n k : ℕ) (q : Queue) → Sound n q → Sound n (lost k export_failure q)
  Sound-lost n k q s = record {
    kept = record {
      table =
          lost_only k export_failure q Table s.kept.table
            (λ x t. record { distinct = t.distinct; live = t.live; fresh = t.fresh });
      counts = lost-Counts n k q s.kept.counts;
      extra = lost_only k export_failure q F s.kept.extra (λ x f. F-losses x q f);
    };
    holding = lost_only k export_failure q (λ x. Holding x.pending x.tickets) s.holding (λ x h. h);
  }

  Sound-begin :
      (n : ℕ) (records : List ℕ) (q : Queue) → Sound n q → Sound n (begin_export records q)
  Sound-begin n records q s = elim (begin_export_cases records q) [
    | inl unchanged ↦ rw unchanged s
    | inr (items, taken, e) ↦ rw e (record {
      kept = record {
        table = begun-Table records items q s.kept.table;
        counts = begun-Counts records items q n s.kept.counts;
        extra = F-begun records items q s.kept.extra;
      };
      holding = begun-Holding records items q taken s.holding;
    })
  ]

  Kept-finishing : (n i : ℕ) (t : Ticket) (q : Queue) → Kept n q → Kept n (finishing i t q)
  Kept-finishing n i t q k = record {
    table = record { distinct = k.table.distinct; live = k.table.live; fresh = k.table.fresh };
    counts = record {
      offers = k.counts.offers;
      admissions = k.counts.admissions;
      fits = k.counts.fits;
      lost_overflow = k.counts.lost_overflow;
      lost_shutdown = k.counts.lost_shutdown;
      lost_handoff = k.counts.lost_handoff;
    };
    extra = F-tickets _ q k.extra;
  }

  Sound-complete :
      (n i : ℕ) (failed : Bool) (q : Queue) → Sound n q → Sound n (complete_export i failed q)
  Sound-complete n i failed q s = elim (complete_export_cases i failed q) [
    | inl unchanged ↦ rw unchanged s
    | inr (t, at, unfinished, e) ↦
        let after : Sound n (settled i t q).0 = record {
          kept =
              settle_all_keeps (Kept n) (Kept-landing n) t.admissions (finishing i t q) 0
                (own_items i t q at unfinished s.holding) (Kept-finishing n i t q s.kept);
          holding = settled-Holding i t q at unfinished s.holding;
        } in
        rw e (either failed (Sound-lost n (settled i t q).1 (settled i t q).0 after) after)
  ]
    where
      either : (b : Bool) {x y : Queue} → Sound n x → Sound n y → Sound n (if b then x else y)
      either true hx hy = hx
      either false hx hy = hy

  pub Sound-export : (n : ℕ) (e : Export) (q : Queue) → Sound n q → Sound n (export e q)
  unfolding export
  Sound-export n (begin records) q s = Sound-begin n records q s
  Sound-export n (finish i failed) q s = Sound-complete n i failed q s
