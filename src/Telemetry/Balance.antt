-- ===== src/Telemetry/Balance.antt =====
-- Every method of the queue keeps the books, and so does every run of the methods.
use mathlib.Core.List.{append-nil}
use teaql_python.Base.{
  ℕ, ◌+◌, ◌≡◌, refl, ◌⊎◌, inl, inr, none, List, [], ◌∷◌, ◌++◌, arith, length, count, if◌then◌else◌,
  All-map, length-append, ◌<◌,
}
use teaql_python.Telemetry.Queue.{
  queued, is_complete, Admission, Queue, find, remove, phase_of, number, Export, export, exports,
  enter, admit,
}
use teaql_python.Telemetry.Entries.{
  numbered, unnumbered, find-append, count-append, count-remove, count-numbered,
  append-DistinctRecords, number-DistinctRecords, length-number, count-number, remove_of_absent,
  remove-append, find-number, numbered_at,
}
use teaql_python.Telemetry.Phases.{
  phase_of-append, phase_of-number, phase_of-live, number-IsLive, append-IsLive, number_of_absent,
  phase_of_found,
}
use teaql_python.Telemetry.Books.{Table, Holding, Held, IsBalanced, Airborne, Landed, InHandoff}
use teaql_python.Telemetry.Settling.{landing-flight}
use teaql_python.Telemetry.Exports.{begun-flight, begun-count}
use teaql_python.Telemetry.Keeping.{Sound, Sound-export}

-- Within a handoff.
module _ (r s : ℕ) where
  abbrev Flight : Queue → Type 0
  Flight q = Airborne r s q ⊎ Landed r s q

  export-Flight : (e : Export) (q : Queue) → InHandoff r s q → InHandoff r s (export e q)
  export-Flight e q h = record {
    table = after.kept.table;
    counts = after.kept.counts;
    holding = after.holding;
    flight = after.kept.extra;
  }
    where
      after :
          Sound Flight
            (λ r' p q found t f. landing-flight r' p q found r s t f)
            (λ records items q f. begun-flight records items q r s f)
            (λ x q f. f)
            (λ x q f. f)
            1
            (export e q)
      after = Sound-export Flight _ _ _ _ 1 e q (record {
        kept = record { table = h.table; counts = h.counts; extra = h.flight };
        holding = h.holding;
      })

  pub exports-InHandoff :
      (es : List Export) (q : Queue) → InHandoff r s q → InHandoff r s (exports es q)
  unfolding exports
  exports-InHandoff [] q h = h
  exports-InHandoff (e ∷ es) q h = exports-InHandoff es (export e q) (export-Flight e q h)

pub export-IsBalanced : (e : Export) (q : Queue) → IsBalanced q → IsBalanced (export e q)
export-IsBalanced e q h = record {
  table = after.kept.table;
  counts = after.kept.counts;
  holding = after.holding;
  all_numbered = after.kept.extra;
}
  where
    after :
        Sound
          (λ q. count unnumbered q.pending ≡ 0)
          (λ r p q found t f.
            ground (arith, count-remove unnumbered r q.pending p t.distinct found))
          (λ records items q f. rw (begun-count records items q) f)
          (λ x q f. f)
          (λ x q f. f)
          0
          (export e q)
    after =
        Sound-export (λ q. count unnumbered q.pending ≡ 0) _ _ _ _ 0 e q
          (record {
            kept = record { table = h.table; counts = h.counts; extra = h.all_numbered };
            holding = h.holding;
          })

module _ (r : ℕ) (q : Queue) (t : Table q) where
  abbrev pub entry : Admission
  entry = record { serial = q.created; record_id = r; sequence = none; phase = queued }

  pub enter-Table : find r q.pending ≡ none → Table (enter r q)
  unfolding enter phase_of
  enter-Table absent = record {
    distinct = append-DistinctRecords q.pending entry t.distinct absent;
    live = append-IsLive q.pending (entry ∷ []) t.live (refl, tt);
    fresh = λ s h. (
      ground (arith, phase_of-append s q.pending (entry ∷ []), t.fresh s (omega arith)),
      (t.fresh s (omega arith)).1,
    );
  }

  remove-entry : find r q.pending ≡ none → remove r (q.pending ++ entry ∷ []) ≡ q.pending
  unfolding remove
  remove-entry absent = ground (
    arith,
    remove-append r q.pending (entry ∷ []),
    remove_of_absent r q.pending,
    append-nil q.pending,
  )

  pub enter-Airborne :
      find r q.pending ≡ none → count unnumbered q.pending ≡ 0 → Airborne r q.created (enter r q)
  unfolding enter find phase_of count remove
  enter-Airborne absent idle = (
    entry,
    ground (arith, find-append r q.pending (entry ∷ [])),
    refl,
    refl,
    omega (arith, count-append unnumbered q.pending (entry ∷ []), idle),
    rw (remove-entry absent) (t.fresh q.created (omega arith)).0,
  )

module _ (r : ℕ) (q : Queue) (b : IsBalanced q) where
  abbrev new_entry : Admission
  new_entry = entry r q b.table

  enter-Holding : find r q.pending ≡ none → Holding (enter r q).pending q.tickets
  unfolding enter find
  enter-Holding absent = record {
    held = λ i t at unfinished. All-map t.admissions keeps (b.holding.held i t at unfinished);
    apart = b.holding.apart;
  }
    where
      keeps : (a : Admission) → Held q.pending a → Held (q.pending ++ new_entry ∷ []) a
      keeps a h = ground (arith, find-append a.record_id q.pending (new_entry ∷ []))

  pub enter-InHandoff :
      find r q.pending ≡ none → length q.pending < q.capacity → InHandoff r q.created (enter r q)
  unfolding enter find phase_of count remove
  enter-InHandoff absent room = record {
    table = enter-Table r q b.table absent;
    counts = record {
      offers = omega (arith, b.counts.offers);
      admissions =
          omega (arith, count-append numbered q.pending (new_entry ∷ []), b.counts.admissions);
      fits = omega (arith, length-append q.pending (new_entry ∷ []));
      lost_overflow = b.counts.lost_overflow;
      lost_shutdown = b.counts.lost_shutdown;
      lost_handoff = b.counts.lost_handoff;
    };
    holding = enter-Holding absent;
    flight = inl (enter-Airborne r q b.table absent b.all_numbered);
  }

module _ (r s : ℕ) (q : Queue) (t : Table q) (flight : Airborne r s q ⊎ Landed r s q) where
  abbrev next : ℕ
  next = q.admitted + 1

  pub admit_all_numbered : count unnumbered (number s next q.pending) ≡ 0
  admit_all_numbered = elim flight [
    | inl (p, found, same, bare, one, alone) ↦
        omega (arith, count-number s next q.pending r p found same bare)
    | inr (absent, gone, landed, none_left) ↦ rw (number_of_absent s next q.pending gone) none_left
  ]

  -- An export that completed within `submit` is counted once the record has its number.
  pub admit_completed :
      (if is_complete (phase_of s (q.pending ++ q.gone)) then q.completed + 1 else q.completed)
        + count numbered (number s next q.pending)
      ≡ q.completed + count numbered q.pending + 1
  admit_completed = elim flight [
    | inl (p, found, same, bare, one, alone) ↦ ground (
      arith,
      phase_of-append s q.pending q.gone,
      phase_of_found r q.pending p found,
      phase_of-live s q.pending t.live,
      count-numbered q.pending,
      count-numbered (number s next q.pending),
      length-number s next q.pending,
      admit_all_numbered,
    )
    | inr (absent, gone, landed, none_left) ↦
        ground (arith, phase_of-append s q.pending q.gone, number_of_absent s next q.pending gone)
  ]

  pub admit-Table : Table (admit s q)
  unfolding admit
  admit-Table = record {
    distinct = number-DistinctRecords s next q.pending t.distinct;
    live = number-IsLive s next q.pending t.live;
    fresh = λ u k. (
      rw (phase_of-number u s next q.pending) (t.fresh u k).0,
      rw (phase_of-number u s next q.gone) (t.fresh u k).1,
    );
  }

module _ (r s : ℕ) (q : Queue) (h : InHandoff r s q) where
  number-Holding : (n : ℕ) → Holding (number s n q.pending) q.tickets
  number-Holding n = record {
    held = λ i t at unfinished. All-map t.admissions keeps (h.holding.held i t at unfinished);
    apart = h.holding.apart;
  }
    where
      keeps : (a : Admission) → Held q.pending a → Held (number s n q.pending) a
      keeps a k = unfold numbered_at in ground (arith, find-number s n a.record_id q.pending)

  pub admit-IsBalanced : IsBalanced (admit s q)
  unfolding admit
  admit-IsBalanced = record {
    table = admit-Table r s q h.table h.flight;
    counts = record {
      offers = omega (arith, h.counts.offers);
      admissions = omega (arith, h.counts.admissions, admit_completed r s q h.table h.flight);
      fits = rw (length-number s (q.admitted + 1) q.pending) h.counts.fits;
      lost_overflow = h.counts.lost_overflow;
      lost_shutdown = h.counts.lost_shutdown;
      lost_handoff = h.counts.lost_handoff;
    };
    holding = number-Holding (q.admitted + 1);
    all_numbered = admit_all_numbered r s q h.table h.flight;
  }
