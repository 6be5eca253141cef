-- ===== src/Telemetry/Withdrawal.antt =====
-- A handoff whose `submit` raised keeps the books, if no export holds the record.
use teaql_python.Base.{
  ℕ, ◌≡◌, refl, inl, inr, Bool, false, none, some, arith, count, All-map, Bool-cases, eqb, eqb_iff,
}
use teaql_python.Telemetry.Queue.{
  is_exporting, Admission, handoff_failure, Queue, find, remove, withdraw,
}
use teaql_python.Telemetry.Entries.{
  numbered, unnumbered, find-remove, count-remove, remove-DistinctRecords, length-remove,
  remove_of_absent,
}
use teaql_python.Telemetry.Phases.{remove-IsLive, phase_of-remove-none}
use teaql_python.Telemetry.Books.{Holding, Held, IsBalanced, InHandoff}
use teaql_python.Telemetry.Refusals.{lost-Owes}

-- The entry of the record is in an export.
abbrev pub is_in_export : ℕ → Queue → Bool
is_in_export r q = elim (find r q.pending) [ none ↦ false | some a ↦ is_exporting a.phase ]

module _ (r s : ℕ) (q : Queue) (h : InHandoff r s q) (left : is_in_export r q ≡ false) where
  withdraw-Holding : Holding (remove r q.pending) q.tickets
  withdraw-Holding = record {
    held = λ i t at unfinished. All-map t.admissions keeps (h.holding.held i t at unfinished);
    apart = h.holding.apart;
  }
    where
      keeps : (a : Admission) → Held q.pending a → Held (remove r q.pending) a
      keeps a k = elim (Bool-cases (eqb a.record_id r)) [
        | inl here ↦
            let e : a.record_id ≡ r = (eqb_iff a.record_id r).0 here in absurd (ground arith)
        | inr elsewhere ↦ ground (arith, find-remove a.record_id r q.pending)
      ]

  withdraw-numbered : count numbered (remove r q.pending) ≡ count numbered q.pending
  withdraw-numbered = elim h.flight [
    | inl (p, found, same, bare, one, alone) ↦
        ground (arith, count-remove numbered r q.pending p h.table.distinct found)
    | inr (absent, gone, landed, none_left) ↦ rw (remove_of_absent r q.pending absent) refl
  ]

  withdraw-all_numbered : count unnumbered (remove r q.pending) ≡ 0
  withdraw-all_numbered = elim h.flight [
    | inl (p, found, same, bare, one, alone) ↦
        ground (arith, count-remove unnumbered r q.pending p h.table.distinct found)
    | inr (absent, gone, landed, none_left) ↦ rw (remove_of_absent r q.pending absent) none_left
  ]

  -- A record whose `submit` raised while no export held it leaves nothing behind.
  pub withdraw-IsBalanced : IsBalanced (withdraw r q)
  unfolding withdraw
  withdraw-IsBalanced = lost-Owes 1 handoff_failure _ (record {
    table = record {
      distinct = remove-DistinctRecords r q.pending h.table.distinct;
      live = remove-IsLive r q.pending h.table.live;
      fresh =
          λ t k. (phase_of-remove-none t r q.pending (h.table.fresh t k).0, (h.table.fresh t k).1);
    };
    holding = withdraw-Holding;
    all_numbered = withdraw-all_numbered;
    offers = omega (arith, h.counts.offers);
    admissions = omega (arith, h.counts.admissions, withdraw-numbered);
    fits = omega (arith, length-remove r q.pending, h.counts.fits);
    overflows = omega (arith, h.counts.lost_overflow);
    shutdowns = omega (arith, h.counts.lost_shutdown);
    failures = omega (arith, h.counts.lost_handoff);
  })
