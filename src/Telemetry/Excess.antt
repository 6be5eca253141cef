-- ===== src/Telemetry/Excess.antt =====
-- No record is accounted for twice, whatever `submit` does before it raises: what exports keep.
use teaql_python.Base.{
  ℕ, ◌≡◌, refl, ◌⊎◌, inl, inr, false, none, some, List, ◌∷◌, arith, count, eqb, eqb_iff, Bool-cases,
}
use teaql_python.Telemetry.Queue.{is_complete, Admission, Queue, find, remove, phase_of, settle}
use teaql_python.Telemetry.Entries.{unnumbered, find-remove, count-remove, remove-DistinctRecords}
use teaql_python.Telemetry.Phases.{
  remove-IsLive, found-IsLive, phase_of-remove-none, phase_of_found, phase_of-mark_none,
  remove_comm,
}
use teaql_python.Telemetry.Books.{Table, Airborne, Landed}
use teaql_python.Telemetry.Settling.{landing, landing-flight}
use teaql_python.Telemetry.Exports.{begun, begun-flight, begun-count}

-- The queue once a ticket has taken an admission out that is not its own.
abbrev pub dropping : ℕ → Admission → Queue → Queue
dropping r popped q = record q { pending = remove r q.pending; gone = popped ∷ q.gone }

pub settle_other :
    (item p : Admission) (q : Queue) (k : ℕ)
    → find item.record_id q.pending ≡ some p
    → eqb p.serial item.serial ≡ false
    → settle item (q, k) ≡ (dropping item.record_id p q, k)
unfolding settle
settle_other item p q k h e = rw (h, e, settle) refl

module _ (r : ℕ) (p : Admission) (q : Queue) (found : find r q.pending ≡ some p) (t : Table q) where
  pub dropping-Table : Table (dropping r p q)
  unfolding phase_of
  dropping-Table = record {
    distinct = remove-DistinctRecords r q.pending t.distinct;
    live = remove-IsLive r q.pending t.live;
    fresh = λ s h. (
      phase_of-remove-none s r q.pending (t.fresh s h).0,
      ground (arith, t.fresh s h, phase_of_found r q.pending p found),
    );
  }

-- The record of the running handoff left the table, and no export of it completed.
abbrev pub Dropped : ℕ → Queue → Type 0
Dropped s q =
    (phase_of s q.pending ≡ none)
    × (is_complete (phase_of s q.gone) ≡ false)
    × (count unnumbered q.pending ≡ 0)

-- Where the record of the running handoff may be.
abbrev pub Aloft : ℕ → ℕ → Queue → Type 0
Aloft r s q = (Airborne r s q ⊎ Landed r s q) ⊎ Dropped s q

module _ (r : ℕ) (p : Admission) (q : Queue) (found : find r q.pending ≡ some p) (t : Table q) where
  Dropped-landing : (s : ℕ) → Dropped s q → Dropped s (landing r p q)
  unfolding phase_of
  Dropped-landing s (absent, open_still, none_left) = (
    phase_of-remove-none s r q.pending absent,
    ground (arith, phase_of_found r q.pending p found),
    ground (arith, count-remove unnumbered r q.pending p t.distinct found),
  )

  Dropped-dropping : (s : ℕ) → Dropped s q → Dropped s (dropping r p q)
  unfolding phase_of
  Dropped-dropping s (absent, open_still, none_left) = (
    phase_of-remove-none s r q.pending absent,
    ground (arith, phase_of_found r q.pending p found),
    ground (arith, count-remove unnumbered r q.pending p t.distinct found),
  )

  pub Aloft-landing : (r' s : ℕ) → Aloft r' s q → Aloft r' s (landing r p q)
  Aloft-landing r' s (inl f) = inl (landing-flight r p q found r' s t f)
  Aloft-landing r' s (inr d) = inr (Dropped-landing s d)

  pub Aloft-dropping : (r' s : ℕ) → Aloft r' s q → Aloft r' s (dropping r p q)
  unfolding phase_of
  Aloft-dropping r' s (inr d) = inr (Dropped-dropping s d)
  Aloft-dropping r' s (inl (inr (absent, gone, landed, none_left))) = inl (
      inr (
        ground (arith, find-remove r' r q.pending),
        phase_of-remove-none s r q.pending gone,
        ground (arith, phase_of_found r q.pending p found),
        ground (arith, count-remove unnumbered r q.pending p t.distinct found),
      ))
  Aloft-dropping r' s (inl (inl (p', found', same, bare, one, alone))) =
      elim (Bool-cases (eqb r' r)) [
        | inl here ↦
            let e : r' ≡ r = (eqb_iff r' r).0 here in
            inr (
              ground arith,
              ground (arith, found-IsLive r q.pending p t.live found),
              ground (arith, count-remove unnumbered r q.pending p t.distinct found),
            )
        | inr elsewhere ↦ inl (
            inl (
              p',
              ground (arith, find-remove r' r q.pending),
              same,
              bare,
              ground (
                arith,
                find-remove r' r q.pending,
                count-remove unnumbered r q.pending p t.distinct found,
                count-remove unnumbered r' (remove r q.pending) p'
                    (remove-DistinctRecords r q.pending t.distinct),
              ),
              rw remove_comm (phase_of-remove-none s r (remove r' q.pending) alone),
            ))
      ]

pub Aloft-begun :
    (records : List ℕ) (items : List Admission) (q : Queue) (r s : ℕ)
    → Aloft r s q
    → Aloft r s (begun records items q)
Aloft-begun records items q r s (inl f) = inl (begun-flight records items q r s f)
Aloft-begun records items q r s (inr (absent, open_still, none_left)) = inr (
  phase_of-mark_none s records q.pending absent,
  open_still,
  rw (begun-count records items q) none_left,
)
