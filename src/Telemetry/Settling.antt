-- ===== src/Telemetry/Settling.antt =====
-- Completing an export: what a round of the loop, and then the loop, does to the books.
use teaql_python.Base.{
  ℕ, ◌+◌, ◌≡◌, refl, ◌∙◌, ◌⊎◌, inl, inr, none, some, List, [], ◌∷◌, arith, if◌then◌else◌, All, eqb,
  is_some, Bool-cases, eqb_iff,
}
use teaql_python.Telemetry.Queue.{
  complete, Admission, Queue, find, remove, phase_of, settle, settle_all,
}
use teaql_python.Telemetry.Entries.{
  numbered, unnumbered, find-remove, count-remove, remove-DistinctRecords, length-remove,
}
use teaql_python.Telemetry.Phases.{remove-IsLive, phase_of-remove-none, phase_of_found, remove_comm}
use teaql_python.Telemetry.Books.{Table, Counts, ApartFrom, Airborne, Landed}

-- An admission of the batch is in the table under its own serial, or has left it.
abbrev pub OwnOrGone : List Admission → Admission → Type 0
OwnOrGone pending a =
    (find a.record_id pending ≡ none)
    ⊎ ((p : Admission) × (find a.record_id pending ≡ some p) × (p.serial ≡ a.serial))

-- The queue once `popped` has been taken out of the table and its export has completed.
abbrev pub landing : ℕ → Admission → Queue → Queue
landing r popped q = record q {
  pending = remove r q.pending;
  gone = record popped { phase = complete } ∷ q.gone;
  completed = if is_some popped.sequence then q.completed + 1 else q.completed;
}

pub settle_absent :
    (item : Admission) (q : Queue) (k : ℕ)
    → find item.record_id q.pending ≡ none
    → settle item (q, k) ≡ (q, k)
unfolding settle
settle_absent item q k h = rw (h, settle)

pub settle_own :
    (item p : Admission) (q : Queue) (k : ℕ)
    → find item.record_id q.pending ≡ some p
    → p.serial ≡ item.serial
    → settle item (q, k) ≡ (landing item.record_id p q, k + 1)
unfolding settle
settle_own item p q k h e = ground arith

module _ (r : ℕ) (p : Admission) (q : Queue) (found : find r q.pending ≡ some p) where
  pub landing-Table : Table q → Table (landing r p q)
  unfolding phase_of
  landing-Table t = record {
    distinct = remove-DistinctRecords r q.pending t.distinct;
    live = remove-IsLive r q.pending t.live;
    fresh = λ s h. (
      phase_of-remove-none s r q.pending (t.fresh s h).0,
      ground (arith, t.fresh s h, phase_of_found r q.pending p found),
    );
  }

  pub landing-Counts : (n : ℕ) → Table q → Counts n q → Counts n (landing r p q)
  landing-Counts n t c = record {
    offers = c.offers;
    admissions = ground (arith, count-remove numbered r q.pending p t.distinct found, c.admissions);
    fits = ground (arith, length-remove r q.pending, c.fits);
    lost_overflow = c.lost_overflow;
    lost_shutdown = c.lost_shutdown;
    lost_handoff = c.lost_handoff;
  }

  pub landing-flight :
      (r' s : ℕ)
      → Table q
      → Airborne r' s q ⊎ Landed r' s q
      → Airborne r' s (landing r p q) ⊎ Landed r' s (landing r p q)
  unfolding phase_of
  landing-flight r' s t (inr (absent, gone, landed, none_left)) = inr (
    ground (arith, find-remove r' r q.pending),
    phase_of-remove-none s r q.pending gone,
    ground (arith, phase_of_found r q.pending p found),
    ground (arith, count-remove unnumbered r q.pending p t.distinct found),
  )
  landing-flight r' s t (inl (p', found', same, bare, one, alone)) = elim (Bool-cases (eqb r' r)) [
    | inl here ↦
        let e : r' ≡ r = (eqb_iff r' r).0 here in
        inr (
          ground (arith, find-remove r' r q.pending),
          ground arith,
          ground arith,
          ground (arith, count-remove unnumbered r q.pending p t.distinct found),
        )
    | inr elsewhere ↦ inl (
      p',
      ground (arith, find-remove r' r q.pending),
      same,
      bare,
      ground (
        arith,
        find-remove r' r q.pending,
        count-remove unnumbered r q.pending p t.distinct found,
        count-remove unnumbered r' (remove r q.pending) p'
            (remove-DistinctRecords r q.pending t.distinct),
      ),
      rw remove_comm (phase_of-remove-none s r (remove r' q.pending) alone),
    )
  ]

OwnOrGone-remove :
    (r : ℕ) (pending : List Admission) (a : Admission)
    → OwnOrGone pending a
    → OwnOrGone (remove r pending) a
OwnOrGone-remove r pending a (inl absent) = inl (ground (arith, find-remove a.record_id r pending))
OwnOrGone-remove r pending a (inr (p, found, same)) = elim (Bool-cases (eqb a.record_id r)) [
  | inl here ↦ inl (ground (arith, find-remove a.record_id r pending))
  | inr elsewhere ↦ inr (p, ground (arith, find-remove a.record_id r pending), same)
]

All-OwnOrGone-remove :
    (r : ℕ) (pending items : List Admission)
    → All (OwnOrGone pending) items
    → All (OwnOrGone (remove r pending)) items
All-OwnOrGone-remove r pending [] own = tt
All-OwnOrGone-remove r pending (a ∷ items) (own, rest) =
    (OwnOrGone-remove r pending a own, All-OwnOrGone-remove r pending items rest)

pub settle_all-nil : (s : Queue × ℕ) → settle_all [] s ≡ s
unfolding settle_all
settle_all-nil s = refl

pub settle_all-cons :
    (item : Admission) (items : List Admission) (s : Queue × ℕ)
    → settle_all (item ∷ items) s ≡ settle_all items (settle item s)
unfolding settle_all
settle_all-cons item items s = refl

-- A property that every landing keeps is kept by the loop over a batch.
module _ (P : Queue → Type 0)
    (step : (r : ℕ) (p : Admission) (q : Queue)
      → find r q.pending ≡ some p
      → P q
      → P (landing r p q)) where
  pub settle_all_keeps :
      (items : List Admission) (q : Queue) (k : ℕ)
      → All (OwnOrGone q.pending) items
      → P q
      → P (settle_all items (q, k)).0
  settle_all_keeps [] q k own h = rw settle_all-nil h
  settle_all_keeps (item ∷ items) q k (inl absent, own) h =
      rw (settle_all-cons, settle_absent item q k absent) (settle_all_keeps items q k own h)
  settle_all_keeps (item ∷ items) q k (inr (p, found, same), own) h =
      rw (settle_all-cons, settle_own item p q k found same)
        (settle_all_keeps items (landing item.record_id p q) (k + 1)
          (All-OwnOrGone-remove item.record_id q.pending items own)
          (step item.record_id p q found h))

-- A record that is not in the batch is found as before.
pub settle_all-find :
    (items : List Admission) (q : Queue) (k : ℕ) (b : Admission)
    → All (OwnOrGone q.pending) items
    → ApartFrom items b
    → find b.record_id (settle_all items (q, k)).0.pending ≡ find b.record_id q.pending
settle_all-find [] q k b own apart = rw settle_all-nil
settle_all-find (item ∷ items) q k b (inl absent, own) (ne, apart) =
    rw (settle_all-cons, settle_absent item q k absent) (settle_all-find items q k b own apart)
settle_all-find (item ∷ items) q k b (inr (p, found, same), own) (ne, apart) =
    rw (settle_all-cons, settle_own item p q k found same)
      (settle_all-find items (landing item.record_id p q) (k + 1) b
          (All-OwnOrGone-remove item.record_id q.pending items own) apart
        ∙ ground (arith, find-remove b.record_id item.record_id q.pending))
