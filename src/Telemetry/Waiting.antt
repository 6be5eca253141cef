-- ===== src/Telemetry/Waiting.antt =====
-- The waits of the queue, over what the waiting thread sees each time that it holds the lock.
use mathlib.Core.Bool.{not}
use teaql_python.Base.{
  ℕ, zero, suc, ◌≤◌, ◌<◌, ◌≡◌, refl, inl, inr, Bool, true, false, some, List, [], ◌∷◌, arith,
  get_elem?, Bool-cases, leb,
}
use teaql_python.Telemetry.Queue.{Queue, wait}

-- The observation at which a waiting thread stopped, and what held at it and before it.
pub record Stopped (test : Queue → Bool) (deadline : ℕ) (seen : List (Queue × ℕ)) (answer : Bool)
    : Type 0 where
  pub at : ℕ
  pub queue : Queue
  pub now : ℕ
  pub seen_at : get_elem? seen at ≡ some (queue, now)
  pub answers : answer ≡ not (test queue)
  pub late : answer ≡ false → deadline ≤ now
  pub before :
      (j : ℕ) (q : Queue) (n : ℕ)
      → j < at
      → get_elem? seen j ≡ some (q, n)
      → (test q ≡ true) × (n < deadline)

module _ (test : Queue → Bool) (deadline : ℕ) (q : Queue) (now : ℕ) (rest : List (Queue × ℕ))
    (answer : Bool) (held : test q ≡ true) (early : now < deadline)
    (later : Stopped test deadline rest answer) where
  before_later :
      (j : ℕ) (q' : Queue) (n : ℕ)
      → j < suc later.at
      → get_elem? ((q, now) ∷ rest) j ≡ some (q', n)
      → (test q' ≡ true) × (n < deadline)
  before_later zero q' n lt e = (rw (← same.0) held, rw (← same.1) early)
    where
      same : (q ≡ q') × (now ≡ n)
      same = ground arith
  before_later (suc k) q' n lt e = later.before k q' n (omega arith) e

  Stopped-later : Stopped test deadline ((q, now) ∷ rest) answer
  Stopped-later = record {
    at = suc later.at;
    queue = later.queue;
    now = later.now;
    seen_at = later.seen_at;
    answers = later.answers;
    late = later.late;
    before = before_later;
  }

-- A wait that returns has an observation at which it stopped: it returned true exactly if its test
-- failed there, false only at or after the deadline, and at every earlier observation the test
-- held before the deadline.
pub wait-Stopped :
    (test : Queue → Bool) (deadline : ℕ) (seen : List (Queue × ℕ)) (answer : Bool)
    → wait test deadline seen ≡ some answer
    → Stopped test deadline seen answer
unfolding wait
wait-Stopped test deadline [] answer h = cc
wait-Stopped test deadline ((q, now) ∷ rest) answer h = elim (Bool-cases (test q)) [
  | inr done ↦ record {
    at = 0;
    queue = q;
    now = now;
    seen_at = refl;
    answers = ground arith;
    late = λ e. ground arith;
    before = λ j q' n lt e. absurd (omega arith);
  }
  | inl held ↦ elim (Bool-cases (leb deadline now)) [
    | inl passed ↦ record {
      at = 0;
      queue = q;
      now = now;
      seen_at = refl;
      answers = ground arith;
      late = λ e. ground arith;
      before = λ j q' n lt e. absurd (omega arith);
    }
    | inr early ↦
        Stopped-later test deadline q now rest answer held (ground arith)
          (wait-Stopped test deadline rest answer (ground arith))
  ]
]
