-- ===== src/BusinessId/Permutation/Walk.antt =====
-- The cycle walk: it ends within as many rounds as there are blocks, below its bound, and walks from
-- different candidates end at different ones.
use teaql_python.Base.{
  ℕ, zero, suc, ◌+◌, ◌-◌, ◌≤◌, ◌<◌, ◌≡◌, ◌≢◌, ap, sym, ◌∙◌, inl, inr, none, some, arith, ltb,
  Bool-cases, Option-cases,
}
use teaql_python.BusinessId.Permutation.{walk}
use teaql_python.BusinessId.Permutation.Cycle.{
  iterate, iterate_injective, iterate-add, iterate-lt, returns,
}

module _ (f : ℕ → ℕ) (bound : ℕ) where
  walk-none : (n x : ℕ) → walk f bound n x ≡ none → (i : ℕ) → i < n → bound ≤ iterate f (suc i) x
  unfolding walk iterate
  walk-none zero x h i lt = absurd (omega arith)
  walk-none (suc n) x h zero lt = ground arith
  walk-none (suc n) x h (suc i) lt = walk-none n (f x) (ground arith) i (omega arith)

  -- Where a walk ends, and what it passed.
  pub record Ends (x r : ℕ) : Type 0 where
    pub rounds : ℕ
    pub arrives : iterate f (suc rounds) x ≡ r
    pub passes : (i : ℕ) → i < rounds → bound ≤ iterate f (suc i) x
    pub below : r < bound

  passes_later :
      (n x : ℕ)
      → bound ≤ f x
      → ((i : ℕ) → i < n → bound ≤ iterate f (suc i) (f x))
      → (i : ℕ) → i < suc n
      → bound ≤ iterate f (suc i) x
  unfolding iterate
  passes_later n x first rest zero lt = first
  passes_later n x first rest (suc i) lt = rest i (omega arith)

  pub walk-Ends : (n x r : ℕ) → walk f bound n x ≡ some r → Ends x r
  unfolding walk iterate
  walk-Ends zero x r h = cc
  walk-Ends (suc n) x r h = elim (Bool-cases (ltb (f x) bound)) [
    | inl inside ↦ record {
      rounds = 0;
      arrives = ground arith;
      passes = λ i lt. absurd (omega arith);
      below = ground arith;
    }
    | inr outside ↦
        let rest = walk-Ends n (f x) r (ground arith) in
        record {
          rounds = suc rest.rounds;
          arrives = rest.arrives;
          passes = passes_later rest.rounds x (ground arith) rest.passes;
          below = rest.below;
        }
  ]

module _ (f : ℕ → ℕ) (size bound : ℕ) (f-lt : (x : ℕ) → f x < size)
    (f_injective : (x y : ℕ) → x < size → y < size → f x ≡ f y → x ≡ y) (fits : bound ≤ size) where
  -- With as much fuel as there are points the walk ends.
  pub walk_total : (x : ℕ) → x < bound → (r : ℕ) × (walk f bound size x ≡ some r)
  walk_total x h = elim (Option-cases (walk f bound size x)) [
    | inl lost ↦ absurd (returns f size f-lt f_injective x (omega arith) (away lost))
    | inr (r, ends) ↦ (r, ends)
  ]
    where
      away : walk f bound size x ≡ none → (i : ℕ) → i < size → x ≢ iterate f (suc i) x
      away lost i lt e = absurd (omega (arith, walk-none f bound size x lost i lt))

  -- A start below the bound is not passed on the way from another.
  no_overtaking :
      (x y r : ℕ) (from_x : Ends f bound x r) (from_y : Ends f bound y r)
      → x < bound
      → y < bound
      → ¬ (from_x.rounds < from_y.rounds)
  no_overtaking x y r from_x from_y hx hy lt =
      absurd (omega (arith, from_y.passes (gap - 1) (omega arith), met_again))
    where
      gap : ℕ
      gap = from_y.rounds - from_x.rounds

      split : suc from_y.rounds ≡ gap + suc from_x.rounds
      split = omega arith

      met : x ≡ iterate f gap y
      met =
          iterate_injective f size f-lt f_injective (suc from_x.rounds) x (iterate f gap y)
            (omega arith) (iterate-lt f size f-lt f_injective gap y (omega arith))
            (from_x.arrives
              ∙ sym from_y.arrives
              ∙ ap (λ (t : ℕ). iterate f t y) split
              ∙ iterate-add f size f-lt f_injective gap (suc from_x.rounds) y)

      met_again : iterate f (suc (gap - 1)) y ≡ x
      met_again =
          ap (λ (t : ℕ). iterate f t y) {x = suc (gap - 1)} {y = gap} (omega arith) ∙ sym met

  -- Walks that end at one point began at one point.
  pub walk_injective :
      (n m x y r : ℕ)
      → x < bound
      → y < bound
      → walk f bound n x ≡ some r
      → walk f bound m y ≡ some r
      → x ≡ y
  walk_injective n m x y r hx hy wx wy =
      iterate_injective f size f-lt f_injective (suc from_x.rounds) x y (omega arith) (omega arith)
        (from_x.arrives ∙ sym from_y.arrives ∙ ap (λ (t : ℕ). iterate f (suc t) y) (sym same))
    where
      from_x : Ends f bound x r
      from_x = walk-Ends f bound n x r wx

      from_y : Ends f bound y r
      from_y = walk-Ends f bound m y r wy

      same : from_x.rounds ≡ from_y.rounds
      same =
          omega (
            arith,
            no_overtaking x y r from_x from_y hx hy,
            no_overtaking y x r from_y from_x hy hx,
          )
