-- ===== src/BusinessId/Permutation/Cycle.antt =====
-- A map that is injective below a bound returns, from any point, to that point: by counting.
use teaql_python.Base.{
  ℕ, zero, suc, ◌+◌, ◌-◌, ◌≤◌, ◌<◌, ◌≡◌, ◌≢◌, refl, ap, ◌∙◌, List, [], ◌∷◌, arith, All, length, eqb,
  if◌then◌else◌,
}

abbrev Distinct : List ℕ → Type 0
Distinct [] = Unit
Distinct (x ∷ l) = All (λ y. x ≢ y) l × Distinct l

without : ℕ → List ℕ → List ℕ
without n [] = []
without n (x ∷ l) = let rest = without n l in if eqb x n then rest else x ∷ rest

module _ (P : ℕ → Type 0) (n : ℕ) where
  without-All : (l : List ℕ) → All P l → All P (without n l)
  unfolding without
  without-All [] h = tt
  without-All (x ∷ l) h = ground (arith, without-All l h.1)

-- The bound falls by one.
without-lt : (n : ℕ) (l : List ℕ) → All (λ x. x < suc n) l → All (λ x. x < n) (without n l)
unfolding without
without-lt n [] h = tt
without-lt n (x ∷ l) h = ground (arith, without-lt n l h.1)

without-absent : (n : ℕ) (l : List ℕ) → All (λ y. n ≢ y) l → without n l ≡ l
unfolding without
without-absent n [] h = refl
without-absent n (x ∷ l) h = ground (arith, without-absent n l h.1)

length-without : (n : ℕ) (l : List ℕ) → Distinct l → length l ≤ length (without n l) + 1
unfolding without
length-without n [] d = omega arith
length-without n (x ∷ l) d = ground (arith, length-without n l d.1, without-absent x l d.0)

without-Distinct : (n : ℕ) (l : List ℕ) → Distinct l → Distinct (without n l)
unfolding without
without-Distinct n [] d = tt
without-Distinct n (x ∷ l) d =
    ground (arith, without-Distinct n l d.1, without-All (λ y. x ≢ y) n l d.0)

-- There are no more than `n` distinct numbers below `n`.
length-Distinct : (n : ℕ) (l : List ℕ) → All (λ x. x < n) l → Distinct l → length l ≤ n
length-Distinct zero [] h d = omega arith
length-Distinct zero (x ∷ l) h d = absurd (omega arith)
length-Distinct (suc n) l h d = omega (
  arith,
  length-without n l d,
  length-Distinct n (without n l) (without-lt n l h) (without-Distinct n l d),
)

-- `f` applied `n` times.
unfoldable pub iterate : (ℕ → ℕ) → ℕ → ℕ → ℕ
iterate f zero x = x
iterate f (suc n) x = iterate f n (f x)

module _ (f : ℕ → ℕ) (size : ℕ) (f-lt : (x : ℕ) → f x < size)
    (f_injective : (x y : ℕ) → x < size → y < size → f x ≡ f y → x ≡ y) where
  pub iterate-lt : (n x : ℕ) → x < size → iterate f n x < size
  unfolding iterate
  iterate-lt zero x h = h
  iterate-lt (suc n) x h = iterate-lt n (f x) (f-lt x)

  pub iterate_injective : (n x y : ℕ) → x < size → y < size → iterate f n x ≡ iterate f n y → x ≡ y
  unfolding iterate
  iterate_injective zero x y h g e = e
  iterate_injective (suc n) x y h g e =
      f_injective x y h g (iterate_injective n (f x) (f y) (f-lt x) (f-lt y) e)

  pub iterate-add : (m n x : ℕ) → iterate f (m + n) x ≡ iterate f n (iterate f m x)
  unfolding iterate
  iterate-add zero n x = ground arith
  iterate-add (suc m) n x =
      ap (λ (t : ℕ). iterate f t x) {x = suc m + n} {y = suc (m + n)} (omega arith)
      ∙ iterate-add m n (f x)

  orbit : ℕ → ℕ → List ℕ
  orbit zero x = []
  orbit (suc n) x = x ∷ orbit n (f x)

  orbit-lt : (n x : ℕ) → x < size → All (λ y. y < size) (orbit n x)
  unfolding orbit
  orbit-lt zero x h = tt
  orbit-lt (suc n) x h = (h, orbit-lt n (f x) (f-lt x))

  length-orbit : (n x : ℕ) → length (orbit n x) ≡ n
  unfolding orbit
  length-orbit zero x = refl
  length-orbit (suc n) x = ap suc (length-orbit n (f x))

  orbit-All : (n y z : ℕ) → ((i : ℕ) → i < n → y ≢ iterate f i z) → All (λ w. y ≢ w) (orbit n z)
  unfolding orbit iterate
  orbit-All zero y z h = tt
  orbit-All (suc n) y z h =
      (h 0 (omega arith), orbit-All n y (f z) (λ i lt. h (suc i) (omega arith)))

  orbit-Distinct :
      (n z : ℕ) → ((a b : ℕ) → a < b → b < n → iterate f a z ≢ iterate f b z) → Distinct (orbit n z)
  unfolding orbit iterate
  orbit-Distinct zero z h = tt
  orbit-Distinct (suc n) z h = (
    orbit-All n z (f z) (λ i lt. h 0 (suc i) (omega arith) (omega arith)),
    orbit-Distinct n (f z) (λ a b lt lt'. h (suc a) (suc b) (omega arith) (omega arith)),
  )

  -- A point met twice from `x` shows that `x` itself is met again.
  met_twice :
      (x a b : ℕ) → x < size → a < b → iterate f a x ≡ iterate f b x → x ≡ iterate f (b - a) x
  met_twice x a b h lt e =
      iterate_injective a x (iterate f (b - a) x) h (iterate-lt (b - a) x h)
        (e ∙ ap (λ (t : ℕ). iterate f t x) b_split ∙ iterate-add (b - a) a x)
    where
      b_split : b ≡ b - a + a
      b_split = omega arith

  -- Within `size` applications `x` is met again.
  pub returns : (x : ℕ) → x < size → ¬ ((i : ℕ) → i < size → x ≢ iterate f (suc i) x)
  returns x h away = absurd (
      omega (
        arith,
        length-orbit (suc size) x,
        length-Distinct size (orbit (suc size) x) (orbit-lt (suc size) x h)
            (orbit-Distinct (suc size) x apart),
      ))
    where
      apart : (a b : ℕ) → a < b → b < suc size → iterate f a x ≢ iterate f b x
      apart a b lt lt' e =
          let back = met_twice x a b h lt e in
          let gap : b - a ≡ suc (b - a - 1) = omega arith in
          away (b - a - 1) (omega arith) (back ∙ ap (λ (t : ℕ). iterate f t x) gap)
