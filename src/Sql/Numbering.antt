-- ===== src/Sql/Numbering.antt =====
-- src/teaql/sql/dialect.py: the placeholders of a compiled statement and the values bound to them.
use teaql_python.Base.{
  ℕ, zero, suc, ◌+◌, ◌≡◌, refl, sym, ◌∙◌, ap, ◌&&◌, Option, none, some, List, [], ◌∷◌, ◌++◌, arith,
  length, length-append, is_some, if-keeps, list_eq, nat_eq,
}
use teaql_python.Base.Dict.{Dict, lookup}
use teaql_python.Base.Integers.{ℤ}
use teaql_python.Base.Text.{Text}
use teaql_python.Sql.Core.{
  Value, Property, Compiled, compiled, refused, Piece, raw, ident, place, Binding, CompiledQuery,
  joined,
}
use teaql_python.Sql.Writes.{
  Built, typed, assign, hold, insert_step, insert_values, update_step, update_values,
}

-- the numbers of a statement's placeholders, from left to right
abbrev pub places : List Piece → List ℕ
places [] = []
places (raw _ ∷ ps) = places ps
places (ident _ ∷ ps) = places ps
places (place n ∷ ps) = n ∷ places ps

abbrev pub places_all : List (List Piece) → List ℕ
places_all [] = []
places_all (p ∷ ps) = places p ++ places_all ps

-- `n + 1`, …, `n + m`
abbrev pub count_from : ℕ → ℕ → List ℕ
count_from n zero = []
count_from n (suc m) = suc n ∷ count_from (suc n) m

pub places-append : (ps qs : List Piece) → places (ps ++ qs) ≡ places ps ++ places qs
places-append [] qs = refl
places-append (raw _ ∷ ps) qs = places-append ps qs
places-append (ident _ ∷ ps) qs = places-append ps qs
places-append (place n ∷ ps) qs = ap (λ l. n ∷ l) (places-append ps qs)

pub append_assoc : {A : Type 0} (xs ys zs : List A) → (xs ++ ys) ++ zs ≡ xs ++ (ys ++ zs)
append_assoc [] ys zs = refl
append_assoc (x ∷ xs) ys zs = ap (λ l. x ∷ l) (append_assoc xs ys zs)

pub append_nil : {A : Type 0} (xs : List A) → xs ++ [] ≡ xs
append_nil [] = refl
append_nil (x ∷ xs) = ap (λ l. x ∷ l) (append_nil xs)

pub places_all-append :
    (ps qs : List (List Piece)) → places_all (ps ++ qs) ≡ places_all ps ++ places_all qs
places_all-append [] qs = refl
places_all-append (p ∷ ps) qs =
    rw (places_all-append ps qs) (sym (append_assoc (places p) (places_all ps) (places_all qs)))

pub places-joined : (s : Text) (ps : List (List Piece)) → places (joined s ps) ≡ places_all ps
places-joined s [] = refl
places-joined s (p ∷ []) = sym (append_nil (places p))
places-joined s (p ∷ q ∷ ps) =
    rw (places-append p (raw s ∷ joined s (q ∷ ps)), places-joined s (q ∷ ps)) refl

pub count_from-append : (n a b : ℕ) → count_from n (a + b) ≡ count_from n a ++ count_from (n + a) b
count_from-append n zero b =
    let l : 0 + b ≡ b = omega arith in
    let r : n ≡ n + 0 = omega arith in ap (count_from n) l ∙ ap (λ m. count_from m b) r
count_from-append n (suc a) b =
    let l : suc a + b ≡ suc (a + b) = omega arith in
    let r : suc n + a ≡ n + suc a = omega arith in
    ap (count_from n) l
    ∙ ap (λ t. suc n ∷ t)
        (count_from-append (suc n) a b ∙ ap (λ m. count_from (suc n) a ++ count_from m b) r)

module _ {D : Type 0} where
  -- The parts hold the placeholders after the first `k`, one for each value bound after the first `k`.
  abbrev pub Numbered : ℕ → Built D → Type 0
  Numbered k b =
      (places_all b.parts ≡ count_from k (length b.parts)) × (length b.params ≡ k + length b.parts)

  -- a part with one placeholder, for the value bound last
  snoc-Numbered :
      (k : ℕ) (part : List Piece) (x : Binding D) (b : Built D)
      → places part ≡ (length (b.params ++ (x ∷ [])) ∷ [])
      → Numbered k b
      → Numbered k (record { parts = b.parts ++ (part ∷ []); params = b.params ++ (x ∷ []) })
  snoc-Numbered k part x b own (n, l) =
      let last : length (b.params ++ (x ∷ [])) ≡ suc (k + length b.parts) =
        omega (arith, length-append b.params (x ∷ []), l) in
      (
        places_all-append b.parts (part ∷ [])
            ∙ (ap (λ t. places_all b.parts ++ t) (append_nil (places part) ∙ own)
                ∙ (ap (λ t. t ++ (length (b.params ++ (x ∷ [])) ∷ [])) n
                    ∙ (ap (λ m. count_from k (length b.parts) ++ (m ∷ [])) last
                        ∙ (sym (count_from-append k (length b.parts) 1)
                            ∙ ap (count_from k) (sym (length-append b.parts (part ∷ []))))))),
        omega (arith, length-append b.params (x ∷ []), length-append b.parts (part ∷ []), l),
      )

  pub assign-Numbered :
      (k : ℕ) (p : Property) (value : Value D) (b : Built D)
      → Numbered k b
      → Numbered k (assign p value b)
  unfolding assign
  assign-Numbered k p value b n = snoc-Numbered k _ _ b refl n

  hold-Numbered :
      (k : ℕ) (p : Property) (value : Value D) (b : Built D)
      → Numbered k b
      → Numbered k (hold p value b)
  unfolding hold
  hold-Numbered k p value b n = snoc-Numbered k _ _ b refl n

  insert_step-Numbered :
      (p : Property) (values : Dict Text (Value D)) (b : Built D)
      → Numbered 0 b
      → Numbered 0 (insert_step p values b)
  unfolding insert_step
  insert_step-Numbered p values b n =
      elim (lookup p.name values)
        as (λ o. Numbered 0 (elim o [ none ↦ b | some value ↦ hold p (typed p value) b ])) [
          | none ↦ n
          | some value ↦ hold-Numbered 0 p (typed p value) b n
        ]

  pub insert_values-Numbered :
      (ps : List Property) (values : Dict Text (Value D)) (b : Built D)
      → Numbered 0 b
      → Numbered 0 (insert_values ps values b)
  unfolding insert_values
  insert_values-Numbered [] values b n = n
  insert_values-Numbered (p ∷ ps) values b n =
      insert_values-Numbered ps values (insert_step p values b) (insert_step-Numbered p values b n)

  assigned-Numbered :
      (p : Property) (values : Dict Text (Value D)) (b : Built D)
      → Numbered 0 b
      → Numbered 0
          (elim (lookup p.name values) [ none ↦ b | some value ↦ assign p (typed p value) b ])
  assigned-Numbered p values b n =
      elim (lookup p.name values)
        as (λ o. Numbered 0 (elim o [ none ↦ b | some value ↦ assign p (typed p value) b ])) [
          | none ↦ n
          | some value ↦ assign-Numbered 0 p (typed p value) b n
        ]

  update_step-Numbered :
      (expected : Option ℤ) (p : Property) (values : Dict Text (Value D)) (b : Built D)
      → Numbered 0 b
      → Numbered 0 (update_step expected p values b)
  unfolding update_step
  update_step-Numbered expected p values b n =
      if-keeps (Numbered 0) p.is_id (λ _. n)
        (λ _.
          if-keeps (Numbered 0) (p.is_version && is_some expected) (λ _. n)
            (λ _. assigned-Numbered p values b n))

  pub update_values-Numbered :
      (expected : Option ℤ) (ps : List Property) (values : Dict Text (Value D)) (b : Built D)
      → Numbered 0 b
      → Numbered 0 (update_values expected ps values b)
  unfolding update_values
  update_values-Numbered expected [] values b n = n
  update_values-Numbered expected (p ∷ ps) values b n =
      update_values-Numbered expected ps values (update_step expected p values b)
        (update_step-Numbered expected p values b n)

  -- every bound value has its placeholder, in the order of the text
  abbrev pub InOrder : CompiledQuery D → Type 0
  InOrder q = places q.sql ≡ count_from 0 (length q.params)

  -- a compiled statement is in order
  abbrev pub Ordered : Compiled (CompiledQuery D) → Type 0
  Ordered (compiled q) = InOrder q
  Ordered (refused _) = Unit
