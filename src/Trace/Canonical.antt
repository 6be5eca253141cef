-- ===== src/Trace/Canonical.antt =====
-- src/teaql/core/trace.py: a canonical path stays as it is.
use teaql_python.Base.{
  ℕ, ◌≡◌, refl, ◌∙◌, ap, inl, inr, Bool, true, false, not, ◌&&◌, ◌||◌, List, [], ◌∷◌, ◌++◌, arith,
  if-keeps, any, select, eqb, leb, ◌==◌, list_eq, nat_eq, Bool-cases, All, All-append, All-map,
}
use teaql_python.Base.Text.{Text, text, all_chars}
use teaql_python.Ledger.Defs.{TraceNode}
use teaql_python.Trace.Paths.{
  frame, is_intent, kind_of, is_kind, is_complete, without_intents, operation_frame, subject_frame,
  provider_frame, sql_frame, relations_of, new_path, canonical_sql_trace_path, first_name,
  last_entity,
}

abbrev is_small : ℕ → Bool
is_small c = leb 0x61 c && leb c 0x7a

-- `str.lower` leaves small ASCII letters
abbrev pub KeepsSmall : (Text → Text) → Type 0
KeepsSmall lower = (s : Text) → all_chars is_small s ≡ true → lower s ≡ s

any-append :
    {A : Type 0} (p : A → Bool) (xs ys : List A) → any p (xs ++ ys) ≡ (any p xs || any p ys)
any-append p [] ys = refl
any-append p (x ∷ xs) ys = ground (arith, any-append p xs ys)

-- a selection keeps what passes the other test, if the selected pass it
any-select :
    {A : Type 0} (p q : A → Bool) (xs : List A)
    → ((x : A) → p x ≡ true → q x ≡ true)
    → any p (select q xs) ≡ any p xs
any-select p q [] h = refl
any-select p q (x ∷ xs) h = elim (Bool-cases (q x)) [
  | inl kept ↦ rw kept (ap (λ b. p x || b) (any-select p q xs h))
  | inr dropped ↦ rw dropped (any-select p q xs h ∙ ground (arith, dropped, h x))
]

pub select-All : {A : Type 0} (q : A → Bool) (xs : List A) → All (λ x. q x ≡ true) (select q xs)
select-All q [] = tt
select-All q (x ∷ xs) = elim (Bool-cases (q x)) [
  | inl kept ↦ rw kept (kept, select-All q xs)
  | inr dropped ↦ rw dropped (select-All q xs)
]

All-select : {A : Type 0} (q : A → Bool) (xs : List A) → All (λ x. q x ≡ true) xs → select q xs ≡ xs
All-select q [] h = refl
All-select q (x ∷ xs) (p, h) = rw p (ap (λ l. x ∷ l) (All-select q xs h))

any-here : {A : Type 0} (p : A → Bool) (x : A) (xs : List A) → p x ≡ true → any p (x ∷ xs) ≡ true
any-here p x xs h = ground (arith, h)

any-later :
    {A : Type 0} (p : A → Bool) (x : A) (xs : List A) → any p xs ≡ true → any p (x ∷ xs) ≡ true
any-later p x xs h = ground (arith, h)

any-behind :
    {A : Type 0} (p : A → Bool) (xs ys : List A) → any p ys ≡ true → any p (xs ++ ys) ≡ true
any-behind p xs ys h = ground (arith, h, any-append p xs ys)

module _ (lower : Text → Text) where
  pub of_kind : (k : Text) (n : TraceNode) → is_kind lower k n ≡ true → kind_of lower n ≡ k
  of_kind k n h = ((list_eq {A = ℕ}).equal_iff (kind_of lower n) k).0 h

  kind_is : (k : Text) (n : TraceNode) → kind_of lower n ≡ k → is_kind lower k n ≡ true
  kind_is k n h = ((list_eq {A = ℕ}).equal_iff (kind_of lower n) k).1 h

  not_intent :
      (k : Text) (n : TraceNode)
      → is_intent k ≡ false
      → is_kind lower k n ≡ true
      → not (is_intent (kind_of lower n)) ≡ true
  not_intent k n h e = rw (of_kind k n e, h) refl

  -- dropping the intents leaves a complete path complete
  without_complete :
      (nodes : List TraceNode)
      → is_complete lower nodes ≡ true
      → is_complete lower (without_intents lower nodes) ≡ true
  unfolding list_eq
  without_complete nodes h =
      let kept = λ (k : Text) (e : is_intent k ≡ false).
        any-select (is_kind lower k) (λ n. not (is_intent (kind_of lower n))) nodes
          (λ n. not_intent k n e) in
      rw (kept (text "operation") refl, kept (text "provider") refl, kept (text "sql") refl) h

  complete_of :
      (nodes : List TraceNode)
      → any (is_kind lower (text "operation")) nodes ≡ true
      → any (is_kind lower (text "provider")) nodes ≡ true
      → any (is_kind lower (text "sql")) nodes ≡ true
      → is_complete lower nodes ≡ true
  complete_of nodes a b c = rw (a, b, c) refl

  module _ (keeps : KeepsSmall lower) where
    pub kind_of-frame :
        (k name comment : Text)
        → all_chars is_small k ≡ true
        → select (λ c. not (eqb c 0x5f)) k ≡ k
        → kind_of lower (frame k name comment) ≡ k
    unfolding kind_of
    kind_of-frame k name comment h e = ap lower e ∙ keeps k h

    frame_is :
        (k name comment : Text)
        → all_chars is_small k ≡ true
        → select (λ c. not (eqb c 0x5f)) k ≡ k
        → is_kind lower k (frame k name comment) ≡ true
    frame_is k name comment h e =
        kind_is k (frame k name comment) (kind_of-frame k name comment h e)

    frame-intent :
        (k name comment : Text)
        → all_chars is_small k ≡ true
        → select (λ c. not (eqb c 0x5f)) k ≡ k
        → is_intent k ≡ false
        → not (is_intent (kind_of lower (frame k name comment))) ≡ true
    frame-intent k name comment h e i =
        not_intent k (frame k name comment) i (frame_is k name comment h e)

    new_path_complete :
        (nodes : List TraceNode) (backend operation : Text)
        → is_complete lower (new_path lower nodes backend operation) ≡ true
    new_path_complete nodes backend operation =
        let first = operation_frame lower nodes operation in
        let subject = subject_frame lower nodes operation in
        let provider = provider_frame lower backend in
        let sql = sql_frame lower operation in
        let ends = provider ∷ sql ∷ [] in
        let rest = relations_of lower nodes ++ ends in
        let o = is_kind lower (text "operation") in
        let p = is_kind lower (text "provider") in
        let q = is_kind lower (text "sql") in
        complete_of (new_path lower nodes backend operation)
          (any-here o first (subject ∷ rest)
            (frame_is (text "operation") first.name first.comment refl refl))
          (any-later p first (subject ∷ rest) (
            any-later p subject rest (
              any-behind p (relations_of lower nodes) ends (
                any-here p provider (sql ∷ [])
                  (frame_is (text "provider") provider.name [] refl refl)))))
          (any-later q first (subject ∷ rest) (
            any-later q subject rest (
              any-behind q (relations_of lower nodes) ends (
                any-later q provider (sql ∷ [])
                  (any-here q sql [] (frame_is (text "sql") sql.name [] refl refl))))))

    new_path-intents :
        (nodes : List TraceNode) (backend operation : Text)
        → All
            (λ n. not (is_intent (kind_of lower n)) ≡ true)
            (new_path lower nodes backend operation)
    unfolding list_eq
    new_path-intents nodes backend operation =
        let first = operation_frame lower nodes operation in
        let root = first_name nodes in
        let P = λ (n : TraceNode). not (is_intent (kind_of lower n)) ≡ true in
        (
          frame-intent (text "operation") first.name first.comment refl refl refl,
          (
            if-keeps P (lower operation == text "select") {x = frame (text "request") root []}
                {y = frame (text "entity") (last_entity lower nodes root) []}
                (λ _. frame-intent (text "request") root [] refl refl refl)
                (λ _.
                  frame-intent (text "entity") (last_entity lower nodes root) [] refl refl refl),
            All-append P (relations_of lower nodes)
                (provider_frame lower backend ∷ sql_frame lower operation ∷ [])
                (All-map (relations_of lower nodes) (λ n e. not_intent (text "relation") n refl e)
                  (select-All (is_kind lower (text "relation")) nodes))
                (
                  frame-intent (text "provider") (provider_frame lower backend).name [] refl refl
                      refl,
                  (frame-intent (text "sql") (lower operation) [] refl refl refl, tt),
                ),
          ),
        )

    complete_kept :
        (path : List TraceNode) (backend operation : Text)
        → is_complete lower path ≡ true
        → All (λ n. not (is_intent (kind_of lower n)) ≡ true) path
        → canonical_sql_trace_path lower path backend operation ≡ path
    unfolding canonical_sql_trace_path
    complete_kept path backend operation h g =
        rw h (All-select (λ n. not (is_intent (kind_of lower n))) path g)

    -- The canonical path of a canonical path is itself, whatever the backend and the operation are that the second
    -- call names, if `str.lower` leaves small ASCII letters as they are.
    pub canonical_sql_trace_path_lem :
        (nodes : List TraceNode) (backend operation backend' operation' : Text)
        → let path = canonical_sql_trace_path lower nodes backend operation in
          canonical_sql_trace_path lower path backend' operation' ≡ path
    unfolding canonical_sql_trace_path
    canonical_sql_trace_path_lem nodes backend operation backend' operation' =
        if-keeps (λ path. canonical_sql_trace_path lower path backend' operation' ≡ path)
          (is_complete lower nodes) {x = without_intents lower nodes}
          {y = new_path lower nodes backend operation}
          (λ h.
            complete_kept (without_intents lower nodes) backend' operation'
              (without_complete nodes h)
              (select-All (λ n. not (is_intent (kind_of lower n))) nodes))
          (λ _.
            complete_kept (new_path lower nodes backend operation) backend' operation'
              (new_path_complete nodes backend operation)
              (new_path-intents nodes backend operation))
