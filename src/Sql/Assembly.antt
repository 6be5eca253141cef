-- ===== src/Sql/Assembly.antt =====
-- src/teaql/sql/dialect.py: the placeholders of a SELECT, by those of the parts it is put together from.
use teaql_python.Base.{
  ◌≡◌, refl, ◌∙◌, ap, Bool, true, false, ◌||◌, Option, none, some, List, [], ◌∷◌, ◌++◌, length,
  arith,
}
use teaql_python.Base.Text.{Text, text}
use teaql_python.Sql.Core.{
  Value, Entity, invalid_sub_query_operator, Compiled, compiled, refused, Piece, raw, Binding,
  Dialect, joined,
}
use teaql_python.Sql.Writes.{Built}
use teaql_python.Sql.Exprs.{BinaryOp, Slice, Shape, NamedExprs, no_named, named}
use teaql_python.Sql.Clauses.{
  ◌>>=◌, Step, column_sql, is_none, parens, infix_text, order_part, window_text, select_text,
  slice_part, raw_criteria,
}
use teaql_python.Sql.Operators.{is_membership}
use teaql_python.Sql.Numbering.{
  places, places_all, count_from, places-append, places-joined, Ordered,
}
use teaql_python.Sql.Texts
use teaql_python.Sql.Select.{compile_named}
use teaql_python.Sql.Parts.{between_text, step, binary_sql, sub_query_sql, or_raw, windowed, closed}
use teaql_python.Sql.Counted.{
  Holds, bind-Holds, all-Holds, if-Holds, Counted, nil-Counted, seq-Counted, same-Counted,
  StepCounted, BuiltCounted, in_list-Counted,
}
use teaql_python.Sql.Silent.{Silent, AllSilent, column_sql-Silent}
use teaql_python.Sql.Plain.{keeps_values}

true-not_false : {A : Type 0} (b : Bool) → (b || false) ≡ true → b ≡ false → A
true-not_false true h g = ground (arith, g)
true-not_false false h g = ground (arith, h)

module _ {D : Type 0} where
  -- the values of a text, then those of the next
  pub pair-Counted :
      (params : List (Binding D)) (x y : Step D) (sql : List Piece)
      → places sql ≡ places x.sql ++ places y.sql
      → StepCounted params x
      → StepCounted x.params y
      → Counted (length params) (places sql) (length y.params)
  pair-Counted params x y sql e h g =
      same-Counted (length params) (length y.params) (places x.sql ++ places y.sql) (places sql) e (
        seq-Counted (length params) (length x.params) (length y.params) (places x.sql)
          (places y.sql) h g)

  pub membership-Counted :
      (params : List (Binding D)) (x : Step D) (op : BinaryOp) (rhs : Compiled (Step D))
      → StepCounted params x
      → Holds (StepCounted x.params) rhs
      → Holds (StepCounted params) (rhs >>= λ y. step (infix_text x.sql op (parens y.sql)) y.params)
  membership-Counted params x op rhs h g =
      bind-Holds (StepCounted x.params) (StepCounted params) rhs _ g (λ y d.
        pair-Counted params x y (infix_text x.sql op (parens y.sql))
          (Texts.places-infix_text x.sql (parens y.sql) op
            ∙ ap (λ t. places x.sql ++ t) (Texts.places-parens y.sql))
          h d)

  pub compared-Counted :
      (params : List (Binding D)) (x : Step D) (op : BinaryOp) (rhs : Compiled (Step D))
      → StepCounted params x
      → Holds (StepCounted x.params) rhs
      → Holds (StepCounted params) (rhs >>= λ y. step (infix_text x.sql op y.sql) y.params)
  compared-Counted params x op rhs h g =
      bind-Holds (StepCounted x.params) (StepCounted params) rhs _ g (λ y d.
        pair-Counted params x y (infix_text x.sql op y.sql) (Texts.places-infix_text x.sql y.sql op)
          h d)

  pub binary_sql-Counted :
      (params : List (Binding D)) (op : BinaryOp) (current : List Text)
      (values : Option (List (Value D))) (x : Step D) (rhs : Compiled (Step D))
      → StepCounted params x
      → Holds (StepCounted x.params) rhs
      → Holds (StepCounted params) (binary_sql op current values x rhs)
  unfolding binary_sql
  binary_sql-Counted params op current none x rhs h g =
      if-Holds (StepCounted params) (is_membership op) _ _ (membership-Counted params x op rhs h g)
        (compared-Counted params x op rhs h g)
  binary_sql-Counted params op current (some vs) x rhs h g =
      if-Holds (StepCounted params) (is_membership op) _ _
        (in_list-Counted (length params) x.sql op current vs x.params h)
        (compared-Counted params x op rhs h g)

  pub sub_query_sql-Counted :
      (params : List (Binding D)) (op : BinaryOp) (x : Step D) (inner : Compiled (Step D))
      → StepCounted params x
      → Holds (StepCounted x.params) inner
      → Holds (StepCounted params) (sub_query_sql op x inner)
  unfolding sub_query_sql
  sub_query_sql-Counted params op x inner h g =
      if-Holds (StepCounted params) (is_membership op) _ (refused invalid_sub_query_operator)
        (membership-Counted params x op inner h g) tt

  -- a text `front` with the values of `x`, and the parts of `b` behind it
  pub built-Counted :
      (params : List (Binding D)) (x : Step D) (b : Built D) (sql : List Piece)
      → places sql ≡ places x.sql ++ places_all b.parts
      → StepCounted params x
      → BuiltCounted x.params b
      → Counted (length params) (places sql) (length b.params)
  built-Counted params x b sql e h g =
      same-Counted (length params) (length b.params) (places x.sql ++ places_all b.parts)
        (places sql) e
        (seq-Counted (length params) (length x.params) (length b.params) (places x.sql)
          (places_all b.parts) h g)

  pub windowed-Counted :
      (params : List (Binding D)) (entity : Entity) (part : Option (Text × Slice))
      (ordered : List (Binding D) → Compiled (Built D)) (x : Step D)
      → StepCounted params x
      → ((ps : List (Binding D)) → Holds (BuiltCounted ps) (ordered ps))
      → Holds (StepCounted params) (windowed entity part ordered x)
  unfolding windowed
  windowed-Counted params entity none ordered x h g = h
  windowed-Counted params entity (some part) ordered x h g =
      bind-Holds Silent (StepCounted params) (column_sql entity part.0) _
        (column_sql-Silent entity part.0)
        (λ c s.
          bind-Holds (BuiltCounted x.params) (StepCounted params) (ordered x.params) _ (g x.params)
            (λ o d.
              built-Counted params x o (window_text x.sql c o.parts)
                (Texts.places-window_text x.sql c o.parts s) h d))

  pub closed-Counted :
      (params : List (Binding D)) (part : Option (Text × Slice)) (slice : Option Slice)
      (ordered : List (Binding D) → Compiled (Built D)) (x : Step D)
      → StepCounted params x
      → ((ps : List (Binding D)) → Holds (BuiltCounted ps) (ordered ps))
      → Holds (StepCounted params) (closed part slice ordered x)
  unfolding closed
  closed-Counted params none slice ordered x h g =
      bind-Holds (BuiltCounted x.params) (StepCounted params) (ordered x.params) _ (g x.params)
        (λ o d.
          built-Counted params x o (x.sql ++ (order_part o.parts ++ slice_part slice))
            (places-append x.sql (order_part o.parts ++ slice_part slice)
              ∙ ap (λ t. places x.sql ++ t)
                  (Texts.places-before (order_part o.parts) (slice_part slice)
                      (Texts.places-slice_part slice)
                    ∙ Texts.places-order_part o.parts))
            h d)
  closed-Counted params (some part) slice ordered x h g =
      same-Counted (length params) (length x.params) (places x.sql) _
        (Texts.places-wrapped x.sql part.1) h

  -- the text of a SELECT, by the values of its projection, its filter, its search and its HAVING
  pub select_text-Counted :
      (params : List (Binding D)) (entity : Entity) (w : Step D) (f s h : Built D)
      (raws : List Text) (groups : List (List Piece))
      → StepCounted params w
      → BuiltCounted w.params f
      → BuiltCounted f.params s
      → AllSilent groups
      → BuiltCounted s.params h
      → Counted
          (length params)
          (places
            (select_text entity w.sql (f.parts ++ (s.parts ++ raw_criteria raws)) groups h.parts))
          (length h.params)
  select_text-Counted params entity w f s h raws groups cw cf cs silent ch =
      let conditions = f.parts ++ (s.parts ++ raw_criteria raws) in
      let tests = places_all f.parts ++ places_all s.parts in
      same-Counted (length params) (length h.params) (places w.sql ++ (tests ++ places_all h.parts))
        _
        (Texts.places-select_text entity w.sql conditions groups h.parts silent
          ∙ ap (λ t. places w.sql ++ (t ++ places_all h.parts))
              (Texts.places_all-conditions f.parts s.parts raws))
        (seq-Counted (length params) (length w.params) (length h.params) (places w.sql)
          (tests ++ places_all h.parts) cw
          (seq-Counted (length w.params) (length s.params) (length h.params) tests
            (places_all h.parts)
            (seq-Counted (length w.params) (length f.params) (length s.params) (places_all f.parts)
              (places_all s.parts) cf cs)
            ch))

  -- a part before the parts of a list
  pub cons-Counted :
      (params : List (Binding D)) (x : Step D) (b : Built D) (part : List Piece)
      → places part ≡ places x.sql
      → StepCounted params x
      → BuiltCounted x.params b
      → BuiltCounted params (record { parts = part ∷ b.parts; params = b.params })
  cons-Counted params x b part e h g =
      same-Counted (length params) (length b.params) (places x.sql ++ places_all b.parts)
        (places part ++ places_all b.parts) (ap (λ t. t ++ places_all b.parts) e)
        (seq-Counted (length params) (length x.params) (length b.params) (places x.sql)
          (places_all b.parts) h g)

  -- a text in parentheses, between texts without placeholders
  pub around-Counted :
      (params : List (Binding D)) (x : Step D) (end : List Piece)
      → Silent end
      → StepCounted params x
      → Counted (length params) (places (parens (x.sql ++ end))) (length x.params)
  around-Counted params x end e h =
      same-Counted (length params) (length x.params) (places x.sql) _
        (Texts.places-parens (x.sql ++ end) ∙ Texts.places-before x.sql end e) h

  pub joined-Counted :
      (params : List (Binding D)) (b : Built D) (separator : Text)
      → BuiltCounted params b
      → Counted (length params) (places (parens (joined separator b.parts))) (length b.params)
  joined-Counted params b separator h =
      same-Counted (length params) (length b.params) (places_all b.parts) _
        (Texts.places-parens (joined separator b.parts) ∙ places-joined separator b.parts) h

  pub between-Counted :
      (params : List (Binding D)) (x y z : Step D)
      → StepCounted params x
      → StepCounted x.params y
      → StepCounted y.params z
      → Counted (length params) (places (between_text x.sql y.sql z.sql)) (length z.params)
  between-Counted params x y z h g k =
      let ends = raw (text " AND ") ∷ z.sql in
      same-Counted (length params) (length z.params)
        (places x.sql ++ (places y.sql ++ places z.sql)) _
        (Texts.places-parens (x.sql ++ (raw (text " BETWEEN ") ∷ (y.sql ++ ends)))
          ∙ (places-append x.sql (raw (text " BETWEEN ") ∷ (y.sql ++ ends))
              ∙ ap (λ t. places x.sql ++ t) (places-append y.sql ends)))
        (seq-Counted (length params) (length x.params) (length z.params) (places x.sql)
          (places y.sql ++ places z.sql) h
          (seq-Counted (length x.params) (length y.params) (length z.params) (places y.sql)
            (places z.sql) g k))

  pub or_raw-Counted :
      (params : List (Binding D)) (raw_sql : Option Text) (built : Compiled (Step D))
      → Holds (StepCounted params) built
      → Holds (StepCounted params) (or_raw raw_sql params built)
  unfolding or_raw
  or_raw-Counted params none built h = h
  or_raw-Counted params (some sql) built h = nil-Counted (length params)

  -- the expressions of a projection, none of them in an aggregating one
  abbrev pub NamedCounted : List (Binding D) → Shape → Built D → Type 0
  NamedCounted params shape b =
      BuiltCounted params b × (is_none shape.aggregates ≡ false → AllSilent b.parts)

  abbrev pub ProjectedFrom : Built D → Step D → Type 0
  ProjectedFrom n x = (places x.sql ≡ places_all n.parts) × (x.params ≡ n.params)

  pub projected-Counted :
      (params : List (Binding D)) (n : Built D) (x : Step D)
      → places x.sql ≡ places_all n.parts
      → x.params ≡ n.params
      → BuiltCounted params n
      → StepCounted params x
  projected-Counted params n x e e' h = rw (e, e') h

  pub bare-AllSilent :
      (dialect : Dialect) (elements : D → Option (List (Value D))) (entity : Entity) (shape : Shape)
      (exprs : NamedExprs D)
      → keeps_values shape exprs ≡ true
      → (current : List Text) (params : List (Binding D))
      → Holds
          (λ (b : Built D). is_none shape.aggregates ≡ false → AllSilent b.parts)
          (compile_named dialect elements entity exprs current params)
  unfolding compile_named
  bare-AllSilent dialect elements entity shape no_named plain current params = λ _. refl
  bare-AllSilent dialect elements entity shape (named alias e es) plain current params =
      all-Holds (λ (b : Built D). is_none shape.aggregates ≡ false → AllSilent b.parts)
        (compile_named dialect elements entity (named alias e es) current params)
        (λ b h. true-not_false (is_none shape.aggregates) plain h)

  pub counted-Ordered :
      (c : Compiled (Step D))
      → Holds (StepCounted []) c
      → Ordered (c >>= λ x. compiled (record { sql = x.sql; params = x.params }))
  unfolding ◌>>=◌
  counted-Ordered (compiled x) (m, e, l) =
      let n : m ≡ length x.params = omega (arith, l) in e ∙ ap (count_from 0) n
  counted-Ordered (refused e) h = tt
