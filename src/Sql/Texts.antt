-- ===== src/Sql/Texts.antt =====
-- src/teaql/sql/dialect.py: the placeholders in the texts that a SELECT is put together from.
use teaql_python.Base.{
  ℕ, ◌≡◌, refl, ◌∙◌, ap, Option, none, some, List, [], ◌∷◌, ◌++◌, arith, map, contains, ◌==◌, ltb,
  list_eq, nat_eq, if-keeps,
}
use teaql_python.Base.Text.{Text, text}
use teaql_python.Sql.Core.{Property, Entity, Piece, raw, ident, Dialect, render, joined}
use teaql_python.Sql.Exprs.{BinaryOp, ExprFunction, Slice, RawSqlProjection}
use teaql_python.Sql.Clauses.{
  parens, infix_text, property_projection, aliased, raw_parts, add_part, add_parts, order_part,
  where_clause, group_part, having_part, window_text, select_text, wrapped, rank_limit, limit_part,
  rank, decimal, slice_part, raw_criteria, one_of,
}
use teaql_python.Sql.Operators.{call_text, is_gbk, operator_text}
use teaql_python.Sql.Numbering.{
  places, places_all, places-append, places-joined, places_all-append, append_nil,
}

pub places-behind : (ps : List Piece) (s : Text) → places (ps ++ (raw s ∷ [])) ≡ places ps
places-behind ps s = places-append ps (raw s ∷ []) ∙ append_nil (places ps)

-- a text without placeholders, behind or before another
pub places-before : (ps rest : List Piece) → places rest ≡ [] → places (ps ++ rest) ≡ places ps
places-before ps rest h =
    places-append ps rest ∙ (ap (λ t. places ps ++ t) h ∙ append_nil (places ps))

places-after : (ps rest : List Piece) → places ps ≡ [] → places (ps ++ rest) ≡ places rest
places-after ps rest h = places-append ps rest ∙ ap (λ t. t ++ places rest) h

pub places-parens : (ps : List Piece) → places (parens ps) ≡ places ps
places-parens ps = places-behind ps (text ")")

pub places-infix_text :
    (l r : List Piece) (op : BinaryOp) → places (infix_text l op r) ≡ places l ++ places r
places-infix_text l r op =
    places-parens (l ++ (raw (text " ") ∷ raw (operator_text op) ∷ raw (text " ") ∷ r))
    ∙ places-append l (raw (text " ") ∷ raw (operator_text op) ∷ raw (text " ") ∷ r)

pub places-call_text : (f : ExprFunction) (arg : List Piece) → places (call_text f arg) ≡ places arg
places-call_text f arg =
    if-keeps (λ t. places t ≡ places arg) (is_gbk f) (λ _. refl) (λ _. places-behind arg (text ")"))

pub places-aliased : (ps : List Piece) (alias : Text) → places (aliased ps alias) ≡ places ps
places-aliased ps alias = places-append ps _ ∙ append_nil (places ps)

pub places-order_part : (ps : List (List Piece)) → places (order_part ps) ≡ places_all ps
places-order_part [] = refl
places-order_part (p ∷ ps) = places-joined (text ", ") (p ∷ ps)

pub places-where_clause : (ps : List (List Piece)) → places (where_clause ps) ≡ places_all ps
places-where_clause [] = refl
places-where_clause (p ∷ ps) = places-joined (text " AND ") (p ∷ ps)

pub places-group_part : (ps : List (List Piece)) → places (group_part ps) ≡ places_all ps
places-group_part [] = refl
places-group_part (p ∷ ps) = places-joined (text ", ") (p ∷ ps)

pub places-having_part : (ps : List (List Piece)) → places (having_part ps) ≡ places_all ps
places-having_part [] = refl
places-having_part (p ∷ ps) = places-joined (text ", ") (p ∷ ps)

pub places_all-one_of : (ps : List (List Piece)) → places_all (one_of ps) ≡ places_all ps
places_all-one_of [] = refl
places_all-one_of (p ∷ ps) =
    append_nil _
    ∙ (places-parens (joined (text " OR ") (p ∷ ps)) ∙ places-joined (text " OR ") (p ∷ ps))

pub places-window_text :
    (sql c : List Piece) (ps : List (List Piece))
    → places c ≡ []
    → places (window_text sql c ps) ≡ places sql ++ places_all ps
places-window_text sql c ps h =
    let ends = raw (text ") AS ") ∷ rank ∷ [] in
    let over = raw (text ", ROW_NUMBER() OVER (PARTITION BY ") ∷ (c ++ (order_part ps ++ ends)) in
    places-append sql over
    ∙ ap (λ t. places sql ++ t)
        (places-after c (order_part ps ++ ends) h
          ∙ (places-before (order_part ps) ends refl ∙ places-order_part ps))

pub places-select_text :
    (entity : Entity) (front : List Piece) (conditions groups havings : List (List Piece))
    → places_all groups ≡ []
    → places (select_text entity front conditions groups havings)
      ≡ places front ++ (places_all conditions ++ places_all havings)
places-select_text entity front conditions groups havings h =
    let ends = group_part groups ++ having_part havings in
    places-append front
      (raw (text " FROM ") ∷ ident entity.table_name ∷ (where_clause conditions ++ ends))
    ∙ ap (λ t. places front ++ t)
        (places-append (where_clause conditions) ends
          ∙ (ap (λ t. t ++ places ends) (places-where_clause conditions)
              ∙ ap (λ t. places_all conditions ++ t)
                  (places-after (group_part groups) (having_part havings)
                      (places-group_part groups ∙ h)
                    ∙ places-having_part havings)))

places-rank_limit :
    (offset : ℕ) (limit : Option ℕ)
    → places (rank_limit (record { offset = offset; limit = limit })) ≡ []
places-rank_limit offset none = refl
places-rank_limit offset (some limit) = refl

pub places-wrapped : (sql : List Piece) (slice : Slice) → places (wrapped sql slice) ≡ places sql
places-wrapped sql slice =
    let ends = rank_limit slice ++ (raw (text " ORDER BY ") ∷ rank ∷ []) in
    places-before sql
      (raw (text ") AS ")
        ∷ ident (text "__teaql_partitioned")
        ∷ raw (text " WHERE ")
        ∷ rank
        ∷ raw (text " > ")
        ∷ raw (decimal slice.offset)
        ∷ ends)
      (places-after (rank_limit slice) (raw (text " ORDER BY ") ∷ rank ∷ [])
        (places-rank_limit slice.offset slice.limit))

places-limit_part : (limit : Option ℕ) → places (limit_part limit) ≡ []
places-limit_part none = refl
places-limit_part (some limit) = refl

pub places-slice_part : (slice : Option Slice) → places (slice_part slice) ≡ []
places-slice_part none = refl
places-slice_part (some slice) =
    places-after (limit_part slice.limit) _ (places-limit_part slice.limit)
    ∙ if-keeps (λ t. places t ≡ []) (ltb 0 slice.offset) (λ _. refl) (λ _. refl)

pub places_all-raw_criteria : (ss : List Text) → places_all (raw_criteria ss) ≡ []
places_all-raw_criteria [] = refl
places_all-raw_criteria (s ∷ ss) = places_all-raw_criteria ss

pub places_all-raw_parts : (ps : List RawSqlProjection) → places_all (raw_parts ps) ≡ []
places_all-raw_parts [] = refl
places_all-raw_parts (p ∷ ps) = places_all-raw_parts ps

pub places-property_projection : (p : Property) → places (property_projection p) ≡ []
places-property_projection p =
    if-keeps (λ t. places t ≡ []) (p.column_name == p.name) {x = ident p.column_name ∷ []}
      {y = aliased (ident p.column_name ∷ []) p.name} (λ _. refl) (λ _. refl)

append-nil_both : {A : Type 0} (xs ys : List A) → xs ++ ys ≡ [] → (xs ≡ []) × (ys ≡ [])
append-nil_both [] ys h = (refl, h)
append-nil_both (x ∷ xs) ys h = ground arith

pub places_all-add_parts :
    (d : Dialect) (ps parts : List (List Piece))
    → places_all ps ≡ []
    → places_all parts ≡ []
    → places_all (add_parts d ps parts) ≡ []
places_all-add_parts d [] parts h g = g
places_all-add_parts d (p ∷ ps) parts h g =
    let (own, rest) = append-nil_both (places p) (places_all ps) h in
    places_all-add_parts d ps (add_part d p parts) rest (
      if-keeps (λ qs. places_all qs ≡ []) (contains (map (render d) parts) (render d p)) {x = parts}
        {y = parts ++ (p ∷ [])} (λ _. g) (λ _. places_all-append parts (p ∷ []) ∙ rw (g, own) refl))

-- the raw criteria hold no placeholder
pub places_all-conditions :
    (fs ss : List (List Piece)) (raws : List Text)
    → places_all (fs ++ (ss ++ raw_criteria raws)) ≡ places_all fs ++ places_all ss
places_all-conditions fs ss raws =
    places_all-append fs (ss ++ raw_criteria raws)
    ∙ ap (λ t. places_all fs ++ t)
        (places_all-append ss (raw_criteria raws)
          ∙ (ap (λ t. places_all ss ++ t) (places_all-raw_criteria raws)
              ∙ append_nil (places_all ss)))
