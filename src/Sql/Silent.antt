-- ===== src/Sql/Silent.antt =====
-- src/teaql/sql/dialect.py: the parts of a SELECT that hold no placeholder, whatever they are compiled from.
use teaql_python.Base.{
  ◌≡◌, refl, sym, ◌∙◌, ap, false, none, some, List, [], ◌∷◌, ◌++◌, map, if-keeps,
}
use teaql_python.Base.Text.{Text, text}
use teaql_python.Sql.Core.{
  Property, Entity, unknown_field, compiled, refused, Piece, raw, ident, Dialect,
}
use teaql_python.Sql.Writes.{Built}
use teaql_python.Sql.Exprs.{Aggregate, RawSqlProjection, Shape, NamedExprs, Loads}
use teaql_python.Sql.Clauses.{
  ◌>>=◌, Step, column_sql, columns_sql, projected, find_property, property_projection, is_none,
  raw_parts, add_parts, aggregate_sql, aggregates_sql, is_count_all,
}
use teaql_python.Sql.Operators.{function_text}
use teaql_python.Sql.Numbering.{places, places_all, places-joined, places_all-append, append_nil}
use teaql_python.Sql.Texts
use teaql_python.Sql.Parts.{takes_all, taken, fields_of, leading, projection_sql}
use teaql_python.Sql.Counted.{Holds, bind-Holds, if-Holds}

-- texts without placeholders
abbrev pub Silent : List Piece → Type 0
Silent ps = places ps ≡ []

abbrev pub AllSilent : List (List Piece) → Type 0
AllSilent ps = places_all ps ≡ []

pub column_sql-Silent : (entity : Entity) (name : Text) → Holds Silent (column_sql entity name)
unfolding column_sql
column_sql-Silent entity name =
    elim (find_property name entity.properties)
      as (λ o. Holds Silent (elim o [
        | none ↦ refused (unknown_field name)
        | some p ↦ compiled (ident p.column_name ∷ [])
      ])) [ none ↦ tt | some p ↦ refl ]

pub cons-AllSilent :
    (p : List Piece) (ps : List (List Piece)) → Silent p → AllSilent ps → AllSilent (p ∷ ps)
cons-AllSilent p ps h g = rw (h, g) refl

pub append-AllSilent :
    (ps qs : List (List Piece)) → AllSilent ps → AllSilent qs → AllSilent (ps ++ qs)
append-AllSilent ps qs h g = places_all-append ps qs ∙ rw (h, g) refl

pub columns_sql-AllSilent :
    (entity : Entity) (names : List Text) → Holds AllSilent (columns_sql entity names)
unfolding columns_sql
columns_sql-AllSilent entity [] = refl
columns_sql-AllSilent entity (name ∷ names) =
    bind-Holds Silent AllSilent (column_sql entity name) _ (column_sql-Silent entity name) (λ c h.
      bind-Holds AllSilent AllSilent (columns_sql entity names) _
        (columns_sql-AllSilent entity names) (λ cs g. cons-AllSilent c cs h g))

pub projected-AllSilent :
    (entity : Entity) (names : List Text) → Holds AllSilent (projected entity names)
unfolding projected
projected-AllSilent entity [] = refl
projected-AllSilent entity (name ∷ names) =
    elim (find_property name entity.properties)
      as (λ o. Holds AllSilent (elim o [
        | none ↦ refused (unknown_field name)
        | some p ↦ projected entity names >>= λ ps. compiled (property_projection p ∷ ps)
      ])) [
        | none ↦ tt
        | some p ↦
            bind-Holds AllSilent AllSilent (projected entity names) _
              (projected-AllSilent entity names)
              (λ ps g.
                cons-AllSilent (property_projection p) ps (Texts.places-property_projection p) g)
      ]

pub all_projected-AllSilent : (ps : List Property) → AllSilent (map property_projection ps)
all_projected-AllSilent [] = refl
all_projected-AllSilent (p ∷ ps) =
    cons-AllSilent (property_projection p) (map property_projection ps)
      (Texts.places-property_projection p) (all_projected-AllSilent ps)

pub aggregate_sql-Silent : (entity : Entity) (a : Aggregate) → Holds Silent (aggregate_sql entity a)
unfolding aggregate_sql
aggregate_sql-Silent entity a =
    bind-Holds Silent Silent _ _
      (if-Holds Silent (is_count_all a) (compiled (raw (text "*") ∷ [])) (column_sql entity a.field)
        refl (column_sql-Silent entity a.field))
      (λ f h.
        Texts.places-aliased
          (raw (function_text a.function) ∷ raw (text "(") ∷ (f ++ (raw (text ")") ∷ []))) a.alias
        ∙ (Texts.places-behind f (text ")") ∙ h))

pub aggregates_sql-AllSilent :
    (entity : Entity) (sums : List Aggregate) → Holds AllSilent (aggregates_sql entity sums)
unfolding aggregates_sql
aggregates_sql-AllSilent entity [] = refl
aggregates_sql-AllSilent entity (a ∷ rest) =
    bind-Holds Silent AllSilent (aggregate_sql entity a) _ (aggregate_sql-Silent entity a) (λ c h.
      bind-Holds AllSilent AllSilent (aggregates_sql entity rest) _
        (aggregates_sql-AllSilent entity rest) (λ cs g. cons-AllSilent c cs h g))

projected-places :
    (front parts : List (List Piece)) (raws : List RawSqlProjection)
    → AllSilent front
    → places_all (front ++ (parts ++ raw_parts raws)) ≡ places_all parts
projected-places front parts raws h =
    places_all-append front (parts ++ raw_parts raws)
    ∙ (ap (λ t. t ++ places_all (parts ++ raw_parts raws)) h
        ∙ (places_all-append parts (raw_parts raws)
            ∙ (ap (λ t. places_all parts ++ t) (Texts.places_all-raw_parts raws)
                ∙ append_nil (places_all parts))))

module _ {D : Type 0} where
  fields_of-AllSilent :
      (entity : Entity) (shape : Shape) (exprs : NamedExprs D) (loads sums : Loads D)
      → Holds AllSilent (fields_of entity shape exprs loads sums)
  unfolding fields_of
  fields_of-AllSilent entity shape exprs loads sums =
      if-Holds AllSilent (takes_all shape exprs)
        (compiled (map property_projection entity.properties))
        (projected entity (taken entity shape loads sums))
        (all_projected-AllSilent entity.properties)
        (projected-AllSilent entity (taken entity shape loads sums))

  pub leading-AllSilent :
      (entity : Entity) (shape : Shape) (exprs : NamedExprs D) (loads sums : Loads D)
      → Holds AllSilent (leading entity shape exprs loads sums)
  unfolding leading
  leading-AllSilent entity shape exprs loads sums =
      if-Holds AllSilent (is_none shape.aggregates) (fields_of entity shape exprs loads sums)
        (columns_sql entity (shape.group_by_items ++ shape.projection))
        (fields_of-AllSilent entity shape exprs loads sums)
        (columns_sql-AllSilent entity (shape.group_by_items ++ shape.projection))

  -- the projection holds the placeholders of its expressions, if an aggregating query has none of these
  pub projection_sql-places :
      (dialect : Dialect) (entity : Entity) (shape : Shape) (front : List (List Piece))
      (exprs : Built D)
      → AllSilent front
      → (is_none shape.aggregates ≡ false → AllSilent exprs.parts)
      → Holds
          (λ (x : Step D). (places x.sql ≡ places_all exprs.parts) × (x.params ≡ exprs.params))
          (projection_sql dialect entity shape front exprs)
  unfolding projection_sql
  projection_sql-places dialect entity shape front exprs h bare =
      let raws = shape.raw_projections ++ shape.dynamic_properties in
      let parts = front ++ (exprs.parts ++ raw_parts raws) in
      let P = λ (x : Step D). (places x.sql ≡ places_all exprs.parts) × (x.params ≡ exprs.params) in
      if-keeps (Holds P) (is_none shape.aggregates)
        (λ _. (places-joined (text ", ") parts ∙ projected-places front exprs.parts raws h, refl))
        (λ g.
          bind-Holds AllSilent P (aggregates_sql entity shape.aggregates) _
            (aggregates_sql-AllSilent entity shape.aggregates)
            (λ sums s. (
              places-joined (text ", ") (add_parts dialect parts [] ++ sums)
                  ∙ (append-AllSilent (add_parts dialect parts []) sums
                        (Texts.places_all-add_parts dialect parts []
                          (projected-places front exprs.parts raws h ∙ bare g) refl)
                        s
                      ∙ sym (bare g)),
              refl,
            )))
