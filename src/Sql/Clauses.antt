-- ===== src/Sql/Clauses.antt =====
-- src/teaql/sql/dialect.py: the parts of a SELECT that hold no expressions.
use teaql_python.Base.{
  ℕ, zero, suc, ◌+◌, ◌/◌, ◌%◌, Bool, true, false, not, ◌&&◌, Option, none, some, List, [], ◌∷◌,
  ◌++◌, length, if◌then◌else◌, map, contains, ltb, list_eq, nat_eq, ◌==◌,
}
use teaql_python.Base.Text.{Text, text}
use teaql_python.Sql.Core.{
  text_value, DataType, json, short_text, Property, Relation, Entity, unknown_field, Compiled,
  compiled, refused, Piece, raw, ident, place, Binding, Dialect, render, joined,
}
use teaql_python.Sql.Writes.{Built, bind_field}
use teaql_python.Sql.Exprs.{BinaryOp, Aggregate, Slice, RawSqlProjection, Shape}
use teaql_python.Sql.Operators.{operator_text, function_text, is_count}

unfoldable pub ◌>>=◌ : {A B : Type 0} → Compiled A → (A → Compiled B) → Compiled B

infixl 1 ◌>>=◌
compiled a >>= f = f a
refused e >>= f = refused e

-- one text with the values bound so far
pub record Step (D : Type 0) : Type 0 where
  pub sql : List Piece
  pub params : List (Binding D)

-- `str(n)`
abbrev pub decimal_from : ℕ → ℕ → Text
decimal_from zero n = []
decimal_from (suc fuel) n =
    let front = decimal_from fuel (n / 10) in
    (if ltb n 10 then [] else front) ++ ((48 + n % 10) ∷ [])

abbrev pub decimal : ℕ → Text
decimal n = decimal_from (suc n) n

abbrev pub find_property : Text → List Property → Option Property
find_property name [] = none
find_property name (p ∷ ps) = if p.name == name then some p else find_property name ps

-- `column_sql`
unfoldable pub column_sql : Entity → Text → Compiled (List Piece)
column_sql entity field = elim (find_property field entity.properties) [
  | none ↦ refused (unknown_field field)
  | some p ↦ compiled (ident p.column_name ∷ [])
]

unfoldable pub columns_sql : Entity → List Text → Compiled (List (List Piece))
columns_sql entity [] = compiled []
columns_sql entity (field ∷ fields) =
    column_sql entity field >>= λ c. columns_sql entity fields >>= λ cs. compiled (c ∷ cs)

abbrev pub aliased : List Piece → Text → List Piece
aliased sql alias = sql ++ (raw (text " AS ") ∷ ident alias ∷ [])

-- `property_projection`
abbrev pub property_projection : Property → List Piece
property_projection p =
    if p.column_name == p.name
    then ident p.column_name ∷ []
    else aliased (ident p.column_name ∷ []) p.name

unfoldable pub projected : Entity → List Text → Compiled (List (List Piece))
projected entity [] = compiled []
projected entity (field ∷ fields) = elim (find_property field entity.properties) [
  | none ↦ refused (unknown_field field)
  | some p ↦ projected entity fields >>= λ ps. compiled (property_projection p ∷ ps)
]

abbrev pub find_relation : Text → List Relation → Option Relation
find_relation name [] = none
find_relation name (r ∷ rs) = if r.name == name then some r else find_relation name rs

-- the foreign keys that loaded relations need, behind the projected fields
abbrev pub with_key : Entity → Text → List Text → List Text
with_key entity name fields = elim (find_relation name entity.relations) [
  | none ↦ fields
  | some r ↦
      if not r.is_many && not (contains fields r.local_key)
      then fields ++ (r.local_key ∷ [])
      else fields
]

abbrev pub with_keys : Entity → List Text → List Text → List Text
with_keys entity [] fields = fields
with_keys entity (name ∷ names) fields = with_keys entity names (with_key entity name fields)

abbrev pub raw_parts : List RawSqlProjection → List (List Piece)
raw_parts [] = []
raw_parts (p ∷ ps) = aliased (raw p.raw_sql_segment ∷ []) p.property_name ∷ raw_parts ps

-- `if part not in parts: parts.append(part)`, on the rendered texts
abbrev pub add_part : Dialect → List Piece → List (List Piece) → List (List Piece)
add_part d part parts =
    if contains (map (render d) parts) (render d part) then parts else parts ++ (part ∷ [])

abbrev pub add_parts : Dialect → List (List Piece) → List (List Piece) → List (List Piece)
add_parts d [] parts = parts
add_parts d (p ∷ ps) parts = add_parts d ps (add_part d p parts)

abbrev pub is_count_all : Aggregate → Bool
is_count_all a = is_count a.function && a.field == text "*"

unfoldable pub aggregate_sql : Entity → Aggregate → Compiled (List Piece)
aggregate_sql entity a =
    (if is_count_all a then compiled (raw (text "*") ∷ []) else column_sql entity a.field) >>= λ f.
    compiled (
      aliased (raw (function_text a.function) ∷ raw (text "(") ∷ (f ++ (raw (text ")") ∷ [])))
        a.alias)

unfoldable pub aggregates_sql : Entity → List Aggregate → Compiled (List (List Piece))
aggregates_sql entity [] = compiled []
aggregates_sql entity (a ∷ rest) =
    aggregate_sql entity a >>= λ x. aggregates_sql entity rest >>= λ xs. compiled (x ∷ xs)

-- `partitioned`, with what the window needs
abbrev pub partition_of : Shape → Option (Text × Slice)
partition_of shape = elim shape.partition_by [
  | none ↦ none
  | some field ↦ elim shape.slice [ none ↦ none | some slice ↦ some (field, slice) ]
]

abbrev pub rank : Piece
rank = ident (text "__teaql_partition_rank")

-- ` ORDER BY …`, if there are items
abbrev pub order_part : List (List Piece) → List Piece
order_part [] = []
order_part (p ∷ ps) = raw (text " ORDER BY ") ∷ joined (text ", ") (p ∷ ps)

abbrev pub where_clause : List (List Piece) → List Piece
where_clause [] = []
where_clause (p ∷ ps) = raw (text " WHERE ") ∷ joined (text " AND ") (p ∷ ps)

abbrev pub group_part : List (List Piece) → List Piece
group_part [] = []
group_part (p ∷ ps) = raw (text " GROUP BY ") ∷ joined (text ", ") (p ∷ ps)

abbrev pub having_part : List (List Piece) → List Piece
having_part [] = []
having_part (p ∷ ps) = raw (text " HAVING ") ∷ joined (text ", ") (p ∷ ps)

abbrev pub rank_limit : Slice → List Piece
rank_limit slice = elim slice.limit [
  | none ↦ []
  | some limit ↦
      raw (text " AND ") ∷ rank ∷ raw (text " <= ") ∷ raw (decimal (slice.offset + limit)) ∷ []
]

-- the query around a partitioned one
abbrev pub wrapped : List Piece → Slice → List Piece
wrapped sql slice =
    raw (text "SELECT * FROM (")
    ∷ (sql
        ++ (raw (text ") AS ")
            ∷ ident (text "__teaql_partitioned")
            ∷ raw (text " WHERE ")
            ∷ rank
            ∷ raw (text " > ")
            ∷ raw (decimal slice.offset)
            ∷ (rank_limit slice ++ (raw (text " ORDER BY ") ∷ rank ∷ []))))

abbrev pub limit_part : Option ℕ → List Piece
limit_part none = []
limit_part (some limit) = raw (text " LIMIT ") ∷ raw (decimal limit) ∷ []

abbrev pub slice_part : Option Slice → List Piece
slice_part none = []
slice_part (some slice) =
    limit_part slice.limit
    ++ (if ltb 0 slice.offset then raw (text " OFFSET ") ∷ raw (decimal slice.offset) ∷ [] else [])

abbrev pub raw_criteria : List Text → List (List Piece)
raw_criteria [] = []
raw_criteria (s ∷ ss) = (raw s ∷ []) ∷ raw_criteria ss

abbrev pub is_text : DataType → Bool
is_text short_text = true
is_text _ = false

abbrev pub is_json : Option DataType → Bool
is_json (some json) = true
is_json _ = false

abbrev pub one_of : List (List Piece) → List (List Piece)
one_of [] = []
one_of (p ∷ ps) = (raw (text "(") ∷ (joined (text " OR ") (p ∷ ps) ++ (raw (text ")") ∷ []))) ∷ []

abbrev pub is_none : {A : Type 0} → List A → Bool
is_none [] = true
is_none (_ ∷ _) = false

abbrev pub parens : List Piece → List Piece
parens sql = raw (text "(") ∷ (sql ++ (raw (text ")") ∷ []))

-- `(lhs op rhs)`
abbrev pub infix_text : List Piece → BinaryOp → List Piece → List Piece
infix_text lhs op rhs =
    parens (lhs ++ (raw (text " ") ∷ raw (operator_text op) ∷ raw (text " ") ∷ rhs))

-- a partitioned query's projection, with the window column behind it
abbrev pub window_text : List Piece → List Piece → List (List Piece) → List Piece
window_text sql c orders =
    sql
    ++ (raw (text ", ROW_NUMBER() OVER (PARTITION BY ")
        ∷ (c ++ (order_part orders ++ (raw (text ") AS ") ∷ rank ∷ []))))

abbrev pub select_text :
    Entity → List Piece → List (List Piece) → List (List Piece) → List (List Piece) → List Piece
select_text entity front conditions groups havings =
    raw (text "SELECT ")
    ∷ (front
        ++ (raw (text " FROM ")
            ∷ ident entity.table_name
            ∷ (where_clause conditions ++ (group_part groups ++ having_part havings))))

module _ {D : Type 0} where
  -- the loop of `search_with_text`
  abbrev pub search_step : Text → Property → Built D → Built D
  search_step like p b =
      let params = bind_field (text_value like) p b.params in
      record {
        parts =
            b.parts
            ++ ((ident p.column_name ∷ raw (text " LIKE ") ∷ place (length params) ∷ []) ∷ []);
        params = params;
      }

  unfoldable pub search_parts : Text → List Property → Built D → Built D
  search_parts like [] b = b
  search_parts like (p ∷ ps) b =
      search_parts like ps (if is_text p.property_type then search_step like p b else b)

  unfoldable pub search : Option Text → List Property → List (Binding D) → Built D
  search none ps params = record { parts = []; params = params }
  search (some s) ps params =
      let like = text "%" ++ (s ++ text "%") in
      let b = search_parts like ps (record { parts = []; params = params }) in
      record { parts = one_of b.parts; params = b.params }
