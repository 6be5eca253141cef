-- ===== src/Sql/Counted.antt =====
-- src/teaql/sql/dialect.py: the placeholders and the bound values of the parts of a SELECT, one part after
-- another.
use teaql_python.Base.{
  ℕ, suc, ◌+◌, ◌≡◌, refl, sym, ◌∙◌, ap, subst, Option, none, some, List, [], ◌∷◌, ◌++◌, length,
  length-append, arith, if-keeps, Bool, true, false, if◌then◌else◌,
}
use teaql_python.Base.Text.{Text, text}
use teaql_python.Sql.Core.{
  Value, text_value, Property, Compiled, compiled, refused, Piece, raw, ident, place, Binding,
  joined,
}
use teaql_python.Sql.Writes.{Built, bind_field}
use teaql_python.Sql.Exprs.{BinaryOp}
use teaql_python.Sql.Clauses.{◌>>=◌, Step, parens, is_text, search_step, search_parts, search}
use teaql_python.Sql.Numbering.{
  places, places_all, count_from, places-joined, places_all-append, append_nil, count_from-append,
}
use teaql_python.Sql.Texts.{places-parens, places-infix_text, places_all-one_of}
use teaql_python.Sql.Parts.{append_value, in_values, in_list}

-- what a compilation holds of its outcome, if it is not refused
abbrev pub Holds : {A : Type 0} → (A → Type 0) → Compiled A → Type 0
Holds P (compiled a) = P a
Holds P (refused _) = Unit

pub bind-Holds :
    {A B : Type 0} (P : A → Type 0) (Q : B → Type 0) (c : Compiled A) (f : A → Compiled B)
    → Holds P c
    → ((a : A) → P a → Holds Q (f a))
    → Holds Q (c >>= f)
unfolding ◌>>=◌
bind-Holds P Q (compiled a) f h g = g a h
bind-Holds P Q (refused e) f h g = tt

pub both-Holds :
    {A : Type 0} (P Q : A → Type 0) (c : Compiled A)
    → Holds P c
    → Holds Q c
    → Holds (λ a. P a × Q a) c
both-Holds P Q (compiled a) h g = (h, g)
both-Holds P Q (refused e) h g = tt

pub all-Holds : {A : Type 0} (P : A → Type 0) (c : Compiled A) → ((a : A) → P a) → Holds P c
all-Holds P (compiled a) h = h a
all-Holds P (refused e) h = tt

pub if-Holds :
    {A : Type 0} (P : A → Type 0) (b : Bool) (x y : Compiled A)
    → Holds P x
    → Holds P y
    → Holds P (if b then x else y)
if-Holds P true x y h g = h
if-Holds P false x y h g = g

-- the placeholders `ns` follow the first `k`, and `l` values are bound with them
abbrev pub Counted : ℕ → List ℕ → ℕ → Type 0
Counted k ns l = (m : ℕ) × (ns ≡ count_from k m) × (l ≡ k + m)

pub nil-Counted : (k : ℕ) → Counted k [] k
nil-Counted k = (0, refl, omega arith)

pub one-Counted : (k : ℕ) → Counted k (suc k ∷ []) (suc k)
one-Counted k = (1, refl, omega arith)

pub seq-Counted :
    (a b c : ℕ) (xs ys : List ℕ) → Counted a xs b → Counted b ys c → Counted a (xs ++ ys) c
seq-Counted a b c xs ys (m, x, l) (n, y, l') =
    (m + n, rw (x, y, l) (sym (count_from-append a m n)), omega (arith, l, l'))

pub same-Counted : (a b : ℕ) (xs ys : List ℕ) → ys ≡ xs → Counted a xs b → Counted a ys b
same-Counted a b xs ys e c = subst (λ zs. Counted a zs b) (sym e) c

-- a part behind those built so far
pub part-Counted :
    (k : ℕ) (part : List Piece) (parts : List (List Piece)) (l l' : ℕ)
    → Counted k (places_all parts) l
    → Counted l (places part) l'
    → Counted k (places_all (parts ++ (part ∷ []))) l'
part-Counted k part parts l l' c d =
    same-Counted k l' (places_all parts ++ places part) _
      (places_all-append parts (part ∷ [])
        ∙ ap (λ t. places_all parts ++ t) (append_nil (places part)))
      (seq-Counted k l l' (places_all parts) (places part) c d)

module _ {D : Type 0} where
  abbrev pub StepCounted : List (Binding D) → Step D → Type 0
  StepCounted params x = Counted (length params) (places x.sql) (length x.params)

  abbrev pub BuiltCounted : List (Binding D) → Built D → Type 0
  BuiltCounted params b = Counted (length params) (places_all b.parts) (length b.params)

  length-bound :
      (params : List (Binding D)) (x : Binding D)
      → length (params ++ (x ∷ [])) ≡ suc (length params)
  length-bound params x = omega (arith, length-append params (x ∷ []))

  -- the placeholder of a value that is bound
  pub bound-Counted :
      (params : List (Binding D)) (x : Binding D)
      → Counted (length params) (length (params ++ (x ∷ [])) ∷ []) (length (params ++ (x ∷ [])))
  bound-Counted params x = rw (length-bound params x) (one-Counted (length params))

  pub in_values-Counted :
      (k : ℕ) (current : List Text) (vs : List (Value D)) (b : Built D)
      → Counted k (places_all b.parts) (length b.params)
      → let b' = in_values current vs b in Counted k (places_all b'.parts) (length b'.params)
  unfolding in_values
  in_values-Counted k current [] b c = c
  in_values-Counted k current (v ∷ vs) b c =
      let params = append_value current v b.params in
      in_values-Counted k current vs _ (
        part-Counted k (place (length params) ∷ []) b.parts (length b.params) (length params) c
          (bound-Counted b.params (record { value = v; fields = current })))

  pub in_list-Counted :
      (k : ℕ) (lhs : List Piece) (op : BinaryOp) (current : List Text) (vs : List (Value D))
      (params : List (Binding D))
      → Counted k (places lhs) (length params)
      → Holds (λ x. Counted k (places x.sql) (length x.params)) (in_list lhs op current vs params)
  unfolding in_list
  in_list-Counted k lhs op current [] params c = tt
  in_list-Counted k lhs op current (v ∷ vs) params c =
      let b = in_values current (v ∷ vs) (record { parts = []; params = params }) in
      same-Counted k (length b.params) (places lhs ++ places_all b.parts) _
        (places-infix_text lhs (parens (joined (text ", ") b.parts)) op
          ∙ ap (λ t. places lhs ++ t)
              (places-parens (joined (text ", ") b.parts) ∙ places-joined (text ", ") b.parts))
        (seq-Counted k (length params) (length b.params) (places lhs) (places_all b.parts) c (
          in_values-Counted (length params) current (v ∷ vs)
            (record { parts = []; params = params }) (nil-Counted (length params))))

  pub search_parts-Counted :
      (k : ℕ) (like : Text) (ps : List Property) (b : Built D)
      → Counted k (places_all b.parts) (length b.params)
      → let b' = search_parts like ps b in Counted k (places_all b'.parts) (length b'.params)
  unfolding search_parts
  search_parts-Counted k like [] b c = c
  search_parts-Counted k like (p ∷ ps) b c =
      let params = bind_field (text_value like) p b.params in
      search_parts-Counted k like ps (if is_text p.property_type then search_step like p b else b) (
        if-keeps (λ (b' : Built D). Counted k (places_all b'.parts) (length b'.params))
          (is_text p.property_type)
          (λ _.
            part-Counted k (ident p.column_name ∷ raw (text " LIKE ") ∷ place (length params) ∷ [])
              b.parts (length b.params) (length params) c (bound-Counted b.params _))
          (λ _. c))

  pub search-Counted :
      (s : Option Text) (ps : List Property) (params : List (Binding D))
      → BuiltCounted params (search s ps params)
  unfolding search
  search-Counted none ps params = nil-Counted (length params)
  search-Counted (some s) ps params =
      let like = text "%" ++ (s ++ text "%") in
      let b = search_parts like ps (record { parts = []; params = params }) in
      same-Counted (length params) (length b.params) (places_all b.parts) _
        (places_all-one_of b.parts)
        (search_parts-Counted (length params) like ps (record { parts = []; params = params })
          (nil-Counted (length params)))
