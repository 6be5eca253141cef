-- ===== src/Sql/Identifiers.antt =====
-- src/teaql/sql/dialect.py: the quoting of identifiers. Python's Unicode tests of a character and `lower`
-- are parameters; the quote of a dialect is one character.
use teaql_python.Base.{
  ℕ, ◌≡◌, refl, ◌∙◌, ap, Bool, true, false, not, ◌&&◌, ◌||◌, ◌⊎◌, inl, inr, Option, none, some,
  List, [], ◌∷◌, ◌++◌, arith, if◌then◌else◌, any, contains, eqb, eqb_iff, Bool-cases, list_eq,
  nat_eq, map,
}
use teaql_python.Base.Text.{Text, text}

abbrev pub starts_with : ℕ → Text → Bool
starts_with q [] = false
starts_with q (c ∷ s) = eqb c q

abbrev pub ends_with : ℕ → Text → Bool
ends_with q [] = false
ends_with q (c ∷ []) = eqb c q
ends_with q (c ∷ d ∷ s) = ends_with q (d ∷ s)

-- `is_wrapped_identifier`
unfoldable pub is_wrapped : Text → Bool
is_wrapped s =
    (starts_with 0x22 s && ends_with 0x22 s)
    || (starts_with 0x60 s && ends_with 0x60 s)
    || (starts_with 0x5b s && ends_with 0x5d s)

-- `SQL_KEYWORDS`
unfoldable pub sql_keywords : List Text
sql_keywords =
    map (λ s. text s)
      ("all" ∷ "alter" ∷ "and" ∷ "as" ∷ "asc" ∷ "between" ∷ "by" ∷ "case" ∷ "create" ∷ "delete"
        ∷ "desc" ∷ "distinct" ∷ "drop" ∷ "exists" ∷ "false" ∷ "from" ∷ "group" ∷ "having" ∷ "in"
        ∷ "insert" ∷ "into" ∷ "is" ∷ "join" ∷ "like" ∷ "limit" ∷ "not" ∷ "null" ∷ "offset" ∷ "on"
        ∷ "or" ∷ "order" ∷ "select" ∷ "set" ∷ "table" ∷ "true" ∷ "type" ∷ "union" ∷ "update"
        ∷ "values" ∷ "where" ∷ [])

-- `ident.replace(quote, quote + quote)`
unfoldable pub double_quotes : ℕ → Text → Text
double_quotes q [] = []
double_quotes q (c ∷ s) = let rest = double_quotes q s in if eqb c q then q ∷ q ∷ rest else c ∷ rest

module _ (is_alpha is_alnum : ℕ → Bool) (lower : Text → Text) where
  -- a character that needs no quotes after the first one
  abbrev pub is_plain : ℕ → Bool
  is_plain c = eqb c 0x5f || is_alnum c

  -- `needs_quoted_identifier`
  unfoldable pub needs_quotes : Text → Bool
  needs_quotes [] = true
  needs_quotes (c ∷ s) =
      contains sql_keywords (lower (c ∷ s))
      || not (eqb c 0x5f || is_alpha c)
      || any (λ d. not (is_plain d)) (c ∷ s)

  -- `quote_identifier_if_needed`
  unfoldable pub quote_identifier : ℕ → Text → Text
  quote_identifier q s =
      if is_wrapped s then s else if needs_quotes s then q ∷ (double_quotes q s ++ (q ∷ [])) else s

-- A database's reading of a quoted identifier, behind its first quote: two quotes are one character, a
-- single one ends the identifier. The result is the identifier and the text behind it.
abbrev pub with_char : ℕ → Option (Text × Text) → Option (Text × Text)
with_char c none = none
with_char c (some (s, rest)) = some (c ∷ s, rest)

unfoldable pub read_quoted : ℕ → Bool → Text → Option (Text × Text)
read_quoted q true [] = none
read_quoted q false [] = some ([], [])
read_quoted q true (c ∷ s) =
    let ended = read_quoted q false s in
    let more = read_quoted q true s in if eqb c q then ended else with_char c more
read_quoted q false (c ∷ s) =
    let more = read_quoted q true s in if eqb c q then with_char q more else some ([], c ∷ s)

read_quoted-end :
    (q : ℕ) (rest : Text)
    → starts_with q rest ≡ false
    → read_quoted q true (q ∷ rest) ≡ some ([], rest)
unfolding read_quoted
read_quoted-end q [] h = ground (arith, eqb_iff q q)
read_quoted-end q (c ∷ rest) h = ground (arith, eqb_iff q q)

double_quotes-quote :
    (q c : ℕ) (s : Text) → eqb c q ≡ true → double_quotes q (c ∷ s) ≡ q ∷ q ∷ double_quotes q s
unfolding double_quotes
double_quotes-quote q c s h = ground (arith, h)

double_quotes-other :
    (q c : ℕ) (s : Text) → eqb c q ≡ false → double_quotes q (c ∷ s) ≡ c ∷ double_quotes q s
unfolding double_quotes
double_quotes-other q c s h = ground (arith, h)

read_quoted-pair :
    (q : ℕ) (t : Text) → read_quoted q true (q ∷ q ∷ t) ≡ with_char q (read_quoted q true t)
unfolding read_quoted
read_quoted-pair q t = ground (arith, eqb_iff q q)

read_quoted-other :
    (q c : ℕ) (t : Text)
    → eqb c q ≡ false
    → read_quoted q true (c ∷ t) ≡ with_char c (read_quoted q true t)
unfolding read_quoted
read_quoted-other q c t h = ground (arith, h)

read_quoted-double_quotes :
    (q : ℕ) (s rest : Text)
    → starts_with q rest ≡ false
    → read_quoted q true (double_quotes q s ++ (q ∷ rest)) ≡ some (s, rest)
unfolding double_quotes
read_quoted-double_quotes q [] rest h = read_quoted-end q rest h
read_quoted-double_quotes q (c ∷ s) rest h =
    let tail = double_quotes q s ++ (q ∷ rest) in
    let later = read_quoted-double_quotes q s rest h in
    elim (Bool-cases (eqb c q)) [
      | inl e ↦
          let same : q ≡ c = ground (arith, e) in
          ap (λ t. read_quoted q true (t ++ (q ∷ rest))) (double_quotes-quote q c s e)
          ∙ (read_quoted-pair q tail ∙ (ap (with_char q) later ∙ ap (λ d. some (d ∷ s, rest)) same))
      | inr e ↦
          ap (λ t. read_quoted q true (t ++ (q ∷ rest))) (double_quotes-other q c s e)
          ∙ (read_quoted-other q c tail e ∙ ap (with_char c) later)
    ]

or_ends : (a b c : Bool) → (a || b || c) ≡ false → (a ≡ false) × (c ≡ false)
or_ends a b c h = ground arith

module _ (is_alpha is_alnum : ℕ → Bool) (lower : Text → Text) where
  -- An identifier that no quotes are put around: a letter or an underscore, then plain characters, and no
  -- keyword.
  abbrev pub IsBare : Text → Type 0
  IsBare s =
      (any (λ d. not (is_plain is_alpha is_alnum lower d)) s ≡ false)
      × (contains sql_keywords (lower s) ≡ false)

  -- The text that a database reads as this identifier, whatever comes behind it.
  abbrev pub IsQuoted : ℕ → Text → Text → Type 0
  IsQuoted q s t =
      (inner : Text) × (t ≡ q ∷ inner)
      × ((rest : Text)
          → starts_with q rest ≡ false
          → read_quoted q true (inner ++ rest) ≡ some (s, rest))

  needs_quotes-IsBare : (s : Text) → needs_quotes is_alpha is_alnum lower s ≡ false → IsBare s
  unfolding needs_quotes
  needs_quotes-IsBare [] h = ground arith
  needs_quotes-IsBare (c ∷ s) h =
      let (keyword, chars) = or_ends (contains sql_keywords (lower (c ∷ s))) _ _ h in
      (chars, keyword)

  append_quote : (q : ℕ) (u rest : Text) → (u ++ (q ∷ [])) ++ rest ≡ u ++ (q ∷ rest)
  append_quote q [] rest = refl
  append_quote q (c ∷ u) rest = ap (λ t. c ∷ t) (append_quote q u rest)

  quote_identifier-needed :
      (q : ℕ) (s : Text)
      → is_wrapped s ≡ false
      → needs_quotes is_alpha is_alnum lower s ≡ true
      → quote_identifier is_alpha is_alnum lower q s ≡ q ∷ (double_quotes q s ++ (q ∷ []))
  unfolding quote_identifier
  quote_identifier-needed q s w h = rw (w, quote_identifier, h) refl

  quote_identifier-kept :
      (q : ℕ) (s : Text)
      → is_wrapped s ≡ false
      → needs_quotes is_alpha is_alnum lower s ≡ false
      → quote_identifier is_alpha is_alnum lower q s ≡ s
  unfolding quote_identifier
  quote_identifier-kept q s w h = rw (w, quote_identifier, h) refl

  -- An identifier that is not wrapped in quotes already either stays as it is, and then it has only plain
  -- characters and is no keyword, or is put between quotes, and then a database that doubles quotes reads
  -- exactly this identifier, wherever the quoted text stands before something other than the quote.
  pub quote_identifier-read :
      (q : ℕ) (s : Text)
      → is_wrapped s ≡ false
      → ((quote_identifier is_alpha is_alnum lower q s ≡ s) × IsBare s)
        ⊎ IsQuoted q s (quote_identifier is_alpha is_alnum lower q s)
  quote_identifier-read q s w = elim (Bool-cases (needs_quotes is_alpha is_alnum lower s)) [
    | inl h ↦ inr (
      double_quotes q s ++ (q ∷ []),
      quote_identifier-needed q s w h,
      λ rest free.
          ap (read_quoted q true) (append_quote q (double_quotes q s) rest)
          ∙ read_quoted-double_quotes q s rest free,
    )
    | inr h ↦ inl (quote_identifier-kept q s w h, needs_quotes-IsBare s h)
  ]
