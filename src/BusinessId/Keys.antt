-- ===== src/BusinessId/Keys.antt =====
-- `canonical_key` tells scopes apart: an escaped field holds no separator and can be read back.
use teaql_python.Base.{ℕ, ◌≡◌, ◌≢◌, refl, [], ◌∷◌, ◌++◌, arith, eqb, if◌then◌else◌, All}
use teaql_python.Base.Text.{Text}
use teaql_python.BusinessId.Core.{Scope, escape, canonical_key}

abbrev escaped_char : ℕ → Text
escaped_char c =
    if eqb c b'%'
    then b'%' ∷ b'2' ∷ b'5' ∷ []
    else if eqb c b'|'
    then b'%' ∷ b'7' ∷ b'C' ∷ []
    else c ∷ []

escape-nil : escape [] ≡ []
unfolding escape
escape-nil = refl

escape-cons : (c : ℕ) (s : Text) → escape (c ∷ s) ≡ escaped_char c ++ escape s
unfolding escape
escape-cons c s = ground arith

abbrev NoBar : Text → Type 0
NoBar = All (λ c. c ≢ b'|')

escape-NoBar : (s : Text) → NoBar (escape s)
escape-NoBar [] = rw escape-nil tt
escape-NoBar (c ∷ s) = ground (arith, escape-cons c s, escape-NoBar s)

escape_injective : (s t : Text) → escape s ≡ escape t → s ≡ t
escape_injective [] [] h = refl
escape_injective [] (d ∷ t) h = ground (arith, escape-nil, escape-cons d t)
escape_injective (c ∷ s) [] h = ground (arith, escape-nil, escape-cons c s)
escape_injective (c ∷ s) (d ∷ t) h =
    ground (arith, escape-cons c s, escape-cons d t, escape_injective s t)

-- A text is cut at its first separator in one way.
cut : (a b x y : Text) → NoBar a → NoBar b → a ++ b'|' ∷ x ≡ b ++ b'|' ∷ y → (a ≡ b) × (x ≡ y)
cut [] [] x y h g e = ground arith
cut [] (d ∷ b) x y h g e = ground arith
cut (c ∷ a) [] x y h g e = ground arith
cut (c ∷ a) (d ∷ b) x y h g e = ground (arith, cut a b x y h.1 g.1)

-- Scopes with one canonical key are one scope.
pub canonical_key_injective : (s t : Scope) → canonical_key s ≡ canonical_key t → s ≡ t
unfolding canonical_key
canonical_key_injective s t e =
    let (root, e1) =
      cut _ _ _ _ (escape-NoBar s.domain_root_key) (escape-NoBar t.domain_root_key) e in
    let (type, e2) =
      cut _ _ _ _ (escape-NoBar s.aggregate_type) (escape-NoBar t.aggregate_type) e1 in
    let (space, e3) = cut _ _ _ _ (escape-NoBar s.namespace) (escape-NoBar t.namespace) e2 in
    scope_path (escape_injective _ _ root) (escape_injective _ _ type) (escape_injective _ _ space)
      (escape_injective _ _ e3)
  where
    scope_path :
        s.domain_root_key ≡ t.domain_root_key
        → s.aggregate_type ≡ t.aggregate_type
        → s.namespace ≡ t.namespace
        → s.period_key ≡ t.period_key
        → s ≡ t
    scope_path p q r u = λ i. record {
      domain_root_key = p i;
      aggregate_type = q i;
      namespace = r i;
      period_key = u i;
    }
