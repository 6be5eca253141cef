-- ===== src/BusinessId/Codes.antt =====
-- What the codes of the profile promise: every sequence number of the domain has one, of six
-- characters of the alphabet, and different numbers have different codes and identifiers.
use mathlib.Core.Path.{subst, subst₂}
use mathlib.Core.Option.{some-injective}
use teaql_python.Base.{
  ℕ, ◌^◌, ◌≤◌, ◌<◌, ◌≡◌, ap, sym, ◌∙◌, inl, inr, false, Option, some, List, [], ◌∷◌, ◌++◌, arith,
  leb, length, All, Bool-cases, Option-cases, ◌==◌,
}
use teaql_python.Base.Text.{Text}
use teaql_python.BusinessId.Core.{
  ok, Scope, EncodingKey, Plan, Allocation, Value, make_value, Result-cases,
}
use teaql_python.BusinessId.Permutation.{Bytes, Hmac, domain_size, width, permute32, walk, fill}
use teaql_python.BusinessId.Permutation.Rounds.{IsHmac, permute32-lt, permute32_injective}
use teaql_python.BusinessId.Permutation.Walk.{walk-Ends, walk_total, walk_injective}
use teaql_python.BusinessId.Permutation.Digits.{
  InAlphabet, fill_injective, length-fill, fill-InAlphabet,
}
use teaql_python.BusinessId.Profile.{encode_candidate, canonical_tweak, encode, format, scope_eq}

fits : domain_size ≤ 2 ^ 32
fits = omega arith

module _ (hmac : Hmac) (law : IsHmac hmac) (tweak key : Bytes) where
  candidate_total :
      (n : ℕ)
      → n < domain_size
      → (code : Text) × (encode_candidate hmac tweak key n ≡ some code)
        × (length code ≡ width)
        × All InAlphabet code
  unfolding encode_candidate
  candidate_total n h =
      let (r, ends) =
        walk_total (permute32 hmac tweak key) (2 ^ 32) domain_size (permute32-lt hmac tweak key law)
          (permute32_injective hmac tweak key law) fits n h in
      (
        fill width r [],
        rw (ends, encode_candidate),
        length-fill width r [],
        fill-InAlphabet width r [] tt,
      )

  candidate_injective :
      (n m : ℕ) (code : Text)
      → n < domain_size
      → m < domain_size
      → encode_candidate hmac tweak key n ≡ some code
      → encode_candidate hmac tweak key m ≡ some code
      → n ≡ m
  unfolding encode_candidate
  candidate_injective n m code hn hm en em =
      let (r, r_ends) = walk_total p (2 ^ 32) domain_size p-lt p_injective fits n hn in
      let (q, q_ends) = walk_total p (2 ^ 32) domain_size p-lt p_injective fits m hm in
      let same : r ≡ q =
        fill_injective width r q (below n r r_ends) (below m q q_ends)
          (coded n r r_ends en ∙ sym (coded m q q_ends em)) in
      walk_injective p (2 ^ 32) domain_size p-lt p_injective fits (2 ^ 32) (2 ^ 32) n m r hn hm
        r_ends (q_ends ∙ ap some (sym same))
    where
      p : ℕ → ℕ
      p = permute32 hmac tweak key

      p-lt : (x : ℕ) → p x < 2 ^ 32
      p-lt = permute32-lt hmac tweak key law

      p_injective : (x y : ℕ) → x < 2 ^ 32 → y < 2 ^ 32 → p x ≡ p y → x ≡ y
      p_injective = permute32_injective hmac tweak key law

      below : (x r : ℕ) → walk p domain_size (2 ^ 32) x ≡ some r → r < 36 ^ width
      below x r e = (walk-Ends p domain_size (2 ^ 32) x r e).below

      coded :
          (x r : ℕ)
          → walk p domain_size (2 ^ 32) x ≡ some r
          → encode_candidate hmac tweak key x ≡ some code
          → fill width r [] ≡ code
      coded x r e h = some-injective _ _ (sym (rw (e, encode_candidate)) ∙ h)

append_cancel : {A : Type 0} (xs a b : List A) → xs ++ a ≡ xs ++ b → a ≡ b
append_cancel [] a b e = e
append_cancel (x ∷ xs) a b e = append_cancel xs a b (ground arith)

module _ (hmac : Hmac) (law : IsHmac hmac) (scope : Scope) (key : EncodingKey) where
  -- Where the fields of the scope can be encoded, every sequence number below the domain size has a
  -- code: the loop ends, and the code has six characters, all of the alphabet.
  pub encode_total :
      (n : ℕ) (tweak : Bytes)
      → n < domain_size
      → canonical_tweak scope key.version ≡ ok tweak
      → (code : Text) × (encode hmac n scope key ≡ some (ok code))
        × (length code ≡ width)
        × All InAlphabet code
  unfolding encode
  encode_total n tweak h e =
      let (code, found, long, inside) = candidate_total hmac law tweak key.key n h in
      let low : leb domain_size n ≡ false = ground arith in
      (code, rw (low, e, found, encode), long, inside)

  -- A code that was returned belongs to a number of the domain and to the tweak of the scope.
  encode_ok :
      (n : ℕ) (code : Text)
      → encode hmac n scope key ≡ some (ok code)
      → (tweak : Bytes) × (n < domain_size)
        × (canonical_tweak scope key.version ≡ ok tweak)
        × (encode_candidate hmac tweak key.key n ≡ some code)
  unfolding encode
  encode_ok n code h = elim (Bool-cases (leb domain_size n)) [
    | inl high ↦ absurd (ground arith)
    | inr low ↦ elim (Result-cases (canonical_tweak scope key.version)) [
      | inr (e, failed) ↦ absurd (ground arith)
      | inl (tweak, framed) ↦ (tweak, ground arith, framed, ground arith)
    ]
  ]

  -- Under one scope and key, two sequence numbers never have one code.
  pub encode_injective :
      (n m : ℕ) (code : Text)
      → encode hmac n scope key ≡ some (ok code)
      → encode hmac m scope key ≡ some (ok code)
      → n ≡ m
  encode_injective n m code en em =
      let (tweak, hn, framed, cn) = encode_ok n code en in
      let (tweak', hm, framed', cm) = encode_ok m code em in
      let same : tweak ≡ tweak' = ok-injective (sym framed ∙ framed') in
      candidate_injective hmac law tweak key.key n m code hn hm cn
        (subst (λ t. encode_candidate hmac t key.key m ≡ some code) (sym same) cm)
    where
      ok-injective : {a b : Bytes} → ok a ≡ ok b → a ≡ b
      ok-injective e = ground arith

module _ (hmac : Hmac) (law : IsHmac hmac) where
  format_ok :
      (current_key : Option EncodingKey) (p : Plan) (a : Allocation) (v : Value)
      → format hmac current_key p a ≡ some (ok v)
      → (key : EncodingKey) × (code : Text) × (current_key ≡ some key)
        × (encode hmac a.sequence p.scope key ≡ some (ok code))
        × (v.value
            ≡ p.definition.prefix
              ++ (p.definition.separator ++ (p.date_text ++ (p.definition.separator ++ code))))
  unfolding format make_value
  format_ok current_key p a v h = elim (Bool-cases (a.scope == p.scope)) [
    | inr other ↦ absurd (ground arith)
    | inl own ↦ elim (Option-cases current_key) [
      | inl missing ↦ absurd (ground arith)
      | inr (key, present) ↦ elim (Option-cases (encode hmac a.sequence p.scope key)) [
        | inl endless ↦ absurd (ground arith)
        | inr (r, ends) ↦ elim (Result-cases r) [
          | inr (e, failed) ↦ absurd (ground arith)
          | inl (code, coded) ↦ (key, code, present, ends ∙ ap some coded, ground arith)
        ]
      ]
    ]
  ]

  -- If two calls of `format` under one plan get keys with one version and one secret, and both return, then
  -- allocations with different sequence numbers have different identifiers.
  pub format_injective :
      (key_a key_b : EncodingKey) (p : Plan) (a b : Allocation) (v w : Value)
      → key_a ≡ key_b
      → format hmac (some key_a) p a ≡ some (ok v)
      → format hmac (some key_b) p b ≡ some (ok w)
      → v.value ≡ w.value
      → a.sequence ≡ b.sequence
  format_injective key_a key_b p a b v w agree fa fb same =
      let (key, code, present, coded, shown) = format_ok (some key_a) p a v fa in
      let (key', code', present', coded', shown') = format_ok (some key_b) p b w fb in
      let one_key : key' ≡ key =
        some-injective _ _ (sym present' ∙ (ap some (sym agree) ∙ present)) in
      let one_code : code' ≡ code = append_cancel p.definition.separator _ _ (
        append_cancel p.date_text _ _ (
          append_cancel p.definition.separator _ _
            (append_cancel p.definition.prefix _ _ (sym shown' ∙ sym same ∙ shown)))) in
      encode_injective hmac law p.scope key a.sequence b.sequence code coded
        (subst₂ (λ k c. encode hmac b.sequence p.scope k ≡ some (ok c)) one_key one_code coded')
