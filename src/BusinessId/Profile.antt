-- ===== src/BusinessId/Profile.antt =====
-- src/teaql/runtime/business_id.py: the in-memory allocator, the permuted daily profile and the
-- encoding of a sequence number. The HMAC of the standard library is the argument `hmac`.
use teaql_python.Base.{
  ℕ, ◌+◌, ◌/◌, ◌%◌, ◌^◌, ◌-◌, Bool, true, not, ◌&&◌, ◌||◌, Option, none, some, List, [], ◌∷◌, ◌++◌,
  ltb, leb, eqb, if◌then◌else◌, length, Eq, ◌==◌, list_eq, list_beq_iff, nat_eq, ◌↔◌, ◌≡◌, arith,
}
use teaql_python.Base.Dict.{Dict, lookup, insert, get_or}
use teaql_python.Base.Text.{Text, text, join}
use teaql_python.BusinessId.Core.{
  definition_invalid, range_exhausted, key_not_found, business_id, unicode_error, struct_error,
  Result, ok, err, ◌>>=◌, Scope, make_scope, EncodingKey, default_profile, default_date_format,
  Date, GenerationRequest, Plan, check_plan, Allocation, Value, make_value,
}
use teaql_python.BusinessId.Permutation.{Bytes, Hmac, domain_size, width, permute32, walk, fill}

pub scope_beq : Scope → Scope → Bool
unfolding list_eq
scope_beq s t =
    s.domain_root_key == t.domain_root_key
    && s.aggregate_type == t.aggregate_type
    && s.namespace == t.namespace
    && s.period_key == t.period_key

pub scope_beq_iff : (s t : Scope) → (scope_beq s t ≡ true) ↔ (s ≡ t)
unfolding scope_beq
scope_beq_iff s t = (
  same,
  λ e. ground (
    arith,
    list_beq_iff s.domain_root_key t.domain_root_key,
    list_beq_iff s.aggregate_type t.aggregate_type,
    list_beq_iff s.namespace t.namespace,
    list_beq_iff s.period_key t.period_key,
  ),
)
  where
    same : scope_beq s t ≡ true → s ≡ t
    same h = ground (
      arith,
      list_beq_iff s.domain_root_key t.domain_root_key,
      list_beq_iff s.aggregate_type t.aggregate_type,
      list_beq_iff s.namespace t.namespace,
      list_beq_iff s.period_key t.period_key,
    )

-- The `__eq__` of the frozen dataclass.
instance unfoldable pub scope_eq : Eq Scope
unfolding scope_beq
scope_eq = record { equal = scope_beq; equal_iff = scope_beq_iff }

-- `InMemoryBusinessIdAllocator`, its `_counters`
abbrev pub Counters : Type 0
Counters = Dict Scope ℕ

unfoldable pub allocate : Plan → Counters → Result Allocation × Counters
unfolding lookup insert scope_eq
allocate plan counters =
    let current = get_or plan.scope plan.initial_sequence counters in
    if ltb plan.maximum_sequence current then (err (business_id range_exhausted), counters) else (
      ok (record { scope = plan.scope; sequence = current }),
      insert plan.scope (current + 1) counters,
    )

-- One character in UTF-8; surrogates raise.
unfoldable pub utf8_char : ℕ → Result Bytes
utf8_char c =
    if ltb c 0x80
    then ok (c ∷ [])
    else if ltb c 0x800
    then ok ((0xc0 + c / 64) ∷ (0x80 + c % 64) ∷ [])
    else if leb 0xd800 c && leb c 0xdfff
    then err unicode_error
    else if ltb c 0x10000
    then ok ((0xe0 + c / 4096) ∷ (0x80 + c / 64 % 64) ∷ (0x80 + c % 64) ∷ [])
    else ok
        ((0xf0 + c / 262144) ∷ (0x80 + c / 4096 % 64) ∷ (0x80 + c / 64 % 64) ∷ (0x80 + c % 64) ∷ [])

unfoldable pub utf8 : Text → Result Bytes
unfolding utf8_char
utf8 [] = ok []
utf8 (c ∷ s) = let rest = utf8 s in do bytes ← utf8_char c; more ← rest; ok (bytes ++ more)

-- `struct.pack(">I", n)`
unfoldable pub pack32 : ℕ → Result Bytes
pack32 n =
    if ltb n (2 ^ 32)
    then ok (n / 2 ^ 24 ∷ (n / 2 ^ 16 % 256) ∷ (n / 2 ^ 8 % 256) ∷ (n % 256) ∷ [])
    else err struct_error

-- `_MAGIC`
abbrev pub magic : Bytes
magic = text "teaql-business-id-fp-v1" ++ (0 ∷ [])

-- The loop over the fields of `_canonical_tweak`.
unfoldable pub frame_fields : List Text → Result Bytes
unfolding utf8 pack32
frame_fields [] = ok []
frame_fields (value ∷ fields) =
    let rest = frame_fields fields in
    do
      encoded ← utf8 value
      size ← pack32 (length encoded)
      more ← rest
      ok (size ++ encoded ++ more)

unfoldable pub canonical_tweak : Scope → ℕ → Result Bytes
unfolding frame_fields
canonical_tweak scope key_version = do
  version ← pack32 key_version
  fields ←
      frame_fields
        (scope.domain_root_key ∷ scope.aggregate_type ∷ scope.namespace ∷ scope.period_key ∷ [])
  ok (magic ++ (1 ∷ version) ++ fields)

module _ (hmac : Hmac) where
  -- The loop of the encoding ends within as many rounds as there are blocks; `none` cannot be.
  unfoldable pub encode_candidate : Bytes → Bytes → ℕ → Option Text
  encode_candidate tweak key sequence =
      elim (walk (permute32 hmac tweak key) domain_size (2 ^ 32) sequence) [
        | none ↦ none
        | some candidate ↦ some (fill width candidate [])
      ]

  -- `encode_business_id_permutation_v1`; the outer `none` is a loop without end.
  unfoldable pub encode : ℕ → Scope → EncodingKey → Option (Result Text)
  encode sequence scope key =
      if leb domain_size sequence
      then some (err (business_id range_exhausted))
      else elim (canonical_tweak scope key.version) [
        | err e ↦ some (err e)
        | ok tweak ↦ elim (encode_candidate tweak key.key sequence) [
          | none ↦ none
          | some code ↦ some (ok code)
        ]
      ]

-- `date.strftime("%Y%m%d")`, for years of four digits
unfoldable pub strftime : Date → Text
strftime d =
    (48 + d.year / 1000)
    ∷ (48 + d.year / 100 % 10)
    ∷ (48 + d.year / 10 % 10)
    ∷ (48 + d.year % 10)
    ∷ (48 + d.month / 10)
    ∷ (48 + d.month % 10)
    ∷ (48 + d.day / 10)
    ∷ (48 + d.day % 10)
    ∷ []

-- `PermutedDailyBusinessIdProfile.plan`
unfoldable pub plan : GenerationRequest → Result Plan
unfolding list_eq strftime make_scope check_plan
plan request =
    let definition = request.definition in
    if not (definition.profile == default_profile)
      || not (definition.reset == text "daily")
      || not (definition.date_format == default_date_format)
      || not (eqb definition.digits width)
    then err (business_id definition_invalid)
    else do
      let date_text = strftime request.business_date
      scope ←
          make_scope request.domain_root_key request.aggregate_type definition.namespace date_text
      check_plan (record {
        definition = definition;
        scope = scope;
        business_date = request.business_date;
        date_text = date_text;
        initial_sequence = 0;
        maximum_sequence = domain_size - 1;
      })

module _ (hmac : Hmac) where
  -- The last step of `format`, with the code.
  abbrev finish : Plan → Text → Result Value
  finish p code =
      make_value (join p.definition.separator (p.definition.prefix ∷ p.date_text ∷ code ∷ []))
        p.definition.profile p.definition.policy_version

  -- `PermutedDailyBusinessIdProfile.format`, with what `key_provider.current_key` answers in this call;
  -- the outer `none` is a loop without end.
  unfoldable pub format : Option EncodingKey → Plan → Allocation → Option (Result Value)
  unfolding scope_eq
  format current_key p allocation =
      if not (allocation.scope == p.scope)
      then some (err (business_id definition_invalid))
      else elim current_key [
        | none ↦ some (err (business_id key_not_found))
        | some key ↦ elim (encode hmac allocation.sequence p.scope key) [
          | none ↦ none
          | some (err e) ↦ some (err e)
          | some (ok code) ↦ some (finish p code)
        ]
      ]
