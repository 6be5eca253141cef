-- ===== src/BusinessId/Core.antt =====
-- src/teaql/core/business_id.py: the value types of business identifiers. A constructor with a
-- `__post_init__` is a function `make_…` into `Result`; the source's isinstance checks are the types
-- of the fields. Numbers are natural: the checks for negative ones have nothing to refuse.
use teaql_python.Base.{
  ℕ, ◌-◌, ◌^◌, Bool, true, false, not, ◌&&◌, List, [], ◌∷◌, ◌++◌, ◌≡◌, refl, ◌⊎◌, inl, inr, ltb,
  leb, eqb, if◌then◌else◌, length, any, ◌==◌, nat_eq, list_eq,
}
use teaql_python.Base.Text.{Text, text, join, blank}

pub data ErrorCode : Type 0 where
  profile_not_found definition_invalid range_exhausted allocation_retry_exhausted : ErrorCode
  format_invalid duplicate immutable key_not_found encoding_failed : ErrorCode

-- `BusinessIdError` with its code, a `RuntimeError`, or another exception of Python.
pub data Error : Type 0 where
  business_id : ErrorCode → Error
  runtime_error : Error
  unicode_error : Error
  struct_error : Error

pub data Result {ℓ} (A : Type ℓ) : Type ℓ where
  ok : A → Result A
  err : Error → Result A

pub Result-cases {ℓ} :
    {A : Type ℓ} (r : Result A) → ((a : A) × (r ≡ ok a)) ⊎ ((e : Error) × (r ≡ err e))
Result-cases (ok a) = inl (a, refl)
Result-cases (err e) = inr (e, refl)

-- An exception ends a method.
infixl 6 ◌>>=◌ ◌>>◌
abbrev pub ◌>>=◌ {ℓ κ} : {B : Type ℓ} {A : Type κ} → Result A → (A → Result B) → Result B
m >>= f = elim m [ ok a ↦ f a | err e ↦ err e ]

abbrev pub ◌>>◌ {ℓ κ} : {A : Type ℓ} {B : Type κ} → Result A → Result B → Result B
m >> next = elim m [ ok a ↦ next | err e ↦ err e ]

-- `if not condition: raise BusinessIdError(code, …)`
abbrev pub require : Bool → ErrorCode → Result (Unit {0})
require true code = ok tt
require false code = err (business_id code)

-- `BusinessIdScope`
pub record Scope : Type 0 where
  pub domain_root_key : Text
  pub aggregate_type : Text
  pub namespace : Text
  pub period_key : Text

unfoldable pub make_scope : Text → Text → Text → Text → Result Scope
make_scope domain_root_key aggregate_type namespace period_key =
    if any blank (domain_root_key ∷ aggregate_type ∷ namespace ∷ period_key ∷ [])
    then err (business_id definition_invalid)
    else ok (record {
      domain_root_key = domain_root_key;
      aggregate_type = aggregate_type;
      namespace = namespace;
      period_key = period_key;
    })

-- `value.replace(old, new)` for a single character `old`
unfoldable pub replace : ℕ → Text → Text → Text
replace old new [] = []
replace old new (c ∷ s) =
    let rest = replace old new s in if eqb c old then new ++ rest else c ∷ rest

-- `escape`
unfoldable pub escape : Text → Text
unfolding replace
escape value = replace b'|' (text "%7C") (replace b'%' (text "%25") value)

-- `canonical_key`
unfoldable pub canonical_key : Scope → Text
unfolding escape
canonical_key s = join (text "|") (
    escape s.domain_root_key
    ∷ escape s.aggregate_type
    ∷ escape s.namespace
    ∷ escape s.period_key
    ∷ [])

-- `BusinessIdEncodingKey`
pub record EncodingKey : Type 0 where
  pub version : ℕ
  pub key : List ℕ

unfoldable pub make_encoding_key : ℕ → List ℕ → Result EncodingKey
make_encoding_key version key = do
  require (leb 1 version && leb version 0xffffffff) definition_invalid
  require (eqb (length key) 32) definition_invalid
  ok (record { version = version; key = key })

-- `BusinessIdDefinition`
pub record Definition : Type 0 where
  pub field_name : Text
  pub profile : Text
  pub prefix : Text
  pub date_format : Text
  pub reset : Text
  pub digits : ℕ
  pub separator : Text
  pub namespace : Text
  pub policy_version : ℕ

abbrev pub default_profile : Text
default_profile = text "daily-permuted-v1"

abbrev pub default_date_format : Text
default_date_format = text "yyyyMMdd"

abbrev pub default_digits : ℕ
default_digits = 6

-- `__post_init__` of `BusinessIdDefinition`
unfoldable pub check_definition : Definition → Result Definition
unfolding list_eq
check_definition d =
    if any blank (
      d.field_name ∷ d.profile ∷ d.prefix ∷ d.date_format ∷ d.reset ∷ d.separator ∷ d.namespace
      ∷ [])
    then err (business_id definition_invalid)
    else if d.profile == default_profile && not (eqb d.digits default_digits)
    then err (business_id definition_invalid)
    else if not (leb 1 d.digits && leb d.digits 18)
    then err (business_id definition_invalid)
    else if ltb d.policy_version 1
    then err (business_id definition_invalid)
    else ok d

unfoldable pub daily_permuted : Text → Text → Text → Result Definition
unfolding check_definition
daily_permuted field_name prefix namespace = check_definition (record {
  field_name = field_name;
  profile = default_profile;
  prefix = prefix;
  date_format = default_date_format;
  reset = text "daily";
  digits = default_digits;
  separator = text "-";
  namespace = namespace;
  policy_version = 1;
})

unfoldable pub maximum_sequence : Definition → ℕ
unfolding list_eq
maximum_sequence d = if d.profile == default_profile then 2176782335 else 10 ^ d.digits - 1

-- `datetime.date`
pub record Date : Type 0 where
  pub year : ℕ
  pub month : ℕ
  pub day : ℕ

-- `BusinessIdGenerationRequest`
pub record GenerationRequest : Type 0 where
  pub definition : Definition
  pub domain_root_key : Text
  pub aggregate_type : Text
  pub business_date : Date

-- `BusinessIdPlan`
pub record Plan : Type 0 where
  pub definition : Definition
  pub scope : Scope
  pub business_date : Date
  pub date_text : Text
  pub initial_sequence : ℕ
  pub maximum_sequence : ℕ

unfoldable pub check_plan : Plan → Result Plan
check_plan p =
    if ltb p.maximum_sequence p.initial_sequence then err (business_id definition_invalid) else ok p

-- `BusinessIdAllocation`
pub record Allocation : Type 0 where
  pub scope : Scope
  pub sequence : ℕ

-- `BusinessIdValue`
pub record Value : Type 0 where
  pub value : Text
  pub profile : Text
  pub policy_version : ℕ

unfoldable pub make_value : Text → Text → ℕ → Result Value
make_value value profile policy_version =
    if blank value
    then err (business_id format_invalid)
    else ok (record { value = value; profile = profile; policy_version = policy_version })
