-- ===== src/BusinessId/Samples.antt =====
-- Business identifiers on small inputs, and the theorems at concrete data.
use teaql_python.Base.{ℕ, ◌+◌, ◌*◌, ◌%◌, ◌≡◌, refl, some, [], ◌∷◌, arith, All, length, list_eq}
use teaql_python.Base.Text.{Text, text, blank}
use teaql_python.BusinessId.Core.{
  definition_invalid, business_id, ok, err, Scope, make_scope, canonical_key, EncodingKey,
  Definition, daily_permuted, Plan, Allocation, Value, make_value,
}
use teaql_python.BusinessId.Keys.{canonical_key_injective}
use teaql_python.BusinessId.Permutation.{Bytes, Hmac, width, permute32, walk, fill}
use teaql_python.BusinessId.Permutation.Rounds.{IsHmac, permute32_injective}
use teaql_python.BusinessId.Permutation.Digits.{InAlphabet}
use teaql_python.BusinessId.Profile.{
  encode, encode_candidate, canonical_tweak, format, allocate, scope_eq,
}
use teaql_python.BusinessId.Codes.{encode_total, encode_injective, format_injective}
use teaql_python.BusinessId.Allocations.{issue, Distinct, issue-Distinct}

-- A stand-in for the HMAC, of two bytes made of the message's last one.
abbrev last : Bytes → ℕ
last [] = 0
last (b ∷ []) = b
last (b ∷ c ∷ rest) = last (c ∷ rest)

abbrev toy_hmac : Hmac
toy_hmac key message = (last message * 5 + 1) % 256 ∷ ((last message + 3) % 256) ∷ []

toy_hmac-IsHmac : IsHmac toy_hmac
toy_hmac-IsHmac key message = omega arith

abbrev shop : Scope
shop = record {
  domain_root_key = text "shop|1";
  aggregate_type = text "Order";
  namespace = text "n%";
  period_key = text "20260801";
}

abbrev shop' : Scope
shop' = record shop { domain_root_key = text "shop%7C1" }

shop_key : canonical_key shop ≡ text "shop%7C1|Order|n%25|20260801"
unfolding canonical_key
shop_key = refl

shop_key' : canonical_key shop' ≡ text "shop%257C1|Order|n%25|20260801"
unfolding canonical_key
shop_key' = refl

blank_scope :
    make_scope (text " ") (text "a") (text "b") (text "c") ≡ err (business_id definition_invalid)
unfolding make_scope blank
blank_scope = refl

canonical_key_injective_example : shop ≡ shop
canonical_key_injective_example = canonical_key_injective shop shop refl

abbrev key : EncodingKey
key = record { version = 1; key = [] }

tweak : Bytes
tweak = elim (canonical_tweak shop 1) [ ok t ↦ t | err e ↦ [] ]

tweak_ok : canonical_tweak shop 1 ≡ ok tweak
unfolding tweak canonical_tweak
tweak_ok = refl

encode_five : encode toy_hmac 5 shop key ≡ some (ok (text "CHV5M2"))
unfolding encode encode_candidate canonical_tweak permute32 walk fill
encode_five = refl

encode_total_example :
    (code : Text) × (encode toy_hmac 5 shop key ≡ some (ok code))
    × (length code ≡ width)
    × All InAlphabet code
encode_total_example = encode_total toy_hmac toy_hmac-IsHmac shop key 5 tweak (omega arith) tweak_ok

encode_injective_example : ◌≡◌ {A = ℕ} 5 5
encode_injective_example =
    encode_injective toy_hmac toy_hmac-IsHmac shop key 5 5 (text "CHV5M2") encode_five encode_five

permute32_injective_example : ◌≡◌ {A = ℕ} 77 77
permute32_injective_example =
    permute32_injective toy_hmac tweak [] toy_hmac-IsHmac 77 77 (omega arith) (omega arith) refl

abbrev order : Definition
order = record {
  field_name = text "code";
  profile = text "daily-permuted-v1";
  prefix = text "SO";
  date_format = text "yyyyMMdd";
  reset = text "daily";
  digits = 6;
  separator = text "-";
  namespace = text "n%";
  policy_version = 1;
}

order_checked : daily_permuted (text "code") (text "SO") (text "n%") ≡ ok order
unfolding daily_permuted list_eq blank
order_checked = refl

abbrev order_plan : Plan
order_plan = record {
  definition = order;
  scope = shop;
  business_date = record { year = 2026; month = 8; day = 1 };
  date_text = text "20260801";
  initial_sequence = 0;
  maximum_sequence = 2176782335;
}

abbrev fifth : Allocation
fifth = record { scope = shop; sequence = 5 }

abbrev fifth_value : Value
fifth_value = record {
  value = text "SO-20260801-CHV5M2";
  profile = text "daily-permuted-v1";
  policy_version = 1;
}

format-fifth : format toy_hmac (some key) order_plan fifth ≡ some (ok fifth_value)
unfolding format encode encode_candidate canonical_tweak permute32 walk fill list_eq make_value
    blank
format-fifth = refl

format_injective_example : ◌≡◌ {A = ℕ} 5 5
format_injective_example =
    format_injective toy_hmac toy_hmac-IsHmac key key order_plan fifth fifth fifth_value fifth_value
      refl format-fifth format-fifth refl

abbrev small_plan : Plan
small_plan = record order_plan { maximum_sequence = 1 }

three_calls :
    issue (small_plan ∷ small_plan ∷ small_plan ∷ []) []
    ≡ record { scope = shop; sequence = 0 } ∷ record { scope = shop; sequence = 1 } ∷ []
unfolding issue allocate list_eq
three_calls = refl

issue-Distinct_example : Distinct (issue (small_plan ∷ small_plan ∷ small_plan ∷ []) [])
issue-Distinct_example = issue-Distinct (small_plan ∷ small_plan ∷ small_plan ∷ []) []
