-- ===== src/BusinessId/Permutation.antt =====
-- src/teaql/runtime/business_id.py: `_permute32` and the walk and base-36 digits of
-- `encode_business_id_permutation_v1`. HMAC-SHA256 is the argument `hmac` (key, message, digest).
-- The walk of the code has no bound; here it takes fuel, as many rounds as there are blocks, which
-- Permutation/Walk.antt shows to be enough.
pub mod Rounds
pub mod Cycle
pub mod Walk
pub mod Digits
use Prim.Native.Nat.{bit_and, bit_or, bit_xor}
use teaql_python.Base.{
  ℕ, zero, suc, ◌+◌, ◌*◌, ◌/◌, ◌%◌, ◌^◌, Bool, Option, none, some, List, [], ◌∷◌, ◌++◌, ltb,
  get_elem?, if◌then◌else◌,
}
use teaql_python.Base.Text.{Text, text}

abbrev pub Bytes : Type 0
Bytes = List ℕ

abbrev pub Hmac : Type 0
Hmac = Bytes → Bytes → Bytes

-- `BUSINESS_ID_PERMUTATION_V1_DOMAIN_SIZE`, `BUSINESS_ID_PERMUTATION_V1_WIDTH`
abbrev pub domain_size : ℕ
domain_size = 2176782336

abbrev pub width : ℕ
width = 6

-- `BUSINESS_ID_PERMUTATION_V1_ALPHABET`
abbrev pub alphabet : Text
alphabet = text "0123456789ABCDEFGHIJKLMNOPQRSTUVWXYZ"

-- `struct.pack(">H", n)` for a 16-bit number
abbrev pub pack16 : ℕ → Bytes
pack16 n = n / 256 ∷ (n % 256) ∷ []

-- `struct.unpack_from(">H", digest)[0]`; a digest has 32 bytes
unfoldable pub unpack16 : Bytes → ℕ
unpack16 (a ∷ b ∷ rest) = a * 256 + b
unpack16 _ = 0

module _ (hmac : Hmac) (tweak key : Bytes) where
  -- The digest's first two bytes, for one round and one right half.
  unfoldable pub round_output : ℕ → ℕ → ℕ
  unfolding unpack16
  round_output round_number right = unpack16 (hmac key (tweak ++ (round_number ∷ pack16 right)))

  -- The loop over the round numbers, from one of them on, for so many rounds.
  unfoldable pub rounds : ℕ → ℕ → ℕ → ℕ → ℕ × ℕ
  unfolding round_output
  rounds zero round_number left right = (left, right)
  rounds (suc n) round_number left right =
      rounds n (round_number + 1) right
        (bit_and (bit_xor left (round_output round_number right)) 0xffff)

  unfoldable pub permute32 : ℕ → ℕ
  unfolding rounds
  permute32 value =
      let left = bit_and (value / 2 ^ 16) 0xffff in
      let right = bit_and value 0xffff in
      let (left', right') = rounds 8 0 left right in bit_or (left' * 2 ^ 16) right'

-- `while True: candidate = f(candidate); if candidate < bound: break`
unfoldable pub walk : (ℕ → ℕ) → ℕ → ℕ → ℕ → Option ℕ
walk f bound zero candidate = none
walk f bound (suc fuel) candidate =
    let next = f candidate in
    let later = walk f bound fuel next in if ltb next bound then some next else later

-- The loop that fills `encoded` from its last place to its first.
unfoldable pub fill : ℕ → ℕ → Text → Text
fill zero candidate encoded = encoded
fill (suc places) candidate encoded =
    fill places (candidate / 36)
      (elim (get_elem? alphabet (candidate % 36)) [ none ↦ encoded | some c ↦ c ∷ encoded ])
