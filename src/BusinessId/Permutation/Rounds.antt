-- ===== src/BusinessId/Permutation/Rounds.antt =====
-- The Feistel rounds are undone by running them backwards, so `permute32` is injective on 32 bits
-- and stays within them, whatever the digests are.
use Prim.Native.Nat.{bit_and, bit_xor}
use teaql_python.Base.{
  ℕ, zero, suc, ◌+◌, ◌*◌, ◌/◌, ◌%◌, ◌^◌, ◌<◌, ◌≡◌, refl, ap, sym, ◌∙◌, [], ◌∷◌, arith, All,
}
use mathlib.Core.Path.{subst}
use teaql_python.Base.Bits.{bit_xor_undo, bit_xor-lt, bit_or_join, bit_and_keep}
use teaql_python.BusinessId.Permutation.{Bytes, Hmac, unpack16, round_output, rounds, permute32}

-- What the standard library says of a digest: it consists of bytes.
abbrev pub IsHmac : Hmac → Type 0
IsHmac hmac = (key message : Bytes) → All (λ b. b < 256) (hmac key message)

split16 : (n : ℕ) → n / 2 ^ 16 * 2 ^ 16 + n % 2 ^ 16 ≡ n
split16 n = omega arith

low16 : (n : ℕ) → bit_and n 0xffff ≡ n % 2 ^ 16
low16 n =
    subst (λ m. bit_and m 0xffff ≡ n % 2 ^ 16) (split16 n)
      (bit_and_keep 16 (n / 2 ^ 16) (n % 2 ^ 16) 0xffff refl (omega arith))

unpack16-lt : (bytes : Bytes) → All (λ b. b < 256) bytes → unpack16 bytes < 2 ^ 16
unfolding unpack16
unpack16-lt [] h = omega arith
unpack16-lt (a ∷ []) h = omega arith
unpack16-lt (a ∷ b ∷ rest) h = omega arith

module _ (hmac : Hmac) (tweak key : Bytes) (law : IsHmac hmac) where
  round_output-lt : (i right : ℕ) → round_output hmac tweak key i right < 2 ^ 16
  unfolding round_output
  round_output-lt i right = unpack16-lt _ (law _ _)

  -- The right half after a round.
  abbrev mix : ℕ → ℕ → ℕ → ℕ
  mix i left right = bit_and (bit_xor left (round_output hmac tweak key i right)) 0xffff

  mix-eq :
      (i left right : ℕ)
      → left < 2 ^ 16
      → mix i left right ≡ bit_xor left (round_output hmac tweak key i right)
  mix-eq i left right h = omega (
    arith,
    low16 (bit_xor left (round_output hmac tweak key i right)),
    bit_xor-lt 16 left (round_output hmac tweak key i right) h (round_output-lt i right),
  )

  mix-lt : (i left right : ℕ) → mix i left right < 2 ^ 16
  mix-lt i left right = omega (arith, low16 (bit_xor left (round_output hmac tweak key i right)))

  -- For one right half, a round keeps left halves apart.
  mix_injective :
      (i right l l' : ℕ) → l < 2 ^ 16 → l' < 2 ^ 16 → mix i l right ≡ mix i l' right → l ≡ l'
  mix_injective i right l l' h h' e =
      sym (bit_xor_undo 16 l out h out-lt)
      ∙ ap (λ (t : ℕ). bit_xor t out) (sym (mix-eq i l right h) ∙ e ∙ mix-eq i l' right h')
      ∙ bit_xor_undo 16 l' out h' out-lt
    where
      out : ℕ
      out = round_output hmac tweak key i right

      out-lt : out < 2 ^ 16
      out-lt = round_output-lt i right

  rounds-lt :
      (n i l r : ℕ)
      → l < 2 ^ 16
      → r < 2 ^ 16
      → ((rounds hmac tweak key n i l r).0 < 2 ^ 16) × ((rounds hmac tweak key n i l r).1 < 2 ^ 16)
  unfolding rounds
  rounds-lt zero i l r h g = (h, g)
  rounds-lt (suc n) i l r h g = rounds-lt n (i + 1) r (mix i l r) g (mix-lt i l r)

  rounds_injective :
      (n i l r l' r' : ℕ)
      → l < 2 ^ 16
      → r < 2 ^ 16
      → l' < 2 ^ 16
      → r' < 2 ^ 16
      → rounds hmac tweak key n i l r ≡ rounds hmac tweak key n i l' r'
      → (l ≡ l') × (r ≡ r')
  unfolding rounds
  rounds_injective zero i l r l' r' h g h' g' e =
      (ap (λ (p : ℕ × ℕ). p.0) e, ap (λ (p : ℕ × ℕ). p.1) e)
  rounds_injective (suc n) i l r l' r' h g h' g' e =
      let (same, mixed) =
        rounds_injective n (i + 1) r (mix i l r) r' (mix i l' r') g (mix-lt i l r) g'
          (mix-lt i l' r') e in
      (mix_injective i r l l' h h' (mixed ∙ ap (λ (t : ℕ). mix i l' t) (sym same)), same)

  abbrev halves : ℕ → ℕ × ℕ
  halves v = rounds hmac tweak key 8 0 (bit_and (v / 2 ^ 16) 0xffff) (bit_and v 0xffff)

  low16-lt : (n : ℕ) → bit_and n 0xffff < 2 ^ 16
  low16-lt n = omega (arith, low16 n)

  permute32-eq : (v : ℕ) → permute32 hmac tweak key v ≡ (halves v).0 * 2 ^ 16 + (halves v).1
  unfolding permute32
  permute32-eq v =
      bit_or_join 16 (halves v).0 (halves v).1
        (rounds-lt 8 0 _ _ (low16-lt (v / 2 ^ 16)) (low16-lt v)).1

  halves-lt : (v : ℕ) → ((halves v).0 < 2 ^ 16) × ((halves v).1 < 2 ^ 16)
  halves-lt v = rounds-lt 8 0 _ _ (low16-lt (v / 2 ^ 16)) (low16-lt v)

  pub permute32-lt : (v : ℕ) → permute32 hmac tweak key v < 2 ^ 32
  permute32-lt v = omega (arith, permute32-eq v, halves-lt v)

  -- Two blocks of 32 bits have different images.
  pub permute32_injective :
      (v w : ℕ)
      → v < 2 ^ 32
      → w < 2 ^ 32
      → permute32 hmac tweak key v ≡ permute32 hmac tweak key w
      → v ≡ w
  permute32_injective v w h g e =
      omega (arith, low16 (v / 2 ^ 16), low16 v, low16 (w / 2 ^ 16), low16 w, inputs)
    where
      outputs : ((halves v).0 ≡ (halves w).0) × ((halves v).1 ≡ (halves w).1)
      outputs = omega (arith, permute32-eq v, permute32-eq w, halves-lt v, halves-lt w)

      inputs :
          (bit_and (v / 2 ^ 16) 0xffff ≡ bit_and (w / 2 ^ 16) 0xffff)
          × (bit_and v 0xffff ≡ bit_and w 0xffff)
      inputs =
          rounds_injective 8 0 _ _ _ _ (low16-lt (v / 2 ^ 16)) (low16-lt v) (low16-lt (w / 2 ^ 16))
            (low16-lt w) (λ i. (outputs.0 i, outputs.1 i))
