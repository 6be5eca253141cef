-- ===== src/BusinessId/Permutation/Digits.antt =====
-- The base-36 digits: six of them name each candidate below 36 ^ 6 once.
use mathlib.Core.Path.{subst}
use native.Mathlib.Nat.{pow-suc}
use teaql_python.Base.{
  ℕ, zero, suc, ◌+◌, ◌-◌, ◌*◌, ◌/◌, ◌%◌, ◌^◌, ◌<◌, ◌≡◌, refl, ap, sym, ◌∙◌, Bool, true, ◌&&◌, some,
  [], ◌∷◌, arith, ltb, eqb, if◌then◌else◌, get_elem?, length, All, contains, nat_eq,
}
use teaql_python.Base.Text.{Text}
use teaql_python.BusinessId.Permutation.{alphabet, fill}

-- The value of a character of the alphabet.
digit_value : ℕ → ℕ
digit_value c = if ltb c 58 then c - 48 else c - 55

value_from : ℕ → Text → ℕ
value_from v [] = v
value_from v (c ∷ s) = value_from (v * 36 + digit_value c) s

abbrev pub InAlphabet : ℕ → Type 0
InAlphabet c = contains alphabet c ≡ true

-- The characters read as the numbers from `n` on, and each is of the alphabet.
counts_from : ℕ → Text → Bool
counts_from n [] = true
counts_from n (c ∷ s) = eqb (digit_value c) n && contains alphabet c && counts_from (n + 1) s

alphabet_counts : counts_from 0 alphabet ≡ true
unfolding counts_from digit_value
alphabet_counts = refl

place_from :
    (s : Text) (n d : ℕ)
    → counts_from n s ≡ true
    → d < length s
    → (c : ℕ) × (get_elem? s d ≡ some c) × (digit_value c ≡ n + d) × InAlphabet c
unfolding counts_from
place_from [] n d h lt = absurd (omega arith)
place_from (c ∷ s) n zero h lt = (c, refl, ground arith, ground arith)
place_from (c ∷ s) n (suc d) h lt =
    let (e, found, value, inside) = place_from s (n + 1) d (ground arith) (omega arith) in
    (e, found, omega arith, inside)

-- The places of the alphabet hold the digits of base 36.
place :
    (d : ℕ)
    → d < 36
    → (c : ℕ) × (get_elem? alphabet d ≡ some c) × (digit_value c ≡ d) × InAlphabet c
place d h =
    let (c, found, value, inside) = place_from alphabet 0 d alphabet_counts h in
    (c, found, omega arith, inside)

fill-suc :
    (n c : ℕ) (s : Text)
    → (ch : ℕ) × (digit_value ch ≡ c % 36)
      × InAlphabet ch
      × (fill (suc n) c s ≡ fill n (c / 36) (ch ∷ s))
unfolding fill
fill-suc n c s =
    let (ch, found, value, inside) = place (c % 36) (omega arith) in
    (ch, value, inside, rw (found, fill))

-- The digits have the value that they were taken from.
value-fill : (n c : ℕ) (s : Text) → c < 36 ^ n → value_from 0 (fill n c s) ≡ value_from c s
unfolding fill value_from
value-fill zero c s h = ap (λ (t : ℕ). value_from t s) {x = 0} {y = c} (omega arith)
value-fill (suc n) c s h =
    let (ch, value, inside, step) = fill-suc n c s in
    ap (value_from 0) step
    ∙ value-fill n (c / 36) (ch ∷ s) (omega (arith, pow-suc 36 n))
    ∙ ap (λ (t : ℕ). value_from t s) {x = c / 36 * 36 + digit_value ch} {y = c} (omega arith)

pub fill_injective : (n c d : ℕ) → c < 36 ^ n → d < 36 ^ n → fill n c [] ≡ fill n d [] → c ≡ d
unfolding value_from
fill_injective n c d h g e = sym (value-fill n c [] h) ∙ ap (value_from 0) e ∙ value-fill n d [] g

pub length-fill : (n c : ℕ) (s : Text) → length (fill n c s) ≡ n + length s
unfolding fill
length-fill zero c s = omega arith
length-fill (suc n) c s =
    let (ch, value, inside, step) = fill-suc n c s in
    ap length step ∙ length-fill n (c / 36) (ch ∷ s) ∙ omega arith

pub fill-InAlphabet : (n c : ℕ) (s : Text) → All InAlphabet s → All InAlphabet (fill n c s)
unfolding fill
fill-InAlphabet zero c s h = h
fill-InAlphabet (suc n) c s h =
    let (ch, value, inside, step) = fill-suc n c s in
    subst (All InAlphabet) (sym step) (fill-InAlphabet n (c / 36) (ch ∷ s) (inside, h))
