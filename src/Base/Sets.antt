-- ===== src/Base/Sets.antt =====
-- Python's `set`, as a list in which `add` keeps an element once.
use mathlib.Core.Path.{◌≡◌}
use mathlib.Core.Bool.{false, ◌||◌}
use mathlib.Core.List.{List, [], ◌∷◌}
use native.Mathlib.Omega.{arith}
use teaql_python.Base.Tests.{if◌then◌else◌}
use teaql_python.Base.Equality.{Eq, ◌==◌, contains}

module _ {ℓ} {A : Type ℓ} ⦃e : Eq A⦄ where
  unfoldable pub add : A → List A → List A
  add a s = if contains s a then s else a ∷ s

  -- `discard`, and `remove` of a present element
  unfoldable pub discard : A → List A → List A
  discard a [] = []
  discard a (b ∷ s) = let rest = discard a s in if a == b then rest else b ∷ rest

  pub contains-add : (a b : A) (s : List A) → contains (add a s) b ≡ (b == a || contains s b)
  unfolding add
  contains-add a b s = ground (arith, e.equal_iff b a)

  pub contains-discard :
      (a b : A) (s : List A) → contains (discard a s) b ≡ (if b == a then false else contains s b)
  unfolding discard
  contains-discard a b [] = ground arith
  contains-discard a b (c ∷ s) =
      ground (arith, e.equal_iff b a, e.equal_iff a c, e.equal_iff b c, contains-discard a b s)
