-- ===== src/FireDanger/Numbers.antt =====
-- The language's numbers, as far as the fire danger index computes with them: a parameter, with the
-- documented behaviour of its comparisons as laws. NaN is the number that is not at most itself.
use open_fire_watch.Base.{ℕ, ◌≡◌, ◌⊎◌, Bool, true, false, leb, not}

-- `literal n d` is n / 10 ^ d, `at_most` is `<=` and `power` is `**`.
pub record Arithmetic (N : Type 0) : Type 0 where
  pub literal : ℕ → ℕ → N
  pub plus : N → N → N
  pub minus : N → N → N
  pub times : N → N → N
  pub over : N → N → N
  pub power : N → N → N
  pub exp : N → N
  pub log : N → N
  pub sqrt : N → N
  pub round : N → N
  pub max : N → N → N
  pub min : N → N → N
  pub at_most : N → N → Bool
  pub below : N → N → Bool

-- NaN, or no less.
abbrev pub IsAtLeast : {N : Type 0} → Arithmetic N → N → N → Type 0
IsAtLeast R lo x = (R.at_most x x ≡ false) ⊎ (R.at_most lo x ≡ true)

-- `at_most` on numbers, and `Math.max` and `Math.min`, which are NaN if one of the two is, and else
-- an upper and a lower bound of both. A literal is not negative, zero over zero is NaN, and the sum
-- and the product of two numbers that are not negative, and what is left of one by another that is at
-- most it, are not negative, unless they are NaN.
pub record IsOrdered (N : Type 0) (R : Arithmetic N) : Type 0 where
  pub at_most_trans :
      (x y z : N) → R.at_most x y ≡ true → R.at_most y z ≡ true → R.at_most x z ≡ true
  pub at_most_right : (x y : N) → R.at_most x y ≡ true → R.at_most y y ≡ true
  pub at_most-literal :
      (m n d : ℕ) → leb m n ≡ true → R.at_most (R.literal m d) (R.literal n d) ≡ true
  pub max_nan : (x y : N) → R.at_most y y ≡ false → R.at_most (R.max x y) (R.max x y) ≡ false
  pub min_nan : (x y : N) → R.at_most y y ≡ false → R.at_most (R.min x y) (R.min x y) ≡ false
  pub at_most-max :
      (x y : N) → R.at_most x x ≡ true → R.at_most y y ≡ true → R.at_most x (R.max x y) ≡ true
  pub min-at_most :
      (x y : N) → R.at_most x x ≡ true → R.at_most y y ≡ true → R.at_most (R.min x y) x ≡ true
  pub at_most-min :
      (x y z : N) → R.at_most z x ≡ true → R.at_most z y ≡ true → R.at_most z (R.min x y) ≡ true
  pub max_right : (x y : N) → R.at_most y y ≡ true → IsAtLeast R y (R.max x y)
  pub from_literal : (n d : ℕ) → R.at_most (R.literal 0 0) (R.literal n d) ≡ true
  pub minus_literal :
      (n d : ℕ)
      → R.at_most
          (R.minus (R.literal 0 0) (R.literal n d))
          (R.minus (R.literal 0 0) (R.literal n d))
        ≡ true
  pub over_zero :
      R.at_most (R.over (R.literal 0 0) (R.literal 0 0)) (R.over (R.literal 0 0) (R.literal 0 0))
      ≡ false
  pub plus_from :
      (x y : N)
      → IsAtLeast R (R.literal 0 0) x
      → IsAtLeast R (R.literal 0 0) y
      → IsAtLeast R (R.literal 0 0) (R.plus x y)
  pub times_from :
      (x y : N)
      → IsAtLeast R (R.literal 0 0) x
      → IsAtLeast R (R.literal 0 0) y
      → IsAtLeast R (R.literal 0 0) (R.times x y)
  pub minus_from :
      (x y : N)
      → (R.at_most y y ≡ false) ⊎ (R.at_most y x ≡ true)
      → IsAtLeast R (R.literal 0 0) (R.minus x y)
  pub plus_negative :
      (n d : ℕ) (x : N)
      → IsAtLeast R (R.minus (R.literal 0 0) (R.literal n d)) x
      → IsAtLeast R (R.literal 0 0) (R.plus x (R.literal n d))

module _ {N : Type 0} ⦃R : Arithmetic N⦄ where
  infixl 65 ◌⊕◌ ◌⊖◌
  infixl 70 ◌⊗◌ ◌⊘◌
  infixr 75 ◌↑◌
  infix 50 ◌⊑◌ ◌⊏◌
  abbrev pub ◌⊕◌ : N → N → N
  x ⊕ y = R.plus x y

  abbrev pub ◌⊖◌ : N → N → N
  x ⊖ y = R.minus x y

  abbrev pub ◌⊗◌ : N → N → N
  x ⊗ y = R.times x y

  abbrev pub ◌⊘◌ : N → N → N
  x ⊘ y = R.over x y

  abbrev pub ◌↑◌ : N → N → N
  x ↑ y = R.power x y

  -- `<=` and `<`
  abbrev pub ◌⊑◌ : N → N → Bool
  x ⊑ y = R.at_most x y

  abbrev pub ◌⊏◌ : N → N → Bool
  x ⊏ y = R.below x y

  -- n / 10 ^ d
  abbrev pub num : ℕ → ℕ → N
  num n d = R.literal n d

  -- -n / 10 ^ d
  abbrev pub neg : ℕ → ℕ → N
  neg n d = R.minus (R.literal 0 0) (R.literal n d)

  abbrev pub is_nan : N → Bool
  is_nan x = not (R.at_most x x)

  -- NaN, or in the range.
  abbrev pub IsWithin : N → N → N → Type 0
  IsWithin lo hi x = (R.at_most x x ≡ false) ⊎ ((R.at_most lo x ≡ true) × (R.at_most x hi ≡ true))

  -- NaN, or no less.
  abbrev pub IsFrom : N → N → Type 0
  IsFrom lo x = IsAtLeast R lo x
