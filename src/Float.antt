-- ===== src/Float.antt =====
-- The floating-point numbers of the program (Python's `float`, the elements of numpy and torch
-- arrays). Their arithmetic is the hardware's and the libraries', not code of the repository, so
-- the type and its operations are parameters. What a property needs of them are the named laws of
-- `IsOrdered` and `IsRounded`: statements that IEEE 754 gives for every rounding of finite values.
-- Values are finite, and none is NaN.
pub mod Exact
use ads_bidding_optimizer.Prelude.{ℕ, ◌≡◌, ◌⊎◌, Bool, true, not, if◌then◌else◌}

pub record Float {ℓ} (W : Type ℓ) : Type ℓ where
  -- `lit m e` is the literal m·10^-e: `lit 5 1` is 0.5, `lit 1 30` is 1e-30.
  pub lit : ℕ → ℕ → W
  -- `float(n)` of a natural number
  pub of_ℕ : ℕ → W
  pub add : W → W → W
  pub sub : W → W → W
  pub mul : W → W → W
  pub div : W → W → W
  pub le : W → W → Bool
  pub lt : W → W → Bool

module _ {ℓ} {W : Type ℓ} ⦃f : Float W⦄ where
  infixl 65 ◌⊕◌ ◌⊖◌
  infixl 70 ◌⊗◌ ◌⊘◌
  infix 50 ◌≤?◌ ◌<?◌
  infix 4 ◌≼◌
  abbrev pub ◌⊕◌ : W → W → W
  ◌⊕◌ = f.add

  abbrev pub ◌⊖◌ : W → W → W
  ◌⊖◌ = f.sub

  abbrev pub ◌⊗◌ : W → W → W
  ◌⊗◌ = f.mul

  abbrev pub ◌⊘◌ : W → W → W
  ◌⊘◌ = f.div

  -- the tests `<=` and `<`; `x > y` is `y <? x`
  abbrev pub ◌≤?◌ : W → W → Bool
  ◌≤?◌ = f.le

  abbrev pub ◌<?◌ : W → W → Bool
  ◌<?◌ = f.lt

  abbrev pub ◌≼◌ : W → W → Type 0
  x ≼ y = f.le x y ≡ true

  abbrev pub nought : W
  nought = f.lit 0 0

  abbrev pub unit : W
  unit = f.lit 1 0

  -- `(test).float()`
  abbrev pub indicator : Bool → W
  indicator b = if b then unit else nought

  -- `x.clamp(min=lo)`
  abbrev pub clamp_min : W → W → W
  clamp_min lo x = if x <? lo then lo else x

  -- `x.clamp(max=hi)`
  abbrev pub clamp_max : W → W → W
  clamp_max hi x = if hi <? x then hi else x

-- `<=` is a total order on the values, and `<` its strict part.
pub record IsOrdered {ℓ} (W : Type ℓ) ⦃f : Float W⦄ : Type ℓ where
  pub le_refl : (x : W) → x ≼ x
  pub le_trans : (x y z : W) → x ≼ y → y ≼ z → x ≼ z
  pub le_total : (x y : W) → (x ≼ y) ⊎ (y ≼ x)
  pub lt-eq-not-le : (x y : W) → (x <? y) ≡ not (y ≤? x)

-- Signs and monotonicity of rounded differences and products, and the exact products by 0 and 1.
pub record IsRounded {ℓ} (W : Type ℓ) ⦃f : Float W⦄ : Type ℓ where
  pub nought-le-unit : nought {W = W} ≼ unit
  pub of_ℕ_nonneg : (n : ℕ) → nought ≼ f.of_ℕ n
  pub add_nonneg : (x y : W) → nought ≼ x → nought ≼ y → nought ≼ x ⊕ y
  pub add_mono_right : (x y z : W) → y ≼ z → x ⊕ y ≼ x ⊕ z
  pub sub_nonneg : (x y : W) → y ≼ x → nought ≼ x ⊖ y
  pub sub_nonpos : (x y : W) → x ≼ y → x ⊖ y ≼ nought
  pub sub_le_self : (x y : W) → nought ≼ y → x ⊖ y ≼ x
  pub lit_nonneg : (m e : ℕ) → nought ≼ f.lit m e
  pub sub_anti_right : (x y z : W) → y ≼ z → x ⊖ z ≼ x ⊖ y
  pub sub_mono_left : (x y z : W) → x ≼ y → x ⊖ z ≼ y ⊖ z
  pub mul_nonneg : (x y : W) → nought ≼ x → nought ≼ y → nought ≼ x ⊗ y
  pub mul_nonpos : (x y : W) → x ≼ nought → nought ≼ y → x ⊗ y ≼ nought
  pub div_nonneg : (x y : W) → nought ≼ x → (nought <? y) ≡ true → nought ≼ x ⊘ y
  pub unit_mul : (x : W) → unit ⊗ x ≡ x
  pub nought_mul : (x : W) → (nought ⊗ x ≼ nought) × (nought ≼ nought ⊗ x)
