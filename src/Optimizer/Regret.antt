-- ===== src/Optimizer/Regret.antt =====
-- Theorems on `perfect_profit` and `regret` of rtb-bid-model/src/bid_optimizer.py.
use ads_bidding_optimizer.Prelude.{◌≡◌, refl, true, false}
use ads_bidding_optimizer.Float.{
  Float, ◌⊖◌, ◌⊗◌, ◌≤?◌, ◌<?◌, ◌≼◌, nought, indicator, IsOrdered, IsRounded,
}
use ads_bidding_optimizer.Optimizer.{perfect_profit, realized_profit, regret}
use ads_bidding_optimizer.Optimizer.Grid.{le_of_not_lt, le_of_lt}

module _ {ℓ} {W : Type ℓ} ⦃f : Float W⦄ (ordered : IsOrdered W) (rounded : IsRounded W) where
  open ordered use {le_refl, le_trans}
  open rounded use {unit_mul, nought_mul, sub_nonneg, sub_nonpos, sub_anti_right}

  -- the product with a test's 0 or 1, against a bound on either side
  product_le :
      (t : _) (x y : W) → (t ≡ true → x ≼ y) → (t ≡ false → nought ≼ y) → indicator t ⊗ x ≼ y
  product_le true x y h k = rw unit_mul (h refl)
  product_le false x y h k = le_trans _ nought _ (nought_mul x).0 (k refl)

  le_product :
      (t : _) (x y : W) → (t ≡ true → y ≼ x) → (t ≡ false → y ≼ nought) → y ≼ indicator t ⊗ x
  le_product true x y h k = rw unit_mul (h refl)
  le_product false x y h k = le_trans _ nought _ (k refl) (nought_mul x).1

  -- the oracle's profit bounds what it would be without the test, and 0
  pub perfect_profit_bounds :
      (payprice V : W)
      → (nought ≼ perfect_profit payprice V) × (V ⊖ payprice ≼ perfect_profit payprice V)
  unfolding perfect_profit
  perfect_profit_bounds pp V = (
    le_product (pp <? V) _ _ (λ h. sub_nonneg V pp (le_of_lt ordered pp V h)) (λ _. le_refl nought),
    le_product (pp <? V) _ _ (λ _. le_refl _) (λ h. sub_nonpos V pp (le_of_not_lt ordered pp V h)),
  )

  pub realized-le-perfect :
      (bid payprice V : W) → realized_profit bid payprice V ≼ perfect_profit payprice V
  unfolding realized_profit
  realized-le-perfect bid pp V =
      product_le (pp ≤? bid) _ _
        (λ h. le_trans _ (V ⊖ pp) _ (sub_anti_right V pp bid h) (perfect_profit_bounds pp V).1)
        (λ _. (perfect_profit_bounds pp V).0)

  -- No bid does better than the oracle: the regret of any bid, at any clearing price and value, is
  -- at least 0.
  pub regret_nonneg : (bid payprice V : W) → nought ≼ regret bid payprice V
  unfolding regret
  regret_nonneg bid pp V = sub_nonneg _ _ (realized-le-perfect bid pp V)

  -- The oracle's profit is within reach: when the value is above the clearing price, bidding the
  -- clearing price itself realizes it.
  pub oracle-reachable :
      (payprice V : W)
      → (payprice <? V) ≡ true
      → realized_profit payprice payprice V ≡ perfect_profit payprice V
  unfolding realized_profit perfect_profit
  oracle-reachable pp V h = rw (h, le_refl pp)
