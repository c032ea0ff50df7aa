-- ===== src/Optimizer/Affordable.antt =====
-- Theorems on the chosen bid of rtb-bid-model/src/bid_optimizer.py and on the copies of the search.
use ads_bidding_optimizer.Prelude.{ℕ, ◌<◌, ◌≡◌, ap, ◌∙◌, List, length, get_or, All, arith}
use ads_bidding_optimizer.Float.{Float, ◌≼◌, nought, IsOrdered, IsRounded}
use ads_bidding_optimizer.Arrays.{Arrays, arange, get_or-All, get_or-range_from, IsDocumented}
use ads_bidding_optimizer.Optimizer.{
  masked_profits, unless_loss, grid_optimize_bins, backtest_bid, budget_bid,
}
use mathlib.Core.Path.{subst}
use ads_bidding_optimizer.Optimizer.Masked.{
  expected_profit_nonneg, cdf_argmax_bound, cdf_argmax-le-value,
}
use ads_bidding_optimizer.Optimizer.Grid.{bins_profits, get_or-bins_profits, not_lt_of_le}

module _ {ℓ} {W : Type ℓ} ⦃f : Float W⦄ ⦃a : Arrays W⦄ (ordered : IsOrdered W)
    (rounded : IsRounded W) (documented : IsDocumented W) where
  open ordered use {le_refl}
  open documented use {length-cumsum, cumsum_nonneg}

  bins_profits_nonneg :
      (probs : List W) (V : W) (k : ℕ)
      → All (λ p. nought ≼ p) probs
      → k < length probs
      → nought ≼ get_or (bins_profits ordered documented probs V) k nought
  bins_profits_nonneg probs V k ps h = rw (get_or-bins_profits ordered documented probs V k h) (
      expected_profit_nonneg ordered rounded documented V _ _ (
        get_or-All (λ p. nought ≼ p) (a.cumsum probs) k nought (le_refl nought)
          (cumsum_nonneg probs ps)))

  pub best_idx_bound :
      (probs : List W) (V : W)
      → 0 < length probs
      → a.argmax (bins_profits ordered documented probs V) < length probs
  best_idx_bound probs V h =
      subst (λ n. a.argmax (masked_profits V (arange n) (a.cumsum probs)) < n) (length-cumsum probs)
        (cdf_argmax_bound ordered rounded documented V (a.cumsum probs)
          (rw (length-cumsum probs) h))

  no_loss :
      (probs : List W) (V x : W)
      → All (λ p. nought ≼ p) probs
      → 0 < length probs
      → let ps = bins_profits ordered documented probs V in
        unless_loss (get_or ps (a.argmax ps) nought) x ≡ x
  no_loss probs V x ps h =
      rw (not_lt_of_le ordered _ _ (bins_profits_nonneg probs V _ ps (best_idx_bound probs V h)))

  -- On a row of at least one bin with no negative probability, the `no_bid` branch of the grid
  -- search is never taken: `grid_optimize_bins`, the backtest's `best_bids`, which has no such
  -- branch, and the budget simulation's `grid_optimize_from_probs` choose the same bid.
  pub grid_searches_agree :
      (probs : List W) (V : W)
      → All (λ p. nought ≼ p) probs
      → 0 < length probs
      → ((grid_optimize_bins probs V).best_bid ≡ backtest_bid probs V)
        × (budget_bid probs V (length probs) ≡ backtest_bid probs V)
  unfolding grid_optimize_bins backtest_bid budget_bid arange
  grid_searches_agree probs V ps h = (
    no_loss probs V _ ps h,
    no_loss probs V _ ps h
        ∙ get_or-range_from 0 (length probs) _ nought (best_idx_bound probs V h)
        ∙ ap f.of_ℕ (omega arith),
  )

  -- On a row of at least one bin with no negative probability, the chosen bid is at most the value
  -- of the impression, provided that the value is at least 0.
  pub best_bid-le-value :
      (probs : List W) (V : W)
      → All (λ p. nought ≼ p) probs
      → 0 < length probs
      → f.of_ℕ 0 ≼ V
      → (grid_optimize_bins probs V).best_bid ≼ V
  unfolding backtest_bid
  best_bid-le-value probs V ps h v = rw ((grid_searches_agree probs V ps h).0) (
      subst (λ n. f.of_ℕ (a.argmax (masked_profits V (arange n) (a.cumsum probs))) ≼ V)
        (length-cumsum probs)
        (cdf_argmax-le-value ordered rounded documented V (a.cumsum probs) (cumsum_nonneg probs ps)
          (rw (length-cumsum probs) h) v))
