-- ===== src/Optimizer.antt =====
-- rtb-bid-model/src/bid_optimizer.py: the bid that maximises (V - b)·P(price <= b) on a grid, the
-- oracle's profit and the regret; with the two other copies of the grid search, `best_bids` of
-- rtb-bid-model/src/backtest.py and `grid_optimize_from_probs` of experiments/budget_eval.py.
-- Functions are for one row of a batch, as torch treats each row alike.
pub mod Grid
pub mod Masked
pub mod Affordable
pub mod Regret
pub mod Newton
use ads_bidding_optimizer.Prelude.{ℕ, List, [], ◌∷◌, map, length, get_or, if◌then◌else◌}
use ads_bidding_optimizer.Float.{Float, ◌⊕◌, ◌⊖◌, ◌⊗◌, ◌⊘◌, ◌≤?◌, ◌<?◌, nought, unit, indicator}
use ads_bidding_optimizer.Arrays.{Arrays, arange}

pub record Choice {ℓ} (W : Type ℓ) : Type ℓ where
  pub best_bid : W
  pub best_profit : W
  pub candidates : List W
  pub profit : List W

module _ {ℓ} {W : Type ℓ} ⦃f : Float W⦄ where
  -- (V - b)·cdf(b) for each candidate, 0 where the candidate is above V
  unfoldable pub masked_profits : W → List W → List W → List W
  masked_profits V [] cdf = []
  masked_profits V (b ∷ bs) [] = []
  masked_profits V (b ∷ bs) (c ∷ cs) =
      (if V <? b then nought else (V ⊖ b) ⊗ c) ∷ masked_profits V bs cs

  -- `torch.where(no_bid, 0, x)`, for a best profit below 0
  abbrev pub unless_loss : W → W → W
  unless_loss best_profit x = if best_profit <? nought then nought else x

  pub perfect_profit : W → W → W
  perfect_profit payprice V = indicator (payprice <? V) ⊗ (V ⊖ payprice)

  pub realized_profit : W → W → W → W
  realized_profit actual_bid payprice V = indicator (payprice ≤? actual_bid) ⊗ (V ⊖ actual_bid)

  unfoldable pub regret : W → W → W → W
  regret actual_bid payprice V = perfect_profit payprice V ⊖ realized_profit actual_bid payprice V

module _ {ℓ} {W : Type ℓ} ⦃f : Float W⦄ ⦃a : Arrays W⦄ where
  pub grid_optimize_bins : List W → W → Choice W
  grid_optimize_bins probs V =
      let bins = arange (length probs) in
      let profit = masked_profits V bins (a.cumsum probs) in
      let best_idx = a.argmax profit in
      let best_profit = get_or profit best_idx nought in
      record {
        best_bid = unless_loss best_profit (f.of_ℕ best_idx);
        best_profit = unless_loss best_profit best_profit;
        candidates = bins;
        profit = profit;
      }

  -- the CDF of a Gaussian mixture: sum_k pi_k·Phi((x - mu_k) / sigma_k)
  unfoldable pub mixture_terms : List W → List W → List W → W → List W
  mixture_terms (p ∷ ps) (m ∷ ms) (s ∷ ss) x =
      p ⊗ (f.lit 5 1 ⊗ (unit ⊕ a.erf ((x ⊖ m) ⊘ (s ⊗ a.sqrt (f.lit 2 0)))))
      ∷ mixture_terms ps ms ss x
  mixture_terms _ _ _ x = []

  unfoldable pub mixture_cdf : List W → List W → List W → W → W
  mixture_cdf pi_logits mu sigma x = a.sum (mixture_terms (a.softmax pi_logits) mu sigma x)

  pub grid_optimize_mdn : List W → List W → List W → W → ℕ → W → Choice W
  grid_optimize_mdn pi_logits mu sigma V n_candidates b_max =
      let cands = a.linspace (f.lit 5 1) b_max n_candidates in
      let cdf = map (λ b. mixture_cdf pi_logits mu sigma (a.log b)) cands in
      let profit = masked_profits V cands cdf in
      let best_idx = a.argmax profit in
      let best_profit = get_or profit best_idx nought in
      record {
        best_bid = unless_loss best_profit (get_or cands best_idx nought);
        best_profit = unless_loss best_profit best_profit;
        candidates = cands;
        profit = profit;
      }

  -- `best_bids` of the backtest: the same search, with no test for a loss
  unfoldable pub backtest_bid : List W → W → W
  backtest_bid probs V =
      f.of_ℕ (a.argmax (masked_profits V (arange (length probs)) (a.cumsum probs)))

  -- `grid_optimize_from_probs` of the budget simulation
  unfoldable pub budget_bid : List W → W → ℕ → W
  budget_bid probs V num_bins =
      let bins = arange num_bins in
      let profit = masked_profits V bins (a.cumsum probs) in
      let best_idx = a.argmax profit in
      unless_loss (get_or profit best_idx nought) (get_or bins best_idx nought)
