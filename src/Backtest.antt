-- ===== src/Backtest.antt =====
-- rtb-bid-model/src/backtest.py: each company's strategy bids a multiple of the profit-maximising
-- bid against the recorded clearing prices. `Optimizer.backtest_bid` is its `best_bids`.
-- The rows of the parquet file and the model's output are arguments.
pub mod Losses
use ads_bidding_optimizer.Prelude.{ℕ, ◌+◌, ◌-◌, List, [], ◌∷◌, if◌then◌else◌}
use ads_bidding_optimizer.Float.{
  Float, ◌⊕◌, ◌⊖◌, ◌⊗◌, ◌⊘◌, ◌≤?◌, ◌<?◌, nought, clamp_min, clamp_max,
}
use ads_bidding_optimizer.Arrays.{Arrays}
use ads_bidding_optimizer.Optimizer.{backtest_bid}

-- the accumulators of one strategy
pub record Totals {ℓ} (W : Type ℓ) : Type ℓ where
  pub profit : W
  pub regret : W
  pub wins : ℕ
  pub bid_sum : W

-- a row's probabilities and its recorded clearing price
pub record Auction {ℓ} (W : Type ℓ) : Type ℓ where
  pub probs : List W
  pub payprice : W

pub record Report {ℓ} (W : Type ℓ) : Type ℓ where
  pub multiplier : W
  pub win_rate : W
  pub avg_profit_per_imp : W
  pub mean_regret : W
  pub avg_bid : W
  pub total_profit : W

module _ {ℓ} {W : Type ℓ} ⦃f : Float W⦄ where
  -- `np.where(payprice < V, V - payprice, 0.0)`
  pub oracle_profit : W → W → W
  oracle_profit payprice V = if payprice <? V then V ⊖ payprice else nought

  -- `np.clip(bstar * mult, 0, num_bins - 1)`
  pub strategy_bid : ℕ → W → W → W
  strategy_bid num_bins bstar mult =
      clamp_max (f.of_ℕ (num_bins - 1)) (clamp_min nought (bstar ⊗ mult))

  pub row_profit : W → W → W → W
  row_profit V bid payprice =
      let profit = if payprice ≤? bid then V ⊖ bid else nought in
      if profit <? nought then nought else profit

  pub row_regret : W → W → W → W
  row_regret V bid payprice =
      let realized = if payprice ≤? bid then V ⊖ bid else nought in
      oracle_profit payprice V ⊖ (if payprice ≤? bid then realized else nought)

  pub add_row : W → W → W → Totals W → Totals W
  add_row V bid payprice t = record {
    profit = t.profit ⊕ row_profit V bid payprice;
    regret = t.regret ⊕ row_regret V bid payprice;
    wins = if payprice ≤? bid then t.wins + 1 else t.wins;
    bid_sum = t.bid_sum ⊕ bid;
  }

  pub report : W → ℕ → Totals W → Report W
  report mult n t = record {
    multiplier = mult;
    win_rate = f.of_ℕ t.wins ⊘ f.of_ℕ n;
    avg_profit_per_imp = t.profit ⊘ f.of_ℕ n;
    mean_regret = t.regret ⊘ f.of_ℕ n;
    avg_bid = t.bid_sum ⊘ f.of_ℕ n;
    total_profit = t.profit;
  }

module _ {ℓ} {W : Type ℓ} ⦃f : Float W⦄ ⦃a : Arrays W⦄ where
  -- one strategy over the auctions, in order
  pub run_strategy : ℕ → W → W → List (Auction W) → Totals W → Totals W
  run_strategy num_bins V mult [] t = t
  run_strategy num_bins V mult (r ∷ rs) t =
      run_strategy num_bins V mult rs
        (add_row V (strategy_bid num_bins (backtest_bid r.probs V) mult) r.payprice t)
