-- ===== src/Tests/Pricing.antt =====
-- The optimizer, the backtest, the budget simulation and the evaluation at concrete inputs, over
-- whole numbers.
use ads_bidding_optimizer.Prelude.{
  ◌∙◌, sym, ap, ℕ, none, false, Bool, ◌≤◌, ◌≡◌, refl, some, List, [], ◌∷◌, map, get_or, arith,
}
use ads_bidding_optimizer.Prelude.Int.{negsuc, ℤ, pos, ◌+ℤ◌, ◌-ℤ◌, ◌*ℤ◌}
use ads_bidding_optimizer.Float.{◌≼◌}
use ads_bidding_optimizer.Float.Exact.{ℤ_float, ℤ-IsOrdered, ℤ-IsRounded}
use ads_bidding_optimizer.Arrays.{range_from, arange}
use ads_bidding_optimizer.Arrays.Plain.{ℤ_arrays, ℤ-IsDocumented, scan, first_greatest}
use ads_bidding_optimizer.Optimizer.{masked_profits, grid_optimize_bins, backtest_bid, budget_bid}
use ads_bidding_optimizer.Optimizer.Grid.{expected_profit, grid_optimize_bins_optimal}
use ads_bidding_optimizer.Optimizer.Affordable.{grid_searches_agree, best_bid-le-value}
use ads_bidding_optimizer.Optimizer.Newton.{bins_search, starts_frac, newton_optimize_bins}
use ads_bidding_optimizer.Optimizer.Newton.Bounds.{Promised, newton_optimize_bins-Promised}
use ads_bidding_optimizer.Backtest.{Totals, strategy_bid}
use ads_bidding_optimizer.Backtest
use ads_bidding_optimizer.Float.{◌⊗◌, ◌≼◌}
use ads_bidding_optimizer.Budget.{Auction, simulate, naive_simulate}
use ads_bidding_optimizer.Budget.Spend.{simulate_budget, naive_simulate-eq-simulate, with_bid}
use ads_bidding_optimizer.Evaluate.{BinsRow}
use ads_bidding_optimizer.Dict.{Text}
use ads_bidding_optimizer.Evaluate.Saved.{Loaded, eval_preds, compute_metrics}
use ads_bidding_optimizer.Evaluate.Saved.Same.{
  evaluated, shared, without_nll, percentiles, evaluations_agree,
}

-- weights of four bins, in place of probabilities
abbrev weights : List ℤ
weights = pos 1 ∷ pos 4 ∷ pos 3 ∷ pos 2 ∷ []

-- the search over four bins at the value 3
test_best_bid : backtest_bid weights (pos 3) ≡ pos 1
unfolding backtest_bid masked_profits arange range_from scan first_greatest ◌+ℤ◌ ◌-ℤ◌ ◌*ℤ◌
test_best_bid = refl

grid_optimize_bins_optimal_example :
    (expected_profit (pos 3) (pos 2) (get_or (scan (pos 0) weights) 2 (pos 0))
      ≼ (grid_optimize_bins weights (pos 3)).best_profit)
    × (pos 0 ≼ (grid_optimize_bins weights (pos 3)).best_profit)
grid_optimize_bins_optimal_example =
    grid_optimize_bins_optimal ℤ-IsOrdered ℤ-IsDocumented weights (pos 3) 2 (omega arith)

grid_searches_agree_example :
    ((grid_optimize_bins weights (pos 3)).best_bid ≡ backtest_bid weights (pos 3))
    × (budget_bid weights (pos 3) 4 ≡ backtest_bid weights (pos 3))
grid_searches_agree_example =
    grid_searches_agree ℤ-IsOrdered ℤ-IsRounded ℤ-IsDocumented weights (pos 3)
      (refl, (refl, (refl, (refl, tt)))) (omega arith)

best_bid-le-value_example : (grid_optimize_bins weights (pos 3)).best_bid ≼ pos 3
best_bid-le-value_example =
    best_bid-le-value ℤ-IsOrdered ℤ-IsRounded ℤ-IsDocumented weights (pos 3)
      (refl, (refl, (refl, (refl, tt)))) (omega arith) refl

-- no whole number is NaN
abbrev never : ℤ → Bool
never x = false

abbrev floor : ℤ → ℕ
floor (pos n) = n
floor (negsuc n) = 0

newton_optimize_bins-Promised_example :
    Promised
      (bins_search never floor weights (pos 3) none)
      15
      (starts_frac 8)
      (newton_optimize_bins never floor weights (pos 3) 15 8 none)
unfolding ◌-ℤ◌
newton_optimize_bins-Promised_example =
    newton_optimize_bins-Promised ℤ-IsOrdered ℤ-IsRounded never floor weights (pos 3) 15 8 none refl
      refl

-- both bids are 3 times 2, above the value; the second auction is lost
abbrev rows_won_at_a_loss : List (Backtest.Auction ℤ)
rows_won_at_a_loss =
    record { probs = weights; payprice = pos 1 } ∷ record { probs = weights; payprice = pos 9 } ∷ []

abbrev no_totals : Totals ℤ
no_totals = record { profit = pos 0; regret = pos 0; wins = 0; bid_sum = pos 0 }

abbrev auctions : List (Auction ℤ)
auctions =
    record { bid = pos 60; payprice = pos 50; value = pos 150; click = some 1 }
    ∷ record { bid = pos 90; payprice = pos 80; value = pos 150; click = some 0 }
    ∷ record { bid = pos 30; payprice = pos 20; value = pos 150; click = some 2 }
    ∷ []

simulate_budget_example :
    ((simulate auctions (pos 100)).spent ≼ pos 100)
    × ((simulate auctions (pos 100)).won ≤ 3)
    × ((simulate auctions (pos 100)).clicks_won ≤ (simulate auctions (pos 100)).won)
simulate_budget_example = simulate_budget ℤ-IsOrdered auctions (pos 100) refl

naive_simulate-eq-simulate_example :
    naive_simulate (pos 100) (pos 60) auctions
    ≡ simulate (map (with_bid (pos 60)) auctions) (pos 100)
naive_simulate-eq-simulate_example = naive_simulate-eq-simulate (pos 100) (pos 60) auctions refl

abbrev bins_rows : List (BinsRow ℤ)
bins_rows =
    record { probs = weights; pp = pos 2; bid = pos 4 }
    ∷ record { probs = weights; pp = pos 1; bid = pos 3 }
    ∷ record { probs = weights; pp = pos 0; bid = pos 1 }
    ∷ []

-- the advertisers of the rows
abbrev advertisers : List Text
advertisers = (97 ∷ []) ∷ (98 ∷ []) ∷ (97 ∷ []) ∷ []

abbrev floor_ℤ : ℤ → ℤ
floor_ℤ x = x

-- the predictions of a file, each with its likelihood
abbrev loaded : Loaded ℤ
loaded = Loaded.bins (map (λ r. (r, pos 1)) bins_rows)

zero_right : (x : ℤ) → x *ℤ pos 0 ≡ pos 0
unfolding ◌*ℤ◌
zero_right x = ground arith

zero_left : (x : ℤ) → pos 0 *ℤ x ≡ pos 0
unfolding ◌*ℤ◌
zero_left x = ground arith

-- 0.5 is cut off to 0
halves : (x y : ℤ) → (x ⊗ ℤ_float.lit 5 1) ⊗ y ≡ x ⊗ (ℤ_float.lit 5 1 ⊗ y)
halves x y =
    ap (λ z. z *ℤ y) (zero_right x)
    ∙ zero_left y
    ∙ sym (ap (λ z. x *ℤ z) (zero_left y) ∙ zero_right x)

evaluations_agree_example :
    (eval_preds never floor floor_ℤ (some advertisers) loaded
      ≡ without_nll (evaluated never floor floor_ℤ percentiles advertisers loaded))
    × (compute_metrics floor_ℤ loaded
        ≡ shared (evaluated never floor floor_ℤ percentiles advertisers loaded))
evaluations_agree_example =
    evaluations_agree (λ xs. refl) halves never floor floor_ℤ advertisers loaded
