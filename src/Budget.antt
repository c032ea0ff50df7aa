-- ===== src/Budget.antt =====
-- rtb-bid-model/src/experiments/budget_eval.py (`simulate`) and budget_naive.py (the loop of `main`):
-- auctions in temporal order under a budget. `Optimizer.budget_bid` is `grid_optimize_from_probs`.
pub mod Spend
pub mod Evaluation
pub mod Runs
use ads_bidding_optimizer.Prelude.{
  ℕ, suc, ◌+◌, max, true, Bool, Option, none, some, List, [], ◌∷◌, ltb, if◌then◌else◌,
}
use ads_bidding_optimizer.Float.{Float, ◌⊕◌, ◌⊖◌, ◌⊘◌, ◌≤?◌, ◌<?◌, nought}

-- One auction: the bid, the clearing price, the value and the number of clicks. The arrays of the
-- source, of one length, are one list here; `click` is `none` where the data has no clicks.
pub record Auction {ℓ} (W : Type ℓ) : Type ℓ where
  pub bid : W
  pub payprice : W
  pub value : W
  pub click : Option ℕ

-- the local variables of the loop
pub record Account {ℓ} (W : Type ℓ) : Type ℓ where
  pub spent : W
  pub won : ℕ
  pub profit : W
  pub clicks_won : ℕ

pub record Metrics {ℓ} (W : Type ℓ) : Type ℓ where
  pub won : ℕ
  pub spent : W
  pub profit : W
  pub clicks_won : ℕ
  pub mean_cost : W

abbrev pub clicked : Option ℕ → Bool
clicked none = Bool.false
clicked (some c) = ltb 0 c

module _ {ℓ} {W : Type ℓ} ⦃f : Float W⦄ where
  abbrev pub opened : Account W
  opened = record { spent = nought; won = 0; profit = nought; clicks_won = 0 }

  -- the body of `if b >= payprices[i]`, both of `simulate` and of the naive loop
  pub settle : Auction W → Account W → Account W
  settle r s =
      if r.payprice ≤? r.bid
      then record {
        spent = s.spent ⊕ r.bid;
        won = s.won + 1;
        profit = s.profit ⊕ (r.value ⊖ r.bid);
        clicks_won = if clicked r.click then s.clicks_won + 1 else s.clicks_won;
      }
      else s

  -- one round of `simulate`: no bid, not affordable, or settled
  pub auction_step : W → Auction W → Account W → Account W
  auction_step total_budget r s =
      if r.bid ≤? nought then s else if total_budget <? s.spent ⊕ r.bid then s else settle r s

  pub simulate_from : W → List (Auction W) → Account W → Account W
  simulate_from total_budget [] s = s
  simulate_from total_budget (r ∷ rs) s =
      simulate_from total_budget rs (auction_step total_budget r s)

  pub metrics : Account W → Metrics W
  metrics s = record {
    won = s.won;
    spent = s.spent;
    profit = s.profit;
    clicks_won = s.clicks_won;
    mean_cost = s.spent ⊘ f.of_ℕ (max 1 s.won);
  }

  pub simulate : List (Auction W) → W → Metrics W
  simulate rs total_budget = metrics (simulate_from total_budget rs opened)

  -- the `while` loop of the naive baseline: one bid `b` for every auction, and `break` at the first
  -- one that is not affordable
  pub naive_from : W → W → List (Auction W) → Account W → Account W
  naive_from budget b [] s = s
  naive_from budget b (r ∷ rs) s =
      let rest = naive_from budget b rs (settle (record r { bid = b }) s) in
      if budget <? s.spent ⊕ b then s else rest

  pub naive_simulate : W → W → List (Auction W) → Metrics W
  naive_simulate budget b rs = metrics (naive_from budget b rs opened)

  -- the naive bid of `main`: the mean clearing price, but never above the value
  pub naive_bid : W → W → W
  naive_bid mean_pp V = if V <? mean_pp then V else mean_pp
