-- ===== src/Budget/Evaluation.antt =====
-- The main programs of rtb-bid-model/src/experiments/budget_eval.py and budget_naive.py, with
-- quantiles_to_bins_np and mdn_to_bins_probs_np, which repeat the members' probabilities of
-- `Ensemble`. The loaded predictions are arguments.
use ads_bidding_optimizer.Prelude.{
  ℕ, suc, Bool, Option, List, [], ◌∷◌, map, length, ◌==◌, if◌then◌else◌,
}
use ads_bidding_optimizer.Float.{Float, ◌⊗◌, ◌<?◌, nought}
use ads_bidding_optimizer.Arrays.{Arrays}
use ads_bidding_optimizer.Optimizer.{budget_bid, regret}
use ads_bidding_optimizer.Loss.{batch_mean}
use ads_bidding_optimizer.Evaluate.{chunked}
use ads_bidding_optimizer.Budget.{Auction, Metrics, naive_simulate, naive_bid}
use ads_bidding_optimizer.Ensemble.{quantile_masses, mdn_masses, bins_masses, normalise}
use ads_bidding_optimizer.Ensemble.Budgets.{fractions, oracle_cost, budget_runs}

-- the predictions of one row: of a quantile model, a bins model or a mixture model
pub data Saved {ℓ} (W : Type ℓ) : Type ℓ where
  quantiles : List W → Saved W
  bins : List W → Saved W
  mixture : List W → List W → List W → Saved W

pub record Logged {ℓ} (W : Type ℓ) : Type ℓ where
  pub saved : Saved W
  pub pp : W
  pub bid : W
  pub click : Option ℕ

-- a row with its probabilities and its value
pub record Offer {ℓ} (W : Type ℓ) : Type ℓ where
  pub probs : List W
  pub value : W

-- `res` of budget_eval.py
pub record BudgetResults {ℓ} (W : Type ℓ) : Type ℓ where
  pub unconstrained_bid_count : ℕ
  pub total_oracle_cost : W
  pub budgets : List (W × Metrics W)

-- `res` of budget_naive.py
pub record NaiveResults {ℓ} (W : Type ℓ) : Type ℓ where
  pub bid : W
  pub regret_v150 : W
  pub regret_vbid : W
  pub total_oracle_cost : W
  pub budgets : List (W × Metrics W)

module _ {ℓ} {W : Type ℓ} ⦃f : Float W⦄ where
  -- `(bids > 0).sum()`
  unfoldable pub positive_bids : List (Auction W) → ℕ
  positive_bids [] = 0
  positive_bids (r ∷ rs) = let rest = positive_bids rs in if nought <? r.bid then suc rest else rest

module _ {ℓ} {W : Type ℓ} ⦃f : Float W⦄ ⦃a : Arrays W⦄ where
  unfoldable pub quantiles_to_bins_np : List W → List W → ℕ → List W
  quantiles_to_bins_np quants alphas num_bins = normalise (quantile_masses quants alphas num_bins)

  unfoldable pub mdn_to_bins_probs_np : List W → List W → List W → ℕ → List W
  mdn_to_bins_probs_np pi_logits mu sigma num_bins =
      normalise (mdn_masses pi_logits mu sigma num_bins)

  -- the probabilities of a row, cut off or filled up only if there are not `num_bins` of them
  unfoldable pub saved_probs : List W → ℕ → Saved W → List W
  saved_probs alphas num_bins (Saved.quantiles quants) = quantiles_to_bins_np quants alphas num_bins
  saved_probs alphas num_bins (Saved.bins probs) =
      if length probs == num_bins then probs else normalise (bins_masses probs num_bins)
  saved_probs alphas num_bins (Saved.mixture pi_logits mu sigma) =
      mdn_to_bins_probs_np pi_logits mu sigma num_bins

  unfoldable pub offer_of : List W → ℕ → Bool → W → Logged W → Offer W
  offer_of alphas num_bins use_bidding_V V r = record {
    probs = saved_probs alphas num_bins r.saved;
    value = if use_bidding_V then r.bid else V;
  }

  -- the bids, in chunks of 50000 rows
  unfoldable pub offer_bids : ℕ → List (Offer W) → List W
  offer_bids num_bins offers =
      chunked (length offers) (map (λ o. budget_bid o.probs o.value num_bins)) 50000 0 offers

  -- the arrays that `simulate` goes through
  unfoldable pub auctions_of : List (Logged W) → List (Offer W) → List W → List (Auction W)
  auctions_of [] offers bids = []
  auctions_of (r ∷ rows) [] bids = []
  auctions_of (r ∷ rows) (o ∷ offers) [] = []
  auctions_of (r ∷ rows) (o ∷ offers) (b ∷ bids) =
      record { bid = b; payprice = r.pp; value = o.value; click = r.click }
      ∷ auctions_of rows offers bids

  unfoldable pub budget_eval : List W → ℕ → Bool → W → List (Logged W) → BudgetResults W
  budget_eval alphas num_bins use_bidding_V V rows =
      let offers = map (offer_of alphas num_bins use_bidding_V V) rows in
      let auctions = auctions_of rows offers (offer_bids num_bins offers) in
      record {
        unconstrained_bid_count = positive_bids auctions;
        total_oracle_cost = oracle_cost auctions;
        budgets = budget_runs fractions auctions;
      }

  -- the runs of the naive bid, one for each share of the oracle's cost
  unfoldable pub naive_runs : List W → W → List (Auction W) → List (W × Metrics W)
  naive_runs fracs b auctions =
      map
        (λ frac.
          (frac ⊗ oracle_cost auctions, naive_simulate (frac ⊗ oracle_cost auctions) b auctions))
        fracs

  -- the value of every auction is `V`, and the bids of the log are used for a regret only
  unfoldable pub budget_naive : W → W → List (Auction W) → NaiveResults W
  budget_naive mean_pp V rows =
      let b = naive_bid mean_pp V in
      let auctions : List (Auction W) = map (λ (r : Auction W). record r { value = V }) rows in
      record {
        bid = b;
        regret_v150 = batch_mean (map (λ r. regret b r.payprice V) rows);
        regret_vbid = batch_mean (map (λ r. regret b r.payprice r.bid) rows);
        total_oracle_cost = oracle_cost auctions;
        budgets = naive_runs fractions b auctions;
      }
