-- ===== src/Ensemble/Budgets.antt =====
-- rtb-bid-model/src/experiments/budget_ensemble.py: the bids of an ensemble, and a run of them for
-- each share of the oracle's cost. Its copies of the members' probabilities are those of `Ensemble`,
-- and its loop over the auctions is `Budget.simulate`.
use ads_bidding_optimizer.Prelude.{
  ℕ, Option, none, some, List, [], ◌∷◌, map, get_or, if◌then◌else◌, Bool,
}
use ads_bidding_optimizer.Float.{Float, ◌⊗◌, ◌⊘◌, nought, unit}
use ads_bidding_optimizer.Arrays.{Arrays, arange}
use ads_bidding_optimizer.Optimizer.{masked_profits, unless_loss}
use ads_bidding_optimizer.Budget.{Auction, Metrics, simulate}
use ads_bidding_optimizer.Ensemble.{Member, average}

-- one row: the members' predictions, the clearing price, the bid of the log, and the clicks
pub record Impression {ℓ} (W : Type ℓ) : Type ℓ where
  pub members : List (Member W)
  pub pp : W
  pub bid : W
  pub click : Option ℕ

module _ {ℓ} {W : Type ℓ} ⦃f : Float W⦄ ⦃a : Arrays W⦄ where
  -- `V_arr[i]`
  unfoldable pub impression_value : Bool → W → Impression W → W
  impression_value use_bidding_V V r = if use_bidding_V then r.bid else V

  unfoldable pub averaged_bid : ℕ → W → List W → W
  averaged_bid num_bins value avg =
      let bins_arr = arange num_bins in
      let profit = masked_profits value bins_arr (a.cumsum avg) in
      let best_idx = a.argmax profit in
      unless_loss (get_or profit best_idx nought) (get_or bins_arr best_idx nought)

  -- the auctions with the ensemble's bids; `none` where the average of a row raises
  unfoldable pub ensemble_auctions :
      ℕ → List W → Bool → W → List (Impression W) → Option (List (Auction W))
  ensemble_auctions num_bins ws use_bidding_V V [] = some []
  ensemble_auctions num_bins ws use_bidding_V V (r ∷ rows) = elim (average num_bins ws r.members) [
    | none ↦ none
    | some avg ↦ elim (ensemble_auctions num_bins ws use_bidding_V V rows) [
      | none ↦ none
      | some auctions ↦
          let value = impression_value use_bidding_V V r in
          some (
            record {
              bid = averaged_bid num_bins value avg;
              payprice = r.pp;
              value = value;
              click = r.click;
            }
            ∷ auctions)
    ]
  ]

  abbrev pub fractions : List W
  fractions = unit ⊘ f.lit 32 0 ∷ unit ⊘ f.lit 8 0 ∷ unit ⊘ f.lit 2 0 ∷ unit ∷ []

  -- `total_cost`
  unfoldable pub oracle_cost : List (Auction W) → W
  oracle_cost auctions = a.sum (map (λ r. r.payprice) auctions)

  -- the budget and the metrics of each share of the cost
  unfoldable pub budget_runs : List W → List (Auction W) → List (W × Metrics W)
  budget_runs fracs auctions =
      map (λ frac. (frac ⊗ oracle_cost auctions, simulate auctions (frac ⊗ oracle_cost auctions)))
        fracs

  unfoldable pub budget_ensemble :
      ℕ → List W → Bool → W → List (Impression W) → Option (List (W × Metrics W))
  budget_ensemble num_bins ws use_bidding_V V rows =
      elim (ensemble_auctions num_bins ws use_bidding_V V rows) [
        | none ↦ none
        | some auctions ↦ some (budget_runs fractions auctions)
      ]
