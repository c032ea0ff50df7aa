-- ===== src/Ensemble/Spend.antt =====
-- A theorem on the runs of rtb-bid-model/src/experiments/budget_ensemble.py.
use ads_bidding_optimizer.Prelude.{◌≤◌, ◌≡◌, refl, true, List, map, length, All, All-map}
use ads_bidding_optimizer.Float.{Float, ◌⊘◌, ◌<?◌, ◌≼◌, nought, unit, IsOrdered, IsRounded}
use ads_bidding_optimizer.Arrays.{Arrays, IsDocumented}
use ads_bidding_optimizer.Budget.{Auction, Metrics}
use ads_bidding_optimizer.Budget.Spend.{simulate_budget}
use ads_bidding_optimizer.Ensemble.Budgets.{fractions, oracle_cost, budget_runs}

-- a run with its budget: no more is spent than the budget, and no more is won than there is
abbrev pub Within {ℓ} : {W : Type ℓ} ⦃f : Float W⦄ → List (Auction W) → W × Metrics W → Type 0
Within auctions (budget, m) =
    (m.spent ≼ budget) × (m.won ≤ length auctions) × (m.clicks_won ≤ m.won)

module _ {ℓ} {W : Type ℓ} ⦃f : Float W⦄ ⦃a : Arrays W⦄ (ordered : IsOrdered W)
    (rounded : IsRounded W) (documented : IsDocumented W) where
  pub oracle_cost_nonneg :
      (auctions : List (Auction W))
      → All (λ r. nought ≼ r.payprice) auctions
      → nought ≼ oracle_cost auctions
  unfolding oracle_cost
  oracle_cost_nonneg auctions h =
      documented.sum_nonneg (map (λ r. r.payprice) auctions) (
        All-map (λ r. nought ≼ r.payprice) (λ x. nought ≼ x) (λ r. r.payprice) (λ r p. p) auctions
          h)

  -- Where no clearing price is negative, each run of the ensemble's bids stays within its budget,
  -- the share 1/32, 1/8, 1/2 or 1 of the sum of the clearing prices: it spends no more, wins no
  -- more auctions than there are, and no more clicks than auctions.
  pub budget_runs-Within :
      (auctions : List (Auction W))
      → All (λ r. nought ≼ r.payprice) auctions
      → (nought <? f.lit 32 0) ≡ true
      → (nought <? f.lit 8 0) ≡ true
      → (nought <? f.lit 2 0) ≡ true
      → (length (budget_runs fractions auctions) ≡ 4)
        × All (Within auctions) (budget_runs fractions auctions)
  unfolding budget_runs
  budget_runs-Within auctions h p32 p8 p2 =
      let cost = oracle_cost_nonneg auctions h in
      let share = λ (d : W) (p : (nought <? d) ≡ true).
        rounded.mul_nonneg (unit ⊘ d) (oracle_cost auctions)
          (rounded.div_nonneg unit d (rounded.lit_nonneg 1 0) p) cost in
      (
        refl,
        (
          simulate_budget ordered auctions _ (share (f.lit 32 0) p32),
          (
            simulate_budget ordered auctions _ (share (f.lit 8 0) p8),
            (
              simulate_budget ordered auctions _ (share (f.lit 2 0) p2),
              (
                simulate_budget ordered auctions _
                    (rounded.mul_nonneg unit (oracle_cost auctions) (rounded.lit_nonneg 1 0) cost),
                tt,
              ),
            ),
          ),
        ),
      )
