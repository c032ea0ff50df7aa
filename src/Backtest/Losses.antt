-- ===== src/Backtest/Losses.antt =====
-- Theorems on a row of rtb-bid-model/src/backtest.py: its bid, its profit and its regret.
use ads_bidding_optimizer.Prelude.{
  ℕ, suc, ◌-◌, inl, inr, Bool, false, Bool-cases, List, [], ◌∷◌, if◌then◌else◌, arith,
}
use ads_bidding_optimizer.Arrays.{Arrays}
use ads_bidding_optimizer.Optimizer.{backtest_bid}
use ads_bidding_optimizer.Float.{
  Float, ◌⊕◌, ◌⊖◌, ◌⊗◌, ◌≤?◌, ◌<?◌, ◌≼◌, nought, IsOrdered, IsRounded,
}
use ads_bidding_optimizer.Optimizer.Grid.{le_of_not_lt, le_of_lt}
use ads_bidding_optimizer.Backtest.{Auction, oracle_profit, strategy_bid, row_regret}

module _ {ℓ} {W : Type ℓ} ⦃f : Float W⦄ (ordered : IsOrdered W) (rounded : IsRounded W) where
  open ordered use {le_refl, le_trans}
  open rounded use {of_ℕ_nonneg, sub_nonneg, sub_nonpos, sub_anti_right}

  -- Whatever the multiplier, a strategy's bid stays on the grid, between 0 and the last bin.
  pub strategy_bid_bounds :
      (num_bins : ℕ) (bstar mult : W)
      → (nought ≼ strategy_bid num_bins bstar mult)
        × (strategy_bid num_bins bstar mult ≼ f.of_ℕ (num_bins - 1))
  unfolding strategy_bid
  strategy_bid_bounds n b m = (
    ground (arith, le_refl nought, of_ℕ_nonneg (n - 1), le_of_not_lt ordered (b ⊗ m) nought),
    ground (
      arith,
      le_refl (f.of_ℕ (n - 1)),
      le_of_not_lt ordered (f.of_ℕ (n - 1)) (b ⊗ m),
      le_of_not_lt ordered (f.of_ℕ (n - 1)) nought,
    ),
  )

  oracle_bounds : (V pp : W) → (nought ≼ oracle_profit pp V) × (V ⊖ pp ≼ oracle_profit pp V)
  unfolding oracle_profit
  oracle_bounds V pp = elim (Bool-cases (pp <? V)) [
    | inl h ↦ rw h (sub_nonneg V pp (le_of_lt ordered pp V h), le_refl _)
    | inr h ↦ rw h (le_refl nought, sub_nonpos V pp (le_of_not_lt ordered pp V h))
  ]

  -- A row's reported regret is at least 0, whatever the bid, the clearing price and the value.
  pub row_regret_nonneg : (V bid payprice : W) → nought ≼ row_regret V bid payprice
  unfolding row_regret
  row_regret_nonneg V bid pp = elim (Bool-cases (pp ≤? bid)) [
    | inl h ↦
        rw h (
          sub_nonneg _ _ (le_trans _ (V ⊖ pp) _ (sub_anti_right V pp bid h) (oracle_bounds V pp).1))
    | inr h ↦ rw h (sub_nonneg _ _ (oracle_bounds V pp).0)
  ]

module _ {ℓ} {W : Type ℓ} ⦃f : Float W⦄ ⦃a : Arrays W⦄ (num_bins : ℕ) (V mult : W) where
  -- the bid of a row
  abbrev bid_of : Auction W → W
  bid_of r = strategy_bid num_bins (backtest_bid r.probs V) mult

  -- The row is won at a loss.
  abbrev pub is_loss : Auction W → Bool
  is_loss r = if r.payprice ≤? bid_of r then V ⊖ bid_of r <? nought else false

  -- The auctions without those that are won at a loss, and the number of the latter.
  abbrev pub without_losses : List (Auction W) → List (Auction W)
  without_losses [] = []
  without_losses (r ∷ rs) = let rest = without_losses rs in if is_loss r then rest else r ∷ rest

  abbrev pub count_losses : List (Auction W) → ℕ
  count_losses [] = 0
  count_losses (r ∷ rs) = let rest = count_losses rs in if is_loss r then suc rest else rest

  -- The sum of V - bid over the auctions that are won, from `total` on.
  abbrev pub net_profit : List (Auction W) → W → W
  net_profit [] total = total
  net_profit (r ∷ rs) total =
      net_profit rs (total ⊕ (if r.payprice ≤? bid_of r then V ⊖ bid_of r else nought))
