-- ===== src/Edges/Remap/Report.antt =====
-- The results of `main` of rtb-bid-model/src/experiments/eval_bins_v2.py for the remapped rows.
-- `np.round` is an argument. The advertisers are in the order in which they are found; the source
-- sorts them.
use ads_bidding_optimizer.Prelude.{
  ℕ, ◌<◌, ◌≡◌, refl, sym, ap, ap₂, Option, List, [], ◌∷◌, map, length, get_or, min, All,
}
use ads_bidding_optimizer.Prelude.Int.{ℤ, pos_part}
use ads_bidding_optimizer.Float.{Float, ◌⊖◌, ◌≼◌, nought, clamp_min, IsOrdered, IsRounded}
use ads_bidding_optimizer.Arrays.{Arrays, IsDocumented}
use ads_bidding_optimizer.Dict.{Dict, Text}
use ads_bidding_optimizer.Optimizer.{
  perfect_profit, realized_profit, backtest_bid, grid_optimize_bins, regret,
}
use ads_bidding_optimizer.Optimizer.Affordable.{grid_searches_agree}
use ads_bidding_optimizer.Evaluate.Calibration.{ks_statistic}
use ads_bidding_optimizer.Evaluate.Metrics.{per_advertiser}
use ads_bidding_optimizer.Search.{mean}

-- a row of the test set, its probabilities remapped
pub record Remapped {ℓ} (W : Type ℓ) : Type ℓ where
  pub int_probs : List W
  pub pp : W
  pub bid : W
  pub adv : Text

pub record Results {ℓ} (W : Type ℓ) : Type ℓ where
  pub anlp : W
  pub ks : Option W
  pub regret_v150_grid : W
  pub regret_vbid_grid : W
  pub per_adv_regret_v150 : Dict Text W

module _ {ℓ} {W : Type ℓ} ⦃f : Float W⦄ ⦃a : Arrays W⦄ where
  -- `np.clip(np.round(pp), 0, 300)`
  unfoldable pub pp_int : (W → ℤ) → Remapped W → ℕ
  pp_int round r = min (pos_part (round r.pp)) 300

  unfoldable pub log_p : (W → ℤ) → Remapped W → W
  log_p round r = a.log (clamp_min (f.lit 1 30) (get_or r.int_probs (pp_int round r) nought))

  unfoldable pub pit_of : (W → ℤ) → Remapped W → W
  pit_of round r = get_or (a.cumsum r.int_probs) (pp_int round r) nought

  -- `perfect - realized` of a row, for the value `V`
  unfoldable pub shortfall : W → Remapped W → W
  shortfall V r = perfect_profit r.pp V ⊖ realized_profit (backtest_bid r.int_probs V) r.pp V

  unfoldable pub evaluate_remapped : (W → ℤ) → List (Remapped W) → Results W
  evaluate_remapped round rows =
      let reg150 = map (shortfall (f.of_ℕ 150)) rows in
      record {
        anlp = nought ⊖ mean (map (log_p round) rows);
        ks = ks_statistic (map (pit_of round) rows);
        regret_v150_grid = mean reg150;
        regret_vbid_grid = mean (map (λ r. shortfall r.bid r) rows);
        per_adv_regret_v150 = per_advertiser (map (λ r. r.adv) rows) reg150;
      }

  module _ (ordered : IsOrdered W) (rounded : IsRounded W) (documented : IsDocumented W) where
    -- rows of at least one probability, none of which is negative
    abbrev pub AreRows : List (Remapped W) → Type 0
    AreRows rows = All (λ r. All (λ p. nought ≼ p) r.int_probs × (0 < length r.int_probs)) rows

    -- the regret of the bid of `grid_optimize_bins`
    abbrev pub grid_regret : W → Remapped W → W
    grid_regret V r = regret (grid_optimize_bins r.int_probs V).best_bid r.pp V

    shortfalls :
        (value : Remapped W → W) (rows : List (Remapped W))
        → AreRows rows
        → map (λ r. shortfall (value r) r) rows ≡ map (λ r. grid_regret (value r) r) rows
    unfolding shortfall regret
    shortfalls value [] h = refl
    shortfalls value (r ∷ rows) ((ps, some_bin), hs) =
        ap₂ (λ x t. x ∷ t)
          (ap (λ b. regret b r.pp (value r))
            (sym (
              (grid_searches_agree ordered rounded documented r.int_probs (value r) ps
                some_bin).0)))
          (shortfalls value rows hs)

    -- For rows of at least one probability, none negative, the two regrets and those of the
    -- advertisers, for which this script has its own search and its own formula, are those of the
    -- bids of `grid_optimize_bins`.
    pub evaluate_remapped-by_row :
        (round : W → ℤ) (rows : List (Remapped W))
        → AreRows rows
        → let res = evaluate_remapped round rows in
          (res.regret_v150_grid ≡ mean (map (grid_regret (f.of_ℕ 150)) rows))
          × (res.regret_vbid_grid ≡ mean (map (λ r. grid_regret r.bid r) rows))
          × (res.per_adv_regret_v150
              ≡ per_advertiser (map (λ r. r.adv) rows) (map (grid_regret (f.of_ℕ 150)) rows))
    unfolding evaluate_remapped
    evaluate_remapped-by_row round rows h =
        let fixed = shortfalls (λ r. f.of_ℕ 150) rows h in
        (
          ap mean fixed,
          ap mean (shortfalls (λ r. r.bid) rows h),
          ap (per_advertiser (map (λ r. r.adv) rows)) fixed,
        )
