-- ===== src/Evaluate/Metrics.antt =====
-- The metrics that `main` of rtb-bid-model/src/evaluate.py computes from the predictions, with their
-- regrets, and saves.
use ads_bidding_optimizer.Prelude.{ℕ, Bool, Option, List, [], ◌∷◌, map, if◌then◌else◌}
use ads_bidding_optimizer.Prelude.Int.{ℤ}
use ads_bidding_optimizer.Float.{Float, ◌⊖◌, nought}
use ads_bidding_optimizer.Arrays.{Arrays}
use ads_bidding_optimizer.Dict.{Dict, Text, text_beq}
use ads_bidding_optimizer.Loss.{batch_mean}
use ads_bidding_optimizer.Evaluate.{
  BinsRow, MdnRow, Value, regret_metrics_bins_grid, regret_metrics_mdn_grid,
}
use ads_bidding_optimizer.Evaluate.Calibration.{
  compute_pit_bins, compute_pit_mdn, ks_statistic, coverage_table,
}
use ads_bidding_optimizer.Evaluate.Predictions.{regret_bins_newton, regret_metrics_mdn_newton}

-- `res`
pub record Results {ℓ} (W : Type ℓ) : Type ℓ where
  pub nll : W
  pub anlp : W
  pub ks : Option W
  pub coverage : List (W × W)
  pub regret_v150_grid : W
  pub regret_vbid_grid : W
  pub per_adv_regret_v150 : Dict Text W
  pub regret_v150_newton : W
  pub regret_vbid_newton : W

-- `reg[adv_arr == a]`
unfoldable pub select {ℓ} : {A : Type ℓ} → Text → List Text → List A → List A
select a [] regs = []
select a (b ∷ advs) [] = []
select a (b ∷ advs) (r ∷ regs) =
    let rest = select a advs regs in if text_beq b a then r ∷ rest else rest

unfoldable pub without : Text → List Text → List Text
without a [] = []
without a (b ∷ advs) = let rest = without a advs in if text_beq b a then rest else b ∷ rest

-- `set(advs)`; its order, sorted in the source, shows in prints only
unfoldable pub distinct : List Text → List Text
distinct [] = []
distinct (a ∷ advs) = a ∷ without a (distinct advs)

module _ {ℓ} {W : Type ℓ} ⦃f : Float W⦄ ⦃a : Arrays W⦄ where
  unfoldable pub per_advertiser : List Text → List W → Dict Text W
  per_advertiser advs regs = map (λ b. (b, batch_mean (select b advs regs))) (distinct advs)

  -- the rows of a bins model with their `log_prob`
  unfoldable pub bins_results :
      (W → Bool) → (W → ℕ) → (W → ℤ) → List W → List Text → List (BinsRow W × W) → Results W
  bins_results is_nan floor long pcts advs preds =
      let rows = map (λ r. r.0) preds in
      let nll = nought ⊖ batch_mean (map (λ r. r.1) preds) in
      let pit = compute_pit_bins long rows in
      let fixed_v : Value W = Value.fixed (f.lit 150 0) in
      let reg150 = (regret_metrics_bins_grid rows fixed_v 8192).0 in
      record {
        nll = nll;
        anlp = nll;
        ks = ks_statistic pit;
        coverage = coverage_table pit pcts;
        regret_v150_grid = batch_mean reg150;
        regret_vbid_grid = batch_mean (regret_metrics_bins_grid rows Value.bidding 8192).0;
        per_adv_regret_v150 = per_advertiser advs reg150;
        regret_v150_newton = batch_mean (regret_bins_newton is_nan floor rows fixed_v 8192);
        regret_vbid_newton = batch_mean (regret_bins_newton is_nan floor rows Value.bidding 8192);
      }

  -- the rows of a mixture model; the linear ANLP takes off the logarithm of the price
  unfoldable pub mdn_results : (W → Bool) → List W → List Text → List (MdnRow W × W) → Results W
  mdn_results is_nan pcts advs preds =
      let rows = map (λ r. r.0) preds in
      let pit = compute_pit_mdn rows in
      let fixed_v : Value W = Value.fixed (f.lit 150 0) in
      let b_max = f.lit 300 0 in
      let reg150 = (regret_metrics_mdn_grid rows fixed_v 500 b_max 8192).0 in
      record {
        nll = nought ⊖ batch_mean (map (λ r. r.1) preds);
        anlp = nought ⊖ batch_mean (map (λ r. r.1 ⊖ (r.0).log_pp) preds);
        ks = ks_statistic pit;
        coverage = coverage_table pit pcts;
        regret_v150_grid = batch_mean reg150;
        regret_vbid_grid = batch_mean (regret_metrics_mdn_grid rows Value.bidding 500 b_max 8192).0;
        per_adv_regret_v150 = per_advertiser advs reg150;
        regret_v150_newton =
            batch_mean (regret_metrics_mdn_newton is_nan rows fixed_v b_max 8192).0;
        regret_vbid_newton =
            batch_mean (regret_metrics_mdn_newton is_nan rows Value.bidding b_max 8192).0;
      }
