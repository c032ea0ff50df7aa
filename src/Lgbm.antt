-- ===== src/Lgbm.antt =====
-- The evaluation of the LightGBM quantile models: quantile_to_cdf_pdf, quantile_to_cdf_pdf_vec and
-- evaluate_lgbm of rtb-bid-model/src/experiments/evaluate_lgbm.py, and the evaluation in main of
-- lgbm_eval.py beside it, for the quantiles that the models predict. `np.searchsorted` and `np.round`
-- are arguments. `Ensemble.quantile_cdf_at` is the interpolation of the vectorized version, which four
-- scripts repeat.
pub mod Searched
pub mod Bounds
use ads_bidding_optimizer.Prelude.{
  ℕ, ◌+◌, ◌-◌, min, max, Option, List, [], ◌∷◌, ◌++◌, map, length, get_or, drop, if◌then◌else◌,
}
use ads_bidding_optimizer.Prelude.Int.{ℤ, pos_part}
use ads_bidding_optimizer.Float.{
  Float, ◌⊕◌, ◌⊖◌, ◌⊗◌, ◌⊘◌, ◌≤?◌, nought, unit, clamp_min, clamp_max,
}
use ads_bidding_optimizer.Arrays.{Arrays, arange}
use ads_bidding_optimizer.Dict.{Dict, Text}
use ads_bidding_optimizer.Optimizer.{masked_profits, regret}
use ads_bidding_optimizer.Loss.{batch_mean}
use ads_bidding_optimizer.Evaluate.{chunked}
use ads_bidding_optimizer.Evaluate.Calibration.{ks_statistic, coverage_table}
use ads_bidding_optimizer.Evaluate.Metrics.{per_advertiser}
use ads_bidding_optimizer.Ensemble.{
  running_max, differences, quantile_cdf_at, quantile_cdf, quantile_masses, normalise,
}

-- a row of the test set with its predicted quantiles
pub record Forecast {ℓ} (W : Type ℓ) : Type ℓ where
  pub quants : List W
  pub y : W
  pub bid : W
  pub adv : Text

-- a row with its CDF and its probabilities on the prices
pub record Scored {ℓ} (W : Type ℓ) : Type ℓ where
  pub cdf : List W
  pub pdf : List W
  pub y : W
  pub bid : W
  pub adv : Text

-- `res`
pub record LgbmResults {ℓ} (W : Type ℓ) : Type ℓ where
  pub anlp : W
  pub ks : Option W
  pub coverage : List (W × W)
  pub regret_v150_grid : W
  pub regret_vbid_grid : W
  pub per_adv_regret_v150 : Dict Text W

module _ {ℓ} {W : Type ℓ} ⦃f : Float W⦄ where
  -- `np.clip(x, 0.0, 1.0)`
  abbrev pub clip_01 : W → W
  clip_01 x = clamp_max unit (clamp_min nought x)

  -- `qfull`, for one row
  abbrev pub padded : List W → List W
  padded quants = (nought ⊖ f.lit 1000000000 0) ∷ quants ++ f.lit 1000000000 0 ∷ []

  -- the CDF at the price `p`, where the place among the quantiles is searched
  unfoldable pub searched_cdf_at : (List W → W → ℕ) → List W → List W → W → W
  searched_cdf_at searchsorted quants alphas p =
      let afull = nought ∷ alphas ++ unit ∷ [] in
      let qfull = padded quants in
      let idx = min (max (searchsorted qfull p) 1) (length quants + 1) in
      let left_q = get_or qfull (idx - 1) nought in
      let right_q = get_or qfull idx nought in
      let left_a = get_or afull (idx - 1) nought in
      let right_a = get_or afull idx nought in
      let denom = if right_q ⊖ left_q ≤? nought then unit else right_q ⊖ left_q in
      let frac = clip_01 ((p ⊖ left_q) ⊘ denom) in left_a ⊕ frac ⊗ (right_a ⊖ left_a)

  -- the CDF on the prices from its values there, and `np.diff(cdf, prepend=0).clip(1e-9)`
  unfoldable pub monotone : List W → List W
  monotone values = running_max (map clip_01 values)

  unfoldable pub steps_of : List W → List W
  steps_of cdf = map (clamp_min (f.lit 1 9)) (differences (nought ∷ cdf))

  -- `(cdf, pdf)` for each row
  unfoldable pub quantile_to_cdf_pdf :
      (List W → W → ℕ) → List (List W) → List W → List W → List (List W × List W)
  quantile_to_cdf_pdf searchsorted quants alphas prices_grid =
      map
        (λ row.
          let cdf = monotone (map (searched_cdf_at searchsorted row alphas) prices_grid) in
          (cdf, steps_of cdf))
        quants

  -- the values of the CDF are computed in chunks of 50000 rows
  unfoldable pub quantile_to_cdf_pdf_vec : List (List W) → List W → List W → List (List W × List W)
  quantile_to_cdf_pdf_vec quants alphas prices =
      let values =
        chunked (length quants) (map (λ row. map (quantile_cdf_at row alphas) prices)) 50000 0
          quants in
      map (λ v. let cdf = monotone v in (cdf, steps_of cdf)) values

  -- `np.clip(np.round(y), 0, num_bins - 1)`
  unfoldable pub price_index : (W → ℤ) → ℕ → W → ℕ
  price_index round num_bins y = min (pos_part (round y)) (num_bins - 1)

module _ {ℓ} {W : Type ℓ} ⦃f : Float W⦄ ⦃a : Arrays W⦄ where
  -- the price with the greatest expected profit, those above `V` left out
  unfoldable pub cdf_bid : W → List W → W
  cdf_bid V cdf =
      let bins_arr = arange (length cdf) in
      get_or bins_arr (a.argmax (masked_profits V bins_arr cdf)) nought

  unfoldable pub score_log_p : (W → ℤ) → ℕ → Scored W → W
  score_log_p round num_bins r =
      a.log (clamp_min (f.lit 1 30) (get_or r.pdf (price_index round num_bins r.y) nought))

  unfoldable pub score_pit : (W → ℤ) → ℕ → Scored W → W
  score_pit round num_bins r = get_or r.cdf (price_index round num_bins r.y) nought

  -- `perfect - realized` of a row
  unfoldable pub score_regret : W → Scored W → W
  score_regret V r = regret (cdf_bid V r.cdf) r.y V

  -- the numbers that both scripts compute from the CDF and the probabilities
  unfoldable pub score_results : (W → ℤ) → ℕ → List W → List (Scored W) → LgbmResults W
  score_results round num_bins pcts rows =
      let pit = map (score_pit round num_bins) rows in
      let reg150 = map (score_regret (f.lit 150 0)) rows in
      record {
        anlp = nought ⊖ batch_mean (map (score_log_p round num_bins) rows);
        ks = ks_statistic pit;
        coverage = coverage_table pit pcts;
        regret_v150_grid = batch_mean reg150;
        regret_vbid_grid = batch_mean (map (λ r. score_regret r.bid r) rows);
        per_adv_regret_v150 = per_advertiser (map (λ r. r.adv) rows) reg150;
      }

  -- a row beside its CDF and its probabilities
  unfoldable pub scored : List (Forecast W) → List (List W × List W) → List (Scored W)
  scored [] tables = []
  scored (r ∷ rows) [] = []
  scored (r ∷ rows) ((cdf, pdf) ∷ tables) =
      record { cdf = cdf; pdf = pdf; y = r.y; bid = r.bid; adv = r.adv } ∷ scored rows tables

  unfoldable pub evaluate_lgbm : (W → ℤ) → List W → List W → ℕ → List (Forecast W) → LgbmResults W
  evaluate_lgbm round pcts alphas num_bins rows =
      score_results round num_bins pcts
        (scored rows (quantile_to_cdf_pdf_vec (map (λ r. r.quants) rows) alphas (arange num_bins)))

  -- `cdf_int` and `pdf` of lgbm_eval.py for a row, from the CDF at the edges of the cells
  unfoldable pub edge_tables : List W → ℕ → List W → List W × List W
  edge_tables alphas num_bins quants = (
    drop 1 (quantile_cdf quants alphas num_bins),
    normalise (quantile_masses quants alphas num_bins),
  )

  -- the numbers of `main` of lgbm_eval.py; `np.sort` puts the quantiles of a row in order
  unfoldable pub lgbm_eval : (W → ℤ) → List W → List W → ℕ → List (Forecast W) → LgbmResults W
  lgbm_eval round pcts alphas num_bins rows =
      let quants = map (λ r. a.sort r.quants) rows in
      score_results round num_bins pcts
        (scored rows (chunked (length rows) (map (edge_tables alphas num_bins)) 30000 0 quants))
