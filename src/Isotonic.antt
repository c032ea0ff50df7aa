-- ===== src/Isotonic.antt =====
-- rtb-bid-model/src/experiments/calibrate.py: predictions that are calibrated by a map of their CDFs,
-- fitted to the PIT values of the validation rows. The fit of scikit-learn's IsotonicRegression is an
-- argument, which takes the values and their targets to a map.
pub mod Bids
use ads_bidding_optimizer.Prelude.{ℕ, Option, none, some, List, [], ◌∷◌, map, length, if◌then◌else◌}
use ads_bidding_optimizer.Float.{Float, ◌⊖◌, ◌⊘◌, ◌<?◌, nought, clamp_min}
use ads_bidding_optimizer.Arrays.{Arrays, range_from}
use ads_bidding_optimizer.Dict.{Text}
use ads_bidding_optimizer.Evaluate.Calibration.{gaps_plus, gaps_minus, array_max, greater_of}
use ads_bidding_optimizer.Ensemble.{running_max, differences, normalise}
use ads_bidding_optimizer.Lgbm.{clip_01}

-- a row of the file of predictions, with the probabilities of a bins model or the parameters of a
-- mixture model; `adv` may be missing
pub record Prediction {ℓ} (P W : Type ℓ) : Type ℓ where
  pub preds : P
  pub pp : W
  pub bid : W
  pub log_pp : W
  pub adv : Option Text

-- the file of predictions for the test rows
pub data TestFile {ℓ} (W : Type ℓ) : Type ℓ where
  with_probs : List (Prediction (List W) W) → TestFile W
  with_mixtures : List (Prediction (List W × List W × List W) W) → TestFile W

module _ {ℓ} {W : Type ℓ} ⦃f : Float W⦄ ⦃a : Arrays W⦄ where
  -- `np.arange(1, n + 1) / n`
  unfoldable pub ranks : ℕ → List W
  ranks n = map (λ k. k ⊘ f.of_ℕ n) (range_from 1 n)

  unfoldable pub fit_pit_calibrator : (List W → List W → W → W) → List W → W → W
  fit_pit_calibrator fit val_pit = fit (a.sort val_pit) (ranks (length val_pit))

  -- a row of `cdf_cal`
  unfoldable pub apply_iso_to_cdf : (W → W) → List W → List W
  apply_iso_to_cdf iso cdf = running_max (map (λ x. clip_01 (iso x)) cdf)

  -- the steps of a row of `cdf_cal`, and `probs_cal`
  unfoldable pub calibrated_masses : List W → List W
  calibrated_masses cdf_cal = map (clamp_min (f.lit 1 10)) (differences (nought ∷ cdf_cal))

  unfoldable pub calibrated_cdf : (W → W) → List W → List W
  calibrated_cdf iso probs = apply_iso_to_cdf iso (a.cumsum probs)

  unfoldable pub calibrated_probs : (W → W) → List W → List W
  calibrated_probs iso probs = normalise (calibrated_masses (calibrated_cdf iso probs))

  abbrev pub magnitude : W → W
  magnitude x = if x <? nought then nought ⊖ x else x

  -- `ks_after`, which the program prints
  unfoldable pub ks_after : (W → W) → List W → Option W
  ks_after iso val_pit =
      let s = a.sort (map iso val_pit) in
      let n = length val_pit in
      greater_of (array_max (map magnitude (gaps_plus n 0 s)))
        (array_max (map magnitude (gaps_minus n 0 s)))

  -- `out`, for one row
  abbrev pub recalibrated : (W → W) → Prediction (List W) W → Prediction (List W) W
  recalibrated iso r = record r { preds = calibrated_probs iso r.preds }

  -- the saved rows; for a mixture model the program imports a function of ensemble.py that is not
  -- there, and raises
  unfoldable pub calibrate :
      (List W → List W → W → W) → List W → TestFile W → Option (List (Prediction (List W) W))
  calibrate fit val_pit (with_mixtures rows) = none
  calibrate fit val_pit (with_probs rows) =
      let iso = fit_pit_calibrator fit val_pit in some (map (recalibrated iso) rows)
