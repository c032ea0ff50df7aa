-- ===== src/Isotonic/Bids.antt =====
-- A theorem on the calibrated predictions of rtb-bid-model/src/experiments/calibrate.py.
use ads_bidding_optimizer.Prelude.{
  ◌<◌, ◌≡◌, refl, ap, ◌∙◌, some, List, [], ◌∷◌, map, length, All, length-map, arith,
}
use ads_bidding_optimizer.Float.{Float, ◌≼◌, IsOrdered, IsRounded}
use ads_bidding_optimizer.Arrays.{Arrays, IsDocumented}
use ads_bidding_optimizer.Optimizer.{grid_optimize_bins}
use ads_bidding_optimizer.Optimizer.Affordable.{best_bid-le-value}
use ads_bidding_optimizer.Edges.Rising.{Rising}
use ads_bidding_optimizer.Ensemble.{running_max}
use ads_bidding_optimizer.Ensemble.Lengths.{
  length-running_max, length-differences, length-normalise,
}
use ads_bidding_optimizer.Ensemble.Mass.{IsNonneg, HasMass, clamped-IsNonneg, normalise-IsNonneg}
use ads_bidding_optimizer.Lgbm.{clip_01, monotone}
use ads_bidding_optimizer.Lgbm.Bounds.{InUnit, monotone-bounds}
use ads_bidding_optimizer.Isotonic.{
  Prediction, with_probs, recalibrated, fit_pit_calibrator, calibrate, apply_iso_to_cdf,
  calibrated_masses, calibrated_cdf, calibrated_probs,
}

module _ {ℓ} {W : Type ℓ} ⦃f : Float W⦄ where
  map-after : (g h : W → W) (xs : List W) → map (λ x. g (h x)) xs ≡ map g (map h xs)
  map-after g h [] = refl
  map-after g h (x ∷ xs) = ap (λ t. g (h x) ∷ t) (map-after g h xs)

module _ {ℓ} {W : Type ℓ} ⦃f : Float W⦄ ⦃a : Arrays W⦄ (ordered : IsOrdered W)
    (rounded : IsRounded W) (documented : IsDocumented W) where
  cdf-eq-monotone :
      (iso : W → W) (probs : List W)
      → calibrated_cdf iso probs ≡ monotone (map iso (a.cumsum probs))
  unfolding calibrated_cdf apply_iso_to_cdf monotone
  cdf-eq-monotone iso probs = ap running_max (map-after clip_01 iso (a.cumsum probs))

  length-calibrated_probs :
      (iso : W → W) (probs : List W) → length (calibrated_probs iso probs) ≡ length probs
  unfolding calibrated_probs calibrated_masses calibrated_cdf apply_iso_to_cdf
  length-calibrated_probs iso probs =
      length-normalise _
      ∙ length-map _ _
      ∙ length-differences _
      ∙ omega (
        arith,
        length-running_max (map (λ x. clip_01 (iso x)) (a.cumsum probs)),
        length-map (a.cumsum probs) (λ x. clip_01 (iso x)),
        documented.length-cumsum probs,
      )

  -- What holds of the probabilities that a row had and those that it is saved with.
  pub record IsCalibrated (iso : W → W) (V : W) (old new : List W) : Type 0 where
    pub rises : Rising (calibrated_cdf iso old)
    pub in_unit : InUnit (calibrated_cdf iso old)
    pub length_kept : length new ≡ length old
    pub nonneg : IsNonneg new
    pub affordable : (grid_optimize_bins new V).best_bid ≼ V

  calibrated_probs-IsCalibrated :
      (iso : W → W) (V : W) (probs : List W)
      → HasMass (calibrated_masses (calibrated_cdf iso probs))
      → 0 < length probs
      → f.of_ℕ 0 ≼ V
      → IsCalibrated iso V probs (calibrated_probs iso probs)
  unfolding calibrated_probs
  calibrated_probs-IsCalibrated iso V probs mass h v =
      let bounds = monotone-bounds ordered rounded (map iso (a.cumsum probs)) in
      let len = length-calibrated_probs iso probs in
      let new_nonneg : IsNonneg (calibrated_probs iso probs) =
        normalise-IsNonneg ordered rounded (calibrated_masses (calibrated_cdf iso probs)) mass
          (unfold calibrated_masses in clamped-IsNonneg ordered rounded 10 _) in
      record {
        rises = rw (cdf-eq-monotone iso probs) bounds.0;
        in_unit = rw (cdf-eq-monotone iso probs) bounds.1;
        length_kept = len;
        nonneg = new_nonneg;
        affordable =
            best_bid-le-value ordered rounded documented (calibrated_probs iso probs) V new_nonneg
              (omega (arith, len, h)) v;
      }

  -- The saved rows beside those of the file: the probabilities are calibrated, and the prices and
  -- bids are kept.
  pub AreCalibrated : (iso : W → W) (V : W) (rows rows' : List (Prediction (List W) W)) → Type ℓ
  AreCalibrated iso V [] rows' = rows' ≡ []
  AreCalibrated iso V (r ∷ rows) [] = ◌≡◌ {A = List (Prediction (List W) W)} (r ∷ rows) []
  AreCalibrated iso V (r ∷ rows) (r' ∷ rows') =
      IsCalibrated iso V r.preds r'.preds
      × (r'.pp ≡ r.pp)
      × (r'.bid ≡ r.bid)
      × AreCalibrated iso V rows rows'

  rows-AreCalibrated :
      (iso : W → W) (V : W) (rows : List (Prediction (List W) W))
      → All
          (λ r. HasMass (calibrated_masses (calibrated_cdf iso r.preds)) × (0 < length r.preds))
          rows
      → f.of_ℕ 0 ≼ V
      → AreCalibrated iso V rows (map (recalibrated iso) rows)
  unfolding AreCalibrated
  rows-AreCalibrated iso V [] h v = refl
  rows-AreCalibrated iso V (r ∷ rows) h v = (
    calibrated_probs-IsCalibrated iso V r.preds (h.0).0 (h.0).1 v,
    refl,
    refl,
    rows-AreCalibrated iso V rows h.1 v,
  )

  -- Whatever map the fit gives: if the steps of no row's calibrated CDF sum to 0 and no row is
  -- empty, the probabilities of a bins model are all saved calibrated. The calibrated CDF of a row
  -- never falls and is between 0 and 1; there is one probability for each bin, none of them negative,
  -- and for a value of at least 0 the bid that the grid search chooses by them is at most the value.
  pub calibrate-AreCalibrated :
      (fit : List W → List W → W → W) (val_pit : List W) (V : W)
      (rows : List (Prediction (List W) W))
      → All
          (λ r.
            HasMass (calibrated_masses (calibrated_cdf (fit_pit_calibrator fit val_pit) r.preds))
            × (0 < length r.preds))
          rows
      → f.of_ℕ 0 ≼ V
      → (saved : List (Prediction (List W) W)) × (calibrate fit val_pit (with_probs rows)
          ≡ some saved)
        × AreCalibrated (fit_pit_calibrator fit val_pit) V rows saved
  unfolding calibrate
  calibrate-AreCalibrated fit val_pit V rows h v =
      (_, refl, rows-AreCalibrated (fit_pit_calibrator fit val_pit) V rows h v)
