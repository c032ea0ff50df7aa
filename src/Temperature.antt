-- ===== src/Temperature.antt =====
-- rtb-bid-model/src/experiments/calibrate_temp.py: the temperature with the least likelihood loss on
-- the validation rows, and the predictions at it.
pub mod Least
use ads_bidding_optimizer.Prelude.{
  ℕ, Bool, true, Option, none, some, List, [], ◌∷◌, map, length, get_or, zip_with, if◌then◌else◌,
}
use ads_bidding_optimizer.Float.{Float, ◌⊕◌, ◌⊖◌, ◌⊗◌, ◌⊘◌, ◌<?◌, nought, unit}
use ads_bidding_optimizer.Arrays.{Arrays}
use ads_bidding_optimizer.Loss.{component_logs, batch_mean, Target}

-- `best_t` and `best_nll`, of which the latter is infinite at first
pub record Search {ℓ} (W : Type ℓ) : Type ℓ where
  pub best_t : W
  pub best_nll : Option W

-- a row of logits with its true bin
pub record Labelled {ℓ} (W : Type ℓ) : Type ℓ where
  pub logits : List W
  pub pp_int : ℕ

-- the validation rows of the two kinds of model
pub data Validation {ℓ} (W : Type ℓ) : Type ℓ where
  mixtures : List (Target W) → Validation W
  labelled : List (Labelled W) → Validation W

module _ {ℓ} {W : Type ℓ} ⦃f : Float W⦄ where
  -- `nll < best_nll`
  unfoldable pub below : W → Option W → Bool
  below nll none = true
  below nll (some best) = nll <? best

  unfoldable pub try_temperature : (W → W) → W → Search W → Search W
  try_temperature nll_at t s =
      if below (nll_at t) s.best_nll then record { best_t = t; best_nll = some (nll_at t) } else s

  unfoldable pub search_temperatures : (W → W) → List W → Search W → Search W
  search_temperatures nll_at [] s = s
  search_temperatures nll_at (t ∷ ts) s = search_temperatures nll_at ts (try_temperature nll_at t s)

module _ {ℓ} {W : Type ℓ} ⦃f : Float W⦄ ⦃a : Arrays W⦄ where
  -- the log probability of a mixture's row, its weights and widths rescaled by `t`
  unfoldable pub scaled_log_prob : W → Target W → W
  scaled_log_prob t r =
      let log_pi = a.log_softmax (map (λ x. x ⊘ t) r.pi_logits) in
      let sg_t = map (λ s. s ⊗ a.sqrt t) r.sigma in
      a.logsumexp (zip_with (λ x y. x ⊕ y) log_pi (component_logs r.mu sg_t r.target))

  unfoldable pub nll_at : Validation W → W → W
  nll_at (Validation.mixtures rows) t = nought ⊖ batch_mean (map (scaled_log_prob t) rows)
  nll_at (Validation.labelled rows) t =
      nought
      ⊖ batch_mean
          (map (λ r. get_or (a.log_softmax (map (λ x. x ⊘ t) r.logits)) r.pp_int nought) rows)

  -- `np.linspace(0.5, 3.0, 26)`, from T = 1
  unfoldable pub find_temperature : Validation W → Search W
  find_temperature rows =
      search_temperatures (nll_at rows) (a.linspace (f.lit 5 1) (f.lit 3 0) 26)
        (record { best_t = unit; best_nll = none })

  -- the saved predictions of a mixture's row at the temperature, and those of the bins
  unfoldable pub calibrated_mixture : W → Target W → Target W
  calibrated_mixture t r = record r {
    pi_logits = map (λ x. x ⊘ t) r.pi_logits;
    sigma = map (λ s. s ⊗ a.sqrt t) r.sigma;
  }

  unfoldable pub calibrated_bins : W → List W → List W
  calibrated_bins t logits = a.softmax (map (λ x. x ⊘ t) logits)
