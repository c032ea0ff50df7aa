-- ===== src/Optimizer/Newton.antt =====
-- `newton_optimize_mdn` and `newton_optimize_bins` of rtb-bid-model/src/bid_optimizer.py, for one
-- row: damped Newton steps from several starts, of which the one with the greatest profit is kept.
-- `floor` of a value that is not negative and `isnan` are torch's, and are arguments.
pub mod Bounds
use ads_bidding_optimizer.Prelude.{
  ℕ, zero, suc, ◌+◌, ◌-◌, min, Bool, Option, none, some, List, [], ◌∷◌, map, length, get_or,
  if◌then◌else◌,
}
use ads_bidding_optimizer.Float.{
  Float, ◌⊕◌, ◌⊖◌, ◌⊗◌, ◌⊘◌, ◌<?◌, nought, unit, clamp_min, clamp_max,
}
use ads_bidding_optimizer.Arrays.{Arrays}
use ads_bidding_optimizer.Dict.{or_default}
use ads_bidding_optimizer.Optimizer.{mixture_cdf, unless_loss}

-- what the two searches do not share: the bounds that a step starts and ends with, the CDF with its
-- derivative, and the bid at which the profit of a start is taken
pub record Search {ℓ} (W : Type ℓ) : Type ℓ where
  pub value : W
  pub enter_min : W
  pub leave_min : W
  pub b_max : W
  pub cdf_pdf : W → W × W
  pub read_at : W → W
  pub is_nan : W → Bool

module _ {ℓ} {W : Type ℓ} ⦃f : Float W⦄ where
  abbrev pub clamp : W → W → W → W
  clamp lo hi x = clamp_max hi (clamp_min lo x)

  -- the body of the loop over `n_iters`
  unfoldable pub newton_step : Search W → W → W
  newton_step s b =
      let b' = clamp s.enter_min s.b_max b in
      let (cdf_v, pdf_v) = s.cdf_pdf b' in
      let new_b = s.value ⊖ cdf_v ⊘ clamp_min (f.lit 1 9) pdf_v in
      let damped = f.lit 5 1 ⊗ b' ⊕ f.lit 5 1 ⊗ new_b in
      clamp s.leave_min s.b_max (if s.is_nan damped then f.lit 5 1 else damped)

  unfoldable pub newton_steps : Search W → ℕ → W → W
  newton_steps s zero b = b
  newton_steps s (suc n) b = newton_steps s n (newton_step s b)

  -- the bid that a start ends with, at most the value, and its profit
  unfoldable pub converged : Search W → ℕ → W → W
  converged s n_iters b = let b' = newton_steps s n_iters b in if s.value <? b' then s.value else b'

  unfoldable pub profit_at : Search W → W → W
  profit_at s b = (s.value ⊖ b) ⊗ (s.cdf_pdf (s.read_at b)).0

  -- the loop over the starts, from the best bid and profit so far
  unfoldable pub newton_from : Search W → ℕ → List W → W → W → W × W
  newton_from s n_iters [] best_b best_p = (best_b, best_p)
  newton_from s n_iters (frac ∷ starts) best_b best_p =
      let b = converged s n_iters (clamp_min (f.lit 5 1) (s.value ⊗ frac)) in
      let profit = profit_at s b in
      newton_from s n_iters starts (if best_p <? profit then b else best_b)
        (if best_p <? profit then profit else best_p)

  -- `-1e18`
  abbrev pub worst : W
  worst = nought ⊖ f.lit 1000000000000000000 0

  -- the best bid and its profit, or no bid where that is a loss
  unfoldable pub newton_search : Search W → ℕ → List W → W × W
  newton_search s n_iters starts =
      let (best_b, best_p) = newton_from s n_iters starts nought worst in
      (unless_loss best_p best_b, unless_loss best_p best_p)

module _ {ℓ} {W : Type ℓ} ⦃f : Float W⦄ ⦃a : Arrays W⦄ where
  -- the density of the mixture in log space, the sum of pi_k·exp(-zz²/2) / (sigma_k·sqrt(2·pi))
  unfoldable pub density_terms : List W → List W → List W → W → List W
  density_terms (p ∷ ps) (m ∷ ms) (s ∷ ss) x =
      let zz = (x ⊖ m) ⊘ s in
      p ⊗ (a.exp ((nought ⊖ f.lit 5 1) ⊗ zz ⊗ zz) ⊘ (s ⊗ a.sqrt (f.lit 2 0 ⊗ a.pi)))
      ∷ density_terms ps ms ss x
  density_terms _ _ _ x = []

  -- `cdf_pdf` of the mixture
  unfoldable pub mdn_cdf_pdf : List W → List W → List W → W → W × W
  mdn_cdf_pdf pi_logits mu sigma b =
      let log_b = a.log (clamp_min (f.lit 1 6) b) in
      let pdf_log = a.sum (density_terms (a.softmax pi_logits) mu sigma log_b) in
      (mixture_cdf pi_logits mu sigma log_b, pdf_log ⊘ clamp_min (f.lit 1 6) b)

  -- `cdf_pdf` of the bins: the CDF between two bins, and its slope
  unfoldable pub bins_cdf_pdf : (W → ℕ) → List W → W → W → W × W
  bins_cdf_pdf floor cdf_full b_max b =
      let last = length cdf_full - 1 in
      let b_c = clamp nought b_max b in
      let lo = min (floor b_c) last in
      let hi = min (lo + 1) last in
      let frac = clamp nought unit (b_c ⊖ f.of_ℕ lo) in
      let cdf_lo = get_or cdf_full lo nought in
      let cdf_hi = get_or cdf_full hi nought in
      (cdf_lo ⊕ frac ⊗ (cdf_hi ⊖ cdf_lo), clamp_min (f.lit 1 9) (cdf_hi ⊖ cdf_lo))

  unfoldable pub mdn_search : (W → Bool) → List W → List W → List W → W → W → Search W
  mdn_search is_nan pi_logits mu sigma V b_max = record {
    value = clamp_min unit V;
    enter_min = f.lit 1 3;
    leave_min = f.lit 5 1;
    b_max = b_max;
    cdf_pdf = mdn_cdf_pdf pi_logits mu sigma;
    read_at = clamp_min (f.lit 1 3);
    is_nan = is_nan;
  }

  unfoldable pub bins_search : (W → Bool) → (W → ℕ) → List W → W → Option W → Search W
  bins_search is_nan floor probs V b_max =
      let limit = or_default (f.of_ℕ (length probs - 1)) b_max in
      record {
        value = clamp_min unit V;
        enter_min = nought;
        leave_min = nought;
        b_max = limit;
        cdf_pdf = bins_cdf_pdf floor (a.cumsum probs) limit;
        read_at = λ b. b;
        is_nan = is_nan;
      }

  -- `torch.linspace(0.05, 0.95, n_starts)`
  abbrev pub starts_frac : ℕ → List W
  starts_frac n_starts = a.linspace (f.lit 5 2) (f.lit 95 2) n_starts

  unfoldable pub newton_optimize_mdn : (W → Bool) → List W → List W → List W → W → ℕ → ℕ → W → W × W
  newton_optimize_mdn is_nan pi_logits mu sigma V n_iters n_starts b_max =
      newton_search (mdn_search is_nan pi_logits mu sigma V b_max) n_iters (starts_frac n_starts)

  unfoldable pub newton_optimize_bins : (W → Bool) → (W → ℕ) → List W → W → ℕ → ℕ → Option W → W × W
  newton_optimize_bins is_nan floor probs V n_iters n_starts b_max =
      newton_search (bins_search is_nan floor probs V b_max) n_iters (starts_frac n_starts)
