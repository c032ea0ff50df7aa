-- ===== src/Ensemble.antt =====
-- rtb-bid-model/src/experiments/ensemble.py: the probabilities of an ensemble's members over the
-- price bins, and their weighted average, for one row of a chunk. Loading the predictions is not
-- modelled: a member is what one row of its predictions holds.
pub mod Metrics
pub mod Lengths
pub mod Mass
pub mod Counts
pub mod Budgets
pub mod Spend
use ads_bidding_optimizer.Prelude.{
  ℕ, ◌+◌, ◌-◌, min, max, Option, none, some, List, [], ◌∷◌, ◌++◌, map, length, take, replicate,
  get_or, zip_with, leb, if◌then◌else◌,
}
use ads_bidding_optimizer.Float.{
  Float, ◌⊕◌, ◌⊖◌, ◌⊗◌, ◌⊘◌, ◌≤?◌, ◌<?◌, nought, unit, clamp_min, clamp_max,
}
use ads_bidding_optimizer.Arrays.{Arrays, arange}
use ads_bidding_optimizer.Edges.{set_first}
use ads_bidding_optimizer.Evaluate.Calibration.{count_at_most}

pub data Member {ℓ} (W : Type ℓ) : Type ℓ where
  mdn : List W → List W → List W → Member W
  bins : List W → Member W
  lgbm : List W → List W → Member W

module _ {ℓ} {W : Type ℓ} ⦃f : Float W⦄ where
  -- `np.maximum.accumulate` after the greatest value `m` so far
  unfoldable pub accumulate_max : W → List W → List W
  accumulate_max m [] = []
  accumulate_max m (x ∷ xs) = let n = if m <? x then x else m in n ∷ accumulate_max n xs

  unfoldable pub running_max : List W → List W
  running_max [] = []
  running_max (x ∷ xs) = x ∷ accumulate_max x xs

  -- `np.diff`
  unfoldable pub differences : List W → List W
  differences [] = []
  differences (x ∷ []) = []
  differences (x ∷ y ∷ ys) = (y ⊖ x) ∷ differences (y ∷ ys)

  -- the edges of the cells: 0, 0.5, 1.5, …
  unfoldable pub boundaries : ℕ → List W
  boundaries num_bins = set_first nought (map (λ x. x ⊖ f.lit 5 1) (arange (num_bins + 1)))

  -- the CDF at one boundary, between the quantiles around it
  unfoldable pub quantile_cdf_at : List W → List W → W → W
  quantile_cdf_at quants alphas boundary =
      let afull = nought ∷ alphas ++ unit ∷ [] in
      let qfull = (nought ⊖ f.lit 1000000000 0) ∷ quants ++ f.lit 1000000000 0 ∷ [] in
      let idx = min (max (count_at_most boundary qfull) 1) (length quants + 1) in
      let left_q = get_or qfull (idx - 1) nought in
      let right_q = get_or qfull idx nought in
      let left_a = get_or afull (idx - 1) nought in
      let right_a = get_or afull idx nought in
      let denom = if right_q ⊖ left_q ≤? nought then unit else right_q ⊖ left_q in
      let frac = clamp_max unit (clamp_min nought ((boundary ⊖ left_q) ⊘ denom)) in
      left_a ⊕ frac ⊗ (right_a ⊖ left_a)

  unfoldable pub quantile_cdf : List W → List W → ℕ → List W
  quantile_cdf quants alphas num_bins = running_max (
      map (λ b. clamp_max unit (clamp_min nought (quantile_cdf_at quants alphas b)))
        (boundaries num_bins))

  -- `quantile_chunk_probs` before the division by the sum
  unfoldable pub quantile_masses : List W → List W → ℕ → List W
  quantile_masses quants alphas num_bins =
      map (clamp_min (f.lit 1 9)) (differences (quantile_cdf quants alphas num_bins))

  -- the bins of a member, cut off or filled up with zeros
  unfoldable pub bins_masses : List W → ℕ → List W
  bins_masses probs num_bins =
      if leb num_bins (length probs)
      then take num_bins probs
      else probs ++ replicate (num_bins - length probs) nought

module _ {ℓ} {W : Type ℓ} ⦃f : Float W⦄ ⦃a : Arrays W⦄ where
  -- the logarithms of the upper and the lower ends of the cells
  unfoldable pub log_upper : ℕ → List W
  log_upper num_bins = map (λ x. a.log (clamp_min (f.lit 1 3) (x ⊕ f.lit 5 1))) (arange num_bins)

  unfoldable pub log_lower : ℕ → List W
  log_lower num_bins =
      let lower = nought ∷ map (λ x. x ⊕ f.lit 5 1) (arange (num_bins - 1)) in
      set_first (nought ⊖ f.lit 1000000000 0) (map (λ x. a.log (clamp_min (f.lit 1 3) x)) lower)

  unfoldable pub cell_terms : List W → List W → List W → W → List W
  cell_terms (p ∷ ps) (m ∷ ms) (s ∷ ss) x =
      p ⊗ f.lit 5 1 ⊗ (unit ⊕ a.erf ((x ⊖ m) ⊘ (s ⊗ a.sqrt (f.lit 2 0)))) ∷ cell_terms ps ms ss x
  cell_terms _ _ _ x = []

  -- `mdn_chunk_probs` before the division by the sum
  unfoldable pub mdn_masses : List W → List W → List W → ℕ → List W
  mdn_masses pi_logits mu sigma num_bins =
      let cdf = λ (x : W). a.sum (cell_terms (a.softmax pi_logits) mu sigma x) in
      zip_with (λ up lo. clamp_min (f.lit 1 10) (cdf up ⊖ cdf lo)) (log_upper num_bins)
        (log_lower num_bins)

  -- `p / p.sum()`
  unfoldable pub normalise : List W → List W
  normalise p = map (λ x. x ⊘ a.sum p) p

  unfoldable pub member_masses : ℕ → Member W → List W
  member_masses num_bins (mdn pi_logits mu sigma) = mdn_masses pi_logits mu sigma num_bins
  member_masses num_bins (bins probs) = bins_masses probs num_bins
  member_masses num_bins (lgbm quants alphas) = quantile_masses quants alphas num_bins

  unfoldable pub member_probs : ℕ → Member W → List W
  member_probs num_bins m = normalise (member_masses num_bins m)

  -- `ws`: equal weights, or those given, divided by their sum
  unfoldable pub member_weights : ℕ → Option (List W) → List W
  member_weights count none = replicate count (unit ⊘ f.of_ℕ count)
  member_weights count (some weights) = normalise weights

  -- `avg + ws[mi] * p` for the members after the first; `none` where there is no such weight
  unfoldable pub add_members : List W → List W → List (List W) → Option (List W)
  add_members avg ws [] = some avg
  add_members avg [] (p ∷ ps) = none
  add_members avg (w ∷ ws) (p ∷ ps) = add_members (zip_with (λ x y. x ⊕ w ⊗ y) avg p) ws ps

  -- no member at all leaves `avg` at None, and the next line raises
  unfoldable pub weighted_sum : List W → List (List W) → Option (List W)
  weighted_sum ws [] = none
  weighted_sum [] (p ∷ ps) = none
  weighted_sum (w ∷ ws) (p ∷ ps) = add_members (map (λ x. w ⊗ x) p) ws ps

  unfoldable pub average : ℕ → List W → List (Member W) → Option (List W)
  average num_bins ws members = elim (weighted_sum ws (map (member_probs num_bins) members)) [
    | none ↦ none
    | some avg ↦ some (normalise avg)
  ]
