-- ===== src/Evaluate/Saved/Inline.antt =====
-- The calibration and the regrets by advertiser that `main` of
-- rtb-bid-model/src/experiments/eval_preds.py computes in its own lines; compute_metrics of
-- eval_ckpts_batch.py beside it has the same lines for the PIT values and the KS statistic.
use ads_bidding_optimizer.Prelude.{
  ℕ, suc, ◌-◌, min, Bool, true, false, Option, none, some, List, [], ◌∷◌, map, length, get_or,
  zip_with,
}
use ads_bidding_optimizer.Prelude.Int.{ℤ, pos_part}
use ads_bidding_optimizer.Float.{Float, ◌⊕◌, ◌⊖◌, ◌⊗◌, ◌⊘◌, ◌≤?◌, nought, unit}
use ads_bidding_optimizer.Arrays.{Arrays, range_from, arange}
use ads_bidding_optimizer.Dict.{Dict, Text, text_beq}
use ads_bidding_optimizer.Loss.{batch_mean}
use ads_bidding_optimizer.Evaluate.{BinsRow, MdnRow}
use ads_bidding_optimizer.Evaluate.Calibration.{array_max, greater_of}
use ads_bidding_optimizer.Evaluate.Metrics.{distinct}

-- the true entries of a Boolean array
unfoldable pub count_true : List Bool → ℕ
count_true [] = 0
count_true (true ∷ bs) = suc (count_true bs)
count_true (false ∷ bs) = count_true bs

-- `arr[m]`
unfoldable pub masked {ℓ} : {A : Type ℓ} → List Bool → List A → List A
masked [] xs = []
masked (b ∷ m) [] = []
masked (true ∷ m) (x ∷ xs) = x ∷ masked m xs
masked (false ∷ m) (x ∷ xs) = masked m xs

-- `pcts`
abbrev pub saved_percentiles : List ℕ
saved_percentiles =
    5 ∷ 10 ∷ 15 ∷ 20 ∷ 25 ∷ 30 ∷ 35 ∷ 40 ∷ 45 ∷ 50 ∷ 55 ∷ 60 ∷ 65 ∷ 70 ∷ 75 ∷ 80 ∷ 85 ∷ 90 ∷ 95 ∷ []

module _ {ℓ} {W : Type ℓ} ⦃f : Float W⦄ ⦃a : Arrays W⦄ where
  -- `softmax(pi_logits) * 0.5 * (1.0 + erf(z))`, for a row
  unfoldable pub saved_terms : List W → List W → List W → W → List W
  saved_terms (p ∷ ps) (m ∷ ms) (s ∷ ss) log_t =
      let z = (log_t ⊖ m) ⊘ (s ⊗ a.sqrt (f.lit 2 0)) in
      (p ⊗ f.lit 5 1) ⊗ (unit ⊕ a.erf z) ∷ saved_terms ps ms ss log_t
  saved_terms _ _ _ log_t = []

  unfoldable pub saved_pit_mdn : MdnRow W → W
  saved_pit_mdn r = a.sum (saved_terms (a.softmax r.pi_logits) r.mu r.sigma r.log_pp)

  -- the CDF at `pp.long().clamp(0, n - 1)`
  unfoldable pub saved_pit_bins : (W → ℤ) → BinsRow W → W
  saved_pit_bins long r =
      let pp_int = min (pos_part (long r.pp)) (length r.probs - 1) in
      let cdf = a.cumsum r.probs in get_or cdf pp_int nought

  -- the greatest distances of the empirical CDF from the sorted values, above and below
  unfoldable pub saved_ks : List W → Option W
  saved_ks pit =
      let n = length pit in
      let s_ = a.sort pit in
      let cdf_emp = map (λ i. i ⊘ f.of_ℕ n) (range_from 1 n) in
      let d_plus = array_max (zip_with (λ x y. x ⊖ y) cdf_emp s_) in
      let below = map (λ i. i ⊘ f.of_ℕ n) (arange n) in
      let d_minus = array_max (zip_with (λ x y. x ⊖ y) s_ below) in greater_of d_plus d_minus

  -- `(pit <= p / 100.0).mean()`
  unfoldable pub saved_share : List W → ℕ → W
  saved_share pit p =
      let m = map (λ x. x ≤? f.of_ℕ p ⊘ f.of_ℕ 100) pit in f.of_ℕ (count_true m) ⊘ f.of_ℕ (length m)

  unfoldable pub saved_coverage : List W → List ℕ → List (W × W)
  saved_coverage pit [] = []
  saved_coverage pit (p ∷ pcts) = (f.of_ℕ p, saved_share pit p) ∷ saved_coverage pit pcts

  -- the loop over the names of the advertisers
  unfoldable pub per_adv_loop : List Text → List W → List Text → Dict Text W
  per_adv_loop adv reg150 [] = []
  per_adv_loop adv reg150 (b ∷ names) =
      let m = map (λ c. text_beq c b) adv in
      (b, batch_mean (masked m reg150)) ∷ per_adv_loop adv reg150 names

  unfoldable pub saved_per_adv : Option (List Text) → List W → Dict Text W
  saved_per_adv none reg150 = []
  saved_per_adv (some adv) reg150 = per_adv_loop adv reg150 (distinct adv)
