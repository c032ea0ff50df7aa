-- ===== src/Evaluate/Calibration.antt =====
-- The calibration metrics of rtb-bid-model/src/evaluate.py, on the rows of `Evaluate`. `.long()`,
-- which cuts off towards 0, is torch's, and is an argument.
pub mod Bounds
use ads_bidding_optimizer.Prelude.{
  ℕ, zero, suc, ◌+◌, ◌-◌, min, Option, none, some, List, [], ◌∷◌, map, length, get_or,
  if◌then◌else◌,
}
use ads_bidding_optimizer.Prelude.Int.{ℤ, pos_part}
use ads_bidding_optimizer.Float.{Float, ◌⊖◌, ◌⊘◌, ◌≤?◌, ◌<?◌, nought}
use ads_bidding_optimizer.Arrays.{Arrays}
use ads_bidding_optimizer.Optimizer.{mixture_cdf}
use ads_bidding_optimizer.Evaluate.{BinsRow, MdnRow}

module _ {ℓ} {W : Type ℓ} ⦃f : Float W⦄ where
  -- `x.max()` of an array; for no entries numpy raises
  unfoldable pub largest : W → List W → W
  largest m [] = m
  largest m (x ∷ xs) = largest (if m <? x then x else m) xs

  abbrev pub array_max : List W → Option W
  array_max [] = none
  array_max (x ∷ xs) = some (largest x xs)

  -- `cdf_emp - s` for the sorted values from position `i` on, and `s - arange(0, n) / n`
  unfoldable pub gaps_plus : ℕ → ℕ → List W → List W
  gaps_plus n i [] = []
  gaps_plus n i (x ∷ xs) = (f.of_ℕ (i + 1) ⊘ f.of_ℕ n ⊖ x) ∷ gaps_plus n (i + 1) xs

  unfoldable pub gaps_minus : ℕ → ℕ → List W → List W
  gaps_minus n i [] = []
  gaps_minus n i (x ∷ xs) = (x ⊖ f.of_ℕ i ⊘ f.of_ℕ n) ∷ gaps_minus n (i + 1) xs

  abbrev pub greater_of : Option W → Option W → Option W
  greater_of none d = none
  greater_of (some d) none = none
  greater_of (some d) (some e) = some (if d <? e then e else d)

  -- the number of values at most `t`
  unfoldable pub count_at_most : W → List W → ℕ
  count_at_most t [] = 0
  count_at_most t (x ∷ xs) = let rest = count_at_most t xs in if x ≤? t then suc rest else rest

  -- `(pit <= p / 100.0).mean()`
  unfoldable pub coverage : List W → W → W
  coverage pit p = f.of_ℕ (count_at_most (p ⊘ f.of_ℕ 100) pit) ⊘ f.of_ℕ (length pit)

  unfoldable pub coverage_table : List W → List W → List (W × W)
  coverage_table pit pcts = map (λ p. (p, coverage pit p)) pcts

module _ {ℓ} {W : Type ℓ} ⦃f : Float W⦄ ⦃a : Arrays W⦄ where
  unfoldable pub pit_mdn : MdnRow W → W
  pit_mdn r = mixture_cdf r.pi_logits r.mu r.sigma r.log_pp

  unfoldable pub pit_bins : (W → ℤ) → BinsRow W → W
  pit_bins long r =
      get_or (a.cumsum r.probs) (min (pos_part (long r.pp)) (length r.probs - 1)) nought

  unfoldable pub compute_pit_mdn : List (MdnRow W) → List W
  compute_pit_mdn rows = map pit_mdn rows

  unfoldable pub compute_pit_bins : (W → ℤ) → List (BinsRow W) → List W
  compute_pit_bins long rows = map (pit_bins long) rows

  unfoldable pub ks_statistic : List W → Option W
  ks_statistic pit =
      let s = a.sort pit in
      greater_of (array_max (gaps_plus (length pit) 0 s)) (array_max (gaps_minus (length pit) 0 s))
