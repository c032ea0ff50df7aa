-- ===== src/Evaluate/Calibration/Bounds.antt =====
-- Theorems on the calibration metrics of rtb-bid-model/src/evaluate.py.
use ads_bidding_optimizer.Prelude.{
  ◌≤◌, ◌≡◌, refl, some, List, [], ◌∷◌, length, All, Bool-cases, inl, inr, if◌then◌else◌, arith,
}
use ads_bidding_optimizer.Prelude.Int.{ℤ}
use ads_bidding_optimizer.Float.{Float, ◌⊖◌, ◌⊘◌, ◌<?◌, ◌≼◌, nought, IsOrdered}
use ads_bidding_optimizer.Arrays.{Arrays, IsDocumented, get_or-All}
use ads_bidding_optimizer.Optimizer.Grid.{le_of_not_lt, le_of_lt}
use ads_bidding_optimizer.Evaluate.{BinsRow}
use ads_bidding_optimizer.Evaluate.Calibration.{
  largest, gaps_plus, gaps_minus, count_at_most, pit_bins, compute_pit_bins, ks_statistic,
}

module _ {ℓ} {W : Type ℓ} ⦃f : Float W⦄ (ordered : IsOrdered W) where
  open ordered use {le_refl, le_trans}

  larger : (m x : W) → let n = if m <? x then x else m in (m ≼ n) × (x ≼ n)
  larger m x = elim (Bool-cases (m <? x)) [
    | inl more ↦ rw more (le_of_lt ordered m x more, le_refl x)
    | inr less ↦ rw less (le_refl m, le_of_not_lt ordered m x less)
  ]

  le-largest : (m : W) (xs : List W) → (m ≼ largest m xs) × All (λ x. x ≼ largest m xs) xs
  unfolding largest
  le-largest m [] = (le_refl m, tt)
  le-largest m (x ∷ xs) =
      let step = larger m x in
      let ih = le-largest (if m <? x then x else m) xs in
      (le_trans m _ _ step.0 ih.0, (le_trans x _ _ step.1 ih.0, ih.1))

  All-le : (x y : W) (xs : List W) → x ≼ y → All (λ e. e ≼ x) xs → All (λ e. e ≼ y) xs
  All-le x y [] h hs = tt
  All-le x y (e ∷ xs) h hs = (le_trans e x y hs.0 h, All-le x y xs h hs.1)

  count_mono : (t u : W) (pit : List W) → t ≼ u → count_at_most t pit ≤ count_at_most u pit
  unfolding count_at_most
  count_mono t u [] h = omega arith
  count_mono t u (x ∷ xs) h = ground (arith, count_mono t u xs h, le_trans x t u)

  counted : (u : W) (pit : List W) → count_at_most u pit ≤ length pit
  unfolding count_at_most
  counted u [] = omega arith
  counted u (x ∷ xs) = ground (arith, counted u xs)

  -- The number of PIT values at or below a threshold never falls when the threshold grows, and is
  -- at most the number of values.
  pub count_at_most-bounds :
      (t u : W) (pit : List W)
      → t ≼ u
      → (count_at_most t pit ≤ count_at_most u pit) × (count_at_most u pit ≤ length pit)
  count_at_most-bounds t u pit h = (count_mono t u pit h, counted u pit)

  module _ ⦃a : Arrays W⦄ where
    -- For at least one PIT value that `np.sort` keeps there is a statistic, and no gap between the
    -- empirical distribution and the uniform one, from above or from below, is greater than it.
    ks_statistic-greatest :
        (x : W) (xs pit : List W)
        → a.sort pit ≡ x ∷ xs
        → (d : W) × (ks_statistic pit ≡ some d)
          × All (λ g. g ≼ d) (gaps_plus (length pit) 0 (x ∷ xs))
          × All (λ g. g ≼ d) (gaps_minus (length pit) 0 (x ∷ xs))
    unfolding ks_statistic gaps_plus gaps_minus
    ks_statistic-greatest x xs pit sorted =
        let plus = le-largest (f.of_ℕ 1 ⊘ f.of_ℕ (length pit) ⊖ x) (gaps_plus (length pit) 1 xs) in
        let minus =
          le-largest (x ⊖ f.of_ℕ 0 ⊘ f.of_ℕ (length pit)) (gaps_minus (length pit) 1 xs) in
        let most =
          larger (largest (f.of_ℕ 1 ⊘ f.of_ℕ (length pit) ⊖ x) (gaps_plus (length pit) 1 xs))
            (largest (x ⊖ f.of_ℕ 0 ⊘ f.of_ℕ (length pit)) (gaps_minus (length pit) 1 xs)) in
        rw sorted (
          _,
          refl,
          All-le _ _ (gaps_plus (length pit) 0 (x ∷ xs)) most.0 plus,
          All-le _ _ (gaps_minus (length pit) 0 (x ∷ xs)) most.1 minus,
        )

    -- The PIT values of a bins model with no negative probability are at least 0.
    pub compute_pit_bins-nonneg :
        (documented : IsDocumented W) (long : W → ℤ) (rows : List (BinsRow W))
        → All (λ r. All (λ p. nought ≼ p) r.probs) rows
        → All (λ p. nought ≼ p) (compute_pit_bins long rows)
    unfolding compute_pit_bins pit_bins
    compute_pit_bins-nonneg documented long [] h = tt
    compute_pit_bins-nonneg documented long (r ∷ rows) h = (
      get_or-All (λ p. nought ≼ p) (a.cumsum r.probs) _ nought (le_refl nought)
          (documented.cumsum_nonneg r.probs h.0),
      compute_pit_bins-nonneg documented long rows h.1,
    )
