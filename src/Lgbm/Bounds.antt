-- ===== src/Lgbm/Bounds.antt =====
-- A theorem on the CDFs that rtb-bid-model/src/experiments/evaluate_lgbm.py interpolates from
-- quantiles, and on the bids that are chosen by them.
use ads_bidding_optimizer.Prelude.{
  ◌<◌, ◌≡◌, sym, ◌∙◌, Bool-cases, inl, inr, List, [], ◌∷◌, map, length, All, length-map,
  if◌then◌else◌, arith,
}
use mathlib.Core.Path.{subst}
use ads_bidding_optimizer.Float.{Float, ◌<?◌, ◌≼◌, nought, unit, IsOrdered, IsRounded}
use ads_bidding_optimizer.Arrays.{Arrays, arange, get_or-range_from, IsDocumented}
use ads_bidding_optimizer.Optimizer.Grid.{le_of_not_lt, le_of_lt, not_lt_of_le}
use ads_bidding_optimizer.Optimizer.Masked.{cdf_argmax_bound, cdf_argmax-le-value}
use ads_bidding_optimizer.Edges.Rising.{Rising}
use ads_bidding_optimizer.Evaluate.Chunked.{chunked-map}
use ads_bidding_optimizer.Ensemble.{accumulate_max, running_max, quantile_cdf_at}
use ads_bidding_optimizer.Ensemble.Lengths.{length-running_max}
use ads_bidding_optimizer.Lgbm.{clip_01, monotone, steps_of, quantile_to_cdf_pdf_vec, cdf_bid}

module _ {ℓ} {W : Type ℓ} ⦃f : Float W⦄ where
  -- every number is in the interval from 0 to 1
  abbrev pub InUnit : List W → Type 0
  InUnit xs = All (λ x. (nought ≼ x) × (x ≼ unit)) xs

  module _ (ordered : IsOrdered W) (rounded : IsRounded W) where
    clip_01-bounds : (x : W) → (nought ≼ clip_01 x) × (clip_01 x ≼ unit)
    clip_01-bounds x = elim (Bool-cases (x <? nought)) [
      | inl below ↦
          rw (below, not_lt_of_le ordered unit nought rounded.nought-le-unit)
            (ordered.le_refl nought, rounded.nought-le-unit)
      | inr above ↦ rw above (elim (Bool-cases (unit <? x)) [
        | inl over ↦ rw over (rounded.nought-le-unit, ordered.le_refl unit)
        | inr within ↦
            rw within (le_of_not_lt ordered x nought above, le_of_not_lt ordered unit x within)
      ])
    ]

    clipped-InUnit : (xs : List W) → InUnit (map clip_01 xs)
    clipped-InUnit [] = tt
    clipped-InUnit (x ∷ xs) = (clip_01-bounds x, clipped-InUnit xs)

    -- the greater of two numbers is as great as both, and is one of them
    greater-bounds :
        (m x : W)
        → (nought ≼ m) × (m ≼ unit)
        → (nought ≼ x) × (x ≼ unit)
        → let n = if m <? x then x else m in (m ≼ n) × ((nought ≼ n) × (n ≼ unit))
    greater-bounds m x hm hx = elim (Bool-cases (m <? x)) [
      | inl less ↦ rw less (le_of_lt ordered m x less, hx)
      | inr more ↦ rw more (ordered.le_refl m, hm)
    ]

    accumulate_max-bounds :
        (m : W) (xs : List W)
        → (nought ≼ m) × (m ≼ unit)
        → InUnit xs
        → Rising (m ∷ accumulate_max m xs) × InUnit (accumulate_max m xs)
    unfolding accumulate_max
    accumulate_max-bounds m [] hm hs = (tt, tt)
    accumulate_max-bounds m (x ∷ xs) hm hs =
        let next = greater-bounds m x hm hs.0 in
        let rest = accumulate_max-bounds (if m <? x then x else m) xs next.1 hs.1 in
        ((next.0, rest.0), (next.1, rest.1))

    pub monotone-bounds : (values : List W) → Rising (monotone values) × InUnit (monotone values)
    unfolding monotone running_max
    monotone-bounds [] = (tt, tt)
    monotone-bounds (x ∷ values) =
        let here = clip_01-bounds x in
        let rest =
          accumulate_max-bounds (clip_01 x) (map clip_01 values) here (clipped-InUnit values) in
        (rest.0, (here, rest.1))

    length-monotone : (values : List W) → length (monotone values) ≡ length values
    unfolding monotone
    length-monotone values = length-running_max _ ∙ length-map values clip_01

    nonneg_of_unit : (xs : List W) → InUnit xs → All (λ x. nought ≼ x) xs
    nonneg_of_unit [] h = tt
    nonneg_of_unit (x ∷ xs) h = ((h.0).0, nonneg_of_unit xs h.1)

    module _ ⦃a : Arrays W⦄ (documented : IsDocumented W) where
      pub cdf_bid-le-value :
          (V : W) (cdf : List W)
          → All (λ x. nought ≼ x) cdf
          → 0 < length cdf
          → f.of_ℕ 0 ≼ V
          → cdf_bid V cdf ≼ V
      unfolding cdf_bid arange
      cdf_bid-le-value V cdf ps h v =
          rw
            (get_or-range_from 0 (length cdf) _ nought
              (cdf_argmax_bound ordered rounded documented V cdf h))
            (subst (λ k. f.of_ℕ k ≼ V) (omega arith)
              (cdf_argmax-le-value ordered rounded documented V cdf ps h v))

      -- what holds of a row's CDF
      pub record IsCdf (V : W) (cdf : List W) : Type ℓ where
        pub rises : Rising cdf
        pub in_unit : InUnit cdf
        pub affordable : cdf_bid V cdf ≼ V

      monotone-IsCdf :
          (V : W) (values : List W) → 0 < length values → f.of_ℕ 0 ≼ V → IsCdf V (monotone values)
      monotone-IsCdf V values h v =
          let bounds = monotone-bounds values in
          record {
            rises = bounds.0;
            in_unit = bounds.1;
            affordable =
                cdf_bid-le-value V (monotone values) (nonneg_of_unit _ bounds.1)
                  (rw (length-monotone values) h) v;
          }

      table_rows :
          (V : W) (quants : List (List W)) (alphas prices : List W)
          → 0 < length prices
          → f.of_ℕ 0 ≼ V
          → All
              (λ (t : List W × List W). IsCdf V t.0)
              (map
                (λ v. let cdf = monotone v in (cdf, steps_of cdf))
                (map (λ row. map (quantile_cdf_at row alphas) prices) quants))
      table_rows V [] alphas prices h v = tt
      table_rows V (row ∷ quants) alphas prices h v = (
        monotone-IsCdf V _ (rw (length-map prices (quantile_cdf_at row alphas)) h) v,
        table_rows V quants alphas prices h v,
      )

      -- For any predicted quantiles, in order or not, at least one price and a value of at least 0,
      -- the CDF of each row never falls and is between 0 and 1, and the bid that is chosen by it is at
      -- most the value.
      pub quantile_to_cdf_pdf_vec-IsCdf :
          (V : W) (quants : List (List W)) (alphas prices : List W)
          → 0 < length prices
          → f.of_ℕ 0 ≼ V
          → All
              (λ (t : List W × List W). IsCdf V t.0)
              (quantile_to_cdf_pdf_vec quants alphas prices)
      unfolding quantile_to_cdf_pdf_vec
      quantile_to_cdf_pdf_vec-IsCdf V quants alphas prices h v =
          subst
            (λ values.
              All (λ (t : List W × List W). IsCdf V t.0)
                (map (λ v. let cdf = monotone v in (cdf, steps_of cdf)) values))
            (sym (
              chunked-map (λ row. map (quantile_cdf_at row alphas) prices) 50000 (omega arith)
                quants (length quants) 0 (omega arith)))
            (table_rows V quants alphas prices h v)
