-- ===== src/Lgbm/Searched.antt =====
-- A theorem on the two versions of quantile_to_cdf_pdf in
-- rtb-bid-model/src/experiments/evaluate_lgbm.py.
use ads_bidding_optimizer.Prelude.{
  ℕ, zero, suc, ◌<◌, ◌≤◌, ◌≡◌, refl, sym, ap, ap₂, ◌∙◌, true, List, [], ◌∷◌, ◌++◌, map, length,
  get_or, All, arith,
}
use ads_bidding_optimizer.Float.{Float, ◌⊖◌, ◌<?◌, ◌≼◌, nought, IsOrdered}
use ads_bidding_optimizer.Edges.Rising.{Rising}
use ads_bidding_optimizer.Evaluate.Calibration.{count_at_most}
use ads_bidding_optimizer.Evaluate.Chunked.{chunked-map}
use ads_bidding_optimizer.Ensemble.{quantile_cdf_at}
use ads_bidding_optimizer.Lgbm.{
  padded, searched_cdf_at, monotone, steps_of, quantile_to_cdf_pdf, quantile_to_cdf_pdf_vec,
}

-- The place at which `np.searchsorted(xs, p, side='right')` says that `p` would be inserted: the
-- numbers before it are at most `p`, and the others are greater.
pub record IsPlace {ℓ} {W : Type ℓ} ⦃f : Float W⦄ (xs : List W) (p : W) (k : ℕ) : Type ℓ where
  pub at_most : k ≤ length xs
  pub before : (i : ℕ) → i < k → get_or xs i nought ≼ p
  pub after : (i : ℕ) → k ≤ i → i < length xs → (p <? get_or xs i nought) ≡ true

-- `np.searchsorted` with side='right', for rows in order
abbrev pub IsSearch {ℓ} : {W : Type ℓ} ⦃f : Float W⦄ → (List W → W → ℕ) → Type ℓ
IsSearch {W} searchsorted = (xs : List W) (p : W) → Rising xs → IsPlace xs p (searchsorted xs p)

-- The quantiles of a row are in order, between the two that are added.
pub record InOrder {ℓ} {W : Type ℓ} ⦃f : Float W⦄ (quants : List W) : Type ℓ where
  pub rising : Rising quants
  pub low : All (λ q. nought ⊖ f.lit 1000000000 0 ≼ q) quants
  pub high : All (λ q. q ≼ f.lit 1000000000 0) quants

module _ {ℓ} {W : Type ℓ} ⦃f : Float W⦄ (ordered : IsOrdered W) where
  padded_end :
      (x hi : W) (xs : List W)
      → Rising (x ∷ xs)
      → x ≼ hi
      → All (λ q. q ≼ hi) xs
      → Rising (x ∷ xs ++ hi ∷ [])
  padded_end x hi [] r h hs = (h, tt)
  padded_end x hi (y ∷ xs) r h hs = (r.0, padded_end y hi xs r.1 hs.0 hs.1)

  padded-Rising :
      (quants : List W)
      → nought ⊖ f.lit 1000000000 0 ≼ f.lit 1000000000 0
      → InOrder quants
      → Rising (padded quants)
  padded-Rising [] h o = (h, tt)
  padded-Rising (q ∷ quants) h o = (o.low.0, padded_end q _ quants o.rising o.high.0 o.high.1)

  count_none :
      (p : W) (xs : List W)
      → ((i : ℕ) → i < length xs → (p <? get_or xs i nought) ≡ true)
      → count_at_most p xs ≡ 0
  unfolding count_at_most
  count_none p [] h = refl
  count_none p (x ∷ xs) h = ground (
    arith,
    h 0 (omega arith),
    ordered.lt-eq-not-le p x,
    count_none p xs (λ i hi. h (suc i) (omega arith)),
  )

  count-IsPlace :
      (p : W) (xs : List W) (k : ℕ)
      → k ≤ length xs
      → ((i : ℕ) → i < k → get_or xs i nought ≼ p)
      → ((i : ℕ) → k ≤ i → i < length xs → (p <? get_or xs i nought) ≡ true)
      → count_at_most p xs ≡ k
  unfolding count_at_most
  count-IsPlace p [] zero h before after = refl
  count-IsPlace p [] (suc k) h before after = absurd (omega arith)
  count-IsPlace p (x ∷ xs) zero h before after = ground (
    arith,
    after 0 (omega arith) (omega arith),
    ordered.lt-eq-not-le p x,
    count_none p xs (λ i hi. after (suc i) (omega arith) (omega arith)),
  )
  count-IsPlace p (x ∷ xs) (suc k) h before after = ground (
    arith,
    before 0 (omega arith),
    count-IsPlace p xs k (omega arith) (λ i hi. before (suc i) (omega arith))
        (λ i from hi. after (suc i) (omega arith) (omega arith)),
  )

  module _ (searchsorted : List W → W → ℕ) (search : IsSearch searchsorted)
      (spread : nought ⊖ f.lit 1000000000 0 ≼ f.lit 1000000000 0) where
    searched-eq-counted :
        (quants alphas : List W) (p : W)
        → InOrder quants
        → searched_cdf_at searchsorted quants alphas p ≡ quantile_cdf_at quants alphas p
    unfolding searched_cdf_at quantile_cdf_at
    searched-eq-counted quants alphas p o =
        let found = search (padded quants) p (padded-Rising quants spread o) in
        let counted = count-IsPlace p (padded quants) _ found.at_most found.before found.after in
        rw (sym counted) refl

    searched_row :
        (quants alphas prices : List W)
        → InOrder quants
        → map (searched_cdf_at searchsorted quants alphas) prices
          ≡ map (quantile_cdf_at quants alphas) prices
    searched_row quants alphas [] o = refl
    searched_row quants alphas (p ∷ prices) o =
        ap₂ (λ x t. x ∷ t) (searched-eq-counted quants alphas p o)
          (searched_row quants alphas prices o)

    searched_rows :
        (quants : List (List W)) (alphas prices : List W)
        → All InOrder quants
        → quantile_to_cdf_pdf searchsorted quants alphas prices
          ≡ map
              (λ v. let cdf = monotone v in (cdf, steps_of cdf))
              (map (λ row. map (quantile_cdf_at row alphas) prices) quants)
    unfolding quantile_to_cdf_pdf
    searched_rows [] alphas prices o = refl
    searched_rows (row ∷ quants) alphas prices o =
        ap₂ (λ x t. x ∷ t)
          (ap (λ v. (monotone v, steps_of (monotone v))) (searched_row row alphas prices o.0))
          (searched_rows quants alphas prices o.1)

    -- For rows of quantiles in order, the version that searches for each price row by row and the
    -- vectorized one, which counts and works in chunks of 50000 rows, compute the same CDFs and the
    -- same probabilities, for any prices.
    pub quantile_to_cdf_pdf_vec_lem :
        (quants : List (List W)) (alphas prices : List W)
        → All InOrder quants
        → quantile_to_cdf_pdf_vec quants alphas prices
          ≡ quantile_to_cdf_pdf searchsorted quants alphas prices
    unfolding quantile_to_cdf_pdf_vec
    quantile_to_cdf_pdf_vec_lem quants alphas prices o =
        ap (map (λ v. let cdf = monotone v in (cdf, steps_of cdf))) (
          chunked-map (λ row. map (quantile_cdf_at row alphas) prices) 50000 (omega arith) quants
            (length quants) 0 (omega arith))
        ∙ sym (searched_rows quants alphas prices o)
