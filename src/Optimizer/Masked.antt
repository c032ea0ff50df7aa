-- ===== src/Optimizer/Masked.antt =====
-- Lemmas on the search of rtb-bid-model/src/bid_optimizer.py and its copies, for any row of a CDF.
use ads_bidding_optimizer.Prelude.{
  ℕ, zero, suc, ◌<◌, ◌≡◌, refl, ap, ◌∙◌, true, Bool-cases, inl, inr, List, [], ◌∷◌, length, get_or,
  All, arith,
}
use ads_bidding_optimizer.Float.{Float, ◌<?◌, ◌≼◌, nought, IsOrdered, IsRounded}
use ads_bidding_optimizer.Arrays.{
  Arrays, range_from, arange, length-range_from, get_or-range_from, get_or-All, IsDocumented,
}
use ads_bidding_optimizer.Optimizer.{masked_profits}
use ads_bidding_optimizer.Optimizer.Grid.{
  expected_profit, length-masked_profits, get_or-masked_profits, le_of_not_lt, not_lt_of_le,
}

module _ {ℓ} {W : Type ℓ} ⦃f : Float W⦄ ⦃a : Arrays W⦄ (ordered : IsOrdered W)
    (rounded : IsRounded W) (documented : IsDocumented W) where
  open ordered use {le_refl}
  open documented use {argmax_bound, argmax_first}

  pub expected_profit_nonneg : (V b p : W) → nought ≼ p → nought ≼ expected_profit V b p
  expected_profit_nonneg V b p h = elim (Bool-cases (V <? b)) [
    | inl above ↦ rw above (le_refl nought)
    | inr fits ↦
        rw fits (rounded.mul_nonneg _ _ (rounded.sub_nonneg V b (le_of_not_lt ordered V b fits)) h)
  ]

  -- the profits of the bids 0, 1, 2, …, each of which wins as the CDF says
  abbrev pub cdf_profits : W → List W → List W
  cdf_profits V cdf = masked_profits V (arange (length cdf)) cdf

  length-cdf_profits : (V : W) (cdf : List W) → length (cdf_profits V cdf) ≡ length cdf
  unfolding arange
  length-cdf_profits V cdf =
      length-masked_profits V _ cdf (length-range_from W 0 (length cdf))
      ∙ length-range_from W 0 (length cdf)

  get_or-cdf_profits :
      (V : W) (cdf : List W) (k : ℕ)
      → k < length cdf
      → get_or (cdf_profits V cdf) k nought ≡ expected_profit V (f.of_ℕ k) (get_or cdf k nought)
  unfolding arange
  get_or-cdf_profits V cdf k h =
      get_or-masked_profits V (range_from 0 (length cdf)) cdf k (length-range_from W 0 (length cdf))
        (rw (length-range_from W 0 (length cdf)) h)
      ∙ ap (λ b. expected_profit V b (get_or cdf k nought))
          (get_or-range_from 0 (length cdf) k nought h ∙ ap f.of_ℕ (omega arith))

  pub cdf_profits_nonneg :
      (V : W) (cdf : List W) (k : ℕ)
      → All (λ p. nought ≼ p) cdf
      → k < length cdf
      → nought ≼ get_or (cdf_profits V cdf) k nought
  cdf_profits_nonneg V cdf k ps h =
      rw (get_or-cdf_profits V cdf k h) (
        expected_profit_nonneg V _ _
          (get_or-All (λ p. nought ≼ p) cdf k nought (le_refl nought) ps))

  pub cdf_argmax_bound :
      (V : W) (cdf : List W) → 0 < length cdf → a.argmax (cdf_profits V cdf) < length cdf
  cdf_argmax_bound V cdf h = nonempty (cdf_profits V cdf) (length-cdf_profits V cdf)
    where
      nonempty : (ps : List W) → length ps ≡ length cdf → a.argmax ps < length cdf
      nonempty [] e = absurd (omega arith)
      nonempty (p ∷ ps) e = rw (← e) (argmax_bound p ps)

  -- a masked bid is not the first one with the greatest profit, since the bid 0 does as well
  unmasked :
      (V : W) (cdf : List W) (k : ℕ)
      → All (λ p. nought ≼ p) cdf
      → k < length cdf
      → k ≡ a.argmax (cdf_profits V cdf)
      → f.of_ℕ 0 ≼ V
      → f.of_ℕ k ≼ V
  unmasked V cdf zero ps h e v = v
  unmasked V cdf (suc k) ps h e v = elim (Bool-cases (V <? f.of_ℕ (suc k))) [
    | inr fits ↦ le_of_not_lt ordered V _ fits
    | inl above ↦ absurd (
        contradiction above (cdf_profits_nonneg V cdf 0 ps (omega arith))
          (argmax_first (cdf_profits V cdf) 0 (rw (← e) (omega arith))))
  ]
    where
      contradiction :
          (V <? f.of_ℕ (suc k)) ≡ true
          → nought ≼ get_or (cdf_profits V cdf) 0 nought
          → (get_or (cdf_profits V cdf) 0 nought
              <? get_or (cdf_profits V cdf) (a.argmax (cdf_profits V cdf)) nought)
            ≡ true
          → ⊥
      contradiction above nonneg below =
          let masked : get_or (cdf_profits V cdf) (suc k) nought ≡ nought =
            get_or-cdf_profits V cdf (suc k) h ∙ (rw above) in
          let below' : (get_or (cdf_profits V cdf) 0 nought <? nought) ≡ true =
            rw masked at (rw (← e) at below) in
          cc (not_lt_of_le ordered _ _ nonneg, below')

  pub cdf_argmax-le-value :
      (V : W) (cdf : List W)
      → All (λ p. nought ≼ p) cdf
      → 0 < length cdf
      → f.of_ℕ 0 ≼ V
      → f.of_ℕ (a.argmax (cdf_profits V cdf)) ≼ V
  cdf_argmax-le-value V cdf ps h v = unmasked V cdf _ ps (cdf_argmax_bound V cdf h) refl v
