-- ===== src/Optimizer/Grid.antt =====
-- A theorem on `grid_optimize_bins` of rtb-bid-model/src/bid_optimizer.py, and lemmas on its profits.
use ads_bidding_optimizer.Prelude.{
  ℕ, zero, suc, ◌<◌, ◌≡◌, refl, sym, ap, ◌∙◌, true, false, List, [], ◌∷◌, length, get_or,
  if◌then◌else◌, arith,
}
use ads_bidding_optimizer.Float.{Float, ◌⊖◌, ◌⊗◌, ◌<?◌, ◌≼◌, nought, IsOrdered}
use ads_bidding_optimizer.Arrays.{
  Arrays, range_from, arange, length-range_from, get_or-range_from, IsDocumented,
}
use ads_bidding_optimizer.Optimizer.{masked_profits, unless_loss, grid_optimize_bins}

-- The expected profit of the bid `b` that wins with probability `p`, 0 for a bid above the value.
abbrev pub expected_profit {ℓ} : {W : Type ℓ} ⦃f : Float W⦄ → W → W → W → W
expected_profit V b p = if V <? b then nought else (V ⊖ b) ⊗ p

module _ {ℓ} {W : Type ℓ} ⦃f : Float W⦄ where
  pub length-masked_profits :
      (V : W) (bs cs : List W) → length bs ≡ length cs → length (masked_profits V bs cs) ≡ length bs
  unfolding masked_profits
  length-masked_profits V [] cs h = refl
  length-masked_profits V (b ∷ bs) [] h = absurd (omega arith)
  length-masked_profits V (b ∷ bs) (c ∷ cs) h = ap suc (length-masked_profits V bs cs (omega arith))

  pub get_or-masked_profits :
      (V : W) (bs cs : List W) (k : ℕ)
      → length bs ≡ length cs
      → k < length bs
      → get_or (masked_profits V bs cs) k nought
        ≡ expected_profit V (get_or bs k nought) (get_or cs k nought)
  unfolding masked_profits
  get_or-masked_profits V [] cs k e h = absurd (omega arith)
  get_or-masked_profits V (b ∷ bs) [] k e h = absurd (omega arith)
  get_or-masked_profits V (b ∷ bs) (c ∷ cs) zero e h = refl
  get_or-masked_profits V (b ∷ bs) (c ∷ cs) (suc k) e h =
      get_or-masked_profits V bs cs k (omega arith) (omega arith)

  module _ (ordered : IsOrdered W) where
    open ordered use {le_refl, le_trans, le_total, lt-eq-not-le}

    -- the two readings of a failed test
    pub le_of_not_lt : (x y : W) → (x <? y) ≡ false → y ≼ x
    le_of_not_lt x y h = ground (arith, lt-eq-not-le x y)

    pub le_of_lt : (x y : W) → (x <? y) ≡ true → x ≼ y
    le_of_lt x y h = ground (arith, lt-eq-not-le x y, le_total x y)

    pub not_lt_of_le : (x y : W) → y ≼ x → (x <? y) ≡ false
    not_lt_of_le x y h = ground (arith, lt-eq-not-le x y)

    pub le-unless_loss : (p : W) → p ≼ unless_loss p p
    le-unless_loss p = ground (arith, le_of_lt p nought, le_refl p)

    pub unless_loss_nonneg : (p : W) → nought ≼ unless_loss p p
    unless_loss_nonneg p = ground (arith, le_of_not_lt p nought, le_refl nought)

module _ {ℓ} {W : Type ℓ} ⦃f : Float W⦄ ⦃a : Arrays W⦄ (ordered : IsOrdered W)
    (documented : IsDocumented W) where
  open ordered use {le_refl, le_trans, le_total, lt-eq-not-le}
  open documented use {length-cumsum, cumsum_nonneg, argmax_bound, argmax_max, argmax_first}

  abbrev pub bins_profits : List W → W → List W
  bins_profits probs V = masked_profits V (arange (length probs)) (a.cumsum probs)

  pub length-bins_profits : (probs : List W) (V : W) → length (bins_profits probs V) ≡ length probs
  unfolding arange
  length-bins_profits probs V =
      length-masked_profits V _ _ (length-range_from W 0 (length probs) ∙ sym (length-cumsum probs))
      ∙ length-range_from W 0 (length probs)

  pub get_or-bins_profits :
      (probs : List W) (V : W) (k : ℕ)
      → k < length probs
      → get_or (bins_profits probs V) k nought
        ≡ expected_profit V (f.of_ℕ k) (get_or (a.cumsum probs) k nought)
  unfolding arange
  get_or-bins_profits probs V k h =
      get_or-masked_profits V (range_from 0 (length probs)) (a.cumsum probs) k
        (length-range_from W 0 (length probs) ∙ sym (length-cumsum probs))
        (rw (length-range_from W 0 (length probs)) h)
      ∙ ap (λ b. expected_profit V b (get_or (a.cumsum probs) k nought))
          (get_or-range_from 0 (length probs) k nought h ∙ ap f.of_ℕ (omega arith))

  -- No bid of the grid has a greater expected profit than the one that is reported, and the
  -- reported profit is never negative: for each bin k of the row, the profit of bidding k is at
  -- most `best_profit`.
  pub grid_optimize_bins_optimal :
      (probs : List W) (V : W) (k : ℕ)
      → k < length probs
      → (expected_profit V (f.of_ℕ k) (get_or (a.cumsum probs) k nought)
          ≼ (grid_optimize_bins probs V).best_profit)
        × (nought ≼ (grid_optimize_bins probs V).best_profit)
  unfolding grid_optimize_bins
  grid_optimize_bins_optimal probs V k h =
      let best = get_or (bins_profits probs V) (a.argmax (bins_profits probs V)) nought in
      (
        rw (← get_or-bins_profits probs V k h) (
            le_trans _ best _
              (argmax_max (bins_profits probs V) k (rw (length-bins_profits probs V) h))
              (le-unless_loss ordered best)),
        unless_loss_nonneg ordered best,
      )
