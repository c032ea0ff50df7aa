-- ===== src/Ensemble/Mass.antt =====
-- Theorems on the averaged probabilities of rtb-bid-model/src/experiments/ensemble.py and the bids
-- that are computed from them.
use ads_bidding_optimizer.Prelude.{
  ℕ, zero, suc, ◌-◌, ◌<◌, ◌≡◌, refl, sym, ap, ◌∙◌, Bool-cases, inl, inr, true, some, List, [], ◌∷◌,
  ◌++◌, map, length, take, replicate, zip_with, All, leb, All-zip_with, All-map, arith,
}
use ads_bidding_optimizer.Float.{
  Float, ◌⊕◌, ◌⊗◌, ◌<?◌, ◌≼◌, nought, clamp_min, IsOrdered, IsRounded,
}
use ads_bidding_optimizer.Arrays.{Arrays, arange, IsDocumented, get_or-range_from}
use ads_bidding_optimizer.Optimizer.{backtest_bid, budget_bid}
use ads_bidding_optimizer.Optimizer.Grid.{le_of_not_lt}
use ads_bidding_optimizer.Optimizer.Affordable.{
  grid_searches_agree, best_bid-le-value, best_idx_bound,
}
use ads_bidding_optimizer.Ensemble.{
  Member, differences, quantile_cdf, quantile_masses, bins_masses, log_upper, log_lower, mdn_masses,
  normalise, member_masses, member_probs, add_members, weighted_sum, average,
}
use mathlib.Core.Path.{subst}
use ads_bidding_optimizer.Ensemble.Metrics.{ensemble_bid}
use ads_bidding_optimizer.Ensemble.Budgets.{averaged_bid}
use ads_bidding_optimizer.Ensemble.Lengths.{
  length-normalise, length-member_masses, length-weighted_sum,
}

module _ {ℓ} {W : Type ℓ} ⦃f : Float W⦄ where
  abbrev pub IsNonneg : List W → Type 0
  IsNonneg xs = All (λ x. nought ≼ x) xs

  le-clamp_min : (ordered : IsOrdered W) (lo x : W) → lo ≼ clamp_min lo x
  le-clamp_min ordered lo x = elim (Bool-cases (x <? lo)) [
    | inl below ↦ rw below (ordered.le_refl lo)
    | inr above ↦ rw above (le_of_not_lt ordered x lo above)
  ]

  IsNonneg-take : (n : ℕ) (xs : List W) → IsNonneg xs → IsNonneg (take n xs)
  IsNonneg-take zero xs h = tt
  IsNonneg-take (suc n) [] h = tt
  IsNonneg-take (suc n) (x ∷ xs) h = (h.0, IsNonneg-take n xs h.1)

  IsNonneg-append_zeros :
      (ordered : IsOrdered W) (xs : List W) (n : ℕ)
      → IsNonneg xs
      → IsNonneg (xs ++ replicate n nought)
  IsNonneg-append_zeros ordered [] zero h = tt
  IsNonneg-append_zeros ordered [] (suc n) h =
      (ordered.le_refl nought, IsNonneg-append_zeros ordered [] n tt)
  IsNonneg-append_zeros ordered (x ∷ xs) n h = (h.0, IsNonneg-append_zeros ordered xs n h.1)

-- A member's bins, where it has them, are no negative numbers.
abbrev pub HasBins {ℓ} : {W : Type ℓ} ⦃f : Float W⦄ → Member W → Type 0
HasBins (Member.bins probs) = IsNonneg probs
HasBins (Member.mdn pi_logits mu sigma) = Unit
HasBins (Member.lgbm quants alphas) = Unit

-- A row of numbers does not sum to 0, so that it can be divided by its sum.
abbrev pub HasMass {ℓ} : {W : Type ℓ} ⦃f : Float W⦄ ⦃a : Arrays W⦄ → List W → Type 0
HasMass ⦃f⦄ ⦃a⦄ xs = (nought <? a.sum xs) ≡ true

module _ {ℓ} {W : Type ℓ} ⦃f : Float W⦄ ⦃a : Arrays W⦄ where
  module _ (ordered : IsOrdered W) (rounded : IsRounded W) where
    pub clamped-IsNonneg : (e : ℕ) (xs : List W) → IsNonneg (map (clamp_min (f.lit 1 e)) xs)
    clamped-IsNonneg e [] = tt
    clamped-IsNonneg e (x ∷ xs) = (
      ordered.le_trans nought (f.lit 1 e) _ (rounded.lit_nonneg 1 e)
          (le-clamp_min ordered (f.lit 1 e) x),
      clamped-IsNonneg e xs,
    )

    member_masses-IsNonneg : (n : ℕ) (m : Member W) → HasBins m → IsNonneg (member_masses n m)
    unfolding member_masses mdn_masses quantile_masses bins_masses
    member_masses-IsNonneg n (Member.mdn pi_logits mu sigma) h =
        All-zip_with (λ x. nought ≼ x) _
          (λ up lo.
            ordered.le_trans nought (f.lit 1 10) _ (rounded.lit_nonneg 1 10)
              (le-clamp_min ordered (f.lit 1 10) _))
          (log_upper n) (log_lower n)
    member_masses-IsNonneg n (Member.bins probs) h = elim (Bool-cases (leb n (length probs))) [
      | inl long ↦ rw long (IsNonneg-take n probs h)
      | inr short ↦ rw short (IsNonneg-append_zeros ordered probs (n - length probs) h)
    ]
    member_masses-IsNonneg n (Member.lgbm quants alphas) h =
        clamped-IsNonneg 9 (differences (quantile_cdf quants alphas n))

    pub normalise-IsNonneg : (p : List W) → HasMass p → IsNonneg p → IsNonneg (normalise p)
    unfolding normalise
    normalise-IsNonneg p mass h =
        All-map (λ x. nought ≼ x) (λ x. nought ≼ x) _
          (λ x hx. rounded.div_nonneg x (a.sum p) hx mass) p h

    scaled :
        (w : W) (avg p : List W)
        → nought ≼ w
        → IsNonneg avg
        → IsNonneg p
        → IsNonneg (zip_with (λ x y. x ⊕ w ⊗ y) avg p)
    scaled w [] p hw h hp = tt
    scaled w (x ∷ avg) [] hw h hp = tt
    scaled w (x ∷ avg) (y ∷ p) hw h hp = (
      rounded.add_nonneg x (w ⊗ y) h.0 (rounded.mul_nonneg w y hw hp.0),
      scaled w avg p hw h.1 hp.1,
    )

    add_members-IsNonneg :
        (avg ws : List W) (ps : List (List W)) (total : List W)
        → IsNonneg avg
        → IsNonneg ws
        → All IsNonneg ps
        → add_members avg ws ps ≡ some total
        → IsNonneg total
    unfolding add_members
    add_members-IsNonneg avg ws [] total h hw hs e = ground (arith, h, e)
    add_members-IsNonneg avg [] (p ∷ ps) total h hw hs e = absurd (cc)
    add_members-IsNonneg avg (w ∷ ws) (p ∷ ps) total h hw hs e =
        add_members-IsNonneg (zip_with (λ x y. x ⊕ w ⊗ y) avg p) ws ps total
          (scaled w avg p hw.0 h hs.0) hw.1 hs.1 e

    weighted_sum-IsNonneg :
        (ws : List W) (ps : List (List W)) (total : List W)
        → IsNonneg ws
        → All IsNonneg ps
        → weighted_sum ws ps ≡ some total
        → IsNonneg total
    unfolding weighted_sum
    weighted_sum-IsNonneg ws [] total hw hs e = absurd (cc)
    weighted_sum-IsNonneg [] (p ∷ ps) total hw hs e = absurd (cc)
    weighted_sum-IsNonneg (w ∷ ws) (p ∷ ps) total hw hs e =
        add_members-IsNonneg (map (λ x. w ⊗ x) p) ws ps total
          (All-map (λ x. nought ≼ x) (λ x. nought ≼ x) _ (λ x hx. rounded.mul_nonneg w x hw.0 hx) p
            hs.0)
          hw.1 hs.1 e

  module _ (ordered : IsOrdered W) (rounded : IsRounded W) (documented : IsDocumented W) where
    member_probs-IsNonneg :
        (n : ℕ) (members : List (Member W))
        → All HasBins members
        → All (λ m. HasMass (member_masses n m)) members
        → All IsNonneg (map (member_probs n) members)
    unfolding member_probs
    member_probs-IsNonneg n [] hs ms = tt
    member_probs-IsNonneg n (m ∷ members) hs ms = (
      normalise-IsNonneg ordered rounded (member_masses n m) ms.0
          (member_masses-IsNonneg ordered rounded n m hs.0),
      member_probs-IsNonneg n members hs.1 ms.1,
    )

    length-member_probs :
        (n : ℕ) (members : List (Member W))
        → 0 < n
        → All (λ p. length p ≡ n) (map (member_probs n) members)
    unfolding member_probs
    length-member_probs n [] h = tt
    length-member_probs n (m ∷ members) h = (
      length-normalise (member_masses n m) ∙ length-member_masses n m h,
      length-member_probs n members h,
    )

    ensemble_bid-eq-backtest_bid :
        (avg : List W) (V : W)
        → IsNonneg avg
        → 0 < length avg
        → ensemble_bid (length avg) avg V ≡ backtest_bid avg V
    unfolding ensemble_bid backtest_bid arange
    ensemble_bid-eq-backtest_bid avg V h nonempty =
        get_or-range_from 0 (length avg) _ nought
          (best_idx_bound ordered rounded documented avg V nonempty)
        ∙ ap f.of_ℕ (omega arith)

    averaged_bid-eq-budget_bid :
        (avg : List W) (V : W) → averaged_bid (length avg) V avg ≡ budget_bid avg V (length avg)
    unfolding averaged_bid budget_bid
    averaged_bid-eq-budget_bid avg V = refl

    -- For at least one bin, weights and bins that are not negative, and sums by which the members'
    -- masses and the weighted sum can be divided: the average of the members' probabilities has one
    -- probability per bin and none is negative, and the bid that `evaluate_ensemble` searches on it
    -- is the one of `budget_ensemble.py` and at most the value, if the value is at least 0.
    pub ensemble_bid-le-value :
        (n : ℕ) (ws : List W) (members : List (Member W)) (total : List W) (V : W)
        → 0 < n
        → IsNonneg ws
        → All HasBins members
        → All (λ m. HasMass (member_masses n m)) members
        → weighted_sum ws (map (member_probs n) members) ≡ some total
        → HasMass total
        → f.of_ℕ 0 ≼ V
        → let avg = normalise total in
          (average n ws members ≡ some avg)
          × (length avg ≡ n)
          × IsNonneg avg
          × (ensemble_bid n avg V ≡ averaged_bid n V avg)
          × (ensemble_bid n avg V ≼ V)
    unfolding average
    ensemble_bid-le-value n ws members total V h hw hs ms e mass v =
        let nonneg = normalise-IsNonneg ordered rounded total mass (
          weighted_sum-IsNonneg ordered rounded ws (map (member_probs n) members) total hw
            (member_probs-IsNonneg n members hs ms) e) in
        let len : length (normalise total) ≡ n =
          length-normalise total
          ∙ length-weighted_sum n ws (map (member_probs n) members) total
              (length-member_probs n members h) e in
        let bid-eq : ensemble_bid n (normalise total) V ≡ backtest_bid (normalise total) V =
          subst (λ k. ensemble_bid k (normalise total) V ≡ backtest_bid (normalise total) V) len
            (ensemble_bid-eq-backtest_bid (normalise total) V nonneg (rw len h)) in
        let agree =
          grid_searches_agree ordered rounded documented (normalise total) V nonneg (rw len h) in
        let copy-eq : averaged_bid n V (normalise total) ≡ backtest_bid (normalise total) V =
          subst (λ k. averaged_bid k V (normalise total) ≡ backtest_bid (normalise total) V) len
            (averaged_bid-eq-budget_bid (normalise total) V ∙ agree.1) in
        (
          rw (average, e) refl,
          len,
          nonneg,
          bid-eq ∙ sym copy-eq,
          rw (bid-eq ∙ sym agree.0) (
              best_bid-le-value ordered rounded documented (normalise total) V nonneg (rw len h) v),
        )
