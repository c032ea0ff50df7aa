-- ===== src/Ensemble/Lengths.antt =====
-- The lengths of the rows that rtb-bid-model/src/experiments/ensemble.py computes.
use ads_bidding_optimizer.Prelude.{
  ℕ, suc, ◌+◌, ◌-◌, ◌<◌, ◌≡◌, refl, sym, ap, ◌∙◌, Bool-cases, inl, inr, some, List, [], ◌∷◌, map,
  length, zip_with, All, leb, if◌then◌else◌, length-map, length-append, length-replicate,
  length-take, length-zip_with, arith,
}
use ads_bidding_optimizer.Float.{Float, ◌⊕◌, ◌⊖◌, ◌⊗◌, ◌<?◌, nought, clamp_min}
use ads_bidding_optimizer.Arrays.{Arrays, arange, length-range_from}
use ads_bidding_optimizer.Edges.{set_first}
use ads_bidding_optimizer.Ensemble.{
  Member, accumulate_max, running_max, differences, boundaries, quantile_cdf, quantile_masses,
  bins_masses, log_upper, log_lower, mdn_masses, normalise, member_masses, add_members,
  weighted_sum,
}

length-arange {ℓ} : (W : Type ℓ) ⦃f : Float W⦄ (n : ℕ) → length (arange {W = W} n) ≡ n
unfolding arange
length-arange W n = length-range_from W 0 n

module _ {ℓ} {W : Type ℓ} ⦃f : Float W⦄ where
  length-set_first : (x : W) (xs : List W) → length (set_first x xs) ≡ length xs
  unfolding set_first
  length-set_first x [] = refl
  length-set_first x (y ∷ ys) = refl

  length-accumulate_max : (m : W) (xs : List W) → length (accumulate_max m xs) ≡ length xs
  unfolding accumulate_max
  length-accumulate_max m [] = refl
  length-accumulate_max m (x ∷ xs) = ap suc (length-accumulate_max (if m <? x then x else m) xs)

  pub length-running_max : (xs : List W) → length (running_max xs) ≡ length xs
  unfolding running_max
  length-running_max [] = refl
  length-running_max (x ∷ xs) = ap suc (length-accumulate_max x xs)

  pub length-differences : (xs : List W) → length (differences xs) ≡ length xs - 1
  unfolding differences
  length-differences [] = omega arith
  length-differences (x ∷ []) = omega arith
  length-differences (x ∷ y ∷ ys) = omega (arith, length-differences (y ∷ ys))

  pub length-quantile_masses :
      (quants alphas : List W) (n : ℕ) → length (quantile_masses quants alphas n) ≡ n
  unfolding quantile_masses quantile_cdf boundaries
  length-quantile_masses quants alphas n =
      length-map _ _
      ∙ length-differences _
      ∙ ap (λ k. k - 1)
          (length-running_max _
            ∙ length-map _ _
            ∙ length-set_first _ _
            ∙ length-map _ _
            ∙ length-arange W (n + 1))
      ∙ omega arith

  pub length-bins_masses : (probs : List W) (n : ℕ) → length (bins_masses probs n) ≡ n
  unfolding bins_masses
  length-bins_masses probs n = elim (Bool-cases (leb n (length probs))) [
    | inl long ↦ rw long (length-take n probs ∙ ground arith)
    | inr short ↦ rw short (
        length-append probs _
        ∙ ap (λ k. length probs + k) (length-replicate (n - length probs) nought)
        ∙ ground arith)
  ]

pub length-log_upper {ℓ} :
    (W : Type ℓ) ⦃f : Float W⦄ ⦃a : Arrays W⦄ (n : ℕ) → length (log_upper {W = W} n) ≡ n
unfolding log_upper
length-log_upper W ⦃f⦄ ⦃a⦄ n =
    length-map (arange n) (λ (x : W). a.log (clamp_min (f.lit 1 3) (x ⊕ f.lit 5 1)))
    ∙ length-arange W n

pub length-log_lower {ℓ} :
    (W : Type ℓ) ⦃f : Float W⦄ ⦃a : Arrays W⦄ (n : ℕ) → 0 < n → length (log_lower {W = W} n) ≡ n
unfolding log_lower
length-log_lower W ⦃f⦄ ⦃a⦄ n h =
    length-set_first (nought ⊖ f.lit 1000000000 0) _
    ∙ length-map (nought ∷ map (λ (x : W). x ⊕ f.lit 5 1) (arange (n - 1)))
        (λ (x : W). a.log (clamp_min (f.lit 1 3) x))
    ∙ ap suc (length-map (arange (n - 1)) (λ (x : W). x ⊕ f.lit 5 1) ∙ length-arange W (n - 1))
    ∙ omega arith

module _ {ℓ} {W : Type ℓ} ⦃f : Float W⦄ ⦃a : Arrays W⦄ where
  pub length-mdn_masses :
      (pi_logits mu sigma : List W) (n : ℕ) → 0 < n → length (mdn_masses pi_logits mu sigma n) ≡ n
  unfolding mdn_masses
  length-mdn_masses pi_logits mu sigma n h =
      length-zip_with _ (log_upper n) (log_lower n)
        (length-log_upper W n ∙ sym (length-log_lower W n h))
      ∙ length-log_upper W n

  -- For at least one bin, each kind of member has one mass for each bin: a mixture, a bins model of
  -- any width, and quantiles.
  pub length-member_masses : (n : ℕ) (m : Member W) → 0 < n → length (member_masses n m) ≡ n
  unfolding member_masses
  length-member_masses n (Member.mdn pi_logits mu sigma) h =
      length-mdn_masses pi_logits mu sigma n h
  length-member_masses n (Member.bins probs) h = length-bins_masses probs n
  length-member_masses n (Member.lgbm quants alphas) h = length-quantile_masses quants alphas n

  pub length-normalise : (p : List W) → length (normalise p) ≡ length p
  unfolding normalise
  length-normalise p = length-map p _

  -- the members' rows have one length, and so has their sum
  length-add_members :
      (n : ℕ) (avg : List W) (ws : List W) (ps : List (List W)) (total : List W)
      → length avg ≡ n
      → All (λ p. length p ≡ n) ps
      → add_members avg ws ps ≡ some total
      → length total ≡ n
  unfolding add_members
  length-add_members n avg ws [] total h hs e = ground (arith, h, e)
  length-add_members n avg [] (p ∷ ps) total h hs e = absurd (cc)
  length-add_members n avg (w ∷ ws) (p ∷ ps) total h hs e =
      length-add_members n (zip_with (λ x y. x ⊕ w ⊗ y) avg p) ws ps total
        (length-zip_with _ avg p (h ∙ sym hs.0) ∙ h) hs.1 e

  pub length-weighted_sum :
      (n : ℕ) (ws : List W) (ps : List (List W)) (total : List W)
      → All (λ p. length p ≡ n) ps
      → weighted_sum ws ps ≡ some total
      → length total ≡ n
  unfolding weighted_sum
  length-weighted_sum n ws [] total hs e = absurd (cc)
  length-weighted_sum n [] (p ∷ ps) total hs e = absurd (cc)
  length-weighted_sum n (w ∷ ws) (p ∷ ps) total hs e =
      length-add_members n (map (λ x. w ⊗ x) p) ws ps total (length-map p _ ∙ hs.0) hs.1 e
