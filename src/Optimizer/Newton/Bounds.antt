-- ===== src/Optimizer/Newton/Bounds.antt =====
-- Theorems on the two Newton searches of rtb-bid-model/src/bid_optimizer.py.
use ads_bidding_optimizer.Prelude.{
  ◌≡◌, refl, ap, ◌⊎◌, ℕ, zero, suc, ◌-◌, Bool, true, false, Option, List, [], ◌∷◌, length, All,
  Bool-cases, inl, inr, if◌then◌else◌,
}
use ads_bidding_optimizer.Float.{
  Float, ◌⊗◌, ◌<?◌, ◌≼◌, nought, unit, clamp_min, clamp_max, IsOrdered, IsRounded,
}
use ads_bidding_optimizer.Arrays.{Arrays}
use ads_bidding_optimizer.Dict.{or_default}
use ads_bidding_optimizer.Optimizer.{unless_loss}
use ads_bidding_optimizer.Optimizer.Grid.{
  le_of_not_lt, le_of_lt, unless_loss_nonneg, le-unless_loss,
}
use ads_bidding_optimizer.Optimizer.Newton.{
  Search, newton_step, newton_steps, converged, profit_at, newton_from, worst, newton_search,
  mdn_search, bins_search, starts_frac, newton_optimize_mdn, newton_optimize_bins,
}

-- The bid and the profit are those that one of the starts ends with, or else `other`.
abbrev pub KeptOr {ℓ} : {W : Type ℓ} ⦃f : Float W⦄ → Search W → ℕ → W × W → List W → W × W → Type ℓ
KeptOr s n other [] r = r ≡ other
KeptOr ⦃f⦄ s n other (frac ∷ starts) r =
    let b = converged s n (clamp_min (f.lit 5 1) (s.value ⊗ frac)) in
    (r ≡ (b, profit_at s b)) ⊎ KeptOr s n other starts r

-- What a search promises: a bid of at most the value it searches with, a profit that is no loss, no
-- better start, and that the profit is the one of the bid.
abbrev pub Promised {ℓ} : {W : Type ℓ} ⦃f : Float W⦄ → Search W → ℕ → List W → W × W → Type ℓ
Promised ⦃f⦄ s n starts r =
    (nought ≼ r.0)
    × (r.0 ≼ s.value)
    × (nought ≼ r.1)
    × All (λ frac. profit_at s (converged s n (clamp_min (f.lit 5 1) (s.value ⊗ frac))) ≼ r.1)
        starts
    × KeptOr s n (nought, nought) starts r

module _ {ℓ} {W : Type ℓ} ⦃f : Float W⦄ (s : Search W) (n : ℕ) where
  kept_other : (other : W × W) (starts : List W) → KeptOr s n other starts other
  kept_other other [] = refl
  kept_other other (frac ∷ starts) = inr (kept_other other starts)

  kept_or :
      (x y : W × W) (starts : List W) (r : W × W)
      → KeptOr s n x starts r
      → (r ≡ x) ⊎ KeptOr s n y starts r
  kept_or x y [] r h = inl h
  kept_or x y (frac ∷ starts) r (inl e) = inr (inl e)
  kept_or x y (frac ∷ starts) r (inr h) = elim (kept_or x y starts r h) [
    | inl e ↦ inl e
    | inr k ↦ inr (inr k)
  ]

  newton_from-KeptOr :
      (starts : List W) (best_b best_p : W)
      → KeptOr s n (best_b, best_p) starts (newton_from s n starts best_b best_p)
  unfolding newton_from
  newton_from-KeptOr [] best_b best_p = refl
  newton_from-KeptOr (frac ∷ starts) best_b best_p =
      let b = converged s n (clamp_min (f.lit 5 1) (s.value ⊗ frac)) in
      elim (Bool-cases (best_p <? profit_at s b)) [
        | inl more ↦ rw more (
            kept_or (b, profit_at s b) (best_b, best_p) starts _
              (newton_from-KeptOr starts b (profit_at s b)))
        | inr less ↦ rw less (inr (newton_from-KeptOr starts best_b best_p))
      ]

  newton_search-KeptOr :
      (starts : List W)
      → (worst <? nought {W = W}) ≡ true
      → KeptOr s n (nought, nought) starts (newton_search s n starts)
  unfolding newton_search
  newton_search-KeptOr starts below =
      let r = newton_from s n starts nought worst in
      elim (Bool-cases (r.1 <? nought)) [
        | inl loss ↦ rw loss (kept_other (nought, nought) starts)
        | inr gain ↦
            rw gain
              (elim (kept_or (nought, worst) (nought, nought) starts r
                (newton_from-KeptOr starts nought worst)) [
                  | inl e ↦ let same = ap (λ (t : W × W). t.1 <? nought) e in absurd (cc)
                  | inr h ↦ h
                ])
      ]

module _ {ℓ} {W : Type ℓ} ⦃f : Float W⦄ (ordered : IsOrdered W) (rounded : IsRounded W) where
  open ordered use {le_refl, le_trans}

  le-clamp_min : (lo x : W) → lo ≼ clamp_min lo x
  le-clamp_min lo x = elim (Bool-cases (x <? lo)) [
    | inl below ↦ rw below (le_refl lo)
    | inr above ↦ rw above (le_of_not_lt ordered x lo above)
  ]

  le-clamp_max : (lo hi x : W) → lo ≼ hi → lo ≼ x → lo ≼ clamp_max hi x
  le-clamp_max lo hi x h k = elim (Bool-cases (hi <? x)) [
    | inl above ↦ rw above h
    | inr below ↦ rw below k
  ]

  -- a search whose bounds are not negative
  module _ (s : Search W) (value_nonneg : nought ≼ s.value) (leave_nonneg : nought ≼ s.leave_min)
      (max_nonneg : nought ≼ s.b_max) where
    newton_step_nonneg : (b : W) → nought ≼ newton_step s b
    unfolding newton_step
    newton_step_nonneg b =
        le-clamp_max nought s.b_max _ max_nonneg
          (le_trans nought s.leave_min _ leave_nonneg (le-clamp_min s.leave_min _))

    newton_steps_nonneg : (n : ℕ) (b : W) → nought ≼ b → nought ≼ newton_steps s n b
    unfolding newton_steps
    newton_steps_nonneg zero b h = h
    newton_steps_nonneg (suc n) b h = newton_steps_nonneg n (newton_step s b) (newton_step_nonneg b)

    abbrev Affordable : W → Type 0
    Affordable b = (nought ≼ b) × (b ≼ s.value)

    converged-Affordable : (n : ℕ) (b : W) → nought ≼ b → Affordable (converged s n b)
    unfolding converged
    converged-Affordable n b h = elim (Bool-cases (s.value <? newton_steps s n b)) [
      | inl above ↦ rw above (value_nonneg, le_refl s.value)
      | inr below ↦ rw below (newton_steps_nonneg n b h, le_of_not_lt ordered s.value _ below)
    ]

    -- the bid that a start fraction ends with
    abbrev pub bid_from : ℕ → W → W
    bid_from n frac = converged s n (clamp_min (f.lit 5 1) (s.value ⊗ frac))

    bid_from-Affordable : (n : ℕ) (frac : W) → Affordable (bid_from n frac)
    bid_from-Affordable n frac =
        converged-Affordable n _
          (le_trans nought (f.lit 5 1) _ (rounded.lit_nonneg 5 1) (le-clamp_min (f.lit 5 1) _))

    newton_from-Affordable :
        (n : ℕ) (starts : List W) (best_b best_p : W)
        → Affordable best_b
        → Affordable (newton_from s n starts best_b best_p).0
    unfolding newton_from
    newton_from-Affordable n [] best_b best_p h = h
    newton_from-Affordable n (frac ∷ starts) best_b best_p h =
        newton_from-Affordable n starts _ _ (kept (best_p <? profit_at s (bid_from n frac)))
      where
        kept : (t : Bool) → Affordable (if t then bid_from n frac else best_b)
        kept true = bid_from-Affordable n frac
        kept false = h

  better :
      (best p : W)
      → (best ≼ (if best <? p then p else best)) × (p ≼ (if best <? p then p else best))
  better best p = elim (Bool-cases (best <? p)) [
    | inl more ↦ rw more (le_of_lt ordered best p more, le_refl p)
    | inr less ↦ rw less (le_refl best, le_of_not_lt ordered best p less)
  ]

  newton_from-best :
      (s : Search W) (n : ℕ) (starts : List W) (best_b best_p : W)
      → let r = (newton_from s n starts best_b best_p).1 in
        (best_p ≼ r)
        × All
            (λ frac. profit_at s (converged s n (clamp_min (f.lit 5 1) (s.value ⊗ frac))) ≼ r)
            starts
  unfolding newton_from
  newton_from-best s n [] best_b best_p = (le_refl best_p, tt)
  newton_from-best s n (frac ∷ starts) best_b best_p =
      let b = converged s n (clamp_min (f.lit 5 1) (s.value ⊗ frac)) in
      let step = better best_p (profit_at s b) in
      let ih =
        newton_from-best s n starts (if best_p <? profit_at s b then b else best_b)
          (if best_p <? profit_at s b then profit_at s b else best_p) in
      (le_trans _ _ _ step.0 ih.0, (le_trans _ _ _ step.1 ih.0, ih.1))

  All-le :
      (g : W → W) (x y : W) (xs : List W) → x ≼ y → All (λ e. g e ≼ x) xs → All (λ e. g e ≼ y) xs
  All-le g x y [] h hs = tt
  All-le g x y (e ∷ xs) h hs = (le_trans (g e) x y hs.0 h, All-le g x y xs h hs.1)

  no_bid-Affordable :
      (s : Search W) (b p : W)
      → nought ≼ s.value
      → (nought ≼ b) × (b ≼ s.value)
      → (nought ≼ unless_loss p b) × (unless_loss p b ≼ s.value)
  no_bid-Affordable s b p v h = elim (Bool-cases (p <? nought)) [
    | inl loss ↦ rw loss (le_refl nought, v)
    | inr gain ↦ rw gain h
  ]

  newton_search-Promised :
      (s : Search W) (n : ℕ) (starts : List W)
      → nought ≼ s.value
      → nought ≼ s.leave_min
      → nought ≼ s.b_max
      → (worst <? nought {W = W}) ≡ true
      → Promised s n starts (newton_search s n starts)
  unfolding newton_search
  newton_search-Promised s n starts v l m below =
      let r = newton_from s n starts nought worst in
      let bid = newton_from-Affordable s v l m n starts nought worst (le_refl nought, v) in
      let fits = no_bid-Affordable s r.0 r.1 v bid in
      (
        fits.0,
        fits.1,
        unless_loss_nonneg ordered r.1,
        All-le _ r.1 _ starts (le-unless_loss ordered r.1)
            (newton_from-best s n starts nought worst).1,
        newton_search-KeptOr s n starts below,
      )

  value_nonneg : (V : W) → nought ≼ clamp_min unit V
  value_nonneg V = le_trans nought unit _ rounded.nought-le-unit (le-clamp_min unit V)

  -- For an upper limit of at least 0, and where -1e18 is below 0, the Newton search over the mixture
  -- returns a bid between 0 and the greater of the value and 1, which it takes for the value; its
  -- profit is at least 0 and at least the profit that each of its starts ends with; and the bid and
  -- the profit are those that one of the starts ends with, or are both 0. This holds whatever the
  -- steps do and whatever is taken to be NaN.
  newton_optimize_mdn-Promised :
      ⦃a : Arrays W⦄
      → (is_nan : W → Bool) (pi_logits mu sigma : List W) (V : W) (n_iters n_starts : ℕ) (b_max : W)
      → nought ≼ b_max
      → (worst <? nought {W = W}) ≡ true
      → Promised
          (mdn_search is_nan pi_logits mu sigma V b_max)
          n_iters
          (starts_frac n_starts)
          (newton_optimize_mdn is_nan pi_logits mu sigma V n_iters n_starts b_max)
  unfolding newton_optimize_mdn mdn_search
  newton_optimize_mdn-Promised is_nan pi_logits mu sigma V n_iters n_starts b_max h below =
      newton_search-Promised (mdn_search is_nan pi_logits mu sigma V b_max) n_iters
        (starts_frac n_starts) (value_nonneg V) (rounded.lit_nonneg 5 1) h below

  -- For an upper limit of at least 0, and where -1e18 is below 0, the Newton search over the bins
  -- returns a bid between 0 and the greater of the value and 1, which it takes for the value; its
  -- profit is at least 0 and at least the profit that each of its starts ends with; and the bid and
  -- the profit are those that one of the starts ends with, or are both 0. This holds whatever the
  -- steps do and whatever is taken to be NaN.
  pub newton_optimize_bins-Promised :
      ⦃a : Arrays W⦄
      → (is_nan : W → Bool) (floor : W → ℕ) (probs : List W) (V : W) (n_iters n_starts : ℕ)
        (b_max : Option W)
      → nought ≼ or_default (f.of_ℕ (length probs - 1)) b_max
      → (worst <? nought {W = W}) ≡ true
      → Promised
          (bins_search is_nan floor probs V b_max)
          n_iters
          (starts_frac n_starts)
          (newton_optimize_bins is_nan floor probs V n_iters n_starts b_max)
  unfolding newton_optimize_bins bins_search
  newton_optimize_bins-Promised is_nan floor probs V n_iters n_starts b_max h below =
      newton_search-Promised (bins_search is_nan floor probs V b_max) n_iters (starts_frac n_starts)
        (value_nonneg V) (le_refl nought) h below
