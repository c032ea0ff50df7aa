-- ===== src/Edges.antt =====
-- rtb-bid-model/src/experiments/bins_v2.py: the edges of the price bins, and the bins of prices.
-- `np.quantile` and `np.digitize` are arguments.
pub mod Remap
pub mod Rising
use ads_bidding_optimizer.Prelude.{
  ℕ, ◌+◌, ◌-◌, min, Option, none, some, List, [], ◌∷◌, map, length, if◌then◌else◌,
}
use ads_bidding_optimizer.Float.{Float, ◌⊕◌, ◌⊖◌, ◌⊗◌, ◌≤?◌, nought, unit, clamp_min, clamp_max}
use ads_bidding_optimizer.Arrays.{Arrays}

-- `kind`, with any other string
pub data Kind : Type 0 where
  uniform logarithmic sqrt quantile other : Kind

module _ {ℓ} {W : Type ℓ} where
  -- `e[0] = x`, and `e[-1] = x`
  unfoldable pub set_first : W → List W → List W
  set_first x [] = []
  set_first x (y ∷ ys) = x ∷ ys

  unfoldable pub set_last : W → List W → List W
  set_last x [] = []
  set_last x (y ∷ []) = x ∷ []
  set_last x (y ∷ z ∷ zs) = y ∷ set_last x (z ∷ zs)

module _ {ℓ} {W : Type ℓ} ⦃f : Float W⦄ where
  -- the loop over the edges after `previous`, which lifts an edge that is not above the one before
  unfoldable pub lift_ties : W → List W → List W
  lift_ties previous [] = []
  lift_ties previous (x ∷ xs) =
      let edge = if x ≤? previous then previous ⊕ f.lit 1 3 else x in edge ∷ lift_ties edge xs

  unfoldable pub without_ties : List W → List W
  without_ties [] = []
  without_ties (x ∷ xs) = x ∷ lift_ties x xs

  -- `np.clip(train_pp, 0.0, max_price)`
  abbrev pub clipped : W → List W → List W
  clipped max_price train_pp = map (λ p. clamp_max max_price (clamp_min nought p)) train_pp

module _ {ℓ} {W : Type ℓ} ⦃f : Float W⦄ ⦃a : Arrays W⦄
    (np_quantile : List W → List W → List W) where
  -- the branch for 'quantile'
  unfoldable pub quantile_edges : ℕ → List W → W → List W
  quantile_edges num_bins train_pp max_price =
      let qs = a.linspace nought unit (num_bins + 1) in
      let e = np_quantile (clipped max_price train_pp) qs in
      without_ties (set_last max_price (set_first nought e))

  -- `none` for the `ValueError`
  unfoldable pub make_edges : Kind → ℕ → List W → W → Option (List W)
  make_edges uniform num_bins train_pp max_price = some (a.linspace nought max_price (num_bins + 1))
  make_edges logarithmic num_bins train_pp max_price = some (
      set_first nought (
        map (λ x. a.exp x ⊖ unit)
          (a.linspace (a.log unit) (a.log (max_price ⊕ unit)) (num_bins + 1))))
  make_edges sqrt num_bins train_pp max_price =
      some (map (λ u. u ⊗ u) (a.linspace nought (a.sqrt max_price) (num_bins + 1)))
  make_edges quantile num_bins train_pp max_price =
      some (quantile_edges num_bins train_pp max_price)
  make_edges other num_bins train_pp max_price = none

-- `np.clip(np.digitize(pp, edges) - 1, 0, len(edges) - 2)`; below 0 the subtraction stops, as the
-- clip does
unfoldable pub assign_bins {ℓ} : {W : Type ℓ} → (W → List W → ℕ) → List W → List W → List ℕ
assign_bins digitize pp edges = map (λ p. min (digitize p edges - 1) (length edges - 2)) pp
