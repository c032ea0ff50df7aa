-- ===== src/Edges/Rising.antt =====
-- Theorems on `make_edges` and `assign_bins` of rtb-bid-model/src/experiments/bins_v2.py.
use ads_bidding_optimizer.Prelude.{
  ℕ, ◌+◌, ◌≤◌, ◌<◌, List, [], ◌∷◌, length, All, Bool-cases, inl, inr, if◌then◌else◌, arith,
}
use ads_bidding_optimizer.Float.{Float, ◌⊕◌, ◌≤?◌, ◌≼◌, IsOrdered}
use ads_bidding_optimizer.Arrays.{Arrays}
use ads_bidding_optimizer.Edges.{lift_ties, without_ties, quantile_edges, assign_bins}

-- no number of a list is below the one before it
abbrev pub Rising {ℓ} : {W : Type ℓ} ⦃f : Float W⦄ → List W → Type 0
Rising [] = Unit
Rising (x ∷ []) = Unit
Rising (x ∷ y ∷ ys) = (x ≼ y) × Rising (y ∷ ys)

module _ {ℓ} {W : Type ℓ} ⦃f : Float W⦄ (ordered : IsOrdered W) where
  lifted :
      (lifts : (x : W) → x ≼ x ⊕ f.lit 1 3) (previous x : W)
      → previous ≼ (if x ≤? previous then previous ⊕ f.lit 1 3 else x)
  lifted lifts previous x = elim (Bool-cases (x ≤? previous)) [
    | inl tie ↦ rw tie (lifts previous)
    | inr above ↦ rw above (ground (arith, ordered.le_total previous x, above))
  ]

  lift_ties-Rising :
      (lifts : (x : W) → x ≼ x ⊕ f.lit 1 3) (previous : W) (xs : List W)
      → Rising (previous ∷ lift_ties previous xs)
  unfolding lift_ties
  lift_ties-Rising lifts previous [] = tt
  lift_ties-Rising lifts previous (x ∷ xs) = (
    lifted lifts previous x,
    lift_ties-Rising lifts (if x ≤? previous then previous ⊕ f.lit 1 3 else x) xs,
  )

  without_ties-Rising :
      (lifts : (x : W) → x ≼ x ⊕ f.lit 1 3) (xs : List W) → Rising (without_ties xs)
  unfolding without_ties
  without_ties-Rising lifts [] = tt
  without_ties-Rising lifts (x ∷ xs) = lift_ties-Rising lifts x xs

  -- Where adding 1e-3 does not make a number smaller, the edges by quantiles never fall, for any
  -- quantiles and any prices, also after the first and the last edge are overwritten.
  quantile_edges-Rising :
      ⦃a : Arrays W⦄
      → (lifts : (x : W) → x ≼ x ⊕ f.lit 1 3) (np_quantile : List W → List W → List W)
        (num_bins : ℕ) (train_pp : List W) (max_price : W)
      → Rising (quantile_edges np_quantile num_bins train_pp max_price)
  unfolding quantile_edges
  quantile_edges-Rising lifts np_quantile num_bins train_pp max_price = without_ties-Rising lifts _

-- With at least two edges every price gets a bin below the number of bins, one less than the number
-- of edges, whatever `np.digitize` returns.
pub assign_bins-bound {ℓ} :
    {W : Type ℓ} (digitize : W → List W → ℕ) (pp edges : List W)
    → 2 ≤ length edges
    → All (λ b. b + 1 < length edges) (assign_bins digitize pp edges)
unfolding assign_bins
assign_bins-bound digitize [] edges h = tt
assign_bins-bound digitize (p ∷ pp) edges h = (omega arith, assign_bins-bound digitize pp edges h)
