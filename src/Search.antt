-- ===== src/Search.antt =====
-- rtb-bid-model/src/experiments/ens_search.py: the members' probabilities over the bins, and the two
-- regrets of an average of them. A member's array is a list of its rows; `int(np.ceil(V))` of a value
-- of at least 0 is the argument `ceil`.
pub mod Weights
pub mod Best
pub mod Agree
pub mod Streaming
pub mod Subset
pub mod Validated
pub mod Cached
pub mod Streamed
use ads_bidding_optimizer.Prelude.{
  ℕ, zero, suc, List, [], ◌∷◌, map, length, replicate, get_or, zip_with,
}
use ads_bidding_optimizer.Float.{Float, ◌⊕◌, ◌⊖◌, ◌⊗◌, ◌⊘◌, nought, clamp_min}
use ads_bidding_optimizer.Arrays.{Arrays, arange}
use ads_bidding_optimizer.Optimizer.{masked_profits, regret}
use ads_bidding_optimizer.Evaluate.{chunked}
use ads_bidding_optimizer.Ensemble.{bins_masses, mdn_masses, normalise}

-- a row of a mixture's predictions
pub record Mixture {ℓ} (W : Type ℓ) : Type ℓ where
  pub pi : List W
  pub mu : List W
  pub sigma : List W

-- the predictions of a member: those of a mixture model, or of a bins model
pub data Preds {ℓ} (W : Type ℓ) : Type ℓ where
  mixtures : List (Mixture W) → Preds W
  bins_rows : List (List W) → Preds W

-- a row of an average, with its clearing price and the bid of the log
pub record Priced {ℓ} (W : Type ℓ) : Type ℓ where
  pub probs : List W
  pub pp : W
  pub bid : W

module _ {ℓ} {W : Type ℓ} ⦃f : Float W⦄ where
  -- `(V - bins) * cdf`
  unfoldable pub grid_profits : W → List W → List W → List W
  grid_profits V bins_arr cdf = zip_with (λ b c. (V ⊖ b) ⊗ c) bins_arr cdf

  -- `profit[k:] = 0.0`
  unfoldable pub zero_from : ℕ → List W → List W
  zero_from zero profit = replicate (length profit) nought
  zero_from (suc k) [] = []
  zero_from (suc k) (x ∷ profit) = x ∷ zero_from k profit

  -- the loop `for i in range(M)`, `avg += w[i] * member_probs[i]`; there is a weight for each member
  unfoldable pub add_weighted : List W → ℕ → List (List W) → List W → List W
  add_weighted w i [] avg = avg
  add_weighted w i (p ∷ member_probs) avg =
      add_weighted w (suc i) member_probs (zip_with (λ x y. x ⊕ get_or w i nought ⊗ y) avg p)

  unfoldable pub weighted : ℕ → List W → List (List W) → List W
  weighted num_bins w member_probs = add_weighted w 0 member_probs (replicate num_bins nought)

module _ {ℓ} {W : Type ℓ} ⦃f : Float W⦄ ⦃a : Arrays W⦄ where
  -- `p / p.sum().clip(min=1e-30)`
  unfoldable pub clipped_normalise : List W → List W
  clipped_normalise p = map (λ x. x ⊘ clamp_min (f.lit 1 30) (a.sum p)) p

  unfoldable pub to_bins : ℕ → List W → List W
  to_bins num_bins probs = clipped_normalise (bins_masses probs num_bins)

  unfoldable pub mixture_to_bins : ℕ → Mixture W → List W
  mixture_to_bins num_bins m = normalise (mdn_masses m.pi m.mu m.sigma num_bins)

  unfoldable pub mdn_to_bins_chunked : ℕ → ℕ → List (Mixture W) → List (List W)
  mdn_to_bins_chunked num_bins chunk rows =
      chunked (length rows) (map (mixture_to_bins num_bins)) chunk 0 rows

  unfoldable pub load_member : ℕ → Preds W → List (List W)
  load_member num_bins (Preds.mixtures rows) = mdn_to_bins_chunked num_bins 10000 rows
  load_member num_bins (Preds.bins_rows rows) = map (to_bins num_bins) rows

  -- the bid for a fixed value, where the bins from `ceil(V)` on are left out
  unfoldable pub fixed_bid : (W → ℕ) → W → List W → W
  fixed_bid ceil V probs =
      let bins_arr = arange (length probs) in
      get_or bins_arr (a.argmax (zero_from (ceil V) (grid_profits V bins_arr (a.cumsum probs))))
        nought

  -- the bid for a row's own value, where the bins above it are left out
  unfoldable pub logged_bid : W → List W → W
  logged_bid bid probs =
      let bins_arr = arange (length probs) in
      get_or bins_arr (a.argmax (masked_profits bid bins_arr (a.cumsum probs))) nought

  -- `x.mean()`
  unfoldable pub mean : List W → W
  mean xs = a.sum xs ⊘ f.of_ℕ (length xs)

  unfoldable pub fixed_regrets : W → List (Priced W) → List W → List W
  fixed_regrets V rows bids = zip_with (λ r b. regret b r.pp V) rows bids

  unfoldable pub logged_regrets : List (Priced W) → List W → List W
  logged_regrets rows bids = zip_with (λ r b. regret b r.pp r.bid) rows bids

  unfoldable pub regret_v150_grid : (W → ℕ) → W → ℕ → List (Priced W) → W
  regret_v150_grid ceil V chunk rows = mean (
      fixed_regrets V rows
        (chunked (length rows) (map (λ r. fixed_bid ceil V r.probs)) chunk 0 rows))

  unfoldable pub regret_vbid_grid : List (Priced W) → W
  regret_vbid_grid rows = mean (logged_regrets rows (map (λ r. logged_bid r.bid r.probs) rows))
