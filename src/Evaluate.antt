-- ===== src/Evaluate.antt =====
-- rtb-bid-model/src/evaluate.py: the regret of a model's bids over a data set, row chunk by row
-- chunk, and the calibration metrics. The columns of the predictions are one list of rows.
pub mod Chunked
pub mod Predictions
pub mod Metrics
pub mod Calibration
pub mod Saved
use ads_bidding_optimizer.Prelude.{
  ℕ, zero, suc, ◌+◌, ◌-◌, min, List, [], ◌∷◌, ◌++◌, map, length, take, drop, get_or, ltb, leb,
  if◌then◌else◌,
}
use ads_bidding_optimizer.Float.{Float, ◌⊖◌, ◌⊘◌, ◌≤?◌, ◌<?◌, nought}
use ads_bidding_optimizer.Arrays.{Arrays}
use ads_bidding_optimizer.Optimizer.{Choice, grid_optimize_bins, grid_optimize_mdn, regret}

-- a row of the predictions of the bins model, and of the mixture model
pub record BinsRow {ℓ} (W : Type ℓ) : Type ℓ where
  pub probs : List W
  pub pp : W
  pub bid : W

pub record MdnRow {ℓ} (W : Type ℓ) : Type ℓ where
  pub pi_logits : List W
  pub mu : List W
  pub sigma : List W
  pub log_pp : W
  pub pp : W
  pub bid : W

-- `V_value`: 'bidding', or a number
pub data Value {ℓ} (W : Type ℓ) : Type ℓ where
  bidding : Value W
  fixed : W → Value W

abbrev pub value_of {ℓ} : {W : Type ℓ} → Value W → W → W
value_of bidding bid = bid
value_of (fixed v) bid = v

-- `rows[i:j]`
abbrev pub slice {ℓ} : {A : Type ℓ} → ℕ → ℕ → List A → List A
slice i j xs = take (j - i) (drop i xs)

-- `for i in range(0, n, batch_size)`: the bids of each slice, put together; `fuel` bounds the rounds,
-- and a round for each row is enough for a batch size of at least 1
unfoldable pub chunked {ℓ κ} :
    {A : Type ℓ} {B : Type κ} → ℕ → (List A → List B) → ℕ → ℕ → List A → List B
chunked zero body batch_size i rows = []
chunked (suc fuel) body batch_size i rows =
    let rest = chunked fuel body batch_size (i + batch_size) rows in
    if ltb i (length rows)
    then body (slice i (min (i + batch_size) (length rows)) rows) ++ rest
    else []

module _ {ℓ} {W : Type ℓ} ⦃f : Float W⦄ ⦃a : Arrays W⦄ where
  unfoldable pub bins_bid : Value W → BinsRow W → W
  bins_bid v r = (grid_optimize_bins r.probs (value_of v r.bid)).best_bid

  unfoldable pub mdn_bid : Value W → ℕ → W → MdnRow W → W
  mdn_bid v n_candidates b_max r =
      (grid_optimize_mdn r.pi_logits r.mu r.sigma (value_of v r.bid) n_candidates b_max).best_bid

  -- `regret(bids, None, pp, V)`, row by row
  unfoldable pub bins_regrets : Value W → List (BinsRow W) → List W → List W
  bins_regrets v [] bids = []
  bins_regrets v (r ∷ rows) [] = []
  bins_regrets v (r ∷ rows) (b ∷ bids) = regret b r.pp (value_of v r.bid) ∷ bins_regrets v rows bids

  unfoldable pub mdn_regrets : Value W → List (MdnRow W) → List W → List W
  mdn_regrets v [] bids = []
  mdn_regrets v (r ∷ rows) [] = []
  mdn_regrets v (r ∷ rows) (b ∷ bids) = regret b r.pp (value_of v r.bid) ∷ mdn_regrets v rows bids

  -- the regrets and the bids
  unfoldable pub regret_metrics_bins_grid : List (BinsRow W) → Value W → ℕ → List W × List W
  regret_metrics_bins_grid rows v batch_size =
      let bids = chunked (length rows) (map (bins_bid v)) batch_size 0 rows in
      (bins_regrets v rows bids, bids)

  unfoldable pub regret_metrics_mdn_grid : List (MdnRow W) → Value W → ℕ → W → ℕ → List W × List W
  regret_metrics_mdn_grid rows v n_candidates b_max batch_size =
      let bids = chunked (length rows) (map (mdn_bid v n_candidates b_max)) batch_size 0 rows in
      (mdn_regrets v rows bids, bids)
