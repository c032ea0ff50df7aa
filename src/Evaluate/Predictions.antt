-- ===== src/Evaluate/Predictions.antt =====
-- `collect_predictions` of rtb-bid-model/src/evaluate.py, and its regrets of the Newton bids. In
-- evaluation the network treats each row alike, so it is an argument that takes one input; `.long()`
-- and the tests of the Newton search are torch's and are arguments.
pub mod Rows
use ads_bidding_optimizer.Prelude.{
  ℕ, ◌-◌, min, false, Option, none, some, List, [], ◌∷◌, ◌++◌, map, length, get_or,
}
use ads_bidding_optimizer.Prelude.Int.{ℤ, pos_part}
use ads_bidding_optimizer.Prelude.{Bool}
use ads_bidding_optimizer.Float.{Float, nought, clamp_min}
use ads_bidding_optimizer.Arrays.{Arrays}
use ads_bidding_optimizer.Dataset.{iter_batches}
use ads_bidding_optimizer.Loss.{mdn_log_prob}
use ads_bidding_optimizer.Optimizer.Newton.{newton_optimize_mdn, newton_optimize_bins}
use ads_bidding_optimizer.Evaluate.{
  BinsRow, MdnRow, Value, value_of, chunked, bins_regrets, mdn_regrets,
}

-- a row of the data set
pub record Sample {ℓ κ} (I : Type ℓ) (W : Type κ) : Type (ℓ ⊔ κ) where
  pub input : I
  pub log_pp : W
  pub pp : W
  pub bid : W

-- the body of the loop appends what it computes for the rows of a batch
unfoldable pub collect_batches {ℓ κ} :
    {A : Type ℓ} {B : Type κ} → (A → B) → List (List A) → List B → List B
collect_batches predict [] out = out
collect_batches predict (batch ∷ batches) out =
    collect_batches predict batches (out ++ map predict batch)

-- `torch.cat` raises for no batches
unfoldable pub collect_predictions {ℓ κ} :
    {A : Type ℓ} {B : Type κ} → (A → B) → List A → ℕ → Option (List B)
collect_predictions predict samples batch_size = elim (iter_batches samples batch_size false) [
  | [] ↦ none
  | batch ∷ batches ↦ some (collect_batches predict (batch ∷ batches) [])
]

module _ {ℓ κ} {I : Type ℓ} {W : Type κ} ⦃f : Float W⦄ ⦃a : Arrays W⦄ where
  -- a row of the predictions, with its `log_prob`
  unfoldable pub predict_bins : (I → List W) → (W → ℤ) → ℕ → Sample I W → BinsRow W × W
  predict_bins model long num_bins b =
      let probs = a.softmax (model b.input) in
      let pp_int = min (pos_part (long b.pp)) (num_bins - 1) in
      (
        record { probs = probs; pp = b.pp; bid = b.bid },
        a.log (clamp_min (f.lit 1 30) (get_or probs pp_int nought)),
      )

  -- the network's output is the three rows of a mixture
  unfoldable pub predict_mdn : (I → List W × List W × List W) → Sample I W → MdnRow W × W
  predict_mdn model b =
      let (pi_logits, mu, sigma) = model b.input in
      (
        record {
          pi_logits = pi_logits;
          mu = mu;
          sigma = sigma;
          log_pp = b.log_pp;
          pp = b.pp;
          bid = b.bid;
        },
        mdn_log_prob pi_logits mu sigma b.log_pp,
      )

module _ {ℓ} {W : Type ℓ} ⦃f : Float W⦄ ⦃a : Arrays W⦄ where
  unfoldable pub newton_bins_bid : (W → Bool) → (W → ℕ) → Value W → BinsRow W → W
  newton_bins_bid is_nan floor v r =
      (newton_optimize_bins is_nan floor r.probs (value_of v r.bid) 15 8 none).0

  unfoldable pub newton_mdn_bid : (W → Bool) → Value W → W → MdnRow W → W
  newton_mdn_bid is_nan v b_max r =
      (newton_optimize_mdn is_nan r.pi_logits r.mu r.sigma (value_of v r.bid) 25 8 b_max).0

  unfoldable pub regret_bins_newton : (W → Bool) → (W → ℕ) → List (BinsRow W) → Value W → ℕ → List W
  regret_bins_newton is_nan floor rows v batch_size =
      bins_regrets v rows
        (chunked (length rows) (map (newton_bins_bid is_nan floor v)) batch_size 0 rows)

  unfoldable pub regret_metrics_mdn_newton :
      (W → Bool) → List (MdnRow W) → Value W → W → ℕ → List W × List W
  regret_metrics_mdn_newton is_nan rows v b_max batch_size =
      let bids = chunked (length rows) (map (newton_mdn_bid is_nan v b_max)) batch_size 0 rows in
      (mdn_regrets v rows bids, bids)
