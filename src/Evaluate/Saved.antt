-- ===== src/Evaluate/Saved.antt =====
-- The evaluations of saved predictions: `main` of rtb-bid-model/src/experiments/eval_preds.py, and
-- collect_mdn, collect_bins and compute_metrics of eval_ckpts_batch.py beside it, for at least one
-- row. The network is an argument, and so are the calls of torch that `Evaluate.Predictions` takes.
pub mod Inline
pub mod Same
use ads_bidding_optimizer.Prelude.{ℕ, ◌+◌, Bool, Option, none, some, List, [], map, length, false}
use ads_bidding_optimizer.Prelude.Int.{ℤ}
use ads_bidding_optimizer.Float.{Float, ◌⊖◌, nought}
use ads_bidding_optimizer.Arrays.{Arrays}
use ads_bidding_optimizer.Dict.{Dict, Text}
use ads_bidding_optimizer.Loss.{batch_mean}
use ads_bidding_optimizer.Evaluate.{
  BinsRow, MdnRow, Value, chunked, bins_bid, mdn_bid, bins_regrets, mdn_regrets,
}
use ads_bidding_optimizer.Evaluate.Saved.Inline.{
  saved_percentiles, saved_pit_bins, saved_pit_mdn, saved_ks, saved_coverage, saved_per_adv,
}
use ads_bidding_optimizer.Evaluate.Predictions.{
  Sample, collect_predictions, predict_bins, predict_mdn, newton_bins_bid, newton_mdn_bid,
}

-- the rows of a file of predictions with their `log_prob`
pub data Loaded {ℓ} (W : Type ℓ) : Type ℓ where
  bins : List (BinsRow W × W) → Loaded W
  mdn : List (MdnRow W × W) → Loaded W

-- `res` of eval_preds.py
pub record SavedResults {ℓ} (W : Type ℓ) : Type ℓ where
  pub anlp : W
  pub ks : Option W
  pub coverage : List (W × W)
  pub regret_v150_grid : W
  pub regret_v150_newton : W
  pub regret_vbid_grid : W
  pub regret_vbid_newton : W
  pub per_adv_regret_v150 : Dict Text W

-- what compute_metrics returns
pub record CkptMetrics {ℓ} (W : Type ℓ) : Type ℓ where
  pub anlp : W
  pub ks : Option W
  pub r150 : W
  pub rvb : W

module _ {ℓ} {W : Type ℓ} ⦃f : Float W⦄ ⦃a : Arrays W⦄ where
  unfoldable pub saved_anlp : Loaded W → W
  saved_anlp (Loaded.bins rows) = nought ⊖ batch_mean (map (λ r. r.1) rows)
  saved_anlp (Loaded.mdn rows) = nought ⊖ batch_mean (map (λ r. r.1 ⊖ (r.0).log_pp) rows)

  unfoldable pub saved_pit : (W → ℤ) → Loaded W → List W
  saved_pit long (Loaded.bins rows) = map (λ r. saved_pit_bins long r.0) rows
  saved_pit long (Loaded.mdn rows) = map (λ r. saved_pit_mdn r.0) rows

  -- `bids_grid`, in chunks of 16384 rows
  unfoldable pub bids_grid : Value W → Loaded W → List W
  bids_grid v (Loaded.bins rows) = chunked (length rows) (map (λ r. bins_bid v r.0)) 16384 0 rows
  bids_grid v (Loaded.mdn rows) =
      chunked (length rows) (map (λ r. mdn_bid v 500 (f.lit 300 0) r.0)) 16384 0 rows

  unfoldable pub bids_newton : (W → Bool) → (W → ℕ) → Value W → Loaded W → List W
  bids_newton is_nan floor v (Loaded.bins rows) =
      chunked (length rows) (map (λ r. newton_bins_bid is_nan floor v r.0)) 16384 0 rows
  bids_newton is_nan floor v (Loaded.mdn rows) =
      chunked (length rows) (map (λ r. newton_mdn_bid is_nan v (f.lit 300 0) r.0)) 16384 0 rows

  -- `regret(bids, None, pp, V)`
  unfoldable pub saved_regrets : Value W → Loaded W → List W → List W
  saved_regrets v (Loaded.bins rows) bids = bins_regrets v (map (λ r. r.0) rows) bids
  saved_regrets v (Loaded.mdn rows) bids = mdn_regrets v (map (λ r. r.0) rows) bids

  unfoldable pub eval_preds :
      (W → Bool) → (W → ℕ) → (W → ℤ) → Option (List Text) → Loaded W → SavedResults W
  eval_preds is_nan floor long adv d =
      let pit = saved_pit long d in
      let v150 : Value W = Value.fixed (f.lit 150 0) in
      let reg150 = saved_regrets v150 d (bids_grid v150 d) in
      record {
        anlp = saved_anlp d;
        ks = saved_ks pit;
        coverage = saved_coverage pit saved_percentiles;
        regret_v150_grid = batch_mean reg150;
        regret_v150_newton = batch_mean (saved_regrets v150 d (bids_newton is_nan floor v150 d));
        regret_vbid_grid = batch_mean (saved_regrets Value.bidding d (bids_grid Value.bidding d));
        regret_vbid_newton =
            batch_mean (saved_regrets Value.bidding d (bids_newton is_nan floor Value.bidding d));
        per_adv_regret_v150 = saved_per_adv adv reg150;
      }

  unfoldable pub compute_metrics : (W → ℤ) → Loaded W → CkptMetrics W
  compute_metrics long d =
      let v150 : Value W = Value.fixed (f.lit 150 0) in
      record {
        anlp = saved_anlp d;
        ks = saved_ks (saved_pit long d);
        r150 = batch_mean (saved_regrets v150 d (bids_grid v150 d));
        rvb = batch_mean (saved_regrets Value.bidding d (bids_grid Value.bidding d));
      }

module _ {ℓ κ} {I : Type ℓ} {W : Type κ} ⦃f : Float W⦄ ⦃a : Arrays W⦄ where
  unfoldable pub collect_bins :
      (I → List W) → (W → ℤ) → ℕ → List (Sample I W) → Option (List (BinsRow W × W))
  collect_bins model long num_bins ds =
      collect_predictions (predict_bins model long num_bins) ds 8192

  unfoldable pub collect_mdn :
      (I → List W × List W × List W) → List (Sample I W) → Option (List (MdnRow W × W))
  collect_mdn model ds = collect_predictions (predict_mdn model) ds 8192
