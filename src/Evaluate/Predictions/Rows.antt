-- ===== src/Evaluate/Predictions/Rows.antt =====
-- Theorems on the predictions and the Newton regrets of rtb-bid-model/src/evaluate.py.
use ads_bidding_optimizer.Prelude.{
  ℕ, ◌<◌, ◌≡◌, sym, ap, ◌∙◌, false, Bool, none, some, List, [], ◌∷◌, ◌++◌, map, length, append-nil,
  append_assoc, arith,
}
use mathlib.Core.List.{map-append}
use ads_bidding_optimizer.Float.{Float}
use ads_bidding_optimizer.Arrays.{Arrays}
use ads_bidding_optimizer.Dataset.{iter_batches}
use ads_bidding_optimizer.Dataset.Batches.{iter_batches_rows}
use ads_bidding_optimizer.Features.Parse.{concat}
use ads_bidding_optimizer.Evaluate.{BinsRow, MdnRow, Value, bins_regrets, mdn_regrets}
use ads_bidding_optimizer.Evaluate.Chunked.{chunked-map}
use ads_bidding_optimizer.Evaluate.Predictions.{
  collect_batches, collect_predictions, newton_bins_bid, newton_mdn_bid, regret_bins_newton,
  regret_metrics_mdn_newton,
}

module _ {ℓ κ} {A : Type ℓ} {B : Type κ} (predict : A → B) where
  collect_batches-map :
      (batches : List (List A)) (out : List B)
      → collect_batches predict batches out ≡ out ++ map predict (concat batches)
  unfolding collect_batches
  collect_batches-map [] out = sym (append-nil out)
  collect_batches-map (batch ∷ batches) out =
      collect_batches-map batches (out ++ map predict batch)
      ∙ append_assoc out (map predict batch) _
      ∙ ap (λ t. out ++ t) (sym (map-append predict batch (concat batches)))

  collected :
      (batches : List (List A)) (s : A) (samples : List A)
      → concat batches ≡ s ∷ samples
      → elim batches [ [] ↦ none | batch ∷ rest ↦ some (collect_batches predict (batch ∷ rest) []) ]
        ≡ some (map predict (s ∷ samples))
  collected [] s samples e = absurd (cc)
  collected (batch ∷ rest) s samples e =
      ap some (collect_batches-map (batch ∷ rest) [] ∙ ap (map predict) e)

  -- For a batch size of at least 1 and at least one row, the predictions that are collected batch by
  -- batch are those of the rows, one for each and in their order, whatever the batch size.
  pub collect_predictions_rows :
      (s : A) (samples : List A) (batch_size : ℕ)
      → 0 < batch_size
      → collect_predictions predict (s ∷ samples) batch_size ≡ some (map predict (s ∷ samples))
  unfolding collect_predictions
  collect_predictions_rows s samples batch_size h =
      collected (iter_batches (s ∷ samples) batch_size false) s samples
        (iter_batches_rows (s ∷ samples) batch_size h).0

module _ {ℓ} {W : Type ℓ} ⦃f : Float W⦄ ⦃a : Arrays W⦄ where
  -- The regrets of the Newton bids are those of bidding row by row, for a batch size of at least 1.
  pub newton_regrets-by_row :
      (is_nan : W → Bool) (floor : W → ℕ) (bins : List (BinsRow W)) (mdn : List (MdnRow W))
      (v : Value W) (b_max : W) (batch_size : ℕ)
      → 0 < batch_size
      → (regret_bins_newton is_nan floor bins v batch_size
          ≡ bins_regrets v bins (map (newton_bins_bid is_nan floor v) bins))
        × (regret_metrics_mdn_newton is_nan mdn v b_max batch_size ≡ (
          mdn_regrets v mdn (map (newton_mdn_bid is_nan v b_max) mdn),
          map (newton_mdn_bid is_nan v b_max) mdn,
        ))
  unfolding regret_bins_newton regret_metrics_mdn_newton
  newton_regrets-by_row is_nan floor bins mdn v b_max batch_size h = (
    ap (bins_regrets v bins) (
        chunked-map (newton_bins_bid is_nan floor v) batch_size h bins (length bins) 0
          (omega arith)),
    ap (λ bids. (mdn_regrets v mdn bids, bids))
        (chunked-map (newton_mdn_bid is_nan v b_max) batch_size h mdn (length mdn) 0 (omega arith)),
  )
