-- ===== src/Evaluate/Chunked.antt =====
-- A theorem on the chunks of rows in rtb-bid-model/src/evaluate.py.
use ads_bidding_optimizer.Prelude.{
  ℕ, zero, suc, ◌+◌, ◌-◌, ◌≤◌, ◌<◌, ◌≡◌, sym, ap, ◌∙◌, min, Bool-cases, inl, inr, List, ◌++◌, map,
  length, take, drop, ltb, take_all, drop_all, take-append-drop, append-nil, length-drop, arith,
}
use mathlib.Core.List.{map-append}
use native.Mathlib.Decide.{dec_lt}
use ads_bidding_optimizer.Float.{Float}
use ads_bidding_optimizer.Arrays.{Arrays}
use ads_bidding_optimizer.Dataset.Batches.{drop-drop}
use ads_bidding_optimizer.Evaluate.{
  BinsRow, Value, slice, chunked, bins_bid, bins_regrets, regret_metrics_bins_grid, MdnRow, mdn_bid,
  mdn_regrets, regret_metrics_mdn_grid,
}

module _ {ℓ} {A : Type ℓ} (batch_size : ℕ) (rows : List A) where
  pub slice_rest :
      (i : ℕ)
      → slice i (min (i + batch_size) (length rows)) rows ++ drop (i + batch_size) rows
        ≡ drop i rows
  slice_rest i = elim (dec_lt (i + batch_size) (length rows)) [
    | yes inside ↦
        let e : min (i + batch_size) (length rows) - i ≡ batch_size = omega arith in
        ap (λ k. take k (drop i rows) ++ drop (i + batch_size) rows) e
        ∙ ap (λ t. take batch_size (drop i rows) ++ t) (sym (drop-drop batch_size i rows))
        ∙ take-append-drop batch_size (drop i rows)
    | no past ↦
        ap (λ t. slice i (min (i + batch_size) (length rows)) rows ++ t)
          (drop_all (i + batch_size) rows (omega arith))
        ∙ append-nil _
        ∙ take_all _ (drop i rows) (omega (arith, length-drop i rows))
  ]

module _ {ℓ κ} {A : Type ℓ} {B : Type κ} (g : A → B) (batch_size : ℕ) (positive : 0 < batch_size)
    (rows : List A) where
  pub chunked-map :
      (fuel i : ℕ)
      → length rows ≤ i + fuel
      → chunked fuel (map g) batch_size i rows ≡ map g (drop i rows)
  unfolding chunked
  chunked-map zero i enough = sym (ap (map g) (drop_all i rows (omega arith)))
  chunked-map (suc fuel) i enough = elim (Bool-cases (ltb i (length rows))) [
    | inl more ↦ rw more (
        ap (λ r. map g (slice i (min (i + batch_size) (length rows)) rows) ++ r)
          (chunked-map fuel (i + batch_size) (omega arith))
        ∙ sym (map-append g _ _)
        ∙ ap (map g) (slice_rest batch_size rows i))
    | inr over ↦ rw over (sym (ap (map g) (drop_all i rows (ground arith))))
  ]

module _ {ℓ} {W : Type ℓ} ⦃f : Float W⦄ ⦃a : Arrays W⦄ where
  -- The regret of the bids of a model over a data set is that of bidding row by row: for a batch
  -- size of at least 1 the bids, and the regrets computed from them, do not depend on the size of
  -- the chunks, for the bins model and for the mixture model.
  pub regret_metrics-by_row :
      (bins : List (BinsRow W)) (mdn : List (MdnRow W)) (v : Value W) (n_candidates : ℕ) (b_max : W)
      (batch_size : ℕ)
      → 0 < batch_size
      → (regret_metrics_bins_grid bins v batch_size
          ≡ (bins_regrets v bins (map (bins_bid v) bins), map (bins_bid v) bins))
        × (regret_metrics_mdn_grid mdn v n_candidates b_max batch_size ≡ (
          mdn_regrets v mdn (map (mdn_bid v n_candidates b_max) mdn),
          map (mdn_bid v n_candidates b_max) mdn,
        ))
  unfolding regret_metrics_bins_grid regret_metrics_mdn_grid
  regret_metrics-by_row bins mdn v n_candidates b_max batch_size positive = (
    ap (λ bids. (bins_regrets v bins bids, bids))
        (chunked-map (bins_bid v) batch_size positive bins (length bins) 0 (omega arith)),
    ap (λ bids. (mdn_regrets v mdn bids, bids))
        (chunked-map (mdn_bid v n_candidates b_max) batch_size positive mdn (length mdn) 0
          (omega arith)),
  )
