-- ===== src/Sweep/Mean.antt =====
-- A theorem on `evaluate_loss` of rtb-bid-model/src/train.py.
use ads_bidding_optimizer.Prelude.{
  ℕ, ◌+◌, ◌<◌, ◌≡◌, refl, ap, false, List, [], ◌∷◌, length, length-append, arith,
}
use ads_bidding_optimizer.Float.{Float, ◌⊕◌, ◌⊗◌, ◌⊘◌, nought}
use ads_bidding_optimizer.Dataset.{iter_batches}
use ads_bidding_optimizer.Dataset.Batches.{iter_batches_rows}
use ads_bidding_optimizer.Features.Parse.{concat}
use ads_bidding_optimizer.Sweep.{Sums, add_batch, add_batches, evaluate_loss}

module _ {ℓ κ} {W : Type ℓ} {A : Type κ} ⦃f : Float W⦄ (loss : List A → W) where
  -- the sum of the batches' losses, each times its number of rows
  abbrev pub weighted_losses : W → List (List A) → W
  weighted_losses total [] = total
  weighted_losses total (b ∷ bs) = weighted_losses (total ⊕ loss b ⊗ f.of_ℕ (length b)) bs

  add_batches-sums :
      (bs : List (List A)) (s : Sums W)
      → ((add_batches loss bs s).total ≡ weighted_losses s.total bs)
        × ((add_batches loss bs s).cnt ≡ s.cnt + length (concat bs))
  unfolding add_batches add_batch
  add_batches-sums [] s = (refl, omega arith)
  add_batches-sums (b ∷ bs) s =
      let rest = add_batches-sums bs (add_batch loss b s) in
      (rest.0, omega (arith, rest.1, length-append b (concat bs)))

  -- For a batch size of at least 1, the validation loss is the sum of the batches' mean losses, each
  -- times the number of its rows, divided by the number of rows of the data set: the batches have
  -- every row once, a short last one too.
  pub evaluate_loss-weighted :
      (rows : List A) (batch_size : ℕ)
      → 0 < batch_size
      → (concat (iter_batches rows batch_size false) ≡ rows)
        × (evaluate_loss loss rows batch_size
            ≡ weighted_losses nought (iter_batches rows batch_size false) ⊘ f.of_ℕ (length rows))
  unfolding evaluate_loss
  evaluate_loss-weighted rows batch_size h =
      let whole = (iter_batches_rows rows batch_size h).0 in
      let sums =
        add_batches-sums (iter_batches rows batch_size false)
          (record { total = nought; cnt = 0 }) in
      let cnt : (add_batches loss (iter_batches rows batch_size false)
            (record { total = nought; cnt = 0 })).cnt
          ≡ length rows =
        omega (arith, sums.1, ap length whole) in
      (whole, rw (sums.0, cnt) refl)
