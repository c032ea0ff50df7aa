-- ===== src/Train/Epochs/Steps.antt =====
-- Theorems on the training of rtb-bid-model/src/train.py, for the batches of an epoch.
use ads_bidding_optimizer.Prelude.{
  ℕ, ◌+◌, ◌<◌, ◌≤◌, ◌≡◌, refl, ap, ◌∙◌, true, false, List, [], ◌∷◌, length, length-append, ◌==◌,
  arith,
}
use native.Mathlib.Nat.{div-eq_of_lt}
use ads_bidding_optimizer.Float.{Float}
use ads_bidding_optimizer.Arrays.{Arrays}
use ads_bidding_optimizer.Features.Parse.{concat}
use ads_bidding_optimizer.Dataset.{iter_batches, num_batches}
use ads_bidding_optimizer.Dataset.Batches.{iter_batches_rows}
use ads_bidding_optimizer.Train.{Params}
use ads_bidding_optimizer.Train.Swap.{IsNamed}
use ads_bidding_optimizer.Train.Epochs.{
  Stepped, Fitting, Run, Settings, train_batch, train_batches, train_epoch, epoch_start,
}

concat_none {ℓ} : {A : Type ℓ} (xss : List (List A)) → length xss ≡ 0 → length (concat xss) ≡ 0
concat_none [] h = refl
concat_none (xs ∷ xss) h = absurd (omega arith)

module _ {κ} {O W : Type 0} {A : Type κ} ⦃f : Float W⦄ ⦃a : Arrays W⦄ (set : Settings W)
    (optimize : W → O → Params W → List A → Stepped O W) (total_steps : ℕ) where
  -- every batch is a step
  train_batches-step :
      (batches : List (List A)) (t : Fitting O W)
      → (train_batches set optimize total_steps batches t).step ≡ t.step + length batches
  unfolding train_batches train_batch
  train_batches-step [] t = omega arith
  train_batches-step (batch ∷ batches) t =
      omega (arith, train_batches-step batches (train_batch set optimize total_steps batch t))

  -- every row of a batch counts
  train_batches-running_n :
      (batches : List (List A)) (t : Fitting O W)
      → (train_batches set optimize total_steps batches t).running_n
        ≡ t.running_n + length (concat batches)
  unfolding train_batches train_batch
  train_batches-running_n [] t = omega arith
  train_batches-running_n (batch ∷ batches) t = omega (
    arith,
    length-append batch (concat batches),
    train_batches-running_n batches (train_batch set optimize total_steps batch t),
  )

  -- every step keeps the names of the parameters
  pub train_batches-IsNamed :
      (names : (lr : W) (opt : O) (m : Params W) (batch : List A)
        → IsNamed m
        → IsNamed (optimize lr opt m batch).model)
      (batches : List (List A)) (t : Fitting O W)
      → IsNamed t.model
      → IsNamed (train_batches set optimize total_steps batches t).model
  unfolding train_batches train_batch
  train_batches-IsNamed names [] t h = h
  train_batches-IsNamed names (batch ∷ batches) t h =
      train_batches-IsNamed names batches (train_batch set optimize total_steps batch t)
        (names _ t.opt t.model batch h)

  module _ (positive : 0 < set.batch_size) (perm : List A) (r : Run O W) where
    pub train_epoch-step :
        (train_epoch set optimize total_steps perm r).step
        ≡ r.step + num_batches (length perm) set.batch_size true
    unfolding train_epoch
    train_epoch-step = omega (
      arith,
      train_batches-step (iter_batches perm set.batch_size true) _,
      (iter_batches_rows perm set.batch_size positive).2 true,
    )

    -- with a whole batch there are rows to divide by
    pub train_epoch-some :
        set.batch_size ≤ length perm
        → ((train_epoch set optimize total_steps perm r).running_n == 0) ≡ false
    unfolding train_epoch
    train_epoch-some enough =
        let (rest, whole, short) = (iter_batches_rows perm set.batch_size positive).1 in
        ground (
          arith,
          length-append (concat (iter_batches perm set.batch_size true)) rest,
          ap length whole,
          train_batches-running_n (iter_batches perm set.batch_size true) (epoch_start r),
        )

    -- without one there are none
    pub train_epoch-none :
        length perm < set.batch_size
        → ((train_epoch set optimize total_steps perm r).running_n == 0) ≡ true
    unfolding train_epoch
    train_epoch-none few =
        let batches = iter_batches perm set.batch_size true in
        let none_made : length batches ≡ 0 =
          (iter_batches_rows perm set.batch_size positive).2 true
          ∙ unfold num_batches in div-eq_of_lt few in
        ground
          (arith, concat_none batches none_made, train_batches-running_n batches (epoch_start r))
