-- ===== src/Train/Epochs/Complete.antt =====
-- Theorems on the training of rtb-bid-model/src/train.py, from the first epoch to the last.
use ads_bidding_optimizer.Prelude.{
  ℕ, zero, suc, ◌+◌, ◌*◌, ◌<◌, ◌≤◌, ◌≡◌, refl, sym, ap, ap₂, ◌∙◌, ◌⊎◌, ◌==◌, false, true, none,
  some, List, length, Bool-cases, inl, inr, arith,
}
use native.Mathlib.Nat.{mul-le-mul_right}
use ads_bidding_optimizer.Float.{Float, ◌⊖◌, ◌<?◌, IsOrdered, IsRounded}
use ads_bidding_optimizer.Arrays.{Arrays}
use ads_bidding_optimizer.Dataset.{iter_batches, num_batches}
use ads_bidding_optimizer.Train.{Params, Progress, Checkpoint, end_epoch}
use ads_bidding_optimizer.Train.Swap.{IsNamed}
use ads_bidding_optimizer.Train.Stopping.{
  IsTracked, Ended, later_end, end_epoch-IsTracked, end_epoch-model, length-end_epoch,
  stops_patient, checkpoint_saved,
}
use ads_bidding_optimizer.Sweep.{evaluate_loss}
use ads_bidding_optimizer.Train.Epochs.Steps.{
  train_batches-IsNamed, train_epoch-step, train_epoch-some, train_epoch-none,
}
use ads_bidding_optimizer.Train.Epochs.{
  Stepped, Run, Settings, train_epoch, epoch_start, run_after, train_epochs, train_start, train,
}

-- the steps after one more epoch
in_step_after :
    (s s' n n' per k : ℕ) → s ≡ n * per → s' ≡ s + k → k ≡ per → n' ≡ n + 1 → s' ≡ n' * per
in_step_after s s' n n' per k steps more whole one_more =
    more ∙ ap₂ (λ x y. x + y) steps whole ∙ omega arith ∙ ap (λ m. m * per) (sym one_more)

module _ {κ} {O W : Type 0} {A : Type κ} ⦃f : Float W⦄ ⦃a : Arrays W⦄ (set : Settings W)
    (optimize : W → O → Params W → List A → Stepped O W) (total_steps : ℕ) where
  train_epochs-none :
      (shuffle : ℕ → List A → List A)
      (permutes : (epoch : ℕ) (rows : List A) → length (shuffle epoch rows) ≡ length rows)
      (evaluate : Params W → W) (cnt : ℕ) (rows : List A)
      → 0 < set.batch_size
      → (left epoch : ℕ) (r : Run O W) → (length rows < set.batch_size) ⊎ (cnt ≡ 0)
      → 0 < left
      → train_epochs set optimize total_steps shuffle evaluate cnt rows left epoch r ≡ none
  unfolding train_epochs
  train_epochs-none shuffle permutes evaluate cnt rows positive zero epoch r few some_left =
      absurd (omega arith)
  train_epochs-none shuffle permutes evaluate cnt rows positive (suc left) epoch r few some_left =
      let t = train_epoch set optimize total_steps (shuffle epoch rows) r in
      elim few [
        | inl few_rows ↦
            let no_rows =
              train_epoch-none set optimize total_steps positive (shuffle epoch rows) r
                (omega (arith, permutes epoch rows)) in
            rw no_rows refl
        | inr no_val ↦ elim (Bool-cases (t.running_n == 0)) [
          | inl no_rows ↦ rw no_rows refl
          | inr some_rows ↦ rw (some_rows, no_val) refl
        ]
      ]

  -- What holds between two epochs: each epoch so far has made `per` steps.
  abbrev InStep : ℕ → Run O W → Type 0
  InStep per r = r.step ≡ length r.progress.losses * per

  module _ (ordered : IsOrdered W) (rounded : IsRounded W)
      (names : (lr : W) (opt : O) (m : Params W) (batch : List A)
        → IsNamed m
        → IsNamed (optimize lr opt m batch).model)
      (shuffle : ℕ → List A → List A)
      (permutes : (epoch : ℕ) (rows : List A) → length (shuffle epoch rows) ≡ length rows)
      (evaluate : Params W → W) (infinity : W)
      (finite : (m : Params W) → (evaluate m <? (infinity ⊖ f.lit 1 5)) ≡ true) (cnt : ℕ)
      (validates : (cnt == 0) ≡ false) (rows : List A) (positive : 0 < set.batch_size) where
    abbrev per_epoch : ℕ
    per_epoch = num_batches (length rows) set.batch_size true

    -- the training from an epoch on, and how it ends
    abbrev Completes : ℕ → ℕ → Run O W → Type 0
    Completes left epoch r =
        (r' : Run O W) × (train_epochs set optimize total_steps shuffle evaluate cnt rows left epoch
            r
          ≡ some r')
        × Ended evaluate infinity set.patience left r.progress r'.progress
        × (length r'.progress.losses ≤ length r.progress.losses + left)
        × InStep per_epoch r'
        × (length r.progress.losses ≤ length r'.progress.losses)
        × ((left ≡ 0) ⊎ (length r.progress.losses < length r'.progress.losses))

    train_epochs-Completes :
        (left epoch : ℕ) (r : Run O W)
        → set.batch_size ≤ length rows
        → IsNamed r.progress.model
        → IsTracked evaluate infinity r.progress
        → InStep per_epoch r
        → Completes left epoch r
    unfolding train_epochs
    train_epochs-Completes zero epoch r enough named h steps =
        (r, refl, (h, inl (omega arith)), omega arith, steps, omega arith, inl refl)
    train_epochs-Completes (suc left) epoch r enough named h steps =
        let perm = shuffle epoch rows in
        let t = train_epoch set optimize total_steps perm r in
        let t' : Progress W = record r.progress { model = t.model; shadow = t.shadow } in
        let named' : IsNamed t'.model =
          unfold train_epoch in
          train_batches-IsNamed set optimize total_steps names
            (iter_batches perm set.batch_size true) (epoch_start r) named in
        let tracked =
          end_epoch-IsTracked ordered rounded evaluate infinity finite set.patience t' named'
            (record { unbeaten = h.unbeaten; saved = h.saved }) in
        let ended = end_epoch evaluate set.patience t' in
        let next = run_after t ended.0 r in
        let one_more = length-end_epoch ordered rounded evaluate infinity finite set.patience t' in
        let steps' : InStep per_epoch next =
          in_step_after r.step t.step _ _ per_epoch _ steps
            (train_epoch-step set optimize total_steps positive perm r)
            (ap (λ n. num_batches n set.batch_size true) (permutes epoch rows)) one_more in
        let ih =
          train_epochs-Completes left (epoch + 1) next enough
            (rw (end_epoch-model ordered rounded evaluate infinity finite set.patience t' named')
              named')
            tracked steps' in
        let some_rows =
          train_epoch-some set optimize total_steps positive perm r
            (omega (arith, permutes epoch rows)) in
        elim (Bool-cases ended.1) [
          | inl stop ↦
              rw (some_rows, validates, stop)
                (
                  next,
                  refl,
                  (
                    tracked,
                    inr (
                        stops_patient ordered rounded evaluate infinity finite set.patience t'
                          stop),
                  ),
                  omega arith,
                  steps',
                  omega (arith, one_more),
                  inr (omega (arith, one_more)),
                )
          | inr go ↦
              rw (some_rows, validates, go)
                (
                  ih.0,
                  ih.1,
                  ((ih.2).0, later_end left _ _ _ _ (ih.2).1 one_more),
                  omega (arith, ih.3),
                  ih.4,
                  omega (arith, ih.5, one_more),
                  inr (omega (arith, ih.5, one_more)),
                )
        ]

-- `evaluate_loss` of a model on the validation set, and `total_steps`
abbrev pub val_loss {ℓ κ} :
    {W : Type ℓ} {A : Type κ} ⦃f : Float W⦄
    → Settings W
    → (Params W → List A → W)
    → List A
    → Params W
    → W
val_loss set loss val_rows m = evaluate_loss (loss m) val_rows (set.batch_size * 2)

abbrev pub schedule {ℓ} : {W : Type ℓ} → Settings W → ℕ → ℕ
schedule set n = num_batches n set.batch_size true * set.epochs

module _ {κ} {O W : Type 0} {A : Type κ} ⦃f : Float W⦄ ⦃a : Arrays W⦄ (set : Settings W)
    (optimize : W → O → Params W → List A → Stepped O W) (shuffle : ℕ → List A → List A)
    (permutes : (epoch : ℕ) (rows : List A) → length (shuffle epoch rows) ≡ length rows)
    (loss : Params W → List A → W) (rows val_rows : List A) (opt : O) (model : Params W)
    (infinity : W) (positive : 0 < set.batch_size) where
  -- For a batch size of at least 1, permutations that keep the number of rows, an optimizer that
  -- keeps the names of the parameters, training rows for at least one batch, at least one validation
  -- row, at least one epoch, and validation losses that are below the first best loss, which is
  -- infinite, the training of train.py goes through. It ends, after all epochs or out of patience,
  -- with a checkpoint, whose weights have the best validation loss; no epoch had a loss below the
  -- best one less 1e-5. Each epoch has made as many steps as the training set has whole batches, so
  -- that the steps never pass the length of the learning rate's schedule.
  pub train_completes :
      (ordered : IsOrdered W) (rounded : IsRounded W)
      → ((lr : W) (o : O) (m : Params W) (batch : List A)
          → IsNamed m
          → IsNamed (optimize lr o m batch).model)
      → set.batch_size ≤ length rows
      → 0 < length val_rows
      → 0 < set.epochs
      → ((m : Params W) → (val_loss set loss val_rows m <? (infinity ⊖ f.lit 1 5)) ≡ true)
      → IsNamed model
      → let start : Run O W = train_start opt model infinity in
        (r : Run O W) × (c : Checkpoint W) × (train set optimize shuffle loss rows val_rows opt
            model infinity
          ≡ some r)
        × (r.progress.best ≡ some c)
        × Ended
            (val_loss set loss val_rows)
            infinity
            set.patience
            set.epochs
            start.progress
            r.progress
        × (r.step ≡ length r.progress.losses * num_batches (length rows) set.batch_size true)
        × (r.step ≤ schedule set (length rows))
  unfolding train train_start
  train_completes ordered rounded names enough validates some_epochs finite named =
      let done =
        train_epochs-Completes set optimize (schedule set (length rows)) ordered rounded names
          shuffle permutes (val_loss set loss val_rows) infinity finite (length val_rows)
          (ground arith) rows positive set.epochs 0 (train_start opt model infinity) enough named
          (record { unbeaten = tt; saved = (refl, refl) }) (omega arith) in
      let saved =
        checkpoint_saved ordered rounded (val_loss set loss val_rows) infinity finite set.patience 0
          (done.0).progress (done.2).0
          (elim done.6 [ inl no_epochs ↦ absurd (omega arith) | inr more ↦ omega (arith, more) ]) in
      (
        done.0,
        saved.0,
        done.1,
        saved.1,
        done.2,
        done.4,
        omega (
          arith,
          done.4,
          mul-le-mul_right (num_batches (length rows) set.batch_size true) done.3,
        ),
      )

  -- For a batch size of at least 1 and permutations that keep the number of rows, with fewer
  -- training rows than the batch size, or with no validation row, and at least one epoch, the
  -- training raises: a mean of the first epoch divides by 0.
  pub train_too_few :
      (length rows < set.batch_size) ⊎ (length val_rows ≡ 0)
      → 0 < set.epochs
      → train set optimize shuffle loss rows val_rows opt model infinity ≡ none
  unfolding train
  train_too_few few some_epochs =
      train_epochs-none set optimize (schedule set (length rows)) shuffle permutes
        (val_loss set loss val_rows) (length val_rows) rows positive set.epochs 0
        (train_start opt model infinity) few some_epochs
