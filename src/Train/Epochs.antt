-- ===== src/Train/Epochs.antt =====
-- The epochs of rtb-bid-model/src/train.py with their steps: the batches of an epoch in `main`, the
-- learning rate of each step and the running loss, around the end of an epoch in `Train`. The
-- permutations, the optimizer with its own state, and the loss of a batch of the validation set are
-- arguments.
pub mod Steps
pub mod Complete
use ads_bidding_optimizer.Prelude.{
  ℕ, zero, suc, ◌+◌, ◌*◌, true, Option, none, some, List, [], ◌∷◌, length, ◌==◌, if◌then◌else◌,
}
use ads_bidding_optimizer.Float.{Float, ◌⊕◌, ◌⊗◌, ◌⊘◌, nought}
use ads_bidding_optimizer.Arrays.{Arrays}
use ads_bidding_optimizer.Dataset.{iter_batches, num_batches}
use ads_bidding_optimizer.Train.{Params, Shadow, Progress, snapshot, update, end_epoch, cosine_lr}
use ads_bidding_optimizer.Sweep.{evaluate_loss}

-- what an optimizer step leaves: the optimizer's state, the model, and the loss of the batch
pub record Stepped {ℓ} (O : Type ℓ) (W : Type ℓ) : Type ℓ where
  pub opt : O
  pub model : Params W
  pub loss : W

-- the variables in the loop over the batches
pub record Fitting {ℓ} (O : Type ℓ) (W : Type ℓ) : Type ℓ where
  pub opt : O
  pub model : Params W
  pub shadow : Shadow W
  pub step : ℕ
  pub running : W
  pub running_n : ℕ

-- the variables between two epochs, with the losses that are logged as `train_loss`
pub record Run {ℓ} (O : Type ℓ) (W : Type ℓ) : Type ℓ where
  pub opt : O
  pub step : ℕ
  pub progress : Progress W
  pub train_losses : List W

-- the settings of `main`
pub record Settings {ℓ} (W : Type ℓ) : Type ℓ where
  pub batch_size : ℕ
  pub epochs : ℕ
  pub base_lr : W
  pub warmup : ℕ
  pub ema_decay : W
  pub patience : ℕ

module _ {ℓ} {O W : Type ℓ} ⦃f : Float W⦄ where
  -- the variables before the batches of an epoch
  abbrev pub epoch_start : Run O W → Fitting O W
  epoch_start r = record {
    opt = r.opt;
    model = r.progress.model;
    shadow = r.progress.shadow;
    step = r.step;
    running = nought;
    running_n = 0;
  }

  -- the variables after an epoch, given those after its batches and after the validation
  abbrev pub run_after : Fitting O W → Progress W → Run O W → Run O W
  run_after t progress r = record {
    opt = t.opt;
    step = t.step;
    progress = progress;
    train_losses = (t.running ⊘ f.of_ℕ t.running_n) ∷ r.train_losses;
  }

  -- the variables before the first epoch; `infinity` is `float('inf')`
  unfoldable pub train_start : O → Params W → W → Run O W
  train_start opt model infinity = record {
    opt = opt;
    step = 0;
    progress = record {
      model = model;
      shadow = snapshot model;
      best_val = infinity;
      bad = 0;
      best = none;
      losses = [];
    };
    train_losses = [];
  }

module _ {ℓ κ} {O W : Type ℓ} {A : Type κ} ⦃f : Float W⦄ ⦃a : Arrays W⦄ (set : Settings W)
    (optimize : W → O → Params W → List A → Stepped O W) (total_steps : ℕ) where
  -- a step at the learning rate of its number, and then the update of the averages
  unfoldable pub train_batch : List A → Fitting O W → Fitting O W
  train_batch batch t =
      let lr = cosine_lr t.step set.warmup total_steps set.base_lr (f.lit 5 2) in
      let stepped = optimize lr t.opt t.model batch in
      record {
        opt = stepped.opt;
        model = stepped.model;
        shadow = update set.ema_decay stepped.model t.shadow;
        step = t.step + 1;
        running = t.running ⊕ stepped.loss ⊗ f.of_ℕ (length batch);
        running_n = t.running_n + length batch;
      }

  unfoldable pub train_batches : List (List A) → Fitting O W → Fitting O W
  train_batches [] t = t
  train_batches (batch ∷ batches) t = train_batches batches (train_batch batch t)

  -- the batches of an epoch
  unfoldable pub train_epoch : List A → Run O W → Fitting O W
  train_epoch perm r = train_batches (iter_batches perm set.batch_size true) (epoch_start r)

  -- `none` where `running / running_n`, or the `total / cnt` of the validation, divides by 0
  unfoldable pub train_epochs :
      (ℕ → List A → List A) → (Params W → W) → ℕ → List A → ℕ → ℕ → Run O W → Option (Run O W)
  train_epochs shuffle evaluate cnt rows zero epoch r = some r
  train_epochs shuffle evaluate cnt rows (suc left) epoch r =
      let t = train_epoch (shuffle epoch rows) r in
      let ended =
        end_epoch evaluate set.patience
          (record r.progress { model = t.model; shadow = t.shadow }) in
      let next = run_after t ended.0 r in
      let rest = train_epochs shuffle evaluate cnt rows left (epoch + 1) next in
      if t.running_n == 0
      then none
      else if cnt == 0
      then none
      else if ended.1
      then some next
      else rest

module _ {ℓ κ} {O W : Type ℓ} {A : Type κ} ⦃f : Float W⦄ ⦃a : Arrays W⦄ where
  -- the training of `main`; `loss` is the mean loss of a model on a batch
  unfoldable pub train :
      (set : Settings W)
      → (W → O → Params W → List A → Stepped O W)
      → (ℕ → List A → List A)
      → (Params W → List A → W)
      → List A
      → List A
      → O
      → Params W
      → W
      → Option (Run O W)
  train set optimize shuffle loss rows val_rows opt model infinity =
      train_epochs set optimize (num_batches (length rows) set.batch_size true * set.epochs) shuffle
        (λ m. evaluate_loss (loss m) val_rows (set.batch_size * 2)) (length val_rows) rows
        set.epochs 0 (train_start opt model infinity)
