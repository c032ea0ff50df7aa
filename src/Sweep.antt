-- ===== src/Sweep.antt =====
-- The training loops of the experiments: `train_one` of rtb-bid-model/src/experiments/mdn_sweep.py,
-- which keeps the best raw and the best averaged weights, and `train_one` of bins_v2.py beside it,
-- which cuts the batches of an epoch itself; and `evaluate_loss` of rtb-bid-model/src/train.py, which
-- mdn_sweep.py repeats. An epoch of optimizer steps and the loss of a batch are arguments.
pub mod Mean
pub mod Rounds
pub mod Kept
use ads_bidding_optimizer.Prelude.{
  ℕ, zero, suc, ◌+◌, ◌-◌, max, Bool, true, false, Option, none, some, List, [], ◌∷◌, length, ltb,
  if◌then◌else◌,
}
use ads_bidding_optimizer.Float.{Float, ◌⊕◌, ◌⊖◌, ◌⊗◌, ◌⊘◌, ◌<?◌, nought, unit}
use ads_bidding_optimizer.Arrays.{Arrays}
use ads_bidding_optimizer.Dataset.{slice, iter_batches}
use ads_bidding_optimizer.Train.{Params, Shadow, snapshot, copy_to, clip_unit}

-- `total` and `cnt`
pub record Sums {ℓ} (W : Type ℓ) : Type ℓ where
  pub total : W
  pub cnt : ℕ

-- a best loss with its weights: `best_val_raw` and `best_state_raw`, or those of the averages
pub record Best {ℓ} (W : Type ℓ) : Type ℓ where
  pub loss : W
  pub state : Params W

-- the variables of the sweep's loop; no best stands for an infinite loss, and the lists have the
-- losses that the epochs print, the last one first
pub record Loop {ℓ} (W : Type ℓ) : Type ℓ where
  pub model : Params W
  pub shadow : Shadow W
  pub raw : Option (Best W)
  pub ema : Option (Best W)
  pub raw_losses : List W
  pub ema_losses : List W

pub record Chosen {ℓ} (W : Type ℓ) : Type ℓ where
  pub model : Params W
  pub use_ema : Bool
  pub best_val : Option W

module _ {ℓ κ} {W : Type ℓ} {A : Type κ} ⦃f : Float W⦄ where
  unfoldable pub add_batch : (List A → W) → List A → Sums W → Sums W
  add_batch loss batch s = record {
    total = s.total ⊕ loss batch ⊗ f.of_ℕ (length batch);
    cnt = s.cnt + length batch;
  }

  unfoldable pub add_batches : (List A → W) → List (List A) → Sums W → Sums W
  add_batches loss [] s = s
  add_batches loss (batch ∷ batches) s = add_batches loss batches (add_batch loss batch s)

  -- `loss` is the mean loss of a batch
  unfoldable pub evaluate_loss : (List A → W) → List A → ℕ → W
  evaluate_loss loss rows batch_size =
      let s =
        add_batches loss (iter_batches rows batch_size false)
          (record { total = nought; cnt = 0 }) in
      s.total ⊘ f.of_ℕ s.cnt

module _ {ℓ} {A : Type ℓ} where
  -- `while cur < len(train_ds) - bs` of bins_v2.py; `fuel` bounds its rounds
  unfoldable pub epoch_batches_from : ℕ → List A → ℕ → ℕ → List (List A)
  epoch_batches_from zero perm bs cur = []
  epoch_batches_from (suc fuel) perm bs cur =
      let rest = epoch_batches_from fuel perm bs (cur + bs) in
      if ltb cur (length perm - bs) then slice cur (cur + bs) perm ∷ rest else []

  unfoldable pub epoch_batches : List A → ℕ → List (List A)
  epoch_batches perm bs = epoch_batches_from (length perm) perm bs 0

module _ {ℓ} {W : Type ℓ} ⦃f : Float W⦄ where
  -- `v < best - 1e-5`
  unfoldable pub improves : W → Option (Best W) → Bool
  improves v none = true
  improves v (some b) = v <? b.loss ⊖ f.lit 1 5

  unfoldable pub keep : W → Params W → Option (Best W) → Option (Best W)
  keep v state b = if improves v b then some (record { loss = v; state = state }) else b

  -- the end of an epoch of the sweep
  unfoldable pub sweep_epoch : (Params W → W) → Loop W → Loop W
  sweep_epoch evaluate t =
      let val_raw = evaluate t.model in
      let backup = snapshot t.model in
      let swapped = copy_to t.shadow t.model in
      let val_ema = evaluate swapped in
      record {
        model = copy_to backup swapped;
        shadow = t.shadow;
        raw = keep val_raw (copy_to backup swapped) t.raw;
        ema = keep val_ema swapped t.ema;
        raw_losses = val_raw ∷ t.raw_losses;
        ema_losses = val_ema ∷ t.ema_losses;
      }

  -- `fit` is one epoch of optimizer steps and of updates of the average
  unfoldable pub sweep_epochs :
      (ℕ → Params W → Shadow W → Params W × Shadow W) → (Params W → W) → ℕ → ℕ → Loop W → Loop W
  sweep_epochs fit evaluate zero epoch t = t
  sweep_epochs fit evaluate (suc left) epoch t =
      let fitted = fit epoch t.model t.shadow in
      sweep_epochs fit evaluate left (epoch + 1)
        (sweep_epoch evaluate (record t { model = fitted.0; shadow = fitted.1 }))

  -- the better of the two, by the best losses, of which a missing one is infinite
  unfoldable pub better : Params W → Option (Best W) → Option (Best W) → Chosen W
  better model none none = record { model = model; use_ema = false; best_val = none }
  better model (some r) none = record { model = r.state; use_ema = false; best_val = some r.loss }
  better model none (some e) = record { model = e.state; use_ema = true; best_val = some e.loss }
  better model (some r) (some e) =
      if e.loss <? r.loss
      then record { model = e.state; use_ema = true; best_val = some e.loss }
      else record { model = r.state; use_ema = false; best_val = some r.loss }

  unfoldable pub sweep_start : Params W → Shadow W → Loop W
  sweep_start model shadow = record {
    model = model;
    shadow = shadow;
    raw = none;
    ema = none;
    raw_losses = [];
    ema_losses = [];
  }

  unfoldable pub sweep_train_one :
      (ℕ → Params W → Shadow W → Params W × Shadow W)
      → (Params W → W)
      → ℕ
      → Params W
      → Shadow W
      → Chosen W
  sweep_train_one fit evaluate epochs model shadow =
      let t = sweep_epochs fit evaluate epochs 0 (sweep_start model shadow) in
      better t.model t.raw t.ema

module _ {ℓ κ} {W : Type ℓ} {A : Type κ} ⦃f : Float W⦄ where
  -- the epochs of bins_v2.py; `perms` are the permutations of the rows, and `fit` takes the number
  -- of the epoch and its batches
  unfoldable pub bins_epochs :
      (ℕ → List (List A) → Params W → Params W)
      → (Params W → W)
      → ℕ
      → ℕ
      → List (List A)
      → Params W × Option (Best W)
      → Params W × Option (Best W)
  bins_epochs fit evaluate bs epoch [] (model, best) = (model, best)
  bins_epochs fit evaluate bs epoch (perm ∷ perms) (model, best) =
      let fitted = fit epoch (epoch_batches perm bs) model in
      bins_epochs fit evaluate bs (epoch + 1) perms (fitted, keep (evaluate fitted) fitted best)

  -- the weights that are saved, with `best_val`
  unfoldable pub bins_train_one :
      (ℕ → List (List A) → Params W → Params W)
      → (Params W → W)
      → ℕ
      → List (List A)
      → Params W
      → Params W × Option W
  bins_train_one fit evaluate bs perms model =
      elim (bins_epochs fit evaluate bs 0 perms (model, none)).1 [
        | none ↦ ((bins_epochs fit evaluate bs 0 perms (model, none)).0, none)
        | some b ↦ (b.state, some b.loss)
      ]

module _ {ℓ} {W : Type ℓ} ⦃f : Float W⦄ ⦃a : Arrays W⦄ where
  -- the learning rate of bins_v2.py
  unfoldable pub cosine_lr_step : W → ℕ → ℕ → ℕ → W
  cosine_lr_step lr warmup total_steps step =
      let prog = clip_unit (f.of_ℕ (step - warmup) ⊘ f.of_ℕ (max 1 (total_steps - warmup))) in
      let cos = f.lit 5 1 ⊗ (unit ⊕ a.cos (a.pi ⊗ prog)) in
      if ltb step warmup
      then lr ⊗ f.of_ℕ (step + 1) ⊘ f.of_ℕ warmup
      else lr ⊗ (f.lit 5 2 ⊕ f.lit 95 2 ⊗ cos)
