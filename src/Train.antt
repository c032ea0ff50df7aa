-- ===== src/Train.antt =====
-- rtb-bid-model/src/train.py: the moving average of the weights (`EMA`), the learning rate, and the
-- end of each epoch in `main`: validation with both sets of weights, the choice of a checkpoint and
-- early stopping. The optimizer's steps and the evaluation of a model are arguments.
pub mod Swap
pub mod Stopping
pub mod Epochs
pub mod Networks
use ads_bidding_optimizer.Prelude.{
  ℕ, zero, suc, ◌+◌, ◌-◌, max, Bool, true, false, Option, none, some, List, [], ◌∷◌, map, leb, ltb,
  if◌then◌else◌,
}
use ads_bidding_optimizer.Float.{Float, ◌⊕◌, ◌⊖◌, ◌⊗◌, ◌⊘◌, ◌≤?◌, ◌<?◌, nought, unit}
use ads_bidding_optimizer.Arrays.{Arrays}
use ads_bidding_optimizer.Dict.{Dict, Text, text_key, lookup, put, or_default}

-- a tensor of weights, and whether it is trained
pub record Param {ℓ} (W : Type ℓ) : Type ℓ where
  pub values : List W
  pub requires_grad : Bool

-- `model.named_parameters()`
abbrev pub Params {ℓ} : Type ℓ → Type ℓ
Params W = Dict Text (Param W)

abbrev pub Shadow {ℓ} : Type ℓ → Type ℓ
Shadow W = Dict Text (List W)

module _ {ℓ} {W : Type ℓ} where
  -- `{n: p.detach().clone()}` of the trained parameters: `EMA.__init__`, and the backup in `main`
  unfoldable pub snapshot : Params W → Shadow W
  snapshot [] = []
  snapshot ((n, p) ∷ m) =
      let rest = snapshot m in if p.requires_grad then (n, p.values) ∷ rest else rest

  -- `p.data.copy_(weights[n])`, for one parameter
  abbrev pub overwrite : Shadow W → Text × Param W → Text × Param W
  overwrite weights (n, p) = (
    n,
    if p.requires_grad then record p { values = or_default p.values (lookup n weights) } else p,
  )

  -- `EMA.copy_to`, and the loops of `main` that copy weights into the model
  unfoldable pub copy_to : Shadow W → Params W → Params W
  copy_to weights m = map (overwrite weights) m

  -- the model with other weights copied in, and then those of the backup again
  unfoldable pub restored : Shadow W → Shadow W → Params W → Params W
  restored backup shadow m = copy_to backup (copy_to shadow m)

-- what is saved to best.pt
pub record Checkpoint {ℓ} (W : Type ℓ) : Type ℓ where
  pub val_loss : W
  pub use_ema : Bool
  pub weights : Params W

-- the variables of `main` at the end of an epoch, and the logged validation losses
pub record Progress {ℓ} (W : Type ℓ) : Type ℓ where
  pub model : Params W
  pub shadow : Shadow W
  pub best_val : W
  pub bad : ℕ
  pub best : Option (Checkpoint W)
  pub losses : List W

module _ {ℓ} {W : Type ℓ} ⦃f : Float W⦄ where
  -- `shadow.mul_(decay).add_(p, alpha=1 - decay)`
  pub blend : W → List W → List W → List W
  blend decay (s ∷ ss) (p ∷ ps) = ((s ⊗ decay) ⊕ (p ⊗ (unit ⊖ decay))) ∷ blend decay ss ps
  blend decay _ _ = []

  -- `EMA.update`
  pub update : W → Params W → Shadow W → Shadow W
  update decay [] shadow = shadow
  update decay ((n, p) ∷ m) shadow = update decay m (
      if p.requires_grad
      then put n (blend decay (or_default [] (lookup n shadow)) p.values) shadow
      else shadow)

  -- `min(a, b)`
  abbrev pub least : W → W → W
  least a b = if b <? a then b else a

  -- The end of an epoch: the new variables, and whether training stops. `evaluate` is
  -- `evaluate_loss` on the validation set.
  unfoldable pub end_epoch : (Params W → W) → ℕ → Progress W → Progress W × Bool
  end_epoch evaluate patience t =
      let val_loss_raw = evaluate t.model in
      let backup = snapshot t.model in
      let val_loss_ema = evaluate (copy_to t.shadow t.model) in
      let model = restored backup t.shadow t.model in
      let val_loss = least val_loss_raw val_loss_ema in
      let use_ema = val_loss_ema ≤? val_loss_raw in
      if val_loss <? (t.best_val ⊖ f.lit 1 5)
      then (
        record {
          model = if use_ema then restored backup t.shadow model else model;
          shadow = t.shadow;
          best_val = val_loss;
          bad = 0;
          best = some (record {
            val_loss = val_loss;
            use_ema = use_ema;
            weights = if use_ema then copy_to t.shadow model else model;
          });
          losses = val_loss ∷ t.losses;
        },
        false,
      )
      else (
        record t { model = model; bad = t.bad + 1; losses = val_loss ∷ t.losses },
        leb patience (t.bad + 1),
      )

  -- The loop over the epochs. `fit` is one epoch of optimizer steps and of `EMA.update`.
  unfoldable pub run_epochs :
      (ℕ → Params W → Shadow W → Params W × Shadow W)
      → (Params W → W)
      → ℕ
      → ℕ
      → ℕ
      → Progress W
      → Progress W
  run_epochs fit evaluate patience zero epoch t = t
  run_epochs fit evaluate patience (suc left) epoch t =
      let fitted = fit epoch t.model t.shadow in
      let ended = end_epoch evaluate patience (record t { model = fitted.0; shadow = fitted.1 }) in
      let next = run_epochs fit evaluate patience left (epoch + 1) ended.0 in
      if ended.1 then ended.0 else next

module _ {ℓ} {W : Type ℓ} ⦃f : Float W⦄ ⦃a : Arrays W⦄ where
  -- `min(1.0, max(0.0, x))`
  abbrev pub clip_unit : W → W
  clip_unit x = let y : W = if nought <? x then x else nought in if y <? unit then y else unit

  unfoldable pub cosine_lr : ℕ → ℕ → ℕ → W → W → W
  cosine_lr step warmup total base_lr min_lr_ratio =
      let prog = clip_unit (f.of_ℕ (step - warmup) ⊘ f.of_ℕ (max 1 (total - warmup))) in
      let cosine = f.lit 5 1 ⊗ (unit ⊕ a.cos (a.pi ⊗ prog)) in
      if ltb step warmup
      then base_lr ⊗ f.of_ℕ (step + 1) ⊘ f.of_ℕ warmup
      else base_lr ⊗ (min_lr_ratio ⊕ (unit ⊖ min_lr_ratio) ⊗ cosine)
