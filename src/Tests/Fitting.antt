-- ===== src/Tests/Fitting.antt =====
-- The training from its first epoch on, and the networks that are built from a checkpoint, at
-- concrete inputs over whole numbers.
use ads_bidding_optimizer.Prelude.{
  Bool, Bool-cases, inr, if◌then◌else◌, ℕ, ◌+◌, ◌*◌, ◌≤◌, ◌<◌, ◌≡◌, refl, none, some, List, [], ◌∷◌,
  length, true, false, inl, arith,
}
use ads_bidding_optimizer.Prelude.Int.{ℤ, pos, ◌-ℤ◌, ◌+ℤ◌, ◌*ℤ◌}
use ads_bidding_optimizer.Float.{nought, ◌<?◌, ◌⊖◌}
use ads_bidding_optimizer.Float.Exact.{div_ℤ, ℤ_float, ℤ-IsOrdered, ℤ-IsRounded}
use ads_bidding_optimizer.Arrays.Plain.{ℤ_arrays}
use ads_bidding_optimizer.Dict.{text_key, lookup}
use ads_bidding_optimizer.Dataset.{num_batches, iter_batches, batches_from}
use ads_bidding_optimizer.Retrain.Record.{Feature}
use ads_bidding_optimizer.Train.{Params, Checkpoint}
use ads_bidding_optimizer.Train.Swap.{IsNamed}
use ads_bidding_optimizer.Train.Stopping.{Ended}
use ads_bidding_optimizer.Sweep.{evaluate_loss, add_batches, add_batch}
use ads_bidding_optimizer.Train.Epochs.{Stepped, Run, Settings, train, train_start}
use ads_bidding_optimizer.Train.Epochs.Complete.{val_loss, train_completes, train_too_few}
use ads_bidding_optimizer.Train.Networks.{
  cat_key_key, mdn_model, Arguments, ConfigFile, Shape, built_network, saved_config, load_model,
  exported_network, load_warm_start,
}
use ads_bidding_optimizer.Train.Networks.Rebuilt.{
  with_floor, with_dropout, with_size, checkpoint_rebuilt,
}

-- a model of two parameters, one of which is not trained
abbrev model : ℤ → Params ℤ
model x =
    ((119 ∷ []), record { values = x ∷ []; requires_grad = true })
    ∷ ((98 ∷ []), record { values = pos 2 ∷ []; requires_grad = false })
    ∷ []

model-IsNamed : (x : ℤ) → IsNamed (model x)
unfolding lookup
model-IsNamed x = (refl, (refl, tt))

abbrev settings : ℕ → Settings ℤ
settings size = record {
  batch_size = size;
  epochs = 3;
  base_lr = pos 4;
  warmup = 1;
  ema_decay = pos 1;
  patience = 2;
}

-- the optimizer counts its steps, and the weight is the count
abbrev optimize : ℤ → ℕ → Params ℤ → List ℕ → Stepped ℕ ℤ
optimize lr count m batch = record {
  opt = count + 1;
  model = model (pos count);
  loss = pos (length batch);
}

abbrev in_order : ℕ → List ℕ → List ℕ
in_order epoch rows = rows

-- the loss of a model on a batch is its first weight
abbrev first_weight : Params ℤ → List ℕ → ℤ
first_weight [] batch = pos 0
first_weight ((n, p) ∷ m) batch = elim p.values [ [] ↦ pos 0 | x ∷ xs ↦ x ]

abbrev five : List ℕ
five = 10 ∷ 11 ∷ 12 ∷ 13 ∷ 14 ∷ []

abbrev positive : 0 < (settings 2).batch_size
positive = omega arith

-- whether the first weight is above 3
abbrev is_heavy : Params ℤ → Bool
is_heavy [] = false
is_heavy ((n, p) ∷ m) = elim p.values [ [] ↦ false | x ∷ xs ↦ pos 3 <? x ]

-- a loss that is below 1000 for every model
abbrev step_loss : Params ℤ → List ℕ → ℤ
step_loss m batch = if is_heavy m then pos 9 else pos 5

step_loss_finite :
    (m : Params ℤ)
    → (val_loss (settings 2) step_loss (1 ∷ 2 ∷ []) m <? (pos 1000 ⊖ ℤ_float.lit 1 5)) ≡ true
unfolding evaluate_loss ◌-ℤ◌ div_ℤ add_batches iter_batches batches_from add_batch ◌+ℤ◌ ◌*ℤ◌
step_loss_finite m = elim (Bool-cases (is_heavy m)) [
  | inl heavy ↦ rw heavy refl
  | inr light ↦ rw light refl
]

train_completes_example :
    let start : Run ℕ ℤ = train_start 0 (model (pos 9)) (pos 1000) in
    (r : Run ℕ ℤ) × (c : Checkpoint ℤ) × (train
        (settings 2)
        optimize
        in_order
        step_loss
        five
        (1 ∷ 2 ∷ [])
        0
        (model (pos 9))
        (pos 1000)
      ≡ some r)
    × (r.progress.best ≡ some c)
    × Ended (val_loss (settings 2) step_loss (1 ∷ 2 ∷ [])) (pos 1000) 2 3 start.progress r.progress
    × (r.step ≡ length r.progress.losses * num_batches 5 2 true)
    × (r.step ≤ num_batches 5 2 true * 3)
train_completes_example =
    train_completes (settings 2) optimize in_order (λ epoch rows. refl) step_loss five (1 ∷ 2 ∷ [])
      0 (model (pos 9)) (pos 1000) positive ℤ-IsOrdered ℤ-IsRounded
      (λ lr o m batch named. model-IsNamed (pos o)) (omega arith) (omega arith) (omega arith)
      step_loss_finite (model-IsNamed (pos 9))

train_too_few_example :
    train (settings 8) optimize in_order first_weight five (1 ∷ 2 ∷ []) 0 (model (pos 9)) (pos 1000)
    ≡ none
train_too_few_example =
    train_too_few (settings 8) optimize in_order (λ epoch rows. refl) first_weight five (1 ∷ 2 ∷ [])
      0 (model (pos 9)) (pos 1000) (omega arith) (inl (omega arith)) (omega arith)

-- a floor on the command line that is not the one of the file
abbrev args : Arguments ℤ
args = record {
  model = mdn_model;
  k = some 8;
  num_bins = none;
  hidden = none;
  dropout = none;
  sigma_floor = some (pos 7);
}

abbrev cfg : ConfigFile ℤ
cfg = record {
  mdn_hidden = pos 64 ∷ [];
  mdn_dropout = pos 0;
  n_components = 6;
  sigma_floor = pos 5;
  bins_hidden = pos 64 ∷ [];
  bins_dropout = pos 0;
  num_bins = 200;
}

abbrev shape : Shape ℤ
shape = record {
  vocab_sizes = (Feature.region, 3) ∷ [];
  emb_dims = [];
  tag_vocab_size = 2;
  tag_emb_dim = 4;
  num_continuous = 9;
  hidden = pos 64 ∷ [];
  dropout = pos 0;
}

checkpoint_rebuilt_example :
    let net = built_network args cfg shape in
    let saved = saved_config args cfg shape in
    let args' : Arguments ℤ = record args { sigma_floor = none } in
    (load_model saved ≡ some (with_floor (pos 5) net))
    × (load_model (saved_config args' cfg shape) ≡ some (built_network args' cfg shape))
    × (exported_network saved ≡ with_dropout nought net)
    × (load_warm_start saved ≡ with_size (with_dropout (pos 0) net))
checkpoint_rebuilt_example = checkpoint_rebuilt cfg shape args
