-- ===== src/Retrain/Tune.antt =====
-- The round of retrain.py with its training: `build_tensors`, the epochs and batches of `train_round`,
-- and `--once`. torch is given by the `Machine`: the checkpoint, the order of `torch.randperm`, an
-- optimizer step on the rows of a batch, and whether the export returns.
pub mod Batches
pub mod Blocked
use ads_bidding_optimizer.Prelude.{
  ℕ, zero, suc, ◌+◌, max, Bool, Option, none, some, List, [], ◌∷◌, map, length, take, drop, ltb,
  ◌==◌, if◌then◌else◌,
}
use ads_bidding_optimizer.Prelude.Int.{ℤ}
use ads_bidding_optimizer.Float.{Float, ◌⊕◌, ◌⊘◌, nought}
use ads_bidding_optimizer.Arrays.{Arrays}
use ads_bidding_optimizer.Dict.{Text}
use ads_bidding_optimizer.Retrain.Record.{
  Outcome, Config, encode_cat, encode_cont, encode_tags, clamp_label,
}
use ads_bidding_optimizer.Retrain.Window.{read_window}
use ads_bidding_optimizer.Retrain.Rounds.{
  Status, State, Payload, Args, System, write_status, initial,
}

-- a row of the four tensors
pub record Tensors {ℓ} (W : Type ℓ) : Type ℓ where
  pub cat : List ℕ
  pub cont : List W
  pub tags : List ℕ
  pub label : ℤ

-- the model, `total` and `steps` in an epoch
pub record Tuning {ℓ κ} (M : Type ℓ) (W : Type κ) : Type (ℓ ⊔ κ) where
  pub model : M
  pub total : W
  pub steps : ℕ

-- what a round meets
pub record Machine {ℓ κ μ} (M : Type ℓ) (R : Type μ) (W : Type κ) : Type (ℓ ⊔ κ ⊔ μ) where
  pub lines : Option (List Text)
  pub loads : Text → Option R
  -- what `rec[...]`, `int` and `float` read in a record; `none` if one of them raises
  pub read_record : R → Option (Outcome W)
  -- `load_model`: the model and its number of bins; `none` if it raises
  pub warm_start : Option (M × ℕ)
  -- the rows in the order of the permutation of an epoch
  pub shuffle : ℕ → List (Tensors W) → List (Tensors W)
  pub step : M → List (Tensors W) → M × W
  pub export_returns : M → Bool
  pub now : ℕ
  pub first_write : Bool
  pub second_write : Bool

-- the arguments of the training
pub record Training : Type 0 where
  pub epochs : ℕ
  pub batch_size : ℕ

-- `perm[i:i + bs]` for i in range(0, n, bs), from row `i` on; a round for each row is enough
unfoldable pub tune_batches {ℓ} : {A : Type ℓ} → ℕ → ℕ → ℕ → List A → List (List A)
tune_batches zero bs i perm = []
tune_batches (suc fuel) bs i perm =
    let rest = tune_batches fuel bs (i + bs) perm in
    if ltb i (length perm) then take bs (drop i perm) ∷ rest else []

module _ {ℓ κ μ} {M : Type ℓ} {A : Type κ} {W : Type μ} ⦃f : Float W⦄ where
  unfoldable pub tune_batch : (M → List A → M × W) → List A → Tuning M W → Tuning M W
  tune_batch step batch t =
      let r = step t.model batch in
      record { model = r.0; total = t.total ⊕ r.1; steps = t.steps + 1 }

  unfoldable pub tune_epoch : (M → List A → M × W) → List (List A) → Tuning M W → Tuning M W
  tune_epoch step [] t = t
  tune_epoch step (batch ∷ batches) t = tune_epoch step batches (tune_batch step batch t)

  -- the loop over the epochs; the result is the model and `last_loss`
  unfoldable pub tune_epochs :
      (M → List A → M × W) → (ℕ → List A → List A) → (W → W) → ℕ → List A → ℕ → ℕ → M → W → M × W
  tune_epochs step shuffle round4 bs rows zero epoch model last_loss = (model, last_loss)
  tune_epochs step shuffle round4 bs rows (suc left) epoch model last_loss =
      let t =
        tune_epoch step (tune_batches (length rows) bs 0 (shuffle epoch rows))
          (record { model = model; total = nought; steps = 0 }) in
      tune_epochs step shuffle round4 bs rows left (epoch + 1) t.model
        (round4 (t.total ⊘ f.of_ℕ (max 1 t.steps)))

  -- `none` where `range` raises: its step is 0 in an epoch
  unfoldable pub fine_tune :
      (M → List A → M × W)
      → (ℕ → List A → List A)
      → (W → W)
      → Training
      → List A
      → M
      → W
      → Option (M × W)
  fine_tune step shuffle round4 tr rows model last_loss =
      let tuned = tune_epochs step shuffle round4 tr.batch_size rows tr.epochs 0 model last_loss in
      if tr.batch_size == 0
      then (if tr.epochs == 0 then some (model, last_loss) else none)
      else some tuned

module _ {ℓ} {W : Type ℓ} ⦃f : Float W⦄ ⦃a : Arrays W⦄ where
  -- a record's rows in the tensors; `round` is Python's, to the nearest whole number
  unfoldable pub tensors_row : (W → ℤ) → Config W → ℕ → Outcome W → Tensors W
  tensors_row round cfg num_bins rec = record {
    cat = encode_cat rec cfg;
    cont = encode_cont rec cfg;
    tags = encode_tags rec cfg;
    label = clamp_label num_bins (round rec.clearing_price);
  }

  -- the rows with one more record, if it could be read
  unfoldable pub add_tensors :
      (Outcome W → Tensors W)
      → Option (Outcome W)
      → Option (List (Tensors W))
      → Option (List (Tensors W))
  add_tensors row none rest = none
  add_tensors row (some rec) none = none
  add_tensors row (some rec) (some rest) = some (row rec ∷ rest)

  -- `none` where a record of the window raises
  unfoldable pub build_tensors {μ} :
      {R : Type μ}
      → (W → ℤ)
      → (R → Option (Outcome W))
      → List R
      → Config W
      → ℕ
      → Option (List (Tensors W))
  build_tensors round read [] cfg num_bins = some []
  build_tensors round read (rec ∷ rows) cfg num_bins =
      add_tensors (tensors_row round cfg num_bins) (read rec)
        (build_tensors round read rows cfg num_bins)

module _ {ℓ κ μ} {M : Type ℓ} {R : Type μ} {W : Type κ} ⦃f : Float W⦄ ⦃a : Arrays W⦄
    (round4 : W → W) (round : W → ℤ) (cfg : Config W) (tr : Training) (args : Args W) where
  -- the training on the tensors of the window, if they could be built
  unfoldable pub trained_on : Machine M R W → M → W → Option (List (Tensors W)) → Option (M × W)
  trained_on m model last_loss none = none
  trained_on m model last_loss (some rows) =
      fine_tune m.step m.shuffle round4 tr rows model last_loss

  -- a call of `train_round`, with `none` for one that raises
  unfoldable pub tuned_round : Machine M R W → System W → System W × Option ℕ
  tuned_round m sys =
      let s : State W = record sys.state { round = sys.state.round + 1 } in
      let rows = read_window m.loads m.lines args.window in
      let n = length rows in
      let file = write_status args s Status.training n s.last_loss m.first_write sys.status_file in
      let raised : System W × Option ℕ = (record { state = s; status_file = file }, none) in
      if ltb n args.min_rows
      then (
        record {
          state = s;
          status_file =
              write_status args s Status.waiting n s.last_loss m.first_write sys.status_file;
        },
        some 0,
      )
      else elim m.warm_start [
        | none ↦ raised
        | some (model, num_bins) ↦
            elim (trained_on m model s.last_loss
              (build_tensors round m.read_record rows cfg num_bins)) [
                | none ↦ raised
                | some (tuned, last_loss) ↦
                    let s' : State W = record s {
                      exports = s.exports + 1;
                      last_loss = last_loss;
                      exported_at = m.now;
                    } in
                    if m.export_returns tuned
                    then (
                      record {
                        state = s';
                        status_file =
                            write_status args s' Status.exported n last_loss m.second_write file;
                      },
                      some n,
                    )
                    else raised
              ]
      ]

  -- the endless loop of `main`, whose `try` keeps what a round has done
  unfoldable pub tuned_rounds : List (Machine M R W) → System W → System W
  tuned_rounds [] sys = sys
  tuned_rounds (m ∷ ms) sys = tuned_rounds ms (tuned_round m sys).0

  -- `main` with `--once`, from the first state: `none` where the exception ends the program
  unfoldable pub once : Machine M R W → Option (System W)
  once m = elim ((tuned_round m initial).1) [
    | none ↦ none
    | some n ↦ some (tuned_round m initial).0
  ]
