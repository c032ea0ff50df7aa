-- ===== src/Retrain/Rounds.antt =====
-- `write_status`, `train_round` and the loop of `main` in retrain.py. What the rounds call (the log
-- on disk, torch, the export, the clock) is given by the `Events` of the round.
pub mod Invariant
use ads_bidding_optimizer.Prelude.{
  ℕ, zero, suc, ◌+◌, ◌/◌, max, Bool, true, false, Option, none, some, List, [], ◌∷◌, length, ltb,
  if◌then◌else◌,
}
use ads_bidding_optimizer.Float.{Float, ◌⊕◌, ◌⊘◌, nought}

pub data Status : Type 0 where
  waiting training exported : Status

module _ {ℓ} (W : Type ℓ) where
  -- `state`
  pub record State : Type ℓ where
    pub round : ℕ
    pub exports : ℕ
    pub last_loss : W
    pub exported_at : ℕ

  -- the status file
  pub record Payload : Type ℓ where
    pub round : ℕ
    pub exports : ℕ
    pub rows : ℕ
    pub last_loss : W
    pub exported_at : ℕ
    pub model_version : W
    pub window : ℕ
    pub status : Status

  -- what the arguments fix
  pub record Args : Type ℓ where
    pub window : ℕ
    pub min_rows : ℕ
    -- whether a path for the status file is given
    pub has_status : Bool

  -- what happens in one round
  pub record Events : Type ℓ where
    -- the number of rows of `read_window`
    pub rows : ℕ
    -- the losses of the batches, epoch by epoch; `none` if a call raises before the export
    pub losses : Option (List (List W))
    -- whether `export_onnx` returns
    pub export_returns : Bool
    -- `int(time.time())`
    pub now : ℕ
    -- whether the first and the second write of the status file succeed
    pub first_write : Bool
    pub second_write : Bool

  -- the state and the status file
  pub record System : Type ℓ where
    pub state : State
    pub status_file : Option Payload

module _ {ℓ} {W : Type ℓ} ⦃f : Float W⦄ where
  pub write_status :
      Args W → State W → Status → ℕ → W → Bool → Option (Payload W) → Option (Payload W)
  write_status args s status rows last_loss written file =
      if args.has_status
      then (if written
          then some (record {
            round = s.round;
            exports = s.exports;
            rows = rows;
            last_loss = last_loss;
            exported_at = s.exported_at;
            model_version = f.of_ℕ s.exports;
            window = args.window;
            status = status;
          })
          else file)
      else file

  -- `total` and `steps` of one epoch
  unfoldable pub epoch_total : List W → W → W
  epoch_total [] total = total
  epoch_total (l ∷ ls) total = epoch_total ls (total ⊕ l)

  -- the loop over the epochs; `round4` is `round(x, 4)`
  unfoldable pub last_epoch_loss : (W → W) → List (List W) → W → W
  last_epoch_loss round4 [] last_loss = last_loss
  last_epoch_loss round4 (ls ∷ epochs) last_loss =
      last_epoch_loss round4 epochs (round4 (epoch_total ls nought ⊘ f.of_ℕ (max 1 (length ls))))

  -- the end of a round whose training returned
  unfoldable pub finish_round :
      (W → W)
      → Args W
      → Events W
      → State W
      → Option (Payload W)
      → List (List W)
      → System W × Option ℕ
  finish_round round4 args ev s file epochs =
      let last_loss = last_epoch_loss round4 epochs s.last_loss in
      let s' : State W = record s {
        exports = s.exports + 1;
        last_loss = last_loss;
        exported_at = ev.now;
      } in
      if ev.export_returns
      then (
        record {
          state = s';
          status_file = write_status args s' exported ev.rows last_loss ev.second_write file;
        },
        some ev.rows,
      )
      else (record { state = s; status_file = file }, none)

  -- one call of `train_round`: the new state and status file, and the rows used or, for a call that
  -- raises, `none`
  unfoldable pub train_round : (W → W) → Args W → Events W → System W → System W × Option ℕ
  train_round round4 args ev sys =
      let s : State W = record sys.state { round = sys.state.round + 1 } in
      if ltb ev.rows args.min_rows
      then (
        record {
          state = s;
          status_file =
              write_status args s waiting ev.rows s.last_loss ev.first_write sys.status_file;
        },
        some 0,
      )
      else let file =
          write_status args s training ev.rows s.last_loss ev.first_write sys.status_file in
        elim ev.losses [
          | none ↦ (record { state = s; status_file = file }, none)
          | some epochs ↦ finish_round round4 args ev s file epochs
        ]

  -- the `try` of the endless loop: a round that raises leaves what it has done
  unfoldable pub run_rounds : (W → W) → Args W → List (Events W) → System W → System W
  run_rounds round4 args [] sys = sys
  run_rounds round4 args (ev ∷ evs) sys =
      run_rounds round4 args evs (train_round round4 args ev sys).0

  pub initial : System W
  initial = record {
    state = record { round = 0; exports = 0; last_loss = nought; exported_at = 0 };
    status_file = none;
  }
