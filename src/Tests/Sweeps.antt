-- ===== src/Tests/Sweeps.antt =====
-- The training loops of the experiments at concrete inputs.
use ads_bidding_optimizer.Prelude.{ℕ, ◌≡◌, refl, true, false, some, List, [], ◌∷◌, length, arith}
use ads_bidding_optimizer.Prelude.Int.{ℤ, pos}
use ads_bidding_optimizer.Float.Exact.{ℤ_float, ℤ-IsOrdered, ℤ-IsRounded}
use ads_bidding_optimizer.Dict.{text_key, lookup}
use ads_bidding_optimizer.Dataset.{num_batches}
use ads_bidding_optimizer.Train.{Params, Shadow}
use ads_bidding_optimizer.Train.Swap.{IsNamed}
use ads_bidding_optimizer.Sweep.{sweep_epochs, sweep_start, sweep_train_one, epoch_batches}
use ads_bidding_optimizer.Sweep.Rounds.{epoch_batches_one_less}
use ads_bidding_optimizer.Sweep.Kept.{Unbeaten, sweep_train_one_best}

abbrev six : List ℕ
six = 10 ∷ 11 ∷ 12 ∷ 13 ∷ 14 ∷ 15 ∷ []

epoch_batches_one_less_example : (length (epoch_batches six 2) ≡ 2) × (num_batches 6 2 true ≡ 3)
epoch_batches_one_less_example = epoch_batches_one_less six 2 (omega arith) 2 refl

-- the weight after an epoch, and a parameter that is not trained
abbrev model : ℕ → Params ℤ
model n =
    ((119 ∷ []), record { values = pos n ∷ []; requires_grad = true })
    ∷ ((98 ∷ []), record { values = pos 2 ∷ []; requires_grad = false })
    ∷ []

abbrev averaged : Shadow ℤ
averaged = ((119 ∷ []), pos 4 ∷ []) ∷ []

abbrev fit : ℕ → Params ℤ → Shadow ℤ → Params ℤ × Shadow ℤ
fit epoch m s = (model epoch, s)

fit-IsNamed : (epoch : ℕ) (m : Params ℤ) (s : Shadow ℤ) → IsNamed (fit epoch m s).0
unfolding lookup
fit-IsNamed epoch m s = (refl, (refl, tt))

-- the loss of a model is its first weight
abbrev first_weight : Params ℤ → ℤ
first_weight [] = pos 0
first_weight ((n, p) ∷ m) = elim p.values [ [] ↦ pos 0 | x ∷ xs ↦ x ]

sweep_train_one_best_example :
    let t = sweep_epochs fit first_weight 3 0 (sweep_start (model 7) averaged) in
    let chosen = sweep_train_one fit first_weight 3 (model 7) averaged in
    (b : ℤ) × (chosen.best_val ≡ some b)
    × (first_weight chosen.model ≡ b)
    × Unbeaten b t.raw_losses
    × Unbeaten b t.ema_losses
    × (length t.raw_losses ≡ 3)
    × (length t.ema_losses ≡ 3)
sweep_train_one_best_example =
    sweep_train_one_best ℤ-IsOrdered ℤ-IsRounded first_weight fit 2 (model 7) averaged fit-IsNamed
