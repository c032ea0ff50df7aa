-- ===== src/Tests/Rounds.antt =====
-- The retrainer's rounds with their training at concrete inputs, over whole numbers.
use ads_bidding_optimizer.Prelude.{
  if◌then◌else◌, ◌==◌, ℕ, ◌+◌, ◌-◌, ◌≡◌, refl, true, false, none, some, List, [], ◌∷◌, length, All,
  arith,
}
use ads_bidding_optimizer.Prelude.Int.{ℤ, pos}
use ads_bidding_optimizer.Float.Exact.{ℤ_float}
use ads_bidding_optimizer.Arrays.Plain.{ℤ_arrays}
use ads_bidding_optimizer.Dataset.{num_batches}
use ads_bidding_optimizer.Features.Parse.{concat}
use ads_bidding_optimizer.Retrain.Rounds.{Args, initial}
use ads_bidding_optimizer.Retrain.Tune.{Machine, Training, tune_batches, tuned_rounds}
use ads_bidding_optimizer.Retrain.Tune.Blocked.{IsBlocked, counted, tuned_rounds_blocked}
use ads_bidding_optimizer.Retrain.Window.{
  read_window, read_rows, add_line, strip, strip_left, is_space, keep_last, last_rows,
}
use ads_bidding_optimizer.Retrain.Tune.Batches.{IsBatch, tune_batches_rows}
use ads_bidding_optimizer.Tests.Records.{outcome, config}

abbrev five : List ℕ
five = 10 ∷ 11 ∷ 12 ∷ 13 ∷ 14 ∷ []

-- two whole batches and a short one
test_batches : tune_batches 5 2 0 five ≡ (10 ∷ 11 ∷ []) ∷ (12 ∷ 13 ∷ []) ∷ (14 ∷ []) ∷ []
unfolding tune_batches
test_batches = refl

tune_batches_rows_example :
    (concat (tune_batches 5 2 0 five) ≡ five)
    × (length (tune_batches 5 2 0 five) ≡ num_batches 5 2 false)
    × All (IsBatch 2 (omega arith) five) (tune_batches 5 2 0 five)
tune_batches_rows_example = tune_batches_rows 2 (omega arith) five

-- a record is a number, and only the record 1 has all fields; a model is a number, and its loss goes down by one with each step
abbrev machine : Machine ℕ ℕ ℤ
machine = record {
  lines = some ((49 ∷ []) ∷ (50 ∷ []) ∷ (51 ∷ []) ∷ []);
  loads = λ t. some (length t);
  read_record = λ r. if r == 1 then some outcome else none;
  warm_start = some (4, 100);
  shuffle = λ epoch rows. rows;
  step = λ model batch. (model + 1, pos (10 - model));
  export_returns = λ model. true;
  now = 60;
  first_write = true;
  second_write = true;
}

abbrev args : Args ℤ
args = record { window = 2; min_rows = 2; has_status = true }

abbrev training : Training
training = record { epochs = 2; batch_size = 2 }

abbrev whole : ℤ → ℤ
whole x = x

-- the second of two lines is longer, and a third comes after it
abbrev with_bad : Machine ℕ ℕ ℤ
with_bad = record machine { lines = some ((49 ∷ []) ∷ (50 ∷ 50 ∷ []) ∷ []) }

abbrev later : Machine ℕ ℕ ℤ
later = record machine { lines = some ((49 ∷ []) ∷ (50 ∷ 50 ∷ []) ∷ (51 ∷ []) ∷ []); now = 120 }

with_bad-IsBlocked : IsBlocked whole whole config training args with_bad
unfolding read_window read_rows add_line strip strip_left is_space keep_last last_rows
with_bad-IsBlocked = (1, 2, refl, refl)

later-IsBlocked : IsBlocked whole whole config training args later
unfolding read_window read_rows add_line strip strip_left is_space keep_last last_rows
later-IsBlocked = (0, 2, refl, refl)

tuned_rounds_blocked_example :
    (tuned_rounds whole whole config training args (with_bad ∷ later ∷ []) initial).state
    ≡ counted 2 (initial {W = ℤ}).state
tuned_rounds_blocked_example =
    tuned_rounds_blocked whole whole config training args (with_bad ∷ later ∷ []) initial
      (with_bad-IsBlocked, (later-IsBlocked, tt))
