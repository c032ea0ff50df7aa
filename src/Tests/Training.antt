-- ===== src/Tests/Training.antt =====
-- Training and the retrainer at concrete inputs.
use ads_bidding_optimizer.Prelude.{
  ℕ, ◌+◌, ◌≤◌, ◌<◌, ◌≡◌, ◌≢◌, ◌⊎◌, refl, true, false, Option, none, some, [], ◌∷◌,
}
use ads_bidding_optimizer.Prelude.Int.{ℤ, pos}
use ads_bidding_optimizer.Float.Exact.{ℤ_float}
use ads_bidding_optimizer.Dict.{text_key}
use ads_bidding_optimizer.Arrays.Plain.{ℤ_arrays}
use ads_bidding_optimizer.Retrain.Calendar.{
  is_date, weekday, weekday_monday0, days_before_month, days_in_month,
}
use ads_bidding_optimizer.Retrain.Export.{Files, Calls, export_onnx, export_onnx_atomic}
use ads_bidding_optimizer.Retrain.Rounds.{Args, Events, System, train_round, run_rounds, initial}
use ads_bidding_optimizer.Retrain.Rounds.Invariant.{
  IsConsistent, train_round_cases, run_rounds_published,
}

-- 2013-06-06 was a Thursday
test_weekday : weekday_monday0 20130606120000 ≡ 3
unfolding weekday_monday0 weekday is_date days_before_month days_in_month
test_weekday = refl

-- an export that fails when it writes the temporary file
abbrev failing : Calls ℕ
failing = record {
  exported = some (7, some 8);
  loaded = some 9;
  saved = false;
  partial = some 3;
  replaced = true;
  removed_raw = true;
  removed_data = true;
}

abbrev files : Files ℕ
files = record { out = some 1; raw = none; raw_data = none; embed = none }

export_onnx_atomic_example :
    let s' = (export_onnx failing files).0 in
    (s'.out ≡ some 1) ⊎ ((s'.out ≡ some 9) × ◌≢◌ {A = Option ℕ} (some 9) none × (false ≡ true))
export_onnx_atomic_example = export_onnx_atomic failing files

abbrev fresh : System ℤ
fresh = initial

abbrev args : Args ℤ
args = record { window = 200; min_rows = 20; has_status = true }

-- too few rows, an export, and a round that raises
abbrev few : Events ℤ
few = record {
  rows = 3;
  losses = none;
  export_returns = true;
  now = 100;
  first_write = true;
  second_write = true;
}

abbrev full : Events ℤ
full = record few { rows = 50; losses = some ((pos 4 ∷ pos 2 ∷ []) ∷ []); now = 160 }

abbrev raising : Events ℤ
raising = record full { export_returns = false; now = 220 }

run_rounds_published_example :
    ((run_rounds (λ x. x) args (few ∷ full ∷ raising ∷ []) initial).state.round ≡ 3)
    × IsConsistent args (run_rounds (λ x. x) args (few ∷ full ∷ raising ∷ []) initial)
run_rounds_published_example = run_rounds_published (λ x. x) args (few ∷ full ∷ raising ∷ [])

train_round_cases_example :
    let (sys', result) = train_round (λ x. x) args full fresh in
    (sys'.state.round ≡ fresh.state.round + 1)
    × ((50 < 20
          × (result ≡ some 0)
          × (sys'.state ≡ record fresh.state { round = fresh.state.round + 1 }))
        ⊎ ((20 ≤ 50)
            × (result ≡ none)
            × (sys'.state ≡ record fresh.state { round = fresh.state.round + 1 }))
        ⊎ ((20 ≤ 50)
            × (result ≡ some 50)
            × (sys'.state.exports ≡ fresh.state.exports + 1)
            × (sys'.state.exported_at ≡ 160)))
    × ((true ≡ true) ⊎ (sys'.status_file ≡ fresh.status_file))
train_round_cases_example = train_round_cases (λ x. x) args full fresh
