-- ===== src/Retrain/Rounds/Invariant.antt =====
-- Theorems on the rounds of retrainer/retrain.py: the totals it keeps and the status file.
use ads_bidding_optimizer.Prelude.{
  true, ◌+◌, ◌≤◌, ◌<◌, ◌≡◌, ◌⊎◌, Option, none, some, List, [], ◌∷◌, length, ◌∙◌, arith,
}
use ads_bidding_optimizer.Float.{Float}
use ads_bidding_optimizer.Retrain.Rounds.{
  State, Payload, Args, Events, System, write_status, finish_round, train_round, run_rounds,
  initial,
}

-- What a reader of the status file may rely on: its totals are never ahead of the state, its model
-- version is its number of exports, and its window the configured one.
pub record IsPublished {ℓ} {W : Type ℓ} ⦃f : Float W⦄ (args : Args W) (s : State W) (p : Payload W)
    : Type ℓ where
  pub exports_bound : p.exports ≤ s.exports
  pub round_bound : p.round ≤ s.round
  pub within : p.exports ≤ p.round
  pub version : p.model_version ≡ f.of_ℕ p.exports
  pub window : p.window ≡ args.window

abbrev pub Published {ℓ} :
    {W : Type ℓ} ⦃f : Float W⦄ → Args W → State W → Option (Payload W) → Type ℓ
Published args s none = Unit
Published args s (some p) = IsPublished args s p

pub record IsConsistent {ℓ} {W : Type ℓ} ⦃f : Float W⦄ (args : Args W) (sys : System W)
    : Type ℓ where
  pub exports-le-round : sys.state.exports ≤ sys.state.round
  pub published : Published args sys.state sys.status_file

module _ {W : Type 0} ⦃f : Float W⦄ (round4 : W → W) (args : Args W) where
  -- A round counts itself, and counts an export exactly if it returns the number of a window of at
  -- least `min_rows` rows: a round with too few rows returns 0, and a round that raises, in training
  -- or in the export, returns nothing; both leave the exports, the loss and the time of the last
  -- export as they were. No status file is written unless a path is given.
  pub train_round_cases :
      (ev : Events W) (sys : System W)
      → let (sys', result) = train_round round4 args ev sys in
        (sys'.state.round ≡ sys.state.round + 1)
        × ((ev.rows < args.min_rows
              × (result ≡ some 0)
              × (sys'.state ≡ record sys.state { round = sys.state.round + 1 }))
            ⊎ ((args.min_rows ≤ ev.rows)
                × (result ≡ none)
                × (sys'.state ≡ record sys.state { round = sys.state.round + 1 }))
            ⊎ ((args.min_rows ≤ ev.rows)
                × (result ≡ some ev.rows)
                × (sys'.state.exports ≡ sys.state.exports + 1)
                × (sys'.state.exported_at ≡ ev.now)))
        × ((args.has_status ≡ true) ⊎ (sys'.status_file ≡ sys.status_file))
  unfolding train_round finish_round write_status
  train_round_cases ev sys = (ground arith, ground arith, ground arith)

  pub train_round-IsConsistent :
      (ev : Events W) (sys : System W)
      → IsConsistent args sys
      → IsConsistent args (train_round round4 args ev sys).0
  unfolding train_round finish_round write_status
  train_round-IsConsistent ev sys h = ground arith

  run_rounds-IsConsistent :
      (evs : List (Events W)) (sys : System W)
      → IsConsistent args sys
      → IsConsistent args (run_rounds round4 args evs sys)
  unfolding run_rounds
  run_rounds-IsConsistent [] sys h = h
  run_rounds-IsConsistent (ev ∷ evs) sys h =
      run_rounds-IsConsistent evs (train_round round4 args ev sys).0
        (train_round-IsConsistent ev sys h)

  run_rounds-round :
      (evs : List (Events W)) (sys : System W)
      → (run_rounds round4 args evs sys).state.round ≡ sys.state.round + length evs
  unfolding run_rounds
  run_rounds-round [] sys = omega arith
  run_rounds-round (ev ∷ evs) sys =
      omega (
        arith,
        run_rounds-round evs (train_round round4 args ev sys).0,
        (train_round_cases ev sys).0,
      )

  -- However many rounds are run and whatever happens in them, there are at most as many exports as
  -- rounds, the rounds are the number of calls, and the published status file, if there is one, has
  -- totals that the state has reached, the number of exports as its model version, and the
  -- configured window.
  pub run_rounds_published :
      (evs : List (Events W))
      → ((run_rounds round4 args evs initial).state.round ≡ length evs)
        × IsConsistent args (run_rounds round4 args evs initial)
  run_rounds_published evs = (
    run_rounds-round evs initial ∙ (unfold initial in omega arith),
    run_rounds-IsConsistent evs initial (unfold initial in ground arith),
  )
