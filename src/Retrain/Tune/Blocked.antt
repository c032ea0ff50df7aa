-- ===== src/Retrain/Tune/Blocked.antt =====
-- A theorem on the rounds of retrain.py with a record in the window that cannot be encoded.
use ads_bidding_optimizer.Prelude.{
  ℕ, zero, suc, ◌+◌, ◌≡◌, refl, ap, ◌∙◌, false, Bool-cases, inl, inr, Option, none, some, List, [],
  ◌∷◌, All, length, get_elem?, ltb, arith,
}
use ads_bidding_optimizer.Prelude.Int.{ℤ}
use ads_bidding_optimizer.Float.{Float}
use ads_bidding_optimizer.Arrays.{Arrays}
use ads_bidding_optimizer.Retrain.Record.{Outcome, Config}
use ads_bidding_optimizer.Retrain.Window.{read_window}
use ads_bidding_optimizer.Retrain.Rounds.{State, Args, System}
use ads_bidding_optimizer.Retrain.Tune.{
  Tensors, Machine, Training, tensors_row, add_tensors, build_tensors, trained_on, tuned_round,
  tuned_rounds,
}

-- A record of the rows raises when it is read.
abbrev pub HasUnreadable {ℓ κ} :
    {R : Type ℓ} {W : Type κ} → (R → Option (Outcome W)) → List R → Type (ℓ ⊔ κ)
HasUnreadable {R = R} read rows = (i : ℕ) × (r : R) × (get_elem? rows i ≡ some r) × (read r ≡ none)

-- The state after a number of rounds that export nothing.
abbrev pub counted {ℓ} : {W : Type ℓ} → ℕ → State W → State W
counted n s = record s { round = s.round + n }

module _ {ℓ μ} {R : Type μ} {W : Type ℓ} ⦃f : Float W⦄ ⦃a : Arrays W⦄ (round : W → ℤ)
    (read : R → Option (Outcome W)) (cfg : Config W) (num_bins : ℕ) where
  add_tensors-none :
      (row : Outcome W → Tensors W) (rec : Option (Outcome W)) → add_tensors row rec none ≡ none
  unfolding add_tensors
  add_tensors-none row none = refl
  add_tensors-none row (some rec) = refl

  -- one record is enough for the whole window to raise
  build_tensors-none :
      (rows : List R) (i : ℕ) (r : R)
      → get_elem? rows i ≡ some r
      → read r ≡ none
      → build_tensors round read rows cfg num_bins ≡ none
  unfolding build_tensors
  build_tensors-none [] i r e bad = absurd (cc)
  build_tensors-none (x ∷ rows) zero r e bad =
      let same : read x ≡ read r = ap (λ o. elim o [ none ↦ none | some y ↦ read y ]) e in
      unfold add_tensors in rw (same ∙ bad) refl
  build_tensors-none (x ∷ rows) (suc i) r e bad =
      rw (build_tensors-none rows i r e bad)
        (add_tensors-none (tensors_row round cfg num_bins) (read x))

module _ {ℓ κ μ} {M : Type ℓ} {R : Type μ} {W : Type κ} ⦃f : Float W⦄ ⦃a : Arrays W⦄
    (round4 : W → W) (round : W → ℤ) (cfg : Config W) (tr : Training) (args : Args W) where
  -- The window of a round has a record that raises.
  abbrev pub IsBlocked : Machine M R W → Type (κ ⊔ μ)
  IsBlocked m = HasUnreadable m.read_record (read_window m.loads m.lines args.window)

  round_blocked :
      (m : Machine M R W) (sys : System W) (warm : Option (M × ℕ))
      → m.warm_start ≡ warm
      → IsBlocked m
      → ltb (length (read_window m.loads m.lines args.window)) args.min_rows ≡ false
      → (tuned_round round4 round cfg tr args m sys).0.state ≡ counted 1 sys.state
  unfolding tuned_round trained_on
  round_blocked m sys none found bad enough = rw (enough, found) refl
  round_blocked m sys (some (model, num_bins)) found (i, r, at, unread) enough =
      rw
        (
          enough,
          found,
          build_tensors-none round m.read_record cfg num_bins
              (read_window m.loads m.lines args.window) i r at unread,
        )
        refl

  tuned_round_blocked :
      (m : Machine M R W) (sys : System W)
      → IsBlocked m
      → (tuned_round round4 round cfg tr args m sys).0.state ≡ counted 1 sys.state
  unfolding tuned_round
  tuned_round_blocked m sys bad =
      elim (Bool-cases (ltb (length (read_window m.loads m.lines args.window)) args.min_rows)) [
        | inl few ↦ rw few refl
        | inr enough ↦ round_blocked m sys m.warm_start refl bad enough
      ]

  -- As long as the window of every round has a record that parses as JSON but raises when it is
  -- encoded, the rounds count themselves and nothing else: there is no export, and the loss and the
  -- time of the last export stay as they were, whatever the other records, the checkpoint, the
  -- training and the status file do.
  pub tuned_rounds_blocked :
      (ms : List (Machine M R W)) (sys : System W)
      → All IsBlocked ms
      → (tuned_rounds round4 round cfg tr args ms sys).state ≡ counted (length ms) sys.state
  unfolding tuned_rounds
  tuned_rounds_blocked [] sys bad = ap (λ n. record sys.state { round = n }) (omega arith)
  tuned_rounds_blocked (m ∷ ms) sys bad =
      tuned_rounds_blocked ms (tuned_round round4 round cfg tr args m sys).0 bad.1
      ∙ ap (counted (length ms)) (tuned_round_blocked m sys bad.0)
      ∙ ap (λ n. record sys.state { round = n }) (omega arith)
