-- ===== src/Tests/Quantiles.antt =====
-- Predicted quantiles and the budget runs at concrete inputs, over whole numbers.
use ads_bidding_optimizer.Prelude.{
  ℕ, zero, suc, ◌<◌, ◌≤◌, ◌≡◌, refl, true, Bool-cases, inl, inr, none, some, List, [], ◌∷◌, length,
  get_or, All, if◌then◌else◌, arith,
}
use ads_bidding_optimizer.Prelude.Int.{ℤ, pos, ◌+ℤ◌, ◌-ℤ◌, ltb_ℤ}
use ads_bidding_optimizer.Float.{◌≼◌, ◌<?◌}
use ads_bidding_optimizer.Float.Exact.{ℤ_float, ℤ-IsOrdered, ℤ-IsRounded, div_ℤ}
use ads_bidding_optimizer.Arrays.Plain.{ℤ_arrays, ℤ-IsDocumented, total, scan}
use ads_bidding_optimizer.Edges.Rising.{Rising}
use ads_bidding_optimizer.Lgbm.{quantile_to_cdf_pdf, quantile_to_cdf_pdf_vec}
use ads_bidding_optimizer.Lgbm.Searched.{IsSearch, InOrder, quantile_to_cdf_pdf_vec_lem}
use ads_bidding_optimizer.Lgbm.Bounds.{IsCdf, quantile_to_cdf_pdf_vec-IsCdf}
use ads_bidding_optimizer.Budget.Evaluation.{Logged, BudgetResults, budget_eval}
use ads_bidding_optimizer.Budget.Evaluation as Evaluation
use ads_bidding_optimizer.Arrays.{range_from}
use ads_bidding_optimizer.Ensemble.{differences, running_max, accumulate_max}
use ads_bidding_optimizer.Ensemble.Mass.{HasMass}
use ads_bidding_optimizer.Isotonic.{
  Prediction, with_probs, ranks, apply_iso_to_cdf, calibrated_masses, calibrated_cdf,
  fit_pit_calibrator, calibrate,
}
use ads_bidding_optimizer.Isotonic.Bids.{AreCalibrated, calibrate-AreCalibrated}
use ads_bidding_optimizer.Budget.Runs.{HasShares, Keeps, budget_eval-Keeps}

-- a search from the left for the first greater number
abbrev place : List ℤ → ℤ → ℕ
place [] p = 0
place (x ∷ xs) p = let rest = place xs p in if ltb_ℤ p x then 0 else suc rest

-- all numbers of rising ones from a greater one on are greater
greater_after :
    (p x : ℤ) (xs : List ℤ) (i : ℕ)
    → Rising (x ∷ xs)
    → (p <? x) ≡ true
    → i < length (x ∷ xs)
    → (p <? get_or (x ∷ xs) i (pos 0)) ≡ true
greater_after p x xs zero r h hi = h
greater_after p x [] (suc i) r h hi = absurd (omega arith)
greater_after p x (y ∷ xs) (suc i) r h hi =
    greater_after p y xs i r.1 (ground (arith, r.0)) (omega arith)

tail-Rising : (x : ℤ) (xs : List ℤ) → Rising (x ∷ xs) → Rising xs
tail-Rising x [] r = tt
tail-Rising x (y ∷ xs) r = r.1

place_le : (p : ℤ) (xs : List ℤ) → place xs p ≤ length xs
place_le p [] = omega arith
place_le p (x ∷ xs) = ground (arith, place_le p xs)

place_before : (p : ℤ) (xs : List ℤ) (i : ℕ) → i < place xs p → get_or xs i (pos 0) ≼ p
place_before p [] i h = absurd (omega arith)
place_before p (x ∷ xs) zero h = ground arith
place_before p (x ∷ xs) (suc i) h = ground (arith, place_before p xs i)

place_after :
    (p : ℤ) (xs : List ℤ) (i : ℕ)
    → Rising xs
    → place xs p ≤ i
    → i < length xs
    → (p <? get_or xs i (pos 0)) ≡ true
place_after p [] i r from h = absurd (omega arith)
place_after p (x ∷ xs) zero r from h = ground arith
place_after p (x ∷ xs) (suc i) r from h = elim (Bool-cases (ltb_ℤ p x)) [
  | inl greater ↦ greater_after p x xs (suc i) r greater h
  | inr less ↦ place_after p xs i (tail-Rising x xs r) (ground (arith, less)) (omega arith)
]

place-IsSearch : IsSearch place
place-IsSearch xs p r = record {
  at_most = place_le p xs;
  before = place_before p xs;
  after = λ i. place_after p xs i r;
}

-- two rows of quantiles, the first of them in order
abbrev in_order : List ℤ
in_order = pos 20 ∷ pos 30 ∷ pos 30 ∷ []

abbrev alphas : List ℤ
alphas = pos 0 ∷ pos 1 ∷ pos 1 ∷ []

abbrev prices : List ℤ
prices = pos 0 ∷ pos 25 ∷ pos 30 ∷ pos 90 ∷ []

in_order-InOrder : InOrder in_order
unfolding ◌-ℤ◌
in_order-InOrder = record {
  rising = (refl, (refl, tt));
  low = (refl, (refl, (refl, tt)));
  high = (refl, (refl, (refl, tt)));
}

quantile_to_cdf_pdf_vec_lem_example :
    quantile_to_cdf_pdf_vec (in_order ∷ in_order ∷ []) alphas prices
    ≡ quantile_to_cdf_pdf place (in_order ∷ in_order ∷ []) alphas prices
quantile_to_cdf_pdf_vec_lem_example =
    quantile_to_cdf_pdf_vec_lem ℤ-IsOrdered place place-IsSearch (unfold ◌-ℤ◌ in refl)
      (in_order ∷ in_order ∷ []) alphas prices (in_order-InOrder, (in_order-InOrder, tt))

-- quantiles that cross
abbrev crossed : List ℤ
crossed = pos 30 ∷ pos 20 ∷ pos 50 ∷ []

quantile_to_cdf_pdf_vec-IsCdf_example :
    All
      (λ (t : List ℤ × List ℤ). IsCdf ℤ-IsOrdered ℤ-IsRounded ℤ-IsDocumented (pos 150) t.0)
      (quantile_to_cdf_pdf_vec (in_order ∷ crossed ∷ []) alphas prices)
quantile_to_cdf_pdf_vec-IsCdf_example =
    quantile_to_cdf_pdf_vec-IsCdf ℤ-IsOrdered ℤ-IsRounded ℤ-IsDocumented (pos 150)
      (in_order ∷ crossed ∷ []) alphas prices (omega arith) refl

-- rows of the three kinds of models
abbrev logged : List (Logged ℤ)
logged =
    record {
      saved = Evaluation.Saved.quantiles in_order;
      pp = pos 20;
      bid = pos 60;
      click = some 1;
    }
    ∷ record {
      saved = Evaluation.Saved.bins (pos 1 ∷ pos 4 ∷ pos 3 ∷ []);
      pp = pos 1;
      bid = pos 5;
      click = some 0;
    }
    ∷ record {
      saved = Evaluation.Saved.mixture (pos 1 ∷ []) (pos 2 ∷ []) (pos 1 ∷ []);
      pp = pos 3;
      bid = pos 9;
      click = some 0;
    }
    ∷ []

shares : HasShares ℤ
shares = record { of_32 = refl; of_8 = refl; of_2 = refl }

abbrev res : BudgetResults ℤ
res = budget_eval alphas 3 true (pos 150) logged

budget_eval-Keeps_example :
    (length res.budgets ≡ 4) × All (Keeps res.unconstrained_bid_count) res.budgets
budget_eval-Keeps_example =
    budget_eval-Keeps ℤ-IsOrdered ℤ-IsRounded ℤ-IsDocumented shares alphas 3 true (pos 150) logged
      (refl, (refl, (refl, tt)))

-- a fit that adds up the targets, and a row of predictions
abbrev shift : List ℤ → List ℤ → ℤ → ℤ
shift vals targets x = x +ℤ total targets

abbrev predicted : List (Prediction (List ℤ) ℤ)
predicted =
    record {
      preds = pos 0 ∷ pos 4 ∷ pos 3 ∷ [];
      pp = pos 2;
      bid = pos 60;
      log_pp = pos 1;
      adv = none;
    }
    ∷ []

abbrev calibrator : ℤ → ℤ
calibrator = fit_pit_calibrator shift (pos 0 ∷ pos 1 ∷ [])

predicted-HasMass :
    HasMass (calibrated_masses (calibrated_cdf calibrator (pos 0 ∷ pos 4 ∷ pos 3 ∷ [])))
unfolding calibrated_masses calibrated_cdf apply_iso_to_cdf fit_pit_calibrator ranks range_from
    total scan differences running_max accumulate_max ◌+ℤ◌ ◌-ℤ◌ div_ℤ
predicted-HasMass = refl

calibrate-AreCalibrated_example :
    (saved : List (Prediction (List ℤ) ℤ)) × (calibrate shift
        (pos 0 ∷ pos 1 ∷ [])
        (with_probs predicted)
      ≡ some saved)
    × AreCalibrated ℤ-IsOrdered ℤ-IsRounded ℤ-IsDocumented calibrator (pos 150) predicted saved
calibrate-AreCalibrated_example =
    calibrate-AreCalibrated ℤ-IsOrdered ℤ-IsRounded ℤ-IsDocumented shift (pos 0 ∷ pos 1 ∷ [])
      (pos 150) predicted ((predicted-HasMass, omega arith), tt) refl
