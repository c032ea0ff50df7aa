-- ===== src/Tests/Searches.antt =====
-- The searches for weights and for a temperature at concrete inputs, over whole numbers.
use ads_bidding_optimizer.Prelude.{
  inl, inr, ◌≡◌, refl, some, List, [], ◌∷◌, map, length, replicate, All, arith,
}
use ads_bidding_optimizer.Prelude.Int.{ℤ, pos, pos_part, ◌+ℤ◌, ◌*ℤ◌}
use ads_bidding_optimizer.Float.{◌≼◌, nought}
use ads_bidding_optimizer.Float.Exact.{ℤ_float, ℤ-IsOrdered, ℤ-IsRounded}
use ads_bidding_optimizer.Arrays.{Arrays}
use ads_bidding_optimizer.Float.{◌⊕◌, ◌⊗◌}
use ads_bidding_optimizer.Arrays.Plain.{ℤ_arrays, ℤ-IsDocumented}
use ads_bidding_optimizer.Dict.{text_key}
use ads_bidding_optimizer.Optimizer.{regret, grid_optimize_bins}
use ads_bidding_optimizer.Loss.{Target, mdn_log_prob}
use ads_bidding_optimizer.Search.{Priced, mean, regret_v150_grid, regret_vbid_grid}
use ads_bidding_optimizer.Search.Weights.{Trial, MemberRow, deltas, search_weights, weights_regret}
use ads_bidding_optimizer.Search.Best.{trial_of, search_weights_least}
use ads_bidding_optimizer.Search.Agree.{IsCeil, regret_grids-by_row}
use ads_bidding_optimizer.Search.Streaming.{regret_v150_streaming, regret_vbid_streaming}
use ads_bidding_optimizer.Search.Streamed.{streaming-eq-in_memory}
use ads_bidding_optimizer.Search.Subset.{avg_probs, regret_v150, regret_vbid, pick}
use ads_bidding_optimizer.Temperature.{
  Validation, nll_at, find_temperature, calibrated_mixture, scaled_log_prob,
}
use ads_bidding_optimizer.Temperature.Least.{find_temperature-least}

-- two members' probabilities of three bins, for three rows
abbrev member_row : ℤ → MemberRow ℤ
member_row pp = record {
  member_probs = (pos 0 ∷ pos 1 ∷ pos 0 ∷ []) ∷ (pos 1 ∷ pos 0 ∷ pos 0 ∷ []) ∷ [];
  pp = pp;
  bid = pos 2;
}

abbrev member_rows : List (MemberRow ℤ)
member_rows = member_row (pos 0) ∷ member_row (pos 1) ∷ member_row (pos 2) ∷ []

abbrev first_draw : List ℤ
first_draw = pos 1 ∷ pos 0 ∷ []

abbrev later_draws : List (List ℤ)
later_draws = (pos 0 ∷ pos 1 ∷ []) ∷ []

search_weights_least_example :
    let evaluate = weights_regret pos_part 3 member_rows in
    (t : Trial ℤ) × (search_weights evaluate deltas 3 2 (first_draw ∷ later_draws)
      ≡ some (t, map (trial_of evaluate) (first_draw ∷ later_draws)))
    × (t.r150 ≡ evaluate t.w)
    × (length t.w ≡ 2)
    × All (λ v. t.r150 ≼ evaluate v) (first_draw ∷ later_draws)
search_weights_least_example =
    search_weights_least ℤ-IsOrdered ℤ-IsRounded (weights_regret pos_part 3 member_rows) 2 deltas 3
      first_draw later_draws (refl, (refl, tt))

abbrev priced_rows : List (Priced ℤ)
priced_rows =
    record { probs = pos 1 ∷ pos 4 ∷ pos 3 ∷ []; pp = pos 1; bid = pos 2 }
    ∷ record { probs = pos 0 ∷ pos 2 ∷ []; pp = pos 0; bid = pos 1 }
    ∷ []

pos_part-IsCeil : IsCeil pos_part (pos 2)
pos_part-IsCeil n = (λ h. ground arith, λ h. ground arith)

regret_grids-by_row_example :
    (regret_v150_grid pos_part (pos 2) 1 priced_rows
      ≡ mean (
          map (λ r. regret (grid_optimize_bins r.probs (pos 2)).best_bid r.pp (pos 2)) priced_rows))
    × (regret_vbid_grid priced_rows
        ≡ mean
            (map (λ r. regret (grid_optimize_bins r.probs r.bid).best_bid r.pp r.bid) priced_rows))
regret_grids-by_row_example =
    regret_grids-by_row ℤ-IsOrdered ℤ-IsDocumented ℤ-IsRounded pos_part (pos 2) 1 priced_rows
      pos_part-IsCeil (omega arith)
      ((omega arith, (refl, (refl, (refl, tt)))), ((omega arith, (refl, (refl, tt))), tt))

abbrev both : List ℤ
both = pos 2 ∷ pos 1 ∷ []

-- the second member has no weight
nothing_added : (x y : ℤ) → x ⊕ nought ⊗ y ≡ x
unfolding ◌+ℤ◌ ◌*ℤ◌
nothing_added x y = ground arith

streaming-eq-in_memory_example :
    (regret_v150_streaming pos_part (pos 2) 3 2 member_rows first_draw
      ≡ regret_v150 pos_part (pos 2) (map (avg_probs 3 first_draw) member_rows))
    × (regret_vbid_streaming 3 2 member_rows first_draw
        ≡ regret_vbid (map (avg_probs 3 first_draw) member_rows))
streaming-eq-in_memory_example =
    streaming-eq-in_memory 3 first_draw nothing_added (inl refl, (inr refl, tt)) pos_part (pos 2) 2
      member_rows (omega arith)
      ((refl, (refl, (refl, tt))), ((refl, (refl, (refl, tt))), ((refl, (refl, (refl, tt))), tt)))

test_pick : pick (2 ∷ 0 ∷ []) member_rows ≡ some (member_row (pos 2) ∷ member_row (pos 0) ∷ [])
unfolding pick
test_pick = refl

abbrev targets : List (Target ℤ)
targets =
    record { pi_logits = pos 1 ∷ []; mu = pos 4 ∷ []; sigma = pos 1 ∷ []; target = pos 3 } ∷ []

-- temperatures that are whole numbers
abbrev spaced_arrays : Arrays ℤ
spaced_arrays = record ℤ_arrays { linspace = λ lo hi n. pos 1 ∷ pos 2 ∷ replicate 24 (pos 3) }

find_temperature-least_example :
    let found = find_temperature ⦃a = spaced_arrays⦄ (Validation.mixtures targets) in
    let saved = map (calibrated_mixture ⦃a = spaced_arrays⦄ found.best_t) targets in
    (c : ℤ) × (found.best_nll ≡ some c)
    × (nll_at ⦃a = spaced_arrays⦄ (Validation.mixtures targets) found.best_t ≡ c)
    × All
        (λ u. c ≼ nll_at ⦃a = spaced_arrays⦄ (Validation.mixtures targets) u)
        (pos 1 ∷ pos 2 ∷ replicate 24 (pos 3))
    × (map (λ r. mdn_log_prob ⦃a = spaced_arrays⦄ r.pi_logits r.mu r.sigma r.target) saved
        ≡ map (scaled_log_prob ⦃a = spaced_arrays⦄ found.best_t) targets)
find_temperature-least_example =
    find_temperature-least ⦃a = spaced_arrays⦄ ℤ-IsOrdered (Validation.mixtures targets) targets
      (pos 1) (pos 2 ∷ replicate 24 (pos 3)) refl
