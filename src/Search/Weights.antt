-- ===== src/Search/Weights.antt =====
-- The search of `main` in rtb-bid-model/src/experiments/ens_search.py for the weights with the least
-- regret: random draws, then changes of one weight at a time. The draws are arguments, and so is the
-- regret of a weight vector.
use ads_bidding_optimizer.Prelude.{
  ℕ, zero, suc, Bool, true, false, Option, none, some, List, [], ◌∷◌, ◌++◌, map, if◌then◌else◌,
}
use ads_bidding_optimizer.Float.{Float, ◌⊕◌, ◌⊖◌, ◌≤?◌, ◌<?◌, nought}
use ads_bidding_optimizer.Arrays.{Arrays}
use ads_bidding_optimizer.Ensemble.{normalise}
use ads_bidding_optimizer.Search.{Priced, weighted, regret_v150_grid, regret_vbid_grid}

-- an entry of `results`
pub record Trial {ℓ} (W : Type ℓ) : Type ℓ where
  pub w : List W
  pub r150 : W

-- `best_r` and `best_w`, which are infinite and None at first, and `results`
pub record Found {ℓ} (W : Type ℓ) : Type ℓ where
  pub best : Option (Trial W)
  pub results : List (Trial W)

-- the state of the greedy refinement
pub record Climb {ℓ} (W : Type ℓ) : Type ℓ where
  pub best : Trial W
  pub improved : Bool

-- what is saved
pub record Outcome {ℓ} (W : Type ℓ) : Type ℓ where
  pub best_r150 : W
  pub best_rvbid : W
  pub best_w : List W
  pub all_results : List (Trial W)

-- a row of the members' probabilities
pub record MemberRow {ℓ} (W : Type ℓ) : Type ℓ where
  pub member_probs : List (List W)
  pub pp : W
  pub bid : W

module _ {ℓ} {W : Type ℓ} ⦃f : Float W⦄ where
  -- `r < best_r`
  unfoldable pub lower : W → Option (Trial W) → Bool
  lower r none = true
  lower r (some t) = r <? t.r150

  unfoldable pub try_draw : (List W → W) → List W → Found W → Found W
  try_draw evaluate w s =
      let t : Trial W = record { w = w; r150 = evaluate w } in
      record {
        best = if lower t.r150 s.best then some t else s.best;
        results = s.results ++ t ∷ [];
      }

  unfoldable pub draw_loop : (List W → W) → List (List W) → Found W → Found W
  draw_loop evaluate [] s = s
  draw_loop evaluate (w ∷ draws) s = draw_loop evaluate draws (try_draw evaluate w s)

  unfoldable pub no_trials : Found W
  no_trials = record { best = none; results = [] }

  -- `w[i] = max(0.0, w[i] + delta)`
  unfoldable pub nudge : ℕ → W → List W → List W
  nudge i delta [] = []
  nudge zero delta (x ∷ w) = (if nought <? x ⊕ delta then x ⊕ delta else nought) ∷ w
  nudge (suc i) delta (x ∷ w) = x ∷ nudge i delta w

  abbrev pub deltas : List W
  deltas =
      (nought ⊖ f.lit 1 1)
      ∷ (nought ⊖ f.lit 5 2)
      ∷ (nought ⊖ f.lit 2 2)
      ∷ f.lit 2 2
      ∷ f.lit 5 2
      ∷ f.lit 1 1
      ∷ []

module _ {ℓ} {W : Type ℓ} ⦃f : Float W⦄ ⦃a : Arrays W⦄ where
  unfoldable pub greedy_try : (List W → W) → ℕ → W → Climb W → Climb W
  greedy_try evaluate i delta s =
      let w = nudge i delta s.best.w in
      let t : Trial W = record { w = normalise w; r150 = evaluate (normalise w) } in
      if a.sum w ≤? nought
      then s
      else if t.r150 <? s.best.r150 ⊖ f.lit 1 4
      then record { best = t; improved = true }
      else s

  -- the inner loop, over the changes of the weight `i`
  unfoldable pub greedy_deltas : (List W → W) → ℕ → List W → Climb W → Climb W
  greedy_deltas evaluate i [] s = s
  greedy_deltas evaluate i (delta ∷ ds) s =
      greedy_deltas evaluate i ds (greedy_try evaluate i delta s)

  -- the loop over the `n` members from `i` on
  unfoldable pub greedy_members : (List W → W) → List W → ℕ → ℕ → Climb W → Climb W
  greedy_members evaluate ds zero i s = s
  greedy_members evaluate ds (suc n) i s =
      greedy_members evaluate ds n (suc i) (greedy_deltas evaluate i ds s)

  -- at most `rounds` passes over the members, the last of which found nothing lower
  unfoldable pub greedy_rounds : (List W → W) → List W → ℕ → ℕ → Trial W → Trial W
  greedy_rounds evaluate ds zero count best = best
  greedy_rounds evaluate ds (suc rounds) count best =
      let s = greedy_members evaluate ds count 0 (record { best = best; improved = false }) in
      let rest = greedy_rounds evaluate ds rounds count s.best in
      if s.improved then rest else s.best

  -- the draws and the refinement; without a draw `best_w.copy()` raises
  unfoldable pub search_weights :
      (List W → W) → List W → ℕ → ℕ → List (List W) → Option (Trial W × List (Trial W))
  search_weights evaluate ds rounds count draws =
      let s = draw_loop evaluate draws no_trials in
      elim s.best [
        | none ↦ none
        | some t ↦ some (greedy_rounds evaluate ds rounds count t, s.results)
      ]

  -- the average of a row, divided by its sum
  unfoldable pub averaged : ℕ → List W → MemberRow W → Priced W
  averaged num_bins w r = record {
    probs = normalise (weighted num_bins w r.member_probs);
    pp = r.pp;
    bid = r.bid;
  }

  -- the regret of the weights `w`
  unfoldable pub weights_regret : (W → ℕ) → ℕ → List (MemberRow W) → List W → W
  weights_regret ceil num_bins rows w =
      regret_v150_grid ceil (f.lit 150 0) 200000 (map (averaged num_bins w) rows)

  -- `draws` has those of both loops, one after the other
  unfoldable pub ens_search :
      (W → ℕ) → ℕ → ℕ → List (MemberRow W) → List (List W) → Option (Outcome W)
  ens_search ceil num_bins count rows draws =
      elim (search_weights (weights_regret ceil num_bins rows) deltas 3 count draws) [
        | none ↦ none
        | some (best, results) ↦ some (record {
          best_r150 = best.r150;
          best_rvbid = regret_vbid_grid (map (averaged num_bins best.w) rows);
          best_w = best.w;
          all_results = results;
        })
      ]
