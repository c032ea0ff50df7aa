-- ===== src/Search/Best.antt =====
-- A theorem on the search for weights in rtb-bid-model/src/experiments/ens_search.py and its copies.
use ads_bidding_optimizer.Prelude.{
  ℕ, zero, suc, ◌≡◌, refl, sym, ap, ◌∙◌, false, Bool-cases, inl, inr, some, List, [], ◌∷◌, ◌++◌,
  map, length, All, All-imp, append-nil, append_assoc,
}
use ads_bidding_optimizer.Float.{Float, ◌⊖◌, nought, ◌<?◌, ◌≤?◌, ◌≼◌, IsOrdered, IsRounded}
use ads_bidding_optimizer.Arrays.{Arrays}
use ads_bidding_optimizer.Optimizer.Grid.{le_of_not_lt, le_of_lt}
use ads_bidding_optimizer.Ensemble.{normalise}
use ads_bidding_optimizer.Ensemble.Lengths.{length-normalise}
use ads_bidding_optimizer.Search.Weights.{
  Trial, Found, Climb, lower, try_draw, draw_loop, no_trials, nudge, greedy_try, greedy_deltas,
  greedy_members, greedy_rounds, search_weights,
}

module _ {ℓ} {W : Type ℓ} ⦃f : Float W⦄ where
  length-nudge : (i : ℕ) (delta : W) (w : List W) → length (nudge i delta w) ≡ length w
  unfolding nudge
  length-nudge i delta [] = refl
  length-nudge zero delta (x ∷ w) = refl
  length-nudge (suc i) delta (x ∷ w) = ap suc (length-nudge i delta w)

-- A weight vector with its regret.
abbrev pub trial_of {ℓ} : {W : Type ℓ} → (List W → W) → List W → Trial W
trial_of evaluate w = record { w = w; r150 = evaluate w }

-- A trial whose regret is that of its weights, one for each member, and at most `bound`.
abbrev pub Sound {ℓ} : {W : Type ℓ} ⦃f : Float W⦄ → (List W → W) → ℕ → W → Trial W → Type ℓ
Sound evaluate count bound t = (t.r150 ≡ evaluate t.w) × (length t.w ≡ count) × (t.r150 ≼ bound)

module _ {ℓ} {W : Type ℓ} ⦃f : Float W⦄ ⦃a : Arrays W⦄ (ordered : IsOrdered W)
    (rounded : IsRounded W) (evaluate : List W → W) (count : ℕ) where
  greedy_try-Sound :
      (i : ℕ) (delta : W) (s : Climb W) (bound : W)
      → Sound evaluate count bound s.best
      → Sound evaluate count bound (greedy_try evaluate i delta s).best
  unfolding greedy_try
  greedy_try-Sound i delta s bound h =
      elim (Bool-cases (a.sum (nudge i delta s.best.w) ≤? nought)) [
        | inl empty ↦ rw (greedy_try, empty) h
        | inr full ↦
            elim (Bool-cases
              (evaluate (normalise (nudge i delta s.best.w)) <? s.best.r150 ⊖ f.lit 1 4)) [
                | inl less ↦
                    rw (greedy_try, full, less)
                      (
                        refl,
                        length-normalise (nudge i delta s.best.w)
                            ∙ length-nudge i delta s.best.w
                            ∙ h.1,
                        ordered.le_trans _ _ _ (le_of_lt ordered _ _ less) (
                            ordered.le_trans _ s.best.r150 bound
                              (rounded.sub_le_self s.best.r150 (f.lit 1 4) (rounded.lit_nonneg 1 4))
                              h.2),
                      )
                | inr more ↦ rw (greedy_try, full, more) h
              ]
      ]

  greedy_deltas-Sound :
      (i : ℕ) (ds : List W) (s : Climb W) (bound : W)
      → Sound evaluate count bound s.best
      → Sound evaluate count bound (greedy_deltas evaluate i ds s).best
  unfolding greedy_deltas
  greedy_deltas-Sound i [] s bound h = h
  greedy_deltas-Sound i (delta ∷ ds) s bound h =
      greedy_deltas-Sound i ds (greedy_try evaluate i delta s) bound
        (greedy_try-Sound i delta s bound h)

  greedy_members-Sound :
      (ds : List W) (n i : ℕ) (s : Climb W) (bound : W)
      → Sound evaluate count bound s.best
      → Sound evaluate count bound (greedy_members evaluate ds n i s).best
  unfolding greedy_members
  greedy_members-Sound ds zero i s bound h = h
  greedy_members-Sound ds (suc n) i s bound h =
      greedy_members-Sound ds n (suc i) (greedy_deltas evaluate i ds s) bound
        (greedy_deltas-Sound i ds s bound h)

  greedy_rounds-Sound :
      (ds : List W) (rounds n : ℕ) (t : Trial W) (bound : W)
      → Sound evaluate count bound t
      → Sound evaluate count bound (greedy_rounds evaluate ds rounds n t)
  unfolding greedy_rounds
  greedy_rounds-Sound ds zero n t bound h = h
  greedy_rounds-Sound ds (suc rounds) n t bound h =
      let s = greedy_members evaluate ds n 0 (record { best = t; improved = false }) in
      let now = greedy_members-Sound ds n 0 (record { best = t; improved = false }) bound h in
      elim (Bool-cases s.improved) [
        | inl more ↦ rw more (greedy_rounds-Sound ds rounds n s.best bound now)
        | inr over ↦ rw over now
      ]

  try_draw_next :
      (w : List W) (s : Found W) (t : Trial W) (bound : W)
      → s.best ≡ some t
      → length w ≡ count
      → Sound evaluate count bound t
      → (u : Trial W) × ((try_draw evaluate w s).best ≡ some u)
        × Sound evaluate count bound u
        × (u.r150 ≼ t.r150)
        × (u.r150 ≼ evaluate w)
  unfolding try_draw lower
  try_draw_next w s t bound e l h = elim (Bool-cases (evaluate w <? t.r150)) [
    | inl less ↦
        let le = le_of_lt ordered _ _ less in
        (
          trial_of evaluate w,
          rw (e, less) refl,
          (refl, l, ordered.le_trans _ t.r150 bound le h.2),
          le,
          ordered.le_refl (evaluate w),
        )
    | inr more ↦ (t, rw (e, more) refl, h, ordered.le_refl t.r150, le_of_not_lt ordered _ _ more)
  ]

  -- the draws after one that has set the best
  draw_loop-best :
      (draws : List (List W)) (s : Found W) (t : Trial W) (bound : W)
      → s.best ≡ some t
      → All (λ w. length w ≡ count) draws
      → Sound evaluate count bound t
      → (u : Trial W) × ((draw_loop evaluate draws s).best ≡ some u)
        × Sound evaluate count bound u
        × (u.r150 ≼ t.r150)
        × All (λ w. u.r150 ≼ evaluate w) draws
  unfolding draw_loop
  draw_loop-best [] s t bound e ls h = (t, e, h, ordered.le_refl t.r150, tt)
  draw_loop-best (w ∷ draws) s t bound e ls h =
      let (u, eu, hu, ut, uw) = try_draw_next w s t bound e ls.0 h in
      let (v, ev, hv, vu, all) = draw_loop-best draws (try_draw evaluate w s) u bound eu ls.1 hu in
      (
        v,
        ev,
        hv,
        ordered.le_trans v.r150 u.r150 t.r150 vu ut,
        (ordered.le_trans v.r150 u.r150 (evaluate w) vu uw, all),
      )

  draw_loop-results :
      (draws : List (List W)) (s : Found W)
      → (draw_loop evaluate draws s).results ≡ s.results ++ map (trial_of evaluate) draws
  unfolding draw_loop try_draw
  draw_loop-results [] s = sym (append-nil s.results)
  draw_loop-results (w ∷ draws) s =
      draw_loop-results draws (try_draw evaluate w s)
      ∙ append_assoc s.results (trial_of evaluate w ∷ []) (map (trial_of evaluate) draws)

  searched :
      (ds : List W) (rounds : ℕ) (draws : List (List W)) (u : Trial W)
      → (draw_loop evaluate draws no_trials).best ≡ some u
      → search_weights evaluate ds rounds count draws
        ≡ some
            (greedy_rounds evaluate ds rounds count u, (draw_loop evaluate draws no_trials).results)
  unfolding search_weights
  searched ds rounds draws u e = rw (search_weights, e)

  -- With at least one draw, and a weight for each member in every draw, the search returns the draws
  -- with their regrets, in order, and the weights that it settled on: one for each member, with the
  -- regret that they have, which is at most the regret of every draw, whatever the changes tried
  -- and however many passes over the members are allowed.
  pub search_weights_least :
      (ds : List W) (rounds : ℕ) (w : List W) (draws : List (List W))
      → All (λ w. length w ≡ count) (w ∷ draws)
      → (t : Trial W) × (search_weights evaluate ds rounds count (w ∷ draws)
          ≡ some (t, map (trial_of evaluate) (w ∷ draws)))
        × (t.r150 ≡ evaluate t.w)
        × (length t.w ≡ count)
        × All (λ v. t.r150 ≼ evaluate v) (w ∷ draws)
  unfolding draw_loop try_draw lower no_trials
  search_weights_least ds rounds w draws ls =
      let first : Found W = try_draw evaluate w no_trials in
      let (u, eu, hu, uw, all) =
        draw_loop-best draws first (trial_of evaluate w) (evaluate w) refl ls.1
          (refl, ls.0, ordered.le_refl (evaluate w)) in
      let (e, l, le) =
        greedy_rounds-Sound ds rounds count u u.r150 (hu.0, hu.1, ordered.le_refl u.r150) in
      (
        greedy_rounds evaluate ds rounds count u,
        searched ds rounds (w ∷ draws) u eu
            ∙ ap (λ rs. some (greedy_rounds evaluate ds rounds count u, rs))
                (draw_loop-results (w ∷ draws) no_trials),
        e,
        l,
        (
          ordered.le_trans _ u.r150 _ le uw,
          All-imp (λ v. u.r150 ≼ evaluate v)
              (λ v. (greedy_rounds evaluate ds rounds count u).r150 ≼ evaluate v)
              (λ v hv. ordered.le_trans _ u.r150 _ le hv) draws all,
        ),
      )
