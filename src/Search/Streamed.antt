-- ===== src/Search/Streamed.antt =====
-- A theorem on the regrets of rtb-bid-model/src/experiments/ens_search2.py and ens_search3.py.
use ads_bidding_optimizer.Prelude.{
  zip_with, ◌⊎◌, inl, inr, Bool-cases, if◌then◌else◌, ℕ, suc, ◌+◌, ◌<◌, ◌≡◌, refl, sym, ap, ap₂,
  ◌∙◌, true, List, [], ◌∷◌, map, length, replicate, get_or, All, length-zip_with, length-map,
  length-replicate, arith,
}
use ads_bidding_optimizer.Float.{Float, ◌<?◌, ◌⊕◌, ◌⊗◌, nought}
use ads_bidding_optimizer.Arrays.{Arrays, arange}
use ads_bidding_optimizer.Optimizer.{regret, masked_profits}
use ads_bidding_optimizer.Evaluate.Chunked.{chunked-map}
use ads_bidding_optimizer.Search.{
  grid_profits, zero_from, add_weighted, weighted, clipped_normalise, fixed_bid, logged_bid, mean,
  fixed_regrets, logged_regrets,
}
use ads_bidding_optimizer.Search.Weights.{MemberRow}
use ads_bidding_optimizer.Search.Streaming.{
  streamed_average, streamed_bid, streamed_logged_bid, row_regrets, regret_v150_streaming,
  regret_vbid_streaming,
}
use ads_bidding_optimizer.Search.Subset.{add_positive, avg_probs, regret_v150, regret_vbid}

module _ {ℓ} {W : Type ℓ} ⦃f : Float W⦄ where
  -- to add a row times 0 changes nothing
  add_nothing :
      ((x y : W) → x ⊕ nought ⊗ y ≡ x)
      → (avg p : List W) → length avg ≡ length p
      → zip_with (λ x y. x ⊕ nought ⊗ y) avg p ≡ avg
  add_nothing same [] p e = refl
  add_nothing same (x ∷ avg) [] e = absurd (omega arith)
  add_nothing same (x ∷ avg) (y ∷ p) e =
      ap₂ (λ z t. z ∷ t) (same x y) (add_nothing same avg p (omega arith))

  abbrev pub IsPositiveOrZero : W → Type ℓ
  IsPositiveOrZero x = ((nought <? x) ≡ true) ⊎ (x ≡ nought)

  -- a member's row, added or left out
  add_member :
      ((x y : W) → x ⊕ nought ⊗ y ≡ x)
      → (w : W) (avg p : List W) → length avg ≡ length p
      → IsPositiveOrZero w
      → (if nought <? w then zip_with (λ x y. x ⊕ w ⊗ y) avg p else avg)
        ≡ zip_with (λ x y. x ⊕ w ⊗ y) avg p
  add_member same w avg p e (inl positive) = rw positive refl
  add_member same w avg p e (inr none) = elim (Bool-cases (nought <? w)) [
    | inl above ↦ rw above refl
    | inr below ↦
        rw below (sym (ap (λ v. zip_with (λ x y. x ⊕ v ⊗ y) avg p) none ∙ add_nothing same avg p e))
  ]

  -- the two loops, from the member `i` on, where no weight is negative
  add_positive-eq-add_weighted :
      (same : (x y : W) → x ⊕ nought ⊗ y ≡ x) (n : ℕ) (w ws : List W) (i : ℕ) (ps : List (List W))
      (avg : List W)
      → ((k : ℕ) → get_or w (i + k) nought ≡ get_or ws k nought)
      → All IsPositiveOrZero ws
      → length ps ≡ length ws
      → length avg ≡ n
      → All (λ p. length p ≡ n) ps
      → add_positive ws ps avg ≡ add_weighted w i ps avg
  unfolding add_positive add_weighted
  add_positive-eq-add_weighted same n w [] i [] avg h hs e l ls = refl
  add_positive-eq-add_weighted same n w [] i (p ∷ ps) avg h hs e l ls = absurd (omega arith)
  add_positive-eq-add_weighted same n w (x ∷ ws) i [] avg h hs e l ls = absurd (omega arith)
  add_positive-eq-add_weighted same n w (x ∷ ws) i (p ∷ ps) avg h hs e l ls =
      let here : get_or w i nought ≡ x = ap (λ k. get_or w k nought) (omega arith) ∙ h 0 in
      let widths = l ∙ sym ls.0 in
      rw (add_member same x avg p widths hs.0, here)
        (add_positive-eq-add_weighted same n w ws (suc i) ps _
          (λ k. ap (λ j. get_or w j nought) (omega arith) ∙ h (suc k)) hs.1 (omega arith)
          (length-zip_with _ avg p widths ∙ l) ls.1)

  length-add_weighted :
      (n : ℕ) (w : List W) (i : ℕ) (ps : List (List W)) (avg : List W)
      → length avg ≡ n
      → All (λ p. length p ≡ n) ps
      → length (add_weighted w i ps avg) ≡ n
  unfolding add_weighted
  length-add_weighted n w i [] avg h hs = h
  length-add_weighted n w i (p ∷ ps) avg h hs =
      length-add_weighted n w (suc i) ps _ (length-zip_with _ avg p (h ∙ sym hs.0) ∙ h) hs.1

  -- a row with as many members as there are weights, each with its bins
  abbrev pub IsWhole : ℕ → List W → MemberRow W → Type 0
  IsWhole num_bins weights r =
      (length r.member_probs ≡ length weights) × All (λ p. length p ≡ num_bins) r.member_probs

module _ {ℓ} {W : Type ℓ} ⦃f : Float W⦄ ⦃a : Arrays W⦄ (num_bins : ℕ) (weights : List W)
    (same : (x y : W) → x ⊕ nought ⊗ y ≡ x) (signs : All IsPositiveOrZero weights) where
  avg_probs-eq-streamed :
      (r : MemberRow W)
      → IsWhole num_bins weights r
      → ((avg_probs num_bins weights r).probs ≡ streamed_average num_bins weights r)
        × (length (streamed_average num_bins weights r) ≡ num_bins)
  unfolding avg_probs streamed_average weighted clipped_normalise
  avg_probs-eq-streamed r h = (
    ap clipped_normalise (
        add_positive-eq-add_weighted same num_bins weights weights 0 r.member_probs
          (replicate num_bins nought) (λ k. ap (λ j. get_or weights j nought) (omega arith)) signs
          h.0 (length-replicate num_bins nought) h.1),
    length-map (weighted num_bins weights r.member_probs) _
        ∙ length-add_weighted num_bins weights 0 r.member_probs (replicate num_bins nought)
            (length-replicate num_bins nought) h.1,
  )

  -- the same grid, whether it has a place for each bin or for each probability
  bids_agree :
      (ceil : W → ℕ) (V : W) (r : MemberRow W)
      → IsWhole num_bins weights r
      → (streamed_bid ceil V num_bins weights r
          ≡ fixed_bid ceil V (avg_probs num_bins weights r).probs)
        × (streamed_logged_bid num_bins weights r
            ≡ logged_bid r.bid (avg_probs num_bins weights r).probs)
  unfolding streamed_bid streamed_logged_bid fixed_bid logged_bid
  bids_agree ceil V r h =
      let (eq, len) = avg_probs-eq-streamed r h in
      (
        ap₂
            (λ n avg.
              get_or (arange n)
                (a.argmax (zero_from (ceil V) (grid_profits V (arange n) (a.cumsum avg)))) nought)
            (sym len ∙ ap length (sym eq)) (sym eq),
        ap₂
            (λ n avg.
              get_or (arange n) (a.argmax (masked_profits r.bid (arange n) (a.cumsum avg))) nought)
            (sym len ∙ ap length (sym eq)) (sym eq),
      )

  fixed_rows_agree :
      (ceil : W → ℕ) (V : W) (rows : List (MemberRow W))
      → All (IsWhole num_bins weights) rows
      → row_regrets (λ r. V) rows (map (streamed_bid ceil V num_bins weights) rows)
        ≡ fixed_regrets V
            (map (avg_probs num_bins weights) rows)
            (map (λ r. fixed_bid ceil V r.probs) (map (avg_probs num_bins weights) rows))
  unfolding row_regrets fixed_regrets avg_probs
  fixed_rows_agree ceil V [] hs = refl
  fixed_rows_agree ceil V (r ∷ rows) hs =
      ap₂ (λ b rest. regret b r.pp V ∷ rest) (bids_agree ceil V r hs.0).0
        (fixed_rows_agree ceil V rows hs.1)

  logged_rows_agree :
      (ceil : W → ℕ) (V : W) (rows : List (MemberRow W))
      → All (IsWhole num_bins weights) rows
      → row_regrets (λ r. r.bid) rows (map (streamed_logged_bid num_bins weights) rows)
        ≡ logged_regrets
            (map (avg_probs num_bins weights) rows)
            (map (λ r. logged_bid r.bid r.probs) (map (avg_probs num_bins weights) rows))
  unfolding row_regrets logged_regrets avg_probs
  logged_rows_agree ceil V [] hs = refl
  logged_rows_agree ceil V (r ∷ rows) hs =
      ap₂ (λ b rest. regret b r.pp r.bid ∷ rest) (bids_agree ceil V r hs.0).1
        (logged_rows_agree ceil V rows hs.1)

  -- With a chunk of at least 1, weights that are positive or 0, one for each member of a row, rows
  -- that have all their bins, and products by 0 that add nothing, the two regrets that are streamed
  -- from the disk, on averages of all members, are those that are computed in memory on averages
  -- that leave out the members with weight 0.
  pub streaming-eq-in_memory :
      (ceil : W → ℕ) (V : W) (chunk : ℕ) (rows : List (MemberRow W))
      → 0 < chunk
      → All (IsWhole num_bins weights) rows
      → (regret_v150_streaming ceil V num_bins chunk rows weights
          ≡ regret_v150 ceil V (map (avg_probs num_bins weights) rows))
        × (regret_vbid_streaming num_bins chunk rows weights
            ≡ regret_vbid (map (avg_probs num_bins weights) rows))
  unfolding regret_v150_streaming regret_vbid_streaming regret_v150 regret_vbid
  streaming-eq-in_memory ceil V chunk rows h hs = (
    ap mean (
        ap (row_regrets (λ r. V) rows) (
          chunked-map (streamed_bid ceil V num_bins weights) chunk h rows (length rows) 0
            (omega arith))
        ∙ fixed_rows_agree ceil V rows hs),
    ap mean (
        ap (row_regrets (λ r. r.bid) rows) (
          chunked-map (streamed_logged_bid num_bins weights) chunk h rows (length rows) 0
            (omega arith))
        ∙ logged_rows_agree ceil V rows hs),
  )
