-- ===== src/Search/Agree.antt =====
-- A theorem on the two regrets of rtb-bid-model/src/experiments/ens_search.py and the grid search of
-- rtb-bid-model/src/bid_optimizer.py.
use ads_bidding_optimizer.Prelude.{
  ℕ, zero, suc, ◌≤◌, ◌<◌, ◌≡◌, ◌↔◌, refl, sym, ap, ap₂, ◌∙◌, Bool-cases, inl, inr, List, [], ◌∷◌,
  map, length, replicate, get_or, All, length-zip_with, length-replicate, ltb, if◌then◌else◌, arith,
}
use native.Mathlib.Decide.{dec_lt}
use ads_bidding_optimizer.Float.{Float, ◌⊖◌, ◌⊗◌, ◌<?◌, ◌≼◌, nought, IsOrdered, IsRounded}
use ads_bidding_optimizer.Arrays.{
  Arrays, range_from, arange, length-range_from, get_or-range_from, get_or-All, IsDocumented,
}
use ads_bidding_optimizer.Optimizer.{regret, grid_optimize_bins, backtest_bid}
use ads_bidding_optimizer.Optimizer.Grid.{
  le_of_not_lt, le_of_lt, not_lt_of_le, expected_profit, bins_profits, get_or-bins_profits,
  length-bins_profits,
}
use ads_bidding_optimizer.Optimizer.Affordable.{grid_searches_agree, best_idx_bound}
use ads_bidding_optimizer.Evaluate.Chunked.{chunked-map}
use ads_bidding_optimizer.Search.{
  Priced, grid_profits, zero_from, fixed_bid, logged_bid, mean, fixed_regrets, logged_regrets,
  regret_v150_grid, regret_vbid_grid,
}

module _ {ℓ} {W : Type ℓ} ⦃f : Float W⦄ where
  length-zero_from : (k : ℕ) (xs : List W) → length (zero_from k xs) ≡ length xs
  unfolding zero_from
  length-zero_from zero xs = length-replicate (length xs) nought
  length-zero_from (suc k) [] = refl
  length-zero_from (suc k) (x ∷ xs) = ap suc (length-zero_from k xs)

  get_or-replicate : (n k : ℕ) (x : W) → get_or (replicate n x) k x ≡ x
  get_or-replicate zero k x = refl
  get_or-replicate (suc n) zero x = refl
  get_or-replicate (suc n) (suc k) x = get_or-replicate n k x

  get_or-zero_from :
      (c : ℕ) (xs : List W) (k : ℕ)
      → get_or (zero_from c xs) k nought ≡ (if ltb k c then get_or xs k nought else nought)
  unfolding zero_from
  get_or-zero_from zero xs k = get_or-replicate (length xs) k nought ∙ ground arith
  get_or-zero_from (suc c) [] k = ground arith
  get_or-zero_from (suc c) (x ∷ xs) zero = ground arith
  get_or-zero_from (suc c) (x ∷ xs) (suc k) = get_or-zero_from c xs k ∙ ground arith

  get_or-grid_profits :
      (V : W) (bs cs : List W) (k : ℕ)
      → length bs ≡ length cs
      → k < length bs
      → get_or (grid_profits V bs cs) k nought ≡ (V ⊖ get_or bs k nought) ⊗ get_or cs k nought
  unfolding grid_profits
  get_or-grid_profits V [] cs k e h = absurd (omega arith)
  get_or-grid_profits V (b ∷ bs) [] k e h = absurd (omega arith)
  get_or-grid_profits V (b ∷ bs) (c ∷ cs) zero e h = refl
  get_or-grid_profits V (b ∷ bs) (c ∷ cs) (suc k) e h =
      get_or-grid_profits V bs cs k (omega arith) (omega arith)

-- What `int(np.ceil(V))` is: the whole numbers from it on are those that are at least `V`.
abbrev pub IsCeil {ℓ} : {W : Type ℓ} ⦃f : Float W⦄ → (W → ℕ) → W → Type 0
IsCeil ⦃f⦄ ceil V = (n : ℕ) → (V ≼ f.of_ℕ n) ↔ (ceil V ≤ n)

module _ {ℓ} {W : Type ℓ} ⦃f : Float W⦄ ⦃a : Arrays W⦄ (ordered : IsOrdered W)
    (documented : IsDocumented W) where
  -- of two rows that agree up to the order, the first greatest entry is at the same place
  argmax_not_below :
      (xs ys : List W)
      → length xs ≡ length ys
      → a.argmax ys < length ys
      → ((k : ℕ) → k < length xs → get_or xs k nought ≼ get_or ys k nought)
      → ((k : ℕ) → k < length xs → get_or ys k nought ≼ get_or xs k nought)
      → a.argmax ys ≤ a.argmax xs
  argmax_not_below xs ys e inside below above = elim (dec_lt (a.argmax xs) (a.argmax ys)) [
    | no le ↦ omega arith
    | yes lt ↦ absurd (
        let first = documented.argmax_first ys (a.argmax xs) lt in
        let le = ordered.le_trans _ _ _ (above (a.argmax ys) (omega arith)) (
          ordered.le_trans _ _ _ (documented.argmax_max xs (a.argmax ys) (omega arith))
            (below (a.argmax xs) (omega arith))) in
        let not_first = not_lt_of_le ordered _ _ le in cc)
  ]

  argmax_agree :
      (xs ys : List W)
      → length xs ≡ length ys
      → a.argmax xs < length xs
      → a.argmax ys < length ys
      → ((k : ℕ) → k < length xs → get_or xs k nought ≼ get_or ys k nought)
      → ((k : ℕ) → k < length xs → get_or ys k nought ≼ get_or xs k nought)
      → a.argmax xs ≡ a.argmax ys
  argmax_agree xs ys e hx hy below above = omega (
    arith,
    argmax_not_below xs ys e hy below above,
    argmax_not_below ys xs (sym e) hx (λ k h. above k (omega arith)) (λ k h. below k (omega arith)),
  )

  abbrev fixed_profits : (W → ℕ) → W → List W → List W
  fixed_profits ceil V probs =
      zero_from (ceil V) (grid_profits V (arange (length probs)) (a.cumsum probs))

  length-fixed_profits :
      (ceil : W → ℕ) (V : W) (probs : List W) → length (fixed_profits ceil V probs) ≡ length probs
  unfolding arange grid_profits
  length-fixed_profits ceil V probs =
      let len : length (range_from {W = W} 0 (length probs)) ≡ length probs =
        length-range_from W 0 (length probs) in
      length-zero_from (ceil V) _
      ∙ length-zip_with _ (range_from 0 (length probs)) (a.cumsum probs)
          (len ∙ sym (documented.length-cumsum probs))
      ∙ len

  get_or-fixed_profits :
      (ceil : W → ℕ) (V : W) (probs : List W) (k : ℕ)
      → k < length probs
      → get_or (fixed_profits ceil V probs) k nought
        ≡ (if ltb k (ceil V) then (V ⊖ f.of_ℕ k) ⊗ get_or (a.cumsum probs) k nought else nought)
  unfolding arange
  get_or-fixed_profits ceil V probs k h =
      let len : length (range_from {W = W} 0 (length probs)) ≡ length probs =
        length-range_from W 0 (length probs) in
      let bin : get_or (range_from 0 (length probs)) k nought ≡ f.of_ℕ k =
        get_or-range_from 0 (length probs) k nought h ∙ ap f.of_ℕ (omega arith) in
      get_or-zero_from (ceil V) _ k
      ∙ ap (λ x. if ltb k (ceil V) then x else nought)
          (get_or-grid_profits V (range_from 0 (length probs)) (a.cumsum probs) k
              (len ∙ sym (documented.length-cumsum probs)) (rw len h)
            ∙ ap (λ b. (V ⊖ b) ⊗ get_or (a.cumsum probs) k nought) bin)

  argmax_bound : (xs : List W) → 0 < length xs → a.argmax xs < length xs
  argmax_bound [] h = absurd (omega arith)
  argmax_bound (x ∷ xs) h = documented.argmax_bound x xs

  module _ (rounded : IsRounded W) where
    -- the two masks leave out the same bins, but for a bin at the value, where nothing is gained
    masks_agree :
        (ceil : W → ℕ) (V c : W) (k : ℕ)
        → IsCeil ceil V
        → nought ≼ c
        → ((if ltb k (ceil V) then (V ⊖ f.of_ℕ k) ⊗ c else nought) ≼ expected_profit V (f.of_ℕ k) c)
          × (expected_profit V (f.of_ℕ k) c
              ≼ (if ltb k (ceil V) then (V ⊖ f.of_ℕ k) ⊗ c else nought))
    masks_agree ceil V c k h hc = elim (Bool-cases (ltb k (ceil V))) [
      | inl within ↦ elim (Bool-cases (V <? f.of_ℕ k)) [
        | inl above ↦ absurd (let le = (h k).0 (le_of_lt ordered _ _ above) in ground arith)
        | inr fits ↦ rw (within, fits) (ordered.le_refl _, ordered.le_refl _)
      ]
      | inr past ↦ elim (Bool-cases (V <? f.of_ℕ k)) [
        | inl above ↦ rw (past, above) (ordered.le_refl _, ordered.le_refl _)
        | inr fits ↦
            let le = (h k).1 (ground arith) in
            let ge = le_of_not_lt ordered _ _ fits in
            rw (past, fits)
              (
                rounded.mul_nonneg _ c (rounded.sub_nonneg V (f.of_ℕ k) ge) hc,
                rounded.mul_nonpos _ c (rounded.sub_nonpos V (f.of_ℕ k) le) hc,
              )
      ]
    ]

    profit_agrees :
        (ceil : W → ℕ) (V : W) (probs : List W) (k : ℕ)
        → IsCeil ceil V
        → All (λ p. nought ≼ p) probs
        → k < length probs
        → (get_or (fixed_profits ceil V probs) k nought
            ≼ get_or (bins_profits ordered documented probs V) k nought)
          × (get_or (bins_profits ordered documented probs V) k nought
              ≼ get_or (fixed_profits ceil V probs) k nought)
    profit_agrees ceil V probs k h hp hk =
        rw
          (
            get_or-fixed_profits ceil V probs k hk,
            get_or-bins_profits ordered documented probs V k hk,
          )
          (masks_agree ceil V (get_or (a.cumsum probs) k nought) k h (
            get_or-All (λ p. nought ≼ p) (a.cumsum probs) k nought (ordered.le_refl nought)
              (documented.cumsum_nonneg probs hp)))

    fixed_bid-eq-backtest_bid :
        (ceil : W → ℕ) (V : W) (probs : List W)
        → IsCeil ceil V
        → All (λ p. nought ≼ p) probs
        → 0 < length probs
        → fixed_bid ceil V probs ≡ backtest_bid probs V
    unfolding fixed_bid backtest_bid arange
    fixed_bid-eq-backtest_bid ceil V probs h hp nonempty =
        let len = length-fixed_profits ceil V probs in
        let inside = argmax_bound (fixed_profits ceil V probs) (omega arith) in
        let bound : a.argmax (fixed_profits ceil V probs) < length probs = omega arith in
        let profits_agree = λ (k : ℕ) (hk : k < length (fixed_profits ceil V probs)).
          profit_agrees ceil V probs k h hp (omega arith) in
        get_or-range_from 0 (length probs) _ nought bound
        ∙ ap f.of_ℕ (ground arith)
        ∙ ap f.of_ℕ (
            argmax_agree (fixed_profits ceil V probs) (bins_profits ordered documented probs V)
              (length-fixed_profits ceil V probs
                ∙ sym (length-bins_profits ordered documented probs V))
              inside
              (rw (length-bins_profits ordered documented probs V)
                (best_idx_bound ordered rounded documented probs V nonempty))
              (λ k hk. (profits_agree k hk).0) (λ k hk. (profits_agree k hk).1))

    logged_bid-eq-backtest_bid :
        (V : W) (probs : List W)
        → All (λ p. nought ≼ p) probs
        → 0 < length probs
        → logged_bid V probs ≡ backtest_bid probs V
    unfolding logged_bid backtest_bid arange
    logged_bid-eq-backtest_bid V probs hp nonempty =
        get_or-range_from 0 (length probs) _ nought
          (best_idx_bound ordered rounded documented probs V nonempty)
        ∙ ap f.of_ℕ (omega arith)

    -- a row that can be searched: at least one bin, and no negative probability
    abbrev pub IsSearchable : Priced W → Type 0
    IsSearchable r = (0 < length r.probs) × All (λ p. nought ≼ p) r.probs

    fixed_regrets-by_row :
        (ceil : W → ℕ) (V : W) (rows : List (Priced W))
        → IsCeil ceil V
        → All IsSearchable rows
        → fixed_regrets V rows (map (λ r. fixed_bid ceil V r.probs) rows)
          ≡ map (λ r. regret (grid_optimize_bins r.probs V).best_bid r.pp V) rows
    unfolding fixed_regrets
    fixed_regrets-by_row ceil V [] h hs = refl
    fixed_regrets-by_row ceil V (r ∷ rows) h hs =
        ap₂ (λ b rest. regret b r.pp V ∷ rest)
          (fixed_bid-eq-backtest_bid ceil V r.probs h hs.0.1 hs.0.0
            ∙ sym (grid_searches_agree ordered rounded documented r.probs V hs.0.1 hs.0.0).0)
          (fixed_regrets-by_row ceil V rows h hs.1)

    logged_regrets-by_row :
        (rows : List (Priced W))
        → All IsSearchable rows
        → logged_regrets rows (map (λ r. logged_bid r.bid r.probs) rows)
          ≡ map (λ r. regret (grid_optimize_bins r.probs r.bid).best_bid r.pp r.bid) rows
    unfolding logged_regrets
    logged_regrets-by_row [] hs = refl
    logged_regrets-by_row (r ∷ rows) hs =
        ap₂ (λ b rest. regret b r.pp r.bid ∷ rest)
          (logged_bid-eq-backtest_bid r.bid r.probs hs.0.1 hs.0.0
            ∙ sym (grid_searches_agree ordered rounded documented r.probs r.bid hs.0.1 hs.0.0).0)
          (logged_regrets-by_row rows hs.1)

    -- On rows of at least one bin with no negative probability, the two regrets of the weight
    -- search are the mean regrets of the bids that `grid_optimize_bins` chooses: for the logged
    -- bids as values, and, with a chunk of at least 1, for a fixed value, although that search
    -- leaves out a bin that is equal to the value and `grid_optimize_bins` does not.
    pub regret_grids-by_row :
        (ceil : W → ℕ) (V : W) (chunk : ℕ) (rows : List (Priced W))
        → IsCeil ceil V
        → 0 < chunk
        → All IsSearchable rows
        → (regret_v150_grid ceil V chunk rows
            ≡ mean (map (λ r. regret (grid_optimize_bins r.probs V).best_bid r.pp V) rows))
          × (regret_vbid_grid rows
              ≡ mean
                  (map (λ r. regret (grid_optimize_bins r.probs r.bid).best_bid r.pp r.bid) rows))
    unfolding regret_v150_grid regret_vbid_grid
    regret_grids-by_row ceil V chunk rows h positive hs = (
      ap mean (
          ap (fixed_regrets V rows) (
            chunked-map (λ r. fixed_bid ceil V r.probs) chunk positive rows (length rows) 0
              (omega arith))
          ∙ fixed_regrets-by_row ceil V rows h hs),
      ap mean (logged_regrets-by_row rows hs),
    )
