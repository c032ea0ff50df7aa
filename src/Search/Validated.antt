-- ===== src/Search/Validated.antt =====
-- A theorem on the validation of rtb-bid-model/src/experiments/ens_search3.py.
use ads_bidding_optimizer.Prelude.{
  ℕ, suc, ◌+◌, ◌<◌, ◌≡◌, refl, ap, ◌∙◌, inl, inr, false, some, List, [], ◌∷◌, map, All, All-imp,
  Bool-cases, min, length, take, length-take, length-append, arith,
}
use ads_bidding_optimizer.Float.{Float, ◌≤?◌, ◌≼◌, IsOrdered, IsRounded}
use ads_bidding_optimizer.Arrays.{Arrays}
use ads_bidding_optimizer.Search.Weights.{Trial, MemberRow, search_weights}
use ads_bidding_optimizer.Search.Best.{search_weights_least, trial_of}
use ads_bidding_optimizer.Search.Subset.{
  alone_regrets, Checked, Final, pick, insert_by, sort_by, wide_deltas, subset_regret, validate,
  candidates, final, ens_search3,
}

module _ {ℓ κ ν} {A : Type ℓ} {W : Type κ} ⦃f : Float W⦄ (key : A → W) where
  All-insert_by :
      (P : A → Type ν) (x : A) (xs : List A) → P x → All P xs → All P (insert_by key x xs)
  unfolding insert_by
  All-insert_by P x [] h hs = (h, tt)
  All-insert_by P x (y ∷ ys) h hs = elim (Bool-cases (key x ≤? key y)) [
    | inl le ↦ rw le (h, hs)
    | inr gt ↦ rw gt (hs.0, All-insert_by P x ys h hs.1)
  ]

  All-sort_by : (P : A → Type ν) (xs : List A) → All P xs → All P (sort_by key xs)
  unfolding sort_by
  All-sort_by P [] hs = tt
  All-sort_by P (x ∷ xs) hs = All-insert_by P x (sort_by key xs) hs.0 (All-sort_by P xs hs.1)

  -- what holds of a sorted list holds of the list
  All-insert_by_back :
      (P : A → Type ν) (x : A) (xs : List A) → All P (insert_by key x xs) → P x × All P xs
  unfolding insert_by
  All-insert_by_back P x [] hs = (hs.0, tt)
  All-insert_by_back P x (y ∷ ys) hs = elim (Bool-cases (key x ≤? key y)) [
    | inl le ↦ (rw le at hs)
    | inr gt ↦
        let parts = (rw gt at hs) in
        let rest = All-insert_by_back P x ys parts.1 in (rest.0, (parts.0, rest.1))
  ]

  All-sort_by_back : (P : A → Type ν) (xs : List A) → All P (sort_by key xs) → All P xs
  unfolding sort_by
  All-sort_by_back P [] hs = tt
  All-sort_by_back P (x ∷ xs) hs =
      let parts = All-insert_by_back P x (sort_by key xs) hs in
      (parts.0, All-sort_by_back P xs parts.1)

module _ {ℓ κ} {A : Type ℓ} {W : Type κ} ⦃f : Float W⦄ (key : A → W) where
  length-insert_by : (x : A) (xs : List A) → length (insert_by key x xs) ≡ suc (length xs)
  unfolding insert_by
  length-insert_by x [] = refl
  length-insert_by x (y ∷ ys) = elim (Bool-cases (key x ≤? key y)) [
    | inl le ↦ rw le refl
    | inr gt ↦ rw gt (ap suc (length-insert_by x ys))
  ]

  length-sort_by : (xs : List A) → length (sort_by key xs) ≡ length xs
  unfolding sort_by
  length-sort_by [] = refl
  length-sort_by (x ∷ xs) = length-insert_by x (sort_by key xs) ∙ ap suc (length-sort_by xs)

  -- The first entry has the least key.
  abbrev Headed : List A → Type 0
  Headed [] = Unit
  Headed (x ∷ xs) = All (λ y. key x ≼ key y) (x ∷ xs)

  module _ (ordered : IsOrdered W) where
    insert_by-Headed : (x : A) (xs : List A) → Headed xs → Headed (insert_by key x xs)
    unfolding insert_by
    insert_by-Headed x [] h = (ordered.le_refl (key x), tt)
    insert_by-Headed x (y ∷ ys) h = elim (Bool-cases (key x ≤? key y)) [
      | inl le ↦ rw le (
        ordered.le_refl (key x),
        All-imp (λ z. key y ≼ key z) (λ z. key x ≼ key z)
            (λ z. ordered.le_trans (key x) (key y) (key z) le) (y ∷ ys) h,
      )
      | inr gt ↦
          rw gt (
            ordered.le_refl (key y),
            All-insert_by key (λ z. key y ≼ key z) x ys (later x y gt) h.1,
          )
    ]
      where
        later : (x y : A) → (key x ≤? key y) ≡ false → key y ≼ key x
        later x y gt = elim (ordered.le_total (key x) (key y)) [
          | inl le ↦ absurd (cc)
          | inr ge ↦ ge
        ]

    sort_by-Headed : (xs : List A) → Headed (sort_by key xs)
    unfolding sort_by
    sort_by-Headed [] = tt
    sort_by-Headed (x ∷ xs) = insert_by-Headed x (sort_by key xs) (sort_by-Headed xs)

module _ {ℓ} {W : Type ℓ} ⦃f : Float W⦄ ⦃a : Arrays W⦄ (ceil : W → ℕ) (num_bins : ℕ)
    (rows : List (MemberRow W)) where
  validate-regrets :
      (cs : List (Trial W))
      → All
          (λ c. c.r150_full ≡ subset_regret ceil num_bins rows c.w)
          (validate ceil num_bins rows cs)
  unfolding validate
  validate-regrets [] = tt
  validate-regrets (c ∷ cs) = (refl, validate-regrets cs)

  validate-back :
      (x : W) (cs : List (Trial W))
      → All (λ c. x ≼ c.r150_full) (validate ceil num_bins rows cs)
      → All (λ c. x ≼ subset_regret ceil num_bins rows c.w) cs
  unfolding validate
  validate-back x [] hs = tt
  validate-back x (c ∷ cs) hs = (hs.0, validate-back x cs hs.1)

  length-validate : (cs : List (Trial W)) → length (validate ceil num_bins rows cs) ≡ length cs
  unfolding validate
  length-validate [] = refl
  length-validate (c ∷ cs) = ap suc (length-validate cs)

  final_least :
      (alone : List W) (results : List (Trial W)) (xs : List (Checked W))
      → 0 < length xs
      → Headed (λ c. c.r150_full) xs
      → All (λ c. c.r150_full ≡ subset_regret ceil num_bins rows c.w) xs
      → (out : Final W) × (final alone results xs ≡ some out)
        × (out.top_full ≡ xs)
        × (out.best_full.r150_full ≡ subset_regret ceil num_bins rows out.best_full.w)
        × All (λ c. out.best_full.r150_full ≼ c.r150_full) xs
  unfolding final
  final_least alone results [] h headed regrets = absurd (omega arith)
  final_least alone results (x ∷ xs) h headed regrets = (
    record { best_full = x; top_full = x ∷ xs; subset_results = results; member_results = alone },
    refl,
    refl,
    regrets.0,
    headed,
  )

  length-candidates :
      (top_k_full : ℕ) (results : List (Trial W)) (best : Trial W)
      → length (candidates top_k_full results best) ≡ min top_k_full (length results) + 1
  unfolding candidates
  length-candidates top_k_full results best =
      length-append (take top_k_full (sort_by (λ t. t.r150) results)) _
      ∙ omega (
        arith,
        length-take top_k_full (sort_by (λ t. t.r150) results),
        length-sort_by (λ (t : Trial W). t.r150) results,
      )

  validated :
      (count top_k_full : ℕ) (idx : List ℕ) (sub_rows : List (MemberRow W)) (draws : List (List W))
      (best : Trial W) (results : List (Trial W)) (out : Final W)
      → pick idx rows ≡ some sub_rows
      → search_weights (subset_regret ceil num_bins sub_rows) wide_deltas 4 count draws
        ≡ some (best, results)
      → final (alone_regrets ceil count 0 sub_rows) (sort_by (λ t. t.r150) results) (
          sort_by
            (λ c. c.r150_full)
            (validate ceil num_bins rows (candidates top_k_full results best)))
        ≡ some out
      → ens_search3 ceil num_bins count top_k_full idx rows draws ≡ some out
  unfolding ens_search3
  validated count top_k_full idx sub_rows draws best results out e run done =
      rw (ens_search3, e, run) done

  -- With at least one draw, a weight for each member in every draw, and a subset of rows that
  -- exist, the search on the subset ends with a choice among its candidates, which are the best
  -- `top_k_full` draws and the refined weights: the choice has the regret on all rows that its
  -- weights have, and no candidate has a smaller one.
  ens_search3_least :
      (ordered : IsOrdered W) (rounded : IsRounded W) (count top_k_full : ℕ) (idx : List ℕ)
      (sub_rows : List (MemberRow W)) (w : List W) (draws : List (List W))
      → All (λ v. length v ≡ count) (w ∷ draws)
      → pick idx rows ≡ some sub_rows
      → (out : Final W) × (best : Trial W) × (results : List (Trial W)) × (search_weights
            (subset_regret ceil num_bins sub_rows)
            wide_deltas
            4
            count
            (w ∷ draws)
          ≡ some (best, results))
        × (ens_search3 ceil num_bins count top_k_full idx rows (w ∷ draws) ≡ some out)
        × (out.best_full.r150_full ≡ subset_regret ceil num_bins rows out.best_full.w)
        × All
            (λ c. out.best_full.r150_full ≼ subset_regret ceil num_bins rows c.w)
            (candidates top_k_full results best)
        × (length out.top_full ≡ min top_k_full (length results) + 1)
  ens_search3_least ordered rounded count top_k_full idx sub_rows w draws ls e =
      let (best, run, _, _, _) =
        search_weights_least ordered rounded (subset_regret ceil num_bins sub_rows) count
          wide_deltas 4 w draws ls in
      let results = map (trial_of (subset_regret ceil num_bins sub_rows)) (w ∷ draws) in
      let cs = candidates top_k_full results best in
      let checked = sort_by (λ c. c.r150_full) (validate ceil num_bins rows cs) in
      let size : length checked ≡ min top_k_full (length results) + 1 =
        length-sort_by (λ (c : Checked W). c.r150_full) (validate ceil num_bins rows cs)
        ∙ length-validate cs
        ∙ length-candidates top_k_full results best in
      let (out, done, top, regret_of, least) =
        final_least (alone_regrets ceil count 0 sub_rows) (sort_by (λ t. t.r150) results) checked
          (omega arith) (sort_by-Headed (λ c. c.r150_full) ordered (validate ceil num_bins rows cs))
          (All-sort_by (λ c. c.r150_full) _ (validate ceil num_bins rows cs)
            (validate-regrets cs)) in
      (
        out,
        best,
        results,
        run,
        validated count top_k_full idx sub_rows (w ∷ draws) best results out e run done,
        regret_of,
        validate-back out.best_full.r150_full cs
            (All-sort_by_back (λ c. c.r150_full) _ (validate ceil num_bins rows cs) least),
        ap length top ∙ size,
      )
