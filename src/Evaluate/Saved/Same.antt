-- ===== src/Evaluate/Saved/Same.antt =====
-- Theorems on the three evaluations of a model: rtb-bid-model/src/evaluate.py, and eval_preds.py and
-- eval_ckpts_batch.py of its experiments.
use ads_bidding_optimizer.Prelude.{
  suc, ◌+◌, ap₂, zip_with, length-map, Bool-cases, inl, inr, ℕ, ◌≡◌, refl, sym, ap, ◌∙◌, Bool, some,
  List, [], ◌∷◌, map, length, arith,
}
use ads_bidding_optimizer.Prelude.Int.{ℤ}
use ads_bidding_optimizer.Float.{Float, ◌⊖◌, ◌⊗◌, ◌⊘◌, ◌≤?◌}
use ads_bidding_optimizer.Arrays.{Arrays, range_from, arange}
use ads_bidding_optimizer.Dict.{Text, text_beq}
use ads_bidding_optimizer.Evaluate.{
  BinsRow, MdnRow, Value, bins_bid, mdn_bid, bins_regrets, mdn_regrets, regret_metrics_bins_grid,
  regret_metrics_mdn_grid,
}
use ads_bidding_optimizer.Evaluate.Chunked.{chunked-map, regret_metrics-by_row}
use ads_bidding_optimizer.Evaluate.Metrics.{
  Results, select, distinct, per_advertiser, bins_results, mdn_results,
}
use ads_bidding_optimizer.Evaluate.Predictions.{
  newton_bins_bid, newton_mdn_bid, regret_bins_newton, regret_metrics_mdn_newton,
}
use ads_bidding_optimizer.Evaluate.Predictions.Rows.{newton_regrets-by_row}
use ads_bidding_optimizer.Evaluate.Saved.{
  Loaded, SavedResults, CkptMetrics, saved_anlp, saved_pit, bids_grid, bids_newton, saved_regrets,
  eval_preds, compute_metrics,
}
use ads_bidding_optimizer.Evaluate.Saved.Inline.{
  count_true, masked, saved_percentiles, saved_terms, saved_pit_mdn, saved_pit_bins, saved_ks,
  saved_share, saved_coverage, per_adv_loop, saved_per_adv,
}
use ads_bidding_optimizer.Evaluate.Calibration.{
  array_max, greater_of, gaps_plus, gaps_minus, count_at_most, coverage, coverage_table, pit_mdn,
  pit_bins, compute_pit_mdn, compute_pit_bins, ks_statistic,
}
use ads_bidding_optimizer.Optimizer.{mixture_terms, mixture_cdf}
use ads_bidding_optimizer.Loss.{batch_mean}

-- What evaluate.py reports of a model, from the predictions.
abbrev pub evaluated {ℓ} :
    {W : Type ℓ} ⦃f : Float W⦄ ⦃a : Arrays W⦄
    → (W → Bool)
    → (W → ℕ)
    → (W → ℤ)
    → List W
    → List Text
    → Loaded W
    → Results W
evaluated is_nan floor long pcts advs (Loaded.bins rows) =
    bins_results is_nan floor long pcts advs rows
evaluated is_nan floor long pcts advs (Loaded.mdn rows) = mdn_results is_nan pcts advs rows

module _ {ℓ κ} {A : Type ℓ} {B : Type κ} where
  map_firsts :
      {C : Type κ} (g : A → C) (rows : List (A × B))
      → map g (map (λ r. r.0) rows) ≡ map (λ r. g r.0) rows
  map_firsts g [] = refl
  map_firsts g (r ∷ rows) = ap (λ t. g r.0 ∷ t) (map_firsts g rows)

-- The numbers that all three report.
abbrev pub shared {ℓ} : {W : Type ℓ} → Results W → CkptMetrics W
shared r = record { anlp = r.anlp; ks = r.ks; r150 = r.regret_v150_grid; rvb = r.regret_vbid_grid }

-- Those that eval_preds.py reports.
abbrev pub without_nll {ℓ} : {W : Type ℓ} → Results W → SavedResults W
without_nll r = record {
  anlp = r.anlp;
  ks = r.ks;
  coverage = r.coverage;
  regret_v150_grid = r.regret_v150_grid;
  regret_v150_newton = r.regret_v150_newton;
  regret_vbid_grid = r.regret_vbid_grid;
  regret_vbid_newton = r.regret_vbid_newton;
  per_adv_regret_v150 = r.per_adv_regret_v150;
}

masked-select {ℓ} :
    {A : Type ℓ} (b : Text) (advs : List Text) (regs : List A)
    → masked (map (λ c. text_beq c b) advs) regs ≡ select b advs regs
unfolding masked select
masked-select b [] regs = refl
masked-select b (c ∷ advs) [] = refl
masked-select b (c ∷ advs) (r ∷ regs) =
    let rest = masked-select b advs regs in
    elim (Bool-cases (text_beq c b)) [
      | inl same ↦ rw same (ap (λ t. r ∷ t) rest)
      | inr other ↦ rw other rest
    ]

module _ {ℓ} {W : Type ℓ} ⦃f : Float W⦄ where
  emp_gaps_plus :
      (n i : ℕ) (s : List W)
      → zip_with (λ x y. x ⊖ y) (map (λ k. k ⊘ f.of_ℕ n) (range_from (i + 1) (length s))) s
        ≡ gaps_plus n i s
  unfolding range_from gaps_plus
  emp_gaps_plus n i [] = refl
  emp_gaps_plus n i (x ∷ s) =
      ap (λ t. (f.of_ℕ (i + 1) ⊘ f.of_ℕ n ⊖ x) ∷ t) (emp_gaps_plus n (i + 1) s)

  emp_gaps_minus :
      (n i : ℕ) (s : List W)
      → zip_with (λ x y. x ⊖ y) s (map (λ k. k ⊘ f.of_ℕ n) (range_from i (length s)))
        ≡ gaps_minus n i s
  unfolding range_from gaps_minus
  emp_gaps_minus n i [] = refl
  emp_gaps_minus n i (x ∷ s) = ap (λ t. (x ⊖ f.of_ℕ i ⊘ f.of_ℕ n) ∷ t) (emp_gaps_minus n (i + 1) s)

  count_true-map : (t : W) (pit : List W) → count_true (map (λ x. x ≤? t) pit) ≡ count_at_most t pit
  unfolding count_true count_at_most
  count_true-map t [] = refl
  count_true-map t (x ∷ pit) =
      let rest = count_true-map t pit in
      elim (Bool-cases (x ≤? t)) [ inl below ↦ rw below (ap suc rest) | inr above ↦ rw above rest ]

module _ {ℓ} {W : Type ℓ} ⦃f : Float W⦄ ⦃a : Arrays W⦄ where
  saved_ks-eq :
      (length-sort : (xs : List W) → length (a.sort xs) ≡ length xs) (pit : List W)
      → saved_ks pit ≡ ks_statistic pit
  unfolding saved_ks ks_statistic arange
  saved_ks-eq length-sort pit =
      ap₂ (λ p m. greater_of (array_max p) (array_max m))
        (ap
            (λ n.
              zip_with (λ x y. x ⊖ y) (map (λ k. k ⊘ f.of_ℕ (length pit)) (range_from 1 n))
                (a.sort pit))
            (sym (length-sort pit))
          ∙ emp_gaps_plus (length pit) 0 (a.sort pit))
        (ap
            (λ n.
              zip_with (λ x y. x ⊖ y) (a.sort pit)
                (map (λ k. k ⊘ f.of_ℕ (length pit)) (range_from 0 n)))
            (sym (length-sort pit))
          ∙ emp_gaps_minus (length pit) 0 (a.sort pit))

  saved_coverage-eq :
      (pit : List W) (pcts : List ℕ)
      → saved_coverage pit pcts ≡ coverage_table pit (map (λ p. f.of_ℕ p) pcts)
  unfolding saved_coverage coverage_table saved_share coverage
  saved_coverage-eq pit [] = refl
  saved_coverage-eq pit (p ∷ pcts) =
      ap₂ (λ s t. (f.of_ℕ p, s) ∷ t)
        (ap₂ (λ n k. f.of_ℕ n ⊘ f.of_ℕ k) (count_true-map (f.of_ℕ p ⊘ f.of_ℕ 100) pit)
          (length-map pit _))
        (saved_coverage-eq pit pcts)

  per_adv_loop-map :
      (advs : List Text) (regs : List W) (names : List Text)
      → per_adv_loop advs regs names ≡ map (λ b. (b, batch_mean (select b advs regs))) names
  unfolding per_adv_loop
  per_adv_loop-map advs regs [] = refl
  per_adv_loop-map advs regs (b ∷ names) =
      ap₂ (λ xs t. (b, batch_mean xs) ∷ t) (masked-select b advs regs)
        (per_adv_loop-map advs regs names)

  saved_per_adv-eq :
      (advs : List Text) (regs : List W) → saved_per_adv (some advs) regs ≡ per_advertiser advs regs
  unfolding saved_per_adv per_advertiser
  saved_per_adv-eq advs regs = per_adv_loop-map advs regs (distinct advs)

  saved_terms-eq :
      ((x y : W) → (x ⊗ f.lit 5 1) ⊗ y ≡ x ⊗ (f.lit 5 1 ⊗ y))
      → (ps ms ss : List W) (x : W) → saved_terms ps ms ss x ≡ mixture_terms ps ms ss x
  unfolding saved_terms mixture_terms
  saved_terms-eq halves [] ms ss x = refl
  saved_terms-eq halves (p ∷ ps) [] ss x = refl
  saved_terms-eq halves (p ∷ ps) (m ∷ ms) [] x = refl
  saved_terms-eq halves (p ∷ ps) (m ∷ ms) (s ∷ ss) x =
      ap₂ (λ t u. t ∷ u) (halves p _) (saved_terms-eq halves ps ms ss x)

  saved_pit_bins-eq :
      (long : W → ℤ) (rows : List (BinsRow W × W))
      → saved_pit long (Loaded.bins rows) ≡ compute_pit_bins long (map (λ r. r.0) rows)
  unfolding saved_pit compute_pit_bins saved_pit_bins pit_bins
  saved_pit_bins-eq long rows = sym (map_firsts (pit_bins long) rows)

  saved_pit_mdn-eq :
      ((x y : W) → (x ⊗ f.lit 5 1) ⊗ y ≡ x ⊗ (f.lit 5 1 ⊗ y))
      → (long : W → ℤ) (rows : List (MdnRow W × W))
      → saved_pit long (Loaded.mdn rows) ≡ compute_pit_mdn (map (λ r. r.0) rows)
  unfolding saved_pit compute_pit_mdn saved_pit_mdn pit_mdn mixture_cdf
  saved_pit_mdn-eq halves long [] = refl
  saved_pit_mdn-eq halves long (r ∷ rows) =
      ap₂ (λ x t. x ∷ t)
        (ap a.sum
          (saved_terms-eq halves (a.softmax (r.0).pi_logits) (r.0).mu (r.0).sigma (r.0).log_pp))
        (saved_pit_mdn-eq halves long rows)

  bins_grid_same :
      (v : Value W) (rows : List (BinsRow W × W))
      → saved_regrets v (Loaded.bins rows) (bids_grid v (Loaded.bins rows))
        ≡ (regret_metrics_bins_grid (map (λ r. r.0) rows) v 8192).0
  unfolding saved_regrets bids_grid
  bins_grid_same v rows =
      ap (bins_regrets v (map (λ r. r.0) rows)) (
        chunked-map (λ r. bins_bid v r.0) 16384 (omega arith) rows (length rows) 0 (omega arith)
        ∙ sym (map_firsts (bins_bid v) rows))
      ∙ sym (
          ap (λ t. t.0)
            ((regret_metrics-by_row (map (λ r. r.0) rows) [] v 0 (f.lit 0 0) 8192 (omega arith)).0))

  mdn_grid_same :
      (v : Value W) (rows : List (MdnRow W × W))
      → saved_regrets v (Loaded.mdn rows) (bids_grid v (Loaded.mdn rows))
        ≡ (regret_metrics_mdn_grid (map (λ r. r.0) rows) v 500 (f.lit 300 0) 8192).0
  unfolding saved_regrets bids_grid
  mdn_grid_same v rows =
      ap (mdn_regrets v (map (λ r. r.0) rows)) (
        chunked-map (λ r. mdn_bid v 500 (f.lit 300 0) r.0) 16384 (omega arith) rows (length rows) 0
          (omega arith)
        ∙ sym (map_firsts (mdn_bid v 500 (f.lit 300 0)) rows))
      ∙ sym (
          ap (λ t. t.0)
            ((regret_metrics-by_row [] (map (λ r. r.0) rows) v 500 (f.lit 300 0) 8192
              (omega arith)).1))

  bins_newton_same :
      (is_nan : W → Bool) (floor : W → ℕ) (v : Value W) (rows : List (BinsRow W × W))
      → saved_regrets v (Loaded.bins rows) (bids_newton is_nan floor v (Loaded.bins rows))
        ≡ regret_bins_newton is_nan floor (map (λ r. r.0) rows) v 8192
  unfolding saved_regrets bids_newton
  bins_newton_same is_nan floor v rows =
      ap (bins_regrets v (map (λ r. r.0) rows)) (
        chunked-map (λ r. newton_bins_bid is_nan floor v r.0) 16384 (omega arith) rows (length rows)
          0 (omega arith)
        ∙ sym (map_firsts (newton_bins_bid is_nan floor v) rows))
      ∙ sym (
          (newton_regrets-by_row is_nan floor (map (λ r. r.0) rows) [] v (f.lit 0 0) 8192
            (omega arith)).0)

  mdn_newton_same :
      (is_nan : W → Bool) (floor : W → ℕ) (v : Value W) (rows : List (MdnRow W × W))
      → saved_regrets v (Loaded.mdn rows) (bids_newton is_nan floor v (Loaded.mdn rows))
        ≡ (regret_metrics_mdn_newton is_nan (map (λ r. r.0) rows) v (f.lit 300 0) 8192).0
  unfolding saved_regrets bids_newton
  mdn_newton_same is_nan floor v rows =
      ap (mdn_regrets v (map (λ r. r.0) rows)) (
        chunked-map (λ r. newton_mdn_bid is_nan v (f.lit 300 0) r.0) 16384 (omega arith) rows
          (length rows) 0 (omega arith)
        ∙ sym (map_firsts (newton_mdn_bid is_nan v (f.lit 300 0)) rows))
      ∙ sym (
          ap (λ t. t.0)
            ((newton_regrets-by_row is_nan floor [] (map (λ r. r.0) rows) v (f.lit 300 0) 8192
              (omega arith)).1))

  -- the percentiles that eval_preds.py lists
  abbrev pub percentiles : List W
  percentiles = map (λ p. f.of_ℕ p) saved_percentiles

  -- From the same predictions, with the advertisers of the rows, and where evaluate.py is configured
  -- with the percentiles that eval_preds.py lists, eval_preds.py reports the numbers of evaluate.py
  -- but the NLL, and compute_metrics of eval_ckpts_batch.py those that it computes, for the bins
  -- model and for the mixture model: though both cut the rows in chunks of another size, and compute
  -- the PIT values, the KS statistic, the coverage and the regrets by advertiser in lines of their
  -- own. It takes that sorting keeps the length and that products by 0.5 associate.
  pub evaluations_agree :
      (length-sort : (xs : List W) → length (a.sort xs) ≡ length xs)
      (halves : (x y : W) → (x ⊗ f.lit 5 1) ⊗ y ≡ x ⊗ (f.lit 5 1 ⊗ y)) (is_nan : W → Bool)
      (floor : W → ℕ) (long : W → ℤ) (advs : List Text) (d : Loaded W)
      → (eval_preds is_nan floor long (some advs) d
          ≡ without_nll (evaluated is_nan floor long percentiles advs d))
        × (compute_metrics long d ≡ shared (evaluated is_nan floor long percentiles advs d))
  unfolding eval_preds compute_metrics bins_results mdn_results saved_anlp
  evaluations_agree length-sort halves is_nan floor long advs (Loaded.bins rows) =
      let v150 : Value W = Value.fixed (f.lit 150 0) in
      let pit = compute_pit_bins long (map (λ r. r.0) rows) in
      (
        rw
            (
              saved_pit_bins-eq long rows,
              saved_ks-eq length-sort pit,
              saved_coverage-eq pit saved_percentiles,
              bins_grid_same v150 rows,
              bins_grid_same Value.bidding rows,
              bins_newton_same is_nan floor v150 rows,
              bins_newton_same is_nan floor Value.bidding rows,
              saved_per_adv-eq advs (regret_metrics_bins_grid (map (λ r. r.0) rows) v150 8192).0,
            )
            refl,
        rw
            (
              saved_pit_bins-eq long rows,
              saved_ks-eq length-sort pit,
              bins_grid_same v150 rows,
              bins_grid_same Value.bidding rows,
            )
            refl,
      )
  evaluations_agree length-sort halves is_nan floor long advs (Loaded.mdn rows) =
      let v150 : Value W = Value.fixed (f.lit 150 0) in
      let pit = compute_pit_mdn (map (λ r. r.0) rows) in
      (
        rw
            (
              saved_pit_mdn-eq halves long rows,
              saved_ks-eq length-sort pit,
              saved_coverage-eq pit saved_percentiles,
              mdn_grid_same v150 rows,
              mdn_grid_same Value.bidding rows,
              mdn_newton_same is_nan floor v150 rows,
              mdn_newton_same is_nan floor Value.bidding rows,
              saved_per_adv-eq advs
                  (regret_metrics_mdn_grid (map (λ r. r.0) rows) v150 500 (f.lit 300 0) 8192).0,
            )
            refl,
        rw
            (
              saved_pit_mdn-eq halves long rows,
              saved_ks-eq length-sort pit,
              mdn_grid_same v150 rows,
              mdn_grid_same Value.bidding rows,
            )
            refl,
      )
