-- ===== src/Ensemble/Metrics.antt =====
-- The loop of `evaluate_ensemble` in ensemble.py: the metrics of each row, the totals over the
-- chunks, and the accumulators of each advertiser. `np.round` is an argument.
use ads_bidding_optimizer.Prelude.{
  ℕ, zero, suc, ◌+◌, ◌-◌, min, max, Option, none, some, List, [], ◌∷◌, ◌++◌, map, length, get_or,
  ltb, if◌then◌else◌,
}
use ads_bidding_optimizer.Prelude.Int.{ℤ, pos_part}
use ads_bidding_optimizer.Float.{Float, ◌⊕◌, ◌⊖◌, ◌⊘◌, nought, clamp_min}
use ads_bidding_optimizer.Arrays.{Arrays, arange}
use ads_bidding_optimizer.Dict.{Dict, Text, text_key, lookup, put, or_default}
use ads_bidding_optimizer.Optimizer.{masked_profits, perfect_profit, realized_profit}
use ads_bidding_optimizer.Evaluate.{slice}
use ads_bidding_optimizer.Evaluate.Calibration.{ks_statistic, coverage_table}
use ads_bidding_optimizer.Ensemble.{Member, average}

-- what the predictions hold for one row
pub record Row {ℓ} (W : Type ℓ) : Type ℓ where
  pub members : List (Member W)
  pub pp : W
  pub bid : W
  pub adv : Text

-- what the loop computes for one row
pub record Score {ℓ} (W : Type ℓ) : Type ℓ where
  pub adv : Text
  pub log_p : W
  pub pit : W
  pub reg : W
  pub perfect : W
  pub reg_v : W
  pub perf_v : W

-- the accumulators of one advertiser
pub record Share {ℓ} (W : Type ℓ) : Type ℓ where
  pub reg150_sum : W
  pub reg_v_sum : W
  pub n : ℕ

pub record Totals {ℓ} (W : Type ℓ) : Type ℓ where
  pub total_log_p : W
  pub pit_arr : List W
  pub sum_reg150 : W
  pub sum_reg_v : W
  pub sum_perfect150 : W
  pub sum_perfect_v : W
  pub per_adv : Dict Text (Share W)

pub record Report {ℓ} (W : Type ℓ) : Type ℓ where
  pub anlp : W
  pub ks : Option W
  pub coverage : List (W × W)
  pub regret_v150_grid : W
  pub regret_vbid_grid : W
  pub per_adv_regret_v150 : Dict Text W

-- the slices `rows[s:min(N, s + chunk)]`; with a chunk of at least 1, a round for each row is enough
unfoldable pub slices {ℓ} : {A : Type ℓ} → ℕ → ℕ → ℕ → List A → List (List A)
slices zero chunk s rows = []
slices (suc fuel) chunk s rows =
    let rest = slices fuel chunk (s + chunk) rows in
    if ltb s (length rows) then slice s (min (length rows) (s + chunk)) rows ∷ rest else []

module _ {ℓ} {W : Type ℓ} ⦃f : Float W⦄ where
  abbrev pub no_share : Share W
  no_share = record { reg150_sum = nought; reg_v_sum = nought; n = 0 }

  -- the arrays of zeros, by advertiser; their order, sorted in the source, shows in prints only
  unfoldable pub no_shares : List Text → Dict Text (Share W)
  no_shares [] = []
  no_shares (adv ∷ advs) = put adv no_share (no_shares advs)

  unfoldable pub add_share : Score W → Dict Text (Share W) → Dict Text (Share W)
  add_share s d =
      let old = or_default no_share (lookup s.adv d) in
      put s.adv
        (record {
          reg150_sum = old.reg150_sum ⊕ s.reg;
          reg_v_sum = old.reg_v_sum ⊕ s.reg_v;
          n = old.n + 1;
        })
        d

  -- the loop over the rows of a chunk
  unfoldable pub add_shares : List (Score W) → Dict Text (Share W) → Dict Text (Share W)
  add_shares [] d = d
  add_shares (s ∷ scores) d = add_shares scores (add_share s d)

module _ {ℓ} {W : Type ℓ} ⦃f : Float W⦄ ⦃a : Arrays W⦄ where
  -- the bid of a row: the best bin for the value, as a price
  unfoldable pub ensemble_bid : ℕ → List W → W → W
  ensemble_bid num_bins avg value =
      let bins_arr = arange num_bins in
      get_or bins_arr (a.argmax (masked_profits value bins_arr (a.cumsum avg))) nought

  -- `np.clip(np.round(pp).astype(np.int64), 0, num_bins - 1)`
  unfoldable pub price_bin : (W → ℤ) → ℕ → W → ℕ
  price_bin round num_bins pp = min (pos_part (round pp)) (num_bins - 1)

  unfoldable pub score : (W → ℤ) → ℕ → W → Row W → List W → Score W
  score round num_bins v_fixed r avg =
      let pp_int = price_bin round num_bins r.pp in
      let best_b = ensemble_bid num_bins avg v_fixed in
      let best_b_b = ensemble_bid num_bins avg r.bid in
      record {
        adv = r.adv;
        log_p = a.log (clamp_min (f.lit 1 30) (get_or avg pp_int nought));
        pit = get_or (a.cumsum avg) pp_int nought;
        reg = perfect_profit r.pp v_fixed ⊖ realized_profit best_b r.pp v_fixed;
        perfect = perfect_profit r.pp v_fixed;
        reg_v = perfect_profit r.pp r.bid ⊖ realized_profit best_b_b r.pp r.bid;
        perf_v = perfect_profit r.pp r.bid;
      }

  -- the rows of a chunk; `none` where the average of a row raises
  unfoldable pub score_rows : (W → ℤ) → ℕ → W → List W → List (Row W) → Option (List (Score W))
  score_rows round num_bins v_fixed ws [] = some []
  score_rows round num_bins v_fixed ws (r ∷ rows) = elim (average num_bins ws r.members) [
    | none ↦ none
    | some avg ↦ elim (score_rows round num_bins v_fixed ws rows) [
      | none ↦ none
      | some scores ↦ some (score round num_bins v_fixed r avg ∷ scores)
    ]
  ]

  unfoldable pub add_chunk : List (Score W) → Totals W → Totals W
  add_chunk scores t = record {
    total_log_p = t.total_log_p ⊕ a.sum (map (λ s. s.log_p) scores);
    pit_arr = t.pit_arr ++ map (λ s. s.pit) scores;
    sum_reg150 = t.sum_reg150 ⊕ a.sum (map (λ s. s.reg) scores);
    sum_reg_v = t.sum_reg_v ⊕ a.sum (map (λ s. s.reg_v) scores);
    sum_perfect150 = t.sum_perfect150 ⊕ a.sum (map (λ s. s.perfect) scores);
    sum_perfect_v = t.sum_perfect_v ⊕ a.sum (map (λ s. s.perf_v) scores);
    per_adv = add_shares scores t.per_adv;
  }

  -- the loop over the chunks
  unfoldable pub add_chunks :
      (W → ℤ) → ℕ → W → List W → List (List (Row W)) → Totals W → Option (Totals W)
  add_chunks round num_bins v_fixed ws [] t = some t
  add_chunks round num_bins v_fixed ws (rows ∷ chunks) t =
      elim (score_rows round num_bins v_fixed ws rows) [
        | none ↦ none
        | some scores ↦ add_chunks round num_bins v_fixed ws chunks (add_chunk scores t)
      ]

  unfoldable pub no_totals : List Text → Totals W
  no_totals advs = record {
    total_log_p = nought;
    pit_arr = [];
    sum_reg150 = nought;
    sum_reg_v = nought;
    sum_perfect150 = nought;
    sum_perfect_v = nought;
    per_adv = no_shares advs;
  }

  abbrev pub share_mean : Share W → W
  share_mean s = s.reg150_sum ⊘ f.of_ℕ (max 1 s.n)

  unfoldable pub ensemble_report : ℕ → List W → Totals W → Report W
  ensemble_report n pcts t = record {
    anlp = (nought ⊖ t.total_log_p) ⊘ f.of_ℕ n;
    ks = ks_statistic t.pit_arr;
    coverage = coverage_table t.pit_arr pcts;
    regret_v150_grid = t.sum_reg150 ⊘ f.of_ℕ n;
    regret_vbid_grid = t.sum_reg_v ⊘ f.of_ℕ n;
    per_adv_regret_v150 = map (λ e. (e.0, share_mean e.1)) t.per_adv;
  }

  unfoldable pub ensemble_totals : (W → ℤ) → ℕ → W → List W → ℕ → List (Row W) → Option (Totals W)
  ensemble_totals round num_bins v_fixed ws chunk rows =
      add_chunks round num_bins v_fixed ws (slices (length rows) chunk 0 rows)
        (no_totals (map (λ r. r.adv) rows))

  unfoldable pub evaluate_ensemble :
      (W → ℤ) → ℕ → W → List W → ℕ → List W → List (Row W) → Option (Report W)
  evaluate_ensemble round num_bins v_fixed ws chunk pcts rows =
      elim (ensemble_totals round num_bins v_fixed ws chunk rows) [
        | none ↦ none
        | some t ↦ some (ensemble_report (length rows) pcts t)
      ]
