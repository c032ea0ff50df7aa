-- ===== src/Search/Streaming.antt =====
-- rtb-bid-model/src/experiments/ens_search2.py: the search for weights over arrays on disk, which are
-- read chunk by chunk. The cache directory is a dictionary from paths to arrays.
use ads_bidding_optimizer.Prelude.{
  ℕ, zero, suc, Bool, not, ◌||◌, Option, none, some, List, [], ◌∷◌, map, length, get_or,
  if◌then◌else◌,
}
use ads_bidding_optimizer.Float.{Float, nought, unit}
use ads_bidding_optimizer.Arrays.{Arrays, arange}
use ads_bidding_optimizer.Dict.{Dict, Text, text_key, contains, put}
use ads_bidding_optimizer.Optimizer.{masked_profits, regret}
use ads_bidding_optimizer.Evaluate.{chunked}
use ads_bidding_optimizer.Ensemble.{bins_masses}
use ads_bidding_optimizer.Search.{
  Mixture, Preds, grid_profits, zero_from, weighted, clipped_normalise, mixture_to_bins, mean,
}
use ads_bidding_optimizer.Search.Weights.{Trial, MemberRow, deltas, search_weights}

-- a member of the command line: its file in the cache, and its predictions
pub record Source {ℓ} (W : Type ℓ) : Type ℓ where
  pub cache_path : Text
  pub preds : Preds W

-- the entry of `member_results`
pub record Alone {ℓ} (W : Type ℓ) : Type ℓ where
  pub i : ℕ
  pub r150 : W
  pub rvbid : W

-- what is saved
pub record Saved {ℓ} (W : Type ℓ) : Type ℓ where
  pub best : Trial W
  pub best_rvbid : W
  pub member_alone : List (Alone W)
  pub all_results : List (Trial W)

module _ {ℓ} {W : Type ℓ} ⦃f : Float W⦄ ⦃a : Arrays W⦄ where
  unfoldable pub mdn_to_bins_chunked_save : ℕ → ℕ → List (Mixture W) → List (List W)
  mdn_to_bins_chunked_save num_bins chunk rows =
      chunked (length rows) (map (mixture_to_bins num_bins)) chunk 0 rows

  unfoldable pub bins_to_mmap_save : ℕ → List (List W) → List (List W)
  bins_to_mmap_save num_bins rows = map (λ p. clipped_normalise (bins_masses p num_bins)) rows

  -- the array that is written for a member
  unfoldable pub saved_array : ℕ → Preds W → List (List W)
  saved_array num_bins (Preds.mixtures rows) = mdn_to_bins_chunked_save num_bins 10000 rows
  saved_array num_bins (Preds.bins_rows rows) = bins_to_mmap_save num_bins rows

  -- one member: built if its file is missing or `--rebuild_cache` is given, else reused
  unfoldable pub cache_member :
      ℕ → Bool → Source W → Dict Text (List (List W)) → Dict Text (List (List W))
  cache_member num_bins rebuild m cache =
      if not (contains m.cache_path cache) || rebuild
      then put m.cache_path (saved_array num_bins m.preds) cache
      else cache

  -- the loop over the members
  unfoldable pub build_cache :
      ℕ → Bool → List (Source W) → Dict Text (List (List W)) → Dict Text (List (List W))
  build_cache num_bins rebuild [] cache = cache
  build_cache num_bins rebuild (m ∷ members) cache =
      build_cache num_bins rebuild members (cache_member num_bins rebuild m cache)

  -- a row's weighted average, divided by its sum
  unfoldable pub streamed_average : ℕ → List W → MemberRow W → List W
  streamed_average num_bins weights r = clipped_normalise (weighted num_bins weights r.member_probs)

  unfoldable pub streamed_bid : (W → ℕ) → W → ℕ → List W → MemberRow W → W
  streamed_bid ceil V num_bins weights r =
      let bins_arr = arange num_bins in
      let cdf = a.cumsum (streamed_average num_bins weights r) in
      get_or bins_arr (a.argmax (zero_from (ceil V) (grid_profits V bins_arr cdf))) nought

  unfoldable pub streamed_logged_bid : ℕ → List W → MemberRow W → W
  streamed_logged_bid num_bins weights r =
      let bins_arr = arange num_bins in
      let cdf = a.cumsum (streamed_average num_bins weights r) in
      get_or bins_arr (a.argmax (masked_profits r.bid bins_arr cdf)) nought

  -- `(perfect - realized)` of each row, for the bids and the values
  unfoldable pub row_regrets : (MemberRow W → W) → List (MemberRow W) → List W → List W
  row_regrets value [] bids = []
  row_regrets value (r ∷ rows) [] = []
  row_regrets value (r ∷ rows) (b ∷ bids) = regret b r.pp (value r) ∷ row_regrets value rows bids

  unfoldable pub regret_v150_streaming : (W → ℕ) → W → ℕ → ℕ → List (MemberRow W) → List W → W
  regret_v150_streaming ceil V num_bins chunk rows weights = mean (
      row_regrets (λ r. V) rows
        (chunked (length rows) (map (streamed_bid ceil V num_bins weights)) chunk 0 rows))

  unfoldable pub regret_vbid_streaming : ℕ → ℕ → List (MemberRow W) → List W → W
  regret_vbid_streaming num_bins chunk rows weights = mean (
      row_regrets (λ r. r.bid) rows
        (chunked (length rows) (map (streamed_logged_bid num_bins weights)) chunk 0 rows))

  -- `np.zeros(M)` with `w[i] = 1.0`
  unfoldable pub one_hot : ℕ → ℕ → List W
  one_hot zero i = []
  one_hot (suc count) zero = unit ∷ one_hot_rest count
    where
      one_hot_rest : ℕ → List W
      one_hot_rest zero = []
      one_hot_rest (suc n) = nought ∷ one_hot_rest n
  one_hot (suc count) (suc i) = nought ∷ one_hot count i

  -- the baselines of the `n` members from `i` on
  unfoldable pub alone_results : (W → ℕ) → ℕ → ℕ → ℕ → ℕ → List (MemberRow W) → List (Alone W)
  alone_results ceil num_bins count zero i rows = []
  alone_results ceil num_bins count (suc n) i rows =
      record {
        i = i;
        r150 = regret_v150_streaming ceil (f.lit 150 0) num_bins 200000 rows (one_hot count i);
        rvbid = regret_vbid_streaming num_bins 200000 rows (one_hot count i);
      }
      ∷ alone_results ceil num_bins count n (suc i) rows

  -- `draws` has those of all loops, one after the other
  unfoldable pub ens_search2 :
      (W → ℕ) → ℕ → ℕ → List (MemberRow W) → List (List W) → Option (Saved W)
  ens_search2 ceil num_bins count rows draws =
      elim (search_weights (regret_v150_streaming ceil (f.lit 150 0) num_bins 200000 rows) deltas 3
        count draws) [
          | none ↦ none
          | some (best, results) ↦ some (record {
            best = best;
            best_rvbid = regret_vbid_streaming num_bins 200000 rows best.w;
            member_alone = alone_results ceil num_bins count count 0 rows;
            all_results = results;
          })
        ]
