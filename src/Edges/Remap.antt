-- ===== src/Edges/Remap.antt =====
-- `remap_to_integer_probs` of rtb-bid-model/src/experiments/eval_bins_v2.py for one row, and the bid
-- that `main` there takes from its result. `np.floor` and `np.ceil` are arguments.
pub mod Cover
pub mod Affordable
pub mod Report
use ads_bidding_optimizer.Prelude.{
  ℕ, zero, suc, ◌+◌, ◌-◌, min, Option, none, some, List, [], ◌∷◌, map, length, replicate, get_or,
  zip_with, if◌then◌else◌,
}
use ads_bidding_optimizer.Prelude.Int.{ℤ, pos, negsuc}
use ads_bidding_optimizer.Float.{Float, ◌⊕◌, ◌⊖◌, ◌⊗◌, ◌⊘◌, ◌≤?◌, ◌<?◌, nought, clamp_min}
use ads_bidding_optimizer.Arrays.{Arrays}
use ads_bidding_optimizer.Features.Tags.{set}
use ads_bidding_optimizer.Optimizer.{backtest_bid}

-- `int(max(0, x))`
unfoldable pub first_cell : ℤ → ℕ
first_cell (pos m) = m
first_cell (negsuc m) = 0

-- `min(num_int_bins - 1, x) + 1`, where a range stops; it is empty for a stop below 0
unfoldable pub stop_cell : ℕ → ℤ → ℕ
stop_cell num_int_bins (pos m) = min num_int_bins (m + 1)
stop_cell num_int_bins (negsuc m) = 0

module _ {ℓ} {W : Type ℓ} ⦃f : Float W⦄ where
  -- `cell_lo[j]` and `cell_hi[j]`
  unfoldable pub cell_lo : ℕ → W
  cell_lo zero = nought
  cell_lo (suc j) = f.of_ℕ (suc j) ⊖ f.lit 5 1

  unfoldable pub cell_hi : ℕ → W
  cell_hi j = f.of_ℕ j ⊕ f.lit 5 1

  -- Python's `min(x, y)` and `max(x, y)`
  abbrev pub py_min : W → W → W
  py_min x y = if y <? x then y else x

  abbrev pub py_max : W → W → W
  py_max x y = if x <? y then y else x

  unfoldable pub overlap : W → W → ℕ → W
  overlap lo hi j = py_max nought (py_min hi (cell_hi j) ⊖ py_max lo (cell_lo j))

  -- the loop over the cells: `count` rounds from `j` on, which write to `row`
  unfoldable pub mark_cells : W → W → ℕ → ℕ → List W → List W
  mark_cells lo hi zero j row = row
  mark_cells lo hi (suc count) j row =
      let ovl = overlap lo hi j in
      let row' = if nought <? ovl then set row j (ovl ⊘ (hi ⊖ lo)) else row in
      mark_cells lo hi count (j + 1) row'

module _ {ℓ} {W : Type ℓ} ⦃f : Float W⦄ (floor ceil : W → ℤ) where
  -- the row of `W` for the bin between `lo` and `hi`
  unfoldable pub transfer_row : ℕ → W → W → List W
  transfer_row num_int_bins lo hi =
      let empty = replicate num_int_bins nought in
      let j0 = first_cell (floor lo) in
      if hi ≤? lo then empty else mark_cells lo hi (stop_cell num_int_bins (ceil hi) - j0) j0 empty

  -- the rows for `K` bins; `none` where an edge is missing
  unfoldable pub transfer_rows : ℕ → ℕ → List W → Option (List (List W))
  transfer_rows num_int_bins zero edges = some []
  transfer_rows num_int_bins (suc k) [] = none
  transfer_rows num_int_bins (suc k) (lo ∷ []) = none
  transfer_rows num_int_bins (suc k) (lo ∷ hi ∷ edges) =
      elim (transfer_rows num_int_bins k (hi ∷ edges)) [
        | none ↦ none
        | some rows ↦ some (transfer_row num_int_bins lo hi ∷ rows)
      ]

module _ {ℓ} {W : Type ℓ} ⦃f : Float W⦄ ⦃a : Arrays W⦄ where
  -- `probs @ W`, for the columns from `j` on
  unfoldable pub row_product : List W → List (List W) → ℕ → ℕ → List W
  row_product probs rows j zero = []
  row_product probs rows j (suc n) =
      a.sum (zip_with (λ p w. p ⊗ w) probs (map (λ row. get_or row j nought) rows))
      ∷ row_product probs rows (j + 1) n

  -- `x / x.sum().clip(min=1e-30)`
  unfoldable pub renormalised : List W → List W
  renormalised int_probs =
      let total = clamp_min (f.lit 1 30) (a.sum int_probs) in map (λ x. x ⊘ total) int_probs

  unfoldable pub remap_to_integer_probs : (W → ℤ) → (W → ℤ) → List W → List W → ℕ → Option (List W)
  remap_to_integer_probs floor ceil probs edges num_int_bins =
      elim (transfer_rows floor ceil num_int_bins (length probs) edges) [
        | none ↦ none
        | some rows ↦ some (renormalised (row_product probs rows 0 num_int_bins))
      ]

  -- `best_b` and `best_b_b` of `main`, with 301 prices
  unfoldable pub remapped_bid : (W → ℤ) → (W → ℤ) → List W → List W → W → Option W
  remapped_bid floor ceil probs edges V = elim (remap_to_integer_probs floor ceil probs edges 301) [
    | none ↦ none
    | some int_probs ↦ some (backtest_bid int_probs V)
  ]
