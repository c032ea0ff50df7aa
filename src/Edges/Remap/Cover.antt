-- ===== src/Edges/Remap/Cover.antt =====
-- A theorem on `remap_to_integer_probs` of rtb-bid-model/src/experiments/eval_bins_v2.py, which visits
-- for each bin only the cells between the floor of its lower edge and the ceiling of its upper edge.
use ads_bidding_optimizer.Prelude.{
  ℕ, zero, suc, ◌+◌, ◌-◌, ◌<◌, ◌≤◌, ◌≡◌, ◌≢◌, ◌⊎◌, refl, sym, ap, ◌∙◌, Bool-cases, inl, inr, false,
  min, List, [], ◌∷◌, length, replicate, length-replicate, get_or, if◌then◌else◌, ◌==◌, ltb, arith,
}
use mathlib.Core.Path.{subst}
use ads_bidding_optimizer.Prelude.Int.{ℤ, pos, negsuc}
use ads_bidding_optimizer.Float.{Float, ◌⊕◌, ◌⊖◌, ◌⊘◌, ◌≤?◌, ◌<?◌, ◌≼◌, nought, IsOrdered}
use ads_bidding_optimizer.Features.Tags.{set}
use ads_bidding_optimizer.Optimizer.Grid.{le_of_not_lt, le_of_lt, not_lt_of_le}
use ads_bidding_optimizer.Edges.Remap.{
  first_cell, stop_cell, cell_lo, cell_hi, py_min, py_max, overlap, mark_cells, transfer_row,
}

-- The part of the bin between `lo` and `hi` that is in cell `j`, for any cell.
unfoldable pub share {ℓ} : {W : Type ℓ} ⦃f : Float W⦄ → W → W → ℕ → W
share lo hi j = if nought <? overlap lo hi j then overlap lo hi j ⊘ (hi ⊖ lo) else nought

-- What `np.floor` and `np.ceil` return, that a difference from a greater number is not above 0, and
-- that the numbers of the cells, and their halves, come in the order of the cells.
pub record IsCut {ℓ} (W : Type ℓ) ⦃f : Float W⦄ (floor ceil : W → ℤ) : Type ℓ where
  pub floor_le : (x : W) (m : ℕ) → floor x ≡ pos m → f.of_ℕ m ≼ x
  pub le_ceil : (x : W) (m : ℕ) → ceil x ≡ pos m → x ≼ f.of_ℕ m
  pub ceil_neg : (x : W) (m : ℕ) → ceil x ≡ negsuc m → x ≼ nought
  pub sub_nonpos : (x y : W) → x ≼ y → x ⊖ y ≼ nought
  pub of_ℕ_nonneg : (i : ℕ) → nought ≼ f.of_ℕ i
  pub of_ℕ_mono : (i j : ℕ) → i ≤ j → f.of_ℕ i ≼ f.of_ℕ j
  pub half_above : (i : ℕ) → f.of_ℕ i ⊕ f.lit 5 1 ≼ f.of_ℕ (i + 1)
  pub half_below : (i : ℕ) → f.of_ℕ i ≼ f.of_ℕ (suc i) ⊖ f.lit 5 1

visited :
    (first stop j : ℕ) → ((first ≤ j) × (j < first + (stop - first))) ⊎ ((j < first) ⊎ (stop ≤ j))
visited first stop j = elim (Bool-cases (ltb j first)) [
  | inl before ↦ inr (inl (ground arith))
  | inr from ↦ elim (Bool-cases (ltb j stop)) [
    | inl inside ↦ inl (ground arith, ground arith)
    | inr after ↦ inr (inr (ground arith))
  ]
]

equal_or_not : (i j : ℕ) → (i ≡ j) ⊎ (i ≢ j)
equal_or_not i j = elim (Bool-cases (i == j)) [
  | inl e ↦ inl (ground arith)
  | inr e ↦ inr (λ h. ground arith)
]

module _ {ℓ} {A : Type ℓ} where
  length-set : (xs : List A) (i : ℕ) (v : A) → length (set xs i v) ≡ length xs
  length-set [] i v = refl
  length-set (x ∷ xs) zero v = refl
  length-set (x ∷ xs) (suc i) v = ap suc (length-set xs i v)

  get_or-set-same : (xs : List A) (i : ℕ) (v d : A) → i < length xs → get_or (set xs i v) i d ≡ v
  get_or-set-same [] i v d h = absurd (omega arith)
  get_or-set-same (x ∷ xs) zero v d h = refl
  get_or-set-same (x ∷ xs) (suc i) v d h = get_or-set-same xs i v d (omega arith)

  get_or-set-other :
      (xs : List A) (i j : ℕ) (v d : A) → i ≢ j → get_or (set xs j v) i d ≡ get_or xs i d
  get_or-set-other [] i j v d h = refl
  get_or-set-other (x ∷ xs) zero zero v d h = absurd (h refl)
  get_or-set-other (x ∷ xs) zero (suc j) v d h = refl
  get_or-set-other (x ∷ xs) (suc i) zero v d h = refl
  get_or-set-other (x ∷ xs) (suc i) (suc j) v d h = get_or-set-other xs i j v d (λ e. h (ap suc e))

  get_or-replicate : (n i : ℕ) (d : A) → get_or (replicate n d) i d ≡ d
  get_or-replicate zero i d = refl
  get_or-replicate (suc n) zero d = refl
  get_or-replicate (suc n) (suc i) d = get_or-replicate n i d

module _ {ℓ} {W : Type ℓ} ⦃f : Float W⦄ where
  -- what a round of the loop does to the row
  abbrev marked : W → W → ℕ → List W → List W
  marked lo hi j row =
      if nought <? overlap lo hi j then set row j (overlap lo hi j ⊘ (hi ⊖ lo)) else row

  length-marked : (lo hi : W) (j : ℕ) (row : List W) → length (marked lo hi j row) ≡ length row
  length-marked lo hi j row = elim (Bool-cases (nought <? overlap lo hi j)) [
    | inl some_part ↦ rw some_part (length-set row j _)
    | inr no_part ↦ rw no_part refl
  ]

  get_or-marked-same :
      (lo hi : W) (j : ℕ) (row : List W)
      → j < length row
      → (get_or row j nought ≡ nought) ⊎ (get_or row j nought ≡ share lo hi j)
      → get_or (marked lo hi j row) j nought ≡ share lo hi j
  unfolding share
  get_or-marked-same lo hi j row h before = elim (Bool-cases (nought <? overlap lo hi j)) [
    | inl some_part ↦ rw some_part (get_or-set-same row j _ nought h)
    | inr no_part ↦
        rw no_part (elim before [ inl empty ↦ empty | inr right ↦ right ∙ rw no_part refl ])
  ]

  get_or-marked-other :
      (lo hi : W) (i j : ℕ) (row : List W)
      → i ≢ j
      → get_or (marked lo hi j row) i nought ≡ get_or row i nought
  get_or-marked-other lo hi i j row h = elim (Bool-cases (nought <? overlap lo hi j)) [
    | inl some_part ↦ rw some_part (get_or-set-other row i j _ nought h)
    | inr no_part ↦ rw no_part refl
  ]

  mark_cells-keeps :
      (lo hi : W) (count j i : ℕ) (row : List W)
      → i < length row
      → get_or row i nought ≡ share lo hi i
      → get_or (mark_cells lo hi count j row) i nought ≡ share lo hi i
  unfolding mark_cells
  mark_cells-keeps lo hi zero j i row h right = right
  mark_cells-keeps lo hi (suc count) j i row h right =
      mark_cells-keeps lo hi count (j + 1) i (marked lo hi j row) (rw (length-marked lo hi j row) h)
        (elim (equal_or_not i j) [
          | inl same ↦
              rw same (get_or-marked-same lo hi j row (rw (sym same) h) (inr (rw (sym same) right)))
          | inr other ↦ get_or-marked-other lo hi i j row other ∙ right
        ])

  mark_cells-marks :
      (lo hi : W) (count j i : ℕ) (row : List W)
      → i < length row
      → j ≤ i
      → i < j + count
      → get_or row i nought ≡ nought
      → get_or (mark_cells lo hi count j row) i nought ≡ share lo hi i
  unfolding mark_cells
  mark_cells-marks lo hi zero j i row h from to empty = absurd (omega arith)
  mark_cells-marks lo hi (suc count) j i row h from to empty = elim (equal_or_not i j) [
    | inl same ↦
        mark_cells-keeps lo hi count (j + 1) i (marked lo hi j row)
          (rw (length-marked lo hi j row) h)
          (rw same (get_or-marked-same lo hi j row (rw (sym same) h) (inl (rw (sym same) empty))))
    | inr other ↦
        mark_cells-marks lo hi count (j + 1) i (marked lo hi j row)
          (rw (length-marked lo hi j row) h) (omega arith) (omega arith)
          (get_or-marked-other lo hi i j row other ∙ empty)
  ]

module _ {ℓ} {W : Type ℓ} ⦃f : Float W⦄ (ordered : IsOrdered W) where
  py_min-le : (x y : W) → (py_min x y ≼ x) × (py_min x y ≼ y)
  py_min-le x y = elim (Bool-cases (y <? x)) [
    | inl less ↦ rw less (le_of_lt ordered y x less, ordered.le_refl y)
    | inr more ↦ rw more (ordered.le_refl x, le_of_not_lt ordered y x more)
  ]

  le-py_max : (x y : W) → (x ≼ py_max x y) × (y ≼ py_max x y)
  le-py_max x y = elim (Bool-cases (x <? y)) [
    | inl less ↦ rw less (le_of_lt ordered x y less, ordered.le_refl y)
    | inr more ↦ rw more (ordered.le_refl x, le_of_not_lt ordered x y more)
  ]

  -- an interval that ends before the other begins
  no_share :
      (sub_nonpos : (x y : W) → x ≼ y → x ⊖ y ≼ nought) (lo hi : W) (j : ℕ)
      → py_min hi (cell_hi j) ≼ py_max lo (cell_lo j)
      → share lo hi j ≡ nought
  unfolding share overlap
  no_share sub_nonpos lo hi j apart =
      let part = py_min hi (cell_hi j) ⊖ py_max lo (cell_lo j) in
      let none_over = not_lt_of_le ordered nought part (sub_nonpos _ _ apart) in
      rw (none_over, not_lt_of_le ordered nought nought (ordered.le_refl nought)) refl

  module _ (floor ceil : W → ℤ) (cut : IsCut W floor ceil) where
    -- the cells before the floor of the lower edge
    cell_before : (lo hi : W) (j m : ℕ) → floor lo ≡ pos m → j < m → share lo hi j ≡ nought
    unfolding cell_hi
    cell_before lo hi j m e h =
        let below = cut.of_ℕ_mono (j + 1) m (omega arith) in
        let above = cut.half_above j in
        let to_lo =
          ordered.le_trans _ _ lo (ordered.le_trans _ _ _ above below) (cut.floor_le lo m e) in
        no_share cut.sub_nonpos lo hi j (
          ordered.le_trans _ _ _ (py_min-le hi (cell_hi j)).1
            (ordered.le_trans _ _ _ to_lo (le-py_max lo (cell_lo j)).0))

    -- the cells that begin after the upper edge
    cell_after : (lo hi : W) (j : ℕ) → hi ≼ cell_lo j → share lo hi j ≡ nought
    cell_after lo hi j after = no_share cut.sub_nonpos lo hi j (
        ordered.le_trans _ _ _ (py_min-le hi (cell_hi j)).0
          (ordered.le_trans _ _ _ after (le-py_max lo (cell_lo j)).1))

    le-cell_lo : (j m : ℕ) → m < j → f.of_ℕ m ≼ cell_lo j
    unfolding cell_lo
    le-cell_lo zero m h = absurd (omega arith)
    le-cell_lo (suc j) m h =
        ordered.le_trans _ _ _ (cut.of_ℕ_mono m j (omega arith)) (cut.half_below j)

    nought-le-cell_lo : (j : ℕ) → nought {W = W} ≼ cell_lo j
    unfolding cell_lo
    nought-le-cell_lo zero = ordered.le_refl nought
    nought-le-cell_lo (suc j) = ordered.le_trans _ _ _ (cut.of_ℕ_nonneg j) (cut.half_below j)

    cell_before_first :
        (lo hi : W) (j : ℕ) (z : ℤ) → floor lo ≡ z → j < first_cell z → share lo hi j ≡ nought
    unfolding first_cell
    cell_before_first lo hi j (pos m) e h = cell_before lo hi j m e h
    cell_before_first lo hi j (negsuc m) e h = absurd (omega arith)

    cell_from_stop :
        (lo hi : W) (n j : ℕ) (z : ℤ)
        → ceil hi ≡ z
        → j < n
        → stop_cell n z ≤ j
        → share lo hi j ≡ nought
    unfolding stop_cell
    cell_from_stop lo hi n j (pos m) e h from =
        cell_after lo hi j
          (ordered.le_trans _ _ _ (cut.le_ceil hi m e) (le-cell_lo j m (omega (min, arith))))
    cell_from_stop lo hi n j (negsuc m) e h from =
        cell_after lo hi j (ordered.le_trans _ _ _ (cut.ceil_neg hi m e) (nought-le-cell_lo j))

    -- Where `np.floor` and `np.ceil` bound their argument and the cells are in order, the row that
    -- the loop builds for a bin of positive width holds for every integer price the share of the
    -- bin that lies in that price's cell: no cell outside of those that the loop visits overlaps
    -- the bin.
    pub transfer_row-shares :
        (num_int_bins : ℕ) (lo hi : W) (j : ℕ)
        → (hi ≤? lo) ≡ false
        → j < num_int_bins
        → get_or (transfer_row floor ceil num_int_bins lo hi) j nought ≡ share lo hi j
    unfolding transfer_row
    transfer_row-shares n lo hi j wide h =
        let first = first_cell (floor lo) in
        let stop = stop_cell n (ceil hi) in
        let empty = get_or-replicate n j nought in
        let bound = subst (λ k. j < k) (sym (length-replicate n nought)) h in
        rw wide (elim (visited first stop j) [
          | inl inside ↦
              mark_cells-marks lo hi (stop - first) first j _ bound inside.0 inside.1 empty
          | inr (inl before) ↦
              mark_cells-keeps lo hi (stop - first) first j _ bound
                (empty ∙ sym (cell_before_first lo hi j (floor lo) refl before))
          | inr (inr after) ↦
              mark_cells-keeps lo hi (stop - first) first j _ bound
                (empty ∙ sym (cell_from_stop lo hi n j (ceil hi) refl h after))
        ])
