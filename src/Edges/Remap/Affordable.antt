-- ===== src/Edges/Remap/Affordable.antt =====
-- A theorem on the bids of rtb-bid-model/src/experiments/eval_bins_v2.py.
use ads_bidding_optimizer.Prelude.{
  ℕ, zero, suc, ◌+◌, ◌<◌, ◌≡◌, refl, ap, ◌∙◌, Bool-cases, inl, inr, true, false, some, List, [],
  ◌∷◌, map, length, replicate, length-map, get_or, zip_with, All, All-map, arith,
}
use mathlib.Core.Path.{subst}
use ads_bidding_optimizer.Prelude.Int.{ℤ}
use ads_bidding_optimizer.Float.{
  Float, ◌⊖◌, ◌⊗◌, ◌≤?◌, ◌<?◌, ◌≼◌, nought, clamp_min, IsOrdered, IsRounded,
}
use ads_bidding_optimizer.Arrays.{Arrays, IsDocumented, get_or-All}
use ads_bidding_optimizer.Features.Tags.{set}
use ads_bidding_optimizer.Optimizer.{backtest_bid}
use ads_bidding_optimizer.Optimizer.Grid.{le_of_not_lt, le_of_lt}
use ads_bidding_optimizer.Optimizer.Affordable.{grid_searches_agree, best_bid-le-value}
use ads_bidding_optimizer.Edges.Remap.{
  overlap, mark_cells, transfer_row, transfer_rows, row_product, renormalised,
  remap_to_integer_probs, remapped_bid,
}

module _ {ℓ} {A : Type ℓ} (P : A → Type 0) where
  set-All : (xs : List A) (i : ℕ) (v : A) → P v → All P xs → All P (set xs i v)
  set-All [] i v h hs = tt
  set-All (x ∷ xs) zero v h hs = (h, hs.1)
  set-All (x ∷ xs) (suc i) v h hs = (hs.0, set-All xs i v h hs.1)

  replicate-All : (n : ℕ) (v : A) → P v → All P (replicate n v)
  replicate-All zero v h = tt
  replicate-All (suc n) v h = (h, replicate-All n v h)

-- What the remap relies on beside the laws of rounding: a difference from a smaller number is above
-- 0, as it is with gradual underflow, and so is the literal 1e-30.
pub record IsGradual {ℓ} (W : Type ℓ) ⦃f : Float W⦄ : Type ℓ where
  pub sub_pos : (x y : W) → (y ≤? x) ≡ false → (nought <? y ⊖ x) ≡ true
  pub least_pos : (nought <? f.lit 1 30) ≡ true

module _ {ℓ} {W : Type ℓ} ⦃f : Float W⦄ where
  -- no number of a list is below 0
  abbrev pub IsNonneg : List W → Type 0
  IsNonneg xs = All (λ x. nought ≼ x) xs

  module _ (ordered : IsOrdered W) (rounded : IsRounded W) (gradual : IsGradual W) where
    mark_cells-IsNonneg :
        (lo hi : W) (count j : ℕ) (row : List W)
        → (nought <? hi ⊖ lo) ≡ true
        → IsNonneg row
        → IsNonneg (mark_cells lo hi count j row)
    unfolding mark_cells
    mark_cells-IsNonneg lo hi zero j row wide h = h
    mark_cells-IsNonneg lo hi (suc count) j row wide h =
        mark_cells-IsNonneg lo hi count (j + 1) _ wide
          (elim (Bool-cases (nought <? overlap lo hi j)) [
            | inl some_part ↦ rw some_part (
                set-All (λ x. nought ≼ x) row j _
                  (rounded.div_nonneg _ _ (le_of_lt ordered nought _ some_part) wide) h)
            | inr no_part ↦ rw no_part h
          ])

    transfer_row-IsNonneg :
        (floor ceil : W → ℤ) (n : ℕ) (lo hi : W) → IsNonneg (transfer_row floor ceil n lo hi)
    unfolding transfer_row
    transfer_row-IsNonneg floor ceil n lo hi =
        let empty = replicate-All (λ x. nought ≼ x) n nought (ordered.le_refl nought) in
        elim (Bool-cases (hi ≤? lo)) [
          | inl narrow ↦ rw narrow empty
          | inr wide ↦ rw wide (mark_cells-IsNonneg lo hi _ _ _ (gradual.sub_pos lo hi wide) empty)
        ]

    products_nonneg :
        (j : ℕ) (probs : List W) (rows : List (List W))
        → IsNonneg probs
        → All IsNonneg rows
        → IsNonneg (zip_with (λ p w. p ⊗ w) probs (map (λ row. get_or row j nought) rows))
    products_nonneg j [] rows h hs = tt
    products_nonneg j (p ∷ probs) [] h hs = tt
    products_nonneg j (p ∷ probs) (row ∷ rows) h hs = (
      rounded.mul_nonneg p _ h.0
          (get_or-All (λ x. nought ≼ x) row j nought (ordered.le_refl nought) hs.0),
      products_nonneg j probs rows h.1 hs.1,
    )

    -- a sum that is clipped at 1e-30 is above 0
    clamp_pos : (x : W) → (nought <? clamp_min (f.lit 1 30) x) ≡ true
    clamp_pos x = elim (Bool-cases (x <? f.lit 1 30)) [
      | inl below ↦ rw below gradual.least_pos
      | inr above ↦ rw above (
          ground (
            arith,
            ordered.lt-eq-not-le nought x,
            ordered.lt-eq-not-le nought (f.lit 1 30),
            ordered.le_trans (f.lit 1 30) x nought,
            le_of_not_lt ordered x (f.lit 1 30) above,
            gradual.least_pos,
          ))
    ]

    renormalised-IsNonneg :
        ⦃a : Arrays W⦄ → (xs : List W) → IsNonneg xs → IsNonneg (renormalised xs)
    unfolding renormalised
    renormalised-IsNonneg xs h =
        All-map (λ x. nought ≼ x) (λ x. nought ≼ x) _
          (λ x hx. rounded.div_nonneg x _ hx (clamp_pos _)) xs h

    module _ ⦃a : Arrays W⦄ (documented : IsDocumented W) (floor ceil : W → ℤ) where
      row_product-IsNonneg :
          (probs : List W) (rows : List (List W)) (j n : ℕ)
          → IsNonneg probs
          → All IsNonneg rows
          → IsNonneg (row_product probs rows j n)
      unfolding row_product
      row_product-IsNonneg probs rows j zero h hs = tt
      row_product-IsNonneg probs rows j (suc n) h hs = (
        documented.sum_nonneg _ (products_nonneg j probs rows h hs),
        row_product-IsNonneg probs rows (j + 1) n h hs,
      )

      length-row_product :
          (probs : List W) (rows : List (List W)) (j n : ℕ)
          → length (row_product probs rows j n) ≡ n
      unfolding row_product
      length-row_product probs rows j zero = refl
      length-row_product probs rows j (suc n) = ap suc (length-row_product probs rows (j + 1) n)

      -- a row for every bin that has its two edges
      transfer_rows_exist :
          (n k : ℕ) (edges : List W)
          → length edges ≡ k + 1
          → (rows : List (List W)) × (transfer_rows floor ceil n k edges ≡ some rows)
            × All IsNonneg rows
      unfolding transfer_rows
      transfer_rows_exist n zero edges h = ([], refl, tt)
      transfer_rows_exist n (suc k) [] h = absurd (omega arith)
      transfer_rows_exist n (suc k) (lo ∷ []) h = absurd (omega arith)
      transfer_rows_exist n (suc k) (lo ∷ hi ∷ edges) h =
          let (rows, found, hs) = transfer_rows_exist n k (hi ∷ edges) (omega arith) in
          (
            transfer_row floor ceil n lo hi ∷ rows,
            rw found refl,
            (transfer_row-IsNonneg floor ceil n lo hi, hs),
          )

      -- With one edge more than bins, no negative probability and a value of at least 0, the remap
      -- has a row of 301 probabilities none of which is negative, and the bid taken from it exists
      -- and is at most the value.
      pub remapped_bid-le-value :
          (probs edges : List W) (V : W)
          → length edges ≡ length probs + 1
          → IsNonneg probs
          → f.of_ℕ 0 ≼ V
          → (int_probs : List W) × (b : W) × (remap_to_integer_probs floor ceil probs edges 301
              ≡ some int_probs)
            × (length int_probs ≡ 301)
            × IsNonneg int_probs
            × (remapped_bid floor ceil probs edges V ≡ some b)
            × (b ≼ V)
      unfolding remap_to_integer_probs remapped_bid renormalised
      remapped_bid-le-value probs edges V e h v =
          let (rows, found, hs) = transfer_rows_exist 301 (length probs) edges e in
          let product = row_product probs rows 0 301 in
          let int_probs = renormalised product in
          let len : length int_probs ≡ 301 =
            length-map product _ ∙ length-row_product probs rows 0 301 in
          let nonneg = renormalised-IsNonneg product (row_product-IsNonneg probs rows 0 301 h hs) in
          let some_bin : 0 < length int_probs = rw len (omega arith) in
          (
            int_probs,
            backtest_bid int_probs V,
            rw (remap_to_integer_probs, found) refl,
            len,
            nonneg,
            rw (remapped_bid, remap_to_integer_probs, found) refl,
            subst (λ b. b ≼ V)
                ((grid_searches_agree ordered rounded documented int_probs V nonneg some_bin).0)
                (best_bid-le-value ordered rounded documented int_probs V nonneg some_bin v),
          )
