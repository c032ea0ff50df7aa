-- ===== src/Dataset.antt =====
-- rtb-bid-model/src/dataset.py: the batches of `BidDataset.iter_batches`, as lists of row numbers,
-- and the array of tags that the constructor makes. Reading the parquet file is not modelled.
pub mod Batches
pub mod Packing
use ads_bidding_optimizer.Prelude.{
  true, ◌&&◌, ◌==◌, map, ℕ, zero, suc, ◌+◌, ◌-◌, ◌/◌, min, Bool, List, [], ◌∷◌, ◌++◌, length, take,
  drop, ltb, leb, if◌then◌else◌,
}

-- `perm[cur:end]`
abbrev pub slice {ℓ} : {A : Type ℓ} → ℕ → ℕ → List A → List A
slice start stop xs = take (stop - start) (drop start xs)

module _ {ℓ} {A : Type ℓ} where
  -- The `while` loop of `iter_batches` over the rows of `perm`, from row `cur` on; `fuel` bounds its
  -- rounds.
  unfoldable pub batches_from : ℕ → List A → ℕ → Bool → ℕ → List (List A)
  batches_from zero perm batch_size drop_last cur = []
  batches_from (suc fuel) perm batch_size drop_last cur =
      let end = cur + batch_size in
      let rest = batches_from fuel perm batch_size drop_last end in
      let last =
        slice cur (length perm) perm ∷ batches_from fuel perm batch_size drop_last (length perm) in
      if ltb cur (length perm)
      then (if ltb (length perm) end
          then (if drop_last then [] else last)
          else slice cur end perm ∷ rest)
      else []

  -- with a batch size of at least 1 a round for each row is enough
  unfoldable pub iter_batches : List A → ℕ → Bool → List (List A)
  iter_batches perm batch_size drop_last =
      batches_from (length perm + 1) perm batch_size drop_last 0

unfoldable pub num_batches : ℕ → ℕ → Bool → ℕ
num_batches n batch_size drop_last =
    if drop_last then n / batch_size else (n + batch_size - 1) / batch_size

-- a row of the tag array in the slow path: `tag_arr[i, j] = row[j]` for j < min(10, len(row)),
-- over zeros
unfoldable pub pack_tags : ℕ → List ℕ → List ℕ
pack_tags zero row = []
pack_tags (suc width) [] = 0 ∷ pack_tags width []
pack_tags (suc width) (t ∷ row) = t ∷ pack_tags width row

-- every row has `width` tags
unfoldable pub all_of_width : ℕ → List (List ℕ) → Bool
all_of_width width [] = true
all_of_width width (row ∷ rows) = (length row == width) && all_of_width width rows

-- the tags of all rows: stacked if every row has 10 of them, and else packed one by one
unfoldable pub tag_array : List (List ℕ) → List (List ℕ)
tag_array tags = if all_of_width 10 tags then tags else map (pack_tags 10) tags
