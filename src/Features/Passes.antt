-- ===== src/Features/Passes.antt =====
-- The training split in `main` of features.py, over the rows of the intermediate files in order:
-- pass B chooses the rows that the encoders and the scalers are fitted on, and pass C the rows that
-- are written as training and as validation data. `cut` is `int(total_train * train_frac)`.
pub mod Leakage
use ads_bidding_optimizer.Prelude.{
  ℕ, ◌+◌, ◌-◌, min, List, [], ◌∷◌, ◌++◌, length, take, drop, ltb, leb, if◌then◌else◌,
}

module _ {ℓ} {R : Type ℓ} where
  -- pass B: the frames `sub` of the rows that are counted
  unfoldable pub fit_frames : ℕ → ℕ → List (List R) → List (List R)
  fit_frames cut rows_seen [] = []
  fit_frames cut rows_seen (df ∷ dfs) =
      let rest = fit_frames cut (rows_seen + length df) dfs in
      let end = min (rows_seen + length df) cut in
      if leb cut rows_seen
      then []
      else if ltb rows_seen end
      then take (end - rows_seen) df ∷ rest
      else rest

  -- pass C: `train_chunks` and `val_chunks`
  pub split_frames :
      ℕ → ℕ → List (List R) → List (List R) → List (List R) → List (List R) × List (List R)
  split_frames cut rows_seen [] train_chunks val_chunks = (train_chunks, val_chunks)
  split_frames cut rows_seen (df ∷ dfs) train_chunks val_chunks =
      let n = length df in
      let split = cut - rows_seen in
      let to_val = split_frames cut (rows_seen + n) dfs train_chunks (val_chunks ++ (df ∷ [])) in
      let to_train = split_frames cut (rows_seen + n) dfs (train_chunks ++ (df ∷ [])) val_chunks in
      let to_both =
        split_frames cut (rows_seen + n) dfs (train_chunks ++ (take split df ∷ []))
          (val_chunks ++ (drop split df ∷ [])) in
      if leb cut rows_seen then to_val else if leb (rows_seen + n) cut then to_train else to_both
