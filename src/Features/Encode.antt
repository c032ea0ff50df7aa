-- ===== src/Features/Encode.antt =====
-- `fit_encoder` and `apply_encoder_series` of features.py, and `build_vocab_sizes` of
-- rtb-bid-model/src/model.py. The keys are of any type; `unk` is the key '<UNK>'.
pub mod Codes
pub mod Renamed
pub mod Keys
pub mod Sizes
use ads_bidding_optimizer.Prelude.{ℕ, ◌+◌, List, [], ◌∷◌, ◌++◌, map, length, ltb, if◌then◌else◌}
use ads_bidding_optimizer.Dict.{Key, ◌==◌, Dict, lookup, contains, put, or_default, most_common}

module _ {ℓ} {K : Type ℓ} ⦃e : Key K⦄ where
  -- the loop over the values by falling counts; `idx` is the next free code
  unfoldable pub fit_from : ℕ → Dict K ℕ → ℕ → Dict K ℕ → Dict K ℕ
  fit_from min_count vocab idx [] = vocab
  fit_from min_count vocab idx ((v, c) ∷ rest) =
      let skip = fit_from min_count vocab idx rest in
      let added = fit_from min_count (put v idx vocab) (idx + 1) rest in
      if ltb c min_count then skip else if contains v vocab then skip else added

  unfoldable pub fit_encoder : K → Dict K ℕ → ℕ → Dict K ℕ
  fit_encoder unk counter min_count = fit_from min_count ((unk, 0) ∷ []) 1 (most_common counter)

  -- the loop of `main` that renames '<UNK>' to '<PAD>' in the vocabulary of the tags
  unfoldable pub rename_from : K → K → Dict K ℕ → Dict K ℕ → Dict K ℕ
  rename_from unk pad vocab [] = vocab
  rename_from unk pad vocab ((k, v) ∷ rest) =
      rename_from unk pad (put (if k == unk then pad else k) v vocab) rest

  -- `fit_encoder(tag_counter, min_count)`, renamed
  unfoldable pub fit_tag_vocab : K → K → Dict K ℕ → ℕ → Dict K ℕ
  fit_tag_vocab unk pad counter min_count =
      rename_from unk pad [] (fit_encoder unk counter min_count)

  -- `vocab.get(v, 0)`
  unfoldable pub encode : Dict K ℕ → K → ℕ
  encode vocab v = or_default 0 (lookup v vocab)

  unfoldable pub apply_encoder_series : List K → Dict K ℕ → List ℕ
  apply_encoder_series values vocab = map (encode vocab) values

  -- the size of the embedding table: `len(encoders[feat]) + 1`
  unfoldable pub vocab_size : Dict K ℕ → ℕ
  vocab_size encoder = length encoder + 1
