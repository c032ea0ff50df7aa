-- ===== src/Features/Pipeline.antt =====
-- Passes B and C of `main` of features.py on the intermediate rows, whose basic features are computed:
-- what is fitted on the training rows, the artifacts that are saved, and the rows that are written.
-- Reading and writing the files is not modelled.
pub mod Codes
pub mod TagCodes
use ads_bidding_optimizer.Prelude.{
  ℕ, ◌>>=◌, Option, none, some, List, [], ◌∷◌, ◌++◌, map, length, ◌==◌, if◌then◌else◌,
}
use ads_bidding_optimizer.Prelude.Int.{ℤ}
use ads_bidding_optimizer.Float.{Float}
use ads_bidding_optimizer.Arrays.{Arrays}
use ads_bidding_optimizer.Dict.{Dict, Text, text_key, put, or_default, count_all}
use ads_bidding_optimizer.Text.{split, is_empty}
use ads_bidding_optimizer.Features.Parse.{concat_frames}
use ads_bidding_optimizer.Features.Encode.{fit_encoder, fit_tag_vocab, encode}
use ads_bidding_optimizer.Features.Tags.{has_no_tags, encode_user_tags}
use ads_bidding_optimizer.Features.Passes.{fit_frames, split_frames}
use ads_bidding_optimizer.Features.Engineered.{Columns, column_scaler, scaled}
use ads_bidding_optimizer.Features.Engineered as Engineered
use ads_bidding_optimizer.Retrain.Record.{Feature, Scaler}
use ads_bidding_optimizer.Train.Networks.{CatKey, name, cat_key_key, Artifacts}

-- a row of an intermediate file; only those of the test files have the clicks and conversions
pub record Inter {ℓ} (W : Type ℓ) : Type ℓ where
  pub key : Feature → CatKey
  pub user_tags : Text
  pub columns : Columns W
  pub payprice : W
  pub bidding_price : W
  pub clicks : Option (ℤ × ℤ)

-- a row that is written: `feat + '_idx'` for each feature, and `columns` with the three scaled ones
pub record Written {ℓ} (W : Type ℓ) : Type ℓ where
  pub idx : List ℕ
  pub adv : CatKey
  pub columns : Columns W
  pub tag_indices : List ℕ
  pub payprice : W
  pub bidding_price : W
  pub clicks : Option (ℤ × ℤ)

-- the section `features` of config.yaml
pub record FeatureSettings : Type 0 where
  pub categorical : List Feature
  pub clip_min : Feature → Option ℕ
  pub embedding_dims : Dict Text ℕ
  pub tag_dim : ℕ

-- '<UNK>', '<PAD>' and '_tag_vocab_size'
abbrev pub unk_text : Text
unk_text = b'<' ∷ b'U' ∷ b'N' ∷ b'K' ∷ b'>' ∷ []

abbrev pub pad_text : Text
pad_text = b'<' ∷ b'P' ∷ b'A' ∷ b'D' ∷ b'>' ∷ []

abbrev pub size_text : Text
size_text =
    b'_' ∷ b't' ∷ b'a' ∷ b'g' ∷ b'_' ∷ b'v' ∷ b'o' ∷ b'c' ∷ b'a' ∷ b'b' ∷ b'_' ∷ b's' ∷ b'i' ∷ b'z'
    ∷ b'e' ∷ []

-- the pieces of a row's tags that are counted
unfoldable pub nonempty : List Text → List Text
nonempty [] = []
nonempty (p ∷ ps) = let rest = nonempty ps in if is_empty p then rest else p ∷ rest

unfoldable pub counted_tags : Text → List Text
counted_tags s = if has_no_tags s then [] else nonempty (split b',' s)

module _ {ℓ} {W : Type ℓ} where
  -- the counter of a feature after the frames of training rows
  unfoldable pub count_frames : Feature → List (List (Inter W)) → Dict CatKey ℕ → Dict CatKey ℕ
  count_frames feat [] counter = counter
  count_frames feat (sub ∷ frames) counter =
      count_frames feat frames (count_all (map (λ r. r.key feat) sub) counter)

  -- the counter of the tags after the rows of a frame, and after the frames
  unfoldable pub count_rows : List (Inter W) → Dict Text ℕ → Dict Text ℕ
  count_rows [] counter = counter
  count_rows (r ∷ rows) counter = count_rows rows (count_all (counted_tags r.user_tags) counter)

  unfoldable pub count_tags : List (List (Inter W)) → Dict Text ℕ → Dict Text ℕ
  count_tags [] counter = counter
  count_tags (sub ∷ frames) counter = count_tags frames (count_rows sub counter)

module _ {ℓ} {W : Type ℓ} ⦃f : Float W⦄ ⦃a : Arrays W⦄ where
  -- the mean and the standard deviation of a column over the training rows
  unfoldable pub fitted_scaler : (Columns W → W) → ℕ → List (List (Inter W)) → Scaler W
  fitted_scaler column n_train frames =
      let s = column_scaler column n_train (map (map (λ r. r.columns)) frames) in
      record { mean = s.mean; std = s.std }

  -- what pass B fits on the frames of training rows, of which there are `n_train`
  unfoldable pub fit_artifacts : FeatureSettings → ℕ → List (List (Inter W)) → Artifacts W
  fit_artifacts set n_train frames =
      let tag_vocab = fit_tag_vocab unk_text pad_text (count_tags frames []) 200 in
      record {
        categorical_features = set.categorical;
        encoders = λ feat.
            fit_encoder (name unk_text) (count_frames feat frames [])
              (or_default 0 (set.clip_min feat));
        tag_vocab = tag_vocab;
        embedding_dims = put size_text (length tag_vocab) set.embedding_dims;
        tag_dim = set.tag_dim;
        tag_vocab_size = length tag_vocab;
        log_floor_price = fitted_scaler (λ c. c.log_floor_price) n_train frames;
        slot_area = fitted_scaler (λ c. c.slot_area) n_train frames;
        tag_count = fitted_scaler (λ c. c.tag_total) n_train frames;
      }

  abbrev pub rescaled : Scaler W → W → W
  rescaled s x = scaled (record { mean = s.mean; std = s.std }) x

  -- a row of pass C
  unfoldable pub written_row : Artifacts W → Inter W → Written W
  written_row art r = record {
    idx = map (λ feat. encode (art.encoders feat) (r.key feat)) art.categorical_features;
    adv = r.key Feature.advertiser_id;
    columns = record r.columns {
      log_floor_price = rescaled art.log_floor_price (r.columns).log_floor_price;
      slot_area = rescaled art.slot_area (r.columns).slot_area;
      tag_total = rescaled art.tag_count (r.columns).tag_total;
    };
    tag_indices = encode_user_tags r.user_tags art.tag_vocab 10;
    payprice = r.payprice;
    bidding_price = r.bidding_price;
    clicks = r.clicks;
  }

  unfoldable pub written_frames : Artifacts W → List (List (Inter W)) → List (List (Written W))
  written_frames art frames = map (map (written_row art)) frames

  -- the rows for training, validation and test; `pd.concat` raises if there are no frames
  unfoldable pub put_together :
      List (List (Written W))
      → List (List (Written W))
      → List (List (Written W))
      → Option (List (Written W) × List (Written W) × List (Written W))
  put_together train_chunks val_chunks test_chunks = do
    train ← concat_frames train_chunks
    val ← concat_frames val_chunks
    test ← concat_frames test_chunks
    some (train, val, test)

  -- the artifacts and the written rows: `none` where a mean divides by 0 or there are no frames to
  -- put together
  unfoldable pub pipeline :
      FeatureSettings
      → ℕ
      → List (List (Inter W))
      → List (List (Inter W))
      → Option (Artifacts W × (List (Written W) × List (Written W) × List (Written W)))
  pipeline set cut frames test_frames =
      let art = fit_artifacts set cut (fit_frames cut 0 frames) in
      let chunks = split_frames cut 0 (written_frames art frames) [] [] in
      if cut == 0
      then none
      else (put_together chunks.0 chunks.1 (written_frames art test_frames) >>= λ rows.
          some (art, rows))
