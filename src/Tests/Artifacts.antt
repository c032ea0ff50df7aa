-- ===== src/Tests/Artifacts.antt =====
-- The artifacts of the feature pipeline, and what the retrainer encodes with them, at concrete inputs
-- over whole numbers.
use ads_bidding_optimizer.Prelude.{◌≡◌, refl, inl, none, List, [], ◌∷◌, length, ◌<◌, All}
use ads_bidding_optimizer.Prelude.Int.{ℤ, pos}
use ads_bidding_optimizer.Float.Exact.{ℤ_float}
use ads_bidding_optimizer.Arrays.Plain.{ℤ_arrays}
use ads_bidding_optimizer.Text.{split}
use ads_bidding_optimizer.Features.Tags.{has_no_tags}
use ads_bidding_optimizer.Features.Tags.Padding.{tags_of, tokens}
use ads_bidding_optimizer.Features.Engineered.{Columns}
use ads_bidding_optimizer.Features.Pipeline.{
  Inter, FeatureSettings, nonempty, counted_tags, written_row,
}
use ads_bidding_optimizer.Features.Pipeline.Codes.{
  HasKeys, SameValues, saved_artifacts, pipeline_parity,
}
use ads_bidding_optimizer.Features.Pipeline.TagCodes.{HasNoPad, tag_indices-lt-size}
use ads_bidding_optimizer.Retrain.Record.{Feature, encode_cat, encode_tags}
use ads_bidding_optimizer.Train.Networks.{CatKey, number, name, build_vocab_sizes, feature_config}
use ads_bidding_optimizer.Train.Networks.Codes.{InBounds, value_key}
use ads_bidding_optimizer.Tests.Records.{outcome}

abbrev columns : Columns ℤ
columns = record {
  hour_sin = pos 0;
  hour_cos = pos 1;
  weekday_sin = pos 0;
  weekday_cos = pos 1;
  is_weekend = pos 0;
  slot_area = pos 75000;
  has_floor_price = pos 1;
  log_floor_price = pos 0;
  tag_total = pos 1;
  log_payprice = pos 0;
}

-- the impression of the outcome of the other tests, whose texts are empty
abbrev key : Feature → CatKey
key Feature.domain = name []
key Feature.advertiser_id = name []
key feat = number (pos 1)

abbrev row : Inter ℤ
row = record {
  key = key;
  user_tags = 97 ∷ [];
  columns = columns;
  payprice = pos 70;
  bidding_price = pos 150;
  clicks = none;
}

abbrev settings : FeatureSettings
settings = record {
  categorical = Feature.region ∷ Feature.domain ∷ Feature.advertiser_id ∷ [];
  clip_min = λ feat. none;
  embedding_dims = [];
  tag_dim = 4;
}

-- two files, of which the second begins with a row for validation
abbrev frames : List (List (Inter ℤ))
frames = (row ∷ row ∷ []) ∷ (row ∷ []) ∷ []

row-HasKeys : HasKeys row
row-HasKeys Feature.domain = inl refl
row-HasKeys Feature.advertiser_id = inl refl
row-HasKeys feat = refl

same : SameValues row outcome
unfolding tags_of tokens has_no_tags split
same = record { keys = same_keys; tags = refl }
  where
    same_keys : (feat : Feature) → row.key feat ≡ value_key outcome feat
    same_keys Feature.domain = refl
    same_keys Feature.advertiser_id = refl
    same_keys feat = refl

pipeline_parity_example :
    let art = saved_artifacts settings 2 frames in
    let written = written_row art row in
    (encode_cat outcome (feature_config art) ≡ written.idx)
    × (encode_tags outcome (feature_config art) ≡ written.tag_indices)
    × InBounds (encode_cat outcome (feature_config art)) (build_vocab_sizes art)
pipeline_parity_example =
    pipeline_parity settings 2 frames ((row-HasKeys, (row-HasKeys, tt)), ((row-HasKeys, tt), tt))
      row outcome same

row-HasNoPad : HasNoPad row
unfolding counted_tags nonempty has_no_tags split
row-HasNoPad = (refl, tt)

tag_indices-lt-size_example :
    let art = saved_artifacts settings 2 frames in
    let codes = (written_row art row).tag_indices in
    (length codes ≡ 10) × All (λ c. c < art.tag_vocab_size) codes
tag_indices-lt-size_example =
    tag_indices-lt-size settings 2 frames
      ((row-HasNoPad, (row-HasNoPad, tt)), ((row-HasNoPad, tt), tt)) row
