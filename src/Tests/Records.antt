-- ===== src/Tests/Records.antt =====
-- The features of an outcome, as the retrainer and the feature pipeline encode them, at concrete
-- inputs.
use ads_bidding_optimizer.Prelude.{ℕ, ◌≡◌, refl, Option, some, [], ◌∷◌, arith}
use ads_bidding_optimizer.Prelude.Int.{ℤ, pos}
use ads_bidding_optimizer.Float.Exact.{ℤ_float, ℤ-IsOrdered}
use ads_bidding_optimizer.Dict.{Text, text_key}
use ads_bidding_optimizer.Text.{split}
use ads_bidding_optimizer.Features.Tags.{encode_user_tags, has_no_tags}
use ads_bidding_optimizer.Features.Tags.Padding.{tags_of, tokens}
use ads_bidding_optimizer.Features.Engineered.{Line, Columns, Date, basic_features, cont_row}
use ads_bidding_optimizer.Features.Engineered as Engineered
use ads_bidding_optimizer.Features.Engineered.Parity.{
  number, day_of, ReadsDigits, Spells, SameImpression, SameScalers, encode_cont_parity,
}
use ads_bidding_optimizer.Float.{nought, ◌≼◌}
use ads_bidding_optimizer.Arrays.Plain.{ℤ_arrays}
use ads_bidding_optimizer.Retrain.Record.{
  Feature, Outcome, Scaler, Config, encode_tags, encode_cont,
}
use ads_bidding_optimizer.Retrain.Record.Parity.{encode_tags_parity}

abbrev plain : Scaler ℤ
plain = record { mean = pos 0; std = pos 1 }

abbrev pub config : Config ℤ
config = record {
  cat_order = Feature.region ∷ [];
  cat_vocabs = λ feat. [];
  log_floor_price = plain;
  slot_area = plain;
  tag_count = plain;
  tag_vocab = ((97 ∷ []), 3) ∷ [];
  tag_max_len = 4;
}

-- an outcome with one tag
abbrev pub outcome : Outcome ℤ
outcome = record {
  number = λ feat. pos 1;
  domain_name = [];
  advertiser = [];
  slot_floor_price = pos 5;
  width = pos 300;
  height = pos 250;
  user_tags = (97 ∷ []) ∷ [];
  stamp = 20130606120000;
  clearing_price = pos 70;
}

one_tag : outcome.user_tags ≡ tags_of (97 ∷ [])
unfolding tags_of tokens has_no_tags split
one_tag = refl

encode_tags_parity_example :
    encode_tags outcome config ≡ encode_user_tags (97 ∷ []) config.tag_vocab 4
encode_tags_parity_example = encode_tags_parity outcome config (97 ∷ []) one_tag

abbrev line : Line ℤ
line = record {
  timestamp =
      50 ∷ 48 ∷ 49 ∷ 51 ∷ 48 ∷ 54 ∷ 48 ∷ 54 ∷ 49 ∷ 50 ∷ 48 ∷ 48 ∷ 48 ∷ 48 ∷ 49 ∷ 50 ∷ 51 ∷ [];
  user_tags = 97 ∷ [];
  slot_width = pos 300;
  slot_height = pos 250;
  slot_floor_price = pos 5;
  payprice = pos 70;
}

abbrev unscaled : Engineered.Scaler ℤ
unscaled = record { mean = pos 0; std = pos 1 }

abbrev read_hour : Text → Option ℕ
read_hour t = some (number t)

abbrev read_date : Text → Option Date
read_date t = day_of (number t)

reads : ReadsDigits read_hour read_date
reads = record { int = λ t h e. refl; date = λ t h e first last. refl }

-- 2013-06-06 at 12:00
spells : Spells line.timestamp 20130606120000
spells = record {
  day = 50 ∷ 48 ∷ 49 ∷ 51 ∷ 48 ∷ 54 ∷ 48 ∷ 54 ∷ [];
  hour = 49 ∷ 50 ∷ [];
  rest = 48 ∷ 48 ∷ 48 ∷ 48 ∷ 49 ∷ 50 ∷ 51 ∷ [];
  time = 0;
  text = refl;
  day_length = refl;
  hour_length = refl;
  day_digits = (
    (omega arith, omega arith),
    (
      (omega arith, omega arith),
      (
        (omega arith, omega arith),
        (
          (omega arith, omega arith),
          (
            (omega arith, omega arith),
            (
              (omega arith, omega arith),
              ((omega arith, omega arith), ((omega arith, omega arith), tt)),
            ),
          ),
        ),
      ),
    ),
  );
  hour_digits = ((omega arith, omega arith), ((omega arith, omega arith), tt));
  first_year = omega arith;
  last_year = omega arith;
  time_below = omega arith;
  same_time = refl;
}

same_impression : SameImpression outcome line
unfolding tags_of tokens has_no_tags split
same_impression = record { width = refl; height = refl; floor_price = refl; tags = refl }

same_scalers : SameScalers config unscaled unscaled unscaled
same_scalers = record { log_floor_price = refl; slot_area = refl; tag_count = refl }

one_zero : (x : ℤ) → nought ≼ x → x ≼ nought → x ≡ nought
one_zero x h k = ground arith

encode_cont_parity_example :
    (c : Columns ℤ) × (basic_features read_hour read_date line ≡ some c)
    × (encode_cont outcome config ≡ cont_row unscaled unscaled unscaled c)
encode_cont_parity_example =
    encode_cont_parity ℤ-IsOrdered read_hour read_date outcome line config unscaled unscaled
      unscaled one_zero reads spells same_impression same_scalers
