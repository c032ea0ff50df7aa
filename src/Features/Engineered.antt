-- ===== src/Features/Engineered.antt =====
-- `basic_features_inplace` of features.py for one row, the sums of pass B of `main` and the scalers
-- that are fitted on them, and the continuous columns of a row as pass C standardizes them and
-- dataset.py packs them. pandas's conversions of text are arguments: a number that is not one raises,
-- a date that is not one is none.
pub mod Parity
use ads_bidding_optimizer.Prelude.{
  ℕ, ◌-◌, Option, none, some, List, [], ◌∷◌, map, take, drop, leb, if◌then◌else◌,
}
use ads_bidding_optimizer.Float.{
  Float, ◌⊕◌, ◌⊖◌, ◌⊗◌, ◌⊘◌, ◌<?◌, nought, unit, indicator, clamp_min,
}
use ads_bidding_optimizer.Arrays.{Arrays}
use ads_bidding_optimizer.Dict.{Text}
use ads_bidding_optimizer.Features.Tags.{tag_count}
use ads_bidding_optimizer.Retrain.Calendar.{weekday}

-- a row of the log, its numeric columns converted already
pub record Line {ℓ} (W : Type ℓ) : Type ℓ where
  pub timestamp : Text
  pub user_tags : Text
  pub slot_width : W
  pub slot_height : W
  pub slot_floor_price : W
  pub payprice : W

-- the columns that are added
pub record Columns {ℓ} (W : Type ℓ) : Type ℓ where
  pub hour_sin : W
  pub hour_cos : W
  pub weekday_sin : W
  pub weekday_cos : W
  pub is_weekend : W
  pub slot_area : W
  pub has_floor_price : W
  pub log_floor_price : W
  pub tag_total : W
  pub log_payprice : W

-- `(y, mo, d)`
abbrev pub Date : Type 0
Date = ℕ × ℕ × ℕ

-- `ts.str.slice(8, 10)` and `ts.str.slice(0, 8)`
abbrev pub hour_text : Text → Text
hour_text ts = take 2 (drop 8 ts)

abbrev pub date_text : Text → Text
date_text ts = take 8 ts

-- `dts.dt.weekday.fillna(0)`
unfoldable pub weekday_or_0 : Option Date → ℕ
weekday_or_0 none = 0
weekday_or_0 (some (y, mo, d)) = weekday y mo d

-- the running sums of a column in pass B
pub record Sums {ℓ} (W : Type ℓ) : Type ℓ where
  pub sum : W
  pub sum_sq : W

-- a column's mean and standard deviation
pub record Scaler {ℓ} (W : Type ℓ) : Type ℓ where
  pub mean : W
  pub std : W

module _ {ℓ} {W : Type ℓ} ⦃f : Float W⦄ ⦃a : Arrays W⦄ where
  -- `2.0 * math.pi * x / period`
  unfoldable pub angle : ℕ → W → W
  angle x period = f.lit 2 0 ⊗ a.pi ⊗ f.of_ℕ x ⊘ period

  -- the new columns of a row, for its hour and its weekday
  unfoldable pub engineered : Line W → ℕ → ℕ → Columns W
  engineered l hour wd = record {
    hour_sin = a.sin (angle hour (f.of_ℕ 24));
    hour_cos = a.cos (angle hour (f.of_ℕ 24));
    weekday_sin = a.sin (angle wd (f.of_ℕ 7));
    weekday_cos = a.cos (angle wd (f.of_ℕ 7));
    is_weekend = indicator (leb 5 wd);
    slot_area = l.slot_width ⊗ l.slot_height;
    has_floor_price = indicator (nought <? l.slot_floor_price);
    log_floor_price = a.log1p (clamp_min nought l.slot_floor_price);
    tag_total = f.of_ℕ (tag_count l.user_tags);
    log_payprice = a.log (clamp_min unit l.payprice);
  }

  -- `none` where the hour is no number
  unfoldable pub basic_features :
      (Text → Option ℕ) → (Text → Option Date) → Line W → Option (Columns W)
  basic_features int_of date_of l = elim (int_of (hour_text l.timestamp)) [
    | none ↦ none
    | some hour ↦ some (engineered l hour (weekday_or_0 (date_of (date_text l.timestamp))))
  ]

  -- `sum += float(v.sum())`, `sum_sq += float((v * v).sum())`
  unfoldable pub add_values : List W → Sums W → Sums W
  add_values v s = record { sum = s.sum ⊕ a.sum v; sum_sq = s.sum_sq ⊕ a.sum (map (λ x. x ⊗ x) v) }

  -- the loop over the frames of the training rows, for one column
  unfoldable pub add_frames : (Columns W → W) → List (List (Columns W)) → Sums W → Sums W
  add_frames column [] s = s
  add_frames column (sub ∷ frames) s = add_frames column frames (add_values (map column sub) s)

  -- the mean, and the square root of `max(least, sum_sq / n_train - mean ** 2)`
  unfoldable pub fit_scaler : W → ℕ → Sums W → Scaler W
  fit_scaler least n_train s =
      let mean = s.sum ⊘ f.of_ℕ n_train in
      let var = s.sum_sq ⊘ f.of_ℕ n_train ⊖ mean ⊗ mean in
      record { mean = mean; std = a.sqrt (if least <? var then var else least) }

  -- the scalers of the three standardized columns, and those of `log_payprice`
  unfoldable pub column_scaler : (Columns W → W) → ℕ → List (List (Columns W)) → Scaler W
  column_scaler column n_train frames =
      fit_scaler (f.lit 1 9) n_train
        (add_frames column frames (record { sum = nought; sum_sq = nought }))

  unfoldable pub payprice_scaler : ℕ → List (List (Columns W)) → Scaler W
  payprice_scaler n_train frames =
      fit_scaler nought n_train
        (add_frames (λ c. c.log_payprice) frames (record { sum = nought; sum_sq = nought }))

  -- `(x - cont_mean[c]) / cont_std[c]`
  unfoldable pub scaled : Scaler W → W → W
  scaled s x = (x ⊖ s.mean) ⊘ s.std

  -- the row of `cont_arr`: the standardized columns, the indicators, the cyclic columns
  unfoldable pub cont_row : Scaler W → Scaler W → Scaler W → Columns W → List W
  cont_row log_floor area tags c =
      scaled log_floor c.log_floor_price
      ∷ scaled area c.slot_area
      ∷ scaled tags c.tag_total
      ∷ c.has_floor_price
      ∷ c.is_weekend
      ∷ c.hour_sin
      ∷ c.hour_cos
      ∷ c.weekday_sin
      ∷ c.weekday_cos
      ∷ []
