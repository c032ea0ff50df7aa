-- ===== src/Features/Engineered/Parity.antt =====
-- A theorem on the continuous columns of a row in rtb-bid-model/src/features.py and dataset.py beside
-- it, and in retrainer/retrain.py.
use ads_bidding_optimizer.Prelude.{
  ℕ, zero, suc, ◌+◌, ◌-◌, ◌*◌, ◌<◌, ◌≤◌, ◌++◌, All, take, drop, take-append_le, take_all, arith,
  ◌≡◌, refl, sym, ap, ap₂, ◌∙◌, Bool-cases, inl, inr, Option, none, some, [], ◌∷◌, length, leb, ◌/◌,
  ◌%◌, if◌then◌else◌,
}
use ads_bidding_optimizer.Float.{Float, ◌⊗◌, ◌<?◌, ◌≼◌, nought, clamp_min, indicator, IsOrdered}
use ads_bidding_optimizer.Arrays.{Arrays}
use ads_bidding_optimizer.Dict.{Text}
use ads_bidding_optimizer.Optimizer.Grid.{le_of_not_lt, le_of_lt, not_lt_of_le}
use ads_bidding_optimizer.Features.Tags.Padding.{tags_of, tag_count-length}
use ads_bidding_optimizer.Retrain.Calendar.{weekday_monday0, is_date, hour_of}
use ads_bidding_optimizer.Retrain.Record.{
  Outcome, Config, standardize, cyc_sin, cyc_cos, encode_cont,
}
use ads_bidding_optimizer.Retrain.Record as Record
use ads_bidding_optimizer.Features.Engineered.{
  Line, Columns, Date, Scaler, hour_text, date_text, weekday_or_0, angle, engineered,
  basic_features, scaled, cont_row,
}

-- The number that decimal digits are read as.
abbrev pub number_from : ℕ → Text → ℕ
number_from n [] = n
number_from n (c ∷ t) = number_from (n * 10 + (c - 48)) t

abbrev pub number : Text → ℕ
number t = number_from 0 t

abbrev pub IsDigit : ℕ → Type 0
IsDigit c = (48 ≤ c) × (c < 58)

-- The day of a date YYYYMMDD, if there is such a day.
abbrev pub day_of : ℕ → Option Date
day_of date =
    let y = date / 10000 in
    let mo = date / 100 % 100 in
    let d = date % 100 in if is_date y mo d then some (y, mo, d) else none

-- How pandas reads digits: as a number, and eight of them as a date YYYYMMDD, if the year is one of
-- those that its timestamps have.
pub record ReadsDigits (int_of : Text → Option ℕ) (date_of : Text → Option Date) : Type 0 where
  pub int : (t : Text) → All IsDigit t → 0 < length t → int_of t ≡ some (number t)
  pub date :
      (t : Text)
      → All IsDigit t
      → length t ≡ 8
      → 1678 ≤ number t / 10000
      → number t / 10000 ≤ 2261
      → date_of t ≡ day_of (number t)

-- A timestamp of the log, YYYYMMDD and HH and what follows, and the number YYYYMMDDHHmmss of the
-- same time.
pub record Spells (ts : Text) (stamp : ℕ) : Type 0 where
  pub day : Text
  pub hour : Text
  pub rest : Text
  pub time : ℕ
  pub text : ts ≡ day ++ (hour ++ rest)
  pub day_length : length day ≡ 8
  pub hour_length : length hour ≡ 2
  pub day_digits : All IsDigit day
  pub hour_digits : All IsDigit hour
  pub first_year : 1678 ≤ number day / 10000
  pub last_year : number day / 10000 ≤ 2261
  pub time_below : time < 10000
  pub same_time : stamp ≡ number day * 1000000 + number hour * 10000 + time

abbrev date_in : ℕ → Option Date
date_in stamp = day_of (stamp / 1000000)

two_digits : (t : Text) → All IsDigit t → length t ≡ 2 → number t < 100
two_digits [] h e = absurd (omega arith)
two_digits (c ∷ []) h e = absurd (omega arith)
two_digits (c ∷ d ∷ []) h e = omega (arith, (h.0).0, (h.0).1, (h.1).0.0, (h.1).0.1)
two_digits (c ∷ d ∷ x ∷ t) h e = absurd (omega arith)

take-length : (xs ys : Text) (n : ℕ) → length xs ≡ n → take n (xs ++ ys) ≡ xs
take-length xs ys n e = take-append_le n xs ys (omega arith) ∙ take_all n xs (omega arith)

drop-length : (xs ys : Text) (n : ℕ) → length xs ≡ n → drop n (xs ++ ys) ≡ ys
drop-length [] ys zero e = refl
drop-length [] ys (suc n) e = absurd (omega arith)
drop-length (x ∷ xs) ys zero e = absurd (omega arith)
drop-length (x ∷ xs) ys (suc n) e = drop-length xs ys n (omega arith)

module _ (int_of : Text → Option ℕ) (date_of : Text → Option Date)
    (reads : ReadsDigits int_of date_of) (ts : Text) (stamp : ℕ) (h : Spells ts stamp) where
  -- the slices of the text are the two parts of the number
  read_hour : int_of (hour_text ts) ≡ some (hour_of stamp)
  unfolding hour_of
  read_hour =
      let slice : hour_text ts ≡ h.hour =
        ap hour_text h.text
        ∙ ap (take 2) (drop-length h.day (h.hour ++ h.rest) 8 h.day_length)
        ∙ take-length h.hour h.rest 2 h.hour_length in
      let small = two_digits h.hour h.hour_digits h.hour_length in
      ap int_of slice
      ∙ reads.int h.hour h.hour_digits (omega (arith, h.hour_length))
      ∙ ap some (omega (arith, h.same_time, h.time_below, small))

  read_date : date_of (date_text ts) ≡ date_in stamp
  read_date =
      let slice : date_text ts ≡ h.day =
        ap date_text h.text ∙ take-length h.day (h.hour ++ h.rest) 8 h.day_length in
      let small = two_digits h.hour h.hour_digits h.hour_length in
      let part : number h.day ≡ stamp / 1000000 = omega (arith, h.same_time, h.time_below, small) in
      ap date_of slice
      ∙ reads.date h.day h.day_digits h.day_length h.first_year h.last_year
      ∙ ap day_of part

-- An outcome and a line of the log that are about the same impression.
pub record SameImpression {ℓ} {W : Type ℓ} (r : Outcome W) (l : Line W) : Type ℓ where
  pub width : r.width ≡ l.slot_width
  pub height : r.height ≡ l.slot_height
  pub floor_price : r.slot_floor_price ≡ l.slot_floor_price
  pub tags : r.user_tags ≡ tags_of l.user_tags

-- A feature configuration with the scalers that pass B fitted.
pub record SameScalers {ℓ} {W : Type ℓ} (cfg : Config W) (log_floor area tags : Scaler W)
    : Type ℓ where
  pub log_floor_price : cfg.log_floor_price ≡ record { mean = log_floor.mean; std = log_floor.std }
  pub slot_area : cfg.slot_area ≡ record { mean = area.mean; std = area.std }
  pub tag_count : cfg.tag_count ≡ record { mean = tags.mean; std = tags.std }

weekday_or_0-date_in : (stamp : ℕ) → weekday_or_0 (date_in stamp) ≡ weekday_monday0 stamp
unfolding weekday_or_0 weekday_monday0
weekday_or_0-date_in stamp =
    elim (Bool-cases
      (is_date (stamp / 1000000 / 10000) (stamp / 1000000 / 100 % 100) (stamp / 1000000 % 100))) [
        | inl day ↦ rw day refl
        | inr none_such ↦ rw none_such refl
      ]

module _ {ℓ} {W : Type ℓ} ⦃f : Float W⦄ (ordered : IsOrdered W) where
  -- `clip(lower=0)` and `max(0.0, x)`
  clips_agree :
      ((x : W) → nought ≼ x → x ≼ nought → x ≡ nought)
      → (x : W) → (if nought <? x then x else nought) ≡ clamp_min nought x
  clips_agree one_zero x = elim (Bool-cases (nought <? x)) [
    | inl above ↦ rw (above, not_lt_of_le ordered x nought (le_of_lt ordered nought x above)) refl
    | inr below ↦ rw below (elim (Bool-cases (x <? nought)) [
      | inl less ↦ rw less refl
      | inr more ↦ rw more (
          sym
            (one_zero x (le_of_not_lt ordered x nought more) (le_of_not_lt ordered nought x below)))
    ])
  ]

module _ {ℓ} {W : Type ℓ} ⦃f : Float W⦄ ⦃a : Arrays W⦄ (ordered : IsOrdered W) where
  scaled_agree :
      (s : Record.Scaler W) (t : Scaler W) (x y : W)
      → s ≡ record { mean = t.mean; std = t.std }
      → x ≡ y
      → standardize s x ≡ scaled t y
  unfolding standardize scaled
  scaled_agree s t x y e h = ap₂ (λ s' x'. standardize s' x') e h

  cont_rows_agree :
      (r : Outcome W) (l : Line W) (cfg : Config W) (log_floor area tags : Scaler W)
      → ((x : W) → nought ≼ x → x ≼ nought → x ≡ nought)
      → SameImpression r l
      → SameScalers cfg log_floor area tags
      → encode_cont r cfg
        ≡ cont_row log_floor area tags (engineered l (hour_of r.stamp) (weekday_monday0 r.stamp))
  unfolding encode_cont cont_row engineered cyc_sin cyc_cos angle
  cont_rows_agree r l cfg log_floor area tags one_zero same fitted =
      ap₂ (λ x t. x ∷ t)
        (scaled_agree cfg.log_floor_price log_floor _ _ fitted.log_floor_price (
          ap (λ x. a.log1p (if nought <? x then x else nought)) same.floor_price
          ∙ ap a.log1p (clips_agree ordered one_zero l.slot_floor_price)))
        (ap₂ (λ x t. x ∷ t)
          (scaled_agree cfg.slot_area area _ _ fitted.slot_area
            (ap₂ (λ x y. x ⊗ y) same.width same.height))
          (ap₂ (λ x t. x ∷ t)
            (scaled_agree cfg.tag_count tags _ _ fitted.tag_count (
              ap (λ ts. f.of_ℕ (length ts)) same.tags
              ∙ ap f.of_ℕ (sym (tag_count-length l.user_tags))))
            (ap
              (λ x.
                indicator (nought <? x)
                ∷ indicator (leb 5 (weekday_monday0 r.stamp))
                ∷ cyc_sin (hour_of r.stamp) 24
                ∷ cyc_cos (hour_of r.stamp) 24
                ∷ cyc_sin (weekday_monday0 r.stamp) 7
                ∷ cyc_cos (weekday_monday0 r.stamp) 7
                ∷ [])
              same.floor_price)))

  -- For a line of the log and an outcome that are about the same impression, the line with the
  -- timestamp as text and the outcome with it as a number, of a year from 1678 to 2261, for readers
  -- that read digits as they are written, a configuration that has the fitted scalers, and one zero,
  -- the pipeline's columns exist, and its row of continuous features, standardized and packed, is
  -- the one that the retrainer encodes, for a timestamp with no such day too.
  pub encode_cont_parity :
      (int_of : Text → Option ℕ) (date_of : Text → Option Date) (r : Outcome W) (l : Line W)
      (cfg : Config W) (log_floor area tags : Scaler W)
      → ((x : W) → nought ≼ x → x ≼ nought → x ≡ nought)
      → ReadsDigits int_of date_of
      → Spells l.timestamp r.stamp
      → SameImpression r l
      → SameScalers cfg log_floor area tags
      → (c : Columns W) × (basic_features int_of date_of l ≡ some c)
        × (encode_cont r cfg ≡ cont_row log_floor area tags c)
  unfolding basic_features
  encode_cont_parity int_of date_of r l cfg log_floor area tags one_zero reads spells same fitted =
      (
        engineered l (hour_of r.stamp) (weekday_monday0 r.stamp),
        rw (basic_features, read_hour int_of date_of reads l.timestamp r.stamp spells)
            (ap (λ d. some (engineered l (hour_of r.stamp) (weekday_or_0 d)))
                (read_date int_of date_of reads l.timestamp r.stamp spells)
              ∙ ap (λ wd. some (engineered l (hour_of r.stamp) wd)) (weekday_or_0-date_in r.stamp)),
        cont_rows_agree r l cfg log_floor area tags one_zero same fitted,
      )
