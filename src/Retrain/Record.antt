-- ===== src/Retrain/Record.antt =====
-- `encode_record` of retrain.py and the labels of `build_tensors`.
pub mod Parity
use ads_bidding_optimizer.Prelude.{
  ℕ, zero, suc, ◌+◌, ◌-◌, ◌*◌, ◌/◌, ◌%◌, Bool, List, [], ◌∷◌, map, length, replicate, leb, ◌==◌,
  if◌then◌else◌,
}
use ads_bidding_optimizer.Prelude.Int.{ℤ, pos, negsuc, ltb_ℤ}
use ads_bidding_optimizer.Float.{Float, ◌⊖◌, ◌⊗◌, ◌⊘◌, ◌<?◌, nought, unit, indicator}
use ads_bidding_optimizer.Arrays.{Arrays}
use ads_bidding_optimizer.Dict.{Dict, Text, text_key}
use ads_bidding_optimizer.Features.Encode.{encode}
use ads_bidding_optimizer.Features.Tags.{set}
use ads_bidding_optimizer.Retrain.Calendar.{hour_of, weekday_monday0}

pub data Feature : Type 0 where
  region city domain ad_exchange slot_width slot_height slot_visibility slot_format : Feature
  advertiser_id : Feature

-- one line of the outcome log
pub record Outcome {ℓ} (W : Type ℓ) : Type ℓ where
  -- the whole numbers `rec[feat]`, for all features but `domain` and `advertiser_id`
  pub number : Feature → ℤ
  pub domain_name : Text
  pub advertiser : Text
  pub slot_floor_price : W
  pub width : W
  pub height : W
  pub user_tags : List Text
  pub stamp : ℕ
  pub clearing_price : W

-- the mean and the standard deviation of one continuous column
pub record Scaler {ℓ} (W : Type ℓ) : Type ℓ where
  pub mean : W
  pub std : W

-- feature_config.json
pub record Config {ℓ} (W : Type ℓ) : Type ℓ where
  pub cat_order : List Feature
  pub cat_vocabs : Feature → Dict Text ℕ
  pub log_floor_price : Scaler W
  pub slot_area : Scaler W
  pub tag_count : Scaler W
  pub tag_vocab : Dict Text ℕ
  pub tag_max_len : ℕ

-- `str(n)` of a whole number; `n + 1` rounds are enough for its digits
unfoldable pub digits : ℕ → ℕ → Text → Text
digits zero n acc = acc
digits (suc fuel) n acc =
    let more = digits fuel (n / 10) ((48 + n % 10) ∷ acc) in
    if n / 10 == 0 then (48 + n % 10) ∷ acc else more

unfoldable pub str_int : ℤ → Text
unfolding digits
str_int (pos n) = digits (n + 1) n []
str_int (negsuc n) = 45 ∷ digits (n + 2) (n + 1) []

-- the loop over the tags: `j` codes are written to `tag_ids`
unfoldable pub tag_id_loop : Dict Text ℕ → ℕ → List Text → ℕ → List ℕ → List ℕ
tag_id_loop vocab max_len [] j tag_ids = tag_ids
tag_id_loop vocab max_len (t ∷ ts) j tag_ids =
    let tid = encode vocab t in
    let skip = tag_id_loop vocab max_len ts j tag_ids in
    let kept = tag_id_loop vocab max_len ts (j + 1) (set tag_ids j tid) in
    if leb max_len j then tag_ids else if tid == 0 then skip else kept

-- the two tests on `cp`, the rounded clearing price `int(round(float(rec["clearing_price"])))`
unfoldable pub clamp_label : ℕ → ℤ → ℤ
clamp_label num_bins cp =
    let cp' : ℤ = if ltb_ℤ cp (pos 0) then pos 0 else cp in
    let top : ℤ = elim num_bins [ zero ↦ negsuc 0 | suc m ↦ pos m ] in
    if ltb_ℤ top cp' then top else cp'

module _ {ℓ} {W : Type ℓ} where
  unfoldable pub cat_key : Outcome W → Feature → Text
  cat_key r domain = r.domain_name
  cat_key r advertiser_id = r.advertiser
  cat_key r feat = str_int (r.number feat)

  unfoldable pub encode_cat : Outcome W → Config W → List ℕ
  encode_cat r cfg = map (λ feat. encode (cfg.cat_vocabs feat) (cat_key r feat)) cfg.cat_order

  unfoldable pub encode_tags : Outcome W → Config W → List ℕ
  encode_tags r cfg =
      tag_id_loop cfg.tag_vocab cfg.tag_max_len r.user_tags 0 (replicate cfg.tag_max_len 0)

module _ {ℓ} {W : Type ℓ} ⦃f : Float W⦄ where
  unfoldable pub standardize : Scaler W → W → W
  standardize s x = (x ⊖ s.mean) ⊘ s.std

module _ {ℓ} {W : Type ℓ} ⦃f : Float W⦄ ⦃a : Arrays W⦄ where
  -- sin and cos of 2·pi·x / period
  unfoldable pub cyc_sin : ℕ → ℕ → W
  cyc_sin x period = a.sin (f.lit 2 0 ⊗ a.pi ⊗ f.of_ℕ x ⊘ f.of_ℕ period)

  unfoldable pub cyc_cos : ℕ → ℕ → W
  cyc_cos x period = a.cos (f.lit 2 0 ⊗ a.pi ⊗ f.of_ℕ x ⊘ f.of_ℕ period)

  unfoldable pub encode_cont : Outcome W → Config W → List W
  encode_cont r cfg =
      let floor = if nought <? r.slot_floor_price then r.slot_floor_price else nought in
      let hour = hour_of r.stamp in
      let wd = weekday_monday0 r.stamp in
      standardize cfg.log_floor_price (a.log1p floor)
      ∷ standardize cfg.slot_area (r.width ⊗ r.height)
      ∷ standardize cfg.tag_count (f.of_ℕ (length r.user_tags))
      ∷ indicator (nought <? r.slot_floor_price)
      ∷ indicator (leb 5 wd)
      ∷ cyc_sin hour 24
      ∷ cyc_cos hour 24
      ∷ cyc_sin wd 7
      ∷ cyc_cos wd 7
      ∷ []
