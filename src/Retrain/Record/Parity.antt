-- ===== src/Retrain/Record/Parity.antt =====
-- Theorems on the tags and the labels of retrainer/retrain.py, beside those of the feature pipeline.
use ads_bidding_optimizer.Prelude.{
  true, ◌⊎◌, ℕ, zero, suc, ◌+◌, ◌-◌, ◌<◌, ◌≤◌, ◌≡◌, refl, sym, ◌∙◌, ap, List, [], ◌∷◌, ◌++◌, length,
  replicate, ◌==◌, arith,
}
use ads_bidding_optimizer.Prelude.Int.{ℤ, ltb_ℤ, pos, ◌≤ℤ◌}
use ads_bidding_optimizer.Dict.{Dict, Text, text_key}
use ads_bidding_optimizer.Features.Encode.{encode}
use ads_bidding_optimizer.Features.Tags.{encode_user_tags}
use ads_bidding_optimizer.Features.Tags.Padding.{
  tags_of, known_codes, pad_to, pad_to-nil, length-snoc, tag_round, round-pads,
  encode_user_tags_pads,
}
use ads_bidding_optimizer.Retrain.Record.{Outcome, Config, tag_id_loop, encode_tags, clamp_label}

module _ (vocab : Dict Text ℕ) (max_len : ℕ) where
  loop_next :
      (t : Text) (ts : List Text) (j : ℕ) (row : List ℕ)
      → j < max_len
      → tag_id_loop vocab max_len (t ∷ ts) j row
        ≡ tag_round
            (encode vocab t == 0)
            (λ r k. tag_id_loop vocab max_len ts k r)
            row
            j
            (encode vocab t)
  unfolding tag_id_loop
  loop_next t ts j row h = ground arith

  loop_full :
      (t : Text) (ts : List Text) (j : ℕ) (row : List ℕ)
      → max_len ≤ j
      → tag_id_loop vocab max_len (t ∷ ts) j row ≡ row
  unfolding tag_id_loop
  loop_full t ts j row h = ground arith

  tag_id_loop-pads :
      (m : ℕ) (ts : List Text) (j : ℕ) (pre : List ℕ)
      → length pre ≡ j
      → j + m ≡ max_len
      → tag_id_loop vocab max_len ts j (pre ++ replicate m 0)
        ≡ pre ++ pad_to m (known_codes vocab ts)
  unfolding known_codes
  tag_id_loop-pads m [] j pre len room = unfold tag_id_loop in ap (λ t. pre ++ t) (pad_to-nil m)
  tag_id_loop-pads zero (t ∷ ts) j pre len room =
      loop_full t ts j (pre ++ []) (omega arith) ∙ (unfold pad_to in refl)
  tag_id_loop-pads (suc m) (t ∷ ts) j pre len room =
      loop_next t ts j (pre ++ replicate (suc m) 0) (omega arith)
      ∙ round-pads (encode vocab t == 0) (λ r k. tag_id_loop vocab max_len ts k r)
          (known_codes vocab ts) pre m j (encode vocab t) len
          (tag_id_loop-pads (suc m) ts j pre len room)
          (tag_id_loop-pads m ts (j + 1) (pre ++ (encode vocab t ∷ []))
            (length-snoc pre (encode vocab t) ∙ ap (λ n. n + 1) len) (omega arith))

-- An outcome whose tags are those of a log field gets the tag codes that the training pipeline
-- gives the field, for every vocabulary and every length of the array.
pub encode_tags_parity {ℓ} :
    {W : Type ℓ} (r : Outcome W) (cfg : Config W) (s : Text)
    → r.user_tags ≡ tags_of s
    → encode_tags r cfg ≡ encode_user_tags s cfg.tag_vocab cfg.tag_max_len
unfolding encode_tags
encode_tags_parity r cfg s same =
    tag_id_loop-pads cfg.tag_vocab cfg.tag_max_len cfg.tag_max_len r.user_tags 0 [] refl
      (omega arith)
    ∙ ap (λ ts. pad_to cfg.tag_max_len (known_codes cfg.tag_vocab ts)) same
    ∙ sym ((encode_user_tags_pads cfg.tag_vocab cfg.tag_max_len s).0)

-- With at least one bin, the label of a rounded price is a bin, from 0 to `num_bins - 1`, and it is
-- the price itself, or the first bin for a negative price, or the last bin for a price above it.
pub clamp_label_bounds :
    (num_bins : ℕ) (cp : ℤ)
    → 0 < num_bins
    → (pos 0 ≤ℤ clamp_label num_bins cp)
      × (clamp_label num_bins cp ≤ℤ pos (num_bins - 1))
      × ((clamp_label num_bins cp ≡ cp)
          ⊎ ((clamp_label num_bins cp ≡ pos 0) × (ltb_ℤ cp (pos 0) ≡ true))
          ⊎ ((clamp_label num_bins cp ≡ pos (num_bins - 1))
              × (ltb_ℤ (pos (num_bins - 1)) cp ≡ true)))
unfolding clamp_label
clamp_label_bounds zero cp h = absurd (omega arith)
clamp_label_bounds (suc m) cp h =
    let e : suc m - 1 ≡ m = omega arith in rw e (ground arith, ground arith, ground arith)
