-- ===== src/Features/Pipeline/TagCodes.antt =====
-- A theorem on the tags that features.py writes and that retrainer/retrain.py encodes, and the table
-- of their embeddings.
use ads_bidding_optimizer.Prelude.{
  ℕ, zero, suc, ◌<◌, ◌≡◌, refl, false, Bool-cases, inl, inr, List, [], ◌∷◌, length, All, ◌==◌,
  arith,
}
use ads_bidding_optimizer.Float.{Float}
use ads_bidding_optimizer.Arrays.{Arrays}
use ads_bidding_optimizer.Dict.{Dict, Text, text_key, text_beq, count_all}
use ads_bidding_optimizer.Features.Encode.{encode, fit_tag_vocab}
use ads_bidding_optimizer.Features.Encode.Keys.{Keys, count_all-Keys}
use ads_bidding_optimizer.Features.Encode.Sizes.{encode-lt-length}
use ads_bidding_optimizer.Features.Tags.Padding.{
  known_codes, pad_to, tags_of, encode_user_tags_pads,
}
use ads_bidding_optimizer.Features.Passes.{fit_frames}
use ads_bidding_optimizer.Features.Pipeline.{
  Inter, FeatureSettings, unk_text, pad_text, counted_tags, count_rows, count_tags, fit_artifacts,
  written_row,
}
use ads_bidding_optimizer.Features.Pipeline.Codes.{fit_frames-All, saved_artifacts}

-- no tag of the row has the name '<PAD>'
abbrev pub IsNotPad : Text → Type 0
IsNotPad t = text_beq pad_text t ≡ false

abbrev pub HasNoPad {ℓ} : {W : Type ℓ} → Inter W → Type 0
HasNoPad r = All IsNotPad (counted_tags r.user_tags)

known_codes-lt :
    (vocab : Dict Text ℕ) (n : ℕ)
    → ((t : Text) → encode vocab t < n)
    → (ts : List Text) → All (λ c. c < n) (known_codes vocab ts)
unfolding known_codes
known_codes-lt vocab n below [] = tt
known_codes-lt vocab n below (t ∷ ts) = elim (Bool-cases (encode vocab t == 0)) [
  | inl unknown ↦ rw unknown (known_codes-lt vocab n below ts)
  | inr known ↦ rw known (below t, known_codes-lt vocab n below ts)
]

pad_to-lt :
    (n m : ℕ) (codes : List ℕ) → 0 < n → All (λ c. c < n) codes → All (λ c. c < n) (pad_to m codes)
unfolding pad_to
pad_to-lt n zero codes h hs = tt
pad_to-lt n (suc m) [] h hs = (h, pad_to-lt n m [] h tt)
pad_to-lt n (suc m) (c ∷ codes) h hs = (hs.0, pad_to-lt n m codes h hs.1)

module _ {ℓ} {W : Type ℓ} where
  count_rows-Keys :
      (rows : List (Inter W)) (counter : Dict Text ℕ)
      → All HasNoPad rows
      → Keys IsNotPad counter
      → Keys IsNotPad (count_rows rows counter)
  unfolding count_rows
  count_rows-Keys [] counter hs h = h
  count_rows-Keys (r ∷ rows) counter hs h =
      count_rows-Keys rows (count_all (counted_tags r.user_tags) counter) hs.1
        (count_all-Keys IsNotPad (counted_tags r.user_tags) counter hs.0 h)

  count_tags-Keys :
      (frames : List (List (Inter W))) (counter : Dict Text ℕ)
      → All (All HasNoPad) frames
      → Keys IsNotPad counter
      → Keys IsNotPad (count_tags frames counter)
  unfolding count_tags
  count_tags-Keys [] counter hs h = h
  count_tags-Keys (sub ∷ frames) counter hs h =
      count_tags-Keys frames (count_rows sub counter) hs.1 (count_rows-Keys sub counter hs.0 h)

module _ {ℓ} {W : Type ℓ} ⦃f : Float W⦄ ⦃a : Arrays W⦄ where
  -- Where no tag of the rows has the name '<PAD>', every row that features.py writes, of any file,
  -- has 10 tag codes, each of them below the size of the table of embeddings that train.py builds
  -- for the tags, so that the network can look all of them up.
  pub tag_indices-lt-size :
      (set : FeatureSettings) (cut : ℕ) (frames : List (List (Inter W)))
      → All (All HasNoPad) frames
      → (x : Inter W)
      → let art = saved_artifacts set cut frames in
        let codes = (written_row art x).tag_indices in
        (length codes ≡ 10) × All (λ c. c < art.tag_vocab_size) codes
  unfolding written_row fit_artifacts
  tag_indices-lt-size set cut frames h x =
      let counter = count_tags (fit_frames cut 0 frames) [] in
      let keys =
        count_tags-Keys (fit_frames cut 0 frames) [] (fit_frames-All HasNoPad cut 0 frames h) tt in
      let vocab = fit_tag_vocab unk_text pad_text counter 200 in
      let below : (t : Text) → encode vocab t < length vocab =
        λ t. encode-lt-length unk_text pad_text counter 200 t refl keys in
      let pads = encode_user_tags_pads vocab 10 x.user_tags in
      (
        pads.1,
        rw pads.0 (
            pad_to-lt (length vocab) 10 _ (omega (arith, below []))
              (known_codes-lt vocab (length vocab) below (tags_of x.user_tags))),
      )
