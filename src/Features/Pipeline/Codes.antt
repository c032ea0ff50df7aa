-- ===== src/Features/Pipeline/Codes.antt =====
-- A theorem on what features.py writes and what retrainer/retrain.py encodes with its artifacts.
use ads_bidding_optimizer.Prelude.{
  ℕ, zero, suc, ◌+◌, min, ◌≡◌, refl, sym, ap₂, ◌∙◌, Bool-cases, inl, inr, List, [], ◌∷◌, map,
  length, take, All, All-map, ltb, leb, arith,
}
use ads_bidding_optimizer.Float.{Float}
use ads_bidding_optimizer.Arrays.{Arrays}
use ads_bidding_optimizer.Dict.{Dict, or_default, count_all}
use ads_bidding_optimizer.Features.Encode.{encode}
use ads_bidding_optimizer.Features.Encode.Keys.{Keys, count_all-Keys, fit_encoder-Keys}
use ads_bidding_optimizer.Features.Tags.Padding.{tags_of}
use ads_bidding_optimizer.Features.Passes.{fit_frames}
use ads_bidding_optimizer.Features.Pipeline.{
  Inter, FeatureSettings, unk_text, count_frames, fit_artifacts, written_row,
}
use ads_bidding_optimizer.Retrain.Record.{Feature, Outcome, encode_cat, encode_tags}
use ads_bidding_optimizer.Retrain.Record.Parity.{encode_tags_parity}
use ads_bidding_optimizer.Train.Networks.{
  CatKey, name, cat_key_key, Artifacts, build_vocab_sizes, feature_config,
}
use ads_bidding_optimizer.Train.Networks.Codes.{
  IsKeyOf, InBounds, value_key, codes_of, encode_cat_codes,
}

module _ {ℓ κ} {R : Type ℓ} (Q : R → Type κ) where
  All-take : (n : ℕ) (rows : List R) → All Q rows → All Q (take n rows)
  All-take zero rows h = tt
  All-take (suc n) [] h = tt
  All-take (suc n) (r ∷ rows) h = (h.0, All-take n rows h.1)

  -- the rows that are fitted on are rows of the frames
  pub fit_frames-All :
      (cut rows_seen : ℕ) (frames : List (List R))
      → All (All Q) frames
      → All (All Q) (fit_frames cut rows_seen frames)
  unfolding fit_frames
  fit_frames-All cut rows_seen [] h = tt
  fit_frames-All cut rows_seen (df ∷ dfs) h =
      let rest = fit_frames-All cut (rows_seen + length df) dfs h.1 in
      elim (Bool-cases (leb cut rows_seen)) [
        | inl over ↦ rw over tt
        | inr more ↦ elim (Bool-cases (ltb rows_seen (min (rows_seen + length df) cut))) [
          | inl some_rows ↦ rw (more, some_rows) (All-take _ df h.0, rest)
          | inr none_left ↦ rw (more, none_left) rest
        ]
      ]

module _ {ℓ} {W : Type ℓ} where
  -- The keys of a row are those that their columns can have.
  abbrev pub HasKeys : Inter W → Type 0
  HasKeys r = (feat : Feature) → IsKeyOf feat (r.key feat)

  count_frames-Keys :
      (feat : Feature) (frames : List (List (Inter W))) (counter : Dict CatKey ℕ)
      → All (All HasKeys) frames
      → Keys (IsKeyOf feat) counter
      → Keys (IsKeyOf feat) (count_frames feat frames counter)
  unfolding count_frames
  count_frames-Keys feat [] counter hs h = h
  count_frames-Keys feat (sub ∷ frames) counter hs h =
      count_frames-Keys feat frames (count_all (map (λ r. r.key feat) sub) counter) hs.1 (
        count_all-Keys (IsKeyOf feat) (map (λ r. r.key feat) sub) counter
          (All-map HasKeys (IsKeyOf feat) (λ r. r.key feat) (λ r p. p feat) sub hs.0) h)

  -- The same impression in an intermediate row and in an outcome: the values of the categorical
  -- features and the tags.
  pub record SameValues (x : Inter W) (r : Outcome W) : Type 0 where
    pub keys : (feat : Feature) → x.key feat ≡ value_key r feat
    pub tags : r.user_tags ≡ tags_of x.user_tags

module _ {ℓ} {W : Type ℓ} ⦃f : Float W⦄ ⦃a : Arrays W⦄ (set : FeatureSettings) (cut : ℕ)
    (frames : List (List (Inter W))) where
  -- The artifacts that features.py saves.
  abbrev pub saved_artifacts : Artifacts W
  saved_artifacts = fit_artifacts set cut (fit_frames cut 0 frames)

  abbrev counts : Feature → Dict CatKey ℕ
  counts feat = count_frames feat (fit_frames cut 0 frames) []

  abbrev min_counts : Feature → ℕ
  min_counts feat = or_default 0 (set.clip_min feat)

  artifacts-Keys :
      All (All HasKeys) frames
      → (feat : Feature) → Keys (IsKeyOf feat) (saved_artifacts.encoders feat)
  unfolding fit_artifacts
  artifacts-Keys h feat = fit_encoder-Keys (IsKeyOf feat) (name unk_text) _ _ (inr (omega arith)) (
      count_frames-Keys feat (fit_frames cut 0 frames) [] (fit_frames-All HasKeys cut 0 frames h)
        tt)

  same_codes :
      (x : Inter W) (r : Outcome W) (features : List Feature)
      → SameValues x r
      → codes_of saved_artifacts r features
        ≡ map (λ feat. encode (saved_artifacts.encoders feat) (x.key feat)) features
  same_codes x r [] same = refl
  same_codes x r (feat ∷ features) same =
      ap₂ (λ k cs. encode (saved_artifacts.encoders feat) k ∷ cs) (sym (same.keys feat))
        (same_codes x r features same)

  -- Where the keys of the intermediate rows are those that their columns can have, an outcome of the
  -- same impression as a row (of the training, validation or test files) gets in the retrainer, by
  -- the configuration that export_onnx.py writes from the artifacts, the codes of the categorical
  -- features and of the tags that features.py writes for the row; and the former are below the sizes
  -- of their embeddings in the network that train.py builds.
  pub pipeline_parity :
      All (All HasKeys) frames
      → (x : Inter W) (r : Outcome W) → SameValues x r
      → let cfg = feature_config saved_artifacts in
        let row = written_row saved_artifacts x in
        (encode_cat r cfg ≡ row.idx)
        × (encode_tags r cfg ≡ row.tag_indices)
        × InBounds (encode_cat r cfg) (build_vocab_sizes saved_artifacts)
  unfolding written_row
  pipeline_parity h x r same =
      let codes =
        encode_cat_codes saved_artifacts (name unk_text) counts min_counts
          (λ feat. unfold fit_artifacts in refl) (artifacts-Keys h) r in
      (
        codes.0 ∙ same_codes x r saved_artifacts.categorical_features same,
        unfold feature_config in
            encode_tags_parity r (feature_config saved_artifacts) x.user_tags same.tags,
        codes.1,
      )
