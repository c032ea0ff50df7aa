-- ===== src/Train/Networks/Codes.antt =====
-- A theorem on the codes of categorical features: those that the retrainer gives to an outcome by the
-- configuration that export_onnx.py writes, and those of the pipeline.
use ads_bidding_optimizer.Prelude.{
  ℕ, ◌<◌, ◌≡◌, ◌≢◌, ◌⊎◌, refl, ap, ap₂, sym, inl, inr, Bool, true, false, List, [], ◌∷◌, map, All,
  arith,
}
use ads_bidding_optimizer.Prelude.Int.{ℤ}
use ads_bidding_optimizer.Dict.{Dict, Text, text_key, text_beq, text_beq_iff, lookup}
use ads_bidding_optimizer.Features.Encode.{fit_encoder, encode, vocab_size}
use ads_bidding_optimizer.Features.Encode.Codes.{fit_encoder_codes}
use ads_bidding_optimizer.Retrain.Record.{
  Feature, domain, advertiser_id, Outcome, cat_key, encode_cat, str_int,
}
use ads_bidding_optimizer.Train.Networks.{
  CatKey, number, name, same_key, same_key_iff, cat_key_key, json_key, Artifacts, build_vocab_sizes,
  feature_config,
}
use ads_bidding_optimizer.Train.Networks.Numerals.{first, str_int-first, str_int-injective}

-- The value of a feature as the pipeline reads it from the same impression: the domain and the
-- advertiser as text, the others as numbers.
abbrev pub value_key {ℓ} : {W : Type ℓ} → Outcome W → Feature → CatKey
value_key r domain = name r.domain_name
value_key r advertiser_id = name r.advertiser
value_key r feat = number (r.number feat)

-- the columns of text
abbrev pub is_text : Feature → Bool
is_text domain = true
is_text advertiser_id = true
is_text feat = false

-- The keys that a column of the feature can have: texts or numbers, and '<UNK>', which like every
-- text that begins with a character after the digits is no number's.
abbrev pub IsKeyOf : Feature → CatKey → Type 0
IsKeyOf feat (number n) = is_text feat ≡ false
IsKeyOf feat (name t) = (is_text feat ≡ true) ⊎ (57 < first t)

-- two keys of which JSON makes different texts if they are different
abbrev TellsApart : CatKey → CatKey → Type 0
TellsApart k j = text_beq (json_key j) (json_key k) ≡ same_key j k

both_ways : (a b : Bool) → (a ≡ true → b ≡ true) → (b ≡ true → a ≡ true) → a ≡ b
both_ways true b there back = sym (there refl)
both_ways false true there back = back refl
both_ways false false there back = refl

numbers-TellsApart : (m n : ℤ) → TellsApart (number m) (number n)
unfolding json_key
numbers-TellsApart m n =
    both_ways _ _
      (λ h.
        (same_key_iff (number n) (number m)).1
          (ap number (str_int-injective n m ((text_beq_iff (str_int n) (str_int m)).0 h))))
      (λ h.
        (text_beq_iff (str_int n) (str_int m)).1
          (ap json_key ((same_key_iff (number n) (number m)).0 h)))

no_number : (m : ℤ) (t : Text) → 57 < first t → t ≢ str_int m
no_number m t h same = absurd (omega (arith, str_int-first m, ap first same))

keys-TellsApart : (feat : Feature) (k j : CatKey) → IsKeyOf feat k → IsKeyOf feat j → TellsApart k j
unfolding json_key
keys-TellsApart feat (number m) (number n) hk hj = numbers-TellsApart m n
keys-TellsApart feat (name s) (name t) hk hj = refl
keys-TellsApart feat (number m) (name t) hk (inl text) = absurd (cc)
keys-TellsApart feat (number m) (name t) hk (inr h) =
    both_ways _ _ (λ e. absurd (no_number m t h ((text_beq_iff t (str_int m)).0 e)))
      (λ e. absurd (cc))
keys-TellsApart feat (name t) (number m) (inl text) hj = absurd (cc)
keys-TellsApart feat (name t) (number m) (inr h) hj =
    both_ways _ _ (λ e. absurd (no_number m t h (sym ((text_beq_iff (str_int m) t).0 e))))
      (λ e. absurd (cc))

lookup-json :
    (k : CatKey) (d : Dict CatKey ℕ)
    → All (λ kv. TellsApart k kv.0) d
    → lookup (json_key k) (map (λ kv. (json_key kv.0, kv.1)) d) ≡ lookup k d
unfolding lookup
lookup-json k [] h = refl
lookup-json k ((j, v) ∷ d) h = rw (h.0, lookup-json k d h.1) refl

lookup_at :
    (feat : Feature) (k : CatKey) (d : Dict CatKey ℕ)
    → IsKeyOf feat k
    → All (λ kv. IsKeyOf feat kv.0) d
    → lookup (json_key k) (map (λ kv. (json_key kv.0, kv.1)) d) ≡ lookup k d
lookup_at feat k d hk h = lookup-json k d (All-TellsApart d h)
  where
    All-TellsApart :
        (l : Dict CatKey ℕ) → All (λ kv. IsKeyOf feat kv.0) l → All (λ kv. TellsApart k kv.0) l
    All-TellsApart [] h = tt
    All-TellsApart ((j, v) ∷ l) h = (keys-TellsApart feat k j hk h.0, All-TellsApart l h.1)

-- One code for each feature, and each of them below the size that the feature has.
abbrev pub InBounds : List ℕ → List (Feature × ℕ) → Type 0
InBounds [] [] = Unit
InBounds (c ∷ codes) ((feat, size) ∷ sizes) = (c < size) × InBounds codes sizes
InBounds _ _ = ⊥

module _ {ℓ} {W : Type ℓ} where
  value_key-IsKeyOf : (r : Outcome W) (feat : Feature) → IsKeyOf feat (value_key r feat)
  value_key-IsKeyOf r domain = inl refl
  value_key-IsKeyOf r advertiser_id = inl refl
  value_key-IsKeyOf r feat = refl

  cat_key-eq-json_key :
      (r : Outcome W) (feat : Feature) → cat_key r feat ≡ json_key (value_key r feat)
  unfolding cat_key json_key
  cat_key-eq-json_key r domain = refl
  cat_key-eq-json_key r advertiser_id = refl
  cat_key-eq-json_key r feat = refl

  -- The codes of an outcome, as the pipeline gives them.
  abbrev pub codes_of : Artifacts W → Outcome W → List Feature → List ℕ
  codes_of art r features = map (λ feat. encode (art.encoders feat) (value_key r feat)) features

  encode_cat-eq-codes_of :
      (art : Artifacts W) (r : Outcome W)
      → ((feat : Feature) → All (λ kv. IsKeyOf feat kv.0) (art.encoders feat))
      → encode_cat r (feature_config art) ≡ codes_of art r art.categorical_features
  unfolding encode_cat feature_config encode
  encode_cat-eq-codes_of art r keys = same art.categorical_features
    where
      one :
          (feat : Feature)
          → encode (map (λ kv. (json_key kv.0, kv.1)) (art.encoders feat)) (cat_key r feat)
            ≡ encode (art.encoders feat) (value_key r feat)
      one feat =
          rw
            (
              cat_key-eq-json_key r feat,
              lookup_at feat (value_key r feat) (art.encoders feat) (value_key-IsKeyOf r feat)
                  (keys feat),
            )
            refl

      same :
          (features : List Feature)
          → map
              (λ feat.
                encode (map (λ kv. (json_key kv.0, kv.1)) (art.encoders feat)) (cat_key r feat))
              features
            ≡ codes_of art r features
      same [] = refl
      same (feat ∷ features) = ap₂ (λ c cs. c ∷ cs) (one feat) (same features)

  codes_of-InBounds :
      (art : Artifacts W) (unk : CatKey) (counts : Feature → Dict CatKey ℕ)
      (min_count : Feature → ℕ)
      → ((feat : Feature) → art.encoders feat ≡ fit_encoder unk (counts feat) (min_count feat))
      → (r : Outcome W) (features : List Feature)
      → InBounds
          (codes_of art r features)
          (map (λ feat. (feat, vocab_size (art.encoders feat))) features)
  codes_of-InBounds art unk counts min_count fitted r [] = tt
  codes_of-InBounds art unk counts min_count fitted r (feat ∷ features) = (
    rw (fitted feat) (
        omega (arith, (fit_encoder_codes unk (counts feat) (min_count feat) (value_key r feat)).0)),
    codes_of-InBounds art unk counts min_count fitted r features,
  )

  -- For encoders that the pipeline has fitted, whose keys are those that their columns can have, the
  -- retrainer gives every outcome, by the configuration that export_onnx.py writes, the codes that
  -- the pipeline gives to the values of the same impression, though most of the keys are numbers
  -- there and texts in the configuration; and each code is below the size of the embedding of its
  -- feature in the network that train.py builds.
  pub encode_cat_codes :
      (art : Artifacts W) (unk : CatKey) (counts : Feature → Dict CatKey ℕ)
      (min_count : Feature → ℕ)
      → ((feat : Feature) → art.encoders feat ≡ fit_encoder unk (counts feat) (min_count feat))
      → ((feat : Feature) → All (λ kv. IsKeyOf feat kv.0) (art.encoders feat))
      → (r : Outcome W)
      → (encode_cat r (feature_config art) ≡ codes_of art r art.categorical_features)
        × InBounds (encode_cat r (feature_config art)) (build_vocab_sizes art)
  unfolding build_vocab_sizes
  encode_cat_codes art unk counts min_count fitted keys r =
      let same = encode_cat-eq-codes_of art r keys in
      (same, rw same (codes_of-InBounds art unk counts min_count fitted r art.categorical_features))
