-- ===== src/Train/Networks.antt =====
-- The networks that are built: by `main` of rtb-bid-model/src/train.py from the arguments, the
-- configuration file and the artifacts, with the configuration that its checkpoint saves, and from
-- that by `load_model` of evaluate.py and of experiments/eval_ckpts_batch.py, `main` of
-- export_onnx.py, which also writes the feature configuration, and `load_model` of
-- retrainer/retrain.py. A network is what its constructor is called with, and `none` stands for a
-- call that raises. Python's `int` is an argument.
pub mod Numerals
pub mod Codes
pub mod Rebuilt
use ads_bidding_optimizer.Prelude.{
  ℕ, ◌≡◌, ◌↔◌, ap, Bool, true, false, ◌==◌, ◌>>=◌, Option, none, some, List, [], ◌∷◌, map, arith,
}
use ads_bidding_optimizer.Prelude.Int.{ℤ, pos, negsuc}
use ads_bidding_optimizer.Float.{Float, nought}
use ads_bidding_optimizer.Dict.{Key, Dict, Text, text_beq, text_beq_iff, or_default}
use ads_bidding_optimizer.Text.{split}
use ads_bidding_optimizer.Features.Encode.{vocab_size}
use ads_bidding_optimizer.Retrain.Record.{Feature, Scaler, Config, str_int}

-- a key of an encoder: the pipeline counts the numbers of a column, or its texts; '<UNK>' is a text
pub data CatKey : Type 0 where
  number : ℤ → CatKey
  name : Text → CatKey

abbrev pub same_number : ℤ → ℤ → Bool
same_number (pos a) (pos b) = a == b
same_number (negsuc a) (negsuc b) = a == b
same_number (pos a) (negsuc b) = false
same_number (negsuc a) (pos b) = false

abbrev pub same_key : CatKey → CatKey → Bool
same_key (number m) (number n) = same_number m n
same_key (name s) (name t) = text_beq s t
same_key (number m) (name t) = false
same_key (name s) (number n) = false

pub same_key_iff : (k j : CatKey) → (same_key k j ≡ true) ↔ (k ≡ j)
same_key_iff (number (pos a)) (number (pos b)) = (λ h. ground arith, λ h. ground arith)
same_key_iff (number (negsuc a)) (number (negsuc b)) = (λ h. ground arith, λ h. ground arith)
same_key_iff (number (pos a)) (number (negsuc b)) = (λ h. cc, λ h. cc)
same_key_iff (number (negsuc a)) (number (pos b)) = (λ h. cc, λ h. cc)
same_key_iff (name s) (name t) =
    (λ h. ap CatKey.name ((text_beq_iff s t).0 h), λ h. (text_beq_iff s t).1 (cc))
same_key_iff (number m) (name t) = (λ h. cc, λ h. cc)
same_key_iff (name s) (number n) = (λ h. cc, λ h. cc)

instance abbrev pub cat_key_key : Key CatKey
cat_key_key = record { same = same_key; same_iff = same_key_iff }

-- the text of a key as `json.dump` writes it
unfoldable pub json_key : CatKey → Text
json_key (number n) = str_int n
json_key (name t) = t

-- `--model`
pub data Model : Type 0 where
  mdn_model bins_model : Model

-- the arguments that say which network to build
pub record Arguments {ℓ} (W : Type ℓ) : Type ℓ where
  pub model : Model
  pub k : Option ℕ
  pub num_bins : Option ℕ
  pub hidden : Option Text
  pub dropout : Option W
  pub sigma_floor : Option W

-- the sections `mdn` and `bins` of config.yaml
pub record ConfigFile {ℓ} (W : Type ℓ) : Type ℓ where
  pub mdn_hidden : List ℤ
  pub mdn_dropout : W
  pub n_components : ℕ
  pub sigma_floor : W
  pub bins_hidden : List ℤ
  pub bins_dropout : W
  pub num_bins : ℕ

-- the artifacts of the feature pipeline
pub record Artifacts {ℓ} (W : Type ℓ) : Type ℓ where
  pub categorical_features : List Feature
  pub encoders : Feature → Dict CatKey ℕ
  pub tag_vocab : Dict Text ℕ
  pub embedding_dims : Dict Text ℕ
  pub tag_dim : ℕ
  pub tag_vocab_size : ℕ
  pub log_floor_price : Scaler W
  pub slot_area : Scaler W
  pub tag_count : Scaler W

-- the arguments that both constructors take
pub record Shape {ℓ} (W : Type ℓ) : Type ℓ where
  pub vocab_sizes : List (Feature × ℕ)
  pub emb_dims : Dict Text ℕ
  pub tag_vocab_size : ℕ
  pub tag_emb_dim : ℕ
  pub num_continuous : ℕ
  pub hidden : List ℤ
  pub dropout : W

pub data Network {ℓ} (W : Type ℓ) : Type ℓ where
  mdn : Shape W → ℕ → W → Network W
  discrete_bins : Shape W → ℕ → Network W

-- `ckpt['config']`
pub record SavedConfig {ℓ} (W : Type ℓ) : Type ℓ where
  pub model_type : Model
  pub k : Option ℕ
  pub num_bins : Option ℕ
  pub shape : Shape W
  pub sigma_floor : Option W

-- `int(x)` of each piece
unfoldable pub whole_numbers : (Text → Option ℤ) → List Text → Option (List ℤ)
whole_numbers int [] = some []
whole_numbers int (x ∷ xs) = do n ← int x; ns ← whole_numbers int xs; some (n ∷ ns)

module _ {ℓ} {W : Type ℓ} where
  unfoldable pub build_vocab_sizes : Artifacts W → List (Feature × ℕ)
  build_vocab_sizes art =
      map (λ feat. (feat, vocab_size (art.encoders feat))) art.categorical_features

  -- the lists and numbers of the configuration file for the model that is trained
  abbrev pub hidden_of : Model → ConfigFile W → List ℤ
  hidden_of mdn_model cfg = cfg.mdn_hidden
  hidden_of bins_model cfg = cfg.bins_hidden

  abbrev pub dropout_of : Model → ConfigFile W → W
  dropout_of mdn_model cfg = cfg.mdn_dropout
  dropout_of bins_model cfg = cfg.bins_dropout

  -- `hidden`, from the argument if there is one
  unfoldable pub chosen_hidden : (Text → Option ℤ) → Arguments W → ConfigFile W → Option (List ℤ)
  chosen_hidden int args cfg = elim args.hidden [
    | none ↦ some (hidden_of args.model cfg)
    | some t ↦ whole_numbers int (split 44 t)
  ]

  unfoldable pub shape_of : Arguments W → ConfigFile W → Artifacts W → ℕ → List ℤ → Shape W
  shape_of args cfg art num_continuous hidden = record {
    vocab_sizes = build_vocab_sizes art;
    emb_dims = art.embedding_dims;
    tag_vocab_size = art.tag_vocab_size;
    tag_emb_dim = art.tag_dim;
    num_continuous = num_continuous;
    hidden = hidden;
    dropout = or_default (dropout_of args.model cfg) args.dropout;
  }

  -- the network that `main` trains
  unfoldable pub built_network : Arguments W → ConfigFile W → Shape W → Network W
  built_network args cfg shape = elim args.model [
    | mdn_model ↦
        Network.mdn shape (or_default cfg.n_components args.k)
          (or_default cfg.sigma_floor args.sigma_floor)
    | bins_model ↦ Network.discrete_bins shape (or_default cfg.num_bins args.num_bins)
  ]

  -- the configuration that it saves
  unfoldable pub saved_config : Arguments W → ConfigFile W → Shape W → SavedConfig W
  saved_config args cfg shape = elim args.model [
    | mdn_model ↦ record {
      model_type = mdn_model;
      k = some (or_default cfg.n_components args.k);
      num_bins = none;
      shape = shape;
      sigma_floor = some cfg.sigma_floor;
    }
    | bins_model ↦ record {
      model_type = bins_model;
      k = none;
      num_bins = some (or_default cfg.num_bins args.num_bins);
      shape = shape;
      sigma_floor = none;
    }
  ]

  -- both, from the artifacts
  unfoldable pub build_network :
      (Text → Option ℤ)
      → Arguments W
      → ConfigFile W
      → Artifacts W
      → ℕ
      → Option (Network W × SavedConfig W)
  build_network int args cfg art num_continuous = do
    hidden ← chosen_hidden int args cfg
    let shape : Shape W = shape_of args cfg art num_continuous hidden
    some (built_network args cfg shape, saved_config args cfg shape)

  -- `load_model` of evaluate.py and of eval_ckpts_batch.py
  unfoldable pub load_model : SavedConfig W → Option (Network W)
  load_model c = elim c.model_type [
    | mdn_model ↦ do k ← c.k; sigma_floor ← c.sigma_floor; some (Network.mdn c.shape k sigma_floor)
    | bins_model ↦ do num_bins ← c.num_bins; some (Network.discrete_bins c.shape num_bins)
  ]

module _ {ℓ} {W : Type ℓ} ⦃f : Float W⦄ where
  -- the network of export_onnx.py, without dropout
  unfoldable pub exported_network : SavedConfig W → Option (Network W)
  exported_network c = do
    num_bins ← c.num_bins
    let shape : Shape W = record c.shape { dropout = nought }
    some (Network.discrete_bins shape num_bins)

  -- `load_model` of retrain.py: the network and `num_bins`
  unfoldable pub load_warm_start : SavedConfig W → Option (Network W × ℕ)
  load_warm_start c = do
    num_bins ← c.num_bins
    let shape : Shape W = record c.shape { dropout = f.lit 1 1 }
    some (Network.discrete_bins shape num_bins, num_bins)

module _ {ℓ} {W : Type ℓ} where
  -- `feat_cfg` of export_onnx.py, as far as the retrainer reads it, for encoders of which no two keys
  -- have one text
  unfoldable pub feature_config : Artifacts W → Config W
  feature_config art = record {
    cat_order = art.categorical_features;
    cat_vocabs = λ feat. map (λ kv. (json_key kv.0, kv.1)) (art.encoders feat);
    log_floor_price = art.log_floor_price;
    slot_area = art.slot_area;
    tag_count = art.tag_count;
    tag_vocab = art.tag_vocab;
    tag_max_len = 10;
  }
