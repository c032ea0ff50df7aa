-- ===== src/Train/Networks/Rebuilt.antt =====
-- A theorem on the networks that are built from a checkpoint of train.py.
use ads_bidding_optimizer.Prelude.{ℕ, ◌≡◌, refl, Option, none, some}
use ads_bidding_optimizer.Float.{Float, nought}
use ads_bidding_optimizer.Dict.{text_key}
use ads_bidding_optimizer.Train.Networks.{
  Model, mdn_model, bins_model, Arguments, ConfigFile, Shape, Network, built_network, saved_config,
  load_model, exported_network, load_warm_start,
}

module _ {ℓ} {W : Type ℓ} where
  -- A network with another floor of its deviations, if it has one.
  pub with_floor : W → Network W → Network W
  with_floor x (Network.mdn shape k sigma_floor) = Network.mdn shape k x
  with_floor x (Network.discrete_bins shape num_bins) = Network.discrete_bins shape num_bins

  -- A bins model with another dropout; there is none for a mixture model.
  pub with_dropout : W → Network W → Option (Network W)
  with_dropout x (Network.mdn shape k sigma_floor) = none
  with_dropout x (Network.discrete_bins shape num_bins) =
      some (Network.discrete_bins (record shape { dropout = x }) num_bins)

  -- What `load_warm_start` returns of a network.
  pub with_size : Option (Network W) → Option (Network W × ℕ)
  with_size none = none
  with_size (some (Network.mdn shape k sigma_floor)) = none
  with_size (some (Network.discrete_bins shape num_bins)) =
      some (Network.discrete_bins shape num_bins, num_bins)

module _ {ℓ} {W : Type ℓ} ⦃f : Float W⦄ (cfg : ConfigFile W) (shape : Shape W) where
  abbrev AsBuilt : Arguments W → Type ℓ
  AsBuilt args =
      let net = built_network args cfg shape in
      let saved = saved_config args cfg shape in
      (load_model saved ≡ some (with_floor cfg.sigma_floor net))
      × (exported_network saved ≡ with_dropout nought net)
      × (load_warm_start saved ≡ with_size (with_dropout (f.lit 1 1) net))

  as_built : (model : Model) (args : Arguments W) → AsBuilt (record args { model = model })
  unfolding built_network saved_config load_model exported_network load_warm_start with_floor
      with_dropout with_size
  as_built mdn_model args = (refl, refl, refl)
  as_built bins_model args = (refl, refl, refl)

  loads_built :
      (model : Model) (args : Arguments W)
      → let args' : Arguments W = record args { model = model; sigma_floor = none } in
        load_model (saved_config args' cfg shape) ≡ some (built_network args' cfg shape)
  unfolding built_network saved_config load_model
  loads_built mdn_model args = refl
  loads_built bins_model args = refl

  -- From the configuration that train.py saves, evaluate.py builds the network that was trained, but
  -- with the floor of the configuration file for a mixture model, which is the one it was trained
  -- with if the command line has none; export_onnx.py and the retrainer build it with their dropout
  -- if it is a bins model, with as many bins as the retrainer goes on with, and raise if it is not.
  pub checkpoint_rebuilt :
      (args : Arguments W)
      → let net = built_network args cfg shape in
        let saved = saved_config args cfg shape in
        let args' : Arguments W = record args { sigma_floor = none } in
        (load_model saved ≡ some (with_floor cfg.sigma_floor net))
        × (load_model (saved_config args' cfg shape) ≡ some (built_network args' cfg shape))
        × (exported_network saved ≡ with_dropout nought net)
        × (load_warm_start saved ≡ with_size (with_dropout (f.lit 1 1) net))
  checkpoint_rebuilt args =
      let built = as_built args.model args in
      (built.0, loads_built args.model args, built.1, built.2)
