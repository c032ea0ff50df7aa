-- ===== src/Retrain/Export.antt =====
-- `export_onnx` of retrain.py: the files it writes. The calls of torch and onnx and of the file
-- system may raise; what each of them yields is given by `Calls`.
use ads_bidding_optimizer.Prelude.{
  ◌≡◌, ◌⊎◌, ◌≢◌, Bool, true, false, Option, none, some, if◌then◌else◌, arith,
}

module _ {ℓ} (Graph : Type ℓ) where
  -- the four paths that an export touches
  pub record Files : Type ℓ where
    pub out : Option Graph
    pub raw : Option Graph
    pub raw_data : Option Graph
    pub embed : Option Graph

  pub record Calls : Type ℓ where
    -- `torch.onnx.export`: the raw graph and, from newer exporters, its external data
    pub exported : Option (Graph × Option Graph)
    -- `onnx.load` of the raw graph: `none` if it raises
    pub loaded : Option Graph
    -- `onnx.save` to the temporary file: whether it wrote the whole file, and what it wrote
    pub saved : Bool
    pub partial : Option Graph
    -- `os.replace`, and `os.remove` of the two raw files
    pub replaced : Bool
    pub removed_raw : Bool
    pub removed_data : Bool

module _ {ℓ} {Graph : Type ℓ} where
  -- the files after the call, and whether it returned
  unfoldable pub remove_data : Calls Graph → Files Graph → Files Graph × Bool
  remove_data c s = elim s.raw_data [
    | none ↦ (s, true)
    | some g ↦ if c.removed_data then (record s { raw_data = none }, true) else (s, false)
  ]

  -- the loop over the raw graph and its data: what exists is removed
  unfoldable pub clean_up : Calls Graph → Files Graph → Files Graph × Bool
  clean_up c s = elim s.raw [
    | none ↦ remove_data c s
    | some g ↦ if c.removed_raw then remove_data c (record s { raw = none }) else (s, false)
  ]

  unfoldable pub save_and_replace : Calls Graph → Graph → Files Graph → Files Graph × Bool
  save_and_replace c g s =
      if c.saved
      then (if c.replaced
          then clean_up c (record s { out = some g; embed = none })
          else (record s { embed = some g }, false))
      else (record s { embed = c.partial }, false)

  unfoldable pub export_onnx : Calls Graph → Files Graph → Files Graph × Bool
  export_onnx c s = elim c.exported [
    | none ↦ (s, false)
    | some (g, external) ↦
        let s' : Files Graph = record s {
          raw = some g;
          raw_data = elim external [ none ↦ s.raw_data | some x ↦ some x ];
        } in
        elim c.loaded [ none ↦ (s', false) | some m ↦ save_and_replace c m s' ]
  ]

  -- Whatever call fails, and wherever, the model file is the old one or the whole loaded graph, and
  -- never what a failed save left behind.
  pub export_onnx_atomic :
      (c : Calls Graph) (s : Files Graph)
      → let (s', done) = export_onnx c s in
        (s'.out ≡ s.out) ⊎ ((s'.out ≡ c.loaded) × (c.loaded ≢ none) × (c.saved ≡ true))
  unfolding export_onnx save_and_replace clean_up remove_data
  export_onnx_atomic c s = ground arith

  -- An export that returns has put the whole graph in place and has left neither the raw files nor
  -- the temporary one.
  export_onnx_complete :
      (c : Calls Graph) (s : Files Graph)
      → (export_onnx c s).1 ≡ true
      → let s' = (export_onnx c s).0 in
        (s'.out ≡ c.loaded)
        × (c.loaded ≢ none)
        × (s'.raw ≡ none)
        × (s'.raw_data ≡ none)
        × (s'.embed ≡ none)
  unfolding export_onnx save_and_replace clean_up remove_data
  export_onnx_complete c s h =
      (ground arith, ground arith, ground arith, ground arith, ground arith)
