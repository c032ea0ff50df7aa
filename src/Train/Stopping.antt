-- ===== src/Train/Stopping.antt =====
-- Theorems on the epochs of rtb-bid-model/src/train.py: the checkpoint and early stopping.
use ads_bidding_optimizer.Prelude.{
  ℕ, zero, suc, ◌+◌, ◌≤◌, ◌<◌, ◌≡◌, refl, ap, ◌∙◌, Bool, true, false, Option, none, some, List, [],
  ◌∷◌, All, leb→le, ◌⊎◌, Bool-cases, inl, inr, if◌then◌else◌, length, arith,
}
use ads_bidding_optimizer.Float.{Float, ◌⊖◌, ◌≤?◌, ◌<?◌, ◌≼◌, IsOrdered, IsRounded}
use ads_bidding_optimizer.Optimizer.Grid.{le_of_not_lt, le_of_lt}
use ads_bidding_optimizer.Train.{
  Params, Shadow, snapshot, copy_to, restored, Checkpoint, Progress, least, end_epoch, run_epochs,
}
use ads_bidding_optimizer.Train.Swap.{IsNamed, restored-snapshot}

-- The saved weights are those whose validation loss was the best one; nothing is saved only before
-- the first epoch, when the best loss is infinite.
abbrev pub Saved {ℓ} :
    {W : Type ℓ} ⦃f : Float W⦄ → (Params W → W) → W → W → List W → Option (Checkpoint W) → Type ℓ
Saved evaluate infinity best_val losses none = (best_val ≡ infinity) × (losses ≡ [])
Saved evaluate infinity best_val losses (some c) =
    (c.val_loss ≡ best_val) × (evaluate c.weights ≼ c.val_loss) × (c.val_loss ≼ evaluate c.weights)

-- No epoch so far had a validation loss below the best one less 1e-5.
abbrev pub Unbeaten {ℓ} : {W : Type ℓ} ⦃f : Float W⦄ → W → List W → Type 0
Unbeaten ⦃f⦄ best_val losses = All (λ v. (best_val ⊖ f.lit 1 5) ≼ v) losses

pub record IsTracked {W : Type 0} ⦃f : Float W⦄ (evaluate : Params W → W) (infinity : W)
    (t : Progress W) : Type 0 where
  pub unbeaten : Unbeaten t.best_val t.losses
  pub saved : Saved evaluate infinity t.best_val t.losses t.best

-- How training ends: with a good checkpoint, after all epochs or out of patience.
abbrev pub Ended :
    {W : Type 0} ⦃f : Float W⦄ → (Params W → W) → W → ℕ → ℕ → Progress W → Progress W → Type 0
Ended evaluate infinity patience left t r =
    IsTracked evaluate infinity r
    × ((length r.losses ≡ length t.losses + left) ⊎ (patience ≤ r.bad))

pub later_end :
    (left n n' total : ℕ) (P : Type 0)
    → (total ≡ n' + left) ⊎ P
    → n' ≡ n + 1
    → (total ≡ n + suc left) ⊎ P
later_end left n n' total P (inl all_run) e = inl (omega arith)
later_end left n n' total P (inr stopped) e = inr stopped

module _ {W : Type 0} ⦃f : Float W⦄ (ordered : IsOrdered W) (rounded : IsRounded W)
    (evaluate : Params W → W) (infinity : W)
    (finite : (m : Params W) → (evaluate m <? (infinity ⊖ f.lit 1 5)) ≡ true) (patience : ℕ) where
  open ordered use {le_refl, le_trans, lt-eq-not-le}

  raised : (b b' : W) (vs : List W) → b' ≼ b → Unbeaten b vs → Unbeaten b' vs
  raised b b' [] h u = tt
  raised b b' (v ∷ vs) h u =
      (le_trans _ _ v (rounded.sub_mono_left b' b (f.lit 1 5) h) u.0, raised b b' vs h u.1)

  -- an improvement lowers the best loss
  improved_le : (v best : W) → (v <? (best ⊖ f.lit 1 5)) ≡ true → v ≼ best
  improved_le v best h =
      le_trans v _ best (le_of_lt ordered v _ h)
        (rounded.sub_le_self best (f.lit 1 5) (rounded.lit_nonneg 1 5))

  least_of :
      (r e : W) (b : Bool)
      → (e ≤? r) ≡ b
      → let w = if b then e else r in (w ≼ least r e) × (least r e ≼ w)
  least_of r e true h =
      (ground (arith, le_refl e), ground (arith, le_refl e, le_of_not_lt ordered e r))
  least_of r e false h = (
    ground (arith, le_refl r, lt-eq-not-le e r, ordered.le_total r e),
    ground (arith, le_refl r, le_of_lt ordered e r, lt-eq-not-le r e, ordered.le_total r e),
  )

  -- the weights of the smaller loss have the smaller loss
  chosen :
      (raw ema : Params W) (b : Bool)
      → (evaluate ema ≤? evaluate raw) ≡ b
      → let w = if b then ema else raw in
        (evaluate w ≼ least (evaluate raw) (evaluate ema))
        × (least (evaluate raw) (evaluate ema) ≼ evaluate w)
  chosen raw ema true h = least_of (evaluate raw) (evaluate ema) true h
  chosen raw ema false h = least_of (evaluate raw) (evaluate ema) false h

  -- The validation loss of the epoch that ends.
  abbrev epoch_loss : Progress W → W
  epoch_loss t = least (evaluate t.model) (evaluate (copy_to t.shadow t.model))

  -- `m` stands for the model after the weights of the backup are copied in again
  saved_weights :
      (t : Progress W) (m : Params W)
      → m ≡ t.model
      → let w =
          if evaluate (copy_to t.shadow t.model) ≤? evaluate t.model
          then copy_to t.shadow m
          else m in
        (evaluate w ≼ epoch_loss t) × (epoch_loss t ≼ evaluate w)
  saved_weights t m e = rw e (chosen t.model (copy_to t.shadow t.model) _ refl)

  epoch_loss_finite : (t : Progress W) → (epoch_loss t <? (infinity ⊖ f.lit 1 5)) ≡ true
  epoch_loss_finite t =
      elim (Bool-cases (evaluate (copy_to t.shadow t.model) <? evaluate t.model)) [
        | inl averaged ↦ rw averaged (finite (copy_to t.shadow t.model))
        | inr raw ↦ rw raw (finite t.model)
      ]

  -- an epoch with no improvement comes after one that was saved
  kept_saved :
      (best_val v : W) (losses : List W) (best : Option (Checkpoint W))
      → (v <? (infinity ⊖ f.lit 1 5)) ≡ true
      → (v <? (best_val ⊖ f.lit 1 5)) ≡ false
      → Saved evaluate infinity best_val losses best
      → Saved evaluate infinity best_val (v ∷ losses) best
  kept_saved best_val v losses none below above h =
      let same = ap (λ x. v <? (x ⊖ f.lit 1 5)) h.0 in absurd (cc)
  kept_saved best_val v losses (some c) below above h = h

  pub end_epoch-IsTracked :
      (t : Progress W)
      → IsNamed t.model
      → IsTracked evaluate infinity t
      → IsTracked evaluate infinity (end_epoch evaluate patience t).0
  unfolding end_epoch
  end_epoch-IsTracked t named h = elim (Bool-cases (epoch_loss t <? (t.best_val ⊖ f.lit 1 5))) [
    | inl better ↦ rw better (record {
      unbeaten = (
        rounded.sub_le_self _ _ (rounded.lit_nonneg 1 5),
        raised t.best_val (epoch_loss t) t.losses (improved_le _ _ better) h.unbeaten,
      );
      saved =
          let kept = saved_weights t _ (restored-snapshot t.model t.shadow named) in
          (refl, kept.0, kept.1);
    })
    | inr worse ↦ rw worse (record {
      unbeaten = (le_of_not_lt ordered _ _ worse, h.unbeaten);
      saved =
          kept_saved t.best_val (epoch_loss t) t.losses t.best (epoch_loss_finite t) worse h.saved;
    })
  ]

  -- after an epoch there is a checkpoint
  pub checkpoint_saved :
      (n : ℕ) (t : Progress W)
      → IsTracked evaluate infinity t
      → n < length t.losses
      → (c : Checkpoint W) × (t.best ≡ some c)
  checkpoint_saved n t h some_epochs = saved_checkpoint t.best t.losses h.saved some_epochs
    where
      saved_checkpoint :
          (best : Option (Checkpoint W)) (losses : List W)
          → Saved evaluate infinity t.best_val losses best
          → n < length losses
          → (c : Checkpoint W) × (best ≡ some c)
      saved_checkpoint none losses h some_epochs =
          absurd (omega (arith, some_epochs, ap length h.1))
      saved_checkpoint (some c) losses h some_epochs = (c, refl)

  model_after :
      (backup shadow : Shadow W) (m m' : Params W) (b : Bool)
      → restored backup shadow m ≡ m
      → m' ≡ m
      → (if b then restored backup shadow m' else m') ≡ m
  model_after backup shadow m m' true e e' = ap (restored backup shadow) e' ∙ e
  model_after backup shadow m m' false e e' = e'

  -- The weights that go into the next epoch are those that the optimizer left: neither the
  -- validation of the averaged weights nor the saving of a checkpoint changes the model.
  pub end_epoch-model :
      (t : Progress W) → IsNamed t.model → (end_epoch evaluate patience t).0.model ≡ t.model
  unfolding end_epoch
  end_epoch-model t named =
      let same = restored-snapshot t.model t.shadow named in
      elim (Bool-cases (epoch_loss t <? (t.best_val ⊖ f.lit 1 5))) [
        | inl better ↦ rw better (model_after (snapshot t.model) t.shadow t.model _ _ same same)
        | inr worse ↦ rw worse same
      ]

  pub length-end_epoch :
      (t : Progress W) → length (end_epoch evaluate patience t).0.losses ≡ length t.losses + 1
  unfolding end_epoch
  length-end_epoch t = elim (Bool-cases (epoch_loss t <? (t.best_val ⊖ f.lit 1 5))) [
    | inl better ↦ rw better (omega arith)
    | inr worse ↦ rw worse (omega arith)
  ]

  pub stops_patient :
      (t : Progress W)
      → (end_epoch evaluate patience t).1 ≡ true
      → patience ≤ (end_epoch evaluate patience t).0.bad
  unfolding end_epoch
  stops_patient t = elim (Bool-cases (epoch_loss t <? (t.best_val ⊖ f.lit 1 5))) [
    | inl better ↦ rw better (λ h. absurd (cc))
    | inr worse ↦ rw worse (λ h. leb→le patience (t.bad + 1) h)
  ]

  module _ (fit : ℕ → Params W → Shadow W → Params W × Shadow W)
      (fit-IsNamed : (epoch : ℕ) (m : Params W) (s : Shadow W)
        → IsNamed m
        → IsNamed (fit epoch m s).0) where
    -- Training ends with a checkpoint of the best epoch: no epoch that was run had a validation
    -- loss below the best one less 1e-5, and the saved weights, averaged or not, are those
    -- whose validation loss is the best one. It has run all the epochs that were left, or has
    -- stopped after at least `patience` epochs with no improvement.
    run_epochs_best :
        (left epoch : ℕ) (t : Progress W)
        → IsNamed t.model
        → IsTracked evaluate infinity t
        → Ended evaluate infinity patience left t (run_epochs fit evaluate patience left epoch t)
    unfolding run_epochs
    run_epochs_best zero epoch t named h = (h, inl (omega arith))
    run_epochs_best (suc left) epoch t named h =
        let m = fit epoch t.model t.shadow in
        let t' : Progress W = record t { model = m.0; shadow = m.1 } in
        let named' = fit-IsNamed epoch t.model t.shadow named in
        let tracked =
          end_epoch-IsTracked t' named' (record { unbeaten = h.unbeaten; saved = h.saved }) in
        let ended = end_epoch evaluate patience t' in
        let ih =
          run_epochs_best left (epoch + 1) ended.0 (rw (end_epoch-model t' named') named')
            tracked in
        elim (Bool-cases ended.1) [
          | inl stop ↦ rw stop (tracked, inr (stops_patient t' stop))
          | inr go ↦ rw go (ih.0, later_end left _ _ _ _ ih.1 (length-end_epoch t'))
        ]
