-- ===== src/Sweep/Kept.antt =====
-- Theorems on the weights that `train_one` of rtb-bid-model/src/experiments/mdn_sweep.py and of
-- bins_v2.py beside it end with.
use ads_bidding_optimizer.Prelude.{
  ℕ, zero, suc, ◌+◌, ◌≡◌, refl, ap, ◌∙◌, Option, none, some, List, [], ◌∷◌, All, All-imp,
  Bool-cases, inl, inr, length, map, arith,
}
use ads_bidding_optimizer.Float.{Float, ◌⊖◌, ◌<?◌, ◌≼◌, IsOrdered, IsRounded}
use ads_bidding_optimizer.Optimizer.Grid.{le_of_not_lt, le_of_lt}
use ads_bidding_optimizer.Train.{Params, Shadow, snapshot, copy_to, restored}
use ads_bidding_optimizer.Train.Swap.{IsNamed, restored-snapshot}
use ads_bidding_optimizer.Sweep.{
  Best, Loop, improves, keep, sweep_epoch, sweep_epochs, better, sweep_start, sweep_train_one,
  epoch_batches, bins_epochs, bins_train_one,
}

-- No loss is lower than `best - 1e-5`.
abbrev pub Unbeaten {ℓ} : {W : Type ℓ} ⦃f : Float W⦄ → W → List W → Type 0
Unbeaten ⦃f⦄ best losses = All (λ v. (best ⊖ f.lit 1 5) ≼ v) losses

-- The best weights have the best loss, which none of the losses beats; there are none at first.
abbrev pub Backed {ℓ} :
    {W : Type ℓ} ⦃f : Float W⦄ → (Params W → W) → Option (Best W) → List W → Type ℓ
Backed evaluate none losses = losses ≡ []
Backed evaluate (some b) losses = (evaluate b.state ≡ b.loss) × Unbeaten b.loss losses

module _ {ℓ} {W : Type ℓ} ⦃f : Float W⦄ (ordered : IsOrdered W) (rounded : IsRounded W)
    (evaluate : Params W → W) where
  lowered : (b b' : W) (vs : List W) → b' ≼ b → Unbeaten b vs → Unbeaten b' vs
  lowered b b' vs h u =
      All-imp (λ v. (b ⊖ f.lit 1 5) ≼ v) (λ v. (b' ⊖ f.lit 1 5) ≼ v)
        (λ v. ordered.le_trans _ _ v (rounded.sub_mono_left b' b (f.lit 1 5) h)) vs u

  own_loss : (v : W) → (v ⊖ f.lit 1 5) ≼ v
  own_loss v = rounded.sub_le_self v (f.lit 1 5) (rounded.lit_nonneg 1 5)

  -- keeping a state with its loss, before the losses so far
  keep-Backed :
      (state : Params W) (b : Option (Best W)) (losses : List W)
      → Backed evaluate b losses
      → (c : Best W) × (keep (evaluate state) state b ≡ some c)
        × Backed evaluate (some c) (evaluate state ∷ losses)
  unfolding keep improves
  keep-Backed state none losses h = (
    record { loss = evaluate state; state = state },
    refl,
    (refl, (own_loss (evaluate state), rw h tt)),
  )
  keep-Backed state (some b) losses h = elim (Bool-cases (evaluate state <? b.loss ⊖ f.lit 1 5)) [
    | inl less ↦
        let le = ordered.le_trans _ _ b.loss (le_of_lt ordered _ _ less) (own_loss b.loss) in
        (
          record { loss = evaluate state; state = state },
          rw less refl,
          (refl, (own_loss (evaluate state), lowered b.loss (evaluate state) losses le h.1)),
        )
    | inr more ↦ (b, rw more refl, (h.0, (le_of_not_lt ordered _ _ more, h.1)))
  ]

  -- both bests of the loop are backed, by as many losses
  abbrev Sound : ℕ → Loop W → Type ℓ
  Sound n t =
      Backed evaluate t.raw t.raw_losses
      × Backed evaluate t.ema t.ema_losses
      × (length t.raw_losses ≡ n)
      × (length t.ema_losses ≡ n)

  -- there are bests, once an epoch has ended
  abbrev Found : Loop W → Type ℓ
  Found t = ((r : Best W) × (t.raw ≡ some r)) × ((e : Best W) × (t.ema ≡ some e))

  sweep_epoch-Sound :
      (n : ℕ) (t : Loop W)
      → IsNamed t.model
      → Sound n t
      → Sound (n + 1) (sweep_epoch evaluate t) × Found (sweep_epoch evaluate t)
  unfolding sweep_epoch restored
  sweep_epoch-Sound n t named (hr, he, lr, le) =
      let back : copy_to (snapshot t.model) (copy_to t.shadow t.model) ≡ t.model =
        restored-snapshot t.model t.shadow named in
      let (r, er, br) = keep-Backed t.model t.raw t.raw_losses hr in
      let (e, ee, be) = keep-Backed (copy_to t.shadow t.model) t.ema t.ema_losses he in
      let raw : keep (evaluate t.model) (copy_to (snapshot t.model) (copy_to t.shadow t.model))
            t.raw
          ≡ some r =
        ap (λ m. keep (evaluate t.model) m t.raw) back ∙ er in
      ((rw raw br, rw ee be, omega arith, omega arith), ((r, raw), (e, ee)))

  sweep_epochs-Sound :
      (fit : ℕ → Params W → Shadow W → Params W × Shadow W)
      → ((epoch : ℕ) (m : Params W) (s : Shadow W) → IsNamed (fit epoch m s).0)
      → (left n epoch : ℕ) (t : Loop W) → Sound n t
      → Found t
      → Sound (n + left) (sweep_epochs fit evaluate left epoch t)
        × Found (sweep_epochs fit evaluate left epoch t)
  unfolding sweep_epochs
  sweep_epochs-Sound fit named zero n epoch t sound found =
      ((sound.0, sound.1, omega (arith, sound.2), omega (arith, sound.3)), found)
  sweep_epochs-Sound fit named (suc left) n epoch t sound found =
      let fitted = fit epoch t.model t.shadow in
      let (sound', found') =
        sweep_epoch-Sound n (record t { model = fitted.0; shadow = fitted.1 })
          (named epoch t.model t.shadow) sound in
      let (last, bests) =
        sweep_epochs-Sound fit named left (n + 1) (epoch + 1)
          (sweep_epoch evaluate (record t { model = fitted.0; shadow = fitted.1 })) sound' found' in
      ((last.0, last.1, omega (arith, last.2), omega (arith, last.3)), bests)

  -- the better of two bests is backed by the losses of both
  better-Backed :
      (model : Params W) (raw ema : Option (Best W)) (r e : Best W) (rs es : List W)
      → raw ≡ some r
      → ema ≡ some e
      → Backed evaluate raw rs
      → Backed evaluate ema es
      → (b : W) × ((better model raw ema).best_val ≡ some b)
        × (evaluate (better model raw ema).model ≡ b)
        × Unbeaten b rs
        × Unbeaten b es
  unfolding better
  better-Backed model none ema r e rs es er ee hr he = absurd (cc)
  better-Backed model (some r') none r e rs es er ee hr he = absurd (cc)
  better-Backed model (some r') (some e') r e rs es er ee hr he =
      elim (Bool-cases (e'.loss <? r'.loss)) [
        | inl less ↦ (
          e'.loss,
          rw less refl,
          rw less he.0,
          lowered r'.loss e'.loss rs (le_of_lt ordered _ _ less) hr.1,
          he.1,
        )
        | inr more ↦ (
          r'.loss,
          rw more refl,
          rw more hr.0,
          hr.1,
          lowered e'.loss r'.loss es (le_of_not_lt ordered _ _ more) he.1,
        )
      ]

  -- After at least one epoch, and where the names of the parameters are those of different
  -- parameters, the sweep ends with weights that have the loss which it reports, and no epoch's raw
  -- or averaged loss, of which there is one for each epoch, was lower than it less 1e-5.
  pub sweep_train_one_best :
      (fit : ℕ → Params W → Shadow W → Params W × Shadow W) (epochs : ℕ) (model : Params W)
      (shadow : Shadow W)
      → ((epoch : ℕ) (m : Params W) (s : Shadow W) → IsNamed (fit epoch m s).0)
      → let t = sweep_epochs fit evaluate (suc epochs) 0 (sweep_start model shadow) in
        let chosen = sweep_train_one fit evaluate (suc epochs) model shadow in
        (b : W) × (chosen.best_val ≡ some b)
        × (evaluate chosen.model ≡ b)
        × Unbeaten b t.raw_losses
        × Unbeaten b t.ema_losses
        × (length t.raw_losses ≡ suc epochs)
        × (length t.ema_losses ≡ suc epochs)
  unfolding sweep_train_one sweep_epochs sweep_start
  sweep_train_one_best fit epochs model shadow named =
      let fitted = fit 0 model shadow in
      let first : Loop W = sweep_start fitted.0 fitted.1 in
      let (sound, found) =
        sweep_epoch-Sound 0 first (named 0 model shadow) (refl, refl, refl, refl) in
      let (sound', ((r, er), (e, ee))) =
        sweep_epochs-Sound fit named epochs 1 1 (sweep_epoch evaluate first) sound found in
      let t = sweep_epochs fit evaluate epochs 1 (sweep_epoch evaluate first) in
      let (b, eb, el, ur, ue) =
        better-Backed t.model t.raw t.ema r e t.raw_losses t.ema_losses er ee sound'.0 sound'.1 in
      (b, eb, el, ur, ue, omega (arith, sound'.2), omega (arith, sound'.3))

module _ {ℓ κ} {W : Type ℓ} {A : Type κ} ⦃f : Float W⦄ (ordered : IsOrdered W)
    (rounded : IsRounded W) (fit : ℕ → List (List A) → Params W → Params W)
    (evaluate : Params W → W) (bs : ℕ) where
  -- the weights at the end of each epoch
  abbrev pub epoch_models : ℕ → List (List A) → Params W → List (Params W)
  epoch_models epoch [] model = []
  epoch_models epoch (perm ∷ perms) model =
      let fitted = fit epoch (epoch_batches perm bs) model in
      fitted ∷ epoch_models (epoch + 1) perms fitted

  bins_epochs-Backed :
      (epoch : ℕ) (perms : List (List A)) (model : Params W) (best : Option (Best W)) (b : Best W)
      (losses : List W)
      → best ≡ some b
      → Backed evaluate (some b) losses
      → (c : Best W) × ((bins_epochs fit evaluate bs epoch perms (model, best)).1 ≡ some c)
        × (evaluate c.state ≡ c.loss)
        × Unbeaten c.loss losses
        × Unbeaten c.loss (map evaluate (epoch_models epoch perms model))
  unfolding bins_epochs
  bins_epochs-Backed epoch [] model best b losses e h = (b, e, h.0, h.1, tt)
  bins_epochs-Backed epoch (perm ∷ perms) model best b losses e h =
      let fitted = fit epoch (epoch_batches perm bs) model in
      let (c, ec, hc) = keep-Backed ordered rounded evaluate fitted best losses (rw e h) in
      let (d, ed, hd, us, vs) =
        bins_epochs-Backed (epoch + 1) perms fitted (keep (evaluate fitted) fitted best) c
          (evaluate fitted ∷ losses) ec hc in
      (d, ed, hd, us.1, (us.0, vs))

  -- After at least one epoch the training of bins_v2.py saves weights with the loss that it reports,
  -- and at the end of no epoch the loss was lower than it less 1e-5.
  pub bins_train_one_best :
      (perm : List A) (perms : List (List A)) (model : Params W)
      → (b : W) × ((bins_train_one fit evaluate bs (perm ∷ perms) model).1 ≡ some b)
        × (evaluate (bins_train_one fit evaluate bs (perm ∷ perms) model).0 ≡ b)
        × Unbeaten b (map evaluate (epoch_models 0 (perm ∷ perms) model))
  unfolding bins_epochs bins_train_one
  bins_train_one_best perm perms model =
      let fitted = fit 0 (epoch_batches perm bs) model in
      let (c, ec, hc) = keep-Backed ordered rounded evaluate fitted none [] refl in
      let (d, ed, hd, us, vs) =
        bins_epochs-Backed 1 perms fitted (keep (evaluate fitted) fitted none) c
          (evaluate fitted ∷ []) ec hc in
      let saved = ended (perm ∷ perms) model d ed in
      (d.loss, ap (λ r. r.1) saved, ap (λ r. evaluate r.0) saved ∙ hd, (us.0, vs))
    where
      ended :
          (perms : List (List A)) (model : Params W) (d : Best W)
          → (bins_epochs fit evaluate bs 0 perms (model, none)).1 ≡ some d
          → bins_train_one fit evaluate bs perms model ≡ (d.state, some d.loss)
      ended perms model d e = rw (bins_train_one, e) refl
