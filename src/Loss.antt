-- ===== src/Loss.antt =====
-- rtb-bid-model/src/loss.py: the likelihoods that the networks are trained with. The noise of the
-- target jitter and `F.cross_entropy` are torch's: the noise is an argument, and the cross entropy is
-- not modelled. `Optimizer.mixture_cdf` is `mdn_cdf`.
use ads_bidding_optimizer.Prelude.{ℕ, List, [], ◌∷◌, map, length, zip_with, if◌then◌else◌}
use ads_bidding_optimizer.Float.{Float, ◌⊕◌, ◌⊖◌, ◌⊗◌, ◌⊘◌, ◌<?◌, nought}
use ads_bidding_optimizer.Arrays.{Arrays, arange}

-- a row of a batch: the network's output and the target
pub record Target {ℓ} (W : Type ℓ) : Type ℓ where
  pub pi_logits : List W
  pub mu : List W
  pub sigma : List W
  pub target : W

module _ {ℓ} {W : Type ℓ} ⦃f : Float W⦄ ⦃a : Arrays W⦄ where
  -- `math.log(2.0 * math.pi)`
  abbrev pub log_2pi : W
  log_2pi = a.log (f.lit 2 0 ⊗ a.pi)

  -- `log_comp`
  unfoldable pub component_logs : List W → List W → W → List W
  component_logs (m ∷ mu) (s ∷ sigma) t =
      let z = (t ⊖ m) ⊘ s in
      ((nought ⊖ f.lit 5 1) ⊗ (z ⊗ z ⊕ log_2pi) ⊖ a.log s) ∷ component_logs mu sigma t
  component_logs _ _ t = []

  unfoldable pub mdn_log_prob : List W → List W → List W → W → W
  mdn_log_prob pi_logits mu sigma target =
      a.logsumexp
        (zip_with (λ x y. x ⊕ y) (a.log_softmax pi_logits) (component_logs mu sigma target))

  -- `x.mean()`
  unfoldable pub batch_mean : List W → W
  batch_mean xs = a.sum xs ⊘ f.of_ℕ (length xs)

  -- `t + torch.randn_like(t) * target_jitter`, with the row's noise
  unfoldable pub jittered : W → W → W → W
  jittered target_jitter noise t = if nought <? target_jitter then t ⊕ noise ⊗ target_jitter else t

  -- `(pi * log_pi).sum()`
  unfoldable pub entropy_term : Target W → W
  entropy_term r =
      let log_pi = a.log_softmax r.pi_logits in
      a.sum (zip_with (λ p l. p ⊗ l) (map a.exp log_pi) log_pi)

  -- the rows with their noise
  unfoldable pub mdn_nll : W → W → List (Target W × W) → W
  mdn_nll ent_bonus target_jitter rows =
      let log_p =
        map
          (λ r.
            mdn_log_prob (r.0).pi_logits (r.0).mu (r.0).sigma
              (jittered target_jitter r.1 (r.0).target))
          rows in
      let nll = nought ⊖ batch_mean log_p in
      let ent = nought ⊖ batch_mean (map (λ r. entropy_term r.0) rows) in
      if nought <? ent_bonus then nll ⊖ ent_bonus ⊗ ent else nll

  -- the Gaussian weights around the true bin, divided by their sum
  unfoldable pub smoothed_weights : ℕ → W → W → List W
  smoothed_weights num_bins t sigma =
      let weights =
        map (λ c. let z = (c ⊖ t) ⊘ sigma in a.exp ((nought ⊖ f.lit 5 1) ⊗ (z ⊗ z)))
          (arange num_bins) in
      map (λ w. w ⊘ a.sum weights) weights

  -- the rows are logits with the true bin
  unfoldable pub discrete_bins_smoothed_nll : W → List (List W × ℕ) → W
  discrete_bins_smoothed_nll sigma rows =
      nought
      ⊖ batch_mean (
          map
            (λ r. a.sum (
              zip_with (λ w l. w ⊗ l) (smoothed_weights (length r.0) (f.of_ℕ r.1) sigma)
                (a.log_softmax r.0)))
            rows)
