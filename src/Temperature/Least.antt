-- ===== src/Temperature/Least.antt =====
-- A theorem on the temperature that rtb-bid-model/src/experiments/calibrate_temp.py finds.
use ads_bidding_optimizer.Prelude.{
  ◌≡◌, refl, ap, ◌∙◌, Bool-cases, inl, inr, none, some, List, [], ◌∷◌, All, map,
}
use ads_bidding_optimizer.Float.{Float, ◌<?◌, ◌≼◌, IsOrdered, unit}
use ads_bidding_optimizer.Arrays.{Arrays}
use ads_bidding_optimizer.Optimizer.Grid.{le_of_not_lt, le_of_lt}
use ads_bidding_optimizer.Loss.{Target, mdn_log_prob}
use ads_bidding_optimizer.Temperature.{
  Search, Validation, below, try_temperature, search_temperatures, scaled_log_prob, nll_at,
  find_temperature, calibrated_mixture,
}

module _ {ℓ} {W : Type ℓ} ⦃f : Float W⦄ (ordered : IsOrdered W) (loss : W → W) where
  try_temperature_next :
      (t : W) (s : Search W) (b : W)
      → s.best_nll ≡ some b
      → loss s.best_t ≡ b
      → (c : W) × ((try_temperature loss t s).best_nll ≡ some c)
        × (loss (try_temperature loss t s).best_t ≡ c)
        × (c ≼ b)
        × (c ≼ loss t)
  unfolding try_temperature below
  try_temperature_next t s b e h = elim (Bool-cases (loss t <? b)) [
    | inl less ↦ (
      loss t,
      rw (e, less) refl,
      rw (e, less) refl,
      le_of_lt ordered (loss t) b less,
      ordered.le_refl (loss t),
    )
    | inr more ↦ (
      b,
      rw (e, more) refl,
      rw (e, more) h,
      ordered.le_refl b,
      le_of_not_lt ordered (loss t) b more,
    )
  ]

  search_temperatures-least :
      (ts : List W) (s : Search W) (b : W)
      → s.best_nll ≡ some b
      → loss s.best_t ≡ b
      → (c : W) × ((search_temperatures loss ts s).best_nll ≡ some c)
        × (loss (search_temperatures loss ts s).best_t ≡ c)
        × (c ≼ b)
        × All (λ t. c ≼ loss t) ts
  unfolding search_temperatures
  search_temperatures-least [] s b e h = (b, e, h, ordered.le_refl b, tt)
  search_temperatures-least (t ∷ ts) s b e h =
      let (c, ec, hc, cb, ct) = try_temperature_next t s b e h in
      let (d, ed, hd, dc, all) = search_temperatures-least ts (try_temperature loss t s) c ec hc in
      (d, ed, hd, ordered.le_trans d c b dc cb, (ordered.le_trans d c (loss t) dc ct, all))

module _ {ℓ} {W : Type ℓ} ⦃f : Float W⦄ ⦃a : Arrays W⦄ (ordered : IsOrdered W) where
  found_from :
      (rows : Validation W) (t : W) (ts : List W)
      → a.linspace (f.lit 5 1) (f.lit 3 0) 26 ≡ t ∷ ts
      → find_temperature rows
        ≡ search_temperatures
            (nll_at rows)
            ts
            (record { best_t = t; best_nll = some (nll_at rows t) })
  unfolding find_temperature search_temperatures try_temperature below
  found_from rows t ts e =
      ap (λ l. search_temperatures (nll_at rows) l (record { best_t = unit; best_nll = none })) e

  -- the rows rescaled by a temperature, at temperature 1
  rescaled :
      (u : W) (rows : List (Target W))
      → map (λ r. mdn_log_prob r.pi_logits r.mu r.sigma r.target) (map (calibrated_mixture u) rows)
        ≡ map (scaled_log_prob u) rows
  unfolding mdn_log_prob scaled_log_prob calibrated_mixture
  rescaled u [] = refl
  rescaled u (r ∷ rows) = ap (λ l. scaled_log_prob u r ∷ l) (rescaled u rows)

  -- Where there is at least one temperature to try, the search over the validation rows, of either
  -- kind of model, ends with the validation loss of the temperature that it found, which no
  -- temperature it tried goes below; and each row of a mixture's test set, as it is saved, has the
  -- log-likelihood that the search takes for it at that temperature.
  pub find_temperature-least :
      (rows : Validation W) (test : List (Target W)) (t : W) (ts : List W)
      → a.linspace (f.lit 5 1) (f.lit 3 0) 26 ≡ t ∷ ts
      → let found = find_temperature rows in
        let saved = map (calibrated_mixture found.best_t) test in
        (c : W) × (found.best_nll ≡ some c)
        × (nll_at rows found.best_t ≡ c)
        × All (λ u. c ≼ nll_at rows u) (t ∷ ts)
        × (map (λ r. mdn_log_prob r.pi_logits r.mu r.sigma r.target) saved
            ≡ map (scaled_log_prob found.best_t) test)
  find_temperature-least rows test t ts e =
      let loss = nll_at rows in
      let first : Search W = record { best_t = t; best_nll = some (loss t) } in
      let (c, ec, hc, ct, all) =
        search_temperatures-least ordered loss ts first (loss t) refl refl in
      let from = found_from rows t ts e in
      (
        c,
        rw from ec,
        ap (λ s. loss s.best_t) from ∙ hc,
        (ct, all),
        rescaled (find_temperature rows).best_t test,
      )
