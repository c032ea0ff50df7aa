-- ===== src/Sweep/Rounds.antt =====
-- A theorem on the batches of an epoch in rtb-bid-model/src/experiments/bins_v2.py.
use ads_bidding_optimizer.Prelude.{
  ℕ, zero, suc, ◌+◌, ◌-◌, ◌*◌, ◌/◌, ◌≤◌, ◌<◌, ◌≡◌, refl, sym, ap, ◌∙◌, true, false, List, [], ◌∷◌,
  length, drop, length-take, length-drop, All, if◌then◌else◌, ltb, Bool-cases, inl, inr, arith,
}
use native.Mathlib.Nat.{div-eq_of_lt, div-eq-sub-div, mul-add-div_right, mul-div_cancel, add-mul}
use ads_bidding_optimizer.Dataset.{slice, num_batches}
use ads_bidding_optimizer.Sweep.{epoch_batches_from, epoch_batches}

module _ {ℓ} {A : Type ℓ} (perm : List A) (bs : ℕ) (positive : 0 < bs) where
  -- the rounds that are left at row `cur`, for enough fuel
  length-epoch_batches_from :
      (fuel cur : ℕ)
      → length perm - bs ≤ cur + fuel
      → length (epoch_batches_from fuel perm bs cur) ≡ (length perm - cur - 1) / bs
  unfolding epoch_batches_from
  length-epoch_batches_from zero cur enough = sym (div-eq_of_lt (omega arith))
  length-epoch_batches_from (suc fuel) cur enough = elim (Bool-cases (ltb cur (length perm - bs))) [
    | inl more ↦
        let room : cur < length perm - bs = ground arith in
        let e : length perm - (cur + bs) - 1 ≡ length perm - cur - 1 - bs = omega arith in
        let q : (length perm - cur - 1) / bs ≡ (length perm - cur - 1 - bs) / bs + 1 =
          div-eq-sub-div positive (omega arith) in
        rw more (
          omega
            (arith, length-epoch_batches_from fuel (cur + bs) (omega arith), ap (λ n. n / bs) e, q))
    | inr over ↦
        let full : length perm - bs ≤ cur = ground arith in
        rw over (sym (div-eq_of_lt (omega arith)))
  ]

  -- a round that is run hands out `bs` rows
  epoch_batches_from-sizes :
      (fuel cur : ℕ) → All (λ b. length b ≡ bs) (epoch_batches_from fuel perm bs cur)
  unfolding epoch_batches_from
  epoch_batches_from-sizes zero cur = tt
  epoch_batches_from-sizes (suc fuel) cur = elim (Bool-cases (ltb cur (length perm - bs))) [
    | inl more ↦
        let room : cur < length perm - bs = ground arith in
        rw more (
          length-take (cur + bs - cur) (drop cur perm) ∙ omega (arith, length-drop cur perm),
          epoch_batches_from-sizes fuel (cur + bs),
        )
    | inr over ↦ rw over tt
  ]

  -- any fuel that is enough gives the same batches
  epoch_batches_from-fuel :
      (fuel fuel' cur : ℕ)
      → length perm - bs ≤ cur + fuel
      → length perm - bs ≤ cur + fuel'
      → epoch_batches_from fuel perm bs cur ≡ epoch_batches_from fuel' perm bs cur
  unfolding epoch_batches_from
  epoch_batches_from-fuel zero zero cur h h' = refl
  epoch_batches_from-fuel zero (suc fuel') cur h h' =
      let over : ltb cur (length perm - bs) ≡ false = ground arith in rw over refl
  epoch_batches_from-fuel (suc fuel) zero cur h h' =
      let over : ltb cur (length perm - bs) ≡ false = ground arith in rw over refl
  epoch_batches_from-fuel (suc fuel) (suc fuel') cur h h' =
      ap (λ rest. if ltb cur (length perm - bs) then slice cur (cur + bs) perm ∷ rest else [])
        (epoch_batches_from-fuel fuel fuel' (cur + bs) (omega arith) (omega arith))

  -- With a batch size of at least 1 the loop over an epoch's rows ends: as many rounds as there are
  -- rows are enough, and allowing more changes nothing. Each batch has `bs` rows, and there are
  -- (n - 1) / bs of them for n rows.
  epoch_batches_rounds :
      (fuel : ℕ)
      → length perm ≤ fuel
      → (epoch_batches_from fuel perm bs 0 ≡ epoch_batches perm bs)
        × All (λ b. length b ≡ bs) (epoch_batches perm bs)
        × (length (epoch_batches perm bs) ≡ (length perm - 1) / bs)
  unfolding epoch_batches
  epoch_batches_rounds fuel h = (
    epoch_batches_from-fuel fuel (length perm) 0 (omega arith) (omega arith),
    epoch_batches_from-sizes (length perm) 0,
    length-epoch_batches_from (length perm) 0 (omega arith) ∙ ap (λ n. (n - 1) / bs) (omega arith),
  )

  -- Where the rows make `k + 1` whole batches, for a batch size of at least 1, an epoch has `k` of
  -- them, one less than `num_batches` counts with `drop_last`, by which the learning rate is planned.
  pub epoch_batches_one_less :
      (k : ℕ)
      → length perm ≡ (k + 1) * bs
      → (length (epoch_batches perm bs) ≡ k) × (num_batches (length perm) bs true ≡ k + 1)
  unfolding num_batches
  epoch_batches_one_less k e =
      let rows : length perm - 1 ≡ k * bs + (bs - 1) = omega (arith, add-mul k 1 bs) in
      let q : (k * bs + (bs - 1)) / bs ≡ k + (bs - 1) / bs =
        mul-add-div_right positive k (bs - 1) in
      let z : (bs - 1) / bs ≡ 0 = div-eq_of_lt (omega arith) in
      let (_, _, count) = epoch_batches_rounds (length perm) (omega arith) in
      (
        omega (arith, count, ap (λ n. n / bs) rows, q, z),
        ap (λ n. n / bs) e ∙ mul-div_cancel (k + 1) positive,
      )
