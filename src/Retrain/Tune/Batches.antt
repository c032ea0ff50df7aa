-- ===== src/Retrain/Tune/Batches.antt =====
-- A theorem on the batches of an epoch in `train_round` of retrain.py.
use ads_bidding_optimizer.Prelude.{
  ℕ, zero, suc, ◌+◌, ◌-◌, ◌≤◌, ◌<◌, ◌≡◌, sym, ap, ◌∙◌, false, Bool-cases, inl, inr, List, ◌++◌,
  length, take, drop, ltb, All, length-take, length-drop, drop_all, take-append-drop, arith,
}
use native.Mathlib.Decide.{dec_lt}
use ads_bidding_optimizer.Dataset.{num_batches}
use ads_bidding_optimizer.Dataset.Batches.{nothing_left, full_batch, short_batch, drop-drop}
use ads_bidding_optimizer.Features.Parse.{concat}
use ads_bidding_optimizer.Retrain.Tune.{tune_batches}

module _ {ℓ} {A : Type ℓ} (bs : ℕ) (positive : 0 < bs) (perm : List A) where
  tune_batches-concat :
      (fuel i : ℕ) → length perm ≤ i + fuel → concat (tune_batches fuel bs i perm) ≡ drop i perm
  unfolding tune_batches
  tune_batches-concat zero i enough = sym (drop_all i perm (omega arith))
  tune_batches-concat (suc fuel) i enough = elim (Bool-cases (ltb i (length perm))) [
    | inl more ↦ rw more (
        ap (λ t. take bs (drop i perm) ++ t)
          (tune_batches-concat fuel (i + bs) (omega arith) ∙ sym (drop-drop bs i perm))
        ∙ take-append-drop bs (drop i perm))
    | inr over ↦ rw over (sym (drop_all i perm (ground arith)))
  ]

  -- the batches that are left for `left` rows
  next_count :
      (left : ℕ) → 0 < left → num_batches left bs false ≡ num_batches (left - bs) bs false + 1
  next_count left some_left = elim (dec_lt left bs) [
    | yes short ↦
        let none_left : left - bs ≡ 0 = omega arith in
        rw none_left
          (omega (arith, short_batch left bs false some_left short, nothing_left bs false positive))
    | no full ↦ omega (arith, full_batch left bs false positive (omega arith))
  ]

  tune_batches-length :
      (fuel i : ℕ)
      → length perm ≤ i + fuel
      → length (tune_batches fuel bs i perm) ≡ num_batches (length perm - i) bs false
  unfolding tune_batches
  tune_batches-length zero i enough =
      let over : length perm - i ≡ 0 = omega arith in rw over (sym (nothing_left bs false positive))
  tune_batches-length (suc fuel) i enough = elim (Bool-cases (ltb i (length perm))) [
    | inl more ↦
        let rest : length perm - (i + bs) ≡ length perm - i - bs = omega arith in
        rw more (
          omega (
            arith,
            tune_batches-length fuel (i + bs) (omega arith),
            ap (λ k. num_batches k bs false) rest,
            next_count (length perm - i) (ground arith),
          ))
    | inr past ↦
        let over : length perm - i ≡ 0 = ground arith in
        rw (past, over) (sym (nothing_left bs false positive))
  ]

  -- a batch that an optimizer step is made on
  abbrev pub IsBatch : List A → Type 0
  IsBatch batch = (0 < length batch) × (length batch ≤ bs)

  tune_batches-All : (fuel i : ℕ) → All IsBatch (tune_batches fuel bs i perm)
  unfolding tune_batches
  tune_batches-All zero i = tt
  tune_batches-All (suc fuel) i = elim (Bool-cases (ltb i (length perm))) [
    | inl more ↦ rw more (
      (
        ground (arith, length-take bs (drop i perm), length-drop i perm),
        omega (arith, length-take bs (drop i perm)),
      ),
      tune_batches-All fuel (i + bs),
    )
    | inr over ↦ rw over tt
  ]

  -- For a batch size of at least 1 the batches of an epoch are all its rows in the order of the
  -- permutation, none of them empty and none longer than the batch size, and as many as
  -- `num_batches` of dataset.py counts without drop_last.
  pub tune_batches_rows :
      (concat (tune_batches (length perm) bs 0 perm) ≡ perm)
      × (length (tune_batches (length perm) bs 0 perm) ≡ num_batches (length perm) bs false)
      × All IsBatch (tune_batches (length perm) bs 0 perm)
  tune_batches_rows = (
    tune_batches-concat (length perm) 0 (omega arith),
    tune_batches-length (length perm) 0 (omega arith)
        ∙ ap (λ k. num_batches k bs false) (omega arith),
    tune_batches-All (length perm) 0,
  )
