-- ===== src/Dataset/Batches.antt =====
-- Theorems on `iter_batches` and `num_batches` of rtb-bid-model/src/dataset.py.
use ads_bidding_optimizer.Prelude.{
  ℕ, zero, suc, ◌+◌, ◌-◌, ◌/◌, ◌≤◌, ◌<◌, ◌≡◌, refl, sym, ap, ◌∙◌, Bool, true, false, List, [], ◌∷◌,
  ◌++◌, length, take, drop, ltb, if◌then◌else◌, length-drop, take_all, drop_all, take-append-drop,
  append-nil, append_assoc, arith,
}
use native.Mathlib.Decide.{dec_lt}
use native.Mathlib.Nat.{zero-div, div-eq_of_lt, div-eq-sub-div}
use ads_bidding_optimizer.Dataset.{slice, batches_from, iter_batches, num_batches}
use ads_bidding_optimizer.Features.Parse.{concat}

-- `num_batches` for no rows, for a full batch in front, and for a short last batch
pub nothing_left : (b : ℕ) (d : Bool) → 0 < b → num_batches 0 b d ≡ 0
unfolding num_batches
nothing_left b true pos = zero-div b
nothing_left b false pos = div-eq_of_lt (omega arith)

pub full_batch :
    (n b : ℕ) (d : Bool) → 0 < b → b ≤ n → suc (num_batches (n - b) b d) ≡ num_batches n b d
unfolding num_batches
full_batch n b true pos le = omega (arith, div-eq-sub-div {m = b} {n = n} pos le)
full_batch n b false pos le =
    let e : n + b - 1 - b ≡ n - b + b - 1 = omega arith in
    let q : (n + b - 1) / b ≡ (n + b - 1 - b) / b + 1 = div-eq-sub-div pos (omega arith) in
    omega (arith, q, ap (λ k. k / b) e)

pub short_batch : (n b : ℕ) (d : Bool) → 0 < n → n < b → num_batches n b d ≡ (if d then 0 else 1)
unfolding num_batches
short_batch n b true pos lt = div-eq_of_lt lt
short_batch n b false pos lt =
    let q : (n + b - 1) / b ≡ (n + b - 1 - b) / b + 1 =
      div-eq-sub-div (omega arith) (omega arith) in
    let z : (n + b - 1 - b) / b ≡ 0 = div-eq_of_lt (omega arith) in omega (arith, q, z)

module _ {ℓ} {A : Type ℓ} where
  drop_nil : (n : ℕ) → drop n [] ≡ ◌++◌ {A = A} [] []
  drop_nil zero = refl
  drop_nil (suc n) = refl

  pub drop-drop : (m n : ℕ) (xs : List A) → drop m (drop n xs) ≡ drop (n + m) xs
  drop-drop m zero xs = let e : m ≡ 0 + m = omega arith in ap (λ k. drop k xs) e
  drop-drop m (suc n) [] = drop_nil m ∙ sym (drop_nil (suc n + m))
  drop-drop m (suc n) (x ∷ xs) =
      let e : suc (n + m) ≡ suc n + m = omega arith in
      drop-drop m n xs ∙ ap (λ k. drop k (x ∷ xs)) e

  module _ (perm : List A) (batch_size : ℕ) (positive : 0 < batch_size) where
    -- the rows from `cur` on, of which the first `batch_size` are the next batch
    next_batch :
        (cur : ℕ)
        → slice cur (cur + batch_size) perm ++ drop (cur + batch_size) perm ≡ drop cur perm
    next_batch cur =
        let e : cur + batch_size - cur ≡ batch_size = omega arith in
        ap (λ k. take k (drop cur perm) ++ drop (cur + batch_size) perm) e
        ∙ ap (λ t. take batch_size (drop cur perm) ++ t) (sym (drop-drop batch_size cur perm))
        ∙ take-append-drop batch_size (drop cur perm)

    last_batch : (cur : ℕ) → slice cur (length perm) perm ≡ drop cur perm
    last_batch cur =
        take_all (length perm - cur) (drop cur perm) (omega (arith, length-drop cur perm))

    -- one round, by how it goes
    round_over :
        (fuel : ℕ) (drop_last : Bool) (cur : ℕ)
        → length perm ≤ cur
        → batches_from fuel perm batch_size drop_last cur ≡ []
    unfolding batches_from
    round_over zero drop_last cur h = refl
    round_over (suc fuel) drop_last cur h =
        let done : ltb cur (length perm) ≡ false = ground arith in rw done

    round_full :
        (fuel : ℕ) (drop_last : Bool) (cur : ℕ)
        → cur + batch_size ≤ length perm
        → batches_from (suc fuel) perm batch_size drop_last cur
          ≡ slice cur (cur + batch_size) perm
            ∷ batches_from fuel perm batch_size drop_last (cur + batch_size)
    unfolding batches_from
    round_full fuel drop_last cur h =
        let more : ltb cur (length perm) ≡ true = ground arith in
        let fits : ltb (length perm) (cur + batch_size) ≡ false = ground arith in rw more (rw fits)

    round_short :
        (fuel : ℕ) (drop_last : Bool) (cur : ℕ)
        → cur < length perm
        → length perm < cur + batch_size
        → batches_from (suc fuel) perm batch_size drop_last cur
          ≡ (if drop_last then [] else drop cur perm ∷ [])
    unfolding batches_from
    round_short fuel drop_last cur h k =
        let more : ltb cur (length perm) ≡ true = ground arith in
        let short : ltb (length perm) (cur + batch_size) ≡ true = ground arith in
        rw more (
          rw short (
            cases drop_last (last_batch cur)
              (round_over fuel drop_last (length perm) (omega arith))))
      where
        cases :
            (d : Bool)
            → slice cur (length perm) perm ≡ drop cur perm
            → batches_from fuel perm batch_size drop_last (length perm) ≡ []
            → (if d
                then []
                else slice cur (length perm) perm
                  ∷ batches_from fuel perm batch_size drop_last (length perm))
              ≡ (if d then [] else drop cur perm ∷ [])
        cases true e r = refl
        cases false e r = rw (e, r)

    -- which kind of round comes next
    data Next (cur : ℕ) : Type 0 where
      over : length perm ≤ cur → Next cur
      full : cur + batch_size ≤ length perm → Next cur
      short : cur < length perm → length perm < cur + batch_size → Next cur

    next_round : (cur : ℕ) → Next cur
    next_round cur = elim (dec_lt cur (length perm)) [
      | no h ↦ over (omega arith)
      | yes h ↦ elim (dec_lt (length perm) (cur + batch_size)) [
        | yes k ↦ short h k
        | no k ↦ full (omega arith)
      ]
    ]

    -- the loop hands out every row, and stops within its fuel
    batches_from-concat :
        (fuel cur : ℕ)
        → length perm < cur + fuel
        → concat (batches_from fuel perm batch_size false cur) ≡ drop cur perm
    batches_from-concat zero cur enough =
        ap concat (round_over zero false cur (omega arith)) ∙ sym (drop_all cur perm (omega arith))
    batches_from-concat (suc fuel) cur enough = elim (next_round cur) [
      | over h ↦ ap concat (round_over (suc fuel) false cur h) ∙ sym (drop_all cur perm h)
      | full h ↦
          ap concat (round_full fuel false cur h)
          ∙ ap (λ t. slice cur (cur + batch_size) perm ++ t)
              (batches_from-concat fuel (cur + batch_size) (omega arith))
          ∙ next_batch cur
      | short h k ↦ ap concat (round_short fuel false cur h k) ∙ append-nil (drop cur perm)
    ]

    -- dropping the last short batch leaves out fewer rows than a batch has
    batches_from-dropped :
        (fuel cur : ℕ)
        → length perm < cur + fuel
        → (rest : List A) × (concat (batches_from fuel perm batch_size true cur) ++ rest
            ≡ drop cur perm)
          × (length rest < batch_size)
    batches_from-dropped zero cur enough = (
      [],
      append-nil _
          ∙ ap concat (round_over zero true cur (omega arith))
          ∙ sym (drop_all cur perm (omega arith)),
      positive,
    )
    batches_from-dropped (suc fuel) cur enough = elim (next_round cur) [
      | over h ↦ (
        [],
        append-nil _ ∙ ap concat (round_over (suc fuel) true cur h) ∙ sym (drop_all cur perm h),
        positive,
      )
      | full h ↦
          let ih = batches_from-dropped fuel (cur + batch_size) (omega arith) in
          (
            ih.0,
            ap (λ b. concat b ++ ih.0) (round_full fuel true cur h)
                ∙ append_assoc (slice cur (cur + batch_size) perm) _ ih.0
                ∙ ap (λ t. slice cur (cur + batch_size) perm ++ t) ih.1
                ∙ next_batch cur,
            ih.2,
          )
      | short h k ↦ (
        drop cur perm,
        ap (λ b. concat b ++ drop cur perm) (round_short fuel true cur h k),
        omega (arith, length-drop cur perm),
      )
    ]

    no_rows :
        (cur : ℕ) (d : Bool) → length perm ≤ cur → 0 ≡ num_batches (length perm - cur) batch_size d
    no_rows cur d h =
        let e : 0 ≡ length perm - cur = omega arith in
        sym (nothing_left batch_size d positive) ∙ ap (λ n. num_batches n batch_size d) e

    one_batch : (d : Bool) (b : List A) → length (if d then [] else b ∷ []) ≡ (if d then 0 else 1)
    one_batch true b = refl
    one_batch false b = refl

    batches_from-length :
        (drop_last : Bool) (fuel cur : ℕ)
        → length perm < cur + fuel
        → length (batches_from fuel perm batch_size drop_last cur)
          ≡ num_batches (length perm - cur) batch_size drop_last
    batches_from-length d zero cur enough =
        ap length (round_over zero d cur (omega arith)) ∙ no_rows cur d (omega arith)
    batches_from-length d (suc fuel) cur enough = elim (next_round cur) [
      | over h ↦ ap length (round_over (suc fuel) d cur h) ∙ no_rows cur d h
      | full h ↦
          let e : length perm - (cur + batch_size) ≡ length perm - cur - batch_size = omega arith in
          ap length (round_full fuel d cur h)
          ∙ ap suc (batches_from-length d fuel (cur + batch_size) (omega arith))
          ∙ ap (λ n. suc (num_batches n batch_size d)) e
          ∙ full_batch (length perm - cur) batch_size d positive (omega arith)
      | short h k ↦
          ap length (round_short fuel d cur h k)
          ∙ one_batch d (drop cur perm)
          ∙ sym (short_batch (length perm - cur) batch_size d (omega arith) (omega arith))
    ]

  -- For a batch size of at least 1, without `drop_last` the batches of an epoch are all rows of the
  -- permutation in its order; with it they are the rows in order up to fewer rows than a batch has;
  -- and there are as many batches as `num_batches` says.
  pub iter_batches_rows :
      (perm : List A) (batch_size : ℕ)
      → 0 < batch_size
      → (concat (iter_batches perm batch_size false) ≡ perm)
        × ((rest : List A) × (concat (iter_batches perm batch_size true) ++ rest ≡ perm)
            × (length rest < batch_size))
        × ((drop_last : Bool)
            → length (iter_batches perm batch_size drop_last)
              ≡ num_batches (length perm) batch_size drop_last)
  unfolding iter_batches
  iter_batches_rows perm b pos = (
    batches_from-concat perm b pos (length perm + 1) 0 (omega arith),
    batches_from-dropped perm b pos (length perm + 1) 0 (omega arith),
    λ d.
        batches_from-length perm b pos d (length perm + 1) 0 (omega arith)
        ∙ (let e : length perm - 0 ≡ length perm = omega arith in ap (λ n. num_batches n b d) e),
  )
