-- ===== src/Features/Passes/Leakage.antt =====
-- A theorem on the rows of passes B and C in rtb-bid-model/src/features.py.
use ads_bidding_optimizer.Prelude.{
  ℕ, zero, suc, ◌+◌, ◌-◌, ◌≤◌, ◌<◌, ◌≡◌, refl, sym, ap, ap₂, ◌∙◌, min, true, false, inl, inr, List,
  [], ◌∷◌, ◌++◌, length, take, drop, ltb, leb, Bool-cases, take_all, drop_all, append-nil,
  append_assoc, arith,
}
use native.Mathlib.Decide.{dec_lt}
use ads_bidding_optimizer.Features.Parse.{concat}
use ads_bidding_optimizer.Features.Passes.{fit_frames, split_frames}

module _ {ℓ} {R : Type ℓ} where
  take-append : (n : ℕ) (xs ys : List R) → take n (xs ++ ys) ≡ take n xs ++ take (n - length xs) ys
  take-append zero xs ys = let e : 0 ≡ 0 - length xs = omega arith in ap (λ k. take k ys) e
  take-append (suc n) [] ys = let e : suc n ≡ suc n - 0 = omega arith in ap (λ k. take k ys) e
  take-append (suc n) (x ∷ xs) ys =
      let e : n - length xs ≡ suc n - suc (length xs) = omega arith in
      ap (λ t. x ∷ t) (take-append n xs ys ∙ ap (λ k. take n xs ++ take k ys) e)

  drop-append : (n : ℕ) (xs ys : List R) → drop n (xs ++ ys) ≡ drop n xs ++ drop (n - length xs) ys
  drop-append zero xs ys = let e : 0 ≡ 0 - length xs = omega arith in ap (λ k. xs ++ drop k ys) e
  drop-append (suc n) [] ys = let e : suc n ≡ suc n - 0 = omega arith in ap (λ k. drop k ys) e
  drop-append (suc n) (x ∷ xs) ys =
      let e : n - length xs ≡ suc n - suc (length xs) = omega arith in
      drop-append n xs ys ∙ ap (λ k. drop n xs ++ drop k ys) e

  concat-snoc : (xss : List (List R)) (xs : List R) → concat (xss ++ (xs ∷ [])) ≡ concat xss ++ xs
  concat-snoc [] xs = append-nil xs
  concat-snoc (ys ∷ xss) xs =
      ap (λ t. ys ++ t) (concat-snoc xss xs) ∙ sym (append_assoc ys (concat xss) xs)

  take-min : (n : ℕ) (xs : List R) → take (min (length xs) n) xs ≡ take n xs
  take-min zero [] = refl
  take-min (suc n) [] = let e : min 0 (suc n) ≡ 0 = omega arith in ap (λ k. take {A = R} k []) e
  take-min zero (x ∷ xs) =
      let e : min (suc (length xs)) 0 ≡ 0 = omega arith in ap (λ k. take k (x ∷ xs)) e
  take-min (suc n) (x ∷ xs) =
      let e : min (suc (length xs)) (suc n) ≡ suc (min (length xs) n) = omega arith in
      ap (λ k. take k (x ∷ xs)) e ∙ ap (λ t. x ∷ t) (take-min n xs)

  length_zero : (xs : List R) → length xs ≡ 0 → xs ≡ []
  length_zero [] h = refl
  length_zero (x ∷ xs) h = absurd (omega arith)

  -- the three ways that pass B takes a file
  module _ (cut seen : ℕ) (df : List R) (dfs : List (List R)) where
    fit_stop : cut ≤ seen → fit_frames cut seen (df ∷ dfs) ≡ []
    unfolding fit_frames
    fit_stop h = let t : leb cut seen ≡ true = ground arith in rw t

    fit_more :
        seen < cut
        → concat (fit_frames cut seen (df ∷ dfs))
          ≡ take (cut - seen) df ++ concat (fit_frames cut (seen + length df) dfs)
    unfolding fit_frames
    fit_more h =
        let t : leb cut seen ≡ false = ground arith in
        rw t (elim (Bool-cases (ltb seen (min (seen + length df) cut))) [
          | inl some_rows ↦
              let e : min (seen + length df) cut - seen ≡ min (length df) (cut - seen) =
                omega arith in
              rw some_rows (
                ap (λ k. take k df ++ concat (fit_frames cut (seen + length df) dfs)) e
                ∙ ap (λ r. r ++ concat (fit_frames cut (seen + length df) dfs))
                    (take-min (cut - seen) df))
          | inr no_rows ↦
              let empty : df ≡ [] = length_zero df (ground arith) in
              rw no_rows (
                ap (λ r. r ++ concat (fit_frames cut (seen + length df) dfs))
                  (sym (ap (take (cut - seen)) empty ∙ take_all (cut - seen) [] (omega arith))))
        ])

  fit_none : (cut seen : ℕ) → concat (fit_frames {R = R} cut seen []) ≡ []
  unfolding fit_frames
  fit_none cut seen = refl

  fit_frames-take :
      (cut seen : ℕ) (dfs : List (List R))
      → concat (fit_frames cut seen dfs) ≡ take (cut - seen) (concat dfs)
  fit_frames-take cut seen [] = fit_none cut seen ∙ sym (take_all (cut - seen) [] (omega arith))
  fit_frames-take cut seen (df ∷ dfs) = elim (dec_lt seen cut) [
    | no h ↦
        let e : 0 ≡ cut - seen = omega arith in
        ap concat (fit_stop cut seen df dfs (omega arith)) ∙ ap (λ k. take k (concat (df ∷ dfs))) e
    | yes h ↦
        let e : cut - (seen + length df) ≡ cut - seen - length df = omega arith in
        fit_more cut seen df dfs h
        ∙ ap (λ r. take (cut - seen) df ++ r) (fit_frames-take cut (seen + length df) dfs)
        ∙ ap (λ k. take (cut - seen) df ++ take k (concat dfs)) e
        ∙ sym (take-append (cut - seen) df (concat dfs))
  ]

  -- what the chunks hold after the files `dfs`
  abbrev SplitAt :
      ℕ → List R → List (List R) → List (List R) → List (List R) × List (List R) → Type ℓ
  SplitAt k rows T V r =
      (concat r.0 ≡ concat T ++ take k rows) × (concat r.1 ≡ concat V ++ drop k rows)

  -- a file of which `k` rows, or all of its rows, are training rows
  split_next :
      (k m : ℕ) (df rest : List R) (T V T' V' : List (List R)) (r : List (List R) × List (List R))
      → m ≡ k - length df
      → concat T' ≡ concat T ++ take k df
      → concat V' ≡ concat V ++ drop k df
      → SplitAt m rest T' V' r
      → SplitAt k (df ++ rest) T V r
  split_next k m df rest T V T' V' r e et ev h = (
    h.0
        ∙ ap₂ (λ t j. t ++ take j rest) et e
        ∙ append_assoc (concat T) (take k df) (take (k - length df) rest)
        ∙ ap (λ t. concat T ++ t) (sym (take-append k df rest)),
    h.1
        ∙ ap₂ (λ t j. t ++ drop j rest) ev e
        ∙ append_assoc (concat V) (drop k df) (drop (k - length df) rest)
        ∙ ap (λ t. concat V ++ t) (sym (drop-append k df rest)),
  )

  split_frames-SplitAt :
      (cut seen : ℕ) (dfs T V : List (List R))
      → SplitAt (cut - seen) (concat dfs) T V (split_frames cut seen dfs T V)
  unfolding split_frames
  split_frames-SplitAt cut seen [] T V = (
    sym (ap (λ r. concat T ++ r) (take_all (cut - seen) [] (omega arith)) ∙ append-nil (concat T)),
    sym (ap (λ r. concat V ++ r) (drop_all (cut - seen) [] (omega arith)) ∙ append-nil (concat V)),
  )
  split_frames-SplitAt cut seen (df ∷ dfs) T V =
      let next = cut - (seen + length df) in
      elim (Bool-cases (leb cut seen)) [
        | inl past ↦
            let e : 0 ≡ cut - seen = ground arith in
            rw past (
              split_next (cut - seen) next df (concat dfs) T V T (V ++ (df ∷ []))
                (split_frames cut (seen + length df) dfs T (V ++ (df ∷ []))) (omega arith)
                (sym (append-nil (concat T)) ∙ ap (λ k. concat T ++ take k df) e)
                (concat-snoc V df ∙ ap (λ k. concat V ++ drop k df) e)
                (split_frames-SplitAt cut (seen + length df) dfs T (V ++ (df ∷ []))))
        | inr before ↦ elim (Bool-cases (leb (seen + length df) cut)) [
          | inl whole ↦
              let fits : length df ≤ cut - seen = ground arith in
              rw before (
                rw whole (
                  split_next (cut - seen) next df (concat dfs) T V (T ++ (df ∷ [])) V
                    (split_frames cut (seen + length df) dfs (T ++ (df ∷ [])) V) (omega arith)
                    (concat-snoc T df
                      ∙ ap (λ r. concat T ++ r) (sym (take_all (cut - seen) df fits)))
                    (sym (append-nil (concat V))
                      ∙ ap (λ r. concat V ++ r) (sym (drop_all (cut - seen) df fits)))
                    (split_frames-SplitAt cut (seen + length df) dfs (T ++ (df ∷ [])) V)))
          | inr both ↦ rw before (
              rw both (
                split_next (cut - seen) next df (concat dfs) T V (T ++ (take (cut - seen) df ∷ []))
                  (V ++ (drop (cut - seen) df ∷ []))
                  (split_frames cut (seen + length df) dfs (T ++ (take (cut - seen) df ∷ []))
                    (V ++ (drop (cut - seen) df ∷ [])))
                  (omega arith) (concat-snoc T _) (concat-snoc V _)
                  (split_frames-SplitAt cut (seen + length df) dfs
                    (T ++ (take (cut - seen) df ∷ [])) (V ++ (drop (cut - seen) df ∷ [])))))
        ]
      ]

  -- The training rows are the first `cut` rows of all files and the validation rows are the others,
  -- both in temporal order; and pass B fits the encoders and the scalers on the training rows, each
  -- once and in order, and on no validation row.
  pub split_no_leakage :
      (cut : ℕ) (dfs : List (List R))
      → let (train, val) = split_frames cut 0 dfs [] [] in
        (concat train ≡ take cut (concat dfs))
        × (concat val ≡ drop cut (concat dfs))
        × (concat (fit_frames cut 0 dfs) ≡ concat train)
  split_no_leakage cut dfs =
      let e : cut - 0 ≡ cut = omega arith in
      let split = split_frames-SplitAt cut 0 dfs [] [] in
      (
        split.0 ∙ ap (λ k. take k (concat dfs)) e,
        split.1 ∙ ap (λ k. drop k (concat dfs)) e,
        fit_frames-take cut 0 dfs ∙ sym split.0,
      )
