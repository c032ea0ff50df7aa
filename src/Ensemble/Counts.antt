-- ===== src/Ensemble/Counts.antt =====
-- A theorem on the accumulators of `evaluate_ensemble` in
-- rtb-bid-model/src/experiments/ensemble.py.
use ads_bidding_optimizer.Prelude.{
  ℕ, zero, suc, ◌+◌, ◌≤◌, ◌<◌, ◌≡◌, refl, sym, ap, ◌∙◌, min, Bool-cases, Option-cases, inl, inr,
  some, List, [], ◌∷◌, ◌++◌, map, length, drop, ltb, append-nil, append_assoc, drop_all, arith,
}
use mathlib.Core.List.{map-append}
use ads_bidding_optimizer.Prelude.Int.{ℤ}
use ads_bidding_optimizer.Float.{Float, ◌⊕◌}
use ads_bidding_optimizer.Arrays.{Arrays}
use ads_bidding_optimizer.Dict.{Dict, Text, text_key, ◌==◌, lookup, put, or_default}
use ads_bidding_optimizer.Evaluate.{slice}
use ads_bidding_optimizer.Evaluate.Chunked.{slice_rest}
use ads_bidding_optimizer.Ensemble.{average}
use ads_bidding_optimizer.Ensemble.Metrics.{
  Row, Score, Share, Totals, slices, no_share, no_shares, add_share, add_shares, score, score_rows,
  add_chunk, add_chunks, no_totals, ensemble_totals,
}

abbrev joined {ℓ} : {A : Type ℓ} → List (List A) → List A
joined [] = []
joined (xs ∷ xss) = xs ++ joined xss

-- the slices are the rows from `s` on
joined-slices {ℓ} :
    {A : Type ℓ} (chunk : ℕ) (rows : List A) (fuel s : ℕ)
    → 0 < chunk
    → length rows ≤ s + fuel
    → joined (slices fuel chunk s rows) ≡ drop s rows
unfolding slices
joined-slices chunk rows zero s h enough = sym (drop_all s rows (omega arith))
joined-slices chunk rows (suc fuel) s h enough = elim (Bool-cases (ltb s (length rows))) [
  | inl more ↦ rw more (
      ap (λ r. slice s (min (length rows) (s + chunk)) rows ++ r)
        (joined-slices chunk rows fuel (s + chunk) h (omega arith))
      ∙ ap (λ e. slice s e rows ++ drop (s + chunk) rows)
          (let e : min (length rows) (s + chunk) ≡ min (s + chunk) (length rows) = omega arith in e)
      ∙ slice_rest chunk rows s)
  | inr over ↦ rw over (sym (drop_all s rows (ground arith)))
]

module _ {ℓ} {W : Type ℓ} ⦃f : Float W⦄ where
  -- the number of rows that the shares of the advertisers have counted
  abbrev pub share_count : Dict Text (Share W) → ℕ
  share_count [] = 0
  share_count (e ∷ d) = e.1.n + share_count d

  share_count-put :
      (k : Text) (v : Share W) (d : Dict Text (Share W))
      → share_count (put k v d) + (or_default no_share (lookup k d)).n ≡ share_count d + v.n
  unfolding put lookup
  share_count-put k v [] = omega arith
  share_count-put k v ((j, w) ∷ d) = elim (Bool-cases (j == k)) [
    | inl same ↦ rw same (omega arith)
    | inr other ↦ rw other (omega (arith, share_count-put k v d))
  ]

  share_count-add_shares :
      (scores : List (Score W)) (d : Dict Text (Share W))
      → share_count (add_shares scores d) ≡ share_count d + length scores
  unfolding add_shares add_share
  share_count-add_shares [] d = omega arith
  share_count-add_shares (s ∷ scores) d = omega (
    arith,
    share_count-add_shares scores (add_share s d),
    share_count-put s.adv
        (record {
          reg150_sum = (or_default no_share (lookup s.adv d)).reg150_sum ⊕ s.reg;
          reg_v_sum = (or_default no_share (lookup s.adv d)).reg_v_sum ⊕ s.reg_v;
          n = (or_default no_share (lookup s.adv d)).n + 1;
        })
        d,
  )

add_shares-append {ℓ} :
    {W : Type ℓ} ⦃f : Float W⦄ (ss ts : List (Score W)) (d : Dict Text (Share W))
    → add_shares ts (add_shares ss d) ≡ add_shares (ss ++ ts) d
unfolding add_shares
add_shares-append [] ts d = refl
add_shares-append (s ∷ ss) ts d = add_shares-append ss ts (add_share s d)

share_count-no_shares {ℓ} :
    (W : Type ℓ) ⦃f : Float W⦄ (advs : List Text) → share_count (no_shares {W = W} advs) ≡ 0
unfolding no_shares
share_count-no_shares W [] = refl
share_count-no_shares W (adv ∷ advs) =
    omega
      (arith, share_count-no_shares W advs, share_count-put {W = W} adv no_share (no_shares advs))

module _ {ℓ} {W : Type ℓ} ⦃f : Float W⦄ ⦃a : Arrays W⦄ (round : W → ℤ) (num_bins : ℕ) (v : W)
    (ws : List W) where
  score_rows_next :
      (r : Row W) (rows : List (Row W)) (avg : List W) (rest : List (Score W))
      → average num_bins ws r.members ≡ some avg
      → score_rows round num_bins v ws rows ≡ some rest
      → score_rows round num_bins v ws (r ∷ rows) ≡ some (score round num_bins v r avg ∷ rest)
  unfolding score_rows
  score_rows_next r rows avg rest e h = rw (score_rows, e, h)

  score_rows_none :
      (scores : List (Score W)) → score_rows round num_bins v ws [] ≡ some scores → scores ≡ []
  unfolding score_rows
  score_rows_none scores e = cc

  -- what the scores of a row and those after it are
  score_rows_split :
      (r : Row W) (rows : List (Row W)) (scores : List (Score W))
      → score_rows round num_bins v ws (r ∷ rows) ≡ some scores
      → (avg : List W) × (rest : List (Score W)) × (average num_bins ws r.members ≡ some avg)
        × (score_rows round num_bins v ws rows ≡ some rest)
        × (scores ≡ score round num_bins v r avg ∷ rest)
  unfolding score_rows
  score_rows_split r rows scores e = elim (Option-cases (average num_bins ws r.members)) [
    | inl raised ↦ absurd (let e' = (rw (score_rows, raised) at e) in cc)
    | inr found ↦ elim (Option-cases (score_rows round num_bins v ws rows)) [
      | inl raised ↦ absurd (let e' = (rw (score_rows, found.1, raised) at e) in cc)
      | inr rest ↦
          let e' = (rw (score_rows, found.1, rest.1) at e) in (found.0, rest.0, found.1, rest.1, cc)
    ]
  ]

  -- the scores of rows and of those after them
  score_rows-append :
      (xs ys : List (Row W)) (scores : List (Score W))
      → score_rows round num_bins v ws (xs ++ ys) ≡ some scores
      → (ss : List (Score W)) × (ts : List (Score W)) × (score_rows round num_bins v ws xs
          ≡ some ss)
        × (score_rows round num_bins v ws ys ≡ some ts)
        × (scores ≡ ss ++ ts)
  score_rows-append [] ys scores e = ([], scores, unfold score_rows in refl, e, refl)
  score_rows-append (x ∷ xs) ys scores e =
      let (avg, rest, h, hs, eq) = score_rows_split x (xs ++ ys) scores e in
      let (ss, ts, l, r, parts) = score_rows-append xs ys rest hs in
      (
        score round num_bins v x avg ∷ ss,
        ts,
        score_rows_next x xs avg ss h l,
        r,
        eq ∙ ap (λ t. score round num_bins v x avg ∷ t) parts,
      )

  length-score_rows :
      (rows : List (Row W)) (scores : List (Score W))
      → score_rows round num_bins v ws rows ≡ some scores
      → length scores ≡ length rows
  length-score_rows [] scores e = ap length (score_rows_none scores e)
  length-score_rows (r ∷ rows) scores e =
      let (avg, rest, h, hs, eq) = score_rows_split r rows scores e in
      ap length eq ∙ ap suc (length-score_rows rows rest hs)

  add_chunks_next :
      (rows : List (Row W)) (chunks : List (List (Row W))) (ss : List (Score W)) (t : Totals W)
      → score_rows round num_bins v ws rows ≡ some ss
      → add_chunks round num_bins v ws (rows ∷ chunks) t
        ≡ add_chunks round num_bins v ws chunks (add_chunk ss t)
  unfolding add_chunks
  add_chunks_next rows chunks ss t e = rw (add_chunks, e)

  add_chunks-scores :
      (chunks : List (List (Row W))) (t : Totals W) (scores : List (Score W))
      → score_rows round num_bins v ws (joined chunks) ≡ some scores
      → (u : Totals W) × (add_chunks round num_bins v ws chunks t ≡ some u)
        × (u.pit_arr ≡ t.pit_arr ++ map (λ s. s.pit) scores)
        × (u.per_adv ≡ add_shares scores t.per_adv)
  unfolding add_chunk
  add_chunks-scores [] t scores e =
      let none_left = score_rows_none scores e in
      (
        t,
        unfold add_chunks in refl,
        rw (none_left, append-nil t.pit_arr),
        rw none_left (unfold add_shares in refl),
      )
  add_chunks-scores (rows ∷ chunks) t scores e =
      let (ss, ts, l, r, parts) = score_rows-append rows (joined chunks) scores e in
      let (u, run, pits, advs) = add_chunks-scores chunks (add_chunk ss t) ts r in
      (
        u,
        add_chunks_next rows chunks ss t l ∙ run,
        pits
            ∙ append_assoc t.pit_arr _ _
            ∙ ap (λ r. t.pit_arr ++ r)
                (sym (map-append (λ s. s.pit) ss ts) ∙ ap (map (λ s. s.pit)) (sym parts)),
        advs ∙ add_shares-append ss ts t.per_adv ∙ ap (λ r. add_shares r t.per_adv) (sym parts),
      )

  -- If every row has an average, then for a chunk of at least 1 the evaluation goes through, the
  -- PIT values are those of the rows in order, the accumulators of the advertisers are those of a
  -- single pass over the rows, and together they count each row once: none of these depends on the
  -- size of the chunks.
  pub ensemble_totals-by_row :
      (chunk : ℕ) (rows : List (Row W)) (scores : List (Score W))
      → 0 < chunk
      → score_rows round num_bins v ws rows ≡ some scores
      → (t : Totals W) × (ensemble_totals round num_bins v ws chunk rows ≡ some t)
        × (t.pit_arr ≡ map (λ s. s.pit) scores)
        × (t.per_adv ≡ add_shares scores (no_shares (map (λ r. r.adv) rows)))
        × (share_count t.per_adv ≡ length rows)
  unfolding ensemble_totals no_totals
  ensemble_totals-by_row chunk rows scores h e =
      let all : joined (slices (length rows) chunk 0 rows) ≡ rows =
        joined-slices chunk rows (length rows) 0 h (omega arith) in
      let advs = map (λ r. r.adv) rows in
      let (t, run, pits, shares) =
        add_chunks-scores (slices (length rows) chunk 0 rows) (no_totals advs) scores (rw all e) in
      (
        t,
        run,
        pits,
        shares,
        omega (
          arith,
          ap share_count shares,
          share_count-add_shares scores (no_shares advs),
          share_count-no_shares W advs,
          length-score_rows rows scores e,
        ),
      )
