-- ===== src/Features/Encode/Keys.antt =====
-- The keys of the encoders that features.py fits are those of the counter, and '<UNK>'.
use ads_bidding_optimizer.Prelude.{ℕ, ◌+◌, List, [], ◌∷◌, All, Bool-cases, inl, inr, ltb, leb}
use ads_bidding_optimizer.Dict.{
  Key, Dict, ◌==◌, contains, put, most_common, insert_by_count, count_one, count_all,
}
use ads_bidding_optimizer.Features.Encode.{fit_from, fit_encoder}

module _ {ℓ κ} {K : Type ℓ} ⦃e : Key K⦄ (P : K → Type κ) where
  -- every key of a dictionary has the property
  abbrev pub Keys : Dict K ℕ → Type κ
  Keys d = All (λ kv. P kv.0) d

  put-Keys : (k : K) (v : ℕ) (d : Dict K ℕ) → P k → Keys d → Keys (put k v d)
  unfolding put
  put-Keys k v [] p h = (p, tt)
  put-Keys k v ((j, w) ∷ d) p h = elim (Bool-cases (j == k)) [
    | inl same ↦ rw same (h.0, h.1)
    | inr differ ↦ rw differ (h.0, put-Keys k v d p h.1)
  ]

  pub count_all-Keys : (ks : List K) (d : Dict K ℕ) → All P ks → Keys d → Keys (count_all ks d)
  unfolding count_all count_one
  count_all-Keys [] d hs h = h
  count_all-Keys (k ∷ ks) d hs h = count_all-Keys ks _ hs.1 (put-Keys k _ d hs.0 h)

  insert-Keys : (k : K) (c : ℕ) (l : Dict K ℕ) → P k → Keys l → Keys (insert_by_count (k, c) l)
  unfolding insert_by_count
  insert-Keys k c [] p h = (p, tt)
  insert-Keys k c ((j, d) ∷ l) p h = elim (Bool-cases (leb d c)) [
    | inl before ↦ rw before (p, (h.0, h.1))
    | inr after ↦ rw after (h.0, insert-Keys k c l p h.1)
  ]

  most_common-Keys : (l : Dict K ℕ) → Keys l → Keys (most_common l)
  unfolding most_common
  most_common-Keys [] h = tt
  most_common-Keys ((k, c) ∷ l) h = insert-Keys k c (most_common l) h.0 (most_common-Keys l h.1)

  fit_from-Keys :
      (min_count : ℕ) (vocab : Dict K ℕ) (idx : ℕ) (l : Dict K ℕ)
      → Keys vocab
      → Keys l
      → Keys (fit_from min_count vocab idx l)
  unfolding fit_from
  fit_from-Keys min_count vocab idx [] h hs = h
  fit_from-Keys min_count vocab idx ((v, c) ∷ l) h hs =
      let skip = fit_from-Keys min_count vocab idx l h hs.1 in
      elim (Bool-cases (ltb c min_count)) [
        | inl rare ↦ rw rare skip
        | inr frequent ↦ elim (Bool-cases (contains v vocab)) [
          | inl known ↦ rw (frequent, known) skip
          | inr new ↦
              rw (frequent, new)
                (fit_from-Keys min_count (put v idx vocab) (idx + 1) l (put-Keys v idx vocab hs.0 h)
                  hs.1)
        ]
      ]

  pub fit_encoder-Keys :
      (unk : K) (counter : Dict K ℕ) (min_count : ℕ)
      → P unk
      → Keys counter
      → Keys (fit_encoder unk counter min_count)
  unfolding fit_encoder
  fit_encoder-Keys unk counter min_count p h =
      fit_from-Keys min_count _ 1 (most_common counter) (p, tt) (most_common-Keys counter h)
