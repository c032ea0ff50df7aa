-- ===== src/Features/Encode/Codes.antt =====
-- Theorems on the codes that `fit_encoder` of rtb-bid-model/src/features.py gives.
use ads_bidding_optimizer.Prelude.{
  ℕ, ◌+◌, ◌<◌, ◌≡◌, ◌≢◌, ◌↔◌, ◌⊎◌, refl, sym, ◌∙◌, ap, ap₂, Bool, true, false, ◌&&◌, ◌||◌, none,
  some, [], ◌∷◌, length, ltb, leb, Bool-cases, inl, inr, arith,
}
use ads_bidding_optimizer.Dict.{
  Key, ◌==◌, Dict, lookup, contains, put, or_default, insert_by_count, most_common,
}
use ads_bidding_optimizer.Dict.Laws.{lookup-put}
use ads_bidding_optimizer.Features.Encode.{fit_from, fit_encoder, encode, vocab_size}

module _ {ℓ} {K : Type ℓ} ⦃e : Key K⦄ where
  -- `v` is counted at least `min_count` times
  pub is_frequent : ℕ → K → Dict K ℕ → Bool
  is_frequent min_count v [] = false
  is_frequent min_count v ((k, c) ∷ l) = ((k == v) && leb min_count c) || is_frequent min_count v l

  is_frequent-insert :
      (m : ℕ) (v k : K) (c : ℕ) (l : Dict K ℕ)
      → is_frequent m v (insert_by_count (k, c) l) ≡ is_frequent m v ((k, c) ∷ l)
  unfolding is_frequent insert_by_count
  is_frequent-insert m v k c [] = refl
  is_frequent-insert m v k c ((j, d) ∷ l) = ground (arith, is_frequent-insert m v k c l)

  is_frequent-most_common :
      (m : ℕ) (v : K) (l : Dict K ℕ) → is_frequent m v (most_common l) ≡ is_frequent m v l
  unfolding most_common is_frequent
  is_frequent-most_common m v [] = refl
  is_frequent-most_common m v ((k, c) ∷ l) =
      is_frequent-insert m v k c (most_common l)
      ∙ ap (λ b. ((k == v) && leb m c) || b) (is_frequent-most_common m v l)

  contains-put :
      (k j : K) (n : ℕ) (d : Dict K ℕ) → contains j (put k n d) ≡ (k == j) || contains j d
  unfolding contains put
  contains-put k j n [] = refl
  contains-put k j n ((i, w) ∷ d) =
      ground (arith, e.same_iff k j, e.same_iff i k, e.same_iff i j, contains-put k j n d)

  contains-fit_from :
      (m : ℕ) (v : K) (d : Dict K ℕ) (idx : ℕ) (l : Dict K ℕ)
      → contains v (fit_from m d idx l) ≡ contains v d || is_frequent m v l
  unfolding fit_from is_frequent
  contains-fit_from m v d idx [] = ground arith
  contains-fit_from m v d idx ((k, c) ∷ l) = ground (
    arith,
    contains-fit_from m v d idx l,
    contains-fit_from m v (put k idx d) (idx + 1) l,
    contains-put k v idx d,
    e.same_iff k v,
  )

  -- an entry that is looked up has a code below `n`, and 0 only for `unk`
  abbrev Coded : K → ℕ → Dict K ℕ → Type ℓ
  Coded unk n d = (v : K) (i : ℕ) → lookup v d ≡ some i → (i < n) × (i ≡ 0 → v ≡ unk)

  -- two values with one code are one value
  abbrev Distinct : Dict K ℕ → Type ℓ
  Distinct d = (v w : K) (i : ℕ) → lookup v d ≡ some i → lookup w d ≡ some i → v ≡ w

  length-put_new :
      (k : K) (n : ℕ) (d : Dict K ℕ) → contains k d ≡ false → length (put k n d) ≡ length d + 1
  unfolding contains put
  length-put_new k n [] h = refl
  length-put_new k n ((j, w) ∷ d) h = ground (arith, length-put_new k n d)

  put-Coded :
      (unk k : K) (n : ℕ) (d : Dict K ℕ) → 0 < n → Coded unk n d → Coded unk (n + 1) (put k n d)
  put-Coded unk k n d pos h v i p = ground (arith, lookup-put k v n d, h v i)

  put-Distinct :
      (unk k : K) (n : ℕ) (d : Dict K ℕ) → Coded unk n d → Distinct d → Distinct (put k n d)
  put-Distinct unk k n d c h v w i p q = ground (
    arith,
    lookup-put k v n d,
    lookup-put k w n d,
    e.same_iff k v,
    e.same_iff k w,
    h v w i,
    c v i,
    c w i,
  )

  contains-none : (v : K) (d : Dict K ℕ) → contains v d ≡ false → lookup v d ≡ none
  unfolding contains lookup
  contains-none v [] h = refl
  contains-none v ((j, w) ∷ d) h = ground (arith, contains-none v d)

  -- Codes run from 0 to one below the number of entries.
  abbrev Numbered : K → Dict K ℕ → Type ℓ
  Numbered unk d = (0 < length d) × Coded unk (length d) d × Distinct d × (lookup unk d ≡ some 0)

  put-Numbered :
      (unk k : K) (idx : ℕ) (d : Dict K ℕ)
      → length d ≡ idx
      → contains k d ≡ false
      → Numbered unk d
      → Numbered unk (put k idx d)
  put-Numbered unk k idx d len new h =
      let grown : length (put k idx d) ≡ idx + 1 =
        length-put_new k idx d new ∙ ap (λ n. n + 1) len in
      let coded : Coded unk idx d = rw len at h.1 in
      (
        omega arith,
        rw grown (put-Coded unk k idx d (omega arith) coded),
        put-Distinct unk k idx d coded h.2,
        ground (arith, lookup-put k unk idx d, e.same_iff k unk, contains-none k d new, h.3),
      )

  fit_from-Numbered :
      (unk : K) (m : ℕ) (d : Dict K ℕ) (idx : ℕ) (l : Dict K ℕ)
      → length d ≡ idx
      → Numbered unk d
      → Numbered unk (fit_from m d idx l)
  unfolding fit_from
  fit_from-Numbered unk m d idx [] e h = h
  fit_from-Numbered unk m d idx ((k, c) ∷ l) e h = elim (Bool-cases (ltb c m)) [
    | inl rare ↦ rw rare (fit_from-Numbered unk m d idx l e h)
    | inr common ↦ elim (Bool-cases (contains k d)) [
      | inl old ↦ rw common (rw old (fit_from-Numbered unk m d idx l e h))
      | inr new ↦ rw common (
          rw new (
            fit_from-Numbered unk m (put k idx d) (idx + 1) l
              (length-put_new k idx d new ∙ ap (λ n. n + 1) e) (put-Numbered unk k idx d e new h)))
    ]
  ]

  contains-some : (v : K) (d : Dict K ℕ) → contains v d ≡ true → (i : ℕ) × (lookup v d ≡ some i)
  unfolding contains lookup
  contains-some v [] h = absurd (cc)
  contains-some v ((j, w) ∷ d) h = elim (Bool-cases (j == v)) [
    | inl here ↦ (w, rw here)
    | inr there ↦ let r = contains-some v d (rw there at h) in (r.0, rw there r.1)
  ]

  single-Numbered : (unk : K) → Numbered unk ((unk, 0) ∷ [])
  unfolding lookup
  single-Numbered unk = (
    omega arith,
    λ v i p. ground (arith, e.same_iff unk v),
    λ v w i p q. ground (arith, e.same_iff unk v, e.same_iff unk w),
    ground (arith, e.same_iff unk unk),
  )

  single-contains : (unk v : K) → contains {V = ℕ} v ((unk, 0) ∷ []) ≡ (unk == v)
  unfolding contains
  single-contains unk v = ground arith

  module _ (unk : K) (counter : Dict K ℕ) (min_count : ℕ) where
    fitted-Numbered : Numbered unk (fit_encoder unk counter min_count)
    unfolding fit_encoder
    fitted-Numbered =
        fit_from-Numbered unk min_count ((unk, 0) ∷ []) 1 (most_common counter) refl
          (single-Numbered unk)

    contains-fit_encoder :
        (v : K)
        → contains v (fit_encoder unk counter min_count)
          ≡ (unk == v) || is_frequent min_count v counter
    unfolding fit_encoder
    contains-fit_encoder v =
        contains-fit_from min_count v ((unk, 0) ∷ []) 1 (most_common counter)
        ∙ ap₂ (λ b c. b || c) (single-contains unk v) (is_frequent-most_common min_count v counter)

    -- the code of a value, and why it has that code
    encode-cases :
        (v : K)
        → (contains v (fit_encoder unk counter min_count) ≡ false)
            × (encode (fit_encoder unk counter min_count) v ≡ 0)
          ⊎ (lookup v (fit_encoder unk counter min_count)
              ≡ some (encode (fit_encoder unk counter min_count) v))
    unfolding encode
    encode-cases v = elim (Bool-cases (contains v (fit_encoder unk counter min_count))) [
      | inr out ↦ inl (out, rw (contains-none v (fit_encoder unk counter min_count) out))
      | inl within ↦
          let r = contains-some v (fit_encoder unk counter min_count) within in
          inr (r.1 ∙ ap some (sym (ap (or_default 0) r.1)))
    ]

    back :
        (v : K)
        → lookup v (fit_encoder unk counter min_count)
          ≡ some (encode (fit_encoder unk counter min_count) v)
        → (v ≡ unk) ⊎ (is_frequent min_count v counter ≡ false)
        → encode (fit_encoder unk counter min_count) v ≡ 0
    back v found why = ground (
      arith,
      contains-fit_encoder v,
      contains-none v (fit_encoder unk counter min_count),
      e.same_iff unk v,
      fitted-Numbered.3,
    )

    distinct :
        (v w : K)
        → lookup v (fit_encoder unk counter min_count)
          ≡ some (encode (fit_encoder unk counter min_count) v)
        → encode (fit_encoder unk counter min_count) v ≢ 0
        → encode (fit_encoder unk counter min_count) v
          ≡ encode (fit_encoder unk counter min_count) w
        → v ≡ w
    distinct v w found nz same = elim (encode-cases w) [
      | inl out ↦ absurd (nz (same ∙ out.1))
      | inr found' ↦ fitted-Numbered.2 v w _ found (found' ∙ ap some (sym same))
    ]

    -- Every value has a code below the number of entries of the vocabulary, so below the size of
    -- the embedding table, whose last row is never used; and a value has code 0 exactly if it is
    -- '<UNK>' or is not counted at least `min_count` times.
    pub fit_encoder_codes :
        (v : K)
        → let vocab = fit_encoder unk counter min_count in
          (encode vocab v + 1 < vocab_size vocab)
          × ((encode vocab v ≡ 0) ↔ ((v ≡ unk) ⊎ (is_frequent min_count v counter ≡ false)))
    unfolding vocab_size
    fit_encoder_codes v =
        let n = fitted-Numbered in
        let codes = λ (u : K). n.1 u (encode (fit_encoder unk counter min_count) u) in
        elim (encode-cases v) [
          | inl out ↦ (
            rw out.1 (omega (arith, n.0)),
            (λ z. ground (arith, contains-fit_encoder v, out), λ z. out.1),
          )
          | inr found ↦
              (omega (arith, (codes v found).0), (λ z. inl ((codes v found).1 z), back v found))
        ]

    -- Two different values of which one has a code other than 0 have different codes.
    encode-injective :
        (v w : K)
        → v ≢ w
        → encode (fit_encoder unk counter min_count) v ≢ 0
        → encode (fit_encoder unk counter min_count) v
          ≢ encode (fit_encoder unk counter min_count) w
    encode-injective v w differ nz same = elim (encode-cases v) [
      | inl out ↦ absurd (nz out.1)
      | inr found ↦ absurd (differ (distinct v w found nz same))
    ]
