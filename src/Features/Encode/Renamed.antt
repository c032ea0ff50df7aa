-- ===== src/Features/Encode/Renamed.antt =====
-- A theorem on the vocabulary of the tags in `main` of rtb-bid-model/src/features.py.
use ads_bidding_optimizer.Prelude.{
  ℕ, ◌+◌, ◌≡◌, refl, ap, ◌∙◌, true, false, none, [], ◌∷◌, Bool-cases, inl, inr, ltb, if◌then◌else◌,
  arith,
}
use ads_bidding_optimizer.Dict.{Key, ◌==◌, Dict, lookup, contains, put, or_default, most_common}
use ads_bidding_optimizer.Dict.Laws.{lookup-put}
use ads_bidding_optimizer.Features.Encode.{
  fit_from, fit_encoder, rename_from, fit_tag_vocab, encode,
}

module _ {ℓ} {K : Type ℓ} ⦃e : Key K⦄ where
  -- no key has two entries, and none is `unk`
  abbrev pub IsPlain : K → Dict K ℕ → Type 0
  IsPlain unk [] = Unit
  IsPlain unk ((k, v) ∷ d) = ((k == unk) ≡ false) × (contains k d ≡ false) × IsPlain unk d

  lookup-rename_from :
      (unk pad p : K) (rest new : Dict K ℕ)
      → IsPlain unk rest
      → lookup p (rename_from unk pad new rest)
        ≡ (if contains p rest then lookup p rest else lookup p new)
  unfolding rename_from lookup contains
  lookup-rename_from unk pad p [] new h = refl
  lookup-rename_from unk pad p ((k, v) ∷ rest) new (other, once, h) = rw other (
      ground (
        arith,
        lookup-rename_from unk pad p rest (put k v new) h,
        lookup-put k p v new,
        e.same_iff k p,
        once,
      ))

  pub contains-put :
      (k j : K) (n : ℕ) (d : Dict K ℕ)
      → contains j d ≡ false
      → (k == j) ≡ false
      → contains j (put k n d) ≡ false
  unfolding contains put
  contains-put k j n [] h other = ground arith
  contains-put k j n ((i, w) ∷ d) h other = ground (arith, e.same_iff i k, contains-put k j n d)

  put-IsPlain :
      (unk k : K) (n : ℕ) (d : Dict K ℕ)
      → contains k d ≡ false
      → (k == unk) ≡ false
      → IsPlain unk d
      → IsPlain unk (put k n d)
  unfolding put contains
  put-IsPlain unk k n [] h other plain = (other, refl, tt)
  put-IsPlain unk k n ((i, w) ∷ d) h other (i_other, once, plain) =
      let apart : (i == k) ≡ false = ground arith in
      let later : contains k d ≡ false = ground arith in
      let swapped : (k == i) ≡ false = ground (arith, e.same_iff i k, e.same_iff k i) in
      rw apart (i_other, contains-put k i n d once swapped, put-IsPlain unk k n d later other plain)

  -- the vocabulary is '<UNK>' and entries that are plain
  pub fit_from-IsPlain :
      (m idx : ℕ) (unk : K) (d l : Dict K ℕ)
      → IsPlain unk d
      → (d' : Dict K ℕ) × (fit_from m ((unk, 0) ∷ d) idx l ≡ (unk, 0) ∷ d') × IsPlain unk d'
  unfolding fit_from contains put
  fit_from-IsPlain m idx unk d [] plain = (d, refl, plain)
  fit_from-IsPlain m idx unk d ((v, c) ∷ l) plain = elim (Bool-cases (ltb c m)) [
    | inl rare ↦ rw rare (fit_from-IsPlain m idx unk d l plain)
    | inr frequent ↦ elim (Bool-cases (contains v ((unk, 0) ∷ d))) [
      | inl known ↦ rw (frequent, known) (fit_from-IsPlain m idx unk d l plain)
      | inr new ↦
          let other : (unk == v) ≡ false = ground arith in
          let fresh : contains v d ≡ false = ground arith in
          let not_unk : (v == unk) ≡ false = ground (arith, e.same_iff unk v, e.same_iff v unk) in
          rw (frequent, fresh, other)
            (fit_from-IsPlain m (idx + 1) unk (put v idx d) l
              (put-IsPlain unk v idx d fresh not_unk plain))
    ]
  ]

  same_refl : (k : K) → (k == k) ≡ true
  same_refl k = (e.same_iff k k).1 refl

  lookup-missing : (k : K) (d : Dict K ℕ) → contains k d ≡ false → lookup k d ≡ none
  unfolding lookup contains
  lookup-missing k [] h = refl
  lookup-missing k ((j, v) ∷ d) h = ground (arith, lookup-missing k d)

  plain-unk : (unk : K) (d : Dict K ℕ) → IsPlain unk d → contains unk d ≡ false
  unfolding contains
  plain-unk unk [] h = refl
  plain-unk unk ((k, v) ∷ d) h = rw h.0 (plain-unk unk d h.2)

  codes_agree :
      (unk pad p : K) (d : Dict K ℕ)
      → IsPlain unk d
      → or_default 0 (if contains p d then lookup p d else lookup p ((pad, 0) ∷ []))
        ≡ or_default 0 (lookup p ((unk, 0) ∷ d))
  unfolding lookup
  codes_agree unk pad p d plain =
      ground (arith, e.same_iff unk p, plain-unk unk d plain, lookup-missing p d)

  pub rename_first :
      (unk pad : K) (d : Dict K ℕ)
      → rename_from unk pad [] ((unk, 0) ∷ d) ≡ rename_from unk pad ((pad, 0) ∷ []) d
  unfolding rename_from put
  rename_first unk pad d = rw (same_refl unk) refl

  -- A tag has the same code after '<UNK>' is renamed in the vocabulary, whatever the other name is,
  -- also if there is a tag with that name.
  pub encode-fit_tag_vocab :
      (unk pad : K) (counter : Dict K ℕ) (min_count : ℕ) (tag : K)
      → encode (fit_tag_vocab unk pad counter min_count) tag
        ≡ encode (fit_encoder unk counter min_count) tag
  unfolding encode fit_tag_vocab fit_encoder
  encode-fit_tag_vocab unk pad counter min_count tag =
      let (d, found, plain) = fit_from-IsPlain min_count 1 unk [] (most_common counter) tt in
      let renamed = lookup-rename_from unk pad tag d ((pad, 0) ∷ []) plain in
      rw found (
        ap (λ v. or_default 0 (lookup tag v)) (rename_first unk pad d)
        ∙ ap (or_default 0) renamed
        ∙ codes_agree unk pad tag d plain)
