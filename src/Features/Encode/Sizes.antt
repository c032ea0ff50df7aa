-- ===== src/Features/Encode/Sizes.antt =====
-- The size of the vocabulary of the tags in `main` of rtb-bid-model/src/features.py.
use ads_bidding_optimizer.Prelude.{ℕ, ◌+◌, ◌<◌, ◌≡◌, ap, ◌∙◌, false, [], ◌∷◌, All, length, arith}
use mathlib.Core.Path.{subst}
use ads_bidding_optimizer.Dict.{Key, ◌==◌, Dict, contains, put, most_common}
use ads_bidding_optimizer.Features.Encode.{
  fit_encoder, rename_from, fit_tag_vocab, encode, vocab_size,
}
use ads_bidding_optimizer.Features.Encode.Codes.{fit_encoder_codes}
use ads_bidding_optimizer.Features.Encode.Keys.{Keys, fit_encoder-Keys}
use ads_bidding_optimizer.Features.Encode.Renamed.{
  IsPlain, contains-put, fit_from-IsPlain, rename_first, encode-fit_tag_vocab,
}

module _ {ℓ} {K : Type ℓ} ⦃e : Key K⦄ where
  length-put :
      (k : K) (v : ℕ) (d : Dict K ℕ) → contains k d ≡ false → length (put k v d) ≡ length d + 1
  unfolding put contains
  length-put k v [] h = omega arith
  length-put k v ((j, w) ∷ d) h = ground (arith, length-put k v d)

  -- no key of `rest` is in `new`
  abbrev IsFresh : Dict K ℕ → Dict K ℕ → Type 0
  IsFresh new rest = All (λ kv. contains kv.0 new ≡ false) rest

  put-IsFresh :
      (k : K) (v : ℕ) (new rest : Dict K ℕ)
      → contains k rest ≡ false
      → IsFresh new rest
      → IsFresh (put k v new) rest
  unfolding contains
  put-IsFresh k v new [] once h = tt
  put-IsFresh k v new ((j, w) ∷ rest) once h =
      let later : contains k rest ≡ false = ground arith in
      let apart : (k == j) ≡ false = ground (arith, e.same_iff j k, e.same_iff k j) in
      (contains-put k j v new h.0 apart, put-IsFresh k v new rest later h.1)

  length-rename_from :
      (unk pad : K) (new rest : Dict K ℕ)
      → IsPlain unk rest
      → IsFresh new rest
      → length (rename_from unk pad new rest) ≡ length new + length rest
  unfolding rename_from
  length-rename_from unk pad new [] plain fresh = omega arith
  length-rename_from unk pad new ((k, v) ∷ rest) (other, once, plain) fresh = rw other (
      omega (
        arith,
        length-put k v new fresh.0,
        length-rename_from unk pad (put k v new) rest plain (put-IsFresh k v new rest once fresh.1),
      ))

  -- the keys that are not `pad` are fresh beside it
  apart-IsFresh :
      (pad : K) (d : Dict K ℕ) → Keys (λ k. (pad == k) ≡ false) d → IsFresh ((pad, 0) ∷ []) d
  unfolding contains
  apart-IsFresh pad [] h = tt
  apart-IsFresh pad ((k, v) ∷ d) h = (ground arith, apart-IsFresh pad d h.1)

  length-fit_tag_vocab :
      (unk pad : K) (counter : Dict K ℕ) (min_count : ℕ)
      → (pad == unk) ≡ false
      → Keys (λ k. (pad == k) ≡ false) counter
      → length (fit_tag_vocab unk pad counter min_count)
        ≡ length (fit_encoder unk counter min_count)
  unfolding fit_tag_vocab fit_encoder
  length-fit_tag_vocab unk pad counter min_count apart keys =
      let (d, found, plain) = fit_from-IsPlain min_count 1 unk [] (most_common counter) tt in
      let kept = fit_encoder-Keys (λ k. (pad == k) ≡ false) unk counter min_count apart keys in
      let rest = subst (Keys (λ k. (pad == k) ≡ false)) found kept in
      rw found (
        ap length (rename_first unk pad d)
        ∙ length-rename_from unk pad ((pad, 0) ∷ []) d plain (apart-IsFresh pad d rest.1)
        ∙ omega arith)

  -- A code of the renamed vocabulary is below its size, if no key that is counted has the new name.
  pub encode-lt-length :
      (unk pad : K) (counter : Dict K ℕ) (min_count : ℕ) (tag : K)
      → (pad == unk) ≡ false
      → Keys (λ k. (pad == k) ≡ false) counter
      → encode (fit_tag_vocab unk pad counter min_count) tag
        < length (fit_tag_vocab unk pad counter min_count)
  unfolding vocab_size
  encode-lt-length unk pad counter min_count tag apart keys = omega (
    arith,
    encode-fit_tag_vocab unk pad counter min_count tag,
    length-fit_tag_vocab unk pad counter min_count apart keys,
    (fit_encoder_codes unk counter min_count tag).0,
  )
