-- ===== src/Search/Cached.antt =====
-- A theorem on the cache of rtb-bid-model/src/experiments/ens_search2.py.
use ads_bidding_optimizer.Prelude.{
  ℕ, ◌≡◌, ◌≢◌, refl, sym, ap, ◌∙◌, inl, inr, Bool, true, false, some, List, [], ◌∷◌, All,
  Bool-cases, not, ◌||◌,
}
use ads_bidding_optimizer.Float.{Float}
use ads_bidding_optimizer.Arrays.{Arrays}
use ads_bidding_optimizer.Dict.{Dict, Text, text_key, text_beq, text_beq_iff, lookup, contains, put}
use ads_bidding_optimizer.Dict.Laws.{lookup-put}
use ads_bidding_optimizer.Search.{Preds, load_member, mdn_to_bins_chunked, to_bins}
use ads_bidding_optimizer.Search.Streaming.{
  Source, mdn_to_bins_chunked_save, bins_to_mmap_save, saved_array, cache_member, build_cache,
}

-- No two members have the same file.
abbrev pub Distinct {ℓ} : {W : Type ℓ} → List (Source W) → Type 0
Distinct [] = Unit
Distinct (m ∷ ms) = All (λ x. m.cache_path ≢ x.cache_path) ms × Distinct ms

-- The file of a member is to be written.
abbrev pub IsStale {ℓ} : {W : Type ℓ} → Bool → Dict Text (List (List W)) → Source W → Type 0
IsStale rebuild cache m = (not (contains m.cache_path cache) || rebuild) ≡ true

text_beq_other : (k j : Text) → k ≢ j → text_beq k j ≡ false
text_beq_other k j h = elim (Bool-cases (text_beq k j)) [
  | inl same ↦ absurd (h ((text_beq_iff k j).0 same))
  | inr other ↦ other
]

module _ {ℓ} {V : Type ℓ} where
  contains-put :
      (k j : Text) (v : V) (d : Dict Text V) → k ≢ j → contains j (put k v d) ≡ contains j d
  unfolding contains put
  contains-put k j v [] h = rw (text_beq_other k j h) refl
  contains-put k j v ((i, w) ∷ d) h = elim (Bool-cases (text_beq i k)) [
    | inl same ↦ rw same refl
    | inr other ↦ rw other (ap (λ b. text_beq i j || b) (contains-put k j v d h))
  ]

  lookup-put_other :
      (k j : Text) (v : V) (d : Dict Text V) → k ≢ j → lookup j (put k v d) ≡ lookup j d
  lookup-put_other k j v d h = lookup-put k j v d ∙ rw (text_beq_other k j h) refl

  lookup-put_same : (k : Text) (v : V) (d : Dict Text V) → lookup k (put k v d) ≡ some v
  lookup-put_same k v d = lookup-put k k v d ∙ rw ((text_beq_iff k k).1 refl) refl

module _ {ℓ} {W : Type ℓ} ⦃f : Float W⦄ ⦃a : Arrays W⦄ (num_bins : ℕ) (rebuild : Bool) where
  saved_array-eq-load_member : (p : Preds W) → saved_array num_bins p ≡ load_member num_bins p
  unfolding saved_array load_member mdn_to_bins_chunked mdn_to_bins_chunked_save bins_to_mmap_save
      to_bins
  saved_array-eq-load_member (Preds.mixtures rows) = refl
  saved_array-eq-load_member (Preds.bins_rows rows) = refl

  cache_member_other :
      (m : Source W) (j : Text) (cache : Dict Text (List (List W)))
      → m.cache_path ≢ j
      → (lookup j (cache_member num_bins rebuild m cache) ≡ lookup j cache)
        × (contains j (cache_member num_bins rebuild m cache) ≡ contains j cache)
  unfolding cache_member
  cache_member_other m j cache h =
      elim (Bool-cases (not (contains m.cache_path cache) || rebuild)) [
        | inl built ↦ rw built (
          lookup-put_other m.cache_path j (saved_array num_bins m.preds) cache h,
          contains-put m.cache_path j (saved_array num_bins m.preds) cache h,
        )
        | inr kept ↦ rw kept (refl, refl)
      ]

  build_cache_other :
      (members : List (Source W)) (j : Text) (cache : Dict Text (List (List W)))
      → All (λ x. j ≢ x.cache_path) members
      → lookup j (build_cache num_bins rebuild members cache) ≡ lookup j cache
  unfolding build_cache
  build_cache_other [] j cache hs = refl
  build_cache_other (m ∷ members) j cache hs =
      build_cache_other members j (cache_member num_bins rebuild m cache) hs.1
      ∙ (cache_member_other m j cache (λ e. hs.0 (sym e))).0

  cache_member-built :
      (m : Source W) (cache : Dict Text (List (List W)))
      → IsStale rebuild cache m
      → lookup m.cache_path (cache_member num_bins rebuild m cache)
        ≡ some (load_member num_bins m.preds)
  unfolding cache_member
  cache_member-built m cache h = rw h (
      lookup-put_same m.cache_path (saved_array num_bins m.preds) cache
      ∙ ap some (saved_array-eq-load_member m.preds))

  cache_member-IsStale :
      (m : Source W) (members : List (Source W)) (cache : Dict Text (List (List W)))
      → All (λ x. m.cache_path ≢ x.cache_path) members
      → All (IsStale rebuild cache) members
      → All (IsStale rebuild (cache_member num_bins rebuild m cache)) members
  cache_member-IsStale m [] cache ds hs = tt
  cache_member-IsStale m (x ∷ members) cache ds hs = (
    rw ((cache_member_other m x.cache_path cache ds.0).1) hs.0,
    cache_member-IsStale m members cache ds.1 hs.1,
  )

  -- Where no two members have the same file, and each file is missing or `--rebuild_cache` is given,
  -- the cache ends with, for every member, the array that `load_member` of ens_search.py computes.
  build_cache-loaded :
      (members : List (Source W)) (cache : Dict Text (List (List W)))
      → Distinct members
      → All (IsStale rebuild cache) members
      → All
          (λ m.
            lookup m.cache_path (build_cache num_bins rebuild members cache)
            ≡ some (load_member num_bins m.preds))
          members
  unfolding build_cache
  build_cache-loaded [] cache ds hs = tt
  build_cache-loaded (m ∷ members) cache ds hs = (
    build_cache_other members m.cache_path (cache_member num_bins rebuild m cache) ds.0
        ∙ cache_member-built m cache hs.0,
    build_cache-loaded members (cache_member num_bins rebuild m cache) ds.1
        (cache_member-IsStale m members cache ds.0 hs.1),
  )
