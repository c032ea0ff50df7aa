-- ===== src/Dict/Laws.antt =====
-- Lemmas on dictionaries and counters, for the encoders of rtb-bid-model/src/features.py.
use ads_bidding_optimizer.Prelude.{ℕ, ◌+◌, ◌≡◌, refl, some, List, [], ◌∷◌, if◌then◌else◌, arith}
use ads_bidding_optimizer.Dict.{Key, ◌==◌, Dict, lookup, put, or_default, count_one, count_all}

module _ {ℓ κ} {K : Type ℓ} {V : Type κ} ⦃e : Key K⦄ where
  pub lookup-put :
      (k j : K) (v : V) (d : Dict K V)
      → lookup j (put k v d) ≡ (if k == j then some v else lookup j d)
  unfolding lookup put
  lookup-put k j v [] = refl
  lookup-put k j v ((i, w) ∷ d) =
      ground (arith, e.same_iff k j, e.same_iff i k, e.same_iff i j, lookup-put k j v d)

module _ {ℓ} {K : Type ℓ} ⦃e : Key K⦄ where
  -- how often a value stands in a list
  pub occurrences : K → List K → ℕ
  occurrences k [] = 0
  occurrences k (j ∷ js) = if j == k then occurrences k js + 1 else occurrences k js

  -- Counting the values of a list adds to the count of each value the number of times that it
  -- stands in the list, whatever the counter holds.
  pub count_all-counts :
      (k : K) (ks : List K) (d : Dict K ℕ)
      → or_default 0 (lookup k (count_all ks d)) ≡ or_default 0 (lookup k d) + occurrences k ks
  unfolding count_all count_one occurrences
  count_all-counts k [] d = omega arith
  count_all-counts k (j ∷ js) d = ground (
    arith,
    count_all-counts k js (count_one j d),
    lookup-put j k (or_default 0 (lookup j d) + 1) d,
    e.same_iff j k,
  )
