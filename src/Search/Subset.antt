-- ===== src/Search/Subset.antt =====
-- rtb-bid-model/src/experiments/ens_search3.py: the search for weights on a subset of the rows, whose
-- best weights are validated on all rows. The rows of the subset and the draws are arguments.
use ads_bidding_optimizer.Prelude.{
  ℕ, zero, suc, get_or, Option, none, some, List, [], ◌∷◌, ◌++◌, map, take, get_elem?, replicate,
  zip_with, if◌then◌else◌,
}
use ads_bidding_optimizer.Float.{Float, ◌⊕◌, ◌⊖◌, ◌⊗◌, ◌≤?◌, ◌<?◌, nought}
use ads_bidding_optimizer.Arrays.{Arrays}
use ads_bidding_optimizer.Search.{
  Priced, clipped_normalise, fixed_bid, logged_bid, mean, fixed_regrets, logged_regrets,
}
use ads_bidding_optimizer.Search.Weights.{Trial, MemberRow, search_weights}

-- an entry of `full_results`
pub record Checked {ℓ} (W : Type ℓ) : Type ℓ where
  pub w : List W
  pub r150_sub : W
  pub r150_full : W
  pub rvbid_full : W

-- what is saved
pub record Final {ℓ} (W : Type ℓ) : Type ℓ where
  pub best_full : Checked W
  pub top_full : List (Checked W)
  pub subset_results : List (Trial W)
  pub member_results : List W

-- `arr[idx]`; an index out of range raises
unfoldable pub pick {ℓ} : {A : Type ℓ} → List ℕ → List A → Option (List A)
pick [] rows = some []
pick (i ∷ idx) rows = elim (get_elem? rows i) [
  | none ↦ none
  | some r ↦ elim (pick idx rows) [ none ↦ none | some rs ↦ some (r ∷ rs) ]
]

module _ {ℓ κ} {A : Type ℓ} {W : Type κ} ⦃f : Float W⦄ where
  unfoldable pub insert_by : (A → W) → A → List A → List A
  insert_by key x [] = x ∷ []
  insert_by key x (y ∷ ys) =
      let rest = insert_by key x ys in if key x ≤? key y then x ∷ y ∷ ys else y ∷ rest

  -- `xs.sort(key=key)`, which is stable
  unfoldable pub sort_by : (A → W) → List A → List A
  sort_by key [] = []
  sort_by key (x ∷ xs) = insert_by key x (sort_by key xs)

module _ {ℓ} {W : Type ℓ} ⦃f : Float W⦄ where
  -- the loop of `avg_probs`, which leaves out weights that are not positive; there is a weight for
  -- each member
  unfoldable pub add_positive : List W → List (List W) → List W → List W
  add_positive [] probs_list avg = avg
  add_positive (w ∷ weights) [] avg = avg
  add_positive (w ∷ weights) (p ∷ probs_list) avg =
      add_positive weights probs_list
        (if nought <? w then zip_with (λ x y. x ⊕ w ⊗ y) avg p else avg)

  abbrev pub wide_deltas : List W
  wide_deltas =
      (nought ⊖ f.lit 15 2)
      ∷ (nought ⊖ f.lit 1 1)
      ∷ (nought ⊖ f.lit 5 2)
      ∷ (nought ⊖ f.lit 2 2)
      ∷ f.lit 2 2
      ∷ f.lit 5 2
      ∷ f.lit 1 1
      ∷ f.lit 15 2
      ∷ []

module _ {ℓ} {W : Type ℓ} ⦃f : Float W⦄ ⦃a : Arrays W⦄ where
  unfoldable pub avg_probs : ℕ → List W → MemberRow W → Priced W
  avg_probs num_bins weights r = record {
    probs = clipped_normalise (add_positive weights r.member_probs (replicate num_bins nought));
    pp = r.pp;
    bid = r.bid;
  }

  unfoldable pub regret_v150 : (W → ℕ) → W → List (Priced W) → W
  regret_v150 ceil V rows = mean (fixed_regrets V rows (map (λ r. fixed_bid ceil V r.probs) rows))

  unfoldable pub regret_vbid : List (Priced W) → W
  regret_vbid rows = mean (logged_regrets rows (map (λ r. logged_bid r.bid r.probs) rows))

  -- the regret on the subset, or on all rows
  unfoldable pub subset_regret : (W → ℕ) → ℕ → List (MemberRow W) → List W → W
  subset_regret ceil num_bins rows w =
      regret_v150 ceil (f.lit 150 0) (map (avg_probs num_bins w) rows)

  -- a row of the member `i` alone, and the regrets of the `n` members from `i` on
  unfoldable pub member_alone : ℕ → MemberRow W → Priced W
  member_alone i r = record { probs = get_or r.member_probs i []; pp = r.pp; bid = r.bid }

  unfoldable pub alone_regrets : (W → ℕ) → ℕ → ℕ → List (MemberRow W) → List W
  alone_regrets ceil zero i rows = []
  alone_regrets ceil (suc n) i rows =
      regret_v150 ceil (f.lit 150 0) (map (member_alone i) rows) ∷ alone_regrets ceil n (suc i) rows

  -- the loop over the candidates
  unfoldable pub validate : (W → ℕ) → ℕ → List (MemberRow W) → List (Trial W) → List (Checked W)
  validate ceil num_bins rows [] = []
  validate ceil num_bins rows (c ∷ candidates) =
      record {
        w = c.w;
        r150_sub = c.r150;
        r150_full = subset_regret ceil num_bins rows c.w;
        rvbid_full = regret_vbid (map (avg_probs num_bins c.w) rows);
      }
      ∷ validate ceil num_bins rows candidates

  unfoldable pub candidates : ℕ → List (Trial W) → Trial W → List (Trial W)
  candidates top_k_full results best = take top_k_full (sort_by (λ t. t.r150) results) ++ best ∷ []

  -- `full_results[0]` after the sort
  unfoldable pub final : List W → List (Trial W) → List (Checked W) → Option (Final W)
  final alone results [] = none
  final alone results (best_full ∷ rest) = some (record {
    best_full = best_full;
    top_full = best_full ∷ rest;
    subset_results = results;
    member_results = alone;
  })

  unfoldable pub ens_search3 :
      (W → ℕ) → ℕ → ℕ → ℕ → List ℕ → List (MemberRow W) → List (List W) → Option (Final W)
  ens_search3 ceil num_bins count top_k_full idx rows draws = elim (pick idx rows) [
    | none ↦ none
    | some sub_rows ↦
        elim (search_weights (subset_regret ceil num_bins sub_rows) wide_deltas 4 count draws) [
          | none ↦ none
          | some (best, results) ↦
              final (alone_regrets ceil count 0 sub_rows) (sort_by (λ t. t.r150) results) (
                sort_by (λ c. c.r150_full)
                  (validate ceil num_bins rows (candidates top_k_full results best)))
        ]
  ]
