-- ===== src/Tests/Ensembles.antt =====
-- The ensembles and their budgets at concrete inputs, over whole numbers.
use ads_bidding_optimizer.Prelude.{ℕ, ◌≡◌, refl, some, List, [], ◌∷◌, map, length, arith}
use ads_bidding_optimizer.Prelude.Int.{ℤ, pos, ◌+ℤ◌, ◌*ℤ◌}
use ads_bidding_optimizer.Float.{◌≼◌}
use ads_bidding_optimizer.Float.Exact.{ℤ_float, ℤ-IsOrdered, ℤ-IsRounded, div_ℤ}
use ads_bidding_optimizer.Arrays.Plain.{ℤ_arrays, ℤ-IsDocumented, total}
use ads_bidding_optimizer.Budget.{Auction}
use ads_bidding_optimizer.Ensemble.{
  Member, bins_masses, normalise, member_masses, member_probs, add_members, weighted_sum, average,
}
use ads_bidding_optimizer.Ensemble.Mass.{IsNonneg, ensemble_bid-le-value}
use ads_bidding_optimizer.Ensemble.Metrics.{
  Row, Score, Totals, score, score_rows, add_shares, no_shares, ensemble_bid, ensemble_totals,
}
use ads_bidding_optimizer.Ensemble.Counts.{share_count, ensemble_totals-by_row}
use ads_bidding_optimizer.Ensemble.Budgets.{averaged_bid}

-- a bins model that is sure of the price 1
abbrev sure : Member ℤ
sure = Member.bins (pos 0 ∷ pos 7 ∷ pos 0 ∷ [])

abbrev on_one : List ℤ
on_one = pos 0 ∷ pos 1 ∷ pos 0 ∷ []

sure-masses : member_masses 3 sure ≡ pos 0 ∷ pos 7 ∷ pos 0 ∷ []
unfolding member_masses bins_masses
sure-masses = refl

sure-average : weighted_sum (pos 1 ∷ []) (map (member_probs 3) (sure ∷ [])) ≡ some on_one
unfolding weighted_sum add_members member_probs normalise member_masses bins_masses total div_ℤ ◌+ℤ◌
    ◌*ℤ◌
sure-average = refl

ensemble_bid-le-value_example :
    (average 3 (pos 1 ∷ []) (sure ∷ []) ≡ some (normalise on_one))
    × (length (normalise on_one) ≡ 3)
    × IsNonneg (normalise on_one)
    × (ensemble_bid 3 (normalise on_one) (pos 2) ≡ averaged_bid 3 (pos 2) (normalise on_one))
    × (ensemble_bid 3 (normalise on_one) (pos 2) ≼ pos 2)
ensemble_bid-le-value_example =
    ensemble_bid-le-value ℤ-IsOrdered ℤ-IsRounded ℤ-IsDocumented 3 (pos 1 ∷ []) (sure ∷ []) on_one
      (pos 2) (omega arith) (refl, tt) ((refl, (refl, (refl, tt))), tt)
      (unfold member_masses bins_masses total ◌+ℤ◌ in refl, tt) sure-average
      (unfold total ◌+ℤ◌ in refl) refl

abbrev row : ℕ → Row ℤ
row adv = record { members = sure ∷ []; pp = pos 1; bid = pos 2; adv = adv ∷ [] }

-- rows of two advertisers
abbrev rows : List (Row ℤ)
rows = row 97 ∷ row 98 ∷ row 97 ∷ []

abbrev identity : ℤ → ℤ
identity x = x

abbrev row_score : ℕ → Score ℤ
row_score adv = score identity 3 (pos 2) (row adv) on_one

abbrev scores : List (Score ℤ)
scores = row_score 97 ∷ row_score 98 ∷ row_score 97 ∷ []

rows-scores : score_rows identity 3 (pos 2) (pos 1 ∷ []) rows ≡ some scores
unfolding score_rows average weighted_sum add_members member_probs normalise member_masses
    bins_masses total div_ℤ ◌+ℤ◌ ◌*ℤ◌
rows-scores = refl

ensemble_totals-by_row_example :
    (t : Totals ℤ) × (ensemble_totals identity 3 (pos 2) (pos 1 ∷ []) 2 rows ≡ some t)
    × (t.pit_arr ≡ map (λ s. s.pit) scores)
    × (t.per_adv ≡ add_shares scores (no_shares (map (λ r. r.adv) rows)))
    × (share_count t.per_adv ≡ 3)
ensemble_totals-by_row_example =
    ensemble_totals-by_row identity 3 (pos 2) (pos 1 ∷ []) 2 rows scores (omega arith) rows-scores

abbrev auctions : List (Auction ℤ)
auctions =
    record { bid = pos 60; payprice = pos 50; value = pos 150; click = some 1 }
    ∷ record { bid = pos 90; payprice = pos 80; value = pos 150; click = some 0 }
    ∷ []
