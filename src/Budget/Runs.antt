-- ===== src/Budget/Runs.antt =====
-- Theorems on the main programs of rtb-bid-model/src/experiments/budget_eval.py and budget_naive.py.
use ads_bidding_optimizer.Prelude.{
  ℕ, ◌+◌, ◌≤◌, ◌≡◌, refl, true, Bool-cases, inl, inr, Bool, List, [], ◌∷◌, map, length, length-map,
  All, All-map, arith,
}
use ads_bidding_optimizer.Float.{
  Float, ◌⊕◌, ◌⊗◌, ◌⊘◌, ◌<?◌, ◌≼◌, nought, unit, IsOrdered, IsRounded,
}
use ads_bidding_optimizer.Arrays.{Arrays, IsDocumented}
use ads_bidding_optimizer.Optimizer.Grid.{le_of_not_lt}
use ads_bidding_optimizer.Budget.{
  Auction, Account, Metrics, opened, settle, auction_step, simulate_from, simulate, metrics,
  naive_from, naive_simulate, naive_bid,
}
use ads_bidding_optimizer.Budget.Spend.{simulate_budget}
use ads_bidding_optimizer.Budget.Evaluation.{
  Logged, Offer, offer_of, offer_bids, auctions_of, positive_bids, budget_eval, naive_runs,
  budget_naive,
}
use ads_bidding_optimizer.Ensemble.Budgets.{fractions, oracle_cost, budget_runs}
use ads_bidding_optimizer.Ensemble.Spend.{oracle_cost_nonneg}

-- The four shares of the oracle's cost are of positive numbers.
pub record HasShares {ℓ} (W : Type ℓ) ⦃f : Float W⦄ : Type ℓ where
  pub of_32 : (nought <? f.lit 32 0) ≡ true
  pub of_8 : (nought <? f.lit 8 0) ≡ true
  pub of_2 : (nought <? f.lit 2 0) ≡ true

-- A run with its budget: no more is spent than the budget, no more than `most` auctions are won, and
-- no more clicks than auctions.
abbrev pub Keeps {ℓ} : {W : Type ℓ} ⦃f : Float W⦄ → ℕ → W × Metrics W → Type 0
Keeps most (budget, m) = (m.spent ≼ budget) × (m.won ≤ most) × (m.clicks_won ≤ m.won)

module _ {ℓ} {W : Type ℓ} ⦃f : Float W⦄ (ordered : IsOrdered W) where
  step-won :
      (budget : W) (r : Auction W) (rs : List (Auction W)) (s : Account W)
      → (auction_step budget r s).won + positive_bids rs ≤ s.won + positive_bids (r ∷ rs)
  unfolding auction_step settle positive_bids
  step-won budget r rs s = ground (arith, ordered.lt-eq-not-le nought r.bid)

  simulate_from-won :
      (budget : W) (rs : List (Auction W)) (s : Account W)
      → (simulate_from budget rs s).won ≤ s.won + positive_bids rs
  unfolding simulate_from
  simulate_from-won budget [] s = omega arith
  simulate_from-won budget (r ∷ rs) s =
      omega (arith, simulate_from-won budget rs (auction_step budget r s), step-won budget r rs s)

  simulate-won : (budget : W) (rs : List (Auction W)) → (simulate rs budget).won ≤ positive_bids rs
  unfolding simulate metrics
  simulate-won budget rs = omega (arith, simulate_from-won budget rs opened)

  simulate-Keeps :
      (rs : List (Auction W)) (budget : W)
      → nought ≼ budget
      → Keeps (positive_bids rs) (budget, simulate rs budget)
  simulate-Keeps rs budget h =
      let kept = simulate_budget ordered rs budget h in (kept.0, simulate-won budget rs, kept.2)

  naive_from-keeps :
      (budget b : W) (rs : List (Auction W)) (s : Account W) (n : ℕ)
      → s.spent ≼ budget
      → s.won ≤ n
      → s.clicks_won ≤ s.won
      → let t = naive_from budget b rs s in
        (t.spent ≼ budget) × (t.won ≤ n + length rs) × (t.clicks_won ≤ t.won)
  unfolding naive_from settle
  naive_from-keeps budget b [] s n h won clicks = (h, omega arith, clicks)
  naive_from-keeps budget b (r ∷ rs) s n h won clicks = elim (Bool-cases (budget <? s.spent ⊕ b)) [
    | inl over ↦ rw over (h, omega arith, clicks)
    | inr fits ↦
        let rest =
          naive_from-keeps budget b rs (settle (record r { bid = b }) s) (n + 1)
            (ground (arith, le_of_not_lt ordered budget (s.spent ⊕ b))) (ground arith)
            (ground arith) in
        rw fits (rest.0, omega arith, rest.2)
  ]

  naive-Keeps :
      (rs : List (Auction W)) (budget b : W)
      → nought ≼ budget
      → Keeps (length rs) (budget, naive_simulate budget b rs)
  unfolding naive_simulate metrics
  naive-Keeps rs budget b h =
      let kept = naive_from-keeps budget b rs opened 0 h (omega arith) (omega arith) in
      (kept.0, omega arith, kept.2)

module _ {ℓ} {W : Type ℓ} ⦃f : Float W⦄ ⦃a : Arrays W⦄ (ordered : IsOrdered W)
    (rounded : IsRounded W) (documented : IsDocumented W) (shares : HasShares W) where
  -- a share of a cost that is not negative
  share_nonneg : (cost d : W) → nought ≼ cost → (nought <? d) ≡ true → nought ≼ (unit ⊘ d) ⊗ cost
  share_nonneg cost d h p =
      rounded.mul_nonneg _ cost (rounded.div_nonneg unit d (rounded.lit_nonneg 1 0) p) h

  -- what holds of each run with a budget that is not negative holds of the runs of all four shares
  every_share :
      (run : W → Metrics W) (P : W × Metrics W → Type 0) (cost : W)
      → nought ≼ cost
      → ((budget : W) → nought ≼ budget → P (budget, run budget))
      → All P (map (λ frac. (frac ⊗ cost, run (frac ⊗ cost))) fractions)
  every_share run P cost h each = (
    each _ (share_nonneg cost (f.lit 32 0) h shares.of_32),
    (
      each _ (share_nonneg cost (f.lit 8 0) h shares.of_8),
      (
        each _ (share_nonneg cost (f.lit 2 0) h shares.of_2),
        (each _ (rounded.mul_nonneg unit cost (rounded.lit_nonneg 1 0) h), tt),
      ),
    ),
  )

  auctions_of-payprice :
      (rows : List (Logged W)) (offers : List (Offer W)) (bids : List W)
      → All (λ r. nought ≼ r.pp) rows
      → All (λ r. nought ≼ r.payprice) (auctions_of rows offers bids)
  unfolding auctions_of
  auctions_of-payprice [] offers bids h = tt
  auctions_of-payprice (r ∷ rows) [] bids h = tt
  auctions_of-payprice (r ∷ rows) (o ∷ offers) [] h = tt
  auctions_of-payprice (r ∷ rows) (o ∷ offers) (b ∷ bids) h =
      (h.0, auctions_of-payprice rows offers bids h.1)

  -- Where no clearing price is negative, each of the four runs of budget_eval.py spends at most its
  -- budget, wins at most as many auctions as the reported number of positive bids, and at most as
  -- many clicks as auctions.
  pub budget_eval-Keeps :
      (alphas : List W) (num_bins : ℕ) (use_bidding_V : Bool) (V : W) (rows : List (Logged W))
      → All (λ r. nought ≼ r.pp) rows
      → let res = budget_eval alphas num_bins use_bidding_V V rows in
        (length res.budgets ≡ 4) × All (Keeps res.unconstrained_bid_count) res.budgets
  unfolding budget_eval budget_runs
  budget_eval-Keeps alphas num_bins use_bidding_V V rows h =
      let offers = map (offer_of alphas num_bins use_bidding_V V) rows in
      let auctions = auctions_of rows offers (offer_bids num_bins offers) in
      (
        refl,
        every_share (simulate auctions) (Keeps (positive_bids auctions)) (oracle_cost auctions)
            (oracle_cost_nonneg ordered rounded documented auctions
              (auctions_of-payprice rows offers _ h))
            (simulate-Keeps ordered auctions),
      )

  -- Where no clearing price is negative, each of the four runs of budget_naive.py spends at most its
  -- budget, wins at most as many auctions as there are, and at most as many clicks as auctions; its
  -- bid is at most the value.
  pub budget_naive-Keeps :
      (mean_pp V : W) (rows : List (Auction W))
      → All (λ r. nought ≼ r.payprice) rows
      → let res = budget_naive mean_pp V rows in
        (length res.budgets ≡ 4) × All (Keeps (length rows)) res.budgets × (res.bid ≼ V)
  unfolding budget_naive naive_runs naive_bid
  budget_naive-Keeps mean_pp V rows h =
      let auctions : List (Auction W) = map (λ (r : Auction W). record r { value = V }) rows in
      let prices =
        All-map (λ (r : Auction W). nought ≼ r.payprice) (λ (r : Auction W). nought ≼ r.payprice)
          (λ r. record r { value = V }) (λ r p. p) rows h in
      let b = naive_bid mean_pp V in
      (
        refl,
        every_share (λ budget. naive_simulate budget b auctions) (Keeps (length rows))
            (oracle_cost auctions) (oracle_cost_nonneg ordered rounded documented auctions prices)
            (λ budget v.
              let kept = naive-Keeps ordered auctions budget b v in
              (
                kept.0,
                omega (arith, length-map rows (λ (r : Auction W). record r { value = V })),
                kept.2,
              )),
        elim (Bool-cases (V <? mean_pp)) [
          | inl above ↦ rw above (ordered.le_refl V)
          | inr within ↦ rw within (le_of_not_lt ordered V mean_pp within)
        ],
      )
