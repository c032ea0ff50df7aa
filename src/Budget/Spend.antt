-- ===== src/Budget/Spend.antt =====
-- Theorems on the runs of `simulate` in rtb-bid-model/src/experiments/budget_eval.py and of the loop in
-- budget_naive.py beside it.
use ads_bidding_optimizer.Prelude.{
  ℕ, ◌+◌, ◌≤◌, ◌≡◌, refl, sym, ◌∙◌, ap, inl, inr, true, false, List, [], ◌∷◌, map, length,
  Bool-cases, arith,
}
use ads_bidding_optimizer.Float.{Float, ◌⊕◌, ◌≤?◌, ◌<?◌, ◌≼◌, nought, IsOrdered}
use ads_bidding_optimizer.Optimizer.Grid.{le_of_not_lt}
use ads_bidding_optimizer.Budget.{
  Auction, Account, opened, settle, auction_step, simulate_from, simulate, metrics, naive_from,
  naive_simulate,
}

module _ {ℓ} {W : Type ℓ} ⦃f : Float W⦄ where
  module _ (ordered : IsOrdered W) where
    auction_step-budget :
        (budget : W) (r : Auction W) (s : Account W)
        → s.spent ≼ budget
        → (auction_step budget r s).spent ≼ budget
    unfolding auction_step settle
    auction_step-budget budget r s h = ground (arith, le_of_not_lt ordered budget (s.spent ⊕ r.bid))

    simulate_from-budget :
        (budget : W) (rs : List (Auction W)) (s : Account W)
        → s.spent ≼ budget
        → (simulate_from budget rs s).spent ≼ budget
    unfolding simulate_from
    simulate_from-budget budget [] s h = h
    simulate_from-budget budget (r ∷ rs) s h =
        simulate_from-budget budget rs (auction_step budget r s) (auction_step-budget budget r s h)

  -- the counts of a run: at most one win for an auction, at most one clicked win for a win
  abbrev Counted : ℕ → Account W → Type 0
  Counted n s = (s.won ≤ n) × (s.clicks_won ≤ s.won)

  auction_step-Counted :
      (budget : W) (r : Auction W) (s : Account W) (n : ℕ)
      → Counted n s
      → Counted (n + 1) (auction_step budget r s)
  unfolding auction_step settle
  auction_step-Counted budget r s n h = ground arith

  simulate_from-Counted :
      (budget : W) (rs : List (Auction W)) (s : Account W) (n : ℕ)
      → Counted n s
      → Counted (n + length rs) (simulate_from budget rs s)
  unfolding simulate_from
  simulate_from-Counted budget [] s n h = omega arith
  simulate_from-Counted budget (r ∷ rs) s n h = omega (
    arith,
    simulate_from-Counted budget rs (auction_step budget r s) (n + 1)
        (auction_step-Counted budget r s n h),
  )

  -- With a budget that is not negative, the money spent never passes the budget; the run wins at
  -- most as many auctions as there are, and at most as many clicks as auctions.
  pub simulate_budget :
      (ordered : IsOrdered W) (rs : List (Auction W)) (total_budget : W)
      → nought ≼ total_budget
      → ((simulate rs total_budget).spent ≼ total_budget)
        × ((simulate rs total_budget).won ≤ length rs)
        × ((simulate rs total_budget).clicks_won ≤ (simulate rs total_budget).won)
  unfolding simulate metrics
  simulate_budget ordered rs budget h =
      let counts = simulate_from-Counted budget rs opened 0 (omega arith) in
      (simulate_from-budget ordered budget rs opened h, omega arith, counts.1)

  abbrev pub with_bid : W → Auction W → Auction W
  with_bid b r = record r { bid = b }

  skip_step :
      (budget : W) (r : Auction W) (s : Account W)
      → (budget <? s.spent ⊕ r.bid) ≡ true
      → auction_step budget r s ≡ s
  unfolding auction_step
  skip_step budget r s h = ground arith

  settle_step :
      (budget : W) (r : Auction W) (s : Account W)
      → (r.bid ≤? nought) ≡ false
      → (budget <? s.spent ⊕ r.bid) ≡ false
      → auction_step budget r s ≡ settle r s
  unfolding auction_step
  settle_step budget r s bids fits = ground arith

  -- once a bid is not affordable it stays so
  stuck :
      (budget b : W) (rs : List (Auction W)) (s : Account W)
      → (budget <? s.spent ⊕ b) ≡ true
      → simulate_from budget (map (with_bid b) rs) s ≡ s
  unfolding simulate_from
  stuck budget b [] s h = refl
  stuck budget b (r ∷ rs) s h =
      ap (simulate_from budget (map (with_bid b) rs)) (skip_step budget (with_bid b r) s h)
      ∙ stuck budget b rs s h

  naive_break :
      (budget b : W) (r : Auction W) (rs : List (Auction W)) (s : Account W)
      → (budget <? s.spent ⊕ b) ≡ true
      → naive_from budget b (r ∷ rs) s ≡ s
  unfolding naive_from
  naive_break budget b r rs s h = rw h

  naive_next :
      (budget b : W) (r : Auction W) (rs : List (Auction W)) (s : Account W)
      → (budget <? s.spent ⊕ b) ≡ false
      → naive_from budget b (r ∷ rs) s ≡ naive_from budget b rs (settle (with_bid b r) s)
  unfolding naive_from
  naive_next budget b r rs s h = rw h

  simulate_next :
      (budget b : W) (r : Auction W) (rs : List (Auction W)) (s : Account W)
      → (b ≤? nought) ≡ false
      → (budget <? s.spent ⊕ b) ≡ false
      → simulate_from budget (map (with_bid b) rs) (settle (with_bid b r) s)
        ≡ simulate_from budget (map (with_bid b) (r ∷ rs)) s
  unfolding simulate_from
  simulate_next budget b r rs s bids fits =
      ap (simulate_from budget (map (with_bid b) rs))
        (sym (settle_step budget (with_bid b r) s bids fits))

  naive_from-eq-simulate_from :
      (budget b : W) (rs : List (Auction W)) (s : Account W)
      → (b ≤? nought) ≡ false
      → naive_from budget b rs s ≡ simulate_from budget (map (with_bid b) rs) s
  naive_from-eq-simulate_from budget b [] s bids = unfold naive_from simulate_from in refl
  naive_from-eq-simulate_from budget b (r ∷ rs) s bids = elim (Bool-cases (budget <? s.spent ⊕ b)) [
    | inl over ↦ naive_break budget b r rs s over ∙ sym (stuck budget b (r ∷ rs) s over)
    | inr fits ↦
        naive_next budget b r rs s fits
        ∙ naive_from-eq-simulate_from budget b rs (settle (with_bid b r) s) bids
        ∙ simulate_next budget b r rs s bids fits
  ]

  -- For a positive bid the naive baseline's loop, which stops at the first auction that it cannot
  -- afford, returns the metrics of `simulate` with that bid for every auction, which skips such
  -- auctions and goes on.
  pub naive_simulate-eq-simulate :
      (budget b : W) (rs : List (Auction W))
      → (b ≤? nought) ≡ false
      → naive_simulate budget b rs ≡ simulate (map (with_bid b) rs) budget
  unfolding naive_simulate simulate
  naive_simulate-eq-simulate budget b rs bids =
      ap metrics (naive_from-eq-simulate_from budget b rs opened bids)
