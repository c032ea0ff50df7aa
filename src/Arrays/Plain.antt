-- ===== src/Arrays/Plain.antt =====
-- The documented behaviour can be met: sums from the left, and a search for the first greatest
-- entry, over whole numbers. The elementary functions are of no account there, and are constant.
use ads_bidding_optimizer.Prelude.{
  ℕ, zero, suc, ◌<◌, ◌≡◌, refl, ap, true, List, [], ◌∷◌, length, replicate, get_or, All,
  if◌then◌else◌, arith,
}
use ads_bidding_optimizer.Prelude.Int.{ℤ, pos, ◌+ℤ◌, ltb_ℤ}
use ads_bidding_optimizer.Float.{◌≼◌, ◌<?◌}
use ads_bidding_optimizer.Float.Exact.{ℤ_float}
use ads_bidding_optimizer.Arrays.{Arrays, IsDocumented}

-- the partial sums after `acc`
unfoldable pub scan : ℤ → List ℤ → List ℤ
scan acc [] = []
scan acc (x ∷ xs) = (acc +ℤ x) ∷ scan (acc +ℤ x) xs

unfoldable pub total : List ℤ → ℤ
total [] = pos 0
total (x ∷ xs) = x +ℤ total xs

unfoldable pub first_greatest : List ℤ → ℕ
first_greatest [] = 0
first_greatest (x ∷ []) = 0
first_greatest (x ∷ y ∷ ys) =
    let i = first_greatest (y ∷ ys) in if ltb_ℤ x (get_or (y ∷ ys) i (pos 0)) then suc i else 0

instance abbrev pub ℤ_arrays : Arrays ℤ
ℤ_arrays = record {
  sum = total;
  cumsum = scan (pos 0);
  argmax = first_greatest;
  sort = λ xs. xs;
  linspace = λ x y n. replicate n x;
  softmax = λ xs. xs;
  log_softmax = λ xs. xs;
  logsumexp = total;
  exp = λ x. pos 1;
  log = λ x. pos 0;
  log1p = λ x. pos 0;
  sqrt = λ x. pos 1;
  erf = λ x. pos 0;
  sin = λ x. pos 0;
  cos = λ x. pos 1;
  pi = pos 3;
}

length-scan : (acc : ℤ) (xs : List ℤ) → length (scan acc xs) ≡ length xs
unfolding scan
length-scan acc [] = refl
length-scan acc (x ∷ xs) = ap suc (length-scan (acc +ℤ x) xs)

scan_nonneg :
    (acc : ℤ) (xs : List ℤ)
    → pos 0 ≼ acc
    → All (λ x. pos 0 ≼ x) xs
    → All (λ x. pos 0 ≼ x) (scan acc xs)
unfolding scan ◌+ℤ◌
scan_nonneg acc [] h hs = tt
scan_nonneg acc (x ∷ xs) h (hx, hs) =
    let sum : pos 0 ≼ acc +ℤ x = ground arith in (sum, scan_nonneg (acc +ℤ x) xs sum hs)

total_nonneg : (xs : List ℤ) → All (λ x. pos 0 ≼ x) xs → pos 0 ≼ total xs
unfolding total ◌+ℤ◌
total_nonneg [] h = refl
total_nonneg (x ∷ xs) h = ground (arith, total_nonneg xs h.1)

greatest_bound : (x : ℤ) (xs : List ℤ) → first_greatest (x ∷ xs) < length (x ∷ xs)
unfolding first_greatest
greatest_bound x [] = omega arith
greatest_bound x (y ∷ ys) = ground (arith, greatest_bound y ys)

greatest_max :
    (xs : List ℤ) (k : ℕ)
    → k < length xs
    → get_or xs k (pos 0) ≼ get_or xs (first_greatest xs) (pos 0)
unfolding first_greatest
greatest_max [] k h = absurd (omega arith)
greatest_max (x ∷ []) zero h = ground arith
greatest_max (x ∷ []) (suc k) h = absurd (omega arith)
greatest_max (x ∷ y ∷ ys) zero h = ground arith
greatest_max (x ∷ y ∷ ys) (suc k) h = ground (arith, greatest_max (y ∷ ys) k (omega arith))

greatest_first :
    (xs : List ℤ) (k : ℕ)
    → k < first_greatest xs
    → (get_or xs k (pos 0) <? get_or xs (first_greatest xs) (pos 0)) ≡ true
unfolding first_greatest
greatest_first [] k h = absurd (omega arith)
greatest_first (x ∷ []) k h = absurd (omega arith)
greatest_first (x ∷ y ∷ ys) zero h = ground arith
greatest_first (x ∷ y ∷ ys) (suc k) h = ground (arith, greatest_first (y ∷ ys) k)

pub ℤ-IsDocumented : IsDocumented ℤ
ℤ-IsDocumented = record {
  length-cumsum = length-scan (pos 0);
  cumsum_nonneg = λ xs h. scan_nonneg (pos 0) xs refl h;
  sum_nonneg = total_nonneg;
  argmax_bound = greatest_bound;
  argmax_max = greatest_max;
  argmax_first = greatest_first;
}
