-- ===== src/Arrays.antt =====
-- The numpy and torch operations that the program calls on one row of an array. A row is a list;
-- elementwise arithmetic, `where`, `clamp`, `arange` and slices are written out over lists, and what
-- rounds or chooses in a way of its own (sums, elementary functions, `argmax`, sorting) is a
-- parameter, whose documented behaviour is the record `IsDocumented`.
pub mod Plain
use ads_bidding_optimizer.Prelude.{
  ℕ, zero, suc, ◌+◌, ◌<◌, ◌≡◌, ap, ◌∙◌, true, List, [], ◌∷◌, length, get_or, All, arith,
}
use ads_bidding_optimizer.Float.{Float, ◌≼◌, ◌<?◌, nought}

pub record Arrays {ℓ} (W : Type ℓ) : Type ℓ where
  -- sums of a row: `x.sum()`, `cumsum`, and the index of the first greatest entry
  pub sum : List W → W
  pub cumsum : List W → List W
  pub argmax : List W → ℕ
  -- `np.sort`
  pub sort : List W → List W
  -- `torch.linspace(a, b, n)`
  pub linspace : W → W → ℕ → List W
  pub softmax : List W → List W
  pub log_softmax : List W → List W
  pub logsumexp : List W → W
  pub exp : W → W
  pub log : W → W
  pub log1p : W → W
  pub sqrt : W → W
  pub erf : W → W
  pub sin : W → W
  pub cos : W → W
  pub pi : W

-- `arange(i, i + n)`, as floats
unfoldable pub range_from {ℓ} : {W : Type ℓ} ⦃f : Float W⦄ → ℕ → ℕ → List W
range_from i zero = []
range_from ⦃f⦄ i (suc n) = f.of_ℕ i ∷ range_from (i + 1) n

-- `torch.arange(n, dtype=torch.float32)`
unfoldable pub arange {ℓ} : {W : Type ℓ} ⦃f : Float W⦄ → ℕ → List W
arange n = range_from 0 n

-- What the documentation of `sum`, `cumsum` and `argmax` says.
pub record IsDocumented {ℓ} (W : Type ℓ) ⦃f : Float W⦄ ⦃a : Arrays W⦄ : Type ℓ where
  pub length-cumsum : (xs : List W) → length (a.cumsum xs) ≡ length xs
  pub cumsum_nonneg : (xs : List W) → All (λ x. nought ≼ x) xs → All (λ x. nought ≼ x) (a.cumsum xs)
  pub sum_nonneg : (xs : List W) → All (λ x. nought ≼ x) xs → nought ≼ a.sum xs
  pub argmax_bound : (x : W) (xs : List W) → a.argmax (x ∷ xs) < length (x ∷ xs)
  pub argmax_max :
      (xs : List W) (k : ℕ) → k < length xs → get_or xs k nought ≼ get_or xs (a.argmax xs) nought
  pub argmax_first :
      (xs : List W) (k : ℕ)
      → k < a.argmax xs
      → (get_or xs k nought <? get_or xs (a.argmax xs) nought) ≡ true

pub length-range_from {ℓ} :
    (W : Type ℓ) ⦃f : Float W⦄ (i n : ℕ) → length (range_from {W = W} i n) ≡ n
unfolding range_from
length-range_from W i zero = omega arith
length-range_from W i (suc n) = omega (arith, length-range_from W (i + 1) n)

module _ {ℓ} {W : Type ℓ} ⦃f : Float W⦄ where
  pub get_or-range_from : (i n k : ℕ) (d : W) → k < n → get_or (range_from i n) k d ≡ f.of_ℕ (i + k)
  unfolding range_from
  get_or-range_from i zero k d h = absurd (omega arith)
  get_or-range_from i (suc n) zero d h = ap f.of_ℕ (omega arith)
  get_or-range_from i (suc n) (suc k) d h =
      get_or-range_from (i + 1) n k d (omega arith) ∙ ap f.of_ℕ (omega arith)

pub get_or-All {ℓ} :
    {A : Type ℓ} (P : A → Type 0) (xs : List A) (k : ℕ) (d : A) → P d → All P xs → P (get_or xs k d)
get_or-All P [] k d h hs = h
get_or-All P (x ∷ xs) zero d h hs = hs.0
get_or-All P (x ∷ xs) (suc k) d h hs = get_or-All P xs k d h hs.1
