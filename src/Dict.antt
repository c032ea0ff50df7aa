-- ===== src/Dict.antt =====
-- Python's `dict` and `collections.Counter`: entries in the order of insertion, and keys of any
-- type whose equality can be tested. Text is a list of code points.
pub mod Laws
use ads_bidding_optimizer.Prelude.{
  ℕ, ◌+◌, ◌≡◌, ◌↔◌, refl, ap, Bool, true, false, ◌&&◌, ◌||◌, Option, none, some, List, [], ◌∷◌,
  ◌++◌, ltb, leb, ◌==◌ as nat_beq, ==_iff, if◌then◌else◌, Bool-cases, inl, inr, arith,
}

abbrev pub Text : Type 0
Text = List ℕ

abbrev pub text_beq : Text → Text → Bool
text_beq [] [] = true
text_beq [] (d ∷ t) = false
text_beq (c ∷ s) [] = false
text_beq (c ∷ s) (d ∷ t) = nat_beq c d && text_beq s t

pub text_beq_iff : (s t : Text) → (text_beq s t ≡ true) ↔ (s ≡ t)
text_beq_iff [] [] = (λ h. refl, λ h. refl)
text_beq_iff [] (d ∷ t) = (λ h. cc, λ h. cc)
text_beq_iff (c ∷ s) [] = (λ h. cc, λ h. cc)
text_beq_iff (c ∷ s) (d ∷ t) =
    (λ h. ground (arith, (text_beq_iff s t).0), λ h. ground (arith, (text_beq_iff s t).1))

-- A type of keys: a test that agrees with equality.
pub record Key {ℓ} (K : Type ℓ) : Type ℓ where
  pub same : K → K → Bool
  pub same_iff : (k j : K) → (same k j ≡ true) ↔ (k ≡ j)

instance abbrev pub text_key : Key Text
text_key = record { same = text_beq; same_iff = text_beq_iff }

instance abbrev pub number_key : Key ℕ
number_key = record { same = λ m n. nat_beq m n; same_iff = λ m n. ==_iff m n }

infix 50 ◌==◌
abbrev pub ◌==◌ {ℓ} : {K : Type ℓ} ⦃key : Key K⦄ → K → K → Bool
◌==◌ ⦃key⦄ k j = key.same k j

abbrev pub Dict {ℓ κ} : Type ℓ → Type κ → Type (ℓ ⊔ κ)
Dict K V = List (K × V)

module _ {ℓ κ} {K : Type ℓ} {V : Type κ} ⦃e : Key K⦄ where
  -- `d.get(k)`
  unfoldable pub lookup : K → Dict K V → Option V
  lookup k [] = none
  lookup k ((j, v) ∷ d) = if j == k then some v else lookup k d

  -- `k in d`
  unfoldable pub contains : K → Dict K V → Bool
  contains k [] = false
  contains k ((j, v) ∷ d) = (j == k) || contains k d

  -- `d[k] = v`
  unfoldable pub put : K → V → Dict K V → Dict K V
  put k v [] = (k, v) ∷ []
  put k v ((j, w) ∷ d) = if j == k then (j, v) ∷ d else (j, w) ∷ put k v d

-- `d.get(k, default)`
abbrev pub or_default {ℓ} : {V : Type ℓ} → V → Option V → V
or_default v none = v
or_default v (some w) = w

module _ {ℓ} {K : Type ℓ} where
  -- a stable sort by falling counts
  unfoldable pub insert_by_count : K × ℕ → Dict K ℕ → Dict K ℕ
  insert_by_count (k, c) [] = (k, c) ∷ []
  insert_by_count (k, c) ((j, d) ∷ l) =
      let rest = insert_by_count (k, c) l in if leb d c then (k, c) ∷ (j, d) ∷ l else (j, d) ∷ rest

  -- `counter.most_common()`
  unfoldable pub most_common : Dict K ℕ → Dict K ℕ
  most_common [] = []
  most_common (p ∷ l) = insert_by_count p (most_common l)

module _ {ℓ} {K : Type ℓ} ⦃e : Key K⦄ where
  -- `counter[k] += 1`
  unfoldable pub count_one : K → Dict K ℕ → Dict K ℕ
  count_one k d = put k (or_default 0 (lookup k d) + 1) d

  -- `counter.update(values)`
  unfoldable pub count_all : List K → Dict K ℕ → Dict K ℕ
  count_all [] d = d
  count_all (k ∷ ks) d = count_all ks (count_one k d)
