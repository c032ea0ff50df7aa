-- ===== src/Train/Networks/Numerals.antt =====
-- The texts of whole numbers, as retrainer/retrain.py and the feature configuration write them:
-- different numbers have different texts, which begin with a digit or a minus sign.
use ads_bidding_optimizer.Prelude.{
  ℕ, zero, suc, ◌+◌, ◌*◌, ◌-◌, ◌/◌, ◌%◌, ◌≤◌, ◌<◌, ◌≡◌, sym, ap, ◌∙◌, Bool-cases, inl, inr, [], ◌∷◌,
  ◌==◌, arith,
}
use ads_bidding_optimizer.Prelude.Int.{ℤ, pos, negsuc}
use ads_bidding_optimizer.Dict.{Text}
use ads_bidding_optimizer.Retrain.Record.{digits, str_int}

-- the number that a text of digits has, after `acc`
abbrev value : ℕ → Text → ℕ
value acc [] = acc
value acc (c ∷ t) = value (acc * 10 + (c - 48)) t

abbrev pub first : Text → ℕ
first [] = 0
first (c ∷ t) = c

value-digits : (fuel n : ℕ) (acc : Text) → n < fuel → value 0 (digits fuel n acc) ≡ value n acc
unfolding digits
value-digits zero n acc h = absurd (omega arith)
value-digits (suc fuel) n acc h = elim (Bool-cases (n / 10 == 0)) [
  | inl last ↦ rw last (ap (λ k. value k acc) (ground (arith, last)))
  | inr more ↦ rw more (
      value-digits fuel (n / 10) ((48 + n % 10) ∷ acc) (ground (arith, more))
      ∙ ap (λ k. value k acc) (omega arith))
]

first-digits :
    (fuel n c : ℕ) (acc : Text)
    → 48 ≤ c
    → c ≤ 57
    → (48 ≤ first (digits fuel n (c ∷ acc))) × (first (digits fuel n (c ∷ acc)) ≤ 57)
unfolding digits
first-digits zero n c acc lo hi = (lo, hi)
first-digits (suc fuel) n c acc lo hi = elim (Bool-cases (n / 10 == 0)) [
  | inl last ↦ rw last (omega arith, omega arith)
  | inr more ↦
      rw more (first-digits fuel (n / 10) (48 + n % 10) (c ∷ acc) (omega arith) (omega arith))
]

-- a text of at least one round of `digits` begins with a digit
digits-begin :
    (fuel n : ℕ) → 0 < fuel → (48 ≤ first (digits fuel n [])) × (first (digits fuel n []) ≤ 57)
unfolding digits
digits-begin zero n h = absurd (omega arith)
digits-begin (suc fuel) n h = elim (Bool-cases (n / 10 == 0)) [
  | inl last ↦ rw last (omega arith, omega arith)
  | inr more ↦ rw more (first-digits fuel (n / 10) (48 + n % 10) [] (omega arith) (omega arith))
]

pub str_int-first : (n : ℤ) → first (str_int n) ≤ 57
unfolding str_int
str_int-first (pos n) = (digits-begin (n + 1) n (omega arith)).1
str_int-first (negsuc n) = omega arith

abbrev rest : Text → Text
rest [] = []
rest (c ∷ t) = t

pub str_int-injective : (m n : ℤ) → str_int m ≡ str_int n → m ≡ n
unfolding str_int
str_int-injective (pos a) (pos b) h =
    let same : value 0 (digits (a + 1) a []) ≡ value 0 (digits (b + 1) b []) = ap (value 0) h in
    ap pos (
      sym (value-digits (a + 1) a [] (omega arith))
      ∙ same
      ∙ value-digits (b + 1) b [] (omega arith))
str_int-injective (negsuc a) (negsuc b) h =
    let same : value 0 (digits (a + 2) (a + 1) []) ≡ value 0 (digits (b + 2) (b + 1) []) =
      ap (λ t. value 0 (rest t)) h in
    let one_more : a + 1 ≡ b + 1 =
      sym (value-digits (a + 2) (a + 1) [] (omega arith))
      ∙ same
      ∙ value-digits (b + 2) (b + 1) [] (omega arith) in
    ap negsuc (omega (arith, one_more))
str_int-injective (pos a) (negsuc b) h =
    let minus : first (digits (a + 1) a []) ≡ 45 = ap first h in
    let digit : 48 ≤ first (digits (a + 1) a []) = (digits-begin (a + 1) a (omega arith)).0 in
    absurd (omega arith)
str_int-injective (negsuc a) (pos b) h =
    let minus : 45 ≡ first (digits (b + 1) b []) = ap first h in
    let digit : 48 ≤ first (digits (b + 1) b []) = (digits-begin (b + 1) b (omega arith)).0 in
    absurd (omega arith)
