-- ===== src/Tests/Prices.antt =====
-- The bids from remapped probabilities at a concrete input: whole numbers, where a literal that is
-- not 0 is rounded up to at least 1.
use ads_bidding_optimizer.Prelude.{
  ℕ, zero, suc, ◌/◌, ◌^◌, ◌≡◌, refl, true, some, List, [], ◌∷◌, length, max, arith,
}
use ads_bidding_optimizer.Prelude.Int.{ℤ, pos, ◌+ℤ◌, ◌-ℤ◌, ◌*ℤ◌, leb_ℤ, ltb_ℤ}
use ads_bidding_optimizer.Float.{Float, ◌≼◌, IsOrdered, IsRounded}
use ads_bidding_optimizer.Float.Exact as Exact
use ads_bidding_optimizer.Float.Exact.{div_ℤ}
use ads_bidding_optimizer.Arrays.{Arrays, IsDocumented}
use ads_bidding_optimizer.Arrays.Plain as Plain
use ads_bidding_optimizer.Edges.Remap.{remap_to_integer_probs, remapped_bid}
use ads_bidding_optimizer.Edges.Remap.Affordable.{IsGradual, IsNonneg, remapped_bid-le-value}

abbrev literal : ℕ → ℕ → ℤ
literal zero e = pos 0
literal (suc m) e = pos (max 1 (suc m / 10 ^ e))

instance abbrev rounded_up : Float ℤ
rounded_up = record {
  lit = literal;
  of_ℕ = pos;
  add = ◌+ℤ◌;
  sub = ◌-ℤ◌;
  mul = ◌*ℤ◌;
  div = div_ℤ;
  le = leb_ℤ;
  lt = ltb_ℤ;
}

instance abbrev arrays : Arrays ℤ
arrays = Plain.ℤ_arrays

up-IsOrdered : IsOrdered ℤ
up-IsOrdered = record {
  le_refl = Exact.ℤ-IsOrdered.le_refl;
  le_trans = Exact.ℤ-IsOrdered.le_trans;
  le_total = Exact.ℤ-IsOrdered.le_total;
  lt-eq-not-le = Exact.ℤ-IsOrdered.lt-eq-not-le;
}

literal_nonneg : (m e : ℕ) → leb_ℤ (pos 0) (literal m e) ≡ true
literal_nonneg zero e = refl
literal_nonneg (suc m) e = ground arith

up-IsRounded : IsRounded ℤ
up-IsRounded = record {
  nought-le-unit = refl;
  of_ℕ_nonneg = Exact.ℤ-IsRounded.of_ℕ_nonneg;
  add_nonneg = Exact.ℤ-IsRounded.add_nonneg;
  add_mono_right = Exact.ℤ-IsRounded.add_mono_right;
  sub_nonneg = Exact.ℤ-IsRounded.sub_nonneg;
  sub_nonpos = Exact.ℤ-IsRounded.sub_nonpos;
  sub_le_self = Exact.ℤ-IsRounded.sub_le_self;
  lit_nonneg = literal_nonneg;
  sub_anti_right = Exact.ℤ-IsRounded.sub_anti_right;
  sub_mono_left = Exact.ℤ-IsRounded.sub_mono_left;
  mul_nonneg = Exact.ℤ-IsRounded.mul_nonneg;
  mul_nonpos = Exact.ℤ-IsRounded.mul_nonpos;
  div_nonneg = Exact.ℤ-IsRounded.div_nonneg;
  unit_mul = Exact.ℤ-IsRounded.unit_mul;
  nought_mul = Exact.ℤ-IsRounded.nought_mul;
}

up-IsGradual : IsGradual ℤ
unfolding ◌-ℤ◌
up-IsGradual = record { sub_pos = λ x y h. ground arith; least_pos = refl }

up-IsDocumented : IsDocumented ℤ
up-IsDocumented = record {
  length-cumsum = Plain.ℤ-IsDocumented.length-cumsum;
  cumsum_nonneg = Plain.ℤ-IsDocumented.cumsum_nonneg;
  sum_nonneg = Plain.ℤ-IsDocumented.sum_nonneg;
  argmax_bound = Plain.ℤ-IsDocumented.argmax_bound;
  argmax_max = Plain.ℤ-IsDocumented.argmax_max;
  argmax_first = Plain.ℤ-IsDocumented.argmax_first;
}

abbrev whole : ℤ → ℤ
whole x = x

-- weights of two bins, in place of probabilities, between three edges
abbrev probs : List ℤ
probs = pos 4 ∷ pos 6 ∷ []

abbrev edges : List ℤ
edges = pos 0 ∷ pos 1 ∷ pos 3 ∷ []

remapped_bid-le-value_example :
    (int_probs : List ℤ) × (b : ℤ) × (remap_to_integer_probs whole whole probs edges 301
      ≡ some int_probs)
    × (length int_probs ≡ 301)
    × IsNonneg int_probs
    × (remapped_bid whole whole probs edges (pos 150) ≡ some b)
    × (b ≼ pos 150)
remapped_bid-le-value_example =
    remapped_bid-le-value up-IsOrdered up-IsRounded up-IsGradual up-IsDocumented whole whole probs
      edges (pos 150) refl (refl, (refl, tt)) refl
