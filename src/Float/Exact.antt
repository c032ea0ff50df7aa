-- ===== src/Float/Exact.antt =====
-- The laws can be met: a float type of whole numbers, whose products, sums and differences are
-- exact and whose quotients are cut off.
use ads_bidding_optimizer.Prelude.{zero, suc, ◌/◌, ◌^◌, ◌≡◌, refl, true, arith}
use ads_bidding_optimizer.Prelude.Int.{ℤ, pos, negsuc, sub_ℕ, ◌+ℤ◌, ◌-ℤ◌, ◌*ℤ◌, leb_ℤ, ltb_ℤ}
use ads_bidding_optimizer.Float.{Float, IsOrdered, IsRounded}

-- Cut off towards 0.
unfoldable pub div_ℤ : ℤ → ℤ → ℤ
div_ℤ (pos a) (pos b) = pos (a / b)
div_ℤ (pos a) (negsuc b) = sub_ℕ 0 (a / suc b)
div_ℤ (negsuc a) (pos b) = sub_ℕ 0 (suc a / b)
div_ℤ (negsuc a) (negsuc b) = pos (suc a / suc b)

instance abbrev pub ℤ_float : Float ℤ
ℤ_float = record {
  lit = λ m e. pos (m / 10 ^ e);
  of_ℕ = pos;
  add = ◌+ℤ◌;
  sub = ◌-ℤ◌;
  mul = ◌*ℤ◌;
  div = div_ℤ;
  le = leb_ℤ;
  lt = ltb_ℤ;
}

pub ℤ-IsOrdered : IsOrdered ℤ
ℤ-IsOrdered = record {
  le_refl = λ x. ground arith;
  le_trans = λ x y z p q. ground arith;
  le_total = λ x y. ground arith;
  lt-eq-not-le = λ x y. ground arith;
}

mul_ℤ_nonneg :
    (x y : ℤ) → leb_ℤ (pos 0) x ≡ true → leb_ℤ (pos 0) y ≡ true → leb_ℤ (pos 0) (x *ℤ y) ≡ true
unfolding ◌*ℤ◌
mul_ℤ_nonneg (pos a) (pos b) p q = ground arith
mul_ℤ_nonneg (pos a) (negsuc b) p q = ground arith
mul_ℤ_nonneg (negsuc a) y p q = ground arith

mul_ℤ_nonpos :
    (x y : ℤ) → leb_ℤ x (pos 0) ≡ true → leb_ℤ (pos 0) y ≡ true → leb_ℤ (x *ℤ y) (pos 0) ≡ true
unfolding ◌*ℤ◌
mul_ℤ_nonpos (pos zero) (pos b) p q = ground arith
mul_ℤ_nonpos (pos (suc a)) (pos b) p q = ground arith
mul_ℤ_nonpos (negsuc a) (pos b) p q = ground arith
mul_ℤ_nonpos x (negsuc b) p q = ground arith

div_ℤ_nonneg :
    (x y : ℤ) → leb_ℤ (pos 0) x ≡ true → ltb_ℤ (pos 0) y ≡ true → leb_ℤ (pos 0) (div_ℤ x y) ≡ true
unfolding div_ℤ
div_ℤ_nonneg (pos a) (pos b) p q = ground arith
div_ℤ_nonneg (pos a) (negsuc b) p q = ground arith
div_ℤ_nonneg (negsuc a) y p q = ground arith

unit_mul_ℤ : (x : ℤ) → pos 1 *ℤ x ≡ x
unfolding ◌*ℤ◌
unit_mul_ℤ x = ground arith

pub ℤ-IsRounded : IsRounded ℤ
unfolding ◌+ℤ◌ ◌-ℤ◌
ℤ-IsRounded = record {
  nought-le-unit = refl;
  of_ℕ_nonneg = λ n. ground arith;
  add_nonneg = λ x y p q. ground arith;
  add_mono_right = λ x y z p. ground arith;
  sub_nonneg = λ x y p. ground arith;
  sub_nonpos = λ x y p. ground arith;
  sub_le_self = λ x y p. ground arith;
  lit_nonneg = λ m e. ground arith;
  sub_anti_right = λ x y z p. ground arith;
  sub_mono_left = λ x y z p. ground arith;
  mul_nonneg = mul_ℤ_nonneg;
  mul_nonpos = mul_ℤ_nonpos;
  div_nonneg = div_ℤ_nonneg;
  unit_mul = unit_mul_ℤ;
  nought_mul = λ x. (unfold ◌*ℤ◌ in ground arith, unfold ◌*ℤ◌ in ground arith);
}
