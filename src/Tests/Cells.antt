-- ===== src/Tests/Cells.antt =====
-- The cells of integer prices at concrete inputs: numbers are counted in halves, so that half of a
-- cell is a number too.
use ads_bidding_optimizer.Prelude.{ℕ, ◌+◌, ◌*◌, ◌/◌, ◌^◌, ◌≡◌, refl, true, [], ◌∷◌, get_or, arith}
use ads_bidding_optimizer.Prelude.Int.{ℤ, pos, negsuc, sub_ℕ, ◌+ℤ◌, ◌-ℤ◌, ◌*ℤ◌, leb_ℤ, ltb_ℤ}
use ads_bidding_optimizer.Float.{Float, IsOrdered}
use ads_bidding_optimizer.Float.Exact.{div_ℤ}
use ads_bidding_optimizer.Edges.Remap.{
  transfer_row, mark_cells, first_cell, stop_cell, overlap, cell_lo, cell_hi,
}
use ads_bidding_optimizer.Edges.Remap.Cover.{IsCut, share, transfer_row-shares}

instance abbrev halves : Float ℤ
halves = record {
  lit = λ m e. pos (m * 2 / 10 ^ e);
  of_ℕ = λ n. pos (n * 2);
  add = ◌+ℤ◌;
  sub = ◌-ℤ◌;
  mul = λ x y. div_ℤ (x *ℤ y) (pos 2);
  div = λ x y. div_ℤ (x *ℤ pos 2) y;
  le = leb_ℤ;
  lt = ltb_ℤ;
}

abbrev floor : ℤ → ℤ
floor (pos a) = pos (a / 2)
floor (negsuc a) = negsuc (a / 2)

abbrev ceil : ℤ → ℤ
ceil (pos a) = pos ((a + 1) / 2)
ceil (negsuc a) = sub_ℕ 0 ((a + 1) / 2)

halves-IsOrdered : IsOrdered ℤ
halves-IsOrdered = record {
  le_refl = λ x. ground arith;
  le_trans = λ x y z p q. ground arith;
  le_total = λ x y. ground arith;
  lt-eq-not-le = λ x y. ground arith;
}

floor_below : (x : ℤ) (m : ℕ) → floor x ≡ pos m → leb_ℤ (pos (m * 2)) x ≡ true
floor_below (pos a) m e = ground arith
floor_below (negsuc a) m e = ground arith

ceil_above : (x : ℤ) (m : ℕ) → ceil x ≡ pos m → leb_ℤ x (pos (m * 2)) ≡ true
ceil_above (pos a) m e = ground arith
ceil_above (negsuc a) m e = ground arith

ceil_below : (x : ℤ) (m : ℕ) → ceil x ≡ negsuc m → leb_ℤ x (pos 0) ≡ true
ceil_below (pos a) m e = ground arith
ceil_below (negsuc a) m e = ground arith

halves-IsCut : IsCut ℤ floor ceil
unfolding ◌+ℤ◌ ◌-ℤ◌
halves-IsCut = record {
  floor_le = floor_below;
  le_ceil = ceil_above;
  ceil_neg = ceil_below;
  sub_nonpos = λ x y h. ground arith;
  of_ℕ_nonneg = λ i. ground arith;
  of_ℕ_mono = λ i j h. ground arith;
  half_above = λ i. ground arith;
  half_below = λ i. ground arith;
}

-- a bin from 1.0 to 3.0: a quarter of it is in cell 1, half in cell 2, a quarter in cell 3; a
-- quarter is cut off here
test_row : transfer_row floor ceil 5 (pos 2) (pos 6) ≡ pos 0 ∷ pos 0 ∷ pos 1 ∷ pos 0 ∷ pos 0 ∷ []
unfolding transfer_row mark_cells first_cell stop_cell overlap cell_lo cell_hi ◌-ℤ◌ ◌+ℤ◌ div_ℤ ◌*ℤ◌
test_row = refl

transfer_row-shares_example :
    get_or (transfer_row floor ceil 5 (pos 2) (pos 6)) 2 (pos 0) ≡ share (pos 2) (pos 6) 2
transfer_row-shares_example =
    transfer_row-shares halves-IsOrdered floor ceil halves-IsCut 5 (pos 2) (pos 6) 2 refl
      (omega arith)
