-- ===== src/Dataset/Packing.antt =====
-- Theorems on the array of tags in rtb-bid-model/src/dataset.py.
use ads_bidding_optimizer.Prelude.{
  ℕ, zero, suc, ◌≡◌, refl, sym, ap, ap₂, ◌∙◌, Bool, true, false, ◌&&◌, ◌==◌, ==_iff, List, [], ◌∷◌,
  map, length, Bool-cases, inl, inr, arith,
}
use ads_bidding_optimizer.Dict.{Dict, Text, text_key}
use ads_bidding_optimizer.Features.Tags.{encode_user_tags}
use ads_bidding_optimizer.Features.Tags.Padding.{encode_user_tags_pads}
use ads_bidding_optimizer.Dataset.{pack_tags, all_of_width, tag_array}

pack_tags-exact : (width : ℕ) (row : List ℕ) → length row ≡ width → pack_tags width row ≡ row
unfolding pack_tags
pack_tags-exact zero [] h = refl
pack_tags-exact zero (t ∷ row) h = absurd (omega arith)
pack_tags-exact (suc width) [] h = absurd (omega arith)
pack_tags-exact (suc width) (t ∷ row) h = ap (λ r. t ∷ r) (pack_tags-exact width row (omega arith))

and_true : (a b : Bool) → (a && b) ≡ true → (a ≡ true) × (b ≡ true)
and_true true b h = (refl, h)
and_true false b h = absurd (cc)

stacked :
    (width : ℕ) (rows : List (List ℕ))
    → all_of_width width rows ≡ true
    → rows ≡ map (pack_tags width) rows
unfolding all_of_width
stacked width [] h = refl
stacked width (row ∷ rows) h =
    let fits = and_true (length row == width) (all_of_width width rows) h in
    ap₂ (λ r rs. r ∷ rs) (sym (pack_tags-exact width row ((==_iff (length row) width).0 fits.0)))
      (stacked width rows fits.1)

-- Stacking all rows at once and packing them one by one give the same tags: in either case each row
-- of the array is the row of the file, cut off or filled up with zeros to 10 tags.
pub tag_array-eq-packed : (tags : List (List ℕ)) → tag_array tags ≡ map (pack_tags 10) tags
unfolding tag_array
tag_array-eq-packed tags = elim (Bool-cases (all_of_width 10 tags)) [
  | inl same ↦ rw same (stacked 10 tags same)
  | inr ragged ↦ rw ragged
]

-- The tags that the feature pipeline writes for fields of a log come back from the data set as they
-- were written.
pub tag_array-encoded :
    (vocab : Dict Text ℕ) (fields : List Text)
    → tag_array (map (λ s. encode_user_tags s vocab 10) fields)
      ≡ map (λ s. encode_user_tags s vocab 10) fields
tag_array-encoded vocab fields = tag_array-eq-packed _ ∙ kept fields
  where
    kept :
        (fields : List Text)
        → map (pack_tags 10) (map (λ s. encode_user_tags s vocab 10) fields)
          ≡ map (λ s. encode_user_tags s vocab 10) fields
    kept [] = refl
    kept (s ∷ rest) =
        ap₂ (λ r rs. r ∷ rs) (pack_tags-exact 10 _ (encode_user_tags_pads vocab 10 s).1) (kept rest)
