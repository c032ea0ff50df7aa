-- ===== src/Features/Tags.antt =====
-- `encode_user_tags_to_arr` and the tag counts of features.py: comma-separated tags of a row.
pub mod Padding
use ads_bidding_optimizer.Prelude.{
  ℕ, zero, suc, ◌+◌, Bool, ◌||◌, not, List, [], ◌∷◌, replicate, leb, ◌==◌, if◌then◌else◌,
}
use ads_bidding_optimizer.Dict.{Key, Dict, Text, text_beq, text_key}
use ads_bidding_optimizer.Text.{split, is_empty}
use ads_bidding_optimizer.Features.Encode.{encode}

-- A write out of bounds changes nothing; the loops below never make one.
abbrev pub set {ℓ} : {A : Type ℓ} → List A → ℕ → A → List A
set [] i v = []
set (x ∷ xs) zero v = v ∷ xs
set (x ∷ xs) (suc i) v = x ∷ set xs i v

-- 'null' and 'NaN', as code points
abbrev pub null_text : Text
null_text = 110 ∷ 117 ∷ 108 ∷ 108 ∷ []

abbrev pub nan_text : Text
nan_text = 78 ∷ 97 ∷ 78 ∷ []

-- `not s or s == 'null' or s == 'NaN'`
unfoldable pub has_no_tags : Text → Bool
has_no_tags s = is_empty s || (text_beq s null_text || text_beq s nan_text)

-- the inner loop over the pieces of one row: `j` tags are written to `row`
unfoldable pub tag_loop : Dict Text ℕ → ℕ → List Text → ℕ → List ℕ → List ℕ
tag_loop vocab max_len [] j row = row
tag_loop vocab max_len (p ∷ ps) j row =
    let tid = encode vocab p in
    let skip = tag_loop vocab max_len ps j row in
    let kept = tag_loop vocab max_len ps (j + 1) (set row j tid) in
    if leb max_len j then row else if is_empty p then skip else if tid == 0 then skip else kept

-- one row of `encode_user_tags_to_arr`
unfoldable pub encode_user_tags : Text → Dict Text ℕ → ℕ → List ℕ
encode_user_tags s vocab max_len =
    if has_no_tags s
    then replicate max_len 0
    else tag_loop vocab max_len (split b',' s) 0 (replicate max_len 0)

unfoldable pub count_pieces : List Text → ℕ → ℕ
count_pieces [] c = c
count_pieces (p ∷ ps) c = count_pieces ps (if is_empty p then c else c + 1)

-- `tag_count` of one row
unfoldable pub tag_count : Text → ℕ
tag_count s = if has_no_tags s then 0 else count_pieces (split b',' s) 0
