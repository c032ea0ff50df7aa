-- ===== src/Features/Tags/Padding.antt =====
-- Theorems on the tag rows and the tag counts of rtb-bid-model/src/features.py.
use ads_bidding_optimizer.Prelude.{
  ℕ, zero, suc, ◌+◌, ◌≡◌, refl, sym, ◌∙◌, ap, ◌<◌, ◌≤◌, ◌||◌, length-replicate, Bool, true, false,
  List, [], ◌∷◌, ◌++◌, length, replicate, ◌==◌, if◌then◌else◌, Bool-cases, inl, inr, append_assoc,
  arith,
}
use ads_bidding_optimizer.Dict.{Dict, Text, text_key}
use ads_bidding_optimizer.Text.{split, is_empty}
use ads_bidding_optimizer.Features.Encode.{encode}
use ads_bidding_optimizer.Features.Tags.{
  set, has_no_tags, tag_loop, encode_user_tags, count_pieces, tag_count,
}

-- The pieces that are not empty.
unfoldable pub tokens : List Text → List Text
tokens [] = []
tokens (p ∷ ps) = if is_empty p then tokens ps else p ∷ tokens ps

-- The tags of a row: none for an empty field, 'null' or 'NaN'.
unfoldable pub tags_of : Text → List Text
tags_of s = if has_no_tags s then [] else tokens (split b',' s)

-- The codes of the tags that the vocabulary knows.
unfoldable pub known_codes : Dict Text ℕ → List Text → List ℕ
known_codes vocab [] = []
known_codes vocab (p ∷ ps) =
    if encode vocab p == 0 then known_codes vocab ps else encode vocab p ∷ known_codes vocab ps

-- The first `m` numbers of a list, filled up with zeros.
unfoldable pub pad_to : ℕ → List ℕ → List ℕ
pad_to zero xs = []
pad_to (suc m) [] = 0 ∷ pad_to m []
pad_to (suc m) (x ∷ xs) = x ∷ pad_to m xs

pub length-pad_to : (m : ℕ) (xs : List ℕ) → length (pad_to m xs) ≡ m
unfolding pad_to
length-pad_to zero xs = refl
length-pad_to (suc m) [] = ap suc (length-pad_to m [])
length-pad_to (suc m) (x ∷ xs) = ap suc (length-pad_to m xs)

pub pad_to-nil : (m : ℕ) → replicate m 0 ≡ pad_to m []
unfolding pad_to
pad_to-nil zero = refl
pad_to-nil (suc m) = ap (λ t. 0 ∷ t) (pad_to-nil m)

pub set-length :
    (pre : List ℕ) (x v : ℕ) (rest : List ℕ)
    → set (pre ++ (x ∷ rest)) (length pre) v ≡ (pre ++ (v ∷ [])) ++ rest
set-length [] x v rest = refl
set-length (p ∷ pre) x v rest = ap (λ t. p ∷ t) (set-length pre x v rest)

pub length-snoc : (pre : List ℕ) (v : ℕ) → length (pre ++ (v ∷ [])) ≡ length pre + 1
length-snoc [] v = omega arith
length-snoc (p ∷ pre) v = omega (arith, length-snoc pre v)

-- one more number of the padded list
pad_to-cons :
    (pre : List ℕ) (m x : ℕ) (xs : List ℕ)
    → (pre ++ (x ∷ [])) ++ pad_to m xs ≡ pre ++ pad_to (suc m) (x ∷ xs)
unfolding pad_to
pad_to-cons pre m x xs = append_assoc pre (x ∷ []) (pad_to m xs)

pub write_code :
    (pre : List ℕ) (m x j : ℕ)
    → length pre ≡ j
    → set (pre ++ replicate (suc m) 0) j x ≡ (pre ++ (x ∷ [])) ++ replicate m 0
write_code pre m x j len =
    ap (λ k. set (pre ++ replicate (suc m) 0) k x) (sym len) ∙ set-length pre 0 x (replicate m 0)

-- the rounds of the loops that write codes: skipped, or written at `j`
abbrev pub tag_round : Bool → (List ℕ → ℕ → List ℕ) → List ℕ → ℕ → ℕ → List ℕ
tag_round skipped rest row j tid = if skipped then rest row j else rest (set row j tid) (j + 1)

-- If the later rounds pad the codes that are left, so do all of them.
pub round-pads :
    (skipped : Bool) (rest : List ℕ → ℕ → List ℕ) (codes : List ℕ) (pre : List ℕ) (m j tid : ℕ)
    → length pre ≡ j
    → rest (pre ++ replicate (suc m) 0) j ≡ pre ++ pad_to (suc m) codes
    → rest ((pre ++ (tid ∷ [])) ++ replicate m 0) (j + 1) ≡ (pre ++ (tid ∷ [])) ++ pad_to m codes
    → tag_round skipped rest (pre ++ replicate (suc m) 0) j tid
      ≡ pre ++ pad_to (suc m) (if skipped then codes else tid ∷ codes)
round-pads true rest codes pre m j tid len skip kept = skip
round-pads false rest codes pre m j tid len skip kept =
    ap (λ row. rest row (j + 1)) (write_code pre m tid j len) ∙ kept ∙ pad_to-cons pre m tid codes

count_pieces-length : (ps : List Text) (c : ℕ) → count_pieces ps c ≡ c + length (tokens ps)
unfolding count_pieces tokens
count_pieces-length [] c = omega arith
count_pieces-length (p ∷ ps) c =
    ground (arith, count_pieces-length ps c, count_pieces-length ps (c + 1))

module _ (vocab : Dict Text ℕ) (max_len : ℕ) where
  abbrev skips : Text → Bool
  skips p = is_empty p || (encode vocab p == 0)

  loop_next :
      (p : Text) (ps : List Text) (j : ℕ) (row : List ℕ)
      → j < max_len
      → tag_loop vocab max_len (p ∷ ps) j row
        ≡ tag_round (skips p) (λ r k. tag_loop vocab max_len ps k r) row j (encode vocab p)
  unfolding tag_loop
  loop_next p ps j row h = ground arith

  loop_full :
      (p : Text) (ps : List Text) (j : ℕ) (row : List ℕ)
      → max_len ≤ j
      → tag_loop vocab max_len (p ∷ ps) j row ≡ row
  unfolding tag_loop
  loop_full p ps j row h = ground arith

  codes_next :
      (p : Text) (ps : List Text)
      → known_codes vocab (tokens (p ∷ ps)) ≡ (
          if skips p
          then known_codes vocab (tokens ps)
          else encode vocab p ∷ known_codes vocab (tokens ps))
  unfolding known_codes tokens
  codes_next p ps = ground arith

  -- The loop, from a row whose first `j` entries are written and whose other `m` are zeros.
  tag_loop-pads :
      (m : ℕ) (ps : List Text) (j : ℕ) (pre : List ℕ)
      → length pre ≡ j
      → j + m ≡ max_len
      → tag_loop vocab max_len ps j (pre ++ replicate m 0)
        ≡ pre ++ pad_to m (known_codes vocab (tokens ps))
  unfolding tokens known_codes
  tag_loop-pads m [] j pre len room = unfold tag_loop in ap (λ t. pre ++ t) (pad_to-nil m)
  tag_loop-pads zero (p ∷ ps) j pre len room =
      loop_full p ps j (pre ++ []) (omega arith) ∙ (unfold pad_to in refl)
  tag_loop-pads (suc m) (p ∷ ps) j pre len room =
      loop_next p ps j (pre ++ replicate (suc m) 0) (omega arith)
      ∙ round-pads (skips p) (λ r k. tag_loop vocab max_len ps k r) (known_codes vocab (tokens ps))
          pre m j (encode vocab p) len (tag_loop-pads (suc m) ps j pre len room)
          (tag_loop-pads m ps (j + 1) (pre ++ (encode vocab p ∷ []))
            (length-snoc pre (encode vocab p) ∙ ap (λ n. n + 1) len) (omega arith))
      ∙ ap (λ c. pre ++ pad_to (suc m) c) (sym (codes_next p ps))

  -- The array row of a tag field has `max_len` entries: the codes of its first `max_len` known
  -- tags, in their order, and then zeros. Unknown and empty pieces take no place, and an empty
  -- field, 'null' or 'NaN' gives zeros only.
  pub encode_user_tags_pads :
      (s : Text)
      → (encode_user_tags s vocab max_len ≡ pad_to max_len (known_codes vocab (tags_of s)))
        × (length (encode_user_tags s vocab max_len) ≡ max_len)
  unfolding encode_user_tags tags_of
  encode_user_tags_pads s = elim (Bool-cases (has_no_tags s)) [
    | inl empty ↦ rw empty (unfold known_codes in pad_to-nil max_len, length-replicate max_len 0)
    | inr tagged ↦
        let pads = tag_loop-pads max_len (split b',' s) 0 [] refl (omega arith) in
        rw tagged (pads, ap length pads ∙ length-pad_to max_len _)
  ]

-- The count of a row is the number of its tags.
pub tag_count-length : (s : Text) → tag_count s ≡ length (tags_of s)
unfolding tag_count tags_of
tag_count-length s = elim (Bool-cases (has_no_tags s)) [
  | inl empty ↦ rw empty
  | inr tagged ↦ rw tagged (count_pieces-length (split b',' s) 0 ∙ omega arith)
]
