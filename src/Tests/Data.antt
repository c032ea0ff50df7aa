-- ===== src/Tests/Data.antt =====
-- The feature pipeline and the batches at concrete inputs.
use ads_bidding_optimizer.Prelude.{
  map, ℕ, ◌+◌, ◌<◌, ◌≡◌, ◌↔◌, ◌⊎◌, refl, Bool, true, false, List, [], ◌∷◌, ◌++◌, length, take, drop,
  arith,
}
use ads_bidding_optimizer.Dict.{
  Dict, Text, number_key, text_key, put, contains, most_common, insert_by_count,
}
use ads_bidding_optimizer.Features.Parse.{parse_chunked, concat}
use ads_bidding_optimizer.Features.Parse.Chunks.{well_formed, parsed, parse_chunked-eq-parsed}
use ads_bidding_optimizer.Features.Encode.{fit_from, fit_encoder, encode, vocab_size}
use ads_bidding_optimizer.Features.Encode.Codes.{is_frequent, fit_encoder_codes}
use ads_bidding_optimizer.Features.Tags.{encode_user_tags}
use ads_bidding_optimizer.Features.Tags.Padding.{
  tags_of, known_codes, pad_to, encode_user_tags_pads,
}
use ads_bidding_optimizer.Features.Passes.{fit_frames, split_frames}
use ads_bidding_optimizer.Features.Passes.Leakage.{split_no_leakage}
use ads_bidding_optimizer.Dataset.{iter_batches, num_batches, tag_array}
use ads_bidding_optimizer.Dataset.Packing.{tag_array-encoded}
use ads_bidding_optimizer.Dataset.Batches.{iter_batches_rows}

-- keys are numbers here, and 0 stands for '<UNK>'
abbrev counts : Dict ℕ ℕ
counts = (7, 5) ∷ (8, 1) ∷ (9, 6) ∷ []

-- the most frequent key is 9, and 8 is rare
test_codes : fit_encoder 0 counts 2 ≡ (0, 0) ∷ (9, 1) ∷ (7, 2) ∷ []
unfolding fit_encoder fit_from most_common insert_by_count put contains
test_codes = refl

fit_encoder_codes_example :
    (encode (fit_encoder 0 counts 2) 7 + 1 < vocab_size (fit_encoder 0 counts 2))
    × ((encode (fit_encoder 0 counts 2) 7 ≡ 0)
        ↔ (◌≡◌ {A = ℕ} 7 0 ⊎ (is_frequent 2 7 counts ≡ false)))
fit_encoder_codes_example = fit_encoder_codes 0 counts 2 7

abbrev files : List (List ℕ)
files = (1 ∷ 2 ∷ 3 ∷ []) ∷ [] ∷ (4 ∷ 5 ∷ []) ∷ (6 ∷ []) ∷ []

split_no_leakage_example :
    let (train, val) = split_frames 4 0 files [] [] in
    (concat train ≡ take 4 (concat files))
    × (concat val ≡ drop 4 (concat files))
    × (concat (fit_frames 4 0 files) ≡ concat train)
split_no_leakage_example = split_no_leakage 4 files

-- a file whose only line is malformed
abbrev short_line : List Text
short_line = (97 ∷ 9 ∷ 98 ∷ 10 ∷ []) ∷ []

parse_chunked-eq-parsed_example :
    parse_chunked short_line false 200000 ≡ parsed false (well_formed false short_line)
parse_chunked-eq-parsed_example = parse_chunked-eq-parsed short_line false 200000

-- "a,,b" with a known tag and an unknown one
abbrev tags : Text
tags = 97 ∷ 44 ∷ 44 ∷ 98 ∷ []

abbrev tag_vocab : Dict Text ℕ
tag_vocab = ((97 ∷ []), 3) ∷ []

encode_user_tags_pads_example :
    (encode_user_tags tags tag_vocab 4 ≡ pad_to 4 (known_codes tag_vocab (tags_of tags)))
    × (length (encode_user_tags tags tag_vocab 4) ≡ 4)
encode_user_tags_pads_example = encode_user_tags_pads tag_vocab 4 tags

abbrev rows : List ℕ
rows = 10 ∷ 11 ∷ 12 ∷ 13 ∷ 14 ∷ []

iter_batches_rows_example :
    (concat (iter_batches rows 2 false) ≡ rows)
    × ((rest : List ℕ) × (concat (iter_batches rows 2 true) ++ rest ≡ rows) × (length rest < 2))
    × ((drop_last : Bool) → length (iter_batches rows 2 drop_last) ≡ num_batches 5 2 drop_last)
iter_batches_rows_example = iter_batches_rows rows 2 (omega arith)

-- a short row and a long one
abbrev ragged : List (List ℕ)
ragged = (1 ∷ 2 ∷ []) ∷ (1 ∷ 2 ∷ 3 ∷ 4 ∷ 5 ∷ 6 ∷ 7 ∷ 8 ∷ 9 ∷ 10 ∷ 11 ∷ []) ∷ []

tag_array-encoded_example :
    tag_array (map (λ s. encode_user_tags s tag_vocab 10) (tags ∷ [] ∷ []))
    ≡ map (λ s. encode_user_tags s tag_vocab 10) (tags ∷ [] ∷ [])
tag_array-encoded_example = tag_array-encoded tag_vocab (tags ∷ [] ∷ [])
