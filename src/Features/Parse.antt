-- ===== src/Features/Parse.antt =====
-- `parse_chunked`: the lines of a log, as rows of the kept columns, in chunks. Decompression and
-- decoding of the file are not modelled: the lines are an argument.
pub mod Chunks
use ads_bidding_optimizer.Prelude.{
  ℕ, ◌+◌, Bool, true, false, Option, none, some, List, [], ◌∷◌, ◌++◌, map, length, leb, ◌==◌,
  if◌then◌else◌,
}
use Prim.Native.String.{String}
use text.Mathlib.Text.{◌==◌ as str_eq}
use ads_bidding_optimizer.Dict.{Text}
use ads_bidding_optimizer.Text.{split, strip_newlines}

abbrev pub colnames : List String
colnames =
    "bid_id" ∷ "timestamp" ∷ "log_type" ∷ "user_id" ∷ "user_agent" ∷ "ip" ∷ "region" ∷ "city"
    ∷ "ad_exchange" ∷ "domain" ∷ "url_hash" ∷ "anonymous_url" ∷ "slot_id" ∷ "slot_width"
    ∷ "slot_height" ∷ "slot_visibility" ∷ "slot_format" ∷ "slot_floor_price" ∷ "creative_id"
    ∷ "bidding_price" ∷ "payprice" ∷ "key_page_url" ∷ "advertiser_id" ∷ "user_tags" ∷ []

abbrev pub test_extra : List String
test_extra = "click" ∷ "conversion" ∷ []

abbrev pub keep_raw : List String
keep_raw =
    "timestamp" ∷ "region" ∷ "city" ∷ "ad_exchange" ∷ "domain" ∷ "slot_width" ∷ "slot_height"
    ∷ "slot_visibility" ∷ "slot_format" ∷ "slot_floor_price" ∷ "bidding_price" ∷ "payprice"
    ∷ "advertiser_id" ∷ "user_tags" ∷ []

-- a row of a data frame: column names with their cells
abbrev pub Cells : Type 0
Cells = List (String × Text)

-- the cell of a column; the columns that are asked for are always there
unfoldable pub cell : List String → List Text → String → Text
cell [] row name = []
cell (c ∷ cols) [] name = []
cell (c ∷ cols) (x ∷ row) name = if str_eq c name then x else cell cols row name

unfoldable pub columns : Bool → List String
columns is_test = if is_test then colnames ++ test_extra else colnames

unfoldable pub keep_columns : Bool → List String
keep_columns is_test = if is_test then keep_raw ++ test_extra else keep_raw

-- `pd.DataFrame(rows, columns=cols)[keep_cols]`
unfoldable pub frame : Bool → List (List Text) → List Cells
frame is_test rows =
    map (λ row. map (λ name. (name, cell (columns is_test) row name)) (keep_columns is_test)) rows

-- `line.rstrip('\n').split('\t')`
unfoldable pub parts_of : Text → List Text
parts_of line = split 9 (strip_newlines line)

-- The loop over the file: `rows` is the chunk being filled, `sub_dfs` the frames so far.
unfoldable pub read_lines :
    Bool → ℕ → List Text → List (List Text) → List (List Cells) → List (List Cells)
read_lines is_test chunk [] rows sub_dfs =
    if length rows == 0 then sub_dfs else sub_dfs ++ (frame is_test rows ∷ [])
read_lines is_test chunk (line ∷ lines) rows sub_dfs =
    let parts = parts_of line in
    let skip = read_lines is_test chunk lines rows sub_dfs in
    let rows' = rows ++ (parts ∷ []) in
    let flush = read_lines is_test chunk lines [] (sub_dfs ++ (frame is_test rows' ∷ [])) in
    let go_on = read_lines is_test chunk lines rows' sub_dfs in
    if length parts == length (columns is_test)
    then (if leb chunk (length rows') then flush else go_on)
    else skip

abbrev pub concat {ℓ} : {A : Type ℓ} → List (List A) → List A
concat [] = []
concat (xs ∷ xss) = xs ++ concat xss

-- `pd.concat` raises on no frames: `none`.
unfoldable pub concat_frames {ℓ} : {A : Type ℓ} → List (List A) → Option (List A)
concat_frames [] = none
concat_frames (df ∷ dfs) = some (concat (df ∷ dfs))

unfoldable pub parse_chunked : List Text → Bool → ℕ → Option (List Cells)
parse_chunked lines is_test chunk = concat_frames (read_lines is_test chunk lines [] [])
