-- ===== src/Features/Parse/Chunks.antt =====
-- A theorem on the chunks of `parse_chunked` in rtb-bid-model/src/features.py.
use ads_bidding_optimizer.Prelude.{
  ℕ, ◌≡◌, refl, sym, ◌∙◌, ap, Bool, true, false, Option, none, some, List, [], ◌∷◌, ◌++◌, length,
  leb, ◌==◌, if◌then◌else◌, Bool-cases, inl, inr, append-nil, append_assoc, arith,
}
use mathlib.Core.List.{map-append}
use ads_bidding_optimizer.Dict.{Text}
use ads_bidding_optimizer.Features.Parse.{
  Cells, columns, frame, parts_of, read_lines, concat, concat_frames, parse_chunked,
}

-- The rows of the lines that have the right number of fields, in the order of the file.
pub well_formed : Bool → List Text → List (List Text)
well_formed is_test [] = []
well_formed is_test (line ∷ lines) =
    if length (parts_of line) == length (columns is_test)
    then parts_of line ∷ well_formed is_test lines
    else well_formed is_test lines

-- What `parse_chunked` is for: all well-formed rows in one frame, or the error of an empty file.
pub parsed : Bool → List (List Text) → Option (List Cells)
parsed is_test [] = none
parsed is_test (row ∷ rows) = some (frame is_test (row ∷ rows))

concat-append {ℓ} :
    {A : Type ℓ} (xss yss : List (List A)) → concat (xss ++ yss) ≡ concat xss ++ concat yss
concat-append [] yss = refl
concat-append (xs ∷ xss) yss =
    ap (λ t. xs ++ t) (concat-append xss yss) ∙ sym (append_assoc xs (concat xss) (concat yss))

frame-append : (t : Bool) (xs ys : List (List Text)) → frame t (xs ++ ys) ≡ frame t xs ++ frame t ys
unfolding frame
frame-append t xs ys = map-append _ xs ys

flush_rows :
    (t : Bool) (dfs : List (List Cells)) (rows : List (List Text)) (p : List Text)
    (rest : List (List Text))
    → concat (dfs ++ (frame t (rows ++ (p ∷ [])) ∷ [])) ++ frame t rest
      ≡ concat dfs ++ frame t (rows ++ (p ∷ rest))
flush_rows t dfs rows p rest =
    simp (concat-append, frame-append, append_assoc, append-nil) (unfold frame in refl)

last_chunk :
    (t : Bool) (chunk : ℕ) (r : List Text) (rows : List (List Text)) (dfs : List (List Cells))
    → read_lines t chunk [] (r ∷ rows) dfs ≡ dfs ++ (frame t (r ∷ rows) ∷ [])
unfolding read_lines
last_chunk t chunk r rows dfs = ground arith

well_formed_good :
    (t : Bool) (line : Text) (lines : List Text)
    → (length (parts_of line) == length (columns t)) ≡ true
    → well_formed t (line ∷ lines) ≡ parts_of line ∷ well_formed t lines
unfolding well_formed
well_formed_good t line lines h = rw h

well_formed_bad :
    (t : Bool) (line : Text) (lines : List Text)
    → (length (parts_of line) == length (columns t)) ≡ false
    → well_formed t (line ∷ lines) ≡ well_formed t lines
unfolding well_formed
well_formed_bad t line lines h = rw h

-- the three ways to take a line
module _ (t : Bool) (chunk : ℕ) (line : Text) (lines : List Text) (rows : List (List Text))
    (dfs : List (List Cells)) where
  read_bad :
      (length (parts_of line) == length (columns t)) ≡ false
      → read_lines t chunk (line ∷ lines) rows dfs ≡ read_lines t chunk lines rows dfs
  unfolding read_lines
  read_bad h = rw h

  read_flush :
      (length (parts_of line) == length (columns t)) ≡ true
      → leb chunk (length (rows ++ (parts_of line ∷ []))) ≡ true
      → read_lines t chunk (line ∷ lines) rows dfs
        ≡ read_lines t chunk lines [] (dfs ++ (frame t (rows ++ (parts_of line ∷ [])) ∷ []))
  unfolding read_lines
  read_flush h k = rw h (rw k)

  read_open :
      (length (parts_of line) == length (columns t)) ≡ true
      → leb chunk (length (rows ++ (parts_of line ∷ []))) ≡ false
      → read_lines t chunk (line ∷ lines) rows dfs
        ≡ read_lines t chunk lines (rows ++ (parts_of line ∷ [])) dfs
  unfolding read_lines
  read_open h k = rw h (rw k)

-- the rows that the frames and the open chunk hold together
read_lines_rows :
    (t : Bool) (chunk : ℕ) (lines : List Text) (rows : List (List Text)) (dfs : List (List Cells))
    → concat (read_lines t chunk lines rows dfs)
      ≡ concat dfs ++ frame t (rows ++ well_formed t lines)
unfolding well_formed
read_lines_rows t chunk [] [] dfs =
    unfold read_lines frame well_formed in sym (append-nil (concat dfs))
read_lines_rows t chunk [] (r ∷ rows) dfs =
    ap concat (last_chunk t chunk r rows dfs)
    ∙ concat-append dfs (frame t (r ∷ rows) ∷ [])
    ∙ ap (λ z. concat dfs ++ z)
        (append-nil (frame t (r ∷ rows)) ∙ ap (frame t) (sym (append-nil (r ∷ rows))))
read_lines_rows t chunk (line ∷ lines) rows dfs =
    elim (Bool-cases (length (parts_of line) == length (columns t))) [
      | inr bad ↦
          ap concat (read_bad t chunk line lines rows dfs bad)
          ∙ read_lines_rows t chunk lines rows dfs
          ∙ ap (λ z. concat dfs ++ frame t (rows ++ z)) (sym (well_formed_bad t line lines bad))
      | inl good ↦
          (elim (Bool-cases (leb chunk (length (rows ++ (parts_of line ∷ []))))) [
            | inl flush ↦
                ap concat (read_flush t chunk line lines rows dfs good flush)
                ∙ read_lines_rows t chunk lines []
                    (dfs ++ (frame t (rows ++ (parts_of line ∷ [])) ∷ []))
                ∙ flush_rows t dfs rows (parts_of line) (well_formed t lines)
            | inr fits ↦
                ap concat (read_open t chunk line lines rows dfs good fits)
                ∙ read_lines_rows t chunk lines (rows ++ (parts_of line ∷ [])) dfs
                ∙ ap (λ z. concat dfs ++ frame t z)
                    (append_assoc rows (parts_of line ∷ []) (well_formed t lines))
          ])
          ∙ ap (λ z. concat dfs ++ frame t (rows ++ z)) (sym (well_formed_good t line lines good))
    ]

no_rows :
    (t : Bool) (chunk : ℕ) (lines : List Text)
    → well_formed t lines ≡ []
    → read_lines t chunk lines [] [] ≡ []
no_rows t chunk [] h = unfold read_lines in refl
no_rows t chunk (line ∷ lines) h =
    elim (Bool-cases (length (parts_of line) == length (columns t))) [
      | inl good ↦ cc (well_formed_good t line lines good, h)
      | inr bad ↦
          read_bad t chunk line lines [] [] bad
          ∙ no_rows t chunk lines (sym (well_formed_bad t line lines bad) ∙ h)
    ]

concat_frames-eq-parsed :
    (t : Bool) (dfs : List (List Cells)) (rows : List (List Text))
    → concat dfs ≡ frame t rows
    → (rows ≡ [] → dfs ≡ [])
    → concat_frames dfs ≡ parsed t rows
unfolding concat_frames parsed frame
concat_frames-eq-parsed t [] [] e h = refl
concat_frames-eq-parsed t [] (r ∷ rows) e h = cc
concat_frames-eq-parsed t (df ∷ dfs) [] e h = cc (h refl)
concat_frames-eq-parsed t (df ∷ dfs) (r ∷ rows) e h = ap some e

-- For a file of any length and chunks of any size the result is one frame with every line that has
-- the right number of fields, in the order of the file, and nothing else; or the error of
-- `pd.concat` where there is no such line.
pub parse_chunked-eq-parsed :
    (lines : List Text) (is_test : Bool) (chunk : ℕ)
    → parse_chunked lines is_test chunk ≡ parsed is_test (well_formed is_test lines)
unfolding parse_chunked
parse_chunked-eq-parsed lines t chunk =
    concat_frames-eq-parsed t (read_lines t chunk lines [] []) (well_formed t lines)
      (read_lines_rows t chunk lines [] []) (no_rows t chunk lines)
