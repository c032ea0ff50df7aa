-- ===== src/Retrain/Window.antt =====
-- `read_window` of retrain.py. `json.loads` is an argument; a missing file is `none`.
use ads_bidding_optimizer.Prelude.{
  ℕ, ◌-◌, ◌<◌, ◌≡◌, refl, ◌∙◌, Bool, false, ◌&&◌, ◌||◌, Option, none, some, List, [], ◌∷◌, ◌++◌,
  length, drop, take, min, ltb, leb, ◌==◌, if◌then◌else◌, Bool-cases, inl, inr, length-drop,
  take-append-drop, arith,
}
use mathlib.Core.List.{reverse}
use ads_bidding_optimizer.Dict.{Text}
use ads_bidding_optimizer.Text.{is_empty}

-- the white space of `str.strip`
unfoldable pub is_space : ℕ → Bool
is_space c =
    (leb 9 c && leb c 13)
    || ((leb 28 c && leb c 32)
        || (c == 133
            || (c == 160
                || (c == 5760
                    || ((leb 8192 c && leb c 8202)
                        || (c == 8232
                            || (c == 8233 || (c == 8239 || (c == 8287 || c == 12288)))))))))

unfoldable pub strip_left : Text → Text
strip_left [] = []
strip_left (c ∷ s) = let rest = strip_left s in if is_space c then rest else c ∷ s

-- `line.strip()`
unfoldable pub strip : Text → Text
strip s = reverse (strip_left (reverse (strip_left s)))

module _ {ℓ} {R : Type ℓ} (loads : Text → Option R) where
  -- one line of the log: a blank line and a line that is no JSON are passed over
  unfoldable pub add_line : Text → List R → List R
  add_line line rows =
      if is_empty (strip line)
      then rows
      else elim (loads (strip line)) [ none ↦ rows | some r ↦ rows ++ (r ∷ []) ]

  unfoldable pub read_rows : List Text → List R → List R
  read_rows [] rows = rows
  read_rows (line ∷ lines) rows = read_rows lines (add_line line rows)

  -- `rows[-window:]`; `rows[-0:]` is the whole list
  unfoldable pub last_rows : ℕ → List R → List R
  last_rows window rows = if window == 0 then rows else drop (length rows - window) rows

  -- `if len(rows) > window: rows = rows[-window:]`
  unfoldable pub keep_last : ℕ → List R → List R
  keep_last window rows = if ltb window (length rows) then last_rows window rows else rows

  unfoldable pub read_window : Option (List Text) → ℕ → List R
  read_window none window = []
  read_window (some lines) window = keep_last window (read_rows lines [])

  keep_last-suffix :
      (window : ℕ) (rows : List R)
      → 0 < window
      → (length (keep_last window rows) ≡ min window (length rows))
        × ((older : List R) × (older ++ keep_last window rows ≡ rows))
  unfolding keep_last last_rows
  keep_last-suffix window rows pos = elim (Bool-cases (ltb window (length rows))) [
    | inr short ↦ rw short (ground arith, ([], refl))
    | inl long ↦
        let nonzero : (window == 0) ≡ false = ground arith in
        rw long (
          rw nonzero (
            length-drop (length rows - window) rows ∙ ground arith,
            (take (length rows - window) rows, take-append-drop (length rows - window) rows),
          ))
  ]

  keep_last_none : (rows : List R) → keep_last 0 rows ≡ rows
  unfolding keep_last last_rows
  keep_last_none rows = ground arith

  -- With a window of at least 1 the rows that are read are the last ones of the log, `window` of
  -- them or all if there are fewer.
  read_window_last :
      (lines : List Text) (window : ℕ)
      → 0 < window
      → (length (read_window (some lines) window) ≡ min window (length (read_rows lines [])))
        × ((older : List R) × (older ++ read_window (some lines) window ≡ read_rows lines []))
  unfolding read_window
  read_window_last lines window positive = keep_last-suffix window (read_rows lines []) positive

  -- With a window of 0 the rows that are read are all rows of the log, and not the last 0 of them.
  read_window_zero : (lines : List Text) → read_window (some lines) 0 ≡ read_rows lines []
  unfolding read_window
  read_window_zero lines = keep_last_none (read_rows lines [])
