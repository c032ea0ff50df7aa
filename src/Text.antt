-- ===== src/Text.antt =====
-- The methods of Python's `str` that the feature pipeline calls, on code points.
use ads_bidding_optimizer.Prelude.{ℕ, List, [], ◌∷◌, ◌==◌, if◌then◌else◌, Bool, true, false}
use ads_bidding_optimizer.Dict.{Text}

-- puts a character in front of the first piece
abbrev pub extend : ℕ → List Text → List Text
extend c [] = (c ∷ []) ∷ []
extend c (p ∷ ps) = (c ∷ p) ∷ ps

-- `s.split(sep)` for a separator of one character
unfoldable pub split : ℕ → Text → List Text
split sep [] = [] ∷ []
split sep (c ∷ s) = let pieces = split sep s in if c == sep then [] ∷ pieces else extend c pieces

abbrev pub is_empty : Text → Bool
is_empty [] = true
is_empty (c ∷ s) = false

-- `s.rstrip('\n')`
unfoldable pub strip_newlines : Text → Text
strip_newlines [] = []
strip_newlines (c ∷ s) =
    let rest = strip_newlines s in
    if is_empty rest then (if c == 10 then [] else c ∷ []) else c ∷ rest
