-- ===== src/Utils.antt =====
-- internal/utils/utils.go: wildcard patterns, and the address in front of a port.
pub mod Runes
pub mod Spec
pub mod Cells
pub mod Wildcard
use citadel_dnxproxy.Prelude.{
  ℕ, Bool, true, false, ◌||◌, List, [], ◌∷◌, Option, none, some, length, ◌==◌, if◌then◌else◌, arith,
}
use citadel_dnxproxy.Text.{Text, to_lower, trim_space, cut}
use citadel_dnxproxy.Utils.Runes.{string_to_rune_slice}

-- The part in front of the first colon, in lower case. A text with no colon is trimmed too.
unfoldable pub strip_port_from_addr : Text → Text
strip_port_from_addr addr = elim (cut b':' addr) [
  | none ↦ to_lower (trim_space addr)
  | some (host, _) ↦ to_lower host
]

abbrev pub Row : Type 0
Row = List Bool

-- Row 0 of the table behind its first cell: only '*' matches the empty text. `left` is
-- lookup[0][j-1].
first_row_from : Bool → Text → Row
first_row_from left [] = []
first_row_from left (q ∷ p) =
    let cell = (if q == b'*' then left else false) in cell ∷ first_row_from cell p

-- Row i behind its first cell, for the rune `c` = s[i-1]. `left` is lookup[i][j-1]; the row above
-- begins with lookup[i-1][j-1] and lookup[i-1][j].
next_row_from : ℕ → Bool → Text → Row → Row
next_row_from c left (q ∷ p) (diagonal ∷ above ∷ row) =
    let cell =
      (if q == b'*' then left || above else if q == b'?' || c == q then diagonal else false) in
    cell ∷ next_row_from c cell p (above ∷ row)
next_row_from c left _ _ = []

-- The loop over i: the last row of the table. Column 0 is false below row 0.
fill_rows : Text → Text → Row → Row
fill_rows p [] row = row
fill_rows p (c ∷ s) row = fill_rows p s (false ∷ next_row_from c false p row)

last_cell : Row → Bool
last_cell [] = false
last_cell (b ∷ []) = b
last_cell (b ∷ b' ∷ row) = last_cell (b' ∷ row)

match_runes : List ℕ → List ℕ → Bool
match_runes [] [] = true
match_runes [] (_ ∷ _) = false
match_runes (q ∷ p) s = last_cell (fill_rows (q ∷ p) s (true ∷ first_row_from true (q ∷ p)))

unfoldable pub wildcard_pattern_match : Text → Text → Bool
unfolding match_runes first_row_from next_row_from fill_rows last_cell
wildcard_pattern_match str pattern =
    match_runes (string_to_rune_slice pattern) (string_to_rune_slice str)
