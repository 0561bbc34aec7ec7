-- ===== src/Utils/Wildcard.antt =====
-- The table of `WildcardPatternMatch` decides `Matches`.
use mathlib.Core.Path.{ap₂}
use mathlib.Core.List.{append_assoc, append-nil, reverse-cons}
use citadel_dnxproxy.Prelude.{
  ℕ, ◌≡◌, refl, sym, ap, ◌∙◌, ◌↔◌, true, false, List, [], ◌∷◌, ◌++◌, reverse,
}
use citadel_dnxproxy.Text.{Text}
use citadel_dnxproxy.Utils.{
  Row, first_row_from, next_row_from, fill_rows, last_cell, match_runes, wildcard_pattern_match,
}
use citadel_dnxproxy.Utils.Runes.{string_to_rune_slice}
use citadel_dnxproxy.Utils.Spec.{Matches, Matches-reverse_iff}
use citadel_dnxproxy.Utils.Cells.{cell, cell_iff}

reverse_cons_append : (x : ℕ) (xs ys : List ℕ) → reverse (x ∷ xs) ++ ys ≡ reverse xs ++ x ∷ ys
reverse_cons_append x xs ys = rw (reverse-cons x xs, append_assoc)

cell-nil_ne : (c : ℕ) (s : List ℕ) → cell [] (reverse (c ∷ s)) ≡ false
unfolding cell
cell-nil_ne c s = rw reverse-cons (cell-nil_snoc (reverse s) c)
  where
    cell-nil_snoc : (s : List ℕ) (c : ℕ) → cell [] (s ++ c ∷ []) ≡ false
    cell-nil_snoc [] c = refl
    cell-nil_snoc (_ ∷ _) c = refl

-- The cells behind the one for the prefixes `rp` and `u`, both read backwards.
cells : List ℕ → List ℕ → List ℕ → Row
cells rp u [] = []
cells rp u (q ∷ p) = cell (q ∷ rp) u ∷ cells (q ∷ rp) u p

first_row_from-eq-cells : (p rp : List ℕ) → first_row_from (cell rp []) p ≡ cells rp [] p
unfolding first_row_from cells cell
first_row_from-eq-cells [] rp = refl
first_row_from-eq-cells (q ∷ p) rp =
    ap (◌∷◌ (cell (q ∷ rp) [])) (first_row_from-eq-cells p (q ∷ rp))

next_row_from-eq-cells :
    (c : ℕ) (p rp u : List ℕ)
    → next_row_from c (cell rp (c ∷ u)) p (cell rp u ∷ cells rp u p) ≡ cells rp (c ∷ u) p
unfolding next_row_from cells cell
next_row_from-eq-cells c [] rp u = refl
next_row_from-eq-cells c (q ∷ p) rp u =
    ap (◌∷◌ (cell (q ∷ rp) (c ∷ u))) (next_row_from-eq-cells c p (q ∷ rp) u)

-- The row for the text `u`, read backwards.
row : List ℕ → List ℕ → Row
row p u = cell [] u ∷ cells [] u p

fill_rows-eq-row : (p s u : List ℕ) → fill_rows p s (row p u) ≡ row p (reverse s ++ u)
unfolding fill_rows row cell
fill_rows-eq-row p [] u = refl
fill_rows-eq-row p (c ∷ s) u =
    ap (λ r. fill_rows p s (false ∷ r)) (next_row_from-eq-cells c p [] u)
    ∙ fill_rows-eq-row p s (c ∷ u)
    ∙ ap (row p) (sym (reverse_cons_append c s u))

last_cell-cells :
    (p rp u : List ℕ) → last_cell (cell rp u ∷ cells rp u p) ≡ cell (reverse p ++ rp) u
unfolding last_cell cells
last_cell-cells [] rp u = refl
last_cell-cells (q ∷ p) rp u =
    last_cell-cells p (q ∷ rp) u ∙ ap (λ r. cell r u) (sym (reverse_cons_append q p rp))

match_runes-eq-cell : (p s : List ℕ) → match_runes p s ≡ cell (reverse p) (reverse s)
unfolding match_runes row cell
match_runes-eq-cell [] [] = refl
match_runes-eq-cell [] (c ∷ s) = sym (cell-nil_ne c s)
match_runes-eq-cell (q ∷ p) s =
    ap (λ r. last_cell (fill_rows (q ∷ p) s (true ∷ r))) (first_row_from-eq-cells (q ∷ p) [])
    ∙ ap last_cell (fill_rows-eq-row (q ∷ p) s [])
    ∙ last_cell-cells (q ∷ p) [] (reverse s ++ [])
    ∙ ap₂ cell (append-nil (reverse (q ∷ p))) (append-nil (reverse s))

-- WildcardPatternMatch answers true exactly when the runes of the text match the runes of the
-- pattern, where '*' stands for any run of runes, '?' for any one rune and the others for
-- themselves.
pub wildcard_pattern_match_iff :
    (str pattern : Text)
    → (wildcard_pattern_match str pattern ≡ true)
      ↔ Matches (string_to_rune_slice pattern) (string_to_rune_slice str)
unfolding wildcard_pattern_match
wildcard_pattern_match_iff str pattern =
    let p = string_to_rune_slice pattern in
    let s = string_to_rune_slice str in
    let e = match_runes-eq-cell p s in
    let (sound, complete) = cell_iff (reverse p) (reverse s) in
    let (forwards, backwards) = Matches-reverse_iff p s in
    (λ h. forwards (sound (sym e ∙ h)), λ m. e ∙ complete (backwards m))
