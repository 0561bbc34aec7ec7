-- ===== src/Utils/Cells.antt =====
-- A cell of the table as a function of the two prefixes that it stands for, read backwards, and the
-- proof that it decides `Matches`.
use mathlib.Core.Bool.{false≢true}
use citadel_dnxproxy.Prelude.{
  ℕ, ◌≡◌, refl, ap, ◌↔◌, inl, inr, Bool, true, false, ◌||◌, List, [], ◌∷◌, ◌++◌, arith, ◌==◌,
  ==_iff, if◌then◌else◌, Bool-cases,
}
use citadel_dnxproxy.Utils.Spec.{Matches, done, one, run}

unfoldable pub cell : List ℕ → List ℕ → Bool
cell [] [] = true
cell [] (_ ∷ _) = false
cell (q ∷ p) [] = if q == b'*' then cell p [] else false
cell (q ∷ p) (c ∷ s) =
    if q == b'*'
    then cell p (c ∷ s) || cell (q ∷ p) s
    else if q == b'?' || c == q
    then cell p s
    else false

Matches-run_more :
    {q : ℕ} {p s : List ℕ} (c : ℕ) → q ≡ b'*' → Matches (q ∷ p) s → Matches (q ∷ p) (c ∷ s)
Matches-run_more c e (one a m) = absurd (a.0 e)
Matches-run_more c e (run v e' h m) = run (c ∷ v) e (ap (◌∷◌ c) h) m

cell_sound : (p s : List ℕ) → cell p s ≡ true → Matches p s
unfolding cell
cell_sound [] [] h = done
cell_sound [] (_ ∷ _) h = absurd (false≢true h)
cell_sound (q ∷ p) [] h = run [] (ground arith) refl (cell_sound p [] (ground arith))
cell_sound (q ∷ p) (c ∷ s) h = elim (Bool-cases (q == b'*')) [
  | inl e ↦ elim (Bool-cases (cell p (c ∷ s))) [
    | inl leave ↦ run [] ((==_iff _ _).0 e) refl (cell_sound p (c ∷ s) leave)
    | inr stay ↦ Matches-run_more c ((==_iff _ _).0 e) (cell_sound (q ∷ p) s (ground arith))
  ]
  | inr e ↦ one (ground arith, ground arith) (cell_sound p s (ground arith))
]

cell-leave : (q : ℕ) (p s : List ℕ) → q ≡ b'*' → cell p s ≡ true → cell (q ∷ p) s ≡ true
unfolding cell
cell-leave q p [] e h = ground arith
cell-leave q p (c ∷ s) e h = ground arith

cell-run : (q : ℕ) (p u s : List ℕ) → q ≡ b'*' → cell p s ≡ true → cell (q ∷ p) (u ++ s) ≡ true
unfolding cell
cell-run q p [] s e h = cell-leave q p s e h
cell-run q p (c ∷ u) s e h = ground (arith, cell-run q p u s e h)

cell_complete : {p s : List ℕ} → Matches p s → cell p s ≡ true
unfolding cell
cell_complete done = refl
cell_complete (one (n, inl e) m) = ground (arith, cell_complete m)
cell_complete (one (n, inr e) m) = ground (arith, cell_complete m)
cell_complete (run {q} {p} {s} u e h m) = rw h (cell-run q p u s e (cell_complete m))

-- A cell is true exactly when its pattern matches its text.
pub cell_iff : (p s : List ℕ) → (cell p s ≡ true) ↔ Matches p s
cell_iff p s = (cell_sound p s, cell_complete)
