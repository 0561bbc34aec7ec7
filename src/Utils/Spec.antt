-- ===== src/Utils/Spec.antt =====
-- What a wildcard pattern means, with no table in it: '*' stands for any run of runes, '?' for any
-- one rune, and every other rune for itself.
use mathlib.Core.List.{append-nil, append_assoc, reverse-append, reverse-cons, reverse-reverse}
use citadel_dnxproxy.Prelude.{ℕ, ◌≡◌, sym, ◌≢◌, ◌⊎◌, ◌↔◌, List, [], ◌∷◌, ◌++◌, reverse}

abbrev pub Accepts : ℕ → ℕ → Type 0
Accepts q c = (q ≢ b'*') × ((q ≡ b'?') ⊎ (c ≡ q))

pub data Matches : List ℕ → List ℕ → Type 0 where
  done : Matches [] []
  one : {q c : ℕ} {p s : List ℕ} → Accepts q c → Matches p s → Matches (q ∷ p) (c ∷ s)
  run :
      {q : ℕ} {p s t : List ℕ} (u : List ℕ)
      → q ≡ b'*'
      → t ≡ u ++ s
      → Matches p s
      → Matches (q ∷ p) t

-- The rules at the other end of the pattern.
Matches-snoc_run :
    {p s : List ℕ} {q : ℕ} → Matches p s → (u : List ℕ) → q ≡ b'*' → Matches (p ++ q ∷ []) (s ++ u)
Matches-snoc_run done u e = run u e (sym (append-nil u)) done
Matches-snoc_run (one a m) u e = one a (Matches-snoc_run m u e)
Matches-snoc_run (run {s} v e h m) u e' =
    run v e (rw h (append_assoc v s u)) (Matches-snoc_run m u e')

Matches-snoc_one :
    {p s : List ℕ} {q c : ℕ} → Matches p s → Accepts q c → Matches (p ++ q ∷ []) (s ++ c ∷ [])
Matches-snoc_one done a = one a done
Matches-snoc_one (one b m) a = one b (Matches-snoc_one m a)
Matches-snoc_one (run {s} v e h m) a = run v e (rw h (append_assoc v s _)) (Matches-snoc_one m a)

pub Matches-reverse : {p s : List ℕ} → Matches p s → Matches (reverse p) (reverse s)
Matches-reverse done = done
Matches-reverse (one {q} {c} {p} {s} a m) =
    rw (reverse-cons q p, reverse-cons c s) (Matches-snoc_one (Matches-reverse m) a)
Matches-reverse (run {q} {p} {s} v e h m) =
    rw (h, reverse-cons q p, reverse-append v s)
      (Matches-snoc_run (Matches-reverse m) (reverse v) e)

-- A text matches a pattern read forwards exactly when it does read backwards.
pub Matches-reverse_iff : (p s : List ℕ) → Matches (reverse p) (reverse s) ↔ Matches p s
Matches-reverse_iff p s = (λ m. simp reverse-reverse at (Matches-reverse m), Matches-reverse)
