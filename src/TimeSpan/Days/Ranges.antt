-- ===== src/TimeSpan/Days/Ranges.antt =====
-- Which days the loop over a range of weekdays marks.
use citadel_dnxproxy.Prelude.{
  ℕ, zero, suc, ◌+◌, ◌%◌, ◌≤◌, ◌<◌, ◌≡◌, ◌≢◌, refl, ◌↔◌, ◌⊎◌, true, false, arith, ◌==◌, if_cases,
  ==_iff, subst, any_by,
}
use Prim.Native.Nat.{◌-◌}
use citadel_dnxproxy.Prelude.Result.{Result, ok}
use citadel_dnxproxy.TimeSpan.Days.{SpanError, Weekdays, has_day, mark, mark_range}

-- The number of days from the weekday `i` on to the next weekday `d`.
abbrev pub days_to : ℕ → ℕ → ℕ
days_to i d = ((d + 7) - i) % 7

has_day-mark :
    (i d : ℕ) (days : Weekdays)
    → (has_day (mark i days) d ≡ true) ↔ ((d ≡ i) ⊎ (has_day days d ≡ true))
unfolding has_day mark any_by
has_day-mark i d days = ground arith

-- The days from `i` to `end` of a week that goes round.
abbrev pub InRange : ℕ → ℕ → ℕ → Type 0
InRange i end d = (d < 7) × (days_to i d ≤ days_to i end)

InRange-last : (i d : ℕ) → i < 7 → InRange i i d ↔ (d ≡ i)
InRange-last i d h = (λ p. omega (arith, p), λ e. (omega arith, omega arith))

InRange-next :
    (i end d : ℕ)
    → i < 7
    → end < 7
    → i ≢ end
    → InRange i end d ↔ ((d ≡ i) ⊎ InRange ((i + 1) % 7) end d)
InRange-next i end d h k ne = ground arith

-- What the loop leaves on enough fuel.
abbrev Marks : Result SpanError Weekdays → Weekdays → ℕ → ℕ → Type 0
Marks r days start end =
    (days' : Weekdays) × (r ≡ ok days')
    × ((d : ℕ) → (has_day days' d ≡ true) ↔ ((has_day days d ≡ true) ⊎ InRange start end d))

==-ne : (a b : ℕ) → (a == b) ≡ false → a ≢ b
==-ne a b h = ground arith

last_day : {A D E F : Type 0} → (A ↔ (D ⊎ E)) → (F ↔ D) → A ↔ (E ⊎ F)
last_day h k = ground arith

next_day : {A B C D E F : Type 0} → (A ↔ (B ⊎ C)) → (B ↔ (D ⊎ E)) → (F ↔ (D ⊎ C)) → A ↔ (E ⊎ F)
next_day g h k = ground arith

mark_range-Marks :
    (fuel i end : ℕ) (days : Weekdays)
    → i < 7
    → end < 7
    → days_to i end < fuel
    → Marks (mark_range fuel i end days) days i end
unfolding mark_range
mark_range-Marks zero i end days h k enough = absurd (omega arith)
mark_range-Marks (suc fuel) i end days h k enough =
    if_cases (λ r. Marks r days i end) (i == end) _ _
      (λ e.
        let same : i ≡ end = (==_iff i end).0 e in
        (
          mark i days,
          refl,
          λ d.
              last_day (has_day-mark i d days)
                (subst (λ z. InRange i z d ↔ (d ≡ i)) same (InRange-last i d h)),
        ))
      (λ e.
        let differ : i ≢ end = ==-ne i end e in
        let (days', result, marked) =
          mark_range-Marks fuel ((i + 1) % 7) end (mark i days) (omega arith) k
            (omega (arith, differ)) in
        (
          days',
          result,
          λ d. next_day (marked d) (has_day-mark i d days) (InRange-next i end d h k differ),
        ))

-- For weekdays below seven, a range marks, beside the days that were marked, exactly the days from
-- its first to its last in a week that goes round; its loop ends within seven rounds.
pub mark_range_lem :
    (start end : ℕ) (days : Weekdays)
    → start < 7
    → end < 7
    → (days' : Weekdays) × (mark_range 7 start end days ≡ ok days')
      × ((d : ℕ) → (has_day days' d ≡ true) ↔ ((has_day days d ≡ true) ⊎ InRange start end d))
mark_range_lem start end days h k = mark_range-Marks 7 start end days h k (omega arith)
