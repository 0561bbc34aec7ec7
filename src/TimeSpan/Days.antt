-- ===== src/TimeSpan/Days.antt =====
-- `parseWeekdays` of both packages: "mon,tue", "mon-fri", "fri-mon".
pub mod Ranges
use citadel_dnxproxy.Prelude.{
  ℕ, zero, suc, ◌+◌, ◌%◌, Bool, true, false, List, [], ◌∷◌, Option, none, some, ◌==◌, if◌then◌else◌,
  any_by,
}
use citadel_dnxproxy.Prelude.Result.{Result, ok, err, ◌>>=◌}
use citadel_dnxproxy.Text.{Text, trim_space, split, cut, is_empty}

-- The errors of the two parsers. `out_of_fuel` belongs to the model only.
pub data SpanError : Type 0 where
  empty_span invalid_range invalid_clock invalid_location invalid_weekday out_of_fuel : SpanError

-- map[time.Weekday]bool, whose values are all true: the keys. Sunday is 0.
abbrev pub Weekdays : Type 0
Weekdays = List ℕ

unfoldable pub has_day : Weekdays → ℕ → Bool
unfolding any_by
has_day days d = any_by (λ w. w == d) days

-- `result[d] = true`
unfoldable pub mark : ℕ → Weekdays → Weekdays
unfolding has_day
mark d days = if has_day days d then days else d ∷ days

-- `for i := start; ; i = (i + 1) % 7 { result[i] = true; if i == end { break } }`
unfoldable pub mark_range : ℕ → ℕ → ℕ → Weekdays → Result SpanError Weekdays
mark_range zero i end days = err out_of_fuel
mark_range (suc fuel) i end days =
    let rest = mark_range fuel ((i + 1) % 7) end (mark i days) in
    if i == end then ok (mark i days) else rest

module _ (parse_weekday : Text → Result SpanError ℕ) where
  -- One element between commas, which is not blank.
  unfoldable pub parse_days : Text → Weekdays → Result SpanError Weekdays
  unfolding mark_range
  parse_days p days = elim (cut b'-' p) [
    | none ↦ do w ← parse_weekday p; ok (mark w days)
    | some (from, to) ↦ do
      start ← parse_weekday from
      end ← parse_weekday to
      mark_range 7 start end days
  ]

  unfoldable pub parse_list : List Text → Weekdays → Result SpanError Weekdays
  unfolding parse_days
  parse_list [] days = ok days
  parse_list (p ∷ ps) days =
      if is_empty (trim_space p)
      then parse_list ps days
      else (parse_days (trim_space p) days >>= parse_list ps)

  unfoldable pub parse_weekdays : Text → Result SpanError Weekdays
  unfolding parse_list
  parse_weekdays def =
      if is_empty (trim_space def) then ok [] else parse_list (split b',' (trim_space def)) []
