-- ===== src/TimeSpan.antt =====
-- The time spans of internal/rules/rulesengine.go and internal/policy/timewindow.go. The two
-- packages hold a parser each, alike but for the weekday's name and the time zone option: those two
-- are arguments here, and the modules below `Rules` and `Policy` give them.
pub mod Days
pub mod Window
use citadel_dnxproxy.Prelude.{
  ℕ, Bool, true, false, List, [], ◌∷◌, Option, none, some, ltb, if◌then◌else◌,
}
use citadel_dnxproxy.Prelude.Result.{Result, ok, err, ◌>>=◌, or_err}
use citadel_dnxproxy.Clock.{Location, parse_clock}
use citadel_dnxproxy.Text.{Text, trim_space, split, cut, is_empty}
use citadel_dnxproxy.TimeSpan.Days.{
  SpanError, empty_span, invalid_range, invalid_clock, Weekdays, parse_weekdays,
}

-- `parsedTimeSpan` and `span`; times of day are minutes since midnight.
pub record Span : Type 0 where
  pub start : ℕ
  pub end : ℕ
  pub cross_midnight : Bool
  pub weekdays : Weekdays
  pub loc : Location

-- `parts[0]` and `parts[1:]`
abbrev first_part : List Text → Text
first_part [] = []
first_part (p ∷ _) = p

abbrev other_parts : List Text → List Text
other_parts [] = []
other_parts (_ ∷ ps) = ps

-- The weekday section and the clock range.
abbrev split_weekdays : Text → Text × Text
split_weekdays time_part = elim (cut b'@' time_part) [
  | none ↦ ([], time_part)
  | some (days, range) ↦ (days, range)
]

abbrev two_parts : List Text → Result SpanError (Text × Text)
two_parts (a ∷ b ∷ []) = ok (a, b)
two_parts _ = err invalid_range

-- What follows the test for an empty time part, for the weekday section, the clock range and the
-- options.
abbrev parse_parts :
    (Text → Result SpanError ℕ)
    → (List Text → Location → Result SpanError Location)
    → Text × Text
    → List Text
    → Location
    → Result SpanError Span
parse_parts parse_weekday zone_options (weekday_part, range) options default_loc = do
  (from, to) ← two_parts (split b'-' range)
  start ← or_err (parse_clock from) invalid_clock
  end ← or_err (parse_clock to) invalid_clock
  loc ← zone_options options default_loc
  weekdays ← parse_weekdays parse_weekday weekday_part
  ok (record {
    start = start;
    end = end;
    cross_midnight = ltb end start;
    weekdays = weekdays;
    loc = loc;
  })

unfoldable pub parse_span :
    (Text → Result SpanError ℕ)
    → (List Text → Location → Result SpanError Location)
    → Text
    → Location
    → Result SpanError Span
unfolding parse_weekdays
parse_span parse_weekday zone_options def default_loc =
    let parts = split b'|' def in
    let time_part = trim_space (first_part parts) in
    if is_empty time_part
    then err empty_span
    else parse_parts parse_weekday zone_options (split_weekdays time_part) (other_parts parts)
        default_loc
