-- ===== src/Policy/TimeWindow.antt =====
-- internal/policy/timewindow.go. `load_location` is time.LoadLocation.
use citadel_dnxproxy.Prelude.{
  ℕ, Bool, false, List, [], ◌∷◌, Option, none, some, if◌then◌else◌, str_eq, ◌||◌,
}
use citadel_dnxproxy.Prelude.Result.{Result, ok, err}
use citadel_dnxproxy.Clock.{Location, Moment}
use citadel_dnxproxy.Text.{Text, codes, to_lower, trim_space, strip_prefix}
use citadel_dnxproxy.TimeSpan.{Span, parse_span}
use citadel_dnxproxy.TimeSpan.Days.{SpanError, invalid_weekday}
use citadel_dnxproxy.TimeSpan.Window.{holds}

day_number : Text → Result SpanError ℕ
day_number s =
    if str_eq s (codes "mon") || str_eq s (codes "monday")
    then ok 1
    else if str_eq s (codes "tue") || str_eq s (codes "tues") || str_eq s (codes "tuesday")
    then ok 2
    else if str_eq s (codes "wed") || str_eq s (codes "wednesday")
    then ok 3
    else if str_eq s (codes "thu") || str_eq s (codes "thursday") || str_eq s (codes "thurs")
    then ok 4
    else if str_eq s (codes "fri") || str_eq s (codes "friday")
    then ok 5
    else if str_eq s (codes "sat") || str_eq s (codes "saturday")
    then ok 6
    else if str_eq s (codes "sun") || str_eq s (codes "sunday")
    then ok 0
    else err invalid_weekday

unfoldable pub parse_weekday : Text → Result SpanError ℕ
unfolding day_number
parse_weekday s = day_number (to_lower s)

-- `if l, err := time.LoadLocation(...); err == nil { loc = l }`
abbrev loaded : Option Location → Location → Location
loaded none loc = loc
loaded (some l) loc = l

module _ (load_location : Text → Option Location) where
  -- The loop over `parts[1:]`: a zone that does not load is passed over.
  unfoldable pub zone_options : List Text → Location → Result SpanError Location
  zone_options [] loc = ok loc
  zone_options (opt ∷ opts) loc =
      zone_options opts (elim (strip_prefix (codes "tz=") (trim_space opt)) [
        | none ↦ loc
        | some name ↦ loaded (load_location name) loc
      ])

  unfoldable pub parse_policy_time_span : Text → Location → Result SpanError Span
  unfolding zone_options parse_weekday parse_span
  parse_policy_time_span def default_loc = parse_span parse_weekday zone_options def default_loc

  unfoldable pub in_time_span : Text → Moment → Bool
  unfolding parse_policy_time_span holds
  in_time_span def now = elim (parse_policy_time_span def now.location) [
    | err e ↦ false
    | ok ts ↦ holds ts now.instant
  ]
