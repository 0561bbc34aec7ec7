-- ===== src/Rules/Span.antt =====
-- Rules' time spans, and the evaluation of one rule. `load_location` is time.LoadLocation, which
-- reads the zone database: `none` is its error.

use citadel_dnxproxy.Prelude.{
  ℕ, Bool, true, false, List, [], ◌∷◌, Option, none, some, if◌then◌else◌, str_eq, ◌||◌,
}
use citadel_dnxproxy.Prelude.Result.{Result, ok, err, ◌>>=◌, or_err}
use citadel_dnxproxy.Clock.{Location, Time}
use citadel_dnxproxy.Config.{ActionType, Rule, blocked_time_span, unknown}
use citadel_dnxproxy.Text.{Text, codes, to_lower, trim_space, strip_prefix, is_empty}
use citadel_dnxproxy.TimeSpan.{Span, parse_span}
use citadel_dnxproxy.TimeSpan.Days.{SpanError, invalid_location, invalid_weekday}
use citadel_dnxproxy.TimeSpan.Window.{holds}

abbrev one_of : Text → Text → Text → Bool
one_of s short long = str_eq s short || str_eq s long

day_number : Text → Result SpanError ℕ
day_number s =
    if one_of s (codes "sun") (codes "sunday")
    then ok 0
    else if one_of s (codes "mon") (codes "monday")
    then ok 1
    else if one_of s (codes "tue") (codes "tuesday")
    then ok 2
    else if one_of s (codes "wed") (codes "wednesday")
    then ok 3
    else if one_of s (codes "thu") (codes "thursday")
    then ok 4
    else if one_of s (codes "fri") (codes "friday")
    then ok 5
    else if one_of s (codes "sat") (codes "saturday")
    then ok 6
    else err invalid_weekday

unfoldable pub parse_weekday : Text → Result SpanError ℕ
unfolding day_number
parse_weekday s = day_number (to_lower (trim_space s))

-- `evalResult`
pub record EvalResult : Type 0 where
  pub action : ActionType
  pub time_span : Text
  pub time_matched : Bool
  pub time_evaluated : Bool

-- `evalResult{action: action}`
abbrev pub plain : ActionType → EvalResult
plain act = record { action = act; time_span = []; time_matched = false; time_evaluated = false }

module _ (load_location : Text → Option Location) where
  -- The loop over `parts[1:]`: a zone that does not load is an error, the last one that loads counts.
  unfoldable pub zone_options : List Text → Location → Result SpanError Location
  zone_options [] loc = ok loc
  zone_options (opt ∷ opts) loc = elim (strip_prefix (codes "tz=") (trim_space opt)) [
    | none ↦ zone_options opts loc
    | some name ↦ (or_err (load_location name) invalid_location >>= zone_options opts)
  ]

  unfoldable pub parse_time_span : Text → Location → Result SpanError Span
  unfolding zone_options parse_weekday parse_span
  parse_time_span def default_loc = parse_span parse_weekday zone_options def default_loc

  unfoldable pub evaluate_time_span_block :
      Text → ActionType → Time → Location → Result SpanError (ActionType × Bool)
  unfolding parse_time_span holds
  evaluate_time_span_block def action now loc = do
    ts ← parse_time_span def loc
    ok (if holds ts now then (action, true) else (ActionType.none, false))

  abbrev with_time_span : Text → ActionType → Time → Location → Result SpanError EvalResult
  with_time_span def type now loc = do
    (act, matched) ← evaluate_time_span_block def type now loc
    ok (record { action = act; time_span = def; time_matched = matched; time_evaluated = true })

  -- The switch, for a rule with no time span.
  by_type : ActionType → Time → Location → Result SpanError EvalResult
  by_type blocked_time_span now loc = with_time_span [] blocked_time_span now loc
  by_type (unknown n) now loc = ok (plain ActionType.none)
  by_type act now loc = ok (plain act)

  -- `evaluateRule`, with the engine's clock and time.Local
  unfoldable pub evaluate_rule : Rule → Time → Location → Result SpanError EvalResult
  unfolding by_type evaluate_time_span_block
  evaluate_rule r now local =
      if is_empty r.time_span
      then by_type r.type now local
      else with_time_span r.time_span r.type now local
