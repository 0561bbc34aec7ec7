-- ===== src/Clock.antt =====
-- What the program uses of Go's `time` package. A time counts the nanoseconds since the zero Time,
-- midnight UTC of Monday, 1 January of year 1; earlier times do not occur. A location is the wall
-- clock that the time zone's data gives: the local seconds since year 1 at a UTC second.
use citadel_dnxproxy.Prelude.{
  ℕ, ◌+◌, ◌*◌, ◌/◌, ◌%◌, ◌-◌, Bool, ◌&&◌, [], ◌∷◌, ◌++◌, Option, none, some, ltb, leb, ◌==◌,
  if◌then◌else◌,
}
use citadel_dnxproxy.Text.{Text}

abbrev pub Time : Type 0
Time = ℕ

abbrev pub nanoseconds : ℕ
nanoseconds = 1_000_000_000

pub record Location : Type 0 where
  pub wall : ℕ → ℕ

-- A time.Time value with its location.
pub record Moment : Type 0 where
  pub instant : Time
  pub location : Location

abbrev pub wall_seconds : Location → Time → ℕ
wall_seconds loc t = loc.wall (t / nanoseconds)

-- Four and two decimal digits.
abbrev two_digits : ℕ → Text
two_digits n = (b'0' + n / 10 % 10) ∷ (b'0' + n % 10) ∷ []

abbrev four_digits : ℕ → Text
four_digits n = two_digits (n / 100) ++ two_digits n

-- The date of a day counted from 1 January of year 1, by the civil calendar whose years begin in
-- March: 306 days lie between 1 March of year 0 and that day.
unfoldable pub date_text : ℕ → Text
date_text days =
    let z = days + 306 in
    let day_of_era = z % 146_097 in
    let year_of_era =
      (day_of_era - day_of_era / 1_460 + day_of_era / 36_524 - day_of_era / 146_096) / 365 in
    let day_of_year = day_of_era - (365 * year_of_era + year_of_era / 4 - year_of_era / 100) in
    let shifted = (5 * day_of_year + 2) / 153 in
    let day = day_of_year - (153 * shifted + 2) / 5 + 1 in
    let month = (if ltb shifted 10 then shifted + 3 else shifted - 9) in
    let year = z / 146_097 * 400 + year_of_era + (if ltb month 3 then 1 else 0) in
    four_digits year ++ b'-' ∷ two_digits month ++ b'-' ∷ two_digits day

-- `t.In(loc).Format("2006-01-02")`, for the years up to 9999
unfoldable pub day_of : Location → Time → Text
unfolding date_text
day_of loc t = date_text (wall_seconds loc t / 86_400)

-- `t.In(loc).Weekday()`, with Sunday 0
unfoldable pub weekday : Location → Time → ℕ
weekday loc t = (wall_seconds loc t / 86_400 + 1) % 7

-- `t.In(loc).Hour()` and `Minute()`, as minutes since midnight
unfoldable pub minute_of_day : Location → Time → ℕ
minute_of_day loc t = wall_seconds loc t % 86_400 / 60

abbrev is_digit : ℕ → Bool
is_digit c = leb b'0' c && leb c b'9'

-- The minute behind the colon has two digits.
parse_minute : ℕ → Text → Option ℕ
parse_minute hour (colon ∷ a ∷ b ∷ []) =
    if colon == b':'
      && is_digit a
      && is_digit b
      && ltb hour 24
      && ltb ((a - b'0') * 10 + (b - b'0')) 60
    then some (hour * 60 + ((a - b'0') * 10 + (b - b'0')))
    else none
parse_minute hour _ = none

-- time.Parse("15:04", s), as minutes since midnight: an hour of one or two digits.
unfoldable pub parse_clock : Text → Option ℕ
unfolding parse_minute
parse_clock [] = none
parse_clock (a ∷ []) = none
parse_clock (a ∷ b ∷ s) =
    if is_digit a
    then if is_digit b
      then parse_minute ((a - b'0') * 10 + (b - b'0')) s
      else parse_minute (a - b'0') (b ∷ s)
    else none
