-- ===== src/TimeSpan/Window.antt =====
-- Whether a moment lies in a parsed span: the second half of `evaluateTimeSpanBlock` and of
-- `InTimeSpan`, which make the same tests in the same order.
use citadel_dnxproxy.Prelude.{ℕ, Bool, true, false, ◌∷◌, [], ◌&&◌, ◌||◌, ltb, leb, if◌then◌else◌}
use citadel_dnxproxy.Clock.{Time, weekday, minute_of_day}
use citadel_dnxproxy.TimeSpan.{Span}
use citadel_dnxproxy.TimeSpan.Days.{Weekdays, has_day}

-- `len(ts.weekdays) == 0 || ts.weekdays[d]`
unfoldable pub day_allowed : Weekdays → ℕ → Bool
unfolding has_day
day_allowed [] d = true
day_allowed (w ∷ days) d = has_day (w ∷ days) d

-- The tests on the minutes of the day. The last minute counts only in a span across midnight.
unfoldable pub in_window : Bool → ℕ → ℕ → ℕ → Bool
in_window true start end current = leb start current || leb current end
in_window false start end current = leb start current && ltb current end

unfoldable pub holds : Span → Time → Bool
unfolding day_allowed in_window weekday minute_of_day
holds ts now =
    if day_allowed ts.weekdays (weekday ts.loc now)
    then in_window ts.cross_midnight ts.start ts.end (minute_of_day ts.loc now)
    else false
