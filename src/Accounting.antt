-- ===== src/Accounting.antt =====
-- internal/accounting/accounting.go: sessions and daily budgets.
pub mod Requests
pub mod Idle
pub mod Runs
use citadel_dnxproxy.Prelude.{
  ℕ, zero, suc, ◌*◌, ◌/◌, Bool, true, false, not, ◌&&◌, List, Option, none, some, if◌then◌else◌,
  str_eq,
}
use citadel_dnxproxy.Prelude.Dict
use citadel_dnxproxy.Prelude.Int.{ℤ, pos, negsuc, sub_ℕ, ◌+ℤ◌, ◌*ℤ◌, ltb_ℤ}
use citadel_dnxproxy.Clock.{Time, Location, nanoseconds, day_of}
use citadel_dnxproxy.Text.{Text, is_empty}
use citadel_dnxproxy.Policy.Types.{
  User, Reason, budget_exceeded, PolicyData, SessionState, UsageSummary, no_session, no_usage,
}
use citadel_dnxproxy.Policy.Store.{StoreError, JsonStore, update_mutate}

-- The result of a request's accounting.
pub record Decision : Type 0 where
  pub user : User
  pub usage_seconds : ℤ
  pub budget_seconds : ℤ
  pub blocked : Bool
  pub reason : Reason

-- `a.Sub(b)` in nanoseconds, for times within 292 years of one another
abbrev pub sub_time : Time → Time → ℤ
sub_time = sub_ℕ

-- `int64(d.Seconds())`: whole seconds, rounded towards zero
unfoldable pub whole_seconds : ℤ → ℤ
whole_seconds (pos n) = pos (n / nanoseconds)
whole_seconds (negsuc n) = sub_ℕ 0 (suc n / nanoseconds)

-- `if delta < 0 { delta = 0 }`
abbrev pub at_least_zero : ℤ → ℤ
at_least_zero (pos n) = pos n
at_least_zero (negsuc n) = pos 0

-- The usage of the day, a new one where the day has changed.
unfoldable pub usage_of_day : Text → Text → UsageSummary → UsageSummary
usage_of_day user_id day usage =
    if str_eq usage.day day then usage else record { user_id = user_id; day = day; seconds = pos 0 }

-- The session, with its user set where it has none, and closed where its day is over.
abbrev owned : Text → Text → SessionState → SessionState
owned user_id day session =
    if is_empty session.user_id then record no_session { user_id = user_id; day = day } else session

abbrev closed_at_day : Text → SessionState → SessionState
closed_at_day day session =
    if not (is_empty session.day) && not (str_eq session.day day)
    then record session { active = false; start = 0; last_seen = 0 }
    else session

unfoldable pub session_of_day : Text → Text → SessionState → SessionState
session_of_day user_id day session = record (closed_at_day day (owned user_id day session)) {
  day = day;
}

-- The idle timeout: what an active session adds to the seconds, and the session after it.
unfoldable pub accrue : ℤ → Time → UsageSummary → SessionState → UsageSummary × SessionState
unfolding whole_seconds
accrue idle_timeout now usage session =
    let delta = at_least_zero (sub_time now session.last_seen) in
    if session.active
    then if ltb_ℤ idle_timeout delta
      then (
        record usage {
          seconds = usage.seconds +ℤ whole_seconds (sub_time session.last_seen session.start);
        },
        record session { active = false },
      )
      else (record usage { seconds = usage.seconds +ℤ whole_seconds delta }, session)
    else (usage, session)

abbrev over_budget : ℤ → UsageSummary → Bool
over_budget budget usage = ltb_ℤ (pos 0) budget && not (ltb_ℤ usage.seconds budget)

-- `if !session.Active { Active = true; Start = now }; LastSeen = now`
unfoldable pub touch_session : Time → SessionState → SessionState
touch_session now session =
    if session.active
    then record session { last_seen = now }
    else record session { active = true; start = now; last_seen = now }

-- The end of the update: the decision, the usage and the session that are stored.
unfoldable pub settle :
    Time → Decision → UsageSummary × SessionState → Decision × UsageSummary × SessionState
unfolding touch_session
settle now decision (usage, session) =
    if over_budget decision.budget_seconds usage
    then (record decision { blocked = true; reason = budget_exceeded }, usage, session)
    else (record decision { usage_seconds = usage.seconds }, usage, touch_session now session)

-- One request of a user on a day, from the stored usage and session.
unfoldable pub account :
    ℤ
    → Text
    → Text
    → Time
    → Decision
    → UsageSummary
    → SessionState
    → Decision × UsageSummary × SessionState
unfolding usage_of_day session_of_day accrue settle
account idle_timeout user_id day now decision usage session =
    settle now decision (
      accrue idle_timeout now (usage_of_day user_id day usage) (session_of_day user_id day session))

abbrev store_account :
    Text → PolicyData → Decision × UsageSummary × SessionState → Decision × PolicyData
store_account user_id d (decision, usage, session) = (
  decision,
  record d {
    sessions = Dict.put d.sessions user_id session;
    usage = Dict.put d.usage user_id usage;
  },
)

-- The function that `applyForDay` passes to the store, with the decision it leaves.
unfoldable pub apply_to_data :
    ℤ → Text → Text → Time → Decision → PolicyData → Decision × PolicyData
apply_to_data idle_timeout user_id day now decision d = store_account user_id d (
    account idle_timeout user_id day now decision (Dict.get_or d.usage user_id no_usage)
      (Dict.get_or d.sessions user_id no_session))

-- `Manager`, less its store and clock
pub record Manager : Type 0 where
  pub idle_timeout : ℤ
  pub budget_tz : Location

abbrev default_minutes : ℤ → ℤ
default_minutes (pos zero) = pos 10
default_minutes n = n

-- `NewManager`: 0 minutes stand for 10. The timeout is in nanoseconds.
unfoldable pub new_manager : ℤ → Location → Manager
new_manager idle_minutes budget_tz = record {
  idle_timeout = default_minutes idle_minutes *ℤ pos (60 * nanoseconds);
  budget_tz = budget_tz;
}

-- The decision that `ProcessRequest` starts from.
abbrev pub open_decision : User → Decision
open_decision user = record {
  user = user;
  usage_seconds = pos 0;
  budget_seconds = user.daily_budget_minutes *ℤ pos 60;
  blocked = false;
  reason = Reason.none;
}

module _ (write : PolicyData → Option StoreError) where
  -- `applyForDay`. The decision is read after the update has run, as the Go compiler orders it.
  unfoldable pub apply_for_day :
      Manager → Text → Text → Time → Decision → JsonStore → JsonStore × Decision × Option StoreError
  apply_for_day m user_id day now decision s =
      let (decided, _) = apply_to_data m.idle_timeout user_id day now decision s.contents in
      let (s', e) =
        update_mutate write
          (λ d. ((apply_to_data m.idle_timeout user_id day now decision d).1, none)) s in
      (s', decided, e)

  unfoldable pub process_request :
      Manager → User → Time → JsonStore → JsonStore × Decision × Option StoreError
  process_request m user now s =
      apply_for_day m user.id (day_of m.budget_tz now) now (open_decision user) s
