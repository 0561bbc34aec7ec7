-- ===== src/Accounting/Requests.antt =====
-- One request: the budget, the session that it leaves, and the data of the other users.
use citadel_dnxproxy.Prelude.{
  subst, sym, ◌-◌, ◌/◌, ◌≤◌, ◌⊎◌, str_eq_iff, ◌≡◌, refl, ◌≢◌, ◌↔◌, true, false, Option, none, some,
  arith,
}
use citadel_dnxproxy.Prelude.Dict
use citadel_dnxproxy.Prelude.Int.{ℤ, pos, ◌+ℤ◌, ◌≤ℤ◌, ◌<ℤ◌}
use citadel_dnxproxy.Clock.{Time, nanoseconds, day_of}
use citadel_dnxproxy.Text.{Text, is_empty}
use citadel_dnxproxy.Policy.Types.{
  User, budget_exceeded, PolicyData, SessionState, UsageSummary, no_session, no_usage,
}
use citadel_dnxproxy.Policy.Store.Updates.{update_mutate-file}
use citadel_dnxproxy.Policy.Store.{StoreError, JsonStore}
use citadel_dnxproxy.Accounting.{
  Decision, Manager, open_decision, account, settle, apply_to_data, apply_for_day, process_request,
  accrue, usage_of_day, session_of_day,
}

-- What is over the budget.
abbrev pub Exceeds : ℤ → UsageSummary → Type 0
Exceeds budget usage = (pos 0 <ℤ budget) × (budget ≤ℤ usage.seconds)

-- What a request leaves: it is blocked exactly if there is a budget and the day's usage reaches it;
-- a request that passes reports the usage and leaves a session that is active and seen now.
pub record IsSettled (now : Time) (before after : Decision) (usage : UsageSummary)
    (session : SessionState) : Type 0 where
  pub blocked_iff : (after.blocked ≡ true) ↔ Exceeds before.budget_seconds usage
  pub blocked_reason : after.blocked ≡ true → after.reason ≡ budget_exceeded
  pub passed_reason : after.blocked ≡ false → after.reason ≡ before.reason
  pub passed_usage : after.blocked ≡ false → after.usage_seconds ≡ usage.seconds
  pub passed_active : after.blocked ≡ false → session.active ≡ true
  pub passed_seen : after.blocked ≡ false → session.last_seen ≡ now

settle-IsSettled :
    (now : Time) (decision : Decision) (usage : UsageSummary) (session : SessionState)
    → decision.blocked ≡ false
    → let (after, usage', session') = settle now decision (usage, session) in
      IsSettled now decision after usage' session'
unfolding settle
settle-IsSettled now decision usage session h = ground arith

-- Each request's accounting settles it.
pub account-IsSettled :
    (idle : ℤ) (user_id day : Text) (now : Time) (decision : Decision) (usage : UsageSummary)
    (session : SessionState)
    → decision.blocked ≡ false
    → let (after, usage', session') = account idle user_id day now decision usage session in
      IsSettled now decision after usage' session'
unfolding account
account-IsSettled idle user_id day now decision usage session h =
    let (u, s) =
      accrue idle now (usage_of_day user_id day usage) (session_of_day user_id day session) in
    settle-IsSettled now decision u s h

-- The seconds from which the day's usage goes on: a stored usage of another day does not count.
abbrev pub StartsAt : Text → UsageSummary → ℤ → Type 0
StartsAt day usage from =
    ((usage.day ≡ day) × (from ≡ usage.seconds)) ⊎ ((usage.day ≢ day) × (from ≡ pos 0))

-- The session has a user, is of the day and is active.
abbrev pub IsRunning : Text → SessionState → Type 0
IsRunning day session =
    (is_empty session.user_id ≡ false) × (session.day ≡ day) × (session.active ≡ true)

-- The session is not active, or is of another day.
abbrev pub IsOver : Text → SessionState → Type 0
IsOver day session =
    (session.active ≡ false) ⊎ ((is_empty session.day ≡ false) × (session.day ≢ day))

-- What a request adds to the day's usage: nothing without a running session, the seconds since the
-- last request within the idle timeout, and the length of the session after it.
pub record IsCounted (idle : ℤ) (day : Text) (now : Time) (usage : UsageSummary)
    (session : SessionState) (usage' : UsageSummary) : Type 0 where
  pub of_day : usage'.day ≡ day
  pub over : (from : ℤ) → StartsAt day usage from → IsOver day session → usage'.seconds ≡ from
  pub within :
      (from : ℤ)
      → StartsAt day usage from
      → IsRunning day session
      → pos (now - session.last_seen) ≤ℤ idle
      → usage'.seconds ≡ from +ℤ pos ((now - session.last_seen) / nanoseconds)
  pub after :
      (from : ℤ)
      → StartsAt day usage from
      → IsRunning day session
      → idle <ℤ pos (now - session.last_seen)
      → session.start ≤ session.last_seen
      → usage'.seconds ≡ from +ℤ pos ((session.last_seen - session.start) / nanoseconds)

account-IsCounted :
    (idle : ℤ) (user_id day : Text) (now : Time) (decision : Decision) (usage : UsageSummary)
    (session : SessionState)
    → IsCounted idle day now usage session (account idle user_id day now decision usage session).1
unfolding account
account-IsCounted idle user_id day now decision usage session = record {
  of_day = ground (arith, str_eq_iff usage.day day);
  over = λ from s c. ground (arith, str_eq_iff usage.day day, str_eq_iff session.day day);
  within = λ from s c h. ground (arith, str_eq_iff usage.day day, str_eq_iff session.day day);
  after = λ from s c h o. ground (arith, str_eq_iff usage.day day, str_eq_iff session.day day);
}

-- What a request does to the data: the user's usage of the day is counted from the stored one, the
-- decision settles the new usage and session, and every other user's records and all other data stay
-- as they were.
pub record IsApplied (m : Manager) (user : User) (now : Time) (d d' : PolicyData) (after : Decision)
    : Type 0 where
  pub settled :
      IsSettled now
        (open_decision user)
        after
        (Dict.get_or d'.usage user.id no_usage)
        (Dict.get_or d'.sessions user.id no_session)
  pub counted :
      IsCounted m.idle_timeout
        (day_of m.budget_tz now)
        now
        (Dict.get_or d.usage user.id no_usage)
        (Dict.get_or d.sessions user.id no_session)
        (Dict.get_or d'.usage user.id no_usage)
  pub other_usage : (k : Text) → user.id ≢ k → Dict.get d'.usage k ≡ Dict.get d.usage k
  pub other_sessions : (k : Text) → user.id ≢ k → Dict.get d'.sessions k ≡ Dict.get d.sessions k
  pub users : d'.users ≡ d.users
  pub devices : d'.devices ≡ d.devices
  pub domain_rules : d'.domain_rules ≡ d.domain_rules
  pub settings : d'.settings ≡ d.settings
  pub admin : d'.admin ≡ d.admin
  pub audit : d'.audit ≡ d.audit
  pub version : d'.version ≡ d.version

apply_to_data-IsApplied :
    (m : Manager) (user : User) (now : Time) (d : PolicyData)
    → let (after, d') =
        apply_to_data m.idle_timeout user.id (day_of m.budget_tz now) now (open_decision user) d in
      IsApplied m user now d d' after
unfolding apply_to_data
apply_to_data-IsApplied m user now d =
    let idle = m.idle_timeout in
    let day = day_of m.budget_tz now in
    let usage = Dict.get_or d.usage user.id no_usage in
    let session = Dict.get_or d.sessions user.id no_session in
    let (after, usage', session') =
      account idle user.id day now (open_decision user) usage session in
    record {
      settled =
          rw
            (
              Dict.get_or-put_self d.usage user.id usage' no_usage,
              Dict.get_or-put_self d.sessions user.id session' no_session,
            )
            (account-IsSettled idle user.id day now (open_decision user) usage session refl);
      counted =
          rw (Dict.get_or-put_self d.usage user.id usage' no_usage)
            (account-IsCounted idle user.id day now (open_decision user) usage session);
      other_usage = λ k h. Dict.get-put_ne d.usage user.id k usage' h;
      other_sessions = λ k h. Dict.get-put_ne d.sessions user.id k session' h;
      users = refl;
      devices = refl;
      domain_rules = refl;
      settings = refl;
      admin = refl;
      audit = refl;
      version = refl;
    }

pub process_request-contents :
    (write : PolicyData → Option StoreError) (m : Manager) (user : User) (now : Time)
    (s : JsonStore)
    → (process_request write m user now s).0.contents
      ≡ (apply_to_data m.idle_timeout user.id
          (day_of m.budget_tz now)
          now
          (open_decision user)
          s.contents).1
unfolding process_request apply_for_day
process_request-contents write m user now s =
    let apply =
      apply_to_data m.idle_timeout user.id (day_of m.budget_tz now) now (open_decision user) in
    (update_mutate-file write (λ d. ((apply d).1, none)) s refl).0

pub process_request-IsApplied :
    (write : PolicyData → Option StoreError) (m : Manager) (user : User) (now : Time)
    (s : JsonStore)
    → let (s', after, e) = process_request write m user now s in
      IsApplied m user now s.contents s'.contents after
      × (e ≡ write s'.contents)
      × (e ≡ none → s'.file ≡ some s'.contents)
      × (e ≢ none → s'.file ≡ s.file)
unfolding process_request apply_for_day
process_request-IsApplied write m user now s =
    let day = day_of m.budget_tz now in
    let apply = apply_to_data m.idle_timeout user.id day now (open_decision user) in
    let (same, file) = update_mutate-file write (λ d. ((apply d).1, none)) s refl in
    (
      subst (λ d. IsApplied m user now s.contents d (apply s.contents).0) (sym same)
          (apply_to_data-IsApplied m user now s.contents),
      file.0,
      file.1,
      file.2,
    )
