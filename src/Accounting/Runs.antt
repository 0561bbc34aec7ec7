-- ===== src/Accounting/Runs.antt =====
-- Requests of one user on one day, with the JSON store between them, which keeps times as they are.
use citadel_dnxproxy.Prelude.{
  ◌∙◌, ap, ◌-◌, ◌/◌, ◌≤◌, ◌≡◌, refl, false, List, [], ◌∷◌, Option, All, length,
}
use mathlib.Core.Path.{ap₂}
use citadel_dnxproxy.Prelude.Dict
use citadel_dnxproxy.Prelude.Int.{pos, ◌+ℤ◌, ◌*ℤ◌, ◌≤ℤ◌, ◌<ℤ◌}
use citadel_dnxproxy.Clock.{Time, nanoseconds, day_of}
use citadel_dnxproxy.Text.{Text, is_empty}
use citadel_dnxproxy.Policy.Types.{
  User, PolicyData, SessionState, UsageSummary, no_session, no_usage,
}
use citadel_dnxproxy.Policy.Store.{StoreError, JsonStore}
use citadel_dnxproxy.Accounting.{Manager, open_decision, account, apply_to_data, process_request}
use citadel_dnxproxy.Accounting.Requests.{process_request-contents}
use citadel_dnxproxy.Accounting.Idle.{
  IsOpen, serve, Unbroken, Rapid, last_of, Between, serve-Between, serve-Rapid, serve_twice,
}

module _ (write : PolicyData → Option StoreError) (m : Manager) (user : User) where
  -- A call of ProcessRequest at each of the times.
  unfoldable pub process_requests : List Time → JsonStore → JsonStore
  process_requests [] s = s
  process_requests (now ∷ times) s = process_requests times (process_request write m user now s).0

  abbrev pub usage_in : JsonStore → UsageSummary
  usage_in s = Dict.get_or s.contents.usage user.id no_usage

  abbrev pub session_in : JsonStore → SessionState
  session_in s = Dict.get_or s.contents.sessions user.id no_session

  module _ (day : Text) where
    -- The times are of the day.
    abbrev pub OnDay : List Time → Type 0
    OnDay = All (λ now. day_of m.budget_tz now ≡ day)

    module _ (no_budget : user.daily_budget_minutes ≡ pos 0) where
      decision-no_budget : (open_decision user).budget_seconds ≡ pos 0
      unfolding ◌*ℤ◌
      decision-no_budget = ap (λ n. n *ℤ pos 60) no_budget

      abbrev served : List Time → UsageSummary × SessionState → UsageSummary × SessionState
      served = serve m.idle_timeout user.id day (open_decision user)

      -- What a request leaves in the store is what the accounting makes of it.
      process_request-account :
          (now : Time) (s : JsonStore)
          → day_of m.budget_tz now ≡ day
          → let (_, usage, session) =
              account m.idle_timeout user.id day now
                (open_decision user)
                (usage_in s)
                (session_in s) in
            let s' = (process_request write m user now s).0 in
            (usage_in s' ≡ usage) × (session_in s' ≡ session)
      unfolding apply_to_data
      process_request-account now s same =
          let (_, usage, session) =
            account m.idle_timeout user.id day now (open_decision user) (usage_in s)
              (session_in s) in
          let left =
            process_request-contents write m user now s
            ∙ ap
                (λ d.
                  (apply_to_data m.idle_timeout user.id d now (open_decision user) s.contents).1)
                same in
          (
            ap (λ (d : PolicyData). Dict.get_or d.usage user.id no_usage) left
                ∙ Dict.get_or-put_self s.contents.usage user.id usage no_usage,
            ap (λ (d : PolicyData). Dict.get_or d.sessions user.id no_session) left
                ∙ Dict.get_or-put_self s.contents.sessions user.id session no_session,
          )

      process_requests-serve :
          (times : List Time) (s : JsonStore)
          → OnDay times
          → usage_in (process_requests times s) ≡ (served times (usage_in s, session_in s)).0
      unfolding process_requests serve
      process_requests-serve [] s h = refl
      process_requests-serve (now ∷ times) s h =
          let (u, t) = process_request-account now s h.0 in
          process_requests-serve times (process_request write m user now s).0 h.1
          ∙ ap₂ (λ a b. (served times (a, b)).0) u t

      -- With the JSON store, for a user without a budget and an open session, a run of requests on
      -- the session's day, each within the idle timeout of the one before, counts at most the
      -- seconds from the last request before the run to its end, and falls short of them by at
      -- most one second for each request.
      pub process_requests-Between :
          (times : List Time) (s : JsonStore)
          → OnDay times
          → IsOpen user.id day (usage_in s) (session_in s)
          → Unbroken m.idle_timeout (session_in s).last_seen times
          → Between
              (usage_in s).seconds
              (session_in s).last_seen
              (last_of (session_in s).last_seen times)
              (length times)
              (usage_in (process_requests times s)).seconds
      process_requests-Between times s h o u = rw (process_requests-serve times s h) (
          serve-Between m.idle_timeout user.id day (open_decision user) decision-no_budget times
            (usage_in s) (session_in s) o u)

      -- With the JSON store, for a user without a budget and an open session, a run of requests on
      -- the session's day, each within the idle timeout of the one before and less than a second
      -- after it, counts nothing, however long it lasts.
      pub process_requests-Rapid :
          (times : List Time) (s : JsonStore)
          → OnDay times
          → IsOpen user.id day (usage_in s) (session_in s)
          → Unbroken m.idle_timeout (session_in s).last_seen times
          → Rapid (session_in s).last_seen times
          → (usage_in (process_requests times s)).seconds ≡ (usage_in s).seconds
      process_requests-Rapid times s h o u r =
          ap (λ x. x.seconds) (process_requests-serve times s h)
          ∙ serve-Rapid m.idle_timeout user.id day (open_decision user) decision-no_budget times
              (usage_in s) (session_in s) o u r

      -- With the JSON store, for a user without a budget and no open session on the day of the
      -- usage, a first request on that day, a second within the idle timeout and a third after it
      -- count the whole seconds between the first two, once by the second request and again by the
      -- third.
      pub process_requests_twice :
          (first second third : Time) (s : JsonStore)
          → OnDay (first ∷ second ∷ third ∷ [])
          → is_empty (session_in s).user_id ≡ false
          → (session_in s).active ≡ false
          → (session_in s).day ≡ day
          → (usage_in s).day ≡ day
          → first ≤ second
          → second ≤ third
          → pos (second - first) ≤ℤ m.idle_timeout
          → m.idle_timeout <ℤ pos (third - second)
          → let counted = pos ((second - first) / nanoseconds) in
            (usage_in (process_requests (first ∷ second ∷ third ∷ []) s)).seconds
            ≡ (usage_in s).seconds +ℤ counted +ℤ counted
      process_requests_twice first second third s h owner over on used p q within after =
          ap (λ x. x.seconds) (process_requests-serve (first ∷ second ∷ third ∷ []) s h)
          ∙ serve_twice m.idle_timeout user.id day (open_decision user) decision-no_budget first
              second third (usage_in s) (session_in s) owner over on used p q within after
