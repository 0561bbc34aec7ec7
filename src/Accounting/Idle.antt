-- ===== src/Accounting/Idle.antt =====
-- How usage accrues over a session: what an unbroken run of requests counts, and what the end of a
-- session adds. Users without a budget are never blocked, so they show the accrual alone.
use mathlib.Core.Path.{ap₂}
use citadel_dnxproxy.Prelude.{
  subst, sym, ◌∙◌, ℕ, suc, ◌-◌, ◌/◌, ◌≤◌, ◌<◌, ◌≡◌, refl, true, false, List, [], ◌∷◌, arith, length,
  str_eq_iff,
}
use citadel_dnxproxy.Prelude.Int.{ℤ, pos, ◌+ℤ◌, ◌≤ℤ◌, ◌<ℤ◌, int_laws}
use citadel_dnxproxy.Clock.{Time, nanoseconds}
use citadel_dnxproxy.Text.{Text, is_empty}
use citadel_dnxproxy.Policy.Types.{SessionState, UsageSummary}
use citadel_dnxproxy.Accounting.{Decision, account}

-- The user's session is open on the day of the usage.
pub record IsOpen (user_id day : Text) (usage : UsageSummary) (session : SessionState)
    : Type 0 where
  pub owner : is_empty session.user_id ≡ false
  pub session_day : session.day ≡ day
  pub usage_day : usage.day ≡ day
  pub active : session.active ≡ true

-- The requests at the given times, one after the other.
unfoldable pub serve :
    ℤ
    → Text
    → Text
    → Decision
    → List Time
    → UsageSummary × SessionState
    → UsageSummary × SessionState
serve idle user_id day decision [] state = state
serve idle user_id day decision (now ∷ times) (usage, session) =
    let (_, usage', session') = account idle user_id day now decision usage session in
    serve idle user_id day decision times (usage', session')

-- Each time is no earlier than the one before it, and within the idle timeout.
abbrev pub Unbroken : ℤ → Time → List Time → Type 0
Unbroken idle last [] = Unit
Unbroken idle last (now ∷ times) =
    (last ≤ now) × (pos (now - last) ≤ℤ idle) × Unbroken idle now times

abbrev pub last_of : Time → List Time → Time
last_of last [] = last
last_of last (now ∷ times) = last_of now times

last-le-last_of :
    (idle : ℤ) (last : Time) (times : List Time)
    → Unbroken idle last times
    → last ≤ last_of last times
last-le-last_of idle last [] u = omega arith
last-le-last_of idle last (now ∷ times) u = omega (arith, last-le-last_of idle now times u.2)

abbrev pub Between : ℤ → Time → Time → ℕ → ℤ → Type 0
Between seconds first last requests seconds' =
    (seconds' ≤ℤ seconds +ℤ pos ((last - first) / nanoseconds))
    × (seconds +ℤ pos ((last - first) / nanoseconds) ≤ℤ seconds' +ℤ pos requests)

Between-step :
    (seconds seconds' : ℤ) (first next last requests : ℕ)
    → first ≤ next
    → next ≤ last
    → Between (seconds +ℤ pos ((next - first) / nanoseconds)) next last requests seconds'
    → Between seconds first last (suc requests) seconds'
Between-step seconds seconds' first next last requests p q b = omega int_laws

-- Each request comes less than a second after the one before it.
abbrev pub Rapid : Time → List Time → Type 0
Rapid last [] = Unit
Rapid last (now ∷ times) = (now - last < nanoseconds) × Rapid now times

module _ (idle : ℤ) (user_id day : Text) (decision : Decision)
    (no_budget : decision.budget_seconds ≡ pos 0) where
  -- A request within the idle timeout adds the whole seconds since the last one.
  account-within :
      (now : Time) (usage : UsageSummary) (session : SessionState)
      → IsOpen user_id day usage session
      → session.last_seen ≤ now
      → pos (now - session.last_seen) ≤ℤ idle
      → let (_, usage', session') = account idle user_id day now decision usage session in
        (usage'.seconds ≡ usage.seconds +ℤ pos ((now - session.last_seen) / nanoseconds))
        × (session'.last_seen ≡ now)
        × (session'.start ≡ session.start)
        × IsOpen user_id day usage' session'
  unfolding account
  account-within now usage session o later within =
      ground (arith, str_eq_iff usage.day day, str_eq_iff session.day day)

  -- A request with no open session starts one and counts nothing.
  account-start :
      (now : Time) (usage : UsageSummary) (session : SessionState)
      → is_empty session.user_id ≡ false
      → session.active ≡ false
      → session.day ≡ day
      → usage.day ≡ day
      → let (_, usage', session') = account idle user_id day now decision usage session in
        (usage'.seconds ≡ usage.seconds)
        × (session'.last_seen ≡ now)
        × (session'.start ≡ now)
        × IsOpen user_id day usage' session'
  unfolding account
  account-start now usage session owner inactive session_day usage_day =
      ground (arith, str_eq_iff usage.day day, str_eq_iff session.day day)

  -- A request after the idle timeout adds the length of the session that it ends.
  account-after :
      (now : Time) (usage : UsageSummary) (session : SessionState)
      → IsOpen user_id day usage session
      → session.start ≤ session.last_seen
      → session.last_seen ≤ now
      → idle <ℤ pos (now - session.last_seen)
      → let (_, usage', session') = account idle user_id day now decision usage session in
        usage'.seconds ≡ usage.seconds +ℤ pos ((session.last_seen - session.start) / nanoseconds)
  unfolding account
  account-after now usage session o ordered later after =
      ground (arith, str_eq_iff usage.day day, str_eq_iff session.day day)

  serve-from :
      (times : List Time) (usage : UsageSummary) (session : SessionState) (last : Time)
      (seconds : ℤ)
      → session.last_seen ≡ last
      → usage.seconds ≡ seconds
      → IsOpen user_id day usage session
      → Unbroken idle last times
      → Between seconds last
          (last_of last times)
          (length times)
          (serve idle user_id day decision times (usage, session)).0.seconds
  unfolding serve
  serve-from [] usage session last seconds seen counted o u =
      subst (λ x. Between seconds last last 0 x) (sym counted) (omega int_laws)
  serve-from (now ∷ times) usage session last seconds seen counted o (p, q, u) =
      let (added, seen', _, o') = account-within now usage session o (rw seen p) (rw seen q) in
      let (_, usage', session') = account idle user_id day now decision usage session in
      Between-step seconds _ last now (last_of now times) (length times) p
        (last-le-last_of idle now times u)
        (serve-from times usage' session' now (seconds +ℤ pos ((now - last) / nanoseconds)) seen'
          (added ∙ ap₂ (λ a b. a +ℤ pos ((now - b) / nanoseconds)) counted seen) o' u)

  -- For a user without a budget and an open session, a run of requests, each within the idle
  -- timeout of the one before, counts at most the seconds from the last request before the run to
  -- its end, and falls short of them by at most one second for each request.
  pub serve-Between :
      (times : List Time) (usage : UsageSummary) (session : SessionState)
      → IsOpen user_id day usage session
      → Unbroken idle session.last_seen times
      → Between usage.seconds session.last_seen
          (last_of session.last_seen times)
          (length times)
          (serve idle user_id day decision times (usage, session)).0.seconds
  serve-Between times usage session o u =
      serve-from times usage session session.last_seen usage.seconds refl refl o u

  serve-Rapid_from :
      (times : List Time) (usage : UsageSummary) (session : SessionState) (last : Time)
      → session.last_seen ≡ last
      → IsOpen user_id day usage session
      → Unbroken idle last times
      → Rapid last times
      → (serve idle user_id day decision times (usage, session)).0.seconds ≡ usage.seconds
  unfolding serve
  serve-Rapid_from [] usage session last seen o u r = refl
  serve-Rapid_from (now ∷ times) usage session last seen o (p, q, u) (r, rs) =
      let (added, seen', _, o') = account-within now usage session o (rw seen p) (rw seen q) in
      let (_, usage', session') = account idle user_id day now decision usage session in
      serve-Rapid_from times usage' session' now seen' o' u rs ∙ added ∙ omega int_laws

  -- For a user without a budget and an open session, a run of requests, each within the idle
  -- timeout of the one before and less than a second after it, counts nothing, however long it
  -- lasts.
  pub serve-Rapid :
      (times : List Time) (usage : UsageSummary) (session : SessionState)
      → IsOpen user_id day usage session
      → Unbroken idle session.last_seen times
      → Rapid session.last_seen times
      → (serve idle user_id day decision times (usage, session)).0.seconds ≡ usage.seconds
  serve-Rapid times usage session = serve-Rapid_from times usage session session.last_seen refl

  -- For a user without a budget and no open session on the day of the usage, a first request, a
  -- second within the idle timeout and a third after it count the whole seconds between the first
  -- two, once by the second request and again by the third.
  pub serve_twice :
      (first second third : Time) (usage : UsageSummary) (session : SessionState)
      → is_empty session.user_id ≡ false
      → session.active ≡ false
      → session.day ≡ day
      → usage.day ≡ day
      → first ≤ second
      → second ≤ third
      → pos (second - first) ≤ℤ idle
      → idle <ℤ pos (third - second)
      → let counted = pos ((second - first) / nanoseconds) in
        (serve idle user_id day decision (first ∷ second ∷ third ∷ []) (usage, session)).0.seconds
        ≡ usage.seconds +ℤ counted +ℤ counted
  unfolding serve
  serve_twice first second third usage session owner inactive session_day usage_day p q within
        after =
      let (same, seen, started, o) =
        account-start first usage session owner inactive session_day usage_day in
      let (_, usage', session') = account idle user_id day first decision usage session in
      let (counted, seen', started', o') =
        account-within second usage' session' o (rw seen p) (rw seen within) in
      let (_, usage'', session'') = account idle user_id day second decision usage' session' in
      let again =
        account-after third usage'' session'' o' (omega arith) (rw seen' q) (rw seen' after) in
      again
      ∙ ap₂ ◌+ℤ◌ (counted ∙ ap₂ (λ a b. a +ℤ pos ((second - b) / nanoseconds)) same seen)
          (ap₂ (λ a b. pos ((a - b) / nanoseconds)) seen' (started' ∙ started))
