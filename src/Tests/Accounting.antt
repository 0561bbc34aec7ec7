-- ===== src/Tests/Accounting.antt =====
-- A child's sessions and budget.
use citadel_dnxproxy.Prelude.{ℕ, ◌+◌, ◌-◌, ◌/◌, ◌≡◌, refl, true, false, [], ◌∷◌, some, arith}
use citadel_dnxproxy.Prelude.Dict
use citadel_dnxproxy.Prelude.Int.{pos, ◌+ℤ◌, int_laws}
use citadel_dnxproxy.Clock.{nanoseconds, day_of}
use citadel_dnxproxy.Text.{Text, codes}
use citadel_dnxproxy.Policy.Types.{User, SessionState, UsageSummary}
use citadel_dnxproxy.Policy.Evaluator.{list_of, match_domain_rule}
use citadel_dnxproxy.Policy.Evaluator.DomainRules.{Picks, match_domain_rule-Picks}
use citadel_dnxproxy.Accounting.Idle.{IsOpen, Between}
use citadel_dnxproxy.Accounting.Runs.{
  process_requests, usage_in, process_requests-Between, process_requests-Rapid,
  process_requests_twice,
}
use citadel_dnxproxy.Policy.Store.{JsonStore}
use citadel_dnxproxy.Tests.Samples.{at, child, disk_ok, manager, store, runtime}

match_domain_rule-Picks_example :
    Picks
      (codes "play.games.net")
      (list_of (Dict.get runtime.rules_by_user (codes "u1")))
      (match_domain_rule (some runtime) (codes "u1") (codes "play.games.net"))
match_domain_rule-Picks_example =
    match_domain_rule-Picks runtime (codes "u1") (codes "play.games.net")

abbrev today : Text
today = codes "0001-01-01"

abbrev usage : UsageSummary
usage = record { user_id = codes "u1"; day = today; seconds = pos 100 }

abbrev session : SessionState
session = record {
  user_id = codes "u1";
  day = today;
  active = true;
  start = at 12 0;
  last_seen = at 12 0;
}

session-IsOpen : IsOpen (codes "u1") today usage session
session-IsOpen = record { owner = refl; session_day = refl; usage_day = refl; active = refl }

-- A child without a budget, in the middle of a session.
abbrev free_child : User
free_child = record child { daily_budget_minutes = pos 0 }

abbrev playing : JsonStore
playing = record store {
  contents = record store.contents {
    usage = (codes "u1", usage) ∷ [];
    sessions = (codes "u1", session) ∷ [];
  };
}

process_requests-Between_example :
    Between
      (pos 100)
      (at 12 0)
      (at 12 7)
      2
      (usage_in disk_ok manager free_child
        (process_requests disk_ok manager free_child (at 12 5 ∷ at 12 7 ∷ []) playing)).seconds
unfolding Dict.get_or Dict.get day_of
process_requests-Between_example =
    process_requests-Between disk_ok manager free_child today refl (at 12 5 ∷ at 12 7 ∷ []) playing
      (refl, (refl, tt)) session-IsOpen
      (omega arith, omega int_laws, (omega arith, omega int_laws, tt))

abbrev half_second : ℕ
half_second = 500_000_000

process_requests-Rapid_example :
    (usage_in disk_ok manager free_child
      (process_requests disk_ok manager free_child ((at 12 0 + half_second) ∷ []) playing)).seconds
    ≡ pos 100
unfolding Dict.get_or Dict.get day_of
process_requests-Rapid_example =
    process_requests-Rapid disk_ok manager free_child today refl ((at 12 0 + half_second) ∷ [])
      playing (refl, tt) session-IsOpen (omega arith, omega int_laws, tt) (omega arith, tt)

-- After a session.
abbrev rested : JsonStore
rested = record playing {
  contents = record playing.contents {
    sessions = (codes "u1", record session { active = false }) ∷ [];
  };
}

-- Five minutes of use count as ten.
process_requests_twice_example :
    (usage_in disk_ok manager free_child (
      process_requests disk_ok manager free_child
        (at 12 0 ∷ at 12 5 ∷ at 13 0 ∷ [])
        rested)).seconds
    ≡ pos 100 +ℤ pos ((at 12 5 - at 12 0) / nanoseconds) +ℤ pos ((at 12 5 - at 12 0) / nanoseconds)
unfolding Dict.get_or Dict.get day_of
process_requests_twice_example =
    process_requests_twice disk_ok manager free_child today refl (at 12 0) (at 12 5) (at 13 0)
      rested (refl, (refl, (refl, tt))) refl refl refl refl (omega arith) (omega arith)
      (omega int_laws) (omega int_laws)
