-- ===== src/Tests/Rules.antt =====
-- Patterns, time spans and the rules engine on the household's configuration.
use citadel_dnxproxy.Prelude.{ℕ, ◌≡◌, refl, ◌⊎◌, ◌↔◌, true, List, [], ◌∷◌, none, some, arith}
use citadel_dnxproxy.Prelude.Result.{ok}
use citadel_dnxproxy.Clock.{parse_clock, date_text}
use citadel_dnxproxy.Config.{blocked_device, blocked_site_ban, pass, Host}
use citadel_dnxproxy.Text.{codes, contains_any, count_byte, trim_space, split, cut}
use citadel_dnxproxy.Rules.Span.{evaluate_rule}
use citadel_dnxproxy.TimeSpan.Days.{has_day, mark_range}
use citadel_dnxproxy.TimeSpan.Days.Ranges.{InRange, mark_range_lem}
use citadel_dnxproxy.Utils.{wildcard_pattern_match}
use citadel_dnxproxy.Utils.Runes.{string_to_rune_slice}
use citadel_dnxproxy.Utils.Spec.{Matches}
use citadel_dnxproxy.Utils.Wildcard.{wildcard_pattern_match_iff}
use citadel_dnxproxy.Rules.Pick.{
  host_match, host_candidate, domain_candidate, pick_best_host, pick_best_domain, domain_less,
  host_less,
}
use citadel_dnxproxy.Rules.Pick.Order.{domain_less-eq-host_less}
use citadel_dnxproxy.Rules.Pick.Best.{
  PicksBest, pick_best_host-PicksBest, pick_best_domain-PicksBest,
}
use citadel_dnxproxy.Rules.Engine.{Engine, evaluate, evaluate_internal, explain, evaluate_rules}
use citadel_dnxproxy.Rules.Engine.InOrder.{InOrder, evaluate_rules-InOrder}
use citadel_dnxproxy.Rules.Engine.Precedence.{
  Decides, TraceAgrees, evaluate-Decides, explain-evaluate,
}
use citadel_dnxproxy.Tests.Samples.{at, no_zones, hosts, domains, night_rules, engine_at, host_with}

abbrev noon_engine : Engine
noon_engine = engine_at (at 12 0)

site_by_day :
    evaluate no_zones (engine_at (at 12 0)) (codes "ads.example.com") (codes "192.168.1.10")
    ≡ (blocked_site_ban, none)
unfolding evaluate evaluate_internal pick_best_host wildcard_pattern_match string_to_rune_slice
    contains_any count_byte evaluate_rules evaluate_rule trim_space split cut parse_clock
    pick_best_domain
site_by_day = refl

device_by_night :
    evaluate no_zones (engine_at (at 23 30)) (codes "ads.example.com") (codes "192.168.1.10")
    ≡ (blocked_device, none)
unfolding evaluate evaluate_internal pick_best_host wildcard_pattern_match string_to_rune_slice
    contains_any count_byte evaluate_rules evaluate_rule trim_space split cut parse_clock
    pick_best_domain
device_by_night = refl

other_site :
    evaluate no_zones (engine_at (at 12 0)) (codes "example.org") (codes "192.168.1.10")
    ≡ (pass, none)
unfolding evaluate evaluate_internal pick_best_host wildcard_pattern_match string_to_rune_slice
    contains_any count_byte evaluate_rules evaluate_rule trim_space split cut parse_clock
    pick_best_domain
other_site = refl

new_year_2024 : date_text 738_885 ≡ codes "2024-01-01"
unfolding date_text
new_year_2024 = refl

leap_day_2024 : date_text 738_944 ≡ codes "2024-02-29"
unfolding date_text
leap_day_2024 = refl

quarter_past_seven : parse_clock (codes "7:15") ≡ some 435
unfolding parse_clock
quarter_past_seven = refl

no_hour_24 : parse_clock (codes "24:00") ≡ none
unfolding parse_clock
no_hour_24 = refl

wildcard_pattern_match_iff_example :
    (wildcard_pattern_match (codes "ads.example.com") (codes "*.ex?mple.com") ≡ true)
    ↔ Matches
        (string_to_rune_slice (codes "*.ex?mple.com"))
        (string_to_rune_slice (codes "ads.example.com"))
wildcard_pattern_match_iff_example =
    wildcard_pattern_match_iff (codes "ads.example.com") (codes "*.ex?mple.com")

mark_range_lem_example :
    (days' : List ℕ) × (mark_range 7 5 1 (3 ∷ []) ≡ ok days')
    × ((d : ℕ) → (has_day days' d ≡ true) ↔ ((has_day (3 ∷ []) d ≡ true) ⊎ InRange 5 1 d))
mark_range_lem_example = mark_range_lem 5 1 (3 ∷ []) (omega arith) (omega arith)

pick_best_host-PicksBest_example :
    PicksBest
      (λ h. host_match none (codes "192.168.1.10") h.name)
      (host_candidate (codes "192.168.1.10"))
      hosts
      (pick_best_host none (codes "192.168.1.10") hosts)
pick_best_host-PicksBest_example = pick_best_host-PicksBest none (codes "192.168.1.10") hosts

pick_best_domain-PicksBest_example :
    PicksBest
      (λ d. wildcard_pattern_match (codes "ads.example.com") d.name)
      (domain_candidate (codes "ads.example.com"))
      domains
      (pick_best_domain (codes "ads.example.com") domains)
pick_best_domain-PicksBest_example = pick_best_domain-PicksBest (codes "ads.example.com") domains

abbrev any_host : Host
any_host = host_with (codes "*") []

abbrev network : Host
network = host_with (codes "192.168.1.*") night_rules

domain_less-eq-host_less_example :
    domain_less
      (host_candidate (codes "192.168.1.10") network)
      (host_candidate (codes "192.168.1.10") any_host)
    ≡ host_less
        (host_candidate (codes "192.168.1.10") network)
        (host_candidate (codes "192.168.1.10") any_host)
domain_less-eq-host_less_example =
    domain_less-eq-host_less (host_candidate (codes "192.168.1.10") network)
      (host_candidate (codes "192.168.1.10") any_host)

evaluate_rules-InOrder_example :
    InOrder no_zones noon_engine 0 night_rules (evaluate_rules no_zones noon_engine night_rules)
evaluate_rules-InOrder_example = evaluate_rules-InOrder no_zones noon_engine night_rules

evaluate-Decides_example :
    let (act, e) = evaluate no_zones noon_engine (codes "ads.example.com") (codes "192.168.1.10") in
    Decides no_zones noon_engine (codes "ads.example.com") (codes "192.168.1.10") act e
evaluate-Decides_example =
    evaluate-Decides no_zones noon_engine (codes "ads.example.com") (codes "192.168.1.10")

explain-evaluate_example :
    let o = explain no_zones noon_engine (codes "ads.example.com") (codes "192.168.1.10") in
    (evaluate no_zones noon_engine (codes "ads.example.com") (codes "192.168.1.10")
      ≡ (o.action, o.error))
    × TraceAgrees no_zones noon_engine (codes "ads.example.com") (codes "192.168.1.10") o o.trace
explain-evaluate_example =
    explain-evaluate no_zones noon_engine (codes "ads.example.com") (codes "192.168.1.10")
