-- ===== src/Tests/Config.antt =====
-- A configuration that validates, what is blocked by it, and compiled policy data.
use citadel_dnxproxy.Prelude.{◌≡◌, refl, Bool, true, none, some, []}
use citadel_dnxproxy.Config.{Config}
use citadel_dnxproxy.Config.Validate.{validate}
use citadel_dnxproxy.Config.Validate.Addresses.{is_some, validate-build_blocked_response}
use citadel_dnxproxy.Text.{Text, codes, to_lower, trim_space, split, cut}
use citadel_dnxproxy.Clock.{parse_clock}
use citadel_dnxproxy.Proxy.Block.{ip4_query, ip6_query, strategy_of, build_blocked_response}
use citadel_dnxproxy.Prelude.Dict
use citadel_dnxproxy.Policy.Evaluator.{list_of}
use citadel_dnxproxy.Policy.Compiler.{compile}
use citadel_dnxproxy.Policy.Compiler.UserRules.{owned_by, compile-rules_by_user}
use citadel_dnxproxy.Tests.Samples.{no_zones, utc, empty_data, conf, dns, ask, parse_ip}

abbrev sinkhole : Config
sinkhole = record conf {
  block_strategy = record {
    action = codes "Sinkhole";
    sinkhole_ipv4 = codes "10.0.0.2";
    sinkhole_ipv6 = [];
  };
  ipv6_block_resolve = codes "fd00::2";
}

abbrev accepts : Text → Bool
accepts s = true

sinkhole_is_valid : validate (λ s. is_some (parse_ip s)) accepts accepts accepts sinkhole ≡ none
unfolding validate trim_space split cut parse_clock to_lower
sinkhole_is_valid = refl

validate-build_blocked_response_example :
    let m = ask 7 (codes "ads.example.com.") in
    ((ip : Text) × (build_blocked_response dns parse_ip sinkhole
          (codes "192.168.1.1")
          m
          m.asked
          ip4_query
        ≡ dns.add_answer
            (dns.set_reply m)
            (record { owner = m.asked.name; rrtype = 1; ttl = 10; ip = some ip })))
    × ((ip : Text) × (build_blocked_response dns parse_ip sinkhole
            (codes "192.168.1.1")
            m
            m.asked
            ip6_query
          ≡ dns.add_answer
              (dns.set_reply m)
              (record { owner = m.asked.name; rrtype = 28; ttl = 10; ip = some ip })))
unfolding strategy_of to_lower trim_space
validate-build_blocked_response_example =
    validate-build_blocked_response parse_ip accepts accepts accepts sinkhole dns
      (codes "192.168.1.1") (ask 7 (codes "ads.example.com."))
      (ask 7 (codes "ads.example.com.")).asked refl sinkhole_is_valid refl refl

compile-rules_by_user_example :
    list_of (Dict.get (compile no_zones utc empty_data).rules_by_user (codes "u1"))
    ≡ owned_by (codes "u1") empty_data.domain_rules
compile-rules_by_user_example = compile-rules_by_user no_zones utc empty_data (codes "u1") refl
