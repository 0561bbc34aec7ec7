-- ===== src/Proxy/Block.antt =====
-- internal/proxy/block.go, and `isIPQuery` of proxy.go.
use citadel_dnxproxy.Prelude.{Option, ◌==◌, if◌then◌else◌, str_eq}
use citadel_dnxproxy.Config.{Config}
use citadel_dnxproxy.Text.{Text, codes, to_lower, trim_space, is_empty}
use citadel_dnxproxy.Proxy.Dns.{Dns, Question}

pub data IpQuery : Type 0 where
  not_ip_query ip4_query ip6_query : IpQuery

-- dns.ClassINET is 1, dns.TypeA 1 and dns.TypeAAAA 28.
unfoldable pub is_ip_query : Question → IpQuery
is_ip_query q =
    if q.qclass == 1
    then if q.qtype == 1 then ip4_query else if q.qtype == 28 then ip6_query else not_ip_query
    else not_ip_query

-- The first text that is set.
abbrev pub or_text : Text → Text → Text
or_text a b = if is_empty a then b else a

unfoldable pub strategy_of : Config → Text
strategy_of conf = or_text (to_lower (trim_space conf.block_strategy.action)) (codes "nullroute")

-- The address for type A: the strategy's, the configuration's, the server's own for a sinkhole
-- (`private_ip` is `firstPrivateIPv4()`), or 0.0.0.0.
unfoldable pub block_ipv4 : Config → Text → Text
unfolding strategy_of
block_ipv4 conf private_ip = or_text conf.block_strategy.sinkhole_ipv4 (
    or_text conf.ipv4_block_resolve (
      if str_eq (strategy_of conf) (codes "sinkhole")
      then or_text private_ip (codes "0.0.0.0")
      else codes "0.0.0.0"))

unfoldable pub block_ipv6 : Config → Text
block_ipv6 conf =
    or_text conf.block_strategy.sinkhole_ipv6 (or_text conf.ipv6_block_resolve (codes "::"))

-- `parse_ip` is net.ParseIP.
module _ (dns : Dns) (parse_ip : Text → Option Text) where
  open dns use {Msg, question, set_reply, set_rcode, add_answer}

  -- An answer of ten seconds for the question's name.
  abbrev pub with_address : Msg → Question → IpQuery → Text → Text → Msg → Msg
  with_address m q ip4_query ipv4 ipv6 other =
      add_answer m (record { owner = q.name; rrtype = 1; ttl = 10; ip = parse_ip ipv4 })
  with_address m q ip6_query ipv4 ipv6 other =
      add_answer m (record { owner = q.name; rrtype = 28; ttl = 10; ip = parse_ip ipv6 })
  with_address m q not_ip_query ipv4 ipv6 other = other

  unfoldable pub build_blocked_response : Config → Text → Msg → Question → IpQuery → Msg
  unfolding strategy_of block_ipv4 block_ipv6
  build_blocked_response conf private_ip message q ip_query =
      if str_eq (strategy_of conf) (codes "nxdomain")
      then set_rcode message 3
      else if str_eq (strategy_of conf) (codes "refuse")
      then set_rcode message 5
      else with_address (set_reply message) q ip_query (block_ipv4 conf private_ip)
          (block_ipv6 conf) (set_rcode message 3)

  -- `writeResolved`: both address types carry the one address.
  unfoldable pub resolved_response : Msg → Text → IpQuery → Msg
  resolved_response message addr ip_query =
      with_address (set_reply message) (question message) ip_query addr addr (set_reply message)
