-- ===== src/Tests/Proxy.antt =====
-- Requests of the tablet, and the cache of the upstream resolver.
use citadel_dnxproxy.Prelude.{◌+◌, ◌*◌, ◌≡◌, refl, false, [], ◌∷◌, none, some, length}
use citadel_dnxproxy.Prelude.Dict.{get}
use citadel_dnxproxy.Prelude.Int.{pos, ◌+ℤ◌, ◌≤ℤ◌, ◌<ℤ◌, int_laws}
use citadel_dnxproxy.Prelude.Result.{ok}
use citadel_dnxproxy.Clock.{nanoseconds}
use citadel_dnxproxy.Config.{pass}
use citadel_dnxproxy.Text.{Text, codes, to_lower, to_upper}
use citadel_dnxproxy.Proxy.Upstream.{
  cache_get, cache_put, cache_key, exchange_msg, tries_of, try_passes, min_ttl,
}
use citadel_dnxproxy.Proxy.Upstream.Calls.{Rounds, addresses, GivenBy, reply_of, exchange_msg-calls}
use citadel_dnxproxy.Proxy.Upstream.Caching.{cache_get-cache_put_self, exchange_msg-again}
use citadel_dnxproxy.Proxy.Runtime.{refresh_policy_runtime}
use citadel_dnxproxy.Proxy.Handler.{
  Server, lower_names, do_dns_exchange, user_at, judge, decide, dns_handler, request_domain,
  client_address,
}
use citadel_dnxproxy.Proxy.Handler.Causes.{Judged, judge-Judged}
use citadel_dnxproxy.Proxy.Handler.Replies.{
  IsServed, upper_case, do_dns_exchange-again, dns_handler-IsServed,
}
use citadel_dnxproxy.Tests.Samples.{
  SampleMsg, utc, at, no_zones, disk_ok, store, dns, ask, parse_ip, answering, failing, upstreams,
  layer_at, engine_at, server_at,
}

abbrev game : SampleMsg
game = ask 7 (codes "Play.Games.NET.")

abbrev from_tablet : Text
from_tablet = codes "192.168.1.10:53124"

dns_handler-IsServed_example :
    let sv = server_at (at 17 0) in
    let (rt, s) =
      dns_handler dns parse_ip answering no_zones utc disk_ok sv game from_tablet (codes "udp") in
    (rt ≡ refresh_policy_runtime no_zones utc (some store) (at 17 0) (layer_at (at 17 0)).runtime)
    × IsServed dns answering parse_ip sv game
        (codes "udp")
        (request_domain game.asked)
        (decide no_zones disk_ok
          (record (layer_at (at 17 0)) { runtime = rt })
          (engine_at (at 17 0))
          store
          (request_domain game.asked)
          (client_address from_tablet))
        s
dns_handler-IsServed_example =
    dns_handler-IsServed dns answering parse_ip no_zones utc disk_ok (server_at (at 17 0)) game
      from_tablet (codes "udp")

judge-Judged_example :
    Judged no_zones disk_ok
      (layer_at (at 17 0))
      store
      (codes "play.games.net")
      pass
      (user_at (layer_at (at 17 0)).runtime.policies (codes "192.168.1.10"))
      (judge no_zones disk_ok
        (layer_at (at 17 0))
        store
        (codes "play.games.net")
        (codes "192.168.1.10")
        pass)
judge-Judged_example =
    judge-Judged no_zones disk_ok (layer_at (at 17 0)) store (codes "play.games.net") pass
      (codes "192.168.1.10")

abbrev question : SampleMsg
question = ask 7 (codes "EXAMPLE.ORG.")

exchange_msg-calls_example :
    let (u', answer, called) =
      exchange_msg dns failing upstreams question (codes "udp") (at 12 0) in
    (addresses u'.upstreams ≡ addresses upstreams.upstreams)
    × Rounds (addresses upstreams.upstreams) (tries_of upstreams.retries) called
    × GivenBy dns failing upstreams question
        (codes "udp")
        (at 12 0)
        upstreams.upstreams
        0
        (length called)
        (reply_of dns failing upstreams question (codes "udp") (at 12 0) answer)
unfolding cache_get get
exchange_msg-calls_example =
    exchange_msg-calls dns failing upstreams question (codes "udp") (at 12 0) refl

cache_get-cache_put_self_example :
    (pos (at 12 1) ≤ℤ pos (at 12 0) +ℤ pos (60 * nanoseconds)
      → cache_get dns
          (cache_put dns []
            (codes "example.org.|1")
            question
            (pos (60 * nanoseconds))
            false
            (at 12 0))
          (codes "example.org.|1")
          (at 12 1)
        ≡ some question)
    × (pos (at 12 0) +ℤ pos (60 * nanoseconds) <ℤ pos (at 12 1)
        → cache_get dns
            (cache_put dns []
              (codes "example.org.|1")
              question
              (pos (60 * nanoseconds))
              false
              (at 12 0))
            (codes "example.org.|1")
            (at 12 1)
          ≡ none)
cache_get-cache_put_self_example =
    cache_get-cache_put_self dns [] (codes "example.org.|1") question (pos (60 * nanoseconds)) false
      (at 12 0) (at 12 1)

-- The answer of the upstream, whose time to live is a minute.
abbrev answered : SampleMsg
answered = record question {
  answers =
      record {
        owner = codes "EXAMPLE.ORG.";
        rrtype = 1;
        ttl = 60;
        ip = some (codes "93.184.216.34");
      }
      ∷ [];
}

exchange_msg-again_example :
    let u' = (exchange_msg dns answering upstreams question (codes "udp") (at 12 0)).0 in
    exchange_msg dns failing u' (ask 8 (codes "example.org.")) (codes "tcp") (at 12 1)
    ≡ (u', ok (record answered { number = 8 }), [])
unfolding exchange_msg cache_get cache_key get try_passes min_ttl to_lower
exchange_msg-again_example =
    exchange_msg-again dns answering failing upstreams question (ask 8 (codes "example.org."))
      answered (codes "udp") (codes "tcp") (at 12 0) (at 12 1) refl refl refl (omega int_laws) refl
      (omega int_laws)

-- The server behind a failed exchange, twenty seconds later.
abbrev failed : Server SampleMsg
failed = record (server_at (at 12 0 + 20 * nanoseconds)) {
  upstream =
      (do_dns_exchange dns failing (server_at (at 12 0)) store question (codes "udp")).upstream;
}

do_dns_exchange-again_example :
    let s =
      do_dns_exchange dns answering failed store (ask 8 (codes "example.org.")) (codes "tcp") in
    (s.reply
      ≡ some (
          lower_names dns (
            dns.set_id
              (dns.set_rcode (upper_case dns question) 2)
              (dns.id (upper_case dns (ask 8 (codes "example.org.")))))))
    × (s.calls ≡ [])
    × (s.upstream ≡ failed.upstream)
unfolding do_dns_exchange exchange_msg cache_get cache_key get try_passes min_ttl to_lower to_upper
do_dns_exchange-again_example =
    do_dns_exchange-again dns failing answering (server_at (at 12 0)) failed store store question
      (ask 8 (codes "example.org.")) (codes "udp") (codes "tcp") refl refl refl (omega int_laws)
      refl (omega int_laws)
