-- ===== src/Tests/Samples.antt =====
-- A small household: one configuration, one child with a tablet, and a network that answers.
use citadel_dnxproxy.Prelude.{
  ℕ, ◌*◌, ◌+◌, refl, true, false, List, [], ◌∷◌, Option, none, some, map,
}
use citadel_dnxproxy.Prelude.Int.{ℤ, pos}
use citadel_dnxproxy.Prelude.Result.{Result, ok, err}
use citadel_dnxproxy.Clock.{Time, Location, nanoseconds}
use citadel_dnxproxy.Config.{
  ActionType, RouterType, pass, blocked_device, blocked_site_ban, Rule, Host, Domain, Config,
}
use citadel_dnxproxy.Text.{Text, codes}
use citadel_dnxproxy.Policy.Types.{User, Device, DomainAction, DomainRule, PolicyData, no_user}
use citadel_dnxproxy.Policy.Store.{StoreError, JsonStore}
use citadel_dnxproxy.Policy.Evaluator.{Runtime}
use citadel_dnxproxy.Accounting.{Manager}
use citadel_dnxproxy.Rules.Engine.{Engine}
use citadel_dnxproxy.Proxy.Dns.{Dns, Question, Address}
use citadel_dnxproxy.Proxy.Upstream.{UpstreamResolver}
use citadel_dnxproxy.Proxy.Handler.{PolicyLayer, Server}

abbrev pub utc : Location
utc = record { wall = λ s. s }

abbrev pub no_zones : Text → Option Location
no_zones name = none

abbrev pub at : ℕ → ℕ → Time
at hour minute = (hour * 3600 + minute * 60) * nanoseconds

abbrev pub rule : ActionType → Text → Rule
rule act span = record { type = act; time_span = span }

abbrev pub host_with : Text → List Rule → Host
host_with name rules = record { name = name; ipv4 = codes "10.0.0.1"; rules = rules }

-- Devices of the network sleep at night, sites of example.com are banned by day.
abbrev pub night_rules : List Rule
night_rules = rule blocked_device (codes "22:00-06:00") ∷ []

abbrev pub hosts : List Host
hosts = host_with (codes "192.168.1.*") night_rules ∷ host_with (codes "*") [] ∷ []

abbrev pub domains : List Domain
domains =
    record {
      name = codes "*.example.com";
      hosts = host_with (codes "*") (rule blocked_site_ban (codes "08:00-16:00") ∷ []) ∷ [];
    }
    ∷ record { name = codes "*"; hosts = [] }
    ∷ []

abbrev pub conf : Config
conf = record {
  logfile = codes "dns.log";
  router = record {
    host = [];
    port = [];
    user = [];
    password = [];
    engine = RouterType.none;
    poll_changes = false;
    poll_interval = pos 0;
    timeout_sec = pos 0;
  };
  listen_address = codes ":53";
  name_servers = record { ip = codes "1.1.1.1:53" } ∷ record { ip = codes "9.9.9.9:53" } ∷ [];
  default_rule = pass;
  on_error_rule = pass;
  ipv4_block_resolve = [];
  ipv6_block_resolve = [];
  block_strategy = record { action = codes "nxdomain"; sinkhole_ipv4 = []; sinkhole_ipv6 = [] };
  upstream_timeout_ms = pos 2000;
  upstream_retries = pos 2;
  upstream_max_fails = pos 3;
  upstream_fail_window_sec = pos 30;
  cache_enabled = true;
  cache_ttl_override_sec = pos 0;
  negative_cache_ttl = pos 30;
  hosts = hosts;
  resolve = host_with (codes "nas.home") [] ∷ [];
  domains = domains;
  static_devices = [];
}

abbrev pub engine_at : Time → Engine
engine_at now = record { conf = conf; device_names = none; now = now; local = utc }

abbrev pub child : User
child = record no_user { id = codes "u1"; name = codes "Kim"; daily_budget_minutes = pos 60 }

abbrev pub tablet : Device
tablet = record {
  id = codes "d1";
  name = codes "tablet";
  ip = codes "192.168.1.10";
  mac = [];
  hostname = [];
  vendor = [];
  source = [];
  last_seen = 0;
  user_id = codes "u1";
  created_at = 0;
  updated_at = 0;
}

abbrev pub game_rule : DomainRule
game_rule = record {
  id = codes "r1";
  user_id = codes "u1";
  pattern = codes "*.games.net";
  action = DomainAction.block;
  notes = [];
}

abbrev pub runtime : Runtime
runtime = record {
  users_by_id = (codes "u1", child) ∷ [];
  devices_by_id = (codes "d1", tablet) ∷ [];
  devices_by_ip = (codes "192.168.1.10", tablet) ∷ [];
  devices_by_mac = [];
  rules_by_user = (codes "u1", game_rule ∷ []) ∷ [];
  settings = record { idle_timeout_minutes = pos 10; budget_reset_tz = [] };
  budget_tz = utc;
  allow_windows = (codes "u1", record { name = []; time_span = codes "07:00-20:00" } ∷ []) ∷ [];
  audit = [];
}

abbrev pub empty_data : PolicyData
empty_data = record {
  version = pos 1;
  admin = record {
    password_hash = [];
    password_salt = [];
    initial_secret = [];
    first_boot = false;
    updated_at = 0;
  };
  users = (codes "u1", child) ∷ [];
  devices = (codes "d1", tablet) ∷ [];
  domain_rules = game_rule ∷ [];
  sessions = [];
  usage = [];
  settings = record { idle_timeout_minutes = pos 10; budget_reset_tz = [] };
  audit = [];
}

abbrev pub store : JsonStore
store = record { contents = empty_data; file = some empty_data }

abbrev pub disk_ok : PolicyData → Option StoreError
disk_ok d = none

abbrev pub manager : Manager
manager = record { idle_timeout = pos (10 * 60 * nanoseconds); budget_tz = utc }

abbrev pub layer_at : Time → PolicyLayer
layer_at now = record {
  runtime = record { policies = some runtime; accounts = some manager; last_refresh = now };
  window_now = record { instant = now; location = utc };
  account_now = now;
}

-- Messages with what the proxy reads and writes of them.
pub record SampleMsg : Type 0 where
  pub number : ℕ
  pub asked : Question
  pub rcode : ℕ
  pub answers : List Address

abbrev pub dns : Dns
dns = record {
  Msg = SampleMsg;
  id = λ m. m.number;
  set_id = λ m n. record m { number = n };
  question = λ m. m.asked;
  set_question_name = λ m name. record m { asked = record m.asked { name = name } };
  answer_ttls = λ m. map (λ (a : Address). a.ttl) m.answers;
  map_answer_names =
      λ f m. record m { answers = map (λ (a : Address). record a { owner = f a.owner }) m.answers };
  copy = λ m. m;
  set_reply = λ m. record m { rcode = 0; answers = [] };
  set_rcode = λ m c. record m { rcode = c; answers = [] };
  add_answer = λ m a. record m { answers = a ∷ m.answers };
  copy_same = λ m. refl;
}

abbrev pub ask : ℕ → Text → SampleMsg
ask n name = record {
  number = n;
  asked = record { name = name; qtype = 1; qclass = 1 };
  rcode = 0;
  answers = [];
}

abbrev pub parse_ip : Text → Option Text
parse_ip [] = none
parse_ip (b ∷ s) = some (b ∷ s)

-- Every upstream answers with one address for sixty seconds.
abbrev pub answering : ℕ → SampleMsg → Text → Text → ℤ → Result Text SampleMsg
answering n m addr proto timeout = ok (record m {
  answers =
      record { owner = m.asked.name; rrtype = 1; ttl = 60; ip = some (codes "93.184.216.34") } ∷ [];
})

abbrev pub failing : ℕ → SampleMsg → Text → Text → ℤ → Result Text SampleMsg
failing n m addr proto timeout = err (codes "timeout")

abbrev pub upstreams : UpstreamResolver SampleMsg
upstreams = record {
  upstreams =
      record { addr = codes "1.1.1.1:53"; failures = 0; last_fail = 0 }
      ∷ record { addr = codes "9.9.9.9:53"; failures = 0; last_fail = 0 }
      ∷ [];
  timeout = pos (2 * nanoseconds);
  retries = pos 2;
  max_fails = pos 3;
  fail_window = pos (30 * nanoseconds);
  cache = [];
  cache_enabled = true;
  cache_ttl_override = pos 0;
  negative_cache_ttl = pos (30 * nanoseconds);
}

abbrev pub server_at : Time → Server SampleMsg
server_at now = record {
  layer = layer_at now;
  engine = engine_at now;
  policy_store = store;
  upstream = upstreams;
  resolver_conf = conf;
  device_cache = none;
  private_ip = codes "192.168.1.1";
  refresh_now = now;
  exchange_now = now;
  later = now;
}
