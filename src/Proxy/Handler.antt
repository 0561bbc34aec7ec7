-- ===== src/Proxy/Handler.antt =====
-- `dnsHandler` of internal/proxy/proxy.go with the calls below it, and `Resolve` of
-- internal/resolver/resolver.go.
pub mod Steps
pub mod Causes
pub mod Replies
use citadel_dnxproxy.Prelude.{
  ℕ, Bool, true, false, List, [], ◌∷◌, Option, none, some, if◌then◌else◌,
}
use citadel_dnxproxy.Prelude.Int.{ℤ}
use citadel_dnxproxy.Prelude.Result.{Result, ok, err}
use citadel_dnxproxy.Clock.{Time, Location, Moment}
use citadel_dnxproxy.Config.{
  ActionType, pass, blocked_site_ban, blocked_time_span, Host, Config, is_blocking_action,
}
use citadel_dnxproxy.Text.{Text, to_lower, to_upper, trim_last}
use citadel_dnxproxy.Utils.{wildcard_pattern_match, strip_port_from_addr}
use citadel_dnxproxy.Rules.Engine.{Engine, evaluate}
use citadel_dnxproxy.Policy.Types.{
  User, DomainAction, DomainRule, PolicyData, Reason, outside_window, policy_block, config_block,
}
use citadel_dnxproxy.Policy.TimeWindow.{in_time_span}
use citadel_dnxproxy.Policy.Store.{StoreError, JsonStore}
use citadel_dnxproxy.Policy.Evaluator.{
  Evaluator, match_device, match_user, in_allow_window, match_domain_rule,
}
use citadel_dnxproxy.Accounting.{Decision, Manager, process_request}
use citadel_dnxproxy.Proxy.Runtime.{PolicyRuntime, refresh_policy_runtime}
use citadel_dnxproxy.Proxy.Dns.{Dns, Question}
use citadel_dnxproxy.Proxy.Block.{IpQuery, is_ip_query, build_blocked_response, resolved_response}
use citadel_dnxproxy.Proxy.Upstream.{UpstreamResolver, exchange_msg, cache_negative}

-- The variables `action`, `blockReason`, `userID` and `userName` of the handler, and the store that
-- the accounting updates.
pub record Verdict : Type 0 where
  pub action : ActionType
  pub reason : Reason
  pub user_id : Text
  pub user_name : Text
  pub store : JsonStore

-- The package's policy runtime and the two readings of the clock in the handler's own code.
pub record PolicyLayer : Type 0 where
  pub runtime : PolicyRuntime
  pub window_now : Moment
  pub account_now : Time

-- `domain` and `clientAddr` of a request.
unfoldable pub request_domain : Question → Text
request_domain q = trim_last b'.' (to_lower q.name)

unfoldable pub client_address : Text → Text
client_address remote = strip_port_from_addr (to_lower remote)

unfoldable pub is_no_reason : Reason → Bool
is_no_reason Reason.none = true
is_no_reason _ = false

-- `if dec, err := …; err == nil && dec.Blocked`
unfoldable pub charged : Verdict → JsonStore × Decision × Option StoreError → Verdict
charged v (s, dec, none) =
    if dec.blocked
    then record v { action = blocked_time_span; reason = dec.reason; store = s }
    else record v { store = s }
charged v (s, dec, some e) = record v { store = s }

unfoldable pub apply_action : DomainAction → Verdict → Verdict
apply_action DomainAction.block v = record v { action = blocked_site_ban; reason = policy_block }
apply_action DomainAction.allow v = record v { action = pass }
apply_action (DomainAction.other _) v = v

unfoldable pub apply_rule : Option DomainRule → Verdict → Verdict
unfolding apply_action
apply_rule none v = v
apply_rule (some rule) v = apply_action rule.action v

-- The user of the device at an address.
unfoldable pub user_at : Evaluator → Text → Option User
user_at policies client_addr = elim (match_device policies client_addr) [
  | none ↦ none
  | some device ↦ match_user policies device
]

unfoldable pub with_reason : Verdict → Verdict
with_reason v =
    if is_no_reason v.reason
    then if is_blocking_action v.action then record v { reason = config_block } else v
    else v

-- The allow windows.
unfoldable pub window_step : (Text → Option Location) → PolicyLayer → User → Verdict → Verdict
window_step load_location l user v =
    if in_allow_window l.runtime.policies user.id l.window_now (in_time_span load_location)
    then v
    else record v { action = blocked_time_span; reason = outside_window }

-- The accounting and the budget, `if accountMgr != nil && !isBlockingAction(action)`.
unfoldable pub budget_of :
    (PolicyData → Option StoreError) → Option Manager → User → Time → Verdict → Verdict
unfolding charged
budget_of write none user now v = v
budget_of write (some m) user now v =
    if is_blocking_action v.action then v else charged v (process_request write m user now v.store)

unfoldable pub budget_step :
    (PolicyData → Option StoreError) → PolicyLayer → User → Verdict → Verdict
unfolding budget_of
budget_step write l user v = budget_of write l.runtime.accounts user l.account_now v

-- The user's domain rules.
unfoldable pub rule_step : PolicyLayer → User → Text → Verdict → Verdict
unfolding apply_rule
rule_step l user domain v =
    if is_blocking_action v.action
    then v
    else apply_rule (match_domain_rule l.runtime.policies user.id domain) v

module _ (load_location : Text → Option Location) (write : PolicyData → Option StoreError) where
  unfoldable pub user_steps : PolicyLayer → Text → Verdict → Option User → Verdict
  unfolding window_step budget_step rule_step
  user_steps l domain v none = v
  user_steps l domain v (some user) = rule_step l user domain (
      budget_step write l user
        (window_step load_location l user (record v { user_id = user.id; user_name = user.name })))

  -- The policy layer's part of the handler, from the action of the rules engine.
  unfoldable pub judge : PolicyLayer → JsonStore → Text → Text → ActionType → Verdict
  unfolding user_steps user_at with_reason
  judge l store domain client_addr action =
      let start : Verdict = record {
        action = action;
        reason = Reason.none;
        user_id = [];
        user_name = [];
        store = store;
      } in
      with_reason (user_steps l domain start (user_at l.runtime.policies client_addr))

  -- An error of the engine is logged; its action is taken.
  unfoldable pub decide : PolicyLayer → Engine → JsonStore → Text → Text → Verdict
  decide l re store domain client_addr =
      judge l store domain client_addr (evaluate load_location re domain client_addr).0

-- The loop of `Resolve` over the configured names.
unfoldable pub resolve_from : List Host → Text → Option Text
resolve_from [] domain = none
resolve_from (h ∷ hosts) domain =
    let rest = resolve_from hosts domain in
    if wildcard_pattern_match (to_lower domain) (to_lower h.name) then some h.ipv4 else rest

-- `Resolve`, with none for ErrHostNotFound. `name_to_ip` is the device cache's `NameToIP`, where
-- there is a device cache.
unfoldable pub resolve : Config → Option (Text → Option Text) → Text → Option Text
unfolding resolve_from
resolve conf devices domain = elim (resolve_from conf.resolve domain) [
  | some ip ↦ some ip
  | none ↦ elim devices [ none ↦ none | some name_to_ip ↦ name_to_ip (trim_last b'.' domain) ]
]

-- What the handler has done when it returns: the store, the upstream resolver, the message written
-- to the client if there is one, and the addresses of the upstreams called.
pub record Served (Msg : Type 0) : Type 0 where
  pub store : JsonStore
  pub upstream : UpstreamResolver Msg
  pub reply : Option Msg
  pub calls : List Text

-- The parts of the program that a request meets, as they stand when it arrives, with a policy store.
-- `later` is the time at which a failed exchange is remembered, `refresh_now` the one at which the
-- policy runtime is refreshed. The resolver's configuration is its own: a reload leaves it as it was.
pub record Server (Msg : Type 0) : Type 0 where
  pub layer : PolicyLayer
  pub engine : Engine
  pub policy_store : JsonStore
  pub upstream : UpstreamResolver Msg
  pub resolver_conf : Config
  pub device_cache : Option (Text → Option Text)
  pub private_ip : Text
  pub refresh_now : Time
  pub exchange_now : Time
  pub later : Time

module _ (dns : Dns) where
  open dns use {Msg, question, set_question_name, map_answer_names}

  -- The reply as it goes to the client.
  unfoldable pub lower_names : Msg → Msg
  lower_names r = map_answer_names to_lower (set_question_name r (to_lower (question r).name))

  -- What follows the exchange of the request `m`: 2 is dns.RcodeServerFailure, and a failure writes
  -- nothing to the client.
  unfoldable pub after_exchange :
      Msg
      → JsonStore
      → Time
      → UpstreamResolver Msg × Result (Option Text) Msg × List Text
      → Served Msg
  unfolding lower_names
  after_exchange m store later (u, ok r, calls) = record {
    store = store;
    upstream = u;
    reply = some (lower_names r);
    calls = calls;
  }
  after_exchange m store later (u, err e, calls) = record {
    store = store;
    upstream = cache_negative dns u m 2 later;
    reply = none;
    calls = calls;
  }

module _ (dns : Dns) (exchange : ℕ → dns.Msg → Text → Text → ℤ → Result Text dns.Msg) where
  open dns use {Msg, question, set_question_name}

  unfoldable pub do_dns_exchange : Server Msg → JsonStore → Msg → Text → Served Msg
  unfolding after_exchange
  do_dns_exchange sv store m proto =
      let upper = set_question_name m (to_upper (question m).name) in
      after_exchange dns upper store sv.later
        (exchange_msg dns exchange sv.upstream upper proto sv.exchange_now)

module _ (dns : Dns) (parse_ip : Text → Option Text)
    (exchange : ℕ → dns.Msg → Text → Text → ℤ → Result Text dns.Msg) where
  open dns use {Msg, question}

  -- The reply to a request that is judged.
  unfoldable pub respond : Server Msg → Msg → Text → Text → Verdict → Served Msg
  unfolding do_dns_exchange
  respond sv m proto domain v =
      let blocked =
        build_blocked_response dns parse_ip sv.engine.conf sv.private_ip m (question m)
          (is_ip_query (question m)) in
      let passed : Served Msg = elim (resolve sv.resolver_conf sv.device_cache domain) [
        | none ↦ do_dns_exchange dns exchange sv v.store m proto
        | some addr ↦ record {
          store = v.store;
          upstream = sv.upstream;
          reply = some (resolved_response dns parse_ip m addr (is_ip_query (question m)));
          calls = [];
        }
      ] in
      if is_blocking_action v.action
      then record { store = v.store; upstream = sv.upstream; reply = some blocked; calls = [] }
      else passed

  module _ (load_location : Text → Option Location) (local : Location)
      (write : PolicyData → Option StoreError) where
    -- The policy layer after `refreshPolicyRuntime`.
    abbrev pub refreshed_layer : Server Msg → PolicyLayer
    refreshed_layer sv = record sv.layer {
      runtime =
          refresh_policy_runtime load_location local (some sv.policy_store) sv.refresh_now
            sv.layer.runtime;
    }

    -- `dnsHandler`, less the log, with the policy runtime that it leaves.
    unfoldable pub dns_handler : Server Msg → Msg → Text → Text → PolicyRuntime × Served Msg
    unfolding respond
    dns_handler sv m remote proto =
        let domain = request_domain (question m) in
        let layer = refreshed_layer sv in
        (
          layer.runtime,
          respond sv m proto domain (
              decide load_location write layer sv.engine sv.policy_store domain
                (client_address remote)),
        )
