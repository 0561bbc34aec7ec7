-- ===== src/Config/Validate.antt =====
-- internal/config/validate.go. An error names the field by its path and the problem; the path is kept
-- as text, and each text of the source that follows it as a constructor. `parse_ip`, `parse_mac`,
-- `split_host_port` and `load_location` are the standard library's net.ParseIP, net.ParseMAC,
-- net.SplitHostPort and time.LoadLocation, true where they report no error.
pub mod Addresses
use citadel_dnxproxy.Prelude.{
  ℕ, zero, suc, Bool, true, false, not, ◌&&◌, ◌||◌, List, [], ◌∷◌, ◌++◌, Option, none, some, ◌==◌,
  if◌then◌else◌, str_eq,
}
use citadel_dnxproxy.Prelude.Int.{ℤ, pos, ltb_ℤ}
use citadel_dnxproxy.Clock.{parse_clock}
use citadel_dnxproxy.Config.{
  ActionType, RouterType, BlockStrategy, Router, NameServer, Rule, Host, Domain, StaticDevice,
  Config,
}
use citadel_dnxproxy.Text.{
  Text, codes, to_lower, trim_space, split, cut, strip_prefix, is_empty, decimal,
}

-- The text of an error behind the path.
pub data Problem : Type 0 where
  must_be_set no_entry must_not_be_none invalid_action invalid_engine : Problem
  not_host_port negative invalid_ip invalid_mac poll_interval invalid_strategy : Problem
  no_time_window invalid_weekdays not_a_range invalid_start invalid_end equal_times : Problem
  invalid_timezone unknown_option : Problem

-- An error, if there is one: the path and the problem.
abbrev pub Report : Type 0
Report = Option (Text × Problem)

-- `if err := first; err != nil { return err }`, and then `next`.
infixl 5 ◌<|>◌
abbrev pub ◌<|>◌ : Report → Report → Report
none <|> next = next
some e <|> next = some e

-- `if test { return error }`
abbrev pub reject : Bool → Text → Problem → Report
reject true path problem = some (path, problem)
reject false path problem = none

abbrev pub blank : Text → Bool
blank s = is_empty (trim_space s)

unfoldable pub field_path : Text → ℕ → Text
field_path base idx = base ++ b'[' ∷ decimal idx ++ codes "]"

-- The loop over a slice with the paths of its elements.
unfoldable pub each {ℓ} : {A : Type ℓ} → (Text → A → Report) → Text → ℕ → List A → Report
each validate base idx [] = none
each validate base idx (x ∷ xs) =
    validate (field_path base idx) x <|> each validate base (suc idx) xs

unfoldable pub validate_router_type : Text → RouterType → Report
validate_router_type path (RouterType.unknown n) = some (path, invalid_engine)
validate_router_type path _ = none

unfoldable pub validate_action : Text → ActionType → Bool → Report
validate_action path ActionType.none required = reject required path must_not_be_none
validate_action path (ActionType.unknown n) required = some (path, invalid_action)
validate_action path _ required = none

-- The weekday section of a time span must not be blank where there is one.
abbrev time_range : Text → Text → Option Text
time_range path part = elim (cut b'@' part) [
  | none ↦ some part
  | some (days, range) ↦ if blank days then none else some range
]

abbrev same_clock : ℕ → ℕ → Text → Report
same_clock start end path = reject (start == end) path equal_times

abbrev validate_end : Text → ℕ → Option ℕ → Report
validate_end path start none = some (path, invalid_end)
validate_end path start (some end) = same_clock start end path

abbrev validate_start : Text → Option ℕ → Option ℕ → Report
validate_start path none end = some (path, invalid_start)
validate_start path (some start) end = validate_end path start end

unfoldable pub validate_times : Text → List Text → Report
validate_times path (from ∷ to ∷ []) = validate_start path (parse_clock from) (parse_clock to)
validate_times path _ = some (path, not_a_range)

abbrev validate_range : Text → Option Text → Report
validate_range path none = some (path, invalid_weekdays)
validate_range path (some range) = validate_times path (split b'-' range)

module _ (load_location : Text → Bool) where
  abbrev validate_zone : Text → Option Text → Report
  validate_zone path none = some (path, unknown_option)
  validate_zone path (some name) = reject (not (load_location name)) path invalid_timezone

  unfoldable pub validate_options : Text → List Text → Report
  validate_options path [] = none
  validate_options path (opt ∷ opts) =
      (if blank opt then none else validate_zone path (strip_prefix (codes "tz=") (trim_space opt)))
      <|> validate_options path opts

  abbrev validate_parts : Text → List Text → Report
  validate_parts path [] = some (path, no_time_window)
  validate_parts path (part ∷ opts) =
      if is_empty part
      then some (path, no_time_window)
      else validate_range path (time_range path part) <|> validate_options path opts

  unfoldable pub validate_time_span : Text → Text → Report
  unfolding validate_times validate_options
  validate_time_span path span = validate_parts path (split b'|' span)

  unfoldable pub validate_rule : Text → Rule → Report
  unfolding validate_action validate_time_span
  validate_rule path r =
      validate_action (path ++ codes ".Type") r.type false
      <|> (if blank r.time_span
          then none
          else validate_time_span (path ++ codes ".TimeSpan") r.time_span)

  unfoldable pub validate_host : Text → Host → Report
  unfolding each validate_rule
  validate_host path h =
      reject (blank h.name) (path ++ codes ".Name") must_be_set
      <|> each validate_rule (path ++ codes ".Rules") 0 h.rules

  unfoldable pub validate_domain : Text → Domain → Report
  unfolding each validate_host
  validate_domain path d =
      reject (blank d.name) (path ++ codes ".Name") must_be_set
      <|> each validate_host (path ++ codes ".Hosts") 0 d.hosts

unfoldable pub validate_router : Text → Router → Report
unfolding validate_router_type
validate_router path r =
    let checks =
      validate_router_type (path ++ codes ".Engine") r.engine
      <|> reject (blank r.host) (path ++ codes ".Host") must_be_set
      <|> reject (blank r.port) (path ++ codes ".Port") must_be_set
      <|> reject (blank r.user) (path ++ codes ".User") must_be_set
      <|> reject (blank r.password) (path ++ codes ".Password") must_be_set
      <|> reject (r.poll_changes && ltb_ℤ r.poll_interval (pos 10)) (path ++ codes ".PollInterval")
          poll_interval in
    elim r.engine [ RouterType.none ↦ none | _ ↦ checks ]

unfoldable pub validate_name_server : (Text → Bool) → Text → NameServer → Report
validate_name_server split_host_port path n =
    reject (blank n.ip) (path ++ codes ".IP") must_be_set
    <|> reject (not (split_host_port n.ip)) (path ++ codes ".IP") not_host_port

module _ (parse_ip : Text → Bool) where
  unfoldable pub validate_resolve : Text → Host → Report
  validate_resolve path h =
      reject (blank h.name) (path ++ codes ".Name") must_be_set
      <|> reject (blank h.ipv4) (path ++ codes ".IpV4") must_be_set
      <|> reject (not (parse_ip h.ipv4)) (path ++ codes ".IpV4") invalid_ip

  unfoldable pub validate_static_device : (Text → Bool) → Text → StaticDevice → Report
  validate_static_device parse_mac path s =
      reject (blank s.name) (path ++ codes ".Name") must_be_set
      <|> reject (blank s.ip) (path ++ codes ".IP") must_be_set
      <|> reject (not (parse_ip s.ip)) (path ++ codes ".IP") invalid_ip
      <|> reject (not (blank s.mac) && not (parse_mac s.mac)) (path ++ codes ".MAC") invalid_mac

  abbrev pub or_default : Text → Text → Text
  or_default s default = if is_empty s then default else s

  abbrev validate_addresses : Text → BlockStrategy → Text → Text → Report
  validate_addresses path b default_v4 default_v6 =
      reject (not (parse_ip (or_default b.sinkhole_ipv4 default_v4)))
        (path ++ codes ".SinkholeIPv4") invalid_ip
      <|> reject (not (parse_ip (or_default b.sinkhole_ipv6 default_v6)))
          (path ++ codes ".SinkholeIPv6") invalid_ip

  -- The switch on the action, and the addresses of the two actions that need them.
  abbrev by_action : Text → Text → Report → Report
  by_action path action addresses =
      if str_eq action (codes "nxdomain")
      then none
      else if str_eq action (codes "refuse")
      then none
      else if str_eq action (codes "nullroute") || str_eq action (codes "sinkhole")
      then addresses
      else some (path ++ codes ".Action", invalid_strategy)

  unfoldable pub validate_block_strategy : Text → BlockStrategy → Text → Text → Report
  validate_block_strategy path b default_v4 default_v6 =
      by_action path (or_default (to_lower (trim_space b.action)) (codes "nullroute"))
        (validate_addresses path b default_v4 default_v6)

unfoldable pub validate :
    (Text → Bool) → (Text → Bool) → (Text → Bool) → (Text → Bool) → Config → Report
unfolding validate_action validate_name_server validate_router each validate_host validate_domain
    validate_resolve validate_static_device validate_block_strategy
validate parse_ip parse_mac split_host_port load_location c =
    reject (is_empty c.logfile) (codes "Logfile") must_be_set
    <|> reject (is_empty c.listen_address) (codes "ListenAddress") must_be_set
    <|> validate_action (codes "DefaultRule") c.default_rule true
    <|> validate_action (codes "OnErrorRule") c.on_error_rule true
    <|> (elim c.name_servers [ [] ↦ some (codes "NameServers", no_entry) | _ ∷ _ ↦ none ])
    <|> each (validate_name_server split_host_port) (codes "NameServers") 0 c.name_servers
    <|> validate_router (codes "Router") c.router
    <|> reject (ltb_ℤ c.upstream_timeout_ms (pos 0)) (codes "UpstreamTimeoutMs") negative
    <|> reject (ltb_ℤ c.upstream_retries (pos 0)) (codes "UpstreamRetries") negative
    <|> reject (ltb_ℤ c.upstream_max_fails (pos 0)) (codes "UpstreamMaxFails") negative
    <|> reject (ltb_ℤ c.upstream_fail_window_sec (pos 0)) (codes "UpstreamFailWindowSec") negative
    <|> reject (ltb_ℤ c.cache_ttl_override_sec (pos 0)) (codes "CacheTTLOverrideSec") negative
    <|> reject (ltb_ℤ c.negative_cache_ttl (pos 0)) (codes "NegativeCacheTTL") negative
    <|> each (validate_host load_location) (codes "Hosts") 0 c.hosts
    <|> each (validate_domain load_location) (codes "Domains") 0 c.domains
    <|> each (validate_resolve parse_ip) (codes "Resolve") 0 c.resolve
    <|> each (validate_static_device parse_ip parse_mac) (codes "StaticDevices") 0 c.static_devices
    <|> validate_block_strategy parse_ip (codes "BlockStrategy") c.block_strategy
        c.ipv4_block_resolve c.ipv6_block_resolve
