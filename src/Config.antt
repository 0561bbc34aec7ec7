-- ===== src/Config.antt =====
-- internal/config/config.go and blockstrategy.go: the configuration's data. A Go `int` is an
-- integer, a string a text, a slice a list.
pub mod Validate
pub mod Names
use citadel_dnxproxy.Prelude.{Bool, true, false, List}
use citadel_dnxproxy.Prelude.Int.{ℤ}
use citadel_dnxproxy.Text.{Text}

-- `unknown` stands for the int64 values with no name.
pub data ActionType : Type 0 where
  none pass blocked_device blocked_site_ban blocked_time_span : ActionType
  unknown : ℤ → ActionType

pub data RouterType : Type 0 where
  none net_gear unifi : RouterType
  unknown : ℤ → RouterType

pub record BlockStrategy : Type 0 where
  pub action : Text
  pub sinkhole_ipv4 : Text
  pub sinkhole_ipv6 : Text

pub record Router : Type 0 where
  pub host : Text
  pub port : Text
  pub user : Text
  pub password : Text
  pub engine : RouterType
  pub poll_changes : Bool
  pub poll_interval : ℤ
  pub timeout_sec : ℤ

pub record NameServer : Type 0 where
  pub ip : Text

pub record Rule : Type 0 where
  pub type : ActionType
  pub time_span : Text

pub record Host : Type 0 where
  pub name : Text
  pub ipv4 : Text
  pub rules : List Rule

pub record Domain : Type 0 where
  pub name : Text
  pub hosts : List Host

pub record StaticDevice : Type 0 where
  pub name : Text
  pub ip : Text
  pub mac : Text

pub record Config : Type 0 where
  pub logfile : Text
  pub router : Router
  pub listen_address : Text
  pub name_servers : List NameServer
  pub default_rule : ActionType
  pub on_error_rule : ActionType
  pub ipv4_block_resolve : Text
  pub ipv6_block_resolve : Text
  pub block_strategy : BlockStrategy
  pub upstream_timeout_ms : ℤ
  pub upstream_retries : ℤ
  pub upstream_max_fails : ℤ
  pub upstream_fail_window_sec : ℤ
  pub cache_enabled : Bool
  pub cache_ttl_override_sec : ℤ
  pub negative_cache_ttl : ℤ
  pub hosts : List Host
  pub resolve : List Host
  pub domains : List Domain
  pub static_devices : List StaticDevice

-- `action == ActionTypeNone`
abbrev pub is_none : ActionType → Bool
is_none ActionType.none = true
is_none _ = false

-- proxy.go, `isBlockingAction`
unfoldable pub is_blocking_action : ActionType → Bool
is_blocking_action blocked_device = true
is_blocking_action blocked_site_ban = true
is_blocking_action blocked_time_span = true
is_blocking_action _ = false
